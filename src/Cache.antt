-- ===== src/Cache.antt =====
-- The cache simulator, cs_2200/caching/prj5/cachesim.c. The cache is a list of lines, each a list
-- of `num_blocks_per_line` blocks; the clock and the statistics are part of the state. Counters
-- are uint64_t. The two fields of the statistics that are doubles, and cache_cleanup, which
-- computes them, are left out.
pub mod Address
pub mod Lines
pub mod Access
pub mod Counts
pub mod Init
mod Tests
use backup_gatech.Common.{
  ℕ, zero, suc, ◌+◌, ◌-◌, ◌*◌, ◌/◌, ◌%◌, ◌^◌, Option, none, some, List, [], ◌∷◌, Bool, true, false,
  ◌&&◌, ◌||◌, not, if◌then◌else◌, ◌==◌, ltb, get_or, set, replicate,
}
use mathlib.Core.Option

pub record Block : Type 0 where
  pub timestamp : ℕ
  pub valid : Bool
  pub dirty : Bool
  pub tag : ℕ

-- What `cache_init` computes from C, S and B.
pub record Config : Type 0 where
  pub offset_size : ℕ
  pub index_size : ℕ
  pub tag_size : ℕ

pub record Stats : Type 0 where
  pub accesses : ℕ
  pub reads : ℕ
  pub read_misses : ℕ
  pub writes : ℕ
  pub write_misses : ℕ
  pub misses : ℕ
  pub write_backs : ℕ

pub record Cache : Type 0 where
  pub lines : List (List Block)
  pub time : ℕ
  pub stats : Stats

abbrev pub inc : ℕ → ℕ
inc n = (n + 1) % 2 ^ 64

abbrev pub read_op : ℕ
read_op = b'r'

abbrev pub write_op : ℕ
write_op = b'w'

-- C - B - S and 64 - index_size - offset_size; C is at most 64 and at least B + S.
pub configure : (c s b : ℕ) → Config
configure c s b = record {
  offset_size = b;
  index_size = c - b - s;
  tag_size = 64 - (c - b - s) - b;
}

abbrev pub empty_block : Block
empty_block = record { timestamp = 0; valid = false; dirty = false; tag = 0 }

-- (1 << index_size and 1 << S are of an int: both are below 31.)
pub cache_init : (c s b : ℕ) → Stats → Cache
unfolding configure
cache_init c s b st = record {
  lines = replicate (2 ^ (configure c s b).index_size) (replicate (2 ^ s) empty_block);
  time = 0;
  stats = st;
}

pub get_tag : Config → ℕ → ℕ
get_tag g addr = addr / 2 ^ (g.index_size + g.offset_size)

pub get_index : Config → ℕ → ℕ
get_index g addr =
    if g.tag_size == 64
    then 0
    else (addr * 2 ^ g.tag_size % 2 ^ 64 / 2 ^ g.tag_size / 2 ^ g.offset_size)

-- `for (i = 0; …) if (test(blocks[i])) { block = &blocks[i]; break; }`
pub first_index : (Block → Bool) → List Block → Option ℕ
first_index p [] = none
first_index p (b ∷ bs) = if p b then some 0 else Option.map suc (first_index p bs)

abbrev pub holds : ℕ → Block → Bool
holds tag b = b.valid && b.tag == tag

pub get_hit_block : List Block → ℕ → Option ℕ
get_hit_block line tag = first_index (holds tag) line

pub get_empty_block : List Block → Option ℕ
get_empty_block line = first_index (λ b. not b.valid) line

-- The loop of `get_lru_block` from block `i` on.
pub lru_from : List Block → (i best min_time : ℕ) → ℕ
lru_from [] i best min_time = best
lru_from (b ∷ bs) i best min_time =
    lru_from bs (suc i) (if ltb b.timestamp min_time then i else best)
      (if ltb b.timestamp min_time then b.timestamp else min_time)

pub get_lru_block : List Block → ℕ
get_lru_block [] = 0
get_lru_block (b ∷ bs) = lru_from bs 1 0 b.timestamp

pub load_into_block : (tag : ℕ) → (write : Bool) → (time : ℕ) → Block
load_into_block tag w t = record { timestamp = t; valid = true; dirty = w; tag = tag }

pub touch : Block → (op time : ℕ) → Block
touch b op t = record b { dirty = b.dirty || op == write_op; timestamp = t }

pub count_access : ℕ → Stats → Stats
count_access op st =
    if op == read_op
    then record st { accesses = inc st.accesses; reads = inc st.reads }
    else record st { accesses = inc st.accesses; writes = inc st.writes }

pub count_miss : ℕ → Stats → Stats
count_miss op st =
    if op == read_op
    then record st { misses = inc st.misses; read_misses = inc st.read_misses }
    else record st { misses = inc st.misses; write_misses = inc st.write_misses }

pub count_write_back : Bool → Stats → Stats
count_write_back dirty st = if dirty then record st { write_backs = inc st.write_backs } else st

-- The line and the statistics after an access to a line; the clock ticks once.
pub access_line : (op tag time : ℕ) → List Block → Stats → List Block × Stats
access_line op tag t line st = elim (get_hit_block line tag) [
  | some i ↦ (set line i (touch (get_or line i empty_block) op t), st)
  | none ↦ elim (get_empty_block line) [
    | some i ↦ (set line i (load_into_block tag (op == write_op) t), count_miss op st)
    | none ↦ (
      set line (get_lru_block line) (load_into_block tag (op == write_op) t),
      count_write_back (get_or line (get_lru_block line) empty_block).dirty (count_miss op st),
    )
  ]
]

pub cache_access : Config → (op addr : ℕ) → Cache → Cache
cache_access g op addr c =
    let i = get_index g addr in
    let (line, st) =
      access_line op (get_tag g addr) c.time (get_or c.lines i []) (count_access op c.stats) in
    record { lines = set c.lines i line; time = inc c.time; stats = st }
