-- ===== src/Cache/Counts.antt =====
-- The statistics: every access is a read or a write, every miss is a read miss or a write miss.
use backup_gatech.Common.{ℕ, ◌+◌, ◌%◌, ◌^◌, ◌≡◌, List, arith, Option-cases, inl, inr}
use backup_gatech.Cache.{
  Block, Stats, Config, Cache, count_access, count_miss, count_write_back, access_line,
  cache_access, get_hit_block, get_empty_block,
}

-- Counted modulo 2 ^ 64, as the counters are.
pub record IsBalanced (st : Stats) : Type 0 where
  pub accesses_split : st.accesses ≡ (st.reads + st.writes) % 2 ^ 64
  pub misses_split : st.misses ≡ (st.read_misses + st.write_misses) % 2 ^ 64

count_access-IsBalanced : (op : ℕ) (st : Stats) → IsBalanced st → IsBalanced (count_access op st)
unfolding count_access
count_access-IsBalanced op st b = ground arith

count_miss-IsBalanced : (op : ℕ) (st : Stats) → IsBalanced st → IsBalanced (count_miss op st)
unfolding count_miss
count_miss-IsBalanced op st b = ground arith

count_write_back-IsBalanced :
    (d : _) (st : Stats) → IsBalanced st → IsBalanced (count_write_back d st)
unfolding count_write_back
count_write_back-IsBalanced d st b = ground arith

access_line-IsBalanced :
    (op tag t : ℕ) (line : List Block) (st : Stats)
    → IsBalanced st
    → IsBalanced (access_line op tag t line st).1
unfolding access_line
access_line-IsBalanced op tag t line st b = elim (Option-cases (get_hit_block line tag)) [
  | inr (i, e) ↦ rw (e, access_line) b
  | inl e ↦ elim (Option-cases (get_empty_block line)) [
    | inr (i, e') ↦ rw (e, access_line, e') (count_miss-IsBalanced op st b)
    | inl e' ↦
        rw (e, access_line, e')
          (count_write_back-IsBalanced _ (count_miss op st) (count_miss-IsBalanced op st b))
  ]
]

-- Every access keeps the statistics balanced: the accesses are the reads and the writes, and the
-- misses are the read misses and the write misses, modulo 2 ^ 64.
pub cache_access-IsBalanced :
    (g : Config) (op addr : ℕ) (c : Cache)
    → IsBalanced c.stats
    → IsBalanced (cache_access g op addr c).stats
unfolding cache_access
cache_access-IsBalanced g op addr c b =
    access_line-IsBalanced op _ c.time _ (count_access op c.stats)
      (count_access-IsBalanced op c.stats b)
