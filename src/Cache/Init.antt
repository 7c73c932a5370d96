-- ===== src/Cache/Init.antt =====
-- The cache that cache_init makes.
use backup_gatech.Common.{
  ℕ, ◌+◌, ◌-◌, ◌^◌, ◌<◌, ◌≡◌, [], false, arith, refl, length, get_or, get_or-out, replicate,
  length-replicate, get_or-replicate, dec_lt, ◌≤◌,
}
use backup_gatech.Cache.{Stats, empty_block, configure, cache_init, holds, get_index}
use backup_gatech.Cache.Address.{pow-pos, address_split, configure-IsConfig}
use backup_gatech.Cache.Lines.{TagsDiffer}
use backup_gatech.Cache.Access.{IsValid}

empty_line-holds :
    (n j tag : ℕ) → holds tag (get_or (replicate n empty_block) j empty_block) ≡ false
empty_line-holds n j tag = elim (dec_lt j n) [
  | yes l ↦ rw (get_or-replicate n j empty_block empty_block l) refl
  | no l ↦
      rw
        (get_or-out (replicate n empty_block) j empty_block
          (omega (arith, length-replicate n empty_block)))
        refl
]

empty_line-TagsDiffer : (n : ℕ) → TagsDiffer (replicate n empty_block)
empty_line-TagsDiffer n i j tag hi hj = let none_holds = empty_line-holds n i tag in absurd (cc)

-- Every line, and every index past the last line, holds no tag twice.
init_line-TagsDiffer :
    (m n i : ℕ) → TagsDiffer (get_or (replicate m (replicate n empty_block)) i [])
init_line-TagsDiffer m n i = elim (dec_lt i m) [
  | yes l ↦ rw (get_or-replicate m i (replicate n empty_block) [] l) (empty_line-TagsDiffer n)
  | no l ↦
      rw
        (get_or-out (replicate m (replicate n empty_block)) i []
          (omega (arith, length-replicate m (replicate n empty_block))))
        (empty_line-TagsDiffer 0)
]

-- A cache that cache_init makes is valid, and has a line for the index of every address, if C, S
-- and B make a cache.
pub cache_init-IsValid :
    (c s b : ℕ) (st : Stats)
    → b + s ≤ c
    → c ≤ s + 64
    → IsValid (cache_init c s b st)
      × ((addr : ℕ) → get_index (configure c s b) addr < length (cache_init c s b st).lines)
unfolding cache_init configure
cache_init-IsValid c s b st h k =
    let m = 2 ^ (c - b - s) in
    let line = replicate (2 ^ s) empty_block in
    let size = length-replicate m line in
    (
      record {
        filled = λ i l.
            rw (get_or-replicate m i line [] (omega (arith, size)))
              (omega (arith, length-replicate (2 ^ s) empty_block, pow-pos s));
        differ = λ i. init_line-TagsDiffer m (2 ^ s) i;
      },
      λ addr. rw size (address_split (configure c s b) addr (configure-IsConfig c s b h k)).0,
    )
