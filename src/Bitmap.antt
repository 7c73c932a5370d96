-- ===== src/Bitmap.antt =====
-- The search loop that `alloc_blockno` (os_final_project/code/kern/paging_utils.c) and
-- `alloc_block` (os_final_project/code/fs/fs.c) share: the first set bit of a bitmap.
use backup_gatech.Common.{
  ℕ, zero, suc, ◌+◌, ◌≤◌, ◌<◌, ◌≡◌, Option, none, some, List, true, false, arith, if◌then◌else◌,
  bit_at, dec_lt,
}

-- `for (i = from; i < from + rounds; i++) if (bit i is set) break;`
unfoldable pub first_set : List ℕ → (rounds from : ℕ) → Option ℕ
first_set ws zero i = none
first_set ws (suc k) i = let rest = first_set ws k (suc i) in if bit_at ws i then some i else rest

-- What a successful search returns.
pub first_set-some :
    (ws : List ℕ) (k i : ℕ) {b : ℕ}
    → first_set ws k i ≡ some b
    → (i ≤ b) × (b < i + k) × (bit_at ws b ≡ true)
unfolding first_set
first_set-some ws zero i e = ground arith
first_set-some ws (suc k) i {b} e = ground (arith, first_set-some ws k (suc i) {b = b})

pub first_set-least :
    (ws : List ℕ) (k i j : ℕ) {b : ℕ}
    → first_set ws k i ≡ some b
    → i ≤ j
    → j < b
    → bit_at ws j ≡ false
unfolding first_set
first_set-least ws zero i j e p q = ground arith
first_set-least ws (suc k) i j {b} e p q = ground (arith, first_set-least ws k (suc i) j {b = b})

pub first_set-none :
    (ws : List ℕ) (k i j : ℕ) → first_set ws k i ≡ none → i ≤ j → j < i + k → bit_at ws j ≡ false
unfolding first_set
first_set-none ws zero i j e p q = absurd (omega arith)
first_set-none ws (suc k) i j e p q = ground (arith, first_set-none ws k (suc i) j)

-- The search finds the bit that is the first to be set.
pub first_set-eq :
    (ws : List ℕ) (k i b : ℕ)
    → i ≤ b
    → b < i + k
    → bit_at ws b ≡ true
    → ((j : ℕ) → i ≤ j → j < b → bit_at ws j ≡ false)
    → first_set ws k i ≡ some b
unfolding first_set
first_set-eq ws zero i b p q set clear = absurd (omega arith)
first_set-eq ws (suc k) i b p q set clear = elim (dec_lt i b) [
  | yes h ↦
      rw (clear i (omega arith) h)
        (first_set-eq ws k (suc i) b h (omega arith) set (λ j l. clear j (omega arith)))
  | no h ↦ let e : i ≡ b = omega arith in ground arith
]
