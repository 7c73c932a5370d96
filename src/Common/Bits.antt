-- ===== src/Common/Bits.antt =====
-- Single bits of a machine word, and of an array of 32-bit words used as a bitmap:
-- `bitmap[i / 32] & (1 << (i % 32))`, `|=` and `&= ~` with the same mask.
use Prim.Native.Nat.{ℕ, zero, suc, ◌+◌, ◌-◌, ◌^◌, ◌*◌, ◌/◌, ◌%◌, ◌<◌}
use mathlib.Core.Path.{◌≡◌, refl, refl}
use mathlib.Core.Bool.{Bool, true, false}
use mathlib.Core.List.{List}
use native.Mathlib.Omega.{arith}
use backup_gatech.Common.Tests.{◌==◌, if◌then◌else◌}
use backup_gatech.Common.Lists.{
  length, get_or, set, length-set, get_or-set, replicate, get_or-replicate,
}

-- `w & (1 << k)` as a truth value.
unfoldable pub has_bit : ℕ → ℕ → Bool
has_bit zero w = w % 2 == 1
has_bit (suc k) w = has_bit k (w / 2)

-- `w | (1 << k)`.
unfoldable pub set_bit : ℕ → ℕ → ℕ
set_bit zero w = w / 2 * 2 + 1
set_bit (suc k) w = set_bit k (w / 2) * 2 + w % 2

-- `w & ~(1 << k)`.
unfoldable pub clear_bit : ℕ → ℕ → ℕ
clear_bit zero w = w / 2 * 2
clear_bit (suc k) w = clear_bit k (w / 2) * 2 + w % 2

half_of_digits : (q r : ℕ) → r < 2 → (q * 2 + r) / 2 ≡ q
half_of_digits q r h = omega arith

pub has_bit-set_bit : (j k w : ℕ) → has_bit j (set_bit k w) ≡ (if k == j then true else has_bit j w)
unfolding has_bit set_bit
has_bit-set_bit zero zero w = ground arith
has_bit-set_bit (suc j) zero w = rw (half_of_digits (w / 2) 1 (omega arith)) (ground arith)
has_bit-set_bit zero (suc k) w = ground arith
has_bit-set_bit (suc j) (suc k) w =
    rw (half_of_digits (set_bit k (w / 2)) (w % 2) (omega arith), has_bit-set_bit j k (w / 2))
      (ground arith)

pub has_bit-clear_bit :
    (j k w : ℕ) → has_bit j (clear_bit k w) ≡ (if k == j then false else has_bit j w)
unfolding has_bit clear_bit
has_bit-clear_bit zero zero w = ground arith
has_bit-clear_bit (suc j) zero w =
    let e : w / 2 * 2 / 2 ≡ w / 2 = omega arith in rw e (ground arith)
has_bit-clear_bit zero (suc k) w = ground arith
has_bit-clear_bit (suc j) (suc k) w =
    rw (half_of_digits (clear_bit k (w / 2)) (w % 2) (omega arith), has_bit-clear_bit j k (w / 2))
      (ground arith)

-- The bit of number `i` in an array of 32-bit words; a read out of range is 0.
unfoldable pub bit_at : List ℕ → ℕ → Bool
bit_at ws i = has_bit (i % 32) (get_or ws (i / 32) 0)

pub set_bit_at : List ℕ → ℕ → List ℕ
set_bit_at ws i = set ws (i / 32) (set_bit (i % 32) (get_or ws (i / 32) 0))

pub clear_bit_at : List ℕ → ℕ → List ℕ
clear_bit_at ws i = set ws (i / 32) (clear_bit (i % 32) (get_or ws (i / 32) 0))

-- An array of `length ws` words holds the bits `i < 32 * length ws`.
pub bit_at-set_bit_at :
    (ws : List ℕ) (i j : ℕ)
    → i < 32 * length ws
    → bit_at (set_bit_at ws i) j ≡ (if i == j then true else bit_at ws j)
unfolding bit_at set_bit_at
bit_at-set_bit_at ws i j h = ground (
  arith,
  get_or-set ws (i / 32) (j / 32) (set_bit (i % 32) (get_or ws (i / 32) 0)) 0,
  has_bit-set_bit (j % 32) (i % 32) (get_or ws (i / 32) 0),
)

pub bit_at-clear_bit_at :
    (ws : List ℕ) (i j : ℕ)
    → i < 32 * length ws
    → bit_at (clear_bit_at ws i) j ≡ (if i == j then false else bit_at ws j)
unfolding bit_at clear_bit_at
bit_at-clear_bit_at ws i j h = ground (
  arith,
  get_or-set ws (i / 32) (j / 32) (clear_bit (i % 32) (get_or ws (i / 32) 0)) 0,
  has_bit-clear_bit (j % 32) (i % 32) (get_or ws (i / 32) 0),
)

pub length-set_bit_at : (ws : List ℕ) (i : ℕ) → length (set_bit_at ws i) ≡ length ws
unfolding set_bit_at
length-set_bit_at ws i = length-set ws (i / 32) _

pub length-clear_bit_at : (ws : List ℕ) (i : ℕ) → length (clear_bit_at ws i) ≡ length ws
unfolding clear_bit_at
length-clear_bit_at ws i = length-set ws (i / 32) _

-- The word with ones in its lowest `n` bits.
ones : ℕ → ℕ
ones zero = 0
ones (suc n) = ones n * 2 + 1

has_bit-ones : (k n : ℕ) → k < n → has_bit k (ones n) ≡ true
unfolding has_bit ones
has_bit-ones zero zero l = absurd (omega arith)
has_bit-ones zero (suc n) l = ground arith
has_bit-ones (suc k) zero l = absurd (omega arith)
has_bit-ones (suc k) (suc n) l =
    rw (half_of_digits (ones n) 1 (omega arith)) (has_bit-ones k n (omega arith))

word_of_ones : ones 32 ≡ 2 ^ 32 - 1
unfolding ones
word_of_ones = refl

-- Every bit of an array of words with all bits set is set.
pub bit_at-ones : (n j : ℕ) → j < 32 * n → bit_at (replicate n (2 ^ 32 - 1)) j ≡ true
unfolding bit_at
bit_at-ones n j h =
    rw (get_or-replicate n (j / 32) (2 ^ 32 - 1) 0 (omega arith), ← word_of_ones)
      (has_bit-ones (j % 32) 32 (omega arith))
