-- ===== src/Text/Copies.antt =====
-- Lengths and copies of strings that end in a zero.
use backup_gatech.Common.{
  ℕ, zero, suc, ◌<◌, ◌≤◌, ◌≡◌, ◌≢◌, some, List, [], ◌∷◌, ◌++◌, false, arith, refl, sym, ap, ◌==◌,
  length, take, drop, min, take-append_length, drop-append_length,
}
use mathlib.Core.List.{append_assoc}
use backup_gatech.Text.{strlen, strnlen, strcpy, strcat, strlcpy, strlcpy_loop}

-- No byte of the text is zero.
abbrev pub IsText : List ℕ → Type 0
IsText [] = Unit {0}
IsText (c ∷ s) = (c ≢ 0) × IsText s

-- A text in memory, with its zero and what follows.
abbrev pub stored : List ℕ → List ℕ → List ℕ
stored s rest = s ++ (0 ∷ rest)

-- strlen of a text in memory is its length.
pub strlen-stored : (s rest : List ℕ) → IsText s → strlen (stored s rest) ≡ some (length s)
unfolding strlen
strlen-stored [] rest t = refl
strlen-stored (c ∷ s) rest t =
    let e : (c == 0) ≡ false = ground arith in rw (e, strlen-stored s rest t.1) refl

pub strnlen-stored :
    (s rest : List ℕ) (n : ℕ) → IsText s → strnlen (stored s rest) n ≡ some (min n (length s))
unfolding strnlen
strnlen-stored s rest zero t = ap some (omega arith)
strnlen-stored [] rest (suc n) t = ap some (omega arith)
strnlen-stored (c ∷ s) rest (suc n) t =
    let e : (c == 0) ≡ false = ground arith in
    rw (e, strnlen-stored s rest n t.1) (ap some (omega arith))

-- strcpy writes the text and its zero, and leaves the rest of the destination as it was.
pub strcpy-stored :
    (dst s rest : List ℕ)
    → IsText s
    → length s < length dst
    → strcpy dst (stored s rest) ≡ some (stored s (drop (suc (length s)) dst))
unfolding strcpy
strcpy-stored [] s rest t l = absurd (omega arith)
strcpy-stored (d ∷ ds) [] rest t l = refl
strcpy-stored (d ∷ ds) (c ∷ s) rest t l =
    let e : (c == 0) ≡ false = ground arith in
    rw (e, strcpy-stored ds s rest t.1 (omega arith)) refl

-- strcat joins two texts, if the destination has room for both and a zero.
pub strcat-stored :
    (a b gap rest : List ℕ)
    → IsText a
    → IsText b
    → length b ≤ length gap
    → strcat (stored a gap) (stored b rest) ≡ some (stored (a ++ b) (drop (length b) gap))
unfolding strcat
strcat-stored a b gap rest ta tb l =
    rw
      (
        strlen-stored a gap ta,
        strcat,
        drop-append_length a (0 ∷ gap),
        strcpy-stored (0 ∷ gap) b rest tb (omega arith),
        take-append_length a (0 ∷ gap),
      )
      (ap some (sym (append_assoc a b (0 ∷ drop (length b) gap))))

strlcpy_loop-stored :
    (dst s rest : List ℕ) (n : ℕ)
    → IsText s
    → suc n ≤ length dst
    → strlcpy_loop dst (stored s rest) n
      ≡ some (min n (length s), stored (take n s) (drop (suc (min n (length s))) dst))
unfolding strlcpy_loop
strlcpy_loop-stored [] s rest n t l = absurd (omega arith)
strlcpy_loop-stored (d ∷ ds) s rest zero t l =
    let none_left : min 0 (length s) ≡ 0 = omega arith in rw none_left refl
strlcpy_loop-stored (d ∷ ds) [] rest (suc n) t l =
    let none_left : min (suc n) 0 ≡ 0 = omega arith in rw none_left refl
strlcpy_loop-stored (d ∷ ds) (c ∷ s) rest (suc n) t l =
    let e : (c == 0) ≡ false = ground arith in
    let m : min (suc n) (suc (length s)) ≡ suc (min n (length s)) = omega arith in
    rw (e, strlcpy_loop-stored ds s rest n t.1 (omega arith), m) refl

-- With a size that is not 0 and no larger than the destination, strlcpy copies as much of the
-- text as fits before a zero, always ends the destination with a zero, and returns the number
-- of bytes that it copied.
pub strlcpy-stored :
    (dst s rest : List ℕ) (n : ℕ)
    → IsText s
    → suc n ≤ length dst
    → strlcpy dst (stored s rest) (suc n)
      ≡ some (min n (length s), stored (take n s) (drop (suc (min n (length s))) dst))
unfolding strlcpy
strlcpy-stored dst s rest n t l = strlcpy_loop-stored dst s rest n t l
