-- ===== src/Text/Numbers.antt =====
-- Printing a number and reading it back: printnum and strtol.
use backup_gatech.Common.{
  ℕ, zero, suc, ◌+◌, ◌*◌, ◌/◌, ◌%◌, ◌^◌, ◌<◌, ◌≤◌, ◌≡◌, ◌≢◌, some, List, [], ◌∷◌, ◌++◌, true, false,
  arith, refl, ap, ◌∙◌, ◌==◌, leb, Bool-cases, inl, inr,
}
use mathlib.Core.Option
use mathlib.Core.List.{append_assoc}
use native.Mathlib.Nat.{div-add-mod', div-lt_self, mod-lt, mod-eq_of_lt}
use backup_gatech.Text.{
  digit_char, digit_value, digits_loop, printnum_loop, printnum, skip_space, sign, prefix,
  is_hex_prefix, strtol,
}

-- A base that the digits 0 to f serve.
pub record IsBase (b : ℕ) : Type 0 where
  pub two : 2 ≤ b
  pub sixteen : b ≤ 16

digit_value-digit_char : (d : ℕ) → d < 16 → digit_value (digit_char d) ≡ some d
unfolding digit_value digit_char
digit_value-digit_char d h = ground arith

digits_loop-digit :
    (d b v : ℕ) (s : List ℕ)
    → d < 16
    → d < b
    → digits_loop (digit_char d ∷ s) b v ≡ digits_loop s b ((v * b + d) % 2 ^ 32)
unfolding digits_loop
digits_loop-digit d b v s h l =
    let e : leb b d ≡ false = ground arith in rw (digit_value-digit_char d h, digits_loop, e) refl

-- One digit more.
printnum_loop-more :
    (k num b padc : ℕ) (s : List ℕ)
    → leb b num ≡ true
    → printnum_loop (suc k) num b 0 padc ++ s
      ≡ printnum_loop k (num / b) b 0 padc ++ (digit_char (num % b) ∷ s)
unfolding printnum_loop
printnum_loop-more k num b padc s e =
    rw (e, printnum_loop)
      (append_assoc (printnum_loop k (num / b) b 0 padc) (digit_char (num % b) ∷ []) s)

printnum_loop-last :
    (k num b padc : ℕ) (s : List ℕ)
    → leb b num ≡ false
    → printnum_loop (suc k) num b 0 padc ++ s ≡ digit_char (num % b) ∷ s
unfolding printnum_loop
printnum_loop-last k num b padc s e = rw (e, printnum_loop) refl

digit-lt : (num b : ℕ) → IsBase b → num % b < b
digit-lt num b v = mod-lt num (omega arith)

rest-lt : (num b : ℕ) → IsBase b → leb b num ≡ true → num / b < num
rest-lt num b v e = div-lt_self (ground arith) (omega arith)

-- Reading what printnum prints gives the number, and goes on with what follows.
digits_loop-printnum :
    (k num b padc : ℕ) (s : List ℕ)
    → IsBase b
    → num < k
    → num < 2 ^ 32
    → digits_loop (printnum_loop k num b 0 padc ++ s) b 0 ≡ digits_loop s b num
digits_loop-printnum zero num b padc s v h w = absurd (omega arith)
digits_loop-printnum (suc k) num b padc s v h w = elim (Bool-cases (leb b num)) [
  | inl e ↦
      let less = rest-lt num b v e in
      let joined : (num / b * b + num % b) % 2 ^ 32 ≡ num =
        ap (λ n. n % 2 ^ 32) (div-add-mod' num b) ∙ mod-eq_of_lt w in
      rw
        (
          printnum_loop-more k num b padc s e,
          digits_loop-printnum k (num / b) b padc (digit_char (num % b) ∷ s) v (omega arith)
              (omega arith),
          digits_loop-digit (num % b) b (num / b) s (omega (arith, digit-lt num b v))
              (digit-lt num b v),
        )
        (ap (digits_loop s b) joined)
  | inr e ↦
      let digit : num % b ≡ num = mod-eq_of_lt (ground arith) in
      let joined : (0 * b + num % b) % 2 ^ 32 ≡ num =
        ap (λ n. (0 * b + n) % 2 ^ 32) digit ∙ omega arith in
      rw
        (
          printnum_loop-last k num b padc s e,
          digits_loop-digit (num % b) b 0 s (omega (arith, digit-lt num b v)) (digit-lt num b v),
        )
        (ap (digits_loop s b) joined)
]

abbrev NoX : List ℕ → Type 0
NoX [] = Unit {0}
NoX (c ∷ s) = c ≢ b'x'

-- The text starts with a digit and no 'x' follows, so no space, sign or prefix is taken from it.
record IsPlain (s : List ℕ) : Type 0 where
  first : ℕ
  rest : List ℕ
  small : first < 16
  starts : s ≡ digit_char first ∷ rest
  no_x : is_hex_prefix s ≡ false

digit_char-ne-x : (d : ℕ) → d < 16 → digit_char d ≢ b'x'
unfolding digit_char
digit_char-ne-x d h = ground arith

not_hex : (c : ℕ) (s : List ℕ) → NoX s → is_hex_prefix (c ∷ s) ≡ false
not_hex c [] n = refl
not_hex c (d ∷ s) n = ground arith

printnum_loop-NoX :
    (k num b padc : ℕ) (s : List ℕ)
    → IsBase b
    → num < k
    → NoX s
    → IsPlain (printnum_loop k num b 0 padc ++ s)
printnum_loop-NoX zero num b padc s v h n = absurd (omega arith)
printnum_loop-NoX (suc k) num b padc s v h n =
    let small : num % b < 16 = omega (arith, digit-lt num b v) in
    let n' : NoX (digit_char (num % b) ∷ s) = digit_char-ne-x (num % b) small in
    elim (Bool-cases (leb b num)) [
      | inl e ↦ rw (printnum_loop-more k num b padc s e) (
          printnum_loop-NoX k (num / b) b padc (digit_char (num % b) ∷ s) v
            (omega (arith, rest-lt num b v e)) n')
      | inr e ↦ rw (printnum_loop-last k num b padc s e) (record {
        first = num % b;
        rest = s;
        small = small;
        starts = refl;
        no_x = not_hex (digit_char (num % b)) s n;
      })
    ]

skip_space-digit : (d : ℕ) (s : List ℕ) → d < 16 → skip_space (digit_char d ∷ s) ≡ digit_char d ∷ s
unfolding skip_space digit_char
skip_space-digit d s h = ground arith

sign-digit : (d : ℕ) (s : List ℕ) → d < 16 → sign (digit_char d ∷ s) ≡ (false, digit_char d ∷ s)
unfolding sign digit_char
sign-digit d s h = ground arith

prefix-NoX : (s : List ℕ) (b : ℕ) → is_hex_prefix s ≡ false → b ≢ 0 → prefix s b ≡ (s, b)
unfolding prefix
prefix-NoX s b n h = let z : (b == 0) ≡ false = ground arith in rw (n, z) (ground arith)

strtol-plain :
    (s : List ℕ) (b : ℕ)
    → IsPlain s
    → b ≢ 0
    → strtol s b ≡ Option.map (λ r. (r.0, r.1)) (digits_loop s b 0)
unfolding strtol
strtol-plain s b p h =
    let skipped : skip_space s ≡ s = rw p.starts (skip_space-digit p.first p.rest p.small) in
    let signed : sign s ≡ (false, s) = rw p.starts (sign-digit p.first p.rest p.small) in
    rw (skipped, strtol, signed, prefix-NoX s b p.no_x h) refl

digits_loop-end : (b v : ℕ) (s : List ℕ) → digits_loop (0 ∷ s) b v ≡ some (v, 0 ∷ s)
unfolding digits_loop digit_value
digits_loop-end b v s = refl

-- A number below 2 ^ 32 that printnum prints without padding, in a base from 2 to 16, is read back
-- by strtol in the same base; reading stops at the zero that ends the text.
pub strtol-printnum :
    (num b padc : ℕ) (rest : List ℕ)
    → IsBase b
    → num < 2 ^ 32
    → strtol (printnum num b 0 padc ++ (0 ∷ rest)) b ≡ some (num, 0 ∷ rest)
unfolding printnum
strtol-printnum num b padc rest v w =
    let plain = printnum_loop-NoX (suc num) num b padc (0 ∷ rest) v (omega arith) (ground arith) in
    rw
      (
        strtol-plain (printnum_loop (suc num) num b 0 padc ++ (0 ∷ rest)) b plain (omega arith),
        digits_loop-printnum (suc num) num b padc (0 ∷ rest) v (omega arith) w,
        digits_loop-end b num rest,
      )
      refl
