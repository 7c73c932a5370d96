-- ===== src/Shell/Scan.antt =====
-- The loops over blanks and over a word.
use backup_gatech.Common.{
  ℕ, zero, suc, ◌+◌, ◌<◌, ◌≤◌, ◌≡◌, some, true, false, ◌==◌, arith, refl, ap, sym, ◌∙◌, Bool-cases,
  inl, inr,
}
use mathlib.Core.Path.{subst}
use backup_gatech.Shell.{TextMemory, put_nul, is_blank, skip_blanks, ends_word, word_end}

-- From `s` with `m` the blanks up to `s'` became NUL, which leaves `m'`.
pub record IsSkipped (s n : ℕ) (m : TextMemory) (s' : ℕ) (m' : TextMemory) : Type 0 where
  pub later : s ≤ s'
  pub within : s' ≤ s + n
  pub before : (i : ℕ) → i < s → m' i ≡ m i
  pub after : (i : ℕ) → s' ≤ i → m' i ≡ m i
  pub nul : s < s' → m' s ≡ 0
  pub stop : is_blank (m' s') ≡ false

pub put_nul-other : (s i : ℕ) (m : TextMemory) → (i == s) ≡ false → put_nul s m i ≡ m i
put_nul-other s i m ne = rw ne refl

pub put_nul-here : (s : ℕ) (m : TextMemory) → put_nul s m s ≡ 0
put_nul-here s m = let same : (s == s) ≡ true = ground arith in rw same refl

blank-nonzero : (c : ℕ) → is_blank c ≡ true → (c == 0) ≡ false
unfolding is_blank
blank-nonzero c h = ground (arith, h)

-- A text that ends `n` characters on has one character less after the first.
one_less :
    (s n : ℕ) (m : TextMemory)
    → m (s + n) ≡ 0
    → (m s == 0) ≡ false
    → (n' : ℕ) × (n ≡ suc n') × (m (suc s + n') ≡ 0)
one_less s zero m end h =
    let e : s + 0 ≡ s = omega arith in
    let z : m s ≡ 0 = ap m (sym e) ∙ end in absurd (ground (arith, z, h))
one_less s (suc n) m end h = let e : suc s + n ≡ s + suc n = omega arith in (n, refl, ap m e ∙ end)

blank-IsSkipped :
    (s n s' : ℕ) (m m' : TextMemory)
    → IsSkipped (suc s) n (put_nul s m) s' m'
    → IsSkipped s (suc n) m s' m'
blank-IsSkipped s n s' m m' h = record {
  later = omega (arith, h.later);
  within = omega (arith, h.within);
  before = λ i l. h.before i (omega (arith, l)) ∙ put_nul-other s i m (ground (arith, l));
  after = λ i l. h.after i l ∙ put_nul-other s i m (ground (arith, l, h.later));
  nul = λ l. h.before s (omega arith) ∙ put_nul-here s m;
  stop = h.stop;
}

pub skip_blanks-IsSkipped :
    (k s n : ℕ) (m : TextMemory)
    → m (s + n) ≡ 0
    → n < k
    → (s' : ℕ) × (m' : TextMemory) × (skip_blanks k s m ≡ some (s', m')) × IsSkipped s n m s' m'
unfolding skip_blanks
skip_blanks-IsSkipped zero s n m end l = absurd (omega (arith, l))
skip_blanks-IsSkipped (suc k) s n m end l = elim (Bool-cases (is_blank (m s))) [
  | inr stop ↦ (
    s,
    m,
    rw stop refl,
    record {
      later = omega arith;
      within = omega arith;
      before = λ i h. refl;
      after = λ i h. refl;
      nul = λ h. absurd (omega (arith, h));
      stop = stop;
    },
  )
  | inl blank ↦
      let less = one_less s n m end (blank-nonzero (m s) blank) in
      let shorter : put_nul s m (suc s + less.0) ≡ 0 =
        put_nul-other s (suc s + less.0) m (ground arith) ∙ less.2 in
      let rest =
        skip_blanks-IsSkipped k (suc s) less.0 (put_nul s m) shorter (omega (arith, l, less.1)) in
      (
        rest.0,
        rest.1,
        rw blank rest.2,
        subst (λ x. IsSkipped s x m rest.0 rest.1) (sym less.1)
            (blank-IsSkipped s less.0 rest.0 m rest.1 rest.3),
      )
]

going-nonzero : (c : ℕ) → ends_word c ≡ false → (c == 0) ≡ false
going-nonzero c h = ground (arith, h)

pub word_end-lem :
    (k s n : ℕ) (m : TextMemory)
    → m (s + n) ≡ 0
    → n < k
    → (e : ℕ) × (word_end k s m ≡ some e)
      × (s ≤ e)
      × (e ≤ s + n)
      × ((i : ℕ) → s ≤ i → i < e → ends_word (m i) ≡ false)
      × (ends_word (m e) ≡ true)
unfolding word_end
word_end-lem zero s n m end l = absurd (omega (arith, l))
word_end-lem (suc k) s n m end l = elim (Bool-cases (ends_word (m s))) [
  | inl stop ↦
      (s, rw stop refl, omega arith, omega arith, λ i a b. absurd (omega (arith, a, b)), stop)
  | inr go ↦
      let less = one_less s n m end (going-nonzero (m s) go) in
      let rest = word_end-lem k (suc s) less.0 m less.2 (omega (arith, l, less.1)) in
      (
        rest.0,
        rw go rest.1,
        omega (arith, rest.2),
        omega (arith, rest.3, less.1),
        (λ i a b. elim (Bool-cases (i == s)) [
          | inl here ↦ let e : i ≡ s = ground (arith, here) in rw e go
          | inr past ↦ rest.4 i (ground (arith, a, past)) b
        ]),
        rest.5,
      )
]
