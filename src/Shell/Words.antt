-- ===== src/Shell/Words.antt =====
-- Words as strings of their own.
use backup_gatech.Common.{
  ℕ, ◌+◌, ◌-◌, ltb, ◌<◌, ◌≤◌, ◌≡◌, Option, none, some, true, false, ◌==◌, arith, refl, ap, sym, ◌∙◌,
  Bool-cases, inl, inr,
}
use backup_gatech.Shell.Scan.{
  IsSkipped, put_nul-other, put_nul-here, skip_blanks-IsSkipped, word_end-lem,
}
use mathlib.Core.Path.{subst}
use backup_gatech.Shell.{
  TextMemory, is_blank, is_symbol, ends_word, NextToken, no_token, symbol_token, word_token,
  token_at, get_token, gettoken_start, gettoken,
}

-- `u` is the token at `s`: what comes before `s` is kept, and a character at `s` that ends a word
-- and is not a blank becomes NUL.
record IsToken (s : ℕ) (m : TextMemory) (u : NextToken) : Type 0 where
  before : (i : ℕ) → i < s → u.memory i ≡ m i
  nul : ends_word (m s) ≡ true → is_blank (m s) ≡ false → u.memory s ≡ 0

token_at-IsToken :
    (k s n : ℕ) (m : TextMemory)
    → m (s + n) ≡ 0
    → n < k
    → (u : NextToken) × (token_at k s m ≡ some u) × IsToken s m u
unfolding token_at
token_at-IsToken k s n m end l = elim (Bool-cases (m s == 0)) [
  | inl z ↦
      (no_token m, rw z refl, record { before = λ i h. refl; nul = λ h1 h2. ground (arith, z) })
  | inr nz ↦ elim (Bool-cases (is_symbol (m s))) [
    | inl symbol ↦ (
      symbol_token s m,
      rw (nz, symbol) refl,
      record {
        before = λ i h. put_nul-other s i m (ground (arith, h));
        nul = λ h1 h2. put_nul-here s m;
      },
    )
    | inr letter ↦
        let found = word_end-lem k s n m end l in
        (
          word_token s found.0 m,
          rw (nz, letter, found.1) refl,
          record {
            before = λ i h. refl;
            nul = λ h1 h2. absurd (ground (arith, h1, h2, nz, letter));
          },
        )
  ]
]

-- The token after a word that ends at `e`: the word is kept, and a NUL follows it.
get_token-IsToken :
    (k e n : ℕ) (old : NextToken)
    → old.memory (e + n) ≡ 0
    → n < k
    → ends_word (old.memory e) ≡ true
    → (u : NextToken) × (get_token k (some e) old ≡ some u)
      × ((i : ℕ) → i < e → u.memory i ≡ old.memory i)
      × (u.memory e ≡ 0)
unfolding get_token
get_token-IsToken k e n old end l stop =
    let skip = skip_blanks-IsSkipped k e n old.memory end l in
    let (s', m', is_skip, skipped) = skip in
    let n' = e + n - s' in
    let same : s' + n' ≡ e + n = omega (arith, skipped.within) in
    let end' : m' (s' + n') ≡ 0 = rw same (skipped.after (e + n) skipped.within ∙ end) in
    let tok = token_at-IsToken k s' n' m' end' (omega (arith, l, skipped.later)) in
    (
      tok.0,
      rw (get_token, is_skip) tok.1,
      (λ i h. tok.2.before i (omega (arith, h, skipped.later)) ∙ skipped.before i h),
      elim (Bool-cases (ltb e s')) [
        | inl past ↦ let p : e < s' = ground (arith, past) in tok.2.before e p ∙ skipped.nul p
        | inr here ↦
            let at : s' ≡ e = ground (arith, here, skipped.later) in
            let kept : m' s' ≡ old.memory e = skipped.after s' (omega arith) ∙ ap old.memory at in
            let ends : ends_word (m' s') ≡ true = rw kept stop in
            ap tok.0.memory (sym at) ∙ tok.2.nul ends skipped.stop
      ],
    )

abbrev kind_of : Option NextToken → ℕ
kind_of none = 0
kind_of (some t) = t.kind

w_is_no_symbol : ¬ (is_symbol b'w' ≡ true)
unfolding is_symbol
w_is_no_symbol h = absurd (cc h)

some_chars_of :
    (s e : ℕ) (m : TextMemory)
    → (m s == 0) ≡ false
    → is_blank (m s) ≡ false
    → is_symbol (m s) ≡ false
    → s ≤ e
    → ends_word (m e) ≡ true
    → s < e
some_chars_of s e m nz black letter l stop = elim (Bool-cases (ltb s e)) [
  | inl past ↦ ground (arith, past)
  | inr here ↦
      let at : e ≡ s = ground (arith, here, l) in
      let ends : ends_word (m s) ≡ true = rw (ap m (sym at)) stop in
      absurd (ground (arith, ends, nz, black, letter))
]

-- A word stands from `s` up to `e`.
record IsWord (s e n : ℕ) (m : TextMemory) : Type 0 where
  some_chars : s < e
  within : e ≤ s + n
  chars : (i : ℕ) → s ≤ i → i < e → ends_word (m i) ≡ false
  stop : ends_word (m e) ≡ true

token_at-IsWord :
    (k s n : ℕ) (m : TextMemory) (t : NextToken)
    → m (s + n) ≡ 0
    → n < k
    → is_blank (m s) ≡ false
    → token_at k s m ≡ some t
    → t.kind ≡ b'w'
    → (e : ℕ) × (word_token s e m ≡ t) × IsWord s e n m
unfolding token_at
token_at-IsWord k s n m t end l black computes word = elim (Bool-cases (m s == 0)) [
  | inl z ↦
      let is : some (no_token m) ≡ some t = rw z at computes in
      let kind : 0 ≡ b'w' = ap (λ o. kind_of o) is ∙ word in absurd (omega (arith, kind))
  | inr nz ↦ elim (Bool-cases (is_symbol (m s))) [
    | inl symbol ↦
        let is : some (symbol_token s m) ≡ some t = rw (nz, symbol) at computes in
        let kind : m s ≡ b'w' = ap (λ o. kind_of o) is ∙ word in
        absurd (w_is_no_symbol (rw kind at symbol))
    | inr letter ↦
        let found = word_end-lem k s n m end l in
        let is : some (word_token s found.0 m) ≡ some t = rw (nz, letter, found.1) at computes in
        (
          found.0,
          cc is,
          record {
            some_chars = some_chars_of s found.0 m nz black letter found.2 found.5;
            within = found.3;
            chars = found.4;
            stop = found.5;
          },
        )
  ]
]

-- gettoken, with `t` as its next token, returns a word: a pointer to a string in memory of one or
-- more characters, which are those of the text `m` at that place and no blanks, symbols or NULs,
-- with a NUL after them. The word lies in the `n` characters from `s` on.
abbrev pub ReturnsWord : (k s n : ℕ) → TextMemory → NextToken → Type 0
ReturnsWord k s n m t =
    (p e : ℕ) × (u : NextToken) × (gettoken k t ≡ some (b'w', some p, u))
    × (s ≤ p)
    × (p < e)
    × (e ≤ s + n)
    × ((i : ℕ) → p ≤ i → i < e → (u.memory i ≡ m i) × (ends_word (m i) ≡ false))
    × (u.memory e ≡ 0)

word_token-ReturnsWord :
    (k s n p : ℕ) (m m' : TextMemory) (e l' : ℕ)
    → IsSkipped s n m p m'
    → m (s + n) ≡ 0
    → n < k
    → p + l' ≡ s + n
    → IsWord p e l' m'
    → ReturnsWord k s n m (word_token p e m')
unfolding gettoken
word_token-ReturnsWord k s n p m m' e l' skipped end l size w =
    let n' = s + n - e in
    let same : e + n' ≡ s + n = omega (arith, w.within, size) in
    let kept : m' (s + n) ≡ 0 = skipped.after (s + n) skipped.within ∙ end in
    let end' : m' (e + n') ≡ 0 = ap m' same ∙ kept in
    let next =
      get_token-IsToken k e n' (word_token p e m') end'
        (omega (arith, l, skipped.later, w.some_chars)) w.stop in
    (
      p,
      e,
      next.0,
      rw (gettoken, next.1) refl,
      skipped.later,
      w.some_chars,
      omega (arith, w.within, size),
      (λ i a b.
          let same_char : m' i ≡ m i = skipped.after i a in
          (next.2 i b ∙ same_char, rw same_char at (w.chars i a b))),
      next.3,
    )

-- A text that starts at `s` ends with a NUL `n` characters on, and the loops may take more than
-- `n` rounds. If gettoken, started on it, has a word as its next token, then the next call returns
-- `w` and a pointer to a string in memory: one or more characters, each of which is the one of the
-- text at that place and is no blank, symbol or NUL, and a NUL after them.
pub gettoken-word :
    (k s n : ℕ) (old t : NextToken)
    → old.memory (s + n) ≡ 0
    → n < k
    → gettoken_start k s old ≡ some t
    → t.kind ≡ b'w'
    → ReturnsWord k s n old.memory t
unfolding gettoken_start get_token
gettoken-word k s n old t end l computes word =
    let (p, m', is_skip, skipped) = skip_blanks-IsSkipped k s n old.memory end l in
    let size : p + (s + n - p) ≡ s + n = omega (arith, skipped.within) in
    let end' : m' (p + (s + n - p)) ≡ 0 =
      ap m' size ∙ (skipped.after (s + n) skipped.within ∙ end) in
    let token : token_at k p m' ≡ some t = rw (gettoken_start, get_token, is_skip) at computes in
    let (e, is_token, w) =
      token_at-IsWord k p (s + n - p) m' t end' (omega (arith, l, skipped.later)) skipped.stop token
        word in
    subst (λ x. ReturnsWord k s n old.memory x) is_token
      (word_token-ReturnsWord k s n p old.memory m' e (s + n - p) skipped end l size w)
