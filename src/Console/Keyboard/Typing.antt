-- ===== src/Console/Keyboard/Typing.antt =====
-- Letters that are typed.
use backup_gatech.Common.{
  ℕ, zero, suc, ◌+◌, ◌-◌, ◌<◌, ◌≡◌, List, [], ◌∷◌, Bool, true, false, ◌&&◌, ◌||◌, not,
  if◌then◌else◌, ◌==◌, leb, ltb, arith, refl, ap, sym, ◌∙◌,
}
use backup_gatech.Console.Keyboard.{
  Modifiers, set_shiftcode, toggle, keypad, normalmap, shiftmap, charcode, is_lower, with_capslock,
  key_down, kbd_proc_data, kbd_read,
}

-- A key of normalmap that gives a letter.
abbrev pub is_letter : ℕ → Bool
is_letter k = ltb k 0x80 && is_lower (normalmap k)

-- A key that changes the bits of shift.
abbrev is_modifier : ℕ → Bool
is_modifier k =
    k == 0x1D
    || k == 0x9D
    || k == 0x2A
    || k == 0x36
    || k == 0x38
    || k == 0xB8
    || k == 0x3A
    || k == 0x45
    || k == 0x46

all_below : ℕ → (ℕ → Bool) → Bool
all_below zero p = true
all_below (suc n) p = p n && all_below n p

all_below-lt : (n : ℕ) (p : ℕ → Bool) (x : ℕ) → all_below n p ≡ true → x < n → p x ≡ true
unfolding all_below
all_below-lt zero p x h lt = absurd (omega arith)
all_below-lt (suc n) p x h lt = ground (arith, all_below-lt n p x)

abbrev letter_test : ℕ → Bool
letter_test k =
    not (is_lower (normalmap k))
    || (not (is_modifier k) && shiftmap k + 32 == normalmap k && ltb k 0x58)

letter_table : all_below 0x80 letter_test ≡ true
unfolding all_below normalmap shiftmap keypad
letter_table = refl

letter_lem :
    (k : ℕ)
    → is_letter k ≡ true
    → (k < 0x58) × (is_modifier k ≡ false) × (shiftmap k + 32 ≡ normalmap k)
letter_lem k h =
    let small : k < 0x80 = ground (arith, h) in
    let test : letter_test k ≡ true = all_below-lt 0x80 letter_test k letter_table small in
    (ground (arith, h, test), ground (arith, h, test), ground (arith, h, test))

-- Shift or Caps Lock, not both.
abbrev pub is_capital : Modifiers → Bool
is_capital s = if s.capslock then not s.shift else s.shift

abbrev pub letter : Modifiers → ℕ → ℕ
letter s k = if is_capital s then normalmap k - 32 else normalmap k

if_true {ℓ} : {A : Type ℓ} {b : Bool} {x : A} (y : A) → b ≡ true → (if b then x else y) ≡ x
if_true y e = rw e refl

if_false {ℓ} : {A : Type ℓ} {b : Bool} (x : A) {y : A} → b ≡ false → (if b then x else y) ≡ y
if_false x e = rw e refl

set_shiftcode_other :
    (down : Bool) (k : ℕ) (s : Modifiers) → is_modifier k ≡ false → set_shiftcode down k s ≡ s
unfolding set_shiftcode
set_shiftcode_other down k s h =
    let control : (k == 0x1D || k == 0x9D) ≡ false = ground (arith, h) in
    let shift : (k == 0x2A || k == 0x36) ≡ false = ground (arith, h) in
    let alt : (k == 0x38 || k == 0xB8) ≡ false = ground (arith, h) in
    rw (set_shiftcode, control, shift, alt) refl

toggle_other : (k : ℕ) (s : Modifiers) → is_modifier k ≡ false → toggle k s ≡ s
unfolding toggle
toggle_other k s h =
    let caps : (k == 0x3A) ≡ false = ground (arith, h) in
    let num : (k == 0x45) ≡ false = ground (arith, h) in
    let scroll : (k == 0x46) ≡ false = ground (arith, h) in rw (toggle, caps, num, scroll) refl

-- The letter that Caps Lock makes of the small or the capital one.
capslock-letter :
    (caps up : Bool) (n : ℕ)
    → is_lower n ≡ true
    → with_capslock caps (if up then n - 32 else n)
      ≡ (if (if caps then not up else up) then n - 32 else n)
unfolding with_capslock
capslock-letter false up n l = refl
capslock-letter true true n l = ground arith
capslock-letter true false n l = ground arith

key_down-letter :
    (k : ℕ) (s : Modifiers) → is_letter k ≡ true → s.ctl ≡ false → key_down k s ≡ (letter s k, s)
unfolding key_down charcode
key_down-letter k s h c =
    let facts = letter_lem k h in
    let lower : is_lower (normalmap k) ≡ true = ground (arith, h) in
    let upper : shiftmap k ≡ normalmap k - 32 = omega (arith, facts.2) in
    let same : toggle k (set_shiftcode true k s) ≡ s =
      ap (toggle k) (set_shiftcode_other true k s facts.1) ∙ toggle_other k s facts.1 in
    ap (λ t. (with_capslock t.capslock (charcode t k), t)) same
    ∙ ap (λ n. (with_capslock s.capslock n, s))
        (if_false _ c ∙ ap (λ n. if s.shift then n else normalmap k) upper)
    ∙ ap (λ n. (n, s)) (capslock-letter s.capslock s.shift (normalmap k) lower)

press-letter :
    (k : ℕ) (s : Modifiers)
    → is_letter k ≡ true
    → s.ctl ≡ false
    → s.e0esc ≡ false
    → kbd_proc_data k s ≡ (letter s k, s)
unfolding kbd_proc_data
press-letter k s h c e =
    let small = (letter_lem k h).0 in
    let escape : (k == 0xE0) ≡ false = ground (arith, small) in
    let down : leb 0x80 k ≡ false = ground (arith, small) in
    if_false _ escape ∙ if_false _ down ∙ if_false _ e ∙ key_down-letter k s h c

release-letter :
    (k : ℕ) (s : Modifiers)
    → is_letter k ≡ true
    → s.e0esc ≡ false
    → kbd_proc_data (k + 0x80) s ≡ (0, s)
unfolding kbd_proc_data
release-letter k s h e =
    let facts = letter_lem k h in
    let other : (k + 0x80 == 0xE0) ≡ false = ground (arith, facts.0) in
    let back : k + 0x80 - 0x80 ≡ k = omega arith in
    let up : leb 0x80 (k + 0x80) ≡ true = ground arith in
    if_false _ other
    ∙ if_true _ up
    ∙ ap (λ c. (0, record (set_shiftcode false c s) { e0esc = false })) (if_false _ e ∙ back)
    ∙ ap (λ t. (0, record t { e0esc = false })) (set_shiftcode_other false k s facts.1)
    ∙ ap (λ b. (0, record s { e0esc = b })) (sym e)

abbrev pub are_letters : List ℕ → Bool
are_letters [] = true
are_letters (k ∷ ks) = is_letter k && are_letters ks

-- Each key goes down and up.
abbrev pub strokes : List ℕ → List ℕ
strokes [] = []
strokes (k ∷ ks) = k ∷ (k + 0x80) ∷ strokes ks

-- The characters, with the 0 that each release gives.
abbrev pub echo : Modifiers → List ℕ → List ℕ
echo m [] = []
echo m (k ∷ ks) = letter m k ∷ 0 ∷ echo m ks

pub kbd_read-strokes :
    (ks : List ℕ) (m : Modifiers)
    → are_letters ks ≡ true
    → m.ctl ≡ false
    → m.e0esc ≡ false
    → kbd_read (strokes ks) m ≡ (echo m ks, m)
unfolding kbd_read
kbd_read-strokes [] m h c e = refl
kbd_read-strokes (k ∷ ks) m h c e =
    let one : is_letter k ≡ true = ground (arith, h) in
    rw
      (
        kbd_read,
        press-letter k m one c e,
        kbd_read,
        release-letter k m one e,
        kbd_read-strokes ks m (ground (arith, h)) c e,
      )
      refl
