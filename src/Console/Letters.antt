-- ===== src/Console/Letters.antt =====
-- Letters from the keyboard to the input buffer.
use backup_gatech.Common.{
  ℕ, ◌+◌, ◌%◌, ◌<◌, ◌≡◌, List, [], ◌∷◌, ◌++◌, true, false, ◌==◌, map, length, length-map, arith,
  refl, ap,
}
use backup_gatech.Console.{Devices, consbufsize, kbd_intr}
use backup_gatech.Console.Input.{IsPending, typed, cons_intr-IsPending}
use backup_gatech.Console.Keyboard.{Modifiers}
use backup_gatech.Console.Keyboard.Typing.{letter, are_letters, strokes, echo, kbd_read-strokes}

typed-echo :
    (ks : List ℕ) (m : Modifiers) → are_letters ks ≡ true → typed (echo m ks) ≡ map (letter m) ks
typed-echo [] m h = refl
typed-echo (k ∷ ks) m h =
    let char : (letter m k == 0) ≡ false = ground (arith, h) in
    let byte : letter m k % 256 ≡ letter m k = ground (arith, h) in
    rw (char, byte, typed-echo ks m (ground (arith, h))) refl

-- Letter keys that go down and up one after another, with neither Ctrl held nor an escape code
-- before them, put their letters into the buffer in their order, as capitals when Shift or Caps
-- Lock is on but not both, if there is room for them; the bits of shift stay as they are.
pub kbd_intr-types :
    (ks cs : List ℕ) (d : Devices)
    → are_letters ks ≡ true
    → d.modifiers.ctl ≡ false
    → d.modifiers.e0esc ≡ false
    → IsPending d.cons cs
    → length cs + length ks < consbufsize
    → IsPending (kbd_intr (strokes ks) d).cons (cs ++ map (letter d.modifiers) ks)
      × ((kbd_intr (strokes ks) d).modifiers ≡ d.modifiers)
unfolding kbd_intr
kbd_intr-types ks cs d h c e p l =
    let m = d.modifiers in
    let given = typed-echo ks m h in
    rw (kbd_read-strokes ks m h c e) (
      rw (← given) (
          cons_intr-IsPending (echo m ks) cs d.cons p
            (omega (arith, l, ap length given, length-map ks (letter m)))),
      refl,
    )
