-- ===== src/Console/Tests.antt =====
-- The theorems on the console at small inputs.
use backup_gatech.Common.{
  ℕ, ◌+◌, ◌%◌, ◌<◌, ◌≡◌, ◌^◌, [], ◌∷◌, ◌++◌, true, false, if◌then◌else◌, ◌==◌, ltb, replicate,
  length-replicate, map, get_or, arith, refl,
}
use backup_gatech.Console.{Devices, kbd_intr, cons_getc}
use backup_gatech.Console.Input.{IsPending, cons_getc-IsPending, window}
use backup_gatech.Console.Keyboard.{Modifiers, normalmap, kbd_read}
use backup_gatech.Console.Keyboard.Typing.{letter, strokes}
use backup_gatech.Console.Letters.{kbd_intr-types}
use backup_gatech.Console.Screen.{Screen, crt_size, blank, with_color, cga_putc}
use backup_gatech.Console.Screen.Cells.{IsOnScreen, cga_putc-prints}

abbrev no_modifiers : Modifiers
no_modifiers = record {
  shift = true;
  ctl = false;
  alt = false;
  capslock = false;
  numlock = false;
  scrolllock = false;
  e0esc = false;
}

-- An empty buffer whose positions are at its end.
abbrev quiet : Devices
quiet = record {
  cons = record { buf = replicate 512 0; rpos = 511; wpos = 511 };
  modifiers = no_modifiers;
  serial_exists = true;
}

quiet-IsPending : IsPending quiet.cons []
unfolding window
quiet-IsPending = record {
  size = length-replicate {A = ℕ} 512 0;
  start = omega arith;
  room = omega arith;
  stop = refl;
  chars = refl;
}

-- Shift is held, and the keys of "hi" are typed.
kbd_intr-types_example :
    IsPending
      (kbd_intr (strokes (0x23 ∷ 0x17 ∷ [])) quiet).cons
      ([] ++ map (letter no_modifiers) (0x23 ∷ 0x17 ∷ []))
    × ((kbd_intr (strokes (0x23 ∷ 0x17 ∷ [])) quiet).modifiers ≡ no_modifiers)
unfolding normalmap
kbd_intr-types_example =
    kbd_intr-types (0x23 ∷ 0x17 ∷ []) [] quiet refl refl refl quiet-IsPending (omega arith)

-- "ok" on the serial line, with a NUL between.
cons_getc-IsPending_example :
    ((cons_getc (b'o' ∷ 0 ∷ b'k' ∷ []) [] quiet).0 ≡ b'o')
    × IsPending (cons_getc (b'o' ∷ 0 ∷ b'k' ∷ []) [] quiet).1.cons (b'k' ∷ [])
unfolding kbd_read
cons_getc-IsPending_example =
    cons_getc-IsPending (b'o' ∷ 0 ∷ b'k' ∷ []) [] [] quiet quiet-IsPending (omega arith)

-- The cursor is on the last cell of a blank screen.
abbrev at_end : Screen
at_end = record { crt_buf = replicate crt_size blank; crt_pos = 1999 }

at_end-IsOnScreen : IsOnScreen at_end
at_end-IsOnScreen = record { cells = length-replicate crt_size blank; cursor = omega arith }

cga_putc-prints_example :
    (2000 ≡ (cga_putc b'x' at_end).crt_pos + 80)
    × ((j : ℕ)
        → j < crt_size
        → get_or (cga_putc b'x' at_end).crt_buf j 0 ≡ (
            if j + 80 == 1999
            then with_color b'x' % 2 ^ 16
            else if ltb (j + 80) crt_size
            then get_or (replicate crt_size blank) (j + 80) 0
            else blank))
cga_putc-prints_example = cga_putc-prints b'x' at_end at_end-IsOnScreen refl
