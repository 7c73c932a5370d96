-- ===== src/Console.antt =====
-- The console of os_final_project/code/kern/console.c: the input buffer that interrupts fill. A
-- device is the list of the bytes that wait in it; what it gives is a list of characters.
pub mod Keyboard
pub mod Screen
pub mod Input
mod Letters
mod Tests
use backup_gatech.Common.{
  ℕ, suc, ◌+◌, ◌%◌, List, [], ◌∷◌, Bool, true, false, if◌then◌else◌, ◌==◌, get_or, set,
}
use backup_gatech.Console.Keyboard.{Modifiers, kbd_read}

abbrev pub consbufsize : ℕ
consbufsize = 512

pub record Cons : Type 0 where
  pub buf : List ℕ
  pub rpos : ℕ
  pub wpos : ℕ

pub record Devices : Type 0 where
  pub cons : Cons
  pub modifiers : Modifiers
  pub serial_exists : Bool

-- The position after `n` in the buffer.
abbrev pub advance : ℕ → ℕ
advance n = if suc n == consbufsize then 0 else suc n

pub store : ℕ → Cons → Cons
store c s = record s { buf = set s.buf s.wpos (c % 256); wpos = advance s.wpos }

-- `chars` is what the calls of `proc` return before -1.
pub cons_intr : (chars : List ℕ) → Cons → Cons
cons_intr [] s = s
cons_intr (c ∷ cs) s = cons_intr cs (if c == 0 then s else store c s)

pub kbd_intr : (bytes : List ℕ) → Devices → Devices
kbd_intr bytes d =
    let (chars, m) = kbd_read bytes d.modifiers in
    record d { cons = cons_intr chars d.cons; modifiers = m }

pub serial_intr : (bytes : List ℕ) → Devices → Devices
serial_intr bytes d = if d.serial_exists then record d { cons = cons_intr bytes d.cons } else d

pub next_char : Cons → ℕ × Cons
next_char s =
    if s.rpos == s.wpos then (0, s) else (get_or s.buf s.rpos 0, record s { rpos = advance s.rpos })

-- With the bytes that wait in the serial port and in the keyboard.
pub cons_getc : (serial keys : List ℕ) → Devices → ℕ × Devices
cons_getc serial keys d =
    let d1 = kbd_intr keys (serial_intr serial d) in
    let (c, s) = next_char d1.cons in (c, record d1 { cons = s })
