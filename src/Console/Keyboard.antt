-- ===== src/Console/Keyboard.antt =====
-- The keyboard of os_final_project/code/kern/console.c. `shift` is a record of its bits; a scancode
-- and a character are bytes.
pub mod Typing
use backup_gatech.Common.{
  ℕ, ◌+◌, ◌-◌, ◌*◌, ◌/◌, ◌%◌, ◌<◌, ◌≤◌, List, [], ◌∷◌, Bool, true, false, ◌&&◌, ◌||◌, not,
  if◌then◌else◌, ◌==◌, leb, ltb, get_or,
}

pub record Modifiers : Type 0 where
  pub shift : Bool
  pub ctl : Bool
  pub alt : Bool
  pub capslock : Bool
  pub numlock : Bool
  pub scrolllock : Bool
  pub e0esc : Bool

-- shift |= shiftcode[data], and shift &= ~shiftcode[data] with `false`.
pub set_shiftcode : (is_down : Bool) → (code : ℕ) → Modifiers → Modifiers
set_shiftcode down c s =
    if c == 0x1D || c == 0x9D
    then record s { ctl = down }
    else if c == 0x2A || c == 0x36
    then record s { shift = down }
    else if c == 0x38 || c == 0xB8
    then record s { alt = down }
    else s

-- shift ^= togglecode[data]
pub toggle : ℕ → Modifiers → Modifiers
toggle c s =
    if c == 0x3A
    then record s { capslock = not s.capslock }
    else if c == 0x45
    then record s { numlock = not s.numlock }
    else if c == 0x46
    then record s { scrolllock = not s.scrolllock }
    else s

abbrev normal_row : List ℕ
normal_row =
    0 ∷ 27 ∷ b'1' ∷ b'2' ∷ b'3' ∷ b'4' ∷ b'5' ∷ b'6' ∷ b'7' ∷ b'8' ∷ b'9' ∷ b'0' ∷ b'-' ∷ b'=' ∷ 8
    ∷ 9 ∷ b'q' ∷ b'w' ∷ b'e' ∷ b'r' ∷ b't' ∷ b'y' ∷ b'u' ∷ b'i' ∷ b'o' ∷ b'p' ∷ b'[' ∷ b']' ∷ 10 ∷ 0
    ∷ b'a' ∷ b's' ∷ b'd' ∷ b'f' ∷ b'g' ∷ b'h' ∷ b'j' ∷ b'k' ∷ b'l' ∷ b';' ∷ 39 ∷ b'`' ∷ 0 ∷ 92
    ∷ b'z' ∷ b'x' ∷ b'c' ∷ b'v' ∷ b'b' ∷ b'n' ∷ b'm' ∷ b',' ∷ b'.' ∷ b'/' ∷ 0 ∷ b'*' ∷ 0 ∷ 32 ∷ 0
    ∷ 0 ∷ 0 ∷ 0 ∷ 0 ∷ 0 ∷ 0 ∷ 0 ∷ 0 ∷ 0 ∷ 0 ∷ 0 ∷ 0 ∷ b'7' ∷ b'8' ∷ b'9' ∷ b'-' ∷ b'4' ∷ b'5' ∷ b'6'
    ∷ b'+' ∷ b'1' ∷ b'2' ∷ b'3' ∷ b'0' ∷ b'.' ∷ 0 ∷ 0 ∷ 0 ∷ 0 ∷ []

abbrev shifted_row : List ℕ
shifted_row =
    0 ∷ 27 ∷ b'!' ∷ b'@' ∷ b'#' ∷ b'$' ∷ b'%' ∷ b'^' ∷ b'&' ∷ b'*' ∷ b'(' ∷ b')' ∷ b'_' ∷ b'+' ∷ 8
    ∷ 9 ∷ b'Q' ∷ b'W' ∷ b'E' ∷ b'R' ∷ b'T' ∷ b'Y' ∷ b'U' ∷ b'I' ∷ b'O' ∷ b'P' ∷ b'{' ∷ b'}' ∷ 10 ∷ 0
    ∷ b'A' ∷ b'S' ∷ b'D' ∷ b'F' ∷ b'G' ∷ b'H' ∷ b'J' ∷ b'K' ∷ b'L' ∷ b':' ∷ b'"' ∷ b'~' ∷ 0 ∷ b'|'
    ∷ b'Z' ∷ b'X' ∷ b'C' ∷ b'V' ∷ b'B' ∷ b'N' ∷ b'M' ∷ b'<' ∷ b'>' ∷ b'?' ∷ 0 ∷ b'*' ∷ 0 ∷ 32 ∷ 0
    ∷ 0 ∷ 0 ∷ 0 ∷ 0 ∷ 0 ∷ 0 ∷ 0 ∷ 0 ∷ 0 ∷ 0 ∷ 0 ∷ 0 ∷ b'7' ∷ b'8' ∷ b'9' ∷ b'-' ∷ b'4' ∷ b'5' ∷ b'6'
    ∷ b'+' ∷ b'1' ∷ b'2' ∷ b'3' ∷ b'0' ∷ b'.' ∷ 0 ∷ 0 ∷ 0 ∷ 0 ∷ []

abbrev control_row : List ℕ
control_row =
    0 ∷ 0 ∷ 0 ∷ 0 ∷ 0 ∷ 0 ∷ 0 ∷ 0 ∷ 0 ∷ 0 ∷ 0 ∷ 0 ∷ 0 ∷ 0 ∷ 0 ∷ 0 ∷ 17 ∷ 23 ∷ 5 ∷ 18 ∷ 20 ∷ 25 ∷ 21
    ∷ 9 ∷ 15 ∷ 16 ∷ 0 ∷ 0 ∷ 13 ∷ 0 ∷ 1 ∷ 19 ∷ 4 ∷ 6 ∷ 7 ∷ 8 ∷ 10 ∷ 11 ∷ 12 ∷ 0 ∷ 0 ∷ 0 ∷ 0 ∷ 28 ∷ 26
    ∷ 24 ∷ 3 ∷ 22 ∷ 2 ∷ 14 ∷ 13 ∷ 0 ∷ 0 ∷ 239 ∷ 0 ∷ 0 ∷ []

-- The entries with an index of their own; `rest` where there is none.
keypad : (rest c : ℕ) → ℕ
keypad rest c =
    if c == 0xC7
    then 224
    else if c == 0x9C
    then 10
    else if c == 0xB5
    then 47
    else if c == 0xC8
    then 226
    else if c == 0xC9
    then 230
    else if c == 0xCB
    then 228
    else if c == 0xCD
    then 229
    else if c == 0xCF
    then 225
    else if c == 0xD0
    then 227
    else if c == 0xD1
    then 231
    else if c == 0xD2
    then 232
    else if c == 0xD3
    then 233
    else rest

keypad_control : (rest c : ℕ) → ℕ
keypad_control rest c =
    if c == 0x97
    then 224
    else if c == 0xB5
    then 239
    else if c == 0xC8
    then 226
    else if c == 0xC9
    then 230
    else if c == 0xCB
    then 228
    else if c == 0xCD
    then 229
    else if c == 0xCF
    then 225
    else if c == 0xD0
    then 227
    else if c == 0xD1
    then 231
    else if c == 0xD2
    then 232
    else if c == 0xD3
    then 233
    else rest

unfoldable pub normalmap : ℕ → ℕ
unfolding keypad
normalmap c = keypad (get_or normal_row c 0) c

pub shiftmap : ℕ → ℕ
shiftmap c = keypad (get_or shifted_row c 0) c

pub ctlmap : ℕ → ℕ
ctlmap c = keypad_control (get_or control_row c 0) c

-- charcode[shift & (CTL | SHIFT)][data]
pub charcode : Modifiers → ℕ → ℕ
charcode s c = if s.ctl then ctlmap c else if s.shift then shiftmap c else normalmap c

abbrev pub is_lower : ℕ → Bool
is_lower c = leb b'a' c && leb c b'z'

abbrev pub is_upper : ℕ → Bool
is_upper c = leb b'A' c && leb c b'Z'

pub with_capslock : Bool → ℕ → ℕ
with_capslock false c = c
with_capslock true c = if is_lower c then c - 32 else if is_upper c then c + 32 else c

-- A key that is down, 0x80 added after an escape.
pub key_down : ℕ → Modifiers → ℕ × Modifiers
key_down c s =
    let s1 = toggle c (set_shiftcode true c s) in (with_capslock s1.capslock (charcode s1 c), s1)

-- A byte of the controller: the character, 0 for none, and the bits.
pub kbd_proc_data : ℕ → Modifiers → ℕ × Modifiers
kbd_proc_data c s =
    if c == 0xE0
    then (0, record s { e0esc = true })
    else if leb 0x80 c
    then (0, record (set_shiftcode false (if s.e0esc then c else c - 0x80) s) { e0esc = false })
    else if s.e0esc
    then key_down (c + 0x80) (record s { e0esc = false })
    else key_down c s

-- The characters of the bytes that wait in the controller.
unfoldable pub kbd_read : List ℕ → Modifiers → List ℕ × Modifiers
kbd_read [] s = ([], s)
kbd_read (b ∷ bs) s =
    let (c, s1) = kbd_proc_data b s in let (cs, s2) = kbd_read bs s1 in (c ∷ cs, s2)
