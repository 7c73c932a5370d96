-- ===== src/Console/Screen.antt =====
-- The text screen of os_final_project/code/kern/console.c. A cell is the 16 bits of crt_buf; the
-- cursor that the hardware shows is not modelled.
pub mod Cells
use backup_gatech.Common.{
  ℕ, zero, suc, ◌+◌, ◌-◌, ◌*◌, ◌/◌, ◌%◌, ◌^◌, List, [], ◌∷◌, ◌++◌, Bool, true, false, if◌then◌else◌,
  ◌==◌, leb, ltb, set, drop, replicate,
}

abbrev pub crt_cols : ℕ
crt_cols = 80

abbrev pub crt_size : ℕ
crt_size = 25 * crt_cols

abbrev pub blank : ℕ
blank = 0x0700 + b' '

pub record Screen : Type 0 where
  pub crt_buf : List ℕ
  pub crt_pos : ℕ

-- crt_pos of 16 bits.
abbrev pub move : ℕ → Screen → Screen
move p s = record s { crt_pos = p % 2 ^ 16 }

-- The lines move up when the cursor leaves the last one.
pub scroll : Screen → Screen
scroll s =
    if leb crt_size s.crt_pos
    then record {
      crt_buf = drop crt_cols s.crt_buf ++ replicate crt_cols blank;
      crt_pos = s.crt_pos - crt_cols;
    }
    else s

-- c & 0xff
abbrev pub low_byte : ℕ → ℕ
low_byte c = c % 256

-- c | 0x0700, the value of global_color.
abbrev pub with_color : ℕ → ℕ
with_color c = c / 2048 * 2048 + 0x0700 + c % 256

-- A character other than a tab, with its color.
pub put_char : ℕ → Screen → Screen
put_char c s =
    if low_byte c == 8
    then (if s.crt_pos == 0 then s else record s {
      crt_buf = set s.crt_buf (s.crt_pos - 1) (c / 256 * 256 % 2 ^ 16 + b' ');
      crt_pos = s.crt_pos - 1;
    })
    else if low_byte c == 10
    then (let p = (s.crt_pos + crt_cols) % 2 ^ 16 in move (p - p % crt_cols) s)
    else if low_byte c == 13
    then move (s.crt_pos - s.crt_pos % crt_cols) s
    else move (suc s.crt_pos) (record s { crt_buf = set s.crt_buf s.crt_pos (c % 2 ^ 16) })

abbrev space_out : Screen → Screen
space_out s = scroll (put_char (with_color b' ') s)

pub cga_putc : (c : ℕ) → Screen → Screen
cga_putc c s =
    if low_byte c == 9
    then scroll (space_out (space_out (space_out (space_out (space_out s)))))
    else scroll (put_char (with_color c) s)
