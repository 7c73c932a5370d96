-- ===== src/Console/Screen/Cells.antt =====
-- The cells of the screen after a character.
use backup_gatech.Common.{
  ℕ, suc, ◌+◌, ◌-◌, ◌*◌, ◌/◌, ◌%◌, ◌^◌, ◌<◌, ◌≤◌, ◌≡◌, List, ◌++◌, Bool, true, false, if◌then◌else◌,
  ◌==◌, leb, ltb, ltb→lt, lt→ltb, not, ◌||◌, get_or, set, get_or-set, get_or-append, get_or-drop,
  get_or-replicate, length, length-set, length-append, length-drop, length-replicate, drop,
  replicate, arith, refl, ap, ◌∙◌, Bool-cases, inl, inr,
}
use backup_gatech.Console.Screen.{
  Screen, crt_cols, crt_size, blank, scroll, put_char, with_color, low_byte, cga_putc,
}

pub record IsOnScreen (s : Screen) : Type 0 where
  pub cells : length s.crt_buf ≡ crt_size
  pub cursor : s.crt_pos < crt_size

-- After a character the cursor may have left the last line.
record IsPut (s : Screen) : Type 0 where
  cells : length s.crt_buf ≡ crt_size
  cursor : s.crt_pos < crt_size + crt_cols

put_char-IsPut : (c : ℕ) (s : Screen) → IsOnScreen s → IsPut (put_char c s)
unfolding put_char
put_char-IsPut c s v = ground (
  arith,
  length-set s.crt_buf (s.crt_pos - 1) (c / 256 * 256 % 2 ^ 16 + b' '),
  length-set s.crt_buf s.crt_pos (c % 2 ^ 16),
)

length-scrolled :
    (xs ys : List ℕ)
    → length xs ≡ crt_size
    → length ys ≡ crt_cols
    → length (drop crt_cols xs ++ ys) ≡ crt_size
length-scrolled xs ys n m =
    length-append (drop crt_cols xs) ys ∙ omega (arith, length-drop crt_cols xs, n, m)

scroll-IsOnScreen : (s : Screen) → IsPut s → IsOnScreen (scroll s)
unfolding scroll
scroll-IsOnScreen s v = elim (Bool-cases (leb crt_size s.crt_pos)) [
  | inl left ↦ rw left (record {
    cells =
        length-scrolled s.crt_buf (replicate crt_cols blank) v.cells
          (length-replicate crt_cols blank);
    cursor = omega (arith, v.cursor);
  })
  | inr inside ↦ rw inside (record { cells = v.cells; cursor = ground (arith, inside) })
]

put-IsOnScreen : (c : ℕ) (s : Screen) → IsOnScreen s → IsOnScreen (scroll (put_char c s))
put-IsOnScreen c s v = scroll-IsOnScreen _ (put_char-IsPut c s v)

-- The cursor stays on the screen, whatever is printed.
pub cga_putc-IsOnScreen : (c : ℕ) (s : Screen) → IsOnScreen s → IsOnScreen (cga_putc c s)
unfolding cga_putc
cga_putc-IsOnScreen c s v = elim (Bool-cases (low_byte c == 9)) [
  | inl tab ↦
      let five =
        put-IsOnScreen _ _
          (put-IsOnScreen _ _ (put-IsOnScreen _ _ (put-IsOnScreen _ _ (put-IsOnScreen _ _ v)))) in
      rw tab
        (scroll-IsOnScreen _ (record { cells = five.cells; cursor = omega (arith, five.cursor) }))
  | inr other ↦ rw other (put-IsOnScreen (with_color c) s v)
]

-- c is neither a backspace, a tab, a newline nor a carriage return.
abbrev pub is_plain : ℕ → Bool
is_plain c = not (low_byte c == 8 || low_byte c == 9 || low_byte c == 10 || low_byte c == 13)

-- By how many cells the screen moves when a character is written at the cursor.
abbrev pub shift_of : Screen → ℕ
shift_of s = if suc s.crt_pos == crt_size then crt_cols else 0

plain_char :
    (c : ℕ) (s : Screen)
    → is_plain c ≡ true
    → s.crt_pos < crt_size
    → cga_putc c s
      ≡ scroll (record {
        crt_buf = set s.crt_buf s.crt_pos (with_color c % 2 ^ 16);
        crt_pos = suc s.crt_pos;
      })
unfolding cga_putc put_char
plain_char c s plain h =
    let same : low_byte (with_color c) ≡ low_byte c = omega arith in
    let backspace : (low_byte c == 8) ≡ false = ground (arith, plain) in
    let tab : (low_byte c == 9) ≡ false = ground (arith, plain) in
    let newline : (low_byte c == 10) ≡ false = ground (arith, plain) in
    let return : (low_byte c == 13) ≡ false = ground (arith, plain) in
    let small : suc s.crt_pos % 2 ^ 16 ≡ suc s.crt_pos = omega (arith, h) in
    rw (cga_putc, tab, put_char, same, backspace, newline, return, small) refl

le_of_ltb : (a b : ℕ) → ltb a b ≡ false → b ≤ a
le_of_ltb a b h = ground arith

ltb_of_le : (a b : ℕ) → b ≤ a → ltb a b ≡ false
ltb_of_le a b h = ground arith

scrolled_cell :
    (xs : List ℕ) (j : ℕ)
    → length xs ≡ crt_size
    → j < crt_size
    → get_or (drop crt_cols xs ++ replicate crt_cols blank) j 0
      ≡ (if ltb (j + crt_cols) crt_size then get_or xs (j + crt_cols) 0 else blank)
scrolled_cell xs j n h =
    let e : crt_cols + j ≡ j + crt_cols = omega arith in
    get_or-append (drop crt_cols xs) (replicate crt_cols blank) j 0
    ∙ elim (Bool-cases (ltb (j + crt_cols) crt_size)) [
      | inl kept ↦
          let inside : ltb j (length (drop crt_cols xs)) ≡ true =
            lt→ltb _ _ (omega (arith, ltb→lt _ _ kept, length-drop crt_cols xs, n)) in
          rw (inside, kept) (get_or-drop crt_cols xs j 0 ∙ ap (λ i. get_or xs i 0) e)
      | inr new ↦
          let far : crt_size ≤ j + crt_cols = le_of_ltb (j + crt_cols) crt_size new in
          let outside : ltb j (length (drop crt_cols xs)) ≡ false =
            ltb_of_le _ _ (omega (arith, far, length-drop crt_cols xs, n)) in
          rw (outside, new)
            (get_or-replicate crt_cols (j - length (drop crt_cols xs)) blank 0
              (omega (arith, far, length-drop crt_cols xs, n, h)))
    ]

-- A plain character on the screen stands where the cursor was, and the cursor is on the next
-- cell; the other cells stay as they are. If the cursor was on the last cell, the screen then
-- moves up by a line, and the last line is blank.
pub cga_putc-prints :
    (c : ℕ) (s : Screen)
    → IsOnScreen s
    → is_plain c ≡ true
    → (suc s.crt_pos ≡ (cga_putc c s).crt_pos + shift_of s)
      × ((j : ℕ)
          → j < crt_size
          → get_or (cga_putc c s).crt_buf j 0 ≡ (
              if j + shift_of s == s.crt_pos
              then with_color c % 2 ^ 16
              else if ltb (j + shift_of s) crt_size
              then get_or s.crt_buf (j + shift_of s) 0
              else blank))
unfolding scroll
cga_putc-prints c s v plain =
    let w = with_color c % 2 ^ 16 in
    rw (plain_char c s plain v.cursor) (elim (Bool-cases (suc s.crt_pos == crt_size)) [
      | inl last ↦
          let left : leb crt_size (suc s.crt_pos) ≡ true = ground (arith, last) in
          rw (last, left)
            (
              ground (arith, last),
              λ j h.
                  scrolled_cell (set s.crt_buf s.crt_pos w) j
                    (length-set s.crt_buf s.crt_pos w ∙ v.cells) h
                  ∙ rw (get_or-set s.crt_buf s.crt_pos (j + crt_cols) w 0)
                      (ground (arith, v.cells, v.cursor, last)),
            )
      | inr inside ↦
          let stays : leb crt_size (suc s.crt_pos) ≡ false = ground (arith, inside, v.cursor) in
          rw (inside, stays)
            (
              omega arith,
              λ j h. get_or-set s.crt_buf s.crt_pos j w 0 ∙ ground (arith, v.cells, v.cursor, h),
            )
    ])
