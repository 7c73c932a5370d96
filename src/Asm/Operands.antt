-- ===== src/Asm/Operands.antt =====
-- The tables and the operands of cs_2200/pipeline/prj3/Assembly/assemble32.c: mnemonics, registers,
-- numbers and symbols. `atoi` is that of the C library, with the 32 bits of its result; an error is
-- counted.
use backup_gatech.Common.{
  ℕ, suc, ◌+◌, ◌-◌, ◌*◌, ◌%◌, ◌^◌, Option, none, some, List, [], ◌∷◌, Bool, true, false, ◌&&◌, ◌||◌,
  not, if◌then◌else◌, ◌==◌, leb, ◌<◌, ◌≡◌, arith, refl, length, Option-cases, inl, inr,
}
use backup_gatech.Asm.{Token, delimiter, word, equal_names, Symbols, symbol_lookup, check_offset}

-- Formats S and its constructor are in no row of the table.
pub data Format : Type 0 where
  r i ii j o p m : Format

-- The opcode of a pseudo-op is not used.
pub record Instruction : Type 0 where
  pub opcode : ℕ
  pub mnemonic : List ℕ
  pub format : Format

abbrev pub instruction_table : List Instruction
instruction_table =
    record { opcode = 0; mnemonic = b'a' ∷ b'd' ∷ b'd' ∷ []; format = r }
    ∷ record { opcode = 1; mnemonic = b'n' ∷ b'a' ∷ b'n' ∷ b'd' ∷ []; format = r }
    ∷ record { opcode = 2; mnemonic = b'a' ∷ b'd' ∷ b'd' ∷ b'i' ∷ []; format = ii }
    ∷ record { opcode = 3; mnemonic = b'l' ∷ b'w' ∷ []; format = i }
    ∷ record { opcode = 4; mnemonic = b's' ∷ b'w' ∷ []; format = i }
    ∷ record { opcode = 5; mnemonic = b'b' ∷ b'e' ∷ b'q' ∷ []; format = ii }
    ∷ record { opcode = 6; mnemonic = b'j' ∷ b'a' ∷ b'l' ∷ b'r' ∷ []; format = j }
    ∷ record { opcode = 7; mnemonic = b'h' ∷ b'a' ∷ b'l' ∷ b't' ∷ []; format = o }
    ∷ record { opcode = 8; mnemonic = b'b' ∷ b'o' ∷ b'n' ∷ b'r' ∷ []; format = r }
    ∷ record { opcode = 9; mnemonic = b'b' ∷ b'o' ∷ b'n' ∷ b'o' ∷ []; format = o }
    ∷ record { opcode = 10; mnemonic = b'e' ∷ b'i' ∷ []; format = m }
    ∷ record { opcode = 11; mnemonic = b'd' ∷ b'i' ∷ []; format = m }
    ∷ record { opcode = 12; mnemonic = b'r' ∷ b'e' ∷ b't' ∷ b'i' ∷ []; format = m }
    ∷ record { opcode = 13; mnemonic = b'b' ∷ b'o' ∷ b'n' ∷ b'i' ∷ []; format = ii }
    ∷ record { opcode = 14; mnemonic = b'b' ∷ b'o' ∷ b'n' ∷ b'j' ∷ []; format = j }
    ∷ record { opcode = 0; mnemonic = b'.' ∷ b'w' ∷ b'o' ∷ b'r' ∷ b'd' ∷ []; format = p }
    ∷ record { opcode = 0; mnemonic = b'.' ∷ b'f' ∷ b'i' ∷ b'l' ∷ b'l' ∷ []; format = p }
    ∷ record { opcode = 0; mnemonic = b'l' ∷ b'a' ∷ []; format = p }
    ∷ []

abbrev pub register_names : List (List ℕ)
register_names =
    (b'$' ∷ b'z' ∷ b'e' ∷ b'r' ∷ b'o' ∷ [])
    ∷ (b'$' ∷ b'a' ∷ b't' ∷ [])
    ∷ (b'$' ∷ b'v' ∷ b'0' ∷ [])
    ∷ (b'$' ∷ b'a' ∷ b'0' ∷ [])
    ∷ (b'$' ∷ b'a' ∷ b'1' ∷ [])
    ∷ (b'$' ∷ b'a' ∷ b'2' ∷ [])
    ∷ (b'$' ∷ b'a' ∷ b'3' ∷ [])
    ∷ (b'$' ∷ b'a' ∷ b'4' ∷ [])
    ∷ (b'$' ∷ b's' ∷ b'0' ∷ [])
    ∷ (b'$' ∷ b's' ∷ b'1' ∷ [])
    ∷ (b'$' ∷ b's' ∷ b'2' ∷ [])
    ∷ (b'$' ∷ b's' ∷ b'3' ∷ [])
    ∷ (b'$' ∷ b'k' ∷ b'0' ∷ [])
    ∷ (b'$' ∷ b's' ∷ b'p' ∷ [])
    ∷ (b'$' ∷ b'f' ∷ b'p' ∷ [])
    ∷ (b'$' ∷ b'r' ∷ b'a' ∷ [])
    ∷ []

unfoldable pub lookup_row : List ℕ → List Instruction → Option Instruction
lookup_row name [] = none
lookup_row name (x ∷ xs) =
    let below = lookup_row name xs in if equal_names name x.mnemonic then some x else below

unfoldable pub lookup_instruction : List ℕ → Option Instruction
lookup_instruction name = lookup_row name instruction_table

-- The number of the name in the list, from `k` on.
unfoldable pub regno_from : ℕ → List ℕ → List (List ℕ) → Option ℕ
regno_from k name [] = none
regno_from k name (n ∷ ns) =
    let below = regno_from (suc k) name ns in if equal_names name n then some k else below

-- The characters of a token.
abbrev pub text : Token → List ℕ
text (delimiter c) = c ∷ []
text (word w) = w

-- A value and the errors that were reported on the way.
abbrev pub Counted : Type 0
Counted = ℕ × ℕ

unfoldable pub token_to_regno : Token → Counted
token_to_regno t = elim (regno_from 0 (text t) register_names) [ none ↦ (0, 1) | some n ↦ (n, 0) ]

abbrev pub is_decimal_char : ℕ → Bool
is_decimal_char c = leb b'0' c && leb c b'9'

abbrev pub is_octal_char : ℕ → Bool
is_octal_char c = leb b'0' c && leb c b'7'

abbrev pub is_hexadecimal_char : ℕ → Bool
is_hexadecimal_char c =
    is_decimal_char c || (leb b'A' c && leb c b'F') || (leb b'a' c && leb c b'f')

unfoldable pub every : (ℕ → Bool) → List ℕ → Bool
every f [] = true
every f (c ∷ cs) = f c && every f cs

-- The token without its sign.
unfoldable pub is_number : List ℕ → Bool
is_number [] = true
is_number (c ∷ []) = is_decimal_char c
is_number (c ∷ x ∷ cs) =
    if c == b'0'
    then if x == b'x' || x == b'X'
      then not (equal_names cs []) && every is_hexadecimal_char cs
      else every is_octal_char (x ∷ cs)
    else every is_decimal_char (c ∷ x ∷ cs)

unfoldable pub is_numeric : List ℕ → Bool
is_numeric [] = true
is_numeric (c ∷ cs) = if c == b'-' then is_number cs else is_number (c ∷ cs)

pub hex_digit : ℕ → Option ℕ
hex_digit c =
    if leb b'0' c && leb c b'9'
    then some (c - b'0')
    else if leb b'A' c && leb c b'F'
    then some (c - b'A' + 10)
    else if leb b'a' c && leb c b'f'
    then some (c - b'a' + 10)
    else none

pub hex_loop : (number : ℕ) → List ℕ → ℕ
hex_loop number [] = number
hex_loop number (c ∷ cs) = elim (hex_digit c) [
  | none ↦ number
  | some d ↦ hex_loop (number * 16 + d) cs
]

module _ (atoi : List ℕ → ℕ) where
  -- The result as an int.
  pub hextoi : List ℕ → ℕ
  hextoi [] = atoi []
  hextoi (c ∷ []) = atoi (c ∷ [])
  hextoi (c ∷ x ∷ cs) =
      if (c == b'0') && (x == b'x' || x == b'X') then hex_loop 0 cs % 2 ^ 32 else atoi (c ∷ x ∷ cs)

  pub token_to_number : Symbols → Token → Counted
  token_to_number syms t =
      if is_numeric (text t)
      then (hextoi (text t), 0)
      else elim (symbol_lookup (text t) syms) [ none ↦ (0, 1) | some v ↦ (v, 0) ]

-- check_delimiter and check_offset, as a count of errors.
abbrev pub delimiter_error : ℕ → Token → ℕ
delimiter_error c (delimiter d) = if c == d then 0 else 1
delimiter_error c (word w) = 1

abbrev pub offset_error : ℕ → ℕ
offset_error offset = if check_offset offset then 0 else 1

-- The number of a register is below the number of names.
regno_from-below :
    (k : ℕ) (name : List ℕ) (ns : List (List ℕ)) (reg : ℕ)
    → regno_from k name ns ≡ some reg
    → reg < k + length ns
unfolding regno_from
regno_from-below k name [] reg e = absurd (cc)
regno_from-below k name (n ∷ ns) reg e = ground (arith, regno_from-below (suc k) name ns reg)

pub token_to_regno-below : (t : Token) → (token_to_regno t).0 < 16
unfolding token_to_regno
token_to_regno-below t = elim (Option-cases (regno_from 0 (text t) register_names)) [
  | inl unknown ↦ rw (token_to_regno, unknown) (omega arith)
  | inr (reg, known) ↦
      let small : reg < 0 + length register_names =
        regno_from-below 0 (text t) register_names reg known in
      rw (token_to_regno, known) small
]

pub token_to_number-symbol :
    (atoi : List ℕ → ℕ) (syms : Symbols) (l : List ℕ) (v : ℕ)
    → is_numeric l ≡ false
    → symbol_lookup l syms ≡ some v
    → token_to_number atoi syms (word l) ≡ (v, 0)
unfolding token_to_number
token_to_number-symbol atoi syms l v n e = rw (token_to_number, n, e) refl
