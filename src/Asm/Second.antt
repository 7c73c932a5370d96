-- ===== src/Asm/Second.antt =====
-- The second pass of cs_2200/pipeline/prj3/Assembly/assemble32.c. A line with the
-- wrong number of operands gives the word of the line before again.
mod Agreement
mod Tests
mod Branch
use backup_gatech.Common.{
  ℕ, zero, suc, ◌+◌, ◌-◌, ◌*◌, ◌/◌, ◌%◌, ◌^◌, Option, none, some, List, [], ◌∷◌, ◌++◌, Bool, true,
  false, ◌&&◌, ◌||◌, not, if◌then◌else◌, ◌==◌, ltb, leb,
}
use backup_gatech.Asm.{
  Token, delimiter, word, lexer, equal_names, Symbols, symbol_lookup, check_offset, construct_R,
  construct_I, construct_J, construct_om,
}
use backup_gatech.Asm.Operands.{
  Format, r, i, ii, j, o, p, m, Instruction, instruction_table, register_names, regno_from,
  lookup_row, lookup_instruction, text, Counted, token_to_regno, is_numeric, is_number, every,
  token_to_number, delimiter_error, offset_error, token_to_regno-below, token_to_number-symbol,
}

-- The word, `none` with the wrong number of operands, and the errors.
abbrev pub Coded : Type 0
Coded = Option ℕ × ℕ

pub encode_r : (opcode : ℕ) → List Token → Coded
encode_r op (t1 ∷ t2 ∷ t3 ∷ t4 ∷ t5 ∷ []) = (
  some (construct_R op (token_to_regno t3).0 (token_to_regno t5).0 (token_to_regno t1).0),
  (token_to_regno t1).1
      + delimiter_error b',' t2
      + (token_to_regno t3).1
      + delimiter_error b',' t4
      + (token_to_regno t5).1,
)
encode_r op _ = (none, 1)

pub encode_j : (opcode : ℕ) → List Token → Coded
encode_j op (t1 ∷ t2 ∷ t3 ∷ []) = (
  some (construct_J op (token_to_regno t1).0 (token_to_regno t3).0),
  (token_to_regno t1).1 + delimiter_error b',' t2 + (token_to_regno t3).1,
)
encode_j op _ = (none, 1)

pub encode_om : (opcode : ℕ) → List Token → Coded
encode_om op [] = (some (construct_om op), 0)
encode_om op (t ∷ ts) = (none, 1)

-- offset - (pc + 1) on 32 bits, for beq alone.
abbrev pub relative : (is_beq : Bool) → (pc offset : ℕ) → ℕ
relative is_beq pc offset =
    if is_beq then (offset + (2 ^ 32 - suc pc % 2 ^ 32)) % 2 ^ 32 else offset

module _ (atoi : List ℕ → ℕ) (syms : Symbols) where
  pub encode_i : (opcode : ℕ) → List Token → Coded
  encode_i op (t1 ∷ t2 ∷ t3 ∷ t4 ∷ t5 ∷ t6 ∷ []) =
      let n = token_to_number atoi syms t3 in
      (
        some (construct_I op (token_to_regno t5).0 (token_to_regno t1).0 n.0),
        (token_to_regno t1).1
            + delimiter_error b',' t2
            + n.1
            + offset_error n.0
            + delimiter_error b'(' t4
            + (token_to_regno t5).1
            + delimiter_error b')' t6,
      )
  encode_i op _ = (none, 1)

  pub encode_ii : (pc : ℕ) → Instruction → List Token → Coded
  encode_ii pc x (t1 ∷ t2 ∷ t3 ∷ t4 ∷ t5 ∷ []) =
      let n = token_to_number atoi syms t5 in
      let offset = relative (equal_names x.mnemonic (b'b' ∷ b'e' ∷ b'q' ∷ [])) pc n.0 in
      (
        some (construct_I x.opcode (token_to_regno t3).0 (token_to_regno t1).0 offset),
        (token_to_regno t1).1
            + delimiter_error b',' t2
            + (token_to_regno t3).1
            + delimiter_error b',' t4
            + n.1
            + offset_error offset,
      )
  encode_ii pc x _ = (none, 1)

  -- `la` is addi with $zero; OP_ADDI is 2.
  pub encode_la : List Token → Coded
  encode_la (t1 ∷ t2 ∷ t3 ∷ []) =
      let n = token_to_number atoi syms t3 in
      (
        some (construct_I 2 0 (token_to_regno t1).0 n.0),
        (token_to_regno t1).1 + delimiter_error b',' t2 + n.1 + offset_error n.0,
      )
  encode_la (t ∷ []) = (some (token_to_number atoi syms t).0, suc (token_to_number atoi syms t).1)
  encode_la _ = (none, 2)

  pub encode_word : List Token → Coded
  encode_word (t ∷ []) = (some (token_to_number atoi syms t).0, (token_to_number atoi syms t).1)
  encode_word _ = (none, 1)

  pub encode : (pc : ℕ) → Instruction → List Token → Coded
  encode pc x ts = elim x.format [
    | r ↦ encode_r x.opcode ts
    | i ↦ encode_i x.opcode ts
    | ii ↦ encode_ii pc x ts
    | j ↦ encode_j x.opcode ts
    | o ↦ encode_om x.opcode ts
    | m ↦ encode_om x.opcode ts
    | p ↦ if equal_names x.mnemonic (b'l' ∷ b'a' ∷ []) then encode_la ts else encode_word ts
  ]

pub record SecondPass : Type 0 where
  pub pc : ℕ
  pub machinecode : ℕ
  pub output : List ℕ
  pub nerrors : ℕ

-- The word is printed, the last one again for `none`.
pub emit : Coded → SecondPass → SecondPass
emit (none, e) s = record s {
  pc = suc s.pc;
  output = s.output ++ s.machinecode ∷ [];
  nerrors = e + s.nerrors;
}
emit (some w, e) s = record {
  pc = suc s.pc;
  machinecode = w;
  output = s.output ++ w ∷ [];
  nerrors = e + s.nerrors;
}

module _ (atoi : List ℕ → ℕ) (syms : Symbols) where
  -- A line without its label.
  pub second_pass_opcode : List Token → SecondPass → SecondPass
  second_pass_opcode [] s = s
  second_pass_opcode (delimiter c ∷ ts) s = record s { nerrors = suc s.nerrors }
  second_pass_opcode (word w ∷ ts) s = elim (lookup_instruction w) [
    | none ↦ emit (some 0, 1) s
    | some x ↦ emit (encode atoi syms s.pc x ts) s
  ]

  pub second_pass_line : List Token → SecondPass → SecondPass
  second_pass_line [] s = s
  second_pass_line (delimiter c ∷ ts) s = s
  second_pass_line (word w ∷ []) s = second_pass_opcode (word w ∷ []) s
  second_pass_line (word w ∷ word v ∷ ts) s = second_pass_opcode (word w ∷ word v ∷ ts) s
  second_pass_line (word w ∷ delimiter c ∷ ts) s =
      if c == b':'
      then second_pass_opcode ts s
      else second_pass_opcode (word w ∷ delimiter c ∷ ts) s

  pub second_lines : List (List ℕ) → SecondPass → SecondPass
  second_lines [] s = s
  second_lines (l ∷ ls) s = second_lines ls (second_pass_line (lexer l) s)

  -- The first word that is printed without being set would be arbitrary; here it is 0.
  pub second_pass : List (List ℕ) → SecondPass
  second_pass ls = second_lines ls (record { pc = 0; machinecode = 0; output = []; nerrors = 0 })
