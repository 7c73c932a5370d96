-- ===== src/Asm/Second/Branch.antt =====
-- A branch to a label.
use backup_gatech.Common.{
  ℕ, suc, ◌+◌, ◌/◌, ◌%◌, ◌^◌, ◌<◌, ◌≡◌, some, List, [], ◌∷◌, ◌++◌, true, false, arith, refl,
}
use backup_gatech.Asm.{Token, delimiter, word, lexer, check_offset, first_pass, construct_I}
use backup_gatech.Asm.Labels.{label_of, defines, sizes, first_pass-labels}
use backup_gatech.Asm.Words.{sign_extend, construct_I-fields}
use backup_gatech.Asm.Operands.{
  ii, Instruction, token_to_regno, is_numeric, token_to_regno-below, token_to_number-symbol,
}
use backup_gatech.Asm.Second.{relative, encode_ii}

abbrev pub beq : Instruction
beq = record { opcode = 5; mnemonic = b'b' ∷ b'e' ∷ b'q' ∷ []; format = ii }

-- A beq at address pc is given with two registers and a label, which is not numeric and which a
-- line defines but none of those before it; pc + 1 and the number of instructions before that line
-- are below 2 ^ 32, and check_offset accepts the offset. Then, with the symbols of the first pass,
-- it is translated without an error to a word of opcode 5 whose offset field, with its sign, added
-- to pc + 1 on 32 bits, is the number of instructions before the label's line.
pub encode_ii-first_pass :
    (atoi : List ℕ → ℕ) (pc : ℕ) (t1 t2 : Token) (l line : List ℕ) (before after : List (List ℕ))
    → label_of (lexer line) ≡ some l
    → defines l before ≡ false
    → is_numeric l ≡ false
    → (token_to_regno t1).1 ≡ 0
    → (token_to_regno t2).1 ≡ 0
    → suc pc < 2 ^ 32
    → sizes before < 2 ^ 32
    → check_offset (relative true pc (sizes before)) ≡ true
    → (w : ℕ) × (encode_ii atoi
          (first_pass (before ++ line ∷ after)).symbols
          pc
          beq
          (t1 ∷ delimiter b',' ∷ t2 ∷ delimiter b',' ∷ word l ∷ [])
        ≡ (some w, 0))
      × (w / 2 ^ 28 ≡ 5)
      × ((sign_extend (w % 2 ^ 20) + suc pc) % 2 ^ 32 ≡ sizes before)
unfolding encode_ii
encode_ii-first_pass atoi pc t1 t2 l line before after here first name e1 e2 small few fits =
    let syms = (first_pass (before ++ line ∷ after)).symbols in
    let number =
      token_to_number-symbol atoi syms l (sizes before) name
        (first_pass-labels l line before after here first) in
    let offset = relative true pc (sizes before) in
    let fields =
      construct_I-fields 5 (token_to_regno t2).0 (token_to_regno t1).0 offset (omega arith)
        (token_to_regno-below t2) (token_to_regno-below t1) (omega arith) fits in
    (
      construct_I 5 (token_to_regno t2).0 (token_to_regno t1).0 offset,
      rw (number, e1, e2, fits) refl,
      fields.0,
      rw (fields.3) (omega arith),
    )
