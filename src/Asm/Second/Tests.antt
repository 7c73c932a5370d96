-- ===== src/Asm/Second/Tests.antt =====
-- The theorems on the second pass at short programs.
use backup_gatech.Common.{
  ℕ, ◌+◌, ◌/◌, ◌%◌, ◌^◌, ◌≡◌, some, List, [], ◌∷◌, ◌++◌, length, refl, arith,
}
use backup_gatech.Asm.{
  delimiter, word, lexer, strip_comment, split_tokens, split_word, skip_whitespace, first_pass,
}
use backup_gatech.Asm.Words.{sign_extend}
use backup_gatech.Asm.Operands.{
  regno_from, lookup_row, lookup_instruction, token_to_regno, is_numeric, is_number, every,
}
use backup_gatech.Asm.Second.{
  second_pass, second_lines, second_pass_line, second_pass_opcode, encode, encode_om, emit,
  encode_ii,
}
use backup_gatech.Asm.Second.Agreement.{second_pass-first_pass}
use backup_gatech.Asm.Second.Branch.{beq, encode_ii-first_pass}

-- "ei" and "l: di".
abbrev ei_line : List ℕ
ei_line = b'e' ∷ b'i' ∷ []

abbrev label_line : List ℕ
label_line = b'l' ∷ b':' ∷ b' ' ∷ b'd' ∷ b'i' ∷ []

-- No token of these lines goes to atoi.
abbrev no_number : List ℕ → ℕ
no_number cs = 0

second_pass-first_pass_example :
    length (second_pass no_number [] (ei_line ∷ label_line ∷ [])).output
    ≡ (first_pass (ei_line ∷ label_line ∷ [])).pc
unfolding second_pass second_lines second_pass_line second_pass_opcode lookup_instruction lookup_row
    encode encode_om emit lexer strip_comment split_tokens split_word skip_whitespace
second_pass-first_pass_example =
    second_pass-first_pass no_number [] (ei_line ∷ label_line ∷ []) refl

-- "beq $a0, $zero, l" as the third instruction.
encode_ii-first_pass_example :
    (w : ℕ) × (encode_ii no_number (first_pass ((ei_line ∷ []) ++ label_line ∷ [])).symbols 2 beq (
        word (b'$' ∷ b'a' ∷ b'0' ∷ [])
        ∷ delimiter b','
        ∷ word (b'$' ∷ b'z' ∷ b'e' ∷ b'r' ∷ b'o' ∷ [])
        ∷ delimiter b','
        ∷ word (b'l' ∷ [])
        ∷ [])
      ≡ (some w, 0))
    × (w / 2 ^ 28 ≡ 5)
    × ((sign_extend (w % 2 ^ 20) + 3) % 2 ^ 32 ≡ 1)
unfolding lexer strip_comment split_tokens split_word skip_whitespace token_to_regno regno_from
    is_numeric is_number every
encode_ii-first_pass_example =
    encode_ii-first_pass no_number 2 (word (b'$' ∷ b'a' ∷ b'0' ∷ []))
      (word (b'$' ∷ b'z' ∷ b'e' ∷ b'r' ∷ b'o' ∷ [])) (b'l' ∷ []) label_line (ei_line ∷ []) [] refl
      refl refl refl refl (omega arith) (omega arith) refl
