-- ===== src/Asm/Second/Agreement.antt =====
-- The two passes count the same instructions.
use backup_gatech.Common.{
  ℕ, ◌+◌, ◌≤◌, ◌≡◌, none, some, List, [], ◌∷◌, ◌==◌, arith, ◌∙◌, ap, sym, length, length-append,
  Bool-cases, Option-cases, inl, inr,
}
use backup_gatech.Asm.{Token, delimiter, word, lexer, Symbols, first_pass}
use backup_gatech.Asm.Labels.{size_of, sizes, first_pass-pc}
use backup_gatech.Asm.Operands.{lookup_instruction}
use backup_gatech.Asm.Second.{
  Coded, SecondPass, emit, encode, second_pass_opcode, second_pass_line, second_lines, second_pass,
}

-- What a line does: errors only grow, and without a new error the line gives `n` words.
record Grows (n : ℕ) (s t : SecondPass) : Type 0 where
  errors : s.nerrors ≤ t.nerrors
  words : t.nerrors ≡ s.nerrors → length t.output ≡ n + length s.output

emit-Grows : (c : Coded) (s : SecondPass) → Grows 1 s (emit c s)
unfolding emit
emit-Grows (none, e) s = record {
  errors = omega arith;
  words = λ h. length-append s.output (s.machinecode ∷ []) ∙ omega arith;
}
emit-Grows (some w, e) s = record {
  errors = omega arith;
  words = λ h. length-append s.output (w ∷ []) ∙ omega arith;
}

module _ (atoi : List ℕ → ℕ) (syms : Symbols) where
  opcode-Grows :
      (w : List ℕ) (ts : List Token) (s : SecondPass)
      → Grows 1 s (second_pass_opcode atoi syms (word w ∷ ts) s)
  unfolding second_pass_opcode
  opcode-Grows w ts s = elim (Option-cases (lookup_instruction w)) [
    | inl unknown ↦ rw (second_pass_opcode, unknown) (emit-Grows (some 0, 1) s)
    | inr (x, known) ↦ rw (second_pass_opcode, known) (emit-Grows (encode atoi syms s.pc x ts) s)
  ]

  line-Grows :
      (ts : List Token) (s : SecondPass) → Grows (size_of ts) s (second_pass_line atoi syms ts s)
  unfolding second_pass_line second_pass_opcode
  line-Grows [] s = record { errors = omega arith; words = λ h. omega arith }
  line-Grows (delimiter c ∷ ts) s = record { errors = omega arith; words = λ h. omega arith }
  line-Grows (word w ∷ []) s = opcode-Grows w [] s
  line-Grows (word w ∷ word v ∷ ts) s = opcode-Grows w (word v ∷ ts) s
  line-Grows (word w ∷ delimiter c ∷ []) s = elim (Bool-cases (c == b':')) [
    | inl colon ↦ rw colon (record { errors = omega arith; words = λ h. omega arith })
    | inr other ↦ rw other (opcode-Grows w (delimiter c ∷ []) s)
  ]
  line-Grows (word w ∷ delimiter c ∷ delimiter d ∷ ts) s = elim (Bool-cases (c == b':')) [
    | inl colon ↦ rw colon (record { errors = omega arith; words = λ h. absurd (omega (arith, h)) })
    | inr other ↦ rw other (opcode-Grows w (delimiter c ∷ delimiter d ∷ ts) s)
  ]
  line-Grows (word w ∷ delimiter c ∷ word v ∷ ts) s = elim (Bool-cases (c == b':')) [
    | inl colon ↦ rw colon (opcode-Grows v ts s)
    | inr other ↦ rw other (opcode-Grows w (delimiter c ∷ word v ∷ ts) s)
  ]

  lines-Grows :
      (ls : List (List ℕ)) (s : SecondPass) → Grows (sizes ls) s (second_lines atoi syms ls s)
  unfolding second_lines
  lines-Grows [] s = record { errors = omega arith; words = λ h. omega arith }
  lines-Grows (l ∷ ls) s =
      let here = line-Grows (lexer l) s in
      let rest = lines-Grows ls (second_pass_line atoi syms (lexer l) s) in
      record {
        errors = omega (arith, here.errors, rest.errors);
        words = λ h.
            rest.words (omega (arith, here.errors, rest.errors, h))
            ∙ ap (λ n. sizes ls + n) (here.words (omega (arith, here.errors, rest.errors, h)))
            ∙ omega arith;
      }

  -- If the second pass reports no error, it prints as many words as the first pass counted.
  pub second_pass-first_pass :
      (ls : List (List ℕ))
      → (second_pass atoi syms ls).nerrors ≡ 0
      → length (second_pass atoi syms ls).output ≡ (first_pass ls).pc
  unfolding second_pass
  second_pass-first_pass ls h = (lines-Grows ls _).words h ∙ omega arith ∙ sym (first_pass-pc ls)
