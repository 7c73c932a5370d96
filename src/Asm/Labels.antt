-- ===== src/Asm/Labels.antt =====
-- The labels that the first pass collects.
use backup_gatech.Common.{
  ℕ, ◌+◌, ◌≡◌, Option, none, some, List, [], ◌∷◌, ◌++◌, Bool, true, false, ◌||◌, if◌then◌else◌,
  ◌==◌, arith, refl, ◌∙◌, ap, sym, Bool-cases, Option-cases, inl, inr,
}
use backup_gatech.Asm.{
  Token, delimiter, word, lexer, equal_names, Symbols, symbol_lookup, symbol_insert, Pass,
  count_opcode, add_label, first_pass_line, pass_lines, first_pass,
}

-- What a line is: whether it defines a label, and whether it has an instruction.
abbrev pub label_of : List Token → Option (List ℕ)
label_of [] = none
label_of (delimiter c ∷ ts) = none
label_of (word w ∷ []) = none
label_of (word w ∷ word v ∷ ts) = none
label_of (word w ∷ delimiter c ∷ ts) = if c == b':' then some w else none

abbrev pub size_of : List Token → ℕ
size_of [] = 0
size_of (delimiter c ∷ ts) = 0
size_of (word w ∷ []) = 1
size_of (word w ∷ word v ∷ ts) = 1
size_of (word w ∷ delimiter c ∷ []) = if c == b':' then 0 else 1
size_of (word w ∷ delimiter c ∷ t ∷ ts) = 1

-- The number of instructions in the lines.
abbrev pub sizes : List (List ℕ) → ℕ
sizes [] = 0
sizes (l ∷ ls) = size_of (lexer l) + sizes ls

abbrev pub is_label : List ℕ → Option (List ℕ) → Bool
is_label name none = false
is_label name (some n) = equal_names n name

-- Some line defines the label.
abbrev pub defines : List ℕ → List (List ℕ) → Bool
defines name [] = false
defines name (l ∷ ls) = is_label name (label_of (lexer l)) || defines name ls

equal_names_refl : (cs : List ℕ) → equal_names cs cs ≡ true
equal_names_refl [] = refl
equal_names_refl (c ∷ cs) = ground (arith, equal_names_refl cs)

count_opcode-symbols : (ts : List Token) (s : Pass) → (count_opcode ts s).symbols ≡ s.symbols
unfolding count_opcode
count_opcode-symbols [] s = refl
count_opcode-symbols (t ∷ ts) s = refl

-- What a line does to the table and the pc.
first_pass_line-pc : (ts : List Token) (s : Pass) → (first_pass_line ts s).pc ≡ size_of ts + s.pc
unfolding first_pass_line count_opcode add_label
first_pass_line-pc [] s = omega arith
first_pass_line-pc (delimiter c ∷ ts) s = omega arith
first_pass_line-pc (word w ∷ []) s = omega arith
first_pass_line-pc (word w ∷ word v ∷ ts) s = omega arith
first_pass_line-pc (word w ∷ delimiter c ∷ []) s = ground arith
first_pass_line-pc (word w ∷ delimiter c ∷ t ∷ ts) s = ground arith

-- The table after a line.
abbrev labelled : Option (List ℕ) → ℕ → Symbols → Symbols
labelled none pc table = table
labelled (some w) pc table = (symbol_insert w pc table).1

first_pass_line-symbols :
    (ts : List Token) (s : Pass)
    → (first_pass_line ts s).symbols ≡ labelled (label_of ts) s.pc s.symbols
unfolding first_pass_line add_label
first_pass_line-symbols [] s = refl
first_pass_line-symbols (delimiter c ∷ ts) s = refl
first_pass_line-symbols (word w ∷ []) s = count_opcode-symbols (word w ∷ []) s
first_pass_line-symbols (word w ∷ word v ∷ ts) s = count_opcode-symbols (word w ∷ word v ∷ ts) s
first_pass_line-symbols (word w ∷ delimiter c ∷ ts) s = elim (Bool-cases (c == b':')) [
  | inl colon ↦ rw colon (count_opcode-symbols ts (add_label w s))
  | inr other ↦ rw other (count_opcode-symbols (word w ∷ delimiter c ∷ ts) s)
]

equal_names-eq : (cs ds : List ℕ) → equal_names cs ds ≡ true → cs ≡ ds
equal_names-eq [] [] h = refl
equal_names-eq [] (d ∷ ds) h = absurd (cc)
equal_names-eq (c ∷ cs) [] h = absurd (cc)
equal_names-eq (c ∷ cs) (d ∷ ds) h =
    let e1 : c ≡ d = ground arith in
    let e2 : cs ≡ ds = equal_names-eq cs ds (ground arith) in
    ap (λ x. x ∷ cs) e1 ∙ ap (λ xs. d ∷ xs) e2

module _ (n m : List ℕ) (x : ℕ) (t : Symbols) where
  symbol_insert-old : (w : ℕ) → symbol_lookup m t ≡ some w → (symbol_insert m x t).1 ≡ t
  unfolding symbol_insert
  symbol_insert-old w e = rw (symbol_insert, e) refl

  symbol_insert-fresh : symbol_lookup m t ≡ none → (symbol_insert m x t).1 ≡ (m, x) ∷ t
  unfolding symbol_insert
  symbol_insert-fresh e = rw (symbol_insert, e) refl

  symbol_lookup-cons :
      symbol_lookup n ((m, x) ∷ t) ≡ (if equal_names m n then some x else symbol_lookup n t)
  unfolding symbol_lookup
  symbol_lookup-cons = refl

  insert-keeps :
      (v : ℕ) → symbol_lookup n t ≡ some v → symbol_lookup n (symbol_insert m x t).1 ≡ some v
  insert-keeps v h = elim (Option-cases (symbol_lookup m t)) [
    | inr (w, e) ↦ ap (symbol_lookup n) (symbol_insert-old w e) ∙ h
    | inl new ↦ elim (Bool-cases (equal_names m n)) [
      | inr other ↦ ap (symbol_lookup n) (symbol_insert-fresh new) ∙ symbol_lookup-cons ∙ rw other h
      | inl eq ↦
          let clash : none ≡ some v =
            sym new ∙ ap (λ k. symbol_lookup k t) (equal_names-eq m n eq) ∙ h in
          absurd (cc)
    ]
  ]

  insert-absent :
      equal_names m n ≡ false
      → symbol_lookup n t ≡ none
      → symbol_lookup n (symbol_insert m x t).1 ≡ none
  insert-absent other h = elim (Option-cases (symbol_lookup m t)) [
    | inr (w, e) ↦ ap (symbol_lookup n) (symbol_insert-old w e) ∙ h
    | inl new ↦ ap (symbol_lookup n) (symbol_insert-fresh new) ∙ symbol_lookup-cons ∙ rw other h
  ]

insert-new :
    (n : List ℕ) (x : ℕ) (t : Symbols)
    → symbol_lookup n t ≡ none
    → symbol_lookup n (symbol_insert n x t).1 ≡ some x
insert-new n x t h =
    ap (symbol_lookup n) (symbol_insert-fresh n n x t h)
    ∙ symbol_lookup-cons n n x t
    ∙ rw (equal_names_refl n) refl

module _ (n : List ℕ) (x : ℕ) (t : Symbols) where
  labelled-keeps :
      (l : Option (List ℕ)) (v : ℕ)
      → symbol_lookup n t ≡ some v
      → symbol_lookup n (labelled l x t) ≡ some v
  labelled-keeps none v h = h
  labelled-keeps (some m) v h = insert-keeps n m x t v h

  labelled-absent :
      (l : Option (List ℕ))
      → is_label n l ≡ false
      → symbol_lookup n t ≡ none
      → symbol_lookup n (labelled l x t) ≡ none
  labelled-absent none other h = h
  labelled-absent (some m) other h = insert-absent n m x t other h

-- The lines before and after that of a label.
pass_lines-keeps :
    (n : List ℕ) (v : ℕ) (ls : List (List ℕ)) (s : Pass)
    → symbol_lookup n s.symbols ≡ some v
    → symbol_lookup n (pass_lines ls s).symbols ≡ some v
unfolding pass_lines
pass_lines-keeps n v [] s h = h
pass_lines-keeps n v (l ∷ ls) s h = pass_lines-keeps n v ls (first_pass_line (lexer l) s) (
    ap (symbol_lookup n) (first_pass_line-symbols (lexer l) s)
    ∙ labelled-keeps n s.pc s.symbols (label_of (lexer l)) v h)

pass_lines-absent :
    (n : List ℕ) (ls : List (List ℕ)) (s : Pass)
    → defines n ls ≡ false
    → symbol_lookup n s.symbols ≡ none
    → symbol_lookup n (pass_lines ls s).symbols ≡ none
unfolding pass_lines
pass_lines-absent n [] s d h = h
pass_lines-absent n (l ∷ ls) s d h =
    pass_lines-absent n ls (first_pass_line (lexer l) s) (ground arith) (
      ap (symbol_lookup n) (first_pass_line-symbols (lexer l) s)
      ∙ labelled-absent n s.pc s.symbols (label_of (lexer l)) (ground arith) h)

pass_lines-pc : (ls : List (List ℕ)) (s : Pass) → (pass_lines ls s).pc ≡ sizes ls + s.pc
unfolding pass_lines
pass_lines-pc [] s = omega arith
pass_lines-pc (l ∷ ls) s =
    pass_lines-pc ls (first_pass_line (lexer l) s) ∙ omega (arith, first_pass_line-pc (lexer l) s)

pass_lines-append :
    (ls ks : List (List ℕ)) (s : Pass) → pass_lines (ls ++ ks) s ≡ pass_lines ks (pass_lines ls s)
unfolding pass_lines
pass_lines-append [] ks s = refl
pass_lines-append (l ∷ ls) ks s = pass_lines-append ls ks (first_pass_line (lexer l) s)

-- The first pass gives a label the number of instructions before the first line that defines it,
-- whatever the lines before and after are.
pub first_pass-labels :
    (n line : List ℕ) (before after : List (List ℕ))
    → label_of (lexer line) ≡ some n
    → defines n before ≡ false
    → symbol_lookup n (first_pass (before ++ line ∷ after)).symbols ≡ some (sizes before)
unfolding first_pass pass_lines symbol_lookup
first_pass-labels n line before after here first =
    let s0 : Pass = record { pc = 0; symbols = []; nerrors = 0 } in
    let s1 = pass_lines before s0 in
    let absent : symbol_lookup n s1.symbols ≡ none = pass_lines-absent n before s0 first refl in
    let found : symbol_lookup n (first_pass_line (lexer line) s1).symbols ≡ some s1.pc =
      ap (symbol_lookup n) (first_pass_line-symbols (lexer line) s1)
      ∙ ap (λ l. symbol_lookup n (labelled l s1.pc s1.symbols)) here
      ∙ insert-new n s1.pc s1.symbols absent in
    let pc : s1.pc ≡ sizes before = pass_lines-pc before s0 ∙ omega arith in
    ap (λ s. symbol_lookup n s.symbols) (pass_lines-append before (line ∷ after) s0)
    ∙ pass_lines-keeps n s1.pc after (first_pass_line (lexer line) s1) found
    ∙ ap some pc

pub first_pass-pc : (ls : List (List ℕ)) → (first_pass ls).pc ≡ sizes ls
unfolding first_pass
first_pass-pc ls = pass_lines-pc ls _ ∙ omega arith
