-- ===== src/Asm.antt =====
-- The assembler of cs_2200/pipeline/prj3/Assembly/assemble32.c (the copies of it in the other
-- projects are the same): the lexer, the symbol table, the first pass and the instruction words. A
-- string is the list of its bytes, a file the list of its lines.
pub mod Labels
pub mod Words
pub mod Operands
pub mod Second
use backup_gatech.Common.{
  ℕ, zero, suc, ◌+◌, ◌-◌, ◌*◌, ◌/◌, ◌%◌, ◌^◌, Option, none, some, List, [], ◌∷◌, Bool, true, false,
  ◌&&◌, ◌||◌, if◌then◌else◌, ◌==◌, ltb, leb,
}

abbrev pub is_whitespace : ℕ → Bool
is_whitespace c = c == b' ' || c == 9

abbrev pub is_rawdelimiter : ℕ → Bool
is_rawdelimiter c = c == b':' || c == b',' || c == b'(' || c == b')'

-- NUL, ! # and ;
abbrev pub is_eol : ℕ → Bool
is_eol c = c == 0 || c == b'!' || c == b'#' || c == b';'

-- The first loop of the lexer copies at most `rounds` bytes, up to a comment.
pub strip_comment : (rounds : ℕ) → List ℕ → List ℕ
strip_comment zero cs = []
strip_comment (suc k) [] = []
strip_comment (suc k) (c ∷ cs) = let rest = strip_comment k cs in if is_eol c then [] else c ∷ rest

pub data Token : Type 0 where
  delimiter : (c : ℕ) → Token
  word : (cs : List ℕ) → Token

pub skip_whitespace : List ℕ → List ℕ
skip_whitespace [] = []
skip_whitespace (c ∷ cs) = let rest = skip_whitespace cs in if is_whitespace c then rest else c ∷ cs

-- The bytes up to white space or a delimiter, and what follows them.
pub split_word : List ℕ → List ℕ × List ℕ
split_word [] = ([], [])
split_word (c ∷ cs) =
    let rest = split_word cs in
    if is_whitespace c || is_rawdelimiter c then ([], c ∷ cs) else (c ∷ rest.0, rest.1)

-- The second loop, for at most `rounds` tokens.
pub split_tokens : (rounds : ℕ) → List ℕ → List Token
split_tokens zero cs = []
split_tokens (suc k) cs = elim (skip_whitespace cs) [
  | [] ↦ []
  | c ∷ rest ↦
      if is_rawdelimiter c
      then delimiter c ∷ split_tokens k rest
      else word (split_word (c ∷ rest)).0 ∷ split_tokens k (split_word (c ∷ rest)).1
]

-- MAXLINELEN is 1024 and MAXTOKENS 64, each with one place for the end.
pub lexer : List ℕ → List Token
lexer line = split_tokens 63 (strip_comment 1023 line)

-- strcmp(...) == 0
abbrev pub equal_names : List ℕ → List ℕ → Bool
equal_names [] [] = true
equal_names [] (d ∷ ds) = false
equal_names (c ∷ cs) [] = false
equal_names (c ∷ cs) (d ∷ ds) = (c == d) && equal_names cs ds

abbrev pub Symbols : Type 0
Symbols = List (List ℕ × ℕ)

pub symbol_lookup : List ℕ → Symbols → Option ℕ
symbol_lookup name [] = none
symbol_lookup name ((n, v) ∷ rest) =
    let below = symbol_lookup name rest in if equal_names n name then some v else below

-- The table, and whether the name was new.
pub symbol_insert : List ℕ → ℕ → Symbols → Bool × Symbols
symbol_insert name value table = elim (symbol_lookup name table) [
  | some v ↦ (false, table)
  | none ↦ (true, (name, value) ∷ table)
]

pub record Pass : Type 0 where
  pub pc : ℕ
  pub symbols : Symbols
  pub nerrors : ℕ

-- The opcode bumps the pc.
pub count_opcode : List Token → Pass → Pass
count_opcode [] s = s
count_opcode (t ∷ ts) s = record s { pc = suc s.pc }

pub add_label : List ℕ → Pass → Pass
add_label name s =
    let r = symbol_insert name s.pc s.symbols in
    record s { symbols = r.1; nerrors = if r.0 then s.nerrors else suc s.nerrors }

-- One line of the first pass.
pub first_pass_line : List Token → Pass → Pass
first_pass_line [] s = s
first_pass_line (delimiter c ∷ ts) s = record s { nerrors = suc s.nerrors }
first_pass_line (word w ∷ []) s = count_opcode (word w ∷ []) s
first_pass_line (word w ∷ word v ∷ ts) s = count_opcode (word w ∷ word v ∷ ts) s
first_pass_line (word w ∷ delimiter c ∷ ts) s =
    if c == b':'
    then count_opcode ts (add_label w s)
    else count_opcode (word w ∷ delimiter c ∷ ts) s

pub pass_lines : List (List ℕ) → Pass → Pass
pass_lines [] s = s
pass_lines (l ∷ ls) s = pass_lines ls (first_pass_line (lexer l) s)

pub first_pass : List (List ℕ) → Pass
first_pass ls = pass_lines ls (record { pc = 0; symbols = []; nerrors = 0 })

-- An int is its 32 bits. OFFSET_BITS is 20.
abbrev pub check_offset : ℕ → Bool
check_offset offset = ltb offset (2 ^ 19) || leb (2 ^ 32 - 2 ^ 19) offset

-- The opcode and the registers are below 16, so that the fields do not overlap.
pub construct_R : (opcode a b dst : ℕ) → ℕ
construct_R opcode a b dst = opcode * 2 ^ 28 + a * 2 ^ 20 + b + dst * 2 ^ 24

pub construct_I : (opcode a b offset : ℕ) → ℕ
construct_I opcode a b offset = opcode * 2 ^ 28 + a * 2 ^ 20 + b * 2 ^ 24 + offset % 2 ^ 20

pub construct_J : (opcode a b : ℕ) → ℕ
construct_J opcode a b = opcode * 2 ^ 28 + a * 2 ^ 24 + b * 2 ^ 20

pub construct_om : (opcode : ℕ) → ℕ
construct_om opcode = opcode * 2 ^ 28

-- The offset -1.
pub construct_S : (opcode a b : ℕ) → ℕ
construct_S opcode a b = opcode * 2 ^ 28 + a * 2 ^ 24 + b * 2 ^ 20 + (2 ^ 20 - 1)
