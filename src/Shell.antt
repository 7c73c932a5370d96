-- ===== src/Shell.antt =====
-- The tokens of a command, os_final_project/code/user/sh.c. A pointer is an address of the memory,
-- `none` is NULL; the functions are given the rounds that the loops may take, and return `none`
-- when these run out.
mod Scan
mod Words
mod Tests
use backup_gatech.Common.{
  ℕ, zero, suc, Option, none, some, Bool, true, false, ◌||◌, if◌then◌else◌, ◌==◌,
}

abbrev pub TextMemory : Type 0
TextMemory = ℕ → ℕ

abbrev pub put_nul : ℕ → TextMemory → TextMemory
put_nul s m = λ i. if i == s then 0 else m i

pub is_blank : ℕ → Bool
is_blank c = c == b' ' || c == b'\t' || c == b'\r' || c == b'\n'

pub is_symbol : ℕ → Bool
is_symbol c =
    c == b'<' || c == b'|' || c == b'>' || c == b'&' || c == b';' || c == b'(' || c == b')'

pub skip_blanks : (rounds s : ℕ) → TextMemory → Option (ℕ × TextMemory)
skip_blanks zero s m = none
skip_blanks (suc k) s m =
    let rest = skip_blanks k (suc s) (put_nul s m) in if is_blank (m s) then rest else some (s, m)

abbrev pub ends_word : ℕ → Bool
ends_word c = c == 0 || is_blank c || is_symbol c

pub word_end : (rounds s : ℕ) → TextMemory → Option ℕ
word_end zero s m = none
word_end (suc k) s m = let rest = word_end k (suc s) m in if ends_word (m s) then some s else rest

-- What _gettoken returns, where it leaves p1 and p2, and the memory.
pub record NextToken : Type 0 where
  pub kind : ℕ
  pub p1 : Option ℕ
  pub p2 : Option ℕ
  pub memory : TextMemory

abbrev pub no_token : TextMemory → NextToken
no_token m = record { kind = 0; p1 = none; p2 = none; memory = m }

-- The character becomes NUL.
abbrev pub symbol_token : (s : ℕ) → TextMemory → NextToken
symbol_token s m = record { kind = m s; p1 = some s; p2 = some (suc s); memory = put_nul s m }

abbrev pub word_token : (s e : ℕ) → TextMemory → NextToken
word_token s e m = record { kind = b'w'; p1 = some s; p2 = some e; memory = m }

-- From the first character that is not a blank.
pub token_at : (rounds s : ℕ) → TextMemory → Option NextToken
token_at k s m =
    if m s == 0
    then some (no_token m)
    else if is_symbol (m s)
    then some (symbol_token s m)
    else elim (word_end k s m) [ none ↦ none | some e ↦ some (word_token s e m) ]

-- _gettoken; `old` is what p1 and p2 hold before.
pub get_token : (rounds : ℕ) → (s : Option ℕ) → (old : NextToken) → Option NextToken
get_token k none old = some (record old { kind = 0 })
get_token k (some s) old = elim (skip_blanks k s old.memory) [
  | none ↦ none
  | some (s', m) ↦ token_at k s' m
]

-- gettoken with a string: nc, np1 and np2 are a token.
pub gettoken_start : (rounds s : ℕ) → (old : NextToken) → Option NextToken
gettoken_start k s old = get_token k (some s) old

-- gettoken without a string: c, p1, and the token that follows.
pub gettoken : (rounds : ℕ) → NextToken → Option (ℕ × Option ℕ × NextToken)
gettoken k t = elim (get_token k t.p2 t) [ none ↦ none | some u ↦ some (t.kind, t.p1, u) ]
