-- ===== src/Shell/Tests.antt =====
-- The theorems on the tokens of a command at a short one.
use backup_gatech.Common.{if◌then◌else◌, ◌==◌, refl, arith}
use backup_gatech.Shell.{
  TextMemory, no_token, put_nul, word_token, get_token, gettoken_start, skip_blanks, token_at,
  word_end, is_blank, is_symbol,
}
use backup_gatech.Shell.Words.{ReturnsWord, gettoken-word}

-- " ls;" at address 0.
abbrev command : TextMemory
command i =
    if i == 0
    then b' '
    else if i == 1
    then b'l'
    else if i == 2
    then b's'
    else if i == 3
    then b';'
    else 0

gettoken-word_example : ReturnsWord 9 0 4 command (word_token 1 3 (put_nul 0 command))
unfolding gettoken_start get_token skip_blanks token_at word_end is_blank is_symbol
gettoken-word_example =
    gettoken-word 9 0 4 (no_token command) (word_token 1 3 (put_nul 0 command)) refl (omega arith)
      refl refl
