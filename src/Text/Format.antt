-- ===== src/Text/Format.antt =====
-- vprintfmt and vsnprintf of os_final_project/code/lib/printfmt.c. An argument is a number, read as
-- a word of the size that the format asks for, or a string or NULL. What putch is
-- given is a list.
mod Buffer
mod Fuel
mod Tests
use Prim.Native.Char.{code}
use Prim.Native.String.{String}
use backup_gatech.Common.{
  ℕ, zero, suc, ◌+◌, ◌-◌, ◌*◌, ◌/◌, ◌%◌, ◌^◌, Option, none, some, List, [], ◌∷◌, ◌++◌, map, Bool,
  true, false, ◌&&◌, ◌||◌, not, if◌then◌else◌, ◌==◌, ltb, leb, length, take, get_elem?, set,
  replicate, min,
}
use backup_gatech.Text.{printnum}
use backup_gatech.Text.Convert.{
  Flags, no_flags, word_bits, getuint, getint, or_zero, process_precision, is_digit, read_digits,
  null_text, shown, limited, put_string, or_null, put_number, put_signed, error_strings, put_error,
}

pub data Arg : Type 0 where
  number : ℕ → Arg
  string : Option (List ℕ) → Arg

-- How an escape sequence ends: with what it prints, the format after it and the arguments left; or
-- it is not recognized, with the arguments left after those that `*` took.
pub data Escape : Type 0 where
  prints : List ℕ → (fmt : List ℕ) → (args : List Arg) → Escape
  unrecognized : (args : List Arg) → Escape

-- The end of the fuel; a read of an argument that is missing or of the other kind; or a result.
pub data Formatted (A : Type 0) : Type 0 where
  endless : Formatted A
  bad_argument : Formatted A
  formats : A → Formatted A

abbrev pub with_number : List Arg → (ℕ → List ℕ) → (fmt : List ℕ) → Formatted Escape
with_number (number n ∷ args) f fmt = formats (prints (f n) fmt args)
with_number _ f fmt = bad_argument

abbrev pub with_string : List Arg → (Option (List ℕ) → List ℕ) → (fmt : List ℕ) → Formatted Escape
with_string (string s ∷ args) f fmt = formats (prints (f s) fmt args)
with_string _ f fmt = bad_argument

-- One flag or number of a sequence is read; or there is none at the front; or `*` has no argument.
pub data Flagged : Type 0 where
  flagged : Flags → (fmt : List ℕ) → (args : List Arg) → Flagged
  no_flag : Flagged
  no_arg : Flagged

-- An int as a width or a precision.
abbrev pub int_width : ℕ → Option ℕ
int_width n = if (getint 0 n).0 then none else some (getint 0 n).1

pub star : Flags → (fmt : List ℕ) → List Arg → Flagged
star f fmt (number n ∷ args) = flagged (process_precision (int_width n) f) fmt args
star f fmt _ = no_arg

pub read_flag : Flags → (fmt : List ℕ) → List Arg → Flagged
read_flag f [] args = no_flag
read_flag f (c ∷ cs) args =
    if c == b'-'
    then flagged (record f { padc = b'-' }) cs args
    else if c == b'0'
    then flagged (record f { padc = b'0' }) cs args
    else if is_digit c
    then (let (p, rest) = read_digits 0 (c ∷ cs) in
        flagged (process_precision (some p) f) rest args)
    else if c == b'*'
    then star f cs args
    else if c == b'.'
    then flagged (record f { width = some (or_zero f.width) }) cs args
    else if c == b'#'
    then flagged (record f { altflag = true }) cs args
    else if c == b'l'
    then flagged (record f { lflag = suc f.lflag }) cs args
    else no_flag

-- The character that ends a sequence.
pub convert : Flags → (fmt : List ℕ) → List Arg → Formatted Escape
convert f [] args = formats (unrecognized args)
convert f (c ∷ cs) args =
    if c == b'c'
    then with_number args (λ n. n ∷ []) cs
    else if c == b'e'
    then with_number args put_error cs
    else if c == b's'
    then with_string args (λ s. put_string f (or_null s)) cs
    else if c == b'd'
    then with_number args (put_signed f) cs
    else if c == b'u'
    then with_number args (λ n. put_number f 10 (getuint f.lflag n)) cs
    else if c == b'o'
    then with_number args (λ n. put_number f 8 (getuint f.lflag n)) cs
    else if c == b'p'
    then with_number args (λ n. b'0' ∷ b'x' ∷ put_number f 16 (n % 2 ^ 32)) cs
    else if c == b'x'
    then with_number args (λ n. put_number f 16 (getuint f.lflag n)) cs
    else if c == b'%'
    then formats (prints (b'%' ∷ []) cs args)
    else formats (unrecognized args)

-- Each round reads a character at least.
pub escape : (fuel : ℕ) → Flags → (fmt : List ℕ) → List Arg → Formatted Escape
escape zero f fmt args = endless
escape (suc k) f fmt args = elim (read_flag f fmt args) [
  | flagged f' fmt' args' ↦ escape k f' fmt' args'
  | no_flag ↦ convert f fmt args
  | no_arg ↦ bad_argument
]

abbrev pub prepend : List ℕ → Formatted (List ℕ) → Formatted (List ℕ)
prepend out endless = endless
prepend out bad_argument = bad_argument
prepend out (formats more) = formats (out ++ more)

-- After a sequence that is not recognized the format goes on right after its `%`.
pub format_from : (fuel : ℕ) → (fmt : List ℕ) → List Arg → Formatted (List ℕ)
format_from zero fmt args = endless
format_from (suc k) [] args = formats []
format_from (suc k) (c ∷ cs) args =
    if c == b'%'
    then elim (escape (suc (length cs)) no_flags cs args) [
      | endless ↦ endless
      | bad_argument ↦ bad_argument
      | formats e ↦ elim e [
        | prints out fmt' args' ↦ prepend out (format_from k fmt' args')
        | unrecognized args' ↦ prepend (b'%' ∷ []) (format_from k cs args')
      ]
    ]
    else prepend (c ∷ []) (format_from k cs args)

-- What vprintfmt gives to putch.
pub vprintfmt : (fmt : List ℕ) → List Arg → Formatted (List ℕ)
vprintfmt fmt args = format_from (suc (length fmt)) fmt args

-- The bytes of the buffer from `buf` on, how many of them may be written still, and the count.
pub record SprintBuf : Type 0 where
  pub before : List ℕ
  pub after : List ℕ
  pub room : ℕ
  pub cnt : ℕ

-- `none` is a write past the memory, also below.
pub sprintputch : ℕ → SprintBuf → Option SprintBuf
sprintputch ch b =
    if ltb 0 b.room
    then elim b.after [
      | [] ↦ none
      | x ∷ xs ↦ some (record {
        before = b.before ++ (ch % 256) ∷ [];
        after = xs;
        room = b.room - 1;
        cnt = suc b.cnt;
      })
    ]
    else some (record b { cnt = suc b.cnt })

pub put_all : List ℕ → SprintBuf → Option SprintBuf
put_all [] b = some b
put_all (c ∷ cs) b = elim (sprintputch c b) [ none ↦ none | some b' ↦ put_all cs b' ]

-- What vsnprintf returns: -E_INVAL, or the count with the memory of the buffer.
pub data Printed : Type 0 where
  e_inval : Printed
  printed : (cnt : ℕ) → (buf : List ℕ) → Printed

pub null_terminate : SprintBuf → Option Printed
null_terminate b = elim b.after [ [] ↦ none | x ∷ xs ↦ some (printed b.cnt (b.before ++ (0 ∷ xs))) ]

-- The buffer is the memory from `buf` on, or NULL.
pub vsnprintf : (buf : Option (List ℕ)) → (n : ℕ) → (fmt : List ℕ) → List Arg → Option Printed
vsnprintf none n fmt args = some e_inval
vsnprintf (some buf) n fmt args =
    if leb n 0 || leb (2 ^ 31) n then some e_inval else elim (vprintfmt fmt args) [
      | endless ↦ none
      | bad_argument ↦ none
      | formats out ↦
          elim (put_all out (record { before = []; after = buf; room = n - 1; cnt = 0 })) [
            | none ↦ none
            | some b ↦ null_terminate b
          ]
    ]
