-- ===== src/Text/Convert.antt =====
-- What vprintfmt of os_final_project/code/lib/printfmt.c prints for one sequence of the format, by
-- its flags.
use Prim.Native.Char.{code}
use Prim.Native.String.{String}
use backup_gatech.Common.{
  ℕ, ◌+◌, ◌-◌, ◌*◌, ◌%◌, ◌^◌, Option, none, some, List, [], ◌∷◌, ◌++◌, map, Bool, true, false, ◌&&◌,
  ◌||◌, if◌then◌else◌, ◌==◌, ltb, leb, length, take, get_elem?, replicate,
}
use backup_gatech.Text.{printnum}

-- The bytes of a text.
abbrev codes : String → List ℕ
codes String.[] = []
codes (String.◌∷◌ c s) = code c ∷ codes s

-- A width or a precision below 0 is `none`.
pub record Flags : Type 0 where
  pub padc : ℕ
  pub width : Option ℕ
  pub precision : Option ℕ
  pub lflag : ℕ
  pub altflag : Bool

abbrev pub no_flags : Flags
no_flags = record { padc = b' '; width = none; precision = none; lflag = 0; altflag = false }

-- unsigned int and unsigned long have 32 bits, unsigned long long 64.
abbrev pub word_bits : (lflag : ℕ) → ℕ
word_bits lflag = if leb 2 lflag then 64 else 32

unfoldable pub getuint : (lflag n : ℕ) → ℕ
getuint lflag n = if leb 2 lflag then n % 2 ^ 64 else n % 2 ^ 32

-- Whether the number is negative, and its magnitude.
unfoldable pub getint : (lflag n : ℕ) → Bool × ℕ
getint lflag n =
    let u = getuint lflag n in
    let top = if leb 2 lflag then 2 ^ 63 else 2 ^ 31 in
    if leb top u then (true, top + top - u) else (false, u)

abbrev pub or_zero : Option ℕ → ℕ
or_zero none = 0
or_zero (some w) = w

unfoldable pub process_precision : Option ℕ → Flags → Flags
process_precision p f = elim f.width [
  | none ↦ record f { width = p; precision = none }
  | some w ↦ record f { precision = p }
]

abbrev pub is_digit : ℕ → Bool
is_digit c = leb b'0' c && leb c b'9'

-- The digits at the front as a number after `acc`, and what follows them.
unfoldable pub read_digits : (acc : ℕ) → List ℕ → ℕ × List ℕ
read_digits acc [] = (acc, [])
read_digits acc (c ∷ cs) =
    let more = read_digits (acc * 10 + (c - b'0')) cs in if is_digit c then more else (acc, c ∷ cs)

abbrev pub null_text : List ℕ
null_text = codes "(null)"

abbrev pub shown : (altflag : Bool) → ℕ → ℕ
shown alt c = if alt && (ltb c b' ' || ltb b'~' c) then b'?' else c

-- As many characters of a string as the precision allows.
abbrev pub limited : Option ℕ → List ℕ → List ℕ
limited none s = s
limited (some n) s = take n s

pub put_string : Flags → List ℕ → List ℕ
put_string f s =
    let chars = limited f.precision s in
    let padding = or_zero f.width - length chars in
    (if f.padc == b'-' then [] else replicate padding f.padc)
    ++ (map (shown f.altflag) chars ++ (if f.padc == b'-' then replicate padding b' ' else []))

abbrev pub or_null : Option (List ℕ) → List ℕ
or_null none = null_text
or_null (some s) = s

abbrev pub put_number : Flags → (base : ℕ) → ℕ → List ℕ
put_number f base n = printnum n base (or_zero f.width) f.padc

unfoldable pub put_signed : Flags → ℕ → List ℕ
put_signed f n =
    let (negative, magnitude) = getint f.lflag n in
    (if negative then b'-' ∷ [] else []) ++ put_number f 10 magnitude

-- From index 1 on.
pub error_strings : List (List ℕ)
error_strings =
    codes "unspecified error"
    ∷ codes "bad environment"
    ∷ codes "invalid parameter"
    ∷ codes "out of memory"
    ∷ codes "out of environments"
    ∷ codes "segmentation fault"
    ∷ codes "env is not recving"
    ∷ codes "unexpected end of file"
    ∷ codes "no free space on disk"
    ∷ codes "too many files are open"
    ∷ codes "file or block not found"
    ∷ codes "invalid path"
    ∷ codes "file already exists"
    ∷ codes "file is not a valid executable"
    ∷ codes "operation not supported"
    ∷ []

-- Of an int that is not the least one.
pub put_error : ℕ → List ℕ
put_error n =
    let err = (getint 0 n).1 in
    elim (if err == 0 then none else get_elem? error_strings (err - 1)) [
      | none ↦ codes "error " ++ printnum err 10 0 b' '
      | some text ↦ text
    ]
