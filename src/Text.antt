-- ===== src/Text.antt =====
-- The string routines of os_final_project/code/lib/string.c, and printnum of
-- os_final_project/code/lib/printfmt.c. A pointer is the list of the bytes from it on to the end of
-- the memory that holds it; `none` is an access past that end. Source and destination do not
-- overlap. memset and memmove are inline assembly and are left out.
pub mod Copies
pub mod Compare
pub mod Numbers
pub mod Convert
pub mod Format
mod Tests
use backup_gatech.Common.{
  ℕ, zero, suc, ◌+◌, ◌-◌, ◌*◌, ◌/◌, ◌%◌, ◌^◌, Option, none, some, List, [], ◌∷◌, ◌++◌, Bool, true,
  false, ◌&&◌, ◌||◌, if◌then◌else◌, ◌==◌, ltb, leb, take, drop, get_elem?, replicate,
}
use mathlib.Core.Option

pub strlen : List ℕ → Option ℕ
strlen [] = none
strlen (c ∷ s) = if c == 0 then some 0 else Option.map suc (strlen s)

pub strnlen : List ℕ → ℕ → Option ℕ
strnlen s zero = some 0
strnlen [] (suc size) = none
strnlen (c ∷ s) (suc size) = if c == 0 then some 0 else Option.map suc (strnlen s size)

-- The destination's memory after the copy.
pub strcpy : (dst src : List ℕ) → Option (List ℕ)
strcpy dst [] = none
strcpy [] (c ∷ s) = none
strcpy (d ∷ ds) (c ∷ s) = if c == 0 then some (c ∷ ds) else Option.map (λ r. c ∷ r) (strcpy ds s)

pub strcat : (dst src : List ℕ) → Option (List ℕ)
strcat dst src = elim (strlen dst) [
  | none ↦ none
  | some n ↦ Option.map (λ r. take n dst ++ r) (strcpy (drop n dst) src)
]

-- The source stays where it is once its zero is reached.
pub strncpy : (dst src : List ℕ) → ℕ → Option (List ℕ)
strncpy dst src zero = some dst
strncpy [] src (suc n) = none
strncpy (d ∷ ds) [] (suc n) = none
strncpy (d ∷ ds) (c ∷ s) (suc n) =
    Option.map (λ r. c ∷ r) (strncpy ds (if c == 0 then c ∷ s else s) n)

-- The count of bytes before the zero, and the destination's memory; `n` is what `--size` leaves.
pub strlcpy_loop : (dst src : List ℕ) → ℕ → Option (ℕ × List ℕ)
strlcpy_loop [] src n = none
strlcpy_loop (d ∷ ds) src zero = some (0, 0 ∷ ds)
strlcpy_loop (d ∷ ds) [] (suc n) = none
strlcpy_loop (d ∷ ds) (c ∷ s) (suc n) =
    let rest = Option.map (λ r. (suc r.0, c ∷ r.1)) (strlcpy_loop ds s n) in
    if c == 0 then some (0, 0 ∷ ds) else rest

pub strlcpy : (dst src : List ℕ) → ℕ → Option (ℕ × List ℕ)
strlcpy dst src zero = some (0, dst)
strlcpy dst src (suc n) = strlcpy_loop dst src n

-- The difference of two bytes, in the two parts that tell its sign.
pub data Diff : Type 0 where
  same : Diff
  less : ℕ → Diff
  more : ℕ → Diff

abbrev pub byte_diff : ℕ → ℕ → Diff
byte_diff p q = if p == q then same else if ltb p q then less (q - p) else more (p - q)

pub strcmp : (p q : List ℕ) → Option Diff
strcmp [] q = none
strcmp (a ∷ p) [] = none
strcmp (a ∷ p) (b ∷ q) =
    let rest = strcmp p q in
    if a == 0 || (if a == b then false else true) then some (byte_diff a b) else rest

pub strncmp : (p q : List ℕ) → ℕ → Option Diff
strncmp p q zero = some same
strncmp [] q (suc n) = none
strncmp (a ∷ p) [] (suc n) = none
strncmp (a ∷ p) (b ∷ q) (suc n) =
    let rest = strncmp p q n in
    if a == 0 || (if a == b then false else true) then some (byte_diff a b) else rest

-- `some none` is the null pointer, `some (some i)` the pointer to the byte `i`.
pub strchr : List ℕ → ℕ → Option (Option ℕ)
strchr [] c = none
strchr (b ∷ s) c =
    let rest = Option.map (Option.map suc) (strchr s c) in
    if b == 0 then some none else if b == c then some (some 0) else rest

pub strfind : List ℕ → ℕ → Option ℕ
strfind [] c = none
strfind (b ∷ s) c =
    let rest = Option.map suc (strfind s c) in if b == 0 || b == c then some 0 else rest

pub memcmp : (p q : List ℕ) → ℕ → Option Diff
memcmp p q zero = some same
memcmp [] q (suc n) = none
memcmp (a ∷ p) [] (suc n) = none
memcmp (a ∷ p) (b ∷ q) (suc n) =
    let rest = memcmp p q n in if a == b then rest else some (byte_diff a b)

-- The index of the byte, or `n`; `c` is taken as an unsigned char.
pub memfind : List ℕ → ℕ → ℕ → Option ℕ
memfind s c zero = some 0
memfind [] c (suc n) = none
memfind (b ∷ s) c (suc n) =
    let rest = Option.map suc (memfind s c n) in if b == c % 256 then some 0 else rest

-- `while (*s == ' ' || *s == '\t') s++;`
pub skip_space : List ℕ → List ℕ
skip_space [] = []
skip_space (c ∷ s) = let rest = skip_space s in if c == b' ' || c == 9 then rest else c ∷ s

pub sign : List ℕ → Bool × List ℕ
sign [] = (false, [])
sign (c ∷ s) = if c == b'+' then (false, s) else if c == b'-' then (true, s) else (false, c ∷ s)

abbrev pub is_hex_prefix : List ℕ → Bool
is_hex_prefix (a ∷ (b ∷ s)) = a == b'0' && b == b'x'
is_hex_prefix _ = false

abbrev pub is_zero_prefix : List ℕ → Bool
is_zero_prefix (a ∷ s) = a == b'0'
is_zero_prefix [] = false

pub prefix : List ℕ → ℕ → List ℕ × ℕ
prefix s base =
    if (base == 0 || base == 16) && is_hex_prefix s
    then (drop 2 s, 16)
    else if base == 0 && is_zero_prefix s
    then (drop 1 s, 8)
    else if base == 0
    then (s, 10)
    else (s, base)

pub digit_value : ℕ → Option ℕ
digit_value c =
    if leb b'0' c && leb c b'9'
    then some (c - b'0')
    else if leb b'a' c && leb c b'z'
    then some (c - b'a' + 10)
    else if leb b'A' c && leb c b'Z'
    then some (c - b'A' + 10)
    else none

-- A long is 32 bits, its value read as an unsigned word.
pub digits_loop : List ℕ → (base val : ℕ) → Option (ℕ × List ℕ)
digits_loop [] base val = none
digits_loop (c ∷ s) base val = elim (digit_value c) [
  | none ↦ some (val, c ∷ s)
  | some d ↦
      if leb base d then some (val, c ∷ s) else digits_loop s base ((val * base + d) % 2 ^ 32)
]

-- The value as a 32-bit word, and what is left of the string (`*endptr`).
pub strtol : List ℕ → ℕ → Option (ℕ × List ℕ)
strtol s base =
    let (neg, s1) = sign (skip_space s) in
    let (s2, b) = prefix s1 base in
    Option.map (λ r. (if neg then (2 ^ 32 - r.0) % 2 ^ 32 else r.0, r.1)) (digits_loop s2 b 0)

-- "0123456789abcdef"[d]
pub digit_char : ℕ → ℕ
digit_char d = if ltb d 10 then b'0' + d else (b'a' + (d - 10))

-- What printnum prints. A width of 0 or less prints no padding. The fuel bounds the digits.
pub printnum_loop : ℕ → (num base width padc : ℕ) → List ℕ
printnum_loop zero num base width padc = []
printnum_loop (suc k) num base width padc =
    let more = printnum_loop k (num / base) base (width - 1) padc in
    (if leb base num then more else replicate (width - 1) padc) ++ (digit_char (num % base) ∷ [])

pub printnum : (num base width padc : ℕ) → List ℕ
printnum num base width padc = printnum_loop (suc num) num base width padc
