-- ===== src/Text/Format/Fuel.antt =====
-- The rounds of vprintfmt.
use backup_gatech.Common.{
  ℕ, zero, suc, ◌+◌, ◌*◌, ◌-◌, ◌<◌, ◌≤◌, ◌≡◌, ◌≢◌, Option, List, [], ◌∷◌, Bool, true, false,
  if◌then◌else◌, ◌==◌, length, arith, refl,
}
use backup_gatech.Text.Format.{
  Arg, number, string, Flagged, flagged, no_flag, no_arg, star, read_flag, Escape, Formatted,
  endless, bad_argument, formats, prepend, prints, unrecognized, with_number, with_string, convert,
  escape, format_from, vprintfmt,
}
use backup_gatech.Text.Convert.{Flags, no_flags, is_digit, read_digits}

-- What is left of the format has fewer than `n` characters.
abbrev HasShorter : ℕ → Flagged → Type 0
HasShorter n (flagged f fmt args) = length fmt < n
HasShorter n no_flag = Unit
HasShorter n no_arg = Unit

-- There is a result, with fewer than `n` characters left, or an argument is missing.
abbrev EndsShorter : ℕ → Formatted Escape → Type 0
EndsShorter n endless = ⊥
EndsShorter n bad_argument = Unit
EndsShorter n (formats (prints out fmt args)) = length fmt < n
EndsShorter n (formats (unrecognized args)) = Unit

if-elim {ℓ} :
    {A : Type ℓ} (P : A → Type 0) (b : Bool) (x y : A)
    → (b ≡ true → P x)
    → (b ≡ false → P y)
    → P (if b then x else y)
if-elim P true x y f g = f refl
if-elim P false x y f g = g refl

read_digits-shortens : (acc : ℕ) (cs : List ℕ) → length (read_digits acc cs).1 ≤ length cs
unfolding read_digits
read_digits-shortens acc [] = omega arith
read_digits-shortens acc (c ∷ cs) =
    if-elim (λ r. length r.1 ≤ suc (length cs)) (is_digit c)
      (read_digits (acc * 10 + (c - b'0')) cs) (acc, c ∷ cs)
      (λ e. omega (arith, read_digits-shortens (acc * 10 + (c - b'0')) cs)) (λ e. omega arith)

read_digits-digit :
    (acc c : ℕ) (cs : List ℕ)
    → is_digit c ≡ true
    → length (read_digits acc (c ∷ cs)).1 < suc (length cs)
unfolding read_digits
read_digits-digit acc c cs e = rw e (omega (arith, read_digits-shortens (acc * 10 + (c - b'0')) cs))

star-HasShorter :
    (f : Flags) (cs : List ℕ) (args : List Arg) → HasShorter (suc (length cs)) (star f cs args)
unfolding star
star-HasShorter f cs [] = tt
star-HasShorter f cs (number n ∷ args) = omega arith
star-HasShorter f cs (string s ∷ args) = tt

read_flag-HasShorter :
    (f : Flags) (fmt : List ℕ) (args : List Arg) → HasShorter (length fmt) (read_flag f fmt args)
unfolding read_flag
read_flag-HasShorter f [] args = tt
read_flag-HasShorter f (c ∷ cs) args =
    let P = HasShorter (suc (length cs)) in
    let l : length cs < suc (length cs) = omega arith in
    if-elim P (c == b'-') _ _ (λ e. l)
      (λ e0.
        if-elim P (c == b'0') _ _ (λ e. l)
          (λ e1.
            if-elim P (is_digit c) _ _ (λ e. read_digits-digit 0 c cs e)
              (λ e2.
                if-elim P (c == b'*') _ _ (λ e. star-HasShorter f cs args)
                  (λ e3.
                    if-elim P (c == b'.') _ _ (λ e. l)
                      (λ e4.
                        if-elim P (c == b'#') _ _ (λ e. l)
                          (λ e5. if-elim P (c == b'l') _ _ (λ e. l) (λ e6. tt)))))))

with_number-EndsShorter :
    (args : List Arg) (g : ℕ → List ℕ) (cs : List ℕ)
    → EndsShorter (suc (length cs)) (with_number args g cs)
with_number-EndsShorter [] g cs = tt
with_number-EndsShorter (number n ∷ args) g cs = omega arith
with_number-EndsShorter (string s ∷ args) g cs = tt

with_string-EndsShorter :
    (args : List Arg) (g : Option (List ℕ) → List ℕ) (cs : List ℕ)
    → EndsShorter (suc (length cs)) (with_string args g cs)
with_string-EndsShorter [] g cs = tt
with_string-EndsShorter (number n ∷ args) g cs = tt
with_string-EndsShorter (string s ∷ args) g cs = omega arith

convert-EndsShorter :
    (f : Flags) (fmt : List ℕ) (args : List Arg) → EndsShorter (length fmt) (convert f fmt args)
unfolding convert
convert-EndsShorter f [] args = tt
convert-EndsShorter f (c ∷ cs) args =
    let P = EndsShorter (suc (length cs)) in
    let l : length cs < suc (length cs) = omega arith in
    let n = with_number-EndsShorter args in
    if-elim P (c == b'c') _ _ (λ e. n _ cs)
      (λ e0.
        if-elim P (c == b'e') _ _ (λ e. n _ cs)
          (λ e1.
            if-elim P (c == b's') _ _ (λ e. with_string-EndsShorter args _ cs)
              (λ e2.
                if-elim P (c == b'd') _ _ (λ e. n _ cs)
                  (λ e3.
                    if-elim P (c == b'u') _ _ (λ e. n _ cs)
                      (λ e4.
                        if-elim P (c == b'o') _ _ (λ e. n _ cs)
                          (λ e5.
                            if-elim P (c == b'p') _ _ (λ e. n _ cs)
                              (λ e6.
                                if-elim P (c == b'x') _ _ (λ e. n _ cs)
                                  (λ e7. if-elim P (c == b'%') _ _ (λ e. l) (λ e8. tt)))))))))

EndsShorter-mono : (m n : ℕ) (r : Formatted Escape) → m ≤ n → EndsShorter m r → EndsShorter n r
EndsShorter-mono m n endless l h = h
EndsShorter-mono m n bad_argument l h = tt
EndsShorter-mono m n (formats (prints out fmt args)) l h = omega (arith, h, l)
EndsShorter-mono m n (formats (unrecognized args)) l h = tt

escape-EndsShorter :
    (k : ℕ) (f : Flags) (fmt : List ℕ) (args : List Arg)
    → length fmt < k
    → EndsShorter (length fmt) (escape k f fmt args)
unfolding escape
escape-EndsShorter zero f fmt args l = absurd (omega (arith, l))
escape-EndsShorter (suc k) f fmt args l =
    elim (read_flag f fmt args)
        as (λ r.
          HasShorter (length fmt) r
          → EndsShorter (length fmt) (elim r [
            | flagged f' fmt' args' ↦ escape k f' fmt' args'
            | no_flag ↦ convert f fmt args
            | no_arg ↦ bad_argument
          ])) [
            | flagged f' fmt' args' ↦ λ h.
                EndsShorter-mono (length fmt') (length fmt) (escape k f' fmt' args')
                  (omega (arith, h)) (escape-EndsShorter k f' fmt' args' (omega (arith, h, l)))
            | no_flag ↦ λ h. convert-EndsShorter f fmt args
            | no_arg ↦ λ h. tt
          ]
      (read_flag-HasShorter f fmt args)

prepend-ends : (out : List ℕ) (r : Formatted (List ℕ)) → r ≢ endless → prepend out r ≢ endless
prepend-ends out endless h = h
prepend-ends out bad_argument h = h
prepend-ends out (formats more) h = λ e. absurd (cc e)

-- What is left of a format of `n` characters after a sequence, or the whole of it.
abbrev AllEnd : (k n : ℕ) → Type 0
AllEnd k n = (fmt : List ℕ) (args : List Arg) → length fmt ≤ n → format_from k fmt args ≢ endless

escaped-ends :
    (k : ℕ) (cs : List ℕ) (args : List Arg) (r : Formatted Escape)
    → EndsShorter (length cs) r
    → AllEnd k (length cs)
    → (elim r as (λ x. Formatted (List ℕ)) [
      | endless ↦ endless
      | bad_argument ↦ bad_argument
      | formats e ↦ elim e as (λ x. Formatted (List ℕ)) [
        | prints out fmt' args' ↦ prepend out (format_from k fmt' args')
        | unrecognized args' ↦ prepend (b'%' ∷ []) (format_from k cs args')
      ]
    ])
      ≢ endless
escaped-ends k cs args endless h rest = absurd h
escaped-ends k cs args bad_argument h rest = λ e. absurd (cc e)
escaped-ends k cs args (formats (prints out fmt' args')) h rest =
    prepend-ends out (format_from k fmt' args') (rest fmt' args' (omega (arith, h)))
escaped-ends k cs args (formats (unrecognized args')) h rest =
    prepend-ends (b'%' ∷ []) (format_from k cs args') (rest cs args' (omega arith))

format_from-ends :
    (k : ℕ) (fmt : List ℕ) (args : List Arg) → length fmt < k → format_from k fmt args ≢ endless
unfolding format_from
format_from-ends zero fmt args l = absurd (omega (arith, l))
format_from-ends (suc k) [] args l = λ e. absurd (cc e)
format_from-ends (suc k) (c ∷ cs) args l =
    let rest : AllEnd k (length cs) =
      λ fmt' args' short. format_from-ends k fmt' args' (omega (arith, short, l)) in
    if-elim (λ r. r ≢ endless) (c == b'%') _ _
      (λ percent.
        escaped-ends k cs args (escape (suc (length cs)) no_flags cs args)
          (escape-EndsShorter (suc (length cs)) no_flags cs args (omega arith)) rest)
      (λ plain. prepend-ends (c ∷ []) (format_from k cs args) (rest cs args (omega arith)))

-- vprintfmt ends on every format and every list of arguments: it gives characters to putch, or it
-- reads an argument that is missing or of another kind.
pub vprintfmt-ends : (fmt : List ℕ) (args : List Arg) → vprintfmt fmt args ≢ endless
unfolding vprintfmt
vprintfmt-ends fmt args = format_from-ends (suc (length fmt)) fmt args (omega arith)
