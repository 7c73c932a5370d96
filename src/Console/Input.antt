-- ===== src/Console/Input.antt =====
-- The input buffer as a queue.
use backup_gatech.Common.{
  ℕ, zero, suc, ◌+◌, ◌%◌, ◌<◌, ◌≡◌, ◌≢◌, List, [], ◌∷◌, ◌++◌, false, if◌then◌else◌, ◌==◌, get_or,
  set, get_or-set, length, length-set, length-append, arith, refl, ap, ◌∙◌, Bool-cases, inl, inr,
}
use mathlib.Core.List.{append-nil, append_assoc}
use backup_gatech.Console.{
  Cons, consbufsize, advance, store, cons_intr, next_char, Devices, kbd_intr, serial_intr,
  cons_getc,
}
use backup_gatech.Console.Keyboard.{kbd_read}

-- `k` characters from position `i` on.
unfoldable pub window : (buf : List ℕ) (i k : ℕ) → List ℕ
window buf i zero = []
window buf i (suc k) = get_or buf i 0 ∷ window buf (advance i) k

-- The buffer holds the characters `cs`, oldest first.
pub record IsPending (s : Cons) (cs : List ℕ) : Type 0 where
  pub size : length s.buf ≡ consbufsize
  pub start : s.rpos < consbufsize
  pub room : length cs < consbufsize
  pub stop : s.wpos ≡ (s.rpos + length cs) % consbufsize
  pub chars : window s.buf s.rpos (length cs) ≡ cs

advance_lem : (i : ℕ) → i < consbufsize → advance i ≡ suc i % consbufsize
advance_lem i h = ground arith

window-set :
    (buf : List ℕ) (i k w b : ℕ)
    → i < consbufsize
    → w < consbufsize
    → ((j : ℕ) → j < k → ((i + j) % consbufsize == w) ≡ false)
    → window (set buf w b) i k ≡ window buf i k
unfolding window
window-set buf i zero w b hi hw apart = refl
window-set buf i (suc k) w b hi hw apart =
    let e : (i + 0) % consbufsize ≡ i = omega arith in
    let other : (w == i) ≡ false = ground (arith, apart 0, e) in
    let same : get_or (set buf w b) i 0 ≡ get_or buf i 0 = get_or-set buf w i b 0 ∙ rw other refl in
    rw
      (
        same,
        window-set buf (advance i) k w b (ground arith) hw (λ j l.
            let f : (advance i + j) % consbufsize ≡ (i + suc j) % consbufsize = ground arith in
            rw f (apart (suc j) (omega arith))),
      )
      refl

window-snoc :
    (buf : List ℕ) (i k : ℕ)
    → i < consbufsize
    → window buf i (suc k) ≡ window buf i k ++ get_or buf ((i + k) % consbufsize) 0 ∷ []
unfolding window
window-snoc buf i zero h = let e : (i + 0) % consbufsize ≡ i = omega arith in rw e refl
window-snoc buf i (suc k) h =
    let e : (advance i + k) % consbufsize ≡ (i + suc k) % consbufsize = ground arith in
    ap (λ xs. get_or buf i 0 ∷ xs) (window-snoc buf (advance i) k (ground arith) ∙ rw e refl)

store-IsPending :
    (c : ℕ) (s : Cons) (cs : List ℕ)
    → IsPending s cs
    → suc (length cs) < consbufsize
    → IsPending (store c s) (cs ++ c % 256 ∷ [])
unfolding store
store-IsPending c s cs p more =
    let n : length (cs ++ c % 256 ∷ []) ≡ suc (length cs) =
      length-append cs (c % 256 ∷ []) ∙ omega arith in
    let w : s.wpos < consbufsize = omega (arith, p.stop) in
    let apart = λ (j : ℕ) (l : j < length cs).
      let ne : ((s.rpos + j) % consbufsize == s.wpos) ≡ false =
        ground (arith, p.stop, p.room, p.start, l) in
      ne in
    let kept : window (set s.buf s.wpos (c % 256)) s.rpos (length cs) ≡ cs =
      window-set s.buf s.rpos (length cs) s.wpos (c % 256) p.start w apart ∙ p.chars in
    let last : get_or (set s.buf s.wpos (c % 256)) ((s.rpos + length cs) % consbufsize) 0
        ≡ c % 256 =
      ground (
        arith,
        get_or-set s.buf s.wpos ((s.rpos + length cs) % consbufsize) (c % 256) 0,
        p.size,
        p.stop,
        w,
      ) in
    record {
      size = length-set s.buf s.wpos (c % 256) ∙ p.size;
      start = p.start;
      room = omega (arith, n, more);
      stop = advance_lem s.wpos w ∙ omega (arith, n, p.stop);
      chars = rw n (
          window-snoc (set s.buf s.wpos (c % 256)) s.rpos (length cs) p.start
          ∙ rw (kept, last) refl);
    }

-- What cons_intr stores.
abbrev pub typed : List ℕ → List ℕ
typed [] = []
typed (c ∷ cs) = if c == 0 then typed cs else (c % 256) ∷ typed cs

-- If the characters that wait in the buffer and those that come are less than CONSBUFSIZE
-- together, the buffer then holds both in their order, those that are 0 left out.
pub cons_intr-IsPending :
    (chars cs : List ℕ) (s : Cons)
    → IsPending s cs
    → length cs + length (typed chars) < consbufsize
    → IsPending (cons_intr chars s) (cs ++ typed chars)
unfolding cons_intr
cons_intr-IsPending [] cs s p l = rw append-nil p
cons_intr-IsPending (c ∷ chars) cs s p l = elim (Bool-cases (c == 0)) [
  | inl none_yet ↦ rw none_yet (cons_intr-IsPending chars cs s p (ground (arith, l, none_yet)))
  | inr char ↦
      let n : length cs + suc (length (typed chars)) < consbufsize = ground (arith, l, char) in
      rw (char, ← append_assoc cs (c % 256 ∷ []) (typed chars))
        (cons_intr-IsPending chars (cs ++ c % 256 ∷ []) (store c s)
          (store-IsPending c s cs p (omega (arith, n)))
          (omega (arith, n, length-append cs (c % 256 ∷ []))))
]

pub next_char-IsPending :
    (c : ℕ) (cs : List ℕ) (s : Cons)
    → IsPending s (c ∷ cs)
    → ((next_char s).0 ≡ c) × IsPending (next_char s).1 cs
unfolding next_char window
next_char-IsPending c cs s p =
    let more : (s.rpos == s.wpos) ≡ false = ground (arith, p.stop, p.room, p.start) in
    let head : get_or s.buf s.rpos 0 ≡ c = cc (p.chars) in
    rw (next_char, more)
      (
        head,
        record {
          size = p.size;
          start = ground (arith, p.start);
          room = omega (arith, p.room);
          stop = p.stop ∙ ground (arith, p.start);
          chars = cc (p.chars);
        },
      )

pub next_char-empty : (s : Cons) → IsPending s [] → next_char s ≡ (0, s)
unfolding next_char
next_char-empty s p = ground (arith, p.stop, p.start)

-- The first of some characters, 0 if there is none, and the others.
abbrev pub first : List ℕ → ℕ
first [] = 0
first (c ∷ cs) = c

abbrev pub others : List ℕ → List ℕ
others [] = []
others (c ∷ cs) = cs

next_char-first :
    (cs : List ℕ) (s : Cons)
    → IsPending s cs
    → ((next_char s).0 ≡ first cs) × IsPending (next_char s).1 (others cs)
next_char-first [] s p = rw (next_char-empty s p) (refl, p)
next_char-first (c ∷ cs) s p = next_char-IsPending c cs s p

-- The characters that the serial port gives.
abbrev pub received : Devices → List ℕ → List ℕ
received d serial = if d.serial_exists then typed serial else []

serial_intr-IsPending :
    (serial cs : List ℕ) (d : Devices)
    → IsPending d.cons cs
    → length (cs ++ received d serial) < consbufsize
    → IsPending (serial_intr serial d).cons (cs ++ received d serial)
      × ((serial_intr serial d).modifiers ≡ d.modifiers)
unfolding serial_intr
serial_intr-IsPending serial cs d p l =
    let n = length-append cs (received d serial) in
    elim (Bool-cases d.serial_exists) [
      | inl there ↦
          let m : length cs + length (typed serial) < consbufsize =
            omega (arith, l, n, ap (λ b. length (if b then typed serial else [])) there) in
          rw there (cons_intr-IsPending serial cs d.cons p m, refl)
      | inr missing ↦ rw missing (rw append-nil p, refl)
    ]

-- If the characters that wait in the buffer and those of the serial port and of the keyboard are
-- less than CONSBUFSIZE together, cons_getc returns the first of them, taken in this order, or 0
-- if there is none, and the buffer holds the others in their order.
pub cons_getc-IsPending :
    (serial keys cs : List ℕ) (d : Devices)
    → IsPending d.cons cs
    → let all = (cs ++ received d serial) ++ typed (kbd_read keys d.modifiers).0 in
      length all < consbufsize
      → ((cons_getc serial keys d).0 ≡ first all)
        × IsPending (cons_getc serial keys d).1.cons (others all)
unfolding cons_getc kbd_intr
cons_getc-IsPending serial keys cs d p l =
    let chars = (kbd_read keys d.modifiers).0 in
    let n = length-append (cs ++ received d serial) (typed chars) in
    let first_part = serial_intr-IsPending serial cs d p (omega (arith, l, n)) in
    rw (first_part.1) (
      next_char-first ((cs ++ received d serial) ++ typed chars) _ (
        cons_intr-IsPending chars (cs ++ received d serial) (serial_intr serial d).cons first_part.0
          (omega (arith, l, n))))

-- With one place left, the next character empties the buffer: none of the 512 is returned.
pub cons_intr-overflows :
    (c : ℕ) (cs : List ℕ) (s : Cons)
    → IsPending s cs
    → suc (length cs) ≡ consbufsize
    → c ≢ 0
    → IsPending (cons_intr (c ∷ []) s) []
unfolding cons_intr store window
cons_intr-overflows c cs s p full some_char =
    let char : (c == 0) ≡ false = ground (arith, some_char) in
    let w : s.wpos < consbufsize = omega (arith, p.stop) in
    rw (cons_intr, char)
      (record {
        size = length-set s.buf s.wpos (c % 256) ∙ p.size;
        start = p.start;
        room = omega arith;
        stop = advance_lem s.wpos w ∙ omega (arith, p.stop, full, p.start);
        chars = refl;
      })
