-- ===== src/Fs/Paths/Names.antt =====
-- A path is the list of its names.
use backup_gatech.Common.{
  ℕ, zero, suc, ◌<◌, ◌≤◌, ◌≡◌, Option, none, some, List, [], ◌∷◌, Bool, true, false, not,
  if◌then◌else◌, ◌==◌, leb, length, arith, refl, ap, ◌∙◌, sym, Bool-cases, inl, inr,
}
use backup_gatech.Fs.{Disk, not_found, bad_path}
use backup_gatech.Fs.Files.{panics, gives, refuses, outcome_of}
use backup_gatech.Fs.Paths.{
  FilePointer, s_root, maxnamelen, ok, err, is_dir, dir_lookup, skip_slash, split_element, Walked,
  found, failed, lookup_error, is_empty, walk, walk_path,
}

-- The first name takes one more character.
prepend : ℕ → List (List ℕ) → List (List ℕ)
prepend c [] = (c ∷ []) ∷ []
prepend c (n ∷ ns) = (c ∷ n) ∷ ns

-- What stands between the slashes.
split : List ℕ → List (List ℕ)
split [] = [] ∷ []
split (c ∷ cs) = if c == b'/' then [] ∷ split cs else prepend c (split cs)

drop_empty : List (List ℕ) → List (List ℕ)
drop_empty [] = []
drop_empty ([] ∷ ns) = drop_empty ns
drop_empty ((c ∷ n) ∷ ns) = (c ∷ n) ∷ drop_empty ns

-- The names of a path: what stands between slashes, where anything does.
unfoldable pub names : List ℕ → List (List ℕ)
unfolding split prepend drop_empty
names path = drop_empty (split path)

abbrev pub is_done : List (List ℕ) → Bool
is_done [] = true
is_done (n ∷ ns) = false

-- One lookup after another: each name in the directory that the last one gave.
pub walk_names : List (List ℕ) → Option FilePointer → FilePointer → Disk → Option Walked
walk_names [] dir f d = some (found dir f d)
walk_names (name ∷ ns) dir f d =
    if leb maxnamelen (length name)
    then some (failed bad_path d)
    else if not (is_dir f d)
    then some (failed not_found d)
    else elim (dir_lookup f name d) [
      | none ↦ none
      | some r ↦ elim r [
        | err e d' ↦ some (lookup_error (is_done ns) f name e d')
        | ok g d' ↦ walk_names ns (some f) g d'
      ]
    ]

names_slash : (c : ℕ) (cs : List ℕ) → (c == b'/') ≡ true → names (c ∷ cs) ≡ names cs
unfolding names split drop_empty
names_slash c cs e = rw (names, split, e) refl

names-skip_slash : (p : List ℕ) → names (skip_slash p) ≡ names p
unfolding skip_slash
names-skip_slash [] = refl
names-skip_slash (c ∷ cs) = elim (Bool-cases (c == b'/')) [
  | inl e ↦ rw e (names-skip_slash cs ∙ sym (names_slash c cs e))
  | inr e ↦ rw e refl
]

-- The first name of the split is what split_element passes; the others are those of the rest.
record Separated (p : List ℕ) : Type 0 where
  others : List (List ℕ)
  splits : split p ≡ (split_element p).0 ∷ others
  rest : drop_empty others ≡ names (split_element p).1
  shorter : length (split_element p).1 ≤ length p

split-Separated : (p : List ℕ) → Separated p
unfolding split split_element drop_empty names prepend
split-Separated [] = record { others = []; splits = refl; rest = refl; shorter = omega arith }
split-Separated (c ∷ cs) = elim (Bool-cases (c == b'/')) [
  | inl e ↦ record {
    others = split cs;
    splits = rw (split, split_element, e) refl;
    rest = rw (split_element, e) (sym (names_slash c cs e));
    shorter = rw (split_element, e) (omega arith);
  }
  | inr e ↦
      let s = split-Separated cs in
      record {
        others = s.others;
        splits = rw (split, split_element, e, s.splits) refl;
        rest = rw (split_element, e) s.rest;
        shorter = rw (split_element, e) (omega (arith, s.shorter));
      }
]

length-skip_slash : (p : List ℕ) → length (skip_slash p) ≤ length p
unfolding skip_slash
length-skip_slash [] = omega arith
length-skip_slash (c ∷ cs) = elim (Bool-cases (c == b'/')) [
  | inl e ↦ rw e (omega (arith, length-skip_slash cs))
  | inr e ↦ rw e (omega arith)
]

-- The path does not start with a slash.
abbrev IsRelative : List ℕ → Type 0
IsRelative [] = Unit {0}
IsRelative (c ∷ cs) = (c == b'/') ≡ false

skip_slash-IsRelative : (p : List ℕ) → IsRelative (skip_slash p)
unfolding skip_slash
skip_slash-IsRelative [] = tt
skip_slash-IsRelative (c ∷ cs) = elim (Bool-cases (c == b'/')) [
  | inl e ↦ rw e (skip_slash-IsRelative cs)
  | inr e ↦ rw e e
]

-- The characters that a round takes are a name, and the rest has the other names.
names_element :
    (c : ℕ) (cs : List ℕ)
    → (c == b'/') ≡ false
    → names (c ∷ cs) ≡ (split_element (c ∷ cs)).0 ∷ names (skip_slash (split_element (c ∷ cs)).1)
unfolding names split_element split prepend drop_empty
names_element c cs e =
    let s = split-Separated cs in
    rw (names, split, split_element, e, s.splits)
      (ap (λ ns. (c ∷ (split_element cs).0) ∷ ns) (s.rest ∙ sym (names-skip_slash _)))

is_done-names : (p : List ℕ) → IsRelative p → is_done (names p) ≡ is_empty p
unfolding names split drop_empty
is_done-names [] r = refl
is_done-names (c ∷ cs) r = ap is_done (names_element c cs r)

shorter_rest :
    (c : ℕ) (cs : List ℕ) → (c == b'/') ≡ false → length (split_element (c ∷ cs)).1 ≤ length cs
unfolding split_element
shorter_rest c cs e = rw (split_element, e) (split-Separated cs).shorter

names_nil : names [] ≡ []
unfolding names split drop_empty
names_nil = refl

walk-walk_names :
    (k : ℕ) (p : List ℕ) (dir : Option FilePointer) (f : FilePointer) (d : Disk)
    → IsRelative p
    → length p < k
    → walk k p dir f d ≡ walk_names (names p) dir f d
unfolding walk walk_names
walk-walk_names zero p dir f d r l = absurd (omega arith)
walk-walk_names (suc k) [] dir f d r l = rw names_nil refl
walk-walk_names (suc k) (c ∷ cs) dir f d r l =
    let name = (split_element (c ∷ cs)).0 in
    let path' = skip_slash (split_element (c ∷ cs)).1 in
    rw (names_element c cs r) (elim (Bool-cases (leb maxnamelen (length name))) [
      | inl long ↦ rw long refl
      | inr short ↦ rw short (elim (Bool-cases (is_dir f d)) [
        | inr file ↦ rw file refl
        | inl folder ↦ rw folder (elim (outcome_of (dir_lookup f name d)) [
          | panics e ↦ rw e refl
          | refuses x d' e ↦ rw (e, is_done-names path' (skip_slash-IsRelative _)) refl
          | gives g d' e ↦ rw e (
              walk-walk_names k path' (some f) g d' (skip_slash-IsRelative _) (
                omega
                  (arith, l, length-skip_slash (split_element (c ∷ cs)).1, shorter_rest c cs r)))
        ])
      ])
    ])

-- walk_path of any path looks up the names of the path one after another, from the root: what
-- stands between slashes, where anything does. It ends for every path, unless a lookup panics.
pub walk_path-walk_names :
    (path : List ℕ) (d : Disk) → walk_path path d ≡ walk_names (names path) none s_root d
unfolding walk_path
walk_path-walk_names path d =
    walk-walk_names (suc (length path)) (skip_slash path) none s_root d (skip_slash-IsRelative path)
      (omega (arith, length-skip_slash path))
    ∙ ap (λ ns. walk_names ns none s_root d) (names-skip_slash path)
