-- ===== src/Args/Options.antt =====
-- The flags of a command line.
use backup_gatech.Common.{
  ℕ, ◌≡◌, Option, none, some, List, [], ◌∷◌, ◌++◌, if◌then◌else◌, ◌==◌, refl, Bool-cases, inl, inr,
}
use backup_gatech.Args.{Argstate, argstart, shifted, next_argument, argnext}

-- The flags at the front and the arguments that follow them. A flag is an argument of two
-- characters at least, of which the first is `-`; `--` ends the flags and is dropped.
unfoldable pub flags : List (List ℕ) → List ℕ × List (List ℕ)
flags [] = ([], [])
flags ([] ∷ argv) = ([], [] ∷ argv)
flags ((d ∷ []) ∷ argv) = ([], (d ∷ []) ∷ argv)
flags ((d ∷ c ∷ []) ∷ argv) =
    let (more, rest) = flags argv in
    if d == b'-'
    then (if c == b'-' then ([], argv) else (c ∷ more, rest))
    else ([], (d ∷ c ∷ []) ∷ argv)
flags ((d ∷ c ∷ x ∷ xs) ∷ argv) =
    let (more, rest) = flags argv in
    if d == b'-' then (c ∷ x ∷ xs ++ more, rest) else ([], (d ∷ c ∷ x ∷ xs) ∷ argv)

-- From `s` on, argnext returns the characters one after another and -1 then, which leaves `s'`.
pub data Reads : Argstate → List ℕ → Argstate → Type 0 where
  ends : (s s' : Argstate) → argnext s ≡ (none, s') → Reads s [] s'
  reads :
      (s t s' : Argstate) (c : ℕ) (cs : List ℕ)
      → argnext s ≡ (some c, t)
      → Reads t cs s'
      → Reads s (c ∷ cs) s'

abbrev pub state : List (List ℕ) → Option (List ℕ) → Argstate
state argv cur = record { argv = argv; curarg = cur; argvalue = none }

Reads-chars :
    (cs ds : List ℕ) (argv : List (List ℕ)) (s' : Argstate)
    → Reads (state argv (some [])) ds s'
    → Reads (state argv (some cs)) (cs ++ ds) s'
unfolding argnext
Reads-chars [] ds argv s' h = h
Reads-chars (c ∷ cs) ds argv s' h =
    reads (state argv (some (c ∷ cs))) (state argv (some cs)) s' c (cs ++ ds) refl
      (Reads-chars cs ds argv s' h)

Reads-flags :
    (argv : List (List ℕ)) → Reads (state argv (some [])) (flags argv).0 (state (flags argv).1 none)
unfolding argnext next_argument shifted flags
Reads-flags [] = ends _ _ refl
Reads-flags ([] ∷ argv) = ends _ _ refl
Reads-flags ((d ∷ []) ∷ argv) = ends _ _ refl
Reads-flags ((d ∷ c ∷ []) ∷ argv) = elim (Bool-cases (d == b'-')) [
  | inl dash ↦ elim (Bool-cases (c == b'-')) [
    | inl last ↦ rw (dash, last) (ends _ _ (rw (dash, last) refl))
    | inr flag ↦
        rw (dash, flag)
          (reads _ (state argv (some [])) _ c (flags argv).0 (rw (dash, flag) refl)
            (Reads-flags argv))
  ]
  | inr plain ↦ rw plain (ends _ _ (rw plain refl))
]
Reads-flags ((d ∷ c ∷ x ∷ xs) ∷ argv) = elim (Bool-cases (d == b'-')) [
  | inl dash ↦ rw dash (
      reads _ (state argv (some (x ∷ xs))) _ c _ (rw dash refl)
        (Reads-chars (x ∷ xs) (flags argv).0 argv _ (Reads-flags argv)))
  | inr plain ↦ rw plain (ends _ _ (rw plain refl))
]

-- argnext, called again and again after argstart, returns the characters of the flags one after
-- another and then -1; what is left in argv is the arguments after the flags.
pub argnext-flags :
    (argv : List (List ℕ)) → Reads (argstart argv) (flags argv).0 (state (flags argv).1 none)
unfolding argstart argnext flags
argnext-flags [] = ends _ _ refl
argnext-flags (a ∷ argv) = Reads-flags (a ∷ argv)
