-- ===== src/Args.antt =====
-- The arguments of a program, os_final_project/code/lib/args.c. A string is the list of its
-- characters. argc is at least 1, and argv[0] is never looked at: `argv` is the list from
-- argv[1] on, and argc - 1 its length.
mod Options
mod Tests
use backup_gatech.Common.{ℕ, Option, none, some, List, [], ◌∷◌, if◌then◌else◌, ◌==◌}

-- `none` is NULL.
pub record Argstate : Type 0 where
  pub argv : List (List ℕ)
  pub curarg : Option (List ℕ)
  pub argvalue : Option (List ℕ)

pub argstart : (argv : List (List ℕ)) → Argstate
argstart [] = record { argv = []; curarg = none; argvalue = none }
argstart (a ∷ argv) = record { argv = a ∷ argv; curarg = some []; argvalue = none }

-- The label endofargs; `none` is -1.
abbrev pub endofargs : List (List ℕ) → Option ℕ × Argstate
endofargs argv = (none, record { argv = argv; curarg = none; argvalue = none })

abbrev pub return_arg : ℕ → (curarg : List ℕ) → (argv : List (List ℕ)) → Option ℕ × Argstate
return_arg arg cs argv = (some arg, record { argv = argv; curarg = some cs; argvalue = none })

-- The characters after the `-` of an argument that was shifted off `argv`.
pub shifted : (c : ℕ) → (cs : List ℕ) → (argv : List (List ℕ)) → Option ℕ × Argstate
shifted c [] argv = if c == b'-' then endofargs argv else return_arg c [] argv
shifted c (d ∷ cs) argv = return_arg c (d ∷ cs) argv

pub next_argument : (argv : List (List ℕ)) → Option ℕ × Argstate
next_argument [] = endofargs []
next_argument ([] ∷ argv) = endofargs ([] ∷ argv)
next_argument ((d ∷ []) ∷ argv) = endofargs ((d ∷ []) ∷ argv)
next_argument ((d ∷ c ∷ cs) ∷ argv) =
    if d == b'-' then shifted c cs argv else endofargs ((d ∷ c ∷ cs) ∷ argv)

-- The character, or `none` for -1.
pub argnext : Argstate → Option ℕ × Argstate
argnext s = elim s.curarg [
  | none ↦ (none, record s { argvalue = none })
  | some cs ↦ elim cs [ [] ↦ next_argument s.argv | c ∷ cs' ↦ return_arg c cs' s.argv ]
]

pub argnextvalue : Argstate → Option (List ℕ) × Argstate
argnextvalue s = elim s.curarg [
  | none ↦ (none, s)
  | some cs ↦ elim cs [
    | c ∷ cs' ↦ (some (c ∷ cs'), record s { argvalue = some (c ∷ cs'); curarg = some [] })
    | [] ↦ elim s.argv [
      | a ∷ argv ↦ (some a, record { argv = argv; curarg = some []; argvalue = some a })
      | [] ↦ (none, record s { argvalue = none; curarg = none })
    ]
  ]
]

pub argvalue_of : Argstate → Option (List ℕ) × Argstate
argvalue_of s = elim s.argvalue [ some v ↦ (some v, s) | none ↦ argnextvalue s ]
