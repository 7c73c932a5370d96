-- ===== src/Args/Tests.antt =====
-- The theorems on the arguments of a program at small command lines.
use backup_gatech.Common.{ℕ, none, List, [], ◌∷◌}
use backup_gatech.Args.{argstart}
use backup_gatech.Args.Options.{Reads, state, flags, argnext-flags}

-- -ab -- -c
abbrev command : List (List ℕ)
command = (b'-' ∷ b'a' ∷ b'b' ∷ []) ∷ (b'-' ∷ b'-' ∷ []) ∷ (b'-' ∷ b'c' ∷ []) ∷ []

argnext-flags_example :
    Reads (argstart command) (b'a' ∷ b'b' ∷ []) (state ((b'-' ∷ b'c' ∷ []) ∷ []) none)
unfolding flags
argnext-flags_example = argnext-flags command
