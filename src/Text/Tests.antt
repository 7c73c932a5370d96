-- ===== src/Text/Tests.antt =====
-- The theorems on strings at concrete strings.
use backup_gatech.Common.{ℕ, ◌≡◌, some, List, [], ◌∷◌, ◌++◌, arith}
use backup_gatech.Text.{strtol, printnum}
use backup_gatech.Text.Copies.{IsText}
use backup_gatech.Text.Numbers.{strtol-printnum}

abbrev ab : List ℕ
ab = 97 ∷ 98 ∷ []

abbrev ac : List ℕ
ac = 97 ∷ 99 ∷ []

abbrev room : List ℕ
room = 1 ∷ 2 ∷ 3 ∷ 4 ∷ []

ab-IsText : IsText ab
ab-IsText = (omega arith, (omega arith, tt))

ac-IsText : IsText ac
ac-IsText = (omega arith, (omega arith, tt))

strtol-printnum_example : strtol (printnum 48879 16 0 32 ++ (0 ∷ [])) 16 ≡ some (48879, 0 ∷ [])
strtol-printnum_example =
    strtol-printnum 48879 16 32 [] (record { two = omega arith; sixteen = omega arith })
      (omega arith)
