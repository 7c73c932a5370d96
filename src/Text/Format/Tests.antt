-- ===== src/Text/Format/Tests.antt =====
-- The theorems on formatted output at a small buffer.
use backup_gatech.Common.{ℕ, ◌≢◌, List, [], ◌∷◌}
use backup_gatech.Text.Format.{endless, vprintfmt}
use backup_gatech.Text.Format.Fuel.{vprintfmt-ends}

-- "%3d!" with 42, in a buffer of 4 bytes.
abbrev buffer : List ℕ
buffer = 1 ∷ 2 ∷ 3 ∷ 4 ∷ 5 ∷ []

-- "%05d" without an argument.
vprintfmt-ends_example : vprintfmt (b'%' ∷ b'0' ∷ b'5' ∷ b'd' ∷ []) [] ≢ endless
vprintfmt-ends_example = vprintfmt-ends (b'%' ∷ b'0' ∷ b'5' ∷ b'd' ∷ []) []
