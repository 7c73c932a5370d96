-- ===== src/Fs/Paths/Tests.antt =====
-- The names of a path.
use backup_gatech.Common.{ℕ, ◌≡◌, none, List, [], ◌∷◌}
use backup_gatech.Fs.{Disk}
use backup_gatech.Fs.Paths.{s_root, walk_path}
use backup_gatech.Fs.Paths.Names.{names, walk_names, walk_path-walk_names}

abbrev disk : Disk
disk = record { s_nblocks = 8; bitmap = 0xF8 ∷ []; words = λ b i. 0 }

-- "//a/bc/"
abbrev path : List ℕ
path = b'/' ∷ b'/' ∷ b'a' ∷ b'/' ∷ b'b' ∷ b'c' ∷ b'/' ∷ []

walk_path-walk_names_example :
    walk_path path disk ≡ walk_names ((b'a' ∷ []) ∷ (b'b' ∷ b'c' ∷ []) ∷ []) none s_root disk
unfolding names
walk_path-walk_names_example = walk_path-walk_names path disk
