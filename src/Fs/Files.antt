-- ===== src/Fs/Files.antt =====
-- A struct File on the disk of os_final_project/code/fs/fs.c: a pointer to it is the block and the
-- word where it starts; its fields are read from there, and written back after an operation on it.
pub mod Stored
use backup_gatech.Common.{
  ℕ, ◌+◌, ◌-◌, Option, none, some, List, [], ◌∷◌, Bool, ◌&&◌, not, if◌then◌else◌, ◌==◌, ltb, leb,
  get_or, ◌≡◌, refl,
}
use backup_gatech.Fs.{Disk, File, Error, Result, done, fails, file_get_block, file_set_size}

-- The block, and the number of the first word in it.
abbrev pub FilePointer : Type 0
FilePointer = ℕ × ℕ

-- f_name has 32 words, and f_size is the next.
abbrev pub file_in : (words : ℕ → ℕ) → (o : ℕ) → File
file_in ws o = record {
  f_size = ws (o + 32);
  f_direct =
      ws (o + 34)
      ∷ ws (o + 35)
      ∷ ws (o + 36)
      ∷ ws (o + 37)
      ∷ ws (o + 38)
      ∷ ws (o + 39)
      ∷ ws (o + 40)
      ∷ ws (o + 41)
      ∷ ws (o + 42)
      ∷ ws (o + 43)
      ∷ [];
  f_indirect = ws (o + 44);
}

unfoldable pub load_file : FilePointer → Disk → File
load_file (b, o) d = file_in (d.words b) o

unfoldable pub store_file : FilePointer → File → Disk → Disk
store_file (b, o) f d = record d {
  words = λ c i.
      if not (c == b)
      then d.words c i
      else if i == o + 32
      then f.f_size
      else if leb (o + 34) i && ltb i (o + 44)
      then get_or f.f_direct (i - (o + 34)) 0
      else if i == o + 44
      then f.f_indirect
      else d.words c i;
}

abbrev pub size_at : FilePointer → Disk → ℕ
size_at p d = (load_file p d).f_size

-- A value, or an error, with the disk at that point.
pub data Outcome (A : Type 0) : Type 0 where
  ok : A → Disk → Outcome A
  err : Error → Disk → Outcome A

-- file_get_block on the file at the pointer.
unfoldable pub get_block : FilePointer → ℕ → Disk → Option (Outcome ℕ)
get_block p n d = elim (file_get_block (load_file p d) n d) [
  | none ↦ none
  | some r ↦ elim r [
    | done b f d' ↦ some (ok b (store_file p f d'))
    | fails e f d' ↦ some (err e (store_file p f d'))
  ]
]

-- file_set_size on the file at the pointer.
unfoldable pub set_size : FilePointer → (newsize : ℕ) → Disk → Option Disk
set_size p size d = elim (file_set_size (load_file p d) size d) [
  | none ↦ none
  | some (f, d') ↦ some (store_file p f d')
]

-- The three cases of an outcome.
pub data IsOutcome {A : Type 0} (r : Option (Outcome A)) : Type 0 where
  panics : r ≡ none → IsOutcome r
  gives : (a : A) (d : Disk) → r ≡ some (ok a d) → IsOutcome r
  refuses : (e : Error) (d : Disk) → r ≡ some (err e d) → IsOutcome r

pub outcome_of : {A : Type 0} (r : Option (Outcome A)) → IsOutcome r
outcome_of none = panics refl
outcome_of (some (ok a d)) = gives a d refl
outcome_of (some (err e d)) = refuses e d refl
