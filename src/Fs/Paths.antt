-- ===== src/Fs/Paths.antt =====
-- Directories and path names of os_final_project/code/fs/fs.c. Sizes are
-- below 2 ^ 31. A string is its bytes without the final NUL; `none` is a panic.

mod Names
mod Tests
use backup_gatech.Common.{
  ℕ, zero, suc, ◌+◌, ◌-◌, ◌*◌, ◌/◌, ◌%◌, ◌^◌, Option, none, some, List, [], ◌∷◌, ◌++◌, Bool, true,
  false, ◌&&◌, ◌||◌, not, if◌then◌else◌, ◌==◌, ltb, leb, get_or, length, take,
}
use backup_gatech.Fs.Bytes.{byte_at, put_bytes}
use backup_gatech.Fs.Files.{
  FilePointer, load_file, store_file, size_at, Outcome, ok, err, get_block,
}
use backup_gatech.Fs.{
  Disk, File, Error, not_found, bad_path, file_exists, Result, done, fails, file_get_block, blksize,
}

-- &super->s_root: the super block is block 1.
abbrev pub s_root : FilePointer
s_root = (1, 2)

abbrev pub maxnamelen : ℕ
maxnamelen = 128

abbrev pub blkfiles : ℕ
blkfiles = blksize / 256

-- f_type == FTYPE_DIR
pub is_dir : FilePointer → Disk → Bool
is_dir (b, o) d = d.words b (o + 33) == 1

-- The bytes from `i` on before a NUL, `rounds` at most.
pub string_at : (rounds b i : ℕ) → Disk → List ℕ
string_at zero b i d = []
string_at (suc k) b i d =
    let rest = string_at k b (suc i) d in if byte_at b i d == 0 then [] else byte_at b i d ∷ rest

pub name_at : FilePointer → Disk → List ℕ
name_at (b, o) d = string_at maxnamelen b (4 * o) d

-- strcmp(...) == 0
abbrev pub same_string : List ℕ → List ℕ → Bool
same_string [] [] = true
same_string [] (d ∷ ds) = false
same_string (c ∷ cs) [] = false
same_string (c ∷ cs) (d ∷ ds) = (c == d) && same_string cs ds

-- The first of the files from `j` on in a block whose name passes the test.
pub find_file : (rounds j : ℕ) → (List ℕ → Bool) → (b : ℕ) → Disk → Option FilePointer
find_file zero j test b d = none
find_file (suc k) j test b d =
    let rest = find_file k (suc j) test b d in
    if test (name_at (b, j * 64) d) then some (b, j * 64) else rest

-- The loop over the blocks of a directory from block `i` on, `rounds` of them; `finish` is what
-- comes after it.
pub search_blocks :
    (rounds i : ℕ)
    → (List ℕ → Bool)
    → FilePointer
    → (Disk → Option (Outcome FilePointer))
    → Disk
    → Option (Outcome FilePointer)
search_blocks zero i test dir finish d = finish d
search_blocks (suc k) i test dir finish d = elim (get_block dir i d) [
  | none ↦ none
  | some r ↦ elim r [
    | err e d' ↦ some (err e d')
    | ok b d' ↦ elim (find_file blkfiles 0 test b d') [
      | some f ↦ some (ok f d')
      | none ↦ search_blocks k (suc i) test dir finish d'
    ]
  ]
]

pub dir_lookup : FilePointer → (name : List ℕ) → Disk → Option (Outcome FilePointer)
dir_lookup dir name d =
    if size_at dir d % blksize == 0
    then search_blocks (size_at dir d / blksize) 0 (same_string name) dir
        (λ d'. some (err not_found d')) d
    else none

-- The directory gets one more block, and the file is its first.
pub grow_dir : FilePointer → (nblock : ℕ) → Disk → Option (Outcome FilePointer)
grow_dir dir n d =
    let f = load_file dir d in
    let d1 = store_file dir (record f { f_size = f.f_size + blksize }) d in
    elim (get_block dir n d1) [
      | none ↦ none
      | some r ↦ elim r [ err e d' ↦ some (err e d') | ok b d' ↦ some (ok (b, 0) d') ]
    ]

pub dir_alloc_file : FilePointer → Disk → Option (Outcome FilePointer)
dir_alloc_file dir d =
    if size_at dir d % blksize == 0
    then search_blocks (size_at dir d / blksize) 0 (same_string []) dir
        (grow_dir dir (size_at dir d / blksize)) d
    else none

unfoldable pub skip_slash : List ℕ → List ℕ
skip_slash [] = []
skip_slash (c ∷ cs) = if c == b'/' then skip_slash cs else c ∷ cs

-- `while (*path != '/' && *path != '\0') path++;`: the characters passed, and the rest.
pub split_element : List ℕ → List ℕ × List ℕ
split_element [] = ([], [])
split_element (c ∷ cs) =
    let (name, rest) = split_element cs in if c == b'/' then ([], c ∷ cs) else (c ∷ name, rest)

-- What walk_path returns: the file with its directory; the directory and the last name when only
-- that is missing, with -E_NOT_FOUND; any other error.
pub data Walked : Type 0 where
  found : (dir : Option FilePointer) → FilePointer → Disk → Walked
  missing : (dir : FilePointer) → (lastelem : List ℕ) → Disk → Walked
  failed : Error → Disk → Walked

-- The error of a lookup; `last` when the path ends there.
pub lookup_error : (last : Bool) → FilePointer → (name : List ℕ) → Error → Disk → Walked
lookup_error true dir name not_found d = missing dir name d
lookup_error _ dir name e d = failed e d

abbrev pub is_empty : List ℕ → Bool
is_empty [] = true
is_empty (c ∷ cs) = false

-- The loop of walk_path; each round takes at least one character, and `none` is also the end of
-- the fuel.
unfoldable pub walk :
    (fuel : ℕ) → (path : List ℕ) → Option FilePointer → FilePointer → Disk → Option Walked
walk zero path dir f d = none
walk (suc k) [] dir f d = some (found dir f d)
walk (suc k) (c ∷ cs) dir f d =
    let (name, rest) = split_element (c ∷ cs) in
    let path' = skip_slash rest in
    if leb maxnamelen (length name)
    then some (failed bad_path d)
    else if not (is_dir f d)
    then some (failed not_found d)
    else elim (dir_lookup f name d) [
      | none ↦ none
      | some r ↦ elim r [
        | err e d' ↦ some (lookup_error (is_empty path') f name e d')
        | ok g d' ↦ walk k path' (some f) g d'
      ]
    ]

unfoldable pub walk_path : (path : List ℕ) → Disk → Option Walked
walk_path path d = walk (suc (length path)) (skip_slash path) none s_root d

-- The file, or an error.
unfoldable pub file_open : (path : List ℕ) → Disk → Option (Outcome FilePointer)
file_open path d = elim (walk_path path d) [
  | none ↦ none
  | some w ↦ elim w [
    | found dir f d' ↦ some (ok f d')
    | missing dir name d' ↦ some (err not_found d')
    | failed e d' ↦ some (err e d')
  ]
]

-- strcpy(f->f_name, name)
pub store_name : FilePointer → (name : List ℕ) → Disk → Disk
store_name (b, o) name d = put_bytes b (4 * o) (name ++ 0 ∷ []) d

pub file_create : (path : List ℕ) → Disk → Option (Outcome FilePointer)
file_create path d = elim (walk_path path d) [
  | none ↦ none
  | some w ↦ elim w [
    | found dir f d' ↦ some (err file_exists d')
    | failed e d' ↦ some (err e d')
    | missing dir name d' ↦ elim (dir_alloc_file dir d') [
      | none ↦ none
      | some r ↦ elim r [
        | err e d2 ↦ some (err e d2)
        | ok f d2 ↦ some (ok f (store_name f name d2))
      ]
    ]
  ]
]
