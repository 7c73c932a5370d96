-- ===== src/Fs/Content.antt =====
-- file_read and file_write of os_final_project/code/fs/fs.c. The end of the bytes, offset + count,
-- is below 2 ^ 31; `none` is a panic, or the end of the fuel.
pub mod RoundTrip
mod Tests
use backup_gatech.Common.{
  ℕ, zero, suc, ◌+◌, ◌-◌, ◌/◌, ◌%◌, Option, none, some, List, [], ◌∷◌, ◌++◌, Bool, ◌||◌, ◌^◌,
  if◌then◌else◌, ltb, leb, length, take, drop, min,
}
use backup_gatech.Fs.{Disk, blksize, is_negative, file_set_size}
use backup_gatech.Fs.Bytes.{bytes_from, put_bytes}
use backup_gatech.Fs.Files.{FilePointer, size_at, Outcome, ok, err, get_block, set_size}

-- What one round takes: to the end of the block, or to the end of the bytes.
abbrev pub bn : (pos stop : ℕ) → ℕ
bn pos stop = min (blksize - pos % blksize) (stop - pos)

-- The bytes that are read.
pub read_loop :
    (fuel pos stop : ℕ) → FilePointer → (buf : List ℕ) → Disk → Option (Outcome (List ℕ))
read_loop zero pos stop p buf d = none
read_loop (suc k) pos stop p buf d =
    if leb stop pos then some (ok buf d) else elim (get_block p (pos / blksize) d) [
      | none ↦ none
      | some r ↦ elim r [
        | err e d' ↦ some (err e d')
        | ok b d' ↦
            read_loop k (pos + bn pos stop) stop p
              (buf ++ bytes_from (bn pos stop) b (pos % blksize) d') d'
      ]
    ]

-- The number of bytes that is returned is the length of the list. The size is a signed word, and
-- no offset is below a negative one.
pub file_read : FilePointer → (count offset : ℕ) → Disk → Option (Outcome (List ℕ))
file_read p count offset d =
    if is_negative (size_at p d) || leb (size_at p d) offset
    then some (ok [] d)
    else let n = min count (size_at p d - offset) in read_loop (suc n) offset (offset + n) p [] d

pub write_loop :
    (fuel pos : ℕ) → (buf : List ℕ) → FilePointer → (count : ℕ) → Disk → Option (Outcome ℕ)
write_loop zero pos buf p count d = none
write_loop (suc k) pos buf p count d =
    if leb (length buf) 0 then some (ok count d) else elim (get_block p (pos / blksize) d) [
      | none ↦ none
      | some r ↦ elim r [
        | err e d' ↦ some (err e d')
        | ok b d' ↦
            let n = bn pos (pos + length buf) in
            write_loop k (pos + n) (drop n buf) p count
              (put_bytes b (pos % blksize) (take n buf) d')
      ]
    ]

-- The file is made longer first, if it is too short; count is a size_t, so the sizes are compared
-- as unsigned words.
unfoldable pub extend : FilePointer → (size : ℕ) → Disk → Option Disk
extend p size d = if ltb (size_at p d) size then set_size p size d else some d

pub file_write : FilePointer → (buf : List ℕ) → (offset : ℕ) → Disk → Option (Outcome ℕ)
file_write p buf offset d = elim (extend p (offset + length buf) d) [
  | none ↦ none
  | some d' ↦ write_loop (suc (length buf)) offset buf p (length buf) d'
]
