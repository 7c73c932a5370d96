-- ===== src/Fs/Content/Tests.antt =====
-- Writing to an empty file.
use backup_gatech.Common.{ℕ, ◌≡◌, Option, none, some, [], ◌∷◌, refl, arith, bit_at, has_bit}
use backup_gatech.Bitmap.{first_set}
use backup_gatech.Fs.{
  Disk, file_get_block, file_set_size, file_block_walk, slot_of, get_at, read_slot, write_slot,
  is_block, alloc_block,
}
use backup_gatech.Fs.Files.{ok, err, Outcome, load_file, store_file, get_block, set_size}
use backup_gatech.Fs.Content.{extend, file_read, file_write}
use backup_gatech.Fs.Content.RoundTrip.{file_read-file_write}

-- Blocks 3 to 7 are free; every file is empty.
abbrev disk : Disk
disk = record { s_nblocks = 8; bitmap = 0xF8 ∷ []; words = λ b i. 0 }

-- The disk that a call leaves.
abbrev disk_of : Option (Outcome ℕ) → Disk
disk_of none = disk
disk_of (some (ok b d)) = d
disk_of (some (err e d)) = d

abbrev longer : Option Disk → Disk
longer none = disk
longer (some d) = d

-- "hi" from byte 5 on.
file_read-file_write_example :
    (d2 d3 : Disk) × (file_write (1, 2) (b'h' ∷ b'i' ∷ []) 5 disk ≡ some (ok 2 d2))
    × (file_read (1, 2) 2 5 d2 ≡ some (ok (b'h' ∷ b'i' ∷ []) d3))
unfolding extend set_size file_set_size load_file store_file get_block file_get_block
    file_block_walk slot_of get_at read_slot write_slot is_block alloc_block first_set bit_at
    has_bit
file_read-file_write_example =
    file_read-file_write (1, 2) (b'h' ∷ b'i' ∷ []) 5
      (record { some_bytes = omega arith; within = omega arith; low = omega arith }) 3 disk
      (longer (extend (1, 2) 7 disk)) (disk_of (get_block (1, 2) 0 (longer (extend (1, 2) 7 disk))))
      (omega arith) (omega arith) (omega arith) refl refl refl
