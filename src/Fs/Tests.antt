-- ===== src/Fs/Tests.antt =====
-- The theorems on the file system at a small disk.
use backup_gatech.Common.{ℕ, zero, suc, ◌<◌, ◌≡◌, some, [], ◌∷◌, refl, arith, length}
use backup_gatech.Fs.{Disk, File, direct, file_set_size}
use backup_gatech.Fs.Blocks.{file_set_size-leaks}

-- 16 blocks, of which 6 to 15 are free.
abbrev small_disk : Disk
small_disk = record { s_nblocks = 16; bitmap = 0xffc0 ∷ []; words = λ b i. 0 }

-- A file of three blocks, 3, 4 and 5.
abbrev three_blocks : File
three_blocks = record {
  f_size = 9000;
  f_direct = 3 ∷ 4 ∷ 5 ∷ 0 ∷ 0 ∷ 0 ∷ 0 ∷ 0 ∷ 0 ∷ 0 ∷ [];
  f_indirect = 0;
}

file_set_size-leaks_example :
    file_set_size three_blocks 100 small_disk
    ≡ some (record three_blocks { f_size = 100 }, small_disk)
file_set_size-leaks_example =
    file_set_size-leaks three_blocks 100 small_disk refl (omega arith) (omega arith) (omega arith)

first_direct : (i : ℕ) → direct 0 ≡ direct i → i < length three_blocks.f_direct
first_direct zero e = omega arith
first_direct (suc i) e = absurd (cc)
