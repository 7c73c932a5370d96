-- ===== src/Fs/Blocks.antt =====
-- The blocks of a file.
use backup_gatech.Common.{
  ℕ, zero, suc, ◌+◌, ◌-◌, ◌*◌, ◌<◌, ◌≤◌, ◌≡◌, ◌≢◌, Option, none, some, true, false, ◌&&◌, not, ◌∙◌,
  if◌then◌else◌, ◌==◌, leb, get_or-set, length, set_bit_at, bit_at-set_bit_at, arith, refl, inl,
  inr, Option-cases, bit_at-clear_bit_at, ◌/◌, ◌^◌,
}
use backup_gatech.Bitmap.{first_set, first_set-some, first_set-least, first_set-none}
use backup_gatech.Fs.{
  Disk, File, not_found, Slot, direct, indirect, done, fails, ndirect, block_is_free, free_block,
  file_block_walk, read_slot, write_slot, free_at, file_free_block, free_blocks, free_indirect,
  file_truncate_blocks, file_set_size, blksize, blocks_for, is_negative, less_signed, alloc_block,
}

-- Blocks 1 to 9 of a file without an indirect block are refused with -E_NOT_FOUND although their
-- numbers stand in the file: file_free_block leaves them in use.
pub file_free_block-leaks :
    (f : File) (n : ℕ) (d : Disk)
    → f.f_indirect ≡ 0
    → 0 < n
    → n < ndirect
    → file_free_block f n d ≡ some (fails not_found f d)
unfolding file_free_block file_block_walk
file_free_block-leaks f n d none_yet l h = ground arith

-- Truncating a file of up to ten blocks that has no indirect block to one block frees nothing.
pub free_blocks-leaks :
    (k n : ℕ) (f : File) (d : Disk)
    → f.f_indirect ≡ 0
    → 0 < n
    → n + k ≤ ndirect
    → free_blocks k n f d ≡ some (f, d)
unfolding free_blocks
free_blocks-leaks zero n f d none_yet l h = refl
free_blocks-leaks (suc k) n f d none_yet l h =
    rw (file_free_block-leaks f n d none_yet l (omega arith), free_blocks)
      (free_blocks-leaks k (suc n) f d none_yet (omega arith) (omega arith))

-- The slot holds the block after it was written there.
read_slot-write_slot :
    (s : Slot) (v : ℕ) (f : File) (d : Disk)
    → ((i : ℕ) → s ≡ direct i → i < length f.f_direct)
    → read_slot s (write_slot s v f d).0 (write_slot s v f d).1 ≡ v
unfolding read_slot write_slot
read_slot-write_slot (direct i) v f d h =
    let l = h i refl in ground (arith, get_or-set f.f_direct i i v 0)
read_slot-write_slot (indirect b i) v f d h = ground arith

blocks_for-positive : (size : ℕ) → size < 2 ^ 31 → blocks_for size ≡ (size + blksize - 1) / blksize
unfolding blocks_for
blocks_for-positive size l =
    let small : is_negative size ≡ false = ground (arith, l) in rw small refl

-- Shrinking a file of up to ten blocks that has no indirect block to a size above 0 changes its
-- size alone: no block is freed, and the numbers of the blocks stay in the file.
pub file_set_size-leaks :
    (f : File) (newsize : ℕ) (d : Disk)
    → f.f_indirect ≡ 0
    → 0 < newsize
    → newsize < f.f_size
    → f.f_size ≤ ndirect * blksize
    → file_set_size f newsize d ≡ some (record f { f_size = newsize }, d)
unfolding file_set_size file_truncate_blocks free_indirect
file_set_size-leaks f newsize d none_yet l h big =
    let shrinks : less_signed newsize f.f_size ≡ true = ground (arith, h, big) in
    let new = blocks_for-positive newsize (omega (arith, h, big)) in
    let old = blocks_for-positive f.f_size (omega (arith, big)) in
    let kept =
      free_blocks-leaks (blocks_for f.f_size - blocks_for newsize) (blocks_for newsize) f d none_yet
        (omega (arith, new, l)) (omega (arith, new, old, big)) in
    let stays : leb (blocks_for newsize) ndirect && not (f.f_indirect == 0) ≡ false =
      ground (arith, none_yet) in
    rw (shrinks, file_set_size, file_truncate_blocks, kept, free_indirect, stays) refl

-- The bitmap has a bit for every block of the disk.
abbrev pub HasBits : Disk → Type 0
HasBits d = d.s_nblocks ≤ 32 * length d.bitmap

-- What an allocation must do: take the lowest free block and no other, or fail when none is free.
abbrev pub Allocates : Disk → Option (ℕ × Disk) → Type 0
Allocates d none = (j : ℕ) → block_is_free d j ≡ false
Allocates d (some (b, d')) =
    (block_is_free d b ≡ true)
    × ((j : ℕ) → j < b → block_is_free d j ≡ false)
    × ((j : ℕ) → block_is_free d' j ≡ (if b == j then false else block_is_free d j))

-- If the bitmap has a bit for every block of the disk, alloc_block returns the lowest free
-- block, which is in use from then on, and changes no other block; it fails with -E_NO_DISK
-- only when no block is free.
pub alloc_block_lem : (d : Disk) → HasBits d → Allocates d (alloc_block d)
unfolding alloc_block block_is_free
alloc_block_lem d h = elim (Option-cases (first_set d.bitmap d.s_nblocks 0)) [
  | inl e ↦
      rw (e, alloc_block, Allocates)
        (λ j. ground (arith, first_set-none d.bitmap d.s_nblocks 0 j e))
  | inr (b, e) ↦
      let found = first_set-some d.bitmap d.s_nblocks 0 {b = b} e in
      rw (e, alloc_block, Allocates)
        (
          ground (arith, found),
          λ j l. ground (arith, first_set-least d.bitmap d.s_nblocks 0 j {b = b} e, found),
          λ j. ground (arith, bit_at-clear_bit_at d.bitmap b j, found),
        )
]

block_is_free-write_slot :
    (s : Slot) (v j : ℕ) (f : File) (d : Disk)
    → block_is_free (write_slot s v f d).1 j ≡ block_is_free d j
unfolding block_is_free write_slot
block_is_free-write_slot (direct i) v j f d = refl
block_is_free-write_slot (indirect b i) v j f d = refl

-- If the bitmap has a bit for every block of the disk, the walk finds the slot of a file's
-- block, within the file, and a block of the disk stands there, then file_free_block succeeds;
-- that block is then free, no other block changes, and the slot is empty.
pub file_free_block-frees :
    (f : File) (n : ℕ) (s : Slot) (d : Disk)
    → HasBits d
    → file_block_walk f n false d ≡ some (done s f d)
    → ((i : ℕ) → s ≡ direct i → i < length f.f_direct)
    → read_slot s f d ≢ 0
    → read_slot s f d < d.s_nblocks
    → (f' : File) × (d' : Disk) × (file_free_block f n d ≡ some (done 0 f' d'))
      × (read_slot s f' d' ≡ 0)
      × ((j : ℕ) → block_is_free d' j ≡ (if read_slot s f d == j then true else block_is_free d j))
unfolding file_free_block free_at free_block block_is_free
file_free_block-frees f n s d bits walk inside ne l =
    let b = read_slot s f d in
    let d1 = record d { bitmap = set_bit_at d.bitmap b } in
    let there : (b == 0) ≡ false = ground arith in
    (
      (write_slot s 0 f d1).0,
      (write_slot s 0 f d1).1,
      rw (walk, file_free_block, there, free_at, free_block) refl,
      read_slot-write_slot s 0 f d1 inside,
      λ j. block_is_free-write_slot s 0 j f d1 ∙ ground (arith, bit_at-set_bit_at d.bitmap b j),
    )
