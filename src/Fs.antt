-- ===== src/Fs.antt =====
-- Blocks of the file system, os_final_project/code/fs/fs.c: the bitmap of free blocks, and the
-- blocks of a file. A block is seen as 32-bit words, as an indirect block is; what is in the block
-- cache but not yet on the disk is left out. `none` is a panic.
pub mod Blocks
pub mod Files
pub mod Bytes
pub mod Paths
pub mod Content
pub mod Serv
mod Tests
use backup_gatech.Common.{
  ◌%◌, ℕ, zero, suc, ◌+◌, ◌-◌, ◌*◌, ◌/◌, Option, none, some, List, Bool, true, false, ◌&&◌, ◌||◌,
  not, if◌then◌else◌, ◌==◌, ltb, leb, get_or, set, bit_at, set_bit_at, clear_bit_at, ◌^◌,
}
use backup_gatech.Bitmap.{first_set}

pub record Disk : Type 0 where
  pub s_nblocks : ℕ
  pub bitmap : List ℕ
  pub words : ℕ → ℕ → ℕ

pub record File : Type 0 where
  pub f_size : ℕ
  pub f_direct : List ℕ
  pub f_indirect : ℕ

abbrev pub blksize : ℕ
blksize = 4096

abbrev pub blkbitsize : ℕ
blkbitsize = blksize * 8

abbrev pub ndirect : ℕ
ndirect = 10

abbrev pub nindirect : ℕ
nindirect = 1024

pub data Error : Type 0 where
  not_found no_disk inval bad_path file_exists no_mem max_open : Error

pub block_is_free : Disk → ℕ → Bool
block_is_free d b = ltb b d.s_nblocks && bit_at d.bitmap b

pub free_block : ℕ → Disk → Option Disk
free_block b d = if b == 0 then none else some (record d { bitmap = set_bit_at d.bitmap b })

-- `none` is -E_NO_DISK.
pub alloc_block : Disk → Option (ℕ × Disk)
alloc_block d = elim (first_set d.bitmap d.s_nblocks 0) [
  | none ↦ none
  | some b ↦ some (b, record d { bitmap = clear_bit_at d.bitmap b })
]

-- `for (i = from; i * BLKBITSIZE < super->s_nblocks; i++)`, for at most `rounds` rounds.
pub bitmap_in_use : (rounds from : ℕ) → Disk → Bool
bitmap_in_use zero i d = true
bitmap_in_use (suc k) i d =
    let rest = bitmap_in_use k (suc i) d in
    if ltb (i * blkbitsize) d.s_nblocks then not (block_is_free d (2 + i)) && rest else true

-- Whether the assertions of check_bitmap hold.
pub check_bitmap : Disk → Bool
check_bitmap d =
    bitmap_in_use (suc d.s_nblocks) 0 d && not (block_is_free d 0) && not (block_is_free d 1)

-- Where the number of a file's block is kept: in the file, or in a word of an indirect block.
pub data Slot : Type 0 where
  direct : ℕ → Slot
  indirect : (blockno index : ℕ) → Slot

-- diskaddr panics on the block 0 and on blocks past the end.
pub is_block : Disk → ℕ → Bool
is_block d b = not (b == 0) && ltb b d.s_nblocks

-- A result, or an error, with the file and the disk at that point.
pub data Result (A : Type 0) : Type 0 where
  done : A → File → Disk → Result A
  fails : Error → File → Disk → Result A

-- The indirect block is at hand: the slot of block `n`.
pub slot_of : ℕ → File → Disk → Option (Result Slot)
slot_of n f d =
    if ltb n ndirect
    then some (done (direct n) f d)
    else if is_block d f.f_indirect
    then some (done (indirect f.f_indirect (n - ndirect)) f d)
    else none

-- A fresh, cleared indirect block.
pub add_indirect :
    File → Disk → Option (Result Slot) → (File → Disk → Option (Result Slot)) → Option (Result Slot)
add_indirect f d full go = elim (alloc_block d) [
  | none ↦ full
  | some (b, d') ↦
      if is_block d b
      then go (record f { f_indirect = b })
          (record d' { words = λ c i. if c == b then 0 else d'.words c i })
      else none
]

-- The test is `filebno > NDIRECT / BLKSIZE`, and NDIRECT / BLKSIZE is 0.
pub file_block_walk : File → ℕ → (alloc : Bool) → Disk → Option (Result Slot)
file_block_walk f n alloc d =
    if leb (ndirect + nindirect) n
    then some (fails inval f d)
    else if ltb (ndirect / blksize) n && f.f_indirect == 0
    then (if alloc
        then add_indirect f d (some (fails no_disk f d)) (slot_of n)
        else some (fails not_found f d))
    else slot_of n f d

pub read_slot : Slot → File → Disk → ℕ
read_slot (direct i) f d = get_or f.f_direct i 0
read_slot (indirect b i) f d = d.words b i

pub write_slot : Slot → ℕ → File → Disk → File × Disk
write_slot (direct i) v f d = (record f { f_direct = set f.f_direct i v }, d)
write_slot (indirect b i) v f d =
    (f, record d { words = λ c j. if (c == b) && j == i then v else d.words c j })

-- The block of a slot, allocated if there is none.
pub get_at : Slot → File → Disk → Option (Result ℕ)
get_at s f d =
    let have = read_slot s f d in
    if have == 0
    then elim (alloc_block d) [
      | none ↦ some (fails no_disk f d)
      | some (b, d') ↦
          if is_block d b
          then some (done b (write_slot s b f d').0 (write_slot s b f d').1)
          else none
    ]
    else if is_block d have
    then some (done have f d)
    else none

-- `*blk` is diskaddr of the block number that is the result.
pub file_get_block : File → ℕ → Disk → Option (Result ℕ)
file_get_block f n d = elim (file_block_walk f n true d) [
  | none ↦ none
  | some r ↦ elim r [ done s f' d' ↦ get_at s f' d' | fails e f' d' ↦ some (fails e f' d') ]
]

pub free_at : Slot → File → Disk → Option (Result ℕ)
free_at s f d =
    let b = read_slot s f d in
    if b == 0 then some (done 0 f d) else elim (free_block b d) [
      | none ↦ none
      | some d' ↦ some (done 0 (write_slot s 0 f d').0 (write_slot s 0 f d').1)
    ]

pub file_free_block : File → ℕ → Disk → Option (Result ℕ)
file_free_block f n d = elim (file_block_walk f n false d) [
  | none ↦ none
  | some r ↦ elim r [ done s f' d' ↦ free_at s f' d' | fails e f' d' ↦ some (fails e f' d') ]
]

-- `for (bno = from; bno < from + rounds; bno++)`: an error is a warning.
pub free_blocks : (rounds from : ℕ) → File → Disk → Option (File × Disk)
free_blocks zero n f d = some (f, d)
free_blocks (suc k) n f d = elim (file_free_block f n d) [
  | none ↦ none
  | some r ↦ elim r [
    | done b f' d' ↦ free_blocks k (suc n) f' d'
    | fails e f' d' ↦ free_blocks k (suc n) f' d'
  ]
]

-- An off_t is a signed word of 32 bits.
abbrev pub is_negative : ℕ → Bool
is_negative n = leb (2 ^ 31) n

abbrev pub less_signed : ℕ → ℕ → Bool
less_signed a b = ltb ((a + 2 ^ 31) % 2 ^ 32) ((b + 2 ^ 31) % 2 ^ 32)

-- The division rounds towards 0, and its result is unsigned.
pub blocks_for : ℕ → ℕ
blocks_for size =
    if is_negative size
    then (2 ^ 32 - (2 ^ 32 - size - (blksize - 1)) / blksize) % 2 ^ 32
    else (size + blksize - 1) / blksize

pub free_indirect : (new_nblocks : ℕ) → File → Disk → Option (File × Disk)
free_indirect n f d =
    if leb n ndirect && not (f.f_indirect == 0)
    then elim (free_block f.f_indirect d) [
      | none ↦ none
      | some d' ↦ some (record f { f_indirect = 0 }, d')
    ]
    else some (f, d)

pub file_truncate_blocks : File → (newsize : ℕ) → Disk → Option (File × Disk)
file_truncate_blocks f newsize d =
    elim (free_blocks (blocks_for f.f_size - blocks_for newsize) (blocks_for newsize) f d) [
      | none ↦ none
      | some (f', d') ↦ free_indirect (blocks_for newsize) f' d'
    ]

pub file_set_size : File → (newsize : ℕ) → Disk → Option (File × Disk)
file_set_size f newsize d =
    elim (if less_signed newsize f.f_size then file_truncate_blocks f newsize d else some (f, d)) [
      | none ↦ none
      | some (f', d') ↦ some (record f' { f_size = newsize }, d')
    ]
