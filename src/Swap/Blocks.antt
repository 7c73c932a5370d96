-- ===== src/Swap/Blocks.antt =====
-- The allocator of swap blocks: `free_block_bitmap`, `util_init`, `alloc_blockno` and
-- `free_blockno` of os_final_project/code/kern/paging_utils.c.
pub mod Laws
pub mod Runs
use backup_gatech.Common.{
  ℕ, zero, suc, ◌+◌, ◌-◌, ◌^◌, Option, none, some, List, replicate, bit_at, set_bit_at,
  clear_bit_at,
}
use backup_gatech.Bitmap.{first_set}

-- `NBLOCKS`: (128 << 20) / 4096.
abbrev pub nblocks : ℕ
nblocks = 32768

-- `memset(free_block_bitmap, -1, sizeof(free_block_bitmap))` over NBLOCKS/32 + 1 words.
pub util_init : List ℕ
util_init = replicate 1025 (2 ^ 32 - 1)

-- The bitmap afterwards, with `some b` for `*blockno = b; return 0` and `none` for `return -1`.
pub alloc_blockno : List ℕ → Option ℕ × List ℕ
alloc_blockno ws = elim (first_set ws nblocks 0) [
  | none ↦ (none, ws)
  | some i ↦ (some i, clear_bit_at ws i)
]

pub free_blockno : List ℕ → ℕ → List ℕ
free_blockno ws blockno = set_bit_at ws blockno
