-- ===== src/Swap/Blocks/Laws.antt =====
-- What one call of `alloc_blockno` or `free_blockno` does, for every bitmap.
use backup_gatech.Common.{
  ℕ, ◌*◌, ◌≤◌, ◌<◌, ◌≡◌, Option, none, some, List, true, false, arith, refl, inl, inr,
  if◌then◌else◌, ◌==◌, bit_at, length, bit_at-clear_bit_at, bit_at-set_bit_at, Option-cases,
  length-clear_bit_at, length-set_bit_at,
}
use backup_gatech.Bitmap.{first_set, first_set-some, first_set-least, first_set-none, first_set-eq}
use backup_gatech.Swap.Blocks.{nblocks, alloc_blockno, free_blockno}

-- The array has a bit for every block.
abbrev pub HasBlocks : List ℕ → Type 0
HasBlocks ws = nblocks ≤ 32 * length ws

-- What an allocation must do: take the lowest free block and no other, or fail when none is free.
abbrev pub Allocates : List ℕ → Option ℕ → List ℕ → Type 0
Allocates ws none ws' = (ws' ≡ ws) × ((j : ℕ) → j < nblocks → bit_at ws j ≡ false)
Allocates ws (some b) ws' =
    (b < nblocks)
    × (bit_at ws b ≡ true)
    × ((j : ℕ) → j < b → bit_at ws j ≡ false)
    × ((j : ℕ) → bit_at ws' j ≡ (if b == j then false else bit_at ws j))

-- If the bitmap has a bit for every block, `alloc_blockno` returns the lowest free block and
-- clears the bit of that block alone; it returns -1, and changes nothing, only when no block is
-- free.
pub alloc_blockno_lem :
    (ws : List ℕ) → HasBlocks ws → Allocates ws (alloc_blockno ws).0 (alloc_blockno ws).1
unfolding alloc_blockno
alloc_blockno_lem ws h = elim (Option-cases (first_set ws nblocks 0)) [
  | inl e ↦
      rw (e, alloc_blockno, Allocates)
        (refl, λ j l. first_set-none ws nblocks 0 j e (omega arith) (omega arith))
  | inr (b, e) ↦
      let found = first_set-some ws nblocks 0 {b = b} e in
      rw (e, alloc_blockno, Allocates)
        (
          omega arith,
          found.2,
          λ j l. first_set-least ws nblocks 0 j {b = b} e (omega arith) l,
          λ j. bit_at-clear_bit_at ws b j (omega arith),
        )
]

pub alloc_blockno-HasBlocks : (ws : List ℕ) → HasBlocks ws → HasBlocks (alloc_blockno ws).1
unfolding alloc_blockno
alloc_blockno-HasBlocks ws h = elim (Option-cases (first_set ws nblocks 0)) [
  | inl e ↦ rw (e, alloc_blockno) h
  | inr (b, e) ↦ rw (e, alloc_blockno) (omega (arith, length-clear_bit_at ws b))
]

-- Freeing a block in range sets its bit and no other.
pub free_blockno_lem :
    (ws : List ℕ) (b j : ℕ)
    → HasBlocks ws
    → b < nblocks
    → bit_at (free_blockno ws b) j ≡ (if b == j then true else bit_at ws j)
unfolding free_blockno
free_blockno_lem ws b j h l = bit_at-set_bit_at ws b j (omega arith)

pub free_blockno-HasBlocks : (ws : List ℕ) (b : ℕ) → HasBlocks ws → HasBlocks (free_blockno ws b)
unfolding free_blockno
free_blockno-HasBlocks ws b h = omega (arith, length-set_bit_at ws b)

-- If the bitmap has a bit for every block, a block that is allocated and freed again leaves
-- every block as it was before.
pub free_blockno-alloc_blockno :
    (ws : List ℕ) (b j : ℕ)
    → HasBlocks ws
    → (alloc_blockno ws).0 ≡ some b
    → bit_at (free_blockno (alloc_blockno ws).1 b) j ≡ bit_at ws j
free_blockno-alloc_blockno ws b j h e =
    let spec : Allocates ws (some b) (alloc_blockno ws).1 = rw e at (alloc_blockno_lem ws h) in
    ground (
      arith,
      free_blockno_lem (alloc_blockno ws).1 b j (alloc_blockno-HasBlocks ws h) spec.0,
      spec.3 j,
      spec.1,
    )

-- The block that is allocated, from the blocks below it.
pub alloc_blockno-eq :
    (k : ℕ) (ws : List ℕ)
    → HasBlocks ws
    → k < nblocks
    → bit_at ws k ≡ true
    → ((j : ℕ) → j < k → bit_at ws j ≡ false)
    → (alloc_blockno ws).0 ≡ some k
unfolding alloc_blockno
alloc_blockno-eq k ws h l set clear = rw (
  first_set-eq ws nblocks 0 k (omega arith) (omega arith) set (λ j _ m. clear j m),
  alloc_blockno,
)
