-- ===== src/Swap/Blocks/Runs.antt =====
-- Runs of allocations: `test_alloc_block` of os_final_project/code/kern/paging_utils.c.
use backup_gatech.Common.{
  ℕ, zero, suc, ◌+◌, ◌≤◌, ◌<◌, ◌≡◌, Option, none, some, List, arith, if◌then◌else◌, ◌==◌, leb, ltb,
  ◌||◌, ◌-◌, ◌^◌, bit_at, length-replicate, bit_at-ones,
}
use native.Mathlib.Nat.{zero-add}
use mathlib.Core.Path.{subst}
use backup_gatech.Swap.Blocks.{nblocks, util_init, alloc_blockno, free_blockno}
use backup_gatech.Swap.Blocks.Laws.{
  alloc_blockno-eq, HasBlocks, Allocates, alloc_blockno_lem, free_blockno_lem,
  alloc_blockno-HasBlocks, free_blockno-HasBlocks,
}

-- `for (i = from; i < from + n; i++)` with its two panics: each allocation must return block `i`.
pub alloc_expecting : (n from : ℕ) → List ℕ → Option (List ℕ)
alloc_expecting zero i ws = some ws
alloc_expecting (suc n) i ws =
    let rest = alloc_expecting n (suc i) (alloc_blockno ws).1 in
    elim (alloc_blockno ws).0 [ none ↦ none | some b ↦ if b == i then rest else none ]

pub free_run : (n from : ℕ) → List ℕ → List ℕ
free_run zero i ws = ws
free_run (suc n) i ws = free_run n (suc i) (free_blockno ws i)

-- The test, for any number of blocks; `none` is a panic.
pub test_alloc_block : ℕ → List ℕ → Option (List ℕ)
test_alloc_block n ws = elim (alloc_expecting n 0 ws) [
  | none ↦ none
  | some ws' ↦ alloc_expecting n 0 (free_run n 0 ws')
]

-- The blocks below `k` are in use, the others are free.
pub record FreeFrom (k : ℕ) (ws : List ℕ) : Type 0 where
  pub blocks : HasBlocks ws
  pub free : (j : ℕ) → j < nblocks → bit_at ws j ≡ leb k j

module _ (k : ℕ) (ws : List ℕ) (f : FreeFrom k ws) (h : k < nblocks) where
  alloc-next : (alloc_blockno ws).0 ≡ some k
  alloc-next =
      alloc_blockno-eq k ws f.blocks h (ground (arith, f.free k)) (λ j l. ground (arith, f.free j))

  alloc-FreeFrom : FreeFrom (suc k) (alloc_blockno ws).1
  alloc-FreeFrom =
      let spec : Allocates ws (some k) (alloc_blockno ws).1 =
        rw alloc-next at (alloc_blockno_lem ws f.blocks) in
      record {
        blocks = alloc_blockno-HasBlocks ws f.blocks;
        free = λ j l. ground (arith, spec.3 j, f.free j);
      }

  alloc_expecting_step :
      (n : ℕ) → alloc_expecting (suc n) k ws ≡ alloc_expecting n (suc k) (alloc_blockno ws).1
  unfolding alloc_expecting
  alloc_expecting_step n = rw (alloc-next, alloc_expecting) (ground arith)

free-FreeFrom :
    (k n : ℕ) (ws : List ℕ)
    → k < nblocks
    → HasBlocks ws
    → ((j : ℕ) → j < nblocks → bit_at ws j ≡ (ltb j k || leb n j))
    → (j : ℕ) → j < nblocks
    → bit_at (free_blockno ws k) j ≡ (ltb j (suc k) || leb n j)
free-FreeFrom k n ws h b f j l = ground (arith, free_blockno_lem ws k j b h, f j)

-- A run that ends without a panic, the blocks below `k` in use.
abbrev pub Reaches : ℕ → Option (List ℕ) → Type 0
Reaches k none = ⊥
Reaches k (some ws) = FreeFrom k ws

alloc_expecting_lem :
    (n k : ℕ) (ws : List ℕ)
    → FreeFrom k ws
    → n + k ≤ nblocks
    → Reaches (n + k) (alloc_expecting n k ws)
unfolding alloc_expecting
alloc_expecting_lem zero k ws f h = rw zero-add f
alloc_expecting_lem (suc n) k ws f h = rw (alloc_expecting_step k ws f (omega arith) n) (
    subst (λ m. Reaches m (alloc_expecting n (suc k) (alloc_blockno ws).1)) (omega arith)
      (alloc_expecting_lem n (suc k) (alloc_blockno ws).1 (alloc-FreeFrom k ws f (omega arith))
        (omega arith)))

-- Blocks below `i` and from `m` on are free.
record FreeOutside (i m : ℕ) (ws : List ℕ) : Type 0 where
  blocks : HasBlocks ws
  free : (j : ℕ) → j < nblocks → bit_at ws j ≡ (ltb j i || leb m j)

free_run_lem :
    (n i m : ℕ) (ws : List ℕ)
    → FreeOutside i m ws
    → n + i ≤ nblocks
    → FreeOutside (n + i) m (free_run n i ws)
unfolding free_run
free_run_lem zero i m ws f h = rw zero-add f
free_run_lem (suc n) i m ws f h =
    subst (λ k. FreeOutside k m (free_run n (suc i) (free_blockno ws i))) (omega arith)
      (free_run_lem n (suc i) m (free_blockno ws i)
        (record {
          blocks = free_blockno-HasBlocks ws i f.blocks;
          free = free-FreeFrom i m ws (omega arith) f.blocks f.free;
        })
        (omega arith))

free_run-FreeFrom :
    (n : ℕ) (ws : List ℕ) → n ≤ nblocks → FreeFrom n ws → FreeFrom 0 (free_run n 0 ws)
free_run-FreeFrom n ws h f =
    let out =
      free_run_lem n 0 n ws (record { blocks = f.blocks; free = λ j l. ground (arith, f.free j) })
        (omega arith) in
    record { blocks = out.blocks; free = λ j l. ground (arith, out.free j l) }

pub util_init-FreeFrom : FreeFrom 0 util_init
unfolding util_init
util_init-FreeFrom = record {
  blocks = omega (arith, length-replicate {0} {A = ℕ} 1025 (2 ^ 32 - 1));
  free = λ j l. ground (arith, bit_at-ones 1025 j);
}

pub util_init-first : (alloc_blockno util_init).0 ≡ some 0
util_init-first = alloc-next 0 util_init util_init-FreeFrom (omega arith)

again_from :
    (n : ℕ) (o : Option (List ℕ))
    → n ≤ nblocks
    → Reaches n o
    → Reaches n (elim o [ none ↦ none | some ws' ↦ alloc_expecting n 0 (free_run n 0 ws') ])
again_from n none h r = r
again_from n (some ws) h r =
    subst (λ m. Reaches m (alloc_expecting n 0 (free_run n 0 ws))) (omega arith)
      (alloc_expecting_lem n 0 (free_run n 0 ws) (free_run-FreeFrom n ws h r) (omega arith))

-- If all blocks are free, `test_alloc_block` does not panic for any number of blocks up to
-- NBLOCKS: it allocates blocks 0, 1, 2, … in order, frees them, and allocates the same blocks
-- again; in the end exactly the first `n` blocks are in use.
pub test_alloc_block_lem :
    (n : ℕ) (ws : List ℕ) → n ≤ nblocks → FreeFrom 0 ws → Reaches n (test_alloc_block n ws)
unfolding test_alloc_block
test_alloc_block_lem n ws h f = again_from n (alloc_expecting n 0 ws) h (
    subst (λ m. Reaches m (alloc_expecting n 0 ws)) (omega arith)
      (alloc_expecting_lem n 0 ws f (omega arith)))
