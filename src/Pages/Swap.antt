-- ===== src/Pages/Swap.antt =====
-- Paging to disk: page_to_disk, page_fault_intercept and handle_out_of_pages of
-- os_final_project/code/kern/paging_utils.c, and page_alloc of os_final_project/code/kern/pmap.c,
-- which call each other. The disk holds a block's words; its reads and writes succeed, and go
-- through the page directory that stands in cr3 then. The accessed and dirty bits, which the
-- processor sets in the entries, are taken to be set already.
mod Writes
mod Tests
pub mod RoundTrip
mod Evict
use backup_gatech.Common.{
  ℕ, zero, suc, ◌+◌, ◌-◌, ◌*◌, ◌/◌, ◌%◌, ◌^◌, Option, none, some, List, Bool, true, false, ◌&&◌,
  not, if◌then◌else◌, ◌==◌, ltb,
}
use backup_gatech.Env.{Kernel, env_at, envid2env, env, bad_env, null_deref}
use backup_gatech.Swap.Blocks.{util_init, alloc_blockno}
use backup_gatech.Swap.Frames.{Rlt, remove_victim_page}
use backup_gatech.Pages.{
  Pte, Memory, is_present, pdx, ptx, find_pte, put_word, fill_page, take_page, page_decref,
}

pub record System : Type 0 where
  pub memory : Memory
  pub rlt : Rlt
  pub free_block_bitmap : List ℕ
  pub disk : ℕ → ℕ → Pte
  pub kernel : Kernel
  pub initialized : Bool

-- ROUNDDOWN(va, PGSIZE)
abbrev pub round_down : ℕ → ℕ
round_down va = va / 4096 * 4096

-- The first use of the disk resets the bitmap.
pub ensure_init : System → System
ensure_init s =
    if s.initialized then s else record s { free_block_bitmap = util_init; initialized = true }

-- The page that the processor finds at `va`; `none` is a page fault.
pub translate : (pgdir va : ℕ) → Memory → Option ℕ
translate d va m = elim (find_pte d va m) [
  | none ↦ none
  | some o ↦ elim o [
    | none ↦ none
    | some (t, i) ↦ if is_present (m.words t i) then some (m.words t i).frame else none
  ]
]

-- ((blockno << 12) | PTE_ON_DISK | (pte & 0xEFF)) & ~PTE_P
pub swapped_out : ℕ → Pte → Pte
swapped_out b e =
    let kept = e.flags - e.flags / 256 % 2 * 256 in
    let marked = kept + (1 - kept / 1024 % 2) * 1024 in record { frame = b; flags = marked / 2 * 2 }

-- pa | ((pte & 0xEFF) & ~PTE_ON_DISK) | PTE_P
pub swapped_in : ℕ → Pte → Pte
swapped_in f e =
    let kept = e.flags - e.flags / 256 % 2 * 256 in
    let cleared = kept - kept / 1024 % 2 * 1024 in record { frame = f; flags = cleared / 2 * 2 + 1 }

abbrev pub set_words : (ℕ → ℕ → Pte) → System → System
set_words ws s = record s { memory = record s.memory { words = ws } }

-- The page at `va` goes to the block: the entry is rewritten, and the page loses its reference.
-- pa2page panics at a page that does not exist, and a shared page panics.
pub write_out : (va blockno t i f : ℕ) → System → Option System
write_out va b t i f s =
    let e = s.memory.words t i in
    let m = record s.memory { words = put_word s.memory.words t i (swapped_out b e) } in
    if not (ltb e.frame s.memory.npages)
    then none
    else if ltb 1 (m.pages e.frame).pp_ref
    then none
    else elim (page_decref e.frame m) [
      | none ↦ none
      | some m' ↦ some (record s {
        memory = m';
        disk = λ c j. if c == b then s.memory.words f j else s.disk c j;
      })
    ]

-- page_to_disk once the bitmap is set up.
pub write_page : (pgdir va blockno : ℕ) → System → Option System
write_page d va b s = elim (find_pte d (round_down va) s.memory) [
  | none ↦ none
  | some o ↦ elim o [
    | none ↦ none
    | some (t, i) ↦ elim (translate d (round_down va) s.memory) [
      | none ↦ none
      | some f ↦ write_out va b t i f s
    ]
  ]
]

pub page_to_disk : (pgdir va blockno : ℕ) → System → Option System
page_to_disk d va b s = write_page d va b (ensure_init s)

-- The page directory of the environment with that id; `none` where the code reads through NULL.
pub pgdir_of : ℕ → Kernel → Option ℕ
pgdir_of id k = elim (envid2env id false k) [
  | env o ↦ elim o [ none ↦ none | some i ↦ (env_at k.envs i).env_pgdir ]
  | bad_env ↦ none
  | null_deref ↦ none
]

-- The queue without the victim, and the bitmap after alloc_blockno.
abbrev pub after_victim : Rlt → System → System
after_victim rlt s = record s {
  rlt = rlt;
  free_block_bitmap = (alloc_blockno s.free_block_bitmap).1;
}

-- handle_out_of_pages up to the call of page_alloc at its end; `false` when no block is free.
pub evict_page : System → Option (Bool × System)
evict_page s = elim (remove_victim_page s.rlt) [
  | none ↦ none
  | some (v, rlt) ↦ elim (alloc_blockno s.free_block_bitmap).0 [
    | none ↦ some (false, after_victim rlt s)
    | some b ↦ elim (pgdir_of (rlt.pool v).envid s.kernel) [
      | none ↦ none
      | some d ↦ elim (page_to_disk d (rlt.pool v).va b (after_victim rlt s)) [
        | none ↦ none
        | some s' ↦ some (true, s')
      ]
    ]
  ]
]

-- page_alloc and handle_out_of_pages, which calls it again. The fuel bounds these calls.
pub page_alloc : (fuel : ℕ) → (clear : Bool) → System → Option (Option ℕ × System)
page_alloc zero clear s = none
page_alloc (suc k) clear s = elim (take_page clear s.memory) [
  | some (p, m) ↦ some (some p, record s { memory = m })
  | none ↦
      if s.initialized
      then elim (evict_page s) [
        | none ↦ none
        | some (stored, s') ↦ if stored then page_alloc k clear s' else some (none, s')
      ]
      else some (none, s)
]

-- pte & PTE_W
abbrev pub is_writable : Pte → Bool
is_writable e = e.flags / 2 % 2 == 1

-- The page that the processor finds at `va` for a write; CR0_WP is set, so that the kernel faults
-- on a page that the directory or its table has without PTE_W.
pub translate_write : (pgdir va : ℕ) → Memory → Option ℕ
translate_write d va m = elim (find_pte d va m) [
  | none ↦ none
  | some o ↦ elim o [
    | none ↦ none
    | some (t, i) ↦
        if is_writable (m.words d (pdx va))
          && (is_present (m.words t i) && is_writable (m.words t i))
        then some (m.words t i).frame
        else none
  ]
]

-- block_from_disk: the words go where the processor finds `va`. The write sets the accessed bits of
-- the two entries and the dirty bit of the last, which are set already here.
pub read_page : (pgdir va blockno : ℕ) → System → Option System
read_page d va b s = elim (translate_write d va s.memory) [
  | none ↦ none
  | some f ↦ some (set_words (fill_page s.memory.words f (s.disk b)) s)
]

-- The page at `va` comes back from the disk. The entry is that of the current environment's
-- directory, the words are read through `pgdir`.
pub read_in : (pgdir va p t i : ℕ) → System → Option System
read_in d va p t i s =
    let e = s.memory.words t i in
    read_page d va e.frame
      (ensure_init (set_words (put_word s.memory.words t i (swapped_in p e)) s))

pub current_pgdir : Kernel → Option ℕ
current_pgdir k = elim k.curenv [ none ↦ none | some c ↦ (env_at k.envs c).env_pgdir ]

-- The entry of the page table that the current environment's directory names, present or not,
-- gets the frame; `va` is rounded down.
pub give_frame : (pgdir va p : ℕ) → System → Option System
give_frame d va p s = elim (current_pgdir s.kernel) [
  | none ↦ none
  | some c ↦
      let t = (s.memory.words c (pdx va)).frame in
      if ltb t s.memory.npages then read_in d va p t (ptx va) s else none
]

pub page_fault_intercept : (fuel pgdir fault_va : ℕ) → System → Option System
page_fault_intercept k d va s = elim (page_alloc k false s) [
  | none ↦ none
  | some (o, s') ↦ elim o [ none ↦ none | some p ↦ give_frame d (round_down va) p s' ]
]
