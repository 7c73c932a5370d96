-- ===== src/Pages/Swap/Tests.antt =====
-- The theorems on paging to disk at the machine of Pages/Samples.
use backup_gatech.Common.{ℕ, ◌≡◌, none, some, [], ◌∷◌, true, refl, arith}
use backup_gatech.Env.{env_at, envid2env}
use backup_gatech.Swap.Blocks.Runs.{util_init-first}
use backup_gatech.Swap.Frames.{
  Rlt, update, remove_victim_page, remove_victim_page_fifo, unlink_head,
}
use backup_gatech.Pages.FreeList.{IsFreeList}
use backup_gatech.Pages.Samples.{
  system, full_system, sample_words, memory-IsFreeList, full_memory-IsFreeList, table-Walks,
}
use backup_gatech.Pages.Swap.{
  System, current_pgdir, pgdir_of, page_to_disk, page_fault_intercept, page_alloc,
}
use backup_gatech.Pages.Swap.RoundTrip.{page_fault_intercept-page_to_disk}
use backup_gatech.Pages.Swap.Evict.{Victim, IsMarked, page_alloc-evict_page}

current : current_pgdir system.kernel ≡ some 1
unfolding current_pgdir env_at
current = refl

page_fault_intercept-page_to_disk_example :
    (s1 : System) × (s2 : System) × (page_to_disk 1 0x1234 9 system ≡ some s1)
    × (page_fault_intercept 1 1 0x1234 s1 ≡ some s2)
    × ((q j : ℕ) → s2.memory.words q j ≡ sample_words q j)
page_fault_intercept-page_to_disk_example =
    page_fault_intercept-page_to_disk 0 1 0x1234 9 2 (4 ∷ 5 ∷ []) system refl current (omega arith)
      table-Walks
      (record { present = refl; in_memory = omega arith; pp_ref = refl; pp_link = refl })
      (record {
        present = refl;
        bit8 = refl;
        bit10 = refl;
        writable = refl;
        accessed = refl;
        dirty = refl;
        dir_writable = refl;
        dir_accessed = refl;
      })
      memory-IsFreeList refl

-- The queue without page 3.
abbrev after : Rlt
after = record { pool = update system.rlt.pool 3 (system.rlt.pool 3); in_use_frames = none }

victim : Victim 3 0 1 2 after full_system
unfolding remove_victim_page remove_victim_page_fifo unlink_head update pgdir_of envid2env env_at
victim = record {
  removed = refl;
  block = util_init-first;
  pgdir = refl;
  walks = table-Walks;
  alone = record { present = refl; in_memory = omega arith; pp_ref = refl; pp_link = refl };
}

page_alloc-evict_page_example :
    (s' : System) × (page_alloc 2 true full_system ≡ some (some 3, s'))
    × ((j : ℕ) → s'.disk 0 j ≡ sample_words 3 j)
    × IsMarked 0 (s'.memory.words 2 1)
    × IsFreeList s'.memory []
unfolding update
page_alloc-evict_page_example =
    page_alloc-evict_page 0 3 0 1 2 true after full_system refl full_memory-IsFreeList victim
      (omega arith)
