-- ===== src/Pages/Tables/Tests.antt =====
-- The theorems on page tables at the machine of Pages/Samples.
use backup_gatech.Common.{◌≡◌, none, some, [], ◌∷◌, true, refl, arith}
use backup_gatech.Pages.Samples.{system, memory-IsFreeList, table-Walks}
use backup_gatech.Pages.Swap.{System}
use backup_gatech.Pages.Tables.{page_remove, page_lookup, pgdir_walk}
use backup_gatech.Pages.Tables.Lookup.{Used, Removed, page_lookup-page_remove}
use backup_gatech.Pages.Tables.Create.{Created, pgdir_walk-Created}

page_3-Used : Used 3 0 (4 ∷ 5 ∷ []) system.memory
page_3-Used = record { pp_ref = refl; small = omega arith; pp_link = refl; not_free = refl }

page_lookup-page_remove_example :
    (s' : System) × (page_remove 1 1 0x1000 system ≡ some s')
    × (page_lookup 1 1 0x1000 s' ≡ some (none, s'))
    × Removed 2 1 0 (4 ∷ 5 ∷ []) system s'
page_lookup-page_remove_example =
    page_lookup-page_remove 1 1 0x1000 2 0 (4 ∷ 5 ∷ []) system table-Walks (omega arith)
      (record { present = refl; not_on_disk = refl; in_memory = omega arith }) memory-IsFreeList
      page_3-Used

pgdir_walk-Created_example :
    (s' : System) × (pgdir_walk 1 1 0x400000 true system ≡ some (some (4, 0), s'))
    × Created 1 0x400000 4 (5 ∷ []) s'
pgdir_walk-Created_example =
    pgdir_walk-Created 0 1 0x400000 4 (5 ∷ []) system refl memory-IsFreeList (omega arith)
      (omega arith)
