-- ===== src/Pages/Tests.antt =====
-- The theorems on free pages at the machine of Pages/Samples.
use backup_gatech.Common.{◌≡◌, some, [], ◌∷◌, refl, arith}
use backup_gatech.Pages.{Memory, page_decref}
use backup_gatech.Pages.FreeList.{IsFreeList, SameWords}
use backup_gatech.Pages.References.{page_decref-IsFreeList}
use backup_gatech.Pages.Samples.{memory, memory-IsFreeList}

page_decref-IsFreeList_example :
    (m' : Memory) × (page_decref 3 memory ≡ some m')
    × ((m'.pages 3).pp_ref ≡ 0)
    × IsFreeList m' (3 ∷ 4 ∷ 5 ∷ [])
    × SameWords memory m'
page_decref-IsFreeList_example =
    page_decref-IsFreeList memory 3 0 (4 ∷ 5 ∷ []) memory-IsFreeList refl refl refl (omega arith)
