-- ===== src/Pages.antt =====
-- Physical pages and page tables of the kernel, os_final_project/code/kern/pmap.c, and the paging
-- to disk that page_alloc starts, os_final_project/code/kern/paging_utils.c. A physical page is
-- its index in `pages`; a page directory or table is the page that holds it; a 32-bit word of
-- memory is read as an entry, its upper 20 bits and its lower 12. `none` is a panic or a fault of
-- the kernel. Pages/Swap has page_alloc with paging, Pages/Tables the page tables.
pub mod FreeList
pub mod References
pub mod Init
pub mod Swap
pub mod Walks
pub mod Tables
pub mod Check
pub mod Samples
mod Tests
use backup_gatech.Common.{
  ℕ, zero, suc, ◌+◌, ◌-◌, ◌*◌, ◌/◌, ◌%◌, ◌^◌, Option, none, some, Bool, true, false, ◌&&◌, ◌||◌,
  not, if◌then◌else◌, ◌==◌, ltb,
}

pub record Pte : Type 0 where
  pub frame : ℕ
  pub flags : ℕ

pub record PageInfo : Type 0 where
  pub pp_ref : ℕ
  pub pp_link : Option ℕ

pub record Memory : Type 0 where
  pub npages : ℕ
  pub pages : ℕ → PageInfo
  pub page_free_list : Option ℕ
  pub words : ℕ → ℕ → Pte

abbrev pub zero_pte : Pte
zero_pte = record { frame = 0; flags = 0 }

-- pte & PTE_P
abbrev pub is_present : Pte → Bool
is_present e = e.flags % 2 == 1

-- pte & PTE_ON_DISK: bit 10, the bit that PTE_SHARE of inc/lib.h has as well.
abbrev pub is_on_disk : Pte → Bool
is_on_disk e = e.flags / 1024 % 2 == 1

abbrev pub pdx : ℕ → ℕ
pdx va = va / 2 ^ 22 % 1024

abbrev pub ptx : ℕ → ℕ
ptx va = va / 2 ^ 12 % 1024

pub put_page : (ℕ → PageInfo) → ℕ → PageInfo → ℕ → PageInfo
put_page f p e q = if q == p then e else f q

pub put_word : (ℕ → ℕ → Pte) → (p i : ℕ) → Pte → ℕ → ℕ → Pte
put_word ws p i e q j = if (q == p) && j == i then e else ws q j

pub fill_page : (ℕ → ℕ → Pte) → (p : ℕ) → (ℕ → Pte) → ℕ → ℕ → Pte
fill_page ws p bytes q j = if q == p then bytes j else ws q j

-- page_alloc when a page is free, with or without ALLOC_ZERO; `none` when none is free.
pub take_page : Bool → Memory → Option (ℕ × Memory)
take_page clear m = elim m.page_free_list [
  | none ↦ none
  | some p ↦ some (
    p,
    record m {
      page_free_list = (m.pages p).pp_link;
      pages = put_page m.pages p (record (m.pages p) { pp_link = none });
      words = if clear then fill_page m.words p (λ j. zero_pte) else m.words;
    },
  )
]

abbrev pub is_null : Option ℕ → Bool
is_null none = true
is_null (some p) = false

pub page_free : ℕ → Memory → Option Memory
page_free p m =
    if ((m.pages p).pp_ref == 0) && is_null (m.pages p).pp_link
    then some (record m {
      pages = put_page m.pages p (record (m.pages p) { pp_link = m.page_free_list });
      page_free_list = some p;
    })
    else none

-- pp_ref is a uint16_t.
pub add_ref : ℕ → Memory → Memory
add_ref p m = record m {
  pages = put_page m.pages p (record (m.pages p) { pp_ref = ((m.pages p).pp_ref + 1) % 65536 });
}

pub drop_ref : ℕ → Memory → Memory
drop_ref p m = record m {
  pages = put_page m.pages p (record (m.pages p) { pp_ref = ((m.pages p).pp_ref + 65535) % 65536 });
}

pub page_decref : ℕ → Memory → Option Memory
page_decref p m =
    if ((drop_ref p m).pages p).pp_ref == 0 then page_free p (drop_ref p m) else some (drop_ref p m)

-- A loop of page_init, for `rounds` pages from `i` on; 7 is the page of MPENTRY_PADDR.
pub free_from : (rounds i : ℕ) → Memory → Memory
free_from zero i m = m
free_from (suc k) i m = free_from k (suc i) (
    if i == 7 then m else record m {
      pages = put_page m.pages i (record { pp_ref = 0; pp_link = m.page_free_list });
      page_free_list = some i;
    })

-- `kernel_end` is the first page after what boot_alloc gave out.
pub page_init : (npages_basemem kernel_end : ℕ) → Memory → Memory
page_init base kernel_end m =
    free_from (m.npages - kernel_end) kernel_end
      (free_from (base - 1) 1 (record m { page_free_list = none }))

-- pgdir_walk without `create`: the word that is the entry for `va`, `some none` for NULL. KADDR
-- panics at a page that does not exist.
pub find_pte : (pgdir va : ℕ) → Memory → Option (Option (ℕ × ℕ))
find_pte d va m =
    let e = m.words d (pdx va) in
    if not (is_present e)
    then some none
    else if ltb e.frame m.npages
    then some (some (e.frame, ptx va))
    else none
