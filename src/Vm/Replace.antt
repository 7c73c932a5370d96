-- ===== src/Vm/Replace.antt =====
-- Page faults of the simulator: get_free_frame in page-replacement.c, pagefault_handler in
-- page-fault.c and pagetable_lookup in page-lookup.c, under cs_2200/memory/prj4/student-src.
pub mod Clock
pub mod Faults
use backup_gatech.Common.{
  ℕ, zero, suc, ◌%◌, ◌^◌, Option, none, some, List, [], ◌∷◌, Bool, true, false, ◌||◌, if◌then◌else◌,
  ltb, leb, get_or, set, get_elem?,
}
use backup_gatech.Vm.{
  Sizes, Pte, RltSlot, Machine, no_entry, num_frames, set_pte, tlb_clearone, page_to_disk,
  page_from_disk,
}

-- `for (i = 0; i < CPU_NUM_FRAMES; i++) if (rlt[i].pcb == NULL) return i;`
pub first_free : List RltSlot → Option ℕ
first_free [] = none
first_free (e ∷ es) = elim e.pcb [
  | none ↦ some 0
  | some p ↦ elim (first_free es) [ none ↦ none | some i ↦ some (suc i) ]
]

-- The clock sweep from frame `i` on.
pub sweep : (fuel : ℕ) → Sizes → (i : ℕ) → Machine → Option (ℕ × Machine)
sweep zero z i m = none
sweep (suc k) z i m = elim (get_elem? m.rlt i) [
  | none ↦ none
  | some e ↦ elim e.pcb [
    | none ↦ none
    | some p ↦
        let pte = m.tables p e.page in
        let rest =
          sweep k z (if leb (num_frames z) (suc i) then 0 else suc i)
            (record m { tables = set_pte m.tables p e.page (record pte { used = false }) }) in
        if pte.used then rest else some (i % 2 ^ 16, record m { clock = suc i })
  ]
]

-- A round of the sweep and one step more. What is returned is a pfn_t, of 16 bits.
pub get_free_frame : Sizes → Machine → Option (ℕ × Machine)
get_free_frame z m = elim (first_free m.rlt) [
  | some i ↦ some (i % 2 ^ 16, m)
  | none ↦ sweep (suc (num_frames z)) z m.clock m
]

-- The page that frame `f` holds leaves it.
pub evict : Sizes → ℕ → Machine → Machine
evict z f m =
    let e = get_or m.rlt f no_entry in
    elim e.pcb [
      | none ↦ m
      | some p ↦
          let pte = m.tables p e.page in
          let saved = if pte.dirty then page_to_disk z f e.page p m else m in
          if pte.valid
          then record saved {
            tables = set_pte m.tables p e.page (record pte { valid = false });
            tlb = tlb_clearone e.page m.tlb;
          }
          else m
    ]

-- The page `v` of process `p` enters frame `f`.
pub page_in : Sizes → (v : ℕ) → (write : Bool) → (f p : ℕ) → Machine → Machine
page_in z v w f p m = page_from_disk z f v p (record m {
  rlt = set m.rlt f (record { pcb = some p; page = v });
  tables = set_pte m.tables p v (record { pfn = f; valid = true; dirty = w; used = true });
})

pub pagefault_handler : Sizes → (v : ℕ) → (write : Bool) → Machine → Option (ℕ × Machine)
pagefault_handler z v w m = elim m.current [
  | none ↦ none
  | some p ↦ elim (get_free_frame z m) [
    | none ↦ none
    | some (f, m') ↦
        if ltb f (num_frames z) then some (f, page_in z v w f p (evict z f m')) else none
  ]
]

-- The entry of the page once it is in memory: marked, and its frame.
pub mark_pte : (p v : ℕ) → (write : Bool) → Machine → ℕ × Machine
mark_pte p v w m =
    let pte = m.tables p v in
    (
      pte.pfn,
      record m {
        tables = set_pte m.tables p v (record pte { dirty = w || pte.dirty; used = true });
      },
    )

pub pagetable_lookup : Sizes → (v : ℕ) → (write : Bool) → Machine → Option (ℕ × Machine)
pagetable_lookup z v w m = elim m.current [
  | none ↦ none
  | some p ↦
      let fault =
        pagefault_handler z v w
          (record m { counts = record m.counts { pagefaults = suc m.counts.pagefaults } }) in
      if (m.tables p v).valid
      then some (mark_pte p v w m)
      else elim fault [ none ↦ none | some (f, m') ↦ some (mark_pte p v w m') ]
]
