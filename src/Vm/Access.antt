-- ===== src/Vm/Access.antt =====
-- Loads and stores of the simulator: tlb_lookup in student-src/tlb-lookup.c, mem_load and mem_store
-- in simulator-src/memory.c, under cs_2200/memory/prj4.
pub mod Hits
use backup_gatech.Common.{
  ℕ, zero, suc, ◌+◌, ◌*◌, ◌/◌, ◌%◌, Option, none, some, List, [], ◌∷◌, Bool, true, false, ◌&&◌, not,
  if◌then◌else◌, ◌==◌, leb, length, get_or, set,
}
use backup_gatech.Vm.{Sizes, Tlbe, RltSlot, Machine, zero_tlbe, no_entry, set_pte}
use backup_gatech.Vm.Replace.{pagetable_lookup}

-- The search of the TLB: the frame of a hit.
unfoldable pub tlb_find : Machine → (p v : ℕ) → List Tlbe → Option (Option ℕ)
tlb_find m p v [] = some none
tlb_find m p v (t ∷ ts) =
    let rest = tlb_find m p v ts in
    if t.is_valid && t.vpn == v
    then elim (get_or m.rlt t.frame no_entry).pcb [
      | none ↦ none
      | some q ↦ if q == p then some (some t.frame) else rest
    ]
    else rest

pub first_invalid : List Tlbe → Option ℕ
first_invalid [] = none
first_invalid (t ∷ ts) =
    if not t.is_valid
    then some 0
    else elim (first_invalid ts) [ none ↦ none | some i ↦ some (suc i) ]

-- The clock sweep of the TLB, from the entry after `i` on: the entry, and the TLB.
pub tlb_sweep : (fuel i : ℕ) → List Tlbe → Option (ℕ × List Tlbe)
tlb_sweep zero i ts = none
tlb_sweep (suc k) i ts =
    let j = if leb (length ts) (suc i) then 0 else suc i in
    let t = get_or ts j zero_tlbe in
    let rest = tlb_sweep k j (set ts j (record t { is_used = false })) in
    if t.is_used then rest else some (j, ts)

pub tlb_victim : Machine → Option (ℕ × List Tlbe)
tlb_victim m = elim (first_invalid m.tlb) [
  | some i ↦ some (i, m.tlb)
  | none ↦ tlb_sweep (suc (length m.tlb)) m.tlb_clock m.tlb
]

-- The entry of a page that was looked up, and its mark in the page table.
pub tlb_fill : (p v f i : ℕ) → (write : Bool) → List Tlbe → Machine → Machine
tlb_fill p v f i w ts m = record m {
  tlb = set ts i (record { vpn = v; frame = f; is_valid = true; is_dirty = w; is_used = true });
  tlb_clock = i;
  tables =
      if w
      then set_pte m.tables p v (record (m.tables p v) { dirty = true; used = true })
      else m.tables;
}

pub tlb_miss : Sizes → (p v : ℕ) → (write : Bool) → Machine → Option (ℕ × Machine)
tlb_miss z p v w m = elim (pagetable_lookup z v w m) [
  | none ↦ none
  | some (f, m') ↦ elim (tlb_victim m') [
    | none ↦ none
    | some (i, ts) ↦ some (f, tlb_fill p v f i w ts m')
  ]
]

pub tlb_lookup : Sizes → (v : ℕ) → (write : Bool) → Machine → Option (ℕ × Machine)
tlb_lookup z v w m = elim m.current [
  | none ↦ none
  | some p ↦ elim (tlb_find m p v m.tlb) [
    | none ↦ none
    | some none ↦ tlb_miss z p v w m
    | some (some f) ↦
        some (f, record m { counts = record m.counts { tlbhits = suc m.counts.tlbhits } })
  ]
]

-- The page number is the address shifted by the logarithm of page_size, the offset what is masked.
pub mem_load : Sizes → (va : ℕ) → Machine → Option (ℕ × Machine)
mem_load z va m = elim (tlb_lookup z (va / z.page_size) false m) [
  | none ↦ none
  | some (f, m') ↦ some (
    get_or m'.memory (f * z.page_size + va % z.page_size) 0,
    record m' { counts = record m'.counts { reads = suc m'.counts.reads } },
  )
]

pub mem_store : Sizes → (va word : ℕ) → Machine → Option Machine
mem_store z va b m = elim (tlb_lookup z (va / z.page_size) true m) [
  | none ↦ none
  | some (f, m') ↦ some (record m' {
    memory = set m'.memory (f * z.page_size + va % z.page_size) b;
    counts = record m'.counts { writes = suc m'.counts.writes };
  })
]
