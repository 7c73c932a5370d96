-- ===== src/Vm/Access/Hits.antt =====
-- Which look-ups hit the TLB, and what a store through a hit leaves.
use backup_gatech.Common.{
  ℕ, suc, ◌+◌, ◌/◌, ◌≡◌, none, some, List, [], ◌∷◌, Bool, true, ◌&&◌, arith, refl, ltb, set, ◌*◌,
  ◌%◌, ◌<◌,
}
use backup_gatech.Vm.{Sizes, Tlbe, Machine, tlb_clearall, cleared_tlbe, proc_switch}
use backup_gatech.Vm.Access.{tlb_find, tlb_lookup, mem_store}

tlb_find-clearall :
    (m : Machine) (p v : ℕ) (ts : List Tlbe) → tlb_find m p v (tlb_clearall ts) ≡ some none
unfolding tlb_find tlb_clearall cleared_tlbe
tlb_find-clearall m p v [] = refl
tlb_find-clearall m p v (t ∷ ts) = tlb_find-clearall m p v ts

-- proc_switch to a process that was forked succeeds; the process then runs, and no look-up of any
-- page hits the TLB.
pub proc_switch-misses :
    (z : Sizes) (p : ℕ) (m : Machine)
    → p < z.max_jobs
    → m.forked p ≡ true
    → (m' : Machine) × (proc_switch z p m ≡ some m')
      × (m'.current ≡ some p)
      × ((q v : ℕ) → tlb_find m' q v m'.tlb ≡ some none)
unfolding proc_switch
proc_switch-misses z p m l f =
    let e : ltb p z.max_jobs && m.forked p ≡ true = ground arith in
    let m' = record m { current = some p; tlb = tlb_clearall m.tlb } in
    (m', rw (e, proc_switch) refl, refl, λ q v. tlb_find-clearall m' q v m.tlb)

tlb_lookup-hit :
    (z : Sizes) (v : ℕ) (w : Bool) (p f : ℕ) (m : Machine)
    → m.current ≡ some p
    → tlb_find m p v m.tlb ≡ some (some f)
    → tlb_lookup z v w m
      ≡ some (f, record m { counts = record m.counts { tlbhits = suc m.counts.tlbhits } })
unfolding tlb_lookup
tlb_lookup-hit z v w p f m cur hit = ground (arith, cur, hit)

-- A store to a page that hits the TLB writes the frame, and does not mark the page in the page
-- table: a page that was not dirty before it is not dirty after it.
pub mem_store-unmarked :
    (z : Sizes) (va b p f : ℕ) (m : Machine)
    → m.current ≡ some p
    → tlb_find m p (va / z.page_size) m.tlb ≡ some (some f)
    → (m' : Machine) × (mem_store z va b m ≡ some m')
      × (m'.memory ≡ set m.memory (f * z.page_size + va % z.page_size) b)
      × (m'.tables ≡ m.tables)
unfolding mem_store
mem_store-unmarked z va b p f m cur hit = (
  record m {
    memory = set m.memory (f * z.page_size + va % z.page_size) b;
    counts = record m.counts { tlbhits = suc m.counts.tlbhits; writes = suc m.counts.writes };
  },
  rw (tlb_lookup-hit z (va / z.page_size) true p f m cur hit, mem_store) refl,
  refl,
  refl,
)
