-- ===== src/Vm/Tests.antt =====
-- The theorems on the simulator at a concrete machine.
use backup_gatech.Common.{
  ℕ, zero, suc, ◌+◌, ◌<◌, ◌≡◌, Option, some, [], ◌∷◌, true, false, arith, refl, get_elem?,
  if◌then◌else◌, ◌==◌,
}
use backup_gatech.Vm.{Sizes, Machine, RltSlot, zero_pte, frame_bytes, page_from_disk, page_to_disk}
use backup_gatech.Vm.Disk.{page_from_disk-page_to_disk}
use backup_gatech.Vm.Replace.{get_free_frame}
use backup_gatech.Vm.Replace.Clock.{IsFull, Swept, get_free_frame-Swept}

-- Two frames of two bytes.
abbrev tiny : Sizes
tiny = record { page_size = 2; mem_size = 4; tlb_size = 1; max_jobs = 2 }

-- Process 0 has page 7 in frame 0, used and written, and page 8 in frame 1, not used; the TLB
-- holds page 8.
abbrev loaded_machine : Machine
loaded_machine = record {
  memory = 1 ∷ 2 ∷ 3 ∷ 4 ∷ [];
  tlb = record { vpn = 8; frame = 1; is_valid = true; is_dirty = false; is_used = true } ∷ [];
  rlt = record { pcb = some 0; page = 7 } ∷ record { pcb = some 0; page = 8 } ∷ [];
  forked = λ p. p == 0;
  tables = λ p v.
      if v == 7
      then record { pfn = 0; valid = true; dirty = true; used = true }
      else if v == 8
      then record { pfn = 1; valid = true; dirty = false; used = false }
      else zero_pte;
  current = some 0;
  swapfile = [];
  clock = 1;
  tlb_clock = 0;
  counts = record { pagefaults = 2; tlbhits = 0; writes = 1; reads = 1; diskaccesses = 0 };
}

slots_full :
    (i : ℕ)
    → i < 2
    → ◌≡◌ {A = Option RltSlot}
        (get_elem? loaded_machine.rlt i)
        (some (record { pcb = some 0; page = 7 + i }))
slots_full zero l = refl
slots_full (suc zero) l = refl
slots_full (suc (suc i)) l = absurd (omega arith)

abbrev loaded-IsFull : IsFull tiny loaded_machine.rlt
loaded-IsFull = record { owner = λ i. 0; page_of = λ i. 7 + i; slots = slots_full; sized = refl }

page_from_disk-page_to_disk_example :
    let m' = page_from_disk tiny 1 7 0 (page_to_disk tiny 0 7 0 loaded_machine) in
    (frame_bytes tiny 1 m'.memory ≡ frame_bytes tiny 0 loaded_machine.memory)
    × (m'.swapfile ≡ [])
    × (m'.counts.diskaccesses ≡ 2)
page_from_disk-page_to_disk_example =
    page_from_disk-page_to_disk tiny 0 1 7 0 loaded_machine (omega arith) (omega arith)

get_free_frame-Swept_example : Swept tiny loaded_machine (get_free_frame tiny loaded_machine)
get_free_frame-Swept_example = get_free_frame-Swept tiny loaded_machine loaded-IsFull (omega arith)
