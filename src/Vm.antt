-- ===== src/Vm.antt =====
-- The virtual memory simulator, cs_2200/memory/prj4: page tables, the TLB, the swap file and the
-- processes in simulator-src, and the student's pagefault_handler, pagetable_lookup,
-- get_free_frame and tlb_lookup in student-src. One machine holds all of them; a page table is a
-- function of the page number, a process is its pid. `none` is a failed assertion, an index
-- outside the reverse lookup table, or a NULL owner. Vm/Replace has the page faults, Vm/Access the
-- loads and stores.
pub mod Disk
pub mod Replace
pub mod Access
mod Tests
use backup_gatech.Common.{
  ℕ, zero, suc, ◌+◌, ◌*◌, ◌/◌, ◌%◌, Option, none, some, List, [], ◌∷◌, ◌++◌, Bool, true, false,
  ◌&&◌, ◌||◌, not, if◌then◌else◌, ◌==◌, ltb, leb, length, get_or, set, get_elem?, take, drop,
  replicate, map,
}

-- page_size, mem_size, tlb_size and max_jobs; page_size is a power of two, and tlb_size is not 0.
pub record Sizes : Type 0 where
  pub page_size : ℕ
  pub mem_size : ℕ
  pub tlb_size : ℕ
  pub max_jobs : ℕ

pub record Pte : Type 0 where
  pub pfn : ℕ
  pub valid : Bool
  pub dirty : Bool
  pub used : Bool

pub record Tlbe : Type 0 where
  pub vpn : ℕ
  pub frame : ℕ
  pub is_valid : Bool
  pub is_dirty : Bool
  pub is_used : Bool

pub record RltSlot : Type 0 where
  pub pcb : Option ℕ
  pub page : ℕ

pub record SwapPage : Type 0 where
  pub pid : ℕ
  pub number : ℕ
  pub bytes : List ℕ

pub record Counts : Type 0 where
  pub pagefaults : ℕ
  pub tlbhits : ℕ
  pub writes : ℕ
  pub reads : ℕ
  pub diskaccesses : ℕ

-- `clock` and `tlb_clock` are the static `old_i` of get_free_frame and tlb_lookup; `forked` tells
-- which processes have a page table.
pub record Machine : Type 0 where
  pub memory : List ℕ
  pub tlb : List Tlbe
  pub rlt : List RltSlot
  pub forked : ℕ → Bool
  pub tables : ℕ → ℕ → Pte
  pub current : Option ℕ
  pub swapfile : List SwapPage
  pub clock : ℕ
  pub tlb_clock : ℕ
  pub counts : Counts

abbrev pub zero_pte : Pte
zero_pte = record { pfn = 0; valid = false; dirty = false; used = false }

abbrev pub zero_tlbe : Tlbe
zero_tlbe = record { vpn = 0; frame = 0; is_valid = false; is_dirty = false; is_used = false }

abbrev pub no_entry : RltSlot
no_entry = record { pcb = none; page = 0 }

abbrev pub num_frames : Sizes → ℕ
num_frames z = z.mem_size / z.page_size

-- mem_init, proc_init and tlb_init.
pub machine_init : Sizes → Machine
machine_init z = record {
  memory = replicate z.mem_size 0;
  tlb = replicate z.tlb_size zero_tlbe;
  rlt = replicate (num_frames z) no_entry;
  forked = λ p. false;
  tables = λ p v. zero_pte;
  current = none;
  swapfile = [];
  clock = 0;
  tlb_clock = 0;
  counts = record { pagefaults = 0; tlbhits = 0; writes = 0; reads = 0; diskaccesses = 0 };
}

pub set_pte : (ℕ → ℕ → Pte) → (p v : ℕ) → Pte → ℕ → ℕ → Pte
set_pte t p v e q w = if (q == p) && w == v then e else t q w

-- The page table of a new process is cleared.
pub proc_fork : Sizes → ℕ → Machine → Option Machine
proc_fork z p m =
    if ltb p z.max_jobs
    then some (record m {
      forked = λ q. if q == p then true else m.forked q;
      tables = λ q v. if q == p then zero_pte else m.tables q v;
    })
    else none

pub cleared_tlbe : Tlbe → Tlbe
cleared_tlbe t = record t { is_valid = false; is_dirty = false; is_used = false }

pub tlb_clearall : List Tlbe → List Tlbe
tlb_clearall [] = []
tlb_clearall (t ∷ ts) = cleared_tlbe t ∷ tlb_clearall ts

pub tlb_clearone : ℕ → List Tlbe → List Tlbe
tlb_clearone v [] = []
tlb_clearone v (t ∷ ts) = (if t.vpn == v then cleared_tlbe t else t) ∷ tlb_clearone v ts

pub proc_switch : Sizes → ℕ → Machine → Option Machine
proc_switch z p m =
    if ltb p z.max_jobs && m.forked p
    then some (record m { current = some p; tlb = tlb_clearall m.tlb })
    else none

pub frame_bytes : Sizes → ℕ → List ℕ → List ℕ
frame_bytes z f mem = take z.page_size (drop (f * z.page_size) mem)

pub write_frame : Sizes → ℕ → List ℕ → List ℕ → List ℕ
write_frame z f bytes mem =
    take (f * z.page_size) mem ++ (bytes ++ drop (f * z.page_size + z.page_size) mem)

abbrev pub count_disk : Counts → Counts
count_disk c = record c { diskaccesses = suc c.diskaccesses }

pub page_to_disk : Sizes → (f v p : ℕ) → Machine → Machine
page_to_disk z f v p m = record m {
  swapfile = record { pid = p; number = v; bytes = frame_bytes z f m.memory } ∷ m.swapfile;
  counts = count_disk m.counts;
}

-- The search of the swap file, and the file without the page that it finds.
pub take_out : (v p : ℕ) → List SwapPage → Option (List ℕ × List SwapPage)
take_out v p [] = none
take_out v p (s ∷ ss) =
    let rest = take_out v p ss in
    if (s.pid == p) && s.number == v
    then some (s.bytes, ss)
    else elim rest [ none ↦ none | some (found, left) ↦ some (found, s ∷ left) ]

pub page_from_disk : Sizes → (f v p : ℕ) → Machine → Machine
page_from_disk z f v p m = elim (take_out v p m.swapfile) [
  | none ↦ record m { memory = write_frame z f (replicate z.page_size 0) m.memory }
  | some (found, left) ↦ record m {
    memory = write_frame z f found m.memory;
    swapfile = left;
    counts = count_disk m.counts;
  }
]
