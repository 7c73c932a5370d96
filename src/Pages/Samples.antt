-- ===== src/Pages/Samples.antt =====
-- A small machine: page 1 is a directory, 2 its table, 3 the page at 0x1000, pages 4 and 5 are
-- free.
use backup_gatech.Common.{ℕ, none, some, [], ◌∷◌, true, ◌&&◌, if◌then◌else◌, ◌==◌, refl, arith}
use backup_gatech.Env.{Kernel, running, zero_env}
use backup_gatech.Swap.Blocks.{util_init}
use backup_gatech.Pages.{Pte, PageInfo, Memory, zero_pte}
use backup_gatech.Pages.Swap.{System}
use backup_gatech.Pages.FreeList.{IsFreeList}
use backup_gatech.Pages.Walks.{Walks}

abbrev pub used_page : PageInfo
used_page = record { pp_ref = 1; pp_link = none }

abbrev pub sample_pages : ℕ → PageInfo
sample_pages p =
    if p == 4
    then record { pp_ref = 0; pp_link = some 5 }
    else if p == 5
    then record { pp_ref = 0; pp_link = none }
    else used_page

-- Both entries are writable, accessed and dirty. The words of page 3 are 0, 1, 2 and so on.
abbrev pub sample_words : ℕ → ℕ → Pte
sample_words p i =
    if (p == 1) && i == 0
    then record { frame = 2; flags = 0x67 }
    else if (p == 2) && i == 1
    then record { frame = 3; flags = 0x67 }
    else if p == 3
    then record { frame = 0; flags = i }
    else zero_pte

abbrev pub memory : Memory
memory = record { npages = 8; pages = sample_pages; page_free_list = some 4; words = sample_words }

-- No page is free: page 4 and 5 are in use as well.
abbrev pub full_memory : Memory
full_memory = record memory { pages = λ p. used_page; page_free_list = none }

abbrev pub one_env : Kernel
one_env = record {
  envs = record zero_env { env_id = 0x1000; env_status = running; env_pgdir = some 1 } ∷ [];
  env_free_list = none;
  curenv = some 0;
}

-- Page 3 is on the list of frames in use.
abbrev pub system : System
system = record {
  memory = memory;
  rlt = record {
    pool = λ j. record { va = 0x1000; envid = 0x1000; next = none; lru_count = 0 };
    in_use_frames = some 3;
  };
  free_block_bitmap = util_init;
  disk = λ b j. zero_pte;
  kernel = one_env;
  initialized = true;
}

abbrev pub full_system : System
full_system = record system { memory = full_memory }

pub memory-IsFreeList : IsFreeList memory (4 ∷ 5 ∷ [])
memory-IsFreeList = record {
  linked = (refl, refl, (refl, refl, refl));
  unused = λ p i. ground arith;
}

pub full_memory-IsFreeList : IsFreeList full_memory []
full_memory-IsFreeList = record { linked = refl; unused = λ p i. absurd (cc) }

pub table-Walks : Walks 1 0x1000 2 sample_words 8
table-Walks = record { present = refl; table = refl; in_memory = omega arith }
