-- ===== src/Syscall/Tests.antt =====
-- The theorems on system calls at the machine of Pages/Samples.
use backup_gatech.Common.{ℕ, ◌≡◌, none, some, [], ◌∷◌, true, refl, arith}
use backup_gatech.Env.{env_at, envid2env, zero_env, running, not_runnable}
use backup_gatech.Swap.Frames.Chains.{Represents}
use backup_gatech.Pages.{zero_pte}
use backup_gatech.Pages.FreeList.{IsFreeList}
use backup_gatech.Pages.Samples.{system, memory-IsFreeList, table-Walks}
use backup_gatech.Pages.Swap.{System}
use backup_gatech.Pages.Tables.{page_lookup}
use backup_gatech.Syscall.{ok, e_ipc_not_recv, sys_page_alloc, sys_page_map}
use backup_gatech.Syscall.Grant.{Request, sys_page_alloc-maps}
use backup_gatech.Syscall.Share.{Source, Target, sys_page_map-shares}
use backup_gatech.Syscall.Ipc.{sys_ipc_try_send}
use backup_gatech.Syscall.Ipc.Delivery.{Delivered, sys_ipc_try_send-Delivered}

request : Request 0x1000 0 1 0x2000 2 4 7 (5 ∷ []) system
unfolding envid2env env_at
request = record {
  perm_ok = refl;
  user_page = refl;
  found = refl;
  pgdir = refl;
  walks = record { present = refl; table = refl; in_memory = omega arith };
  empty = refl;
  free = memory-IsFreeList;
  not_dir = omega arith;
  other_dir = omega arith;
  other_table = omega arith;
  in_memory = omega arith;
  bit10 = refl;
}

sys_page_alloc-maps_example :
    (s' : System) × (sys_page_alloc 1 0x1000 0x2000 7 system ≡ some (ok 0, s'))
    × (page_lookup 1 1 0x2000 s' ≡ some (some (4, 2, 2), s'))
    × ((j : ℕ) → s'.memory.words 4 j ≡ zero_pte)
    × ((s'.memory.pages 4).pp_ref ≡ 1)
    × IsFreeList s'.memory (5 ∷ [])
    × Represents s'.rlt (3 ∷ 4 ∷ [])
    × ((s'.rlt.pool 4).va ≡ 0x2000)
    × ((s'.rlt.pool 4).envid ≡ 0x1000)
sys_page_alloc-maps_example =
    sys_page_alloc-maps 0 0x1000 0 1 0x2000 2 4 7 (5 ∷ []) system request (3 ∷ [])
      (refl, refl, refl) refl (omega arith) (omega arith)

source : Source 0x1000 0 1 0x1000 2 3 7 system
unfolding envid2env env_at
source = record {
  user_page = refl;
  found = refl;
  pgdir = refl;
  walks = table-Walks;
  maps = record { present = refl; not_on_disk = refl; in_memory = omega arith };
  frame = refl;
  writable = refl;
}

target : Target 0x1000 0 1 0x3000 2 3 7 system
unfolding envid2env env_at
target = record {
  found = refl;
  pgdir = refl;
  insertable = record {
    walks = record { present = refl; table = refl; in_memory = omega arith };
    not_dir = omega arith;
    in_memory = omega arith;
    perm12 = omega arith;
    bit10 = refl;
  };
  empty = refl;
}

sys_page_map-shares_example :
    (s' : System) × (sys_page_map 1 0x1000 0x1000 0x1000 0x3000 7 system ≡ some (ok 0, s'))
    × (page_lookup 1 1 0x1000 s' ≡ some (some (3, 2, 1), s'))
    × (page_lookup 1 1 0x3000 s' ≡ some (some (3, 2, 3), s'))
    × ((s'.memory.pages 3).pp_ref ≡ 2)
    × IsFreeList s'.memory (4 ∷ 5 ∷ [])
sys_page_map-shares_example =
    sys_page_map-shares 1 0x1000 0 1 0x1000 2 0x1000 0 1 0x3000 2 3 7 system source target 1
      (4 ∷ 5 ∷ []) (omega arith) memory-IsFreeList refl refl (omega arith)

-- Environment 1 waits for a message.
abbrev talking : System
talking = record system {
  kernel = record {
    envs =
        record zero_env { env_id = 0x1000; env_status = running; env_pgdir = some 1 }
        ∷ record zero_env { env_id = 0x1001; env_status = not_runnable; env_ipc_recving = true }
        ∷ [];
    env_free_list = none;
    curenv = some 0;
  };
}

sys_ipc_try_send-Delivered_example :
    (s' : System) × (sys_ipc_try_send 1 0x1001 42 0xf0000000 0 talking ≡ some (ok 0, s'))
    × Delivered 1 0x1000 42 talking s'
    × (sys_ipc_try_send 1 0x1001 43 0xf0000000 0 s' ≡ some (e_ipc_not_recv, s'))
unfolding envid2env env_at
sys_ipc_try_send-Delivered_example =
    sys_ipc_try_send-Delivered 1 0x1001 1 0 42 43 0xf0000000 0 talking (omega arith) refl refl refl
      (omega arith) (omega arith) (omega arith)
