-- ===== src/Swap/Tests.antt =====
-- The theorems on paging at concrete states.
use backup_gatech.Common.{ℕ, ◌≡◌, none, some, [], ◌∷◌, if◌then◌else◌, ◌==◌, refl, arith}
use backup_gatech.Swap.Frames.{Rlt, on_page_alloc_success, env_destroy_cleanup, walk_tail}
use backup_gatech.Swap.Frames.Chains.{Represents}
use backup_gatech.Swap.Frames.Queue.{alloc, evict, run, queue_run, run-queue_run}
use backup_gatech.Swap.Frames.Relink.{on_page_alloc_success-relinks}
use backup_gatech.Swap.Frames.Cleanup.{env_destroy_cleanup_lem}
use backup_gatech.Swap.Frames.Cleanup.Unlink.{others}

abbrev nothing : Rlt
nothing = record {
  pool = λ j. record { va = 0; envid = 0; next = none; lru_count = 0 };
  in_use_frames = none;
}

-- Frame 3 of environment 4097, then frame 5 of environment 4098.
abbrev two_frames : Rlt
two_frames = record {
  pool = λ j.
      if j == 3
      then record { va = 0x1000; envid = 4097; next = some 5; lru_count = 0 }
      else record { va = 0x2000; envid = 4098; next = none; lru_count = 0 };
  in_use_frames = some 3;
}

-- Frame 5 of environment 4098 alone.
abbrev one_frame : Rlt
one_frame = record two_frames { in_use_frames = some 5 }

two_frames-Represents : Represents two_frames (3 ∷ 5 ∷ [])
two_frames-Represents = (refl, refl, (refl, refl, refl))

one_frame-Represents : Represents one_frame (5 ∷ [])
one_frame-Represents = (refl, refl, refl)

run-queue_run_example :
    run
      (alloc 0x1000 4097 0x3000 ∷ alloc 0x2000 4098 0x5000 ∷ evict ∷ alloc 0 1 0x3000 ∷ evict ∷ [])
      nothing
    ≡ some (3 ∷ 5 ∷ [])
unfolding queue_run
run-queue_run_example =
    run-queue_run
      (alloc 0x1000 4097 0x3000 ∷ alloc 0x2000 4098 0x5000 ∷ evict ∷ alloc 0 1 0x3000 ∷ evict ∷ [])
      nothing [] (3 ∷ 5 ∷ []) refl refl

env_destroy_cleanup_example :
    (s' : Rlt) × (env_destroy_cleanup 4097 two_frames ≡ some s') × Represents s' (5 ∷ [])
unfolding others
env_destroy_cleanup_example =
    env_destroy_cleanup_lem 4097 two_frames (3 ∷ 5 ∷ []) two_frames-Represents (omega arith)
      (λ e. cc)

on_page_alloc_success-relinks_example :
    (s' : Rlt) × (on_page_alloc_success 0x6000 4098 0x5000 one_frame ≡ some s')
    × (s'.in_use_frames ≡ some 5)
    × ((s'.pool 5).next ≡ some 5)
    × ((k : ℕ) → walk_tail k s'.pool 5 ≡ none)
on_page_alloc_success-relinks_example =
    on_page_alloc_success-relinks 0x6000 4098 0x5000 one_frame one_frame-Represents (omega arith)
