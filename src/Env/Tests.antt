-- ===== src/Env/Tests.antt =====
-- The theorems on environments at concrete tables.
use backup_gatech.Common.{ℕ, zero, suc, ◌≡◌, inr, some, List, [], ◌∷◌, true, refl, arith}
use backup_gatech.Env.{
  Env, Kernel, running, runnable, zero_env, env_at, bad_env, envid2env, env_free, env_alloc,
  env_run, nenv,
}
use backup_gatech.Env.Sched.{runs, sched_yield, start_index}
use backup_gatech.Env.Lookup.{env_free-envid2env}
use backup_gatech.Env.Alloc.{Allocated, env_alloc-Allocated}
use backup_gatech.Env.Sched.Choice.{
  Runnable, FirstRunnable, OneRunning, OutcomeOneRunning, sched_yield-runs, sched_yield-OneRunning,
}

-- Environment 0 runs, its child 1 waits, and the slot 2 is free and was used before.
abbrev table : List Env
table =
    record zero_env { env_id = 4096; env_status = running }
    ∷ record zero_env { env_id = 4097; env_parent_id = 4096; env_status = runnable }
    ∷ record zero_env { env_id = 4098 }
    ∷ []

abbrev busy : Kernel
busy = record { envs = table; env_free_list = some 2; curenv = some 0 }

-- The current environment is marked runnable.
abbrev stuck : Kernel
stuck = record busy { curenv = some 1 }

env_free-envid2env_example : envid2env 4097 true (env_free 1 busy) ≡ bad_env
env_free-envid2env_example = env_free-envid2env 1 4097 true busy (omega arith) refl (omega arith)

env_alloc-Allocated_example : Allocated busy 4096 2 (env_alloc 4096 (some 9) busy)
unfolding env_at
env_alloc-Allocated_example =
    env_alloc-Allocated busy 4096 2 9 refl (omega arith) (omega arith) (omega arith) (inr refl)

sched_yield-runs_example :
    (e : ℕ) × (sched_yield busy ≡ runs (env_run e busy))
    × FirstRunnable busy (start_index busy) nenv 0 e
    × (Runnable busy (start_index busy) → e ≡ start_index busy)
unfolding env_at
sched_yield-runs_example = sched_yield-runs busy 1 (omega arith) refl

busy-OneRunning : OneRunning busy
unfolding env_at
busy-OneRunning zero r = refl
busy-OneRunning (suc zero) r = absurd (cc)
busy-OneRunning (suc (suc zero)) r = absurd (cc)
busy-OneRunning (suc (suc (suc i))) r = absurd (cc)

sched_yield-OneRunning_example : OutcomeOneRunning (sched_yield busy)
sched_yield-OneRunning_example = sched_yield-OneRunning busy busy-OneRunning
