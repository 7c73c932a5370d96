-- ===== src/Env/Sched.antt =====
-- The scheduler, os_final_project/code/kern/sched.c, for one CPU.
pub mod Choice
use backup_gatech.Common.{
  ℕ, zero, suc, ◌+◌, ◌%◌, Option, none, some, List, [], ◌∷◌, Bool, true, false, ◌||◌, if◌then◌else◌,
}
use backup_gatech.Env.{
  Kernel, Env, Status, free, not_runnable, nenv, envx, env_at, is_runnable, is_running, env_run,
}

-- The search of sched_yield: `for (i = from; i < from + rounds; i++)`, at (i + current) % NENV.
pub find_runnable : Kernel → (current rounds from : ℕ) → Option ℕ
find_runnable k c zero i = none
find_runnable k c (suc n) i =
    let rest = find_runnable k c n (suc i) in
    if is_runnable (env_at k.envs ((i + c) % nenv)).env_status then some ((i + c) % nenv) else rest

abbrev pub start_index : Kernel → ℕ
start_index k = elim k.curenv [ none ↦ 0 | some c ↦ envx (env_at k.envs c).env_id ]

-- curenv, if it is still running.
pub still_running : Kernel → Option ℕ
still_running k = elim k.curenv [
  | none ↦ none
  | some c ↦ if is_running (env_at k.envs c).env_status then some c else none
]

-- The environment that sched_yield runs; `none` is sched_halt.
pub choose : Kernel → Option ℕ
choose k = elim (find_runnable k (start_index k) nenv 0) [
  | some i ↦ some i
  | none ↦ still_running k
]

-- What becomes of the CPU: an environment runs, the CPU halts, or the monitor is entered because
-- nothing is runnable, running or dying.
pub data Outcome : Type 0 where
  runs : Kernel → Outcome
  halts : Kernel → Outcome
  monitor : Kernel → Outcome

abbrev pub is_alive : Status → Bool
is_alive free = false
is_alive not_runnable = false
is_alive _ = true

pub any_alive : List Env → Bool
any_alive [] = false
any_alive (e ∷ es) = is_alive e.env_status || any_alive es

pub sched_halt : Kernel → Outcome
sched_halt k = if any_alive k.envs then halts (record k { curenv = none }) else monitor k

pub sched_yield : Kernel → Outcome
sched_yield k = elim (choose k) [ some i ↦ runs (env_run i k) | none ↦ sched_halt k ]
