-- ===== src/Env/Sched/Choice.antt =====
-- Which environment runs next, and the states that it leaves.
use backup_gatech.Common.{
  ℕ, zero, suc, ◌+◌, ◌-◌, ◌%◌, ◌^◌, ◌<◌, ◌≤◌, ◌≡◌, inl, inr, Option, none, some, true, false, arith,
  refl, sym, ap, ◌∙◌, Bool-cases, Option-cases, ℕ_discrete,
}
use backup_gatech.Env.{
  Kernel, running, runnable, is_runnable, is_running, is_env, nenv, envx, env_at, env_at-set,
  env_at-out, env_run, step_down, start_running,
}
use backup_gatech.Env.Sched.{
  find_runnable, start_index, still_running, choose, any_alive, sched_yield, sched_halt, Outcome,
  runs, halts, monitor,
}

abbrev pub Runnable : Kernel → ℕ → Type 0
Runnable k i = is_runnable (env_at k.envs i).env_status ≡ true

-- Environment `e` is runnable, and `d` places from `c`, with no runnable one before it.
pub record FirstRunnable (k : Kernel) (c n i e : ℕ) : Type 0 where
  pub d : ℕ
  pub after : i ≤ d
  pub within : d < i + n
  pub index : e ≡ (d + c) % nenv
  pub chosen : Runnable k e
  pub passed :
      (j : ℕ) → i ≤ j → j < d → is_runnable (env_at k.envs ((j + c) % nenv)).env_status ≡ false

-- The search returns the first runnable environment, going round from `c`.
find_runnable-some :
    (k : Kernel) (c n i : ℕ) {e : ℕ} → find_runnable k c n i ≡ some e → FirstRunnable k c n i e
unfolding find_runnable
find_runnable-some k c zero i h = absurd (cc)
find_runnable-some k c (suc n) i {e} h =
    elim (Bool-cases (is_runnable (env_at k.envs ((i + c) % nenv)).env_status)) [
      | inl now ↦
          let here : (i + c) % nenv ≡ e = ground arith in
          record {
            d = i;
            after = omega arith;
            within = omega arith;
            index = sym here;
            chosen = rw here at now;
            passed = λ j p q. absurd (omega arith);
          }
      | inr later ↦
          let r = find_runnable-some k c n (suc i) {e = e} (ground arith) in
          record {
            d = r.d;
            after = omega (arith, r.after);
            within = omega (arith, r.within);
            index = r.index;
            chosen = r.chosen;
            passed = λ j p q. elim (ℕ_discrete j i) [
              | yes same ↦ rw same later
              | no ne ↦ r.passed j (omega arith) q
            ];
          }
    ]

find_runnable-none :
    (k : Kernel) (c n i j : ℕ)
    → find_runnable k c n i ≡ none
    → i ≤ j
    → j < i + n
    → is_runnable (env_at k.envs ((j + c) % nenv)).env_status ≡ false
unfolding find_runnable
find_runnable-none k c zero i j h p q = absurd (omega arith)
find_runnable-none k c (suc n) i j h p q = ground (arith, find_runnable-none k c n (suc i) j)

-- A runnable environment at the start is the first one.
FirstRunnable-start :
    (k : Kernel) (c n e : ℕ) → c < nenv → FirstRunnable k c n 0 e → Runnable k c → e ≡ c
FirstRunnable-start k c n e l f r = elim (ℕ_discrete f.d 0) [
  | yes first ↦ omega (arith, f.index, first, l)
  | no later ↦
      let here : (0 + c) % nenv ≡ c = omega (arith, l) in
      let idle = f.passed 0 (omega arith) (omega (arith, later)) in
      let not_runnable : is_runnable (env_at k.envs c).env_status ≡ false = rw here at idle in
      absurd (cc (not_runnable, r))
]

start_index-lt : (k : Kernel) → start_index k < nenv
start_index-lt k = ground arith

-- Every index is some number of places after the start.
around : (c i : ℕ) → c < nenv → i < nenv → ((i + nenv - c) % nenv + c) % nenv ≡ i
around c i hc hi = omega arith

-- If some environment of the table is runnable, sched_yield runs one: the first runnable one,
-- going round the table from the index of the current environment's id, or from 0 if there is
-- no current environment. So a runnable environment at that index, such as a current one that was
-- marked runnable again, is the one that runs, before all others, where the comment in the source
-- has the search start just after it.
pub sched_yield-runs :
    (k : Kernel) (i : ℕ)
    → i < nenv
    → Runnable k i
    → (e : ℕ) × (sched_yield k ≡ runs (env_run e k))
      × FirstRunnable k (start_index k) nenv 0 e
      × (Runnable k (start_index k) → e ≡ start_index k)
unfolding sched_yield choose
sched_yield-runs k i l r = elim (Option-cases (find_runnable k (start_index k) nenv 0)) [
  | inr (e, found) ↦ (
    e,
    rw (found, sched_yield, choose) refl,
    find_runnable-some k (start_index k) nenv 0 {e = e} found,
    FirstRunnable-start k (start_index k) nenv e (start_index-lt k)
        (find_runnable-some k (start_index k) nenv 0 {e = e} found),
  )
  | inl nothing ↦
      let c = start_index k in
      let j = (i + nenv - c) % nenv in
      let idle = find_runnable-none k c nenv 0 j nothing (omega arith) (omega arith) in
      let same : (j + c) % nenv ≡ i = around c i (start_index-lt k) l in
      let not_runnable : is_runnable (env_at k.envs i).env_status ≡ false = rw same at idle in
      absurd (cc)
]

-- Only the current environment is running.
abbrev pub OneRunning : Kernel → Type 0
OneRunning k = (i : ℕ) → is_running (env_at k.envs i).env_status ≡ true → is_env k.curenv i ≡ true

step_down-none_running :
    (o : Option ℕ) (k : Kernel)
    → ((i : ℕ) → is_running (env_at k.envs i).env_status ≡ true → is_env o i ≡ true)
    → (i : ℕ) → is_running (env_at (step_down o k).envs i).env_status ≡ false
unfolding step_down
step_down-none_running none k one i = ground (arith, one i)
step_down-none_running (some c) k one i = ground (
  arith,
  one i,
  env_at-set k.envs c i (record (env_at k.envs c) { env_status = runnable }),
  env_at-out k.envs c,
)

start_running-one :
    (e : ℕ) (k : Kernel)
    → ((i : ℕ) → is_running (env_at k.envs i).env_status ≡ false)
    → OneRunning (start_running e k)
unfolding start_running
start_running-one e k idle i h = ground (
  arith,
  idle i,
  env_at-set k.envs e i (record (env_at k.envs e) {
    env_status = running;
    env_runs = ((env_at k.envs e).env_runs + 1) % 2 ^ 32;
  }),
)

env_run-OneRunning : (e : ℕ) (k : Kernel) → OneRunning k → OneRunning (env_run e k)
unfolding env_run
env_run-OneRunning e k one = elim (Bool-cases (is_env k.curenv e)) [
  | inl same ↦ rw same one
  | inr other ↦
      rw other (start_running-one e (step_down k.curenv k) (step_down-none_running k.curenv k one))
]

-- Only the current environment is running in the state that the scheduler leaves.
abbrev pub OutcomeOneRunning : Outcome → Type 0
OutcomeOneRunning (runs k) = OneRunning k
OutcomeOneRunning (halts k) = OneRunning k
OutcomeOneRunning (monitor k) = OneRunning k

idle-OneRunning :
    (k : Kernel) → choose k ≡ none → OneRunning k → OneRunning (record k { curenv = none })
unfolding choose still_running
idle-OneRunning k h one i r =
    let cur = one i r in
    elim (Option-cases k.curenv) [
      | inl nobody ↦ absurd (ground (arith, nobody, cur))
      | inr (c, e) ↦ ground (arith, e, cur, r, h)
    ]

sched_halt-OneRunning :
    (k : Kernel) → choose k ≡ none → OneRunning k → OutcomeOneRunning (sched_halt k)
unfolding sched_halt
sched_halt-OneRunning k h one = elim (Bool-cases (any_alive k.envs)) [
  | inl e ↦ rw (e, sched_halt) (idle-OneRunning k h one)
  | inr e ↦ rw (e, sched_halt) one
]

-- If only the current environment is running, that is still so after sched_yield, whether an
-- environment runs, the CPU halts without a current environment, or the monitor is entered.
pub sched_yield-OneRunning : (k : Kernel) → OneRunning k → OutcomeOneRunning (sched_yield k)
unfolding sched_yield
sched_yield-OneRunning k one = elim (Option-cases (choose k)) [
  | inl e ↦ rw (e, sched_yield) (sched_halt-OneRunning k e one)
  | inr (i, e) ↦ rw (e, sched_yield) (env_run-OneRunning i k one)
]

find_runnable-first :
    (k : Kernel) (c n i : ℕ)
    → Runnable k ((i + c) % nenv)
    → find_runnable k c (suc n) i ≡ some ((i + c) % nenv)
unfolding find_runnable
find_runnable-first k c n i r = rw r refl

-- If the current environment stands at the index of its id, in the table, and is marked
-- runnable, it is chosen again at once, and env_run changes nothing: it goes on with its status
-- left runnable, whatever other environments wait.
pub sched_yield-keeps_Runnable :
    (k : Kernel) (c : ℕ)
    → k.curenv ≡ some c
    → c < nenv
    → envx (env_at k.envs c).env_id ≡ c
    → Runnable k c
    → sched_yield k ≡ runs k
unfolding sched_yield choose env_run
sched_yield-keeps_Runnable k c cur l id r =
    let here : (0 + start_index k) % nenv ≡ c = ground arith in
    let first : find_runnable k (start_index k) nenv 0 ≡ some c =
      find_runnable-first k (start_index k) (nenv - 1) 0 (rw here r) ∙ ap some here in
    let same : is_env k.curenv c ≡ true = rw cur (ground arith) in
    rw (first, choose, sched_yield, same) refl
