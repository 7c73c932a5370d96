-- ===== src/Env.antt =====
-- Environments of the kernel, os_final_project/code/kern/env.c, for one CPU. A pointer to an
-- environment is its index in `envs`; an environment id is a 32-bit pattern. Physical memory and
-- page tables are no part of this state: the page directory that env_setup_vm allocates comes as an
-- argument.
pub mod Ids
pub mod Lookup
pub mod Alloc
pub mod Sched
mod Tests
use backup_gatech.Common.{
  ℕ, zero, suc, ◌+◌, ◌-◌, ◌*◌, ◌/◌, ◌%◌, ◌^◌, Option, none, some, List, [], ◌∷◌, ◌++◌, Bool, true,
  false, ◌&&◌, ◌||◌, not, if◌then◌else◌, ◌==◌, ltb, leb, get_or, set, length, get_or-set,
  get_or-out, ◌≡◌, ◌≤◌,
}

abbrev pub nenv : ℕ
nenv = 1024

pub data Status : Type 0 where
  free dying runnable running not_runnable : Status

abbrev pub is_runnable : Status → Bool
is_runnable runnable = true
is_runnable _ = false

abbrev pub is_running : Status → Bool
is_running running = true
is_running _ = false

abbrev pub is_free : Status → Bool
is_free free = true
is_free _ = false

pub data EnvType : Type 0 where
  user fs : EnvType

-- The registers that the kernel sets or reads by name.
pub record Trapframe : Type 0 where
  pub eax : ℕ
  pub ds : ℕ
  pub es : ℕ
  pub ss : ℕ
  pub esp : ℕ
  pub cs : ℕ
  pub eflags : ℕ
  pub eip : ℕ

pub record Env : Type 0 where
  pub env_tf : Trapframe
  pub env_link : Option ℕ
  pub env_id : ℕ
  pub env_parent_id : ℕ
  pub env_type : EnvType
  pub env_status : Status
  pub env_runs : ℕ
  pub env_pgdir : Option ℕ
  pub env_pgfault_upcall : ℕ
  pub env_ipc_recving : Bool
  pub env_ipc_dstva : ℕ
  pub env_ipc_value : ℕ
  pub env_ipc_from : ℕ
  pub env_ipc_perm : ℕ

pub record Kernel : Type 0 where
  pub envs : List Env
  pub env_free_list : Option ℕ
  pub curenv : Option ℕ

abbrev pub zero_tf : Trapframe
zero_tf = record { eax = 0; ds = 0; es = 0; ss = 0; esp = 0; cs = 0; eflags = 0; eip = 0 }

abbrev pub zero_env : Env
zero_env = record {
  env_tf = zero_tf;
  env_link = none;
  env_id = 0;
  env_parent_id = 0;
  env_type = user;
  env_status = free;
  env_runs = 0;
  env_pgdir = none;
  env_pgfault_upcall = 0;
  env_ipc_recving = false;
  env_ipc_dstva = 0;
  env_ipc_value = 0;
  env_ipc_from = 0;
  env_ipc_perm = 0;
}

unfoldable pub env_at : List Env → ℕ → Env
env_at es i = get_or es i zero_env

pub env_at-set :
    (es : List Env) (i j : ℕ) (e : Env)
    → env_at (set es i e) j ≡ (if (i == j) && ltb i (length es) then e else env_at es j)
unfolding env_at
env_at-set es i j e = get_or-set es i j e zero_env

pub env_at-out : (es : List Env) (i : ℕ) → length es ≤ i → env_at es i ≡ zero_env
unfolding env_at
env_at-out es i h = get_or-out es i zero_env h

abbrev pub put_env : Kernel → ℕ → Env → Kernel
put_env k i e = record k { envs = set k.envs i e }

-- ENVX(envid)
abbrev pub envx : ℕ → ℕ
envx envid = envid % nenv

abbrev pub is_env : Option ℕ → ℕ → Bool
is_env none i = false
is_env (some j) i = j == i

-- The result of envid2env: the environment, which is curenv and may be NULL for the id 0, or
-- -E_BAD_ENV; with no current environment the permission check reads through NULL.
pub data Found : Type 0 where
  env : Option ℕ → Found
  bad_env : Found
  null_deref : Found

abbrev pub may_change : Kernel → ℕ → Found
may_change k i = elim k.curenv [
  | none ↦ null_deref
  | some c ↦
      if (c == i) || ((env_at k.envs i).env_parent_id == (env_at k.envs c).env_id)
      then env (some i)
      else bad_env
]

unfoldable pub envid2env : ℕ → Bool → Kernel → Found
envid2env envid checkperm k =
    if envid == 0
    then env k.curenv
    else if is_free (env_at k.envs (envx envid)).env_status
        || not ((env_at k.envs (envx envid)).env_id == envid)
    then bad_env
    else if checkperm
    then may_change k (envx envid)
    else env (some (envx envid))

-- `for (i = 0; i < NENV - 1; i++) envs[i].env_link = &envs[i+1];` from index `i` on.
pub init_links : (rounds i : ℕ) → List Env
init_links zero i = zero_env ∷ []
init_links (suc n) i = record zero_env { env_link = some (suc i) } ∷ init_links n (suc i)

pub env_init : Option ℕ → Kernel
env_init cur = record { envs = init_links (nenv - 1) 0; env_free_list = some 0; curenv = cur }

-- (e->env_id + (1 << ENVGENSHIFT)) & ~(NENV - 1), and 1 << ENVGENSHIFT when that is not positive.
pub generation : ℕ → ℕ
generation id =
    let sum = (id + 4096) % 2 ^ 32 in
    let gen = sum - sum % nenv in if (gen == 0) || leb (2 ^ 31) gen then 4096 else gen

-- GD_UD | 3, GD_UT | 3, USTACKTOP and FL_IF.
abbrev pub user_tf : Trapframe
user_tf = record zero_tf {
  ds = 0x23;
  es = 0x23;
  ss = 0x23;
  esp = 0xeebfe000;
  cs = 0x1b;
  eflags = 0x200;
}

pub new_env : (index parent_id pgdir : ℕ) → Env → Env
new_env i parent d e = record e {
  env_pgdir = some d;
  env_id = generation e.env_id + i;
  env_parent_id = parent;
  env_type = user;
  env_status = runnable;
  env_runs = 0;
  env_tf = user_tf;
  env_pgfault_upcall = 0;
  env_ipc_recving = false;
}

pub data AllocResult : Type 0 where
  no_free_env : AllocResult
  no_mem : AllocResult
  allocated : ℕ → Kernel → AllocResult

-- `pgdir` is what env_setup_vm allocates, `none` when page_alloc fails.
pub alloc_at : Option ℕ → (parent_id : ℕ) → (pgdir : Option ℕ) → Kernel → AllocResult
alloc_at none parent d k = no_free_env
alloc_at (some i) parent none k = no_mem
alloc_at (some i) parent (some d) k =
    allocated i (record (put_env k i (new_env i parent d (env_at k.envs i))) {
      env_free_list = (env_at k.envs i).env_link;
    })

pub env_alloc : (parent_id : ℕ) → (pgdir : Option ℕ) → Kernel → AllocResult
env_alloc parent d k = alloc_at k.env_free_list parent d k

-- The end of env_free: the environment goes back to the head of the free list.
pub env_free : ℕ → Kernel → Kernel
env_free i k =
    record (put_env k i (record (env_at k.envs i) {
      env_pgdir = none;
      env_status = free;
      env_link = k.env_free_list;
    })) { env_free_list = some i }

-- curenv loses the CPU if it was running.
pub step_down : Option ℕ → Kernel → Kernel
step_down none k = k
step_down (some c) k =
    if is_running (env_at k.envs c).env_status
    then put_env k c (record (env_at k.envs c) { env_status = runnable })
    else k

-- (env_runs is a uint32_t.)
pub start_running : ℕ → Kernel → Kernel
start_running i k =
    record (put_env k i (record (env_at k.envs i) {
      env_status = running;
      env_runs = ((env_at k.envs i).env_runs + 1) % 2 ^ 32;
    })) { curenv = some i }

-- env_run up to the return to user mode.
pub env_run : ℕ → Kernel → Kernel
env_run i k = if is_env k.curenv i then k else start_running i (step_down k.curenv k)
