-- ===== src/Syscall.antt =====
-- System calls on pages, environments and messages, os_final_project/code/kern/syscall.c, on the
-- state of Pages/Swap with the table of environments in it. `none` is a panic or a read through
-- NULL; the fuel is that of page_alloc. Addresses and permissions are the 32-bit arguments.
pub mod Ipc
mod Envs
mod Grant
mod Share
mod Tests
use backup_gatech.Common.{
  ℕ, suc, ◌+◌, ◌-◌, ◌*◌, ◌/◌, ◌%◌, Option, none, some, Bool, true, false, ◌&&◌, ◌||◌, not,
  if◌then◌else◌, ◌==◌, ltb, leb, set_bit,
}
use backup_gatech.Env.{
  Env, Trapframe, Status, runnable, not_runnable, Kernel, env_at, put_env, envid2env, env, bad_env,
  null_deref, env_alloc, no_free_env, no_mem, allocated,
}
use backup_gatech.Env.Sched.{Outcome, sched_yield}
use backup_gatech.Swap.Frames.{on_page_alloc_success}
use backup_gatech.Pages.{Pte, Memory, page_free}
use backup_gatech.Pages.Swap.{System, page_alloc}
use backup_gatech.Pages.Tables.{page_insert, page_lookup, page_remove, set_memory}

-- 0 or an id, -E_BAD_ENV, -E_INVAL, -E_NO_MEM, -E_IPC_NOT_RECV and -E_NO_FREE_ENV.
pub data Code : Type 0 where
  ok : (value : ℕ) → Code
  e_bad_env e_inval e_no_mem e_ipc_not_recv e_no_free_env : Code

abbrev pub Answer : Type 0
Answer = Option (Code × System)

abbrev pub utop : ℕ
utop = 4005560320

abbrev pub set_kernel : Kernel → System → System
set_kernel k s = record s { kernel = k }

abbrev pub set_env : ℕ → Env → System → System
set_env i e s = set_kernel (put_env s.kernel i e) s

-- envid2env with its error handed on; curenv may be NULL for the id 0.
pub with_env : (envid : ℕ) → (checkperm : Bool) → System → (ℕ → Answer) → Answer
with_env id check s f = elim (envid2env id check s.kernel) [
  | env o ↦ elim o [ none ↦ none | some i ↦ f i ]
  | bad_env ↦ some (e_bad_env, s)
  | null_deref ↦ none
]

-- The page directory of the environment, which every live environment has.
pub with_pgdir : ℕ → System → (ℕ → Answer) → Answer
with_pgdir i s f = elim (env_at s.kernel.envs i).env_pgdir [ none ↦ none | some d ↦ f d ]

-- `pgdir` is what env_setup_vm allocates for the child.
pub sys_exofork : (pgdir : Option ℕ) → System → Answer
sys_exofork d s = elim s.kernel.curenv [
  | none ↦ none
  | some c ↦ elim (env_alloc (env_at s.kernel.envs c).env_id d s.kernel) [
    | no_free_env ↦ some (e_no_free_env, s)
    | no_mem ↦ some (e_no_mem, s)
    | allocated i k ↦ some (
      ok (env_at k.envs i).env_id,
      set_env i
          (record (env_at k.envs i) {
            env_status = not_runnable;
            env_tf = record (env_at k.envs c).env_tf { eax = 0 };
          })
          (set_kernel k s),
    )
  ]
]

-- The status is one of the enumeration; the code takes any number.
pub sys_env_set_status : (envid : ℕ) → Status → System → Answer
sys_env_set_status id status s =
    with_env id true s
      (λ i. some (ok 0, set_env i (record (env_at s.kernel.envs i) { env_status = status }) s))

-- FL_IF is bit 9 of the flags; cs | 0x3.
pub sys_env_set_trapframe : (envid : ℕ) → Trapframe → System → Answer
sys_env_set_trapframe id tf s = with_env id true s (λ i. some (
  ok 0,
  set_env i
      (record (env_at s.kernel.envs i) {
        env_tf = record tf { eflags = set_bit 9 tf.eflags; cs = tf.cs / 4 * 4 + 3 };
      })
      s,
))

pub sys_env_set_pgfault_upcall : (envid func : ℕ) → System → Answer
sys_env_set_pgfault_upcall id func s =
    with_env id true s (λ i.
      some (ok 0, set_env i (record (env_at s.kernel.envs i) { env_pgfault_upcall = func }) s))

-- PTE_P and PTE_U are set, and nothing but these, PTE_W and PTE_AVAIL.
abbrev pub is_perm : ℕ → Bool
is_perm perm = (perm % 2 == 1) && (perm / 4 % 2 == 1) && (perm / 8 % 64 == 0) && perm / 4096 == 0

abbrev pub is_user_page : ℕ → Bool
is_user_page va = ltb va utop && va % 4096 == 0

-- sys_page_alloc once it has its page and the directory.
pub insert_new : (fuel pgdir p envid va perm : ℕ) → System → Answer
insert_new k d p id va perm s = elim (page_insert k d p va perm s) [
  | none ↦ none
  | some (inserted, s1) ↦
      if inserted
      then elim (on_page_alloc_success va id (p * 4096) s1.rlt) [
        | none ↦ none
        | some rlt ↦ some (ok 0, record s1 { rlt = rlt })
      ]
      else elim (page_free p s1.memory) [ none ↦ none | some m ↦ some (e_no_mem, set_memory m s1) ]
]

pub sys_page_alloc : (fuel envid va perm : ℕ) → System → Answer
sys_page_alloc k id va perm s =
    if not (is_perm perm)
    then some (e_inval, s)
    else if not (is_user_page va)
    then some (e_inval, s)
    else elim (page_alloc k true s) [
      | none ↦ none
      | some (o, s1) ↦ elim o [
        | none ↦ some (e_no_mem, s1)
        | some p ↦ with_env id true s1 (λ i. with_pgdir i s1 (λ d. insert_new k d p id va perm s1))
      ]
    ]

-- PTE_W of a permission and of an entry.
abbrev pub asks_write : ℕ → Bool
asks_write perm = perm / 2 % 2 == 1

-- page_insert with its error handed on.
pub insert_into : (fuel : ℕ) → (dst p dstva perm : ℕ) → System → Answer
insert_into k j p dstva perm s = with_pgdir j s (λ d. elim (page_insert k d p dstva perm s) [
  | none ↦ none
  | some (inserted, s1) ↦ if inserted then some (ok 0, s1) else some (e_no_mem, s1)
])

-- sys_page_map with both environments found.
pub map_between : (fuel src srcva dst dstva perm : ℕ) → System → Answer
map_between k i srcva j dstva perm s =
    if not (is_user_page srcva)
    then some (e_inval, s)
    else with_pgdir i s (λ d. elim (page_lookup k d srcva s) [
      | none ↦ none
      | some (o, s1) ↦ elim o [
        | none ↦ some (e_inval, s1)
        | some (p, t, e) ↦
            if asks_write perm && not (asks_write (s1.memory.words t e).flags)
            then some (e_inval, s1)
            else insert_into k j p dstva perm s1
      ]
    ])

pub sys_page_map : (fuel srcenvid srcva dstenvid dstva perm : ℕ) → System → Answer
sys_page_map k src srcva dst dstva perm s =
    with_env src true s (λ i. with_env dst true s (λ j. map_between k i srcva j dstva perm s))

pub sys_page_unmap : (fuel envid va : ℕ) → System → Answer
sys_page_unmap k id va s =
    if not (is_user_page va)
    then some (e_inval, s)
    else with_env id true s (λ i.
      with_pgdir i s (λ d. elim (page_remove k d va s) [ none ↦ none | some s1 ↦ some (ok 0, s1) ]))
