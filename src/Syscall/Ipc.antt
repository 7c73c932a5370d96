-- ===== src/Syscall/Ipc.antt =====
-- Messages between environments: sys_ipc_try_send and sys_ipc_recv of
-- os_final_project/code/kern/syscall.c.
pub mod Delivery
use backup_gatech.Common.{
  ℕ, ◌*◌, ◌/◌, ◌%◌, Option, none, some, Bool, true, false, ◌&&◌, not, if◌then◌else◌, ◌==◌, ltb,
}
use backup_gatech.Env.{Env, Trapframe, runnable, not_runnable, Kernel, env_at, put_env}
use backup_gatech.Env.Sched.{Outcome, sched_yield}
use backup_gatech.Pages.{Pte}
use backup_gatech.Pages.Check.{has_all}
use backup_gatech.Pages.Swap.{System}
use backup_gatech.Pages.Tables.{page_insert, page_lookup}
use backup_gatech.Syscall.{
  Answer, ok, e_inval, e_no_mem, e_ipc_not_recv, utop, set_env, with_env, with_pgdir, asks_write,
}

-- The receiver `e` with the message of the environment `from`; its call returns 0.
abbrev pub with_message : (from value : ℕ) → Env → Env
with_message from value e = record e {
  env_ipc_recving = false;
  env_ipc_from = from;
  env_ipc_value = value;
  env_status = runnable;
  env_tf = record e.env_tf { eax = 0 };
}

-- The end of sys_ipc_try_send.
pub hand_over : (dst value : ℕ) → System → Answer
hand_over j value s = elim s.kernel.curenv [
  | none ↦ none
  | some c ↦ some (
    ok 0,
    set_env j (with_message (env_at s.kernel.envs c).env_id value (env_at s.kernel.envs j)) s,
  )
]

pub set_perm : (dst perm : ℕ) → System → System
set_perm j perm s = set_env j (record (env_at s.kernel.envs j) { env_ipc_perm = perm }) s

-- The page goes to where the receiver asked for one.
pub send_mapping : (fuel dst p value perm : ℕ) → System → Answer
send_mapping k j p value perm s =
    if ltb (env_at s.kernel.envs j).env_ipc_dstva utop
    then with_pgdir j s (λ d.
      elim (page_insert k d p (env_at s.kernel.envs j).env_ipc_dstva perm s) [
        | none ↦ none
        | some (inserted, s1) ↦
            if inserted then hand_over j value (set_perm j perm s1) else some (e_no_mem, s1)
      ])
    else hand_over j value s

-- What the entry of the page and its address must be.
abbrev pub may_send : (srcva perm : ℕ) → Pte → Bool
may_send srcva perm e =
    has_all 3 perm e.flags && not (asks_write perm && not (asks_write e.flags)) && srcva % 4096 == 0

pub send_page : (fuel dst value srcva perm : ℕ) → System → Answer
send_page k j value srcva perm s = elim s.kernel.curenv [
  | none ↦ none
  | some c ↦ with_pgdir c s (λ d. elim (page_lookup k d srcva s) [
    | none ↦ none
    | some (o, s1) ↦ elim o [
      | none ↦ some (e_inval, s1)
      | some (p, t, i) ↦
          if may_send srcva perm (s1.memory.words t i)
          then send_mapping k j p value perm s1
          else some (e_inval, s1)
    ]
  ])
]

pub sys_ipc_try_send : (fuel envid value srcva perm : ℕ) → System → Answer
sys_ipc_try_send k id value srcva perm s = with_env id false s (λ j.
    if not (env_at s.kernel.envs j).env_ipc_recving
    then some (e_ipc_not_recv, s)
    else if ltb srcva utop
    then send_page k j value srcva perm (set_perm j 0 s)
    else hand_over j value (set_perm j 0 s))

-- Either the call returns -E_INVAL, or the environment waits and sched_yield does not return.
pub data RecvResult : Type 0 where
  refused : System → RecvResult
  waits : System → Outcome → RecvResult

abbrev pub waiting : (dstva : ℕ) → Env → Env
waiting dstva e = record e {
  env_ipc_recving = true;
  env_status = not_runnable;
  env_ipc_dstva = dstva;
}

-- `none` when there is no current environment.
pub sys_ipc_recv : (dstva : ℕ) → System → Option RecvResult
sys_ipc_recv dstva s =
    if ltb dstva utop && not (dstva % 4096 == 0) then some (refused s) else elim s.kernel.curenv [
      | none ↦ none
      | some c ↦
          let s1 = set_env c (waiting dstva (env_at s.kernel.envs c)) s in
          some (waits s1 (sched_yield s1.kernel))
    ]
