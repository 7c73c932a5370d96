-- ===== src/Syscall/Ipc/Delivery.antt =====
-- A message arrives once, with its page.
use backup_gatech.Common.{
  ℕ, ◌<◌, ◌≤◌, ◌≡◌, ◌≢◌, some, true, false, ◌∙◌, ap, sym, ltb, arith, refl, length, length-set,
}
use backup_gatech.Env.Lookup.{envid2env-env}
use backup_gatech.Env.Alloc.{slot_found}
use backup_gatech.Env.{Env, Kernel, is_free, env_at, env_at-set, put_env, envid2env, env}
use backup_gatech.Pages.Swap.{System}
use backup_gatech.Syscall.Envs.{with_env-env}
use backup_gatech.Syscall.{ok, e_ipc_not_recv, utop}
use backup_gatech.Syscall.Ipc.{with_message, hand_over, set_perm, sys_ipc_try_send}

-- What a send without a page must do with the receiver `j`.
pub record Delivered (j from value : ℕ) (s s' : System) : Type 0 where
  pub message :
      env_at s'.kernel.envs j
      ≡ with_message from value (record (env_at s.kernel.envs j) { env_ipc_perm = 0 })
  pub others : (i : ℕ) → i ≢ j → env_at s'.kernel.envs i ≡ env_at s.kernel.envs i
  pub curenv : s'.kernel.curenv ≡ s.kernel.curenv
  pub size : length s'.kernel.envs ≡ length s.kernel.envs
  pub memory : s'.memory ≡ s.memory

pub put_env_self :
    (k : Kernel) (j : ℕ) (e : Env) → j < length k.envs → env_at (put_env k j e).envs j ≡ e
put_env_self k j e l = env_at-set k.envs j j e ∙ ground arith

pub put_env_ne :
    (k : Kernel) (i j : ℕ) (e : Env) → i ≢ j → env_at (put_env k j e).envs i ≡ env_at k.envs i
put_env_ne k i j e n = env_at-set k.envs j i e ∙ ground arith

hand_over-Delivered :
    (j c value : ℕ) (s : System)
    → s.kernel.curenv ≡ some c
    → c ≢ j
    → j < length s.kernel.envs
    → (s' : System) × (hand_over j value (set_perm j 0 s) ≡ some (ok 0, s'))
      × Delivered j (env_at s.kernel.envs c).env_id value s s'
unfolding hand_over set_perm
hand_over-Delivered j c value s cur other inside =
    let e = record (env_at s.kernel.envs j) { env_ipc_perm = 0 } in
    let k1 = put_env s.kernel j e in
    let from_same = ap Env.env_id (put_env_ne s.kernel c j e other) in
    let k2 = put_env k1 j (with_message (env_at k1.envs c).env_id value (env_at k1.envs j)) in
    (
      record s { kernel = k2 },
      rw cur refl,
      record {
        message =
            put_env_self k1 j (with_message (env_at k1.envs c).env_id value (env_at k1.envs j))
              (rw (length-set s.kernel.envs j e) inside)
            ∙ ap (λ x. with_message x value (env_at k1.envs j)) from_same
            ∙ ap (with_message (env_at s.kernel.envs c).env_id value)
                (put_env_self s.kernel j e inside);
        others = λ i n.
            put_env_ne k1 i j (with_message (env_at k1.envs c).env_id value (env_at k1.envs j)) n
            ∙ put_env_ne s.kernel i j e n;
        curenv = refl;
        size =
            length-set k1.envs j (with_message (env_at k1.envs c).env_id value (env_at k1.envs j))
            ∙ length-set s.kernel.envs j e;
        memory = refl;
      },
    )

-- An environment that waits for a message gets it, when the sender sends no page: it has the value
-- and the sender's id, is runnable, and its call will return 0; no other environment changes. A
-- second message to it is refused, until it waits again.
pub sys_ipc_try_send-Delivered :
    (k id j c value value2 srcva perm : ℕ) (s : System)
    → id ≢ 0
    → envid2env id false s.kernel ≡ env (some j)
    → (env_at s.kernel.envs j).env_ipc_recving ≡ true
    → s.kernel.curenv ≡ some c
    → c ≢ j
    → j < length s.kernel.envs
    → utop ≤ srcva
    → (s' : System) × (sys_ipc_try_send k id value srcva perm s ≡ some (ok 0, s'))
      × Delivered j (env_at s.kernel.envs c).env_id value s s'
      × (sys_ipc_try_send k id value2 srcva perm s' ≡ some (e_ipc_not_recv, s'))
unfolding sys_ipc_try_send
sys_ipc_try_send-Delivered k id j c value value2 srcva perm s ne found waits cur other inside high =
    let (s', sent, d) = hand_over-Delivered j c value s cur other inside in
    let slot = envid2env-env id j false s.kernel ne found in
    let no_page : ltb srcva utop ≡ false = ground arith in
    let found2 : envid2env id false s'.kernel ≡ env (some j) =
      slot_found s'.kernel j id ne (sym slot.0) (ap Env.env_id d.message ∙ slot.2)
        (ap (λ e. is_free e.env_status) d.message) in
    let idle : (env_at s'.kernel.envs j).env_ipc_recving ≡ false =
      ap Env.env_ipc_recving d.message in
    (
      s',
      with_env-env id false s _ j found ∙ rw (waits, no_page) sent,
      d,
      with_env-env id false s' _ j found2 ∙ rw idle refl,
    )
