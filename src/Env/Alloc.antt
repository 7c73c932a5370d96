-- ===== src/Env/Alloc.antt =====
-- Allocating an environment: its id, and the ids of the environment that was there before.
use backup_gatech.Common.{
  ℕ, ◌+◌, ◌^◌, ◌<◌, ◌≡◌, ◌≢◌, ◌⊎◌, some, Bool, true, false, arith, refl, length,
}
use backup_gatech.Env.{
  Kernel, is_free, env, bad_env, envx, nenv, env_at, env_at-set, put_env, envid2env, generation,
  new_env, AllocResult, allocated, alloc_at, env_alloc, is_runnable,
}
use backup_gatech.Env.Ids.{generation_lem}

-- What a successful allocation must do.
pub record Allocated (k : Kernel) (parent i : ℕ) (r : AllocResult) : Type 0 where
  pub after : Kernel
  pub ends : r ≡ allocated i after
  pub new_id : ℕ
  pub found : envid2env new_id false after ≡ env (some i)
  pub stale :
      (id : ℕ) (checkperm : Bool)
      → id ≢ 0
      → envx id ≡ i
      → id ≢ new_id
      → envid2env id checkperm after ≡ bad_env
  pub fresh : new_id ≢ (env_at k.envs i).env_id
  pub child : (env_at after.envs i).env_parent_id ≡ parent
  pub ready : is_runnable (env_at after.envs i).env_status ≡ true
  pub others : (j : ℕ) → j ≢ i → env_at after.envs j ≡ env_at k.envs j
  pub next_free : after.env_free_list ≡ (env_at k.envs i).env_link

pub slot_found :
    (k : Kernel) (i id : ℕ)
    → id ≢ 0
    → envx id ≡ i
    → (env_at k.envs i).env_id ≡ id
    → is_free (env_at k.envs i).env_status ≡ false
    → envid2env id false k ≡ env (some i)
unfolding envid2env
slot_found k i id ne x same live = ground arith

slot_stale :
    (k : Kernel) (i id : ℕ) (checkperm : Bool)
    → id ≢ 0
    → envx id ≡ i
    → (env_at k.envs i).env_id ≢ id
    → envid2env id checkperm k ≡ bad_env
unfolding envid2env
slot_stale k i id c ne x other = ground arith

-- If the head `i` of the free list is in the table, a page directory was allocated, and the
-- slot's last id is 0 or a positive id of that slot, env_alloc takes that slot: the new id
-- finds it, every other id of the slot, the last one included, is rejected, and no other
-- environment changes.
pub env_alloc-Allocated :
    (k : Kernel) (parent i d : ℕ)
    → k.env_free_list ≡ some i
    → i < nenv
    → i < length k.envs
    → (env_at k.envs i).env_id < 2 ^ 31
    → ((env_at k.envs i).env_id ≡ 0) ⊎ (envx (env_at k.envs i).env_id ≡ i)
    → Allocated k parent i (env_alloc parent (some d) k)
unfolding env_alloc alloc_at new_env envid2env
env_alloc-Allocated k parent i d head l inside small last =
    let e = new_env i parent d (env_at k.envs i) in
    let g = generation_lem (env_at k.envs i).env_id i l small last in
    record {
      after = record (put_env k i e) { env_free_list = (env_at k.envs i).env_link };
      ends = rw (head, alloc_at) refl;
      new_id = generation (env_at k.envs i).env_id + i;
      found =
          slot_found (record (put_env k i e) { env_free_list = (env_at k.envs i).env_link }) i
            (generation (env_at k.envs i).env_id + i) (omega (arith, g.0)) g.2
            (ground (arith, env_at-set k.envs i i e)) (ground (arith, env_at-set k.envs i i e));
      stale = λ id c ne x n.
          slot_stale (record (put_env k i e) { env_free_list = (env_at k.envs i).env_link }) i id c
            ne x (ground (arith, env_at-set k.envs i i e));
      fresh = g.3;
      child = ground (arith, env_at-set k.envs i i e);
      ready = ground (arith, env_at-set k.envs i i e);
      others = λ j n. ground (arith, env_at-set k.envs i j e);
      next_free = refl;
    }
