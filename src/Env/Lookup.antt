-- ===== src/Env/Lookup.antt =====
-- envid2env: which environment an id stands for.
use backup_gatech.Common.{
  ℕ, ◌<◌, ◌≡◌, ◌≢◌, ◌⊎◌, inl, inr, none, some, Bool, false, arith, length, Bool-cases, Option-cases,
}
use backup_gatech.Env.{
  Kernel, Env, free, is_free, env, bad_env, envx, env_at, env_at-set, envid2env, env_free,
}

-- If envid2env finds an environment for an id that is not 0, it is the one at the id's index, it
-- is not free, and its id is exactly the one asked for; with checkperm it is the current
-- environment or a child of it.
pub envid2env-env :
    (id i : ℕ) (checkperm : Bool) (k : Kernel)
    → id ≢ 0
    → envid2env id checkperm k ≡ env (some i)
    → (i ≡ envx id)
      × (is_free (env_at k.envs i).env_status ≡ false)
      × ((env_at k.envs i).env_id ≡ id)
      × ((checkperm ≡ false)
          ⊎ ((c : ℕ) × (k.curenv ≡ some c)
              × ((c ≡ i) ⊎ ((env_at k.envs i).env_parent_id ≡ (env_at k.envs c).env_id))))
unfolding envid2env
envid2env-env id i checkperm k ne found =
    let e : i ≡ envx id = ground arith in
    (
      e,
      ground arith,
      ground arith,
      elim (Bool-cases checkperm) [
        | inr no_check ↦ inl no_check
        | inl check ↦ elim (Option-cases k.curenv) [
          | inl nobody ↦ absurd (ground arith)
          | inr (c, cur) ↦ inr (c, cur, ground arith)
        ]
      ],
    )

freed : ℕ → Kernel → Env
freed i k = record (env_at k.envs i) {
  env_pgdir = none;
  env_status = free;
  env_link = k.env_free_list;
}

-- After an environment of the table is freed, no id other than 0 of its index is found.
pub env_free-envid2env :
    (i id : ℕ) (checkperm : Bool) (k : Kernel)
    → i < length k.envs
    → envx id ≡ i
    → id ≢ 0
    → envid2env id checkperm (env_free i k) ≡ bad_env
unfolding envid2env env_free freed
env_free-envid2env i id checkperm k l e ne =
    ground (arith, env_at-set k.envs i (envx id) (freed i k))
