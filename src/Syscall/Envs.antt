-- ===== src/Syscall/Envs.antt =====
-- The environments that a system call names.
use backup_gatech.Common.{ℕ, ◌≡◌, some, Bool, refl}
use backup_gatech.Env.{env_at, envid2env, env, bad_env}
use backup_gatech.Pages.Swap.{System}
use backup_gatech.Syscall.{Answer, e_bad_env, with_env, with_pgdir}

module _ (id : ℕ) (check : Bool) (s : System) (f : ℕ → Answer) where
  pub with_env-env :
      (j : ℕ) → envid2env id check s.kernel ≡ env (some j) → with_env id check s f ≡ f j
  unfolding with_env
  with_env-env j e = rw (with_env, e) refl

  pub with_env-bad_env :
      envid2env id check s.kernel ≡ bad_env → with_env id check s f ≡ some (e_bad_env, s)
  unfolding with_env
  with_env-bad_env e = rw (with_env, e) refl

pub with_pgdir-some :
    (i d : ℕ) (s : System) (f : ℕ → Answer)
    → (env_at s.kernel.envs i).env_pgdir ≡ some d
    → with_pgdir i s f ≡ f d
unfolding with_pgdir
with_pgdir-some i d s f e = rw (with_pgdir, e) refl
