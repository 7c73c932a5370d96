-- ===== src/Env/Ids.antt =====
-- Environment ids.
use backup_gatech.Common.{ℕ, ◌+◌, ◌^◌, ◌<◌, ◌≡◌, ◌≢◌, ◌⊎◌, arith}
use backup_gatech.Env.{nenv, envx, generation}

-- The id of a new environment at index `i`, whose last id was 0 or had that index, is positive as
-- an int, has the index `i`, and differs from the last id.
pub generation_lem :
    (id i : ℕ)
    → i < nenv
    → id < 2 ^ 31
    → (id ≡ 0) ⊎ (envx id ≡ i)
    → (0 < generation id + i)
      × (generation id + i < 2 ^ 31)
      × (envx (generation id + i) ≡ i)
      × (generation id + i ≢ id)
unfolding generation
generation_lem id i h l last = ground arith
