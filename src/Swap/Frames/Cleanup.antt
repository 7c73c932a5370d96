-- ===== src/Swap/Frames/Cleanup.antt =====
-- `env_destroy_cleanup`: the frames of a dead environment leave the list.
pub mod Unlink
mod Skip
use backup_gatech.Common.{
  ℕ, zero, suc, ◌+◌, ◌<◌, ◌≤◌, ◌≡◌, ◌≢◌, Option, none, some, List, [], ◌∷◌, ◌++◌, Bool, true, false,
  ◌||◌, arith, refl, ap, sym, ◌∙◌, if◌then◌else◌, ◌==◌, length, Bool-cases, inl, inr,
}
use mathlib.Core.Path.{subst}
use backup_gatech.Swap.Frames.{
  RltEntry, Pool, Rlt, update, phys_frames, cleared, skip_owned, unlink_after, unlink_owned,
  cleanup_from, env_destroy_cleanup,
}
use backup_gatech.Swap.Frames.Chains.{
  elem, ◌∉◌, Chain, Represents, frame, frame-update, ne_of_not-mem,
}
use Unlink.{others, elem-others, Unlinked, unlink_owned-Unlinked}
use Skip.{HeadForeign, Skipped, skip_owned-Skipped}

cleanup_from-kept :
    (k e : ℕ) (h : Option ℕ) (f : Pool) (next : Option ℕ) (p : ℕ) (xs : List ℕ)
    → Chain f next (p ∷ xs)
    → ((f p).envid == e) ≡ false
    → length xs < k
    → (s' : Rlt) × (cleanup_from k e h (some (f, next)) ≡ some s')
      × Represents s' (others e f (p ∷ xs))
unfolding cleanup_from others
cleanup_from-kept k e h f next p xs c own l =
    let u = unlink_owned-Unlinked k e p f xs (f p).next refl c.2 c.1 l in
    (
      record { pool = u.pool; in_use_frames = some p },
      rw (c.0, cleanup_from, u.ends) refl,
      rw own (refl, elem-others e p f xs c.1, u.chain),
    )

cleanup_from-Skipped :
    (k e : ℕ) (h : Option ℕ) (f g : Pool) (next : Option ℕ) (xs rest : List ℕ)
    → Chain g next rest
    → HeadForeign e g rest
    → others e g rest ≡ others e f xs
    → length rest ≤ k
    → others e f xs ≢ []
    → (s' : Rlt) × (cleanup_from (suc k) e h (some (g, next)) ≡ some s')
      × Represents s' (others e f xs)
unfolding others
cleanup_from-Skipped k e h f g next xs [] c own kept l ne = absurd (ne (sym kept))
cleanup_from-Skipped k e h f g next xs (p ∷ rest) c own kept l ne =
    let (s', ends, chain) = cleanup_from-kept (suc k) e h g next p rest c own (omega arith) in
    (s', ends, subst (Represents s') kept chain)

-- If the list holds no more frames than memory has, and some of them belong to another
-- environment, `env_destroy_cleanup` ends, and the list then holds exactly the frames of the
-- others, in the same order.
pub env_destroy_cleanup_lem :
    (e : ℕ) (s : Rlt) (xs : List ℕ)
    → Represents s xs
    → length xs ≤ phys_frames
    → others e s.pool xs ≢ []
    → (s' : Rlt) × (env_destroy_cleanup e s ≡ some s') × Represents s' (others e s.pool xs)
unfolding env_destroy_cleanup
env_destroy_cleanup_lem e s xs c l ne =
    let sk = skip_owned-Skipped (suc phys_frames) e s.pool xs s.in_use_frames c (omega arith) in
    let (s', ends, chain) =
      cleanup_from-Skipped phys_frames e s.in_use_frames s.pool sk.pool sk.next xs sk.rest sk.chain
        sk.foreign sk.kept (omega (arith, sk.shorter)) ne in
    (s', rw sk.ends ends, chain)

nil_of_foreign :
    (e : ℕ) (f : Pool) (xs : List ℕ) → HeadForeign e f xs → others e f xs ≡ [] → xs ≡ []
unfolding others
nil_of_foreign e f [] own none_left = refl
nil_of_foreign e f (p ∷ xs) own none_left = ground arith

-- If the list holds at least one frame and no more than memory has, and all of them belong to
-- the dead environment, `env_destroy_cleanup` ends with `in_use_frames` at the frame that was
-- its head: the list is not empty.
pub env_destroy_cleanup-keeps_head :
    (e p : ℕ) (s : Rlt) (xs : List ℕ)
    → Represents s (p ∷ xs)
    → length (p ∷ xs) ≤ phys_frames
    → others e s.pool (p ∷ xs) ≡ []
    → (s' : Rlt) × (env_destroy_cleanup e s ≡ some s') × (s'.in_use_frames ≡ some p)
unfolding env_destroy_cleanup cleanup_from
env_destroy_cleanup-keeps_head e p s xs c l all =
    let sk =
      skip_owned-Skipped (suc phys_frames) e s.pool (p ∷ xs) s.in_use_frames c (omega arith) in
    let gone = nil_of_foreign e sk.pool sk.rest sk.foreign (sk.kept ∙ all) in
    let end : sk.next ≡ none = rw gone at sk.chain in
    (
      record { pool = sk.pool; in_use_frames = some p },
      rw (sk.ends, end, c.0, cleanup_from) refl,
      refl,
    )
