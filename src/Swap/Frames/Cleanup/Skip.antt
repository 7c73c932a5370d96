-- ===== src/Swap/Frames/Cleanup/Skip.antt =====
-- The first loop of `env_destroy_cleanup`: frames at the head are cleared.
use backup_gatech.Common.{
  ℕ, zero, suc, ◌<◌, ◌≤◌, ◌≡◌, Option, none, some, List, [], ◌∷◌, true, false, arith, refl, ◌∙◌,
  ◌==◌, length, Bool-cases, inl, inr,
}
use mathlib.Core.Path.{subst}
use backup_gatech.Swap.Frames.{RltEntry, Pool, update, cleared, skip_owned}
use backup_gatech.Swap.Frames.Chains.{elem, ◌∉◌, Chain, frame-update, ne_of_not-mem}
use backup_gatech.Swap.Frames.Cleanup.Unlink.{others, others-same}

-- The first loop ends at the first frame of another environment, if there is one.
abbrev pub HeadForeign : ℕ → Pool → List ℕ → Type 0
HeadForeign e f [] = Unit {0}
HeadForeign e f (p ∷ xs) = ((f p).envid == e) ≡ false

pub record Skipped (e : ℕ) (f : Pool) (xs : List ℕ) (o : Option (Pool × Option ℕ)) : Type 0 where
  pub pool : Pool
  pub next : Option ℕ
  pub ends : o ≡ some (pool, next)
  pub rest : List ℕ
  pub chain : Chain pool next rest
  pub foreign : HeadForeign e pool rest
  pub kept : others e pool rest ≡ others e f xs
  pub shorter : length rest ≤ length xs
  pub untouched : (j : ℕ) → j ∉ xs → pool j ≡ f j

update-same :
    (f : Pool) (p : ℕ) (r : RltEntry) (xs : List ℕ)
    → p ∉ xs
    → (j : ℕ) → elem j xs ≡ true
    → update f p r j ≡ f j
unfolding update
update-same f p r xs n j m = rw (ne_of_not-mem p j xs n m) refl

update-ne : (f : Pool) (p : ℕ) (r : RltEntry) (j : ℕ) → (j == p) ≡ false → update f p r j ≡ f j
unfolding update
update-ne f p r j n = rw n refl

Skipped-skip :
    (k e p : ℕ) (f : Pool) (xs : List ℕ)
    → p ∉ xs
    → ((f p).envid == e) ≡ true
    → Skipped e
        (update f p (cleared (f p)))
        xs
        (skip_owned k e (update f p (cleared (f p))) (f p).next)
    → Skipped e f (p ∷ xs) (skip_owned (suc k) e f (some p))
unfolding skip_owned others
Skipped-skip k e p f xs n own ih =
    let g = update f p (cleared (f p)) in
    record {
      pool = ih.pool;
      next = ih.next;
      ends = rw (own, skip_owned) ih.ends;
      rest = ih.rest;
      chain = ih.chain;
      foreign = ih.foreign;
      kept = ih.kept ∙ others-same e f g xs (update-same f p _ xs n) ∙ rw own refl;
      shorter = omega (arith, ih.shorter);
      untouched = λ j a. ih.untouched j (ground arith) ∙ update-ne f p _ j (ground arith);
    }

pub skip_owned-Skipped :
    (k e : ℕ) (f : Pool) (xs : List ℕ) (h : Option ℕ)
    → Chain f h xs
    → length xs < k
    → Skipped e f xs (skip_owned k e f h)
unfolding skip_owned others
skip_owned-Skipped zero e f xs h c l = absurd (omega arith)
skip_owned-Skipped (suc k) e f [] none c l = record {
  pool = f;
  next = none;
  ends = refl;
  rest = [];
  chain = refl;
  foreign = tt;
  kept = refl;
  shorter = omega arith;
  untouched = λ j a. refl;
}
skip_owned-Skipped (suc k) e f [] (some h) c l = absurd (cc)
skip_owned-Skipped (suc k) e f (p ∷ xs) none c l = absurd (cc)
skip_owned-Skipped (suc k) e f (p ∷ xs) (some h) c l =
    let same : p ≡ h = cc in
    subst (λ b. Skipped e f (p ∷ xs) (skip_owned (suc k) e f (some b))) same
      (elim (Bool-cases ((f p).envid == e)) [
        | inl own ↦ Skipped-skip k e p f xs c.1 own (
            skip_owned-Skipped k e (update f p (cleared (f p))) xs (f p).next
              (frame-update f p _ (f p).next xs c.2 c.1) (omega arith))
        | inr own ↦ record {
          pool = f;
          next = some p;
          ends = rw (own, skip_owned) refl;
          rest = p ∷ xs;
          chain = (refl, c.1, c.2);
          foreign = own;
          kept = refl;
          shorter = omega arith;
          untouched = λ j a. refl;
        }
      ])
