-- ===== src/Swap/Frames/Cleanup/Unlink.antt =====
-- The second loop of `env_destroy_cleanup`: frames between others are unlinked.
use backup_gatech.Common.{
  ℕ, zero, suc, ◌<◌, ◌≡◌, Option, none, some, List, [], ◌∷◌, true, false, arith, refl, ap, sym, ◌∙◌,
  if◌then◌else◌, ◌==◌, length, Bool-cases, inl, inr,
}
use mathlib.Core.Path.{subst}
use backup_gatech.Swap.Frames.{Pool, update, cleared, unlink_after, unlink_owned}
use backup_gatech.Swap.Frames.Chains.{elem, ◌∉◌, Chain, frame, ne_of_not-mem}

-- The frames of `xs` that belong to another environment than `e`.
unfoldable pub others : ℕ → Pool → List ℕ → List ℕ
others e f [] = []
others e f (p ∷ xs) = if (f p).envid == e then others e f xs else p ∷ others e f xs

pub others-same :
    (e : ℕ) (f g : Pool) (xs : List ℕ)
    → ((j : ℕ) → elem j xs ≡ true → g j ≡ f j)
    → others e g xs ≡ others e f xs
unfolding others
others-same e f g [] same = refl
others-same e f g (p ∷ xs) same =
    rw (same p (ground arith), others-same e f g xs (λ j m. same j (ground arith))) refl

pub elem-others : (e j : ℕ) (f : Pool) (xs : List ℕ) → j ∉ xs → j ∉ others e f xs
unfolding others
elem-others e j f [] n = refl
elem-others e j f (p ∷ xs) n = ground (arith, elem-others e j f xs)

-- The second loop ends, and leaves `prev` before the frames of others.
pub record Unlinked (e prev : ℕ) (f : Pool) (xs : List ℕ) (o : Option Pool) : Type 0 where
  pub pool : Pool
  pub ends : o ≡ some pool
  pub chain : Chain pool (pool prev).next (others e f xs)
  pub head : ((pool prev).va ≡ (f prev).va) × ((pool prev).envid ≡ (f prev).envid)
  pub rest : (j : ℕ) → (j == prev) ≡ false → j ∉ xs → pool j ≡ f j

unlink_after-ne :
    (f : Pool) (prev p j : ℕ)
    → (j == prev) ≡ false
    → (j == p) ≡ false
    → unlink_after f prev p j ≡ f j
unfolding unlink_after update
unlink_after-ne f prev p j a b = ground arith

unlink_after-prev :
    (f : Pool) (prev p : ℕ)
    → (prev == p) ≡ false
    → ((unlink_after f prev p prev).next ≡ (f p).next)
      × ((unlink_after f prev p prev).va ≡ (f prev).va)
      × ((unlink_after f prev p prev).envid ≡ (f prev).envid)
unfolding unlink_after update cleared
unlink_after-prev f prev p a = ground arith

-- Outside `prev` and `p`, where the rest of the chain lies, nothing changes.
unlink_after-same :
    (f : Pool) (prev p : ℕ) (xs : List ℕ)
    → prev ∉ xs
    → p ∉ xs
    → (j : ℕ) → elem j xs ≡ true
    → unlink_after f prev p j ≡ f j
unlink_after-same f prev p xs a b j m =
    unlink_after-ne f prev p j (ne_of_not-mem prev j xs a m) (ne_of_not-mem p j xs b m)

Unlinked-take :
    (k e prev p : ℕ) (f : Pool) (xs : List ℕ)
    → prev ∉ (p ∷ xs)
    → p ∉ xs
    → ((f p).envid == e) ≡ true
    → Unlinked e prev
        (unlink_after f prev p)
        xs
        (unlink_owned k e (unlink_after f prev p) prev (unlink_after f prev p prev).next)
    → Unlinked e prev f (p ∷ xs) (unlink_owned (suc k) e f prev (some p))
unfolding unlink_owned others
Unlinked-take k e prev p f xs n m own ih =
    let same = unlink_after-same f prev p xs (ground arith) m in
    let kept = unlink_after-prev f prev p (ground arith) in
    record {
      pool = ih.pool;
      ends = rw (own, unlink_owned) ih.ends;
      chain = rw own (rw (others-same e f (unlink_after f prev p) xs same) at ih.chain);
      head = (ih.head.0 ∙ kept.1, ih.head.1 ∙ kept.2);
      rest = λ j a b. ih.rest j a (ground arith) ∙ unlink_after-ne f prev p j a (ground arith);
    }

Unlinked-keep :
    (k e prev p : ℕ) (f : Pool) (xs : List ℕ)
    → (f prev).next ≡ some p
    → prev ∉ (p ∷ xs)
    → p ∉ xs
    → ((f p).envid == e) ≡ false
    → Unlinked e p f xs (unlink_owned k e f p (f p).next)
    → Unlinked e prev f (p ∷ xs) (unlink_owned (suc k) e f prev (some p))
unfolding unlink_owned others
Unlinked-keep k e prev p f xs q n m own ih =
    let same = ih.rest prev (ground arith) (ground arith) in
    record {
      pool = ih.pool;
      ends = rw (own, unlink_owned) ih.ends;
      chain = rw (own, same) (q, elem-others e p f xs m, ih.chain);
      head = rw same (refl, refl);
      rest = λ j a b. ih.rest j (ground arith) (ground arith);
    }

pub unlink_owned-Unlinked :
    (k e prev : ℕ) (f : Pool) (xs : List ℕ) (h : Option ℕ)
    → (f prev).next ≡ h
    → Chain f h xs
    → prev ∉ xs
    → length xs < k
    → Unlinked e prev f xs (unlink_owned k e f prev h)
unfolding unlink_owned others
unlink_owned-Unlinked zero e prev f xs h q c n l = absurd (omega arith)
unlink_owned-Unlinked (suc k) e prev f [] none q c n l = record {
  pool = f;
  ends = refl;
  chain = q;
  head = (refl, refl);
  rest = λ j a b. refl;
}
unlink_owned-Unlinked (suc k) e prev f [] (some h) q c n l = absurd (cc)
unlink_owned-Unlinked (suc k) e prev f (p ∷ xs) none q c n l = absurd (cc)
unlink_owned-Unlinked (suc k) e prev f (p ∷ xs) (some h) q c n l =
    let same : p ≡ h = cc in
    subst (λ b. Unlinked e prev f (p ∷ xs) (unlink_owned (suc k) e f prev (some b))) same
      (elim (Bool-cases ((f p).envid == e)) [
        | inl own ↦ Unlinked-take k e prev p f xs n c.1 own (
            unlink_owned-Unlinked k e prev (unlink_after f prev p) xs _ refl
              (rw (unlink_after-prev f prev p (ground arith)).0 (
                frame f (unlink_after f prev p) (f p).next xs c.2
                  (unlink_after-same f prev p xs (ground arith) c.1)))
              (ground arith) (omega arith))
        | inr own ↦
            Unlinked-keep k e prev p f xs (q ∙ sym (ap some same)) n c.1 own
              (unlink_owned-Unlinked k e p f xs (f p).next refl c.2 c.1 (omega arith))
      ])
