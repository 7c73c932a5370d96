-- ===== src/Swap/Frames/Chains.antt =====
-- What a linked list of pool entries stands for: the frames on it, in order.
use backup_gatech.Common.{
  ℕ, zero, suc, ◌<◌, ◌≡◌, Option, none, some, List, [], ◌∷◌, ◌++◌, true, ◌||◌, arith, refl, length,
}
pub use backup_gatech.Common.{elem, ◌∉◌, ne_of_not-mem}
use backup_gatech.Swap.Frames.{RltEntry, Pool, Rlt, update, walk_tail, link_at}

-- From `h` the `next` pointers lead through the distinct frames `xs` to NULL.
abbrev pub Chain : Pool → Option ℕ → List ℕ → Type 0
Chain f h [] = h ≡ none
Chain f h (p ∷ xs) = (h ≡ some p) × (p ∉ xs) × Chain f (f p).next xs

abbrev pub Represents : Rlt → List ℕ → Type 0
Represents s xs = Chain s.pool s.in_use_frames xs

-- A chain survives a change of the pool outside its frames.
pub frame :
    (f g : Pool) (h : Option ℕ) (xs : List ℕ)
    → Chain f h xs
    → ((j : ℕ) → elem j xs ≡ true → g j ≡ f j)
    → Chain g h xs
frame f g h [] c same = c
frame f g h (p ∷ xs) c same =
    let e : g p ≡ f p = same p (ground arith) in
    (c.0, c.1, rw e (frame f g (f p).next xs c.2 (λ j m. same j (ground arith))))

pub frame-update :
    (f : Pool) (i : ℕ) (e : RltEntry) (h : Option ℕ) (xs : List ℕ)
    → Chain f h xs
    → i ∉ xs
    → Chain (update f i e) h xs
unfolding update
frame-update f i e h xs c n =
    frame f (update f i e) h xs c (λ j m. rw (ne_of_not-mem i j xs n m) refl)

-- The walk ends at the last frame, and linking `i` there appends `i` to the chain.
pub record Appended (f : Pool) (p i : ℕ) (xs : List ℕ) (k : ℕ) : Type 0 where
  pub tail : ℕ
  pub walked : walk_tail k f p ≡ some tail
  pub on_chain : elem tail (p ∷ xs) ≡ true
  pub chain : Chain (link_at f tail i) (some p) (p ∷ xs ++ (i ∷ []))

elem-append : (j : ℕ) (xs ys : List ℕ) → elem j (xs ++ ys) ≡ (elem j xs || elem j ys)
elem-append j [] ys = refl
elem-append j (x ∷ xs) ys = ground (arith, elem-append j xs ys)

Appended-cons :
    (f : Pool) (k p q i : ℕ) (ys : List ℕ)
    → Chain f (some p) (p ∷ q ∷ ys)
    → i ∉ (p ∷ q ∷ ys)
    → Appended f q i ys k
    → Appended f p i (q ∷ ys) (suc k)
unfolding walk_tail link_at update
Appended-cons f k p q i ys c n rest =
    let apart = ne_of_not-mem p rest.tail (q ∷ ys) c.1 rest.on_chain in
    record {
      tail = rest.tail;
      walked = rw (c.2.0, walk_tail) rest.walked;
      on_chain = rw rest.on_chain (ground arith);
      chain = (
        refl,
        ground (arith, elem-append p (q ∷ ys) (i ∷ []), c.1),
        (ground arith, rest.chain.1, rest.chain.2),
      );
    }

pub walk_tail-Appended :
    (f : Pool) (k p i : ℕ) (xs : List ℕ)
    → Chain f (some p) (p ∷ xs)
    → i ∉ (p ∷ xs)
    → (f i).next ≡ none
    → length xs < k
    → Appended f p i xs k
unfolding walk_tail link_at update
walk_tail-Appended f zero p i xs c n e l = absurd (omega arith)
walk_tail-Appended f (suc k) p i [] c n e l = record {
  tail = p;
  walked = rw (c.2, walk_tail);
  on_chain = ground arith;
  chain = ground arith;
}
walk_tail-Appended f (suc k) p i (q ∷ ys) c n e l =
    Appended-cons f k p q i ys c n
      (walk_tail-Appended f k q i ys (refl, c.2.1, c.2.2) (ground arith) e (omega arith))
