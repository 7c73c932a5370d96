-- ===== src/Common/Chain.antt =====
-- Linked lists through a function that gives the next index.
use Prim.Native.Nat.{ℕ}
use mathlib.Core.Path.{◌≡◌}
use mathlib.Core.Bool.{Bool, true, false, ◌||◌}
use mathlib.Core.Option.{Option, none, some}
use mathlib.Core.List.{List, [], ◌∷◌}
use native.Mathlib.Omega.{arith}
use backup_gatech.Common.Tests.{◌==◌}

abbrev pub elem : ℕ → List ℕ → Bool
elem j [] = false
elem j (p ∷ xs) = (j == p) || elem j xs

infix 40 ◌∉◌
abbrev pub ◌∉◌ : ℕ → List ℕ → Type 0
j ∉ xs = elem j xs ≡ false

pub ne_of_not-mem : (i j : ℕ) (xs : List ℕ) → i ∉ xs → elem j xs ≡ true → (j == i) ≡ false
ne_of_not-mem i j [] n m = absurd (cc)
ne_of_not-mem i j (x ∷ xs) n m = ground (arith, ne_of_not-mem i j xs)

-- From `h` the links lead through the distinct indices `xs` to the end.
abbrev pub Linked : (ℕ → Option ℕ) → Option ℕ → List ℕ → Type 0
Linked next h [] = h ≡ none
Linked next h (p ∷ xs) = (h ≡ some p) × (p ∉ xs) × Linked next (next p) xs

-- A chain survives a change of links outside it.
pub Linked-frame :
    (f g : ℕ → Option ℕ) (h : Option ℕ) (xs : List ℕ)
    → Linked f h xs
    → ((j : ℕ) → elem j xs ≡ true → g j ≡ f j)
    → Linked g h xs
Linked-frame f g h [] c same = c
Linked-frame f g h (p ∷ xs) c same =
    let e : g p ≡ f p = same p (ground arith) in
    (c.0, c.1, rw e (Linked-frame f g (f p) xs c.2 (λ j m. same j (ground arith))))
