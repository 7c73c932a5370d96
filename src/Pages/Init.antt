-- ===== src/Pages/Init.antt =====
-- The free list that page_init makes.
use backup_gatech.Common.{
  ℕ, zero, suc, ◌+◌, ◌-◌, ◌<◌, ◌≤◌, ◌≡◌, none, List, [], ◌∷◌, true, ◌&&◌, ◌||◌, not, ◌∙◌, ◌==◌, ltb,
  leb, arith, refl, elem, ◌∉◌, Bool-cases, inl, inr,
}
use backup_gatech.Pages.{Memory, free_from, page_init}
use backup_gatech.Pages.FreeList.{IsFreeList, push}

absent : (i : ℕ) (xs : List ℕ) → ((j : ℕ) → elem j xs ≡ true → j < i) → i ∉ xs
absent i xs low = elim (Bool-cases (elem i xs)) [
  | inl e ↦ absurd (omega (arith, low i e))
  | inr e ↦ e
]

-- Pages that page_init puts on the list, in the two ranges.
free_from-IsFreeList :
    (k i : ℕ) (m : Memory) (xs : List ℕ)
    → IsFreeList m xs
    → ((j : ℕ) → elem j xs ≡ true → j < i)
    → (ys : List ℕ) × IsFreeList (free_from k i m) ys
      × ((j : ℕ) → elem j ys ≡ (elem j xs || (leb i j && ltb j (k + i) && not (j == 7))))
unfolding free_from
free_from-IsFreeList zero i m xs l low = (xs, l, λ j. ground arith)
free_from-IsFreeList (suc k) i m xs l low = elim (Bool-cases (i == 7)) [
  | inl skip ↦
      let (ys, l', same) = free_from-IsFreeList k (suc i) m xs l (λ j e. ground (arith, low j e)) in
      (ys, rw skip l', λ j. same j ∙ ground arith)
  | inr free ↦
      let new : i ∉ xs = absent i xs low in
      let (ys, l', same) =
        free_from-IsFreeList k (suc i) _ (i ∷ xs) (push m i 0 xs l new refl)
          (λ j e. ground (arith, low j)) in
      (ys, rw free l', λ j. same j ∙ ground arith)
]

-- page_init makes a list of distinct pages without references. Free are the pages of base memory
-- but page 0, and those from the end of the kernel on; the page of MPENTRY_PADDR is not.
pub page_init-IsFreeList :
    (base kernel_end : ℕ) (m : Memory)
    → base ≤ kernel_end
    → kernel_end ≤ m.npages
    → (xs : List ℕ) × IsFreeList (page_init base kernel_end m) xs
      × ((j : ℕ)
          → elem j xs
            ≡ (((leb 1 j && ltb j base) || (leb kernel_end j && ltb j m.npages)) && not (j == 7)))
unfolding page_init
page_init-IsFreeList base ke m h h' =
    let empty : IsFreeList (record m { page_free_list = none }) [] = record {
      linked = refl;
      unused = λ p i. absurd (cc);
    } in
    let (xs, l, mem) = free_from-IsFreeList (base - 1) 1 _ [] empty (λ j i. absurd (cc)) in
    let (ys, l', mem') =
      free_from-IsFreeList (m.npages - ke) ke _ xs l (λ j i. ground (arith, mem j)) in
    (ys, l', λ j. ground (arith, mem j, mem' j))
