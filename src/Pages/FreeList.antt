-- ===== src/Pages/FreeList.antt =====
-- The list of free pages.
use backup_gatech.Common.{
  ℕ, ◌≡◌, Option, none, some, List, ◌∷◌, Bool, true, false, ◌&&◌, ◌∙◌, ap, sym, if◌then◌else◌, ◌==◌,
  arith, refl, elem, ◌∉◌, ne_of_not-mem, Linked, Linked-frame, Bool-cases, inl, inr,
}
use mathlib.Core.Path.{subst}
use backup_gatech.Pages.{
  Memory, PageInfo, take_page, put_page, page_free, fill_page, zero_pte, is_null,
}

abbrev pub links : Memory → ℕ → Option ℕ
links m p = (m.pages p).pp_link

-- page_free_list leads through the distinct pages `xs`, and none of them has a reference.
pub record IsFreeList (m : Memory) (xs : List ℕ) : Type 0 where
  pub linked : Linked (links m) m.page_free_list xs
  pub unused : (p : ℕ) → elem p xs ≡ true → (m.pages p).pp_ref ≡ 0

pub put_page_ne :
    (f : ℕ → PageInfo) (p q : ℕ) (e : PageInfo) → (q == p) ≡ false → put_page f p e q ≡ f q
unfolding put_page
put_page_ne f p q e n = rw n refl

pub put_page_self : (f : ℕ → PageInfo) (p : ℕ) (e : PageInfo) → put_page f p e p ≡ e
unfolding put_page
put_page_self f p e = ground arith

-- The pages of a list, when a page outside it changes.
module _ (m : Memory) (xs : List ℕ) (p : ℕ) (e : PageInfo) (out : p ∉ xs) where
  pub Linked-put_page :
      (h : Option ℕ) → Linked (links m) h xs → Linked (λ q. (put_page m.pages p e q).pp_link) h xs
  Linked-put_page h c =
      Linked-frame (links m) (λ q. (put_page m.pages p e q).pp_link) h xs c
        (λ j i. ap PageInfo.pp_link (put_page_ne m.pages p j e (ne_of_not-mem p j xs out i)))

  pub unused-put_page :
      ((q : ℕ) → elem q xs ≡ true → (m.pages q).pp_ref ≡ 0)
      → (q : ℕ) → elem q xs ≡ true
      → (put_page m.pages p e q).pp_ref ≡ 0
  unused-put_page u q i =
      ap PageInfo.pp_ref (put_page_ne m.pages p q e (ne_of_not-mem p q xs out i)) ∙ u q i

-- What page_alloc must do with the free list.
pub record Taken (p : ℕ) (xs : List ℕ) (m : Memory) : Type 0 where
  pub rest : IsFreeList m xs
  pub gone : p ∉ xs
  pub no_refs : (m.pages p).pp_ref ≡ 0
  pub no_link : (m.pages p).pp_link ≡ none

-- While a page is free, page_alloc takes the first page of the free list: it has no reference and
-- no link, the list goes on without it, and with ALLOC_ZERO its words are zero.
pub take_page-Taken :
    (clear : Bool) (m : Memory) (p : ℕ) (xs : List ℕ)
    → IsFreeList m (p ∷ xs)
    → (m' : Memory) × (take_page clear m ≡ some (p, m'))
      × Taken p xs m'
      × (m'.words ≡ (if clear then fill_page m.words p (λ j. zero_pte) else m.words))
      × (m'.npages ≡ m.npages)
unfolding take_page
take_page-Taken clear m p xs l =
    let e : PageInfo = record (m.pages p) { pp_link = none } in
    let out : p ∉ xs = l.linked.1 in
    (
      record m {
        page_free_list = (m.pages p).pp_link;
        pages = put_page m.pages p e;
        words = if clear then fill_page m.words p (λ j. zero_pte) else m.words;
      },
      rw (l.linked.0, take_page) refl,
      record {
        rest = record {
          linked = Linked-put_page m xs p e out (links m p) l.linked.2;
          unused = unused-put_page m xs p e out (λ q i. l.unused q (ground arith));
        };
        gone = out;
        no_refs = ap PageInfo.pp_ref (put_page_self m.pages p e) ∙ l.unused p (ground arith);
        no_link = ap PageInfo.pp_link (put_page_self m.pages p e);
      },
      refl,
      refl,
    )

-- A page without references that gets a link to the head of the list, and becomes the head.
pub push :
    (m : Memory) (p r : ℕ) (xs : List ℕ)
    → IsFreeList m xs
    → p ∉ xs
    → r ≡ 0
    → IsFreeList
        (record m {
          pages = put_page m.pages p (record { pp_ref = r; pp_link = m.page_free_list });
          page_free_list = some p;
        })
        (p ∷ xs)
push m p r xs l out z =
    let e : PageInfo = record { pp_ref = r; pp_link = m.page_free_list } in
    let self = put_page_self m.pages p e in
    record {
      linked = (
        refl,
        out,
        subst (λ h. Linked (λ q. (put_page m.pages p e q).pp_link) h xs)
            (sym (ap PageInfo.pp_link self))
            (Linked-put_page m xs p e out m.page_free_list l.linked),
      );
      unused = λ q i. elim (Bool-cases (q == p)) [
        | inl same ↦
            let e' : q ≡ p = ground arith in
            ap (λ x. (put_page m.pages p e x).pp_ref) e' ∙ ap PageInfo.pp_ref self ∙ z
        | inr other ↦ unused-put_page m xs p e out l.unused q (ground arith)
      ];
    }

pub record SameWords (m m' : Memory) : Type 0 where
  pub words : m'.words ≡ m.words
  pub npages : m'.npages ≡ m.npages

-- Freeing a page that is not free and has no reference and no link puts it before the free list;
-- the words of memory stay.
pub page_free-IsFreeList :
    (m : Memory) (p : ℕ) (xs : List ℕ)
    → IsFreeList m xs
    → p ∉ xs
    → (m.pages p).pp_ref ≡ 0
    → (m.pages p).pp_link ≡ none
    → (m' : Memory) × (page_free p m ≡ some m') × IsFreeList m' (p ∷ xs) × SameWords m m'
unfolding page_free
page_free-IsFreeList m p xs l out r k =
    let ok : ((m.pages p).pp_ref == 0) && is_null (m.pages p).pp_link ≡ true = rw (r, k) refl in
    (
      record m {
        pages = put_page m.pages p (record (m.pages p) { pp_link = m.page_free_list });
        page_free_list = some p;
      },
      rw ok refl,
      push m p (m.pages p).pp_ref xs l out r,
      record { words = refl; npages = refl },
    )
