-- ===== src/Pages/References.antt =====
-- The references of a page: page_decref, and the counting in page_insert.
use backup_gatech.Common.{
  ℕ, suc, ◌+◌, ◌%◌, ◌<◌, ◌≡◌, none, some, List, ◌∷◌, true, false, ◌∙◌, ap, if◌then◌else◌, ◌==◌,
  arith, refl, ◌∉◌, Bool-cases, inl, inr,
}
use backup_gatech.Pages.{Memory, PageInfo, page_decref, add_ref, drop_ref}
use backup_gatech.Pages.FreeList.{
  IsFreeList, SameWords, put_page_ne, put_page_self, Linked-put_page, unused-put_page,
  page_free-IsFreeList,
}

drop_ref-IsFreeList :
    (m : Memory) (p : ℕ) (xs : List ℕ) → IsFreeList m xs → p ∉ xs → IsFreeList (drop_ref p m) xs
unfolding drop_ref
drop_ref-IsFreeList m p xs l out =
    let e : PageInfo = record (m.pages p) { pp_ref = ((m.pages p).pp_ref + 65535) % 65536 } in
    record {
      linked = Linked-put_page m xs p e out m.page_free_list l.linked;
      unused = unused-put_page m xs p e out l.unused;
    }

drop_ref-pp_ref :
    (m : Memory) (p n : ℕ)
    → (m.pages p).pp_ref ≡ suc n
    → suc n < 65536
    → ((drop_ref p m).pages p).pp_ref ≡ n
unfolding drop_ref
drop_ref-pp_ref m p n r small = ap PageInfo.pp_ref (put_page_self m.pages p _) ∙ omega arith

drop_ref-pp_link : (m : Memory) (p : ℕ) → ((drop_ref p m).pages p).pp_link ≡ (m.pages p).pp_link
unfolding drop_ref
drop_ref-pp_link m p = ap PageInfo.pp_link (put_page_self m.pages p _)

pub add_ref-IsFreeList :
    (m : Memory) (p : ℕ) (xs : List ℕ) → IsFreeList m xs → p ∉ xs → IsFreeList (add_ref p m) xs
unfolding add_ref
add_ref-IsFreeList m p xs l out =
    let e : PageInfo = record (m.pages p) { pp_ref = ((m.pages p).pp_ref + 1) % 65536 } in
    record {
      linked = Linked-put_page m xs p e out m.page_free_list l.linked;
      unused = unused-put_page m xs p e out l.unused;
    }

pub add_ref_self :
    (m : Memory) (p : ℕ)
    → (add_ref p m).pages p ≡ record (m.pages p) { pp_ref = ((m.pages p).pp_ref + 1) % 65536 }
unfolding add_ref
add_ref_self m p = put_page_self m.pages p _

pub add_ref_ne : (m : Memory) (p q : ℕ) → (q == p) ≡ false → (add_ref p m).pages q ≡ m.pages q
unfolding add_ref
add_ref_ne m p q n = put_page_ne m.pages p q _ n

-- A page that is not free and lost its last reference is free again; with more references it
-- loses one, and the free list stays as it was. The words of memory stay.
pub page_decref-IsFreeList :
    (m : Memory) (p n : ℕ) (xs : List ℕ)
    → IsFreeList m xs
    → p ∉ xs
    → (m.pages p).pp_link ≡ none
    → (m.pages p).pp_ref ≡ suc n
    → suc n < 65536
    → (m' : Memory) × (page_decref p m ≡ some m')
      × ((m'.pages p).pp_ref ≡ n)
      × IsFreeList m' (if n == 0 then p ∷ xs else xs)
      × SameWords m m'
unfolding page_decref drop_ref
page_decref-IsFreeList m p n xs l out k r small = elim (Bool-cases (n == 0)) [
  | inl last ↦
      let zero_left : ((drop_ref p m).pages p).pp_ref ≡ 0 =
        drop_ref-pp_ref m p n r small ∙ ground arith in
      let freed =
        page_free-IsFreeList (drop_ref p m) p xs (drop_ref-IsFreeList m p xs l out) out zero_left
          (drop_ref-pp_link m p ∙ k) in
      let tested : (((drop_ref p m).pages p).pp_ref == 0) ≡ true = ground (arith, zero_left) in
      (
        freed.0,
        rw (tested, page_decref) freed.1,
        freed.2.unused p (ground arith) ∙ ground arith,
        rw last freed.2,
        record { words = freed.3.words; npages = freed.3.npages },
      )
  | inr more ↦
      let left : (((drop_ref p m).pages p).pp_ref == 0) ≡ false =
        ground (arith, drop_ref-pp_ref m p n r small) in
      (
        drop_ref p m,
        rw (left, page_decref) refl,
        drop_ref-pp_ref m p n r small,
        rw more (drop_ref-IsFreeList m p xs l out),
        record { words = refl; npages = refl },
      )
]
