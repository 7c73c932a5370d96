-- ===== src/Pages/Tables/Replace.antt =====
-- Mapping a page where one is mapped already.
use backup_gatech.Common.{
  ℕ, ◌<◌, ◌≡◌, ◌≢◌, some, List, ◌∷◌, true, false, ◌∙◌, ap, sym, if◌then◌else◌, ◌==◌, arith, ◌∉◌,
}
use mathlib.Core.Path.{subst}
use backup_gatech.Pages.{PageInfo, is_present, is_on_disk, ptx, add_ref}
use backup_gatech.Pages.FreeList.{IsFreeList}
use backup_gatech.Pages.References.{add_ref-IsFreeList, add_ref_ne}
use backup_gatech.Pages.Swap.{System}
use backup_gatech.Pages.Tables.{page_insert}
use backup_gatech.Pages.Tables.Lookup.{Used}
use backup_gatech.Pages.Tables.Insert.{Inserted, Insertable, insert_present}

-- Mapping a page where another one is mapped: the old page loses a reference, and is the first
-- free page if that was its last.
pub page_insert_replaces :
    (k d va t p q perm n : ℕ) (xs : List ℕ) (s : System)
    → Insertable d va t p perm s
    → is_present (s.memory.words t (ptx va)) ≡ true
    → is_on_disk (s.memory.words t (ptx va)) ≡ false
    → (s.memory.words t (ptx va)).frame ≡ q
    → q < s.memory.npages
    → q ≢ p
    → IsFreeList s.memory xs
    → p ∉ xs
    → Used q n xs s.memory
    → (s' : System) × (page_insert k d p va perm s ≡ some (true, s'))
      × Inserted k d va t p perm s s'
      × ((s'.memory.pages q).pp_ref ≡ n)
      × IsFreeList s'.memory (if n == 0 then q ∷ xs else xs)
page_insert_replaces k d va t p q perm n xs s h present home same in_memory other l out u =
    let ne = add_ref_ne s.memory p q (ground arith) in
    let u1 : Used q n xs (add_ref p s.memory) = record {
      pp_ref = ap PageInfo.pp_ref ne ∙ u.pp_ref;
      small = u.small;
      pp_link = ap PageInfo.pp_link ne ∙ u.pp_link;
      not_free = u.not_free;
    } in
    let (s', e, i, ref, free) =
      insert_present k d va t p perm s h n xs present home
        (subst (λ f. f < s.memory.npages) (sym same) in_memory)
        (add_ref-IsFreeList s.memory p xs l out)
        (subst (λ f. Used f n xs (add_ref p s.memory)) (sym same) u1) in
    (
      s',
      e,
      i,
      ap (λ f. (s'.memory.pages f).pp_ref) (sym same) ∙ ref,
      subst (λ f. IsFreeList s'.memory (if n == 0 then f ∷ xs else xs)) same free,
    )
