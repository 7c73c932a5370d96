-- ===== src/Pages/Tables/Lookup.antt =====
-- Finding and removing a mapping whose table exists.
use backup_gatech.Common.{
  ℕ, suc, ◌<◌, ◌≡◌, ◌≢◌, none, some, List, ◌∷◌, Bool, true, false, ◌∙◌, ap, if◌then◌else◌, ◌==◌,
  ltb, arith, refl, ◌∉◌,
}
use backup_gatech.Pages.{Memory, zero_pte, is_present, is_on_disk, pdx, ptx, put_word}
use backup_gatech.Pages.FreeList.{IsFreeList}
use backup_gatech.Pages.References.{page_decref-IsFreeList}
use backup_gatech.Pages.Walks.{Walks, put_word_self, put_word-Walks}
use backup_gatech.Pages.Swap.{System}
use backup_gatech.Pages.Tables.{
  table_entry, pgdir_walk, page_at, page_lookup, page_remove, write_entry, set_memory,
}

-- The entry of a table that maps a page in memory.
pub record Maps (t i : ℕ) (m : Memory) : Type 0 where
  pub present : is_present (m.words t i) ≡ true
  pub not_on_disk : is_on_disk (m.words t i) ≡ false
  pub in_memory : (m.words t i).frame < m.npages

page_at-Maps :
    (t i : ℕ) (s : System)
    → Maps t i s.memory
    → page_at t i s ≡ some (some ((s.memory.words t i).frame, t, i), s)
unfolding page_at
page_at-Maps t i s h =
    let fits : ltb (s.memory.words t i).frame s.memory.npages ≡ true =
      ground (arith, h.in_memory) in
    rw (page_at, h.present, fits) refl

page_at-none :
    (t i : ℕ) (s : System)
    → is_present (s.memory.words t i) ≡ false
    → page_at t i s ≡ some (none, s)
unfolding page_at
page_at-none t i s absent = rw (page_at, absent) refl

module _ (k d va t : ℕ) (s : System) (w : Walks d va t s.memory.words s.memory.npages) where
  pub pgdir_walk-Walks : (create : Bool) → pgdir_walk k d va create s ≡ some (some (t, ptx va), s)
  unfolding pgdir_walk table_entry
  pgdir_walk-Walks create =
      let fits : ltb (s.memory.words d (pdx va)).frame s.memory.npages ≡ true =
        ground (arith, w.table, w.in_memory) in
      rw (w.present, fits, w.table) refl

  pub page_lookup-Maps :
      Maps t (ptx va) s.memory
      → page_lookup k d va s ≡ some (some ((s.memory.words t (ptx va)).frame, t, ptx va), s)
  unfolding page_lookup
  page_lookup-Maps h =
      rw (page_lookup, pgdir_walk-Walks false, h.not_on_disk) (page_at-Maps t (ptx va) s h)

  pub page_lookup-none :
      is_present (s.memory.words t (ptx va)) ≡ false
      → is_on_disk (s.memory.words t (ptx va)) ≡ false
      → page_lookup k d va s ≡ some (none, s)
  unfolding page_lookup
  page_lookup-none absent home =
      rw (page_lookup, pgdir_walk-Walks false, home) (page_at-none t (ptx va) s absent)

-- What page_remove must do with the entry of a page that had `suc n` references.
pub record Removed (t i n : ℕ) (xs : List ℕ) (s s' : System) : Type 0 where
  pub words : s'.memory.words ≡ put_word s.memory.words t i zero_pte
  pub npages : s'.memory.npages ≡ s.memory.npages
  pub pp_ref : (s'.memory.pages (s.memory.words t i).frame).pp_ref ≡ n
  pub free : IsFreeList s'.memory (if n == 0 then (s.memory.words t i).frame ∷ xs else xs)
  pub rlt : s'.rlt ≡ s.rlt
  pub kernel : s'.kernel ≡ s.kernel

-- A page outside the free list that has `suc n` references.
pub record Used (p n : ℕ) (xs : List ℕ) (m : Memory) : Type 0 where
  pub pp_ref : (m.pages p).pp_ref ≡ suc n
  pub small : suc n < 65536
  pub pp_link : (m.pages p).pp_link ≡ none
  pub not_free : p ∉ xs

pub page_remove-Removed :
    (k d va t n : ℕ) (xs : List ℕ) (s : System)
    → Walks d va t s.memory.words s.memory.npages
    → Maps t (ptx va) s.memory
    → IsFreeList s.memory xs
    → Used (s.memory.words t (ptx va)).frame n xs s.memory
    → (s' : System) × (page_remove k d va s ≡ some s') × Removed t (ptx va) n xs s s'
unfolding page_remove write_entry
page_remove-Removed k d va t n xs s w h l u =
    let p = (s.memory.words t (ptx va)).frame in
    let freed = page_decref-IsFreeList s.memory p n xs l u.not_free u.pp_link u.pp_ref u.small in
    (
      write_entry t (ptx va) zero_pte (set_memory freed.0 s),
      rw (page_remove, page_lookup-Maps k d va t s w h, freed.1) refl,
      record {
        words = ap (λ ws. put_word ws t (ptx va) zero_pte) freed.4.words;
        npages = freed.4.npages;
        pp_ref = freed.2;
        free = record { linked = freed.3.linked; unused = freed.3.unused };
        rlt = refl;
        kernel = refl;
      },
    )

-- After page_remove of a page that is mapped in memory, page_lookup finds nothing there; the page
-- lost one reference, and is the first free page if that was its last.
pub page_lookup-page_remove :
    (k d va t n : ℕ) (xs : List ℕ) (s : System)
    → Walks d va t s.memory.words s.memory.npages
    → d ≢ t
    → Maps t (ptx va) s.memory
    → IsFreeList s.memory xs
    → Used (s.memory.words t (ptx va)).frame n xs s.memory
    → (s' : System) × (page_remove k d va s ≡ some s')
      × (page_lookup k d va s' ≡ some (none, s'))
      × Removed t (ptx va) n xs s s'
page_lookup-page_remove k d va t n xs s w out h l u =
    let gone = page_remove-Removed k d va t n xs s w h l u in
    let entry : gone.0.memory.words t (ptx va) ≡ zero_pte =
      ap (λ ws. ws t (ptx va)) gone.2.words ∙ put_word_self s.memory.words t (ptx va) zero_pte in
    let walks : Walks d va t gone.0.memory.words gone.0.memory.npages =
      rw (gone.2.words, gone.2.npages)
        (put_word-Walks s.memory.words s.memory.npages t (ptx va) zero_pte out w) in
    (
      gone.0,
      gone.1,
      page_lookup-none k d va t gone.0 walks (ap is_present entry) (ap is_on_disk entry),
      gone.2,
    )
