-- ===== src/Vm/Replace/Faults.antt =====
-- What a page fault leaves: the page is in the frame that pagefault_handler returns.
use backup_gatech.Common.{
  ℕ, zero, suc, ◌+◌, ◌*◌, ◌<◌, ◌≤◌, ◌≡◌, none, some, List, [], ◌∷◌, Bool, true, false, ◌∙◌, ap,
  arith, refl, length, get_or, set, get_or-set, replicate, length-replicate, Option-cases, inl, inr,
}
use backup_gatech.Vm.{
  Sizes, Pte, Machine, RltSlot, no_entry, set_pte, frame_bytes, page_to_disk, page_from_disk,
  take_out, tlb_clearone, cleared_tlbe, Tlbe, zero_tlbe,
}
use backup_gatech.Vm.Disk.{frame_bytes-write_frame}
use backup_gatech.Vm.Replace.{evict, page_in}

-- The bytes of a page that is not in memory: those in the swap file, or zeros.
unfoldable pub on_disk : Sizes → (v p : ℕ) → Machine → List ℕ
on_disk z v p m = elim (take_out v p m.swapfile) [
  | none ↦ replicate z.page_size 0
  | some (found, left) ↦ found
]

-- What the handler must do for page `v` of process `p`, when it returns the frame `f`.
pub record PagedIn (z : Sizes) (v : ℕ) (w : Bool) (p f : ℕ) (bytes : List ℕ) (m : Machine)
    : Type 0 where
  pub mapped : m.tables p v ≡ record { pfn = f; valid = true; dirty = w; used = true }
  pub owned : get_or m.rlt f no_entry ≡ record { pcb = some p; page = v }
  pub loaded : frame_bytes z f m.memory ≡ bytes

page_from_disk-tables :
    (z : Sizes) (f v p : ℕ) (m : Machine)
    → ((page_from_disk z f v p m).tables ≡ m.tables) × ((page_from_disk z f v p m).rlt ≡ m.rlt)
unfolding page_from_disk
page_from_disk-tables z f v p m = elim (Option-cases (take_out v p m.swapfile)) [
  | inl e ↦ rw (e, page_from_disk) (refl, refl)
  | inr ((found, left), e) ↦ rw (e, page_from_disk) (refl, refl)
]

page_from_disk-loaded :
    (z : Sizes) (f v p : ℕ) (m : Machine)
    → f * z.page_size + z.page_size ≤ length m.memory
    → length (on_disk z v p m) ≡ z.page_size
    → frame_bytes z f (page_from_disk z f v p m).memory ≡ on_disk z v p m
unfolding page_from_disk on_disk
page_from_disk-loaded z f v p m h l = elim (Option-cases (take_out v p m.swapfile)) [
  | inl e ↦
      rw (e, page_from_disk, on_disk)
        (frame_bytes-write_frame z f (replicate z.page_size 0) m.memory h
          (length-replicate z.page_size 0))
  | inr ((found, left), e) ↦
      rw (e, page_from_disk, on_disk)
        (frame_bytes-write_frame z f found m.memory h (rw (e, on_disk) at l))
]

set_pte_self : (t : ℕ → ℕ → Pte) (p v : ℕ) (e : Pte) → set_pte t p v e p v ≡ e
unfolding set_pte
set_pte_self t p v e = ground arith

tlb_clearone-invalid :
    (v : ℕ) (ts : List Tlbe) (i : ℕ)
    → (get_or (tlb_clearone v ts) i zero_tlbe).vpn ≡ v
    → (get_or (tlb_clearone v ts) i zero_tlbe).is_valid ≡ false
unfolding tlb_clearone cleared_tlbe
tlb_clearone-invalid v [] i h = refl
tlb_clearone-invalid v (t ∷ ts) zero h = ground arith
tlb_clearone-invalid v (t ∷ ts) (suc i) h = tlb_clearone-invalid v ts i h

-- For a frame within the reverse lookup table and within memory, and a page of which the swap
-- file has nothing or as many bytes as a page has, page_in maps the page to the frame, records
-- its owner, and fills the frame with what the swap file has of the page, or with zeros.
pub page_in-PagedIn :
    (z : Sizes) (v : ℕ) (w : Bool) (f p : ℕ) (m : Machine)
    → f < length m.rlt
    → f * z.page_size + z.page_size ≤ length m.memory
    → length (on_disk z v p m) ≡ z.page_size
    → PagedIn z v w p f (on_disk z v p m) (page_in z v w f p m)
unfolding page_in set_pte on_disk
page_in-PagedIn z v w f p m lf lm ld =
    let e : Pte = record { pfn = f; valid = true; dirty = w; used = true } in
    let slot : RltSlot = record { pcb = some p; page = v } in
    let m' = record m { rlt = set m.rlt f slot; tables = set_pte m.tables p v e } in
    let kept = page_from_disk-tables z f v p m' in
    record {
      mapped = ap (λ t. t p v) kept.0 ∙ set_pte_self m.tables p v e;
      owned =
          ap (λ rs. get_or rs f no_entry) kept.1
          ∙ ground (arith, get_or-set m.rlt f f slot no_entry);
      loaded = page_from_disk-loaded z f v p m' lm ld;
    }

-- If a frame holds a valid page that was written, evict saves its bytes in the swap file under
-- the page's process and number, marks the page as not valid, and leaves no TLB entry for its
-- number valid.
pub evict-saves :
    (z : Sizes) (f p : ℕ) (m : Machine)
    → (get_or m.rlt f no_entry).pcb ≡ some p
    → let v = (get_or m.rlt f no_entry).page in
      (m.tables p v).valid ≡ true
      → (m.tables p v).dirty ≡ true
      → (on_disk z v p (evict z f m) ≡ frame_bytes z f m.memory)
        × (((evict z f m).tables p v).valid ≡ false)
        × ((i : ℕ)
            → (get_or (evict z f m).tlb i zero_tlbe).vpn ≡ v
            → (get_or (evict z f m).tlb i zero_tlbe).is_valid ≡ false)
unfolding evict on_disk page_to_disk take_out
evict-saves z f p m o valid dirty =
    let v = (get_or m.rlt f no_entry).page in
    rw (o, evict, valid, dirty)
      (
        ground arith,
        ap Pte.valid (set_pte_self m.tables p v _),
        λ i e. tlb_clearone-invalid v m.tlb i e,
      )
