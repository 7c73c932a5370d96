-- ===== src/Pages/Tables/Insert.antt =====
-- Mapping a page whose table exists.
use backup_gatech.Common.{
  ℕ, zero, suc, ◌/◌, ◌%◌, ◌<◌, ◌≡◌, ◌≢◌, some, List, ◌∷◌, true, false, ◌∙◌, ap, if◌then◌else◌, ◌==◌,
  arith, refl, ◌∉◌,
}
use backup_gatech.Pages.{
  Pte, PageInfo, zero_pte, is_present, is_on_disk, pdx, ptx, put_word, add_ref,
}
use backup_gatech.Pages.FreeList.{IsFreeList}
use backup_gatech.Pages.References.{add_ref-IsFreeList, add_ref_self}
use backup_gatech.Pages.Walks.{Walks, put_word_self, put_word_ne}
use backup_gatech.Pages.Swap.{System}
use backup_gatech.Pages.Tables.{
  bit_or, mapping, insert_at, page_insert, page_lookup, page_remove, write_entry, set_memory,
}
use backup_gatech.Pages.Tables.Lookup.{
  Maps, Used, Removed, pgdir_walk-Walks, page_lookup-Maps, page_remove-Removed,
}

bit_or_zero : (k a : ℕ) → bit_or k a 0 ≡ a
unfolding bit_or
bit_or_zero zero a = refl
bit_or_zero (suc k) a =
    let none : 0 / 2 ≡ 0 = refl in rw (none, bit_or_zero k (a / 2)) (ground arith)

-- A permission of 12 bits leaves the frame as it is.
pub mapping-frame : (p perm : ℕ) → perm < 4096 → (mapping p perm).frame ≡ p
mapping-frame p perm l = let none : perm / 4096 ≡ 0 = omega (arith, l) in rw none (bit_or_zero 20 p)

-- The new entry is found again.
pub page_lookup-mapping :
    (k d va t p perm : ℕ) (s s' : System)
    → Walks d va t s.memory.words s.memory.npages
    → d ≢ t
    → p < s.memory.npages
    → perm < 4096
    → perm / 1024 % 2 ≡ 0
    → s'.memory.words t (ptx va) ≡ mapping p perm
    → s'.memory.words d (pdx va) ≡ s.memory.words d (pdx va)
    → s'.memory.npages ≡ s.memory.npages
    → page_lookup k d va s' ≡ some (some (p, t, ptx va), s')
page_lookup-mapping k d va t p perm s s' w out fits low bit10 entry dir n =
    let walks : Walks d va t s'.memory.words s'.memory.npages = record {
      present = ap is_present dir ∙ w.present;
      table = ap Pte.frame dir ∙ w.table;
      in_memory = rw n w.in_memory;
    } in
    let present : is_present (mapping p perm) ≡ true = ground arith in
    let home : is_on_disk (mapping p perm) ≡ false = ground arith in
    let maps : Maps t (ptx va) s'.memory = record {
      present = ap is_present entry ∙ present;
      not_on_disk = ap is_on_disk entry ∙ home;
      in_memory = rw (ap Pte.frame entry ∙ mapping-frame p perm low, n) fits;
    } in
    page_lookup-Maps k d va t s' walks maps
    ∙ ap (λ f. some (some (f, t, ptx va), s')) (ap Pte.frame entry ∙ mapping-frame p perm low)

put_word_twice :
    (ws : ℕ → ℕ → Pte) (t i q j : ℕ) (e e' : Pte)
    → put_word (put_word ws t i e) t i e' q j ≡ put_word ws t i e' q j
unfolding put_word
put_word_twice ws t i q j e e' = ground arith

-- What page_insert must do with the page tables: the entry maps the page, and page_lookup finds it
-- there; all other words stay, as do the environments and the frames in use.
pub record Inserted (k d va t p perm : ℕ) (s s' : System) : Type 0 where
  pub words :
      (q j : ℕ) → s'.memory.words q j ≡ put_word s.memory.words t (ptx va) (mapping p perm) q j
  pub npages : s'.memory.npages ≡ s.memory.npages
  pub found : page_lookup k d va s' ≡ some (some (p, t, ptx va), s')
  pub rlt : s'.rlt ≡ s.rlt
  pub kernel : s'.kernel ≡ s.kernel

-- The table exists and is not the directory, the page exists, and perm has 12 bits and no
-- PTE_SHARE, which is bit 10.
pub record Insertable (d va t p perm : ℕ) (s : System) : Type 0 where
  pub walks : Walks d va t s.memory.words s.memory.npages
  pub not_dir : d ≢ t
  pub in_memory : p < s.memory.npages
  pub perm12 : perm < 4096
  pub bit10 : perm / 1024 % 2 ≡ 0

module _ (k d va t p perm : ℕ) (s : System) (h : Insertable d va t p perm s) where
  Inserted-words :
      (s' : System)
      → ((q j : ℕ) → s'.memory.words q j ≡ put_word s.memory.words t (ptx va) (mapping p perm) q j)
      → s'.memory.npages ≡ s.memory.npages
      → s'.rlt ≡ s.rlt
      → s'.kernel ≡ s.kernel
      → Inserted k d va t p perm s s'
  Inserted-words s' ws n r e = record {
    rlt = r;
    kernel = e;
    words = ws;
    npages = n;
    found =
        page_lookup-mapping k d va t p perm s s' h.walks h.not_dir h.in_memory h.perm12 h.bit10
          (ws t (ptx va) ∙ put_word_self s.memory.words t (ptx va) (mapping p perm))
          (ws d (pdx va)
            ∙ put_word_ne s.memory.words t (ptx va) d (pdx va) (mapping p perm) h.not_dir)
          n;
  }

  page_insert_done :
      (s' : System)
      → insert_at k d p va perm t (ptx va) s ≡ some s'
      → page_insert k d p va perm s ≡ some (true, s')
  unfolding page_insert
  page_insert_done s' e = rw (page_insert, pgdir_walk-Walks k d va t s h.walks true, e) refl

  insert_at_empty :
      is_present (s.memory.words t (ptx va)) ≡ false
      → insert_at k d p va perm t (ptx va) s
        ≡ some (write_entry t (ptx va) (mapping p perm) (set_memory (add_ref p s.memory) s))
  unfolding insert_at add_ref
  insert_at_empty empty = rw empty refl

  -- Where nothing was mapped, page_insert maps the page, which gets one more reference; the free
  -- list stays.
  pub page_insert-Inserted :
      (r : ℕ) (xs : List ℕ)
      → is_present (s.memory.words t (ptx va)) ≡ false
      → IsFreeList s.memory xs
      → p ∉ xs
      → (s.memory.pages p).pp_ref ≡ r
      → suc r < 65536
      → (s' : System) × (page_insert k d p va perm s ≡ some (true, s'))
        × Inserted k d va t p perm s s'
        × ((s'.memory.pages p).pp_ref ≡ suc r)
        × IsFreeList s'.memory xs
  unfolding write_entry add_ref
  page_insert-Inserted r xs empty l out ref small =
      let s1 = set_memory (add_ref p s.memory) s in
      let l1 = add_ref-IsFreeList s.memory p xs l out in
      (
        write_entry t (ptx va) (mapping p perm) s1,
        page_insert_done _ (insert_at_empty empty),
        Inserted-words (write_entry t (ptx va) (mapping p perm) s1) (λ q j. refl) refl refl refl,
        ap PageInfo.pp_ref (add_ref_self s.memory p) ∙ omega (arith, ref),
        record { linked = l1.linked; unused = l1.unused },
      )

  -- Where a page was mapped, which has `suc n` references once those of `p` are counted up.
  module _ (n : ℕ) (xs : List ℕ) (present : is_present (s.memory.words t (ptx va)) ≡ true)
      (home : is_on_disk (s.memory.words t (ptx va)) ≡ false)
      (old : (s.memory.words t (ptx va)).frame < s.memory.npages)
      (l : IsFreeList (add_ref p s.memory) xs)
      (u : Used (s.memory.words t (ptx va)).frame n xs (add_ref p s.memory)) where
    removed :
        (s2 : System) × (page_remove k d va (set_memory (add_ref p s.memory) s) ≡ some s2)
        × Removed t (ptx va) n xs (set_memory (add_ref p s.memory) s) s2
    unfolding add_ref
    removed =
        page_remove-Removed k d va t n xs (set_memory (add_ref p s.memory) s) h.walks
          (record { present = present; not_on_disk = home; in_memory = old }) l u

    insert_at_present :
        insert_at k d p va perm t (ptx va) s
        ≡ some (write_entry t (ptx va) (mapping p perm) removed.0)
    unfolding insert_at add_ref
    insert_at_present = rw (insert_at, removed.1, present) refl

    Inserted-removed :
        Inserted k d va t p perm s (write_entry t (ptx va) (mapping p perm) removed.0)
    unfolding write_entry add_ref
    Inserted-removed =
        Inserted-words (write_entry t (ptx va) (mapping p perm) removed.0)
          (λ q j.
            ap (λ ws. put_word ws t (ptx va) (mapping p perm) q j) removed.2.words
            ∙ put_word_twice s.memory.words t (ptx va) q j zero_pte (mapping p perm))
          removed.2.npages removed.2.rlt removed.2.kernel

    pub insert_present :
        (s' : System) × (page_insert k d p va perm s ≡ some (true, s'))
        × Inserted k d va t p perm s s'
        × ((s'.memory.pages (s.memory.words t (ptx va)).frame).pp_ref ≡ n)
        × IsFreeList s'.memory (if n == 0 then (s.memory.words t (ptx va)).frame ∷ xs else xs)
    unfolding write_entry add_ref
    insert_present = (
      write_entry t (ptx va) (mapping p perm) removed.0,
      page_insert_done _ insert_at_present,
      Inserted-removed,
      removed.2.pp_ref,
      record { linked = removed.2.free.linked; unused = removed.2.free.unused },
    )
