-- ===== src/Pages/Tables/Create.antt =====
-- A page table that pgdir_walk allocates, and mmio_map_region at the end of the address space.
use backup_gatech.Common.{
  ℕ, suc, ◌+◌, ◌*◌, ◌/◌, ◌%◌, ◌^◌, ◌<◌, ◌≤◌, ◌≡◌, ◌≢◌, some, List, ◌∷◌, true, false, ◌∙◌, ap, ltb,
  arith, refl, ◌∉◌,
}
use backup_gatech.Pages.{Pte, PageInfo, zero_pte, is_present, pdx, ptx, put_word, add_ref}
use backup_gatech.Pages.FreeList.{IsFreeList, take_page-Taken}
use backup_gatech.Pages.References.{add_ref-IsFreeList, add_ref_self}
use backup_gatech.Pages.Walks.{Walks, fill_page_self, put_word_self, put_word_ne}
use backup_gatech.Pages.Swap.{System}
use backup_gatech.Pages.Swap.RoundTrip.{page_alloc-Taken}
use backup_gatech.Pages.Tables.{
  table_entry, new_table, pgdir_walk, write_entry, map_pages, boot_map_region, mmio_map_region,
  mmiolim, round_up,
}

-- What pgdir_walk must do with the page `q` that becomes the table for `va`.
pub record Created (d va q : ℕ) (xs : List ℕ) (s' : System) : Type 0 where
  pub walks : Walks d va q s'.memory.words s'.memory.npages
  pub empty : (i : ℕ) → s'.memory.words q i ≡ zero_pte
  pub pp_ref : (s'.memory.pages q).pp_ref ≡ 1
  pub free : IsFreeList s'.memory xs

new_table-Created :
    (d va q : ℕ) (xs : List ℕ) (s : System)
    → q ≢ d
    → q < s.memory.npages
    → ((i : ℕ) → s.memory.words q i ≡ zero_pte)
    → (s.memory.pages q).pp_ref ≡ 0
    → IsFreeList s.memory xs
    → q ∉ xs
    → (table_entry d va (new_table d va q s) ≡ some (some (q, ptx va), new_table d va q s))
      × Created d va q xs (new_table d va q s)
unfolding table_entry new_table write_entry add_ref
new_table-Created d va q xs s other fits zeros ref l out =
    let e : Pte = record { frame = q; flags = 7 } in
    let self = put_word_self s.memory.words d (pdx va) e in
    let l1 = add_ref-IsFreeList s.memory q xs l out in
    let table : (put_word s.memory.words d (pdx va) e d (pdx va)).frame ≡ q = ap Pte.frame self in
    let inside : ltb q s.memory.npages ≡ true = ground (arith, fits) in
    (
      rw (table, inside) refl,
      record {
        walks = record { present = ap is_present self; table = table; in_memory = fits };
        empty = λ i. put_word_ne s.memory.words d (pdx va) q i e other ∙ zeros i;
        pp_ref = ap PageInfo.pp_ref (add_ref_self s.memory q) ∙ omega (arith, ref);
        free = record { linked = l1.linked; unused = l1.unused };
      },
    )

-- Where the directory has no table and a page is free, pgdir_walk with `create` makes the first
-- free page the table: it is empty, has one reference, and is no longer free.
pub pgdir_walk-Created :
    (k d va q : ℕ) (xs : List ℕ) (s : System)
    → is_present (s.memory.words d (pdx va)) ≡ false
    → IsFreeList s.memory (q ∷ xs)
    → q ≢ d
    → q < s.memory.npages
    → (s' : System) × (pgdir_walk (suc k) d va true s ≡ some (some (q, ptx va), s'))
      × Created d va q xs s'
unfolding pgdir_walk
pgdir_walk-Created k d va q xs s absent l other fits =
    let (m, e, taken, ws, n) = take_page-Taken true s.memory q xs l in
    let s1 = record s { memory = m } in
    let made =
      new_table-Created d va q xs s1 other (rw n fits)
        (λ i. ap (λ f. f q i) ws ∙ fill_page_self s.memory.words q i (λ j. zero_pte)) taken.no_refs
        taken.rest taken.gone in
    (new_table d va q s1, rw (pgdir_walk, absent, page_alloc-Taken k q true xs s l) made.0, made.1)

-- A size that ROUNDUP wraps to 0: mmio_map_region succeeds, and neither reserves nor maps.
pub mmio_map_region_wraps :
    (k d base pa size : ℕ) (s : System)
    → base ≤ mmiolim
    → pa < 2 ^ 32
    → size < 2 ^ 32
    → 2 ^ 32 ≤ size + 4095
    → mmio_map_region k d base pa size s ≡ some (base, base, s)
unfolding mmio_map_region boot_map_region map_pages
mmio_map_region_wraps k d base pa size s low small_pa small wraps =
    let zero_size : (size + 4095) % 2 ^ 32 / 4096 * 4096 ≡ 0 = omega arith in
    let same : (base + 0) % 2 ^ 32 ≡ base = omega arith in
    let inside : ltb mmiolim base ≡ false = ground arith in
    let ended : ltb (pa / 4096 * 4096) ((pa / 4096 * 4096 + 0) % 2 ^ 32) ≡ false = ground arith in
    let whole : (base + round_up size) % 2 ^ 32 ≡ base = omega (arith, zero_size) in
    rw (zero_size, same, inside, ended) (ap (λ b. some (base, b, s)) whole)
