-- ===== src/Pages/Swap/Writes.antt =====
-- A page goes to the disk and comes back.
use backup_gatech.Common.{
  ℕ, ◌+◌, ◌-◌, ◌*◌, ◌/◌, ◌%◌, ◌<◌, ◌≡◌, ◌≢◌, none, some, List, ◌∷◌, true, false, ◌∙◌, ap,
  if◌then◌else◌, ◌==◌, ltb, arith, refl, ◌∉◌,
}
use backup_gatech.Pages.{Pte, Memory, ptx, is_present, is_on_disk, put_word}
use backup_gatech.Pages.FreeList.{IsFreeList}
use backup_gatech.Pages.References.{page_decref-IsFreeList}
use backup_gatech.Pages.Walks.{Walks, find_pte-Walks}
use backup_gatech.Pages.Swap.{
  System, translate, swapped_out, swapped_in, write_out, write_page, page_to_disk, ensure_init,
  round_down,
}

-- An odd number with bits 8 and 10 clear, as flags on the way out and on the way in.
module _ (x : ℕ) (odd : x % 2 ≡ 1) (bit8 : x / 256 % 2 ≡ 0) (bit10 : x / 1024 % 2 ≡ 0) where
  flags_out :
      (x - x / 256 % 2 * 256 + (1 - (x - x / 256 % 2 * 256) / 1024 % 2) * 1024) / 2 * 2 ≡ x + 1023
  flags_out = let kept : x - x / 256 % 2 * 256 ≡ x = omega arith in rw (kept, bit10) omega arith

  bit8_out : (x + 1023) / 256 % 2 ≡ 0
  bit8_out = omega arith

  bit10_out : (x + 1023) / 1024 % 2 ≡ 1
  bit10_out = omega arith

  flags_in :
      (x
            + 1023
            - (x + 1023) / 256 % 2 * 256
            - (x + 1023 - (x + 1023) / 256 % 2 * 256) / 1024 % 2 * 1024)
          / 2
          * 2
        + 1
      ≡ x
  flags_in =
      let kept : x + 1023 - (x + 1023) / 256 % 2 * 256 ≡ x + 1023 = omega (arith, bit8_out) in
      rw (kept, bit10_out) omega arith

-- An entry that is present, and has bits 8 and 10 clear, comes back from the disk with its own
-- flags and the new frame.
pub swapped_in-swapped_out :
    (e : Pte) (b p : ℕ)
    → e.flags % 2 ≡ 1
    → e.flags / 256 % 2 ≡ 0
    → e.flags / 1024 % 2 ≡ 0
    → swapped_in p (swapped_out b e) ≡ record { frame = p; flags = e.flags }
unfolding swapped_in swapped_out
swapped_in-swapped_out e b p present bit8 bit10 =
    rw (flags_out e.flags present bit8 bit10, flags_in e.flags present bit8 bit10) refl

-- While the page is out, its entry is not present and is marked as on the disk.
pub swapped_out-is_on_disk :
    (e : Pte) (b : ℕ)
    → e.flags % 2 ≡ 1
    → e.flags / 256 % 2 ≡ 0
    → e.flags / 1024 % 2 ≡ 0
    → (is_present (swapped_out b e) ≡ false) × (is_on_disk (swapped_out b e) ≡ true)
unfolding swapped_out
swapped_out-is_on_disk e b present bit8 bit10 =
    rw (flags_out e.flags present bit8 bit10, bit10_out e.flags present bit8 bit10)
      (ground arith, refl)

-- What page_to_disk must do: the block holds the page's words, the entry names the block, and the
-- frame is the first free page.
pub record Stored (t i f b : ℕ) (xs : List ℕ) (s s' : System) : Type 0 where
  pub words : s'.memory.words ≡ put_word s.memory.words t i (swapped_out b (s.memory.words t i))
  pub npages : s'.memory.npages ≡ s.memory.npages
  pub block : (j : ℕ) → s'.disk b j ≡ s.memory.words f j
  pub other_blocks : (c j : ℕ) → c ≢ b → s'.disk c j ≡ s.disk c j
  pub free : IsFreeList s'.memory (f ∷ xs)
  pub kernel : s'.kernel ≡ s.kernel
  pub initialized : s'.initialized ≡ s.initialized

pub translate-Walks :
    {d va t : ℕ} (m : Memory)
    → Walks d va t m.words m.npages
    → is_present (m.words t (ptx va)) ≡ true
    → translate d va m ≡ some (m.words t (ptx va)).frame
unfolding translate
translate-Walks m w p = rw (translate, find_pte-Walks m w, p) refl

-- A page that is mapped once and has its reference only there.
pub record Alone (t i : ℕ) (m : Memory) : Type 0 where
  pub present : is_present (m.words t i) ≡ true
  pub in_memory : (m.words t i).frame < m.npages
  pub pp_ref : (m.pages (m.words t i).frame).pp_ref ≡ 1
  pub pp_link : (m.pages (m.words t i).frame).pp_link ≡ none

write_out-Stored :
    (va b t i : ℕ) (xs : List ℕ) (s : System)
    → Alone t i s.memory
    → IsFreeList s.memory xs
    → (s.memory.words t i).frame ∉ xs
    → (s' : System) × (write_out va b t i (s.memory.words t i).frame s ≡ some s')
      × Stored t i (s.memory.words t i).frame b xs s s'
unfolding write_out
write_out-Stored va b t i xs s a l out =
    let f = (s.memory.words t i).frame in
    let m = record s.memory {
      words = put_word s.memory.words t i (swapped_out b (s.memory.words t i));
    } in
    let fits : ltb (s.memory.words t i).frame s.memory.npages ≡ true =
      ground (arith, a.in_memory) in
    let single : ltb 1 (s.memory.pages f).pp_ref ≡ false = ground (arith, a.pp_ref) in
    let freed =
      page_decref-IsFreeList m f 0 xs (record { linked = l.linked; unused = l.unused }) out
        a.pp_link a.pp_ref (omega arith) in
    (
      record s {
        memory = freed.0;
        disk = λ c j. if c == b then s.memory.words f j else s.disk c j;
      },
      rw (fits, single, freed.1) refl,
      record {
        words = freed.4.words;
        npages = freed.4.npages;
        block = λ j. ground arith;
        other_blocks = λ c j n. ground arith;
        free = freed.3;
        kernel = refl;
        initialized = refl;
      },
    )

pub ensure_init_idle : (s : System) → s.initialized ≡ true → ensure_init s ≡ s
unfolding ensure_init
ensure_init_idle s init = rw init refl

-- A page that is mapped once, and is not on the free list, goes to the block: page_to_disk stores
-- its words there, marks the entry with the block, and the frame becomes the first free page.
pub page_to_disk-Stored :
    (d va b t : ℕ) (xs : List ℕ) (s : System)
    → s.initialized ≡ true
    → Walks d (round_down va) t s.memory.words s.memory.npages
    → Alone t (ptx (round_down va)) s.memory
    → IsFreeList s.memory xs
    → (s.memory.words t (ptx (round_down va))).frame ∉ xs
    → (s' : System) × (page_to_disk d va b s ≡ some s')
      × Stored t (ptx (round_down va)) (s.memory.words t (ptx (round_down va))).frame b xs s s'
unfolding page_to_disk write_page
page_to_disk-Stored d va b t xs s init w a l out =
    let done = write_out-Stored va b t (ptx (round_down va)) xs s a l out in
    (
      done.0,
      ap (write_page d va b) (ensure_init_idle s init)
          ∙ rw (write_page, find_pte-Walks s.memory w, translate-Walks s.memory w a.present) done.1,
      done.2,
    )
