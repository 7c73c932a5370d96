-- ===== src/Pages/Swap/Evict.antt =====
-- page_alloc when no page is free: handle_out_of_pages.
use backup_gatech.Common.{
  ℕ, suc, ◌+◌, ◌-◌, ◌*◌, ◌/◌, ◌%◌, ◌≡◌, ◌≢◌, none, some, [], Bool, true, false, if◌then◌else◌, refl,
  ◌∙◌, ap, sym, arith,
}
use mathlib.Core.Path.{subst}
use backup_gatech.Swap.Blocks.{alloc_blockno}
use backup_gatech.Swap.Frames.{Rlt, remove_victim_page}
use backup_gatech.Pages.{Pte, Memory, zero_pte, ptx, fill_page, take_page}
use backup_gatech.Pages.FreeList.{IsFreeList, take_page-Taken}
use backup_gatech.Pages.Walks.{Walks, put_word_self, fill_page_ne}
use backup_gatech.Pages.Swap.{
  System, after_victim, evict_page, page_alloc, pgdir_of, round_down, swapped_out,
}
use backup_gatech.Pages.Swap.Writes.{Stored, Alone, page_to_disk-Stored}
use backup_gatech.Pages.Swap.RoundTrip.{page_alloc-Taken}

-- The victim that leaves the queue, the block for it and its page directory.
pub record Victim (v b d t : ℕ) (r : Rlt) (s : System) : Type 0 where
  pub removed : remove_victim_page s.rlt ≡ some (v, r)
  pub block : (alloc_blockno s.free_block_bitmap).0 ≡ some b
  pub pgdir : pgdir_of (r.pool v).envid s.kernel ≡ some d
  pub walks : Walks d (round_down (r.pool v).va) t s.memory.words s.memory.npages
  pub alone : Alone t (ptx (round_down (r.pool v).va)) s.memory

evict_page-Stored :
    (v b d t : ℕ) (r : Rlt) (s : System)
    → s.initialized ≡ true
    → IsFreeList s.memory []
    → Victim v b d t r s
    → (s' : System) × (evict_page s ≡ some (true, s'))
      × Stored t
          (ptx (round_down (r.pool v).va))
          (s.memory.words t (ptx (round_down (r.pool v).va))).frame
          b
          []
          s
          s'
unfolding evict_page
evict_page-Stored v b d t r s init l h =
    let done =
      page_to_disk-Stored d (r.pool v).va b t [] (after_victim r s) init h.walks h.alone l refl in
    (
      done.0,
      rw (evict_page, h.removed, h.block, h.pgdir, done.1) refl,
      record {
        words = done.2.words;
        npages = done.2.npages;
        block = done.2.block;
        other_blocks = done.2.other_blocks;
        free = done.2.free;
        kernel = done.2.kernel;
        initialized = done.2.initialized;
      },
    )

-- Another frame keeps its words.
kept_word :
    (clear : Bool) (ws : ℕ → ℕ → Pte) (f q j : ℕ)
    → q ≢ f
    → (if clear then fill_page ws f (λ k. zero_pte) else ws) q j ≡ ws q j
kept_word true ws f q j ne = fill_page_ne ws f q j (λ k. zero_pte) ne
kept_word false ws f q j ne = refl

set_bit10 : (x : ℕ) → (x + (1 - x / 1024 % 2) * 1024) / 1024 % 2 ≡ 1
set_bit10 x = omega arith

even_bit10 : (x : ℕ) → x / 2 * 2 / 1024 % 2 ≡ x / 1024 % 2
even_bit10 x = omega arith

-- An entry that names the block, is not present and is marked as on the disk.
pub record IsMarked (b : ℕ) (e : Pte) : Type 0 where
  pub frame : e.frame ≡ b
  pub not_present : e.flags % 2 ≡ 0
  pub on_disk : e.flags / 1024 % 2 ≡ 1

swapped_out-IsMarked : (b : ℕ) (e : Pte) → IsMarked b (swapped_out b e)
unfolding swapped_out
swapped_out-IsMarked b e =
    let kept = e.flags - e.flags / 256 % 2 * 256 in
    record {
      frame = refl;
      not_present = omega arith;
      on_disk = even_bit10 (kept + (1 - kept / 1024 % 2) * 1024) ∙ set_bit10 kept;
    }

take_page-none : (clear : Bool) (m : Memory) → IsFreeList m [] → take_page clear m ≡ none
unfolding take_page
take_page-none clear m l = rw l.linked refl

page_alloc_again :
    (k : ℕ) (clear : Bool) (s s' : System)
    → take_page clear s.memory ≡ none
    → s.initialized ≡ true
    → evict_page s ≡ some (true, s')
    → page_alloc (suc k) clear s ≡ page_alloc k clear s'
unfolding page_alloc
page_alloc_again k clear s s' empty init gone = rw (page_alloc, empty, gone, init) refl

-- With no page free, a victim that is mapped once, by a table in another frame, and a free block,
-- page_alloc gives out the victim's frame after storing its words in the block; the victim's entry
-- then names the block, is not present and has PTE_ON_DISK, and no page is free.
pub page_alloc-evict_page :
    (k v b d t : ℕ) (clear : Bool) (r : Rlt) (s : System)
    → s.initialized ≡ true
    → IsFreeList s.memory []
    → Victim v b d t r s
    → t ≢ (s.memory.words t (ptx (round_down (r.pool v).va))).frame
    → (s' : System) × (page_alloc (suc (suc k)) clear s
        ≡ some (some (s.memory.words t (ptx (round_down (r.pool v).va))).frame, s'))
      × ((j : ℕ)
          → s'.disk b j
            ≡ s.memory.words (s.memory.words t (ptx (round_down (r.pool v).va))).frame j)
      × IsMarked b (s'.memory.words t (ptx (round_down (r.pool v).va)))
      × IsFreeList s'.memory []
page_alloc-evict_page k v b d t clear r s init l h apart =
    let gone = evict_page-Stored v b d t r s init l h in
    let f = (s.memory.words t (ptx (round_down (r.pool v).va))).frame in
    let got = take_page-Taken clear gone.0.memory f [] gone.2.free in
    let i = ptx (round_down (r.pool v).va) in
    let entry : got.0.words t i ≡ swapped_out b (s.memory.words t i) =
      ap (λ ws. ws t i) got.3
      ∙ kept_word clear gone.0.memory.words f t i apart
      ∙ ap (λ ws. ws t i) gone.2.words
      ∙ put_word_self s.memory.words t i (swapped_out b (s.memory.words t i)) in
    (
      record gone.0 { memory = got.0 },
      page_alloc_again (suc k) clear s gone.0 (take_page-none clear s.memory l) init gone.1
          ∙ page_alloc-Taken k f clear [] gone.0 gone.2.free,
      gone.2.block,
      subst (IsMarked b) (sym entry) (swapped_out-IsMarked b (s.memory.words t i)),
      record { linked = got.2.rest.linked; unused = got.2.rest.unused },
    )
