-- ===== src/Swap/Frames/Relink.antt =====
-- What `on_page_alloc_success` does with a frame that is still on the list. Frames that are
-- unmapped are not taken off the list, and `page_alloc` hands the frame that was freed last out
-- first.
use backup_gatech.Common.{ℕ, zero, suc, ◌/◌, ◌<◌, ◌≡◌, true, ltb, none, some, [], ◌∷◌, arith, refl}
use backup_gatech.Swap.Frames.{
  Pool, Rlt, update, walk_tail, link_at, fill_entry, insert_tail, phys_frames,
  on_page_alloc_success,
}
use backup_gatech.Swap.Frames.Chains.{Represents}

fill_entry-next : (f : Pool) (i v e : ℕ) → (fill_entry f i v e i).next ≡ none
unfolding fill_entry update
fill_entry-next f i v e = ground arith

link_at-next : (f : Pool) (t i : ℕ) → (link_at f t i t).next ≡ some i
unfolding link_at update
link_at-next f t i = ground arith

-- The walk never leaves an entry that points to itself.
walk_tail_self : (k : ℕ) (f : Pool) (i : ℕ) → (f i).next ≡ some i → walk_tail k f i ≡ none
unfolding walk_tail
walk_tail_self zero f i h = refl
walk_tail_self (suc k) f i h = rw (h, walk_tail) (walk_tail_self k f i h)

insert_tail-relinks :
    (k : ℕ) (f : Pool) (i : ℕ)
    → (f i).next ≡ none
    → insert_tail (suc k) f i (some i)
      ≡ some (record { pool = link_at f i i; in_use_frames = some i })
unfolding insert_tail walk_tail
insert_tail-relinks k f i h = rw (h, insert_tail, walk_tail)

-- The head frame, one of memory, that is allocated again, when it is alone on the list, is linked
-- to itself; from then on the loop that looks for the tail does not end, however long it runs.
pub on_page_alloc_success-relinks :
    (v e pa : ℕ) (s : Rlt)
    → Represents s (pa / 4096 ∷ [])
    → pa / 4096 < phys_frames
    → (s' : Rlt) × (on_page_alloc_success v e pa s ≡ some s')
      × (s'.in_use_frames ≡ some (pa / 4096))
      × ((s'.pool (pa / 4096)).next ≡ some (pa / 4096))
      × ((k : ℕ) → walk_tail k s'.pool (pa / 4096) ≡ none)
unfolding on_page_alloc_success
on_page_alloc_success-relinks v e pa s c fits =
    let inside : ltb (pa / 4096) phys_frames ≡ true = ground (arith, fits) in
    let f = fill_entry s.pool (pa / 4096) v e in
    let looped = link_at-next f (pa / 4096) (pa / 4096) in
    (
      record { pool = link_at f (pa / 4096) (pa / 4096); in_use_frames = some (pa / 4096) },
      rw (inside, c.0)
          (insert_tail-relinks phys_frames f (pa / 4096) (fill_entry-next s.pool (pa / 4096) v e)),
      refl,
      looped,
      λ k. walk_tail_self k _ (pa / 4096) looped,
    )
