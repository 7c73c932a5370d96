-- ===== src/Swap/Frames/Queue.antt =====
-- The frames in use are a queue: a page that is allocated joins at the tail, and the victim is
-- taken from the head.
use backup_gatech.Common.{
  ℕ, suc, ◌/◌, ◌≤◌, ◌≡◌, ◌≢◌, Option, none, some, List, [], ◌∷◌, ◌++◌, arith, refl, ap, sym, ◌∙◌,
  if◌then◌else◌, length, ltb, leb, true, ◌<◌, ◌||◌,
}
use mathlib.Core.Path.{subst}
use mathlib.Core.Option
use backup_gatech.Swap.Frames.{
  Pool, Rlt, update, link_at, fill_entry, insert_tail, phys_frames, on_page_alloc_success,
  unlink_head, remove_victim_page_fifo, remove_victim_page,
}
use backup_gatech.Swap.Frames.Chains.{
  elem, ◌∉◌, Chain, Represents, frame-update, Appended, walk_tail-Appended,
}

-- What `on_page_alloc_success` must do with frame `i`: append it with its owner, and leave the
-- owners of the other frames alone.
pub record Enqueued (s : Rlt) (xs : List ℕ) (i v e : ℕ) (o : Option Rlt) : Type 0 where
  pub after : Rlt
  pub ends : o ≡ some after
  pub queue : Represents after (xs ++ (i ∷ []))
  pub owner : ((after.pool i).va ≡ v) × ((after.pool i).envid ≡ e)
  pub others :
      (j : ℕ)
      → j ≢ i
      → ((after.pool j).va ≡ (s.pool j).va) × ((after.pool j).envid ≡ (s.pool j).envid)

link_at-owner :
    (f : Pool) (t i j : ℕ)
    → ((link_at f t i j).va ≡ (f j).va) × ((link_at f t i j).envid ≡ (f j).envid)
unfolding link_at update
link_at-owner f t i j = ground arith

fill_entry_self :
    (f : Pool) (i v e : ℕ)
    → ((fill_entry f i v e i).va ≡ v)
      × ((fill_entry f i v e i).envid ≡ e)
      × ((fill_entry f i v e i).next ≡ none)
unfolding fill_entry update
fill_entry_self f i v e = ground arith

fill_entry-ne : (f : Pool) (i v e j : ℕ) → j ≢ i → fill_entry f i v e j ≡ f j
unfolding fill_entry update
fill_entry-ne f i v e j h = ground arith

frame-fill_entry :
    (f : Pool) (i v e : ℕ) (h : Option ℕ) (xs : List ℕ)
    → Chain f h xs
    → i ∉ xs
    → Chain (fill_entry f i v e) h xs
unfolding fill_entry
frame-fill_entry f i v e h xs c n = frame-update f i _ h xs c n

insert_after-Enqueued :
    (k : ℕ) (s : Rlt) (p i v e : ℕ) (xs : List ℕ)
    → Appended (fill_entry s.pool i v e) p i xs (suc k)
    → Enqueued s (p ∷ xs) i v e (insert_tail (suc k) (fill_entry s.pool i v e) i (some p))
unfolding insert_tail
insert_after-Enqueued k s p i v e xs a =
    let f = fill_entry s.pool i v e in
    let kept = link_at-owner f a.tail i in
    record {
      after = record { pool = link_at f a.tail i; in_use_frames = some p };
      ends = rw (a.walked, insert_tail);
      queue = a.chain;
      owner = (
        (kept i).0 ∙ (fill_entry_self s.pool i v e).0,
        (kept i).1 ∙ (fill_entry_self s.pool i v e).1,
      );
      others = λ j h. rw ((kept j).0, (kept j).1, fill_entry-ne s.pool i v e j h) (refl, refl);
    }

insert_tail-Enqueued :
    (k : ℕ) (s : Rlt) (xs : List ℕ) (i v e : ℕ) (h : Option ℕ)
    → Chain s.pool h xs
    → i ∉ xs
    → length xs ≤ k
    → Enqueued s xs i v e (insert_tail (suc k) (fill_entry s.pool i v e) i h)
unfolding insert_tail
insert_tail-Enqueued k s [] i v e none c n l = record {
  after = record { pool = fill_entry s.pool i v e; in_use_frames = some i };
  ends = refl;
  queue = (refl, refl, (fill_entry_self s.pool i v e).2);
  owner = ((fill_entry_self s.pool i v e).0, (fill_entry_self s.pool i v e).1);
  others = λ j h. rw (fill_entry-ne s.pool i v e j h) (refl, refl);
}
insert_tail-Enqueued k s [] i v e (some p) c n l = absurd (cc)
insert_tail-Enqueued k s (p ∷ xs) i v e none c n l = absurd (cc)
insert_tail-Enqueued k s (p ∷ xs) i v e (some h) c n l =
    let same : p ≡ h = cc in
    subst
      (λ q. Enqueued s (p ∷ xs) i v e (insert_tail (suc k) (fill_entry s.pool i v e) i (some q)))
      same
      (insert_after-Enqueued k s p i v e xs (
        walk_tail-Appended (fill_entry s.pool i v e) (suc k) p i xs
          (frame-fill_entry s.pool i v e (some p) (p ∷ xs) (refl, c.1, c.2) n) n
          (fill_entry_self s.pool i v e).2 (omega arith)))

-- If the list holds the frames `xs`, no more than memory has, and the frame of `pa` is one of
-- memory and not among them, `on_page_alloc_success` ends, appends the frame with its owner, and
-- leaves the owners of all other entries as they were.
pub on_page_alloc_success-Enqueued :
    (v e pa : ℕ) (s : Rlt) (xs : List ℕ)
    → Represents s xs
    → (pa / 4096) ∉ xs
    → length xs ≤ phys_frames
    → pa / 4096 < phys_frames
    → Enqueued s xs (pa / 4096) v e (on_page_alloc_success v e pa s)
unfolding on_page_alloc_success
on_page_alloc_success-Enqueued v e pa s xs c n l fits =
    let inside : ltb (pa / 4096) phys_frames ≡ true = ground (arith, fits) in
    rw inside (insert_tail-Enqueued phys_frames s xs (pa / 4096) v e s.in_use_frames c n l)

-- If the list holds `p` and then `xs`, the victim is `p`, and the list then holds `xs`.
pub remove_victim_page_lem :
    (s : Rlt) (p : ℕ) (xs : List ℕ)
    → Represents s (p ∷ xs)
    → (s' : Rlt) × (remove_victim_page s ≡ some (p, s')) × Represents s' xs
unfolding remove_victim_page remove_victim_page_fifo unlink_head
remove_victim_page_lem s p xs c = (
  record {
    pool = update s.pool p (record (s.pool p) { next = none });
    in_use_frames = (s.pool p).next;
  },
  rw (c.0, unlink_head),
  frame-update s.pool p (record (s.pool p) { next = none }) (s.pool p).next xs c.2 c.1,
)

-- On an empty list of frames it panics.
pub remove_victim_page-empty : (s : Rlt) → Represents s [] → remove_victim_page s ≡ none
unfolding remove_victim_page remove_victim_page_fifo unlink_head
remove_victim_page-empty s c = rw (c, unlink_head)

-- A run of the pager: allocations, each with its page's owner, and evictions.
pub data Event : Type 0 where
  alloc : (va envid pa : ℕ) → Event
  evict : Event

-- The victims in order; `none` when an eviction panics or a loop does not end.
pub run : List Event → Rlt → Option (List ℕ)
run [] s = some []
run (alloc v e pa ∷ es) s = elim (on_page_alloc_success v e pa s) [
  | none ↦ none
  | some s' ↦ run es s'
]
run (evict ∷ es) s = elim (remove_victim_page s) [
  | none ↦ none
  | some (p, s') ↦ Option.map (λ ps. p ∷ ps) (run es s')
]

-- The same run on a plain queue of frames; `none` when a frame joins that is in the queue or no
-- frame of memory, when
-- the queue is longer than the machine's memory, or when it is empty at an eviction.
unfoldable pub queue_run : List Event → List ℕ → Option (List ℕ)
queue_run [] xs = some []
queue_run (alloc v e pa ∷ es) xs =
    let rest = queue_run es (xs ++ (pa / 4096 ∷ [])) in
    if elem (pa / 4096) xs || ltb phys_frames (length xs) || leb phys_frames (pa / 4096)
    then none
    else rest
queue_run (evict ∷ es) [] = none
queue_run (evict ∷ es) (p ∷ xs) = Option.map (λ ps. p ∷ ps) (queue_run es xs)

map-cons-inv :
    (p : ℕ) (o : Option (List ℕ)) (ps : List ℕ)
    → Option.map (λ qs. p ∷ qs) o ≡ some ps
    → (qs : List ℕ) × (o ≡ some qs) × (ps ≡ p ∷ qs)
map-cons-inv p none ps h = absurd (cc)
map-cons-inv p (some qs) ps h = (qs, refl, cc)

-- From a list that holds the frames of the plain queue in its order, whenever the plain queue runs
-- through without fault, so does the linked list of frames, and picks the same victims in the same
-- order.
pub run-queue_run :
    (es : List Event) (s : Rlt) (xs ps : List ℕ)
    → Represents s xs
    → queue_run es xs ≡ some ps
    → run es s ≡ some ps
unfolding run queue_run
run-queue_run [] s xs ps c h = h
run-queue_run (alloc v e pa ∷ es) s xs ps c h =
    let q =
      on_page_alloc_success-Enqueued v e pa s xs c (ground arith) (ground arith) (ground arith) in
    rw (q.ends, run) (run-queue_run es q.after _ ps q.queue (ground arith))
run-queue_run (evict ∷ es) s [] ps c h = absurd (cc)
run-queue_run (evict ∷ es) s (p ∷ xs) ps c h =
    let v = remove_victim_page_lem s p xs c in
    let (qs, e, same) = map-cons-inv p (queue_run es xs) ps h in
    rw (v.1, run, run-queue_run es v.0 xs qs v.2 e) (sym (ap some same))
