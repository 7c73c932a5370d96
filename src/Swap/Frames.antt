-- ===== src/Swap/Frames.antt =====
-- The list of frames in use, `in_use_frames`, threaded through `reverse_lookup_pool`:
-- on_page_alloc_success, remove_victim_page_fifo, remove_victim_page and env_destroy_cleanup of
-- os_final_project/code/kern/paging_utils.c. A pointer to an entry is its index in the pool, which
-- has PHYS_FRAMES entries. The loops take fuel PHYS_FRAMES + 1; `none` is a loop that goes on for
-- ever, or a frame outside the pool.
pub mod Chains
pub mod Queue
pub mod Cleanup
pub mod Relink
use backup_gatech.Common.{
  ℕ, zero, suc, ◌/◌, Option, none, some, List, Bool, if◌then◌else◌, ◌==◌, ltb,
}

pub record RltEntry : Type 0 where
  pub va : ℕ
  pub envid : ℕ
  pub next : Option ℕ
  pub lru_count : ℕ

abbrev pub Pool : Type 0
Pool = ℕ → RltEntry

pub record Rlt : Type 0 where
  pub pool : Pool
  pub in_use_frames : Option ℕ

abbrev pub phys_frames : ℕ
phys_frames = 16384

unfoldable pub update : Pool → ℕ → RltEntry → Pool
update f i e j = if j == i then e else f j

-- `while (tail->next != NULL) tail = tail->next;`
pub walk_tail : ℕ → Pool → ℕ → Option ℕ
walk_tail zero f p = none
walk_tail (suc k) f p = elim (f p).next [ none ↦ some p | some q ↦ walk_tail k f q ]

-- `tail->next = new`
pub link_at : Pool → ℕ → ℕ → Pool
link_at f t i = update f t (record (f t) { next = some i })

-- The pool once the entry `i` is filled in.
pub fill_entry : Pool → ℕ → ℕ → ℕ → Pool
fill_entry f i v e = update f i (record (f i) { va = v; envid = e; next = none })

pub insert_tail : ℕ → Pool → ℕ → Option ℕ → Option Rlt
insert_tail k f i none = some (record { pool = f; in_use_frames = some i })
insert_tail k f i (some h) = elim (walk_tail k f h) [
  | none ↦ none
  | some t ↦ some (record { pool = link_at f t i; in_use_frames = some h })
]

pub on_page_alloc_success : (va envid pa : ℕ) → Rlt → Option Rlt
on_page_alloc_success v e pa s =
    if ltb (pa / 4096) phys_frames
    then insert_tail (suc phys_frames) (fill_entry s.pool (pa / 4096) v e) (pa / 4096)
        s.in_use_frames
    else none

unfoldable pub unlink_head : Pool → Option ℕ → Option (ℕ × Rlt)
unlink_head f none = none
unlink_head f (some h) =
    some
      (h, record { pool = update f h (record (f h) { next = none }); in_use_frames = (f h).next })

-- `none` is the panic on an empty list.
unfoldable pub remove_victim_page_fifo : Rlt → Option (ℕ × Rlt)
remove_victim_page_fifo s = unlink_head s.pool s.in_use_frames

unfoldable pub remove_victim_page : Rlt → Option (ℕ × Rlt)
remove_victim_page s = remove_victim_page_fifo s

pub cleared : RltEntry → RltEntry
cleared r = record r { va = 0; envid = 0; next = none }

-- `while (next != NULL && next->envid == envid)`
pub skip_owned : ℕ → ℕ → Pool → Option ℕ → Option (Pool × Option ℕ)
skip_owned zero e f next = none
skip_owned (suc k) e f none = some (f, none)
skip_owned (suc k) e f (some p) =
    let rest = skip_owned k e (update f p (cleared (f p))) (f p).next in
    if (f p).envid == e then rest else some (f, some p)

-- The pool once `p`, which stands after `prev`, is taken out and cleared.
pub unlink_after : Pool → ℕ → ℕ → Pool
unlink_after f prev p =
    let g = update f prev (record (f prev) { next = (f p).next }) in update g p (cleared (g p))

-- The second loop of `env_destroy_cleanup`.
pub unlink_owned : ℕ → ℕ → Pool → ℕ → Option ℕ → Option Pool
unlink_owned zero e f prev next = none
unlink_owned (suc k) e f prev none = some f
unlink_owned (suc k) e f prev (some p) =
    let g = unlink_after f prev p in
    let taken = unlink_owned k e g prev (g prev).next in
    let kept = unlink_owned k e f p (f p).next in if (f p).envid == e then taken else kept

pub cleanup_from : ℕ → ℕ → Option ℕ → Option (Pool × Option ℕ) → Option Rlt
cleanup_from k e h none = none
cleanup_from k e h (some (f, none)) = some (record { pool = f; in_use_frames = h })
cleanup_from k e h (some (f, some p)) = elim (unlink_owned k e f p (f p).next) [
  | none ↦ none
  | some g ↦ some (record { pool = g; in_use_frames = some p })
]

pub env_destroy_cleanup : ℕ → Rlt → Option Rlt
env_destroy_cleanup e s =
    cleanup_from (suc phys_frames) e s.in_use_frames
      (skip_owned (suc phys_frames) e s.pool s.in_use_frames)
