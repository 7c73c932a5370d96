-- ===== src/Syscall/Grant.antt =====
-- sys_page_alloc.
use backup_gatech.Common.{
  ℕ, suc, ◌*◌, ◌/◌, ◌%◌, ◌<◌, ◌≡◌, ◌≢◌, some, List, [], ◌∷◌, ◌++◌, ◌∉◌, ◌≤◌, length, true, false,
  ◌∙◌, ap, sym, arith, refl, elem,
}
use backup_gatech.Env.{env_at, envid2env, env, bad_env}
use mathlib.Core.Path.{subst}
use backup_gatech.Swap.Frames.{Rlt, on_page_alloc_success, phys_frames}
use backup_gatech.Swap.Frames.Chains.{Represents}
use backup_gatech.Swap.Frames.Queue.{Enqueued, on_page_alloc_success-Enqueued}
use backup_gatech.Pages.{Pte, zero_pte, is_present, pdx, ptx}
use backup_gatech.Pages.Swap.{page_alloc}
use backup_gatech.Pages.FreeList.{IsFreeList, take_page-Taken}
use backup_gatech.Pages.Walks.{Walks, put_word_self, put_word_ne, fill_page_ne, fill_page_self}
use backup_gatech.Pages.Swap.{System}
use backup_gatech.Pages.Swap.RoundTrip.{page_alloc-Taken}
use backup_gatech.Pages.Tables.{mapping, page_insert, page_lookup}
use backup_gatech.Pages.Tables.Insert.{Insertable, page_insert-Inserted, page_lookup-mapping}
use backup_gatech.Syscall.{ok, e_bad_env, is_perm, is_user_page, insert_new, sys_page_alloc}
use backup_gatech.Syscall.Envs.{with_env-env, with_env-bad_env, with_pgdir-some}

-- The state once page_alloc took the page `p`, with its words zero.
record Took (p : ℕ) (xs : List ℕ) (s s1 : System) : Type 0 where
  free : IsFreeList s1.memory xs
  gone : elem p xs ≡ false
  unused : (s1.memory.pages p).pp_ref ≡ 0
  zero_words : (i : ℕ) → s1.memory.words p i ≡ zero_pte
  others : (q i : ℕ) → q ≢ p → s1.memory.words q i ≡ s.memory.words q i
  npages : s1.memory.npages ≡ s.memory.npages
  kernel : s1.kernel ≡ s.kernel
  rlt : s1.rlt ≡ s.rlt

page_alloc-Took :
    (k p : ℕ) (xs : List ℕ) (s : System)
    → IsFreeList s.memory (p ∷ xs)
    → (s1 : System) × (page_alloc (suc k) true s ≡ some (some p, s1)) × Took p xs s s1
page_alloc-Took k p xs s l =
    let (m, e, taken, ws, n) = take_page-Taken true s.memory p xs l in
    (
      record s { memory = m },
      page_alloc-Taken k p true xs s l,
      record {
        free = record { linked = taken.rest.linked; unused = taken.rest.unused };
        gone = taken.gone;
        unused = taken.no_refs;
        zero_words = λ i. ap (λ f. f p i) ws ∙ fill_page_self s.memory.words p i (λ j. zero_pte);
        others =
            λ q i ne. ap (λ f. f q i) ws ∙ fill_page_ne s.memory.words p q i (λ j. zero_pte) ne;
        npages = n;
        kernel = refl;
        rlt = refl;
      },
    )

-- A call of sys_page_alloc whose arguments are in order: the id is that of the environment `i`
-- that the caller may change, whose directory `d` has the table `t` for `va` with nothing there,
-- and `p` is the first free page. The permission does not have PTE_SHARE, bit 10, which passes the
-- test of sys_page_alloc, but is the mark of a page on the disk.
pub record Request (id i d va t p perm : ℕ) (xs : List ℕ) (s : System) : Type 0 where
  pub perm_ok : is_perm perm ≡ true
  pub user_page : is_user_page va ≡ true
  pub found : envid2env id true s.kernel ≡ env (some i)
  pub pgdir : (env_at s.kernel.envs i).env_pgdir ≡ some d
  pub walks : Walks d va t s.memory.words s.memory.npages
  pub empty : is_present (s.memory.words t (ptx va)) ≡ false
  pub free : IsFreeList s.memory (p ∷ xs)
  pub not_dir : d ≢ t
  pub other_dir : d ≢ p
  pub other_table : t ≢ p
  pub in_memory : p < s.memory.npages
  pub bit10 : perm / 1024 % 2 ≡ 0

module _ (k id i d va t p perm : ℕ) (xs : List ℕ) (s : System)
    (h : Request id i d va t p perm xs s) where
  perm12 : perm < 4096
  perm12 = ground (arith, h.perm_ok)

  Took-Insertable : (s1 : System) → Took p xs s s1 → Insertable d va t p perm s1
  Took-Insertable s1 o = record {
    walks = record {
      present = ap is_present (o.others d (pdx va) h.other_dir) ∙ h.walks.present;
      table = ap Pte.frame (o.others d (pdx va) h.other_dir) ∙ h.walks.table;
      in_memory = rw o.npages h.walks.in_memory;
    };
    not_dir = h.not_dir;
    in_memory = rw o.npages h.in_memory;
    perm12 = perm12;
    bit10 = h.bit10;
  }

  insert_new-done :
      (s1 s2 : System) (rlt : Rlt)
      → page_insert (suc k) d p va perm s1 ≡ some (true, s2)
      → on_page_alloc_success va id (p * 4096) s2.rlt ≡ some rlt
      → insert_new (suc k) d p id va perm s1 ≡ some (ok 0, record s2 { rlt = rlt })
  unfolding insert_new
  insert_new-done s1 s2 rlt e r = rw (insert_new, e, r) refl

  sys_page_alloc-insert_new :
      (s1 : System)
      → page_alloc (suc k) true s ≡ some (some p, s1)
      → s1.kernel ≡ s.kernel
      → sys_page_alloc (suc k) id va perm s ≡ insert_new (suc k) d p id va perm s1
  unfolding sys_page_alloc
  sys_page_alloc-insert_new s1 e same =
      rw (sys_page_alloc, h.perm_ok, h.user_page, e)
        (with_env-env id true s1 _ i (rw same h.found) ∙ with_pgdir-some i d s1 _ (rw same h.pgdir))

  -- When the permission and the address pass the tests, the permission does not have PTE_SHARE
  -- (which is the same bit as PTE_ON_DISK), the id is that of an environment which the caller may
  -- change and whose directory has a table for the address with nothing mapped there, neither the
  -- directory nor the table, which differ, is the first free page, and that page is below
  -- PHYS_FRAMES and not among the frames in use, of which there are at most PHYS_FRAMES,
  -- sys_page_alloc returns 0: page_lookup finds that page at the address, its words are zero, it
  -- has one reference, it is no longer free, and it is the last of the frames in use, with the
  -- address and the id as its owner.
  pub sys_page_alloc-maps :
      (ps : List ℕ)
      → Represents s.rlt ps
      → p ∉ ps
      → length ps ≤ phys_frames
      → p < phys_frames
      → (s' : System) × (sys_page_alloc (suc k) id va perm s ≡ some (ok 0, s'))
        × (page_lookup (suc k) d va s' ≡ some (some (p, t, ptx va), s'))
        × ((j : ℕ) → s'.memory.words p j ≡ zero_pte)
        × ((s'.memory.pages p).pp_ref ≡ 1)
        × IsFreeList s'.memory xs
        × Represents s'.rlt (ps ++ p ∷ [])
        × ((s'.rlt.pool p).va ≡ va)
        × ((s'.rlt.pool p).envid ≡ id)
  sys_page_alloc-maps ps q new few pooled =
      let whole : p * 4096 / 4096 ≡ p = omega arith in
      let enqueued : Enqueued s.rlt ps p va id (on_page_alloc_success va id (p * 4096) s.rlt) =
        subst (λ x. Enqueued s.rlt ps x va id (on_page_alloc_success va id (p * 4096) s.rlt)) whole
          (on_page_alloc_success-Enqueued va id (p * 4096) s.rlt ps q (rw whole new) few
            (rw whole pooled)) in
      let rlt = enqueued.after in
      let (s1, e1, o) = page_alloc-Took k p xs s h.free in
      let ins = Took-Insertable s1 o in
      let (s2, e2, i2, ref, free) =
        page_insert-Inserted (suc k) d va t p perm s1 ins 0 xs
          (ap is_present (o.others t (ptx va) h.other_table) ∙ h.empty) o.free o.gone o.unused
          (omega arith) in
      let s' = record s2 { rlt = rlt } in
      (
        s',
        sys_page_alloc-insert_new s1 e1 o.kernel
            ∙ insert_new-done s1 s2 rlt e2
                (ap (on_page_alloc_success va id (p * 4096)) (i2.rlt ∙ o.rlt) ∙ enqueued.ends),
        page_lookup-mapping (suc k) d va t p perm s1 s' ins.walks h.not_dir ins.in_memory perm12
            h.bit10
            (i2.words t (ptx va) ∙ put_word_self s1.memory.words t (ptx va) (mapping p perm))
            (i2.words d (pdx va)
              ∙ put_word_ne s1.memory.words t (ptx va) d (pdx va) (mapping p perm) h.not_dir)
            i2.npages,
        λ j.
            i2.words p j
            ∙ put_word_ne s1.memory.words t (ptx va) p j (mapping p perm)
                (λ e. h.other_table (sym e))
            ∙ o.zero_words j,
        ref,
        record { linked = free.linked; unused = free.unused },
        enqueued.queue,
        enqueued.owner.0,
        enqueued.owner.1,
      )

-- With an id that envid2env rejects, the page that sys_page_alloc took is lost: it is on no list,
-- and nothing refers to it.
pub sys_page_alloc-leaks :
    (k id va p perm : ℕ) (xs : List ℕ) (s : System)
    → is_perm perm ≡ true
    → is_user_page va ≡ true
    → envid2env id true s.kernel ≡ bad_env
    → IsFreeList s.memory (p ∷ xs)
    → (s' : System) × (sys_page_alloc (suc k) id va perm s ≡ some (e_bad_env, s'))
      × IsFreeList s'.memory xs
      × (elem p xs ≡ false)
      × ((s'.memory.pages p).pp_ref ≡ 0)
unfolding sys_page_alloc
sys_page_alloc-leaks k id va p perm xs s ok_perm ok_va bad l =
    let (s1, e, o) = page_alloc-Took k p xs s l in
    (
      s1,
      rw (sys_page_alloc, ok_perm, ok_va, e) (with_env-bad_env id true s1 _ (rw o.kernel bad)),
      o.free,
      o.gone,
      o.unused,
    )
