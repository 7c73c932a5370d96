-- ===== src/Syscall/Share.antt =====
-- sys_page_map.
use backup_gatech.Common.{
  ℕ, suc, ◌<◌, ◌≡◌, ◌≢◌, some, List, true, false, ◌&&◌, not, ◌∙◌, ap, sym, refl, ◌∉◌,
}
use backup_gatech.Env.{env_at, envid2env, env}
use backup_gatech.Pages.{Pte, is_present, is_on_disk, pdx, ptx}
use backup_gatech.Pages.FreeList.{IsFreeList}
use backup_gatech.Pages.Walks.{Walks, put_word_ne, put_word_keeps}
use backup_gatech.Pages.Swap.{System}
use backup_gatech.Pages.Tables.{mapping, page_insert, page_lookup}
use backup_gatech.Pages.Tables.Lookup.{Maps, page_lookup-Maps}
use backup_gatech.Pages.Tables.Insert.{Insertable, page_insert-Inserted}
use backup_gatech.Syscall.{ok, asks_write, is_user_page, insert_into, map_between, sys_page_map}
use backup_gatech.Syscall.Envs.{with_env-env, with_pgdir-some}

-- The source of a mapping: the environment `i` with the directory `d`, whose table `t` maps the
-- page `p` in memory at the address, writable if `perm` asks for it.
pub record Source (id i d va t p perm : ℕ) (s : System) : Type 0 where
  pub user_page : is_user_page va ≡ true
  pub found : envid2env id true s.kernel ≡ env (some i)
  pub pgdir : (env_at s.kernel.envs i).env_pgdir ≡ some d
  pub walks : Walks d va t s.memory.words s.memory.npages
  pub maps : Maps t (ptx va) s.memory
  pub frame : (s.memory.words t (ptx va)).frame ≡ p
  pub writable : asks_write perm && not (asks_write (s.memory.words t (ptx va)).flags) ≡ false

-- The target: the environment `i` with the directory `d`, whose table `t` maps nothing there; the
-- permission has 12 bits and no PTE_SHARE.
pub record Target (id i d va t p perm : ℕ) (s : System) : Type 0 where
  pub found : envid2env id true s.kernel ≡ env (some i)
  pub pgdir : (env_at s.kernel.envs i).env_pgdir ≡ some d
  pub insertable : Insertable d va t p perm s
  pub empty : is_present (s.memory.words t (ptx va)) ≡ false

insert_into-done :
    (k j d p va perm : ℕ) (s s' : System)
    → (env_at s.kernel.envs j).env_pgdir ≡ some d
    → page_insert k d p va perm s ≡ some (true, s')
    → insert_into k j p va perm s ≡ some (ok 0, s')
unfolding insert_into
insert_into-done k j d p va perm s s' dir e = with_pgdir-some j d s _ dir ∙ rw e refl

module _ (k id1 i1 d1 va1 t1 id2 i2 d2 va2 t2 p perm : ℕ) (s : System)
    (src : Source id1 i1 d1 va1 t1 p perm s) (dst : Target id2 i2 d2 va2 t2 p perm s) where
  sys_page_map-insert_into : sys_page_map k id1 va1 id2 va2 perm s ≡ insert_into k i2 p va2 perm s
  unfolding sys_page_map map_between
  sys_page_map-insert_into =
      with_env-env id1 true s _ i1 src.found
      ∙ with_env-env id2 true s _ i2 dst.found
      ∙ rw src.user_page (
          with_pgdir-some i1 d1 s _ src.pgdir
          ∙ rw (page_lookup-Maps k d1 va1 t1 s src.walks src.maps, src.writable)
              (ap (λ f. insert_into k i2 f va2 perm s) src.frame))

  -- When both ids are those of environments that the caller may change, the source address is a
  -- user page that the source has in memory, writable if the permission asks for it, the
  -- permission, which sys_page_map does not test, is below 4096 and does not have PTE_SHARE (the
  -- same bit as PTE_ON_DISK), and the target has a table with nothing mapped at its address, which
  -- may be any address, and is neither directory, and the page is not free and has fewer than 65535
  -- references, sys_page_map returns 0: both directories then give the same page, which has one
  -- more reference; the free list stays.
  pub sys_page_map-shares :
      (r : ℕ) (xs : List ℕ)
      → t2 ≢ d1
      → IsFreeList s.memory xs
      → p ∉ xs
      → (s.memory.pages p).pp_ref ≡ r
      → suc r < 65536
      → (s' : System) × (sys_page_map k id1 va1 id2 va2 perm s ≡ some (ok 0, s'))
        × (page_lookup k d1 va1 s' ≡ some (some (p, t1, ptx va1), s'))
        × (page_lookup k d2 va2 s' ≡ some (some (p, t2, ptx va2), s'))
        × ((s'.memory.pages p).pp_ref ≡ suc r)
        × IsFreeList s'.memory xs
  sys_page_map-shares r xs apart l out ref small =
      let (s', e, i, ref', free) =
        page_insert-Inserted k d2 va2 t2 p perm s dst.insertable r xs dst.empty l out ref small in
      let entry : s'.memory.words t1 (ptx va1) ≡ s.memory.words t1 (ptx va1) =
        i.words t1 (ptx va1)
        ∙ put_word_keeps s.memory.words t2 (ptx va2) t1 (ptx va1) (mapping p perm) dst.empty
            src.maps.present in
      let dir : s'.memory.words d1 (pdx va1) ≡ s.memory.words d1 (pdx va1) =
        i.words d1 (pdx va1)
        ∙ put_word_ne s.memory.words t2 (ptx va2) d1 (pdx va1) (mapping p perm)
            (λ e. apart (sym e)) in
      let walks : Walks d1 va1 t1 s'.memory.words s'.memory.npages = record {
        present = ap is_present dir ∙ src.walks.present;
        table = ap Pte.frame dir ∙ src.walks.table;
        in_memory = rw i.npages src.walks.in_memory;
      } in
      let maps : Maps t1 (ptx va1) s'.memory = record {
        present = ap is_present entry ∙ src.maps.present;
        not_on_disk = ap is_on_disk entry ∙ src.maps.not_on_disk;
        in_memory = rw (ap Pte.frame entry, i.npages) src.maps.in_memory;
      } in
      (
        s',
        sys_page_map-insert_into ∙ insert_into-done k i2 d2 p va2 perm s s' dst.pgdir e,
        page_lookup-Maps k d1 va1 t1 s' walks maps
            ∙ ap (λ f. some (some (f, t1, ptx va1), s')) (ap Pte.frame entry ∙ src.frame),
        i.found,
        ref',
        free,
      )
