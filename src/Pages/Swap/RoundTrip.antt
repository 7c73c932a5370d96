-- ===== src/Pages/Swap/RoundTrip.antt =====
-- A page that comes back from the disk.
use backup_gatech.Common.{
  ℕ, suc, ◌+◌, ◌-◌, ◌*◌, ◌/◌, ◌%◌, ◌≡◌, ◌≢◌, some, List, ◌∷◌, Bool, true, false, ◌&&◌, ◌∙◌, ap, sym,
  if◌then◌else◌, ◌==◌, ltb, arith, refl, ◌∉◌, Bool-cases, inl, inr,
}
use backup_gatech.Pages.{Pte, Memory, pdx, ptx, is_present, put_word, fill_page}
use backup_gatech.Pages.FreeList.{IsFreeList, Taken, take_page-Taken}
use backup_gatech.Pages.Walks.{Walks, find_pte-Walks, put_word-Walks, put_word_self, put_word_ne}
use backup_gatech.Pages.Swap.{
  System, translate_write, is_writable, swapped_out, swapped_in, page_to_disk, page_fault_intercept,
  give_frame, page_alloc, read_in, read_page, current_pgdir, round_down, set_words,
}
use backup_gatech.Pages.Swap.Writes.{
  ensure_init_idle, Alone, page_to_disk-Stored, swapped_in-swapped_out,
}

-- What page_fault_intercept must do with the entry `e` of the table `t` and the free page `p`.
pub record Loaded (t i p : ℕ) (xs : List ℕ) (s s' : System) : Type 0 where
  pub words :
      s'.memory.words
      ≡ fill_page
          (put_word s.memory.words t i (swapped_in p (s.memory.words t i)))
          p
          (s.disk (s.memory.words t i).frame)
  pub taken : Taken p xs s'.memory
  pub disk : s'.disk ≡ s.disk

pub page_alloc-Taken :
    (k p : ℕ) (clear : Bool) (xs : List ℕ) (s : System) (l : IsFreeList s.memory (p ∷ xs))
    → page_alloc (suc k) clear s
      ≡ some (some p, record s { memory = (take_page-Taken clear s.memory p xs l).0 })
unfolding page_alloc
page_alloc-Taken k p clear xs s l = rw (page_alloc, (take_page-Taken clear s.memory p xs l).1) refl

-- The flags of an entry survive the way out and in, and the processor may write the page: the entry
-- and that of the directory are writable, and their accessed and dirty bits are set already.
pub record Keeps (dir e : Pte) : Type 0 where
  pub present : e.flags % 2 ≡ 1
  pub bit8 : e.flags / 256 % 2 ≡ 0
  pub bit10 : e.flags / 1024 % 2 ≡ 0
  pub writable : e.flags / 2 % 2 ≡ 1
  pub accessed : e.flags / 32 % 2 ≡ 1
  pub dirty : e.flags / 64 % 2 ≡ 1
  pub dir_writable : dir.flags / 2 % 2 ≡ 1
  pub dir_accessed : dir.flags / 32 % 2 ≡ 1

translate_write-Walks :
    {d va t : ℕ} (m : Memory)
    → Walks d va t m.words m.npages
    → is_writable (m.words d (pdx va)) ≡ true
    → is_present (m.words t (ptx va)) ≡ true
    → is_writable (m.words t (ptx va)) ≡ true
    → translate_write d va m ≡ some (m.words t (ptx va)).frame
unfolding translate_write
translate_write-Walks m w dir present writable =
    rw (translate_write, find_pte-Walks m w, dir, present, writable) refl

-- Clearing bits 8 and 10 and changing bit 0 keep bit 1.
without_bit8 : (x : ℕ) → (x - x / 256 % 2 * 256) / 2 % 2 ≡ x / 2 % 2
without_bit8 x = omega arith

without_bit10 : (x : ℕ) → (x - x / 1024 % 2 * 1024) / 2 % 2 ≡ x / 2 % 2
without_bit10 x = omega arith

with_bit10 : (x : ℕ) → (x + (1 - x / 1024 % 2) * 1024) / 2 % 2 ≡ x / 2 % 2
with_bit10 x = omega arith

with_bit0 : (x : ℕ) → (x / 2 * 2 + 1) / 2 % 2 ≡ x / 2 % 2
with_bit0 x = omega arith

without_bit0 : (x : ℕ) → x / 2 * 2 / 2 % 2 ≡ x / 2 % 2
without_bit0 x = omega arith

-- The entry stays writable on the way in and out.
swapped_in-is_writable :
    (p : ℕ) (e : Pte) → is_writable e ≡ true → is_writable (swapped_in p e) ≡ true
unfolding swapped_in
swapped_in-is_writable p e w =
    let x = e.flags in
    let y = x - x / 256 % 2 * 256 in
    let bit : (swapped_in p e).flags / 2 % 2 ≡ x / 2 % 2 =
      with_bit0 (y - y / 1024 % 2 * 1024) ∙ without_bit10 y ∙ without_bit8 x in
    rw bit w

swapped_out-is_writable :
    (b : ℕ) (e : Pte) → is_writable e ≡ true → is_writable (swapped_out b e) ≡ true
unfolding swapped_out
swapped_out-is_writable b e w =
    let x = e.flags in
    let y = x - x / 256 % 2 * 256 in
    let bit : (swapped_out b e).flags / 2 % 2 ≡ x / 2 % 2 =
      without_bit0 (y + (1 - y / 1024 % 2) * 1024) ∙ with_bit10 y ∙ without_bit8 x in
    rw bit w

-- The directory and the entry may be written through.
abbrev AreWritable : (d va t : ℕ) → (ℕ → ℕ → Pte) → Type 0
AreWritable d va t ws = (is_writable (ws d (pdx va)) ≡ true) × (is_writable (ws t (ptx va)) ≡ true)

swapped_in-is_present : (p : ℕ) (e : Pte) → is_present (swapped_in p e) ≡ true
unfolding swapped_in
swapped_in-is_present p e = ground arith

abbrev loaded : (t i p : ℕ) → System → System
loaded t i p s =
    let e = s.memory.words t i in
    set_words (fill_page (put_word s.memory.words t i (swapped_in p e)) p (s.disk e.frame)) s

-- The entry is written first, and the words go where it leads.
read_in-words :
    (d va p t : ℕ) (s : System)
    → s.initialized ≡ true
    → d ≢ t
    → Walks d va t s.memory.words s.memory.npages
    → AreWritable d va t s.memory.words
    → read_in d va p t (ptx va) s ≡ some (loaded t (ptx va) p s)
unfolding read_in read_page swapped_in
read_in-words d va p t s init n w a =
    let e = s.memory.words t (ptx va) in
    let ws = put_word s.memory.words t (ptx va) (swapped_in p e) in
    let s1 = set_words ws s in
    let self : ws t (ptx va) ≡ swapped_in p e =
      put_word_self s.memory.words t (ptx va) (swapped_in p e) in
    let dir : ws d (pdx va) ≡ s.memory.words d (pdx va) =
      put_word_ne s.memory.words t (ptx va) d (pdx va) (swapped_in p e) n in
    let found : translate_write d va s1.memory ≡ some p =
      translate_write-Walks s1.memory
        (put_word-Walks s.memory.words s.memory.npages t (ptx va) (swapped_in p e) n w)
        (ap is_writable dir ∙ a.0) (ap is_present self ∙ swapped_in-is_present p e)
        (ap is_writable self ∙ swapped_in-is_writable p e a.1)
      ∙ ap (λ x. some (Pte.frame x)) self in
    ap (read_page d va e.frame) (ensure_init_idle s1 init) ∙ rw (read_page, found) refl

give_frame-loaded :
    (d va p t : ℕ) (s : System)
    → s.initialized ≡ true
    → current_pgdir s.kernel ≡ some d
    → d ≢ t
    → Walks d va t s.memory.words s.memory.npages
    → AreWritable d va t s.memory.words
    → give_frame d va p s ≡ some (loaded t (ptx va) p s)
unfolding give_frame
give_frame-loaded d va p t s init cur n w a =
    let fits : ltb (s.memory.words d (pdx va)).frame s.memory.npages ≡ true =
      ground (arith, w.table, w.in_memory) in
    rw (give_frame, cur, fits, w.table) (read_in-words d va p t s init n w a)

-- A fault on a page whose entry says it is on the disk, and is writable, as is that of the
-- directory, while a page is free: page_fault_intercept
-- gives the entry the first free page, with the block's words.
pub page_fault_intercept-Loaded :
    (k d va t p : ℕ) (xs : List ℕ) (s : System)
    → s.initialized ≡ true
    → current_pgdir s.kernel ≡ some d
    → d ≢ t
    → Walks d (round_down va) t s.memory.words s.memory.npages
    → AreWritable d (round_down va) t s.memory.words
    → IsFreeList s.memory (p ∷ xs)
    → (s' : System) × (page_fault_intercept (suc k) d va s ≡ some s')
      × Loaded t (ptx (round_down va)) p xs s s'
unfolding page_fault_intercept
page_fault_intercept-Loaded k d va t p xs s init cur n w a l =
    let got = take_page-Taken false s.memory p xs l in
    let s1 = record s { memory = got.0 } in
    let w1 : Walks d (round_down va) t s1.memory.words s1.memory.npages = rw (got.3, got.4) w in
    let a1 : AreWritable d (round_down va) t s1.memory.words = rw got.3 a in
    (
      loaded t (ptx (round_down va)) p s1,
      rw (page_fault_intercept, page_alloc-Taken k p false xs s l)
          (give_frame-loaded d (round_down va) p t s1 init cur n w1 a1),
      record {
        words = rw got.3 refl;
        taken = record {
          rest = record { linked = got.2.rest.linked; unused = got.2.rest.unused };
          gone = got.2.gone;
          no_refs = got.2.no_refs;
          no_link = got.2.no_link;
        };
        disk = refl;
      },
    )

swapped_out-frame : (b : ℕ) (e : Pte) → (swapped_out b e).frame ≡ b
unfolding swapped_out
swapped_out-frame b e = refl

word_kept :
    (ws : ℕ → ℕ → Pte) (t i q j : ℕ) (e : Pte)
    → (if (q == t) && j == i then ws t i else if (q == t) && j == i then e else ws q j) ≡ ws q j
word_kept ws t i q j e = ground arith

-- The words of memory after a page went out from its frame and came back to it.
words_back :
    (ws ws1 disk : ℕ → ℕ → Pte) (t i b q j : ℕ)
    → (dir : Pte) → Keeps dir (ws t i)
    → ws1 ≡ put_word ws t i (swapped_out b (ws t i))
    → ((k : ℕ) → disk b k ≡ ws (ws t i).frame k)
    → fill_page
        (put_word ws1 t i (swapped_in (ws t i).frame (ws1 t i)))
        (ws t i).frame
        (disk (ws1 t i).frame)
        q
        j
      ≡ ws q j
unfolding fill_page put_word
words_back ws ws1 disk t i b q j dir k out block =
    let e = ws t i in
    let self : ws1 t i ≡ swapped_out b e =
      ap (λ f. f t i) out ∙ put_word_self ws t i (swapped_out b e) in
    let entry : swapped_in e.frame (ws1 t i) ≡ e =
      ap (swapped_in e.frame) self ∙ swapped_in-swapped_out e b e.frame k.present k.bit8 k.bit10 in
    let other : ws1 q j ≡ (if (q == t) && j == i then swapped_out b e else ws q j) =
      ap (λ f. f q j) out in
    let home : disk (ws1 t i).frame j ≡ ws e.frame j =
      ap (λ x. disk (Pte.frame x) j) self ∙ ap (λ x. disk x j) (swapped_out-frame b e) ∙ block j in
    elim (Bool-cases (q == e.frame)) [
      | inl same ↦
          let here : q ≡ e.frame = ground arith in rw same (home ∙ ap (λ x. ws x j) (sym here))
      | inr away ↦ rw (away, entry, other) (word_kept ws t i q j (swapped_out b e))
    ]

-- A page of the current environment that is mapped once, by a table other than the directory, and
-- whose frame is not free goes to the disk and comes back at the next fault: every word of memory,
-- its entry included, is as before. The entry is present and has bits 8 and 10 clear; it and that
-- of the directory are writable, so that the words can be read into the page, and the bits that the
-- processor sets on an access or a write are set already.
pub page_fault_intercept-page_to_disk :
    (k d va b t : ℕ) (xs : List ℕ) (s : System)
    → s.initialized ≡ true
    → current_pgdir s.kernel ≡ some d
    → d ≢ t
    → Walks d (round_down va) t s.memory.words s.memory.npages
    → Alone t (ptx (round_down va)) s.memory
    → Keeps (s.memory.words d (pdx (round_down va))) (s.memory.words t (ptx (round_down va)))
    → IsFreeList s.memory xs
    → (s.memory.words t (ptx (round_down va))).frame ∉ xs
    → (s1 : System) × (s2 : System) × (page_to_disk d va b s ≡ some s1)
      × (page_fault_intercept (suc k) d va s1 ≡ some s2)
      × ((q j : ℕ) → s2.memory.words q j ≡ s.memory.words q j)
page_fault_intercept-page_to_disk k d va b t xs s init cur n w a keeps l out =
    let i = ptx (round_down va) in
    let f = (s.memory.words t i).frame in
    let out1 = page_to_disk-Stored d va b t xs s init w a l out in
    let s1 = out1.0 in
    let st = out1.2 in
    let w1 : Walks d (round_down va) t s1.memory.words s1.memory.npages =
      rw (st.words, st.npages)
        (put_word-Walks s.memory.words s.memory.npages t i (swapped_out b (s.memory.words t i)) n
          w) in
    let e = s.memory.words t i in
    let dir_word : s1.memory.words d (pdx (round_down va))
        ≡ s.memory.words d (pdx (round_down va)) =
      ap (λ ws. ws d (pdx (round_down va))) st.words
      ∙ put_word_ne s.memory.words t i d (pdx (round_down va)) (swapped_out b e) n in
    let word : s1.memory.words t i ≡ swapped_out b e =
      ap (λ ws. ws t i) st.words ∙ put_word_self s.memory.words t i (swapped_out b e) in
    let may_write : AreWritable d (round_down va) t s1.memory.words = (
      ap is_writable dir_word ∙ ground (arith, keeps.dir_writable),
      ap is_writable word ∙ swapped_out-is_writable b e (ground (arith, keeps.writable)),
    ) in
    let in1 =
      page_fault_intercept-Loaded k d va t f xs s1 (st.initialized ∙ init)
        (ap current_pgdir st.kernel ∙ cur) n w1 may_write st.free in
    (
      s1,
      in1.0,
      out1.1,
      in1.1,
      λ q j.
          ap (λ ws. ws q j) in1.2.words
          ∙ words_back s.memory.words s1.memory.words s1.disk t i b q j
              (s.memory.words d (pdx (round_down va))) keeps st.words st.block,
    )
