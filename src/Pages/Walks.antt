-- ===== src/Pages/Walks.antt =====
-- Entries of page tables, as pgdir_walk finds them.
use backup_gatech.Common.{
  ℕ, ◌<◌, ◌≡◌, ◌≢◌, some, true, false, ◌&&◌, ◌==◌, ◌∙◌, ap, sym, ltb, arith, refl, Bool-cases, inl,
  inr,
}
use backup_gatech.Pages.{fill_page, Pte, Memory, is_present, pdx, ptx, find_pte, put_word}

-- The entry of the directory `d` for `va` is present and names the table `t`.
pub record Walks (d va t : ℕ) (ws : ℕ → ℕ → Pte) (n : ℕ) : Type 0 where
  pub present : is_present (ws d (pdx va)) ≡ true
  pub table : (ws d (pdx va)).frame ≡ t
  pub in_memory : t < n

pub find_pte-Walks :
    {d va t : ℕ} (m : Memory)
    → Walks d va t m.words m.npages
    → find_pte d va m ≡ some (some (t, ptx va))
unfolding find_pte
find_pte-Walks {d} {va} m w =
    let fits : ltb (m.words d (pdx va)).frame m.npages ≡ true =
      ground (arith, w.table, w.in_memory) in
    rw (w.present, fits, w.table) refl

pub put_word_self : (ws : ℕ → ℕ → Pte) (p i : ℕ) (e : Pte) → put_word ws p i e p i ≡ e
unfolding put_word
put_word_self ws p i e = ground arith

pub put_word_ne :
    (ws : ℕ → ℕ → Pte) (p i q j : ℕ) (e : Pte) → q ≢ p → put_word ws p i e q j ≡ ws q j
unfolding put_word
put_word_ne ws p i q j e n = ground arith

pub put_word-Walks :
    {d va t : ℕ} (ws : ℕ → ℕ → Pte) (n p i : ℕ) (e : Pte)
    → d ≢ p
    → Walks d va t ws n
    → Walks d va t (put_word ws p i e) n
put_word-Walks ws n p i e out w =
    let same = put_word_ne ws p i _ (pdx _) e out in
    record {
      present = ap is_present same ∙ w.present;
      table = ap Pte.frame same ∙ w.table;
      in_memory = w.in_memory;
    }

pub fill_page_ne :
    (ws : ℕ → ℕ → Pte) (p q i : ℕ) (f : ℕ → Pte) → q ≢ p → fill_page ws p f q i ≡ ws q i
unfolding fill_page
fill_page_ne ws p q i f n = ground arith

pub fill_page_self : (ws : ℕ → ℕ → Pte) (p i : ℕ) (f : ℕ → Pte) → fill_page ws p f p i ≡ f i
unfolding fill_page
fill_page_self ws p i f = ground arith

-- An entry that is present is not the one that is written, if that was not present.
pub put_word_keeps :
    (ws : ℕ → ℕ → Pte) (p i q j : ℕ) (e : Pte)
    → is_present (ws p i) ≡ false
    → is_present (ws q j) ≡ true
    → put_word ws p i e q j ≡ ws q j
unfolding put_word
put_word_keeps ws p i q j e absent present = elim (Bool-cases ((q == p) && j == i)) [
  | inr other ↦ rw other refl
  | inl same ↦
      let e1 : q ≡ p = ground arith in
      let e2 : j ≡ i = ground arith in
      let both : true ≡ false =
        sym present
        ∙ ap (λ x. is_present (ws x j)) e1
        ∙ ap (λ x. is_present (ws p x)) e2
        ∙ absent in
      absurd (cc)
]
