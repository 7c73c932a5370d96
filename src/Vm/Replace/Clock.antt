-- ===== src/Vm/Replace/Clock.antt =====
-- The clock sweep of get_free_frame: that it ends, and where it leaves the clock.
use backup_gatech.Common.{
  ℕ, zero, suc, ◌+◌, ◌%◌, ◌^◌, ◌<◌, ◌≤◌, ◌≡◌, ◌⊎◌, inl, inr, Option, none, some, List, [], ◌∷◌,
  Bool, true, false, ◌∙◌, ap, if◌then◌else◌, leb, ℕ_discrete, arith, refl, length, get_elem?,
  Bool-cases,
}
use backup_gatech.Vm.{Sizes, Pte, Machine, RltSlot, num_frames, set_pte}
use backup_gatech.Vm.Replace.{first_free, sweep, get_free_frame}

-- Every frame holds a page of some process.
pub record IsFull (z : Sizes) (rs : List RltSlot) : Type 0 where
  pub owner : ℕ → ℕ
  pub page_of : ℕ → ℕ
  pub slots :
      (i : ℕ)
      → i < num_frames z
      → get_elem? rs i ≡ some (record { pcb = some (owner i); page = page_of i })
  pub sized : length rs ≡ num_frames z

-- The `used` bit of the page in a frame.
abbrev pub used_at : {z : Sizes} {rs : List RltSlot} → IsFull z rs → (ℕ → ℕ → Pte) → ℕ → Bool
used_at full t i = (t (full.owner i) (full.page_of i)).used

-- A victim in range, of which 16 bits are returned, so the victim itself where memory has 2 ^ 16
-- frames at most; the clock one frame further, and the reverse lookup table unchanged.
pub record Swept (z : Sizes) (m : Machine) (o : Option (ℕ × Machine)) : Type 0 where
  pub victim : ℕ
  pub after : Machine
  pub ends : o ≡ some (victim % 2 ^ 16, after)
  pub whole : num_frames z ≤ 2 ^ 16 → o ≡ some (victim, after)
  pub inside : victim < num_frames z
  pub next : after.clock ≡ suc victim
  pub kept : after.rlt ≡ m.rlt

abbrev next_frame : Sizes → ℕ → ℕ
next_frame z i = if leb (num_frames z) (suc i) then 0 else suc i

module _ (z : Sizes) (m : Machine) (full : IsFull z m.rlt) (i : ℕ) (l : i < num_frames z) where
  abbrev here : Pte
  here = m.tables (full.owner i) (full.page_of i)

  -- The machine after the sweep passed frame `i`.
  abbrev passed : Machine
  passed = record m {
    tables = set_pte m.tables (full.owner i) (full.page_of i) (record here { used = false });
  }

  sweep-used : (k : ℕ) → here.used ≡ true → sweep (suc k) z i m ≡ sweep k z (next_frame z i) passed
  unfolding sweep
  sweep-used k u = rw (full.slots i l, sweep, u) refl

  sweep-unused :
      (k : ℕ)
      → here.used ≡ false
      → sweep (suc k) z i m ≡ some (i % 2 ^ 16, record m { clock = suc i })
  unfolding sweep
  sweep-unused k u = rw (full.slots i l, sweep, u) refl

  sweep-Swept_unused : (k : ℕ) → here.used ≡ false → Swept z m (sweep (suc k) z i m)
  sweep-Swept_unused k u = record {
    victim = i;
    after = record m { clock = suc i };
    ends = sweep-unused k u;
    whole = λ few.
        let same : i % 2 ^ 16 ≡ i = omega (arith, few, l) in
        sweep-unused k u ∙ ap (λ x. some (x, record m { clock = suc i })) same;
    inside = l;
    next = refl;
    kept = refl;
  }

  passed-used : (j : ℕ) → used_at full m.tables j ≡ false → used_at full passed.tables j ≡ false
  unfolding set_pte
  passed-used j u = ground arith

  passed_self : used_at full passed.tables i ≡ false
  unfolding set_pte
  passed_self = ground arith

-- The frame `j` is fewer than `k` steps ahead of `i`.
abbrev Ahead : Sizes → (k i j : ℕ) → Type 0
Ahead z k i j = (j + num_frames z < k + i) ⊎ ((i ≤ j) × (j < k + i))

Ahead-next :
    (z : Sizes) (k i j : ℕ)
    → i < num_frames z
    → (j < i) ⊎ (i < j)
    → j < num_frames z
    → Ahead z (suc k) i j
    → Ahead z k (next_frame z i) j
Ahead-next z k i j l apart lj a = elim (Bool-cases (leb (num_frames z) (suc i))) [
  | inl e ↦ rw e (inr (ground arith))
  | inr e ↦ rw e (ground arith)
]

next_frame-lt : (z : Sizes) (i : ℕ) → i < num_frames z → next_frame z i < num_frames z
next_frame-lt z i l = ground arith

apart : (p : ℕ → Bool) (i j : ℕ) → p i ≡ true → p j ≡ false → (j < i) ⊎ (i < j)
apart p i j t f = elim (ℕ_discrete j i) [
  | yes same ↦ let e : p j ≡ p i = ap p same in absurd (cc)
  | no n ↦ omega arith
]

-- The sweep ends at an unused frame ahead at the latest.
sweep-Swept :
    (k : ℕ) (z : Sizes) (i j : ℕ) (m : Machine) (full : IsFull z m.rlt)
    → i < num_frames z
    → j < num_frames z
    → used_at full m.tables j ≡ false
    → Ahead z k i j
    → Swept z m (sweep k z i m)
sweep-Swept zero z i j m full l lj u a = absurd (ground arith)
sweep-Swept (suc k) z i j m full l lj u a = elim (Bool-cases (used_at full m.tables i)) [
  | inr free ↦ sweep-Swept_unused z m full i l k free
  | inl used ↦
      let rest =
        sweep-Swept k z (next_frame z i) j (passed z m full i l) full (next_frame-lt z i l) lj
          (passed-used z m full i l j u)
          (Ahead-next z k i j l (apart (used_at full m.tables) i j used u) lj a) in
      record {
        victim = rest.victim;
        after = rest.after;
        ends = sweep-used z m full i l k used ∙ rest.ends;
        whole = λ few. sweep-used z m full i l k used ∙ rest.whole few;
        inside = rest.inside;
        next = rest.next;
        kept = rest.kept;
      }
]

first_free-none :
    (rs : List RltSlot)
    → ((i : ℕ)
        → i < length rs
        → (p v : ℕ) × (get_elem? rs i ≡ some (record { pcb = some p; page = v })))
    → first_free rs ≡ none
unfolding first_free
first_free-none [] h = refl
first_free-none (e ∷ es) h =
    let (p, v, here) = h 0 (omega arith) in
    let owned : e.pcb ≡ some p = ap (λ o. elim o [ none ↦ none | some x ↦ x.pcb ]) here in
    rw (owned, first_free-none es (λ i l. h (suc i) (omega arith))) refl

get_elem?-length : (rs : List RltSlot) → get_elem? rs (length rs) ≡ none
get_elem?-length [] = refl
get_elem?-length (e ∷ es) = get_elem?-length es

no_free : (z : Sizes) (rs : List RltSlot) → IsFull z rs → first_free rs ≡ none
no_free z rs full =
    first_free-none rs
      (λ i l. (full.owner i, full.page_of i, full.slots i (omega (arith, full.sized))))

-- When every frame is in use and the clock stands at one of them, get_free_frame ends within a
-- round and a step: it chooses a frame in range, leaves the clock one frame further than that, and
-- returns the lowest 16 bits of the frame's number, so the frame itself when memory has at most
-- 2 ^ 16 frames.
pub get_free_frame-Swept :
    (z : Sizes) (m : Machine)
    → IsFull z m.rlt
    → m.clock < num_frames z
    → Swept z m (get_free_frame z m)
unfolding get_free_frame
get_free_frame-Swept z m full l =
    rw (no_free z m.rlt full, get_free_frame)
      (elim (Bool-cases (used_at full m.tables m.clock)) [
        | inr free ↦ sweep-Swept_unused z m full m.clock l (num_frames z) free
        | inl used ↦
            let i = next_frame z m.clock in
            let rest =
              sweep-Swept (num_frames z) z i m.clock (passed z m full m.clock l) full
                (next_frame-lt z m.clock l) l (passed_self z m full m.clock l) (ground arith) in
            record {
              victim = rest.victim;
              after = rest.after;
              ends = sweep-used z m full m.clock l (num_frames z) used ∙ rest.ends;
              whole = λ few. sweep-used z m full m.clock l (num_frames z) used ∙ rest.whole few;
              inside = rest.inside;
              next = rest.next;
              kept = rest.kept;
            }
      ])

-- When every frame is in use and the clock stands at the last one, whose page was not used, that
-- frame is the victim, and the clock is left past the end of the reverse lookup table: if no frame
-- is freed before the next call, get_free_frame reads outside the table.
pub get_free_frame-past_end :
    (z : Sizes) (m : Machine) (full : IsFull z m.rlt)
    → num_frames z ≡ suc m.clock
    → used_at full m.tables m.clock ≡ false
    → (m' : Machine) × (get_free_frame z m ≡ some (m.clock % 2 ^ 16, m'))
      × (get_free_frame z m' ≡ none)
unfolding get_free_frame sweep
get_free_frame-past_end z m full n u =
    let out : get_elem? m.rlt (suc m.clock) ≡ none =
      ap (λ k. get_elem? m.rlt k) (omega (arith, full.sized)) ∙ get_elem?-length m.rlt in
    (
      record m { clock = suc m.clock },
      rw (no_free z m.rlt full, get_free_frame)
          (sweep-unused z m full m.clock (omega arith) (num_frames z) u),
      rw (no_free z m.rlt full, get_free_frame, out, sweep) refl,
    )
