-- ===== src/Sched/Wake.antt =====
-- Which CPU wake_up preempts.
use backup_gatech.Common.{
  ℕ, suc, ◌+◌, ◌<◌, ◌≤◌, ◌≡◌, Option, none, some, List, [], ◌∷◌, ltb, arith, refl, get_elem?,
  Option-cases, Bool-cases, inl, inr, ◌⊎◌, ap, ◌∙◌,
}
use backup_gatech.Sched.{Pcb, busy_priority, choose_cpu}

-- Every CPU runs a process of priority `m` at least.
abbrev pub AllBusy : (ℕ → Pcb) → List (Option ℕ) → ℕ → Type 0
AllBusy f [] m = Unit {0}
AllBusy f (o ∷ os) m = ((q : ℕ) × (busy_priority f o ≡ some q) × (m ≤ q)) × AllBusy f os m

-- The CPU `j` is idle, or it runs a process of a priority below `m`, and no CPU is idle or runs
-- one of a lower priority.
pub record Chosen (f : ℕ → Pcb) (os : List (Option ℕ)) (m j : ℕ) : Type 0 where
  pub process : Option ℕ
  pub at : get_elem? os j ≡ some process
  pub reason :
      (busy_priority f process ≡ none)
      ⊎ ((q : ℕ) × (busy_priority f process ≡ some q) × (q < m) × AllBusy f os q)

Chosen-cons :
    (f : ℕ → Pcb) (o : Option ℕ) (os : List (Option ℕ)) (m m' q j : ℕ)
    → busy_priority f o ≡ some q
    → m' ≤ q
    → m' ≤ m
    → Chosen f os m' j
    → Chosen f (o ∷ os) m (suc j)
Chosen-cons f o os m m' q j b l l' c = record {
  process = c.process;
  at = c.at;
  reason = elim c.reason [
    | inl idle ↦ inl idle
    | inr (p, here, low, rest) ↦ inr (p, here, omega arith, ((q, b, omega arith), rest))
  ];
}

-- What the loop returns, from CPU `i` on.
abbrev pub Returns : (ℕ → Pcb) → List (Option ℕ) → (i m : ℕ) → Option ℕ → Option ℕ → Type 0
Returns f os i m best r =
    ((r ≡ best) × AllBusy f os m) ⊎ ((j : ℕ) × (r ≡ some (i + j)) × Chosen f os m j)

Returns-lower :
    (f : ℕ → Pcb) (o : Option ℕ) (os : List (Option ℕ)) (i m q : ℕ) (best r : Option ℕ)
    → busy_priority f o ≡ some q
    → q < m
    → Returns f os (suc i) q (some i) r
    → Returns f (o ∷ os) i m best r
Returns-lower f o os i m q best r b l (inl (e, all)) = inr (
  0,
  e ∙ ap some (omega arith),
  record { process = o; at = refl; reason = inr (q, b, l, ((q, b, omega arith), all)) },
)
Returns-lower f o os i m q best r b l (inr (j, e, c)) =
    inr
      (suc j, e ∙ ap some (omega arith), Chosen-cons f o os m q q j b (omega arith) (omega arith) c)

Returns-other :
    (f : ℕ → Pcb) (o : Option ℕ) (os : List (Option ℕ)) (i m q : ℕ) (best r : Option ℕ)
    → busy_priority f o ≡ some q
    → m ≤ q
    → Returns f os (suc i) m best r
    → Returns f (o ∷ os) i m best r
Returns-other f o os i m q best r b l (inl (e, all)) = inl (e, ((q, b, l), all))
Returns-other f o os i m q best r b l (inr (j, e, c)) =
    inr (suc j, e ∙ ap some (omega arith), Chosen-cons f o os m m q j b l (omega arith) c)

-- The loop of wake_up from CPU `i` on, with the lowest priority `m` so far and its CPU `best`,
-- either returns `best`, and every further CPU runs a process of priority `m` at least; or it
-- returns a further CPU that is idle, or that runs a process of a priority below `m` while no
-- further CPU is idle or runs one of a lower priority.
pub choose_cpu_lem :
    (f : ℕ → Pcb) (os : List (Option ℕ)) (i m : ℕ) (best : Option ℕ)
    → Returns f os i m best (choose_cpu f os i m best)
unfolding choose_cpu
choose_cpu_lem f [] i m best = inl (refl, tt)
choose_cpu_lem f (o ∷ os) i m best = elim (Option-cases (busy_priority f o)) [
  | inl idle ↦
      rw (idle, choose_cpu)
        (inr (0, ap some (omega arith), record { process = o; at = refl; reason = inl idle }))
  | inr (q, b) ↦ elim (Bool-cases (ltb q m)) [
    | inl low ↦
        let step : choose_cpu f (o ∷ os) i m best ≡ choose_cpu f os (suc i) q (some i) =
          rw (b, choose_cpu, low) refl in
        rw step (
          Returns-lower f o os i m q best _ b (ground arith)
            (choose_cpu_lem f os (suc i) q (some i)))
    | inr high ↦
        let step : choose_cpu f (o ∷ os) i m best ≡ choose_cpu f os (suc i) m best =
          rw (b, choose_cpu, high) refl in
        rw step
          (Returns-other f o os i m q best _ b (ground arith) (choose_cpu_lem f os (suc i) m best))
  ]
]
