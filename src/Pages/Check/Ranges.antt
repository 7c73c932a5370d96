-- ===== src/Pages/Check/Ranges.antt =====
-- What user_mem_check says of the whole range.
use backup_gatech.Common.{
  ℕ, suc, ◌+◌, ◌-◌, ◌*◌, ◌/◌, ◌^◌, ◌<◌, ◌≤◌, ◌≡◌, some, true, false, if◌then◌else◌, ltb, arith,
  refl,
}
use backup_gatech.Pages.{Memory, is_present}
use backup_gatech.Pages.Swap.{round_down}
use backup_gatech.Pages.Check.{
  CheckResult, accepted, fault, is_allowed, check_pages, user_mem_check, range_stop,
}

-- The pages from `addr` up to `stop` are allowed.
abbrev pub Allowed : (d perm addr stop : ℕ) (m : Memory) → Type 0
Allowed d perm addr stop m =
    (k : ℕ) → addr + k * 4096 < stop → is_allowed d perm (addr + k * 4096) m ≡ some true

-- What the loop gives, read off its result.
pub Outcome : (d va perm addr stop : ℕ) (m : Memory) → CheckResult → Type 0
Outcome d va perm addr stop m accepted = Allowed d perm addr stop m
Outcome d va perm addr stop m (fault a) =
    (k : ℕ) × (addr + k * 4096 < stop)
    × (is_allowed d perm (addr + k * 4096) m ≡ some false)
    × (a ≡ (if ltb (addr + k * 4096) va then va else addr + k * 4096))
    × Allowed d perm addr (addr + k * 4096) m

module _ (d va perm : ℕ) (m : Memory) where
  check_pages_over :
      (n addr stop : ℕ) → stop ≤ addr → check_pages (suc n) d va perm addr stop m ≡ some accepted
  unfolding check_pages
  check_pages_over n addr stop l = let over : ltb addr stop ≡ false = ground arith in rw over refl

-- The directory's present entries name tables in memory, so that KADDR does not panic.
abbrev pub Tabled : (d : ℕ) → Memory → Type 0
Tabled d m = (i : ℕ) → is_present (m.words d i) ≡ true → (m.words d i).frame < m.npages

-- A range that wraps around the end of the address space, and ends below its start, passes
-- without a test.
pub user_mem_check-wraps :
    (d va len perm : ℕ) (m : Memory)
    → va < 2 ^ 32
    → 2 ^ 32 ≤ va + len + 4095
    → va + len + 4095 < 2 ^ 32 + va
    → user_mem_check d va len perm m ≡ some accepted
unfolding user_mem_check
user_mem_check-wraps d va len perm m small wraps more =
    check_pages_over d va perm m ((range_stop va len - round_down va) / 4096) (round_down va)
      (range_stop va len) (omega arith)
