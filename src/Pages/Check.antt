-- ===== src/Pages/Check.antt =====
-- user_mem_check of os_final_project/code/kern/pmap.c.
mod Ranges
mod Tests
use backup_gatech.Common.{
  ℕ, zero, suc, ◌+◌, ◌-◌, ◌*◌, ◌/◌, ◌%◌, ◌^◌, Option, none, some, Bool, true, false, ◌&&◌,
  if◌then◌else◌, ltb, leb,
}
use backup_gatech.Pages.{Pte, Memory, is_present, find_pte}
use backup_gatech.Pages.Swap.{round_down}

abbrev pub ulim : ℕ
ulim = 4018143232

-- (flags & perm) == perm, on the lowest `bits` bits.
pub has_all : (bits perm flags : ℕ) → Bool
has_all zero perm flags = true
has_all (suc k) perm flags = leb (perm % 2) (flags % 2) && has_all k (perm / 2) (flags / 2)

-- The 32-bit word of an entry.
abbrev pub pte_word : Pte → ℕ
pte_word e = e.frame * 4096 + e.flags

-- What the loop asks of an address whose entry was found; perm is a 32-bit word.
pub may_access : (perm addr : ℕ) → Pte → Bool
may_access perm addr e = ltb addr ulim && is_present e && has_all 32 perm (pte_word e)

-- The test of the loop at `addr`; `none` where pgdir_walk panics.
pub is_allowed : (pgdir perm addr : ℕ) → Memory → Option Bool
is_allowed d perm addr m = elim (find_pte d addr m) [
  | none ↦ none
  | some o ↦ elim o [ none ↦ some false | some (t, i) ↦ some (may_access perm addr (m.words t i)) ]
]

-- 0, or -E_FAULT with the address that goes to user_mem_check_addr.
pub data CheckResult : Type 0 where
  accepted : CheckResult
  fault : (user_mem_check_addr : ℕ) → CheckResult

pub check_pages : (rounds pgdir va perm addr stop : ℕ) → Memory → Option CheckResult
check_pages zero d va perm addr stop m = none
check_pages (suc n) d va perm addr stop m =
    let rest = check_pages n d va perm ((addr + 4096) % 2 ^ 32) stop m in
    if ltb addr stop
    then elim (is_allowed d perm addr m) [
      | none ↦ none
      | some ok ↦ if ok then rest else some (fault (if ltb addr va then va else addr))
    ]
    else some accepted

-- ROUNDUP(va + len, PGSIZE), on 32 bits.
abbrev pub range_stop : (va len : ℕ) → ℕ
range_stop va len = round_down ((va + len + 4095) % 2 ^ 32)

-- A round for each page and one for the test that ends the loop.
pub user_mem_check : (pgdir va len perm : ℕ) → Memory → Option CheckResult
user_mem_check d va len perm m =
    let start = round_down va in
    check_pages (suc ((range_stop va len - start) / 4096)) d va perm start (range_stop va len) m
