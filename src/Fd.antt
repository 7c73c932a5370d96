-- ===== src/Fd.antt =====
-- The table of file descriptors of os_final_project/code/lib/fd.c. A pointer is its 32-bit address,
-- a result the 32 bits of the int.
pub mod Reuse
mod Tests
use backup_gatech.Common.{
  ℕ, zero, suc, ◌+◌, ◌-◌, ◌*◌, ◌/◌, ◌%◌, ◌^◌, Option, none, some, List, [], ◌∷◌, Bool, true, false,
  if◌then◌else◌, ◌==◌, ltb,
}

-- What the program sees of its pages: by page number, whether the entries of the directory and the
-- table are present, and the fd_dev_id at the start of the page.
pub record Space : Type 0 where
  pub is_mapped : ℕ → Bool
  pub fd_dev_id : ℕ → ℕ

pub record Dev : Type 0 where
  pub dev_id : ℕ
  pub dev_close : Option (ℕ → Space → ℕ × Space)

abbrev pub maxfd : ℕ
maxfd = 32

abbrev pub index2fd : ℕ → ℕ
index2fd i = 0xD0000000 + i * 4096

abbrev pub fd2num : ℕ → ℕ
fd2num fd = (fd + (2 ^ 32 - 0xD0000000)) % 2 ^ 32 / 4096

abbrev pub is_open : Space → ℕ → Bool
is_open s fd = s.is_mapped (fd / 4096)

pub find_closed : (rounds i : ℕ) → Space → Option ℕ
find_closed zero i s = none
find_closed (suc k) i s =
    let rest = find_closed k (suc i) s in if is_open s (index2fd i) then rest else some (index2fd i)

-- `none` is -E_MAX_OPEN.
pub fd_alloc : Space → Option ℕ
fd_alloc s = find_closed maxfd 0 s

-- `none` is -E_INVAL; a negative number is 2 ^ 31 or more.
pub fd_lookup : (fdnum : ℕ) → Space → Option ℕ
fd_lookup fdnum s =
    if ltb fdnum maxfd
    then if is_open s (index2fd fdnum) then some (index2fd fdnum) else none
    else none

-- -E_INVAL
abbrev pub invalid : ℕ
invalid = 2 ^ 32 - 3

pub dev_lookup : (dev_id : ℕ) → (devtab : List Dev) → Option Dev
dev_lookup id [] = none
dev_lookup id (d ∷ ds) = let rest = dev_lookup id ds in if d.dev_id == id then some d else rest

-- sys_page_unmap on the program's own page.
pub unmap : ℕ → Space → Space
unmap fd s = record s { is_mapped = λ p. if p == fd / 4096 then false else s.is_mapped p }

-- The call of the device; without a device -E_INVAL.
pub close_device : Option Dev → ℕ → Space → ℕ × Space
close_device none fd s = (invalid, s)
close_device (some d) fd s = elim d.dev_close [ none ↦ (0, s) | some close ↦ close fd s ]

pub fd_close : (devtab : List Dev) → (fd : ℕ) → (must_exist : Bool) → Space → ℕ × Space
fd_close devtab fd must_exist s = elim (fd_lookup (fd2num fd) s) [
  | none ↦ (if must_exist then invalid else 0, s)
  | some fd2 ↦
      let done = close_device (dev_lookup (s.fd_dev_id (fd / 4096)) devtab) fd s in
      if fd == fd2 then (done.0, unmap fd done.1) else (0, s)
]

pub close : (devtab : List Dev) → (fdnum : ℕ) → Space → ℕ × Space
close devtab fdnum s = elim (fd_lookup fdnum s) [
  | none ↦ (invalid, s)
  | some fd ↦ fd_close devtab fd true s
]
