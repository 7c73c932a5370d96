-- ===== src/Pages/Tables.antt =====
-- Page tables: pgdir_walk, boot_map_region, page_insert, page_lookup, page_remove and
-- mmio_map_region of os_final_project/code/kern/pmap.c. An entry is given by the page of its table
-- and its index; what invalidates the TLB changes no state here.
pub mod Lookup
mod Tests
pub mod Insert
pub mod Replace
mod Create
use backup_gatech.Common.{
  ℕ, zero, suc, ◌+◌, ◌-◌, ◌*◌, ◌/◌, ◌%◌, ◌^◌, Option, none, some, Bool, true, false, not,
  if◌then◌else◌, ◌==◌, ltb,
}
use backup_gatech.Pages.{
  Pte, Memory, zero_pte, is_present, is_on_disk, pdx, ptx, put_word, add_ref, page_decref, find_pte,
}
use backup_gatech.Pages.Swap.{System, round_down, set_words, page_alloc, page_fault_intercept}

abbrev pub set_memory : Memory → System → System
set_memory m s = record s { memory = m }

pub write_entry : (t i : ℕ) → Pte → System → System
write_entry t i e s = set_words (put_word s.memory.words t i e) s

-- a | b, where b has no more than `bits` bits.
pub bit_or : (bits a b : ℕ) → ℕ
bit_or zero a b = a
bit_or (suc k) a b = (if a % 2 + b % 2 == 0 then 0 else 1) + 2 * bit_or k (a / 2) (b / 2)

-- pa | perm | PTE_P for the frame of pa; perm is a 32-bit word, whose upper 20 bits go into the
-- frame.
abbrev pub mapping : (frame perm : ℕ) → Pte
mapping f perm = record { frame = bit_or 20 f (perm / 4096); flags = perm % 4096 / 2 * 2 + 1 }

-- &table[PTX(va)] for the table that the directory names; KADDR panics at a page that does not
-- exist.
pub table_entry : (pgdir va : ℕ) → System → Option (Option (ℕ × ℕ) × System)
table_entry d va s =
    let t = (s.memory.words d (pdx va)).frame in
    if ltb t s.memory.npages then some (some (t, ptx va), s) else none

-- PTE_U | PTE_P | PTE_W is 7.
pub new_table : (pgdir va p : ℕ) → System → System
new_table d va p s =
    write_entry d (pdx va) (record { frame = p; flags = 7 }) (set_memory (add_ref p s.memory) s)

-- The fuel is that of page_alloc; `none` in the result is NULL.
pub pgdir_walk : (fuel pgdir va : ℕ) → (create : Bool) → System → Option (Option (ℕ × ℕ) × System)
pgdir_walk k d va create s =
    if is_present (s.memory.words d (pdx va))
    then table_entry d va s
    else if not create
    then some (none, s)
    else elim (page_alloc k true s) [
      | none ↦ none
      | some (o, s') ↦ elim o [
        | none ↦ some (none, s')
        | some p ↦ table_entry d va (new_table d va p s')
      ]
    ]

-- The loop of boot_map_region; out of memory is a panic. `end` is pa + size, on 32 bits.
pub map_pages : (rounds fuel pgdir va pa end perm : ℕ) → System → Option System
map_pages zero k d va pa end perm s = none
map_pages (suc n) k d va pa end perm s =
    if not (ltb pa end) then some s else elim (pgdir_walk k d va true s) [
      | none ↦ none
      | some (o, s') ↦ elim o [
        | none ↦ none
        | some (t, i) ↦
            map_pages n k d ((va + 4096) % 2 ^ 32) ((pa + 4096) % 2 ^ 32) end perm
              (write_entry t i (mapping (pa / 4096) perm) s')
      ]
    ]

-- One round for each page, and one for the test that ends the loop.
pub boot_map_region : (fuel pgdir va size pa perm : ℕ) → System → Option System
boot_map_region k d va size pa perm s =
    map_pages (suc (suc (size / 4096))) k d va pa ((pa + size) % 2 ^ 32) perm s

-- The page and its entry, `none` for NULL; pa2page panics at a page that does not exist.
pub page_at : (t i : ℕ) → System → Option (Option (ℕ × ℕ × ℕ) × System)
page_at t i s =
    let e = s.memory.words t i in
    if not (is_present e)
    then some (none, s)
    else if ltb e.frame s.memory.npages
    then some (some (e.frame, t, i), s)
    else none

pub page_lookup : (fuel pgdir va : ℕ) → System → Option (Option (ℕ × ℕ × ℕ) × System)
page_lookup k d va s = elim (pgdir_walk k d va false s) [
  | none ↦ none
  | some (o, s1) ↦ elim o [
    | none ↦ some (none, s1)
    | some (t, i) ↦
        if is_on_disk (s1.memory.words t i)
        then elim (page_fault_intercept k d va s1) [ none ↦ none | some s2 ↦ page_at t i s2 ]
        else page_at t i s1
  ]
]

pub page_remove : (fuel pgdir va : ℕ) → System → Option System
page_remove k d va s = elim (page_lookup k d va s) [
  | none ↦ none
  | some (o, s1) ↦ elim o [
    | none ↦ some s1
    | some (p, t, i) ↦ elim (page_decref p s1.memory) [
      | none ↦ none
      | some m ↦ some (write_entry t i zero_pte (set_memory m s1))
    ]
  ]
]

-- page_insert once the entry is found.
pub insert_at : (fuel pgdir p va perm t i : ℕ) → System → Option System
insert_at k d p va perm t i s =
    let s1 = set_memory (add_ref p s.memory) s in
    if is_present (s1.memory.words t i)
    then elim (page_remove k d va s1) [
      | none ↦ none
      | some s2 ↦ some (write_entry t i (mapping p perm) s2)
    ]
    else some (write_entry t i (mapping p perm) s1)

-- `true` is 0, `false` is -E_NO_MEM.
pub page_insert : (fuel pgdir p va perm : ℕ) → System → Option (Bool × System)
page_insert k d p va perm s = elim (pgdir_walk k d va true s) [
  | none ↦ none
  | some (o, s1) ↦ elim o [
    | none ↦ some (false, s1)
    | some (t, i) ↦ elim (insert_at k d p va perm t i s1) [
      | none ↦ none
      | some s2 ↦ some (true, s2)
    ]
  ]
]

abbrev pub mmiobase : ℕ
mmiobase = 4018143232

abbrev pub mmiolim : ℕ
mmiolim = 4022337536

-- ROUNDUP(size, PGSIZE), on 32 bits.
abbrev pub round_up : ℕ → ℕ
round_up size = round_down ((size + 4095) % 2 ^ 32)

-- `base` is the static variable: the old one is returned, and the new one kept. PTE_W, PTE_PWT and
-- PTE_PCD are 26.
pub mmio_map_region : (fuel pgdir base pa size : ℕ) → System → Option (ℕ × ℕ × System)
mmio_map_region k d base pa size s =
    let new_base = (base + round_up size) % 2 ^ 32 in
    if ltb mmiolim new_base
    then none
    else elim (boot_map_region k d base (round_up size) (round_down pa) 26 s) [
      | none ↦ none
      | some s' ↦ some (base, new_base, s')
    ]
