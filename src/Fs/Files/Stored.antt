-- ===== src/Fs/Files/Stored.antt =====
-- The blocks of a file on the disk: those whose numbers stand in the file.
use backup_gatech.Common.{
  ℕ, zero, suc, ◌+◌, ◌-◌, ◌/◌, ◌<◌, ◌≡◌, Option, none, some, true, false, ◌&&◌, ◌||◌, not, ◌==◌,
  ltb, leb, length, length-set, get_or, get_or-set, arith, refl, ap, ◌∙◌, sym, Option-cases, inl,
  inr, ◌^◌,
}
use mathlib.Core.Path.{subst, fun_ext}
use backup_gatech.Fs.{
  Error, Disk, File, Slot, direct, Result, done, fails, blksize, ndirect, nindirect, file_get_block,
  file_block_walk, slot_of, get_at, read_slot, write_slot, is_block, alloc_block, add_indirect,
  less_signed, file_set_size,
}
use backup_gatech.Fs.Files.{
  file_in, set_size, FilePointer, load_file, store_file, size_at, ok, get_block,
}

-- A direct block of the file is at hand: it has a number that is in range.
pub record HasDirect (f : File) (n b nblocks : ℕ) : Type 0 where
  below : n < ndirect
  reached : (n == 0) || not (f.f_indirect == 0) ≡ true
  number : get_or f.f_direct n 0 ≡ b
  valid : (not (b == 0) && ltb b nblocks) ≡ true

walk_again :
    (f : File) (n b : ℕ) (d : Disk)
    → HasDirect f n b d.s_nblocks
    → file_block_walk f n true d ≡ some (done (direct n) f d)
unfolding file_block_walk slot_of
walk_again f n b d h =
    let small : leb (ndirect + nindirect) n ≡ false = ground (arith, h.below) in
    let at_hand : (ltb (ndirect / blksize) n && f.f_indirect == 0) ≡ false =
      ground (arith, h.reached) in
    let low : ltb n ndirect ≡ true = ground (arith, h.below) in
    rw (file_block_walk, small, at_hand, slot_of, low) refl

get_at_again :
    (f : File) (n b : ℕ) (d : Disk)
    → HasDirect f n b d.s_nblocks
    → get_at (direct n) f d ≡ some (done b f d)
unfolding get_at read_slot is_block
get_at_again f n b d h =
    let number : (b == 0) ≡ false = ground (arith, h.valid) in
    let upper : ltb b d.s_nblocks ≡ true = ground (arith, h.valid) in
    rw (get_at, read_slot, h.number, number, upper) refl

-- Then file_get_block finds it and changes nothing.
get_again :
    (f : File) (n b : ℕ) (d : Disk)
    → HasDirect f n b d.s_nblocks
    → file_get_block f n d ≡ some (done b f d)
unfolding file_get_block
get_again f n b d h = rw (file_get_block, walk_again f n b d h) (get_at_again f n b d h)

abbrev IsReached : File → ℕ → Type 0
IsReached f n = ((n == 0) || not (f.f_indirect == 0)) ≡ true

walk_found :
    (f f1 : File) (n : ℕ) (s : Slot) (d d1 : Disk)
    → n < ndirect
    → file_block_walk f n true d ≡ some (done s f1 d1)
    → (s ≡ direct n) × IsReached f1 n × (f1.f_direct ≡ f.f_direct) × (f1.f_size ≡ f.f_size)
unfolding file_block_walk add_indirect slot_of is_block
walk_found f f1 n s d d1 small e = ground (arith, e)

alloc_keeps :
    (d : Disk) (b : ℕ) (d1 : Disk) → alloc_block d ≡ some (b, d1) → d1.s_nblocks ≡ d.s_nblocks
unfolding alloc_block
alloc_keeps d b d1 e = ground (arith, e)

get_found :
    (f f1 : File) (n b : ℕ) (d d1 : Disk)
    → n < length f.f_direct
    → get_at (direct n) f d ≡ some (done b f1 d1)
    → (get_or f1.f_direct n 0 ≡ b)
      × ((not (b == 0) && ltb b d1.s_nblocks) ≡ true)
      × (length f1.f_direct ≡ length f.f_direct)
      × (f1.f_indirect ≡ f.f_indirect)
      × (f1.f_size ≡ f.f_size)
unfolding get_at read_slot is_block write_slot
get_found f f1 n b d d1 small e = elim (Option-cases (alloc_block d)) [
  | inl full ↦ ground (arith, e, full)
  | inr ((c, d2), taken) ↦ ground (
    arith,
    e,
    taken,
    alloc_keeps d c d2 taken,
    get_or-set f.f_direct n n c 0,
    length-set f.f_direct n c,
  )
]

load_direct :
    (b o n : ℕ) (d : Disk)
    → n < ndirect
    → get_or (load_file (b, o) d).f_direct n 0 ≡ d.words b (o + 34 + n)
unfolding load_file
load_direct b o zero d h = ap (d.words b) (omega arith)
load_direct b o (suc zero) d h = ap (d.words b) (omega arith)
load_direct b o (suc (suc zero)) d h = ap (d.words b) (omega arith)
load_direct b o (suc (suc (suc zero))) d h = ap (d.words b) (omega arith)
load_direct b o (suc (suc (suc (suc zero)))) d h = ap (d.words b) (omega arith)
load_direct b o (suc (suc (suc (suc (suc zero))))) d h = ap (d.words b) (omega arith)
load_direct b o (suc (suc (suc (suc (suc (suc zero)))))) d h = ap (d.words b) (omega arith)
load_direct b o (suc (suc (suc (suc (suc (suc (suc zero))))))) d h = ap (d.words b) (omega arith)
load_direct b o (suc (suc (suc (suc (suc (suc (suc (suc zero)))))))) d h =
    ap (d.words b) (omega arith)
load_direct b o (suc (suc (suc (suc (suc (suc (suc (suc (suc zero))))))))) d h =
    ap (d.words b) (omega arith)
load_direct b o (suc (suc (suc (suc (suc (suc (suc (suc (suc (suc n)))))))))) d h =
    absurd (omega arith)

-- The fields of a file that is stored.
stored_direct :
    (p : FilePointer) (n : ℕ) (f : File) (d : Disk)
    → n < ndirect
    → get_or (load_file p (store_file p f d)).f_direct n 0 ≡ get_or f.f_direct n 0
unfolding store_file
stored_direct (b, o) n f d h =
    load_direct b o n (store_file (b, o) f d) h
    ∙ (let e : o + 34 + n - (o + 34) ≡ n = omega arith in
        ground (arith, h, ap (λ i. get_or f.f_direct i 0) e))

stored_indirect :
    (p : FilePointer) (f : File) (d : Disk)
    → (load_file p (store_file p f d)).f_indirect ≡ f.f_indirect
unfolding load_file store_file
stored_indirect (b, o) f d = ground arith

stored_size : (p : FilePointer) (f : File) (d : Disk) → size_at p (store_file p f d) ≡ f.f_size
unfolding load_file store_file
stored_size (b, o) f d = ground arith

length-load_direct : (p : FilePointer) (d : Disk) → length (load_file p d).f_direct ≡ 10
unfolding load_file
length-load_direct (b, o) d = refl

data IsResult {A : Type 0} (r : Option (Result A)) : Type 0 where
  panics : r ≡ none → IsResult r
  gives : (a : A) (f : File) (d : Disk) → r ≡ some (done a f d) → IsResult r
  refuses : (e : Error) (f : File) (d : Disk) → r ≡ some (fails e f d) → IsResult r

result_of : {A : Type 0} (r : Option (Result A)) → IsResult r
result_of none = panics refl
result_of (some (done a f d)) = gives a f d refl
result_of (some (fails e f d)) = refuses e f d refl

file_get_found :
    (f f1 : File) (n b : ℕ) (d d1 : Disk)
    → n < ndirect
    → length f.f_direct ≡ 10
    → file_get_block f n d ≡ some (done b f1 d1)
    → HasDirect f1 n b d1.s_nblocks × (f1.f_size ≡ f.f_size)
unfolding file_get_block
file_get_found f f1 n b d d1 small ten e = elim (result_of (file_block_walk f n true d)) [
  | panics w ↦ absurd (cc (e, w))
  | refuses x f2 d2 w ↦ absurd (cc (e, w))
  | gives s f2 d2 w ↦
      let found = walk_found f f2 n s d d2 small w in
      let got : get_at (direct n) f2 d2 ≡ some (done b f1 d1) =
        let computes : file_get_block f n d ≡ get_at s f2 d2 = rw (file_get_block, w) refl in
        ap (λ t. get_at t f2 d2) (sym found.0) ∙ sym computes ∙ e in
      let facts = get_found f2 f1 n b d2 d1 (omega (arith, ap length found.2, ten, small)) got in
      (
        record {
          below = small;
          reached = ap (λ x. (n == 0) || not (x == 0)) facts.3 ∙ found.1;
          number = facts.0;
          valid = facts.1;
        },
        facts.4 ∙ found.3,
      )
]

pub store_file-other_block :
    (p : FilePointer) (c i : ℕ) (f : File) (d : Disk)
    → (c == p.0) ≡ false
    → (store_file p f d).words c i ≡ d.words c i
unfolding store_file
store_file-other_block (b, o) c i f d ne = rw ne refl

store_file-nblocks :
    (p : FilePointer) (f : File) (d : Disk) → (store_file p f d).s_nblocks ≡ d.s_nblocks
unfolding store_file
store_file-nblocks (b, o) f d = refl

-- The file at the pointer has the direct block.
abbrev pub HasBlock : FilePointer → (n b : ℕ) → Disk → Type 0
HasBlock p n b d = HasDirect (load_file p d) n b d.s_nblocks

HasDirect-stored :
    (p : FilePointer) (f : File) (n b : ℕ) (d : Disk)
    → HasDirect f n b d.s_nblocks
    → HasBlock p n b (store_file p f d)
HasDirect-stored p f n b d h = record {
  below = h.below;
  reached = ap (λ x. (n == 0) || not (x == 0)) (stored_indirect p f d) ∙ h.reached;
  number = stored_direct p n f d h.below ∙ h.number;
  valid = ap (λ k. not (b == 0) && ltb b k) (store_file-nblocks p f d) ∙ h.valid;
}

-- A direct block that get_block returns is the file's from then on.
pub get_block-HasBlock :
    (p : FilePointer) (n b : ℕ) (d d1 : Disk)
    → n < ndirect
    → get_block p n d ≡ some (ok b d1)
    → HasBlock p n b d1 × (size_at p d1 ≡ size_at p d)
unfolding get_block
get_block-HasBlock p n b d d1 small e = elim (result_of (file_get_block (load_file p d) n d)) [
  | panics w ↦ absurd (cc (e, w))
  | refuses x f2 d2 w ↦ absurd (cc (e, w))
  | gives c f2 d2 w ↦
      let computes : get_block p n d ≡ some (ok c (store_file p f2 d2)) = rw (get_block, w) refl in
      let same : some (ok c (store_file p f2 d2)) ≡ some (ok b d1) = sym computes ∙ e in
      let found = file_get_found (load_file p d) f2 n c d d2 small (length-load_direct p d) w in
      let eb : c ≡ b = cc same in
      let ed : store_file p f2 d2 ≡ d1 = cc same in
      subst (λ x. HasBlock p n x d1 × (size_at p d1 ≡ size_at p d)) eb
        (subst (λ y. HasBlock p n c y × (size_at p y ≡ size_at p d)) ed
          (HasDirect-stored p f2 n c d2 found.0, stored_size p f2 d2 ∙ found.1))
]

-- A block that the file has is returned again.
pub get_block-again :
    (p : FilePointer) (n b : ℕ) (d : Disk)
    → HasBlock p n b d
    → get_block p n d ≡ some (ok b (store_file p (load_file p d) d))
unfolding get_block
get_block-again p n b d h = rw (get_block, get_again (load_file p d) n b d h) refl

-- A file that is made longer, to a size that is not negative, has the new size.
pub set_size-grows :
    (p : FilePointer) (size : ℕ) (d d0 : Disk)
    → ltb (size_at p d) size ≡ true
    → size < 2 ^ 31
    → set_size p size d ≡ some d0
    → size_at p d0 ≡ size
unfolding set_size file_set_size
set_size-grows p size d d0 short low e =
    let no_cut : less_signed size (size_at p d) ≡ false = ground (arith, short, low) in
    let f = record (load_file p d) { f_size = size } in
    let computes : set_size p size d ≡ some (store_file p f d) =
      rw (set_size, file_set_size, no_cut) refl in
    let same : store_file p f d ≡ d0 = cc (computes, e) in
    subst (λ x. size_at p x ≡ size) same (stored_size p f d)

-- A file is what stands in its own block.
pub load_file_frame :
    (p : FilePointer) (d e : Disk)
    → ((i : ℕ) → e.words p.0 i ≡ d.words p.0 i)
    → load_file p e ≡ load_file p d
unfolding load_file
load_file_frame (b, o) d e h = ap (λ ws. file_in ws o) (fun_ext h)

pub HasBlock-frame :
    (p : FilePointer) (n b : ℕ) (d e : Disk)
    → load_file p e ≡ load_file p d
    → e.s_nblocks ≡ d.s_nblocks
    → HasBlock p n b d
    → HasBlock p n b e
HasBlock-frame p n b d e same size has =
    subst (λ f. HasDirect f n b e.s_nblocks) (sym same)
      (subst (λ k. HasDirect (load_file p d) n b k) (sym size) has)
