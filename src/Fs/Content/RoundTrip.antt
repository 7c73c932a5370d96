-- ===== src/Fs/Content/RoundTrip.antt =====
-- Bytes that are written to a file are read again.
use backup_gatech.Common.{
  ℕ, zero, suc, ◌+◌, ◌-◌, ◌/◌, ◌%◌, ◌^◌, ◌||◌, ◌<◌, ◌≤◌, ◌≡◌, some, List, [], ◌∷◌, true, false,
  ◌==◌, ltb, leb, length, take_all, drop, min, arith, refl, ap, ◌∙◌, sym, Bool-cases, inl, inr,
}
use mathlib.Core.Path.{subst}
use backup_gatech.Fs.{Disk, File, blksize, ndirect, is_negative}
use backup_gatech.Fs.Bytes.{
  bytes_from, put_bytes, AreBytes, bytes_from-put_bytes, bytes_from_frame, put_bytes-other_block,
  put_bytes-size,
}
use backup_gatech.Fs.Files.{FilePointer, load_file, store_file, size_at, ok, get_block, set_size}
use backup_gatech.Fs.Files.Stored.{
  HasBlock, HasBlock-frame, get_block-HasBlock, get_block-again, store_file-other_block,
  load_file_frame, set_size-grows,
}
use backup_gatech.Fs.Content.{bn, read_loop, file_read, write_loop, extend, file_write}

-- The bytes lie in one block of the file, one of the first ten.
pub record InBlock (offset n : ℕ) : Type 0 where
  pub some_bytes : 0 < n
  pub within : offset % blksize + n ≤ blksize
  pub low : offset / blksize < ndirect

extend-size :
    (p : FilePointer) (size : ℕ) (d d0 : Disk)
    → size < 2 ^ 31
    → size_at p d < 2 ^ 31
    → extend p size d ≡ some d0
    → (size ≤ size_at p d0) × (size_at p d0 < 2 ^ 31)
unfolding extend
extend-size p size d d0 small old e = elim (Bool-cases (ltb (size_at p d) size)) [
  | inr enough ↦
      let same : d ≡ d0 =
        let computes : extend p size d ≡ some d = rw (extend, enough) refl in cc (computes, e) in
      subst (λ x. (size ≤ size_at p x) × (size_at p x < 2 ^ 31)) same (ground (arith, enough), old)
  | inl short ↦
      let grown : set_size p size d ≡ some d0 =
        let computes : extend p size d ≡ set_size p size d = rw (extend, short) refl in
        sym computes ∙ e in
      let new = set_size-grows p size d d0 short small grown in
      (omega (arith, new), omega (arith, new, small))
]

drop_all : (xs : List ℕ) → drop (length xs) xs ≡ []
drop_all [] = refl
drop_all (x ∷ xs) = drop_all xs

write_done :
    (k pos : ℕ) (p : FilePointer) (count : ℕ) (d : Disk)
    → 0 < k
    → write_loop k pos [] p count d ≡ some (ok count d)
unfolding write_loop
write_done zero pos p count d h = absurd (omega arith)
write_done (suc k) pos p count d h = refl

read_done :
    (k pos stop : ℕ) (p : FilePointer) (bs : List ℕ) (d : Disk)
    → 0 < k
    → stop ≤ pos
    → read_loop k pos stop p bs d ≡ some (ok bs d)
unfolding read_loop
read_done zero pos stop p bs d h l = absurd (omega arith)
read_done (suc k) pos stop p bs d h l =
    let ends : leb stop pos ≡ true = ground (arith, l) in rw ends refl

module _ (p : FilePointer) (buf : List ℕ) (offset : ℕ) (block : InBlock offset (length buf)) where
  write_one :
      (b : ℕ) (d d1 : Disk)
      → get_block p (offset / blksize) d ≡ some (ok b d1)
      → write_loop (suc (length buf)) offset buf p (length buf) d
        ≡ some (ok (length buf) (put_bytes b (offset % blksize) buf d1))
  unfolding write_loop
  write_one b d d1 e =
      let n = length buf in
      let more : leb n 0 ≡ false = ground (arith, block.some_bytes) in
      let whole : bn offset (offset + n) ≡ n = omega (arith, block.within) in
      rw (more, e, whole, drop_all buf, take_all n buf (omega arith))
        (write_done n (offset + n) p n (put_bytes b (offset % blksize) buf d1) block.some_bytes)

  read_one :
      (b : ℕ) (d d1 : Disk)
      → get_block p (offset / blksize) d ≡ some (ok b d1)
      → read_loop (suc (length buf)) offset (offset + length buf) p [] d
        ≡ some (ok (bytes_from (length buf) b (offset % blksize) d1) d1)
  unfolding read_loop
  read_one b d d1 e =
      let n = length buf in
      let more : leb (offset + n) offset ≡ false = ground (arith, block.some_bytes) in
      let whole : bn offset (offset + n) ≡ n = omega (arith, block.within) in
      rw (more, e, whole)
        (read_done n (offset + n) (offset + n) p (bytes_from n b (offset % blksize) d1) d1
          block.some_bytes (omega arith))

  -- The bytes of a block that the file has, when its size covers them.
  read_block :
      (b : ℕ) (d : Disk)
      → HasBlock p (offset / blksize) b d
      → (b == p.0) ≡ false
      → offset + length buf ≤ size_at p d
      → size_at p d < 2 ^ 31
      → (d3 : Disk) × (file_read p (length buf) offset d
          ≡ some (ok (bytes_from (length buf) b (offset % blksize) d3) d3))
        × ((i : ℕ) → d3.words b i ≡ d.words b i)
  unfolding file_read
  read_block b d has apart covers small =
      let d3 = store_file p (load_file p d) d in
      let inside : (is_negative (size_at p d) || leb (size_at p d) offset) ≡ false =
        ground (arith, block.some_bytes, covers, small) in
      let n : min (length buf) (size_at p d - offset) ≡ length buf = omega (arith, covers) in
      (
        d3,
        rw (file_read, inside, n) (read_one b d d3 (get_block-again p (offset / blksize) b d has)),
        λ i. store_file-other_block p b i (load_file p d) d apart,
      )

  -- Bytes within one of the first ten blocks of a file whose size is not negative, as an off_t, and
  -- that end below 2 ^ 31: when the file could be made long enough
  -- and get_block gives that block, other than the one with the struct File, file_write returns
  -- the number of bytes, and file_read of as many bytes from there returns them.
  pub file_read-file_write :
      (b : ℕ) (d d0 d1 : Disk)
      → AreBytes buf
      → offset + length buf < 2 ^ 31
      → size_at p d < 2 ^ 31
      → extend p (offset + length buf) d ≡ some d0
      → get_block p (offset / blksize) d0 ≡ some (ok b d1)
      → (b == p.0) ≡ false
      → (d2 d3 : Disk) × (file_write p buf offset d ≡ some (ok (length buf) d2))
        × (file_read p (length buf) offset d2 ≡ some (ok buf d3))
  unfolding file_read file_write
  file_read-file_write b d d0 d1 bytes low old grown got apart =
      let n = offset / blksize in
      let i = offset % blksize in
      let d2 = put_bytes b i buf d1 in
      let facts = get_block-HasBlock p n b d0 d1 block.low got in
      let same : load_file p d2 ≡ load_file p d1 =
        load_file_frame p d1 d2
          (λ k. put_bytes-other_block b p.0 k i buf d1 (ground (arith, apart))) in
      let has : HasBlock p n b d2 =
        HasBlock-frame p n b d1 d2 same (put_bytes-size b i buf d1) facts.0 in
      let sizes = extend-size p (offset + length buf) d d0 low old grown in
      let covers : offset + length buf ≤ size_at p d2 =
        omega (arith, ap File.f_size same, facts.1, sizes.0) in
      let small : size_at p d2 < 2 ^ 31 = omega (arith, ap File.f_size same, facts.1, sizes.1) in
      let read = read_block b d2 has apart covers small in
      (
        d2,
        read.0,
        rw (file_write, grown) (write_one b d0 d1 got),
        read.1
            ∙ ap (λ bs. some (ok bs read.0))
                (bytes_from_frame (length buf) b i d2 read.0 read.2
                  ∙ bytes_from-put_bytes b i buf d1 bytes),
      )
