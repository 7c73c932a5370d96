-- ===== src/Vm/Disk.antt =====
-- The swap file: a page comes back as it was.
use backup_gatech.Common.{
  ℕ, suc, ◌+◌, ◌*◌, ◌≤◌, ◌≡◌, some, List, ◌∷◌, ◌++◌, arith, refl, length, take, drop, length-take,
  length-drop, take-append_length, drop-append_length,
}
use backup_gatech.Vm.{
  Sizes, Machine, SwapPage, frame_bytes, write_frame, page_to_disk, page_from_disk, take_out,
}

length-frame_bytes :
    (z : Sizes) (f : ℕ) (mem : List ℕ)
    → f * z.page_size + z.page_size ≤ length mem
    → length (frame_bytes z f mem) ≡ z.page_size
unfolding frame_bytes
length-frame_bytes z f mem h =
    omega (
      arith,
      length-take z.page_size (drop (f * z.page_size) mem),
      length-drop (f * z.page_size) mem,
    )

drop_at : (n : ℕ) (xs ys : List ℕ) → length xs ≡ n → drop n (xs ++ ys) ≡ ys
drop_at n xs ys e = rw (← e) (drop-append_length xs ys)

take_at : (n : ℕ) (xs ys : List ℕ) → length xs ≡ n → take n (xs ++ ys) ≡ xs
take_at n xs ys e = rw (← e) (take-append_length xs ys)

-- A frame that was written holds what was written.
pub frame_bytes-write_frame :
    (z : Sizes) (f : ℕ) (bytes mem : List ℕ)
    → f * z.page_size + z.page_size ≤ length mem
    → length bytes ≡ z.page_size
    → frame_bytes z f (write_frame z f bytes mem) ≡ bytes
unfolding frame_bytes write_frame
frame_bytes-write_frame z f bytes mem h l =
    let front = take (f * z.page_size) mem in
    let back = drop (f * z.page_size + z.page_size) mem in
    rw
      (drop_at (f * z.page_size) front (bytes ++ back)
        (omega (arith, length-take (f * z.page_size) mem)))
      (take_at z.page_size bytes back l)

take_out-here :
    (v p : ℕ) (bytes : List ℕ) (ss : List SwapPage)
    → take_out v p (record { pid = p; number = v; bytes = bytes } ∷ ss) ≡ some (bytes, ss)
unfolding take_out
take_out-here v p bytes ss = ground arith

-- A page that goes to disk from one frame of memory and comes back into another is the same,
-- the swap file is as before, and two disk accesses are counted.
pub page_from_disk-page_to_disk :
    (z : Sizes) (f g v p : ℕ) (m : Machine)
    → f * z.page_size + z.page_size ≤ length m.memory
    → g * z.page_size + z.page_size ≤ length m.memory
    → let m' = page_from_disk z g v p (page_to_disk z f v p m) in
      (frame_bytes z g m'.memory ≡ frame_bytes z f m.memory)
      × (m'.swapfile ≡ m.swapfile)
      × (m'.counts.diskaccesses ≡ suc (suc m.counts.diskaccesses))
unfolding page_from_disk page_to_disk
page_from_disk-page_to_disk z f g v p m hf hg =
    rw (take_out-here v p (frame_bytes z f m.memory) m.swapfile, page_from_disk)
      (
        frame_bytes-write_frame z g (frame_bytes z f m.memory) m.memory hg
            (length-frame_bytes z f m.memory hf),
        refl,
        refl,
      )
