-- ===== src/Fd/Reuse.antt =====
-- A number that close gives back.
use backup_gatech.Common.{
  ℕ, zero, suc, ◌+◌, ◌/◌, ◌<◌, ◌≤◌, ◌≡◌, none, some, List, true, false, ◌==◌, arith, refl,
  Bool-cases, inl, inr,
}
use backup_gatech.Fd.{
  Space, Dev, index2fd, fd2num, is_open, maxfd, find_closed, fd_alloc, fd_lookup, unmap,
  close_device, dev_lookup, fd_close, close,
}

-- The search stops at a closed descriptor, no later than at `j`.
find_closed-closed :
    (k i j : ℕ) (s : Space)
    → i ≤ j
    → j < i + k
    → is_open s (index2fd j) ≡ false
    → (m : ℕ) × (find_closed k i s ≡ some (index2fd m)) × (m ≤ j) × (is_open s (index2fd m) ≡ false)
unfolding find_closed
find_closed-closed zero i j s lo hi e = absurd (omega (arith, lo, hi))
find_closed-closed (suc k) i j s lo hi e = elim (Bool-cases (is_open s (index2fd i))) [
  | inl opened ↦
      let later : suc i ≤ j = grind arith in
      let rest = find_closed-closed k (suc i) j s later (omega (arith, hi)) e in
      (rest.0, rw opened rest.1, rest.2, rest.3)
  | inr closed ↦ (i, rw closed refl, lo, closed)
]

fd_lookup-closed : (i : ℕ) (s : Space) → is_open s (index2fd i) ≡ false → fd_lookup i s ≡ none
unfolding fd_lookup
fd_lookup-closed i s e = ground (arith, e)

fd_lookup-open :
    (i : ℕ) (s : Space) → i < 32 → is_open s (index2fd i) ≡ true → fd_lookup i s ≡ some (index2fd i)
unfolding fd_lookup
fd_lookup-open i s small e = ground (arith, e)

unmap-closes : (fd : ℕ) (s : Space) → is_open (unmap fd s) fd ≡ false
unfolding unmap
unmap-closes fd s = ground arith

close-closes :
    (devtab : List Dev) (i : ℕ) (s : Space)
    → i < 32
    → is_open s (index2fd i) ≡ true
    → is_open (close devtab i s).1 (index2fd i) ≡ false
unfolding close fd_close
close-closes devtab i s small opened =
    let found = fd_lookup-open i s small opened in
    let number : fd2num (index2fd i) ≡ i = omega arith in
    let same : (index2fd i == index2fd i) ≡ true = ground arith in
    let done = close_device (dev_lookup (s.fd_dev_id (index2fd i / 4096)) devtab) (index2fd i) s in
    rw (close, found, fd_close, number, found, same) (unmap-closes (index2fd i) done.1)

-- After close of an open descriptor below MAXFD, its number is invalid, and fd_alloc gives a
-- descriptor of that number or a smaller one that is not open.
pub close-fd_alloc :
    (devtab : List Dev) (i : ℕ) (s : Space)
    → i < 32
    → is_open s (index2fd i) ≡ true
    → (fd_lookup i (close devtab i s).1 ≡ none)
      × (m : ℕ) × (fd_alloc (close devtab i s).1 ≡ some (index2fd m))
      × (m ≤ i)
      × (fd_lookup m (close devtab i s).1 ≡ none)
unfolding fd_alloc
close-fd_alloc devtab i s small opened =
    let closed = close-closes devtab i s small opened in
    let found =
      find_closed-closed maxfd 0 i (close devtab i s).1 (omega arith) (omega (arith, small))
        closed in
    (
      fd_lookup-closed i (close devtab i s).1 closed,
      found.0,
      found.1,
      found.2,
      fd_lookup-closed found.0 (close devtab i s).1 found.3,
    )
