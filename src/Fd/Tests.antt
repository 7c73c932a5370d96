-- ===== src/Fd/Tests.antt =====
-- The theorem on close at two open descriptors.
use backup_gatech.Common.{ℕ, ◌≤◌, ◌≡◌, none, some, [], ◌∷◌, leb, refl, arith}
use backup_gatech.Fd.{Space, Dev, index2fd, fd_alloc, fd_lookup, close}
use backup_gatech.Fd.Reuse.{close-fd_alloc}

-- The descriptors 0 and 1 are open, both of a device 'p'.
abbrev two_open : Space
two_open = record { is_mapped = λ p. leb p 0xD0001; fd_dev_id = λ p. b'p' }

-- A pipe whose close has no effect on the pages.
abbrev devpipe : Dev
devpipe = record { dev_id = b'p'; dev_close = some (λ fd s. (0, s)) }

close-fd_alloc_example :
    (fd_lookup 1 (close (devpipe ∷ []) 1 two_open).1 ≡ none)
    × (m : ℕ) × (fd_alloc (close (devpipe ∷ []) 1 two_open).1 ≡ some (index2fd m))
    × (m ≤ 1)
    × (fd_lookup m (close (devpipe ∷ []) 1 two_open).1 ≡ none)
close-fd_alloc_example = close-fd_alloc (devpipe ∷ []) 1 two_open (omega arith) refl
