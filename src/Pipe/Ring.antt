-- ===== src/Pipe/Ring.antt =====
-- The bytes in the ring.
use backup_gatech.Common.{
  ℕ, zero, suc, ◌+◌, ◌-◌, ◌%◌, ◌<◌, ◌≤◌, ◌≡◌, List, [], ◌∷◌, ◌++◌, get_or, set, get_or-set, length,
  arith, refl, ap, ◌∙◌, false, ◌==◌,
}
use backup_gatech.Pipe.{Pipe, new_pipe, pipebufsiz}

-- `k` bytes from position `r` on.
pub window : (buf : List ℕ) (r k : ℕ) → List ℕ
window buf r zero = []
window buf r (suc k) = get_or buf (r % pipebufsiz) 0 ∷ window buf (suc r) k

-- What is written and not yet read.
pub contents : Pipe → List ℕ
contents p = window p.p_buf p.p_rpos (p.p_wpos - p.p_rpos)

pub length-window : (buf : List ℕ) (r k : ℕ) → length (window buf r k) ≡ k
unfolding window
length-window buf r zero = refl
length-window buf r (suc k) = ap suc (length-window buf (suc r) k)

pub window-snoc :
    (buf : List ℕ) (r k : ℕ)
    → window buf r (suc k) ≡ window buf r k ++ get_or buf ((r + k) % pipebufsiz) 0 ∷ []
unfolding window
window-snoc buf r zero = let e : r + 0 ≡ r = omega arith in rw e refl
window-snoc buf r (suc k) =
    let e : suc r + k ≡ r + suc k = omega arith in
    ap (λ xs. get_or buf (r % pipebufsiz) 0 ∷ xs) (window-snoc buf (suc r) k ∙ rw e refl)

-- A byte stored at a position outside the window, less than a round away, is not in the window.
pub window-set :
    (buf : List ℕ) (r k w b : ℕ)
    → r + k ≤ w
    → w < r + pipebufsiz
    → window (set buf (w % pipebufsiz) b) r k ≡ window buf r k
unfolding window
window-set buf r zero w b lo hi = refl
window-set buf r (suc k) w b lo hi =
    let other : (w % pipebufsiz == r % pipebufsiz) ≡ false = ground arith in
    let same : get_or (set buf (w % pipebufsiz) b) (r % pipebufsiz) 0
        ≡ get_or buf (r % pipebufsiz) 0 =
      get_or-set buf (w % pipebufsiz) (r % pipebufsiz) b 0 ∙ rw other refl in
    rw (same, window-set buf (suc r) k w b (omega arith) (omega arith))

module _ (buf : List ℕ) (r w : ℕ) where
  pub contents-read :
      r < w
      → contents (record { p_rpos = r; p_wpos = w; p_buf = buf })
        ≡ get_or buf (r % pipebufsiz) 0
          ∷ contents (record { p_rpos = suc r; p_wpos = w; p_buf = buf })
  unfolding contents window
  contents-read l = let e : w - r ≡ suc (w - suc r) = omega arith in rw e refl

  pub contents-written :
      r ≤ w
      → contents (record { p_rpos = r; p_wpos = suc w; p_buf = buf })
        ≡ contents (record { p_rpos = r; p_wpos = w; p_buf = buf })
          ++ get_or buf (w % pipebufsiz) 0 ∷ []
  unfolding contents
  contents-written l =
      let e : suc w - r ≡ suc (w - r) = omega arith in
      let i : r + (w - r) ≡ w = omega arith in rw (e, window-snoc buf r (w - r), i) refl

  pub contents-stored :
      (b : ℕ)
      → r ≤ w
      → w < r + pipebufsiz
      → contents (record { p_rpos = r; p_wpos = w; p_buf = set buf (w % pipebufsiz) b })
        ≡ contents (record { p_rpos = r; p_wpos = w; p_buf = buf })
  unfolding contents
  contents-stored b l h = window-set buf r (w - r) w b (omega arith) h

  pub length-contents : length (contents (record { p_rpos = r; p_wpos = w; p_buf = buf })) ≡ w - r
  unfolding contents
  length-contents = length-window buf r (w - r)

pub contents-new : contents new_pipe ≡ []
unfolding contents window
contents-new = refl
