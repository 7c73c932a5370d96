-- ===== src/Pipe/Holds.antt =====
-- What the reader and the writer of a pipe may rely on between their actions.
use backup_gatech.Common.{
  ℕ, suc, ◌+◌, ◌%◌, ◌<◌, ◌≤◌, ◌≡◌, List, get_or, set, get_or-set, arith, refl, ◌∙◌, Bool, true,
  false, if◌then◌else◌, ◌==◌, ltb,
}
use backup_gatech.Pipe.{
  Pipe, pipebufsiz, Reader, testing, taking, taken, returned, Writer, checking, storing, stored,
  ended, read_action, write_action,
}

-- What a reader between two actions may rely on.
unfoldable pub ReaderHolds : Pipe → Reader → Type 0
ReaderHolds p (testing i n buf) = Unit
ReaderHolds p (taking i n buf) = p.p_rpos < p.p_wpos
ReaderHolds p (taken i n buf byte) =
    (p.p_rpos < p.p_wpos) × (get_or p.p_buf (p.p_rpos % pipebufsiz) 0 ≡ byte)
ReaderHolds p (returned r buf) = Unit

unfoldable pub WriterHolds : Pipe → Writer → Type 0
WriterHolds p (checking i n buf) = Unit
WriterHolds p (storing i n buf) = p.p_wpos < p.p_rpos + pipebufsiz
WriterHolds p (stored i n buf byte) =
    (p.p_wpos < p.p_rpos + pipebufsiz) × (get_or p.p_buf (p.p_wpos % pipebufsiz) 0 ≡ byte)
WriterHolds p (ended r) = Unit

-- A test chooses what is to hold.
module _ {A : Type 0} (P : A → Type 0) where
  either : (b : Bool) {x y : A} → (b ≡ true → P x) → (b ≡ false → P y) → P (if b then x else y)
  either true f g = f refl
  either false f g = g refl

pub testing-holds :
    (closed : Bool) (p : Pipe) (i n : ℕ) (buf : List ℕ)
    → p.p_rpos ≤ p.p_wpos
    → ReaderHolds p (read_action closed p (testing i n buf))
unfolding read_action ReaderHolds
testing-holds closed p i n buf l =
    either (ReaderHolds p) (ltb i n)
      (λ _.
        either (ReaderHolds p) (p.p_rpos == p.p_wpos)
          (λ _.
            either (ReaderHolds p) (ltb 0 i) (λ _. tt)
              (λ _. either (ReaderHolds p) closed (λ _. tt) (λ _. tt)))
          (λ e. ground (arith, e)))
      (λ _. tt)

pub checking-holds :
    (closed : Bool) (p : Pipe) (i n : ℕ) (buf : List ℕ)
    → WriterHolds p (write_action closed p (checking i n buf))
unfolding write_action WriterHolds
checking-holds closed p i n buf =
    either (WriterHolds p) (ltb i n)
      (λ _.
        either (WriterHolds p) (ltb p.p_wpos (p.p_rpos + pipebufsiz)) (λ e. ground (arith, e))
          (λ _. either (WriterHolds p) closed (λ _. tt) (λ _. tt)))
      (λ _. tt)

-- When the read position moves on, the writer has more room.
pub WriterHolds-read :
    (p : Pipe) (w : Writer) → WriterHolds p w → WriterHolds (record p { p_rpos = suc p.p_rpos }) w
unfolding WriterHolds
WriterHolds-read p (checking i n buf) h = tt
WriterHolds-read p (storing i n buf) h = omega (arith, h)
WriterHolds-read p (stored i n buf byte) h = (omega (arith, h.0), h.1)
WriterHolds-read p (ended r) h = tt

pub ReaderHolds-written :
    (p : Pipe) (r : Reader) → ReaderHolds p r → ReaderHolds (record p { p_wpos = suc p.p_wpos }) r
unfolding ReaderHolds
ReaderHolds-written p (testing i n buf) h = tt
ReaderHolds-written p (taking i n buf) h = omega (arith, h)
ReaderHolds-written p (taken i n buf byte) h = (omega (arith, h.0), h.1)
ReaderHolds-written p (returned r buf) h = tt

-- The byte that the writer stores is not the one that the reader is at.
pub ReaderHolds-stored :
    (p : Pipe) (r : Reader) (b : ℕ)
    → p.p_wpos < p.p_rpos + pipebufsiz
    → ReaderHolds p r
    → ReaderHolds (record p { p_buf = set p.p_buf (p.p_wpos % pipebufsiz) b }) r
unfolding ReaderHolds
ReaderHolds-stored p (testing i n buf) b l h = tt
ReaderHolds-stored p (taking i n buf) b l h = h
ReaderHolds-stored p (taken i n buf byte) b l h =
    let other : (p.p_wpos % pipebufsiz == p.p_rpos % pipebufsiz) ≡ false = ground (arith, h.0) in
    (h.0, get_or-set p.p_buf (p.p_wpos % pipebufsiz) (p.p_rpos % pipebufsiz) b 0 ∙ rw other h.1)
ReaderHolds-stored p (returned r buf) b l h = tt
