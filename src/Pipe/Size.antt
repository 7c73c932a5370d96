-- ===== src/Pipe/Size.antt =====
-- The size that devpipe_stat reports.
use backup_gatech.Common.{◌-◌, ◌≤◌, ◌≡◌, length, arith}
use backup_gatech.Pipe.{Pipe, pipebufsiz, st_size}
use backup_gatech.Pipe.Ring.{contents, length-contents}
use backup_gatech.Pipe.Steps.{Run}
use backup_gatech.Pipe.Fifo.{IsFifo}

length-contents_pipe : (p : Pipe) → length (contents p) ≡ p.p_wpos - p.p_rpos
length-contents_pipe p = length-contents p.p_buf p.p_rpos p.p_wpos

-- st_size of devpipe_stat is the number of bytes in the ring, and at most 32.
pub st_size-IsFifo :
    (s : Run)
    → IsFifo s
    → (length (contents s.pipe) ≡ st_size s.pipe) × (st_size s.pipe ≤ pipebufsiz)
st_size-IsFifo s h = (length-contents_pipe s.pipe, omega (arith, h.bounded))
