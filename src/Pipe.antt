-- ===== src/Pipe.antt =====
-- The pipe of the user library, os_final_project/code/lib/pipe.c: the ring of 32 bytes, and
-- devpipe_read and devpipe_write one action at a time, between which the other process may run. A
-- position is an off_t, and the steps of Pipe/Steps keep it below 2^31.
mod Ring
mod Steps
mod Holds
mod Fifo
mod Size
mod Tests
use backup_gatech.Common.{
  ℕ, suc, ◌+◌, ◌-◌, ◌%◌, Bool, true, false, if◌then◌else◌, ◌==◌, ltb, List, [], ◌∷◌, ◌++◌, get_or,
  set, replicate,
}

abbrev pub pipebufsiz : ℕ
pipebufsiz = 32

pub record Pipe : Type 0 where
  pub p_rpos : ℕ
  pub p_wpos : ℕ
  pub p_buf : List ℕ

-- The page of a new pipe is zero.
abbrev pub new_pipe : Pipe
new_pipe = record { p_rpos = 0; p_wpos = 0; p_buf = replicate pipebufsiz 0 }

-- A call devpipe_read(fd, vbuf, n): before the test of the inner loop, before the byte is taken,
-- before p_rpos is incremented (`byte` is then buf[i]), and at the end. `buf` has the first i
-- bytes.
pub data Reader : Type 0 where
  testing : (i n : ℕ) (buf : List ℕ) → Reader
  taking : (i n : ℕ) (buf : List ℕ) → Reader
  taken : (i n : ℕ) (buf : List ℕ) (byte : ℕ) → Reader
  returned : (r : ℕ) (buf : List ℕ) → Reader

-- A call devpipe_write(fd, vbuf, n), at the same points; `byte` is in the ring.
pub data Writer : Type 0 where
  checking : (i n : ℕ) (buf : List ℕ) → Writer
  storing : (i n : ℕ) (buf : List ℕ) → Writer
  stored : (i n : ℕ) (buf : List ℕ) (byte : ℕ) → Writer
  ended : (r : ℕ) → Writer

-- What _pipeisclosed answers is `closed`; the action sys_yield leaves the reader at the test.
pub read_action : (closed : Bool) → Pipe → Reader → Reader
read_action closed p (testing i n buf) =
    if ltb i n
    then if p.p_rpos == p.p_wpos
      then if ltb 0 i then returned i buf else if closed then returned 0 buf else testing i n buf
      else taking i n buf
    else returned i buf
read_action closed p (taking i n buf) = taken i n buf (get_or p.p_buf (p.p_rpos % pipebufsiz) 0)
read_action closed p (taken i n buf byte) = testing (suc i) n (buf ++ byte ∷ [])
read_action closed p (returned r buf) = returned r buf

-- The action on the pipe itself.
pub after_read : Reader → Pipe → Pipe
after_read (testing i n buf) p = p
after_read (taking i n buf) p = p
after_read (taken i n buf byte) p = record p { p_rpos = suc p.p_rpos }
after_read (returned r buf) p = p

pub write_action : (closed : Bool) → Pipe → Writer → Writer
write_action closed p (checking i n buf) =
    if ltb i n
    then if ltb p.p_wpos (p.p_rpos + pipebufsiz)
      then storing i n buf
      else if closed
      then ended 0
      else checking i n buf
    else ended i
write_action closed p (storing i n buf) = stored i n buf (get_or buf i 0)
write_action closed p (stored i n buf byte) = checking (suc i) n buf
write_action closed p (ended r) = ended r

pub after_write : Writer → Pipe → Pipe
after_write (checking i n buf) p = p
after_write (storing i n buf) p = record p {
  p_buf = set p.p_buf (p.p_wpos % pipebufsiz) (get_or buf i 0);
}
after_write (stored i n buf byte) p = record p { p_wpos = suc p.p_wpos }
after_write (ended r) p = p

-- devpipe_stat
abbrev pub st_size : Pipe → ℕ
st_size p = p.p_wpos - p.p_rpos
