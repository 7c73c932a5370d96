-- ===== src/Pipe/Fifo.antt =====
-- The pipe is a queue of at most 32 bytes, however the actions of its reader and writer interleave.
use backup_gatech.Common.{
  ℕ, suc, ◌+◌, ◌%◌, ◌<◌, ◌≤◌, ◌≡◌, List, [], ◌∷◌, ◌++◌, get_or, set, length, length-set, get_or-set,
  arith, refl, ap, sym, ◌∙◌, Bool, true, false, ◌==◌, ltb,
}
use mathlib.Core.List.{append-nil, append_assoc}
use backup_gatech.Pipe.{
  Pipe, pipebufsiz, Reader, testing, taking, taken, returned, Writer, checking, storing, stored,
  ended, read_action, after_read, write_action, after_write,
}
use backup_gatech.Pipe.Holds.{
  ReaderHolds, WriterHolds, testing-holds, checking-holds, WriterHolds-read, ReaderHolds-written,
  ReaderHolds-stored,
}
use backup_gatech.Pipe.Ring.{
  contents, contents-read, contents-written, contents-stored, contents-new,
}
use backup_gatech.Pipe.Steps.{
  Run, run_reader, run_writer, Step, read, write, read_again, write_again, Reach, here, next,
}

-- The ring between the two, and the bytes on their way.
pub record IsFifo (s : Run) : Type 0 where
  pub ring : length s.pipe.p_buf ≡ pipebufsiz
  pub not_ahead : s.pipe.p_rpos ≤ s.pipe.p_wpos
  pub bounded : s.pipe.p_wpos ≤ s.pipe.p_rpos + pipebufsiz
  pub in_order : s.received ++ contents s.pipe ≡ s.sent
  pub reader : ReaderHolds s.pipe s.reader
  pub writer : WriterHolds s.pipe s.writer

-- The byte that the reader took leaves the ring.
in_order-taken :
    (p : Pipe) (byte : ℕ) (sent received : List ℕ)
    → p.p_rpos < p.p_wpos
    → get_or p.p_buf (p.p_rpos % pipebufsiz) 0 ≡ byte
    → received ++ contents p ≡ sent
    → (received ++ byte ∷ []) ++ contents (record p { p_rpos = suc p.p_rpos }) ≡ sent
in_order-taken p byte sent received l e h =
    append_assoc received (byte ∷ []) _
    ∙ ap (λ xs. received ++ xs)
        (ap (λ b. b ∷ contents (record p { p_rpos = suc p.p_rpos })) (sym e)
          ∙ sym (contents-read p.p_buf p.p_rpos p.p_wpos l))
    ∙ h

-- The byte that the writer stored enters it.
in_order-stored :
    (p : Pipe) (byte : ℕ) (sent received : List ℕ)
    → p.p_rpos ≤ p.p_wpos
    → get_or p.p_buf (p.p_wpos % pipebufsiz) 0 ≡ byte
    → received ++ contents p ≡ sent
    → received ++ contents (record p { p_wpos = suc p.p_wpos }) ≡ sent ++ byte ∷ []
in_order-stored p byte sent received l e h =
    ap (λ xs. received ++ xs)
      (contents-written p.p_buf p.p_rpos p.p_wpos l ∙ ap (λ b. contents p ++ b ∷ []) e)
    ∙ sym (append_assoc received (contents p) (byte ∷ []))
    ∙ ap (λ xs. xs ++ byte ∷ []) h

module _ (closed : Bool) (p : Pipe) (sent received : List ℕ) where
  -- An action that leaves the pipe alone.
  quiet :
      (r r' : Reader) (w w' : Writer)
      → IsFifo (record { pipe = p; reader = r; writer = w; sent = sent; received = received })
      → ReaderHolds p r'
      → WriterHolds p w'
      → IsFifo (record { pipe = p; reader = r'; writer = w'; sent = sent; received = received })
  quiet r r' w w' h hr hw = record {
    ring = h.ring;
    not_ahead = h.not_ahead;
    bounded = h.bounded;
    in_order = h.in_order;
    reader = hr;
    writer = hw;
  }

  run_reader-IsFifo :
      (r : Reader) (w : Writer)
      → IsFifo (record { pipe = p; reader = r; writer = w; sent = sent; received = received })
      → IsFifo (
          run_reader closed
            (record { pipe = p; reader = r; writer = w; sent = sent; received = received }))
  unfolding after_read read_action ReaderHolds
  run_reader-IsFifo (testing i n buf) w h =
      rw (append-nil received)
        (quiet _ _ w w h (testing-holds closed p i n buf h.not_ahead) h.writer)
  run_reader-IsFifo (taking i n buf) w h =
      rw (append-nil received) (quiet _ _ w w h (h.reader, refl) h.writer)
  run_reader-IsFifo (taken i n buf byte) w h = record {
    ring = h.ring;
    not_ahead = h.reader.0;
    bounded = omega (arith, h.bounded);
    in_order = in_order-taken p byte sent received h.reader.0 h.reader.1 h.in_order;
    reader = tt;
    writer = WriterHolds-read p w h.writer;
  }
  run_reader-IsFifo (returned r buf) w h = rw (append-nil received) (quiet _ _ w w h tt h.writer)

  run_writer-IsFifo :
      (w : Writer) (r : Reader)
      → IsFifo (record { pipe = p; reader = r; writer = w; sent = sent; received = received })
      → IsFifo (
          run_writer closed
            (record { pipe = p; reader = r; writer = w; sent = sent; received = received }))
  unfolding after_write write_action WriterHolds
  run_writer-IsFifo (checking i n buf) r h =
      rw (append-nil sent) (quiet r r _ _ h h.reader (checking-holds closed p i n buf))
  run_writer-IsFifo (storing i n buf) r h =
      let b = get_or buf i 0 in
      let inside : ltb (p.p_wpos % pipebufsiz) (length p.p_buf) ≡ true = ground (arith, h.ring) in
      let at_itself : (p.p_wpos % pipebufsiz == p.p_wpos % pipebufsiz) ≡ true = ground arith in
      let here_again : get_or (set p.p_buf (p.p_wpos % pipebufsiz) b) (p.p_wpos % pipebufsiz) 0
          ≡ b =
        get_or-set p.p_buf (p.p_wpos % pipebufsiz) (p.p_wpos % pipebufsiz) b 0
        ∙ rw (inside, at_itself) refl in
      record {
        ring = length-set p.p_buf (p.p_wpos % pipebufsiz) (get_or buf i 0) ∙ h.ring;
        not_ahead = h.not_ahead;
        bounded = h.bounded;
        in_order =
            ap (λ xs. received ++ xs)
              (contents-stored p.p_buf p.p_rpos p.p_wpos (get_or buf i 0) h.not_ahead h.writer)
            ∙ h.in_order
            ∙ sym (append-nil sent);
        reader = ReaderHolds-stored p r (get_or buf i 0) h.writer h.reader;
        writer = (h.writer, here_again);
      }
  run_writer-IsFifo (stored i n buf byte) r h = record {
    ring = h.ring;
    not_ahead = omega (arith, h.not_ahead);
    bounded = omega (arith, h.writer.0);
    in_order = in_order-stored p byte sent received h.not_ahead h.writer.1 h.in_order;
    reader = ReaderHolds-written p r h.reader;
    writer = tt;
  }
  run_writer-IsFifo (ended n) r h = rw (append-nil sent) (quiet r r _ _ h h.reader tt)

-- Every action keeps the invariant: the bytes received and those in the ring are the bytes sent,
-- in their order, and at most 32 are in the ring.
pub Step-IsFifo : {s t : Run} → Step s t → IsFifo s → IsFifo t
unfolding ReaderHolds WriterHolds
Step-IsFifo {s} (read closed l) h =
    run_reader-IsFifo closed s.pipe s.sent s.received s.reader s.writer h
Step-IsFifo {s} (write closed l) h =
    run_writer-IsFifo closed s.pipe s.sent s.received s.writer s.reader h
Step-IsFifo {s} (read_again r n buf e) h =
    quiet false s.pipe s.sent s.received _ _ s.writer s.writer h tt h.writer
Step-IsFifo {s} (write_again r n buf e) h =
    quiet false s.pipe s.sent s.received s.reader s.reader _ _ h h.reader tt

-- However the actions of the reader and the writer interleave, what was received is the beginning
-- of what was sent, and the rest, at most 32 bytes, is in the ring.
pub Reach-IsFifo : {n k : ℕ} {buf : List ℕ} {s : Run} → Reach n k buf s → IsFifo s
unfolding ReaderHolds WriterHolds
Reach-IsFifo here = record {
  ring = refl;
  not_ahead = omega arith;
  bounded = omega arith;
  in_order = contents-new;
  reader = tt;
  writer = tt;
}
Reach-IsFifo (next r st) = Step-IsFifo st (Reach-IsFifo r)
