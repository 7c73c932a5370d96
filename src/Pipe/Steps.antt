-- ===== src/Pipe/Steps.antt =====
-- A reader and a writer of one pipe, whose actions come in any order; each may call again after
-- it returned.
use backup_gatech.Common.{ℕ, suc, ◌<◌, ◌^◌, ◌≡◌, Bool, List, [], ◌∷◌, ◌++◌}
use backup_gatech.Pipe.{
  Pipe, new_pipe, Reader, testing, taking, taken, returned, Writer, checking, storing, stored,
  ended, read_action, after_read, write_action, after_write,
}

-- `sent` and `received` are the bytes of all positions that p_wpos and p_rpos went past.
pub record Run : Type 0 where
  pub pipe : Pipe
  pub reader : Reader
  pub writer : Writer
  pub sent : List ℕ
  pub received : List ℕ

abbrev pub byte_read : Reader → List ℕ
byte_read (testing i n buf) = []
byte_read (taking i n buf) = []
byte_read (taken i n buf byte) = byte ∷ []
byte_read (returned r buf) = []

abbrev pub byte_written : Writer → List ℕ
byte_written (checking i n buf) = []
byte_written (storing i n buf) = []
byte_written (stored i n buf byte) = byte ∷ []
byte_written (ended r) = []

abbrev pub run_reader : Bool → Run → Run
run_reader closed s = record {
  pipe = after_read s.reader s.pipe;
  reader = read_action closed s.pipe s.reader;
  writer = s.writer;
  sent = s.sent;
  received = s.received ++ byte_read s.reader;
}

abbrev pub run_writer : Bool → Run → Run
run_writer closed s = record {
  pipe = after_write s.writer s.pipe;
  reader = s.reader;
  writer = write_action closed s.pipe s.writer;
  sent = s.sent ++ byte_written s.writer;
  received = s.received;
}

pub data Step (s : Run) : Run → Type 0 where
  read : (closed : Bool) → suc s.pipe.p_rpos < 2 ^ 31 → Step s (run_reader closed s)
  write : (closed : Bool) → suc s.pipe.p_wpos < 2 ^ 31 → Step s (run_writer closed s)
  read_again :
      (r n : ℕ) (buf : List ℕ)
      → s.reader ≡ returned r buf
      → Step s (record s { reader = testing 0 n [] })
  write_again :
      (r n : ℕ) (buf : List ℕ)
      → s.writer ≡ ended r
      → Step s (record s { writer = checking 0 n buf })

abbrev pub opened : (n k : ℕ) → (buf : List ℕ) → Run
opened n k buf = record {
  pipe = new_pipe;
  reader = testing 0 n [];
  writer = checking 0 k buf;
  sent = [];
  received = [];
}

pub data Reach (n k : ℕ) (buf : List ℕ) : Run → Type 0 where
  here : Reach n k buf (opened n k buf)
  next : {s t : Run} → Reach n k buf s → Step s t → Reach n k buf t
