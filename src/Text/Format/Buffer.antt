-- ===== src/Text/Format/Buffer.antt =====
-- What vsnprintf leaves in the buffer.
use backup_gatech.Common.{ℕ, ◌+◌, ◌-◌, ◌%◌, List, ◌++◌, map, length, take, drop}
use backup_gatech.Text.Format.{SprintBuf}

abbrev pub bytes : List ℕ → List ℕ
bytes cs = map (λ c. c % 256) cs

-- The buffer after `out`: what there is room for, and the rest untouched.
abbrev filled : List ℕ → SprintBuf → SprintBuf
filled out b = record {
  before = b.before ++ bytes (take b.room out);
  after = drop (length (take b.room out)) b.after;
  room = b.room - length out;
  cnt = b.cnt + length out;
}
