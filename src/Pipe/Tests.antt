-- ===== src/Pipe/Tests.antt =====
-- The theorems on the pipe at a run: a byte is written while the reader waits, and then read.
use backup_gatech.Common.{[], ◌∷◌, false, arith}
use backup_gatech.Pipe.{read_action, after_read, write_action, after_write}
use backup_gatech.Pipe.Steps.{Run, run_reader, run_writer, read, write, Reach, here, next, opened}
use backup_gatech.Pipe.Fifo.{IsFifo, Reach-IsFifo}

abbrev checked : Run
checked = run_writer false (opened 3 2 (7 ∷ 8 ∷ []))

abbrev put : Run
put = run_writer false checked

abbrev waited : Run
waited = run_reader false put

abbrev one_byte : Run
one_byte = run_writer false waited

waited-Reach : Reach 3 2 (7 ∷ 8 ∷ []) waited
unfolding after_write write_action after_read read_action
waited-Reach =
    next (next (next here (write false (omega arith))) (write false (omega arith)))
      (read false (omega arith))

one_byte-Reach : Reach 3 2 (7 ∷ 8 ∷ []) one_byte
unfolding after_write write_action after_read read_action
one_byte-Reach = next waited-Reach (write false (omega arith))

Reach-IsFifo_example : IsFifo one_byte
Reach-IsFifo_example = Reach-IsFifo {n = 3} {k = 2} {buf = 7 ∷ 8 ∷ []} {s = one_byte} one_byte-Reach

waited-IsFifo : IsFifo waited
waited-IsFifo = Reach-IsFifo {n = 3} {k = 2} {buf = 7 ∷ 8 ∷ []} {s = waited} waited-Reach
