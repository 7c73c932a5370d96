-- ===== src/Fs/Serv/Session.antt =====
-- A client writes, seeks back and reads.
use backup_gatech.Common.{
  ℕ, ◌+◌, ◌/◌, ◌≡◌, some, List, true, false, ◌==◌, ltb, length, arith, refl, ◌<◌, ◌^◌,
}
use backup_gatech.Fs.{Disk, blksize}
use backup_gatech.Fs.Bytes.{AreBytes}
use backup_gatech.Fs.Files.{FilePointer, size_at, ok, get_block}
use backup_gatech.Fs.Content.{extend, file_read}
use backup_gatech.Fs.Content.RoundTrip.{InBlock, file_read-file_write}
use backup_gatech.Fs.Serv.{
  Server, sends, openfile_lookup, move_offset, serve_read, serve_write, seek,
}

-- After a write of `n` bytes and a seek back: the disk is `d`, all else is as before.
abbrev rewound : (i offset n : ℕ) → Disk → Server → Server
rewound i offset n d s = seek i offset (move_offset i n (record s { disk = d }))

rewound-file :
    (i offset n : ℕ) (d : Disk) (s : Server)
    → ((rewound i offset n d s).opentab i).o_file ≡ (s.opentab i).o_file
unfolding seek move_offset
rewound-file i offset n d s = ground arith

rewound-offset :
    (i offset n : ℕ) (d : Disk) (s : Server)
    → ((rewound i offset n d s).opentab i).o_fd.fd_offset ≡ offset
unfolding seek move_offset
rewound-offset i offset n d s = ground arith

rewound-disk : (i offset n : ℕ) (d : Disk) (s : Server) → (rewound i offset n d s).disk ≡ d
unfolding seek move_offset
rewound-disk i offset n d s = refl

rewound-lookup :
    (i offset n id : ℕ) (d : Disk) (s : Server)
    → openfile_lookup id s ≡ some i
    → openfile_lookup id (rewound i offset n d s) ≡ some i
unfolding openfile_lookup seek move_offset
rewound-lookup i offset n id d s e = ground (arith, e)

read_at :
    (id n i offset : ℕ) (p : FilePointer) (buf : List ℕ) (d d' : Disk) (t : Server)
    → openfile_lookup id t ≡ some i
    → (t.opentab i).o_file ≡ p
    → (t.opentab i).o_fd.fd_offset ≡ offset
    → t.disk ≡ d
    → file_read p n offset d ≡ some (ok buf d')
    → serve_read id n t ≡ some (sends buf (move_offset i (length buf) (record t { disk = d' })))
unfolding serve_read
read_at id n i offset p buf d d' t found ef eo ed io =
    let same : file_read (t.opentab i).o_file n (t.opentab i).o_fd.fd_offset t.disk
        ≡ some (ok buf d') =
      rw (ef, eo, ed) io in
    rw (serve_read, found, same) refl

-- A client writes bytes at the offset of a file that it has open, within one of the file's first
-- ten blocks and below 2 ^ 31, and the size of the file is not negative, as an off_t: when the file
-- could be made long enough and get_block gives that block, other than the one with the struct
-- File, serve_write answers with their number; after a seek back to the offset serve_read answers
-- with the bytes.
pub serve_read-serve_write :
    (id i b : ℕ) (buf : List ℕ) (s : Server) (d0 d1 : Disk)
    → openfile_lookup id s ≡ some i
    → InBlock (s.opentab i).o_fd.fd_offset (length buf)
    → AreBytes buf
    → (s.opentab i).o_fd.fd_offset + length buf < 2 ^ 31
    → size_at (s.opentab i).o_file s.disk < 2 ^ 31
    → extend (s.opentab i).o_file ((s.opentab i).o_fd.fd_offset + length buf) s.disk ≡ some d0
    → get_block (s.opentab i).o_file ((s.opentab i).o_fd.fd_offset / blksize) d0 ≡ some (ok b d1)
    → (b == (s.opentab i).o_file.0) ≡ false
    → (s1 s2 : Server) × (serve_write id buf s ≡ some (sends (length buf) s1))
      × (serve_read id (length buf) (seek i (s.opentab i).o_fd.fd_offset s1) ≡ some (sends buf s2))
unfolding serve_read serve_write
serve_read-serve_write id i b buf s d0 d1 found block bytes low old grown got apart =
    let p = (s.opentab i).o_file in
    let offset = (s.opentab i).o_fd.fd_offset in
    let n = length buf in
    let io = file_read-file_write p buf offset block b s.disk d0 d1 bytes low old grown got apart in
    let t = rewound i offset n io.0 s in
    let some_bytes : ltb 0 n ≡ true = ground (arith, block.some_bytes) in
    (
      move_offset i n (record s { disk = io.0 }),
      move_offset i (length buf) (record t { disk = io.1 }),
      rw (serve_write, found, io.2, some_bytes) refl,
      read_at id n i offset p buf io.0 io.1 t (rewound-lookup i offset n id io.0 s found)
          (rewound-file i offset n io.0 s) (rewound-offset i offset n io.0 s)
          (rewound-disk i offset n io.0 s) io.3,
    )
