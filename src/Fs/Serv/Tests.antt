-- ===== src/Fs/Serv/Tests.antt =====
-- The theorems on the file server at a small disk.
use backup_gatech.Common.{
  ℕ, ◌≡◌, Option, none, some, [], ◌∷◌, refl, arith, bit_at, has_bit, if◌then◌else◌, ◌==◌, false,
}
use backup_gatech.Bitmap.{first_set}
use backup_gatech.Fs.{
  Disk, file_get_block, file_set_size, file_block_walk, slot_of, get_at, read_slot, write_slot,
  is_block, alloc_block,
}
use backup_gatech.Fs.Files.{ok, err, Outcome, load_file, store_file, get_block, set_size}
use backup_gatech.Fs.Paths.{file_open, walk_path, walk, skip_slash}
use backup_gatech.Fs.Content.{extend}
use backup_gatech.Fs.Serv.{
  Server, Reply, sends, refuses, zero_fd, serve_open, serve_read, serve_write, seek, openfile_alloc,
  alloc_from, open_file, find_or_create, openfile_lookup,
}
use backup_gatech.Fs.Serv.Ids.{IsIndexed, Opened, serve_open-Opened}
use backup_gatech.Fs.Serv.Session.{serve_read-serve_write}

-- Blocks 3 to 7 are free; every file is empty.
abbrev disk : Disk
disk = record { s_nblocks = 8; bitmap = 0xF8 ∷ []; words = λ b i. 0 }

-- A client has file 0 open, and no one any other.
abbrev server : Server
server = record {
  opentab = λ i. record { o_fileid = i; o_file = (1, 2); o_mode = 2; o_fd = zero_fd };
  refs = λ i. if i == 0 then 2 else 0;
  disk = disk;
}

server-IsIndexed : IsIndexed server
server-IsIndexed j l = omega arith

abbrev server_of : Option (Reply ℕ) → Server
server_of none = server
server_of (some (sends i s)) = s
server_of (some (refuses e s)) = s

-- The root directory is opened.
serve_open-Opened_example : Opened server (server_of (serve_open false (b'/' ∷ []) 0 server)) 1
unfolding serve_open openfile_alloc alloc_from open_file find_or_create file_open walk_path walk
    skip_slash has_bit
serve_open-Opened_example =
    serve_open-Opened false (b'/' ∷ []) 0 server (server_of (serve_open false (b'/' ∷ []) 0 server))
      1 server-IsIndexed refl

abbrev disk_of : Option (Outcome ℕ) → Disk
disk_of none = disk
disk_of (some (ok b d)) = d
disk_of (some (err e d)) = d

abbrev longer : Option Disk → Disk
longer none = disk
longer (some d) = d

serve_read-serve_write_example :
    (s1 s2 : Server) × (serve_write 0 (b'h' ∷ b'i' ∷ []) server ≡ some (sends 2 s1))
    × (serve_read 0 2 (seek 0 0 s1) ≡ some (sends (b'h' ∷ b'i' ∷ []) s2))
unfolding openfile_lookup extend set_size file_set_size load_file store_file get_block
    file_get_block file_block_walk slot_of get_at read_slot write_slot is_block alloc_block
    first_set bit_at has_bit
serve_read-serve_write_example =
    serve_read-serve_write 0 0 3 (b'h' ∷ b'i' ∷ []) server (longer (extend (1, 2) 2 disk))
      (disk_of (get_block (1, 2) 0 (longer (extend (1, 2) 2 disk)))) refl
      (record { some_bytes = omega arith; within = omega arith; low = omega arith }) (omega arith)
      (omega arith) (omega arith) refl refl refl
