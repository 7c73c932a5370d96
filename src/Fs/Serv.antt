-- ===== src/Fs/Serv.antt =====
-- The file server of os_final_project/code/fs/serv.c: the table of open files and the requests.
-- `refs` counts the references to the Fd page of each open file, which clients map and unmap. File
-- ids are below 2 ^ 31; flushing is left out, as what is on the disk already is; `none` is a panic.
mod Ids
mod Session
mod Tests
use backup_gatech.Common.{
  ℕ, zero, suc, ◌+◌, ◌*◌, ◌%◌, ◌^◌, Option, none, some, List, [], ◌∷◌, Bool, true, false, ◌&&◌,
  ◌||◌, not, if◌then◌else◌, ◌==◌, ltb, leb, length, take, has_bit,
}
use backup_gatech.Fs.{Disk, Error, inval, file_exists, no_mem, max_open}
use backup_gatech.Fs.Files.{FilePointer, Outcome, ok, err, set_size, size_at}
use backup_gatech.Fs.Paths.{file_open, file_create, name_at, is_dir}
use backup_gatech.Fs.Content.{file_read, file_write}

-- struct Fd, on its page.
pub record Fd : Type 0 where
  pub fd_dev_id : ℕ
  pub fd_offset : ℕ
  pub fd_omode : ℕ
  pub fd_file : ℕ

pub record OpenFile : Type 0 where
  pub o_fileid : ℕ
  pub o_file : FilePointer
  pub o_mode : ℕ
  pub o_fd : Fd

pub record Server : Type 0 where
  pub opentab : ℕ → OpenFile
  pub refs : ℕ → ℕ
  pub disk : Disk

abbrev pub maxopen : ℕ
maxopen = 1024

-- A page that was set to 0.
abbrev pub zero_fd : Fd
zero_fd = record { fd_dev_id = 0; fd_offset = 0; fd_omode = 0; fd_file = 0 }

pub serve_init : Server → Server
serve_init s = record s {
  opentab = λ i. if ltb i maxopen then record (s.opentab i) { o_fileid = i } else s.opentab i;
}

abbrev pub set_entry : ℕ → OpenFile → Server → Server
set_entry i o s = record s { opentab = λ j. if j == i then o else s.opentab j }

pub data Reply (A : Type 0) : Type 0 where
  sends : A → Server → Reply A
  refuses : Error → Server → Reply A

-- The entry gets its next id and a cleared page.
pub take_entry : ℕ → Server → Server
take_entry i s =
    set_entry i
      (record (s.opentab i) {
        o_fileid = ((s.opentab i).o_fileid + maxopen) % 2 ^ 32;
        o_fd = zero_fd;
      })
      s

-- sys_page_alloc maps the page for the server alone.
abbrev pub with_page : ℕ → Server → Server
with_page i s = record s { refs = λ j. if j == i then 1 else s.refs j }

-- The loop over the table; `no_memory` is whether sys_page_alloc fails.
pub alloc_from : (rounds i : ℕ) → (no_memory : Bool) → Server → Reply ℕ
alloc_from zero i no_memory s = refuses max_open s
alloc_from (suc k) i no_memory s =
    let rest = alloc_from k (suc i) no_memory s in
    if s.refs i == 0
    then (if no_memory then refuses no_mem s else sends i (take_entry i (with_page i s)))
    else if s.refs i == 1
    then sends i (take_entry i s)
    else rest

-- The index of the entry; its id is returned.
pub openfile_alloc : (no_memory : Bool) → Server → Reply ℕ
openfile_alloc no_memory s = alloc_from maxopen 0 no_memory s

pub openfile_lookup : (fileid : ℕ) → Server → Option ℕ
openfile_lookup id s =
    let i = id % maxopen in
    if leb (s.refs i) 1 || not ((s.opentab i).o_fileid == id) then none else some i

abbrev pub o_creat : ℕ → Bool
o_creat omode = has_bit 8 omode

abbrev pub o_trunc : ℕ → Bool
o_trunc omode = has_bit 9 omode

abbrev pub o_excl : ℕ → Bool
o_excl omode = has_bit 10 omode

abbrev pub is_file_exists : Error → Bool
is_file_exists file_exists = true
is_file_exists _ = false

-- file_create or file_open, as the mode asks.
pub find_or_create : (path : List ℕ) → (omode : ℕ) → Disk → Option (Outcome FilePointer)
find_or_create path omode d =
    if o_creat omode
    then elim (file_create path d) [
      | none ↦ none
      | some r ↦ elim r [
        | ok f d' ↦ some (ok f d')
        | err e d' ↦
            if not (o_excl omode) && is_file_exists e then file_open path d' else some (err e d')
      ]
    ]
    else file_open path d

-- The open that follows the truncation, with the file it finds.
pub open_file : (path : List ℕ) → (omode : ℕ) → Disk → Option (Outcome FilePointer)
open_file path omode d = elim (find_or_create path omode d) [
  | none ↦ none
  | some r ↦ elim r [
    | err e d' ↦ some (err e d')
    | ok f d' ↦ elim (if o_trunc omode then set_size f 0 d' else some d') [
      | none ↦ none
      | some d2 ↦ file_open path d2
    ]
  ]
]

-- devfile.dev_id
abbrev pub devfile_id : ℕ
devfile_id = b'f'

pub fill_open : (i : ℕ) → FilePointer → (omode : ℕ) → Server → Server
fill_open i f omode s =
    set_entry i
      (record (s.opentab i) {
        o_file = f;
        o_mode = omode;
        o_fd = record (s.opentab i).o_fd {
          fd_file = (s.opentab i).o_fileid;
          fd_omode = omode % 4;
          fd_dev_id = devfile_id;
        };
      })
      s

-- The reply is the page of entry `i`, which the kernel then maps for the client.
pub serve_open : (no_memory : Bool) → (path : List ℕ) → (omode : ℕ) → Server → Option (Reply ℕ)
serve_open no_memory path omode s = elim (openfile_alloc no_memory s) [
  | refuses e s' ↦ some (refuses e s')
  | sends i s' ↦ elim (open_file (take 1023 path) omode s'.disk) [
    | none ↦ none
    | some r ↦ elim r [
      | err e d ↦ some (refuses e (record s' { disk = d }))
      | ok f d ↦ some (sends i (fill_open i f omode (record s' { disk = d })))
    ]
  ]
]

pub serve_set_size : (fileid size : ℕ) → Server → Option (Reply ℕ)
serve_set_size id size s = elim (openfile_lookup id s) [
  | none ↦ some (refuses inval s)
  | some i ↦ elim (set_size (s.opentab i).o_file size s.disk) [
    | none ↦ none
    | some d ↦ some (sends 0 (record s { disk = d }))
  ]
]

-- fd_offset += n on entry `i`.
pub move_offset : (i n : ℕ) → Server → Server
move_offset i n s =
    let o = s.opentab i in
    set_entry i (record o { o_fd = record o.o_fd { fd_offset = (o.o_fd.fd_offset + n) % 2 ^ 32 } })
      s

-- The bytes that are read; their number is the result.
pub serve_read : (fileid n : ℕ) → Server → Option (Reply (List ℕ))
serve_read id n s = elim (openfile_lookup id s) [
  | none ↦ some (refuses inval s)
  | some i ↦ elim (file_read (s.opentab i).o_file n (s.opentab i).o_fd.fd_offset s.disk) [
    | none ↦ none
    | some r ↦ elim r [
      | err e d ↦ some (refuses e (record s { disk = d }))
      | ok bytes d ↦ some (sends bytes (move_offset i (length bytes) (record s { disk = d })))
    ]
  ]
]

pub serve_write : (fileid : ℕ) → (buf : List ℕ) → Server → Option (Reply ℕ)
serve_write id buf s = elim (openfile_lookup id s) [
  | none ↦ some (refuses inval s)
  | some i ↦ elim (file_write (s.opentab i).o_file buf (s.opentab i).o_fd.fd_offset s.disk) [
    | none ↦ none
    | some r ↦ elim r [
      | err e d ↦ some (refuses e (record s { disk = d }))
      | ok n d ↦ some (
          sends n
            (if ltb 0 n then move_offset i n (record s { disk = d }) else record s { disk = d }))
    ]
  ]
]

pub record Stat : Type 0 where
  pub ret_name : List ℕ
  pub ret_size : ℕ
  pub ret_isdir : Bool

pub serve_stat : (fileid : ℕ) → Server → Reply Stat
serve_stat id s = elim (openfile_lookup id s) [
  | none ↦ refuses inval s
  | some i ↦
      let f = (s.opentab i).o_file in
      sends
        (record {
          ret_name = name_at f s.disk;
          ret_size = size_at f s.disk;
          ret_isdir = is_dir f s.disk;
        })
        s
]

-- seek of lib/fd.c, which a client does on the shared page.
pub seek : (i offset : ℕ) → Server → Server
seek i offset s =
    let o = s.opentab i in set_entry i (record o { o_fd = record o.o_fd { fd_offset = offset } }) s
