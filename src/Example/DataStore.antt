-- ===== src/Example/DataStore.antt =====
-- engine_example/data_store.cc: values appended to numbered files of at most 100 MB.
pub mod Appending
pub mod Reading
use nvm_kv.Prelude.{
  ℕ, zero, suc, ◌+◌, ◌-◌, ◌*◌, ◌%◌, ◌^◌, min, Option, none, some, List, [], ◌∷◌, ◌++◌, Bool, true,
  false, leb, ltb, ◌==◌, if◌then◌else◌, length, take, drop, same, Bytes,
}
use nvm_kv.Posix.{
  Io, transfer, eintr, failed, Fd, negative, opened, closed, Status, zero_status, minus_one,
  out_of_events,
}
use nvm_kv.Engine.{
  RetCode, succ, invalid_argument, io_error, Run, ok, fault, stuck, ◌>>=◌, ◌>>◌, guard, exits,
}
use nvm_kv.Example.Util.{append_string}

pub record Location : Type 0 where
  pub file_no : ℕ
  pub offset : ℕ
  pub len : ℕ

abbrev pub k_single_file_size : ℕ
k_single_file_size = 1024 * 1024 * 100

-- The files DATA_0, DATA_1, ... of the directory.
abbrev pub DataFiles : Type 0
DataFiles = ℕ → Option Bytes

-- `fd_` is open on the file of number `fd_no`.
pub record DataStore : Type 0 where
  pub fd : Fd
  pub fd_no : ℕ
  pub next_location : Location
  pub files : DataFiles

abbrev pub content_of : Option Bytes → Bytes
content_of none = []
content_of (some content) = content

unfoldable pub set_file : DataFiles → ℕ → Bytes → DataFiles
set_file files number content n = if n == number then some content else files n

-- DataStore::OpenCurFile: O_CREAT makes the file if it is not there.
unfoldable pub open_cur_file : Bool → DataStore → RetCode × DataStore
open_cur_file can_open s =
    let number = s.next_location.file_no in
    if can_open
    then (
      succ,
      record s {
        fd = opened;
        fd_no = number;
        files = set_file s.files number (content_of (s.files number));
      },
    )
    else (io_error, s)

-- The switch to a new file, whose success is not looked at
unfoldable pub switch_file : Bool → DataStore → DataStore
switch_file can_open s =
    (open_cur_file can_open (record s {
      fd = closed;
      next_location = record {
        file_no = (s.next_location.file_no + 1) % 2 ^ 32;
        offset = 0;
        len = s.next_location.len;
      };
    })).1

unfoldable pub make_room : Bool → DataStore → ℕ → DataStore
make_room can_open s size =
    if ltb k_single_file_size (s.next_location.offset + size) then switch_file can_open s else s

-- The answer of `Append`: the code, the location behind the pointer, the store and the events left.
pub record Stored : Type 0 where
  pub ret : RetCode
  pub location : Location
  pub store : DataStore
  pub io : List Io

-- The files after an append: a descriptor that is not open leaves them.
unfoldable pub files_after : Fd → DataFiles → ℕ → Bytes → DataFiles
unfolding set_file
files_after negative files number content = files
files_after closed files number content = files
files_after opened files number content = set_file files number content

-- The append of the value to the open file, and the step of the next location
unfoldable pub append_current : List Io → DataStore → Bytes → Location → Run Stored
append_current io s value location =
    let a = append_string s.fd io (content_of (s.files s.fd_no)) value in
    let s' = record s { files = files_after s.fd s.files s.fd_no a.file } in
    elim a.status [
      | zero_status ↦ ok (record {
        ret = succ;
        location = record {
          file_no = s.next_location.file_no;
          offset = s.next_location.offset;
          len = length value;
        };
        store = record s' {
          next_location = record {
            file_no = s.next_location.file_no;
            offset = (s.next_location.offset + length value) % 2 ^ 32;
            len = s.next_location.len;
          };
        };
        io = a.io;
      })
      | minus_one ↦ ok (record { ret = io_error; location = location; store = s'; io = a.io })
      | out_of_events ↦ stuck
    ]

-- DataStore::Append
unfoldable pub append : List Io → Bool → DataStore → Bytes → Location → Run Stored
append io can_open s value location =
    if ltb k_single_file_size (length value)
    then ok (record { ret = invalid_argument; location = location; store = s; io = io })
    else append_current io (make_room can_open s (length value)) value location

-- The read loop: the status, the bytes of the buffer and the events left.
pub record Loaded : Type 0 where
  pub status : Status
  pub buf : Bytes
  pub io : List Io

unfoldable pub read_loop : List Io → Bytes → ℕ → Bytes → ℕ → Run Loaded
read_loop io file position buf zero = ok (record { status = zero_status; buf = buf; io = io })
read_loop [] file position buf (suc n) = stuck
read_loop (eintr ∷ io) file position buf (suc n) = read_loop io file position buf (suc n)
read_loop (failed ∷ io) file position buf (suc n) =
    ok (record { status = minus_one; buf = buf; io = io })
read_loop (transfer k ∷ io) file position buf (suc n) =
    let chunk = take (min (suc k) (suc n)) (drop position file) in
    read_loop io file (position + length chunk) (buf ++ chunk) (suc n - length chunk)

-- DataStore::Read: the code, the string behind `value`, and the events left
unfoldable pub read :
    List Io → Bool → DataStore → Location → Bytes → Run (RetCode × Bytes × List Io)
read io can_open s l value = elim (s.files l.file_no) [
  | none ↦ ok (io_error, value, io)
  | some file ↦
      if can_open
      then (do
        r ← read_loop io file l.offset [] l.len
        elim r.status [
          | zero_status ↦ ok (succ, r.buf, r.io)
          | minus_one ↦ ok (io_error, value, r.io)
          | out_of_events ↦ stuck
        ])
      else ok (io_error, value, io)
]

-- std::stoul on the leading digits of a name; `none` where there is no digit and it throws. Spaces
-- and signs in front of the number, which no file of the engine has, are taken for no digits.
unfoldable pub digits_from : ℕ → Bytes → ℕ
digits_from n [] = n
digits_from n (c ∷ cs) =
    let rest = digits_from (n * 10 + (c - b'0')) cs in
    if leb b'0' c then (if leb c b'9' then rest else n) else n

unfoldable pub stoul : Bytes → Option ℕ
stoul [] = none
stoul (c ∷ cs) =
    if leb b'0' c then (if leb c b'9' then some (digits_from 0 (c ∷ cs)) else none) else none

-- "DATA_"
abbrev pub k_data_file_prefix : Bytes
k_data_file_prefix = b'D' ∷ b'A' ∷ b'T' ∷ b'A' ∷ b'_' ∷ []

abbrev greater : Option ℕ → ℕ → Run ℕ
greater none last_no = fault exits
greater (some n) last_no =
    if ltb last_no n then (guard (ltb n (2 ^ 31)) exits >> ok n) else ok last_no

-- The loop of `Init` over the names of the directory: the largest number of a data file. A name
-- with the prefix and no number, or a number that is no int, throws.
unfoldable pub last_file_no : List Bytes → ℕ → Run ℕ
last_file_no [] last_no = ok last_no
last_file_no (name ∷ names) last_no =
    let next = greater (stoul (drop 5 name)) last_no >>= (λ n. last_file_no names n) in
    let skip = last_file_no names last_no in
    if same (take 5 name) k_data_file_prefix then next else skip

-- int len = GetFileLength(...); if (len > 0) { cur_offset = len; }
unfoldable pub offset_of : ℕ → ℕ
offset_of size = if ltb (size % 2 ^ 32) (2 ^ 31) then size % 2 ^ 32 else 0

-- DataStore::Init: whether the directory is there or can be made and be listed, and its names
unfoldable pub init : Bool → Bool → Bool → List Bytes → DataFiles → Run (RetCode × DataStore)
init dir_ok list_ok can_open names files =
    let fresh : DataStore = record {
      fd = negative;
      fd_no = 0;
      next_location = record { file_no = 0; offset = 0; len = 0 };
      files = files;
    } in
    if dir_ok
    then (if list_ok
        then (do
          last_no ← last_file_no names 0
          ok (
              open_cur_file can_open (record fresh {
                next_location = record {
                  file_no = last_no;
                  offset = offset_of (length (content_of (files last_no)));
                  len = 0;
                };
              })))
        else ok (io_error, fresh))
    else ok (io_error, fresh)
