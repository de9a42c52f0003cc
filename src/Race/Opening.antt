-- ===== src/Race/Opening.antt =====
-- engine_race/engine_race.cc: `EngineRace::Open` for one bucket, with the loop that reads the index
-- file, and what the destructor leaves in the files.
use nvm_kv.Prelude.{
  ℕ, zero, suc, ◌+◌, ◌%◌, ◌^◌, min, max, Option, none, some, [], Bool, false, leb, ltb, ◌==◌,
  if◌then◌else◌, length, Bytes, Memory, load, decode_le,
}
use nvm_kv.OrdMap.{OrdMap, insert_or_assign}
use nvm_kv.Posix.{opened}
use nvm_kv.Engine.{RetCode, succ, io_error, Run, ok, stuck, ◌>>=◌, ◌>>◌, guard, outside_mapping}
use nvm_kv.Race.Bucket.{Bucket, location_sz, key_file_size}

-- A file that is mapped: its size, and its bytes by their offsets.
pub record IndexFile : Type 0 where
  pub size : ℕ
  pub bytes : Memory

-- The two files of a bucket, where they exist.
pub record Files : Type 0 where
  pub index : Option IndexFile
  pub data_file : Option Bytes

-- What the calls of the system answer while a bucket is opened: the number of each descriptor, or
-- `none` for -1, and whether the other calls succeed.
pub record Calls : Type 0 where
  pub index_fd : Option ℕ
  pub create_fd : Option ℕ
  pub data_file_fd : Option ℕ
  pub fallocate_ok : Bool
  pub mmap_ok : Bool

-- The answer for one bucket, the bucket if it was set up, and the files afterwards.
pub record Opened : Type 0 where
  pub ret : RetCode
  pub bucket : Option Bucket
  pub files : Files

-- while (true) { key_sz = *(u32 *)cur; ... }: the entries of the index file, from `cur` on.
unfoldable pub parse_index : ℕ → Memory → ℕ → ℕ → OrdMap ℕ → Run (OrdMap ℕ × ℕ)
parse_index zero m mapped cur map = stuck
parse_index (suc fuel) m mapped cur map =
    let key_sz = decode_le (load m cur 4) in
    let rest =
      parse_index fuel m mapped (cur + 4 + key_sz + location_sz)
        (insert_or_assign (load m (cur + 4) key_sz) (cur + 4 + key_sz) map) in
    guard (leb (cur + 4) mapped) outside_mapping
    >> (if key_sz == 0
        then ok (map, cur)
        else (guard (leb (cur + 4 + key_sz) mapped) outside_mapping >> rest))

-- open(path, O_RDWR, 0666): the descriptor, if the file exists.
abbrev open_existing : {A : Type 0} → Option A → Option ℕ → Option ℕ
open_existing none fd = none
open_existing (some file) fd = fd

abbrev contents : Option Bytes → Bytes
contents none = []
contents (some file) = file

abbrev index_of : Option IndexFile → IndexFile
index_of none = record { size = 0; bytes = λ q. 0 }
index_of (some file) = file

abbrev failure : Files → Run Opened
failure files = ok (record { ret = io_error; bucket = none; files = files })

abbrev fresh_bucket : OrdMap ℕ → ℕ → IndexFile → Bytes → Bucket
fresh_bucket map cur index data_file = record {
  map = map;
  key_fd = opened;
  data_fd = opened;
  data_offset = length data_file % 2 ^ 32;
  key_mmap = index.bytes;
  key_mmap_cur = cur;
  mapped = min index.size key_file_size;
  data_file = data_file;
  position = 0;
  locked = false;
}

-- The branch of a key file that could be opened
unfoldable pub open_found : Calls → Files → Run Opened
open_found calls files = elim (open_existing files.data_file calls.data_file_fd) [
  | none ↦ failure files
  | some fd ↦
      let index = index_of files.index in
      let mapped = min index.size key_file_size in
      if calls.mmap_ok
      then (do
        (map, cur) ← parse_index (suc mapped) index.bytes mapped 0 []
        ok (record {
          ret = succ;
          bucket = some (fresh_bucket map cur index (contents files.data_file));
          files = files;
        }))
      else failure files
]

-- The branch that creates both files, reserves the key file and clears it
unfoldable pub create_files : Calls → Files → Run Opened
create_files calls files = elim calls.create_fd [
  | none ↦ failure files
  | some key_fd ↦
      let index = index_of files.index in
      let index_made = record files { index = some index } in
      elim calls.data_file_fd [
        | none ↦ failure index_made
        | some data_fd ↦
            let data_file = contents files.data_file in
            let made : Files = record { index = some index; data_file = some data_file } in
            let reserved : IndexFile = record {
              size = max index.size key_file_size;
              bytes = index.bytes;
            } in
            let cleared : IndexFile = record {
              size = max index.size key_file_size;
              bytes = λ q. if ltb q key_file_size then 0 else index.bytes q;
            } in
            if calls.fallocate_ok
            then (if calls.mmap_ok
                then ok (record {
                  ret = succ;
                  bucket = some (record (fresh_bucket [] 0 cleared data_file) { data_offset = 0 });
                  files = record { index = some cleared; data_file = some data_file };
                })
                else failure (record made { index = some reserved }))
            else failure made
      ]
]

-- The test is `key_fd > 0`.
abbrev open_by : Option ℕ → Calls → Files → Run Opened
open_by none = create_files
open_by (some zero) = create_files
open_by (some (suc fd)) = open_found

-- One round of the loop of `EngineRace::Open`
unfoldable pub open_bucket : Calls → Files → Run Opened
open_bucket calls files = open_by (open_existing files.index calls.index_fd) calls files

-- The files behind a bucket, which the destructor and the death of the process leave as they are:
-- the mapping is shared with the index file.
unfoldable pub files_of : Bucket → Files
files_of f = record {
  index = some (record { size = f.mapped; bytes = f.key_mmap });
  data_file = some f.data_file;
}
