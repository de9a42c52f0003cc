-- ===== src/Tth/Opening.antt =====
-- engine_tth/engine_race.cc: one round of the loop of `EngineRace::Open`.
use nvm_kv.Prelude.{suc, max, Option, none, some, List, [], Bool, false, ltb, if◌then◌else◌, Bytes}
use nvm_kv.OrdMap.{OrdMap}
use nvm_kv.Posix.{Io}
use nvm_kv.Engine.{RetCode, succ, io_error, Run, ok, fault, uninitialised, ◌>>=◌}
use nvm_kv.Tth.Bucket.{Location, StoredFile, stored, Bucket, chunck_size}
use nvm_kv.Tth.Indexing.{Indexed, read_index_file}

-- The files index_<i>.tmp, index_<i> and data_<i>, where they exist.
pub record Files : Type 0 where
  pub tmp : Option StoredFile
  pub saved : Option Bytes
  pub data_file : Option Bytes

-- Which calls succeed: open(2) of each file, with O_CREAT where the code has it, and the others.
pub record Calls : Type 0 where
  pub tmp_ok : Bool
  pub saved_ok : Bool
  pub data_ok : Bool
  pub create_tmp_ok : Bool
  pub create_data_ok : Bool
  pub remove_ok : Bool
  pub fallocate_ok : Bool
  pub mmap_ok : Bool

-- The answer for one bucket, the bucket if it was set up, the files, and the events left.
pub record Opened : Type 0 where
  pub ret : RetCode
  pub bucket : Option Bucket
  pub files : Files
  pub io : List Io

-- The rest of a round, from the index, the data file and the new index.tmp on
abbrev pub Rest : Type 0
Rest = OrdMap Location → Bytes → StoredFile → List Io → Run Opened

abbrev contents : Option Bytes → Bytes
contents none = []
contents (some file) = file

abbrev pub empty_file : StoredFile
empty_file = stored []

-- open(index_<i>.tmp, O_RDWR | O_CREAT): a file that is there keeps its bytes.
abbrev created : Option StoredFile → StoredFile
created none = empty_file
created (some tmp) = tmp

-- `return` with an answer and without an engine
abbrev failure : RetCode → Files → List Io → Run Opened
failure ret files io = ok (record { ret = ret; bucket = none; files = files; io = io })

-- `delete engine_race`: the destructor unmaps `mem_tmp` of all buckets, and that of the bucket at
-- hand was not set yet.
abbrev deleted : Run Opened
deleted = fault uninitialised

abbrev load_index : List Io → StoredFile → OrdMap Location → Run Indexed
load_index io file index = read_index_file (suc file.size) io file 0 index

-- open(data_<i>, O_RDWR)
abbrev open_data : Calls → Files → (Bytes → Run Opened) → Run Opened
open_data calls files rest = elim files.data_file [
  | none ↦ deleted
  | some data_file ↦ if calls.data_ok then rest data_file else deleted
]

-- Neither index.tmp nor an index file: both files are created.
unfoldable pub open_empty : List Io → Calls → Files → Rest → Run Opened
open_empty io calls files rest =
    if calls.create_tmp_ok
    then (if calls.create_data_ok
        then rest [] (contents files.data_file) (created files.tmp) io
        else deleted)
    else deleted

abbrev on_success : RetCode → Run Opened → Run Opened → Run Opened
on_success succ good bad = good
on_success _ good bad = bad

-- An index file and no index.tmp: the engine was closed.
unfoldable pub open_closed : List Io → Calls → Files → Bytes → Rest → Run Opened
open_closed io calls files saved rest = do
  (ret, index, io') ← load_index io (stored saved) []
  on_success ret
      (open_data calls files (λ data_file.
        if calls.create_tmp_ok then rest index data_file (created files.tmp) io' else deleted))
      deleted

-- The end of the branch of an index.tmp: it is removed and made again.
unfoldable pub renew_tmp :
    Calls → Files → StoredFile → OrdMap Location → List Io → Rest → Run Opened
renew_tmp calls files tmp index io rest = open_data calls files (λ data_file.
    if calls.create_tmp_ok
    then rest index data_file (if calls.remove_ok then empty_file else tmp) io
    else deleted)

-- An index.tmp: the engine was not closed. Its entries are read after those of the index file.
unfoldable pub open_unclosed :
    List Io → Calls → Files → Option Bytes → StoredFile → Rest → Run Opened
unfolding renew_tmp
open_unclosed io calls files none tmp rest = do
  (ret, index, io') ← load_index io tmp []
  on_success ret (renew_tmp calls files tmp index io' rest) (failure ret files io')
open_unclosed io calls files (some saved) tmp rest = do
  (ret, base, io') ← load_index io (stored saved) []
  on_success ret
      (do
        (ret', index, io'') ← load_index io' tmp base
        on_success ret' (renew_tmp calls files tmp index io'' rest) (failure ret' files io''))
      (failure ret files io')

-- posix_fallocate, mmap and memset of index.tmp
abbrev pub cleared : StoredFile → StoredFile
cleared tmp = record {
  size = max tmp.size chunck_size;
  bytes = λ q. if ltb q chunck_size then 0 else tmp.bytes q;
}

abbrev pub opened_bucket : Location → Option Bytes → OrdMap Location → Bytes → StoredFile → Bucket
opened_bucket garbage saved index data_file tmp = record {
  index = index;
  data_file = data_file;
  position = 0;
  next_loc = garbage;
  tmp = tmp;
  mem_offset = 0;
  saved = saved;
  locked = false;
}

unfoldable pub set_up : Calls → Location → Option Bytes → Rest
set_up calls garbage saved index data_file tmp io =
    let left : Files = record { tmp = some tmp; saved = saved; data_file = some data_file } in
    let reserved : Files = record left {
      tmp = some (record tmp { size = max tmp.size chunck_size });
    } in
    if calls.fallocate_ok
    then (if calls.mmap_ok
        then ok (record {
          ret = succ;
          bucket = some (opened_bucket garbage saved index data_file (cleared tmp));
          files = record left { tmp = some (cleared tmp) };
          io = io;
        })
        else failure io_error reserved io)
    else failure io_error left io

-- The file if it is there and can be opened
abbrev open_existing : {A : Type 0} → Option A → Bool → Option A
open_existing none b = none
open_existing (some file) b = if b then some file else none

-- One round of the loop of `EngineRace::Open`. `garbage` is what `nextLoc` holds in the memory of the
-- new engine: no code sets it.
unfoldable pub open_bucket : List Io → Calls → Location → Files → Run Opened
open_bucket io calls garbage files =
    let saved = open_existing files.saved calls.saved_ok in
    let rest = set_up calls garbage files.saved in
    elim (open_existing files.tmp calls.tmp_ok) [
      | none ↦ elim saved [
        | none ↦ open_empty io calls files rest
        | some file ↦ open_closed io calls files file rest
      ]
      | some tmp ↦ open_unclosed io calls files saved tmp rest
    ]

-- What the death of the process leaves: the mapping is shared with index.tmp.
unfoldable pub files_of : Bucket → Files
files_of f = record { tmp = some f.tmp; saved = f.saved; data_file = some f.data_file }
