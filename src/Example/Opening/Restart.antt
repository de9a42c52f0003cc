-- ===== src/Example/Opening/Restart.antt =====
-- `EngineExample::Read` after the engine was opened again on the files it left.
use native.Mathlib.Decide.{ℕ_discrete}
use nvm_kv.Prelude.{ℕ, ◌≤◌, ◌≡◌, ◌∙◌, List, [], length, some, true, false, Bytes, arith, ==_refl}
use nvm_kv.Polar.{PolarString, to_string}
use nvm_kv.Posix.{Io, NoFailure, transfers, negative}
use nvm_kv.Engine.{succ, ok}
use nvm_kv.Example.DataStore.{
  Location, DataFiles, DataStore, content_of, set_file, last_file_no, open_cur_file, offset_of,
}
use nvm_kv.Example.DataStore
use nvm_kv.Example.DataStore.Appending.{IsStored, slice}
use nvm_kv.Example.DataStore.Reading.{read-slice}
use nvm_kv.Example.DoorPlate.{find_location}
use nvm_kv.Example.Engine.{EngineExample, no_location, mutex_lock, fetch, read}
use nvm_kv.Example.Opening.{PlateCalls, opens, init, open_or_create, map_meta, open_engine}

-- The calls of `Init` succeed on a META that exists.
pub record Finds (calls : PlateCalls) : Type 0 where
  pub dir_ok : calls.dir_ok ≡ true
  pub open_meta : calls.open_meta ≡ opens
  pub mmap_ok : calls.mmap_ok ≡ true

-- Opening an existing file for appending changes no file.
set_file_same :
    (files : DataFiles) (last n : ℕ) (file : Bytes)
    → files last ≡ some file
    → set_file files last (content_of (files last)) n ≡ files n
unfolding set_file
set_file_same files last n file there = elim (ℕ_discrete n last) [
  | yes e ↦ rw (e, ==_refl last, there)
  | no away ↦ ground (arith, away)
]

-- The data store that `Init` sets up.
abbrev restarted : DataFiles → ℕ → DataStore
restarted files last =
    (open_cur_file true (record {
      fd = negative;
      fd_no = 0;
      next_location = record {
        file_no = last;
        offset = offset_of (length (content_of (files last)));
        len = 0;
      };
      files = files;
    })).1

abbrev pub Survives :
    PlateCalls → ℕ → List Bytes → List Io → EngineExample → PolarString → Location → Bytes → Type 0
Survives calls count names io e key l before =
    (e' : EngineExample) × (open_engine calls count e.plate true true true names e.store.files true
      ≡ ok (record { ret = succ; engine = some e'; closed_again = false }))
    × (io' : List Io) × (read io true e' key before ≡ ok (succ, slice e.store.files l, e', io'))

-- `Open` of engine_example on the META and the data files that an engine left answers `succ`, and
-- `Read` of a key for which the table gives a location inside an existing data file then answers
-- `succ` and the bytes that the location names. The calls of `Open` succeed, META exists, the
-- last data file that `Init` finds in the listing of the directory exists, no call of read(2)
-- fails, and as many of them move bytes as the location names.
pub read-open_engine :
    (calls : PlateCalls) (count last : ℕ) (names : List Bytes) (io : List Io) (e : EngineExample)
    (key : PolarString) (l : Location) (file before : Bytes)
    → Finds calls
    → last_file_no names 0 ≡ ok last
    → e.store.files last ≡ some file
    → find_location e.plate (to_string key) no_location ≡ ok (succ, l)
    → IsStored e.store.files l
    → NoFailure io
    → l.len ≤ transfers io
    → Survives calls count names io e key l before
unfolding open_engine init open_or_create map_meta DataStore.init open_cur_file read mutex_lock
    fetch
read-open_engine calls count last names io e key l file before finds listed there found stored good
      enough =
    let s = restarted e.store.files last in
    let same_file = set_file_same e.store.files last l.file_no file there in
    let stored' : IsStored s.files l = record {
      file = stored.file;
      there = same_file ∙ stored.there;
      inside = stored.inside;
    } in
    let (io', run) = read-slice io s l [] stored' good enough in
    (
      record { locked = false; plate = e.plate; store = s },
      rw (finds.dir_ok, finds.open_meta, finds.mmap_ok, listed),
      io',
      rw (found, run, same_file),
    )
