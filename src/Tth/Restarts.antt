-- ===== src/Tth/Restarts.antt =====
-- What an engine_tth that was killed finds when it is opened again.
use nvm_kv.Prelude.{
  ℕ, ◌+◌, ◌≤◌, ◌<◌, ◌≡◌, refl, ◌∙◌, arith, some, List, [], ◌∷◌, ◌++◌, if◌then◌else◌, same, length,
  drop, Bytes, lt→ltb,
}
use nvm_kv.Polar.{of_string}
use nvm_kv.Posix.{Io, NoFailure, transfers}
use nvm_kv.Engine.{succ, ok}
use nvm_kv.Tth.Bucket.{Bucket, Location, append_loop, write, location_sz, chunck_size}
use nvm_kv.Tth.Opening.{Files, Calls, cleared, empty_file, open_bucket, files_of}
use nvm_kv.Tth.Entries.{Entries, IsEntry, Holds, Serves, calls_for, replay}
use nvm_kv.Tth.Appending.{overwrite_inside}
use nvm_kv.Tth.Live.{view, IsValid, HasRoom}
use nvm_kv.Tth.Live.Writing.{written, write-written, view-written}
use nvm_kv.Tth.Log.{Holds-Log, IsLogged, entry_of, written-IsLogged}
use nvm_kv.Tth.Reopening.{AllOk, SavedAs, set_up_with, opened_with, open_bucket-replay}

-- The bucket that `Open` makes of what a killed process left
abbrev pub reopened : Location → Bucket → Bucket
reopened garbage f = set_up_with garbage f.saved f.index f.data_file

-- A bucket whose index comes from the entries of its index file and the log of its writes, with room
-- for the end mark
pub record IsDurable (f : Bucket) (saved log : Entries) : Type 0 where
  pub logged : IsLogged f (replay saved []) log
  pub saved_as : SavedAs f.saved saved
  pub room : f.mem_offset + 4 ≤ chunck_size

-- `Open` on the files gives the bucket.
abbrev pub Opens : List Io → Calls → Location → Files → Bucket → Type 0
Opens io calls garbage files f =
    (io' : List Io) × (open_bucket io calls garbage files ≡ ok (opened_with f io'))

Holds-files :
    (f : Bucket) (saved log : Entries) → IsDurable f saved log → Holds f.tmp.bytes f.tmp.size 0 log
Holds-files f saved log durable = rw durable.logged.mapped (
    Holds-Log f.tmp.bytes chunck_size 0 log (omega (arith, durable.logged.ends, durable.room))
      (λ q lo hi. durable.logged.blank q (omega (arith, durable.logged.ends, lo)) hi)
      durable.logged.log)

pub open_bucket-files_of :
    (io : List Io) (calls : Calls) (garbage : Location) (f : Bucket) (saved log : Entries)
    → IsDurable f saved log
    → AllOk calls
    → Serves (calls_for saved + calls_for log) io
    → Opens io calls garbage (files_of f) (reopened garbage f)
unfolding files_of
open_bucket-files_of io calls garbage f saved log durable good serves =
    rw (durable.logged.index_eq) (
      open_bucket-replay calls garbage f.data_file f.tmp log good (Holds-files f saved log durable)
        io f.saved saved durable.saved_as serves)

-- `Write` answers `succ`, and after the death of the process `Open` gives a bucket in which the key
-- has the new value and every other key the value it had.
abbrev pub Survives : List Io → List Io → Calls → Location → Bucket → Bytes → Bytes → Type 0
Survives io io₂ calls garbage f key value =
    (f' : Bucket) × (io' : List Io) × (g : Bucket) × (write io f (of_string key) (of_string value)
      ≡ ok (succ, f', io'))
    × Opens io₂ calls garbage (files_of f') g
    × ((j : Bytes) → view g j ≡ (if same j key then some value else view f j))

pub written-IsDurable :
    (f : Bucket) (saved log : Entries) (key value : Bytes)
    → IsDurable f saved log
    → IsEntry (entry_of f key value)
    → f.mem_offset + (4 + length key + location_sz) + 4 ≤ chunck_size
    → IsDurable (written f key value) saved (log ++ entry_of f key value ∷ [])
unfolding written
written-IsDurable f saved log key value durable entry room = record {
  logged = written-IsLogged f (replay saved []) log key value durable.logged entry;
  saved_as = durable.saved_as;
  room = room;
}

view-reopened :
    (garbage : Location) (f : Bucket) (j : Bytes) → view (reopened garbage f) j ≡ view f j
unfolding view
view-reopened garbage f j = refl

-- For a well formed bucket of engine_tth whose index comes from the entries of its index file and
-- the log in index.tmp: `Write` of a pair answers `succ`, and when the process is then killed,
-- `Open` on the files gives a bucket in which the key has the new value and every other key the
-- value it had. The mapping has room for the pair and an end mark, the key has 1 to 1023 bytes
-- and the value at most 4096, none of them zero, offsets stay below 2^64, no call of write(2)
-- fails and as many move bytes as the value has, the calls of `Open` succeed, and each read(2) of
-- the index files gives all that is asked for.
pub open_bucket-written :
    (io io₂ : List Io) (calls : Calls) (garbage : Location) (f : Bucket) (saved log : Entries)
    (key value : Bytes)
    → IsValid f
    → IsDurable f saved log
    → HasRoom f key value
    → IsEntry (entry_of f key value)
    → f.mem_offset + (4 + length key + location_sz) + 4 ≤ chunck_size
    → NoFailure io
    → length value ≤ transfers io
    → AllOk calls
    → Serves (calls_for saved + calls_for (log ++ entry_of f key value ∷ [])) io₂
    → Survives io io₂ calls garbage f key value
open_bucket-written io io₂ calls garbage f saved log key value valid durable room entry mark good
      enough calls_ok serves =
    (
      written f key value,
      (append_loop io f.data_file f.position value).io,
      reopened garbage (written f key value),
      write-written io f key value valid.unlocked (omega (arith, valid.at_end)) room.mapping good
          enough,
      open_bucket-files_of io₂ calls garbage (written f key value) saved
          (log ++ entry_of f key value ∷ [])
          (written-IsDurable f saved log key value durable entry mark) calls_ok serves,
      λ j. view-reopened garbage (written f key value) j ∙ view-written f valid key value room j,
    )

-- `Open` succeeds, and the `Write` after it puts the value over the start of the old data file.
abbrev pub Overwrites : List Io → List Io → Calls → Location → Bucket → Bytes → Bytes → Type 0
Overwrites io io₂ calls garbage f key value =
    (g : Bucket) × (g' : Bucket) × (io' : List Io) × Opens io calls garbage (files_of f) g
    × (write io₂ g (of_string key) (of_string value) ≡ ok (succ, g', io'))
    × (g'.data_file ≡ value ++ drop (length value) f.data_file)

data_file_overwritten :
    (garbage : Location) (f : Bucket) (key value : Bytes)
    → (written (reopened garbage f) key value).data_file ≡ value ++ drop (length value) f.data_file
unfolding written
data_file_overwritten garbage f key value =
    let e : 0 + length value ≡ length value = omega arith in
    overwrite_inside f.data_file 0 value (omega arith) ∙ rw e refl

-- After `Open` on what a killed engine_tth left, the first `Write` of a bucket answers `succ` and
-- puts its value over the start of the old data file: what stood there is gone. The bucket's
-- index comes from the index file and the log, there is room for an end mark and for the key in
-- the mapping, the calls of `Open` succeed, each read(2) gives all that is asked for, no call of
-- write(2) fails, and as many move bytes as the value has.
pub write-Overwrites :
    (io io₂ : List Io) (calls : Calls) (garbage : Location) (f : Bucket) (saved log : Entries)
    (key value : Bytes)
    → IsDurable f saved log
    → AllOk calls
    → Serves (calls_for saved + calls_for log) io
    → 4 + length key + location_sz ≤ chunck_size
    → NoFailure io₂
    → length value ≤ transfers io₂
    → Overwrites io io₂ calls garbage f key value
write-Overwrites io io₂ calls garbage f saved log key value durable calls_ok serves room good
      enough =
    (
      reopened garbage f,
      written (reopened garbage f) key value,
      (append_loop io₂ f.data_file 0 value).io,
      open_bucket-files_of io calls garbage f saved log durable calls_ok serves,
      write-written io₂ (reopened garbage f) key value refl (omega arith) (omega (arith, room)) good
          enough,
      data_file_overwritten garbage f key value,
    )

-- `Open` succeeds, and after another death `Open` gives a bucket with the index of the index file
-- alone.
abbrev pub Forgets : List Io → List Io → Calls → Location → Bucket → Entries → Type 0
Forgets io io₂ calls garbage f saved =
    (g : Bucket) × (h : Bucket) × Opens io calls garbage (files_of f) g
    × Opens io₂ calls garbage (files_of g) h
    × (g.index ≡ f.index)
    × (h.index ≡ replay saved [])

pub cleared_blank : (q : ℕ) → q < chunck_size → (cleared empty_file).bytes q ≡ 0
cleared_blank q h = rw (lt→ltb q chunck_size h) refl

-- When an engine_tth is killed, opened, and killed again before anything is written, the first
-- `Open` gives a bucket with the index that the killed engine had, but the second `Open` gives
-- one with the index of the index file alone: the entries of the log are lost. The bucket's index
-- comes from the index file and the log, there is room for an end mark, the calls of `Open`
-- succeed, and each read(2) gives all that is asked for.
pub open_bucket-twice :
    (io io₂ : List Io) (calls : Calls) (garbage : Location) (f : Bucket) (saved log : Entries)
    → IsDurable f saved log
    → AllOk calls
    → Serves (calls_for saved + calls_for log) io
    → Serves (calls_for saved + 1) io₂
    → Forgets io io₂ calls garbage f saved
unfolding files_of replay
open_bucket-twice io io₂ calls garbage f saved log durable calls_ok serves serves₂ = (
  reopened garbage f,
  set_up_with garbage f.saved (replay saved []) f.data_file,
  open_bucket-files_of io calls garbage f saved log durable calls_ok serves,
  open_bucket-replay calls garbage f.data_file (cleared empty_file) [] calls_ok
      (Holds-Log (cleared empty_file).bytes chunck_size 0 [] (omega arith)
        (λ q lo hi. cleared_blank q hi) tt)
      io₂ f.saved saved durable.saved_as serves₂,
  refl,
  refl,
)
