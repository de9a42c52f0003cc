-- ===== src/Race/Log/Crashing.antt =====
-- What `Open` finds after the process dies inside `Write`.
use nvm_kv.Prelude.{
  ◌+◌, ◌^◌, ◌≤◌, ◌<◌, ◌≡◌, refl, ap, ◌∙◌, arith, List, [], ◌∷◌, ◌++◌, length, Bytes, Option,
  Option-cases, inl, inr, length-append, some, same, if◌then◌else◌,
}
use nvm_kv.Polar
use nvm_kv.Polar.{PolarString, to_string}
use nvm_kv.Polar.Order.{size-to_string}
use nvm_kv.OrdMap.{find}
use nvm_kv.Posix.{Io, opened, NoFailure, transfers, file_append}
use nvm_kv.Engine.{succ, ok}
use nvm_kv.Race.Bucket.{Bucket, load_location, location_sz, write}
use nvm_kv.Race.Opening.{Files, Calls, open_bucket, files_of}
use nvm_kv.Race.Live.{IsValid, HasRoom, view}
use nvm_kv.Race.Live.Writing.{
  slice-append, written, written-IsValid, view-written, write-written, cur_written,
}
use nvm_kv.Race.Log.{Log, IsLogged}
use nvm_kv.Race.Log.Appending.{new_location, written-IsLogged}
use nvm_kv.Race.Log.Reopening.{
  Works, reopened, open_bucket-files_of, view-reopened, reopened-IsValid,
}

-- The bucket with more bytes in its data file, which no location names.
abbrev extended : Bucket → Bytes → Bucket
extended f extra = record f {
  data_file = f.data_file ++ extra;
  data_offset = length (f.data_file ++ extra);
}

extended-IsValid :
    (f : Bucket) (extra : Bytes)
    → IsValid f
    → length f.data_file + length extra < 2 ^ 32
    → IsValid (extended f extra)
extended-IsValid f extra valid small = record {
  unlocked = valid.unlocked;
  is_open = valid.is_open;
  fits = valid.fits;
  counted = refl;
  below_4g = omega (arith, length-append {0} f.data_file extra);
  pointers = λ key p h.
      let (b, i) = valid.pointers key p h in
      (
        b,
        record {
          inside = omega (arith, i.inside, length-append {0} f.data_file extra);
          readable = i.readable;
        },
      );
}

view-extended :
    (f : Bucket) (extra key : Bytes) → IsValid f → view (extended f extra) key ≡ view f key
unfolding view
view-extended f extra key valid = elim (Option-cases (find key f.map)) [
  | inl e ↦ rw e
  | inr (p, e) ↦
      let (b, i) = valid.pointers key p e in
      rw e (ap some (slice-append (load_location f.key_mmap p) f.data_file extra i.inside))
]

-- `Open` on the files answers `succ` with a well formed bucket that has the values.
pub record Recovers (values : Bytes → Option Bytes) (files : Files) (calls : Calls) : Type 0 where
  pub bucket : Bucket
  pub opens :
      open_bucket calls files ≡ ok (record { ret = succ; bucket = some bucket; files = files })
  pub valid : IsValid bucket
  pub views : (key : Bytes) → view bucket key ≡ values key

pub extended-Recovers :
    (calls : Calls) (log : Log) (f : Bucket) (extra : Bytes)
    → Works calls
    → IsValid f
    → IsLogged log f
    → f.key_mmap_cur + 4 ≤ f.mapped
    → length f.data_file + length extra < 2 ^ 32
    → Recovers (view f) (files_of (record f { data_file = f.data_file ++ extra })) calls
unfolding files_of
extended-Recovers calls log f extra works valid logged room small =
    let valid' = extended-IsValid f extra valid small in
    let logged' : IsLogged log (extended f extra) = record {
      records = logged.records;
      clean = logged.clean;
      map = logged.map;
      bounded = logged.bounded;
    } in
    record {
      bucket = reopened (extended f extra);
      opens = open_bucket-files_of calls log (extended f extra) works valid' logged' room;
      valid = reopened-IsValid (extended f extra) valid';
      views = λ key. view-reopened (extended f extra) key ∙ view-extended f extra key valid;
    }

-- The values after a write
abbrev pub updated : Bucket → Bytes → Bytes → Bytes → Option Bytes
updated f key value j = if same j key then some value else view f j

pub written-Recovers :
    (calls : Calls) (log : Log) (f : Bucket) (key value : Bytes)
    → Works calls
    → IsValid f
    → IsLogged log f
    → HasRoom f key value
    → 0 < length key
    → f.key_mmap_cur + (4 + length key + location_sz) + 4 ≤ f.mapped
    → Recovers (updated f key value) (files_of (written f key value)) calls
unfolding written
written-Recovers calls log f key value works valid logged room pos more =
    let f' = written f key value in
    let valid' = written-IsValid f valid key value room in
    record {
      bucket = reopened f';
      opens =
          open_bucket-files_of calls (log ++ (key, new_location f value) ∷ []) f' works valid'
            (written-IsLogged log f key value valid logged room pos)
            (rw (cur_written f valid key value room) (omega arith));
      valid = reopened-IsValid f' valid';
      views = λ j. view-reopened f' j ∙ view-written f valid key value room j;
    }

-- `Write` answers `succ`, and the next `Open` finds the key with the new value and every other key
-- with the one it had.
abbrev pub Persists : Calls → Bucket → PolarString → PolarString → List Io → Type 0
Persists calls f key value io =
    (f' : Bucket) × (io' : List Io) × (write io f key value ≡ ok (succ, f', io'))
    × (g : Bucket) × (open_bucket calls (files_of f')
        ≡ ok (record { ret = succ; bucket = some g; files = files_of f' }))
    × IsValid g
    × ((j : Bytes)
        → view g j ≡ (if same j (to_string key) then some (to_string value) else view f j))

-- For a well formed bucket whose index file is the log of its writes, a nonempty key and a value
-- for which the buffers, the index file (with an end mark after the record) and the 4 GB counter
-- have room, and calls of write(2) of which none fails and as many move bytes as the value has:
-- `Write` answers `succ`, and `Open` on the files it leaves answers `succ` with a well formed
-- bucket in which the key has the new value and every other key the value it had. The value's
-- view is valid, and the calls that `Open` makes succeed, with a nonzero descriptor for the index
-- file.
pub open_bucket-write :
    (calls : Calls) (log : Log) (f : Bucket) (key value : PolarString) (io : List Io)
    → Works calls
    → IsValid f
    → IsLogged log f
    → Polar.IsValid value
    → HasRoom f (to_string key) (to_string value)
    → 0 < length (to_string key)
    → f.key_mmap_cur + (4 + length (to_string key) + location_sz) + 4 ≤ f.mapped
    → NoFailure io
    → length (to_string value) ≤ transfers io
    → Persists calls f key value io
open_bucket-write calls log f key value io works valid logged vv room pos more good enough =
    let k = to_string key in
    let v = to_string value in
    let r = written-Recovers calls log f k v works valid logged room pos more in
    (
      written f k v,
      (file_append opened io f.data_file v).io,
      write-written f valid k v room io key value refl refl (size-to_string value vv) good enough,
      r.bucket,
      r.opens,
      r.valid,
      r.views,
    )
