-- ===== src/Race/Routing.antt =====
-- engine_race/engine_race.cc: the buckets of the engine, and which of them holds a key.
pub mod Bounds
use nvm_kv.Prelude.{
  ℕ, ◌+◌, ◌-◌, ◌/◌, ◌%◌, Option, none, some, List, [], ◌∷◌, Bool, true, false, ◌==◌, if◌then◌else◌,
  length, get_elem?, set, Bytes, map as list_map,
}
use nvm_kv.Polar.{PolarString, at}
use nvm_kv.Posix.{Io}
use nvm_kv.Engine.{
  RetCode, succ, io_error, Run, ok, fault, stuck, ◌>>=◌, ◌>>◌, guard, outside_array,
  division_by_zero,
}
use nvm_kv.Race.Bucket
use nvm_kv.Race.Bucket.{Bucket}
use nvm_kv.Race.Reading
use nvm_kv.Race.Reading.{Answer}
use nvm_kv.Race.Opening.{Files, Calls, Opened, open_bucket, files_of}

-- const u8 num_per_bucket = (256+BUCKET_NUM-1)/BUCKET_NUM
unfoldable pub num_per_bucket : ℕ → ℕ
num_per_bucket bucket_num = (256 + bucket_num - 1) / bucket_num % 256

-- which_bucket(ch), stored in a u8
unfoldable pub which_bucket : ℕ → ℕ → Run ℕ
unfolding num_per_bucket
which_bucket bucket_num ch =
    if num_per_bucket bucket_num == 0
    then fault division_by_zero
    else ok (ch % 256 / num_per_bucket bucket_num)

pub record EngineRace : Type 0 where
  pub dir_name : Bytes
  pub buckets : List Bucket

-- buckets[i]
unfoldable pub bucket_at : List Bucket → ℕ → Run Bucket
bucket_at bs i = elim (get_elem? bs i) [ none ↦ fault outside_array | some f ↦ ok f ]

unfoldable pub put_bucket : EngineRace → ℕ → Bucket → EngineRace
put_bucket e i f = record e { buckets = set e.buckets i f }

-- EngineRace::Write
unfoldable pub write :
    List Io → EngineRace → PolarString → PolarString → Run (RetCode × EngineRace × List Io)
write io e key value = do
  ch ← at key 0
  id ← which_bucket (length e.buckets) ch
  f ← bucket_at e.buckets id
  (ret, f', io') ← Bucket.write io f key value
  ok (ret, put_bucket e id f', io')

-- EngineRace::Read, with the string behind `value` before and after
unfoldable pub read :
    List Io → EngineRace → PolarString → Bytes → Run (RetCode × Bytes × EngineRace × List Io)
read io e key value = do
  ch ← at key 0
  id ← which_bucket (length e.buckets) ch
  f ← bucket_at e.buckets id
  a ← Reading.read io f key value
  ok (a.ret, a.value, put_bucket e id a.bucket, a.io)

abbrev files_left : List (Calls × Files) → List Files
files_left [] = []
files_left ((c, files) ∷ rest) = files ∷ files_left rest

-- The loop of `EngineRace::Open`: the first bucket that fails ends it.
unfoldable pub open_buckets : List (Calls × Files) → Run (RetCode × List Bucket × List Files)
open_buckets [] = ok (succ, [], [])
open_buckets ((calls, files) ∷ rest) = do
  o ← open_bucket calls files
  elim o.bucket [
    | none ↦ ok (o.ret, [], o.files ∷ files_left rest)
    | some f ↦ do (ret, bs, left) ← open_buckets rest; ok (ret, f ∷ bs, o.files ∷ left)
  ]

abbrev engine_if : RetCode → EngineRace → Option EngineRace
engine_if succ e = some e
engine_if _ e = none

-- EngineRace::Open: the answer, `*eptr`, and the files of the directory
unfoldable pub open_engine :
    Bool → Bytes → List (Calls × Files) → Run (RetCode × Option EngineRace × List Files)
unfolding open_buckets
open_engine mkdir_ok name dir =
    if mkdir_ok
    then (do
      (ret, bs, left) ← open_buckets dir
      ok (ret, engine_if ret (record { dir_name = name; buckets = bs }), left))
    else ok (io_error, none, files_left dir)

-- EngineRace::~EngineRace: what is left in the directory
unfoldable pub close : EngineRace → List Files
unfolding files_of
close e = list_map files_of e.buckets
