-- ===== src/Tth/Routing.antt =====
-- engine_tth/engine_race.cc: the operations of the engine over its array of buckets.
use nvm_kv.Prelude.{
  ℕ, ◌%◌, Option, none, some, List, [], ◌∷◌, Bool, if◌then◌else◌, get_elem?, set, Bytes, Memory,
}
use nvm_kv.Polar.{PolarString, to_string}
use nvm_kv.Posix.{Io}
use nvm_kv.Engine.{RetCode, succ, io_error, Run, ok, fault, ◌>>=◌, outside_array}
use nvm_kv.Tth.Bucket
use nvm_kv.Tth.Bucket.{Location, Bucket}
use nvm_kv.Tth.Opening.{Files, Calls, open_bucket}
use nvm_kv.Tth.Closing.{CloseCalls, close_bucket}

abbrev pub thread_cnt : ℕ
thread_cnt = 8

pub record EngineRace : Type 0 where
  pub dir_name : Bytes
  pub buckets : List Bucket

-- An element of one of the arrays of the engine
unfoldable pub bucket_at : List Bucket → ℕ → Run Bucket
bucket_at bs i = elim (get_elem? bs i) [ none ↦ fault outside_array | some f ↦ ok f ]

abbrev engine_if : RetCode → EngineRace → Option EngineRace
engine_if succ e = some e
engine_if _ e = none

-- What `Open` finds for one bucket: the answers of the system, the memory of `nextLoc`, the files
pub record Found : Type 0 where
  pub calls : Calls
  pub garbage : Location
  pub files : Files

abbrev untouched : List Found → List Files
untouched [] = []
untouched (b ∷ rest) = b.files ∷ untouched rest

-- The loop of `EngineRace::Open`
unfoldable pub open_buckets :
    List Io → List Found → Run (RetCode × List Bucket × List Files × List Io)
open_buckets io [] = ok (succ, [], [], io)
open_buckets io (b ∷ rest) = do
  o ← open_bucket io b.calls b.garbage b.files
  elim o.bucket [
    | none ↦ ok (o.ret, [], o.files ∷ untouched rest, o.io)
    | some f ↦ do
      (ret, bs, left, io') ← open_buckets o.io rest
      ok (ret, f ∷ bs, o.files ∷ left, io')
  ]

-- EngineRace::Open: the answer, `*eptr`, the files of the directory, and the events left.
-- `dir_ok`: the directory is there, or mkdir made it.
unfoldable pub open_engine :
    List Io → Bool → Bytes → List Found → Run (RetCode × Option EngineRace × List Files × List Io)
unfolding open_buckets
open_engine io dir_ok name dir =
    if dir_ok
    then (do
      (ret, bs, left, io') ← open_buckets io dir
      ok (ret, engine_if ret (record { dir_name = name; buckets = bs }), left, io'))
    else ok (io_error, none, untouched dir, io)

-- What the destructor finds for one bucket: the answers, and the entries in the order of the map
abbrev pub Closings : Type 0
Closings = List (CloseCalls × List (Bytes × Location))

-- EngineRace::~EngineRace
unfoldable pub close_buckets : List Io → Closings → List Bucket → Run (List Files × List Io)
close_buckets io (c ∷ cs) (f ∷ fs) = do
  (left, io') ← close_bucket io c.0 c.1 f
  (rest, io'') ← close_buckets io' cs fs
  ok (left ∷ rest, io'')
close_buckets io [] fs = ok ([], io)
close_buckets io (c ∷ cs) [] = ok ([], io)

-- The hash of the standard library is a parameter.
module _ (hash_func : Bytes → ℕ) where
  unfoldable pub calculate_bucket_id : Bytes → ℕ
  calculate_bucket_id key = hash_func key % thread_cnt

  -- EngineRace::Write
  unfoldable pub write :
      List Io → EngineRace → PolarString → PolarString → Run (RetCode × EngineRace × List Io)
  write io e key value = do
    let bucket_id : ℕ = calculate_bucket_id (to_string key)
    f ← bucket_at e.buckets bucket_id
    (ret, f', io') ← Bucket.write io f key value
    ok (ret, record e { buckets = set e.buckets bucket_id f' }, io')

  -- EngineRace::Read; `before` is what stood in `read_buf`.
  unfoldable pub read :
      List Io
      → EngineRace
      → PolarString
      → Memory
      → Bytes
      → Run (RetCode × Bytes × EngineRace × List Io)
  read io e key before value = do
    let bucket_id : ℕ = calculate_bucket_id (to_string key)
    f ← bucket_at e.buckets bucket_id
    (ret, value', f', io') ← Bucket.read io f key before value
    ok (ret, value', record e { buckets = set e.buckets bucket_id f' }, io')

-- EngineRace::Range, which visits no key
unfoldable pub range : EngineRace → PolarString → PolarString → RetCode
range e lower upper = succ
