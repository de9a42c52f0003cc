-- ===== src/Tests/RaceExamples.antt =====
-- The theorems about engine_race at a bucket with one pair, and at an engine of two buckets.
use nvm_kv.Prelude.{
  ℕ, zero, suc, ◌/◌, ◌<◌, ◌≡◌, refl, arith, List, [], ◌∷◌, Option, none, some, true, false, Bytes,
  get_elem?,
}
use nvm_kv.Polar.{of_string, to_string}
use nvm_kv.OrdMap.{find}
use nvm_kv.Posix.{Io, transfer, eintr, opened, NoFailure, transfers}
use nvm_kv.Engine.{succ, ok, stuck}
use nvm_kv.Race.Bucket.{Bucket}
use nvm_kv.Race.Reading.{read_loop, read_buf_size}
use nvm_kv.Race.Opening.{Calls, files_of, open_bucket}
use nvm_kv.Race.Live
use nvm_kv.Race.Live.Writing.{written, written-IsValid}
use nvm_kv.Race.Log.{Log, IsLogged}
use nvm_kv.Race.Log.Appending.{new_location, written-IsLogged}
use nvm_kv.Race.Log.Reopening.{Works, reopened, open_bucket-files_of}
use nvm_kv.Race.Log.Crashing.{Persists, open_bucket-write}
use nvm_kv.Race.Log.Dying.{Survives, crash_in_write}
use nvm_kv.Race.Routing.{EngineRace, which_bucket, num_per_bucket}
use mathlib.Core.Option.{some-injective}
use mathlib.Core.Path.{subst}
use nvm_kv.Race.Routing.Bounds.{which_bucket_ok}
use nvm_kv.Race.Store
use nvm_kv.Race.Store.Operations.{Writes, write-view, Reads, read-view}
use nvm_kv.Race.Faults.{read_loop_eof, Ignores, write_succ_on_failure, Forgets, empty_key_forgotten}
use nvm_kv.Prelude.{before, lex}
use nvm_kv.OrdMap.{IsSorted, insert_or_assign}
use nvm_kv.Race.Ranging.Buckets.{RangesBucket, range_bucket-pairs}
use nvm_kv.Prelude.{inl, inr}
use nvm_kv.Polar.{at}
use nvm_kv.Race.Ranging.Answers.{Ranges, range-pairs}

abbrev abc : Bytes
abc = b'a' ∷ b'b' ∷ b'c' ∷ []

abbrev xyzw : Bytes
xyzw = b'x' ∷ b'y' ∷ b'z' ∷ b'w' ∷ []

abbrev calls : Calls
calls = record {
  index_fd = some 3;
  create_fd = some 3;
  data_file_fd = some 4;
  fallocate_ok = true;
  mmap_ok = true;
}

works : Works calls
works = record {
  index_number = 2;
  index_fd = refl;
  data_number = 4;
  data_file_fd = refl;
  mmap_ok = refl;
}

abbrev bucket₀ : Bucket
bucket₀ = record {
  map = [];
  key_fd = opened;
  data_fd = opened;
  data_offset = 0;
  key_mmap = λ q. 0;
  key_mmap_cur = 0;
  mapped = 4096;
  data_file = [];
  position = 0;
  locked = false;
}

not_found : (key : Bytes) (p : ℕ) → ◌≡◌ {A = Option ℕ} (find key []) (some p) → ⊥
unfolding find
not_found key p h = cc

valid₀ : Live.IsValid bucket₀
valid₀ = record {
  unlocked = refl;
  is_open = refl;
  fits = omega arith;
  counted = refl;
  below_4g = omega arith;
  pointers = λ key p h. absurd (not_found key p h);
}

logged₀ : IsLogged [] bucket₀
logged₀ = record { records = refl; clean = λ q h. refl; map = refl; bounded = omega arith }

room₀ : Live.HasRoom bucket₀ abc xyzw
room₀ = record {
  buffer = omega arith;
  index = omega arith;
  readable = omega arith;
  counter = omega arith;
}

-- The bucket after "abc" was written with the value "xyzw".
abbrev bucket₁ : Bucket
bucket₁ = written bucket₀ abc xyzw

abbrev log₁ : Log
log₁ = (abc, new_location bucket₀ xyzw) ∷ []

valid₁ : Live.IsValid bucket₁
valid₁ = written-IsValid bucket₀ valid₀ abc xyzw room₀

logged₁ : IsLogged log₁ bucket₁
logged₁ = written-IsLogged [] bucket₀ abc xyzw valid₀ logged₀ room₀ (omega arith)

abbrev io : List Io
io =
    eintr ∷ transfer 1 ∷ transfer 0 ∷ eintr ∷ transfer 9 ∷ transfer 2 ∷ transfer 9 ∷ transfer 9 ∷ []

room₁ : Live.HasRoom bucket₁ xyzw abc
unfolding written
room₁ = record {
  buffer = omega arith;
  index = omega arith;
  readable = omega arith;
  counter = omega arith;
}

crash_in_write_example : Survives calls (of_string xyzw) (of_string abc) 3 io bucket₁
unfolding of_string to_string written
crash_in_write_example =
    crash_in_write calls log₁ bucket₁ (of_string xyzw) (of_string abc) io 3 works valid₁ logged₁
      (omega arith) room₁ (omega arith) (omega arith) (inl tt)

open_bucket-write_example : Persists calls bucket₁ (of_string xyzw) (of_string abc) io
unfolding of_string to_string written
open_bucket-write_example =
    open_bucket-write calls log₁ bucket₁ (of_string xyzw) (of_string abc) io works valid₁ logged₁
      (omega arith) room₁ (omega arith) (omega arith) tt (omega arith)

open_bucket-files_of_example :
    open_bucket calls (files_of bucket₁)
    ≡ ok (record { ret = succ; bucket = some (reopened bucket₁); files = files_of bucket₁ })
unfolding written
open_bucket-files_of_example =
    open_bucket-files_of calls log₁ bucket₁ works valid₁ logged₁ (omega arith)

-- An engine of two buckets: "abc" belongs to the first.
abbrev engine : EngineRace
engine = record { dir_name = []; buckets = bucket₁ ∷ bucket₁ ∷ [] }

engine_each : (i : ℕ) (f : Bucket) → get_elem? engine.buckets i ≡ some f → Live.IsValid f
engine_each zero f h = subst Live.IsValid (some-injective _ _ h) valid₁
engine_each (suc zero) f h = subst Live.IsValid (some-injective _ _ h) valid₁
engine_each (suc (suc i)) f h = absurd (none-ne-some h)
  where
    none-ne-some : ◌≡◌ {A = Option Bucket} none (some f) → ⊥
    none-ne-some h = cc

engine-IsValid : Store.IsValid engine
engine-IsValid = record { several = omega arith; each = engine_each }

engine_room : Store.HasRoom engine xyzw abc
unfolding num_per_bucket
engine_room = record {
  room = λ f h. subst (λ f. Live.HasRoom f xyzw abc) (some-injective _ _ h) room₁;
}

write-view_example : Writes io engine xyzw abc
write-view_example =
    write-view io engine xyzw abc engine-IsValid (omega arith) engine_room tt (omega arith)

-- `n` calls that move a byte each
transfers_of : ℕ → List Io
transfers_of zero = []
transfers_of (suc n) = transfer 0 ∷ transfers_of n

transfers-transfers_of : (n : ℕ) → transfers (transfers_of n) ≡ n
unfolding transfers_of
transfers-transfers_of zero = refl
transfers-transfers_of (suc n) = omega (arith, transfers-transfers_of n)

transfers_of-NoFailure : (n : ℕ) → NoFailure (transfers_of n)
unfolding transfers_of
transfers_of-NoFailure zero = tt
transfers_of-NoFailure (suc n) = transfers_of-NoFailure n

read-view_example : Reads (transfers_of read_buf_size) engine abc []
read-view_example =
    read-view (transfers_of read_buf_size) engine abc [] engine-IsValid (omega arith)
      (transfers_of-NoFailure read_buf_size) (omega (arith, transfers-transfers_of read_buf_size))

which_bucket_ok_example :
    (which_bucket 64 255 ≡ ok (255 / num_per_bucket 64)) × (255 / num_per_bucket 64 < 64)
which_bucket_ok_example = which_bucket_ok 64 255 (omega arith) (omega arith)

read_loop_eof_example : read_loop io xyzw 4 [] 3 ≡ stuck
read_loop_eof_example = read_loop_eof io xyzw [] 4 2 tt (omega arith) (omega arith)

write_succ_on_failure_example : Ignores io bucket₁ xyzw abc
write_succ_on_failure_example = write_succ_on_failure io bucket₁ xyzw abc valid₁ room₁ (omega arith)

empty_room : Live.HasRoom bucket₁ [] abc
unfolding written
empty_room = record {
  buffer = omega arith;
  index = omega arith;
  readable = omega arith;
  counter = omega arith;
}

empty_key_forgotten_example : Forgets calls bucket₁ abc io
empty_key_forgotten_example =
    empty_key_forgotten calls log₁ bucket₁ abc io works valid₁ logged₁ empty_room tt (omega arith)

sorted₁ : IsSorted bucket₁.map
unfolding written insert_or_assign
sorted₁ = (tt, tt)

ordered₁ : before (to_string (of_string xyzw)) (to_string (of_string abc)) ≡ false
unfolding lex of_string to_string
ordered₁ = refl

range_bucket-pairs_example :
    RangesBucket (transfers_of read_buf_size) bucket₁ true true (of_string abc) (of_string xyzw)
range_bucket-pairs_example =
    range_bucket-pairs (transfers_of read_buf_size) bucket₁ true true (of_string abc)
      (of_string xyzw) valid₁ sorted₁ ordered₁ (transfers_of-NoFailure read_buf_size)
      (unfold written insert_or_assign in omega (arith, transfers-transfers_of read_buf_size))

engine-IsSorted : (i : ℕ) (f : Bucket) → get_elem? engine.buckets i ≡ some f → IsSorted f.map
engine-IsSorted zero f h = subst (λ (f : Bucket). IsSorted f.map) (some-injective _ _ h) sorted₁
engine-IsSorted (suc zero) f h =
    subst (λ (f : Bucket). IsSorted f.map) (some-injective _ _ h) sorted₁
engine-IsSorted (suc (suc i)) f h = absurd (none-ne-some h)
  where
    none-ne-some : ◌≡◌ {A = Option Bucket} none (some f) → ⊥
    none-ne-some h = cc

range-pairs_example : Ranges (transfers_of read_buf_size) engine (of_string abc) (of_string xyzw)
unfolding of_string at num_per_bucket written insert_or_assign
range-pairs_example =
    range-pairs (transfers_of read_buf_size) engine (of_string abc) (of_string xyzw) engine-IsValid
      (omega arith) engine-IsSorted (omega arith) (omega arith) (omega arith) (inr ordered₁)
      (transfers_of-NoFailure read_buf_size) (omega (arith, transfers-transfers_of read_buf_size))
