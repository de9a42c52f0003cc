-- ===== src/Tests/TthExamples.antt =====
-- The theorems about engine_tth at an empty bucket, and at an engine of eight of them.
use mathlib.Core.Option.{some-injective}
use mathlib.Core.Path.{subst}
use nvm_kv.Prelude.{
  ℕ, zero, suc, ◌+◌, ◌<◌, ◌≤◌, ◌≡◌, refl, ap, arith, inl, List, [], ◌∷◌, ◌++◌, Option, none, some,
  Bool, true, false, Bytes, Memory, get_elem?, All, length, encode_le,
}
use nvm_kv.OrdMap.{find}
use nvm_kv.Polar.{strlen}
use nvm_kv.Posix.{Io, transfer, NoFailure, transfers}
use nvm_kv.Tth.Bucket
use nvm_kv.Tth.Bucket.{Bucket, Location, stored, c_string, record_bytes}
use nvm_kv.Tth.Opening.{Calls}
use nvm_kv.Tth.Routing.{EngineRace}
use nvm_kv.Tth.Entries.{Entries, IsEntry, Serves, replay}
use nvm_kv.Tth.Ending.{Ends, read_index_file-Ends}
use nvm_kv.Tth.Indexing.{read_index_file}
use nvm_kv.Tth.Live
use nvm_kv.Tth.Live.{IsReadable}
use nvm_kv.Tth.Live.Writing.{written}
use nvm_kv.Tth.Log.{entry_of}
use nvm_kv.Tth.Reopening.{AllOk, set_up_with}
use nvm_kv.Tth.Restarts.{
  IsDurable, written-IsDurable, cleared_blank, Survives, open_bucket-written, Overwrites,
  write-Overwrites, Forgets, open_bucket-twice,
}
use nvm_kv.Tth.Saving.{all_bytes}
use nvm_kv.Tth.Closed.{Visits, has_key, Reopens, open_bucket-close_bucket}
use nvm_kv.Tth.Faults.{Misplaces, write-Misplaces}
use nvm_kv.Tth.Store.{IsValid, Writes, write-Writes, Reads, read-Reads}

abbrev key₁ : Bytes
key₁ = b'a' ∷ b'b' ∷ b'c' ∷ []

abbrev value₁ : Bytes
value₁ = b'x' ∷ b'y' ∷ b'z' ∷ b'w' ∷ []

abbrev calls : Calls
calls = record {
  tmp_ok = true;
  saved_ok = true;
  data_ok = true;
  create_tmp_ok = true;
  create_data_ok = true;
  remove_ok = true;
  fallocate_ok = true;
  mmap_ok = true;
}

calls_ok : AllOk calls
calls_ok = record {
  tmp = refl;
  saved = refl;
  data_file = refl;
  create_tmp = refl;
  remove = refl;
  fallocate = refl;
  mmap = refl;
}

abbrev nowhere : Location
nowhere = record { offset = 0; len = 0 }

-- What `Open` makes of an empty directory
abbrev bucket₀ : Bucket
bucket₀ = set_up_with nowhere none [] []

abbrev io : List Io
io = transfer 4095 ∷ transfer 4095 ∷ transfer 4095 ∷ transfer 4095 ∷ transfer 4095 ∷ []

valid₀ : Live.IsValid bucket₀
unfolding find
valid₀ = record {
  unlocked = refl;
  at_end = refl;
  counted = refl;
  locations = λ key loc h. absurd (none-ne-some h);
}
  where
    none-ne-some : {loc : Location} → ◌≡◌ {A = Option Location} none (some loc) → ⊥
    none-ne-some h = cc

durable₀ : IsDurable bucket₀ [] []
unfolding replay
durable₀ = record {
  logged = record {
    log = tt;
    ends = refl;
    blank = λ q lo hi. cleared_blank q hi;
    mapped = refl;
    index_eq = refl;
  };
  saved_as = refl;
  room = omega arith;
}

readable₁ : IsReadable value₁
unfolding c_string strlen
readable₁ = record { fits = omega arith; no_zero = refl }

room₁ : Live.HasRoom bucket₀ key₁ value₁
room₁ = record { mapping = omega arith; counter = omega arith; readable = readable₁ }

entry₁ : IsEntry (entry_of bucket₀ key₁ value₁)
unfolding c_string strlen
entry₁ = record {
  not_empty = omega arith;
  fits = omega arith;
  no_zero = refl;
  offset_fits = omega arith;
  len_fits = omega arith;
}

serves₅ : Serves 5 io
serves₅ = (omega arith, (omega arith, (omega arith, (omega arith, (omega arith, tt)))))

open_bucket-written_example : Survives io io calls nowhere bucket₀ key₁ value₁
open_bucket-written_example =
    open_bucket-written io io calls nowhere bucket₀ [] [] key₁ value₁ valid₀ durable₀ room₁ entry₁
      (omega arith) tt (omega arith) calls_ok serves₅

abbrev bucket₁ : Bucket
bucket₁ = written bucket₀ key₁ value₁

abbrev log₁ : Entries
log₁ = entry_of bucket₀ key₁ value₁ ∷ []

durable₁ : IsDurable bucket₁ [] log₁
durable₁ = written-IsDurable bucket₀ [] [] key₁ value₁ durable₀ entry₁ (omega arith)

write-Overwrites_example : Overwrites io io calls nowhere bucket₁ value₁ key₁
write-Overwrites_example =
    write-Overwrites io io calls nowhere bucket₁ [] log₁ value₁ key₁ durable₁ calls_ok serves₅
      (omega arith) tt (omega arith)

open_bucket-twice_example : Forgets io io calls nowhere bucket₁ []
open_bucket-twice_example =
    open_bucket-twice io io calls nowhere bucket₁ [] log₁ durable₁ calls_ok serves₅
      (omega arith, (omega arith, tt))

visits₁ : Visits log₁ bucket₁.index
unfolding written nvm_kv.OrdMap.insert_or_assign find has_key nvm_kv.Prelude.lex
visits₁ = record { each = (refl, tt); every = λ j h. ground (arith, h) }

abbrev many : ℕ → List Io
many zero = []
many (suc n) = transfer 0 ∷ many n

length-many : (n : ℕ) → length (many n) ≡ n
length-many zero = refl
length-many (suc n) = ap suc (length-many n)

transfers-many : (n : ℕ) → transfers (many n) ≡ n
transfers-many zero = refl
transfers-many (suc n) = ap suc (transfers-many n)

many-NoFailure : (n : ℕ) → NoFailure (many n)
many-NoFailure zero = tt
many-NoFailure (suc n) = many-NoFailure n

saved_size : length (all_bytes log₁) ≡ 23
unfolding all_bytes record_bytes encode_le Bucket.location_bytes
saved_size = refl

open_bucket-close_bucket_example :
    Reopens (many 23) io (record { open_ok = true; remove_ok = true }) calls nowhere log₁ bucket₁
open_bucket-close_bucket_example =
    open_bucket-close_bucket (many 23) io (record { open_ok = true; remove_ok = true }) calls
      nowhere log₁ bucket₁ visits₁ (entry₁, tt) (unfold written in omega arith) refl refl
      (many-NoFailure 23) (omega (arith, saved_size, transfers-many 23)) calls_ok
      (omega arith, (omega arith, (omega arith, (omega arith, tt))))

abbrev entry_file : Bucket.StoredFile
entry_file = stored (record_bytes key₁ nowhere)

entry_file_size : entry_file.size ≡ 23
unfolding record_bytes encode_le Bucket.location_bytes
entry_file_size = refl

read_index_file-Ends_example : Ends (read_index_file 24 (many 70) entry_file 0 [])
read_index_file-Ends_example =
    read_index_file-Ends 24 (many 70) entry_file 0 [] (omega (arith, entry_file_size))
      (omega (arith, entry_file_size, length-many 70))

write-Misplaces_example : Misplaces io bucket₀ key₁ value₁ value₁ key₁
write-Misplaces_example =
    write-Misplaces io bucket₀ key₁ value₁ value₁ key₁ valid₀ (omega arith) (omega arith)
      (omega arith) (omega arith) tt (omega arith)

abbrev engine₀ : EngineRace
engine₀ = record {
  dir_name = [];
  buckets = bucket₀ ∷ bucket₀ ∷ bucket₀ ∷ bucket₀ ∷ bucket₀ ∷ bucket₀ ∷ bucket₀ ∷ bucket₁ ∷ [];
}

valid₁ : Live.IsValid bucket₁
valid₁ = nvm_kv.Tth.Live.Writing.written-IsValid bucket₀ valid₀ key₁ value₁ room₁

all_at :
    (P : Bucket → Type 0) (fs : List Bucket)
    → All P fs
    → (i : ℕ) (g : Bucket) → get_elem? fs i ≡ some g
    → P g
all_at P [] a i g h = absurd (none-ne-some h)
  where
    none-ne-some : ◌≡◌ {A = Option Bucket} none (some g) → ⊥
    none-ne-some h = cc
all_at P (f ∷ fs) (p, a) zero g h = subst P (some-injective _ _ h) p
all_at P (f ∷ fs) (p, a) (suc i) g h = all_at P fs a i g h

engine₀-IsValid : IsValid engine₀
engine₀-IsValid = record {
  eight = refl;
  each =
      all_at Live.IsValid engine₀.buckets
        (valid₀, (valid₀, (valid₀, (valid₀, (valid₀, (valid₀, (valid₀, (valid₁, tt))))))));
}

write-Writes_example : Writes (λ key. length key) io engine₀ key₁ value₁
write-Writes_example =
    write-Writes (λ key. length key) io engine₀ key₁ value₁ engine₀-IsValid
      (λ f h. subst (λ f. Live.HasRoom f key₁ value₁) (some-injective _ _ h) room₁) tt (omega arith)

read-Reads_example : Reads (λ key. length key + 4) io engine₀ key₁ (λ q. 0) []
read-Reads_example =
    read-Reads (λ key. length key + 4) io engine₀ key₁ (λ q. 0) [] engine₀-IsValid (omega arith)
