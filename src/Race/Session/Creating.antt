-- ===== src/Race/Session/Creating.antt =====
-- `Open` on a directory that holds no files: the buckets are empty.
use nvm_kv.Prelude.{
  ℕ, zero, suc, ◌+◌, ◌*◌, ◌^◌, ◌≤◌, ◌<◌, ◌≡◌, refl, ap, arith, List, [], ◌∷◌, Option, none, some,
  true, false, ltb, if◌then◌else◌, length, get_elem?, Bytes, Option-cases, inl, inr,
  map as list_map,
}
use mathlib.Core.Option.{some-injective}
use mathlib.Core.Path.{subst}
use nvm_kv.OrdMap.{find}
use nvm_kv.Posix.{opened}
use nvm_kv.Engine.{succ, ok}
use nvm_kv.Race.Bucket.{Bucket, write_buf_size, key_file_size}
use nvm_kv.Race.Reading.{read_buf_size}
use nvm_kv.Race.Opening.{Files, Calls, open_bucket, create_files, files_of}
use nvm_kv.Race.Live
use nvm_kv.Race.Routing.{EngineRace, open_buckets, open_engine}
use nvm_kv.Race.Store.{home, view}
use nvm_kv.Race.Session.{Takes, IsReady}
use nvm_kv.Race.Session.Restarting.{called}

-- The calls that create the files of a bucket succeed.
pub record Creates (calls : Calls) : Type 0 where
  pub index_number : ℕ
  pub create_fd : calls.create_fd ≡ some index_number
  pub data_number : ℕ
  pub data_file_fd : calls.data_file_fd ≡ some data_number
  pub fallocate_ok : calls.fallocate_ok ≡ true
  pub mmap_ok : calls.mmap_ok ≡ true

abbrev pub no_files : Files
no_files = record { index = none; data_file = none }

-- A directory without the files of `n` buckets.
abbrev pub empty_dir : ℕ → List Files
empty_dir zero = []
empty_dir (suc n) = no_files ∷ empty_dir n

abbrev pub new_bucket : Bucket
new_bucket = record {
  map = [];
  key_fd = opened;
  data_fd = opened;
  data_offset = 0;
  key_mmap = λ q. if ltb q key_file_size then 0 else 0;
  key_mmap_cur = 0;
  mapped = key_file_size;
  data_file = [];
  position = 0;
  locked = false;
}

abbrev pub new_buckets : ℕ → List Bucket
new_buckets zero = []
new_buckets (suc n) = new_bucket ∷ new_buckets n

open_bucket-empty :
    (calls : Calls)
    → Creates calls
    → open_bucket calls no_files
      ≡ ok (record { ret = succ; bucket = some new_bucket; files = files_of new_bucket })
unfolding open_bucket create_files files_of
open_bucket-empty calls c = rw (c.create_fd, c.data_file_fd, c.fallocate_ok, c.mmap_ok)

open_buckets-empty :
    (calls : ℕ → Calls) (n i : ℕ)
    → ((j : ℕ) → Creates (calls j))
    → open_buckets (called calls i (empty_dir n))
      ≡ ok (succ, new_buckets n, list_map files_of (new_buckets n))
unfolding open_buckets
open_buckets-empty calls zero i c = refl
open_buckets-empty calls (suc n) i c =
    rw (open_bucket-empty (calls i) (c i), open_buckets-empty calls n (i + 1) c)

abbrev pub new_engine : Bytes → ℕ → EngineRace
new_engine name n = record { dir_name = name; buckets = new_buckets n }

pub open_engine-empty :
    (calls : ℕ → Calls) (n : ℕ) (name : Bytes)
    → ((j : ℕ) → Creates (calls j))
    → open_engine true name (called calls 0 (empty_dir n))
      ≡ ok (succ, some (new_engine name n), list_map files_of (new_buckets n))
unfolding open_engine
open_engine-empty calls n name c = rw (open_buckets-empty calls n 0 c)

not_found : (key : Bytes) (p : ℕ) → ◌≡◌ {A = Option ℕ} (find key []) (some p) → ⊥
unfolding find
not_found key p h = cc

new_bucket-Takes :
    (n : ℕ)
    → n * write_buf_size + 4 ≤ key_file_size
    → n * read_buf_size < 2 ^ 32
    → Takes n new_bucket
new_bucket-Takes n index counter = record {
  valid = record {
    unlocked = refl;
    is_open = refl;
    fits = omega arith;
    counted = refl;
    below_4g = omega arith;
    pointers = λ key p h. absurd (not_found key p h);
  };
  log = [];
  logged = record {
    records = refl;
    clean = λ q h. ground arith;
    map = refl;
    bounded = omega arith;
  };
  index = omega (arith, index);
  counter = omega (arith, counter);
}

length-new_buckets : (n : ℕ) → length (new_buckets n) ≡ n
length-new_buckets zero = refl
length-new_buckets (suc n) = ap suc (length-new_buckets n)

get_elem?-new_buckets :
    (n i : ℕ) (f : Bucket) → get_elem? (new_buckets n) i ≡ some f → new_bucket ≡ f
get_elem?-new_buckets zero i f h = cc
get_elem?-new_buckets (suc n) zero f h = some-injective _ _ h
get_elem?-new_buckets (suc n) (suc i) f h = get_elem?-new_buckets n i f h

pub new_engine-IsReady :
    (n count : ℕ) (name : Bytes)
    → 2 ≤ count
    → n * write_buf_size + 4 ≤ key_file_size
    → n * read_buf_size < 2 ^ 32
    → IsReady n (new_engine name count)
new_engine-IsReady n count name several index counter = record {
  several = omega (arith, length-new_buckets count);
  each = λ i f h.
      subst (Takes n) (get_elem?-new_buckets count i f h) (new_bucket-Takes n index counter);
}

-- No key has a value.
pub view-new_engine : (count : ℕ) (name key : Bytes) → view (new_engine name count) key ≡ none
unfolding view
view-new_engine count name key =
    let i : ℕ = home (length (new_buckets count)) key in
    elim (Option-cases (get_elem? (new_buckets count) (home (length (new_buckets count)) key))) [
      | inl out ↦ rw out
      | inr (f, there) ↦ rw (there, ← get_elem?-new_buckets count i f there) (empty_view key)
    ]
  where
    empty_view : (key : Bytes) → Live.view new_bucket key ≡ none
    empty_view key = unfold Live.view find in refl
