-- ===== src/Race/Store.antt =====
-- engine_race as a key-value store: the buckets together are one map from keys to values.
pub mod Operations
use nvm_kv.Prelude.{
  ℕ, ◌+◌, ◌/◌, ◌≤◌, ◌<◌, ◌≡◌, Option, none, some, get_elem?, get_or, length, Bytes,
}
use nvm_kv.Race.Bucket.{Bucket}
use nvm_kv.Race.Live
use nvm_kv.Race.Routing.{EngineRace, num_per_bucket}

-- The first byte of a string, or the zero byte that stands behind an empty one.
abbrev pub first : Bytes → ℕ
first key = get_or key 0 0

-- The number of the bucket of a key, of `n` buckets.
abbrev pub home : ℕ → Bytes → ℕ
home n key = first key / num_per_bucket n

abbrev pub view_in : Option Bucket → Bytes → Option Bytes
view_in none key = none
view_in (some f) key = Live.view f key

unfoldable pub view : EngineRace → Bytes → Option Bytes
view e key = view_in (get_elem? e.buckets (home (length e.buckets) key)) key

pub record IsValid (e : EngineRace) : Type 0 where
  pub several : 2 ≤ length e.buckets
  pub each : (i : ℕ) (f : Bucket) → get_elem? e.buckets i ≡ some f → Live.IsValid f

-- The bucket of the key has room for the pair.
pub record HasRoom (e : EngineRace) (key value : Bytes) : Type 0 where
  pub room :
      (f : Bucket)
      → get_elem? e.buckets (home (length e.buckets) key) ≡ some f
      → Live.HasRoom f key value
