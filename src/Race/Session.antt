-- ===== src/Race/Session.antt =====
-- A session of engine_race: many calls of `Write`, and what `Open` finds when the process has ended.
pub mod Writing
pub mod Restarting
pub mod Creating
pub mod Outcome
use nvm_kv.Prelude.{
  ℕ, ◌+◌, ◌*◌, ◌^◌, ◌≤◌, ◌<◌, ◌≡◌, Option, none, some, List, [], ◌∷◌, if◌then◌else◌, length,
  get_elem?, Bytes, same,
}
use nvm_kv.Polar.{of_string}
use nvm_kv.Posix.{Io}
use nvm_kv.Engine.{Run, ok, ◌>>=◌}
use nvm_kv.Race.Bucket.{Bucket, location_sz, write_buf_size}
use nvm_kv.Race.Reading.{read_buf_size}
use nvm_kv.Race.Routing.{EngineRace, write}
use nvm_kv.Race.Live
use nvm_kv.Race.Store.{first}
use nvm_kv.Race.Log.{Log, IsLogged}

-- The pairs that are written, the first one first.
abbrev pub Pairs : Type 0
Pairs = List (Bytes × Bytes)

-- The calls of `Write` one after the other; what each answers is in the theorems about them.
unfoldable pub write_all : List Io → EngineRace → Pairs → Run (EngineRace × List Io)
write_all io e [] = ok (e, io)
write_all io e ((key, value) ∷ pairs) = do
  (ret, e', io') ← write io e (of_string key) (of_string value)
  write_all io' e' pairs

-- The value of a key after the pairs, by its value before them: the last pair of the key counts.
abbrev pub after : Pairs → Bytes → Option Bytes → Option Bytes
after [] j before = before
after ((key, value) ∷ pairs) j before = after pairs j (if same j key then some value else before)

-- A pair that the buffers of `Write` and `Read` can hold, with a key that is not empty.
pub record Fits (key value : Bytes) : Type 0 where
  pub nonempty : 0 < length key
  pub byte : first key < 256
  pub buffer : 4 + length key + location_sz ≤ write_buf_size
  pub readable : length value ≤ read_buf_size

abbrev pub AllFit : Pairs → Type 0
AllFit [] = Unit
AllFit ((key, value) ∷ pairs) = Fits key value × AllFit pairs

-- How many bytes the values have.
abbrev pub volume : Pairs → ℕ
volume [] = 0
volume ((key, value) ∷ pairs) = length value + volume pairs

-- A bucket that can take `n` more pairs, with the log of what it holds.
pub record Takes (n : ℕ) (f : Bucket) : Type 0 where
  pub valid : Live.IsValid f
  pub log : Log
  pub logged : IsLogged log f
  pub index : f.key_mmap_cur + n * write_buf_size + 4 ≤ f.mapped
  pub counter : length f.data_file + n * read_buf_size < 2 ^ 32

pub record IsReady (n : ℕ) (e : EngineRace) : Type 0 where
  pub several : 2 ≤ length e.buckets
  pub each : (i : ℕ) (f : Bucket) → get_elem? e.buckets i ≡ some f → Takes n f
