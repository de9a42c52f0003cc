-- ===== src/Race/Log.antt =====
-- The index file as the history of the writes to its bucket: a log of keys and locations.
pub mod Parsing
pub mod Appending
pub mod Reopening
pub mod Crashing
pub mod Stages
pub mod Dying
use nvm_kv.Prelude.{ℕ, ◌+◌, ◌≤◌, ◌<◌, ◌≡◌, List, [], ◌∷◌, length, Bytes, Memory, load, decode_le}
use nvm_kv.OrdMap.{OrdMap, insert_or_assign}
use nvm_kv.Race.Bucket.{Bucket, Location, load_location, location_sz, key_file_size}

abbrev pub Log : Type 0
Log = List (Bytes × Location)

-- From `p` on the region holds the records of the log, one after the other, up to `e`.
abbrev pub Records : Memory → ℕ → Log → ℕ → Type 0
Records m p [] e = p ≡ e
Records m p ((key, loc) ∷ log) e =
    (0 < length key)
    × (decode_le (load m p 4) ≡ length key)
    × (load m (p + 4) (length key) ≡ key)
    × (load_location m (p + 4 + length key) ≡ loc)
    × Records m (p + 4 + length key + location_sz) log e

-- The map after the records from `p` on are entered.
abbrev pub entered : ℕ → Log → OrdMap ℕ → OrdMap ℕ
entered p [] map = map
entered p ((key, loc) ∷ log) map =
    entered (p + 4 + length key + location_sz) log (insert_or_assign key (p + 4 + length key) map)

-- The index file of the bucket holds the log and zeros behind it, and the map is that of the log.
pub record IsLogged (log : Log) (f : Bucket) : Type 0 where
  pub records : Records f.key_mmap 0 log f.key_mmap_cur
  pub clean : (q : ℕ) → f.key_mmap_cur ≤ q → f.key_mmap q ≡ 0
  pub map : f.map ≡ entered 0 log []
  pub bounded : f.mapped ≤ key_file_size
