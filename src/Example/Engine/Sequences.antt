-- ===== src/Example/Engine/Sequences.antt =====
-- `EngineExample::Read` after `EngineExample::Write`.
use nvm_kv.Prelude.{
  ◌+◌, ◌^◌, ◌≤◌, ◌<◌, ◌≡◌, refl, arith, List, [], length, true, false, Bytes, inl, inr, ◌⊎◌,
}
use nvm_kv.Polar.{PolarString, to_string}
use nvm_kv.Posix.{Io, NoFailure, transfers}
use nvm_kv.Engine.{RetCode, succ, full, ok}
use nvm_kv.Example.DataStore.{k_single_file_size}
use nvm_kv.Example.DataStore.Appending
use nvm_kv.Example.DataStore.Appending.{append-Keeps}
use nvm_kv.Example.DataStore.Reading.{read-slice}
use nvm_kv.Example.DoorPlate.{k_max_key_len}
use nvm_kv.Example.DoorPlate.Placing.{add_or_update-find}
use nvm_kv.Example.Engine.{EngineExample, no_location, mutex_lock, enter, write, fetch, read}

mutex_lock_free :
    (e : EngineExample) → e.locked ≡ false → mutex_lock e ≡ ok (record e { locked = true })
unfolding mutex_lock
mutex_lock_free e h = rw h

-- `Write` answers `succ` and `Read` then gives the value, or it answers `full`.
abbrev pub Answers : List Io → List Io → EngineExample → PolarString → PolarString → Bytes → Type 0
Answers io₁ io₂ e key value before =
    (ret : RetCode) × (e' : EngineExample) × (io : List Io) × (write io₁ true e key value
      ≡ ok (ret, e', io))
    × Appending.IsValid e'.store
    × (((ret ≡ succ)
          × (rest : List Io) × (read io₂ true e' key before ≡ ok (succ, to_string value, e', rest)))
        ⊎ (ret ≡ full))

-- `Write` of engine_example answers `succ`, and `Read` of the same key then answers `succ` and
-- the value and leaves the engine as it is; or `Write` answers `full`. In both cases the data
-- store is well formed afterwards. The lock is free before, the table is not empty, the data
-- store is well formed with a file number at least 2 below its limit, the key has at most 32
-- bytes and the value at most 100 MB, files can be opened, no call of write(2) or read(2) fails,
-- and of each kind as many move bytes as the value has.
pub read-write :
    (io₁ io₂ : List Io) (e : EngineExample) (key value : PolarString) (before : Bytes)
    → e.locked ≡ false
    → Appending.IsValid e.store
    → e.store.next_location.file_no + 2 < 2 ^ 32
    → 0 < length e.plate
    → length (to_string key) ≤ k_max_key_len
    → length (to_string value) ≤ k_single_file_size
    → NoFailure io₁
    → NoFailure io₂
    → length (to_string value) ≤ transfers io₁
    → length (to_string value) ≤ transfers io₂
    → Answers io₁ io₂ e key value before
unfolding write read enter fetch
read-write io₁ io₂ e key value before free valid number pos small fits good₁ good₂ enough₁ enough₂ =
    let (a, run, keeps) =
      append-Keeps io₁ e.store (to_string value) no_location valid number fits good₁ enough₁ in
    let (ret, plate, placed, _, outcome) =
      add_or_update-find e.plate (to_string key) a.location pos small in
    let e' : EngineExample = record { locked = false; plate = plate; store = a.store } in
    let (rest, got) =
      read-slice io₂ a.store a.location [] keeps.stored good₂ (omega (arith, keeps.len)) in
    (
      ret,
      e',
      a.io,
      rw (mutex_lock_free e free, run, keeps.ret, placed),
      keeps.valid,
      elim outcome [
        | inl (done, finds) ↦
            inl (done, rest, rw (mutex_lock_free e' refl, finds no_location, got, keeps.holds))
        | inr (over, _, _) ↦ inr over
      ],
    )
