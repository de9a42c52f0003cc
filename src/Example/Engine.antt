-- ===== src/Example/Engine.antt =====
-- engine_example/engine_example.cc: the table and the data files together, under one lock.
pub mod Sequences
use nvm_kv.Prelude.{List, [], ◌∷◌, Bool, true, false, if◌then◌else◌, Bytes}
use nvm_kv.Polar.{PolarString, to_string}
use nvm_kv.OrdMap.{OrdMap}
use nvm_kv.Posix.{Io}
use nvm_kv.Engine.{RetCode, succ, Run, ok, fault, ◌>>=◌, deadlock}
use nvm_kv.Example.DataStore
use nvm_kv.Example.DataStore.{DataStore, Location}
use nvm_kv.Example.DoorPlate.{Item, add_or_update, find_location, get_range_location}

pub record EngineExample : Type 0 where
  pub locked : Bool
  pub plate : List Item
  pub store : DataStore

-- Location()
abbrev pub no_location : Location
no_location = record { file_no = 0; offset = 0; len = 0 }

unfoldable pub mutex_lock : EngineExample → Run EngineExample
mutex_lock e = if e.locked then fault deadlock else ok (record e { locked = true })

-- After the append: the key is entered if it succeeded.
unfoldable pub enter : RetCode → List Item → Bytes → Location → Run (RetCode × List Item)
enter succ plate key l = add_or_update plate key l
enter ret plate key l = ok (ret, plate)

-- EngineExample::Write
unfoldable pub write :
    List Io
    → Bool
    → EngineExample
    → PolarString
    → PolarString
    → Run (RetCode × EngineExample × List Io)
write io can_open e key value = do
  e₁ ← mutex_lock e
  a ← DataStore.append io can_open e₁.store (to_string value) no_location
  (ret, plate) ← enter a.ret e₁.plate (to_string key) a.location
  ok (ret, record { locked = false; plate = plate; store = a.store }, a.io)

-- After the key is looked up: `value` is cleared and read if it was found.
unfoldable pub fetch :
    List Io → Bool → DataStore → RetCode → Location → Bytes → Run (RetCode × Bytes × List Io)
fetch io can_open s succ l value = DataStore.read io can_open s l []
fetch io can_open s ret l value = ok (ret, value, io)

-- EngineExample::Read
unfoldable pub read :
    List Io
    → Bool
    → EngineExample
    → PolarString
    → Bytes
    → Run (RetCode × Bytes × EngineExample × List Io)
read io can_open e key value = do
  e₁ ← mutex_lock e
  (ret, l) ← find_location e₁.plate (to_string key) no_location
  (ret', value', io') ← fetch io can_open e₁.store ret l value
  ok (ret', value', record e₁ { locked = false }, io')

abbrev pub Visits : Type 0
Visits = List (Bytes × Bytes)

-- The loop of `Range` over the locations: it stops at the first value that cannot be read.
unfoldable pub visit_locations :
    List Io
    → Bool
    → DataStore
    → OrdMap Location
    → Bytes
    → RetCode
    → Run (RetCode × Visits × List Io)
visit_locations io can_open s [] value ret = ok (ret, [], io)
visit_locations io can_open s (entry ∷ entries) value ret =
    DataStore.read io can_open s entry.1 value >>= (λ (r : RetCode × Bytes × List Io).
      let rest =
        visit_locations r.2 can_open s entries r.1 succ
        >>= (λ (v : RetCode × Visits × List Io). ok (v.0, (entry.0, r.1) ∷ v.1, v.2)) in
      elim r.0 [ succ ↦ rest | other ↦ ok (other, [], r.2) ])

abbrev range_found :
    List Io → Bool → DataStore → RetCode × OrdMap Location → Run (RetCode × Visits × List Io)
range_found io can_open s (succ, locations) = visit_locations io can_open s locations [] succ
range_found io can_open s (ret, locations) = ok (ret, [], io)

-- EngineExample::Range
unfoldable pub range :
    List Io
    → Bool
    → EngineExample
    → PolarString
    → PolarString
    → Run (RetCode × Visits × EngineExample × List Io)
range io can_open e lower upper = do
  e₁ ← mutex_lock e
  (ret, visits, io') ←
      range_found io can_open e₁.store
        (get_range_location e₁.plate (to_string lower) (to_string upper) [])
  ok (ret, visits, record e₁ { locked = false }, io')
