-- ===== src/Example/Opening.antt =====
-- engine_example/door_plate.cc and engine_example/engine_example.cc: `DoorPlate::Init` and
-- `EngineExample::Open`, which refuses a directory that another process has locked.
pub mod Restart
use nvm_kv.Prelude.{
  ℕ, zero, suc, Option, none, some, List, [], ◌∷◌, Bool, true, false, if◌then◌else◌, Bytes,
}
use nvm_kv.Posix.{Fd, negative, opened, closed}
use nvm_kv.Engine.{RetCode, succ, io_error, Run, ok, ◌>>=◌}
use nvm_kv.Example.DataStore
use nvm_kv.Example.DataStore.{DataFiles, DataStore}
use nvm_kv.Example.DoorPlate.{Item, k_max_key_len}
use nvm_kv.Example.Engine.{EngineExample, no_location}

-- What open(2) of META answers: a descriptor, ENOENT, or another error.
pub data Attempt : Type 0 where
  opens no_entry refused : Attempt

-- The calls of `Init`: the directory is there or is made, META is opened or created, and the rest.
pub record PlateCalls : Type 0 where
  pub dir_ok : Bool
  pub open_meta : Attempt
  pub create_ok : Bool
  pub fallocate_ok : Bool
  pub mmap_ok : Bool

unfoldable pub zero_bytes : ℕ → Bytes
zero_bytes zero = []
zero_bytes (suc n) = 0 ∷ zero_bytes n

-- An item of a region that memset has cleared
unfoldable pub zero_item : Item
unfolding zero_bytes
zero_item = record {
  location = no_location;
  key = zero_bytes k_max_key_len;
  key_size = 0;
  in_use = 0;
}

unfoldable pub cleared : ℕ → List Item
unfolding zero_item
cleared zero = []
cleared (suc n) = zero_item ∷ cleared n

-- What `Init` answers and leaves: the mapped items and `fd_`, which the constructor sets to -1.
pub record Plate : Type 0 where
  pub ret : RetCode
  pub items : List Item
  pub fd : Fd

-- The table before `fd_` is set
unfoldable pub no_plate : Plate
no_plate = record { ret = io_error; items = []; fd = negative }

-- The mapping, of the items that stood in META or of cleared ones. Where mmap fails, the descriptor
-- is closed but stays in `fd_`.
unfoldable pub map_meta : Bool → List Item → Plate
map_meta mmap_ok items =
    if mmap_ok
    then record { ret = succ; items = items; fd = opened }
    else record { ret = io_error; items = []; fd = closed }

-- The branches of `Init` by what opening META answered
unfoldable pub open_or_create : PlateCalls → ℕ → List Item → Plate
unfolding map_meta cleared no_plate
open_or_create calls count stored = elim calls.open_meta [
  | opens ↦ map_meta calls.mmap_ok stored
  | no_entry ↦
      if calls.create_ok
      then (if calls.fallocate_ok then map_meta calls.mmap_ok (cleared count) else no_plate)
      else no_plate
  | refused ↦ no_plate
]

-- DoorPlate::Init for a table of `count` items
unfoldable pub init : PlateCalls → ℕ → List Item → Plate
unfolding open_or_create no_plate
init calls count stored = if calls.dir_ok then open_or_create calls count stored else no_plate

-- DoorPlate::~DoorPlate, with the test `fd_ > 0`: whether it closes a descriptor that is closed
-- already, and unmaps a table that was never mapped.
unfoldable pub closes_again : Fd → Bool
closes_again negative = false
closes_again opened = false
closes_again closed = true

-- What `EngineExample::Open` answers: the code, `*eptr`, and whether the destructor of the table has
-- closed a closed descriptor
pub record Outcome : Type 0 where
  pub ret : RetCode
  pub engine : Option EngineExample
  pub closed_again : Bool

-- `delete engine_example` before an error is answered
abbrev deleted : RetCode → Fd → Outcome
deleted ret fd = record { ret = ret; engine = none; closed_again = closes_again fd }

-- The answer of `DataStore::Init`, then of `LockFile`
abbrev engine_of : Bool → Plate → RetCode × DataStore → Outcome
engine_of lock_ok plate (succ, s) =
    if lock_ok
    then record {
      ret = succ;
      engine = some (record { locked = false; plate = plate.items; store = s });
      closed_again = false;
    }
    else deleted io_error plate.fd
engine_of lock_ok plate (ret, s) = deleted ret plate.fd

-- The rest of `Open` after the table was set up: the data files, then the lock of the directory
abbrev open_store : RetCode → Bool → Run (RetCode × DataStore) → Plate → Run Outcome
open_store succ lock_ok store_init plate = do s ← store_init; ok (engine_of lock_ok plate s)
open_store ret lock_ok store_init plate = ok (deleted ret plate.fd)

-- EngineExample::Open; `names` and `files` are the directory that `DataStore::Init` lists, and
-- `lock_ok` the answer of `LockFile`.
unfoldable pub open_engine :
    PlateCalls → ℕ → List Item → Bool → Bool → Bool → List Bytes → DataFiles → Bool → Run Outcome
open_engine calls count stored dir_ok list_ok can_open names files lock_ok =
    let plate = init calls count stored in
    open_store plate.ret lock_ok (DataStore.init dir_ok list_ok can_open names files) plate
