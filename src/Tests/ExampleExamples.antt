-- ===== src/Tests/ExampleExamples.antt =====
-- The theorems about engine_example at an empty data store and at a table of two items.
use nvm_kv.Prelude.{
  ℕ, zero, suc, ◌%◌, ◌<◌, ◌≡◌, refl, arith, List, [], ◌∷◌, true, length, Option, none, some, Bytes,
}
use nvm_kv.Posix.{Io, transfer, eintr, opened}
use nvm_kv.Engine.{ok}
use nvm_kv.Example.Util.{str_hash}
use nvm_kv.Example.DataStore.{DataStore, Location, DataFiles, Stored, append}
use nvm_kv.Example.DataStore.Appending
use nvm_kv.Example.DataStore.Appending.{Keeps, append-Keeps}
use nvm_kv.Example.DataStore.Reading.{ReadsBack, read-append}
use nvm_kv.Example.DoorPlate.{Item, calc_index}
use nvm_kv.Example.DoorPlate.Probing.{Probed, calc_index-Probed}
use nvm_kv.Prelude.{false, get_elem?, ap, sym, ◌∙◌, ◌==◌, Bool}
use mathlib.Core.Option.{some-injective}
use nvm_kv.Example.DoorPlate.Stopping.{IsSettled}
use nvm_kv.Example.Directory.{get_dir_files}
use nvm_kv.Prelude.{◌≢◌, lex}
use nvm_kv.Example.DoorPlate.Others.{KeepsOthers, add_or_update-KeepsOthers}
use nvm_kv.Polar.{of_string, to_string}
use nvm_kv.Engine.{succ, io_error}
use nvm_kv.Example.DoorPlate.{find_location}
use nvm_kv.Example.DoorPlate.Placing.{PlaceOutcome, add_or_update-find, find_location_empty}
use nvm_kv.Example.Engine.{EngineExample}
use nvm_kv.Example.Engine.Sequences.{Answers, read-write}
use nvm_kv.Example.DataStore.{last_file_no}
use nvm_kv.Example.Engine.{no_location}
use nvm_kv.Example.Opening.{PlateCalls, opens, open_engine}
use nvm_kv.Example.Opening.Restart.{Survives, read-open_engine}

abbrev abc : Bytes
abc = b'a' ∷ b'b' ∷ b'c' ∷ []

abbrev slow : List Io
slow = transfer 0 ∷ eintr ∷ transfer 0 ∷ transfer 7 ∷ []

abbrev one_file : DataFiles
one_file zero = some []
one_file (suc n) = none

abbrev start : Location
start = record { file_no = 0; offset = 0; len = 0 }

abbrev store : DataStore
store = record { fd = opened; fd_no = 0; next_location = start; files = one_file }

no_other_file : (n : ℕ) → 0 < n → one_file n ≡ none
no_other_file zero h = elim h [ ]
no_other_file (suc n) h = refl

store-IsValid : Appending.IsValid store
store-IsValid = record {
  is_open = refl;
  current = refl;
  counted = refl;
  within = omega arith;
  last = no_other_file;
  numbered = omega arith;
}

append-Keeps_example : (a : Stored) × (append slow true store abc start ≡ ok a) × Keeps store abc a
append-Keeps_example =
    append-Keeps slow store abc start store-IsValid (omega arith) (omega arith) tt (omega arith)

read-append_example : ReadsBack slow slow slow store abc (b'd' ∷ []) [] start
read-append_example =
    read-append slow slow slow store abc (b'd' ∷ []) [] start store-IsValid (omega arith)
      (omega arith) (omega arith) tt tt tt (omega arith) (omega arith) (omega arith)

abbrev items : List Item
items =
    record { location = start; key = abc; key_size = 3; in_use = 1 }
    ∷ record { location = start; key = []; key_size = 0; in_use = 0 }
    ∷ []

calc_index-Probed_example :
    (o : Option ℕ) × (calc_index items (b'x' ∷ abc) ≡ ok o)
    × Probed items (b'x' ∷ abc) (str_hash (b'x' ∷ abc) % length items) (length items) o
calc_index-Probed_example = calc_index-Probed items (b'x' ∷ abc) (omega arith)

add_or_update-find_example : PlaceOutcome items (b'x' ∷ abc) start
add_or_update-find_example = add_or_update-find items (b'x' ∷ abc) start (omega arith) (omega arith)

abbrev free_item : Item
free_item = record { location = start; key = []; key_size = 0; in_use = 0 }

slot_of_empty : get_elem? items (str_hash [] % length items) ≡ some free_item
unfolding str_hash
slot_of_empty = refl

find_location_empty_example : find_location items [] start ≡ ok (succ, start)
find_location_empty_example = find_location_empty items free_item start slot_of_empty refl refl

abbrev engine : EngineExample
engine = record { locked = false; plate = items; store = store }

read-write_example : Answers slow slow engine (of_string abc) (of_string abc) []
unfolding of_string to_string
read-write_example =
    read-write slow slow engine (of_string abc) (of_string abc) [] refl store-IsValid (omega arith)
      (omega arith) (omega arith) (omega arith) tt tt (omega arith) (omega arith)

abbrev at_start : Location
at_start = record { file_no = 0; offset = 0; len = 3 }

-- An engine that stored the value "abc" under the key "abc".
abbrev stored_engine : EngineExample
stored_engine = record {
  locked = false;
  plate = record { location = at_start; key = abc; key_size = 3; in_use = 1 } ∷ [];
  store = record { fd = opened; fd_no = 0; next_location = at_start; files = λ n. some abc };
}

abbrev plate_calls : PlateCalls
plate_calls = record {
  dir_ok = true;
  open_meta = opens;
  create_ok = true;
  fallocate_ok = true;
  mmap_ok = true;
}

no_name : last_file_no [] 0 ≡ ok 0
unfolding last_file_no
no_name = refl

abc_found :
    find_location stored_engine.plate (to_string (of_string abc)) no_location ≡ ok (succ, at_start)
unfolding of_string to_string find_location calc_index nvm_kv.Example.DoorPlate.probe
    nvm_kv.Example.DoorPlate.item_at str_hash nvm_kv.Example.DoorPlate.item_try_place
    nvm_kv.Polar.memcmp
abc_found = refl

read-open_engine_example : Survives plate_calls 1 [] slow stored_engine (of_string abc) at_start []
read-open_engine_example =
    read-open_engine plate_calls 1 0 [] slow stored_engine (of_string abc) at_start abc []
      (record { dir_ok = refl; open_meta = refl; mmap_ok = refl }) no_name refl abc_found
      (record { file = abc; there = refl; inside = omega arith }) tt (omega arith)

abbrev cleared_items : List Item
cleared_items = free_item ∷ free_item ∷ free_item ∷ []

cleared_at : (i : ℕ) (item : Item) → get_elem? cleared_items i ≡ some item → free_item ≡ item
cleared_at zero item h = some-injective _ _ h
cleared_at (suc zero) item h = some-injective _ _ h
cleared_at (suc (suc zero)) item h = some-injective _ _ h
cleared_at (suc (suc (suc i))) item h = absurd (none-ne-some h)
  where
    none-ne-some : ◌≡◌ {A = Option Item} none (some item) → ⊥
    none-ne-some h = cc

cleared-IsSettled : IsSettled cleared_items
cleared-IsSettled = record {
  clean = λ i item e free. ap (λ x. x.key_size) (sym (cleared_at i item e));
  paths = λ i item key e matches used.
      absurd (true-ne-false (ap (λ x. x.in_use == 0) (cleared_at i item e) ∙ used));
}
  where
    true-ne-false : ◌≡◌ {A = Bool} true false → ⊥
    true-ne-false h = cc

other_key : abc ≢ b'x' ∷ abc
other_key h = cc

add_or_update-KeepsOthers_example : KeepsOthers cleared_items abc start (b'x' ∷ abc) start
add_or_update-KeepsOthers_example =
    add_or_update-KeepsOthers cleared_items abc start (b'x' ∷ abc) start (omega arith) (omega arith)
      cleared-IsSettled other_key (omega arith)

listing : get_dir_files (some ((b'.' ∷ []) ∷ abc ∷ (b'.' ∷ b'.' ∷ []) ∷ [])) 0 ≡ (0, abc ∷ [])
unfolding get_dir_files nvm_kv.Example.Directory.list_entries lex
listing = refl

-- A failed mmap of META: `Open` answers an error, and the destructor closes the descriptor again.
failed_mmap :
    open_engine
      (record plate_calls { mmap_ok = false })
      1
      stored_engine.plate
      true
      true
      true
      []
      one_file
      true
    ≡ ok (record { ret = io_error; engine = none; closed_again = true })
unfolding open_engine nvm_kv.Example.Opening.init nvm_kv.Example.Opening.open_or_create
    nvm_kv.Example.Opening.map_meta nvm_kv.Example.Opening.closes_again
failed_mmap = refl
