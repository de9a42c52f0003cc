-- ===== src/Example/DoorPlate.antt =====
-- engine_example/door_plate.cc: the hash table of the keys, which deals with a conflict by trying
-- the next item. `kMaxDoorCnt` is the length of the list of items.
pub mod Probing
pub mod Placing
pub mod Matching
pub mod Stopping
pub mod Others
use nvm_kv.Prelude.{
  ℕ, zero, suc, ◌+◌, ◌-◌, ◌*◌, ◌%◌, ◌^◌, Option, none, some, List, [], ◌∷◌, ◌++◌, Bool, true, false,
  not, ◌&&◌, ◌||◌, leb, ltb, ◌==◌, if◌then◌else◌, length, get_elem?, set, take, drop, before,
  is_equal, Bytes,
}
use nvm_kv.Polar.{memcmp}
use nvm_kv.OrdMap.{OrdMap, find, insert_or_assign}
use nvm_kv.Engine.{
  RetCode, succ, not_found, invalid_argument, io_error, full, out_of_memory, Run, ok, fault, stuck,
  ◌>>=◌, ◌>>◌, guard, outside_array,
}
use nvm_kv.Example.DataStore.{Location}
use nvm_kv.Example.Util.{str_hash}

abbrev pub k_max_key_len : ℕ
k_max_key_len = 32

pub record Item : Type 0 where
  pub location : Location
  pub key : Bytes
  pub key_size : ℕ
  pub in_use : ℕ

unfoldable pub item_key_match : Item → Bytes → Bool
item_key_match item target =
    length target == item.key_size && is_equal (memcmp item.key target item.key_size)

unfoldable pub item_try_place : Item → Bytes → Bool
unfolding item_key_match
item_try_place item target = if item.in_use == 0 then true else item_key_match item target

unfoldable pub item_at : List Item → ℕ → Run Item
item_at items i = elim (get_elem? items i) [ none ↦ fault outside_array | some item ↦ ok item ]

-- The loop of `CalcIndex`: the index, or `none` for -1 when `jcnt` has reached the number of items
unfoldable pub probe : ℕ → List Item → Bytes → ℕ → ℕ → Run (Option ℕ)
probe zero items key jcnt index = stuck
probe (suc fuel) items key jcnt index =
    let next = probe fuel items key (jcnt + 1) ((index + 1) % length items) in
    item_at items index >>= (λ item.
      if item_try_place item key
      then ok (some index)
      else (if ltb (jcnt + 1) (length items) then next else ok none))

-- DoorPlate::CalcIndex; `jcnt` counts up to the number of items, so as many rounds are enough.
unfoldable pub calc_index : List Item → Bytes → Run (Option ℕ)
calc_index items key = probe (length items) items key 0 (str_hash key % length items)

-- memcpy(iptr->key, key.data(), key.size())
unfoldable pub copy_key : Bytes → Bytes → Bytes
copy_key old key = key ++ drop (length key) old

-- The item after it is placed, if it was free, and its location is written
unfoldable pub place : Item → Bytes → Location → Item
place item key l =
    if item.in_use == 0
    then record { location = l; key = copy_key item.key key; key_size = length key; in_use = 1 }
    else record item { location = l }

abbrev pub place_at : List Item → Bytes → Location → Option ℕ → Run (RetCode × List Item)
place_at items key l none = ok (full, items)
place_at items key l (some index) = do
  item ← item_at items index
  ok (succ, set items index (place item key l))

-- DoorPlate::AddOrUpdate
unfoldable pub add_or_update : List Item → Bytes → Location → Run (RetCode × List Item)
unfolding place
add_or_update items key l =
    if ltb k_max_key_len (length key)
    then ok (invalid_argument, items)
    else calc_index items key >>= place_at items key l

abbrev pub find_at : List Item → Bytes → Location → Option ℕ → Run (RetCode × Location)
find_at items key location none = ok (not_found, location)
find_at items key location (some index) = do
  item ← item_at items index
  if item_key_match item key then ok (succ, item.location) else ok (not_found, location)

-- DoorPlate::Find, with the location behind the pointer before and after
unfoldable pub find_location : List Item → Bytes → Location → Run (RetCode × Location)
find_location items key location = calc_index items key >>= find_at items key location

-- std::map::insert, which leaves an entry that is there
unfoldable pub map_insert : Bytes → Location → OrdMap Location → OrdMap Location
map_insert key l m = elim (find key m) [ none ↦ insert_or_assign key l m | some old ↦ m ]

-- (key >= lower || lower.empty()) && (key < upper || upper.empty())
unfoldable pub in_range : Bytes → Bytes → Bytes → Bool
in_range lower upper key =
    (not (before key lower) || length lower == 0) && (before key upper || length upper == 0)

-- std::string key(it->key, it->key_size)
abbrev pub item_key : Item → Bytes
item_key item = take item.key_size item.key

-- The loop of `GetRangeLocation` over the items that are left, the last one of the table first
unfoldable pub collect :
    List Item → Bytes → Bytes → ℕ → ℕ → OrdMap Location → RetCode × OrdMap Location
collect [] lower upper max count locations = (succ, locations)
collect (item ∷ items) lower upper max count locations =
    let skip = collect items lower upper max count locations in
    let locations' = map_insert (item_key item) item.location locations in
    let taken = collect items lower upper max (count + 1) locations' in
    if item.in_use == 0
    then skip
    else (if in_range lower upper (item_key item)
        then (if ltb max (count + 1) then (out_of_memory, locations') else taken)
        else skip)

abbrev reversed : List Item → List Item → List Item
reversed [] acc = acc
reversed (item ∷ items) acc = reversed items (item ∷ acc)

-- DoorPlate::GetRangeLocation
unfoldable pub get_range_location :
    List Item → Bytes → Bytes → OrdMap Location → RetCode × OrdMap Location
unfolding collect
get_range_location items lower upper locations =
    collect (reversed items []) lower upper (length items) 0 locations
