-- ===== src/Example/DoorPlate/Placing.antt =====
-- `Find` after `AddOrUpdate`, on the items of engine_example/door_plate.cc.
use nvm_kv.Prelude.{
  ℕ, zero, suc, ◌+◌, ◌%◌, ◌≤◌, ◌<◌, ◌≡◌, ◌≢◌, refl, sym, ap, ◌∙◌, arith, List, [], ◌∷◌, ◌++◌,
  Option, none, some, Bool, true, false, ◌==◌, length, set, get_elem?, get_elem?-some_lt,
  length-set, get_elem?-set_self, get_elem?-set_ne, Bytes, Bool-cases, inl, inr, ◌⊎◌, lt→ltb,
  le→ltb, ==_refl, equal,
}
use mathlib.Core.Option.{some-injective}
use nvm_kv.Polar.{memcmp}
use nvm_kv.Engine.{RetCode, succ, full, ok}
use nvm_kv.Example.Util.{str_hash}
use nvm_kv.Example.DataStore.{Location}
use nvm_kv.Example.DoorPlate.{
  Item, item_at, item_key_match, item_try_place, probe, calc_index, copy_key, place, add_or_update,
  find_location, k_max_key_len,
}
use nvm_kv.Example.DoorPlate.Probing.{slot, Occupied, Probed, found, exhausted, calc_index-Probed}

-- A key in front of other bytes compares equal to itself.
memcmp-append : (key rest : Bytes) → memcmp (key ++ rest) key (length key) ≡ equal
unfolding memcmp
memcmp-append [] rest = refl
memcmp-append (c ∷ key) rest = ground (arith, memcmp-append key rest)

pub place-item_key_match :
    (item : Item) (key : Bytes) (l : Location)
    → item_try_place item key ≡ true
    → item_key_match (place item key l) key ≡ true
unfolding item_try_place item_key_match place copy_key
place-item_key_match item key l takes = elim (Bool-cases (item.in_use == 0)) [
  | inl free ↦ rw (free, ==_refl (length key), memcmp-append key _)
  | inr used ↦ ground (arith, used, takes)
]

place-in_use : (item : Item) (key : Bytes) (l : Location) → (place item key l).location ≡ l
unfolding place
place-in_use item key l = ground arith

pub match-item_try_place :
    (item : Item) (key : Bytes) → item_key_match item key ≡ true → item_try_place item key ≡ true
unfolding item_try_place
match-item_try_place item key h = ground (arith, h)

pub item_at-some :
    (items : List Item) (i : ℕ) (item : Item)
    → get_elem? items i ≡ some item
    → item_at items i ≡ ok item
unfolding item_at
item_at-some items i item e = rw (e, item_at)

-- The search stops at the first slot that takes the key.
pub probe_found :
    (k fuel : ℕ) (items : List Item) (key : Bytes) (jcnt index i : ℕ) (item : Item)
    → k < fuel
    → jcnt + fuel ≡ length items
    → slot (length items) index k ≡ i
    → get_elem? items i ≡ some item
    → item_try_place item key ≡ true
    → Occupied items key index k
    → probe fuel items key jcnt index ≡ ok (some i)
unfolding probe
probe_found k zero items key jcnt index i item lt sum at there takes busy = absurd (omega arith)
probe_found zero (suc fuel) items key jcnt index i item lt sum at there takes busy =
    rw (item_at-some items index item (ap (get_elem? items) at ∙ there), takes)
      (ap (λ (x : ℕ). ok (some x)) at)
probe_found (suc k) (suc fuel) items key jcnt index i item lt sum at there takes busy =
    let ((other, e, taken), rest) = busy in
    rw (item_at-some items index other e, taken, lt→ltb (jcnt + 1) (length items) (omega arith))
      (probe_found k fuel items key (jcnt + 1) ((index + 1) % length items) i item (omega arith)
        (omega arith) at there takes rest)

-- Slots that do not take the key are left alone when another one changes.
Occupied-set :
    (k : ℕ) (items : List Item) (key : Bytes) (index i : ℕ) (old new : Item)
    → get_elem? items i ≡ some old
    → item_try_place old key ≡ true
    → Occupied items key index k
    → Occupied (set items i new) key index k
Occupied-set zero items key index i old new there takes busy = tt
Occupied-set (suc k) items key index i old new there takes ((item, e, taken), rest) =
    let other : i ≢ index = λ h. true-ne-false (
      sym takes
      ∙ ap (λ t. item_try_place t key) (some-injective _ _ (sym there ∙ ap (get_elem? items) h ∙ e))
      ∙ taken) in
    (
      (item, get_elem?-set_ne items i index new other ∙ e, taken),
      rw (length-set items i new)
          (Occupied-set k items key ((index + 1) % length items) i old new there takes rest),
    )
  where
    true-ne-false : ◌≡◌ {A = Bool} true false → ⊥
    true-ne-false h = cc

-- What `AddOrUpdate` of a key of at most 32 bytes answers: `succ`, and then `Find` gives the location;
-- or `full`, with the table as it was and every slot taken by another key.
abbrev pub PlaceOutcome : List Item → Bytes → Location → Type 0
PlaceOutcome items key l =
    (ret : RetCode) × (items' : List Item) × (add_or_update items key l ≡ ok (ret, items'))
    × (length items' ≡ length items)
    × (((ret ≡ succ) × ((before : Location) → find_location items' key before ≡ ok (succ, l)))
        ⊎ ((ret ≡ full)
            × (items' ≡ items)
            × Occupied items key (str_hash key % length items) (length items)))

find_placed :
    (items : List Item) (key : Bytes) (l before : Location) (k i : ℕ) (item : Item)
    → k < length items
    → slot (length items) (str_hash key % length items) k ≡ i
    → i < length items
    → get_elem? items i ≡ some item
    → item_try_place item key ≡ true
    → Occupied items key (str_hash key % length items) k
    → find_location (set items i (place item key l)) key before ≡ ok (succ, l)
unfolding find_location calc_index
find_placed items key l before k i item lt at below there takes busy =
    let new = place item key l in
    let matches = place-item_key_match item key l takes in
    let again =
      probe_found k (length items) (set items i new) key 0 (str_hash key % length items) i new lt
        (omega (arith, length-set items i new)) (rw (length-set items i new) at)
        (get_elem?-set_self items i new below) (match-item_try_place new key matches)
        (Occupied-set k items key (str_hash key % length items) i item new there takes busy) in
    rw (
      length-set items i new,
      again,
      item_at-some (set items i new) i new (get_elem?-set_self items i new below),
      matches,
      place-in_use item key l,
    )

-- `AddOrUpdate` of a key of at most 32 bytes on a table that is not empty keeps the number of
-- items, and either answers `succ`, and `Find` of the key then gives the location, or answers
-- `full` with the table unchanged, where every slot of the probe sequence is taken by another
-- key.
pub add_or_update-find :
    (items : List Item) (key : Bytes) (l : Location)
    → 0 < length items
    → length key ≤ k_max_key_len
    → PlaceOutcome items key l
unfolding add_or_update
add_or_update-find items key l pos small =
    let (o, run, p) = calc_index-Probed items key pos in placed o run p
  where
    placed :
        (o : Option ℕ)
        → calc_index items key ≡ ok o
        → Probed items key (str_hash key % length items) (length items) o
        → PlaceOutcome items key l
    placed none run (exhausted busy) = (
      full,
      items,
      rw (le→ltb k_max_key_len (length key) small, run),
      refl,
      inr (refl, refl, busy),
    )
    placed (some _) run (found k i item lt at below there takes busy) = (
      succ,
      set items i (place item key l),
      rw (le→ltb k_max_key_len (length key) small, run, item_at-some items i item there),
      length-set items i (place item key l),
      inl (refl, λ before. find_placed items key l before k i item lt at below there takes busy),
    )

empty_match : (item : Item) → item.key_size ≡ 0 → item_key_match item [] ≡ true
unfolding item_key_match memcmp
empty_match item cleared = rw cleared

-- `Find` of the empty key, where the first slot of its probe sequence is free and has key size 0
-- as in a cleared table, answers `succ` with the location that stands in that slot, although the
-- slot holds no key.
pub find_location_empty :
    (items : List Item) (item : Item) (before : Location)
    → get_elem? items (str_hash [] % length items) ≡ some item
    → item.in_use ≡ 0
    → item.key_size ≡ 0
    → find_location items [] before ≡ ok (succ, item.location)
unfolding find_location calc_index
find_location_empty items item before there free cleared =
    let i : ℕ = str_hash [] % length items in
    let matches = empty_match item cleared in
    rw (
      probe_found 0 (length items) items [] 0 i i item
          (omega (arith, get_elem?-some_lt items i there)) (omega arith) refl there
          (match-item_try_place item [] matches) tt,
      item_at-some items i item there,
      matches,
    )
