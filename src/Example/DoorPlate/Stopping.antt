-- ===== src/Example/DoorPlate/Stopping.antt =====
-- Where the search of `CalcIndex` stops, and tables in which it finds the keys.
use mathlib.Core.Option.{some-injective}
use native.Mathlib.Decide.{dec_lt}
use nvm_kv.Prelude.{
  ℕ, zero, suc, ◌+◌, ◌%◌, ◌<◌, ◌≡◌, refl, sym, ap, ◌∙◌, arith, List, none, some, Bool, true, false,
  ◌==◌, if◌then◌else◌, length, get_elem?, Bytes, Bool-cases, inl, inr,
}
use nvm_kv.Engine.{succ, not_found, ok}
use nvm_kv.Example.Util.{str_hash}
use nvm_kv.Example.DataStore.{Location}
use nvm_kv.Example.DoorPlate.{Item, item_key_match, item_try_place, calc_index, find_location}
use nvm_kv.Example.DoorPlate.Probing.{slot, Occupied, Probed, found, exhausted}
use nvm_kv.Example.DoorPlate.Placing.{item_at-some, probe_found}
use nvm_kv.Example.DoorPlate.Matching.{cleared_match}

-- The next slot of a search that has passed a number of slots
pub Occupied-at :
    (items : List Item) (key : Bytes) (index j k : ℕ)
    → j < k
    → Occupied items key index k
    → (item : Item) × (get_elem? items (slot (length items) index j) ≡ some item)
      × (item_try_place item key ≡ false)
Occupied-at items key index j zero lt busy = absurd (omega (arith, lt))
Occupied-at items key index zero (suc k) lt (here, rest) = here
Occupied-at items key index (suc j) (suc k) lt (here, rest) =
    Occupied-at items key ((index + 1) % length items) j k (omega (arith, lt)) rest

pub true-ne-false : ◌≡◌ {A = Bool} true false → ⊥
true-ne-false h = cc

-- The search for a key stops after `k` slots at the slot `i`.
pub record Stops (items : List Item) (key : Bytes) (k i : ℕ) : Type 0 where
  pub item : Item
  pub below : k < length items
  pub at : slot (length items) (str_hash key % length items) k ≡ i
  pub there : get_elem? items i ≡ some item
  pub takes : item_try_place item key ≡ true
  pub busy : Occupied items key (str_hash key % length items) k

-- A slot that takes the key is not among those that were passed.
pub not_passed :
    (items : List Item) (key : Bytes) (j k i : ℕ) (item : Item)
    → j < k
    → slot (length items) (str_hash key % length items) j ≡ i
    → get_elem? items i ≡ some item
    → item_try_place item key ≡ true
    → Occupied items key (str_hash key % length items) k
    → ⊥
not_passed items key j k i item lt at there takes busy =
    let (other, e, taken) = Occupied-at items key (str_hash key % length items) j k lt busy in
    let same_item : item ≡ other =
      some-injective _ _ (sym there ∙ ap (get_elem? items) (sym at) ∙ e) in
    true-ne-false (sym takes ∙ ap (λ x. item_try_place x key) same_item ∙ taken)

pub Stops-unique :
    (items : List Item) (key : Bytes) (j k i i' : ℕ)
    → Stops items key j i
    → Stops items key k i'
    → i ≡ i'
Stops-unique items key j k i i' p q = elim (dec_lt j k) [
  | yes lt ↦ absurd (not_passed items key j k i p.item lt p.at p.there p.takes q.busy)
  | no ge ↦ elim (dec_lt k j) [
    | yes lt ↦ absurd (not_passed items key k j i' q.item lt q.at q.there q.takes p.busy)
    | no le ↦
        let e : j ≡ k = omega (arith, ge, le) in
        sym p.at ∙ ap (slot (length items) (str_hash key % length items)) e ∙ q.at
  ]
]

pub calc_index-Stops :
    (items : List Item) (key : Bytes) (k i : ℕ)
    → Stops items key k i
    → calc_index items key ≡ ok (some i)
unfolding calc_index
calc_index-Stops items key k i p =
    probe_found k (length items) items key 0 (str_hash key % length items) i p.item p.below
      (omega arith) p.at p.there p.takes p.busy

-- What `Find` answers, by the slot at which the search stops
pub find-Stops :
    (items : List Item) (key : Bytes) (k i : ℕ) (item : Item) (before : Location)
    → Stops items key k i
    → get_elem? items i ≡ some item
    → find_location items key before
      ≡ (if item_key_match item key then ok (succ, item.location) else ok (not_found, before))
unfolding find_location
find-Stops items key k i item before p there =
    rw (calc_index-Stops items key k i p, item_at-some items i item there) refl

-- A free item has key size 0, as in a cleared table, and the search for a key that an item in use holds
-- stops at that item.
pub record IsSettled (items : List Item) : Type 0 where
  pub clean :
      (i : ℕ) (item : Item)
      → get_elem? items i ≡ some item
      → item.in_use == 0 ≡ true
      → item.key_size ≡ 0
  pub paths :
      (i : ℕ) (item : Item) (key : Bytes)
      → get_elem? items i ≡ some item
      → item_key_match item key ≡ true
      → item.in_use == 0 ≡ false
      → (k : ℕ) × Stops items key k i

-- The result of a search as the place where it stops
pub Stops-of :
    (items : List Item) (key : Bytes) (i : ℕ)
    → Probed items key (str_hash key % length items) (length items) (some i)
    → (k : ℕ) × Stops items key k i
Stops-of items key i (found k _ item lt at small there takes busy) =
    (k, record { item = item; below = lt; at = at; there = there; takes = takes; busy = busy })

pub never-Stops :
    (items : List Item) (key : Bytes) (k i : ℕ)
    → Probed items key (str_hash key % length items) (length items) none
    → Stops items key k i
    → ⊥
never-Stops items key k i (exhausted busy) p =
    not_passed items key k (length items) i p.item p.below p.at p.there p.takes busy

pub find-none :
    (items : List Item) (key : Bytes) (before : Location)
    → calc_index items key ≡ ok none
    → find_location items key before ≡ ok (not_found, before)
unfolding find_location
find-none items key before h = rw h refl

-- A settled table holds a key that is not empty in items in use only.
pub used_if_match :
    (items : List Item) (i : ℕ) (item : Item) (key : Bytes)
    → IsSettled items
    → get_elem? items i ≡ some item
    → 0 < length key
    → item_key_match item key ≡ true
    → item.in_use == 0 ≡ false
used_if_match items i item key settled there pos matches = elim (Bool-cases (item.in_use == 0)) [
  | inl free ↦
      absurd
        (true-ne-false (sym matches ∙ cleared_match item key (settled.clean i item there free) pos))
  | inr used ↦ used
]
