-- ===== src/Example/DoorPlate/Probing.antt =====
-- `CalcIndex` always ends, with the index of an item that takes the key or with -1.
use native.Mathlib.Nat.{mod-lt}
use nvm_kv.Prelude.{
  ℕ, zero, suc, ◌+◌, ◌%◌, ◌<◌, ◌≡◌, refl, arith, List, Option, none, some, true, false, ltb, length,
  get_elem?, get_elem?-lt, Bytes, Bool-cases, inl, inr,
}
use nvm_kv.Engine.{ok}
use nvm_kv.Example.Util.{str_hash}
use nvm_kv.Example.DoorPlate.{Item, item_at, item_try_place, probe, calc_index}

item_at_ok :
    (items : List Item) (i : ℕ)
    → i < length items
    → (item : Item) × (item_at items i ≡ ok item) × (get_elem? items i ≡ some item)
unfolding item_at
item_at_ok items i h = let (item, e) = get_elem?-lt items i h in (item, rw (e, item_at), e)

-- The slots that the loop visits from `index` on, `n` of them.
abbrev pub slot : ℕ → ℕ → ℕ → ℕ
slot size index zero = index
slot size index (suc n) = slot size ((index + 1) % size) n

-- No slot among the first `n` takes the key.
abbrev pub Occupied : List Item → Bytes → ℕ → ℕ → Type 0
Occupied items key index zero = Unit
Occupied items key index (suc n) =
    ((item : Item) × (get_elem? items index ≡ some item) × (item_try_place item key ≡ false))
    × Occupied items key ((index + 1) % length items) n

-- The result of a search with `n` slots left: the first slot that takes the key, or none.
pub data Probed (items : List Item) (key : Bytes) (index n : ℕ) : Option ℕ → Type 0 where
  found :
      (k i : ℕ) (item : Item)
      → k < n
      → slot (length items) index k ≡ i
      → i < length items
      → get_elem? items i ≡ some item
      → item_try_place item key ≡ true
      → Occupied items key index k
      → Probed items key index n (some i)
  exhausted : Occupied items key index n → Probed items key index n none

-- One slot that does not take the key, in front of a search.
later :
    (items : List Item) (key : Bytes) (index n : ℕ) (item : Item) (o : Option ℕ)
    → get_elem? items index ≡ some item
    → item_try_place item key ≡ false
    → Probed items key ((index + 1) % length items) n o
    → Probed items key index (suc n) o
later items key index n item o e t (found k i item' lt at below there takes free) =
    found (suc k) i item' (omega arith) at below there takes ((item, e, t), free)
later items key index n item o e t (exhausted free) = exhausted ((item, e, t), free)

probe-Probed :
    (fuel : ℕ) (items : List Item) (key : Bytes) (jcnt index : ℕ)
    → jcnt + fuel ≡ length items
    → 0 < fuel
    → index < length items
    → (o : Option ℕ) × (probe fuel items key jcnt index ≡ ok o) × Probed items key index fuel o
unfolding probe
probe-Probed zero items key jcnt index sum pos below = elim pos [ ]
probe-Probed (suc fuel) items key jcnt index sum pos below =
    let (item, at, there) = item_at_ok items index below in
    elim (Bool-cases (item_try_place item key)) [
      | inl takes ↦
          (some index, rw (at, takes), found 0 index item (omega arith) refl below there takes tt)
      | inr busy ↦ elim (Bool-cases (ltb (jcnt + 1) (length items))) [
        | inl more ↦
            let (o, run, p) =
              probe-Probed fuel items key (jcnt + 1) ((index + 1) % length items) (omega arith)
                (ground (arith, more)) (mod-lt (index + 1) (omega arith)) in
            (o, rw (at, busy, more) run, later items key index fuel item o there busy p)
        | inr over ↦
            let last : fuel ≡ zero = ground (arith, over) in
            (
              none,
              rw (at, busy, over),
              later items key index fuel item none there busy (rw last (exhausted tt)),
            )
      ]
    ]

-- On a table that is not empty `CalcIndex` ends within as many rounds as there are items: with
-- the first slot of the probe sequence of the key that is free or holds the key, or with -1 where
-- no slot of the sequence is or does.
pub calc_index-Probed :
    (items : List Item) (key : Bytes)
    → 0 < length items
    → (o : Option ℕ) × (calc_index items key ≡ ok o)
      × Probed items key (str_hash key % length items) (length items) o
unfolding calc_index
calc_index-Probed items key pos =
    probe-Probed (length items) items key 0 (str_hash key % length items) (omega arith) pos
      (mod-lt (str_hash key) pos)
