-- ===== src/Example/DoorPlate/Matching.antt =====
-- Items of engine_example/door_plate.cc and the keys that they hold.
use mathlib.Core.Path.{ap₂}
use nvm_kv.Prelude.{
  ℕ, suc, ◌<◌, ◌≡◌, refl, sym, ◌∙◌, arith, [], ◌∷◌, Bool, true, false, ◌&&◌, ◌==◌, length, drop,
  get_or, Bytes, Bool-cases, inl, inr, Sign, below, equal, above, is_equal,
}
use nvm_kv.Polar.{memcmp}
use nvm_kv.Example.DataStore.{Location}
use nvm_kv.Example.DoorPlate.{Item, item_key_match, item_try_place, place}

pub memcmp_step :
    (c : Bytes) (x : ℕ) (a : Bytes) (n : ℕ)
    → memcmp c (x ∷ a) (suc n) ≡ equal
    → (get_or c 0 0 ≡ x) × (memcmp (drop 1 c) a n ≡ equal)
unfolding memcmp
memcmp_step c x a n h = (ground (arith, h), ground (arith, h))

pub memcmp_unique :
    (c a b : Bytes)
    → length a ≡ length b
    → memcmp c a (length a) ≡ equal
    → memcmp c b (length b) ≡ equal
    → a ≡ b
unfolding memcmp
memcmp_unique c [] [] n h k = refl
memcmp_unique c [] (y ∷ b) n h k = absurd (omega (arith, n))
memcmp_unique c (x ∷ a) [] n h k = absurd (omega (arith, n))
memcmp_unique c (x ∷ a) (y ∷ b) n h k =
    let (p, q) = memcmp_step c x a (length a) h in
    let (r, t) = memcmp_step c y b (length b) k in
    ap₂ ◌∷◌ (sym p ∙ r) (memcmp_unique (drop 1 c) a b (omega (arith, n)) q t)

pub equal_of_test : (s : Sign) → is_equal s ≡ true → s ≡ equal
equal_of_test below h = cc
equal_of_test equal h = refl
equal_of_test above h = cc

pub both_true : (a b : Bool) → (a && b) ≡ true → (a ≡ true) × (b ≡ true)
both_true true b h = (refl, h)
both_true false b h = cc

pub match_parts :
    (item : Item) (a : Bytes)
    → item_key_match item a ≡ true
    → (length a ≡ item.key_size) × (memcmp item.key a (length a) ≡ equal)
unfolding item_key_match
match_parts item a h =
    let (p, q) = both_true (length a == item.key_size) _ h in
    let size : length a ≡ item.key_size = ground (arith, p) in (size, rw size (equal_of_test _ q))

-- An item holds one key.
pub match_unique :
    (item : Item) (a b : Bytes)
    → item_key_match item a ≡ true
    → item_key_match item b ≡ true
    → a ≡ b
match_unique item a b h k =
    let (n, e) = match_parts item a h in
    let (m, f) = match_parts item b k in memcmp_unique item.key a b (omega (arith, n, m)) e f

-- An item in use takes a key only if it holds it.
pub takes-item_key_match :
    (item : Item) (key : Bytes)
    → item.in_use == 0 ≡ false
    → item_try_place item key ≡ true
    → item_key_match item key ≡ true
unfolding item_try_place
takes-item_key_match item key used h = ground (arith, used, h)

-- An item that does not take a key does not take it when another key is placed in it.
pub place-item_try_place :
    (item : Item) (key other : Bytes) (l : Location)
    → item_try_place item other ≡ false
    → item_try_place (place item key l) other ≡ false
unfolding item_try_place place item_key_match
place-item_try_place item key other l h = ground (arith, h)

pub place-used : (item : Item) (key : Bytes) (l : Location) → (place item key l).in_use == 0 ≡ false
unfolding place
place-used item key l = elim (Bool-cases (item.in_use == 0)) [
  | inl free ↦ rw free refl
  | inr used ↦ rw used used
]

-- A cleared item holds no key but the empty one.
pub cleared_match :
    (item : Item) (key : Bytes)
    → item.key_size ≡ 0
    → 0 < length key
    → item_key_match item key ≡ false
unfolding item_key_match
cleared_match item key h pos = ground (arith, h, pos)
