-- ===== src/Example/DoorPlate/Others.antt =====
-- What `AddOrUpdate` of engine_example/door_plate.cc does to the other keys.
use mathlib.Core.Option.{some-injective}
use mathlib.Core.Path.{subst}
use native.Mathlib.Decide.{ℕ_discrete}
use nvm_kv.Prelude.{
  ℕ, zero, suc, ◌+◌, ◌%◌, ◌≤◌, ◌<◌, ◌≡◌, ◌≢◌, refl, sym, ap, ◌∙◌, arith, List, Option, none, some,
  true, false, ◌==◌, length, set, get_elem?, get_elem?-some_lt, length-set, get_elem?-set_self,
  get_elem?-set_ne, Bytes, Bool-cases, inl, inr, le→ltb,
}
use nvm_kv.Engine.{RetCode, succ, not_found, full, ok}
use nvm_kv.Example.Util.{str_hash}
use nvm_kv.Example.DataStore.{Location}
use nvm_kv.Example.DoorPlate.{
  Item, item_key_match, item_try_place, calc_index, place, add_or_update, find_location,
  k_max_key_len,
}
use nvm_kv.Example.DoorPlate.Probing.{Occupied, Probed, calc_index-Probed}
use nvm_kv.Example.DoorPlate.Placing.{place-item_key_match, match-item_try_place, item_at-some}
use nvm_kv.Example.DoorPlate.Matching.{
  match_unique, takes-item_key_match, place-item_try_place, place-used,
}
use nvm_kv.Example.DoorPlate.Stopping.{
  true-ne-false, Stops-unique, find-Stops, Stops-of, never-Stops, find-none, used_if_match, Stops,
  IsSettled,
}

-- A key is placed where its search stops.
module _ (items : List Item) (key : Bytes) (l : Location) (settled : IsSettled items) (k₀ i : ℕ)
    (p : Stops items key k₀ i) where
  abbrev placed : Item
  placed = place p.item key l

  abbrev after : List Item
  after = set items i placed

  inside : i < length items
  inside = get_elem?-some_lt items i p.there

  there_now : get_elem? after i ≡ some placed
  there_now = get_elem?-set_self items i placed inside

  placed_match : item_key_match placed key ≡ true
  placed_match = place-item_key_match p.item key l p.takes

  Occupied-after :
      (other : Bytes) (k index : ℕ) → Occupied items other index k → Occupied after other index k
  Occupied-after other zero index busy = tt
  Occupied-after other (suc k) index ((item, e, taken), rest) = (
    elim (ℕ_discrete i index) [
      | yes here ↦
          let same_item : item ≡ p.item =
            some-injective _ _ (sym e ∙ ap (get_elem? items) (sym here) ∙ p.there) in
          (
            placed,
            ap (get_elem? after) (sym here) ∙ there_now,
            place-item_try_place p.item key other l
                (ap (λ x. item_try_place x other) (sym same_item) ∙ taken),
          )
      | no away ↦ (item, get_elem?-set_ne items i index placed away ∙ e, taken)
    ],
    rw (length-set items i placed) (Occupied-after other k ((index + 1) % length items) rest),
  )

  -- A search that stops elsewhere stops there afterwards.
  Stops-after :
      (other : Bytes) (k j : ℕ) (q : Stops items other k j) → i ≢ j → Stops after other k j
  Stops-after other k j q away = record {
    item = q.item;
    below = rw (length-set items i placed) q.below;
    at = rw (length-set items i placed) q.at;
    there = get_elem?-set_ne items i j placed away ∙ q.there;
    takes = q.takes;
    busy =
        rw (length-set items i placed)
          (Occupied-after other k (str_hash other % length items) q.busy);
  }

  placed-Stops : Stops after key k₀ i
  placed-Stops = record {
    item = placed;
    below = rw (length-set items i placed) p.below;
    at = rw (length-set items i placed) p.at;
    there = there_now;
    takes = match-item_try_place placed key placed_match;
    busy =
        rw (length-set items i placed) (Occupied-after key k₀ (str_hash key % length items) p.busy);
  }

  after-IsSettled : IsSettled after
  after-IsSettled = record {
    clean = λ j item e free. elim (ℕ_discrete i j) [
      | yes here ↦
          let same_item : placed ≡ item =
            some-injective _ _ (sym there_now ∙ ap (get_elem? after) here ∙ e) in
          absurd (
            true-ne-false
              (sym free ∙ ap (λ x. x.in_use == 0) (sym same_item) ∙ place-used p.item key l))
      | no away ↦ settled.clean j item (sym (get_elem?-set_ne items i j placed away) ∙ e) free
    ];
    paths = λ j item other e matches used. elim (ℕ_discrete i j) [
      | yes here ↦
          let same_item : placed ≡ item =
            some-injective _ _ (sym there_now ∙ ap (get_elem? after) here ∙ e) in
          let same_key : key ≡ other =
            match_unique placed key other placed_match
              (ap (λ x. item_key_match x other) same_item ∙ matches) in
          (
            k₀,
            subst (λ j. Stops after other k₀ j) here
                (subst (λ x. Stops after x k₀ i) same_key placed-Stops),
          )
      | no away ↦
          let (k, q) =
            settled.paths j item other (sym (get_elem?-set_ne items i j placed away) ∙ e) matches
              used in
          (k, Stops-after other k j q away)
    ];
  }

  module _ (other : Bytes) (before : Location) (different : key ≢ other)
      (pos : 0 < length other) where
    -- A search that stopped at the slot of the new key, or nowhere, finds nothing afterwards.
    find-after_nothing :
        ((k j : ℕ) → Stops items other k j → i ≡ j)
        → find_location after other before ≡ ok (not_found, before)
    find-after_nothing never =
        let (o, run, probed) =
          calc_index-Probed after other (rw (length-set items i placed) (omega (arith, inside))) in
        by_result o run probed
      where
        no_match :
            (j : ℕ) (item : Item)
            → get_elem? after j ≡ some item
            → item_key_match item other ≡ true
            → ⊥
        no_match j item e matches = elim (ℕ_discrete i j) [
          | yes here ↦
              let same_item : placed ≡ item =
                some-injective _ _ (sym there_now ∙ ap (get_elem? after) here ∙ e) in
              different (
                match_unique placed key other placed_match
                  (ap (λ x. item_key_match x other) same_item ∙ matches))
          | no away ↦
              let there : get_elem? items j ≡ some item =
                sym (get_elem?-set_ne items i j placed away) ∙ e in
              let (k, q) =
                settled.paths j item other there matches
                  (used_if_match items j item other settled there pos matches) in
              away (never k j q)
        ]

        by_result :
            (o : Option ℕ)
            → calc_index after other ≡ ok o
            → Probed after other (str_hash other % length after) (length after) o
            → find_location after other before ≡ ok (not_found, before)
        by_result none run probed = find-none after other before run
        by_result (some j) run probed =
            let (k, q) = Stops-of after other j probed in
            elim (Bool-cases (item_key_match q.item other)) [
              | inl matches ↦ absurd (no_match j q.item q.there matches)
              | inr misses ↦ find-Stops after other k j q.item before q q.there ∙ rw misses refl
            ]

    find-after : find_location after other before ≡ find_location items other before
    find-after =
        let (o, run, probed) = calc_index-Probed items other (omega (arith, inside)) in
        by_result o run probed
      where
        misses : (k : ℕ) (q : Stops items other k i) → item_key_match q.item other ≡ false
        misses k q = elim (Bool-cases (item_key_match q.item other)) [
          | inr no_match ↦ no_match
          | inl matches ↦
              let same_item : p.item ≡ q.item = some-injective _ _ (sym p.there ∙ q.there) in
              let used : p.item.in_use == 0 ≡ false =
                ap (λ x. x.in_use == 0) same_item
                ∙ used_if_match items i q.item other settled q.there pos matches in
              absurd (
                different (
                  match_unique p.item key other (takes-item_key_match p.item key used p.takes)
                    (ap (λ x. item_key_match x other) same_item ∙ matches)))
        ]

        by_result :
            (o : Option ℕ)
            → calc_index items other ≡ ok o
            → Probed items other (str_hash other % length items) (length items) o
            → find_location after other before ≡ find_location items other before
        by_result none run probed =
            find-after_nothing (λ k j q. absurd (never-Stops items other k j probed q))
            ∙ sym (find-none items other before run)
        by_result (some j) run probed =
            let (k, q) = Stops-of items other j probed in
            elim (ℕ_discrete i j) [
              | no away ↦
                  find-Stops after other k j q.item before (Stops-after other k j q away)
                    (get_elem?-set_ne items i j placed away ∙ q.there)
                  ∙ sym (find-Stops items other k j q.item before q q.there)
              | yes here ↦
                  let q' : Stops items other k i = subst (Stops items other k) (sym here) q in
                  find-after_nothing (λ k' j' r. Stops-unique items other k k' i j' q' r)
                  ∙ sym (
                      find-Stops items other k i q'.item before q' q'.there ∙ rw (misses k q') refl)
            ]

-- `AddOrUpdate` answers, leaves a settled table, and the other key has the same answer of `Find`.
abbrev pub KeepsOthers : List Item → Bytes → Location → Bytes → Location → Type 0
KeepsOthers items key l other before =
    (ret : RetCode) × (items' : List Item) × (add_or_update items key l ≡ ok (ret, items'))
    × IsSettled items'
    × (find_location items' other before ≡ find_location items other before)

-- On a table that is not empty, in which free items have key size 0 and the search for each key
-- in use stops at its item, `AddOrUpdate` of a key of at most 32 bytes answers, leaves such a
-- table, and `Find` of any other key that is not empty answers what it answered before.
pub add_or_update-KeepsOthers :
    (items : List Item) (key : Bytes) (l : Location) (other : Bytes) (before : Location)
    → 0 < length items
    → length key ≤ k_max_key_len
    → IsSettled items
    → key ≢ other
    → 0 < length other
    → KeepsOthers items key l other before
unfolding add_or_update
add_or_update-KeepsOthers items key l other before pos small settled different nonempty =
    let (o, run, probed) = calc_index-Probed items key pos in by_result o run probed
  where
    by_result :
        (o : Option ℕ)
        → calc_index items key ≡ ok o
        → Probed items key (str_hash key % length items) (length items) o
        → KeepsOthers items key l other before
    by_result none run probed =
        (full, items, rw (le→ltb k_max_key_len (length key) small, run) refl, settled, refl)
    by_result (some i) run probed =
        let (k, p) = Stops-of items key i probed in
        (
          succ,
          set items i (place p.item key l),
          rw (le→ltb k_max_key_len (length key) small, run, item_at-some items i p.item p.there)
              refl,
          after-IsSettled items key l settled k i p,
          find-after items key l settled k i p other before different nonempty,
        )
