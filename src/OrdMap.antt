-- ===== src/OrdMap.antt =====
-- std::map from byte strings, as the list of its entries in order. An iterator is a position in it.
pub mod Laws
pub mod Span
use nvm_kv.Prelude.{
  ℕ, zero, suc, ◌-◌, ◌≡◌, Option, none, some, List, [], ◌∷◌, Bool, true, false, leb, if◌then◌else◌,
  length, take, drop, All, Bytes, Sign, below, equal, above, lex, before, same,
}

abbrev pub OrdMap {ℓ} : Type ℓ → Type ℓ
OrdMap V = List (Bytes × V)

-- The keys stand in strictly ascending order.
abbrev pub IsSorted {ℓ} : {V : Type ℓ} → OrdMap V → Type ℓ
IsSorted [] = Unit
IsSorted (e ∷ m) = All (λ f. before e.0 f.0 ≡ true) m × IsSorted m

module _ {ℓ} {V : Type ℓ} where
  unfoldable pub insert_or_assign : Bytes → V → OrdMap V → OrdMap V
  insert_or_assign k v [] = (k, v) ∷ []
  insert_or_assign k v (e ∷ m) = elim (lex k e.0) [
    | below ↦ (k, v) ∷ e ∷ m
    | equal ↦ (e.0, v) ∷ m
    | above ↦ e ∷ insert_or_assign k v m
  ]

  unfoldable pub find : Bytes → OrdMap V → Option V
  find k [] = none
  find k (e ∷ m) = if same k e.0 then some e.1 else find k m

  -- The position of the first key that is not before `k`.
  unfoldable pub lower_bound : Bytes → OrdMap V → ℕ
  lower_bound k [] = 0
  lower_bound k (e ∷ m) = let rest = lower_bound k m in if before e.0 k then suc rest else 0

  -- `for (it = first; it != last; it++)`: the entries visited, or `none` if the iterator
  -- passes the end of the map without meeting `last`.
  unfoldable pub span : ℕ → ℕ → OrdMap V → Option (OrdMap V)
  span first last m = if leb first last then some (take (last - first) (drop first m)) else none
