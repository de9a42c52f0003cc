-- ===== src/OrdMap/Laws.antt =====
-- `find` after `insert_or_assign`, and the order of the keys.
use nvm_kv.Prelude.{
  ◌≡◌, refl, arith, some, [], ◌∷◌, Bool, true, if◌then◌else◌, All, Bytes, lex, before, same,
  eq_of_lex, lex_refl, lex-opposite, before_trans, Sign-cases, inl, inr,
}
use nvm_kv.OrdMap.{OrdMap, IsSorted, insert_or_assign, find}

module _ {ℓ} {V : Type ℓ} where
  pub find-insert_or_assign :
      (k j : Bytes) (v : V) (m : OrdMap V)
      → find j (insert_or_assign k v m) ≡ (if same j k then some v else find j m)
  unfolding find insert_or_assign
  find-insert_or_assign k j v [] = refl
  find-insert_or_assign k j v (e ∷ m) = ground (
    arith,
    find-insert_or_assign k j v m,
    eq_of_lex k e.0,
    eq_of_lex j k,
    lex_refl k,
    eq_of_lex j e.0,
    lex-opposite k e.0,
  )

  -- Every key of the map with one more key passes a test that the others and the new one pass.
  All-insert_or_assign :
      (P : Bytes → Bool) (k : Bytes) (v : V) (m : OrdMap V)
      → P k ≡ true
      → All (λ f. P f.0 ≡ true) m
      → All (λ f. P f.0 ≡ true) (insert_or_assign k v m)
  unfolding insert_or_assign
  All-insert_or_assign P k v [] h a = (h, tt)
  All-insert_or_assign P k v (e ∷ m) h a = ground (arith, All-insert_or_assign P k v m h)

  All-before_trans :
      (k j : Bytes) (m : OrdMap V)
      → before k j ≡ true
      → All (λ f. before j f.0 ≡ true) m
      → All (λ f. before k f.0 ≡ true) m
  All-before_trans k j [] h a = tt
  All-before_trans k j (e ∷ m) h (b, a) = (before_trans k j e.0 h b, All-before_trans k j m h a)

  pub insert_or_assign-IsSorted :
      (k : Bytes) (v : V) (m : OrdMap V) → IsSorted m → IsSorted (insert_or_assign k v m)
  unfolding insert_or_assign
  insert_or_assign-IsSorted k v [] h = (tt, tt)
  insert_or_assign-IsSorted k v (e ∷ m) (a, s) = elim (Sign-cases (lex k e.0)) [
    | inl lt ↦
        rw (lt, insert_or_assign)
          ((ground (arith, lt), All-before_trans k e.0 m (ground (arith, lt)) a), (a, s))
    | inr (inl eq) ↦ rw (eq, insert_or_assign) (a, s)
    | inr (inr gt) ↦
        rw (gt, insert_or_assign)
          (
            All-insert_or_assign (before e.0) k v m (ground (arith, gt, lex-opposite k e.0)) a,
            insert_or_assign-IsSorted k v m s,
          )
  ]
