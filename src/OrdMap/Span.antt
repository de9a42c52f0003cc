-- ===== src/OrdMap/Span.antt =====
-- Iterating from one lower bound to another: the entries whose keys lie between the bounds.
use nvm_kv.Prelude.{
  ℕ, suc, ◌-◌, ◌≤◌, ◌≡◌, refl, sym, ap, ◌∙◌, arith, [], ◌∷◌, some, Bool, true, false, not, ◌&&◌,
  if◌then◌else◌, length, take, drop, All, Bytes, before, before_asymm, not_before_trans, Bool-cases,
  inl, inr, take_all, lex, le→leb, length-drop,
}
use nvm_kv.OrdMap.{OrdMap, IsSorted, lower_bound, span}

-- A key before the lower bound is before the upper bound.
before_both : (j lo hi : Bytes) → before j lo ≡ true → before hi lo ≡ false → before j hi ≡ true
before_both j lo hi h le = elim (Bool-cases (before j hi)) [
  | inl k ↦ k
  | inr k ↦ absurd (true-ne-false (sym h ∙ not_before_trans j hi lo k le))
]
  where
    true-ne-false : ◌≡◌ {A = Bool} true false → ⊥
    true-ne-false h = cc

pub not_before_empty : (j : Bytes) → before j [] ≡ false
not_before_empty [] = unfold lex in refl
not_before_empty (c ∷ j) = unfold lex in refl

module _ {ℓ} {V : Type ℓ} where
  -- The entries whose keys pass a test.
  unfoldable pub select : (Bytes → Bool) → OrdMap V → OrdMap V
  select P [] = []
  select P (e ∷ m) = let rest = select P m in if P e.0 then e ∷ rest else rest

  select-All : (P : Bytes → Bool) (m : OrdMap V) → All (λ f. P f.0 ≡ true) m → select P m ≡ m
  unfolding select
  select-All P [] a = refl
  select-All P (e ∷ m) (h, a) = rw (h, select-All P m a)

  select_nothing : (P : Bytes → Bool) (m : OrdMap V) → All (λ f. P f.0 ≡ false) m → select P m ≡ []
  unfolding select
  select_nothing P [] a = refl
  select_nothing P (e ∷ m) (h, a) = rw (h, select_nothing P m a)

  pub All-map {κ ν} :
      {P : Bytes × V → Type κ} {Q : Bytes × V → Type ν} (m : OrdMap V)
      → ((f : Bytes × V) → P f → Q f)
      → All P m
      → All Q m
  All-map [] h a = tt
  All-map (e ∷ m) h (p, a) = (h e p, All-map m h a)

  pub All-select {κ} :
      (P : Bytes × V → Type κ) (Q : Bytes → Bool) (m : OrdMap V) → All P m → All P (select Q m)
  unfolding select
  All-select P Q [] a = tt
  All-select P Q (e ∷ m) (p, a) = elim (Bool-cases (Q e.0)) [
    | inl h ↦ rw h (p, All-select P Q m a)
    | inr h ↦ rw h (All-select P Q m a)
  ]

  select_ext :
      (P Q : Bytes → Bool) (m : OrdMap V) → All (λ f. P f.0 ≡ Q f.0) m → select P m ≡ select Q m
  unfolding select
  select_ext P Q [] a = refl
  select_ext P Q (e ∷ m) (h, a) = rw (h, select_ext P Q m a)

  -- What follows a key that is not before `k` is not before `k` either.
  later_keys :
      (j k : Bytes) (m : OrdMap V)
      → before j k ≡ false
      → All (λ f. before j f.0 ≡ true) m
      → All (λ f. before f.0 k ≡ false) m
  later_keys j k m h a = All-map m (λ f lt. not_before_trans f.0 j k (before_asymm j f.0 lt) h) a

  pub take-lower_bound :
      (k : Bytes) (m : OrdMap V)
      → IsSorted m
      → take (lower_bound k m) m ≡ select (λ j. before j k) m
  unfolding lower_bound select
  take-lower_bound k [] s = refl
  take-lower_bound k (e ∷ m) (a, s) = elim (Bool-cases (before e.0 k)) [
    | inl h ↦ rw h (ap (λ t. e ∷ t) (take-lower_bound k m s))
    | inr h ↦ rw h (sym (select_nothing (λ j. before j k) m (later_keys e.0 k m h a)))
  ]

  pub drop-lower_bound :
      (k : Bytes) (m : OrdMap V)
      → IsSorted m
      → drop (lower_bound k m) m ≡ select (λ j. not (before j k)) m
  unfolding lower_bound select
  drop-lower_bound k [] s = refl
  drop-lower_bound k (e ∷ m) (a, s) = elim (Bool-cases (before e.0 k)) [
    | inl h ↦ rw h (drop-lower_bound k m s)
    | inr h ↦ rw h (
        ap (λ t. e ∷ t)
          (sym (
            select-All (λ j. not (before j k)) m
              (All-map m (λ f g. ap not g) (later_keys e.0 k m h a)))))
  ]

  lower_bound-le : (k : Bytes) (m : OrdMap V) → lower_bound k m ≤ length m
  unfolding lower_bound
  lower_bound-le k [] = omega arith
  lower_bound-le k (e ∷ m) = ground (arith, lower_bound-le k m)

  span-suc : (a b : ℕ) (e : Bytes × V) (m : OrdMap V) → span (suc a) (suc b) (e ∷ m) ≡ span a b m
  unfolding span
  span-suc a b e m = let h : suc b - suc a ≡ b - a = omega arith in rw h (ground arith)

  span_zero : (b : ℕ) (e : Bytes × V) (m : OrdMap V) → span 0 (suc b) (e ∷ m) ≡ some (e ∷ take b m)
  unfolding span
  span_zero b e m =
      let h : suc b - 0 ≡ suc b = omega arith in rw (h, le→leb 0 (suc b) (omega arith))

  -- From the first key that is not before `lo` up to the end.
  pub span_end :
      (lo : Bytes) (m : OrdMap V)
      → IsSorted m
      → span (lower_bound lo m) (length m) m ≡ some (select (λ j. not (before j lo)) m)
  unfolding span
  span_end lo m s = rw (le→leb (lower_bound lo m) (length m) (lower_bound-le lo m)) (
      ap some (
        take_all (length m - lower_bound lo m) (drop (lower_bound lo m) m)
          (omega (arith, length-drop (lower_bound lo m) m))
        ∙ drop-lower_bound lo m s))

  -- From the first key that is not before `lo` up to the first one that is not before `hi`.
  pub span_between :
      (lo hi : Bytes) (m : OrdMap V)
      → IsSorted m
      → before hi lo ≡ false
      → span (lower_bound lo m) (lower_bound hi m) m
        ≡ some (select (λ j. not (before j lo) && before j hi) m)
  unfolding lower_bound select
  span_between lo hi [] s le = unfold span in refl
  span_between lo hi (e ∷ m) (a, s) le = elim (Bool-cases (before e.0 lo)) [
    | inl h ↦
        rw (h, before_both e.0 lo hi h le, span-suc (lower_bound lo m) (lower_bound hi m) e m)
          (span_between lo hi m s le)
    | inr h ↦ elim (Bool-cases (before e.0 hi)) [
      | inl k ↦
          rw (h, k, span_zero (lower_bound hi m) e m)
            (ap (λ t. some (e ∷ t))
              (take-lower_bound hi m s
                ∙ select_ext (λ j. before j hi) (λ j. not (before j lo) && before j hi) m
                    (All-map m (λ f g. rw g) (later_keys e.0 lo m h a))))
      | inr k ↦
          rw (h, k)
            (unfold span in
              ap some (
                sym (
                  select_nothing (λ j. not (before j lo) && before j hi) m
                    (All-map m (λ f g. ground (arith, g)) (later_keys e.0 hi m k a)))))
    ]
  ]

  pub length-select : (P : Bytes → Bool) (m : OrdMap V) → length (select P m) ≤ length m
  unfolding select
  length-select P [] = omega arith
  length-select P (e ∷ m) = elim (Bool-cases (P e.0)) [
    | inl h ↦ rw h (omega (arith, length-select P m))
    | inr h ↦ rw h (omega (arith, length-select P m))
  ]

  -- No key is before the empty string.
  pub lower_bound-empty : (m : OrdMap V) → lower_bound [] m ≡ 0
  unfolding lower_bound
  lower_bound-empty [] = refl
  lower_bound-empty (e ∷ m) = rw (not_before_empty e.0)
