-- ===== src/Race/Ranging/Loops.antt =====
-- The loops of `Range` over the buckets: a rule for the loop, and the buckets while some are locked.
use native.Mathlib.Decide.{ℕ_discrete, dec_lt}
use mathlib.Core.Path.{subst}
use mathlib.Core.Option.{some-injective}
use nvm_kv.Prelude.{
  ℕ, zero, suc, ◌+◌, ◌%◌, ◌≤◌, ◌<◌, ◌≡◌, ◌≢◌, sym, ap, ◌∙◌, arith, List, Option, none, some, Bool,
  false, length, get_elem?, set, get_elem?-lt, get_elem?-some_lt, length-set, get_elem?-set_self,
  get_elem?-set_ne, le→leb, lt→leb, Option-cases, inl, inr, Bytes,
}
use nvm_kv.Engine.{Run, ok}
use nvm_kv.Race.Bucket.{Bucket}
use nvm_kv.Race.Routing.{EngineRace}
use nvm_kv.Race.Live
use nvm_kv.Race.Live.Fetching.{moved-IsValid, view-moved}
use nvm_kv.Race.Store.{view, home, IsValid}
use nvm_kv.Race.Ranging.{for_u8}

-- What every round keeps holds after the loop, for a last value that the counter can pass.
module _ {ℓ κ} {S : Type ℓ} (first last : ℕ) (body : ℕ → S → Run S) (Inv : ℕ → S → Type κ)
    (small : last < 255)
    (step : (i : ℕ) (s : S)
      → first ≤ i
      → i ≤ last
      → Inv i s
      → (s' : S) × (body i s ≡ ok s') × Inv (i + 1) s') where
  pub for_u8-rule :
      (fuel i : ℕ) (s : S)
      → first ≤ i
      → i ≤ last + 1
      → last + 1 < i + fuel
      → Inv i s
      → (s' : S) × (for_u8 fuel i last body s ≡ ok s') × Inv (last + 1) s'
  unfolding for_u8
  for_u8-rule zero i s from to enough inv = absurd (omega arith)
  for_u8-rule (suc fuel) i s from to enough inv = elim (dec_lt last i) [
    | yes past ↦
        let e : i ≡ last + 1 = omega arith in
        (s, rw (lt→leb i last past), subst (λ i. Inv i s) e inv)
    | no more ↦
        let (s₁, run, inv₁) = step i s from (omega arith) inv in
        let (s₂, rest, inv₂) =
          for_u8-rule fuel (i + 1) s₁ (omega arith) (omega arith) (omega arith) inv₁ in
        let e : (i + 1) % 256 ≡ i + 1 = omega arith in
        (s₂, rw (le→leb i last (omega arith), run, e) rest, inv₂)
  ]

-- The buckets `bs'` are the buckets `bs`, but for the file offsets and for the locks, which are those
-- that are held.
pub record Mirrors (held : ℕ → Bool) (bs bs' : List Bucket) : Type 0 where
  pub size : length bs' ≡ length bs
  pub each :
      (j : ℕ) (f : Bucket)
      → get_elem? bs j ≡ some f
      → (p : ℕ) × (get_elem? bs' j ≡ some (record f { locked = held j; position = p }))

pub Mirrors-ext :
    (held held' : ℕ → Bool) (bs bs' : List Bucket)
    → ((j : ℕ) → held j ≡ held' j)
    → Mirrors held bs bs'
    → Mirrors held' bs bs'
Mirrors-ext held held' bs bs' h m = record {
  size = m.size;
  each = λ j f e.
      let (p, e') = m.each j f e in
      (p, e' ∙ ap (λ (b : Bool). some (record f { locked = b; position = p })) (h j));
}

pub Mirrors-set :
    (held held' : ℕ → Bool) (bs bs' : List Bucket) (i p : ℕ) (f : Bucket)
    → Mirrors held bs bs'
    → get_elem? bs i ≡ some f
    → ((j : ℕ) → i ≢ j → held j ≡ held' j)
    → Mirrors held' bs (set bs' i (record f { locked = held' i; position = p }))
Mirrors-set held held' bs bs' i p f m there h = record {
  size = length-set bs' i (record f { locked = held' i; position = p }) ∙ m.size;
  each = λ j g e. elim (ℕ_discrete i j) [
    | yes here ↦
        let g_eq : f ≡ g = some-injective _ _ (sym there ∙ ap (get_elem? bs) here ∙ e) in
        (
          p,
          ap (get_elem? (set bs' i (record f { locked = held' i; position = p }))) (sym here)
              ∙ get_elem?-set_self bs' i (record f { locked = held' i; position = p })
                  (omega (arith, get_elem?-some_lt bs i there, m.size))
              ∙ ap (λ (g : Bucket). some (record g { locked = held' i; position = p })) g_eq
              ∙ ap (λ (j : ℕ). some (record g { locked = held' j; position = p })) here,
        )
    | no away ↦
        let (q, e') = m.each j g e in
        (
          q,
          get_elem?-set_ne bs' i j (record f { locked = held' i; position = p }) away
              ∙ e'
              ∙ ap (λ (b : Bool). some (record g { locked = b; position = q })) (h j away),
        )
  ];
}

-- Buckets that are well formed are again, with the same values, once no lock is held.
module _ (e e' : EngineRace) (m : Mirrors (λ j. false) e.buckets e'.buckets) where
  pub Mirrors-IsValid : IsValid e → IsValid e'
  Mirrors-IsValid valid = record {
    several = omega (arith, valid.several, m.size);
    each = λ i f' h.
        let (f, there) =
          get_elem?-lt e.buckets i (omega (arith, get_elem?-some_lt e'.buckets i h, m.size)) in
        let (p, there') = m.each i f there in
        subst Live.IsValid (some-injective _ _ (sym there' ∙ h))
          (moved-IsValid f p (valid.each i f there));
  }

  pub view-Mirrors : (key : Bytes) → view e' key ≡ view e key
  unfolding view
  view-Mirrors key = elim (Option-cases (get_elem? e.buckets (home (length e.buckets) key))) [
    | inl out ↦ elim (Option-cases (get_elem? e'.buckets (home (length e.buckets) key))) [
      | inl out' ↦ rw (m.size, out, out')
      | inr (f', there') ↦
          let (f, there) =
            get_elem?-lt e.buckets (home (length e.buckets) key)
              (omega (arith, get_elem?-some_lt e'.buckets _ there', m.size)) in
          absurd (none-ne-some f (sym out ∙ there))
    ]
    | inr (f, there) ↦
        let (p, there') = m.each (home (length e.buckets) key) f there in
        rw (m.size, there, there') (view-moved f p key)
  ]
    where
      none-ne-some : (f : Bucket) → ◌≡◌ {A = Option Bucket} none (some f) → ⊥
      none-ne-some f h = cc
