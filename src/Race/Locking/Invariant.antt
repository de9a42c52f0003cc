-- ===== src/Race/Locking/Invariant.antt =====
-- Who holds the mutexes in the states that can be reached.
use mathlib.Core.Option.{some-injective}
use native.Mathlib.Decide.{ℕ_discrete}
use nvm_kv.Prelude.{
  ℕ, ◌≤◌, ◌<◌, ◌≡◌, ◌≢◌, refl, sym, ap, ◌∙◌, arith, Option, none, some, update, update_self,
  update_ne,
}
use mathlib.Core.Path.{subst}
use nvm_kv.Race.Locking.{
  Call, Pc, Owners, Move, enter, acquire, all_locked, leave, release, finish, Threads, Step, pick,
  Reach, start, later,
}
use nvm_kv.Race.Locking.Places.{Holds, IsCall, Formed, Formed-Move}

pub record IsLocked (n k : ℕ) (s : Threads) : Type 0 where
  pub owned : (t j : ℕ) → Holds (s.pc t) j → s.owner j ≡ some t
  pub held : (t j : ℕ) → s.owner j ≡ some t → Holds (s.pc t) j × (t < k)
  pub formed : (t : ℕ) → Formed n (s.pc t)

none-ne-some : {A : Type 0} {a : A} → ◌≡◌ {A = Option A} none (some a) → ⊥
none-ne-some h = cc

module _ (n t : ℕ) (small : n ≤ 255) where
  -- What the moving thread holds afterwards it owns.
  owned-Move :
      (owner owner' : Owners) (p p' : Pc)
      → Move n owner t p owner' p'
      → Formed n p
      → ((j : ℕ) → Holds p j → owner j ≡ some t)
      → (j : ℕ) → Holds p' j
      → owner' j ≡ some t
  owned-Move owner owner' p p' (enter e) f own j (lo, hi) = absurd (omega (arith, lo, hi))
  owned-Move owner owner' p p' (acquire {lo} {i} {hi} le free) (a, b, c, d) own j (l, h) =
      elim (ℕ_discrete j i) [
        | yes e ↦ rw (← e, update_self owner j (some t)) refl
        | no ne ↦ update_ne owner i j (some t) ne ∙ own j (l, omega (arith, h, ne, le, b, small))
      ]
  owned-Move owner owner' p p' (all_locked lt) (a, b, c, d) own j (l, h) =
      own j (l, omega (arith, h, lt))
  owned-Move owner owner' p p' leave f own j h = own j h
  owned-Move owner owner' p p' (release {i} {hi} le) (a, b) own j (l, h) =
      update_ne owner i j none (λ e. absurd (omega (arith, l, e, le, b, small)))
      ∙ own j (omega (arith, l, le, b, small), h)
  owned-Move owner owner' p p' (finish lt) f own j h = absurd h

  -- What it owns afterwards it holds.
  held-Move :
      (owner owner' : Owners) (p p' : Pc)
      → Move n owner t p owner' p'
      → Formed n p
      → ((j : ℕ) → owner j ≡ some t → Holds p j)
      → (j : ℕ) → owner' j ≡ some t
      → Holds p' j
  held-Move owner owner' p p' (enter e) f held j h = absurd (held j h)
  held-Move owner owner' p p' (acquire {lo} {i} {hi} le free) (a, b, c, d) held j h =
      elim (ℕ_discrete j i) [
        | yes e ↦ (omega (arith, e, c), omega (arith, e, le, b, small))
        | no ne ↦
            let (l, u) = held j (sym (update_ne owner i j (some t) ne) ∙ h) in
            (l, omega (arith, u, le, b, small))
      ]
  held-Move owner owner' p p' (all_locked lt) (a, b, c, d) held j h =
      let (l, u) = held j h in (l, omega (arith, l, u, d))
  held-Move owner owner' p p' leave f held j h = held j h
  held-Move owner owner' p p' (release {i} {hi} le) (a, b) held j h = elim (ℕ_discrete j i) [
    | yes e ↦
        absurd
          (none-ne-some (sym (update_self owner j none) ∙ ap (λ x. update owner x none j) e ∙ h))
    | no ne ↦
        let (l, u) = held j (sym (update_ne owner i j none ne) ∙ h) in
        (omega (arith, l, ne, le, b, small), u)
  ]
  held-Move owner owner' p p' (finish lt) f held j h =
      let (l, u) = held j h in omega (arith, l, u, lt)

  -- The other threads own what they owned.
  others-Move :
      (owner owner' : Owners) (p p' : Pc)
      → Move n owner t p owner' p'
      → ((j : ℕ) → Holds p j → owner j ≡ some t)
      → (u : ℕ) → u ≢ t
      → (j : ℕ) → (owner j ≡ some u → owner' j ≡ some u) × (owner' j ≡ some u → owner j ≡ some u)
  others-Move owner owner' p p' (enter e) own u ne j = (λ h. h, λ h. h)
  others-Move owner owner' p p' (acquire {lo} {i} {hi} le free) own u ne j = elim (ℕ_discrete j i) [
    | yes e ↦ (
      λ h. absurd (none-ne-some (sym free ∙ ap owner (sym e) ∙ h)),
      λ h. absurd (
          ne (
            some-injective _ _ (
              sym h ∙ ap (λ x. update owner x (some t) j) (sym e) ∙ update_self owner j (some t)))),
    )
    | no away ↦ (
      λ h. update_ne owner i j (some t) away ∙ h,
      λ h. sym (update_ne owner i j (some t) away) ∙ h,
    )
  ]
  others-Move owner owner' p p' (all_locked lt) own u ne j = (λ h. h, λ h. h)
  others-Move owner owner' p p' leave own u ne j = (λ h. h, λ h. h)
  others-Move owner owner' p p' (release {i} {hi} le) own u ne j = elim (ℕ_discrete j i) [
    | yes e ↦ (
      λ h. absurd (ne (some-injective _ _ (sym h ∙ ap owner e ∙ own i (omega arith, le)))),
      λ h.
          absurd
            (none-ne-some (sym (update_self owner j none) ∙ ap (λ x. update owner x none j) e ∙ h)),
    )
    | no away ↦
        (λ h. update_ne owner i j none away ∙ h, λ h. sym (update_ne owner i j none away) ∙ h)
  ]
  others-Move owner owner' p p' (finish lt) own u ne j = (λ h. h, λ h. h)

Step-IsLocked :
    (n k : ℕ) (s s' : Threads) → 2 ≤ n → n ≤ 255 → Step n k s s' → IsLocked n k s → IsLocked n k s'
Step-IsLocked n k s s' several small (pick t {owner} {p} below move) inv = record {
  owned = λ u j h. elim (ℕ_discrete u t) [
    | yes e ↦ rw e (
        owned-Move n t small s.owner owner (s.pc t) p move (inv.formed t) (inv.owned t) j
          (subst (λ q. Holds q j) (ap (update s.pc t p) e ∙ update_self s.pc t p) h))
    | no ne ↦
        (others-Move n t small s.owner owner (s.pc t) p move (inv.owned t) u ne j).0
          (inv.owned u j (subst (λ q. Holds q j) (update_ne s.pc t u p ne) h))
  ];
  held = λ u j h. elim (ℕ_discrete u t) [
    | yes e ↦ (
      subst (λ q. Holds q j) (sym (ap (update s.pc t p) e ∙ update_self s.pc t p))
          (held-Move n t small s.owner owner (s.pc t) p move (inv.formed t)
            (λ i g. (inv.held t i g).0) j (h ∙ ap some e)),
      omega (arith, below, e),
    )
    | no ne ↦
        let (g, b) =
          inv.held u j
            ((others-Move n t small s.owner owner (s.pc t) p move (inv.owned t) u ne j).1 h) in
        (subst (λ q. Holds q j) (sym (update_ne s.pc t u p ne)) g, b)
  ];
  formed = λ u. elim (ℕ_discrete u t) [
    | yes e ↦
        subst (Formed n) (sym (ap (update s.pc t p) e ∙ update_self s.pc t p))
          (Formed-Move n t s.owner owner (s.pc t) p several small move (inv.formed t))
    | no ne ↦ subst (Formed n) (sym (update_ne s.pc t u p ne)) (inv.formed u)
  ];
}

pub Reach-IsLocked :
    (n k : ℕ) (calls : ℕ → Call) (m : ℕ) (s : Threads)
    → 2 ≤ n
    → n ≤ 255
    → ((t : ℕ) → IsCall (calls t))
    → Reach n k calls m s
    → IsLocked n k s
Reach-IsLocked n k calls m s several small good start = record {
  owned = λ t j h. absurd h;
  held = λ t j h. absurd (none-ne-some h);
  formed = good;
}
Reach-IsLocked n k calls m s several small good (later {m = m'} {s = s₁} reach step) =
    Step-IsLocked n k s₁ s several small step
      (Reach-IsLocked n k calls m' s₁ several small good reach)

-- Mutual exclusion: in every state that threads in `Write`, `Read` and `Range` can reach in an
-- engine of 2 to 255 buckets, two threads that hold the mutex of one bucket are the same thread.
-- The first byte of each key and bound can be read and is below 256.
pub Holds-unique :
    (n k : ℕ) (calls : ℕ → Call) (m : ℕ) (s : Threads) (t u j : ℕ)
    → 2 ≤ n
    → n ≤ 255
    → ((t : ℕ) → IsCall (calls t))
    → Reach n k calls m s
    → Holds (s.pc t) j
    → Holds (s.pc u) j
    → t ≡ u
Holds-unique n k calls m s t u j several small good reach h g =
    let inv = Reach-IsLocked n k calls m s several small good reach in
    some-injective _ _ (sym (inv.owned t j h) ∙ inv.owned u j g)
