-- ===== src/Prelude/Families.antt =====
-- Families of values by their number, and the change of one of them.
use Prim.Native.Nat.{ℕ}
use mathlib.Core.Path.{◌≡◌}
use mathlib.Core.Logic.{◌≢◌}
use mathlib.Core.Bool.{false}
use native.Mathlib.Omega.{arith}
use nvm_kv.Prelude.Tests.{◌==◌, ==_refl, if◌then◌else◌}

unfoldable pub update {ℓ} : {A : Type ℓ} → (ℕ → A) → ℕ → A → ℕ → A
update f i v j = if j == i then v else f j

module _ {ℓ} {A : Type ℓ} where
  pub update_self : (f : ℕ → A) (i : ℕ) (v : A) → update f i v i ≡ v
  unfolding update
  update_self f i v = rw (==_refl i)

  pub update_ne : (f : ℕ → A) (i j : ℕ) (v : A) → j ≢ i → update f i v j ≡ f j
  unfolding update
  update_ne f i j v h = rw (unequal j i h)
    where
      unequal : (a b : ℕ) → a ≢ b → a == b ≡ false
      unequal a b h = ground (arith, h)
