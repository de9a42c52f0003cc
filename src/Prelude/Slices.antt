-- ===== src/Prelude/Slices.antt =====
-- Slices of a list that are read in pieces.
use Prim.Native.Nat.{ℕ, ◌+◌, ◌-◌, ◌≤◌}
use mathlib.Core.Path.{◌≡◌, sym, ap, ◌∙◌}
use mathlib.Core.List.{List, ◌++◌}
use native.Mathlib.Omega.{arith}
use nvm_kv.Prelude.Lists.{length, take, drop, length-take, length-drop, take-add, drop-drop}

module _ {ℓ} {A : Type ℓ} (file : List A) where
  pub length_chunk :
      (position n : ℕ) → position + n ≤ length file → length (take n (drop position file)) ≡ n
  length_chunk position n h =
      omega (arith, length-take n (drop position file), length-drop position file)

  -- `take` of a first part, and of the rest at its own position
  two_chunks :
      (position r n : ℕ)
      → take (r + n) (drop position file)
        ≡ take r (drop position file) ++ take n (drop (position + r) file)
  two_chunks position r n =
      take-add r n (drop position file)
      ∙ ap (λ t. take r (drop position file) ++ take n t) (drop-drop r position file)

  pub chunk_and_rest :
      (position m n : ℕ)
      → m ≤ n
      → length (take m (drop position file)) ≡ m
      → take m (drop position file)
          ++ take
              (n - length (take m (drop position file)))
              (drop (position + length (take m (drop position file))) file)
        ≡ take n (drop position file)
  chunk_and_rest position m n h e =
      let whole : m + (n - m) ≡ n = omega arith in
      rw e (sym (two_chunks position m (n - m)) ∙ ap (λ t. take t (drop position file)) whole)
