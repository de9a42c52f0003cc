-- ===== src/Prelude/Lex.antt =====
-- The order of byte strings: unsigned bytes, the shorter of two strings with a common start first.
use mathlib.Core.Path.{◌≡◌, refl}
use mathlib.Core.Logic.{◌⊎◌, inl, inr}
use mathlib.Core.Bool.{Bool, true, false}
use mathlib.Core.List.{[], ◌∷◌}
use native.Mathlib.Omega.{arith}
use nvm_kv.Prelude.Tests.{ltb, if◌then◌else◌}
use nvm_kv.Prelude.ByteStrings.{Bytes}

-- The sign of an `int` result: below, equal to or above 0.
pub data Sign : Type 0 where
  below equal above : Sign

abbrev pub opposite : Sign → Sign
opposite below = above
opposite equal = equal
opposite above = below

abbrev pub is_below : Sign → Bool
is_below below = true
is_below equal = false
is_below above = false

abbrev pub is_equal : Sign → Bool
is_equal below = false
is_equal equal = true
is_equal above = false

unfoldable pub lex : Bytes → Bytes → Sign
lex [] [] = equal
lex [] (y ∷ ys) = below
lex (x ∷ xs) [] = above
lex (x ∷ xs) (y ∷ ys) =
    let rest = lex xs ys in if ltb x y then below else (if ltb y x then above else rest)

-- std::less on strings
abbrev pub before : Bytes → Bytes → Bool
before a b = is_below (lex a b)

-- equality of strings
abbrev pub same : Bytes → Bytes → Bool
same a b = is_equal (lex a b)

pub lex_refl : (a : Bytes) → lex a a ≡ equal
unfolding lex
lex_refl [] = refl
lex_refl (x ∷ xs) = ground (arith, lex_refl xs)

pub eq_of_lex : (a b : Bytes) → lex a b ≡ equal → a ≡ b
unfolding lex
eq_of_lex [] [] h = refl
eq_of_lex [] (y ∷ ys) h = cc
eq_of_lex (x ∷ xs) [] h = cc
eq_of_lex (x ∷ xs) (y ∷ ys) h = ground (arith, eq_of_lex xs ys)

pub lex-opposite : (a b : Bytes) → lex b a ≡ opposite (lex a b)
unfolding lex
lex-opposite [] [] = refl
lex-opposite [] (y ∷ ys) = refl
lex-opposite (x ∷ xs) [] = refl
lex-opposite (x ∷ xs) (y ∷ ys) = ground (arith, lex-opposite xs ys)

pub lex_trans : (a b c : Bytes) → lex a b ≡ below → lex b c ≡ below → lex a c ≡ below
unfolding lex
lex_trans [] [] c h k = cc
lex_trans [] (y ∷ ys) [] h k = cc
lex_trans [] (y ∷ ys) (z ∷ zs) h k = refl
lex_trans (x ∷ xs) [] c h k = cc
lex_trans (x ∷ xs) (y ∷ ys) [] h k = cc
lex_trans (x ∷ xs) (y ∷ ys) (z ∷ zs) h k = ground (arith, lex_trans xs ys zs)

pub same_refl : (a : Bytes) → same a a ≡ true
same_refl a = ground (arith, lex_refl a)

pub eq_of_same : (a b : Bytes) → same a b ≡ true → a ≡ b
eq_of_same a b h = eq_of_lex a b (ground arith)

pub same_symm : (a b : Bytes) → same a b ≡ same b a
same_symm a b = ground (arith, lex-opposite a b)

pub before_irrefl : (a : Bytes) → before a a ≡ false
before_irrefl a = ground (arith, lex_refl a)

pub before_trans : (a b c : Bytes) → before a b ≡ true → before b c ≡ true → before a c ≡ true
before_trans a b c h k = ground (arith, lex_trans a b c)

pub before_asymm : (a b : Bytes) → before a b ≡ true → before b a ≡ false
before_asymm a b h = ground (arith, lex-opposite a b)

-- What is not before `b`, where `b` is not before `c`, is not before `c`.
pub not_before_trans :
    (a b c : Bytes) → before a b ≡ false → before b c ≡ false → before a c ≡ false
not_before_trans a b c h k = ground (
  arith,
  eq_of_lex a b,
  eq_of_lex b c,
  lex-opposite a b,
  lex-opposite b c,
  lex-opposite a c,
  lex_trans c b a,
  lex_refl a,
)

pub Sign-cases : (s : Sign) → (s ≡ below) ⊎ ((s ≡ equal) ⊎ (s ≡ above))
Sign-cases below = inl refl
Sign-cases equal = inr (inl refl)
Sign-cases above = inr (inr refl)
