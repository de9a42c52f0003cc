-- ===== src/Polar/Order.antt =====
-- `PolarString::compare` and `operator==` against the order and the equality of the byte strings
-- that the objects stand for.
use nvm_kv.Prelude.{
  ℕ, zero, suc, ◌≤◌, ◌≡◌, refl, arith, [], ◌∷◌, ltb, if◌then◌else◌, length, take, Bytes, Sign,
  below, equal, above, lex, before, same, length-append, length-take, take-length_append,
}
use nvm_kv.Polar.{
  PolarString, IsValid, memcmp, compare, compare_from, less_than, equals, to_string, of_string,
}

min_suc :
    (n m : ℕ) → (if ltb (suc n) (suc m) then suc n else suc m) ≡ suc (if ltb n m then n else m)
min_suc n m = ground arith

-- The comparison of two sizes after a common start, with both sizes one larger.
compare_from-suc : (r : Sign) (n m : ℕ) → compare_from r (suc n) (suc m) ≡ compare_from r n m
unfolding compare_from
compare_from-suc below n m = refl
compare_from-suc equal n m = ground arith
compare_from-suc above n m = refl

compare_from_less : (n m : ℕ) → compare_from below n m ≡ below
unfolding compare_from
compare_from_less n m = refl

compare_from_greater : (n m : ℕ) → compare_from above n m ≡ above
unfolding compare_from
compare_from_greater n m = refl

lex-take :
    (n m : ℕ) (a b : Bytes)
    → n ≤ length a
    → m ≤ length b
    → lex (take n a) (take m b) ≡ compare_from (memcmp a b (if ltb n m then n else m)) n m
unfolding lex memcmp
lex-take zero zero a b h k = unfold compare_from in refl
lex-take zero (suc m) a [] h k = elim k [ ]
lex-take zero (suc m) a (y ∷ b) h k = unfold compare_from in ground arith
lex-take (suc n) m [] b h k = elim h [ ]
lex-take (suc n) zero (x ∷ a) b h k = unfold compare_from in ground arith
lex-take (suc n) (suc m) (x ∷ a) [] h k = elim k [ ]
lex-take (suc n) (suc m) (x ∷ a) (y ∷ b) h k = rw (min_suc n m) (
    ground (
      arith,
      lex-take n m a b,
      compare_from-suc (memcmp a b (if ltb n m then n else m)) n m,
      compare_from_less (suc n) (suc m),
      compare_from_greater (suc n) (suc m),
    ))

-- `PolarString::compare` is the three-way lexicographic order of the strings that `ToString`
-- makes of the two objects, for objects whose buffers hold at least as many bytes as their sizes
-- say.
pub compare-lex :
    (a b : PolarString) → IsValid a → IsValid b → compare a b ≡ lex (to_string a) (to_string b)
unfolding compare to_string
compare-lex a b h k = rw (lex-take a.size b.size a.buffer b.buffer h k)

-- `operator<` is the order of the strings.
pub less_than-before :
    (a b : PolarString) → IsValid a → IsValid b → less_than a b ≡ before (to_string a) (to_string b)
unfolding less_than
less_than-before a b h k = rw (compare-lex a b h k)

-- `operator==` holds exactly when `ToString` makes the same string of the two objects, for
-- objects whose buffers hold at least as many bytes as their sizes say.
pub equals-same :
    (a b : PolarString) → IsValid a → IsValid b → equals a b ≡ same (to_string a) (to_string b)
unfolding equals to_string compare_from
equals-same a b h k = rw (lex-take a.size b.size a.buffer b.buffer h k) (ground arith)

-- A string passed as an argument comes back unchanged from `ToString`, and its view is valid.
pub to_string-of_string : (s : Bytes) → to_string (of_string s) ≡ s
unfolding to_string of_string
to_string-of_string s = take-length_append s (0 ∷ [])

pub of_string-IsValid : (s : Bytes) → IsValid (of_string s)
unfolding of_string
of_string-IsValid s = omega (arith, length-append {0} s (0 ∷ []))

pub size-to_string : (s : PolarString) → IsValid s → s.size ≡ length (to_string s)
unfolding to_string
size-to_string s h = omega (arith, length-take s.size s.buffer)
