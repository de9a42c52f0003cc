-- ===== src/Polar.antt =====
-- include/polar_string.h: `PolarString`, a borrowed pointer with a length.
-- The value behind the pointer is the list of the bytes that can be read from it.
pub mod Order
use nvm_kv.Prelude.{
  ℕ, zero, suc, ◌≡◌, refl, arith, ◌-◌, ◌<◌, ◌≤◌, List, [], ◌∷◌, ◌++◌, Bool, true, false, not, ◌&&◌,
  ltb, leb, ◌==◌, if◌then◌else◌, length, get_or, take, drop, Bytes, Sign, below, equal, above,
  is_below, is_equal, lt→ltb,
}
use nvm_kv.Engine.{Run, ok, ◌>>=◌, ◌>>◌, guard, outside_array}

-- memcmp of the first `n` bytes, as unsigned numbers.
unfoldable pub memcmp : Bytes → Bytes → ℕ → Sign
memcmp a b zero = equal
memcmp a b (suc n) =
    let rest = memcmp (drop 1 a) (drop 1 b) n in
    if ltb (get_or a 0 0) (get_or b 0 0)
    then below
    else (if ltb (get_or b 0 0) (get_or a 0 0) then above else rest)

pub record PolarString : Type 0 where
  pub buffer : Bytes
  pub size : ℕ

-- The pointer may be read up to `size`.
abbrev pub IsValid : PolarString → Type 0
IsValid s = s.size ≤ length s.buffer

-- PolarString(): the literal "" is one zero byte.
unfoldable pub default : PolarString
default = record { buffer = 0 ∷ []; size = 0 }

-- PolarString(const char* d, size_t n)
unfoldable pub of_buffer : Bytes → ℕ → PolarString
of_buffer d n = record { buffer = d; size = n }

-- PolarString(const std::string& s): `s.data()` ends in a zero byte.
unfoldable pub of_string : Bytes → PolarString
of_string s = record { buffer = s ++ 0 ∷ []; size = length s }

unfoldable pub strlen : Bytes → ℕ
strlen [] = 0
strlen (c ∷ cs) = if c == 0 then 0 else suc (strlen cs)

-- PolarString(const char* s)
unfoldable pub of_c_string : Bytes → PolarString
unfolding strlen
of_c_string s = record { buffer = s; size = strlen s }

unfoldable pub empty : PolarString → Bool
empty s = s.size == 0

-- The byte at a place of the buffer
abbrev pub byte_at : PolarString → ℕ → ℕ
byte_at s n = get_or s.buffer n 0

-- operator[]: a read behind the buffer is undefined.
unfoldable pub at : PolarString → ℕ → Run ℕ
at s n = guard (ltb n (length s.buffer)) outside_array >> ok (byte_at s n)

-- The first place of the buffer can be read and holds a byte.
abbrev pub HasFirst : PolarString → Type 0
HasFirst s = (0 < length s.buffer) × (byte_at s 0 < 256)

pub at_first : (s : PolarString) → 0 < length s.buffer → at s 0 ≡ ok (byte_at s 0)
unfolding at
at_first s h = rw (lt→ltb 0 (length s.buffer) h) refl

unfoldable pub clear : PolarString → PolarString
unfolding default
clear s = default

unfoldable pub starts_with : PolarString → PolarString → Bool
unfolding memcmp
starts_with s x = leb x.size s.size && is_equal (memcmp s.buffer x.buffer x.size)

unfoldable pub ends_with : PolarString → PolarString → Bool
unfolding memcmp
ends_with s x =
    leb x.size s.size && is_equal (memcmp (drop (s.size - x.size) s.buffer) x.buffer x.size)

-- operator==
unfoldable pub equals : PolarString → PolarString → Bool
unfolding memcmp
equals x y = x.size == y.size && is_equal (memcmp x.buffer y.buffer x.size)

-- operator!=
unfoldable pub differs : PolarString → PolarString → Bool
unfolding equals
differs x y = not (equals x y)

-- ToString, of a view that may be read up to its size (`IsValid`); of any other one `assign` would
-- read behind the buffer, and the string here is only as long as the buffer.
unfoldable pub to_string : PolarString → Bytes
to_string s = take s.size s.buffer

-- The result from `memcmp` over the shorter size, and the two sizes.
unfoldable pub compare_from : Sign → ℕ → ℕ → Sign
compare_from equal n m = if ltb n m then below else (if ltb m n then above else equal)
compare_from below n m = below
compare_from above n m = above

unfoldable pub compare : PolarString → PolarString → Sign
unfolding memcmp compare_from
compare s b =
    let min_len = if ltb s.size b.size then s.size else b.size in
    compare_from (memcmp s.buffer b.buffer min_len) s.size b.size

-- operator<, declared by each engine
unfoldable pub less_than : PolarString → PolarString → Bool
unfolding compare
less_than l r = is_below (compare l r)
