-- ===== src/Prelude/ByteStrings.antt =====
-- Byte strings, and unsigned integers stored in them, lowest byte first.
use Prim.Native.Nat.{ℕ, zero, suc, ◌+◌, ◌*◌, ◌/◌, ◌%◌, ◌^◌, ◌<◌}
use mathlib.Core.Path.{◌≡◌, refl, ap}
use mathlib.Core.List.{List, [], ◌∷◌}
use native.Mathlib.Omega.{arith}
use native.Mathlib.Nat.{pow-suc}
use nvm_kv.Prelude.Lists.{length, All}

abbrev pub Bytes : Type 0
Bytes = List ℕ

abbrev pub IsBytes : Bytes → Type 0
IsBytes = All (λ b. b < 256)

-- An unsigned integer of `w` bytes as the machine stores it.
unfoldable pub encode_le : ℕ → ℕ → Bytes
encode_le zero n = []
encode_le (suc w) n = n % 256 ∷ encode_le w (n / 256)

unfoldable pub decode_le : Bytes → ℕ
decode_le [] = 0
decode_le (b ∷ bs) = b + 256 * decode_le bs

pub length-encode_le : (w n : ℕ) → length (encode_le w n) ≡ w
unfolding encode_le
length-encode_le zero n = refl
length-encode_le (suc w) n = ap suc (length-encode_le w (n / 256))

pub decode_le-encode_le : (w n : ℕ) → n < 256 ^ w → decode_le (encode_le w n) ≡ n
unfolding encode_le decode_le
decode_le-encode_le zero n h = omega arith
decode_le-encode_le (suc w) n h =
    omega (arith, decode_le-encode_le w (n / 256) (omega (arith, pow-suc 256 w)))
