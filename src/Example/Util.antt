-- ===== src/Example/Util.antt =====
-- engine_example/util.cc: the hash of a key, and `FileAppend` on a string.
use nvm_kv.Prelude.{ℕ, ◌-◌, ◌*◌, ◌%◌, ◌^◌, List, [], ◌∷◌, bit_xor, ltb, if◌then◌else◌, Bytes}
use nvm_kv.Posix.{Io, Fd, Appended, file_append}

abbrev pub k_a : ℕ
k_a = 54059

abbrev pub k_b : ℕ
k_b = 76963

abbrev pub k_finish : ℕ
k_finish = 37

-- s[0] * kB as a 32-bit word; `char` is signed.
unfoldable pub char_times_b : ℕ → ℕ
char_times_b c = if ltb c 128 then c * k_b else 2 ^ 32 - (256 - c) * k_b

-- The loop of `StrHash`, from the hash so far
unfoldable pub hash_from : ℕ → Bytes → ℕ
unfolding char_times_b
hash_from h [] = h
hash_from h (c ∷ s) = hash_from (bit_xor (h * k_a % 2 ^ 32) (char_times_b c)) s

unfoldable pub str_hash : Bytes → ℕ
unfolding hash_from
str_hash s = hash_from k_finish s

-- FileAppend(int fd, const std::string& value): the loop is that of engine_race/util.h.
unfoldable pub append_string : Fd → List Io → Bytes → Bytes → Appended
append_string fd io file value = file_append fd io file value
