-- ===== src/Mp/Scanning/Bounds.antt =====
-- `Range` of engine_mp with a bound whose first byte is 128 or more.
use mathlib.Core.Option.{some-injective}
use mathlib.Core.Path.{subst}
use native.Mathlib.Decide.{dec_lt, ℕ_discrete}
use nvm_kv.Prelude.{
  ℕ, zero, suc, ◌+◌, ◌-◌, ◌%◌, ◌^◌, ◌≤◌, ◌<◌, ◌≡◌, refl, sym, ap, ◌∙◌, arith, List, [], ◌∷◌, some,
  false, length, get_elem?, set, length-set, Bytes, le→ltb, le→leb, lt→leb, gt→ne, Option-cases,
  inl, inr, get_elem?-some_lt, get_elem?-lt, get_elem?-set_self, get_elem?-set_ne,
}
use nvm_kv.Polar.{at_first, empty, of_string}
use nvm_kv.Engine.{succ, Run, ok, fault, outside_array}
use nvm_kv.Mp.{File, hash_size, file_at, read_lock}
use nvm_kv.Mp.Scanning.{
  char_to_u32, lo_hash, hi_hash, for_files, rounds, lock_file, unlock_file, visit_file, range,
}

-- No thread writes to any of the files.
abbrev pub Unwritten : List File → Type 0
Unwritten fs = (i : ℕ) (f : File) → get_elem? fs i ≡ some f → f.writing ≡ false

file_at_past : (fs : List File) (i : ℕ) → length fs ≤ i → file_at fs i ≡ fault outside_array
unfolding file_at
file_at_past fs i h = elim (Option-cases (get_elem? fs i)) [
  | inl e ↦ rw (e, file_at)
  | inr (f, e) ↦ absurd (omega (arith, get_elem?-some_lt fs i e))
]

locked : File → File
locked f = record f { readers = f.readers + 1 }

file_at_there : (fs : List File) (i : ℕ) (f : File) → get_elem? fs i ≡ some f → file_at fs i ≡ ok f
unfolding file_at
file_at_there fs i f e = rw (e, file_at)

lock_file_ok :
    (fs : List File) (i : ℕ) (f : File)
    → get_elem? fs i ≡ some f
    → f.writing ≡ false
    → lock_file i fs ≡ ok (set fs i (locked f))
unfolding lock_file read_lock locked
lock_file_ok fs i f e w = rw (file_at_there fs i f e, w)

set-Unwritten :
    (fs : List File) (i : ℕ) (f : File)
    → i < length fs
    → f.writing ≡ false
    → Unwritten fs
    → Unwritten (set fs i (locked f))
unfolding locked
set-Unwritten fs i f below w all j g h = elim (ℕ_discrete i j) [
  | yes e ↦
      subst (λ (g : File). g.writing ≡ false)
        (some-injective _ _ (
          sym (get_elem?-set_self fs i (locked f) below)
          ∙ ap (get_elem? (set fs i (locked f))) e
          ∙ h))
        w
  | no away ↦ all j g (sym (get_elem?-set_ne fs i j (locked f) away) ∙ h)
]

for_files_step :
    (fuel i last : ℕ) (fs fs' : List File)
    → i ≤ last
    → i + 1 < 2 ^ 32
    → lock_file i fs ≡ ok fs'
    → for_files (suc fuel) i last lock_file fs ≡ for_files fuel (i + 1) last lock_file fs'
unfolding for_files
for_files_step fuel i last fs fs' le small run =
    let e : (i + 1) % 2 ^ 32 ≡ i + 1 = omega arith in rw (le→leb i last le, run, e)

for_files_past :
    (fuel i last : ℕ) (fs : List File)
    → i ≤ last
    → length fs ≤ i
    → for_files (suc fuel) i last lock_file fs ≡ fault outside_array
unfolding for_files lock_file
for_files_past fuel i last fs le past = rw (le→leb i last le, file_at_past fs i past)

-- The loop that locks the files runs past the last of them.
lock_all_fault :
    (fuel i last : ℕ) (fs : List File)
    → Unwritten fs
    → length fs ≤ last
    → length fs < 2 ^ 31
    → i ≤ length fs
    → length fs < i + fuel
    → for_files fuel i last lock_file fs ≡ fault outside_array
lock_all_fault zero i last fs all hi small le enough = absurd (omega arith)
lock_all_fault (suc fuel) i last fs all hi small le enough = elim (dec_lt i (length fs)) [
  | yes below ↦
      let (f, e) = get_elem?-lt fs i below in
      let w = all i f e in
      let n : length (set fs i (locked f)) ≡ length fs = length-set fs i (locked f) in
      for_files_step fuel i last fs (set fs i (locked f)) (omega arith) (omega arith)
        (lock_file_ok fs i f e w)
      ∙ lock_all_fault fuel (i + 1) last (set fs i (locked f)) (set-Unwritten fs i f below w all)
          (omega (arith, n)) (omega (arith, n)) (omega (arith, n)) (omega (arith, n))
  | no past ↦ for_files_past fuel i last fs (omega arith) (omega arith)
]

high : (c : ℕ) → 128 ≤ c → char_to_u32 c ≡ 2 ^ 32 - 256 + c
unfolding char_to_u32
high c h = rw (le→ltb c 128 h)

-- A bound of the range that is empty or starts with a byte below 128.
abbrev pub IsLow : Bytes → Type 0
IsLow [] = Unit
IsLow (c ∷ s) = c < 128

lo_hash_low : (lo : Bytes) → IsLow lo → (n : ℕ) × (lo_hash (of_string lo) ≡ ok n) × (n < 128)
unfolding lo_hash of_string empty char_to_u32
lo_hash_low [] h = (0, refl, omega arith)
lo_hash_low (c ∷ s) h = (c, rw (at_first (of_string (c ∷ s)) (omega arith)) (ground (arith, h)), h)

hash_high :
    (c : ℕ) (s : Bytes)
    → 128 ≤ c
    → (lo_hash (of_string (c ∷ s)) ≡ ok (2 ^ 32 - 256 + c))
      × (hi_hash (of_string (c ∷ s)) ≡ ok (2 ^ 32 - 256 + c))
unfolding lo_hash hi_hash of_string empty
hash_high c s h =
    let first = at_first (of_string (c ∷ s)) (omega arith) in
    (rw first (ground (arith, high c h)), rw first (ground (arith, high c h)))

hi_hash_empty : hi_hash (of_string []) ≡ ok 255
unfolding hi_hash of_string empty
hi_hash_empty = refl

for_files_none :
    {S : Type 0} (i last : ℕ) (body : ℕ → S → Run S) (s : S)
    → last < i
    → for_files rounds i last body s ≡ ok s
unfolding for_files
for_files_none i last body s h = rw (lt→leb i last h)

-- `Range` of engine_mp over its 256 files, which no thread writes to, with a bound whose first
-- byte is 128 or more: as an upper bound, with a lower bound that is empty or starts with a byte
-- below 128, it runs past the array of files; as a lower bound, with an empty upper bound, it
-- visits nothing and answers `succ`.
pub range_high_bounds :
    (fs : List File) (c : ℕ) (s lo : Bytes)
    → length fs ≡ hash_size
    → Unwritten fs
    → 128 ≤ c
    → IsLow lo
    → (range fs (of_string lo) (of_string (c ∷ s)) ≡ fault outside_array)
      × (range fs (of_string (c ∷ s)) (of_string []) ≡ ok (succ, fs, []))
unfolding range
range_high_bounds fs c s lo n all h low =
    let (lo_high, hi_high) = hash_high c s h in
    let (first, lo_eq, small) = lo_hash_low lo low in
    (
      rw (
        lo_eq,
        hi_high,
        lock_all_fault rounds first (2 ^ 32 - 256 + c) fs all (omega arith) (omega arith)
            (omega (arith, small)) (omega arith),
      ),
      rw (
        lo_high,
        hi_hash_empty,
        for_files_none (2 ^ 32 - 256 + c) 255 lock_file fs (omega arith),
        gt→ne (2 ^ 32 - 256 + c) 255 (omega arith),
        for_files_none (2 ^ 32 - 256 + c) 255
            (visit_file fs (2 ^ 32 - 256 + c) 255 (of_string (c ∷ s)) (of_string [])) []
            (omega arith),
        for_files_none (2 ^ 32 - 256 + c) 255 unlock_file fs (omega arith),
      ),
    )
