-- ===== src/Tests/MpExamples.antt =====
-- The theorems about engine_mp at concrete pairs, and at 256 empty files.
use nvm_kv.Prelude.{
  ℕ, zero, suc, ◌+◌, ◌%◌, ◌≤◌, ◌<◌, ◌≡◌, refl, sym, ap, arith, List, [], ◌∷◌, true, false, length,
  Option, none, some, Bytes,
}
use mathlib.Core.Option.{some-injective}
use nvm_kv.Polar.{of_string}
use nvm_kv.Engine.{succ, ok, fault, outside_array, outside_mapping}
use nvm_kv.Mp.{Calls, File, hash_size, open_file, tot_sz}
use nvm_kv.Mp.Pairs.{tot_sz_bounds, PairOutcome, write_pair_cases}
use nvm_kv.Mp.Restarting.{IsStored, Restarts, open_file-write_pair}
use nvm_kv.Mp.Scanning.{range}
use nvm_kv.Mp.Scanning.Bounds.{Unwritten, range_high_bounds}

abbrev abc : Bytes
abc = b'a' ∷ b'b' ∷ b'c' ∷ []

abbrev idle : File
idle = record { map = []; content = []; readers = 0; writing = false }

write_pair_cases_example : PairOutcome 99 (λ q. 0) idle abc (b'v' ∷ [])
write_pair_cases_example = write_pair_cases 99 (λ q. 0) idle abc (b'v' ∷ []) refl refl (omega arith)

tot_sz_bounds_example :
    (tot_sz 8 5000 % 4096 ≡ 0)
    × (8 + 8 + 5000 ≤ tot_sz 8 5000)
    × (tot_sz 8 5000 < 8 + 8 + 5000 + 4096)
tot_sz_bounds_example = tot_sz_bounds 8 5000 (omega arith)

idle_files : ℕ → List File
idle_files zero = []
idle_files (suc n) = idle ∷ idle_files n

length-idle_files : (n : ℕ) → length (idle_files n) ≡ n
unfolding idle_files
length-idle_files zero = refl
length-idle_files (suc n) = omega (arith, length-idle_files n)

idle_files-Unwritten : (n : ℕ) → Unwritten (idle_files n)
unfolding idle_files
idle_files-Unwritten zero i f h = absurd (none-ne-some h)
  where
    none-ne-some : ◌≡◌ {A = Option File} none (some f) → ⊥
    none-ne-some h = cc
idle_files-Unwritten (suc n) zero f h = ap (λ (f : File). f.writing) (sym (some-injective _ _ h))
idle_files-Unwritten (suc n) (suc i) f h = idle_files-Unwritten n i f h

range_high_bounds_example :
    (range (idle_files hash_size) (of_string abc) (of_string (200 ∷ abc)) ≡ fault outside_array)
    × (range (idle_files hash_size) (of_string (200 ∷ abc)) (of_string [])
        ≡ ok (succ, idle_files hash_size, []))
range_high_bounds_example =
    range_high_bounds (idle_files hash_size) 200 abc abc (length-idle_files hash_size)
      (idle_files-Unwritten hash_size) (omega arith) (omega arith)

nothing-IsStored : IsStored [] []
nothing-IsStored = record { aligned = refl; pages = refl }

abbrev calls : Calls
calls = record { readable = true; mapped = true; writable = true }

open_file-write_pair_example : Restarts calls 4095 (λ q. 7) [] [] abc (b'v' ∷ [])
open_file-write_pair_example =
    open_file-write_pair calls 4095 (λ q. 7) [] [] abc (b'v' ∷ []) refl refl refl nothing-IsStored
      (omega arith) (unfold tot_sz nvm_kv.Mp.page_up in omega arith)

-- A file that is not empty and cannot be mapped
unmapped : open_file (record calls { mapped = false }) (some abc) ≡ fault outside_mapping
unfolding open_file nvm_kv.Mp.read_pairs
unmapped = refl
