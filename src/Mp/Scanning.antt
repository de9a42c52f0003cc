-- ===== src/Mp/Scanning.antt =====
-- engine_mp/engine_race.h: `EngineRace::Range`.
pub mod Bounds
use nvm_kv.Prelude.{
  ℕ, zero, suc, ◌+◌, ◌-◌, ◌%◌, ◌^◌, Option, none, some, List, [], ◌∷◌, ◌++◌, Bool, true, false, leb,
  ltb, ◌==◌, if◌then◌else◌, length, set, Bytes,
}
use nvm_kv.Polar.{PolarString, at, empty, to_string}
use nvm_kv.OrdMap.{OrdMap, lower_bound, span}
use nvm_kv.Engine.{RetCode, succ, Run, ok, fault, stuck, ◌>>=◌, past_end}
use nvm_kv.Mp.{File, hash_size, file_at, read_lock, read_unlock}

-- A `char` that is stored in a u32: the type is signed, so a byte from 128 on is negative first.
unfoldable pub char_to_u32 : ℕ → ℕ
char_to_u32 c = if ltb c 128 then c else 2 ^ 32 - 256 + c

unfoldable pub lo_hash : PolarString → Run ℕ
lo_hash lo = if empty lo then ok 0 else (do c ← at lo 0; ok (char_to_u32 c))

unfoldable pub hi_hash : PolarString → Run ℕ
hi_hash hi = if empty hi then ok (hash_size - 1) else (do c ← at hi 0; ok (char_to_u32 c))

-- for (u32 i = first; i <= last; ++i), over the files; an index past the array ends it.
unfoldable pub for_files {ℓ} : {S : Type ℓ} → ℕ → ℕ → ℕ → (ℕ → S → Run S) → S → Run S
for_files zero i last body s = stuck
for_files (suc fuel) i last body s =
    let rest = body i s >>= (λ s'. for_files fuel ((i + 1) % 2 ^ 32) last body s') in
    if leb i last then rest else ok s

-- Only the first 256 rounds can find their file, so 258 are enough.
abbrev pub rounds : ℕ
rounds = 258

unfoldable pub lock_file : ℕ → List File → Run (List File)
lock_file i fs = do f ← file_at fs i; f' ← read_lock f; ok (set fs i f')

unfoldable pub unlock_file : ℕ → List File → Run (List File)
unlock_file i fs = do f ← file_at fs i; ok (set fs i (read_unlock f))

abbrev pub Visits : Type 0
Visits = List (Bytes × Bytes)

-- The position of the upper bound; the empty string stands for the end.
unfoldable pub upper_position : PolarString → OrdMap Bytes → ℕ
upper_position hi m = if empty hi then length m else lower_bound (to_string hi) m

abbrev spanned : Option (OrdMap Bytes) → Visits → Run Visits
spanned none visits = fault past_end
spanned (some entries) visits = ok (visits ++ entries)

-- The entries of one file, by its place among the files of the range
unfoldable pub visit_file : List File → ℕ → ℕ → PolarString → PolarString → ℕ → Visits → Run Visits
visit_file fs first last lo hi i visits = do
  f ← file_at fs i
  spanned
      (if i == first
        then span (lower_bound (to_string lo) f.map) (length f.map) f.map
        else (if i == last
            then span 0 (upper_position hi f.map) f.map
            else span 0 (length f.map) f.map))
      visits

-- The branch in which both bounds lie in one file
unfoldable pub visit_single : List File → ℕ → PolarString → PolarString → Run Visits
visit_single fs i lo hi = do
  f ← file_at fs i
  spanned (span (lower_bound (to_string lo) f.map) (upper_position hi f.map) f.map) []

-- EngineRace::Range
unfoldable pub range : List File → PolarString → PolarString → Run (RetCode × List File × Visits)
range fs lo hi = do
  first ← lo_hash lo
  last ← hi_hash hi
  locked ← for_files rounds first last lock_file fs
  visits ←
      (if first == last
        then visit_single locked first lo hi
        else for_files rounds first last (visit_file locked first last lo hi) [])
  released ← for_files rounds first last unlock_file locked
  ok (succ, released, visits)
