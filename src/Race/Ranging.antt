-- ===== src/Race/Ranging.antt =====
-- engine_race/engine_race.cc: `EngineRace::Range`, and the order of keys that it relies on.
pub mod Buckets
pub mod Loops
pub mod Steps
pub mod Answers
use nvm_kv.Prelude.{
  ℕ, zero, suc, ◌+◌, ◌-◌, ◌%◌, Option, none, some, List, [], ◌∷◌, ◌++◌, Bool, not, ◌&&◌, leb, ◌==◌,
  if◌then◌else◌, length, Bytes,
}
use nvm_kv.Polar.{PolarString, at, to_string}
use nvm_kv.OrdMap.{OrdMap, lower_bound, span}
use nvm_kv.Posix.{Io}
use nvm_kv.Engine.{RetCode, succ, Run, ok, fault, stuck, ◌>>=◌, past_end}
use nvm_kv.Race.Bucket.{Bucket, load_location, mutex_lock, mutex_unlock}
use nvm_kv.Race.Reading.{get_string_from_location}
use nvm_kv.Race.Routing.{EngineRace, which_bucket, bucket_at, put_bucket}

-- for (u8 i = first; i <= last; i++): `i` wraps at 256, so 257 rounds are more than the loop can
-- make with a last value below 255; with 255 it never ends.
unfoldable pub for_u8 {ℓ} : {S : Type ℓ} → ℕ → ℕ → ℕ → (ℕ → S → Run S) → S → Run S
for_u8 zero i last body s = stuck
for_u8 (suc fuel) i last body s =
    let rest = body i s >>= (λ s'. for_u8 fuel ((i + 1) % 256) last body s') in
    if leb i last then rest else ok s

abbrev pub u8_rounds : ℕ
u8_rounds = 257

-- The calls of `Visit`, in order
abbrev pub Visits : Type 0
Visits = List (Bytes × Bytes)

-- The loop over the entries between two iterators: the string `value` is passed on from one entry
-- to the next, and the result of the read is not looked at.
unfoldable pub visit_entries : List Io → Bucket → OrdMap ℕ → Bytes → Run (Bucket × Visits × List Io)
visit_entries io f [] value = ok (f, [], io)
visit_entries io f (e ∷ entries) value = do
  a ← get_string_from_location io f (load_location f.key_mmap e.1) value
  (f', visits, io') ← visit_entries a.io a.bucket entries a.value
  ok (f', (e.0, a.value) ∷ visits, io')

-- The two iterators of a bucket
unfoldable pub first_position : Bucket → Bool → PolarString → ℕ
first_position f bounded lower = if bounded then lower_bound (to_string lower) f.map else 0

unfoldable pub last_position : Bucket → Bool → PolarString → ℕ
last_position f bounded upper =
    if bounded then lower_bound (to_string upper) f.map else length f.map

abbrev spanned : Option (OrdMap ℕ) → Run (OrdMap ℕ)
spanned none = fault past_end
spanned (some entries) = ok entries

-- One bucket of the range, by whether it is the first and the last one with a bound
unfoldable pub range_bucket :
    List Io → Bucket → Bool → Bool → PolarString → PolarString → Run (Bucket × Visits × List Io)
range_bucket io f is_first is_last lower upper = do
  entries ← spanned (span (first_position f is_first lower) (last_position f is_last upper) f.map)
  visit_entries io f entries []

pub record Visiting : Type 0 where
  pub engine : EngineRace
  pub visits : Visits
  pub io : List Io

unfoldable pub lock_one : ℕ → EngineRace → Run EngineRace
lock_one i e = do f ← bucket_at e.buckets i; f' ← mutex_lock f; ok (put_bucket e i f')

unfoldable pub unlock_one : ℕ → EngineRace → Run EngineRace
unlock_one i e = do f ← bucket_at e.buckets i; ok (put_bucket e i (mutex_unlock f))

abbrev pub nonempty : PolarString → Bool
nonempty s = not (s.size == 0)

unfoldable pub visit_one : ℕ → ℕ → PolarString → PolarString → ℕ → Visiting → Run Visiting
visit_one lo_bid hi_bid lower upper i s = do
  f ← bucket_at s.engine.buckets i
  (f', visits, io) ←
      range_bucket s.io f (i == lo_bid && nonempty lower) (i == hi_bid && nonempty upper) lower
        upper
  ok (record { engine = put_bucket s.engine i f'; visits = s.visits ++ visits; io = io })

-- The first and the last bucket of the range
unfoldable pub lo_bucket : ℕ → PolarString → Run ℕ
lo_bucket n lower = if nonempty lower then at lower 0 >>= which_bucket n else ok 0

unfoldable pub hi_bucket : ℕ → PolarString → Run ℕ
hi_bucket n upper = if nonempty upper then at upper 0 >>= which_bucket n else ok ((n - 1) % 256)

-- EngineRace::Range
unfoldable pub range : List Io → EngineRace → PolarString → PolarString → Run (RetCode × Visiting)
range io e lower upper = do
  lo_bid ← lo_bucket (length e.buckets) lower
  hi_bid ← hi_bucket (length e.buckets) upper
  locked ← for_u8 u8_rounds lo_bid hi_bid lock_one e
  s ←
      for_u8 u8_rounds lo_bid hi_bid (visit_one lo_bid hi_bid lower upper)
        (record { engine = locked; visits = []; io = io })
  released ← for_u8 u8_rounds lo_bid hi_bid unlock_one s.engine
  ok (succ, record s { engine = released })
