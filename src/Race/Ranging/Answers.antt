-- ===== src/Race/Ranging/Answers.antt =====
-- `EngineRace::Range` as a whole: what it visits, and that it leaves the engine as it was.
use nvm_kv.Prelude.{
  ℕ, suc, ◌+◌, ◌-◌, ◌/◌, ◌%◌, ◌≤◌, ◌<◌, ◌≡◌, refl, sym, ap, ◌∙◌, arith, List, [], some, Bool, false,
  if◌then◌else◌, length, get_elem?, Bool-cases, inl, inr, ◌⊎◌, Bytes, before,
}
use nvm_kv.Polar.{PolarString, byte_at, HasFirst, at_first, to_string}
use nvm_kv.OrdMap.{IsSorted}
use nvm_kv.Posix.{Io, NoFailure, transfers}
use nvm_kv.Engine.{succ, ok}
use nvm_kv.Race.Bucket.{Bucket}
use nvm_kv.Race.Routing.{EngineRace, num_per_bucket}
use nvm_kv.Race.Routing.Bounds.{which_bucket_ok}
use nvm_kv.Race.Store.{view, IsValid}
use nvm_kv.Race.Ranging.{
  u8_rounds, lock_one, unlock_one, visit_one, nonempty, lo_bucket, hi_bucket, range,
}
use nvm_kv.Race.Ranging.Loops.{for_u8-rule, Mirrors, Mirrors-ext, Mirrors-IsValid, view-Mirrors}
use nvm_kv.Race.Ranging.Steps.{
  locked_below, locked_from, locking_step, unlocking_step, pairs_below, pairs_below_start, cost,
  Visited, visiting_step,
}

-- The first and the last bucket of a range, among `n`.
abbrev pub first_bucket : ℕ → PolarString → ℕ
first_bucket n lower = if nonempty lower then byte_at lower 0 / num_per_bucket n else 0

abbrev pub last_bucket : ℕ → PolarString → ℕ
last_bucket n upper = if nonempty upper then byte_at upper 0 / num_per_bucket n else n - 1

lo_bucket_ok :
    (n : ℕ) (lower : PolarString)
    → 2 ≤ n
    → HasFirst lower
    → lo_bucket n lower ≡ ok (first_bucket n lower)
unfolding lo_bucket
lo_bucket_ok n lower several byte =
    let (w, _) = which_bucket_ok n (byte_at lower 0) several byte.1 in
    elim (Bool-cases (nonempty lower)) [ inl h ↦ rw (h, at_first lower byte.0) w | inr h ↦ rw h ]

hi_bucket_ok :
    (n : ℕ) (upper : PolarString)
    → 2 ≤ n
    → n ≤ 255
    → HasFirst upper
    → (hi_bucket n upper ≡ ok (last_bucket n upper)) × (last_bucket n upper < n)
unfolding hi_bucket
hi_bucket_ok n upper several few byte =
    let (w, b) = which_bucket_ok n (byte_at upper 0) several byte.1 in
    let e : (n - 1) % 256 ≡ n - 1 = omega arith in
    elim (Bool-cases (nonempty upper)) [
      | inl h ↦ rw (h, at_first upper byte.0) (w, b)
      | inr h ↦ rw (h, e) (refl, omega arith)
    ]

-- `Range` visits the pairs of its buckets between the bounds, and changes no value.
abbrev pub Ranges : List Io → EngineRace → PolarString → PolarString → Type 0
Ranges io e lower upper =
    (e' : EngineRace) × (io' : List Io) × (range io e lower upper
      ≡ ok (
        succ,
        record {
          engine = e';
          visits =
              pairs_below e.buckets (first_bucket (length e.buckets) lower)
                (last_bucket (length e.buckets) upper) lower upper
                (suc (last_bucket (length e.buckets) upper));
          io = io';
        },
      ))
    × IsValid e'
    × ((key : Bytes) → view e' key ≡ view e key)

-- No lock is held in a well formed engine.
none_held :
    (e : EngineRace) (first : ℕ)
    → IsValid e
    → Mirrors (locked_below first first) e.buckets e.buckets
none_held e first valid = record {
  size = refl;
  each = λ j f there.
      let h : locked_below first first j ≡ false = ground arith in
      (
        f.position,
        rw h (
            there
            ∙ ap (λ (b : Bool). some (record f { locked = b })) (valid.each j f there).unlocked),
      );
}

-- `Range` on an engine of 2 to 255 well formed buckets with sorted maps answers `succ`, visits,
-- bucket after bucket and in the order of each map, the pairs whose keys are not before the lower
-- bound (in the first bucket) and before the upper bound (in the last bucket), where the empty
-- string bounds nothing, and leaves well formed buckets with every lock released and every value
-- as it was. The first byte of each bound can be read and is below 256, the bucket of the upper
-- bound is not before that of the lower one, a nonempty upper bound is not before the lower
-- bound, no call of read(2) fails, and for each entry of the buckets up to the last one of the
-- range 4097 calls can move bytes.
pub range-pairs :
    (io : List Io) (e : EngineRace) (lower upper : PolarString)
    → IsValid e
    → length e.buckets ≤ 255
    → ((j : ℕ) (f : Bucket) → get_elem? e.buckets j ≡ some f → IsSorted f.map)
    → HasFirst lower
    → HasFirst upper
    → first_bucket (length e.buckets) lower ≤ last_bucket (length e.buckets) upper
    → (nonempty upper ≡ false) ⊎ (before (to_string upper) (to_string lower) ≡ false)
    → NoFailure io
    → cost e.buckets (last_bucket (length e.buckets) upper + 1) ≤ transfers io
    → Ranges io e lower upper
unfolding range
range-pairs io e lower upper valid few sorted lower_byte upper_byte le ordered good enough =
    let n : ℕ = length e.buckets in
    let first : ℕ = first_bucket n lower in
    let last : ℕ = last_bucket n upper in
    let lo = lo_bucket_ok n lower valid.several lower_byte in
    let (hi, below) = hi_bucket_ok n upper valid.several few upper_byte in
    let (locked, run₁, m₁) =
      for_u8-rule first last lock_one (λ i s. Mirrors (locked_below first i) e.buckets s.buckets)
        (omega arith)
        (λ i s from to m. locking_step e.buckets s first last i valid.each below from to m)
        u8_rounds first e (omega arith) (omega arith) (omega arith) (none_held e first valid) in
    let (s, run₂, v) =
      for_u8-rule first last (visit_one first last lower upper)
        (Visited e.buckets first last lower upper) (omega arith)
        (visiting_step e.buckets first last lower upper valid.each sorted below ordered) u8_rounds
        first (record { engine = locked; visits = []; io = io }) (omega arith) (omega arith)
        (omega arith)
        (record {
          mirrors =
              Mirrors-ext (locked_below first (last + 1)) (locked_from first last) e.buckets
                locked.buckets (λ j. ground arith) m₁;
          visits = sym (pairs_below_start e.buckets first last lower upper first (omega arith));
          no_failure = good;
          enough = omega (arith, enough);
        }) in
    let (released, run₃, m₃) =
      for_u8-rule first last unlock_one (λ i s. Mirrors (locked_from i last) e.buckets s.buckets)
        (omega arith) (λ i s from to m. unlocking_step e.buckets s last i below to m) u8_rounds
        first s.engine (omega arith) (omega arith) (omega arith) v.mirrors in
    let free =
      Mirrors-ext (locked_from (last + 1) last) (λ j. false) e.buckets released.buckets
        (λ j. ground arith) m₃ in
    let one_more : last + 1 ≡ suc last = omega arith in
    (
      released,
      s.io,
      rw (lo, hi, run₁, run₂, run₃)
          (ap (λ visits. ok (succ, record { engine = released; visits = visits; io = s.io }))
            (v.visits ∙ ap (pairs_below e.buckets first last lower upper) one_more)),
      Mirrors-IsValid e released free valid,
      view-Mirrors e released free,
    )
