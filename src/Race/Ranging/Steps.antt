-- ===== src/Race/Ranging/Steps.antt =====
-- One round of each of the three loops of `EngineRace::Range`: lock, visit and unlock a bucket.
use native.Mathlib.Decide.{dec_lt}
use nvm_kv.Prelude.{
  ℕ, zero, suc, ◌+◌, ◌*◌, ◌≤◌, ◌<◌, ◌≡◌, refl, ap, arith, List, [], ◌++◌, Option, none, some, Bool,
  true, false, ◌&&◌, leb, ltb, ◌==◌, if◌then◌else◌, length, get_elem?, get_elem?-lt, le→leb, lt→leb,
  inl, inr, ◌⊎◌, before,
}
use nvm_kv.Polar.{PolarString, to_string}
use nvm_kv.OrdMap.{IsSorted}
use nvm_kv.OrdMap.Span.{select, not_before_empty}
use nvm_kv.Posix.{NoFailure, transfers}
use nvm_kv.Engine.{ok}
use nvm_kv.Race.Bucket.{Bucket, mutex_lock, mutex_unlock}
use nvm_kv.Race.Reading.{read_buf_size}
use nvm_kv.Race.Live
use nvm_kv.Race.Routing.{EngineRace, bucket_at, put_bucket}
use nvm_kv.Race.Ranging.{Visits, Visiting, lock_one, unlock_one, visit_one, nonempty}
use nvm_kv.Race.Ranging.Buckets.{
  between, IsOrdered, lower_in, upper_in, pairs, entries-Inside, range_bucket_ok,
}
use nvm_kv.Race.Ranging.Loops.{Mirrors, Mirrors-set}

bucket_at-some :
    (bs : List Bucket) (i : ℕ) (f : Bucket) → get_elem? bs i ≡ some f → bucket_at bs i ≡ ok f
unfolding bucket_at
bucket_at-some bs i f e = rw (e, bucket_at)

-- The first `i` buckets from `first` on are locked, and from `i` on up to `last`.
abbrev pub locked_below : ℕ → ℕ → ℕ → Bool
locked_below first i j = leb first j && ltb j i

abbrev pub locked_from : ℕ → ℕ → ℕ → Bool
locked_from i last j = leb i j && leb j last

pub locking_step :
    (bs : List Bucket) (e : EngineRace) (first last i : ℕ)
    → ((j : ℕ) (f : Bucket) → get_elem? bs j ≡ some f → Live.IsValid f)
    → last < length bs
    → first ≤ i
    → i ≤ last
    → Mirrors (locked_below first i) bs e.buckets
    → (e' : EngineRace) × (lock_one i e ≡ ok e')
      × Mirrors (locked_below first (i + 1)) bs e'.buckets
unfolding lock_one mutex_lock put_bucket
locking_step bs e first last i valid below from to m =
    let (f, there) = get_elem?-lt bs i (omega arith) in
    let (p, there') = m.each i f there in
    let free : locked_below first i i ≡ false = ground arith in
    let taken : locked_below first (i + 1) i ≡ true = ground arith in
    let kept =
      Mirrors-set (locked_below first i) (locked_below first (i + 1)) bs e.buckets i p f m there
        (λ j ne. ground (arith, ne)) in
    (
      put_bucket e i (record f { locked = locked_below first (i + 1) i; position = p }),
      rw (bucket_at-some e.buckets i _ there', free, taken),
      kept,
    )

pub unlocking_step :
    (bs : List Bucket) (e : EngineRace) (last i : ℕ)
    → last < length bs
    → i ≤ last
    → Mirrors (locked_from i last) bs e.buckets
    → (e' : EngineRace) × (unlock_one i e ≡ ok e')
      × Mirrors (locked_from (i + 1) last) bs e'.buckets
unfolding unlock_one mutex_unlock put_bucket
unlocking_step bs e last i below to m =
    let (f, there) = get_elem?-lt bs i (omega arith) in
    let (p, there') = m.each i f there in
    let freed : locked_from (i + 1) last i ≡ false = ground arith in
    let kept =
      Mirrors-set (locked_from i last) (locked_from (i + 1) last) bs e.buckets i p f m there
        (λ j ne. ground (arith, ne)) in
    (
      put_bucket e i (record f { locked = locked_from (i + 1) last i; position = p }),
      rw (bucket_at-some e.buckets i _ there', freed),
      kept,
    )

module _ (bs : List Bucket) where
  abbrev entry_count : Option Bucket → ℕ
  entry_count none = 0
  entry_count (some f) = length f.map

  -- How many calls of read(2) the entries of the buckets below `i` can take.
  abbrev pub cost : ℕ → ℕ
  cost zero = 0
  cost (suc i) = cost i + entry_count (get_elem? bs i) * read_buf_size

  cost_mono : (i j : ℕ) → i ≤ j → cost i ≤ cost j
  cost_mono i zero le = let e : i ≡ 0 = omega arith in rw e (omega arith)
  cost_mono i (suc j) le = elim (dec_lt i (suc j)) [
    | yes lt ↦ omega (arith, cost_mono i j (omega arith))
    | no past ↦ let e : i ≡ suc j = omega arith in rw e (omega arith)
  ]

module _ (bs : List Bucket) (first last : ℕ) (lower upper : PolarString) where
  -- Whether a bound counts in bucket `i`.
  abbrev is_first : ℕ → Bool
  is_first i = i == first && nonempty lower

  abbrev is_last : ℕ → Bool
  is_last i = i == last && nonempty upper

  abbrev pairs_of : ℕ → Option Bucket → Visits
  pairs_of i none = []
  pairs_of i (some f) =
      pairs f.key_mmap f.data_file
        (select (between (lower_in (is_first i) lower) (upper_in (is_last i) upper)) f.map)

  -- The pairs of the buckets from `first` on and below `i`.
  abbrev pub pairs_below : ℕ → Visits
  pairs_below zero = []
  pairs_below (suc i) =
      if leb first i then pairs_below i ++ pairs_of i (get_elem? bs i) else pairs_below i

  pub pairs_below_start : (i : ℕ) → i ≤ first → pairs_below i ≡ []
  pairs_below_start zero le = refl
  pairs_below_start (suc i) le =
      rw (lt→leb first i (omega arith)) (pairs_below_start i (omega arith))

  upper_in-IsOrdered :
      (b c : Bool)
      → (c ≡ true → before (to_string upper) (to_string lower) ≡ false)
      → IsOrdered (lower_in b lower) (upper_in c upper)
  upper_in-IsOrdered b false h = tt
  upper_in-IsOrdered false true h = not_before_empty (to_string upper)
  upper_in-IsOrdered true true h = h refl

  -- The loop that visits, before bucket `i`.
  pub record Visited (i : ℕ) (s : Visiting) : Type 0 where
    pub mirrors : Mirrors (locked_from first last) bs s.engine.buckets
    pub visits : s.visits ≡ pairs_below i
    pub no_failure : NoFailure s.io
    pub enough : cost bs (last + 1) ≤ transfers s.io + cost bs i

  module _ (valid : (j : ℕ) (f : Bucket) → get_elem? bs j ≡ some f → Live.IsValid f)
      (sorted : (j : ℕ) (f : Bucket) → get_elem? bs j ≡ some f → IsSorted f.map)
      (below : last < length bs)
      (ordered : (nonempty upper ≡ false)
        ⊎ (before (to_string upper) (to_string lower) ≡ false)) where
    is_last-IsOrdered :
        (i : ℕ) → IsOrdered (lower_in (is_first i) lower) (upper_in (is_last i) upper)
    is_last-IsOrdered i =
        upper_in-IsOrdered (is_first i) (is_last i)
          λ k. elim ordered [ inl empty ↦ ground (arith, k, empty) | inr o ↦ o ]

    pub visiting_step :
        (i : ℕ) (s : Visiting)
        → first ≤ i
        → i ≤ last
        → Visited i s
        → (s' : Visiting) × (visit_one first last lower upper i s ≡ ok s') × Visited (i + 1) s'
    unfolding visit_one put_bucket
    visiting_step i s from to inv =
        let (f, there) = get_elem?-lt bs i (omega arith) in
        let (p, there') = inv.mirrors.each i f there in
        let one_more : i + 1 ≡ suc i = omega arith in
        let c : cost bs (suc i) ≡ cost bs i + length f.map * read_buf_size =
          ap (λ o. cost bs i + entry_count bs o * read_buf_size) there in
        let (q, io', run, good', spent) =
          range_bucket_ok s.io (record f { locked = locked_from first last i; position = p })
            (is_first i) (is_last i) lower upper (valid i f there).is_open
            (entries-Inside f (valid i f there) (sorted i f there)) (sorted i f there)
            (is_last-IsOrdered i) inv.no_failure
            (omega (arith, inv.enough, c, cost_mono bs (suc i) (last + 1) (omega arith))) in
        (
          record {
            engine =
                put_bucket s.engine i
                  (record f { locked = locked_from first last i; position = q });
            visits = s.visits ++ pairs_of i (some f);
            io = io';
          },
          rw (bucket_at-some s.engine.buckets i _ there', run),
          record {
            mirrors =
                Mirrors-set (locked_from first last) (locked_from first last) bs s.engine.buckets i
                  q f inv.mirrors there (λ j ne. refl);
            visits =
                rw (one_more, le→leb first i from, there)
                  (ap (λ (v : Visits). v ++ pairs_of i (some f)) inv.visits);
            no_failure = good';
            enough = rw one_more (omega (arith, inv.enough, c, spent));
          },
        )
