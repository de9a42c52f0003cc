-- ===== src/Tth/Store.antt =====
-- engine_tth as a key-value store: the buckets together are one map from keys to values, whatever the
-- hash function is.
use mathlib.Core.Option.{some-injective}
use mathlib.Core.Path.{subst}
use native.Mathlib.Decide.{ℕ_discrete}
use nvm_kv.Prelude.{
  ℕ, ◌%◌, ◌≤◌, ◌<◌, ◌≡◌, ◌≢◌, refl, sym, ap, ◌∙◌, arith, List, Option, none, some, get_elem?, set,
  length, Bytes, Memory, if◌then◌else◌, same, eq_of_same, false, Bool-cases, inl, inr, length-set,
  get_elem?-set_self, get_elem?-set_ne, get_elem?-lt,
}
use nvm_kv.Polar.{of_string}
use nvm_kv.Polar.Order.{to_string-of_string}
use nvm_kv.Posix.{Io, NoFailure, transfers}
use nvm_kv.Engine.{succ, ok}
use nvm_kv.Race.Store.Operations.{code_of_view, value_of_view}
use nvm_kv.Tth.Bucket.{Bucket}
use nvm_kv.Tth.Live
use nvm_kv.Tth.Live.Writing
use nvm_kv.Tth.Live.Reading
use nvm_kv.Tth.Live.Reading.{Delivers}
use nvm_kv.Tth.Routing.{EngineRace, thread_cnt, bucket_at, calculate_bucket_id, write, read}

-- Every bucket of the array is well formed.
pub record IsValid (e : EngineRace) : Type 0 where
  pub eight : length e.buckets ≡ thread_cnt
  pub each : (i : ℕ) (f : Bucket) → get_elem? e.buckets i ≡ some f → Live.IsValid f

abbrev pub view_in : Option Bucket → Bytes → Option Bytes
view_in none key = none
view_in (some f) key = Live.view f key

abbrev put : EngineRace → ℕ → Bucket → EngineRace
put e i f = record e { buckets = set e.buckets i f }

module _ (hash_func : Bytes → ℕ) where
  abbrev home : Bytes → ℕ
  home key = hash_func key % thread_cnt

  unfoldable pub view : EngineRace → Bytes → Option Bytes
  view e key = view_in (get_elem? e.buckets (home key)) key

  -- A bucket is replaced by a well formed one.
  module _ (e : EngineRace) (key : Bytes) (valid : IsValid e) (f f' : Bucket)
      (there : get_elem? e.buckets (home key) ≡ some f) (valid' : Live.IsValid f') where
    below : home key < length e.buckets
    below = rw valid.eight (omega arith)

    put-IsValid : IsValid (put e (home key) f')
    put-IsValid = record {
      eight = length-set e.buckets (home key) f' ∙ valid.eight;
      each = λ j g h. elim (ℕ_discrete (home key) j) [
        | yes here ↦
            subst Live.IsValid
              (some-injective _ _ (
                sym (get_elem?-set_self e.buckets (home key) f' below)
                ∙ ap (get_elem? (set e.buckets (home key) f')) here
                ∙ h))
              valid'
        | no other ↦ valid.each j g (sym (get_elem?-set_ne e.buckets (home key) j f' other) ∙ h)
      ];
    }

    -- What a change of the values in the bucket of a key means for the whole store
    view-put :
        (change : Bytes → Option Bytes → Option Bytes)
        → ((j : Bytes) → Live.view f' j ≡ change j (Live.view f j))
        → ((j : Bytes) → same j key ≡ false → (o : Option Bytes) → change j o ≡ o)
        → (j : Bytes) → view (put e (home key) f') j ≡ change j (view e j)
    unfolding view
    view-put change changed only j = elim (ℕ_discrete (home key) (home j)) [
      | yes here ↦ rw (← here, get_elem?-set_self e.buckets (home key) f' below, there) (changed j)
      | no away ↦
          rw (get_elem?-set_ne e.buckets (home key) (home j) f' away)
            (sym (only j (different away) (view_in (get_elem? e.buckets (home j)) j)))
    ]
      where
        different : home key ≢ home j → same j key ≡ false
        different away = elim (Bool-cases (same j key)) [
          | inl equal ↦ absurd (away (ap home (sym (eq_of_same j key equal))))
          | inr other ↦ other
        ]

  -- The bucket of a key, as the code finds it
  find_bucket :
      (e : EngineRace) (key : Bytes)
      → IsValid e
      → (f : Bucket) × (get_elem? e.buckets (home key) ≡ some f)
        × (bucket_at e.buckets (home key) ≡ ok f)
  unfolding bucket_at
  find_bucket e key valid =
      let inside : home key < length e.buckets = rw valid.eight (omega arith) in
      let (f, there) = get_elem?-lt e.buckets (home key) inside in (f, there, rw (there, bucket_at))

  -- `Write` answers `succ` with a well formed store in which the key alone has changed its value.
  abbrev pub Writes : List Io → EngineRace → Bytes → Bytes → Type 0
  Writes io e key value =
      (e' : EngineRace) × (io' : List Io) × (write hash_func io e (of_string key) (of_string value)
        ≡ ok (succ, e', io'))
      × IsValid e'
      × ((j : Bytes) → view e' j ≡ (if same j key then some value else view e j))

  -- The engine_tth of eight well formed buckets is one map from keys to values, whatever the hash
  -- function is: `Write` of a pair, over calls of write(2) of which none fails and as many move
  -- bytes as the value has, answers `succ` with well formed buckets again, and changes the value
  -- of that key and of no other. The bucket of the key has room for the pair: the record fits the
  -- mapping, the value has at most 4096 bytes of which none is zero, and the data file with the
  -- value stays below 2^64 bytes.
  pub write-Writes :
      (io : List Io) (e : EngineRace) (key value : Bytes)
      → IsValid e
      → ((f : Bucket) → get_elem? e.buckets (home key) ≡ some f → Live.HasRoom f key value)
      → NoFailure io
      → length value ≤ transfers io
      → Writes io e key value
  unfolding write calculate_bucket_id
  write-Writes io e key value valid room good enough =
      let (f, there, at) = find_bucket e key valid in
      let (f', io', run, valid', changed) =
        Writing.write-view io f key value (valid.each (home key) f there) (room f there) good
          enough in
      (
        put e (home key) f',
        io',
        rw (to_string-of_string key, at, run) refl,
        put-IsValid e key valid f f' there valid',
        view-put e key valid f f' there valid' (λ j o. if same j key then some value else o) changed
            (λ j h o. rw h refl),
      )

  -- `Read` answers with the value of the key, and leaves a well formed store with the same values.
  abbrev pub Reads : List Io → EngineRace → Bytes → Memory → Bytes → Type 0
  Reads io e key before value =
      (e' : EngineRace) × (io' : List Io) × (read hash_func io e (of_string key) before value
        ≡ ok (code_of_view (view e key), value_of_view (view e key) value, e', io'))
      × IsValid e'
      × ((j : Bytes) → view e' j ≡ view e j)

  -- On an engine_tth of eight well formed buckets, in which each value has at most 4096 bytes of
  -- which none is zero, whatever the hash function is and when the next call of read(2) moves all
  -- that is asked for, `Read` answers `succ` with the value of the key, or `not_found` with the
  -- caller's string unchanged where the key has none; the buckets are well formed afterwards and
  -- no key has another value.
  pub read-Reads :
      (io : List Io) (e : EngineRace) (key : Bytes) (before : Memory) (value : Bytes)
      → IsValid e
      → Delivers io
      → Reads io e key before value
  unfolding read calculate_bucket_id view
  read-Reads io e key before value valid delivers =
      let (f, there, at) = find_bucket e key valid in
      let (f', io', run, valid', kept) =
        Reading.read-view io f key before value (valid.each (home key) f there) delivers in
      (
        put e (home key) f',
        io',
        rw (to_string-of_string key, at, run, there) refl,
        put-IsValid e key valid f f' there valid',
        view-put e key valid f f' there valid' (λ j o. o) kept (λ j h o. refl),
      )
