-- ===== src/Race/Store/Operations.antt =====
-- `EngineRace::Write` and `EngineRace::Read` on the whole store.
use mathlib.Core.Option.{some-injective}
use mathlib.Core.Path.{subst}
use native.Mathlib.Decide.{ℕ_discrete}
use nvm_kv.Prelude.{
  ℕ, ◌+◌, ◌≤◌, ◌<◌, ◌≡◌, ◌≢◌, refl, sym, ap, ◌∙◌, List, [], ◌∷◌, Option, none, some, get_elem?, set,
  length, Bytes, if◌then◌else◌, same, eq_of_same, false, Bool-cases, inl, inr, length-set,
  get_elem?-set_self, get_elem?-set_ne, get_elem?-lt,
}
use nvm_kv.Prelude.{arith}
use nvm_kv.Polar.{of_string, at, at_first}
use nvm_kv.Polar.Order.{to_string-of_string}
use nvm_kv.Posix.{Io, opened, NoFailure, transfers, file_append}
use nvm_kv.Engine.{RetCode, succ, not_found, Run, ok}
use nvm_kv.Race.Bucket.{Bucket}
use nvm_kv.Race.Reading.{read_buf_size}
use nvm_kv.Posix.Append.{file_append-Wrote}
use nvm_kv.Race.Live
use nvm_kv.Race.Live.Writing.{written, written-IsValid, view-written, write-written}
use nvm_kv.Race.Live.Fetching.{answer_of, moved, read-answer_of, moved-IsValid, view-moved}
use nvm_kv.Race.Routing.{EngineRace, which_bucket, bucket_at, put_bucket, write, read}
use nvm_kv.Race.Routing.Bounds.{which_bucket_ok}
use nvm_kv.Race.Store.{first, home, view_in, view, IsValid, HasRoom}

at-of_string : (key : Bytes) → at (of_string key) 0 ≡ ok (first key)
unfolding of_string
at-of_string [] = at_first (of_string []) (omega arith)
at-of_string (b ∷ key) = at_first (of_string (b ∷ key)) (omega arith)

-- The bucket of a key, as the code finds it.
record Found (e : EngineRace) (key : Bytes) : Type 0 where
  bucket : Bucket
  which : which_bucket (length e.buckets) (first key) ≡ ok (home (length e.buckets) key)
  below : home (length e.buckets) key < length e.buckets
  there : get_elem? e.buckets (home (length e.buckets) key) ≡ some bucket
  bucket_at_eq : bucket_at e.buckets (home (length e.buckets) key) ≡ ok bucket

find_bucket : (e : EngineRace) (key : Bytes) → IsValid e → first key < 256 → Found e key
unfolding bucket_at
find_bucket e key valid byte =
    let (w, b) = which_bucket_ok (length e.buckets) (first key) valid.several byte in
    let (f, t) = get_elem?-lt e.buckets (home (length e.buckets) key) b in
    record { bucket = f; which = w; below = b; there = t; bucket_at_eq = rw (t, bucket_at) }

-- A bucket that is replaced by a well formed one, in which every key of the bucket has the value
-- that `change` gives it.
module _ (e : EngineRace) (i : ℕ) (f f' : Bucket) (valid : IsValid e) (below : i < length e.buckets)
    (there : get_elem? e.buckets i ≡ some f) (valid' : Live.IsValid f') where
  put_bucket-IsValid : IsValid (put_bucket e i f')
  unfolding put_bucket
  put_bucket-IsValid = record {
    several = rw (length-set e.buckets i f') valid.several;
    each = λ j g h. each' j g h;
  }
    where
      each' : (j : ℕ) (g : Bucket) → get_elem? (set e.buckets i f') j ≡ some g → Live.IsValid g
      each' j g h = elim (ℕ_discrete i j) [
        | yes same_place ↦
            subst Live.IsValid
              (some-injective _ _ (
                sym (get_elem?-set_self e.buckets i f' below)
                ∙ ap (get_elem? (set e.buckets i f')) same_place
                ∙ h))
              valid'
        | no other ↦ valid.each j g (sym (get_elem?-set_ne e.buckets i j f' other) ∙ h)
      ]

  view-put_bucket :
      (j : Bytes)
      → view (put_bucket e i f') j
        ≡ view_in (get_elem? (set e.buckets i f') (home (length e.buckets) j)) j
  unfolding view put_bucket
  view-put_bucket j = rw (length-set e.buckets i f')

  view-put_bucket_self :
      (j : Bytes) → home (length e.buckets) j ≡ i → view (put_bucket e i f') j ≡ Live.view f' j
  view-put_bucket_self j h = view-put_bucket j ∙ rw (h, get_elem?-set_self e.buckets i f' below)

  view_self : (j : Bytes) → home (length e.buckets) j ≡ i → view e j ≡ Live.view f j
  unfolding view
  view_self j h = rw (h, there)

  view-put_bucket_ne :
      (j : Bytes) → i ≢ home (length e.buckets) j → view (put_bucket e i f') j ≡ view e j
  unfolding view
  view-put_bucket_ne j h =
      view-put_bucket j ∙ rw (get_elem?-set_ne e.buckets i (home (length e.buckets) j) f' h)

size : (value : Bytes) → (of_string value).size ≡ length value
unfolding of_string
size value = refl

-- Keys of different buckets are different.
other_key :
    (e : EngineRace) (key j : Bytes)
    → home (length e.buckets) j ≢ home (length e.buckets) key
    → same j key ≡ false
other_key e key j h = elim (Bool-cases (same j key)) [
  | inl equal ↦ absurd (h (ap (home (length e.buckets)) (eq_of_same j key equal)))
  | inr different ↦ different
]

abbrev pub code_of_view : Option Bytes → RetCode
code_of_view none = not_found
code_of_view (some v) = succ

abbrev pub value_of_view : Option Bytes → Bytes → Bytes
value_of_view none value = value
value_of_view (some v) value = v

-- `Write` answers `succ` with a well formed store in which the key alone has changed its value.
abbrev pub Writes : List Io → EngineRace → Bytes → Bytes → Type 0
Writes io e key value =
    (e' : EngineRace) × (io' : List Io) × (write io e (of_string key) (of_string value)
      ≡ ok (succ, e', io'))
    × IsValid e'
    × ((j : Bytes) → view e' j ≡ (if same j key then some value else view e j))

-- The same, with the bucket that `Write` replaces and the events that it leaves.
pub record Puts (io : List Io) (e : EngineRace) (key value : Bytes) : Type 0 where
  pub bucket : Bucket
  pub there : get_elem? e.buckets (home (length e.buckets) key) ≡ some bucket
  pub left : List Io
  pub run :
      write io e (of_string key) (of_string value)
      ≡ ok (succ, put_bucket e (home (length e.buckets) key) (written bucket key value), left)
  pub valid : IsValid (put_bucket e (home (length e.buckets) key) (written bucket key value))
  pub views :
      (j : Bytes)
      → view (put_bucket e (home (length e.buckets) key) (written bucket key value)) j
        ≡ (if same j key then some value else view e j)
  pub no_failure : NoFailure left
  pub spent : transfers io ≤ transfers left + length value

pub write-Puts :
    (io : List Io) (e : EngineRace) (key value : Bytes)
    → IsValid e
    → first key < 256
    → HasRoom e key value
    → NoFailure io
    → length value ≤ transfers io
    → Puts io e key value
unfolding write
write-Puts io e key value valid byte room good enough =
    let b = find_bucket e key valid byte in
    let i : ℕ = home (length e.buckets) key in
    let f : Bucket = b.bucket in
    let roomy = room.room f b.there in
    let valid' = written-IsValid f (valid.each i f b.there) key value roomy in
    let (_, _, no_failure, spent) = file_append-Wrote io f.data_file value good enough in
    record {
      bucket = f;
      there = b.there;
      left = (file_append opened io f.data_file value).io;
      run = rw (
        at-of_string key,
        b.which,
        b.bucket_at_eq,
        write-written f (valid.each i f b.there) key value roomy io (of_string key)
            (of_string value) (to_string-of_string key) (to_string-of_string value) (size value)
            good enough,
      );
      valid = put_bucket-IsValid e i f (written f key value) valid b.below b.there valid';
      views = λ j. elim (ℕ_discrete (home (length e.buckets) j) i) [
        | yes here ↦
            view-put_bucket_self e i f (written f key value) valid b.below b.there valid' j here
            ∙ view-written f (valid.each i f b.there) key value roomy j
            ∙ ap (λ (o : Option Bytes). if same j key then some value else o)
                (sym (view_self e i f (written f key value) valid b.below b.there valid' j here))
        | no away ↦
            view-put_bucket_ne e i f (written f key value) valid b.below b.there valid' j
              (λ h. away (sym h))
            ∙ sym (rw (other_key e key j away))
      ];
      no_failure = no_failure;
      spent = spent;
    }

-- The engine of at least two well formed buckets is one map from keys to values: `Write` of a
-- pair for which the bucket of the key has room, over calls of write(2) of which none fails and
-- as many move bytes as the value has, answers `succ` with well formed buckets again, and changes
-- the value of that key and of no other. The first byte of the key is below 256.
pub write-view :
    (io : List Io) (e : EngineRace) (key value : Bytes)
    → IsValid e
    → first key < 256
    → HasRoom e key value
    → NoFailure io
    → length value ≤ transfers io
    → Writes io e key value
write-view io e key value valid byte room good enough =
    let w = write-Puts io e key value valid byte room good enough in
    (
      put_bucket e (home (length e.buckets) key) (written w.bucket key value),
      w.left,
      w.run,
      w.valid,
      w.views,
    )

answered :
    (e : EngineRace) (i : ℕ) (f : Bucket) (p : ℕ) (value : Bytes) (io : List Io) (o : Option Bytes)
    → ◌≡◌ {A = Run (RetCode × Bytes × EngineRace × List Io)}
        (ok (
          (answer_of o value (moved f p) io).ret,
          (answer_of o value (moved f p) io).value,
          put_bucket e i (answer_of o value (moved f p) io).bucket,
          (answer_of o value (moved f p) io).io,
        ))
        (ok (code_of_view o, value_of_view o value, put_bucket e i (moved f p), io))
answered e i f p value io none = refl
answered e i f p value io (some v) = refl

-- `Read` answers by the value of the key, and leaves a well formed store with the same values.
abbrev pub Reads : List Io → EngineRace → Bytes → Bytes → Type 0
Reads io e key value =
    (e' : EngineRace) × (io' : List Io) × (read io e (of_string key) value
      ≡ ok (code_of_view (view e key), value_of_view (view e key) value, e', io'))
    × IsValid e'
    × ((j : Bytes) → view e' j ≡ view e j)

-- On an engine of at least two well formed buckets, over calls of read(2) of which none fails and
-- at least 4097 can move bytes, `Read` answers `succ` with the value of the key, or `not_found`
-- with the caller's string unchanged where the key has none; the buckets are well formed
-- afterwards and no key has another value. The first byte of the key is below 256.
pub read-view :
    (io : List Io) (e : EngineRace) (key value : Bytes)
    → IsValid e
    → first key < 256
    → NoFailure io
    → read_buf_size ≤ transfers io
    → Reads io e key value
unfolding read
read-view io e key value valid byte good enough =
    let b = find_bucket e key valid byte in
    let i : ℕ = home (length e.buckets) key in
    let f : Bucket = b.bucket in
    let validf = valid.each i f b.there in
    let (p, io', run, _, _) = read-answer_of io f (of_string key) value validf good enough in
    let valid' = moved-IsValid f p validf in
    (
      put_bucket e i (moved f p),
      io',
      rw
          (
            at-of_string key,
            b.which,
            b.bucket_at_eq,
            run,
            to_string-of_string key,
            view_self e i f (moved f p) valid b.below b.there valid' key refl,
          )
          (answered e i f p value io' (Live.view f key)),
      put_bucket-IsValid e i f (moved f p) valid b.below b.there valid',
      λ j. elim (ℕ_discrete (home (length e.buckets) j) i) [
        | yes here ↦
            view-put_bucket_self e i f (moved f p) valid b.below b.there valid' j here
            ∙ view-moved f p j
            ∙ sym (view_self e i f (moved f p) valid b.below b.there valid' j here)
        | no away ↦
            view-put_bucket_ne e i f (moved f p) valid b.below b.there valid' j (λ h. away (sym h))
      ],
    )
