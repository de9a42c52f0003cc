-- ===== src/Race/Ranging/Buckets.antt =====
-- What `Range` does in one bucket: the entries between the bounds, in order, with their values.
use nvm_kv.Prelude.{
  ℕ, ◌+◌, ◌*◌, ◌≤◌, ◌≡◌, refl, sym, arith, List, [], ◌∷◌, Option, none, some, Bool, true, false,
  not, ◌&&◌, length, All, Bytes, Memory, before, same, same_refl, length_chunk, lex-opposite,
}
use nvm_kv.Polar.{PolarString, to_string}
use nvm_kv.OrdMap.{OrdMap, IsSorted, find, lower_bound, span}
use nvm_kv.OrdMap.Span.{
  select, All-map, All-select, length-select, lower_bound-empty, span_end, span_between,
}
use nvm_kv.Posix.{Io, opened, NoFailure, transfers}
use nvm_kv.Engine.{ok}
use nvm_kv.Race.Bucket.{Bucket, load_location}
use nvm_kv.Race.Reading.{read_buf_size}
use nvm_kv.Race.Live.{slice, IsInside, IsValid}
use nvm_kv.Race.Live.Fetching.{get_string_from_location_ok}
use nvm_kv.Race.Ranging.{Visits, visit_entries, first_position, last_position, range_bucket}

-- The keys from `lo` on, before `hi` where there is an upper bound.
abbrev pub between : Bytes → Option Bytes → Bytes → Bool
between lo none j = not (before j lo)
between lo (some hi) j = not (before j lo) && before j hi

-- The two bounds are in order.
abbrev pub IsOrdered : Bytes → Option Bytes → Type 0
IsOrdered lo none = Unit
IsOrdered lo (some hi) = before hi lo ≡ false

-- The bounds in a bucket, by whether it is the first and the last one with a bound; the empty string
-- is before every key.
abbrev pub lower_in : Bool → PolarString → Bytes
lower_in false lower = []
lower_in true lower = to_string lower

abbrev pub upper_in : Bool → PolarString → Option Bytes
upper_in false upper = none
upper_in true upper = some (to_string upper)

-- Keys in order are different.
same_of_before : (j k : Bytes) → before j k ≡ true → same k j ≡ false
same_of_before j k h = ground (arith, lex-opposite j k)

-- The pairs of the entries of a map of pointers.
abbrev pub pairs : Memory → Bytes → OrdMap ℕ → Visits
pairs m file [] = []
pairs m file (e ∷ entries) = (e.0, slice (load_location m e.1) file) ∷ pairs m file entries

-- Every entry points to a location inside the data file.
abbrev pub Inside : Memory → Bytes → OrdMap ℕ → Type 0
Inside m file entries = All (λ e. IsInside (load_location m e.1) file) entries

visit_entries-pairs :
    (io : List Io) (f : Bucket) (entries : OrdMap ℕ) (value : Bytes)
    → f.data_fd ≡ opened
    → Inside f.key_mmap f.data_file entries
    → NoFailure io
    → length entries * read_buf_size ≤ transfers io
    → (position : ℕ) × (io' : List Io) × (visit_entries io f entries value
        ≡ ok (record f { position = position }, pairs f.key_mmap f.data_file entries, io'))
      × NoFailure io'
      × (transfers io ≤ transfers io' + length entries * read_buf_size)
unfolding visit_entries
visit_entries-pairs io f [] value is_open inside good enough =
    (f.position, io, refl, good, omega arith)
visit_entries-pairs io f (e ∷ entries) value is_open (i, inside) good enough =
    let (r, run, g) =
      get_string_from_location_ok io f (load_location f.key_mmap e.1) value is_open i good
        (omega (arith, i.readable)) in
    let cost =
      length_chunk f.data_file (load_location f.key_mmap e.1).offset
        (load_location f.key_mmap e.1).len i.inside in
    let (p, io', rest, good', spent) =
      visit_entries-pairs r.io (record f { position = r.position }) entries
        (slice (load_location f.key_mmap e.1) f.data_file) is_open inside g.no_failure
        (omega (arith, g.spent, cost, i.readable)) in
    (p, io', rw (run, rest), good', omega (arith, spent, g.spent, cost, i.readable))

-- On a sorted map every entry is what `find` gives for its key.
find_entries : (m : OrdMap ℕ) → IsSorted m → All (λ e. find e.0 m ≡ some e.1) m
find_entries [] s = tt
find_entries (e ∷ m) (a, s) = (unfold find in rw (same_refl e.0), later m a (find_entries m s))
  where
    later :
        (rest : OrdMap ℕ)
        → All (λ f. before e.0 f.0 ≡ true) rest
        → All (λ f. find f.0 m ≡ some f.1) rest
        → All (λ f. find f.0 (e ∷ m) ≡ some f.1) rest
    later [] b h = tt
    later (f ∷ rest) (lt, b) (g, h) = (found f lt g, later rest b h)
      where
        found :
            (f : Bytes × ℕ)
            → before e.0 f.0 ≡ true
            → find f.0 m ≡ some f.1
            → find f.0 (e ∷ m) ≡ some f.1
        found f lt g = unfold find in rw (same_of_before e.0 f.0 lt) g

pub entries-Inside : (f : Bucket) → IsValid f → IsSorted f.map → Inside f.key_mmap f.data_file f.map
entries-Inside f valid sorted =
    All-map f.map (λ e h. (valid.pointers e.0 e.1 h).1) (find_entries f.map sorted)

first_position_eq :
    (f : Bucket) (b : Bool) (lower : PolarString)
    → first_position f b lower ≡ lower_bound (lower_in b lower) f.map
unfolding first_position
first_position_eq f false lower = sym (lower_bound-empty f.map)
first_position_eq f true lower = refl

span-select :
    (f : Bucket) (is_first is_last : Bool) (lower upper : PolarString)
    → IsSorted f.map
    → IsOrdered (lower_in is_first lower) (upper_in is_last upper)
    → span (first_position f is_first lower) (last_position f is_last upper) f.map
      ≡ some (select (between (lower_in is_first lower) (upper_in is_last upper)) f.map)
unfolding last_position
span-select f is_first false lower upper sorted ordered =
    rw (first_position_eq f is_first lower) (span_end (lower_in is_first lower) f.map sorted)
span-select f is_first true lower upper sorted ordered =
    rw (first_position_eq f is_first lower)
      (span_between (lower_in is_first lower) (to_string upper) f.map sorted ordered)

-- In one bucket the loop of `Range` visits the selected pairs and moves only the file offset.
abbrev pub RangesBucket : List Io → Bucket → Bool → Bool → PolarString → PolarString → Type 0
RangesBucket io f is_first is_last lower upper =
    (position : ℕ) × (io' : List Io) × (range_bucket io f is_first is_last lower upper
      ≡ ok (
        record f { position = position },
        pairs f.key_mmap f.data_file
            (select (between (lower_in is_first lower) (upper_in is_last upper)) f.map),
        io',
      ))
    × NoFailure io'
    × (transfers io ≤ transfers io' + length f.map * read_buf_size)

pub range_bucket_ok :
    (io : List Io) (f : Bucket) (is_first is_last : Bool) (lower upper : PolarString)
    → f.data_fd ≡ opened
    → Inside f.key_mmap f.data_file f.map
    → IsSorted f.map
    → IsOrdered (lower_in is_first lower) (upper_in is_last upper)
    → NoFailure io
    → length f.map * read_buf_size ≤ transfers io
    → RangesBucket io f is_first is_last lower upper
unfolding range_bucket
range_bucket_ok io f is_first is_last lower upper is_open inside sorted ordered good enough =
    let test = between (lower_in is_first lower) (upper_in is_last upper) in
    let few = length-select test f.map in
    let (p, io', run, good', spent) =
      visit_entries-pairs io f (select test f.map) [] is_open
        (All-select (λ e. IsInside (load_location f.key_mmap e.1) f.data_file) test f.map inside)
        good (omega (arith, few)) in
    (
      p,
      io',
      rw (span-select f is_first is_last lower upper sorted ordered, run),
      good',
      omega (arith, few, spent),
    )

-- The loop of `Range` over the entries of one well formed bucket whose map is sorted: it visits,
-- in the order of the map, the entries whose keys are not before the lower bound and before the
-- upper bound, each once and with the value that the data file holds for it, and changes only the
-- file offset. The lower bound counts in the first bucket of the range and the upper bound in the
-- last one; where both count, the upper bound is not before the lower one. No call of read(2)
-- fails, and for each entry of the map 4097 of them can move bytes.
pub range_bucket-pairs :
    (io : List Io) (f : Bucket) (is_first is_last : Bool) (lower upper : PolarString)
    → IsValid f
    → IsSorted f.map
    → IsOrdered (lower_in is_first lower) (upper_in is_last upper)
    → NoFailure io
    → length f.map * read_buf_size ≤ transfers io
    → RangesBucket io f is_first is_last lower upper
range_bucket-pairs io f is_first is_last lower upper valid sorted ordered good enough =
    range_bucket_ok io f is_first is_last lower upper valid.is_open (entries-Inside f valid sorted)
      sorted ordered good enough
