-- ===== src/Tth/Live/Reading.antt =====
-- `Read` of engine_tth on a bucket.
use nvm_kv.Prelude.{
  ℕ, zero, suc, ◌+◌, ◌-◌, ◌≤◌, ◌<◌, ◌≡◌, refl, sym, ap, ◌∙◌, arith, min, List, [], ◌∷◌, length,
  take, drop, get_or, Bytes, Memory, load, store, true, false, Option, none, some, inl, inr,
  Option-cases, le→leb, lt→ltb, length_chunk, load-store_prefix, append-nil,
}
use nvm_kv.Polar.{of_string}
use nvm_kv.Polar.Order.{to_string-of_string}
use nvm_kv.OrdMap.{find}
use nvm_kv.Posix.{Io, transfer, eintr, failed}
use nvm_kv.Engine.{ok}
use nvm_kv.Race.Store.Operations.{code_of_view, value_of_view}
use nvm_kv.Tth.Bucket.{
  Bucket, Location, stored, read_buf_size, mutex_unlock, read_some, c_string, read_value,
  read_found, read,
}
use nvm_kv.Tth.Live.Writing.{mutex_lock_free}
use nvm_kv.Tth.Live.{slice, view, IsInside, IsValid}

-- The next call of read(2) moves all that is asked for, up to 4096 bytes.
abbrev pub Delivers : List Io → Type 0
Delivers [] = ⊥
Delivers (transfer k ∷ io) = 4095 ≤ k
Delivers (eintr ∷ io) = ⊥
Delivers (failed ∷ io) = ⊥

load-shift :
    (b : ℕ) (file : Bytes) (p n : ℕ)
    → load (λ q. get_or (b ∷ file) q 0) (suc p) n ≡ load (λ q. get_or file q 0) p n
unfolding load
load-shift b file p zero = refl
load-shift b file p (suc n) =
    let e : suc p + 1 ≡ suc (p + 1) = omega arith in
    rw e (ap (λ t. get_or file p 0 ∷ t) (load-shift b file (p + 1) n))

-- The bytes of a file by their offsets
pub load-stored :
    (file : Bytes) (p n : ℕ)
    → p + n ≤ length file
    → load (λ q. get_or file q 0) p n ≡ take n (drop p file)
unfolding load
load-stored file zero zero h = refl
load-stored [] zero (suc n) h = absurd (omega (arith, h))
load-stored (b ∷ file) zero (suc n) h =
    ap (λ t. b ∷ t) (load-shift b file 0 n ∙ load-stored file 0 n (omega (arith, h)))
load-stored [] (suc p) zero h = refl
load-stored [] (suc p) (suc n) h = absurd (omega (arith, h))
load-stored (b ∷ file) (suc p) n h = load-shift b file p n ∙ load-stored file p n (omega (arith, h))

read_some-slice :
    (k : ℕ) (io : List Io) (file : Bytes) (loc : Location)
    → 4095 ≤ k
    → loc.len < read_buf_size
    → loc.offset + loc.len ≤ length file
    → read_some (transfer k ∷ io) (stored file) loc.offset loc.len ≡ ok (some (slice loc file), io)
unfolding read_some
read_some-slice k io file loc enough small inside =
    let e : min (suc k) (min loc.len (length file - loc.offset)) ≡ loc.len = omega (arith, small) in
    rw (e, load-stored file loc.offset loc.len inside) refl

-- The string made of the buffer is the slice.
c_string-buffer :
    (bs : Bytes) (before : Memory) (n : ℕ)
    → length bs ≡ n
    → c_string bs ≡ bs
    → c_string (load (store before 0 bs) 0 n) ≡ bs
c_string-buffer bs before n h no_zero = rw (← h) (
    ap c_string (
      ap (λ t. load (store before 0 t) 0 (length bs)) (sym (append-nil bs))
      ∙ load-store_prefix before 0 bs [])
    ∙ no_zero)

module _ (f : Bucket) (loc : Location) (good : IsInside loc f.data_file) where
  length-slice : length (slice loc f.data_file) ≡ loc.len
  length-slice = length_chunk f.data_file loc.offset loc.len good.inside

  read_value-slice :
      (k : ℕ) (io : List Io) (before : Memory)
      → 4095 ≤ k
      → read_value (transfer k ∷ io) f loc before ≡ ok (slice loc f.data_file, io)
  unfolding read_value
  read_value-slice k io before enough =
      let small : loc.len < read_buf_size = omega (arith, good.readable.fits, length-slice) in
      rw
        (
          read_some-slice k io f.data_file loc enough small good.inside,
          length-slice,
          le→leb loc.len read_buf_size (omega (arith, small)),
          lt→ltb loc.len read_buf_size small,
          c_string-buffer (slice loc f.data_file) before loc.len length-slice good.readable.no_zero,
        )
        refl

-- The bucket after `Read`: the offset of the descriptor is at the end of the data file.
unfoldable pub sought : Bucket → Option Location → Bucket
sought f none = record f { locked = false }
sought f (some loc) = record f { position = length f.data_file; locked = false }

sought-IsValid : (f : Bucket) (o : Option Location) → IsValid f → IsValid (sought f o)
unfolding sought
sought-IsValid f none valid = record {
  unlocked = refl;
  at_end = valid.at_end;
  counted = valid.counted;
  locations = valid.locations;
}
sought-IsValid f (some loc) valid = record {
  unlocked = refl;
  at_end = refl;
  counted = valid.counted;
  locations = valid.locations;
}

view-sought : (f : Bucket) (o : Option Location) (j : Bytes) → view (sought f o) j ≡ view f j
unfolding view sought
view-sought f none j = refl
view-sought f (some loc) j = refl

-- `Read` answers with the value of the key, and leaves a well formed bucket with the same values.
abbrev pub Reads : List Io → Bucket → Bytes → Memory → Bytes → Type 0
Reads io f key before value =
    (f' : Bucket) × (io' : List Io) × (read io f (of_string key) before value
      ≡ ok (code_of_view (view f key), value_of_view (view f key) value, f', io'))
    × IsValid f'
    × ((j : Bytes) → view f' j ≡ view f j)

read-none :
    (io : List Io) (f : Bucket) (key : Bytes) (before : Memory) (value : Bytes)
    → f.locked ≡ false
    → find key f.index ≡ none
    → read io f (of_string key) before value
      ≡ ok (code_of_view (view f key), value_of_view (view f key) value, sought f none, io)
unfolding read read_found mutex_unlock view sought
read-none io f key before value free h =
    rw (mutex_lock_free f free, to_string-of_string key, h) refl

read_slice :
    (k : ℕ) (io : List Io) (f : Bucket) (key : Bytes) (before : Memory) (value : Bytes)
    (loc : Location)
    → f.locked ≡ false
    → find key f.index ≡ some loc
    → IsInside loc f.data_file
    → 4095 ≤ k
    → read (transfer k ∷ io) f (of_string key) before value
      ≡ ok (code_of_view (view f key), value_of_view (view f key) value, sought f (some loc), io)
unfolding read read_found mutex_unlock view sought
read_slice k io f key before value loc free h good enough =
    rw
      (
        mutex_lock_free f free,
        to_string-of_string key,
        h,
        read_value-slice (record f { locked = true }) loc good k io before enough,
      )
      refl

pub read-view :
    (io : List Io) (f : Bucket) (key : Bytes) (before : Memory) (value : Bytes)
    → IsValid f
    → Delivers io
    → Reads io f key before value
read-view [] f key before value valid d = absurd d
read-view (eintr ∷ io) f key before value valid d = absurd d
read-view (failed ∷ io) f key before value valid d = absurd d
read-view (transfer k ∷ io) f key before value valid d = elim (Option-cases (find key f.index)) [
  | inl h ↦ (
    sought f none,
    transfer k ∷ io,
    read-none (transfer k ∷ io) f key before value valid.unlocked h,
    sought-IsValid f none valid,
    view-sought f none,
  )
  | inr (loc, h) ↦ (
    sought f (some loc),
    io,
    read_slice k io f key before value loc valid.unlocked h (valid.locations key loc h) d,
    sought-IsValid f (some loc) valid,
    view-sought f (some loc),
  )
]
