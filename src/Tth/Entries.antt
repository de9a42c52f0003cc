-- ===== src/Tth/Entries.antt =====
-- The entries of an index file of engine_tth, and what `read_index_file` makes of them.
use mathlib.Core.Path.{ap₂}
use nvm_kv.Prelude.{
  ℕ, zero, suc, ◌+◌, ◌-◌, ◌%◌, ◌^◌, ◌≤◌, ◌<◌, ◌≡◌, refl, ap, ◌∙◌, arith, min, ◌⊎◌, inl, inr, some,
  List, [], ◌∷◌, ◌++◌, length, take, drop, Bytes, Memory, load, encode_le, decode_le,
  length-encode_le, decode_le-encode_le, take-length_append, drop-length_append, lt→leb, le→leb,
  lt→ltb, ==_refl, gt→ne,
}
use nvm_kv.OrdMap.{OrdMap, insert_or_assign}
use nvm_kv.Posix.{Io, transfer, eintr, failed}
use nvm_kv.Engine.{succ, ok}
use nvm_kv.Tth.Bucket.{Location, StoredFile, location_sz, read_some, c_string, location_bytes}
use nvm_kv.Tth.Indexing.{Next, key_buf_size, location_at, read_location, read_key, read_index_file}

abbrev pub Entries : Type 0
Entries = List (Bytes × Location)

-- The index after the entries of a file were read into it
unfoldable pub replay : Entries → OrdMap Location → OrdMap Location
replay [] index = index
replay (e ∷ es) index = replay es (insert_or_assign e.0 e.1 index)

-- An entry that the buffers and the C strings can hold
pub record IsEntry (e : Bytes × Location) : Type 0 where
  pub not_empty : 0 < length e.0
  pub fits : length e.0 < key_buf_size
  pub no_zero : c_string e.0 ≡ e.0
  pub offset_fits : e.1.offset < 256 ^ 8
  pub len_fits : e.1.len < 256 ^ 8

abbrev pub entry_end : ℕ → Bytes × Location → ℕ
entry_end p e = p + 4 + length e.0 + location_sz

-- The bytes of a file of `size` bytes, from `p` on, are the entries and an end.
abbrev pub Holds : Memory → ℕ → ℕ → Entries → Type 0
Holds m size p [] = (size ≤ p) ⊎ ((p + 4 ≤ size) × (load m p 4 ≡ encode_le 4 0))
Holds m size p (e ∷ es) =
    IsEntry e
    × (entry_end p e ≤ size)
    × (load m p 4 ≡ encode_le 4 (length e.0 % 2 ^ 32))
    × (load m (p + 4) (length e.0) ≡ e.0)
    × (load m (p + 4 + length e.0) location_sz ≡ location_bytes e.1)
    × Holds m size (entry_end p e) es

-- The next `n` calls of read(2) answer with all that is asked for, up to 1024 bytes.
abbrev pub Serves : ℕ → List Io → Type 0
Serves zero io = Unit
Serves (suc n) [] = ⊥
Serves (suc n) (transfer k ∷ io) = (1023 ≤ k) × Serves n io
Serves (suc n) (eintr ∷ io) = ⊥
Serves (suc n) (failed ∷ io) = ⊥

read_some_whole :
    (k : ℕ) (io : List Io) (file : StoredFile) (p n : ℕ)
    → 1023 ≤ k
    → n ≤ 1024
    → p + n ≤ file.size
    → read_some (transfer k ∷ io) file p n ≡ ok (some (load file.bytes p n), io)
unfolding read_some
read_some_whole k io file p n h small inside =
    let e : min (suc k) (min n (file.size - p)) ≡ n = omega arith in rw e refl

read_some_end :
    (k : ℕ) (io : List Io) (file : StoredFile) (p n : ℕ)
    → file.size ≤ p
    → read_some (transfer k ∷ io) file p n ≡ ok (some [], io)
unfolding read_some load
read_some_end k io file p n h =
    let e : min (suc k) (min n (file.size - p)) ≡ 0 = omega arith in rw e refl

abbrev make_location : ℕ → ℕ → Location
make_location offset len = record { offset = offset; len = len }

location_at-location_bytes :
    (loc : Location)
    → loc.offset < 256 ^ 8
    → loc.len < 256 ^ 8
    → location_at (location_bytes loc) ≡ loc
unfolding location_bytes
location_at-location_bytes loc a b =
    ap₂ make_location
      (ap decode_le (
          take_first (encode_le 8 loc.offset) (encode_le 8 loc.len) (length-encode_le 8 loc.offset))
        ∙ decode_le-encode_le 8 loc.offset a)
      (ap decode_le (
          drop_first (encode_le 8 loc.offset) (encode_le 8 loc.len) (length-encode_le 8 loc.offset))
        ∙ decode_le-encode_le 8 loc.len b)
  where
    take_first : (xs ys : Bytes) → length xs ≡ 8 → take 8 (xs ++ ys) ≡ xs
    take_first xs ys h = rw (← h) (take-length_append xs ys)

    drop_first : (xs ys : Bytes) → length xs ≡ 8 → drop 8 (xs ++ ys) ≡ ys
    drop_first xs ys h = rw (← h) (drop-length_append xs ys)

pub length-location_bytes : (loc : Location) → length (location_bytes loc) ≡ location_sz
unfolding location_bytes encode_le
length-location_bytes loc = refl

-- One round of the loop, for an entry that the file holds
module _ (file : StoredFile) (p : ℕ) (e : Bytes × Location) (good : IsEntry e)
    (inside : entry_end p e ≤ file.size) (index : OrdMap Location) (next : Next) where
  read_location-entry :
      (k : ℕ) (io : List Io)
      → 1023 ≤ k
      → load file.bytes (p + 4 + length e.0) location_sz ≡ location_bytes e.1
      → read_location (transfer k ∷ io) file (p + 4 + length e.0) e.0 index next
        ≡ next (entry_end p e) (insert_or_assign e.0 e.1 index) io
  unfolding read_location
  read_location-entry k io h at_loc =
      rw
        (
          read_some_whole k io file (p + 4 + length e.0) location_sz h (omega arith) inside,
          at_loc,
          length-location_bytes e.1,
          location_at-location_bytes e.1 good.offset_fits good.len_fits,
        )
        refl

  read_key-entry :
      (k j : ℕ) (io : List Io)
      → 1023 ≤ k
      → 1023 ≤ j
      → load file.bytes (p + 4) (length e.0) ≡ e.0
      → load file.bytes (p + 4 + length e.0) location_sz ≡ location_bytes e.1
      → read_key (transfer k ∷ transfer j ∷ io) file (p + 4) (length e.0) index next
        ≡ next (entry_end p e) (insert_or_assign e.0 e.1 index) io
  unfolding read_key
  read_key-entry k j io h h' at_key at_loc =
      let fits : length e.0 < 1024 = good.fits in
      rw
        (
          lt→leb (2 ^ 31) (length e.0) (omega arith),
          read_some_whole k (transfer j ∷ io) file (p + 4) (length e.0) h (omega arith)
              (omega (arith, inside)),
          at_key,
          le→leb (length e.0) key_buf_size (omega arith),
          ==_refl (length e.0),
          lt→ltb (length e.0) key_buf_size fits,
          good.no_zero,
        )
        (read_location-entry j io h' at_loc)

decode_le-size : (n : ℕ) → n < 1024 → decode_le (encode_le 4 (n % 2 ^ 32)) ≡ n
decode_le-size n h = decode_le-encode_le 4 (n % 2 ^ 32) (omega arith) ∙ small n h
  where
    small : (n : ℕ) → n < 1024 → n % 2 ^ 32 ≡ n
    small n h = omega arith

-- One more call than three for each entry, since the end is read too
abbrev pub calls_for : Entries → ℕ
calls_for [] = 1
calls_for (e ∷ es) = suc (suc (suc (calls_for es)))

abbrev pub drop_calls : Entries → List Io → List Io
drop_calls es io = drop (calls_for es) io

read_index_file-end :
    (fuel : ℕ) (io : List Io) (file : StoredFile) (p : ℕ) (index : OrdMap Location)
    → Serves 1 io
    → Holds file.bytes file.size p []
    → read_index_file (suc fuel) io file p index ≡ ok (succ, index, drop 1 io)
unfolding read_index_file
read_index_file-end fuel (transfer k ∷ io) file p index (h, s) (inl out) =
    rw (read_some_end k io file p 4 out) refl
read_index_file-end fuel (transfer k ∷ io) file p index (h, s) (inr (inside, zero_size)) =
    rw
      (
        read_some_whole k io file p 4 h (omega arith) inside,
        zero_size,
        length-encode_le 4 0,
        decode_le-encode_le 4 0 (omega arith),
      )
      refl
read_index_file-end fuel [] file p index s at = absurd s
read_index_file-end fuel (eintr ∷ io) file p index s at = absurd s
read_index_file-end fuel (failed ∷ io) file p index s at = absurd s

pub read_index_file-Holds :
    (fuel : ℕ) (io : List Io) (file : StoredFile) (p : ℕ) (es : Entries) (index : OrdMap Location)
    → length es < fuel
    → Serves (calls_for es) io
    → Holds file.bytes file.size p es
    → read_index_file fuel io file p index ≡ ok (succ, replay es index, drop_calls es io)
unfolding read_index_file replay
read_index_file-Holds zero io file p es index lt s at = absurd (omega (arith, lt))
read_index_file-Holds (suc fuel) io file p [] index lt s at =
    read_index_file-end fuel io file p index s at
read_index_file-Holds (suc fuel) (transfer a ∷ transfer b ∷ transfer c ∷ io) file p (e ∷ es) index
      lt (ha, (hb, (hc, s))) (good, inside, at_size, at_key, at_loc, more) =
    let positive : 0 < length e.0 = good.not_empty in
    rw
      (
        read_some_whole a (transfer b ∷ transfer c ∷ io) file p 4 ha (omega arith)
            (omega (arith, inside)),
        at_size,
        length-encode_le 4 (length e.0 % 2 ^ 32),
        decode_le-size (length e.0) good.fits,
        gt→ne (length e.0) 0 positive,
      )
      (read_key-entry file p e good inside index
          (λ p' index' io'. read_index_file fuel io' file p' index') b c io hb hc at_key at_loc
        ∙ read_index_file-Holds fuel io file (entry_end p e) es (insert_or_assign e.0 e.1 index)
            (omega (arith, lt)) s more)
read_index_file-Holds (suc fuel) [] file p (e ∷ es) index lt s at = absurd s
read_index_file-Holds (suc fuel) (eintr ∷ io) file p (e ∷ es) index lt s at = absurd s
read_index_file-Holds (suc fuel) (failed ∷ io) file p (e ∷ es) index lt s at = absurd s
read_index_file-Holds (suc fuel) (transfer a ∷ []) file p (e ∷ es) index lt s at = absurd s.1
read_index_file-Holds (suc fuel) (transfer a ∷ eintr ∷ io) file p (e ∷ es) index lt s at =
    absurd s.1
read_index_file-Holds (suc fuel) (transfer a ∷ failed ∷ io) file p (e ∷ es) index lt s at =
    absurd s.1
read_index_file-Holds (suc fuel) (transfer a ∷ transfer b ∷ []) file p (e ∷ es) index lt s at =
    absurd (s.1.1)
read_index_file-Holds (suc fuel) (transfer a ∷ transfer b ∷ eintr ∷ io) file p (e ∷ es) index lt s
      at =
    absurd (s.1.1)
read_index_file-Holds (suc fuel) (transfer a ∷ transfer b ∷ failed ∷ io) file p (e ∷ es) index lt s
      at =
    absurd (s.1.1)
