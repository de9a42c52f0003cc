-- ===== src/Race/Records.antt =====
-- The records of the index file: what `Write` stores is what `Open` and `Read` load.
use nvm_kv.Prelude.{
  ℕ, ◌+◌, ◌%◌, ◌^◌, ◌≤◌, ◌<◌, ◌≡◌, refl, sym, ap, ◌∙◌, arith, [], ◌++◌, length, Bytes, encode_le,
  decode_le, length-encode_le, decode_le-encode_le, Memory, load, store, load-store_piece,
  load-store_before, append_assoc, append-nil, length-append,
}
use nvm_kv.Race.Bucket.{Location, load_location, location_bytes, record_bytes}

pub length-location_bytes : (loc : Location) → length (location_bytes loc) ≡ 16
unfolding location_bytes
length-location_bytes loc = omega (
  arith,
  length-append {0} (encode_le 8 loc.offset) (encode_le 8 loc.len),
  length-encode_le 8 loc.offset,
  length-encode_le 8 loc.len,
)

-- The size of the key, as it is stored.
abbrev size_bytes : Bytes → Bytes
size_bytes key = encode_le 4 (length key % 2 ^ 32)

length-size_bytes : (key : Bytes) → length (size_bytes key) ≡ 4
length-size_bytes key = length-encode_le 4 (length key % 2 ^ 32)

pub length-record_bytes :
    (key : Bytes) (loc : Location) → length (record_bytes key loc) ≡ 4 + length key + 16
unfolding record_bytes
length-record_bytes key loc =
    length-append (size_bytes key) (key ++ location_bytes loc)
    ∙ omega (
      arith,
      length-append {0} key (location_bytes loc),
      length-size_bytes key,
      length-location_bytes loc,
    )

module _ (m : Memory) (p : ℕ) (key : Bytes) (loc : Location) where
  -- the size of the key
  pub decode_le-record_bytes :
      length key < 2 ^ 32 → decode_le (load (store m p (record_bytes key loc)) p 4) ≡ length key
  unfolding record_bytes
  decode_le-record_bytes small =
      ap decode_le (
        load-store_piece m p [] (size_bytes key) (key ++ location_bytes loc) p 4 (omega arith)
          (length-size_bytes key))
      ∙ decode_le-encode_le 4 (length key % 2 ^ 32) (omega arith)
      ∙ omega arith

  -- the key
  pub load-record_bytes : load (store m p (record_bytes key loc)) (p + 4) (length key) ≡ key
  unfolding record_bytes
  load-record_bytes =
      load-store_piece m p (size_bytes key) key (location_bytes loc) (p + 4) (length key)
        (omega (arith, length-size_bytes key)) refl

  front : Bytes
  front = size_bytes key ++ key

  length-front : length front ≡ 4 + length key
  unfolding front
  length-front = length-append (size_bytes key) key ∙ omega (arith, length-size_bytes key)

  -- the offset of the value
  load_offset :
      load (store m p (record_bytes key loc)) (p + 4 + length key) 8 ≡ encode_le 8 loc.offset
  unfolding record_bytes location_bytes front
  load_offset =
      rw (← append_assoc (size_bytes key) key (encode_le 8 loc.offset ++ encode_le 8 loc.len)) (
        load-store_piece m p front (encode_le 8 loc.offset) (encode_le 8 loc.len)
          (p + 4 + length key) 8 (omega (arith, length-front)) (length-encode_le 8 loc.offset))

  -- the length of the value
  load_len :
      load (store m p (record_bytes key loc)) (p + 4 + length key + 8) 8 ≡ encode_le 8 loc.len
  unfolding record_bytes location_bytes front
  load_len =
      let off : Bytes = encode_le 8 loc.offset in
      let len : Bytes = encode_le 8 loc.len in
      let e : record_bytes key loc ≡ (front ++ off) ++ (len ++ []) =
        sym (append_assoc (size_bytes key) key (off ++ len))
        ∙ sym (append_assoc front off len)
        ∙ ap (λ t. (front ++ off) ++ t) (sym (append-nil len)) in
      ap (λ t. load (store m p t) (p + 4 + length key + 8) 8) e
      ∙ load-store_piece m p (front ++ off) len [] (p + 4 + length key + 8) 8
          (omega (arith, length-append {0} front off, length-front, length-encode_le 8 loc.offset))
          (length-encode_le 8 loc.len)

  -- the location
  pub load_location-record_bytes :
      loc.offset < 2 ^ 64
      → loc.len < 2 ^ 64
      → load_location (store m p (record_bytes key loc)) (p + 4 + length key) ≡ loc
  unfolding load_location
  load_location-record_bytes small₁ small₂ = λ i. record {
    offset = (ap decode_le load_offset ∙ decode_le-encode_le 8 loc.offset (omega arith)) i;
    len = (ap decode_le load_len ∙ decode_le-encode_le 8 loc.len (omega arith)) i;
  }

-- A location below the place of a copy is loaded as before.
pub load_location-store_before :
    (m : Memory) (p : ℕ) (bs : Bytes) (q : ℕ)
    → q + 16 ≤ p
    → load_location (store m p bs) q ≡ load_location m q
unfolding load_location
load_location-store_before m p bs q h = λ i. record {
  offset = decode_le (load-store_before m p bs q 8 (omega arith) i);
  len = decode_le (load-store_before m p bs (q + 8) 8 (omega arith) i);
}
