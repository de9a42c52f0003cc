-- ===== src/Tth/Log.antt =====
-- index.tmp of engine_tth as the log of the writes.
use nvm_kv.Prelude.{
  ℕ, ◌+◌, ◌%◌, ◌^◌, ◌≤◌, ◌<◌, ◌≡◌, refl, sym, ap, ◌∙◌, arith, inr, [], ◌∷◌, ◌++◌, length, Bytes,
  Memory, load, store, encode_le, length-encode_le, length-append, load_congr, store_below,
  store_outside, load-store_piece, append-nil, append_assoc,
}
use nvm_kv.OrdMap.{OrdMap, insert_or_assign}
use nvm_kv.Tth.Bucket.{Bucket, Location, record_bytes, location_bytes, location_sz, chunck_size}
use nvm_kv.Tth.Entries.{Entries, IsEntry, entry_end, Holds, replay, length-location_bytes}
use nvm_kv.Tth.Live.Writing.{written}

-- The memory holds the entries from `p` on.
abbrev pub Log : Memory → ℕ → Entries → Type 0
Log m p [] = Unit
Log m p (e ∷ es) =
    IsEntry e
    × (load m p 4 ≡ encode_le 4 (length e.0 % 2 ^ 32))
    × (load m (p + 4) (length e.0) ≡ e.0)
    × (load m (p + 4 + length e.0) location_sz ≡ location_bytes e.1)
    × Log m (entry_end p e) es

abbrev pub log_end : ℕ → Entries → ℕ
log_end p [] = p
log_end p (e ∷ es) = log_end (entry_end p e) es

pub log_end_le : (p : ℕ) (es : Entries) → p + length es ≤ log_end p es
log_end_le p [] = omega arith
log_end_le p (e ∷ es) = omega (arith, log_end_le (entry_end p e) es)

-- A log in front of what has changed
Log_congr :
    (m m' : Memory) (p : ℕ) (es : Entries)
    → ((q : ℕ) → q < log_end p es → m q ≡ m' q)
    → Log m p es
    → Log m' p es
Log_congr m m' p [] h log = tt
Log_congr m m' p (e ∷ es) h (good, at_size, at_key, at_loc, more) =
    let far : entry_end p e + length es ≤ log_end (entry_end p e) es =
      log_end_le (entry_end p e) es in
    (
      good,
      sym (load_congr m m' p 4 (λ q lo hi. h q (omega (arith, far)))) ∙ at_size,
      sym (load_congr m m' (p + 4) (length e.0) (λ q lo hi. h q (omega (arith, far)))) ∙ at_key,
      sym (load_congr m m' (p + 4 + length e.0) location_sz (λ q lo hi. h q (omega (arith, far))))
          ∙ at_loc,
      Log_congr m m' (entry_end p e) es h more,
    )

Log-append :
    (m : Memory) (p : ℕ) (es : Entries) (e : Bytes × Location)
    → Log m p es
    → Log m (log_end p es) (e ∷ [])
    → Log m p (es ++ e ∷ [])
Log-append m p [] e log last = last
Log-append m p (d ∷ es) e (good, at_size, at_key, at_loc, more) last =
    (good, at_size, at_key, at_loc, Log-append m (entry_end p d) es e more last)

pub log_end-append :
    (p : ℕ) (es : Entries) (e : Bytes × Location)
    → log_end p (es ++ e ∷ []) ≡ entry_end (log_end p es) e
log_end-append p [] e = refl
log_end-append p (d ∷ es) e = log_end-append (entry_end p d) es e

replay-append :
    (es : Entries) (e : Bytes × Location) (index : OrdMap Location)
    → replay (es ++ e ∷ []) index ≡ insert_or_assign e.0 e.1 (replay es index)
unfolding replay
replay-append [] e index = refl
replay-append (d ∷ es) e index = replay-append es e (insert_or_assign d.0 d.1 index)

zero_mark :
    (m : Memory) (p : ℕ) → ((q : ℕ) → p ≤ q → q < p + 4 → m q ≡ 0) → load m p 4 ≡ encode_le 4 0
unfolding load encode_le
zero_mark m p h = rw (
  h p (omega arith) (omega arith),
  h (p + 1) (omega arith) (omega arith),
  h (p + 1 + 1) (omega arith) (omega arith),
  h (p + 1 + 1 + 1) (omega arith) (omega arith),
)

-- A log that is followed by zeros is an index file that `Open` can read.
pub Holds-Log :
    (m : Memory) (size p : ℕ) (es : Entries)
    → log_end p es + 4 ≤ size
    → ((q : ℕ) → log_end p es ≤ q → q < size → m q ≡ 0)
    → Log m p es
    → Holds m size p es
Holds-Log m size p [] room blank log = inr (room, zero_mark m p blank')
  where
    blank' : (q : ℕ) → p ≤ q → q < p + 4 → m q ≡ 0
    blank' q lo hi = blank q lo (omega (arith, room))
Holds-Log m size p (e ∷ es) room blank (good, at_size, at_key, at_loc, more) =
    let far : entry_end p e + length es ≤ log_end (entry_end p e) es =
      log_end_le (entry_end p e) es in
    (
      good,
      omega (arith, room, far),
      at_size,
      at_key,
      at_loc,
      Holds-Log m size (entry_end p e) es room blank more,
    )

pub length-record_bytes :
    (key : Bytes) (loc : Location) → length (record_bytes key loc) ≡ 4 + length key + location_sz
unfolding record_bytes
length-record_bytes key loc = omega (
  arith,
  length-append {0} (encode_le 4 (length key % 2 ^ 32)) (key ++ location_bytes loc),
  length-append {0} key (location_bytes loc),
  length-location_bytes loc,
  length-encode_le 4 (length key % 2 ^ 32),
)

load-store_last :
    (m : Memory) (p : ℕ) (a b c : Bytes) (q n : ℕ)
    → p + length a + length b ≡ q
    → length c ≡ n
    → load (store m p (a ++ (b ++ c))) q n ≡ c
load-store_last m p a b c q n h e =
    ap (λ t. load (store m p t) q n)
      (sym (append_assoc a b c) ∙ ap (λ t. (a ++ b) ++ t) (sym (append-nil c)))
    ∙ load-store_piece m p (a ++ b) c [] q n (omega (arith, length-append {0} a b)) e

-- What `Write` copies into the mapping is an entry.
Log-store :
    (m : Memory) (p : ℕ) (key : Bytes) (loc : Location)
    → IsEntry (key, loc)
    → Log (store m p (record_bytes key loc)) p ((key, loc) ∷ [])
unfolding record_bytes
Log-store m p key loc good =
    let size : Bytes = encode_le 4 (length key % 2 ^ 32) in
    let n : length size ≡ 4 = length-encode_le 4 (length key % 2 ^ 32) in
    (
      good,
      load-store_piece m p [] size (key ++ location_bytes loc) p 4 (omega arith) n,
      load-store_piece m p size key (location_bytes loc) (p + 4) (length key) (omega (arith, n))
          refl,
      load-store_last m p size key (location_bytes loc) (p + 4 + length key) location_sz
          (omega (arith, n)) (length-location_bytes loc),
      tt,
    )

-- index.tmp is the log of the writes since `Open`, from its start to `mem_offset`, and zero behind
-- them; the index is what the log makes of the index at `Open`.
pub record IsLogged (f : Bucket) (base : OrdMap Location) (es : Entries) : Type 0 where
  pub log : Log f.tmp.bytes 0 es
  pub ends : log_end 0 es ≡ f.mem_offset
  pub blank : (q : ℕ) → f.mem_offset ≤ q → q < chunck_size → f.tmp.bytes q ≡ 0
  pub mapped : f.tmp.size ≡ chunck_size
  pub index_eq : f.index ≡ replay es base

-- The entry that a write adds
abbrev pub entry_of : Bucket → Bytes → Bytes → Bytes × Location
entry_of f key value = (key, record { offset = f.next_loc.offset; len = length value })

pub written-IsLogged :
    (f : Bucket) (base : OrdMap Location) (es : Entries) (key value : Bytes)
    → IsLogged f base es
    → IsEntry (entry_of f key value)
    → IsLogged (written f key value) base (es ++ entry_of f key value ∷ [])
unfolding written
written-IsLogged f base es key value logged good =
    let e : Bytes × Location = entry_of f key value in
    let bs : Bytes = record_bytes key e.1 in
    let n : length bs ≡ 4 + length key + location_sz = length-record_bytes key e.1 in
    record {
      log =
          Log-append (store f.tmp.bytes f.mem_offset bs) 0 es e
            (Log_congr f.tmp.bytes (store f.tmp.bytes f.mem_offset bs) 0 es
              (λ q h.
                sym (store_below f.tmp.bytes f.mem_offset bs q (omega (arith, logged.ends, h))))
              logged.log)
            (rw logged.ends (Log-store f.tmp.bytes f.mem_offset key e.1 good));
      ends = omega (arith, log_end-append 0 es e, logged.ends);
      blank = λ q lo hi.
          store_outside f.tmp.bytes f.mem_offset bs q (omega (arith, n, lo))
          ∙ logged.blank q (omega (arith, lo)) hi;
      mapped = logged.mapped;
      index_eq =
          sym (replay-append es e base ∙ ap (insert_or_assign e.0 e.1) (sym logged.index_eq));
    }
