-- ===== src/Mp/Paging.antt =====
-- engine_mp: the pages of a file, and the loop of `Open` over them.
use mathlib.Core.Path.{ap₂}
use nvm_kv.Prelude.{
  ℕ, zero, suc, ◌+◌, ◌%◌, ◌≤◌, ◌<◌, ◌≡◌, refl, sym, ap, ◌∙◌, arith, List, [], ◌∷◌, ◌++◌, length,
  get_or, Bytes, Memory, load, store, encode_le, decode_le, length-encode_le, decode_le-encode_le,
  length-load, length-append, load_congr, load-store_before, load-store_prefix, append-nil, lt→ltb,
  le→ltb, le→leb,
}
use nvm_kv.OrdMap.{OrdMap, insert_or_assign}
use nvm_kv.Engine.{ok}
use nvm_kv.Mp.{buf_sz, page_up, parse_file, memory_of, tot_sz, fill}
use nvm_kv.Mp.Pairs.{Fits, pair_bytes}

abbrev pub Pairs : Type 0
Pairs = List (Bytes × Bytes)

unfoldable pub replay : Pairs → OrdMap Bytes → OrdMap Bytes
replay [] map = map
replay (e ∷ pairs) map = replay pairs (insert_or_assign e.0 e.1 map)

-- Where the pair behind a pair starts
abbrev pub next_page : ℕ → Bytes × Bytes → ℕ
next_page cur e = page_up (cur + 8 + length e.0 + length e.1)

-- A file of `size` bytes holds the pairs from `cur` on, each from the start of a page.
abbrev pub Pages : Memory → ℕ → ℕ → Pairs → Type 0
Pages m size cur [] = cur ≡ size
Pages m size cur (e ∷ pairs) =
    Fits e.0 e.1
    × (next_page cur e ≤ size)
    × (load m cur 4 ≡ encode_le 4 (length e.0))
    × (load m (cur + 4) (length e.0) ≡ e.0)
    × (load m (cur + 4 + length e.0) 4 ≡ encode_le 4 (length e.1))
    × (load m (cur + 8 + length e.0) (length e.1) ≡ e.1)
    × Pages m size (next_page cur e) pairs

pub page_up-le : (n : ℕ) → n ≤ page_up n
unfolding page_up
page_up-le n = omega arith

pub Pages-length :
    (m : Memory) (size cur : ℕ) (pairs : Pairs) → Pages m size cur pairs → cur + length pairs ≤ size
Pages-length m size cur [] h = omega (arith, h)
Pages-length m size cur (e ∷ pairs) (fits, inside, at_key_sz, at_key, at_val_sz, at_val, more) =
    omega (
      arith,
      Pages-length m size (next_page cur e) pairs more,
      page_up-le (cur + 8 + length e.0 + length e.1),
    )

pub decode_size : (n : ℕ) → n ≤ buf_sz → decode_le (encode_le 4 n) ≡ n
decode_size n h = decode_le-encode_le 4 n (omega (arith, h))

pub parse_file-Pages :
    (fuel : ℕ) (m : Memory) (size cur : ℕ) (map : OrdMap Bytes) (pairs : Pairs)
    → length pairs < fuel
    → Pages m size cur pairs
    → parse_file fuel m size cur map ≡ ok (replay pairs map)
unfolding parse_file replay
parse_file-Pages zero m size cur map pairs lt at = absurd (omega (arith, lt))
parse_file-Pages (suc fuel) m size cur map [] lt at = rw (le→ltb cur size (omega (arith, at))) refl
parse_file-Pages (suc fuel) m size cur map (e ∷ pairs) lt
      (fits, inside, at_key_sz, at_key, at_val_sz, at_val, more) =
    let far : cur + 8 + length e.0 + length e.1 ≤ page_up size =
      omega (arith, inside, page_up-le (cur + 8 + length e.0 + length e.1), page_up-le size) in
    rw
      (
        at_key_sz,
        decode_size (length e.0) (omega (arith, fits)),
        at_val_sz,
        decode_size (length e.1) (omega (arith, fits)),
        at_key,
        at_val,
        lt→ltb cur size (omega (arith, inside, page_up-le (cur + 8 + length e.0 + length e.1))),
        le→leb (cur + 8 + length e.0) (page_up size) (omega (arith, far)),
        le→leb (cur + 8 + length e.0 + length e.1) (page_up size) far,
      )
      (parse_file-Pages fuel m size (next_page cur e) (insert_or_assign e.0 e.1 map) pairs
        (omega (arith, lt)) more)

pub get_or-append_front : (a b : Bytes) (q : ℕ) → q < length a → get_or (a ++ b) q 0 ≡ get_or a q 0
get_or-append_front [] b q h = absurd (omega (arith, h))
get_or-append_front (x ∷ a) b zero h = refl
get_or-append_front (x ∷ a) b (suc q) h = get_or-append_front a b q (omega (arith, h))

pub get_or-append_back : (a b : Bytes) (q : ℕ) → get_or (a ++ b) (length a + q) 0 ≡ get_or b q 0
get_or-append_back [] b q = let e : 0 + q ≡ q = omega arith in rw e refl
get_or-append_back (x ∷ a) b q =
    let e : suc (length a) + q ≡ suc (length a + q) = omega arith in rw e (get_or-append_back a b q)

pub get_or-load : (m : Memory) (p n q : ℕ) → q < n → get_or (load m p n) q 0 ≡ m (p + q)
unfolding load
get_or-load m p zero q h = absurd (omega (arith, h))
get_or-load m p (suc n) zero h = let e : p + 0 ≡ p = omega arith in rw e refl
get_or-load m p (suc n) (suc q) h =
    let e : p + suc q ≡ p + 1 + q = omega arith in
    rw e (get_or-load m (p + 1) n q (omega (arith, h)))

-- What is appended from a memory is read back from the file.
pub load-append_back :
    (a : Bytes) (m : Memory) (n start q r : ℕ)
    → start ≡ length a + q
    → q + r ≤ n
    → load (memory_of (a ++ load m 0 n)) start r ≡ load m q r
unfolding load
load-append_back a m n start q zero e h = refl
load-append_back a m n start q (suc r) e h =
    ap₂ ◌∷◌
      (rw e (
        get_or-append_back a (load m 0 n) q
        ∙ get_or-load m 0 n q (omega (arith, h))
        ∙ ap m (zero_plus q)))
      (load-append_back a m n (start + 1) (q + 1) r (omega (arith, e)) (omega (arith, h)))
  where
    zero_plus : (q : ℕ) → 0 + q ≡ q
    zero_plus q = omega arith

pub load-append_front :
    (a b : Bytes) (p n : ℕ)
    → p + n ≤ length a
    → load (memory_of a) p n ≡ load (memory_of (a ++ b)) p n
load-append_front a b p n h =
    load_congr (memory_of a) (memory_of (a ++ b)) p n
      (λ q lo hi. sym (get_or-append_front a b q (omega (arith, hi, h))))

pub load-store_whole : (m : Memory) (p : ℕ) (bs : Bytes) → load (store m p bs) p (length bs) ≡ bs
load-store_whole m p bs =
    ap (λ t. load (store m p t) p (length bs)) (sym (append-nil bs)) ∙ load-store_prefix m p bs []

-- The four pieces of a pair in the buffer
module _ (buf : Memory) (key val : Bytes) where
  fill_key_sz : load (fill buf key val) 0 4 ≡ encode_le 4 (length key)
  unfolding fill
  fill_key_sz =
      load-store_before _ (8 + length key) val 0 4 (omega arith)
      ∙ load-store_before _ (4 + length key) (encode_le 4 (length val)) 0 4 (omega arith)
      ∙ load-store_before _ 4 key 0 4 (omega arith)
      ∙ ap (load (store buf 0 (encode_le 4 (length key))) 0) (sym (length-encode_le 4 (length key)))
      ∙ load-store_whole buf 0 (encode_le 4 (length key))

  fill_key : load (fill buf key val) 4 (length key) ≡ key
  unfolding fill
  fill_key =
      load-store_before _ (8 + length key) val 4 (length key) (omega arith)
      ∙ load-store_before _ (4 + length key) (encode_le 4 (length val)) 4 (length key) (omega arith)
      ∙ load-store_whole _ 4 key

  fill_val_sz : load (fill buf key val) (4 + length key) 4 ≡ encode_le 4 (length val)
  unfolding fill
  fill_val_sz =
      load-store_before _ (8 + length key) val (4 + length key) 4 (omega arith)
      ∙ ap
          (load
            (store (store (store buf 0 (encode_le 4 (length key))) 4 key) (4 + length key)
              (encode_le 4 (length val)))
            (4 + length key))
          (sym (length-encode_le 4 (length val)))
      ∙ load-store_whole _ (4 + length key) (encode_le 4 (length val))

  fill_val : load (fill buf key val) (8 + length key) (length val) ≡ val
  unfolding fill
  fill_val = load-store_whole _ (8 + length key) val

pub next_page_eq :
    (size a b : ℕ)
    → size % 4096 ≡ 0
    → 8 + a + b ≤ buf_sz
    → page_up (size + 8 + a + b) ≡ size + tot_sz a b
unfolding page_up tot_sz
next_page_eq size a b aligned h = omega (arith, aligned, h)

pub Pages-append :
    (buf : Memory) (content : Bytes) (cur : ℕ) (pairs : Pairs) (key val : Bytes)
    → length content % 4096 ≡ 0
    → Fits key val
    → Pages (memory_of content) (length content) cur pairs
    → Pages
        (memory_of (content ++ pair_bytes buf key val))
        (length (content ++ pair_bytes buf key val))
        cur
        (pairs ++ (key, val) ∷ [])
Pages-append buf content cur [] key val aligned fits at =
    let next : next_page cur (key, val) ≡ length content + tot_sz (length key) (length val) =
      ap (λ t. page_up (t + 8 + length key + length val)) at
      ∙ next_page_eq (length content) (length key) (length val) aligned fits in
    let whole : next_page cur (key, val) ≡ length (content ++ pair_bytes buf key val) = omega (
      arith,
      next,
      length-append {0} content (pair_bytes buf key val),
      length-load (fill buf key val) 0 (tot_sz (length key) (length val)),
    ) in
    let room : length content + 8 + length key + length val
        ≤ length content + tot_sz (length key) (length val) =
      omega (arith, next, page_up-le (cur + 8 + length key + length val), at) in
    let back = load-append_back content (fill buf key val) (tot_sz (length key) (length val)) in
    (
      fits,
      omega (arith, whole),
      back cur 0 4 (omega (arith, at)) (omega (arith, room)) ∙ fill_key_sz buf key val,
      back (cur + 4) 4 (length key) (omega (arith, at)) (omega (arith, room))
          ∙ fill_key buf key val,
      back (cur + 4 + length key) (4 + length key) 4 (omega (arith, at)) (omega (arith, room))
          ∙ fill_val_sz buf key val,
      back (cur + 8 + length key) (8 + length key) (length val) (omega (arith, at))
            (omega (arith, room))
          ∙ fill_val buf key val,
      whole,
    )
Pages-append buf content cur (e ∷ pairs) key val aligned fits
      (good, inside, at_key_sz, at_key, at_val_sz, at_val, more) =
    let b : Bytes = pair_bytes buf key val in
    let far : cur + 8 + length e.0 + length e.1 ≤ length content =
      omega (arith, inside, page_up-le (cur + 8 + length e.0 + length e.1)) in
    (
      good,
      omega (arith, inside, length-append {0} content b),
      sym (load-append_front content b cur 4 (omega (arith, far))) ∙ at_key_sz,
      sym (load-append_front content b (cur + 4) (length e.0) (omega (arith, far))) ∙ at_key,
      sym (load-append_front content b (cur + 4 + length e.0) 4 (omega (arith, far))) ∙ at_val_sz,
      sym (load-append_front content b (cur + 8 + length e.0) (length e.1) (omega (arith, far)))
          ∙ at_val,
      Pages-append buf content (next_page cur e) pairs key val aligned fits more,
    )
