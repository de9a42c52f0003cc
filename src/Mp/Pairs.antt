-- ===== src/Mp/Pairs.antt =====
-- engine_mp: what `Write` and `Read` do to the pairs of a file.
use native.Mathlib.Decide.{dec_lt}
use nvm_kv.Prelude.{
  ℕ, suc, ◌+◌, ◌%◌, ◌^◌, ◌≤◌, ◌<◌, ◌≡◌, refl, arith, ◌++◌, some, true, false, min, if◌then◌else◌,
  length, take, same, Bytes, Memory, load, length-load, le→ltb, le→leb, take_all, ==_refl, lt→ne,
  inl, inr, ◌⊎◌,
}
use nvm_kv.Polar.{of_string, to_string}
use nvm_kv.Polar.Order.{to_string-of_string}
use nvm_kv.OrdMap.{find, insert_or_assign}
use nvm_kv.OrdMap.Laws.{find-insert_or_assign}
use nvm_kv.Posix.{transfer}
use nvm_kv.Engine.{RetCode, succ, incomplete, ok}
use nvm_kv.Mp.{
  File, buf_sz, page_up, tot_sz, fill, write_once, write_lock, write_unlock, write_pair,
}

-- Where the sizes of a pair and one more page stay within 32 bits, the room of the pair in the
-- file is a whole number of pages, holds the two sizes, the key and the value, and is less than a
-- page larger than they are.
pub tot_sz_bounds :
    (key_sz val_sz : ℕ)
    → 8 + key_sz + val_sz + 4096 ≤ 2 ^ 32
    → (tot_sz key_sz val_sz % 4096 ≡ 0)
      × (8 + key_sz + val_sz ≤ tot_sz key_sz val_sz)
      × (tot_sz key_sz val_sz < 8 + key_sz + val_sz + 4096)
unfolding tot_sz page_up
tot_sz_bounds key_sz val_sz h = (omega arith, omega arith, omega arith)

-- A pair that fits the buffer of `Write`, with its padding.
abbrev pub Fits : Bytes → Bytes → Type 0
Fits key val = 8 + length key + length val ≤ buf_sz

-- The bytes of the pair as `Write` hands them to write(2), padding included.
abbrev pub pair_bytes : Memory → Bytes → Bytes → Bytes
pair_bytes buf key val = load (fill buf key val) 0 (tot_sz (length key) (length val))

-- The file with the pair behind its content, and in its map.
abbrev pub with_pair : Memory → File → Bytes → Bytes → File
with_pair buf f key val = record f {
  content = f.content ++ pair_bytes buf key val;
  map = insert_or_assign key val f.map;
  writing = false;
}

page_up-le : (n : ℕ) → n ≤ buf_sz → page_up n ≤ buf_sz
unfolding page_up
page_up-le n h = omega arith

tot_sz-le : (key val : Bytes) → Fits key val → tot_sz (length key) (length val) ≤ buf_sz
unfolding tot_sz
tot_sz-le key val h =
    let e : (8 + length key + length val) % 2 ^ 32 ≡ 8 + length key + length val = omega arith in
    rw e (omega (arith, page_up-le (8 + length key + length val) h))

write_once_all :
    (n : ℕ) (content bytes : Bytes)
    → length bytes ≤ suc n
    → write_once (transfer n) content bytes ≡ (some (length bytes), content ++ bytes)
unfolding write_once
write_once_all n content bytes h =
    let e : min (suc n) (length bytes) ≡ length bytes = omega arith in
    rw (e, take_all (length bytes) bytes (omega arith))

write_once_short :
    (n : ℕ) (content bytes : Bytes)
    → suc n < length bytes
    → write_once (transfer n) content bytes ≡ (some (suc n), content ++ take (suc n) bytes)
unfolding write_once
write_once_short n content bytes h =
    let e : min (suc n) (length bytes) ≡ suc n = omega arith in rw e

owned : (s : Bytes) → length s < 2 ^ 32 → take (length s % 2 ^ 32) (to_string (of_string s)) ≡ s
owned s h =
    let e : length s % 2 ^ 32 ≡ length s = omega arith in
    rw (e, to_string-of_string s) (take_all (length s) s (omega arith))

write_lock_free :
    (f : File) → f.writing ≡ false → f.readers ≡ 0 → write_lock f ≡ ok (record f { writing = true })
unfolding write_lock
write_lock_free f w r = ground arith

module _ (n : ℕ) (buf : Memory) (f : File) (key val : Bytes) (free : f.writing ≡ false)
    (unread : f.readers ≡ 0) (fits : Fits key val) where
  pub length-pair_bytes : length (pair_bytes buf key val) ≡ tot_sz (length key) (length val)
  length-pair_bytes = length-load (fill buf key val) 0 (tot_sz (length key) (length val))

  sizes : (length key % 2 ^ 32 ≡ length key) × (length val % 2 ^ 32 ≡ length val)
  sizes = (omega arith, omega arith)

  pub write_pair_all :
      tot_sz (length key) (length val) ≤ suc n
      → write_pair (transfer n) buf f (of_string key) (of_string val)
        ≡ ok (succ, with_pair buf f key val, fill buf key val)
  unfolding write_pair of_string write_unlock
  write_pair_all h = rw (
    owned key (omega arith),
    owned val (omega arith),
    sizes.0,
    sizes.1,
    write_once_all n f.content (pair_bytes buf key val) (omega (arith, length-pair_bytes)),
    le→ltb buf_sz (tot_sz (length key) (length val)) (tot_sz-le key val fits),
    le→leb (8 + length key + length val) buf_sz fits,
    length-pair_bytes,
    ==_refl (tot_sz (length key) (length val)),
    write_lock_free (record f { content = f.content ++ pair_bytes buf key val }) free unread,
  )

  write_pair_short :
      suc n < tot_sz (length key) (length val)
      → write_pair (transfer n) buf f (of_string key) (of_string val)
        ≡ ok (
          incomplete,
          record f { content = f.content ++ take (suc n) (pair_bytes buf key val) },
          fill buf key val,
        )
  unfolding write_pair of_string
  write_pair_short h = rw (
    owned key (omega arith),
    owned val (omega arith),
    sizes.0,
    sizes.1,
    write_once_short n f.content (pair_bytes buf key val) (omega (arith, length-pair_bytes)),
    le→ltb buf_sz (tot_sz (length key) (length val)) (tot_sz-le key val fits),
    le→leb (8 + length key + length val) buf_sz fits,
    lt→ne (suc n) (tot_sz (length key) (length val)) h,
  )

-- What one call of write(2) that moves at most `n + 1` bytes makes of `Write`.
abbrev pub PairOutcome : ℕ → Memory → File → Bytes → Bytes → Type 0
PairOutcome n buf f key val =
    (ret : RetCode) × (f' : File) × (write_pair (transfer n) buf f (of_string key) (of_string val)
      ≡ ok (ret, f', fill buf key val))
    × (((tot_sz (length key) (length val) ≤ suc n)
          × (ret ≡ succ)
          × (f'.content ≡ f.content ++ pair_bytes buf key val)
          × ((j : Bytes) → find j f'.map ≡ (if same j key then some val else find j f.map)))
        ⊎ ((suc n < tot_sz (length key) (length val))
            × (ret ≡ incomplete)
            × (f'.content ≡ f.content ++ take (suc n) (pair_bytes buf key val))
            × ((j : Bytes) → find j f'.map ≡ find j f.map)))

-- `Write` of engine_mp in a file that no thread has locked, of a pair that fits the buffer, when
-- the one call of write(2) moves at most `n + 1` bytes: if that covers the pair and its padding
-- it answers `succ`, the whole pair stands at the end of the file, and the key has the new value
-- and every other key the one it had; otherwise it answers `incomplete` and no key changes its
-- value, but the first `n + 1` bytes of the pair stay in the file.
pub write_pair_cases :
    (n : ℕ) (buf : Memory) (f : File) (key val : Bytes)
    → f.writing ≡ false
    → f.readers ≡ 0
    → Fits key val
    → PairOutcome n buf f key val
write_pair_cases n buf f key val free unread fits =
    elim (dec_lt (suc n) (tot_sz (length key) (length val))) [
      | yes short ↦ (
        incomplete,
        record f { content = f.content ++ take (suc n) (pair_bytes buf key val) },
        write_pair_short n buf f key val free unread fits short,
        inr (short, refl, refl, λ j. refl),
      )
      | no long ↦
          let enough : tot_sz (length key) (length val) ≤ suc n = omega arith in
          (
            succ,
            with_pair buf f key val,
            write_pair_all n buf f key val free unread fits enough,
            inl (enough, refl, refl, λ j. find-insert_or_assign key j val f.map),
          )
    ]
