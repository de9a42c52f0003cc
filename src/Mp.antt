-- ===== src/Mp.antt =====
-- engine_mp/engine_race.h: the engine that keeps all pairs in memory, with one file for each first
-- byte of a key, written in whole pages.
pub mod Pairs
pub mod Scanning
pub mod Paging
pub mod Restarting
use nvm_kv.Prelude.{
  ℕ, zero, suc, ◌+◌, ◌-◌, ◌*◌, ◌/◌, ◌%◌, ◌^◌, min, Option, none, some, List, [], ◌∷◌, ◌++◌, Bool,
  true, false, ◌||◌, leb, ltb, ◌==◌, if◌then◌else◌, length, get_or, get_elem?, set, take, Bytes,
  Memory, load, store, encode_le, decode_le,
}
use nvm_kv.Polar.{PolarString, at, empty, to_string}
use nvm_kv.OrdMap.{OrdMap, insert_or_assign, find, lower_bound, span}
use nvm_kv.Posix.{Io, transfer, eintr, failed}
use nvm_kv.Engine.{
  RetCode, succ, not_found, invalid_argument, io_error, incomplete, Run, ok, fault, stuck, ◌>>=◌,
  ◌>>◌, guard, outside_mapping, outside_array, past_end, deadlock, exits,
}

abbrev pub hash_size : ℕ
hash_size = 256

abbrev pub buf_sz : ℕ
buf_sz = 1024 * 1024

-- A file of the engine: its map, the bytes behind its descriptor, and its lock.
pub record File : Type 0 where
  pub map : OrdMap Bytes
  pub content : Bytes
  pub readers : ℕ
  pub writing : Bool

-- (n + PAGE_SIZE_M1) & ~PAGE_SIZE_M1
unfoldable pub page_up : ℕ → ℕ
page_up n = (n + 4095) / 4096 * 4096

-- The loop of `Open` over a mapped file of `size` bytes; the mapping ends with the page of the last
-- byte, and is zero behind the last byte.
unfoldable pub parse_file : ℕ → Memory → ℕ → ℕ → OrdMap Bytes → Run (OrdMap Bytes)
parse_file zero m size cur map = stuck
parse_file (suc fuel) m size cur map =
    let key_sz = decode_le (load m cur 4) in
    let val_sz = decode_le (load m (cur + 4 + key_sz) 4) in
    let rest =
      parse_file fuel m size (page_up (cur + 8 + key_sz + val_sz))
        (insert_or_assign (load m (cur + 4) key_sz) (load m (cur + 8 + key_sz) val_sz) map) in
    if ltb cur size
    then (guard (leb (cur + 8 + key_sz) (page_up size)) outside_mapping
        >> (guard (leb (cur + 8 + key_sz + val_sz) (page_up size)) outside_mapping >> rest))
    else ok map

abbrev pub memory_of : Bytes → Memory
memory_of content q = get_or content q 0

abbrev content_of : Option Bytes → Bytes
content_of none = []
content_of (some content) = content

-- What the calls of the system answer while a file is opened: whether it can be opened for reading,
-- whether mmap succeeds, and whether the file can be opened for writing.
pub record Calls : Type 0 where
  pub readable : Bool
  pub mapped : Bool
  pub writable : Bool

-- The answer of mmap is not checked: where it failed for a file that is not empty, the bounds of
-- the loop are made from MAP_FAILED, which is undefined.
unfoldable pub read_pairs : Calls → Bytes → Run (OrdMap Bytes)
read_pairs calls content =
    if calls.readable
    then (guard (calls.mapped || length content == 0) outside_mapping
        >> parse_file (suc (length content)) (memory_of content) (length content) 0 [])
    else ok []

abbrev map_of : Calls → Option Bytes → Run (OrdMap Bytes)
map_of calls none = ok []
map_of calls (some content) = read_pairs calls content

-- One round of the loop of `Open`. A file that does not exist or cannot be opened for reading is
-- not parsed; one that cannot be opened for writing ends the process.
unfoldable pub open_file : Calls → Option Bytes → Run File
unfolding read_pairs
open_file calls stored = do
  map ← map_of calls stored
  guard calls.writable exits
  ok (record { map = map; content = content_of stored; readers = 0; writing = false })

-- The files are opened in the order of their first byte.
unfoldable pub open_files : List (Calls × Option Bytes) → Run (List File)
open_files [] = ok []
open_files ((calls, stored) ∷ rest) = do
  f ← open_file calls stored
  fs ← open_files rest
  ok (f ∷ fs)

-- EngineRace::Open
unfoldable pub open_engine : Bool → List (Calls × Option Bytes) → Run (RetCode × Option (List File))
open_engine mkdir_ok dir =
    if mkdir_ok then (do fs ← open_files dir; ok (succ, some fs)) else ok (io_error, none)

unfoldable pub file_at : List File → ℕ → Run File
file_at fs i = elim (get_elem? fs i) [ none ↦ fault outside_array | some f ↦ ok f ]

-- pthread_rwlock_wrlock, pthread_rwlock_rdlock and the two unlocks, within one thread
unfoldable pub write_lock : File → Run File
write_lock f =
    if f.writing || ltb 0 f.readers then fault deadlock else ok (record f { writing = true })

unfoldable pub write_unlock : File → File
write_unlock f = record f { writing = false }

unfoldable pub read_lock : File → Run File
read_lock f = if f.writing then fault deadlock else ok (record f { readers = f.readers + 1 })

unfoldable pub read_unlock : File → File
read_unlock f = record f { readers = f.readers - 1 }

-- The size of a pair in the file, in 32 bits; the sum of the page is one of 64 bits.
unfoldable pub tot_sz : ℕ → ℕ → ℕ
tot_sz key_sz val_sz = page_up ((8 + key_sz + val_sz) % 2 ^ 32) % 2 ^ 32

-- The pair in the thread's buffer, over what stood there before
unfoldable pub fill : Memory → Bytes → Bytes → Memory
fill buf key val =
    store
      (store (store (store buf 0 (encode_le 4 (length key))) 4 key) (4 + length key)
        (encode_le 4 (length val)))
      (8 + length key) val

-- One call of write(2): the number of bytes it answers, if it does not fail, and the file after it.
unfoldable pub write_once : Io → Bytes → Bytes → Option ℕ × Bytes
write_once (transfer n) content bytes =
    (some (min (suc n) (length bytes)), content ++ take (min (suc n) (length bytes)) bytes)
write_once eintr content bytes = (none, content)
write_once failed content bytes = (none, content)

abbrev wrote_all : Option ℕ → ℕ → Bool
wrote_all none n = false
wrote_all (some r) n = r == n

-- EngineRace::Write in the file of the key: the answer, the file and the thread's buffer
unfoldable pub write_pair :
    Io → Memory → File → PolarString → PolarString → Run (RetCode × File × Memory)
write_pair io buf f key val =
    let key_sz = key.size % 2 ^ 32 in
    let val_sz = val.size % 2 ^ 32 in
    let tot = tot_sz key_sz val_sz in
    let owned_key = take key_sz (to_string key) in
    let owned_val = take val_sz (to_string val) in
    let buf' = fill buf owned_key owned_val in
    let (r, content) = write_once io f.content (load buf' 0 tot) in
    let f₁ : File = record f { content = content } in
    if ltb buf_sz tot
    then ok (invalid_argument, f, buf)
    else (guard (leb (8 + key_sz + val_sz) buf_sz) outside_array
        >> (if wrote_all r tot
            then (do
              f₂ ← write_lock f₁
              ok (
                succ,
                write_unlock (record f₂ { map = insert_or_assign owned_key owned_val f₂.map }),
                buf',
              ))
            else ok (incomplete, f₁, buf')))

-- EngineRace::Write
unfoldable pub write :
    Io → Memory → List File → PolarString → PolarString → Run (RetCode × List File × Memory)
write io buf fs key val = if empty key then ok (invalid_argument, fs, buf) else (do
  ch ← at key 0
  f ← file_at fs (ch % 256)
  (ret, f', buf') ← write_pair io buf f key val
  ok (ret, set fs (ch % 256) f', buf'))

abbrev found_code : Option Bytes → RetCode
found_code none = not_found
found_code (some v) = succ

abbrev found_value : Option Bytes → Bytes → Bytes
found_value none value = value
found_value (some v) value = v

-- EngineRace::Read, with the string behind `value` before and after
unfoldable pub read : List File → PolarString → Bytes → Run (RetCode × Bytes × List File)
read fs key value = if empty key then ok (invalid_argument, value, fs) else (do
  ch ← at key 0
  f ← file_at fs (ch % 256)
  f₁ ← read_lock f
  let it = find (to_string key) f₁.map
  ok (found_code it, found_value it value, set fs (ch % 256) (read_unlock f₁)))
