-- ===== src/Mp/Restarting.antt =====
-- engine_mp: `Open` on a file that `Write` has written.
use nvm_kv.Prelude.{
  ℕ, suc, ◌%◌, ◌≤◌, ◌≡◌, refl, ◌∙◌, arith, some, [], ◌∷◌, ◌++◌, true, false, ◌||◌, ◌==◌, length,
  Bytes, Memory, length-load, length-append,
}
use nvm_kv.Polar.{of_string}
use nvm_kv.OrdMap.{OrdMap, insert_or_assign}
use nvm_kv.Posix.{transfer}
use nvm_kv.Engine.{succ, ok}
use nvm_kv.Mp.{Calls, File, memory_of, read_pairs, open_file, tot_sz, fill, write_pair}
use nvm_kv.Mp.Pairs.{Fits, pair_bytes, tot_sz_bounds, write_pair_all}
use nvm_kv.Mp.Paging.{Pairs, replay, Pages, Pages-length, parse_file-Pages, Pages-append}

replay-append :
    (pairs : Pairs) (e : Bytes × Bytes) (map : OrdMap Bytes)
    → replay (pairs ++ e ∷ []) map ≡ insert_or_assign e.0 e.1 (replay pairs map)
unfolding replay
replay-append [] e map = refl
replay-append (d ∷ pairs) e map = replay-append pairs e (insert_or_assign d.0 d.1 map)

-- A content of whole pages that holds the pairs
pub record IsStored (content : Bytes) (pairs : Pairs) : Type 0 where
  pub aligned : length content % 4096 ≡ 0
  pub pages : Pages (memory_of content) (length content) 0 pairs

-- The file of the engine with that content
abbrev pub file_with : Bytes → Pairs → File
file_with content pairs = record {
  map = replay pairs [];
  content = content;
  readers = 0;
  writing = false;
}

-- The calls succeed, where mmap of an empty file need not.
pub record Works (calls : Calls) (content : Bytes) : Type 0 where
  pub readable : calls.readable ≡ true
  pub mapped : (calls.mapped || length content == 0) ≡ true
  pub writable : calls.writable ≡ true

open_file-IsStored :
    (calls : Calls) (content : Bytes) (pairs : Pairs)
    → Works calls content
    → IsStored content pairs
    → open_file calls (some content) ≡ ok (file_with content pairs)
unfolding open_file read_pairs
open_file-IsStored calls content pairs works stored =
    rw
      (
        works.readable,
        works.mapped,
        works.writable,
        parse_file-Pages (suc (length content)) (memory_of content) (length content) 0 [] pairs
            (omega (arith, Pages-length (memory_of content) (length content) 0 pairs stored.pages))
            stored.pages,
      )
      refl

append-IsStored :
    (buf : Memory) (content : Bytes) (pairs : Pairs) (key val : Bytes)
    → IsStored content pairs
    → Fits key val
    → IsStored (content ++ pair_bytes buf key val) (pairs ++ (key, val) ∷ [])
append-IsStored buf content pairs key val stored fits = record {
  aligned = omega (
    arith,
    stored.aligned,
    length-append {0} content (pair_bytes buf key val),
    length-load (fill buf key val) 0 (tot_sz (length key) (length val)),
    (tot_sz_bounds (length key) (length val) (omega (arith, fits))).0,
  );
  pages = Pages-append buf content 0 pairs key val stored.aligned fits stored.pages;
}

-- `Write` answers `succ`, the file holds one more pair, and `Open` on its content gives the file.
abbrev pub Restarts : Calls → ℕ → Memory → Bytes → Pairs → Bytes → Bytes → Type 0
Restarts calls n buf content pairs key val =
    (content' : Bytes) × (buf' : Memory) × (write_pair (transfer n) buf (file_with content pairs)
        (of_string key) (of_string val)
      ≡ ok (succ, file_with content' (pairs ++ (key, val) ∷ []), buf'))
    × IsStored content' (pairs ++ (key, val) ∷ [])
    × (open_file calls (some content') ≡ ok (file_with content' (pairs ++ (key, val) ∷ [])))

-- In a file of engine_mp that no thread has locked, whose content is whole pages that hold pairs
-- and whose map is made of them, `Write` of a pair that fits the buffer, when the one call of
-- write(2) covers the pair and its padding, answers `succ` and leaves such a file with one more
-- pair. Where the file then can be opened for reading, mapped, and opened for writing, the round
-- of `Open` for it gives the same file again, with the same map.
pub open_file-write_pair :
    (calls : Calls) (n : ℕ) (buf : Memory) (content : Bytes) (pairs : Pairs) (key val : Bytes)
    → calls.readable ≡ true
    → calls.mapped ≡ true
    → calls.writable ≡ true
    → IsStored content pairs
    → Fits key val
    → tot_sz (length key) (length val) ≤ suc n
    → Restarts calls n buf content pairs key val
open_file-write_pair calls n buf content pairs key val readable mapped writable stored fits enough =
    let stored' = append-IsStored buf content pairs key val stored fits in
    (
      content ++ pair_bytes buf key val,
      fill buf key val,
      write_pair_all n buf (file_with content pairs) key val refl refl fits enough
          ∙ rw (replay-append pairs (key, val) []) refl,
      stored',
      open_file-IsStored calls (content ++ pair_bytes buf key val) (pairs ++ (key, val) ∷ [])
          (record { readable = readable; mapped = rw mapped refl; writable = writable }) stored',
    )
