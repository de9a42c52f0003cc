-- ===== src/Tth/Indexing.antt =====
-- engine_tth/engine_race.cc: `read_index_file`.
use nvm_kv.Prelude.{
  ℕ, zero, suc, ◌+◌, ◌-◌, ◌^◌, none, some, List, leb, ltb, ◌==◌, if◌then◌else◌, length, take, drop,
  Bytes, decode_le,
}
use nvm_kv.OrdMap.{OrdMap, insert_or_assign}
use nvm_kv.Posix.{Io}
use nvm_kv.Engine.{
  RetCode, succ, io_error, Run, ok, fault, stuck, ◌>>=◌, ◌>>◌, guard, outside_array,
}
use nvm_kv.Tth.Bucket.{Location, StoredFile, location_sz, read_some, c_string}

-- the size of `buf`
abbrev pub key_buf_size : ℕ
key_buf_size = 1024

abbrev pub Indexed : Type 0
Indexed = RetCode × OrdMap Location × List Io

-- The rest of the loop: from an offset on, with an index and the events left
abbrev pub Next : Type 0
Next = ℕ → OrdMap Location → List Io → Run Indexed

abbrev pub location_at : Bytes → Location
location_at bs = record { offset = decode_le (take 8 bs); len = decode_le (drop 8 bs) }

-- The location of an entry, and the assignment to the index
unfoldable pub read_location :
    List Io → StoredFile → ℕ → Bytes → OrdMap Location → Next → Run Indexed
read_location io file p key index next = do
  (r, io') ← read_some io file p location_sz
  elim r [
    | none ↦ ok (io_error, index, io')
    | some bs ↦
        if length bs == location_sz
        then next (p + location_sz) (insert_or_assign key (location_at bs) index) io'
        else ok (io_error, index, io')
  ]

-- The key of an entry. `sz` is an int: a negative one makes read(2) fail, and passes for the answer
-- if it is -1; then `buf[sz]` is outside the array.
unfoldable pub read_key : List Io → StoredFile → ℕ → ℕ → OrdMap Location → Next → Run Indexed
read_key io file p sz index next =
    if leb (2 ^ 31) sz
    then (if sz == 2 ^ 32 - 1 then fault outside_array else ok (io_error, index, io))
    else (do
      (r, io') ← read_some io file p sz
      elim r [
        | none ↦ ok (io_error, index, io')
        | some bs ↦
            guard (leb (length bs) key_buf_size) outside_array
            >> (if length bs == sz
                then (guard (ltb sz key_buf_size) outside_array
                    >> read_location io' file (p + sz) (c_string bs) index next)
                else ok (io_error, index, io'))
      ])

-- while ((rd = read(fd, (char *)&sz, 4)) > 0) { ... }
unfoldable pub read_index_file : ℕ → List Io → StoredFile → ℕ → OrdMap Location → Run Indexed
read_index_file zero io file p index = stuck
read_index_file (suc fuel) io file p index = do
  let next : Next = λ p' index' io'. read_index_file fuel io' file p' index'
  (r, io') ← read_some io file p 4
  elim r [
    | none ↦ ok (io_error, index, io')
    | some bs ↦
        if length bs == 0
        then ok (succ, index, io')
        else (if length bs == 4
            then (if decode_le bs == 0
                then ok (succ, index, io')
                else read_key io' file (p + 4) (decode_le bs) index next)
            else ok (io_error, index, io'))
  ]
