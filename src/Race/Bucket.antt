-- ===== src/Race/Bucket.antt =====
-- engine_race/engine_race.cc: the state of one bucket, and what `EngineRace::Write` does to it.
use nvm_kv.Prelude.{
  ℕ, zero, suc, ◌+◌, ◌*◌, ◌%◌, ◌^◌, List, [], ◌∷◌, ◌++◌, Bool, true, false, leb, if◌then◌else◌,
  length, Bytes, encode_le, decode_le, Memory, load, store,
}
use nvm_kv.Polar.{PolarString, to_string}
use nvm_kv.OrdMap.{OrdMap, insert_or_assign}
use nvm_kv.Posix.{Io, Fd, zero_status, minus_one, out_of_events, file_append}
use nvm_kv.Engine.{
  RetCode, succ, Run, ok, fault, stuck, ◌>>=◌, ◌>>◌, guard, outside_mapping, outside_array,
  deadlock,
}

pub record Location : Type 0 where
  pub offset : ℕ
  pub len : ℕ

abbrev pub location_sz : ℕ
location_sz = 16

abbrev pub key_file_size : ℕ
key_file_size = 128 * 1024 * 1024

-- the size of `buf` in `Write`
abbrev pub write_buf_size : ℕ
write_buf_size = 80

-- `Location*` is an offset in the mapped index file. The file behind `data_fd` and the offset at
-- which it is read next stand beside the descriptor; `mapped` is the number of bytes of the mapping
-- that the index file backs.
pub record Bucket : Type 0 where
  pub map : OrdMap ℕ
  pub key_fd : Fd
  pub data_fd : Fd
  pub data_offset : ℕ
  pub key_mmap : Memory
  pub key_mmap_cur : ℕ
  pub mapped : ℕ
  pub data_file : Bytes
  pub position : ℕ
  pub locked : Bool

-- *(Location *)p
unfoldable pub load_location : Memory → ℕ → Location
load_location m p = record { offset = decode_le (load m p 8); len = decode_le (load m (p + 8) 8) }

unfoldable pub location_bytes : Location → Bytes
location_bytes loc = encode_le 8 loc.offset ++ encode_le 8 loc.len

-- One record of the index file: the size of the key, the key and the location.
unfoldable pub record_bytes : Bytes → Location → Bytes
record_bytes key loc = encode_le 4 (length key % 2 ^ 32) ++ (key ++ location_bytes loc)

unfoldable pub mutex_lock : Bucket → Run Bucket
mutex_lock f = if f.locked then fault deadlock else ok (record f { locked = true })

unfoldable pub mutex_unlock : Bucket → Bucket
mutex_unlock f = record f { locked = false }

-- The call of `FileAppend`. Its result is only asserted, and a release build drops the assertion.
unfoldable pub append_value : List Io → Bucket → Bytes → Run (Bucket × List Io)
append_value io f value =
    let a = file_append f.data_fd io f.data_file value in
    elim a.status [
      | zero_status ↦ ok (record f { data_file = a.file }, a.io)
      | minus_one ↦ ok (record f { data_file = a.file }, a.io)
      | out_of_events ↦ stuck
    ]

-- The record is built in `buf`, copied to the mapping at `key_mmap_cur` and entered in `map`.
unfoldable pub write_index : Bucket → Bytes → ℕ → Run Bucket
write_index f key value_size = do
  let loc : Location = record { offset = f.data_offset; len = value_size }
  guard (leb (4 + length key + location_sz) write_buf_size) outside_array
  guard (leb (f.key_mmap_cur + (4 + length key + location_sz)) f.mapped) outside_mapping
  ok (record f {
    key_mmap = store f.key_mmap f.key_mmap_cur (record_bytes key loc);
    map = insert_or_assign key (f.key_mmap_cur + 4 + length key) f.map;
    data_offset = (f.data_offset + value_size) % 2 ^ 32;
    key_mmap_cur = f.key_mmap_cur + 4 + length key + location_sz;
  })

-- The effects of `Write` on a bucket
pub data Step : Type 0 where
  taking_lock appending_value entering_record releasing_lock : Step

unfoldable pub step : PolarString → PolarString → Step → List Io → Bucket → Run (Bucket × List Io)
step key value taking_lock io f = do f' ← mutex_lock f; ok (f', io)
step key value appending_value io f = append_value io f (to_string value)
step key value entering_record io f = do f' ← write_index f (to_string key) value.size; ok (f', io)
step key value releasing_lock io f = ok (mutex_unlock f, io)

unfoldable pub run_steps :
    PolarString → PolarString → List Step → List Io → Bucket → Run (Bucket × List Io)
run_steps key value [] io f = ok (f, io)
run_steps key value (s ∷ steps) io f = do
  (f', io') ← step key value s io f
  run_steps key value steps io' f'

-- The order of the statements: the value is written before the record.
unfoldable pub write_steps : List Step
write_steps = taking_lock ∷ appending_value ∷ entering_record ∷ releasing_lock ∷ []

-- EngineRace::Write, from the lock of the bucket on
unfoldable pub write :
    List Io → Bucket → PolarString → PolarString → Run (RetCode × Bucket × List Io)
write io f key value = do (f', io') ← run_steps key value write_steps io f; ok (succ, f', io')

-- The bucket when the process dies in a step for which the calls of write(2) ran out
unfoldable pub cut_off : PolarString → Step → List Io → Bucket → Bucket
cut_off value appending_value io f = record f {
  data_file = (file_append f.data_fd io f.data_file (to_string value)).file;
}
cut_off value taking_lock io f = f
cut_off value entering_record io f = f
cut_off value releasing_lock io f = f

-- The bucket when the process dies after `n` of the steps, or in an earlier one
unfoldable pub left_by : PolarString → PolarString → List Step → ℕ → List Io → Bucket → Bucket
left_by key value [] n io f = f
left_by key value (s ∷ steps) zero io f = f
left_by key value (s ∷ steps) (suc n) io f = elim (step key value s io f) [
  | ok (f', io') ↦ left_by key value steps n io' f'
  | fault e ↦ f
  | stuck ↦ cut_off value s io f
]
