-- ===== src/Tth/Bucket.antt =====
-- engine_tth/engine_race.cc: the state of one bucket, and `Write` and `Read` in it.
use nvm_kv.Prelude.{
  ℕ, zero, suc, ◌+◌, ◌-◌, ◌*◌, ◌%◌, ◌^◌, min, Option, none, some, List, [], ◌∷◌, ◌++◌, Bool, true,
  false, leb, ltb, if◌then◌else◌, length, take, drop, get_or, Bytes, Memory, load, store, encode_le,
}
use nvm_kv.Polar.{PolarString, to_string, strlen}
use nvm_kv.OrdMap.{OrdMap, find, insert_or_assign}
use nvm_kv.Posix.{Io, transfer, eintr, failed, Status, zero_status, minus_one, out_of_events}
use nvm_kv.Engine.{
  RetCode, succ, not_found, Run, ok, fault, stuck, ◌>>=◌, ◌>>◌, guard, outside_mapping,
  outside_array, deadlock,
}

pub record Location : Type 0 where
  pub offset : ℕ
  pub len : ℕ

abbrev pub location_sz : ℕ
location_sz = 16

abbrev pub chunck_size : ℕ
chunck_size = 128 * 1024 * 1024

-- the size of `read_buf` in `Read`
abbrev pub read_buf_size : ℕ
read_buf_size = 4097

-- A file that is read or mapped: its size, and its bytes by their offsets.
pub record StoredFile : Type 0 where
  pub size : ℕ
  pub bytes : Memory

abbrev pub stored : Bytes → StoredFile
stored bs = record { size = length bs; bytes = λ q. get_or bs q 0 }

-- One bucket: its entry in each of the arrays of the engine. `tmp` is the mapped file index_<i>.tmp,
-- `saved` the file index_<i> where it exists. The data file stands with the offset of its descriptor,
-- which is not opened with O_APPEND.
pub record Bucket : Type 0 where
  pub index : OrdMap Location
  pub data_file : Bytes
  pub position : ℕ
  pub next_loc : Location
  pub tmp : StoredFile
  pub mem_offset : ℕ
  pub saved : Option Bytes
  pub locked : Bool

unfoldable pub zeros : ℕ → Bytes
zeros zero = []
zeros (suc n) = 0 ∷ zeros n

-- Bytes written at an offset: a hole in front of them reads as zeros.
unfoldable pub overwrite : Bytes → ℕ → Bytes → Bytes
overwrite file p bs = take p (file ++ zeros (p - length file)) ++ (bs ++ drop (p + length bs) file)

-- The result of `FileAppend` on a descriptor with an offset.
pub record Placed : Type 0 where
  pub status : Status
  pub file : Bytes
  pub position : ℕ
  pub io : List Io

-- while (length > 0) { r = write(fd, data, length); ... }
unfoldable pub append_loop : List Io → Bytes → ℕ → Bytes → Placed
append_loop io file p [] = record { status = zero_status; file = file; position = p; io = io }
append_loop [] file p (b ∷ bs) = record {
  status = out_of_events;
  file = file;
  position = p;
  io = [];
}
append_loop (eintr ∷ io) file p (b ∷ bs) = append_loop io file p (b ∷ bs)
append_loop (failed ∷ io) file p (b ∷ bs) = record {
  status = minus_one;
  file = file;
  position = p;
  io = io;
}
append_loop (transfer n ∷ io) file p (b ∷ bs) =
    let r = min (suc n) (length (b ∷ bs)) in
    append_loop io (overwrite file p (take r (b ∷ bs))) (p + r) (drop r (b ∷ bs))

unfoldable pub location_bytes : Location → Bytes
location_bytes loc = encode_le 8 loc.offset ++ encode_le 8 loc.len

-- The size of the key, the key and the location, as they follow each other in an index file.
unfoldable pub record_bytes : Bytes → Location → Bytes
record_bytes key loc = encode_le 4 (length key % 2 ^ 32) ++ (key ++ location_bytes loc)

unfoldable pub mutex_lock : Bucket → Run Bucket
mutex_lock f = if f.locked then fault deadlock else ok (record f { locked = true })

unfoldable pub mutex_unlock : Bucket → Bucket
mutex_unlock f = record f { locked = false }

-- `nextLoc` with the length of the value
abbrev pub location_of : Bucket → ℕ → Location
location_of f size = record { offset = f.next_loc.offset; len = size }

-- The call of `FileAppend`, whose result is not looked at
unfoldable pub append_value : List Io → Bucket → Bytes → Run (Bucket × List Io)
append_value io f value =
    let a = append_loop io f.data_file f.position value in
    elim a.status [
      | zero_status ↦ ok (record f { data_file = a.file; position = a.position }, a.io)
      | minus_one ↦ ok (record f { data_file = a.file; position = a.position }, a.io)
      | out_of_events ↦ stuck
    ]

-- The three copies to the mapping, and the step of `mem_offset`
unfoldable pub write_tmp : Bucket → Bytes → Location → Run Bucket
write_tmp f key loc = do
  guard (leb (f.mem_offset + (4 + length key + location_sz)) chunck_size) outside_mapping
  ok (record f {
    tmp = record f.tmp { bytes = store f.tmp.bytes f.mem_offset (record_bytes key loc) };
    mem_offset = f.mem_offset + (4 + length key + location_sz);
  })

-- EngineRace::Write, from the lock of the bucket on
unfoldable pub write :
    List Io → Bucket → PolarString → PolarString → Run (RetCode × Bucket × List Io)
write io f key value = do
  f₁ ← mutex_lock f
  let loc : Location = location_of f₁ value.size
  (f₂, io') ←
      append_value io
        (record f₁ { index = insert_or_assign (to_string key) loc f₁.index; next_loc = loc })
        (to_string value)
  f₃ ← write_tmp f₂ (to_string key) loc
  let next : Location = record { offset = (loc.offset + loc.len) % 2 ^ 64; len = loc.len }
  ok (succ, mutex_unlock (record f₃ { next_loc = next }), io')

-- One read(2): the bytes, or `none` for -1, and the events left
unfoldable pub read_some : List Io → StoredFile → ℕ → ℕ → Run (Option Bytes × List Io)
read_some [] file p n = stuck
read_some (transfer k ∷ io) file p n =
    ok (some (load file.bytes p (min (suc k) (min n (file.size - p)))), io)
read_some (eintr ∷ io) file p n = ok (none, io)
read_some (failed ∷ io) file p n = ok (none, io)

-- std::string(buf): the bytes up to the first zero
unfoldable pub c_string : Bytes → Bytes
c_string bs = take (strlen bs) bs

abbrev bytes_read : Option Bytes → Bytes
bytes_read none = []
bytes_read (some bs) = bs

-- read_data_file, and the string made of `read_buf`; `before` is what stood in the array.
unfoldable pub read_value : List Io → Bucket → Location → Memory → Run (Bytes × List Io)
read_value io f loc before = do
  (r, io') ← read_some io (stored f.data_file) loc.offset loc.len
  guard (leb (length (bytes_read r)) read_buf_size) outside_array
  guard (ltb loc.len read_buf_size) outside_array
  ok (c_string (load (store before 0 (bytes_read r)) 0 loc.len), io')

-- What `Read` does between the locks
unfoldable pub read_found :
    List Io → Bucket → Option Location → Memory → Bytes → Run (RetCode × Bytes × Bucket × List Io)
read_found io f none before value = ok (not_found, value, f, io)
read_found io f (some loc) before value = do
  (bs, io') ← read_value io f loc before
  ok (succ, bs, record f { position = length f.data_file }, io')

-- EngineRace::Read, from the lock of the bucket on
unfoldable pub read :
    List Io → Bucket → PolarString → Memory → Bytes → Run (RetCode × Bytes × Bucket × List Io)
read io f key before value = do
  f₁ ← mutex_lock f
  (ret, value', f₂, io') ← read_found io f₁ (find (to_string key) f₁.index) before value
  ok (ret, value', mutex_unlock f₂, io')
