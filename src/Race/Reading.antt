-- ===== src/Race/Reading.antt =====
-- engine_race/engine_race.cc: `get_string_from_location`, and what `EngineRace::Read` does in its
-- bucket.
use nvm_kv.Prelude.{
  ℕ, zero, suc, ◌+◌, ◌-◌, ◌%◌, ◌^◌, min, Option, none, some, List, [], ◌∷◌, ◌++◌, leb,
  if◌then◌else◌, length, take, drop, Bytes,
}
use nvm_kv.Polar.{PolarString, to_string}
use nvm_kv.OrdMap.{find}
use nvm_kv.Posix.{
  Io, transfer, eintr, failed, Fd, negative, opened, closed, Status, zero_status, minus_one,
  out_of_events,
}
use nvm_kv.Engine.{
  RetCode, succ, not_found, io_error, Run, ok, fault, stuck, ◌>>=◌, ◌>>◌, guard, outside_array,
}
use nvm_kv.Race.Bucket.{Bucket, Location, load_location, mutex_lock, mutex_unlock}

-- the size of `buf` in `get_string_from_location`
abbrev pub read_buf_size : ℕ
read_buf_size = 4097

-- The variables of the read loop: how much is wanted, what stands in `buf`, and the file offset.
pub record ReadLoop : Type 0 where
  pub status : Status
  pub buf : Bytes
  pub position : ℕ
  pub io : List Io

-- while (value_len > 0) { r = read(fd, pos, value_len); ... }
-- A read at the end of the file moves nothing and answers 0, which ends no round of the loop.
unfoldable pub read_loop : List Io → Bytes → ℕ → Bytes → ℕ → Run ReadLoop
read_loop io file position buf zero =
    ok (record { status = zero_status; buf = buf; position = position; io = io })
read_loop [] file position buf (suc n) = stuck
read_loop (eintr ∷ io) file position buf (suc n) = read_loop io file position buf (suc n)
read_loop (failed ∷ io) file position buf (suc n) =
    ok (record { status = minus_one; buf = buf; position = position; io = io })
read_loop (transfer k ∷ io) file position buf (suc n) =
    let chunk = take (min (suc k) (suc n)) (drop position file) in
    let r = length chunk in
    let rest = read_loop io file (position + r) (buf ++ chunk) (suc n - r) in
    if leb (length buf + r) read_buf_size then rest else fault outside_array

-- read(2) on a descriptor that is not open fails with EBADF.
unfoldable pub read_bytes : Fd → List Io → Bytes → ℕ → ℕ → Run ReadLoop
unfolding read_loop
read_bytes opened io file position n = read_loop io file position [] n
read_bytes closed io file position zero =
    ok (record { status = zero_status; buf = []; position = position; io = io })
read_bytes closed io file position (suc n) =
    ok (record { status = minus_one; buf = []; position = position; io = io })
read_bytes negative io file position zero =
    ok (record { status = zero_status; buf = []; position = position; io = io })
read_bytes negative io file position (suc n) =
    ok (record { status = minus_one; buf = []; position = position; io = io })

-- The answer, the string behind `value`, the bucket and the events that are left.
pub record Answer (A : Type 0) : Type 0 where
  pub ret : A
  pub value : Bytes
  pub bucket : Bucket
  pub io : List Io

-- After the loop the string is made of `loc->len` bytes of `buf`; after an error `fd` is closed.
unfoldable pub finish_read : Bucket → Location → Bytes → ReadLoop → Run (Answer Status)
finish_read f loc value r = elim r.status [
  | zero_status ↦ do
    guard (leb loc.len read_buf_size) outside_array
    ok (record {
      ret = zero_status;
      value = r.buf;
      bucket = record f { position = r.position };
      io = r.io;
    })
  | minus_one ↦ ok (record {
    ret = minus_one;
    value = value;
    bucket = record f { position = r.position; data_fd = closed };
    io = r.io;
  })
  | out_of_events ↦ stuck
]

-- EngineRace::get_string_from_location
unfoldable pub get_string_from_location : List Io → Bucket → Location → Bytes → Run (Answer Status)
get_string_from_location io f loc value =
    read_bytes f.data_fd io f.data_file loc.offset (loc.len % 2 ^ 32) >>= finish_read f loc value

abbrev pub code_of : Status → RetCode
code_of zero_status = succ
code_of minus_one = io_error
code_of out_of_events = io_error

-- What `Read` does between the locks, by what `map.find` gave
unfoldable pub read_found : List Io → Bucket → Option ℕ → Bytes → Run (Answer RetCode)
read_found io f none value = ok (record { ret = not_found; value = value; bucket = f; io = io })
read_found io f (some p) value = do
  a ← get_string_from_location io f (load_location f.key_mmap p) value
  ok (record { ret = code_of a.ret; value = a.value; bucket = a.bucket; io = a.io })

-- EngineRace::Read, from the lock of the bucket on
unfoldable pub read : List Io → Bucket → PolarString → Bytes → Run (Answer RetCode)
read io f key value = do
  f₁ ← mutex_lock f
  a ← read_found io f₁ (find (to_string key) f₁.map) value
  ok (record a { bucket = mutex_unlock a.bucket })
