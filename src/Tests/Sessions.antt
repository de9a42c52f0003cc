-- ===== src/Tests/Sessions.antt =====
-- A session with one bucket of engine_race: create, write, read, close, open again.
use nvm_kv.Prelude.{
  ℕ, ◌+◌, ◌≡◌, refl, Option, none, some, List, [], ◌∷◌, Bool, true, false, length, Bytes,
}
use nvm_kv.Polar.{of_string, to_string}
use nvm_kv.OrdMap.{find}
use nvm_kv.Posix.{Io, transfer, eintr}
use nvm_kv.Engine.{RetCode, succ, Run, ok, fault, ◌>>=◌, outside_array}
use nvm_kv.Race.Bucket
use nvm_kv.Race.Bucket.{Bucket}
use nvm_kv.Race.Reading
use nvm_kv.Race.Opening.{Files, Calls, Opened, open_bucket, files_of}

abbrev calls : Calls
calls = record {
  index_fd = some 3;
  create_fd = some 3;
  data_file_fd = some 4;
  fallocate_ok = true;
  mmap_ok = true;
}

abbrev no_files : Files
no_files = record { index = none; data_file = none }

abbrev opened_bucket : Opened → Run Bucket
opened_bucket o = elim o.bucket [ none ↦ fault outside_array | some f ↦ ok f ]

abbrev abc : Bytes
abc = b'a' ∷ b'b' ∷ b'c' ∷ []

abbrev xyzw : Bytes
xyzw = b'x' ∷ b'y' ∷ b'z' ∷ b'w' ∷ []

-- Signals and short transfers in between
abbrev io : List Io
io =
    eintr ∷ transfer 1 ∷ transfer 0 ∷ eintr ∷ transfer 9 ∷ transfer 2 ∷ transfer 9 ∷ transfer 9 ∷ []

abbrev session : Run (RetCode × Bytes × RetCode × Bytes)
session = do
  o ← open_bucket calls no_files
  f ← opened_bucket o
  (ret, f₁, io₁) ← Bucket.write io f (of_string abc) (of_string xyzw)
  a ← Reading.read io₁ f₁ (of_string abc) []
  o₂ ← open_bucket calls (files_of a.bucket)
  f₂ ← opened_bucket o₂
  b ← Reading.read io f₂ (of_string abc) []
  ok (a.ret, a.value, b.ret, b.value)

session_answers : session ≡ ok (succ, xyzw, succ, xyzw)
unfolding open_bucket Bucket.write Bucket.run_steps Bucket.step Bucket.write_steps Reading.read
    files_of of_string to_string find nvm_kv.Race.Opening.create_files Bucket.mutex_lock
    Bucket.append_value nvm_kv.Posix.file_append Bucket.write_index Bucket.mutex_unlock
    Reading.read_found nvm_kv.OrdMap.insert_or_assign nvm_kv.Prelude.lex
    Reading.get_string_from_location Reading.read_bytes Bucket.load_location
    nvm_kv.Prelude.decode_le nvm_kv.Prelude.load nvm_kv.Prelude.store Bucket.record_bytes
    nvm_kv.Prelude.encode_le nvm_kv.Posix.append_loop nvm_kv.Posix.write_closed
    Bucket.location_bytes nvm_kv.Race.Opening.open_found nvm_kv.Race.Opening.parse_index
    Reading.finish_read Reading.read_loop
session_answers = refl
