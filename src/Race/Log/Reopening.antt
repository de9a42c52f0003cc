-- ===== src/Race/Log/Reopening.antt =====
-- `Open` on the files of a bucket gives the bucket back.
use nvm_kv.Prelude.{
  ℕ, suc, ◌+◌, ◌%◌, ◌^◌, ◌≤◌, ◌≡◌, refl, sym, arith, [], length, Bytes, Memory, load, decode_le,
  some, true, false, min, Option-cases, inl, inr,
}
use nvm_kv.OrdMap.{find}
use nvm_kv.Posix.{opened}
use nvm_kv.Engine.{succ, ok}
use nvm_kv.Race.Bucket.{Bucket, key_file_size}
use nvm_kv.Race.Opening.{Calls, open_found, open_bucket, files_of}
use nvm_kv.Race.Live.{IsValid, view}
use nvm_kv.Race.Log.{Log, IsLogged}
use nvm_kv.Race.Log.Parsing.{parse_index-Records, Records-le}

-- The calls of the system succeed, and no descriptor is 0.
pub record Works (calls : Calls) : Type 0 where
  pub index_number : ℕ
  pub index_fd : calls.index_fd ≡ some (suc index_number)
  pub data_number : ℕ
  pub data_file_fd : calls.data_file_fd ≡ some data_number
  pub mmap_ok : calls.mmap_ok ≡ true

-- The bucket that `Open` sets up from the files of `f`.
abbrev pub reopened : Bucket → Bucket
reopened f = record f { key_fd = opened; data_fd = opened; position = 0; locked = false }

zeros : (m : Memory) (p : ℕ) → ((q : ℕ) → p ≤ q → m q ≡ 0) → decode_le (load m p 4) ≡ 0
unfolding load decode_le
zeros m p h = rw (
  h p (omega arith),
  h (p + 1) (omega arith),
  h (p + 1 + 1) (omega arith),
  h (p + 1 + 1 + 1) (omega arith),
)

-- `Open` on the files of a well formed bucket, whose index file is the log of its writes and has
-- room for the end mark, answers `succ` and sets up the same bucket again: the same map of
-- pointers, the same place for the next record and the same data offset, with the lock free and
-- the descriptors open. The calls that `Open` makes succeed, with a nonzero descriptor for the
-- index file.
pub open_bucket-files_of :
    (calls : Calls) (log : Log) (f : Bucket)
    → Works calls
    → IsValid f
    → IsLogged log f
    → f.key_mmap_cur + 4 ≤ f.mapped
    → open_bucket calls (files_of f)
      ≡ ok (record { ret = succ; bucket = some (reopened f); files = files_of f })
unfolding open_bucket open_found files_of
open_bucket-files_of calls log f works valid logged room =
    let backed : min f.mapped key_file_size ≡ f.mapped = omega (arith, logged.bounded) in
    let parsed =
      parse_index-Records log (suc f.mapped) f.key_mmap f.mapped 0 f.key_mmap_cur [] logged.records
        (zeros f.key_mmap f.key_mmap_cur logged.clean) room
        (omega (arith, Records-le f.key_mmap 0 log f.key_mmap_cur logged.records)) in
    let offset : length f.data_file % 2 ^ 32 ≡ f.data_offset =
      omega (arith, valid.counted, valid.below_4g) in
    rw (works.index_fd, works.data_file_fd, works.mmap_ok, backed, parsed)
      λ i. ok (record {
        ret = succ;
        bucket = some (record (reopened f) { map = sym logged.map i; data_offset = offset i });
        files = files_of f;
      })

-- Every key has the value that it had, and the bucket is well formed again.
pub view-reopened : (f : Bucket) (key : Bytes) → view (reopened f) key ≡ view f key
unfolding view
view-reopened f key = elim (Option-cases (find key f.map)) [ inl e ↦ rw e | inr (p, e) ↦ rw e ]

pub reopened-IsValid : (f : Bucket) → IsValid f → IsValid (reopened f)
reopened-IsValid f valid = record {
  unlocked = refl;
  is_open = refl;
  fits = valid.fits;
  counted = valid.counted;
  below_4g = valid.below_4g;
  pointers = valid.pointers;
}

pub reopened-IsLogged : (log : Log) (f : Bucket) → IsLogged log f → IsLogged log (reopened f)
reopened-IsLogged log f logged = record {
  records = logged.records;
  clean = logged.clean;
  map = logged.map;
  bounded = logged.bounded;
}
