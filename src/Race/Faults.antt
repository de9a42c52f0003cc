-- ===== src/Race/Faults.antt =====
-- Inputs and failures that engine_race does not deal with: an append that fails, an empty key, and
-- a data file that ends before the value does.
use mathlib.Core.Option.{some-injective}
use nvm_kv.Prelude.{
  ℕ, suc, ◌+◌, ◌-◌, ◌%◌, ◌^◌, ◌≤◌, ◌<◌, ◌≡◌, ◌≢◌, refl, sym, ap, ◌∙◌, arith, List, [], ◌∷◌, ◌++◌,
  some, min, true, false, length, take, drop, Bytes, le→leb, length-take, length-drop, append-nil,
  same_refl, Option-cases, inl, inr,
}
use nvm_kv.Polar.{of_string}
use nvm_kv.Polar.Order.{to_string-of_string}
use nvm_kv.OrdMap.{find}
use nvm_kv.Posix.{Io, transfer, eintr, failed, opened, NoFailure, transfers, file_append}
use nvm_kv.Engine.{succ, ok, stuck}
use nvm_kv.Race.Bucket.{
  Bucket, Location, record_bytes, key_file_size, mutex_unlock, append_value, step, run_steps,
  write_steps, write,
}
use nvm_kv.Race.Reading.{read_buf_size, read_loop}
use nvm_kv.Race.Records.{decode_le-record_bytes}
use nvm_kv.Race.Live.{slice, at_pointer, view, IsValid, HasRoom}
use nvm_kv.Race.Live.Writing.{
  written, mutex_lock_free, write_index_ok, write-written, load_location_old, load_location_new,
  slice_old, find-written, view-written,
}
use nvm_kv.Race.Opening.{Calls, open_bucket, open_found, files_of, parse_index}
use nvm_kv.Race.Log.{Log, IsLogged, entered}
use nvm_kv.Race.Log.Parsing.{parse_index-Records, Records-le}
use nvm_kv.Race.Log.Appending.{Records-store, new_location}
use nvm_kv.Race.Log.Reopening.{Works}

empty_of_length : (bs : Bytes) → length bs ≡ 0 → bs ≡ []
empty_of_length [] h = refl
empty_of_length (b ∷ bs) h = absurd (omega arith)

-- A read loop of `get_string_from_location` that still wants bytes, at or behind the end of the
-- file and with no more in its buffer than fits, does not return: over any calls of read(2) of
-- which none fails, the calls run out first.
pub read_loop_eof :
    (io : List Io) (file buf : Bytes) (position n : ℕ)
    → NoFailure io
    → length file ≤ position
    → length buf ≤ read_buf_size
    → read_loop io file position buf (suc n) ≡ stuck
unfolding read_loop
read_loop_eof [] file buf position n good past fits = refl
read_loop_eof (eintr ∷ io) file buf position n good past fits =
    read_loop_eof io file buf position n good past fits
read_loop_eof (failed ∷ io) file buf position n good past fits = absurd good
read_loop_eof (transfer k ∷ io) file buf position n good past fits =
    let none_left : take (min (suc k) (suc n)) (drop position file) ≡ [] =
      empty_of_length (take (min (suc k) (suc n)) (drop position file)) (
        omega (
          arith,
          length-take (min (suc k) (suc n)) (drop position file),
          length-drop position file,
        )) in
    let e : position + 0 ≡ position = omega arith in
    let f : length buf + 0 ≡ length buf = omega arith in
    let g : suc n - 0 ≡ suc n = omega arith in
    rw (none_left, e, f, g, append-nil buf, le→leb (length buf) read_buf_size fits)
      (read_loop_eof io file buf position n good past fits)

-- The bucket after a write of which no byte reached the data file.
abbrev unwritten : Bucket → Bytes → Bytes → Bucket
unwritten f key value = record (written f key value) { data_file = f.data_file }

append_value_failed :
    (io : List Io) (f : Bucket) (b : ℕ) (value : Bytes)
    → f.data_fd ≡ opened
    → append_value (failed ∷ io) f (b ∷ value) ≡ ok (f, io)
unfolding append_value file_append
append_value_failed io f b value is_open = ground arith

-- What a location at the end of a file names is empty.
slice_end : (file : Bytes) (offset n : ℕ) → offset ≡ length file → take n (drop offset file) ≡ []
slice_end file offset n h =
    empty_of_length (take n (drop offset file))
      (omega (arith, length-take n (drop offset file), length-drop offset file))

view-unwritten :
    (f : Bucket) (key value : Bytes)
    → IsValid f
    → HasRoom f key value
    → view (unwritten f key value) key ≡ some []
unfolding view
view-unwritten f key value valid room =
    ap (at_pointer (unwritten f key value)) (find-written f valid key value room key)
    ∙ rw (same_refl key) (
        ap (λ (l : Location). some (slice l f.data_file)) (load_location_new f valid key value room)
        ∙ ap some (slice_end f.data_file f.data_offset (length value) valid.counted))

-- `Write` answers `succ`, the data file has nothing new, and the key does not have the value.
abbrev pub Ignores : List Io → Bucket → Bytes → Bytes → Type 0
Ignores io f key value =
    (f' : Bucket) × (write (failed ∷ io) f (of_string key) (of_string value) ≡ ok (succ, f', io))
    × (f'.data_file ≡ f.data_file)
    × (view f' key ≢ some value)

-- On a well formed bucket with room for the pair, when the first call of write(2) fails: `Write`
-- of a value that is not empty answers `succ` all the same, the data file is unchanged, and the
-- key does not have the value.
pub write_succ_on_failure :
    (io : List Io) (f : Bucket) (key value : Bytes)
    → IsValid f
    → HasRoom f key value
    → 0 < length value
    → Ignores io f key value
unfolding write run_steps step write_steps written mutex_unlock of_string
write_succ_on_failure io f key [] valid room pos = elim pos [ ]
write_succ_on_failure io f key (b ∷ value) valid room pos = (
  unwritten f key (b ∷ value),
  rw (
    mutex_lock_free f valid.unlocked,
    to_string-of_string key,
    to_string-of_string (b ∷ value),
    append_value_failed io (record f { locked = true }) b value valid.is_open,
    write_index_ok (record f { locked = true }) key (suc (length value)) room.buffer room.index,
  ),
  refl,
  λ e. nil-ne-cons (some-injective _ _ (sym (view-unwritten f key (b ∷ value) valid room) ∙ e)),
)
  where
    nil-ne-cons : ◌≡◌ {A = Bytes} [] (b ∷ value) → ⊥
    nil-ne-cons h = cc

-- The bucket that `Open` sets up after the empty key was written.
abbrev forgotten : Bucket → Bytes → Bucket
forgotten f value = record (written f [] value) {
  map = f.map;
  key_fd = opened;
  data_fd = opened;
  data_offset = length (f.data_file ++ value) % 2 ^ 32;
  key_mmap_cur = f.key_mmap_cur;
  position = 0;
  locked = false;
}

module _ (calls : Calls) (log : Log) (f : Bucket) (value : Bytes) (works : Works calls)
    (valid : IsValid f) (logged : IsLogged log f) (room : HasRoom f [] value) where
  -- The record of the empty key starts with the mark that ends the index file.
  parsed_before :
      parse_index (suc f.mapped) (written f [] value).key_mmap f.mapped 0 []
      ≡ ok (entered 0 log [], f.key_mmap_cur)
  unfolding written
  parsed_before =
      parse_index-Records log (suc f.mapped) (written f [] value).key_mmap f.mapped 0 f.key_mmap_cur
        []
        (Records-store f.key_mmap 0 log f.key_mmap_cur f.key_mmap_cur
          (record_bytes [] (new_location f value)) logged.records (omega arith))
        (decode_le-record_bytes f.key_mmap f.key_mmap_cur [] (new_location f value) (omega arith))
        (omega (arith, room.index))
        (omega (arith, Records-le f.key_mmap 0 log f.key_mmap_cur logged.records))

  opened_before :
      open_bucket calls (files_of (written f [] value))
      ≡ ok (record {
        ret = succ;
        bucket = some (forgotten f value);
        files = files_of (written f [] value);
      })
  unfolding open_bucket open_found files_of written
  opened_before =
      let backed : min f.mapped key_file_size ≡ f.mapped = omega (arith, logged.bounded) in
      rw (works.index_fd, works.data_file_fd, works.mmap_ok, backed, parsed_before)
        λ i. ok (record {
          ret = succ;
          bucket = some (record (forgotten f value) { map = sym logged.map i });
          files = files_of (written f [] value);
        })

  view-forgotten : (j : Bytes) → view (forgotten f value) j ≡ view f j
  unfolding view
  view-forgotten j = elim (Option-cases (find j f.map)) [
    | inl e ↦ rw e
    | inr (p, e) ↦
        let (b, inside) = valid.pointers j p e in
        rw
          (e, load_location_old f valid [] value room p b, slice_old f valid [] value room _ inside)
  ]

-- `Write` of the empty key answers `succ` and the value is there, until the next `Open`.
abbrev pub Forgets : Calls → Bucket → Bytes → List Io → Type 0
Forgets calls f value io =
    (f' g : Bucket) × (io' : List Io) × (write io f (of_string []) (of_string value)
      ≡ ok (succ, f', io'))
    × (view f' [] ≡ some value)
    × (open_bucket calls (files_of f')
        ≡ ok (record { ret = succ; bucket = some g; files = files_of f' }))
    × ((j : Bytes) → view g j ≡ view f j)

-- On a well formed bucket whose index file is the log of its writes, with room for the pair, over
-- calls of write(2) of which none fails and as many move bytes as the value has: `Write` of the
-- empty key answers `succ` and the key has the value, but `Open` on the files left behind gives a
-- bucket in which every key has the value it had before the write. The calls that `Open` makes
-- succeed, with a nonzero descriptor for the index file.
pub empty_key_forgotten :
    (calls : Calls) (log : Log) (f : Bucket) (value : Bytes) (io : List Io)
    → Works calls
    → IsValid f
    → IsLogged log f
    → HasRoom f [] value
    → NoFailure io
    → length value ≤ transfers io
    → Forgets calls f value io
empty_key_forgotten calls log f value io works valid logged room good enough = (
  written f [] value,
  forgotten f value,
  (file_append opened io f.data_file value).io,
  write-written f valid [] value room io (of_string []) (of_string value) (to_string-of_string [])
      (to_string-of_string value) (unfold of_string in refl) good enough,
  view-written f valid [] value room [] ∙ rw (same_refl []),
  opened_before calls log f value works valid logged room,
  view-forgotten calls log f value works valid logged room,
)
