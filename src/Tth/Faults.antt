-- ===== src/Tth/Faults.antt =====
-- A failing write(2) in `Write` of engine_tth.
use nvm_kv.Prelude.{
  ℕ, zero, suc, ◌+◌, ◌%◌, ◌^◌, ◌≤◌, ◌<◌, ◌≡◌, refl, ap, ◌∙◌, arith, List, [], ◌∷◌, ◌++◌, length,
  take, Bytes, true, false, some, lex_refl, store, drop_all, length-append,
}
use nvm_kv.Polar.{of_string}
use nvm_kv.Polar.Order.{to_string-of_string}
use nvm_kv.OrdMap.{find, insert_or_assign}
use nvm_kv.OrdMap.Laws.{find-insert_or_assign}
use nvm_kv.Posix.{Io, failed, NoFailure, transfers}
use nvm_kv.Engine.{succ, ok}
use nvm_kv.Tth.Bucket.{
  Bucket, Location, record_bytes, append_loop, mutex_unlock, append_value, write, location_sz,
  chunck_size,
}
use nvm_kv.Tth.Live.{view, IsValid}
use nvm_kv.Tth.Live.Writing.{
  written, write-written, mutex_lock_free, overwrite_end, write_tmp_ok, size-of_string,
}

-- The bucket after a `Write` whose first call of write(2) failed
unfoldable lost : Bucket → Bytes → Bytes → Bucket
lost f key value =
    let loc : Location = record { offset = f.next_loc.offset; len = length value } in
    record f {
      index = insert_or_assign key loc f.index;
      next_loc = record {
        offset = (f.next_loc.offset + length value) % 2 ^ 64;
        len = length value;
      };
      tmp = record f.tmp { bytes = store f.tmp.bytes f.mem_offset (record_bytes key loc) };
      mem_offset = f.mem_offset + (4 + length key + location_sz);
      locked = false;
    }

append_value_failed :
    (io : List Io) (f : Bucket) (value : Bytes)
    → 0 < length value
    → append_value (failed ∷ io) f value ≡ ok (f, io)
unfolding append_value append_loop
append_value_failed io f [] h = absurd (omega (arith, h))
append_value_failed io f (b ∷ value) h = refl

write-lost :
    (io : List Io) (f : Bucket) (key value : Bytes)
    → f.locked ≡ false
    → 0 < length value
    → f.mem_offset + (4 + length key + location_sz) ≤ chunck_size
    → write (failed ∷ io) f (of_string key) (of_string value) ≡ ok (succ, lost f key value, io)
unfolding write lost mutex_unlock
write-lost io f key value free long room =
    let loc : Location = record { offset = f.next_loc.offset; len = length value } in
    let f₁ : Bucket = record f {
      locked = true;
      index = insert_or_assign key loc f.index;
      next_loc = loc;
    } in
    rw (
      mutex_lock_free f free,
      to_string-of_string key,
      to_string-of_string value,
      size-of_string value,
      append_value_failed io f₁ value long,
      write_tmp_ok f₁ key loc room,
    )

-- A first `Write` whose write(2) fails and a second one answer `succ`; the value of the second is at
-- the end of the data file, and its key has the empty value.
abbrev pub Misplaces : List Io → Bucket → Bytes → Bytes → Bytes → Bytes → Type 0
Misplaces io f key value key₂ value₂ =
    (f₁ : Bucket) × (f₂ : Bucket) × (io' : List Io) × (write (failed ∷ io) f (of_string key)
        (of_string value)
      ≡ ok (succ, f₁, io))
    × (write io f₁ (of_string key₂) (of_string value₂) ≡ ok (succ, f₂, io'))
    × (f₂.data_file ≡ f.data_file ++ value₂)
    × (view f₂ key₂ ≡ some [])

module _ (f : Bucket) (key value key₂ value₂ : Bytes) (valid : IsValid f)
    (counter : length f.data_file + length value < 2 ^ 64)
    (shorter : length value₂ ≤ length value) where
  second_data : (written (lost f key value) key₂ value₂).data_file ≡ f.data_file ++ value₂
  unfolding written lost
  second_data = overwrite_end f.data_file f.position value₂ valid.at_end

  second_location :
      find key₂ (written (lost f key value) key₂ value₂).index
      ≡ some (record { offset = length f.data_file + length value; len = length value₂ })
  unfolding written lost
  second_location =
      let offset : (f.next_loc.offset + length value) % 2 ^ 64 ≡ length f.data_file + length value =
        omega (arith, valid.counted, counter) in
      find-insert_or_assign key₂ key₂ _ _ ∙ rw (lex_refl key₂, offset) refl

  second_view : view (written (lost f key value) key₂ value₂) key₂ ≡ some []
  unfolding view
  second_view =
      rw (second_data, second_location)
        (ap (λ t. some (take (length value₂) t))
            (drop_all (length f.data_file + length value) (f.data_file ++ value₂)
              (omega (arith, shorter, length-append {0} f.data_file value₂)))
          ∙ ap some (take_nothing (length value₂)))
    where
      take_nothing : (n : ℕ) → ◌≡◌ {A = Bytes} (take n []) []
      take_nothing zero = refl
      take_nothing (suc n) = refl

-- On a well formed bucket of engine_tth a `Write` of a nonempty value whose first write(2) fails
-- answers `succ`. A second `Write`, of a value that is not longer, over calls of which none fails
-- and as many move bytes as its value has, answers `succ` too and puts its value at the end of
-- the data file; but its location names bytes behind the end, so that its key has the empty
-- value. Both pairs fit the mapping, and the data file with the first value stays below 2^64
-- bytes.
pub write-Misplaces :
    (io : List Io) (f : Bucket) (key value key₂ value₂ : Bytes)
    → IsValid f
    → 0 < length value
    → length value₂ ≤ length value
    → length f.data_file + length value < 2 ^ 64
    → f.mem_offset + (4 + length key + location_sz) + (4 + length key₂ + location_sz) ≤ chunck_size
    → NoFailure io
    → length value₂ ≤ transfers io
    → Misplaces io f key value key₂ value₂
unfolding lost
write-Misplaces io f key value key₂ value₂ valid long shorter counter room good enough = (
  lost f key value,
  written (lost f key value) key₂ value₂,
  (append_loop io f.data_file f.position value₂).io,
  write-lost io f key value valid.unlocked long (omega (arith, room)),
  write-written io (lost f key value) key₂ value₂ refl (omega (arith, valid.at_end)) room good
      enough,
  second_data f key value key₂ value₂ valid counter shorter,
  second_view f key value key₂ value₂ valid counter shorter,
)
