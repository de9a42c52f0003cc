-- ===== src/Race/Live/Writing.antt =====
-- `Write` on a well formed bucket: it answers `succ`, keeps the bucket well formed, and changes the
-- value of its key alone.
use nvm_kv.Prelude.{
  ℕ, ◌+◌, ◌%◌, ◌^◌, ◌≤◌, ◌≡◌, refl, sym, ◌∙◌, arith, List, ◌++◌, length, Bytes, true, false, some,
  if◌then◌else◌, same, take-drop_append, take-drop_end, length-append, store, inl, inr,
  Option-cases, Bool-cases, le→leb,
}
use nvm_kv.Polar.{PolarString, to_string}
use mathlib.Core.Option.{some-injective}
use nvm_kv.OrdMap.{find, insert_or_assign}
use nvm_kv.OrdMap.Laws.{find-insert_or_assign}
use nvm_kv.Posix.{Io, opened, NoFailure, transfers, file_append}
use nvm_kv.Posix.Append.{file_append-Wrote}
use nvm_kv.Engine.{succ, ok}
use nvm_kv.Race.Bucket.{
  Bucket, Location, load_location, record_bytes, mutex_lock, mutex_unlock, append_value,
  write_index, step, run_steps, write_steps, write, location_sz, write_buf_size,
}
use nvm_kv.Race.Records.{load_location-record_bytes, load_location-store_before}
use nvm_kv.Race.Live.{slice, view, IsInside, IsValid, HasRoom}

-- A value in the file is not changed by what is appended.
pub slice-append :
    (loc : Location) (file rest : Bytes)
    → loc.offset + loc.len ≤ length file
    → slice loc (file ++ rest) ≡ slice loc file
slice-append loc file rest h = take-drop_append loc.len loc.offset file rest h

-- The appended value is what its location names.
slice-append_self :
    (file value : Bytes)
    → slice (record { offset = length file; len = length value }) (file ++ value) ≡ value
slice-append_self file value = take-drop_end file value

pub mutex_lock_free :
    (f : Bucket) → f.locked ≡ false → mutex_lock f ≡ ok (record f { locked = true })
unfolding mutex_lock
mutex_lock_free f h = rw h

append_value_ok :
    (io : List Io) (f : Bucket) (value : Bytes)
    → f.data_fd ≡ opened
    → NoFailure io
    → length value ≤ transfers io
    → append_value io f value
      ≡ ok (
        record f { data_file = f.data_file ++ value },
        (file_append opened io f.data_file value).io,
      )
unfolding append_value
append_value_ok io f value is_open good enough =
    let w = file_append-Wrote io f.data_file value good enough in ground (arith, w.0, w.1)

pub write_index_ok :
    (f : Bucket) (key : Bytes) (n : ℕ)
    → 4 + length key + location_sz ≤ write_buf_size
    → f.key_mmap_cur + (4 + length key + location_sz) ≤ f.mapped
    → write_index f key n
      ≡ ok (record f {
        key_mmap =
            store f.key_mmap f.key_mmap_cur
              (record_bytes key (record { offset = f.data_offset; len = n }));
        map = insert_or_assign key (f.key_mmap_cur + 4 + length key) f.map;
        data_offset = (f.data_offset + n) % 2 ^ 32;
        key_mmap_cur = f.key_mmap_cur + 4 + length key + location_sz;
      })
unfolding write_index
write_index_ok f key n h k = rw (le→leb _ _ h, le→leb _ _ k)

-- The bucket after a successful write.
unfoldable pub written : Bucket → Bytes → Bytes → Bucket
written f key value =
    let loc : Location = record { offset = f.data_offset; len = length value } in
    record f {
      data_file = f.data_file ++ value;
      key_mmap = store f.key_mmap f.key_mmap_cur (record_bytes key loc);
      map = insert_or_assign key (f.key_mmap_cur + 4 + length key) f.map;
      data_offset = (f.data_offset + length value) % 2 ^ 32;
      key_mmap_cur = f.key_mmap_cur + 4 + length key + location_sz;
      locked = false;
    }

module _ (f : Bucket) (valid : IsValid f) (key value : Bytes) (room : HasRoom f key value) where
  -- the location that the write stores
  abbrev pub loc : Location
  loc = record { offset = f.data_offset; len = length value }

  pub load_location_new :
      load_location (written f key value).key_mmap (f.key_mmap_cur + 4 + length key)
      ≡ record { offset = f.data_offset; len = length value }
  unfolding written
  load_location_new =
      load_location-record_bytes f.key_mmap f.key_mmap_cur key loc
        (omega (arith, valid.counted, valid.below_4g)) (omega (arith, room.readable))

  pub load_location_old :
      (p : ℕ)
      → p + location_sz ≤ f.key_mmap_cur
      → load_location (written f key value).key_mmap p ≡ load_location f.key_mmap p
  unfolding written
  load_location_old p h =
      load_location-store_before f.key_mmap f.key_mmap_cur (record_bytes key loc) p h

  pub find-written :
      (j : Bytes)
      → find j (written f key value).map
        ≡ (if same j key then some (f.key_mmap_cur + 4 + length key) else find j f.map)
  unfolding written
  find-written j = find-insert_or_assign key j (f.key_mmap_cur + 4 + length key) f.map

  new_IsInside : IsInside loc (written f key value).data_file
  unfolding written
  new_IsInside = record {
    inside = omega (arith, length-append {0} f.data_file value, valid.counted);
    readable = room.readable;
  }

  old_IsInside :
      (l : Location) → IsInside l f.data_file → IsInside l (written f key value).data_file
  unfolding written
  old_IsInside l h = record {
    inside = omega (arith, length-append {0} f.data_file value, h.inside);
    readable = h.readable;
  }

  pub cur_written :
      (written f key value).key_mmap_cur ≡ f.key_mmap_cur + 4 + length key + location_sz
  unfolding written
  cur_written = refl

  written_pointer :
      (j : Bytes) (p : ℕ)
      → find j (written f key value).map ≡ some p
      → (p + location_sz ≤ (written f key value).key_mmap_cur)
        × IsInside (load_location (written f key value).key_mmap p) (written f key value).data_file
  written_pointer j p h = elim (Bool-cases (same j key)) [
    | inl e ↦
        let q : f.key_mmap_cur + 4 + length key ≡ p =
          some-injective _ _ (sym (rw e at (find-written j)) ∙ h) in
        rw (← q, cur_written, load_location_new) (omega arith, new_IsInside)
    | inr e ↦
        let (b, inside) = valid.pointers j p (sym (rw e at (find-written j)) ∙ h) in
        rw (load_location_old p b, cur_written) (omega arith, old_IsInside _ inside)
  ]

  pub written-IsValid : IsValid (written f key value)
  unfolding written
  written-IsValid = record {
    unlocked = refl;
    is_open = valid.is_open;
    fits = omega (arith, room.index);
    counted = omega (arith, valid.counted, room.counter, length-append {0} f.data_file value);
    below_4g = omega (arith, room.counter, length-append {0} f.data_file value);
    pointers = written_pointer;
  }

  slice_new : slice loc (written f key value).data_file ≡ value
  unfolding written
  slice_new = rw valid.counted (slice-append_self f.data_file value)

  pub slice_old :
      (l : Location)
      → IsInside l f.data_file
      → slice l (written f key value).data_file ≡ slice l f.data_file
  unfolding written
  slice_old l h = slice-append l f.data_file value h.inside

  pub view-written :
      (j : Bytes) → view (written f key value) j ≡ (if same j key then some value else view f j)
  unfolding view
  view-written j = elim (Bool-cases (same j key)) [
    | inl e ↦ rw (find-written j, e, load_location_new, slice_new)
    | inr e ↦
        rw (find-written j, e)
          (elim (Option-cases (find j f.map)) [
            | inl n ↦ rw n
            | inr (p, s) ↦
                let (b, inside) = valid.pointers j p s in
                rw (s, load_location_old p b, slice_old _ inside)
          ])
  ]

  -- `Write` on a bucket with room, over calls that do not fail.
  pub write-written :
      (io : List Io) (k v : PolarString)
      → to_string k ≡ key
      → to_string v ≡ value
      → v.size ≡ length value
      → NoFailure io
      → length value ≤ transfers io
      → write io f k v
        ≡ ok (succ, written f key value, (file_append opened io f.data_file value).io)
  unfolding write run_steps step write_steps written mutex_unlock
  write-written io k v ek ev n good enough = rw (
    mutex_lock_free f valid.unlocked,
    ek,
    ev,
    append_value_ok io (record f { locked = true }) value valid.is_open good enough,
    write_index_ok (record f { locked = true; data_file = f.data_file ++ value }) key v.size
        room.buffer room.index,
    n,
  )
