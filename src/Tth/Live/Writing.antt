-- ===== src/Tth/Live/Writing.antt =====
-- `Write` of engine_tth on a bucket.
use nvm_kv.Prelude.{
  ℕ, ◌+◌, ◌%◌, ◌^◌, ◌≤◌, ◌≡◌, refl, sym, ap, ◌∙◌, arith, List, ◌++◌, length, drop, Bytes, true,
  false, some, if◌then◌else◌, same, take-drop_append, take-drop_end, length-append, append-nil,
  store, inl, inr, Option-cases, Bool-cases, le→leb, take_all, drop_all,
}
use nvm_kv.Polar.{of_string}
use nvm_kv.Polar.Order.{to_string-of_string}
use mathlib.Core.Option.{some-injective}
use nvm_kv.OrdMap.{find, insert_or_assign}
use nvm_kv.OrdMap.Laws.{find-insert_or_assign}
use nvm_kv.Posix.{Io, NoFailure, transfers}
use nvm_kv.Engine.{succ, ok}
use nvm_kv.Tth.Bucket.{
  Bucket, Location, record_bytes, overwrite, append_loop, mutex_lock, mutex_unlock, append_value,
  write_tmp, write, location_sz, chunck_size,
}
use nvm_kv.Tth.Appending.{append_loop-Puts, overwrite_inside}
use nvm_kv.Tth.Live.{slice, view, IsInside, IsValid, HasRoom}

-- The bucket after a successful write
unfoldable pub written : Bucket → Bytes → Bytes → Bucket
written f key value =
    let loc : Location = record { offset = f.next_loc.offset; len = length value } in
    record f {
      index = insert_or_assign key loc f.index;
      data_file = overwrite f.data_file f.position value;
      position = f.position + length value;
      next_loc = record {
        offset = (f.next_loc.offset + length value) % 2 ^ 64;
        len = length value;
      };
      tmp = record f.tmp { bytes = store f.tmp.bytes f.mem_offset (record_bytes key loc) };
      mem_offset = f.mem_offset + (4 + length key + location_sz);
      locked = false;
    }

pub mutex_lock_free :
    (f : Bucket) → f.locked ≡ false → mutex_lock f ≡ ok (record f { locked = true })
unfolding mutex_lock
mutex_lock_free f h = rw h

append_value-Puts :
    (io : List Io) (f : Bucket) (value : Bytes)
    → f.position ≤ length f.data_file
    → NoFailure io
    → length value ≤ transfers io
    → append_value io f value
      ≡ ok (
        record f {
          data_file = overwrite f.data_file f.position value;
          position = f.position + length value;
        },
        (append_loop io f.data_file f.position value).io,
      )
unfolding append_value
append_value-Puts io f value h good enough =
    let (s, d, p, _, _) = append_loop-Puts io f.data_file f.position value h good enough in
    ground (arith, s, d, p)

pub write_tmp_ok :
    (f : Bucket) (key : Bytes) (loc : Location)
    → f.mem_offset + (4 + length key + location_sz) ≤ chunck_size
    → write_tmp f key loc
      ≡ ok (record f {
        tmp = record f.tmp { bytes = store f.tmp.bytes f.mem_offset (record_bytes key loc) };
        mem_offset = f.mem_offset + (4 + length key + location_sz);
      })
unfolding write_tmp
write_tmp_ok f key loc h = rw (le→leb _ _ h)

pub size-of_string : (s : Bytes) → (of_string s).size ≡ length s
unfolding of_string
size-of_string s = refl

-- `Write` on a free bucket whose mapping has room, over calls that do not fail
pub write-written :
    (io : List Io) (f : Bucket) (key value : Bytes)
    → f.locked ≡ false
    → f.position ≤ length f.data_file
    → f.mem_offset + (4 + length key + location_sz) ≤ chunck_size
    → NoFailure io
    → length value ≤ transfers io
    → write io f (of_string key) (of_string value)
      ≡ ok (succ, written f key value, (append_loop io f.data_file f.position value).io)
unfolding write written mutex_unlock
write-written io f key value free inside room good enough = rw (
  mutex_lock_free f free,
  to_string-of_string key,
  to_string-of_string value,
  size-of_string value,
  append_value-Puts io
      (record f {
        locked = true;
        index =
            insert_or_assign key (record { offset = f.next_loc.offset; len = length value })
              f.index;
        next_loc = record { offset = f.next_loc.offset; len = length value };
      })
      value inside good enough,
  write_tmp_ok
      (record f {
        locked = true;
        index =
            insert_or_assign key (record { offset = f.next_loc.offset; len = length value })
              f.index;
        next_loc = record { offset = f.next_loc.offset; len = length value };
        data_file = overwrite f.data_file f.position value;
        position = f.position + length value;
      })
      key (record { offset = f.next_loc.offset; len = length value }) room,
)

-- A value in the file is not changed by what is appended.
slice-append :
    (loc : Location) (file rest : Bytes)
    → loc.offset + loc.len ≤ length file
    → slice loc (file ++ rest) ≡ slice loc file
slice-append loc file rest h = take-drop_append loc.len loc.offset file rest h

slice-append_self :
    (file value : Bytes)
    → slice (record { offset = length file; len = length value }) (file ++ value) ≡ value
slice-append_self file value = take-drop_end file value

-- Writing at the end of the file appends.
pub overwrite_end :
    (file : Bytes) (p : ℕ) (value : Bytes)
    → p ≡ length file
    → overwrite file p value ≡ file ++ value
overwrite_end file p value h = rw h (
    overwrite_inside file (length file) value (omega arith)
    ∙ ap (λ t. t ++ (value ++ drop (length file + length value) file))
        (take_all (length file) file (omega arith))
    ∙ ap (λ t. file ++ (value ++ t)) (drop_all (length file + length value) file (omega arith))
    ∙ ap (λ t. file ++ t) (append-nil value))

module _ (f : Bucket) (valid : IsValid f) (key value : Bytes) (room : HasRoom f key value) where
  -- the location that the write stores
  abbrev loc : Location
  loc = record { offset = f.next_loc.offset; len = length value }

  data_file_written : (written f key value).data_file ≡ f.data_file ++ value
  unfolding written
  data_file_written = overwrite_end f.data_file f.position value valid.at_end

  find-written :
      (j : Bytes)
      → find j (written f key value).index ≡ (if same j key then some loc else find j f.index)
  unfolding written
  find-written j = find-insert_or_assign key j loc f.index

  slice_new : slice loc (written f key value).data_file ≡ value
  slice_new = rw (data_file_written, valid.counted) (slice-append_self f.data_file value)

  slice_old :
      (l : Location)
      → IsInside l f.data_file
      → slice l (written f key value).data_file ≡ slice l f.data_file
  slice_old l h = rw data_file_written (slice-append l f.data_file value h.inside)

  new_IsInside : IsInside loc (written f key value).data_file
  new_IsInside = record {
    inside =
        rw data_file_written (omega (arith, length-append {0} f.data_file value, valid.counted));
    readable = rw slice_new room.readable;
  }

  old_IsInside :
      (l : Location) → IsInside l f.data_file → IsInside l (written f key value).data_file
  old_IsInside l h = record {
    inside = rw data_file_written (omega (arith, length-append {0} f.data_file value, h.inside));
    readable = rw (slice_old l h) h.readable;
  }

  written_location :
      (j : Bytes) (l : Location)
      → find j (written f key value).index ≡ some l
      → IsInside l (written f key value).data_file
  written_location j l h = elim (Bool-cases (same j key)) [
    | inl e ↦
        let q : loc ≡ l = some-injective _ _ (sym (rw e at (find-written j)) ∙ h) in
        rw (← q) new_IsInside
    | inr e ↦ old_IsInside l (valid.locations j l (sym (rw e at (find-written j)) ∙ h))
  ]

  positions_written :
      ((written f key value).locked ≡ false)
      × ((written f key value).position ≡ f.position + length value)
      × ((written f key value).next_loc.offset ≡ (f.next_loc.offset + length value) % 2 ^ 64)
  unfolding written
  positions_written = (refl, refl, refl)

  pub written-IsValid : IsValid (written f key value)
  written-IsValid =
      let (u, p, n) = positions_written in
      record {
        unlocked = u;
        at_end =
            rw (p, data_file_written)
              (omega (arith, length-append {0} f.data_file value, valid.at_end));
        counted =
            rw (n, data_file_written)
              (omega (arith, length-append {0} f.data_file value, valid.counted, room.counter));
        locations = written_location;
      }

  pub view-written :
      (j : Bytes) → view (written f key value) j ≡ (if same j key then some value else view f j)
  unfolding view
  view-written j = elim (Bool-cases (same j key)) [
    | inl e ↦ rw (find-written j, e, slice_new)
    | inr e ↦
        rw (find-written j, e)
          (elim (Option-cases (find j f.index)) [
            | inl n ↦ rw n
            | inr (l, s) ↦ rw (s, slice_old l (valid.locations j l s))
          ])
  ]

-- `Write` answers `succ` with a well formed bucket in which the key alone has changed its value.
abbrev pub Writes : List Io → Bucket → Bytes → Bytes → Type 0
Writes io f key value =
    (f' : Bucket) × (io' : List Io) × (write io f (of_string key) (of_string value)
      ≡ ok (succ, f', io'))
    × IsValid f'
    × ((j : Bytes) → view f' j ≡ (if same j key then some value else view f j))

pub write-view :
    (io : List Io) (f : Bucket) (key value : Bytes)
    → IsValid f
    → HasRoom f key value
    → NoFailure io
    → length value ≤ transfers io
    → Writes io f key value
write-view io f key value valid room good enough = (
  written f key value,
  (append_loop io f.data_file f.position value).io,
  write-written io f key value valid.unlocked (omega (arith, valid.at_end)) room.mapping good
      enough,
  written-IsValid f valid key value room,
  view-written f valid key value room,
)
