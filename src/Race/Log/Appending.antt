-- ===== src/Race/Log/Appending.antt =====
-- A write adds its record to the log of the bucket.
use nvm_kv.Prelude.{
  ℕ, ◌+◌, ◌≤◌, ◌<◌, ◌≡◌, refl, sym, ap, ◌∙◌, arith, [], ◌∷◌, ◌++◌, length, Bytes, Memory, store,
  decode_le, load-store_before, store_outside,
}
use nvm_kv.OrdMap.{OrdMap, insert_or_assign}
use nvm_kv.Race.Bucket.{Bucket, Location, record_bytes, location_sz}
use nvm_kv.Race.Records.{
  load_location-store_before, decode_le-record_bytes, load-record_bytes, load_location-record_bytes,
  length-record_bytes,
}
use nvm_kv.Race.Live.{IsValid, HasRoom}
use nvm_kv.Race.Live.Writing.{written}
use nvm_kv.Race.Log.{Log, Records, entered, IsLogged}
use nvm_kv.Race.Log.Parsing.{Records-le}

-- A copy behind the records leaves them as they are.
pub Records-store :
    (m : Memory) (p : ℕ) (log : Log) (e q : ℕ) (bs : Bytes)
    → Records m p log e
    → e ≤ q
    → Records (store m q bs) p log e
Records-store m p [] e q bs h le = h
Records-store m p ((key, loc) ∷ log) e q bs h le =
    let next : ℕ = p + 4 + length key + location_sz in
    let below = Records-le m next log e h.4 in
    (
      h.0,
      ap decode_le (load-store_before m q bs p 4 (omega arith)) ∙ h.1,
      load-store_before m q bs (p + 4) (length key) (omega arith) ∙ h.2,
      load_location-store_before m q bs (p + 4 + length key) (omega arith) ∙ h.3,
      Records-store m next log e q bs h.4 le,
    )

Records-append :
    (m : Memory) (p : ℕ) (log log' : Log) (e e' : ℕ)
    → Records m p log e
    → Records m e log' e'
    → Records m p (log ++ log') e'
Records-append m p [] log' e e' h k = rw h k
Records-append m p ((key, loc) ∷ log) log' e e' h k =
    (h.0, h.1, h.2, h.3, Records-append m (p + 4 + length key + location_sz) log log' e e' h.4 k)

entered-append :
    (m : Memory) (p : ℕ) (log : Log) (e : ℕ) (key : Bytes) (loc : Location) (map : OrdMap ℕ)
    → Records m p log e
    → entered p (log ++ (key, loc) ∷ []) map
      ≡ insert_or_assign key (e + 4 + length key) (entered p log map)
entered-append m p [] e key loc map h = rw h
entered-append m p ((k, l) ∷ log) e key loc map h =
    entered-append m (p + 4 + length k + location_sz) log e key loc
      (insert_or_assign k (p + 4 + length k) map) h.4

-- The location that a write of `value` stores.
abbrev pub new_location : Bucket → Bytes → Location
new_location f value = record { offset = f.data_offset; len = length value }

-- The record of the write stands where the records of the log end.
new_record :
    (f : Bucket) (valid : IsValid f) (key value : Bytes) (room : HasRoom f key value)
    → 0 < length key
    → Records
        (written f key value).key_mmap
        f.key_mmap_cur
        ((key, new_location f value) ∷ [])
        (written f key value).key_mmap_cur
unfolding written
new_record f valid key value room pos = (
  pos,
  decode_le-record_bytes f.key_mmap f.key_mmap_cur key (new_location f value)
      (omega (arith, room.buffer)),
  load-record_bytes f.key_mmap f.key_mmap_cur key (new_location f value),
  load_location-record_bytes f.key_mmap f.key_mmap_cur key (new_location f value)
      (omega (arith, valid.counted, valid.below_4g)) (omega (arith, room.readable)),
  refl,
)

pub written-IsLogged :
    (log : Log) (f : Bucket) (key value : Bytes)
    → IsValid f
    → IsLogged log f
    → HasRoom f key value
    → 0 < length key
    → IsLogged (log ++ (key, new_location f value) ∷ []) (written f key value)
unfolding written
written-IsLogged log f key value valid logged room pos = record {
  records =
      Records-append (written f key value).key_mmap 0 log ((key, new_location f value) ∷ [])
        f.key_mmap_cur (written f key value).key_mmap_cur
        (Records-store f.key_mmap 0 log f.key_mmap_cur f.key_mmap_cur
          (record_bytes key (new_location f value)) logged.records (omega arith))
        (new_record f valid key value room pos);
  clean = λ q le.
      store_outside f.key_mmap f.key_mmap_cur (record_bytes key (new_location f value)) q
        (omega (arith, length-record_bytes key (new_location f value)))
      ∙ logged.clean q (omega arith);
  map =
      ap (insert_or_assign key (f.key_mmap_cur + 4 + length key)) logged.map
      ∙ sym (
          entered-append f.key_mmap 0 log f.key_mmap_cur key (new_location f value) []
            logged.records);
  bounded = logged.bounded;
}
