-- ===== src/Tth/Live.antt =====
-- A bucket of engine_tth while the engine runs: the value of every key, and what makes a bucket well
-- formed.
pub mod Writing
pub mod Reading
use nvm_kv.Prelude.{
  ℕ, ◌+◌, ◌^◌, ◌≤◌, ◌<◌, ◌≡◌, Option, none, some, false, length, take, drop, Bytes,
}
use nvm_kv.OrdMap.{find}
use nvm_kv.Tth.Bucket.{Bucket, Location, location_sz, chunck_size, read_buf_size, c_string}

-- The bytes of the data file that a location names
abbrev pub slice : Location → Bytes → Bytes
slice loc file = take loc.len (drop loc.offset file)

abbrev pub at_location : Bytes → Option Location → Option Bytes
at_location file none = none
at_location file (some loc) = some (slice loc file)

-- The value stored under a key, in the index and the data file taken together
unfoldable pub view : Bucket → Bytes → Option Bytes
view f key = at_location f.data_file (find key f.index)

-- A value that `read_buf` has room for and that a C string can hold
pub record IsReadable (value : Bytes) : Type 0 where
  pub fits : length value < read_buf_size
  pub no_zero : c_string value ≡ value

pub record IsInside (loc : Location) (file : Bytes) : Type 0 where
  pub inside : loc.offset + loc.len ≤ length file
  pub readable : IsReadable (slice loc file)

-- The offset of the descriptor and the next location are at the end of the data file.
pub record IsValid (f : Bucket) : Type 0 where
  pub unlocked : f.locked ≡ false
  pub at_end : f.position ≡ length f.data_file
  pub counted : f.next_loc.offset ≡ length f.data_file
  pub locations :
      (key : Bytes) (loc : Location) → find key f.index ≡ some loc → IsInside loc f.data_file

-- There is room for one more pair: in the mapping, and in the counter of 64 bits.
pub record HasRoom (f : Bucket) (key value : Bytes) : Type 0 where
  pub mapping : f.mem_offset + (4 + length key + location_sz) ≤ chunck_size
  pub counter : length f.data_file + length value < 2 ^ 64
  pub readable : IsReadable value
