-- ===== src/Race/Live.antt =====
-- A bucket while the engine runs: the value of every key, and what makes a bucket well formed.
pub mod Writing
pub mod Fetching
use nvm_kv.Prelude.{
  ℕ, ◌+◌, ◌^◌, ◌≤◌, ◌<◌, ◌≡◌, Option, none, some, ◌++◌, false, length, take, drop, Bytes,
}
use nvm_kv.OrdMap.{find}
use nvm_kv.Posix.{opened}
use nvm_kv.Race.Bucket.{Bucket, Location, load_location, location_sz, write_buf_size}
use nvm_kv.Race.Reading.{read_buf_size}

-- The bytes of the data file that a location names.
abbrev pub slice : Location → Bytes → Bytes
slice loc file = take loc.len (drop loc.offset file)

-- The value stored under a key, in the map, the index file and the data file taken together.
abbrev pub at_pointer : Bucket → Option ℕ → Option Bytes
at_pointer f none = none
at_pointer f (some p) = some (slice (load_location f.key_mmap p) f.data_file)

unfoldable pub view : Bucket → Bytes → Option Bytes
view f key = at_pointer f (find key f.map)

-- A location inside the data file, of a value that fits the buffer of `Read`.
pub record IsInside (loc : Location) (file : Bytes) : Type 0 where
  pub inside : loc.offset + loc.len ≤ length file
  pub readable : loc.len ≤ read_buf_size

pub record IsValid (f : Bucket) : Type 0 where
  pub unlocked : f.locked ≡ false
  pub is_open : f.data_fd ≡ opened
  pub fits : f.key_mmap_cur ≤ f.mapped
  pub counted : f.data_offset ≡ length f.data_file
  pub below_4g : length f.data_file < 2 ^ 32
  pub pointers :
      (key : Bytes) (p : ℕ)
      → find key f.map ≡ some p
      → (p + location_sz ≤ f.key_mmap_cur) × IsInside (load_location f.key_mmap p) f.data_file

-- There is room for one more pair: in the buffer of `Write`, in the index file, in the buffer of
-- `Read`, and below the 4 GB that `data_offset` can count.
pub record HasRoom (f : Bucket) (key value : Bytes) : Type 0 where
  pub buffer : 4 + length key + location_sz ≤ write_buf_size
  pub index : f.key_mmap_cur + (4 + length key + location_sz) ≤ f.mapped
  pub readable : length value ≤ read_buf_size
  pub counter : length f.data_file + length value < 2 ^ 32
