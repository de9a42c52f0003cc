-- ===== src/Tth/Closing.antt =====
-- engine_tth/engine_race.cc: what the destructor does for one bucket.
use nvm_kv.Prelude.{
  ℕ, ◌%◌, ◌^◌, Option, none, some, List, [], ◌∷◌, Bool, true, false, if◌then◌else◌, length, Bytes,
  encode_le,
}
use nvm_kv.Posix.{Io, zero_status, minus_one, out_of_events}
use nvm_kv.Engine.{Run, ok, stuck, ◌>>=◌}
use nvm_kv.Tth.Bucket.{Location, Bucket, append_loop, location_bytes}
use nvm_kv.Tth.Opening.{Files}

-- Which calls succeed: open(index_<i>, O_RDWR | O_CREAT) and remove(index_<i>.tmp).
pub record CloseCalls : Type 0 where
  pub open_ok : Bool
  pub remove_ok : Bool

-- The index file that is written, with the offset of its descriptor
pub record Saving : Type 0 where
  pub file : Bytes
  pub position : ℕ

-- A call of `FileAppend` whose result is not looked at
unfoldable pub append_saved : List Io → Saving → Bytes → Run (Saving × List Io)
unfolding append_loop
append_saved io s bs =
    let a = append_loop io s.file s.position bs in
    elim a.status [
      | zero_status ↦ ok (record { file = a.file; position = a.position }, a.io)
      | minus_one ↦ ok (record { file = a.file; position = a.position }, a.io)
      | out_of_events ↦ stuck
    ]

-- The loop over the index, whose entries come in the order of the library's hash map
unfoldable pub save_entries : List Io → List (Bytes × Location) → Saving → Run (Saving × List Io)
save_entries io [] s = ok (s, io)
save_entries io (e ∷ entries) s = do
  (s₁, io₁) ← append_saved io s (encode_le 4 (length e.0 % 2 ^ 32))
  (s₂, io₂) ← append_saved io₁ s₁ e.0
  (s₃, io₃) ← append_saved io₂ s₂ (location_bytes e.1)
  save_entries io₃ entries s₃

abbrev pub existing : Option Bytes → Bytes
existing none = []
existing (some file) = file

-- The index file after the loop. Without a descriptor every `FileAppend` answers -1.
unfoldable pub save_index :
    List Io → Bool → List (Bytes × Location) → Option Bytes → Run (Option Bytes × List Io)
unfolding save_entries
save_index io true entries saved = do
  (s, io') ← save_entries io entries (record { file = existing saved; position = 0 })
  ok (some s.file, io')
save_index io false entries saved = ok (saved, io)

-- One round of the loop of `EngineRace::~EngineRace`
unfoldable pub close_bucket :
    List Io → CloseCalls → List (Bytes × Location) → Bucket → Run (Files × List Io)
unfolding save_index
close_bucket io calls entries f = do
  (saved, io') ← save_index io calls.open_ok entries f.saved
  ok (
    record {
      tmp = if calls.remove_ok then none else some f.tmp;
      saved = saved;
      data_file = some f.data_file;
    },
    io',
  )
