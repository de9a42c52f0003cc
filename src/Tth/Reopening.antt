-- ===== src/Tth/Reopening.antt =====
-- `EngineRace::Open` of engine_tth on an index.tmp and the index file, if there is one.
use nvm_kv.Prelude.{
  ℕ, zero, suc, ◌+◌, ◌≤◌, ◌≡◌, refl, ap, arith, Option, none, some, List, [], ◌∷◌, true, length,
  drop, Bytes,
}
use nvm_kv.OrdMap.{OrdMap}
use nvm_kv.Posix.{Io, transfer, eintr, failed}
use nvm_kv.Engine.{succ, ok}
use nvm_kv.Tth.Bucket.{Bucket, Location, StoredFile, stored}
use nvm_kv.Tth.Opening.{
  Calls, Opened, cleared, empty_file, opened_bucket, open_bucket, open_unclosed, renew_tmp, set_up,
  files_of,
}
use nvm_kv.Tth.Entries.{
  Entries, Holds, Serves, calls_for, drop_calls, replay, entry_end, read_index_file-Holds,
}

-- The calls of `Open` succeed.
pub record AllOk (calls : Calls) : Type 0 where
  pub tmp : calls.tmp_ok ≡ true
  pub saved : calls.saved_ok ≡ true
  pub data_file : calls.data_ok ≡ true
  pub create_tmp : calls.create_tmp_ok ≡ true
  pub remove : calls.remove_ok ≡ true
  pub fallocate : calls.fallocate_ok ≡ true
  pub mmap : calls.mmap_ok ≡ true

-- The index file, if there is one, holds the entries.
abbrev pub SavedAs : Option Bytes → Entries → Type 0
SavedAs none es = es ≡ []
SavedAs (some file) es = Holds (stored file).bytes (length file) 0 es

Serves-front : (a b n : ℕ) → n ≡ a + b → (io : List Io) → Serves n io → Serves a io
Serves-front zero b n e io s = tt
Serves-front (suc a) b zero e io s = absurd (omega (arith, e))
Serves-front (suc a) b (suc n) e [] s = s
Serves-front (suc a) b (suc n) e (transfer k ∷ io) (h, s) =
    (h, Serves-front a b n (omega (arith, e)) io s)
Serves-front (suc a) b (suc n) e (eintr ∷ io) s = s
Serves-front (suc a) b (suc n) e (failed ∷ io) s = s

Serves-back : (a b n : ℕ) → n ≡ a + b → (io : List Io) → Serves n io → Serves b (drop a io)
Serves-back zero b n e io s = let same_count : n ≡ b = omega (arith, e) in rw (← same_count) s
Serves-back (suc a) b zero e io s = absurd (omega (arith, e))
Serves-back (suc a) b (suc n) e [] s = absurd s
Serves-back (suc a) b (suc n) e (transfer k ∷ io) (h, s) = Serves-back a b n (omega (arith, e)) io s
Serves-back (suc a) b (suc n) e (eintr ∷ io) s = absurd s
Serves-back (suc a) b (suc n) e (failed ∷ io) s = absurd s

-- An entry takes a byte at least.
Holds-length :
    (file : StoredFile) (p : ℕ) (es : Entries)
    → p ≤ file.size
    → Holds file.bytes file.size p es
    → p + length es ≤ file.size
Holds-length file p [] h at = omega (arith, h)
Holds-length file p (e ∷ es) h (good, inside, at_size, at_key, at_loc, more) =
    omega (arith, Holds-length file (entry_end p e) es inside more)

pub load_index-Holds :
    (io : List Io) (file : StoredFile) (es : Entries) (index : OrdMap Location)
    → Serves (calls_for es) io
    → Holds file.bytes file.size 0 es
    → nvm_kv.Tth.Indexing.read_index_file (suc file.size) io file 0 index
      ≡ ok (succ, replay es index, drop_calls es io)
load_index-Holds io file es index s at =
    read_index_file-Holds (suc file.size) io file 0 es index
      (omega (arith, Holds-length file 0 es (omega arith) at)) s at

-- The bucket that `Open` sets up with an index: index.tmp is empty again, and the offset of the
-- descriptor of the data file is 0.
abbrev pub set_up_with : Location → Option Bytes → OrdMap Location → Bytes → Bucket
set_up_with garbage saved index data_file =
    opened_bucket garbage saved index data_file (cleared empty_file)

abbrev pub opened_with : Bucket → List Io → Opened
opened_with f io = record { ret = succ; bucket = some f; files = files_of f; io = io }

pub set_up_ok :
    (calls : Calls) (garbage : Location) (saved : Option Bytes) (index : OrdMap Location)
    (data_file : Bytes) (io : List Io)
    → AllOk calls
    → set_up calls garbage saved index data_file empty_file io
      ≡ ok (opened_with (set_up_with garbage saved index data_file) io)
unfolding set_up files_of
set_up_ok calls garbage saved index data_file io good = rw (good.fallocate, good.mmap) refl

module _ (calls : Calls) (garbage : Location) (data_file : Bytes) (tmp : StoredFile) (es : Entries)
    (good : AllOk calls) (at : Holds tmp.bytes tmp.size 0 es) where
  -- `Open` on an index.tmp makes the index that its entries make of those of the index file.
  pub open_bucket-replay :
      (io : List Io) (saved : Option Bytes) (es₀ : Entries)
      → SavedAs saved es₀
      → Serves (calls_for es₀ + calls_for es) io
      → (io' : List Io) × (open_bucket io calls garbage
            (record { tmp = some tmp; saved = saved; data_file = some data_file })
          ≡ ok (opened_with (set_up_with garbage saved (replay es (replay es₀ [])) data_file) io'))
  unfolding open_bucket open_unclosed renew_tmp replay set_up
  open_bucket-replay io none [] h s = (
    drop_calls es io,
    rw
        (
          good.tmp,
          load_index-Holds io tmp es []
              (Serves-front (calls_for es) 1 (1 + calls_for es) (omega arith) io s) at,
          good.data_file,
          good.create_tmp,
          good.remove,
        )
        (set_up_ok calls garbage none (replay es []) data_file (drop_calls es io) good),
  )
  open_bucket-replay io none (e ∷ es₀) h s = absurd (omega (arith, ap length h))
  open_bucket-replay io (some file) es₀ h s = (
    drop_calls es (drop_calls es₀ io),
    rw
        (
          good.tmp,
          good.saved,
          load_index-Holds io (stored file) es₀ []
              (Serves-front (calls_for es₀) (calls_for es) (calls_for es₀ + calls_for es) refl io s)
              h,
          load_index-Holds (drop_calls es₀ io) tmp es (replay es₀ [])
              (Serves-back (calls_for es₀) (calls_for es) (calls_for es₀ + calls_for es) refl io s)
              at,
          good.data_file,
          good.create_tmp,
          good.remove,
        )
        (set_up_ok calls garbage (some file) (replay es (replay es₀ [])) data_file
          (drop_calls es (drop_calls es₀ io)) good),
  )
