-- ===== src/Tth/Closed.antt =====
-- Closing a bucket of engine_tth, and opening it again.
use nvm_kv.Prelude.{
  ◌+◌, ◌≤◌, ◌≡◌, refl, sym, ap, ◌∙◌, arith, inl, inr, Option, none, some, List, [], ◌∷◌, ◌++◌, Bool,
  true, false, ◌||◌, if◌then◌else◌, All, length, drop, Bytes, same, eq_of_same, Bool-cases,
  append-nil, drop_all,
}
use nvm_kv.OrdMap.{OrdMap, find, insert_or_assign}
use nvm_kv.OrdMap.Laws.{find-insert_or_assign}
use nvm_kv.Posix.{Io, NoFailure, transfers}
use nvm_kv.Engine.{ok}
use nvm_kv.Tth.Bucket.{Bucket, Location, stored, overwrite}
use nvm_kv.Tth.Closing.{Saving, CloseCalls, save_index, close_bucket, existing}
use nvm_kv.Tth.Opening.{Files, Calls, open_bucket, open_closed, set_up}
use nvm_kv.Tth.Entries.{Entries, IsEntry, Serves, calls_for, replay}
use nvm_kv.Tth.Appending.{overwrite_inside}
use nvm_kv.Tth.Live.{view}
use nvm_kv.Tth.Reopening.{AllOk, set_up_with, load_index-Holds, set_up_ok}
use nvm_kv.Tth.Restarts.{Opens}
use nvm_kv.Tth.Saving.{all_bytes, save_entries-Saved, Holds-all_bytes}

unfoldable pub has_key : Bytes → Entries → Bool
has_key j [] = false
has_key j (e ∷ es) = same j e.0 || has_key j es

-- The entries are those of the map, in any order.
pub record Visits (entries : Entries) (index : OrdMap Location) : Type 0 where
  pub each : All (λ e. find e.0 index ≡ some e.1) entries
  pub every : (j : Bytes) → has_key j entries ≡ false → find j index ≡ none

find-replay :
    (index base : OrdMap Location) (es : Entries) (j : Bytes)
    → All (λ e. find e.0 index ≡ some e.1) es
    → find j (replay es base) ≡ (if has_key j es then find j index else find j base)
unfolding replay has_key
find-replay index base [] j a = refl
find-replay index base (e ∷ es) j (h, a) = elim (Bool-cases (same j e.0)) [
  | inl s ↦
      find-replay index (insert_or_assign e.0 e.1 base) es j a
      ∙ rw (find-insert_or_assign e.0 j e.1 base, s)
          (both (has_key j es) (ap (λ k. find k index) (eq_of_same j e.0 s) ∙ h))
  | inr s ↦
      find-replay index (insert_or_assign e.0 e.1 base) es j a
      ∙ rw (find-insert_or_assign e.0 j e.1 base, s) refl
]
  where
    both :
        (b : Bool) {x y : Option Location}
        → x ≡ y
        → (if b then x else y) ≡ (if true then x else find j base)
    both true h = refl
    both false h = sym h

-- The map that `Open` makes of the entries finds what the map of the closed engine found.
find-Visits :
    (index : OrdMap Location) (entries : Entries) (j : Bytes)
    → Visits entries index
    → find j (replay entries []) ≡ find j index
unfolding find
find-Visits index entries j visits = elim (Bool-cases (has_key j entries)) [
  | inl h ↦ find-replay index [] entries j visits.each ∙ rw h refl
  | inr h ↦ find-replay index [] entries j visits.each ∙ rw (h, visits.every j h) refl
]

-- The old index file is overwritten as a whole.
overwrite_all : (file bs : Bytes) → length file ≤ length bs → overwrite file 0 bs ≡ bs
overwrite_all file bs h =
    let e : 0 + length bs ≡ length bs = omega arith in
    overwrite_inside file 0 bs (omega arith)
    ∙ rw e (ap (λ t. bs ++ t) (drop_all (length bs) file h) ∙ append-nil bs)

-- What is left behind a bucket whose index was saved
abbrev pub files_closed : Bucket → Entries → Files
files_closed f entries = record {
  tmp = none;
  saved = some (all_bytes entries);
  data_file = some f.data_file;
}

close_bucket-files_closed :
    (io : List Io) (calls : CloseCalls) (entries : Entries) (f : Bucket)
    → calls.open_ok ≡ true
    → calls.remove_ok ≡ true
    → length (existing f.saved) ≤ length (all_bytes entries)
    → NoFailure io
    → length (all_bytes entries) ≤ transfers io
    → (io' : List Io) × (close_bucket io calls entries f ≡ ok (files_closed f entries, io'))
unfolding close_bucket save_index
close_bucket-files_closed io calls entries f opens removes shorter good enough =
    let s : Saving = record { file = existing f.saved; position = 0 } in
    let w = save_entries-Saved io entries s (omega arith) good enough in
    (
      w.left,
      rw
          (
            opens,
            removes,
            w.run,
            w.file_eq,
            overwrite_all (existing f.saved) (all_bytes entries) shorter,
          )
          refl,
    )

-- The destructor saves the index of a bucket and removes its index.tmp, and `Open` then gives a
-- bucket in which every key has the value it had.
abbrev pub Reopens : List Io → List Io → CloseCalls → Calls → Location → Entries → Bucket → Type 0
Reopens io io₂ close_calls calls garbage entries f =
    (io' : List Io) × (g : Bucket) × (close_bucket io close_calls entries f
      ≡ ok (files_closed f entries, io'))
    × Opens io₂ calls garbage (files_closed f entries) g
    × ((j : Bytes) → view g j ≡ view f j)

open_bucket-files_closed :
    (io : List Io) (calls : Calls) (garbage : Location) (entries : Entries) (f : Bucket)
    → All IsEntry entries
    → AllOk calls
    → Serves (calls_for entries) io
    → Opens io calls garbage
        (files_closed f entries)
        (set_up_with garbage (some (all_bytes entries)) (replay entries []) f.data_file)
unfolding open_bucket open_closed set_up
open_bucket-files_closed io calls garbage entries f good calls_ok serves = (
  drop (calls_for entries) io,
  rw
      (
        calls_ok.tmp,
        calls_ok.saved,
        load_index-Holds io (stored (all_bytes entries)) entries [] serves
            (Holds-all_bytes (all_bytes entries) [] entries 0 refl refl good),
        calls_ok.data_file,
        calls_ok.create_tmp,
      )
      (set_up_ok calls garbage (some (all_bytes entries)) (replay entries []) f.data_file
        (drop (calls_for entries) io) calls_ok),
)

view_congr :
    (f g : Bucket) (j : Bytes)
    → g.data_file ≡ f.data_file
    → find j g.index ≡ find j f.index
    → view g j ≡ view f j
unfolding view
view_congr f g j d h = rw (d, h) refl

-- When the destructor of engine_tth saves the entries of a bucket's index, in any order in which
-- each comes, and removes index.tmp, `Open` on the files gives a bucket in which every key has
-- the value it had. The index file that was there is not longer than the new entries, the keys
-- have 1 to 1023 bytes of which none is zero, offsets and lengths stay below 2^64, no call of
-- write(2) fails and as many move bytes as the entries have, the other calls succeed, and each
-- read(2) gives all that is asked for.
pub open_bucket-close_bucket :
    (io io₂ : List Io) (close_calls : CloseCalls) (calls : Calls) (garbage : Location)
    (entries : Entries) (f : Bucket)
    → Visits entries f.index
    → All IsEntry entries
    → length (existing f.saved) ≤ length (all_bytes entries)
    → close_calls.open_ok ≡ true
    → close_calls.remove_ok ≡ true
    → NoFailure io
    → length (all_bytes entries) ≤ transfers io
    → AllOk calls
    → Serves (calls_for entries) io₂
    → Reopens io io₂ close_calls calls garbage entries f
open_bucket-close_bucket io io₂ close_calls calls garbage entries f visits entries_ok shorter opens
      removes good enough calls_ok serves =
    let (io', run) =
      close_bucket-files_closed io close_calls entries f opens removes shorter good enough in
    (
      io',
      set_up_with garbage (some (all_bytes entries)) (replay entries []) f.data_file,
      run,
      open_bucket-files_closed io₂ calls garbage entries f entries_ok calls_ok serves,
      λ j.
          view_congr f
            (set_up_with garbage (some (all_bytes entries)) (replay entries []) f.data_file) j refl
            (find-Visits f.index entries j visits),
    )
