-- ===== src/Race/Session/Outcome.antt =====
-- From an empty directory through a session to the next one.
use nvm_kv.Prelude.{
  ℕ, ◌+◌, ◌*◌, ◌^◌, ◌≤◌, ◌<◌, ◌≡◌, ap, ◌∙◌, arith, List, none, some, true, length, Bytes,
  map as list_map,
}
use nvm_kv.Polar.{of_string}
use nvm_kv.Posix.{Io, NoFailure, transfers}
use nvm_kv.Engine.{succ, ok}
use nvm_kv.Race.Bucket.{write_buf_size, key_file_size}
use nvm_kv.Race.Reading.{read_buf_size}
use nvm_kv.Race.Opening.{Calls, files_of}
use nvm_kv.Race.Log.Reopening.{Works}
use nvm_kv.Race.Routing.{EngineRace, open_engine, close, read}
use nvm_kv.Race.Store.{first, view}
use nvm_kv.Race.Store.Operations.{code_of_view, value_of_view, read-view}
use nvm_kv.Race.Session.{Pairs, write_all, after, AllFit, volume}
use nvm_kv.Race.Session.Writing.{write_all-Wrote, IsReady-IsValid}
use nvm_kv.Race.Session.Restarting.{
  called, engine_again, open_engine-close, engine_again-IsReady, view-engine_again,
}
use nvm_kv.Race.Session.Creating.{
  Creates, empty_dir, new_buckets, new_engine, open_engine-empty, new_engine-IsReady,
  view-new_engine,
}

-- `Open` on nothing, all the writes, `Open` again, and `Read` of a key.
abbrev pub Remembers :
    (ℕ → Calls) → (ℕ → Calls) → ℕ → Bytes → Pairs → List Io → List Io → Bytes → Bytes → Type 0
Remembers creates works count name pairs io₁ io₂ key value =
    (e₁ e₂ e₃ e₄ : EngineRace) × (left₁ left₂ : List Io) × (open_engine true name
        (called creates 0 (empty_dir count))
      ≡ ok (succ, some e₁, list_map files_of (new_buckets count)))
    × (write_all io₁ e₁ pairs ≡ ok (e₂, left₁))
    × (open_engine true name (called works 0 (close e₂)) ≡ ok (succ, some e₃, close e₂))
    × (read io₂ e₃ (of_string key) value
        ≡ ok (
          code_of_view (after pairs key none),
          value_of_view (after pairs key none) value,
          e₄,
          left₂,
        ))

-- A whole session of engine_race with 2 or more buckets: `Open` on an empty directory answers
-- `succ`, the calls of `Write` for any list of pairs run through one after the other, `Open` on
-- the files that the engine leaves answers `succ` and leaves them as they are, and `Read` of a
-- key then answers `succ` with the value of the last pair of that key, or `not_found` with the
-- caller's string unchanged where no pair has the key. Keys are not empty and start with a byte
-- below 256, each pair fits the buffers of `Write` and `Read`, all the pairs together fit one
-- index file and the 4 GB counter at the largest size a pair can have, the calls of both `Open`s
-- succeed with a nonzero descriptor for the index files, no call of write(2) or read(2) fails,
-- and enough of them can move bytes.
pub read-write_all :
    (creates works : ℕ → Calls) (count : ℕ) (name : Bytes) (pairs : Pairs) (io₁ io₂ : List Io)
    (key value : Bytes)
    → ((j : ℕ) → Creates (creates j))
    → ((j : ℕ) → Works (works j))
    → 2 ≤ count
    → AllFit pairs
    → length pairs * write_buf_size + 4 ≤ key_file_size
    → length pairs * read_buf_size < 2 ^ 32
    → NoFailure io₁
    → volume pairs ≤ transfers io₁
    → first key < 256
    → NoFailure io₂
    → read_buf_size ≤ transfers io₂
    → Remembers creates works count name pairs io₁ io₂ key value
read-write_all creates works count name pairs io₁ io₂ key value c w several fit index counter good₁
      enough₁ byte good₂ enough₂ =
    let e₁ = new_engine name count in
    let all : length pairs + 0 ≡ length pairs = omega arith in
    let ready =
      new_engine-IsReady (length pairs + 0) count name several (rw all index) (rw all counter) in
    let wrote = write_all-Wrote pairs 0 io₁ e₁ ready fit good₁ enough₁ in
    let e₂ = wrote.engine in
    let e₃ = engine_again name e₂ in
    let valid = IsReady-IsValid 0 e₃ (engine_again-IsReady 0 name e₂ wrote.ready) in
    let (e₄, left₂, got, _, _) = read-view io₂ e₃ key value valid byte good₂ enough₂ in
    let seen : view e₃ key ≡ after pairs key none =
      view-engine_again name e₂ key
      ∙ wrote.views key
      ∙ ap (after pairs key) (view-new_engine count name key) in
    (
      e₁,
      e₂,
      e₃,
      e₄,
      wrote.left,
      left₂,
      open_engine-empty creates count name c,
      wrote.run,
      open_engine-close works 0 name e₂ w wrote.ready,
      got ∙ ap (λ o. ok (code_of_view o, value_of_view o value, e₄, left₂)) seen,
    )
