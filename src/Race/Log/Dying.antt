-- ===== src/Race/Log/Dying.antt =====
-- What `Open` finds after the process dies inside `Write`, before or after any of its steps.
use mathlib.Core.Path.{subst}
use nvm_kv.Prelude.{
  ℕ, zero, suc, ◌+◌, ◌≤◌, ◌<◌, ◌≡◌, refl, sym, ◌∙◌, ap, arith, List, [], ◌∷◌, ◌++◌, ◌⊎◌, inl, inr,
  length, take, true, Option, Bytes, append-nil, length-take,
}
use nvm_kv.Polar
use nvm_kv.Polar.{PolarString, to_string}
use nvm_kv.Polar.Order.{size-to_string}
use nvm_kv.Posix.{Io, zero_status, minus_one, out_of_events, NoFailure, file_append}
use nvm_kv.Posix.Append.{file_append-WrotePart, Whole}
use nvm_kv.Engine.{ok}
use nvm_kv.Race.Bucket.{
  Bucket, taking_lock, appending_value, entering_record, releasing_lock, write_steps, left_by, step,
  cut_off, location_sz, mutex_unlock, write_index,
}
use nvm_kv.Race.Opening.{Calls, Files, files_of}
use nvm_kv.Race.Live.{IsValid, HasRoom, view}
use nvm_kv.Race.Live.Writing.{written, mutex_lock_free, write_index_ok}
use nvm_kv.Race.Log.{Log, IsLogged}
use nvm_kv.Race.Log.Reopening.{Works}
use nvm_kv.Race.Log.Crashing.{Recovers, updated, extended-Recovers, written-Recovers}
use nvm_kv.Race.Log.Stages.{
  take-all, file_append_fails, Status-cases, left_by_ok, left_by_stuck, append_value_stuck,
  append_value_zero, append_value_minus,
}

-- The files when the process dies after `n` steps of `Write`
abbrev pub left_files : PolarString → PolarString → ℕ → List Io → Bucket → Files
left_files key value n io f = files_of (left_by key value write_steps n io f)

-- Every key has the value from before the write; or the record was entered, and the key has the new
-- value and every other key the one from before.
abbrev pub Survives : Calls → PolarString → PolarString → ℕ → List Io → Bucket → Type 0
Survives calls key value n io f =
    Recovers (view f) (left_files key value n io f) calls
    ⊎ ((3 ≤ n)
        × Recovers (updated f (to_string key) (to_string value)) (left_files key value n io f)
            calls)

module _ (calls : Calls) (log : Log) (f : Bucket) (key value : PolarString) (io : List Io)
    (works : Works calls) (valid : IsValid f) (logged : IsLogged log f) (vv : Polar.IsValid value)
    (room : HasRoom f (to_string key) (to_string value)) (pos : 0 < length (to_string key))
    (more : f.key_mmap_cur + (4 + length (to_string key) + location_sz) + 4 ≤ f.mapped) where
  abbrev partial : Bucket
  partial = record f { data_file = (file_append f.data_fd io f.data_file (to_string value)).file }

  untouched : Recovers (view f) (files_of f) calls
  untouched =
      subst (λ file. Recovers (view f) (files_of (record f { data_file = file })) calls)
        (append-nil f.data_file)
        (extended-Recovers calls log f [] works valid logged (omega arith)
          (omega (arith, room.counter)))

  partly : Recovers (view f) (files_of partial) calls
  partly =
      let v = to_string value in
      let (k, le, e, _) = file_append-WrotePart f.data_fd io f.data_file v in
      subst (λ file. Recovers (view f) (files_of (record f { data_file = file })) calls) (sym e)
        (extended-Recovers calls log f (take k v) works valid logged (omega arith)
          (omega (arith, length-take k v, room.counter)))

  abbrev held : Bucket
  held = record f { locked = true }

  takes_lock : step key value taking_lock io f ≡ ok (held, io)
  unfolding step
  takes_lock = rw (mutex_lock_free f valid.unlocked)

  dies_appending :
      (m : ℕ)
      → (file_append f.data_fd io f.data_file (to_string value)).status ≡ out_of_events
      → left_files key value (suc (suc m)) io f ≡ files_of partial
  unfolding write_steps
  dies_appending m h =
      rw
        (
          left_by_ok key value taking_lock _ (suc m) io io f held takes_lock,
          left_by_stuck key value appending_value _ m io held
              (unfold step in append_value_stuck io held (to_string value) h),
        )
        (unfold cut_off files_of in refl)

  -- The calls of write(2) left to the steps behind `FileAppend`
  abbrev later : List Io
  later = (file_append f.data_fd io f.data_file (to_string value)).io

  Answered : Type 0
  Answered = step key value appending_value io held ≡ ok (record partial { locked = true }, later)

  appended :
      (m : ℕ)
      → Answered
      → left_by key value write_steps (suc (suc m)) io f
        ≡ left_by key value
            (entering_record ∷ releasing_lock ∷ [])
            m
            later
            (record partial { locked = true })
  unfolding write_steps Answered
  appended m h =
      rw
        (
          left_by_ok key value taking_lock _ (suc m) io io f held takes_lock,
          left_by_ok key value appending_value _ m io later held (record partial { locked = true })
              h,
        )
        refl

  answers_zero :
      (file_append f.data_fd io f.data_file (to_string value)).status ≡ zero_status → Answered
  unfolding Answered step
  answers_zero h = append_value_zero io held (to_string value) h

  answers_minus :
      (file_append f.data_fd io f.data_file (to_string value)).status ≡ minus_one → Answered
  unfolding Answered step
  answers_minus h = append_value_minus io held (to_string value) h

  dies_before_record : Answered → left_files key value 2 io f ≡ files_of partial
  dies_before_record h = rw (appended 0 h) (unfold left_by files_of in refl)

  abbrev recorded : Bucket
  recorded = record (written f (to_string key) (to_string value)) {
    locked = true;
    data_file = partial.data_file;
  }

  enters_record :
      (n : ℕ)
      → n ≡ length (to_string value)
      → write_index (record partial { locked = true }) (to_string key) n ≡ ok recorded
  unfolding written
  enters_record n e =
      rw
        (
          write_index_ok (record partial { locked = true }) (to_string key) n room.buffer
              room.index,
          e,
        )
        refl

  records_pair :
      step key value entering_record later (record partial { locked = true }) ≡ ok (recorded, later)
  unfolding step
  records_pair = rw (enters_record value.size (size-to_string value vv)) refl

  released :
      (m : ℕ)
      → files_of (left_by key value (releasing_lock ∷ []) m later recorded) ≡ files_of recorded
  unfolding left_by step mutex_unlock files_of
  released zero = refl
  released (suc m) = refl

  whole :
      (file_append f.data_fd io f.data_file (to_string value)).status ≡ zero_status
      → partial.data_file ≡ f.data_file ++ to_string value
  whole h =
      let v = to_string value in
      let (k, le, e, all) = file_append-WrotePart f.data_fd io f.data_file v in
      let full : k ≡ length v = subst (λ s. Whole s k (length v)) h all in
      e ∙ rw full (ap (λ t. f.data_file ++ t) (take-all v))

  dies_after_record :
      (m : ℕ)
      → (file_append f.data_fd io f.data_file (to_string value)).status ≡ zero_status
      → left_files key value (suc (suc (suc m))) io f
        ≡ files_of (written f (to_string key) (to_string value))
  unfolding Answered
  dies_after_record m h =
      rw
        (
          appended (suc m) (answers_zero h),
          left_by_ok key value entering_record _ m later later _ recorded records_pair,
          released m,
        )
        (unfold files_of written in
          ap (λ file. files_of (record recorded { data_file = file })) (whole h))

  dies_holding : left_files key value 1 io f ≡ files_of f
  unfolding write_steps
  dies_holding =
      rw (left_by_ok key value taking_lock _ 0 io io f held takes_lock)
        (unfold left_by files_of in refl)

  abbrev RecoversAs : (Bytes → Option Bytes) → Files → Type 0
  RecoversAs values files = Recovers values files calls

  append_outcome :
      (m : ℕ) → NoFailure io ⊎ (suc (suc m) ≤ 2) → Survives calls key value (suc (suc m)) io f
  append_outcome m mild =
      elim (Status-cases (file_append f.data_fd io f.data_file (to_string value)).status) [
        | inl h ↦ finished m h
        | inr (inl h) ↦ refused m h mild
        | inr (inr h) ↦ inl (subst (RecoversAs (view f)) (sym (dies_appending m h)) partly)
      ]
    where
      before : Answered → Survives calls key value 2 io f
      before a = inl (subst (RecoversAs (view f)) (sym (dies_before_record a)) partly)

      finished :
          (m : ℕ)
          → (file_append f.data_fd io f.data_file (to_string value)).status ≡ zero_status
          → Survives calls key value (suc (suc m)) io f
      finished zero h = before (answers_zero h)
      finished (suc m) h = inr (
        omega arith,
        subst (RecoversAs (updated f (to_string key) (to_string value)))
            (sym (dies_after_record m h))
            (written-Recovers calls log f (to_string key) (to_string value) works valid logged room
              pos more),
      )

      refused :
          (m : ℕ)
          → (file_append f.data_fd io f.data_file (to_string value)).status ≡ minus_one
          → NoFailure io ⊎ (suc (suc m) ≤ 2)
          → Survives calls key value (suc (suc m)) io f
      refused zero h mild = before (answers_minus h)
      refused (suc m) h (inl good) = absurd (file_append_fails f io (to_string value) valid good h)
      refused (suc m) h (inr few) = absurd (omega (arith, few))

-- The process dies inside `Write`, after any number of its steps (taking the mutex, `FileAppend`,
-- entering the record, releasing the mutex) or inside `FileAppend` after any number of calls of
-- write(2): `Open` on the files left behind answers `succ` with a well formed bucket in which
-- every key has the value it had before the write, or, if the record was entered, the key has the
-- new value and every other key the value it had. The bucket is well formed and its index file is
-- the log of its writes, the key is not empty, the value's view is valid, and the buffers, the
-- index file (with an end mark after the record) and the 4 GB counter have room for the pair.
-- Either no call of write(2) fails, or the process dies before the record is entered. The copy of
-- the record to the mapping is one effect: a death in the middle of it is not covered. The calls
-- that `Open` makes succeed, with a nonzero descriptor for the index file.
pub crash_in_write :
    (calls : Calls) (log : Log) (f : Bucket) (key value : PolarString) (io : List Io) (n : ℕ)
    → Works calls
    → IsValid f
    → IsLogged log f
    → Polar.IsValid value
    → HasRoom f (to_string key) (to_string value)
    → 0 < length (to_string key)
    → f.key_mmap_cur + (4 + length (to_string key) + location_sz) + 4 ≤ f.mapped
    → NoFailure io ⊎ (n ≤ 2)
    → Survives calls key value n io f
crash_in_write calls log f key value io zero works valid logged vv room pos more mild = inl (
    unfold left_by write_steps in
    untouched calls log f key value io works valid logged vv room pos more)
crash_in_write calls log f key value io (suc zero) works valid logged vv room pos more mild = inl (
    subst (λ files. Recovers (view f) files calls)
      (sym (dies_holding calls log f key value io works valid logged vv room pos more))
      (untouched calls log f key value io works valid logged vv room pos more))
crash_in_write calls log f key value io (suc (suc m)) works valid logged vv room pos more mild =
    append_outcome calls log f key value io works valid logged vv room pos more m mild
