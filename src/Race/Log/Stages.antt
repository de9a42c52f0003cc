-- ===== src/Race/Log/Stages.antt =====
-- The steps of `Write` one by one, and what its `FileAppend` answers.
use nvm_kv.Prelude.{
  ℕ, suc, ◌≡◌, refl, ap, List, [], ◌∷◌, ◌++◌, ◌⊎◌, inl, inr, length, take, Bytes, drop, min,
}
use nvm_kv.Polar.{PolarString}
use nvm_kv.Posix.{
  Io, transfer, eintr, failed, Status, zero_status, minus_one, out_of_events, NoFailure,
  append_loop, file_append,
}
use nvm_kv.Engine.{ok, stuck}
use nvm_kv.Race.Bucket.{Bucket, Step, left_by, step, cut_off, append_value}
use nvm_kv.Race.Live.{IsValid}

pub take-all : (bs : Bytes) → take (length bs) bs ≡ bs
take-all [] = refl
take-all (b ∷ bs) = ap (λ t. b ∷ t) (take-all bs)

append_loop_fails :
    (io : List Io) (file value : Bytes)
    → NoFailure io
    → (append_loop io file value).status ≡ minus_one
    → ⊥
unfolding append_loop
append_loop_fails io file [] good h = cc
append_loop_fails [] file (b ∷ bs) good h = cc
append_loop_fails (eintr ∷ io) file (b ∷ bs) good h = append_loop_fails io file (b ∷ bs) good h
append_loop_fails (failed ∷ io) file (b ∷ bs) good h = absurd good
append_loop_fails (transfer n ∷ io) file (b ∷ bs) good h =
    let r : ℕ = min (suc n) (length (b ∷ bs)) in
    append_loop_fails io (file ++ take r (b ∷ bs)) (drop r (b ∷ bs)) good h

pub file_append_fails :
    (f : Bucket) (io : List Io) (value : Bytes)
    → IsValid f
    → NoFailure io
    → (file_append f.data_fd io f.data_file value).status ≡ minus_one
    → ⊥
unfolding file_append
file_append_fails f io value valid good h =
    append_loop_fails io f.data_file value good (rw (valid.is_open) at h)

pub Status-cases : (s : Status) → (s ≡ zero_status) ⊎ ((s ≡ minus_one) ⊎ (s ≡ out_of_events))
Status-cases zero_status = inl refl
Status-cases minus_one = inr (inl refl)
Status-cases out_of_events = inr (inr refl)

pub left_by_ok :
    (key value : PolarString) (s : Step) (steps : List Step) (n : ℕ) (io io' : List Io)
    (f g : Bucket)
    → step key value s io f ≡ ok (g, io')
    → left_by key value (s ∷ steps) (suc n) io f ≡ left_by key value steps n io' g
unfolding left_by
left_by_ok key value s steps n io io' f g h = rw (left_by, h) refl

pub left_by_stuck :
    (key value : PolarString) (s : Step) (steps : List Step) (n : ℕ) (io : List Io) (f : Bucket)
    → step key value s io f ≡ stuck
    → left_by key value (s ∷ steps) (suc n) io f ≡ cut_off value s io f
unfolding left_by
left_by_stuck key value s steps n io f h = rw (left_by, h) refl

pub append_value_stuck :
    (io : List Io) (f : Bucket) (value : Bytes)
    → (file_append f.data_fd io f.data_file value).status ≡ out_of_events
    → append_value io f value ≡ stuck
unfolding append_value
append_value_stuck io f value h = rw (append_value, h) refl

pub append_value_zero :
    (io : List Io) (f : Bucket) (value : Bytes)
    → (file_append f.data_fd io f.data_file value).status ≡ zero_status
    → append_value io f value
      ≡ ok (
        record f { data_file = (file_append f.data_fd io f.data_file value).file },
        (file_append f.data_fd io f.data_file value).io,
      )
unfolding append_value
append_value_zero io f value h = rw (append_value, h) refl

pub append_value_minus :
    (io : List Io) (f : Bucket) (value : Bytes)
    → (file_append f.data_fd io f.data_file value).status ≡ minus_one
    → append_value io f value
      ≡ ok (
        record f { data_file = (file_append f.data_fd io f.data_file value).file },
        (file_append f.data_fd io f.data_file value).io,
      )
unfolding append_value
append_value_minus io f value h = rw (append_value, h) refl
