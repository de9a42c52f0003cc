-- ===== src/Posix/Append.antt =====
-- `FileAppend`: what reaches the file, and when it answers 0.
use nvm_kv.Prelude.{
  ℕ, suc, ◌+◌, ◌≤◌, ◌≡◌, refl, ap, arith, ◌∙◌, sym, min, List, [], ◌∷◌, ◌++◌, length, take, drop,
  Bytes, append-nil, append_assoc, length-drop, take-append-drop, take-add,
}
use nvm_kv.Posix.{
  Io, transfer, eintr, failed, Fd, negative, opened, closed, Status, zero_status, minus_one,
  out_of_events, Appended, transfers, NoFailure, append_loop, file_append,
}

-- The loop in terms of one piece of the value at a time.
abbrev pub Wrote : Bytes → Bytes → List Io → Appended → Type 0
Wrote file value io a =
    (a.status ≡ zero_status)
    × (a.file ≡ file ++ value)
    × NoFailure a.io
    × (transfers io ≤ transfers a.io + length value)

append_loop-Wrote :
    (io : List Io) (file value : Bytes)
    → NoFailure io
    → length value ≤ transfers io
    → Wrote file value io (append_loop io file value)
unfolding append_loop
append_loop-Wrote io file [] ok n = (refl, (sym (append-nil file)), ok, omega arith)
append_loop-Wrote [] file (b ∷ bs) ok n = elim n [ ]
append_loop-Wrote (eintr ∷ io) file (b ∷ bs) ok n = append_loop-Wrote io file (b ∷ bs) ok n
append_loop-Wrote (failed ∷ io) file (b ∷ bs) ok n = absurd ok
append_loop-Wrote (transfer k ∷ io) file (b ∷ bs) ok n =
    let r : ℕ = min (suc k) (length (b ∷ bs)) in
    let shorter : length (drop r (b ∷ bs)) + 1 ≤ length (b ∷ bs) =
      omega (arith, length-drop r (b ∷ bs)) in
    let (s, f, o, t) =
      append_loop-Wrote io (file ++ take r (b ∷ bs)) (drop r (b ∷ bs)) ok (omega arith) in
    (
      s,
      f
          ∙ append_assoc file (take r (b ∷ bs)) (drop r (b ∷ bs))
          ∙ ap (λ t. file ++ t) (take-append-drop r (b ∷ bs)),
      o,
      omega arith,
    )

-- The answer 0 means that all of the `n` bytes were written.
abbrev pub Whole : Status → ℕ → ℕ → Type 0
Whole zero_status k n = k ≡ n
Whole minus_one k n = Unit
Whole out_of_events k n = Unit

Whole-add : (s : Status) (r k m n : ℕ) → r + m ≡ n → Whole s k m → Whole s (r + k) n
Whole-add zero_status r k m n e h = omega arith
Whole-add minus_one r k m n e h = tt
Whole-add out_of_events r k m n e h = tt

-- What reaches the file is a first part of the value, and the whole value if the answer is 0.
abbrev pub WrotePart : Bytes → Bytes → Appended → Type 0
WrotePart file value a =
    (k : ℕ) × (k ≤ length value) × (a.file ≡ file ++ take k value) × Whole a.status k (length value)

append_loop-WrotePart :
    (io : List Io) (file value : Bytes) → WrotePart file value (append_loop io file value)
unfolding append_loop
append_loop-WrotePart io file [] = (0, omega arith, sym (append-nil file), refl)
append_loop-WrotePart [] file (b ∷ bs) = (0, omega arith, sym (append-nil file), tt)
append_loop-WrotePart (eintr ∷ io) file (b ∷ bs) = append_loop-WrotePart io file (b ∷ bs)
append_loop-WrotePart (failed ∷ io) file (b ∷ bs) = (0, omega arith, sym (append-nil file), tt)
append_loop-WrotePart (transfer n ∷ io) file (b ∷ bs) =
    let r : ℕ = min (suc n) (length (b ∷ bs)) in
    let rest = length-drop r (b ∷ bs) in
    let (k, small, wrote, whole) =
      append_loop-WrotePart io (file ++ take r (b ∷ bs)) (drop r (b ∷ bs)) in
    (
      r + k,
      omega (arith, rest),
      wrote
          ∙ append_assoc file (take r (b ∷ bs)) (take k (drop r (b ∷ bs)))
          ∙ ap (λ t. file ++ t) (sym (take-add r k (b ∷ bs))),
      Whole-add _ r k (length (drop r (b ∷ bs))) (length (b ∷ bs)) (omega (arith, rest)) whole,
    )

-- `FileAppend` leaves in the file what was there and a first part of the value, whatever the
-- descriptor is and the calls of write(2) do, and the whole value whenever it answers 0.
pub file_append-WrotePart :
    (fd : Fd) (io : List Io) (file value : Bytes)
    → WrotePart file value (file_append fd io file value)
unfolding file_append
file_append-WrotePart negative io file value = (0, omega arith, sym (append-nil file), tt)
file_append-WrotePart closed io file [] = (0, omega arith, sym (append-nil file), refl)
file_append-WrotePart closed io file (b ∷ bs) = (0, omega arith, sym (append-nil file), tt)
file_append-WrotePart opened io file value = append_loop-WrotePart io file value

-- On an open file `FileAppend` answers 0 and appends the whole value, if no call of write(2)
-- fails and as many of them move bytes as the value has; at most one such call is used up for
-- each byte.
pub file_append-Wrote :
    (io : List Io) (file value : Bytes)
    → NoFailure io
    → length value ≤ transfers io
    → Wrote file value io (file_append opened io file value)
unfolding file_append
file_append-Wrote io file value = append_loop-Wrote io file value
