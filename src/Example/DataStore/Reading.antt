-- ===== src/Example/DataStore/Reading.antt =====
-- `Read` of a location gives the bytes that it names, and what `Append` stored.
use nvm_kv.Prelude.{
  ℕ, zero, suc, ◌+◌, ◌-◌, ◌^◌, ◌≤◌, ◌<◌, ◌≡◌, ap, ◌∙◌, arith, List, [], ◌∷◌, ◌++◌, true, min,
  length, take, drop, Bytes, append-nil, append_assoc, length_chunk, chunk_and_rest,
}
use nvm_kv.Posix.{Io, transfer, eintr, failed, NoFailure, transfers, zero_status}
use nvm_kv.Engine.{succ, ok}
use nvm_kv.Example.DataStore.{
  DataStore, Location, k_single_file_size, Stored, append, read_loop, read,
}
use nvm_kv.Example.DataStore.Appending.{IsValid, IsStored, slice, append-Keeps}

read_loop_ok :
    (file : Bytes) (io : List Io) (position : ℕ) (buf : Bytes) (n : ℕ)
    → NoFailure io
    → n ≤ transfers io
    → position + n ≤ length file
    → (io' : List Io) × (read_loop io file position buf n
        ≡ ok (record { status = zero_status; buf = buf ++ take n (drop position file); io = io' }))
      × NoFailure io'
      × (transfers io ≤ transfers io' + n)
unfolding read_loop
read_loop_ok file io position buf zero good enough inside =
    (io, rw (append-nil buf), good, omega arith)
read_loop_ok file [] position buf (suc n) good enough inside = elim enough [ ]
read_loop_ok file (eintr ∷ io) position buf (suc n) good enough inside =
    read_loop_ok file io position buf (suc n) good enough inside
read_loop_ok file (failed ∷ io) position buf (suc n) good enough inside = absurd good
read_loop_ok file (transfer k ∷ io) position buf (suc n) good enough inside =
    let m : ℕ = min (suc k) (suc n) in
    let chunk : Bytes = take m (drop position file) in
    let e : length chunk ≡ m = length_chunk file position m (omega arith) in
    let (io', run, g, t) =
      read_loop_ok file io (position + length chunk) (buf ++ chunk) (suc n - length chunk) good
        (omega (arith, e)) (omega (arith, e)) in
    let rest : Bytes = take (suc n - length chunk) (drop (position + length chunk) file) in
    let whole : (buf ++ chunk) ++ rest ≡ buf ++ take (suc n) (drop position file) =
      append_assoc buf chunk rest
      ∙ ap (λ t. buf ++ t) (chunk_and_rest file position m (suc n) (omega arith) e) in
    (
      io',
      run ∙ ap (λ t. ok (record { status = zero_status; buf = t; io = io' })) whole,
      g,
      omega (arith, e),
    )

-- `Read` of a location in an existing file answers `succ` with the bytes that the location names,
-- over calls that do not fail.
pub read-slice :
    (io : List Io) (s : DataStore) (l : Location) (value : Bytes)
    → IsStored s.files l
    → NoFailure io
    → l.len ≤ transfers io
    → (io' : List Io) × (read io true s l value ≡ ok (succ, slice s.files l, io'))
unfolding read
read-slice io s l value stored good enough =
    let (io', run, _, _) =
      read_loop_ok stored.file io l.offset [] l.len good enough stored.inside in
    (io', ground (arith, stored.there, run))

-- The value of a first `Append` is read back after a second one.
abbrev pub ReadsBack :
    List Io → List Io → List Io → DataStore → Bytes → Bytes → Bytes → Location → Type 0
ReadsBack io₁ io₂ io₃ s v w before l =
    (a b : Stored) × (append io₁ true s v l ≡ ok a)
    × (append io₂ true a.store w l ≡ ok b)
    × (io : List Io) × (read io₃ true b.store a.location before ≡ ok (succ, v, io))

-- Two calls of `Append` one after the other on a well formed store whose file number is at least
-- 3 below its limit, of values of at most 100 MB, answer a location each, and `Read` of the first
-- location then answers `succ` and the first value. Files can be opened, no call of write(2) or
-- read(2) fails, and of each kind as many move bytes as the value they are for has.
pub read-append :
    (io₁ io₂ io₃ : List Io) (s : DataStore) (v w before : Bytes) (l : Location)
    → IsValid s
    → s.next_location.file_no + 3 < 2 ^ 32
    → length v ≤ k_single_file_size
    → length w ≤ k_single_file_size
    → NoFailure io₁
    → NoFailure io₂
    → NoFailure io₃
    → length v ≤ transfers io₁
    → length w ≤ transfers io₂
    → length v ≤ transfers io₃
    → ReadsBack io₁ io₂ io₃ s v w before l
read-append io₁ io₂ io₃ s v w before l valid number hv hw g₁ g₂ g₃ e₁ e₂ e₃ =
    let (a, run₁, keeps₁) = append-Keeps io₁ s v l valid (omega arith) hv g₁ e₁ in
    let (b, run₂, keeps₂) =
      append-Keeps io₂ a.store w l keeps₁.valid (omega (arith, keeps₁.number)) hw g₂ e₂ in
    let (stored, same_slice) = keeps₂.old a.location keeps₁.stored in
    let (io, run₃) =
      read-slice io₃ b.store a.location before stored g₃ (omega (arith, keeps₁.len)) in
    (a, b, run₁, run₂, io, run₃ ∙ ap (λ (t : Bytes). ok (succ, t, io)) (same_slice ∙ keeps₁.holds))
