-- ===== src/Posix.antt =====
-- The calls of the operating system that the engines make on an open file, and the loops of
-- engine_race/util.h around write(2).
-- The kernel chooses what each call does; its choices are a list of events, read in order.
pub mod Append
use nvm_kv.Prelude.{
  ℕ, zero, suc, ◌+◌, ◌-◌, ◌≤◌, ◌≡◌, min, Option, none, some, List, [], ◌∷◌, ◌++◌, Bool, true, false,
  leb, ltb, ◌==◌, if◌then◌else◌, length, take, drop, Bytes,
}

-- What one read(2) or write(2) does: it moves at most n + 1 bytes, is interrupted by a signal
-- (errno is EINTR), or fails with another error.
pub data Io : Type 0 where
  transfer : ℕ → Io
  eintr : Io
  failed : Io

-- A descriptor: a negative number, an open file, or a number whose file was closed.
pub data Fd : Type 0 where
  negative opened closed : Fd

-- The return value of a function that answers 0 or -1, or a model that ran out of events.
pub data Status : Type 0 where
  zero_status : Status
  minus_one : Status
  out_of_events : Status

-- How often the calls can move bytes.
abbrev pub transfers : List Io → ℕ
transfers [] = 0
transfers (transfer n ∷ io) = suc (transfers io)
transfers (eintr ∷ io) = transfers io
transfers (failed ∷ io) = transfers io

-- No call fails.
abbrev pub NoFailure : List Io → Type 0
NoFailure [] = Unit
NoFailure (transfer n ∷ io) = NoFailure io
NoFailure (eintr ∷ io) = NoFailure io
NoFailure (failed ∷ io) = ⊥

-- The result of an append: its status, the file, and the events that are left.
pub record Appended : Type 0 where
  pub status : Status
  pub file : Bytes
  pub io : List Io

-- while (length > 0) { r = write(fd, data, length); ... } on a file opened with O_APPEND
unfoldable pub append_loop : List Io → Bytes → Bytes → Appended
append_loop io file [] = record { status = zero_status; file = file; io = io }
append_loop [] file (b ∷ bs) = record { status = out_of_events; file = file; io = [] }
append_loop (eintr ∷ io) file (b ∷ bs) = append_loop io file (b ∷ bs)
append_loop (failed ∷ io) file (b ∷ bs) = record { status = minus_one; file = file; io = io }
append_loop (transfer n ∷ io) file (b ∷ bs) =
    let r = min (suc n) (length (b ∷ bs)) in
    append_loop io (file ++ take r (b ∷ bs)) (drop r (b ∷ bs))

-- write(2) on a closed descriptor fails with EBADF, whatever the kernel would have done.
unfoldable pub write_closed : List Io → Bytes → Bytes → Appended
write_closed io file [] = record { status = zero_status; file = file; io = io }
write_closed io file (b ∷ bs) = record { status = minus_one; file = file; io = io }

-- int FileAppend(int fd, const char *data, size_t length)
unfoldable pub file_append : Fd → List Io → Bytes → Bytes → Appended
unfolding append_loop write_closed
file_append negative io file value = record { status = minus_one; file = file; io = io }
file_append closed io file value = write_closed io file value
file_append opened io file value = append_loop io file value
