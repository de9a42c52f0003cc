-- ===== src/Tests/SessionExamples.antt =====
-- A session of engine_race over 64 buckets, with two writes of one key.
use nvm_kv.Prelude.{ℕ, zero, suc, ◌≡◌, refl, ap, arith, List, [], ◌∷◌, some, true, Bytes}
use nvm_kv.Posix.{Io, transfer, NoFailure, transfers}
use nvm_kv.Race.Reading.{read_buf_size}
use nvm_kv.Race.Opening.{Calls}
use nvm_kv.Race.Log.Reopening.{Works}
use nvm_kv.Race.Session.{Pairs, AllFit}
use nvm_kv.Race.Session.Creating.{Creates}
use nvm_kv.Race.Session.Outcome.{Remembers, read-write_all}

abbrev key₁ : Bytes
key₁ = b'a' ∷ b'b' ∷ []

abbrev value₁ : Bytes
value₁ = b'x' ∷ []

abbrev value₂ : Bytes
value₂ = b'y' ∷ b'z' ∷ []

abbrev pairs : Pairs
pairs = (key₁, value₁) ∷ (value₂, value₁) ∷ (key₁, value₂) ∷ []

abbrev calls : ℕ → Calls
calls j = record {
  index_fd = some (suc j);
  create_fd = some (suc j);
  data_file_fd = some (suc j);
  fallocate_ok = true;
  mmap_ok = true;
}

creates : (j : ℕ) → Creates (calls j)
creates j = record {
  index_number = suc j;
  create_fd = refl;
  data_number = suc j;
  data_file_fd = refl;
  fallocate_ok = refl;
  mmap_ok = refl;
}

works : (j : ℕ) → Works (calls j)
works j = record {
  index_number = j;
  index_fd = refl;
  data_number = suc j;
  data_file_fd = refl;
  mmap_ok = refl;
}

fit : AllFit pairs
fit = (
  record {
    nonempty = omega arith;
    byte = omega arith;
    buffer = omega arith;
    readable = omega arith;
  },
  (
    record {
      nonempty = omega arith;
      byte = omega arith;
      buffer = omega arith;
      readable = omega arith;
    },
    (
      record {
        nonempty = omega arith;
        byte = omega arith;
        buffer = omega arith;
        readable = omega arith;
      },
      tt,
    ),
  ),
)

abbrev io : ℕ → List Io
io zero = []
io (suc n) = transfer 0 ∷ io n

io-NoFailure : (n : ℕ) → NoFailure (io n)
io-NoFailure zero = tt
io-NoFailure (suc n) = io-NoFailure n

transfers-io : (n : ℕ) → transfers (io n) ≡ n
transfers-io zero = refl
transfers-io (suc n) = ap suc (transfers-io n)

read-write_all_example : Remembers calls calls 64 [] pairs (io 4) (io read_buf_size) key₁ []
read-write_all_example =
    read-write_all calls calls 64 [] pairs (io 4) (io read_buf_size) key₁ [] creates works
      (omega arith) fit (omega arith) (omega arith) (io-NoFailure 4) (omega (arith, transfers-io 4))
      (omega arith) (io-NoFailure read_buf_size) (omega (arith, transfers-io read_buf_size))
