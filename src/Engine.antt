-- ===== src/Engine.antt =====
-- include/engine.h: the result codes that every engine answers with, and the ways in which a call
-- can end without an answer.
use nvm_kv.Prelude.{Bool, true, false}

pub data RetCode : Type 0 where
  succ not_found corruption not_supported invalid_argument io_error incomplete timed_out full
        out_of_memory :
      RetCode

-- Undefined behaviour, or a call that the machine stops or that never returns.
pub data Fault : Type 0 where
  -- an access outside a mapped file or past its end
  outside_mapping : Fault
  -- an access outside an array on the stack, or outside a member array
  outside_array : Fault
  division_by_zero : Fault
  -- an iterator moved past the end of its container
  past_end : Fault
  -- a lock is taken that the caller holds already
  deadlock : Fault
  -- a pointer that was never set is used
  uninitialised : Fault
  -- the process ends itself
  exits : Fault

-- `stuck`: the events or the rounds given to the model ran out before the code returned.
pub data Run {ℓ} (A : Type ℓ) : Type ℓ where
  ok : A → Run A
  fault : Fault → Run A
  stuck : Run A

infixl 5 ◌>>=◌ ◌>>◌
abbrev pub ◌>>=◌ {ℓ κ} : {A : Type ℓ} {B : Type κ} → Run A → (A → Run B) → Run B
ok a >>= f = f a
fault e >>= f = fault e
stuck >>= f = stuck

abbrev pub ◌>>◌ {ℓ} : {B : Type ℓ} → Run (Unit {0}) → Run B → Run B
m >> k = m >>= λ _. k

-- An access that is allowed where the test holds.
abbrev pub guard : Bool → Fault → Run (Unit {0})
guard true e = ok tt
guard false e = fault e
