-- ===== src/Tests/LockExamples.antt =====
-- Two threads inside an engine_race of two buckets: one in `Range` over both, one in `Write`.
use nvm_kv.Prelude.{ℕ, zero, suc, ◌≤◌, ◌≡◌, ◌≢◌, refl, arith, [], ◌∷◌, none, some, update}
use nvm_kv.Polar.{of_string, at}
use nvm_kv.Race.Ranging.{lo_bucket, hi_bucket}
use nvm_kv.Race.Locking.{
  Call, write, range, locked_buckets, locking, done, Threads, pick, enter, acquire, init, Reach,
  start, later,
}
use nvm_kv.Race.Locking.Places.{Holds, IsCall}
use nvm_kv.Race.Locking.Invariant.{Holds-unique}
use nvm_kv.Race.Locking.Progress.{CanMove, Reach-CanMove}
use nvm_kv.Race.Locking.Rounds.{Finishes, most_steps, Reach-Finishes}

abbrev calls : ℕ → Call
calls zero = range (of_string []) (of_string [])
calls (suc t) = write (of_string (b'a' ∷ []))

calls-IsCall : (t : ℕ) → IsCall (calls t)
unfolding at of_string
calls-IsCall zero = (omega arith, omega arith)
calls-IsCall (suc t) = omega arith

abbrev entered : Threads
entered = record { owner = λ i. none; pc = update (init calls).pc 0 (locking 0 0 1) }

-- `Range` has locked the first bucket.
abbrev first_locked : Threads
first_locked = record {
  owner = update entered.owner 0 (some 0);
  pc = update entered.pc 0 (locking 0 1 1);
}

Reach-first : Reach 2 2 calls 2 first_locked
unfolding update locked_buckets lo_bucket hi_bucket of_string
Reach-first =
    later (later start (pick 0 (omega arith) (enter refl)))
      (pick 0 (omega arith) (acquire (omega arith) refl))

Holds-first : Holds (first_locked.pc 0) 0
unfolding update
Holds-first = (omega arith, omega arith)

Holds-unique_example : ◌≡◌ {A = ℕ} 0 0
Holds-unique_example =
    Holds-unique 2 2 calls 2 first_locked 0 0 0 (omega arith) (omega arith) calls-IsCall Reach-first
      Holds-first Holds-first

busy : first_locked.pc 1 ≢ done
unfolding update
busy h = cc

Reach-CanMove_example : CanMove 2 2 first_locked
Reach-CanMove_example =
    Reach-CanMove 2 2 calls 2 first_locked 1 (omega arith) (omega arith) calls-IsCall Reach-first
      (omega arith) busy

Reach-Finishes_example :
    (2 ≤ most_steps 2 2) × Finishes 2 2 calls (omega arith) (omega arith) calls-IsCall first_locked
Reach-Finishes_example =
    Reach-Finishes 2 2 calls (omega arith) (omega arith) calls-IsCall 2 first_locked Reach-first
