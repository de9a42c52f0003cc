-- ===== src/Race/Locking.antt =====
-- engine_race/engine_race.cc: the locks that `Write`, `Read` and `Range` take while several threads
-- are inside the engine. What they do to the buckets between the locks is left out here.
pub mod Places
pub mod Invariant
pub mod Progress
pub mod Rounds
use nvm_kv.Prelude.{ℕ, zero, suc, ◌+◌, ◌%◌, ◌≤◌, ◌<◌, ◌≡◌, Option, none, some, update}
use nvm_kv.Polar.{PolarString, at}
use nvm_kv.Engine.{Run, ok, ◌>>=◌}
use nvm_kv.Race.Routing.{which_bucket}
use nvm_kv.Race.Ranging.{lo_bucket, hi_bucket}

-- A call that a thread makes, with the arguments that decide on its locks
pub data Call : Type 0 where
  write : PolarString → Call
  read : PolarString → Call
  range : PolarString → PolarString → Call

-- The first and the last bucket that a call locks
unfoldable pub locked_buckets : ℕ → Call → Run (ℕ × ℕ)
locked_buckets n (write key) = do ch ← at key 0; id ← which_bucket n ch; ok (id, id)
locked_buckets n (read key) = do ch ← at key 0; id ← which_bucket n ch; ok (id, id)
locked_buckets n (range lower upper) = do
  lo_bid ← lo_bucket n lower
  hi_bid ← hi_bucket n upper
  ok (lo_bid, hi_bid)

-- Where a thread stands: before its call; in the loop of pthread_mutex_lock, from the first bucket to
-- the last with the counter `i`; between the loops; in the loop of pthread_mutex_unlock with the
-- counter `i`; or behind its call.
pub data Pc : Type 0 where
  ready : Call → Pc
  locking : (lo i hi : ℕ) → Pc
  working : (lo hi : ℕ) → Pc
  unlocking : (i hi : ℕ) → Pc
  done : Pc

-- The thread that holds the mutex of each bucket
abbrev pub Owners : Type 0
Owners = ℕ → Option ℕ

-- One step of thread `t` in an engine of `n` buckets: a mutex is taken only when nobody holds it. The
-- counters are u8.
pub data Move (n : ℕ) (owner : Owners) (t : ℕ) : Pc → Owners → Pc → Type 0 where
  enter :
      {call : Call} {lo hi : ℕ}
      → locked_buckets n call ≡ ok (lo, hi)
      → Move n owner t (ready call) owner (locking lo lo hi)
  acquire :
      {lo i hi : ℕ}
      → i ≤ hi
      → owner i ≡ none
      → Move n owner t (locking lo i hi) (update owner i (some t)) (locking lo ((i + 1) % 256) hi)
  all_locked : {lo i hi : ℕ} → hi < i → Move n owner t (locking lo i hi) owner (working lo hi)
  leave : {lo hi : ℕ} → Move n owner t (working lo hi) owner (unlocking lo hi)
  release :
      {i hi : ℕ}
      → i ≤ hi
      → Move n owner t (unlocking i hi) (update owner i none) (unlocking ((i + 1) % 256) hi)
  finish : {i hi : ℕ} → hi < i → Move n owner t (unlocking i hi) owner done

pub record Threads : Type 0 where
  pub owner : Owners
  pub pc : ℕ → Pc

-- One of the first `k` threads makes a step.
pub data Step (n k : ℕ) (s : Threads) : Threads → Type 0 where
  pick :
      (t : ℕ) {owner : Owners} {p : Pc}
      → t < k
      → Move n s.owner t (s.pc t) owner p
      → Step n k s (record { owner = owner; pc = update s.pc t p })

abbrev pub init : (ℕ → Call) → Threads
init calls = record { owner = λ i. none; pc = λ t. ready (calls t) }

-- The states after `m` steps, in any order of the threads
pub data Reach (n k : ℕ) (calls : ℕ → Call) : ℕ → Threads → Type 0 where
  start : Reach n k calls 0 (init calls)
  later :
      {m : ℕ} {s s' : Threads} → Reach n k calls m s → Step n k s s' → Reach n k calls (suc m) s'

-- Any number of steps from one state to another
pub data Steps (n k : ℕ) : Threads → Threads → Type 0 where
  stop : {s : Threads} → Steps n k s s
  further : {s s' s'' : Threads} → Step n k s s' → Steps n k s' s'' → Steps n k s s''
