-- ===== src/Race/Locking/Progress.antt =====
-- No state that can be reached is a deadlock.
use native.Mathlib.Decide.{dec_lt}
use nvm_kv.Prelude.{
  ℕ, zero, suc, ◌+◌, ◌-◌, ◌%◌, ◌≤◌, ◌<◌, ◌≡◌, ◌≢◌, refl, sym, arith, none, some, inl, inr,
  Option-cases, update,
}
use mathlib.Core.Path.{subst}
use nvm_kv.Race.Locking.{
  Call, Pc, ready, locking, working, unlocking, done, Move, enter, acquire, all_locked, leave,
  release, finish, Threads, Step, pick, Reach,
}
use nvm_kv.Race.Locking.Places.{Holds, IsCall, Formed, locked_buckets_ok}
use nvm_kv.Race.Locking.Invariant.{IsLocked, Reach-IsLocked}

-- Some thread can make a step.
abbrev pub CanMove : ℕ → ℕ → Threads → Type 0
CanMove n k s = (s' : Threads) × Step n k s s'

module _ (n k : ℕ) (s : Threads) (several : 2 ≤ n) (inv : IsLocked n k s) where
  -- A thread that holds a bucket moves, or it waits for a later bucket.
  holder-CanMove :
      (u i : ℕ) (p : Pc)
      → u < k
      → s.pc u ≡ p
      → Holds p i
      → ((lo i' hi : ℕ) → s.pc u ≡ locking lo i' hi → i < i' → CanMove n k s)
      → CanMove n k s
  holder-CanMove u i (ready call) below at h again = absurd h
  holder-CanMove u i (locking lo i' hi) below at (l, h) again = again lo i' hi at h
  holder-CanMove u i (working lo hi) below at h again =
      (_, pick u below (subst (λ p. Move n s.owner u p s.owner (unlocking lo hi)) (sym at) leave))
  holder-CanMove u i (unlocking i' hi) below at (l, h) again = (
    _,
    pick u below (
        subst (λ p. Move n s.owner u p (update s.owner i' none) (unlocking ((i' + 1) % 256) hi))
          (sym at) (release (omega (arith, l, h)))),
  )
  holder-CanMove u i done below at h again = absurd h

  waiting-CanMove :
      (fuel t lo i hi : ℕ) → t < k → s.pc t ≡ locking lo i hi → n - i < fuel → CanMove n k s
  waiting-CanMove zero t lo i hi below at lt = absurd (omega (arith, lt))
  waiting-CanMove (suc fuel) t lo i hi below at lt = elim (dec_lt hi i) [
    | yes past ↦ (
      _,
      pick t below
          (subst (λ p. Move n s.owner t p s.owner (working lo hi)) (sym at) (all_locked past)),
    )
    | no not_past ↦ elim (Option-cases (s.owner i)) [
      | inl free ↦ (
        _,
        pick t below (
            subst
              (λ p. Move n s.owner t p (update s.owner i (some t)) (locking lo ((i + 1) % 256) hi))
              (sym at) (acquire (omega (arith, not_past)) free)),
      )
      | inr (u, taken) ↦
          let (h, b) = inv.held u i taken in
          let (_, small, _, _) = subst (Formed n) at (inv.formed t) in
          let inside : i < n = omega (arith, not_past, small) in
          holder-CanMove u i (s.pc u) b refl h (λ lo' i' hi' at' later.
            waiting-CanMove fuel u lo' i' hi' b at' (omega (arith, later, lt, inside)))
    ]
  ]

  thread-CanMove : (t : ℕ) (p : Pc) → t < k → s.pc t ≡ p → p ≢ done → CanMove n k s
  thread-CanMove t (ready call) below at busy =
      let (lo, hi, e, _, _) =
        locked_buckets_ok n call several (subst (Formed n) at (inv.formed t)) in
      (
        _,
        pick t below
            (subst (λ p. Move n s.owner t p s.owner (locking lo lo hi)) (sym at) (enter e)),
      )
  thread-CanMove t (locking lo i hi) below at busy =
      waiting-CanMove (suc n) t lo i hi below at (omega arith)
  thread-CanMove t (working lo hi) below at busy =
      (_, pick t below (subst (λ p. Move n s.owner t p s.owner (unlocking lo hi)) (sym at) leave))
  thread-CanMove t (unlocking i hi) below at busy = elim (dec_lt hi i) [
    | yes past ↦
        (_, pick t below (subst (λ p. Move n s.owner t p s.owner done) (sym at) (finish past)))
    | no not_past ↦ (
      _,
      pick t below (
          subst (λ p. Move n s.owner t p (update s.owner i none) (unlocking ((i + 1) % 256) hi))
            (sym at) (release (omega (arith, not_past)))),
    )
  ]
  thread-CanMove t done below at busy = absurd (busy refl)

-- The locking of engine_race has no deadlock: in every state that threads in `Write`, `Read` and
-- `Range` can reach in an engine of 2 to 255 buckets, if one of them is not done, some thread can
-- make a step, where the work of a call between its locks is a step that is always possible. The
-- first byte of each key and bound can be read and is below 256.
pub Reach-CanMove :
    (n k : ℕ) (calls : ℕ → Call) (m : ℕ) (s : Threads) (t : ℕ)
    → 2 ≤ n
    → n ≤ 255
    → ((t : ℕ) → IsCall (calls t))
    → Reach n k calls m s
    → t < k
    → s.pc t ≢ done
    → CanMove n k s
Reach-CanMove n k calls m s t several small good reach below busy =
    thread-CanMove n k s several (Reach-IsLocked n k calls m s several small good reach) t (s.pc t)
      below refl busy
