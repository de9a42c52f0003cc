-- ===== src/Race/Locking/Rounds.antt =====
-- Every run of the threads ends, with all calls done.
use native.Mathlib.Decide.{ℕ_discrete}
use nvm_kv.Prelude.{
  ℕ, zero, suc, ◌+◌, ◌-◌, ◌*◌, ◌≤◌, ◌<◌, ◌≡◌, ◌≢◌, refl, sym, ap, ◌∙◌, arith, ◌⊎◌, inl, inr, update,
  update_self, update_ne,
}
use nvm_kv.Race.Locking.{
  Call, Pc, ready, locking, working, unlocking, done, Owners, Move, enter, acquire, all_locked,
  leave, release, finish, Threads, Step, pick, Reach, start, later, Steps, stop, further,
}
use nvm_kv.Race.Locking.Places.{IsCall, Formed, Formed-Move}
use nvm_kv.Race.Locking.Invariant.{Reach-IsLocked}
use nvm_kv.Race.Locking.Progress.{Reach-CanMove}

-- How many steps a thread has left at most
abbrev rank : ℕ → Pc → ℕ
rank n (ready call) = 2 * n + 4
rank n (locking lo i hi) = (hi + 1 - i) + (hi + 1 - lo) + 3
rank n (working lo hi) = (hi + 1 - lo) + 2
rank n (unlocking i hi) = (hi + 1 - i) + 1
rank n done = 0

rank-Move :
    (n t : ℕ) (owner owner' : Owners) (p p' : Pc)
    → n ≤ 255
    → Move n owner t p owner' p'
    → Formed n p
    → Formed n p'
    → rank n p' < rank n p
rank-Move n t owner owner' p p' small (enter e) f (a, b, c, d) = omega (arith, a, b)
rank-Move n t owner owner' p p' small (acquire le free) (a, b, c, d) f' =
    omega (arith, le, b, small)
rank-Move n t owner owner' p p' small (all_locked lt) f f' = omega (arith, lt)
rank-Move n t owner owner' p p' small leave f f' = omega arith
rank-Move n t owner owner' p p' small (release le) (a, b) f' = omega (arith, le, b, small)
rank-Move n t owner owner' p p' small (finish lt) f f' = omega arith

-- How many steps the first `k` threads have left at most
abbrev total : ℕ → ℕ → (ℕ → Pc) → ℕ
total n zero pc = 0
total n (suc k) pc = total n k pc + rank n (pc k)

total-update_above :
    (n k : ℕ) (pc : ℕ → Pc) (t : ℕ) (p : Pc) → k ≤ t → total n k (update pc t p) ≡ total n k pc
total-update_above n zero pc t p h = refl
total-update_above n (suc k) pc t p h = rw (
  total-update_above n k pc t p (omega (arith, h)),
  update_ne pc t k p (λ e. absurd (omega (arith, e, h))),
)

total-update :
    (n k : ℕ) (pc : ℕ → Pc) (t : ℕ) (p : Pc)
    → t < k
    → total n k (update pc t p) + rank n (pc t) ≡ total n k pc + rank n p
total-update n zero pc t p h = absurd (omega (arith, h))
total-update n (suc k) pc t p h = elim (ℕ_discrete t k) [
  | yes e ↦
      let above : total n k (update pc t p) ≡ total n k pc =
        total-update_above n k pc t p (omega (arith, e)) in
      let new : rank n (update pc t p k) ≡ rank n p =
        ap (λ j. rank n (update pc t p j)) (sym e) ∙ ap (rank n) (update_self pc t p) in
      let old : rank n (pc k) ≡ rank n (pc t) = ap (λ j. rank n (pc j)) (sym e) in
      omega (arith, above, new, old)
  | no ne ↦
      let same_rank : rank n (update pc t p k) ≡ rank n (pc k) =
        ap (rank n) (update_ne pc t k p (λ e. ne (sym e))) in
      omega (arith, same_rank, total-update n k pc t p (omega (arith, h, ne)))
]

total-init : (n k : ℕ) (calls : ℕ → Call) → total n k (λ t. ready (calls t)) ≡ k * (2 * n + 4)
total-init n zero calls = omega arith
total-init n (suc k) calls = omega (arith, total-init n k calls)

abbrev pub most_steps : ℕ → ℕ → ℕ
most_steps n k = k * (2 * n + 4)

module _ (n k : ℕ) (calls : ℕ → Call) (several : 2 ≤ n) (small : n ≤ 255)
    (good : (t : ℕ) → IsCall (calls t)) where
  Step-total :
      (m : ℕ) (s s' : Threads)
      → Reach n k calls m s
      → Step n k s s'
      → total n k s'.pc + 1 ≤ total n k s.pc
  Step-total m s s' reach (pick t {owner} {p} below move) =
      let formed = (Reach-IsLocked n k calls m s several small good reach).formed t in
      let formed' = Formed-Move n t s.owner owner (s.pc t) p several small move formed in
      omega (
        arith,
        total-update n k s.pc t p below,
        rank-Move n t s.owner owner (s.pc t) p small move formed formed',
      )

  bounded : (m : ℕ) (s : Threads) → Reach n k calls m s → m + total n k s.pc ≤ most_steps n k
  bounded m s start = omega (arith, total-init n k calls)
  bounded m s (later {m = m'} {s = s₁} reach step) =
      omega (arith, bounded m' s₁ reach, Step-total m' s₁ s reach step)

  -- A thread that is not done, if there is one
  busy_or_done :
      (j : ℕ) (pc : ℕ → Pc) → ((t : ℕ) × (t < j) × (pc t ≢ done)) ⊎ ((t : ℕ) → t < j → pc t ≡ done)
  busy_or_done zero pc = inr (λ t h. absurd (omega (arith, h)))
  busy_or_done (suc j) pc = elim (done_or_not (pc j)) [
    | inr ne ↦ inl (j, omega arith, ne)
    | inl e ↦ elim (busy_or_done j pc) [
      | inl (t, b, ne) ↦ inl (t, omega (arith, b), ne)
      | inr all ↦ inr (λ t h. elim (ℕ_discrete t j) [
        | yes same ↦ ap pc same ∙ e
        | no other ↦ all t (omega (arith, h, other))
      ])
    ]
  ]
    where
      done_or_not : (p : Pc) → (p ≡ done) ⊎ (p ≢ done)
      done_or_not (ready call) = inr (λ h. cc)
      done_or_not (locking lo i hi) = inr (λ h. cc)
      done_or_not (working lo hi) = inr (λ h. cc)
      done_or_not (unlocking i hi) = inr (λ h. cc)
      done_or_not done = inl refl

  -- The threads go on to a state in which every call is done.
  abbrev pub Finishes : Threads → Type 0
  Finishes s = (s' : Threads) × Steps n k s s' × ((t : ℕ) → t < k → s'.pc t ≡ done)

  go_on : (fuel m : ℕ) (s : Threads) → most_steps n k - m < fuel → Reach n k calls m s → Finishes s
  go_on zero m s lt reach = absurd (omega (arith, lt))
  go_on (suc fuel) m s lt reach = elim (busy_or_done k s.pc) [
    | inr all ↦ (s, stop, all)
    | inl (t, below, busy) ↦
        let (s', step) = Reach-CanMove n k calls m s t several small good reach below busy in
        let (s'', steps, all) =
          go_on fuel (suc m) s' (omega (arith, lt, bounded (suc m) s' (later reach step)))
            (later reach step) in
        (s'', further step steps, all)
  ]

  -- The locking of threads that call `Write`, `Read` and `Range` of engine_race at the same time
  -- comes to an end, whatever the order of their steps, under the assumption that what a call
  -- does between its locks (its reads and writes of the files, and the visitor) ends: in the
  -- model that work is one step, which is always possible. In an engine of 2 to 255 buckets with
  -- `k` threads no run is longer than `k * (2 * n + 4)` steps of the locking, and every state
  -- that can be reached goes on to one in which each call is done. The first byte of each key and
  -- bound can be read and is below 256.
  pub Reach-Finishes :
      (m : ℕ) (s : Threads) → Reach n k calls m s → (m ≤ most_steps n k) × Finishes s
  Reach-Finishes m s reach =
      (omega (arith, bounded m s reach), go_on (suc (most_steps n k - m)) m s (omega arith) reach)
