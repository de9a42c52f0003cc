-- ===== src/Race/Locking/Places.antt =====
-- Where a thread stands, what it holds there, and what a step does to its counters.
use nvm_kv.Prelude.{
  ℕ, ◌+◌, ◌-◌, ◌/◌, ◌%◌, ◌≤◌, ◌<◌, ◌≡◌, refl, sym, ap, ◌∙◌, arith, max, Bool-cases, inl, inr,
}
use nvm_kv.Polar.{PolarString, HasFirst, byte_at, at_first}
use nvm_kv.Engine.{Run, ok}
use nvm_kv.Race.Routing.{num_per_bucket}
use nvm_kv.Race.Routing.Bounds.{which_bucket_ok}
use nvm_kv.Race.Ranging.{lo_bucket, hi_bucket, nonempty}
use nvm_kv.Race.Locking.{
  Call, write, read, range, locked_buckets, Pc, ready, locking, working, unlocking, done, Owners,
  Move, enter, acquire, all_locked, leave, release, finish,
}

-- The buckets whose mutex a thread holds by its place in the code
abbrev pub Holds : Pc → ℕ → Type 0
Holds (ready call) j = ⊥
Holds (locking lo i hi) j = (lo ≤ j) × (j < i)
Holds (working lo hi) j = (lo ≤ j) × (j ≤ hi)
Holds (unlocking i hi) j = (i ≤ j) × (j ≤ hi)
Holds done j = ⊥

-- The first byte of each key and bound can be read, and is a byte.
abbrev pub IsCall : Call → Type 0
IsCall (write key) = HasFirst key
IsCall (read key) = HasFirst key
IsCall (range lower upper) = HasFirst lower × HasFirst upper

-- The counters stay between the first bucket and the one behind the last.
abbrev pub Formed : ℕ → Pc → Type 0
Formed n (ready call) = IsCall call
Formed n (locking lo i hi) = (lo < n) × (hi < n) × (lo ≤ i) × (i ≤ max lo (hi + 1))
Formed n (working lo hi) = (lo < n) × (hi < n)
Formed n (unlocking i hi) = (i ≤ n) × (hi < n)
Formed n done = Unit

-- The buckets of a call exist.
lo_bucket_ok :
    (n : ℕ) (lower : PolarString)
    → 2 ≤ n
    → HasFirst lower
    → (lo : ℕ) × (lo_bucket n lower ≡ ok lo) × (lo < n)
unfolding lo_bucket
lo_bucket_ok n lower h b = elim (Bool-cases (nonempty lower)) [
  | inl e ↦
      let (w, small) = which_bucket_ok n (byte_at lower 0) h b.1 in
      (byte_at lower 0 / num_per_bucket n, rw (e, at_first lower b.0) w, small)
  | inr e ↦ (0, rw e refl, omega (arith, h))
]

hi_bucket_ok :
    (n : ℕ) (upper : PolarString)
    → 2 ≤ n
    → HasFirst upper
    → (hi : ℕ) × (hi_bucket n upper ≡ ok hi) × (hi < n)
unfolding hi_bucket
hi_bucket_ok n upper h b = elim (Bool-cases (nonempty upper)) [
  | inl e ↦
      let (w, small) = which_bucket_ok n (byte_at upper 0) h b.1 in
      (byte_at upper 0 / num_per_bucket n, rw (e, at_first upper b.0) w, small)
  | inr e ↦ ((n - 1) % 256, rw e refl, omega (arith, h))
]

pub locked_buckets_ok :
    (n : ℕ) (call : Call)
    → 2 ≤ n
    → IsCall call
    → (lo : ℕ) × (hi : ℕ) × (locked_buckets n call ≡ ok (lo, hi)) × (lo < n) × (hi < n)
unfolding locked_buckets
locked_buckets_ok n (write key) h b =
    let (w, small) = which_bucket_ok n (byte_at key 0) h b.1 in
    (_, _, rw (at_first key b.0, w) refl, small, small)
locked_buckets_ok n (read key) h b =
    let (w, small) = which_bucket_ok n (byte_at key 0) h b.1 in
    (_, _, rw (at_first key b.0, w) refl, small, small)
locked_buckets_ok n (range lower upper) h (b, c) =
    let (lo, p, q) = lo_bucket_ok n lower h b in
    let (hi, r, s) = hi_bucket_ok n upper h c in (lo, hi, rw (p, r) refl, q, s)

ok_pair : {a b c d : ℕ} → ◌≡◌ {A = Run (ℕ × ℕ)} (ok (a, b)) (ok (c, d)) → (a ≡ c) × (b ≡ d)
ok_pair {a} {b} {c} {d} h = (ap first h, ap second h)
  where
    first : Run (ℕ × ℕ) → ℕ
    first (ok p) = p.0
    first _ = 0

    second : Run (ℕ × ℕ) → ℕ
    second (ok p) = p.1
    second _ = 0

-- A step keeps the counters where they belong.
pub Formed-Move :
    (n t : ℕ) (owner owner' : Owners) (p p' : Pc)
    → 2 ≤ n
    → n ≤ 255
    → Move n owner t p owner' p'
    → Formed n p
    → Formed n p'
Formed-Move n t owner owner' p p' h k (enter {call} {lo} {hi} e) f =
    let (lo', hi', e', a, b) = locked_buckets_ok n call h f in
    let (x, y) = ok_pair (sym e ∙ e') in
    (omega (arith, x, a), omega (arith, y, b), omega arith, omega arith)
Formed-Move n t owner owner' p p' h k (acquire le free) (a, b, c, d) =
    (a, b, omega (arith, le, b, c, k), omega (arith, le, b, k))
Formed-Move n t owner owner' p p' h k (all_locked lt) (a, b, c, d) = (a, b)
Formed-Move n t owner owner' p p' h k leave (a, b) = (omega (arith, a), b)
Formed-Move n t owner owner' p p' h k (release le) (a, b) = (omega (arith, le, b, k), b)
Formed-Move n t owner owner' p p' h k (finish lt) f = tt
