-- ===== src/Race/Routing/Bounds.antt =====
-- Every byte has a bucket, and the buckets divide the bytes in order.
use native.Mathlib.Nat.{div-add-mod, mod-lt, div-lt_iff_lt-mul}
use nvm_kv.Prelude.{ℕ, zero, suc, ◌∙◌, ◌+◌, ◌-◌, ◌*◌, ◌/◌, ◌%◌, ◌≤◌, ◌<◌, ◌≡◌, arith, ◌==◌, false}
use nvm_kv.Engine.{ok}
use nvm_kv.Race.Routing.{num_per_bucket, which_bucket}

-- The quotient before it is stored in a u8: the bytes of `n` buckets of `q` bytes are all 256.
quotient_eq : (n : ℕ) → n * ((256 + n - 1) / n) + (256 + n - 1) % n ≡ 255 + n
quotient_eq n = div-add-mod (256 + n - 1) n ∙ omega arith

quotient_bounds :
    (n q r : ℕ) → 2 ≤ n → n * q + r ≡ 255 + n → r < n → (0 < q) × (q ≤ 128) × (255 < q * n)
quotient_bounds n zero r lo e h = (omega arith, omega arith, omega arith)
quotient_bounds n (suc q) r lo e h = (omega arith, grind arith, omega arith)

-- With 2 to 256 buckets or more, `num_per_bucket` is the quotient: nothing is lost in a u8.
pub num_per_bucket_bounds :
    (n : ℕ)
    → 2 ≤ n
    → (0 < num_per_bucket n) × (num_per_bucket n ≤ 128) × (255 < num_per_bucket n * n)
unfolding num_per_bucket
num_per_bucket_bounds n lo =
    let (pos, small, all) =
      quotient_bounds n ((256 + n - 1) / n) ((256 + n - 1) % n) lo (quotient_eq n)
        (mod-lt (256 + n - 1) (omega arith)) in
    let e : (256 + n - 1) / n % 256 ≡ (256 + n - 1) / n = omega arith in rw e (pos, small, all)

-- For an engine of at least 2 buckets and every byte, `which_bucket` divides by a nonzero
-- `num_per_bucket`, and its result is the number of a bucket.
pub which_bucket_ok :
    (n ch : ℕ)
    → 2 ≤ n
    → ch < 256
    → (which_bucket n ch ≡ ok (ch / num_per_bucket n)) × (ch / num_per_bucket n < n)
unfolding which_bucket
which_bucket_ok n ch lo small =
    let (pos, _, all) = num_per_bucket_bounds n lo in
    let e : ch % 256 ≡ ch = omega arith in
    (rw (ne_zero (num_per_bucket n) pos, e), (div-lt_iff_lt-mul pos).1 (omega arith))
  where
    ne_zero : (k : ℕ) → 0 < k → k == 0 ≡ false
    ne_zero k h = ground arith
