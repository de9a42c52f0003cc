-- ===== src/Prelude/Regions.antt =====
-- A mapped region as a function from its offsets to bytes: `load` copies bytes out, `store` in.
use Prim.Native.Nat.{ℕ, zero, suc, ◌+◌, ◌-◌, ◌≤◌, ◌<◌}
use mathlib.Core.Path.{◌≡◌, refl, ap, ap₂, ◌∙◌}
use mathlib.Core.List.{[], ◌∷◌, ◌++◌}
use native.Mathlib.Omega.{arith}
use nvm_kv.Prelude.Tests.{ltb, if◌then◌else◌, lt→ltb, le→ltb}
use nvm_kv.Prelude.Lists.{length, get_or}
use nvm_kv.Prelude.ByteStrings.{Bytes}

abbrev pub Memory : Type 0
Memory = ℕ → ℕ

unfoldable pub load : Memory → ℕ → ℕ → Bytes
load m p zero = []
load m p (suc n) = m p ∷ load m (p + 1) n

-- memcpy(m + p, bs, length bs)
unfoldable pub store : Memory → ℕ → Bytes → Memory
store m p bs q = if ltb q p then m q else get_or bs (q - p) (m q)

pub length-load : (m : Memory) (p n : ℕ) → length (load m p n) ≡ n
unfolding load
length-load m p zero = refl
length-load m p (suc n) = ap suc (length-load m (p + 1) n)

pub load_congr :
    (m m' : Memory) (p n : ℕ)
    → ((q : ℕ) → p ≤ q → q < p + n → m q ≡ m' q)
    → load m p n ≡ load m' p n
unfolding load
load_congr m m' p zero h = refl
load_congr m m' p (suc n) h =
    ap₂ ◌∷◌ (h p (omega arith) (omega arith))
      (load_congr m m' (p + 1) n (λ q lo hi. h q (omega arith) (omega arith)))

pub get_or_past : (bs : Bytes) (i d : ℕ) → length bs ≤ i → get_or bs i d ≡ d
get_or_past [] i d h = refl
get_or_past (b ∷ bs) zero d h = elim h [ ]
get_or_past (b ∷ bs) (suc i) d h = get_or_past bs i d (omega arith)

pub store_outside :
    (m : Memory) (p : ℕ) (bs : Bytes) (q : ℕ) → p + length bs ≤ q → store m p bs q ≡ m q
unfolding store
store_outside m p bs q h =
    rw (le→ltb q p (omega arith)) (get_or_past bs (q - p) (m q) (omega arith))

pub store_below : (m : Memory) (p : ℕ) (bs : Bytes) (q : ℕ) → q < p → store m p bs q ≡ m q
unfolding store
store_below m p bs q h = rw (lt→ltb q p h)

pub load-store_before :
    (m : Memory) (p : ℕ) (bs : Bytes) (q n : ℕ) → q + n ≤ p → load (store m p bs) q n ≡ load m q n
load-store_before m p bs q n h = load_congr _ _ q n (λ r lo hi. store_below m p bs r (omega arith))

pub load-store_after :
    (m : Memory) (p : ℕ) (bs : Bytes) (q n : ℕ)
    → p + length bs ≤ q
    → load (store m p bs) q n ≡ load m q n
load-store_after m p bs q n h = load_congr _ _ q n (λ r lo hi. store_outside m p bs r (omega arith))

pub load-append : (m : Memory) (p a b : ℕ) → load m p (a + b) ≡ load m p a ++ load m (p + a) b
unfolding load
load-append m p zero b =
    let e : zero + b ≡ b = omega arith in let f : p + zero ≡ p = omega arith in rw (e, f)
load-append m p (suc a) b =
    let e : suc a + b ≡ suc (a + b) = omega arith in
    let f : p + suc a ≡ p + 1 + a = omega arith in
    rw (e, f) (ap (λ t. m p ∷ t) (load-append m (p + 1) a b))

store_head : (m : Memory) (p b : ℕ) (bs : Bytes) → store m p (b ∷ bs) p ≡ b
unfolding store
store_head m p b bs = let e : p - p ≡ zero = omega arith in rw (le→ltb p p (omega arith), e)

store_next :
    (m : Memory) (p b : ℕ) (bs : Bytes) (q : ℕ)
    → p + 1 ≤ q
    → store m p (b ∷ bs) q ≡ store m (p + 1) bs q
unfolding store
store_next m p b bs q h =
    let e : q - p ≡ suc (q - (p + 1)) = omega arith in
    rw (le→ltb q p (omega arith), le→ltb q (p + 1) h, e)

-- A copied string is read back, piece by piece.
pub load-store_prefix :
    (m : Memory) (p : ℕ) (bs rest : Bytes) → load (store m p (bs ++ rest)) p (length bs) ≡ bs
unfolding load
load-store_prefix m p [] rest = refl
load-store_prefix m p (b ∷ bs) rest = ap₂ ◌∷◌ (store_head m p b (bs ++ rest)) (
    load_congr _ _ (p + 1) (length bs) (λ q lo hi. store_next m p b (bs ++ rest) q lo)
    ∙ load-store_prefix m (p + 1) bs rest)

store_suffix :
    (m : Memory) (p : ℕ) (front bs : Bytes) (q : ℕ)
    → p + length front ≤ q
    → store m p (front ++ bs) q ≡ store m (p + length front) bs q
store_suffix m p [] bs q h = let e : p + 0 ≡ p = omega arith in rw e
store_suffix m p (b ∷ front) bs q h =
    let e : p + suc (length front) ≡ p + 1 + length front = omega arith in
    rw e (
      store_next m p b (front ++ bs) q (omega arith)
      ∙ store_suffix m (p + 1) front bs q (omega arith))

-- Any piece `bs` of a copied string is read back at its place.
pub load-store_piece :
    (m : Memory) (p : ℕ) (front bs rest : Bytes) (q n : ℕ)
    → p + length front ≡ q
    → length bs ≡ n
    → load (store m p (front ++ (bs ++ rest))) q n ≡ bs
load-store_piece m p front bs rest q n e f =
    rw (← e, ← f)
      (load_congr _ _ (p + length front) (length bs)
          (λ r lo hi. store_suffix m p front (bs ++ rest) r lo)
        ∙ load-store_prefix m (p + length front) bs rest)
