-- ===== src/Tth/Ending.antt =====
-- The loop of `read_index_file` ends.
use mathlib.Core.Option.{some-injective}
use nvm_kv.Prelude.{
  ℕ, zero, suc, ◌+◌, ◌-◌, ◌^◌, ◌*◌, ◌≤◌, ◌<◌, ◌≡◌, refl, sym, ap, ◌∙◌, arith, min, Option, none,
  some, List, [], ◌∷◌, Bool, true, false, leb, ltb, ◌==◌, if◌then◌else◌, length, Bytes, load,
  decode_le, length-load,
}
use nvm_kv.OrdMap.{OrdMap, insert_or_assign}
use nvm_kv.Posix.{Io, transfer, eintr, failed}
use nvm_kv.Engine.{
  RetCode, succ, io_error, Run, ok, fault, stuck, ◌>>=◌, ◌>>◌, guard, outside_array,
}
use nvm_kv.Tth.Bucket.{Location, StoredFile, location_sz, read_some, c_string}
use nvm_kv.Tth.Indexing.{
  Indexed, Next, key_buf_size, location_at, read_location, read_key, read_index_file,
}

-- The call comes to an end: with an answer, or in undefined behaviour.
abbrev pub Ends {ℓ} : {A : Type ℓ} → Run A → Type 0
Ends (ok a) = Unit
Ends (fault e) = Unit
Ends stuck = ⊥

-- What one read(2) gives: a failure, or as many bytes as its answer says; it uses up one event.
record Got (io : List Io) (file : StoredFile) (p n : ℕ) (r : Run (Option Bytes × List Io))
    : Type 0 where
  result : Option Bytes
  left : List Io
  run : r ≡ ok (result, left)
  used : length left + 1 ≡ length io
  inside : (bs : Bytes) → result ≡ some bs → 0 < length bs → p + length bs ≤ file.size

read_some-Got :
    (io : List Io) (file : StoredFile) (p n : ℕ)
    → 0 < length io
    → Got io file p n (read_some io file p n)
unfolding read_some
read_some-Got [] file p n h = absurd (omega (arith, h))
read_some-Got (transfer k ∷ io) file p n h = record {
  result = some (load file.bytes p (min (suc k) (min n (file.size - p))));
  left = io;
  run = refl;
  used = omega arith;
  inside = λ bs e pos. omega (arith, pos, length_some bs e);
}
  where
    length_some :
        (bs : Bytes)
        → some (load file.bytes p (min (suc k) (min n (file.size - p)))) ≡ some bs
        → length bs ≡ min (suc k) (min n (file.size - p))
    length_some bs e =
        sym (ap length (some-injective _ _ e))
        ∙ length-load file.bytes p (min (suc k) (min n (file.size - p)))
read_some-Got (eintr ∷ io) file p n h = record {
  result = none;
  left = io;
  run = refl;
  used = omega arith;
  inside = λ bs e pos. cc;
}
read_some-Got (failed ∷ io) file p n h = record {
  result = none;
  left = io;
  run = refl;
  used = omega arith;
  inside = λ bs e pos. cc;
}

-- A test that two numbers are equal
eq_of_test : (a b : ℕ) → a == b ≡ true → a ≡ b
eq_of_test a b h = ground arith

Ends-guard :
    {A : Type 0} (b : Bool) (e : nvm_kv.Engine.Fault) (r : Run A) → Ends r → Ends (guard b e >> r)
Ends-guard true e r h = h
Ends-guard false e r h = tt

Ends-if :
    {A : Type 0} (b : Bool) (x y : Run A)
    → (b ≡ true → Ends x)
    → (b ≡ false → Ends y)
    → Ends (if b then x else y)
Ends-if true x y h k = h refl
Ends-if false x y h k = k refl

module _ (file : StoredFile) (index : OrdMap Location) (next : Next) where
  read_location-Ends :
      (io : List Io) (p : ℕ) (key : Bytes)
      → ((io' : List Io) (index' : OrdMap Location)
          → p + location_sz ≤ file.size
          → length io' + 1 ≡ length io
          → Ends (next (p + location_sz) index' io'))
      → 0 < length io
      → Ends (read_location io file p key index next)
  unfolding read_location
  read_location-Ends io p key ends h =
      let g = read_some-Got io file p location_sz h in
      rw g.run (after_read g.result g.left g.used g.inside)
    where
      after_read :
          (r : Option Bytes) (left : List Io)
          → length left + 1 ≡ length io
          → ((bs : Bytes) → r ≡ some bs → 0 < length bs → p + length bs ≤ file.size)
          → Ends (elim r as (λ r. Run Indexed) [
            | none ↦ ok (io_error, index, left)
            | some bs ↦
                if length bs == location_sz
                then next (p + location_sz) (insert_or_assign key (location_at bs) index) left
                else ok (io_error, index, left)
          ])
      after_read none left used inside = tt
      after_read (some bs) left used inside =
          Ends-if (length bs == location_sz) _ _
            (λ e.
              let whole : length bs ≡ location_sz = eq_of_test (length bs) location_sz e in
              ends left _ (omega (arith, inside bs refl (omega (arith, whole)), whole)) used)
            (λ e. tt)

  read_key-Ends :
      (io : List Io) (p sz : ℕ)
      → ((io' : List Io) (index' : OrdMap Location)
          → p + sz + location_sz ≤ file.size
          → length io' + 2 ≡ length io
          → Ends (next (p + sz + location_sz) index' io'))
      → 1 < length io
      → Ends (read_key io file p sz index next)
  unfolding read_key
  read_key-Ends io p sz ends h =
      let g = read_some-Got io file p sz (omega (arith, h)) in
      Ends-if (leb (2 ^ 31) sz) _ _ (λ e. Ends-if (sz == 2 ^ 32 - 1) _ _ (λ e. tt) (λ e. tt))
        (λ e. rw g.run (after_read g.result g.left g.used))
    where
      after_read :
          (r : Option Bytes) (left : List Io)
          → length left + 1 ≡ length io
          → Ends (elim r as (λ r. Run Indexed) [
            | none ↦ ok (io_error, index, left)
            | some bs ↦
                guard (leb (length bs) key_buf_size) outside_array
                >> (if length bs == sz
                    then (guard (ltb sz key_buf_size) outside_array
                        >> read_location left file (p + sz) (c_string bs) index next)
                    else ok (io_error, index, left))
          ])
      after_read none left used = tt
      after_read (some bs) left used = Ends-guard (leb (length bs) key_buf_size) outside_array _ (
          Ends-if (length bs == sz) _ _
            (λ e. Ends-guard (ltb sz key_buf_size) outside_array _ (
              read_location-Ends left (p + sz) (c_string bs)
                (λ io' index' inside spent. ends io' index' inside (omega (arith, spent, used)))
                (omega (arith, used, h))))
            (λ e. tt))

-- On any file and from any offset `read_index_file` of engine_tth ends, with an answer or in
-- undefined behaviour, with more rounds than there are bytes left in the file and more calls of
-- read(2), whatever they do, than three times as many.
pub read_index_file-Ends :
    (fuel : ℕ) (io : List Io) (file : StoredFile) (p : ℕ) (index : OrdMap Location)
    → file.size - p < fuel
    → 3 * (file.size - p) < length io
    → Ends (read_index_file fuel io file p index)
unfolding read_index_file
read_index_file-Ends zero io file p index lt enough = absurd (omega (arith, lt))
read_index_file-Ends (suc fuel) io file p index lt enough =
    let g = read_some-Got io file p 4 (omega (arith, enough)) in
    rw g.run (
      after_read g.result g.left g.used g.inside (λ io' p' index' lo hi spent.
        read_index_file-Ends fuel io' file p' index' (omega (arith, lt, lo, hi))
          (omega (arith, enough, lo, hi, spent))))
  where
    after_read :
        (r : Option Bytes) (left : List Io)
        → length left + 1 ≡ length io
        → ((bs : Bytes) → r ≡ some bs → 0 < length bs → p + length bs ≤ file.size)
        → ((io' : List Io) (p' : ℕ) (index' : OrdMap Location)
            → p + 20 ≤ p'
            → p' ≤ file.size
            → length io' + 3 ≡ length io
            → Ends (read_index_file fuel io' file p' index'))
        → Ends (elim r as (λ r. Run Indexed) [
          | none ↦ ok (io_error, index, left)
          | some bs ↦
              if length bs == 0
              then ok (succ, index, left)
              else (if length bs == 4
                  then (if decode_le bs == 0
                      then ok (succ, index, left)
                      else read_key left file
                          (p + 4)
                          (decode_le bs)
                          index
                          (λ p' index' io'. read_index_file fuel io' file p' index'))
                  else ok (io_error, index, left))
        ])
    after_read none left used inside again = tt
    after_read (some bs) left used inside again =
        Ends-if (length bs == 0) _ _ (λ e. tt)
          (λ e.
            Ends-if (length bs == 4) _ _
              (λ f.
                Ends-if (decode_le bs == 0) _ _ (λ h. tt)
                  (λ h.
                    let whole : length bs ≡ 4 = eq_of_test (length bs) 4 f in
                    let there : p + length bs ≤ file.size = inside bs refl (omega (arith, whole)) in
                    read_key-Ends file index _ left (p + 4) (decode_le bs)
                      (λ io' index' fits spent.
                        again io' (p + 4 + decode_le bs + location_sz) index' (omega arith) fits
                          (omega (arith, spent, used)))
                      (omega (arith, used, enough, there, whole))))
              (λ f. tt))
