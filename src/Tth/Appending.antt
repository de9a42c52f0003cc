-- ===== src/Tth/Appending.antt =====
-- What `FileAppend` of engine_tth does to a file that it writes at the offset of its descriptor.
use nvm_kv.Prelude.{
  ℕ, suc, ◌+◌, ◌-◌, ◌≤◌, ◌≡◌, refl, sym, ap, ◌∙◌, arith, min, List, [], ◌∷◌, ◌++◌, length, take,
  drop, Bytes, append-nil, append_assoc, length-append, length-take, length-drop, take-append-drop,
  take-length_append, drop-length_append, drop-drop,
}
use nvm_kv.Posix.{Io, transfer, eintr, failed, zero_status, transfers, NoFailure}
use nvm_kv.Tth.Bucket.{zeros, overwrite, Placed, append_loop}

-- Bytes written inside a file or at its end
pub overwrite_inside :
    (file : Bytes) (p : ℕ) (bs : Bytes)
    → p ≤ length file
    → overwrite file p bs ≡ take p file ++ (bs ++ drop (p + length bs) file)
unfolding overwrite zeros
overwrite_inside file p bs h = let e : p - length file ≡ 0 = omega arith in rw (e, append-nil file)

overwrite_split :
    (file : Bytes) (p : ℕ) (bs : Bytes)
    → p ≤ length file
    → overwrite file p bs ≡ (take p file ++ bs) ++ drop (p + length bs) file
overwrite_split file p bs h =
    overwrite_inside file p bs h ∙ sym (append_assoc (take p file) bs (drop (p + length bs) file))

length-front :
    (file : Bytes) (p : ℕ) (bs : Bytes)
    → p ≤ length file
    → length (take p file ++ bs) ≡ p + length bs
length-front file p bs h = omega (arith, length-append (take p file) bs, length-take p file)

pub length-overwrite :
    (file : Bytes) (p : ℕ) (bs : Bytes)
    → p ≤ length file
    → p + length bs ≤ length (overwrite file p bs)
length-overwrite file p bs h = rw (overwrite_split file p bs h) (
    omega (
      arith,
      length-append (take p file ++ bs) (drop (p + length bs) file),
      length-front file p bs h,
    ))

write_behind :
    (front rest b : Bytes) (n : ℕ)
    → length front ≡ n
    → take n (front ++ rest) ++ (b ++ drop (n + length b) (front ++ rest))
      ≡ front ++ (b ++ drop (length b) rest)
write_behind front rest b n h = rw (← h) (
    ap (λ t. t ++ (b ++ drop (length front + length b) (front ++ rest)))
      (take-length_append front rest)
    ∙ ap (λ t. front ++ (b ++ t))
        (sym (drop-drop (length b) (length front) (front ++ rest))
          ∙ ap (drop (length b)) (drop-length_append front rest)))

pub overwrite-overwrite :
    (file : Bytes) (p : ℕ) (a b : Bytes)
    → p ≤ length file
    → overwrite (overwrite file p a) (p + length a) b ≡ overwrite file p (a ++ b)
overwrite-overwrite file p a b h =
    let rest : Bytes = drop (p + length a) file in
    overwrite_inside (overwrite file p a) (p + length a) b (length-overwrite file p a h)
    ∙ ap (λ t. take (p + length a) t ++ (b ++ drop (p + length a + length b) t))
        (overwrite_split file p a h)
    ∙ write_behind (take p file ++ a) rest b (p + length a) (length-front file p a h)
    ∙ append_assoc (take p file) a (b ++ drop (length b) rest)
    ∙ ap (λ t. take p file ++ t)
        (sym (append_assoc a b (drop (length b) rest))
          ∙ ap (λ t. (a ++ b) ++ t) (drop-drop (length b) (p + length a) file)
          ∙ ap (λ t. (a ++ b) ++ drop t file) (sum p a b))
    ∙ sym (overwrite_inside file p (a ++ b) h)
  where
    sum : (p : ℕ) (a b : Bytes) → p + length a + length b ≡ p + length (a ++ b)
    sum p a b = omega (arith, length-append a b)

zero_more : (p : ℕ) → p + 0 ≡ p
zero_more p = omega arith

pub overwrite_nothing : (file : Bytes) (p : ℕ) → p ≤ length file → overwrite file p [] ≡ file
overwrite_nothing file p h =
    overwrite_inside file p [] h
    ∙ ap (λ t. take p file ++ drop t file) (zero_more p)
    ∙ take-append-drop p file

-- The whole value is written at the offset, which moves behind it.
abbrev pub Puts : Bytes → ℕ → Bytes → List Io → Placed → Type 0
Puts file p value io a =
    (a.status ≡ zero_status)
    × (a.file ≡ overwrite file p value)
    × (a.position ≡ p + length value)
    × NoFailure a.io
    × (transfers io ≤ transfers a.io + length value)

pub append_loop-Puts :
    (io : List Io) (file : Bytes) (p : ℕ) (value : Bytes)
    → p ≤ length file
    → NoFailure io
    → length value ≤ transfers io
    → Puts file p value io (append_loop io file p value)
unfolding append_loop
append_loop-Puts io file p [] h good n =
    (refl, sym (overwrite_nothing file p h), omega arith, good, omega arith)
append_loop-Puts [] file p (b ∷ bs) h good n = elim n [ ]
append_loop-Puts (eintr ∷ io) file p (b ∷ bs) h good n =
    append_loop-Puts io file p (b ∷ bs) h good n
append_loop-Puts (failed ∷ io) file p (b ∷ bs) h good n = absurd good
append_loop-Puts (transfer k ∷ io) file p (b ∷ bs) h good n =
    let r : ℕ = min (suc k) (length (b ∷ bs)) in
    let piece : Bytes = take r (b ∷ bs) in
    let moved : length piece ≡ r = omega (arith, length-take r (b ∷ bs)) in
    let left : length (drop r (b ∷ bs)) + r ≡ length (b ∷ bs) =
      omega (arith, length-drop r (b ∷ bs)) in
    let (s, f, q, o, t) =
      append_loop-Puts io (overwrite file p piece) (p + r) (drop r (b ∷ bs))
        (omega (arith, length-overwrite file p piece h)) good (omega arith) in
    (
      s,
      f
          ∙ ap (λ t. overwrite (overwrite file p piece) (p + t) (drop r (b ∷ bs))) (sym moved)
          ∙ overwrite-overwrite file p piece (drop r (b ∷ bs)) h
          ∙ ap (overwrite file p) (take-append-drop r (b ∷ bs)),
      omega arith,
      o,
      omega arith,
    )
