-- ===== src/Tth/Saving.antt =====
-- What the destructor of engine_tth writes to the index file, and `Open` on it.
use nvm_kv.Prelude.{
  ℕ, ◌+◌, ◌%◌, ◌^◌, ◌≤◌, ◌≡◌, refl, sym, ap, ◌∙◌, arith, inl, List, [], ◌∷◌, ◌++◌, length, take,
  get_or, All, Bytes, load, encode_le, length-encode_le, length-append, append_assoc, append-nil,
  drop-length_append, take-length_append,
}
use nvm_kv.Posix.{Io, NoFailure, transfers}
use nvm_kv.Engine.{Run, ok, ◌>>=◌}
use nvm_kv.Tth.Bucket.{stored, overwrite, append_loop, location_bytes, record_bytes, location_sz}
use nvm_kv.Tth.Closing.{Saving, append_saved, save_entries}
use nvm_kv.Tth.Appending.{
  append_loop-Puts, overwrite-overwrite, overwrite_nothing, length-overwrite,
}
use nvm_kv.Tth.Entries.{Entries, IsEntry, entry_end, Holds, length-location_bytes}
use nvm_kv.Tth.Live.Reading.{load-stored}

-- The bytes of the entries, as they follow each other in an index file
unfoldable pub all_bytes : Entries → Bytes
all_bytes [] = []
all_bytes (e ∷ es) = record_bytes e.0 e.1 ++ all_bytes es

regroup : (a b c d : Bytes) → a ++ (b ++ (c ++ d)) ≡ (a ++ (b ++ c)) ++ d
regroup a b c d = sym (append_assoc a (b ++ c) d ∙ ap (λ t. a ++ t) (append_assoc b c d))

-- Calls that write all of `bs` where the descriptor stands
pub record Saved (io : List Io) (s : Saving) (bs : Bytes) (r : Run (Saving × List Io))
    : Type 0 where
  pub after : Saving
  pub left : List Io
  pub run : r ≡ ok (after, left)
  pub file_eq : after.file ≡ overwrite s.file s.position bs
  pub position_eq : after.position ≡ s.position + length bs
  pub no_failure : NoFailure left
  pub spent : transfers io ≤ transfers left + length bs

append_saved-Saved :
    (io : List Io) (s : Saving) (bs : Bytes)
    → s.position ≤ length s.file
    → NoFailure io
    → length bs ≤ transfers io
    → Saved io s bs (append_saved io s bs)
unfolding append_saved
append_saved-Saved io s bs h good enough =
    let a = append_loop io s.file s.position bs in
    let (st, f, p, n, t) = append_loop-Puts io s.file s.position bs h good enough in
    record {
      after = record { file = a.file; position = a.position };
      left = a.io;
      run = ground (arith, st);
      file_eq = f;
      position_eq = p;
      no_failure = n;
      spent = t;
    }

module _ {io : List Io} {s : Saving} {bs : Bytes} {r : Run (Saving × List Io)} (x : Saved io s bs r)
    (h : s.position ≤ length s.file) where
  still_inside : x.after.position ≤ length x.after.file
  still_inside = rw (x.file_eq, x.position_eq) (length-overwrite s.file s.position bs h)

  -- Two writes one after the other are one.
  then-Saved :
      (k : Saving × List Io → Run (Saving × List Io)) (more : Bytes)
      → Saved x.left x.after more (k (x.after, x.left))
      → Saved io s (bs ++ more) (r >>= k)
  then-Saved k more y = record {
    after = y.after;
    left = y.left;
    run = ap (λ t. t >>= k) x.run ∙ y.run;
    file_eq =
        y.file_eq ∙ rw (x.file_eq, x.position_eq) (overwrite-overwrite s.file s.position bs more h);
    position_eq = omega (arith, y.position_eq, x.position_eq, length-append {0} bs more);
    no_failure = y.no_failure;
    spent = omega (arith, y.spent, x.spent, length-append {0} bs more);
  }

pub save_entries-Saved :
    (io : List Io) (es : Entries) (s : Saving)
    → s.position ≤ length s.file
    → NoFailure io
    → length (all_bytes es) ≤ transfers io
    → Saved io s (all_bytes es) (save_entries io es s)
unfolding save_entries all_bytes record_bytes
save_entries-Saved io [] s h good enough = record {
  after = s;
  left = io;
  run = refl;
  file_eq = sym (overwrite_nothing s.file s.position h);
  position_eq = omega arith;
  no_failure = good;
  spent = omega arith;
}
save_entries-Saved io (e ∷ es) s h good enough =
    let size : Bytes = encode_le 4 (length e.0 % 2 ^ 32) in
    let loc : Bytes = location_bytes e.1 in
    let n : length (size ++ (e.0 ++ (loc ++ all_bytes es))) ≤ transfers io =
      rw (regroup size e.0 loc (all_bytes es)) enough in
    let m : length (size ++ (e.0 ++ (loc ++ all_bytes es)))
        ≡ length size + (length e.0 + (length loc + length (all_bytes es))) =
      omega (
        arith,
        length-append {0} size (e.0 ++ (loc ++ all_bytes es)),
        length-append {0} e.0 (loc ++ all_bytes es),
        length-append {0} loc (all_bytes es),
      ) in
    let x = append_saved-Saved io s size h good (omega (arith, n, m)) in
    let y =
      append_saved-Saved x.left x.after e.0 (still_inside x h) x.no_failure
        (omega (arith, n, m, x.spent)) in
    let z =
      append_saved-Saved y.left y.after loc (still_inside y (still_inside x h)) y.no_failure
        (omega (arith, n, m, x.spent, y.spent)) in
    let inside = still_inside z (still_inside y (still_inside x h)) in
    let w =
      save_entries-Saved z.left es z.after inside z.no_failure
        (omega (arith, n, m, x.spent, y.spent, z.spent)) in
    rw⁻¹ (regroup size e.0 loc (all_bytes es)) (
      then-Saved x h _ (e.0 ++ (loc ++ all_bytes es)) (
        then-Saved y (still_inside x h) _ (loc ++ all_bytes es)
          (then-Saved z (still_inside y (still_inside x h)) _ (all_bytes es) w)))

-- The bytes of `b` in the middle of a file
load-middle :
    (file a b c : Bytes) (p n : ℕ)
    → file ≡ a ++ (b ++ c)
    → p ≡ length a
    → n ≡ length b
    → load (λ q. get_or file q 0) p n ≡ b
load-middle file a b c p n h e f =
    let long : p + n ≤ length file =
      rw h (omega (arith, e, f, length-append {0} a (b ++ c), length-append {0} b c)) in
    load-stored file p n long
    ∙ rw (h, e, f) (ap (take (length b)) (drop-length_append a (b ++ c)) ∙ take-length_append b c)

-- A file that ends in the bytes of entries holds them.
pub Holds-all_bytes :
    (file front : Bytes) (es : Entries) (p : ℕ)
    → file ≡ front ++ all_bytes es
    → p ≡ length front
    → All IsEntry es
    → Holds (stored file).bytes (length file) p es
unfolding all_bytes record_bytes
Holds-all_bytes file front [] p h e good = inl (rw (h, append-nil front) (omega (arith, e)))
Holds-all_bytes file front (e ∷ es) p h q (good, more) =
    let size : Bytes = encode_le 4 (length e.0 % 2 ^ 32) in
    let loc : Bytes = location_bytes e.1 in
    let n : length size ≡ 4 = length-encode_le 4 (length e.0 % 2 ^ 32) in
    let m : length loc ≡ location_sz = length-location_bytes e.1 in
    let at_size : file ≡ front ++ (size ++ (e.0 ++ (loc ++ all_bytes es))) =
      h ∙ ap (λ t. front ++ t) (sym (regroup size e.0 loc (all_bytes es))) in
    let at_key : file ≡ (front ++ size) ++ (e.0 ++ (loc ++ all_bytes es)) =
      at_size ∙ sym (append_assoc front size (e.0 ++ (loc ++ all_bytes es))) in
    let at_loc : file ≡ ((front ++ size) ++ e.0) ++ (loc ++ all_bytes es) =
      at_key ∙ sym (append_assoc (front ++ size) e.0 (loc ++ all_bytes es)) in
    let at_end : file ≡ (((front ++ size) ++ e.0) ++ loc) ++ all_bytes es =
      at_loc ∙ sym (append_assoc ((front ++ size) ++ e.0) loc (all_bytes es)) in
    let p₁ : p + 4 ≡ length (front ++ size) = omega (arith, q, n, length-append {0} front size) in
    let p₂ : p + 4 + length e.0 ≡ length ((front ++ size) ++ e.0) =
      omega (arith, p₁, length-append {0} (front ++ size) e.0) in
    let p₃ : entry_end p e ≡ length (((front ++ size) ++ e.0) ++ loc) =
      omega (arith, p₂, m, length-append {0} ((front ++ size) ++ e.0) loc) in
    (
      good,
      rw at_end
          (omega (arith, p₃, length-append {0} (((front ++ size) ++ e.0) ++ loc) (all_bytes es))),
      load-middle file front size (e.0 ++ (loc ++ all_bytes es)) p 4 at_size q (sym n),
      load-middle file (front ++ size) e.0 (loc ++ all_bytes es) (p + 4) (length e.0) at_key p₁
          refl,
      load-middle file ((front ++ size) ++ e.0) loc (all_bytes es) (p + 4 + length e.0) location_sz
          at_loc p₂ (sym m),
      Holds-all_bytes file (((front ++ size) ++ e.0) ++ loc) es (entry_end p e) at_end p₃ more,
    )
