-- ===== src/Race/Live/Fetching.antt =====
-- `Read` on a well formed bucket answers with the value that is stored under the key.
use nvm_kv.Prelude.{
  ℕ, zero, suc, ◌+◌, ◌-◌, ◌%◌, ◌^◌, ◌≤◌, ◌≡◌, refl, sym, ap, ◌∙◌, arith, List, [], ◌∷◌, ◌++◌,
  length, Bytes, true, false, Option, none, some, min, take, drop, length-append, append-nil,
  append_assoc, inl, inr, Option-cases, le→leb, length_chunk, chunk_and_rest,
}
use nvm_kv.Polar.{PolarString, to_string}
use nvm_kv.OrdMap.{find}
use nvm_kv.Posix.{Io, transfer, eintr, failed, opened, NoFailure, transfers, zero_status}
use nvm_kv.Engine.{RetCode, succ, not_found, Run, ok, ◌>>=◌}
use nvm_kv.Race.Bucket.{Bucket, Location, load_location, mutex_unlock}
use nvm_kv.Race.Reading.{
  ReadLoop, Answer, read_buf_size, read_loop, read_bytes, finish_read, get_string_from_location,
  read_found, read,
}
use nvm_kv.Race.Live.{slice, at_pointer, view, IsInside, IsValid}
use nvm_kv.Race.Live.Writing.{mutex_lock_free}

-- The loop has put `bytes` behind `buf`, and has moved the file offset by as much.
pub record Fetched (io : List Io) (buf bytes : Bytes) (position : ℕ) (r : ReadLoop) : Type 0 where
  pub status : r.status ≡ zero_status
  pub buf_eq : r.buf ≡ buf ++ bytes
  pub position_eq : r.position ≡ position + length bytes
  pub no_failure : NoFailure r.io
  pub spent : transfers io ≤ transfers r.io + length bytes

module _ (file : Bytes) where
  pub read_loop-Fetched :
      (io : List Io) (position : ℕ) (buf : Bytes) (n : ℕ)
      → NoFailure io
      → n ≤ transfers io
      → position + n ≤ length file
      → length buf + n ≤ read_buf_size
      → (r : ReadLoop) × (read_loop io file position buf n ≡ ok r)
        × Fetched io buf (take n (drop position file)) position r
  unfolding read_loop
  read_loop-Fetched io position buf zero good enough inside fits = (
    record { status = zero_status; buf = buf; position = position; io = io },
    refl,
    record {
      status = refl;
      buf_eq = sym (append-nil buf);
      position_eq = omega arith;
      no_failure = good;
      spent = omega arith;
    },
  )
  read_loop-Fetched [] position buf (suc n) good enough inside fits = elim enough [ ]
  read_loop-Fetched (eintr ∷ io) position buf (suc n) good enough inside fits =
      let (r, e, f) = read_loop-Fetched io position buf (suc n) good enough inside fits in
      (
        r,
        e,
        record {
          status = f.status;
          buf_eq = f.buf_eq;
          position_eq = f.position_eq;
          no_failure = f.no_failure;
          spent = f.spent;
        },
      )
  read_loop-Fetched (failed ∷ io) position buf (suc n) good enough inside fits = absurd good
  read_loop-Fetched (transfer k ∷ io) position buf (suc n) good enough inside fits =
      let m : ℕ = min (suc k) (suc n) in
      let chunk : Bytes = take m (drop position file) in
      let e : length chunk ≡ m = length_chunk file position m (omega arith) in
      let (r, run, f) =
        read_loop-Fetched io (position + length chunk) (buf ++ chunk) (suc n - length chunk) good
          (omega (arith, e)) (omega (arith, e)) (omega (arith, e, length-append {0} buf chunk)) in
      let whole : length (take (suc n) (drop position file)) ≡ suc n =
        length_chunk file position (suc n) inside in
      let rest : Bytes = take (suc n - length chunk) (drop (position + length chunk) file) in
      let e' : length rest ≡ suc n - length chunk =
        length_chunk file (position + length chunk) (suc n - length chunk) (omega (arith, e)) in
      (
        r,
        rw (le→leb (length buf + length chunk) read_buf_size (omega (arith, e))) run,
        record {
          status = f.status;
          buf_eq =
              f.buf_eq
              ∙ append_assoc buf chunk rest
              ∙ ap (λ t. buf ++ t) (chunk_and_rest file position m (suc n) (omega arith) e);
          position_eq = omega (arith, f.position_eq, e, e', whole);
          no_failure = f.no_failure;
          spent = omega (arith, f.spent, e, e', whole);
        },
      )

read_bytes_opened :
    (f : Bucket) (io : List Io) (loc : Location)
    → f.data_fd ≡ opened
    → loc.len ≤ read_buf_size
    → read_bytes f.data_fd io f.data_file loc.offset (loc.len % 2 ^ 32)
      ≡ read_loop io f.data_file loc.offset [] loc.len
unfolding read_bytes
read_bytes_opened f io loc is_open h =
    let small : loc.len % 2 ^ 32 ≡ loc.len = omega arith in
    ap (λ fd. read_bytes fd io f.data_file loc.offset (loc.len % 2 ^ 32)) is_open
    ∙ ap (λ n. read_loop io f.data_file loc.offset [] n) small

finish_read_ok :
    (f : Bucket) (loc : Location) (value : Bytes) (r : ReadLoop)
    → r.status ≡ zero_status
    → loc.len ≤ read_buf_size
    → finish_read f loc value r
      ≡ ok (record {
        ret = zero_status;
        value = r.buf;
        bucket = record f { position = r.position };
        io = r.io;
      })
unfolding finish_read
finish_read_ok f loc value r h k = ground (arith, h)

-- `get_string_from_location` reads the bytes that the location names.
pub get_string_from_location_ok :
    (io : List Io) (f : Bucket) (loc : Location) (value : Bytes)
    → f.data_fd ≡ opened
    → IsInside loc f.data_file
    → NoFailure io
    → loc.len ≤ transfers io
    → (r : ReadLoop) × (get_string_from_location io f loc value
        ≡ ok (record {
          ret = zero_status;
          value = slice loc f.data_file;
          bucket = record f { position = r.position };
          io = r.io;
        }))
      × Fetched io [] (slice loc f.data_file) loc.offset r
unfolding get_string_from_location
get_string_from_location_ok io f loc value is_open inside good enough =
    let (r, run, g) =
      read_loop-Fetched f.data_file io loc.offset [] loc.len good enough inside.inside
        (omega (arith, inside.readable)) in
    (
      r,
      ap (λ m. m >>= finish_read f loc value)
            (read_bytes_opened f io loc is_open inside.readable ∙ run)
          ∙ finish_read_ok f loc value r g.status inside.readable
          ∙ rw g.buf_eq,
      g,
    )

-- What `Read` answers, by the value that is stored: the answer, the string and the events.
abbrev pub answer_of : Option Bytes → Bytes → Bucket → List Io → Answer RetCode
answer_of none value f io = record { ret = not_found; value = value; bucket = f; io = io }
answer_of (some v) value f io = record { ret = succ; value = v; bucket = f; io = io }

abbrev pub Answered : List Io → Bucket → Option Bytes → Bytes → Run (Answer RetCode) → Type 0
Answered io f stored value run =
    (position : ℕ) × (io' : List Io) × (run
      ≡ ok (answer_of stored value (record f { position = position }) io'))
    × NoFailure io'
    × (transfers io ≤ transfers io' + read_buf_size)

read_found_ok :
    (io : List Io) (f : Bucket) (value : Bytes) (o : Option ℕ)
    → f.data_fd ≡ opened
    → ((p : ℕ) → o ≡ some p → IsInside (load_location f.key_mmap p) f.data_file)
    → NoFailure io
    → read_buf_size ≤ transfers io
    → Answered io f (at_pointer f o) value (read_found io f o value)
unfolding read_found
read_found_ok io f value none is_open inside good enough = (f.position, io, refl, good, omega arith)
read_found_ok io f value (some p) is_open inside good enough =
    let i = inside p refl in
    let (r, run, g) =
      get_string_from_location_ok io f (load_location f.key_mmap p) value is_open i good
        (omega (arith, i.readable)) in
    (
      r.position,
      r.io,
      rw run,
      g.no_failure,
      omega (
        arith,
        g.spent,
        i.readable,
        length_chunk f.data_file (load_location f.key_mmap p).offset
            (load_location f.key_mmap p).len i.inside,
      ),
    )

-- The bucket that `Read` leaves: only the file offset of the data file has moved.
abbrev pub moved : Bucket → ℕ → Bucket
moved f position = record f { position = position; locked = false }

unlocked :
    (f : Bucket) (value : Bytes) (position : ℕ) (io : List Io) (o : Option ℕ)
    → ok
        (record (answer_of
          (at_pointer (record f { locked = true }) o)
          value
          (record f { locked = true; position = position })
          io) {
            bucket =
                mutex_unlock
                  (answer_of
                    (at_pointer (record f { locked = true }) o)
                    value
                    (record f { locked = true; position = position })
                    io).bucket;
          })
      ≡ ok (answer_of (at_pointer f o) value (moved f position) io)
unfolding mutex_unlock
unlocked f value position io none = refl
unlocked f value position io (some p) = refl

-- `Read` answers `succ` and the stored value, or `not_found` and the string as it was.
pub read-answer_of :
    (io : List Io) (f : Bucket) (key : PolarString) (value : Bytes)
    → IsValid f
    → NoFailure io
    → read_buf_size ≤ transfers io
    → (position : ℕ) × (io' : List Io) × (read io f key value
        ≡ ok (answer_of (view f (to_string key)) value (moved f position) io'))
      × NoFailure io'
      × (transfers io ≤ transfers io' + read_buf_size)
unfolding read view mutex_unlock
read-answer_of io f key value valid good enough =
    let (p, io', e, g, t) =
      read_found_ok io (record f { locked = true }) value (find (to_string key) f.map) valid.is_open
        (λ p h. (valid.pointers (to_string key) p h).1) good enough in
    (
      p,
      io',
      rw (mutex_lock_free f valid.unlocked, e)
          (unlocked f value p io' (find (to_string key) f.map)),
      g,
      t,
    )

pub moved-IsValid : (f : Bucket) (position : ℕ) → IsValid f → IsValid (moved f position)
moved-IsValid f position valid = record {
  unlocked = refl;
  is_open = valid.is_open;
  fits = valid.fits;
  counted = valid.counted;
  below_4g = valid.below_4g;
  pointers = valid.pointers;
}

pub view-moved :
    (f : Bucket) (position : ℕ) (key : Bytes) → view (moved f position) key ≡ view f key
unfolding view
view-moved f position key = elim (Option-cases (find key f.map)) [
  | inl e ↦ rw e
  | inr (p, e) ↦ rw e
]
