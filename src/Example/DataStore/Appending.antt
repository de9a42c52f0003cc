-- ===== src/Example/DataStore/Appending.antt =====
-- `Append` on a well formed store, and `Read` of what it stored.
use native.Mathlib.Decide.{ℕ_discrete}
use nvm_kv.Prelude.{
  ℕ, ◌+◌, ◌%◌, ◌^◌, ◌≤◌, ◌<◌, ◌≡◌, ◌≢◌, refl, sym, ap, ◌∙◌, arith, List, [], ◌++◌, Option, none,
  some, true, ltb, length, take, drop, Bytes, Bool-cases, inl, inr, le→ltb, ==_refl, length-append,
  take-drop_append, take-drop_end,
}
use nvm_kv.Posix.{Io, opened, NoFailure, transfers, file_append}
use nvm_kv.Posix.Append.{file_append-Wrote}
use nvm_kv.Engine.{succ, ok}
use nvm_kv.Example.Util.{append_string}
use nvm_kv.Example.DataStore.{
  DataStore, Location, DataFiles, k_single_file_size, content_of, set_file, files_after,
  open_cur_file, switch_file, make_room, Stored, append_current, append,
}

-- The open file is the one that the next location names, and the next location is its end; the
-- files of larger numbers do not exist.
pub record IsValid (s : DataStore) : Type 0 where
  pub is_open : s.fd ≡ opened
  pub current : s.fd_no ≡ s.next_location.file_no
  pub counted : s.next_location.offset ≡ length (content_of (s.files s.next_location.file_no))
  pub within : s.next_location.offset ≤ k_single_file_size
  pub last : (n : ℕ) → s.next_location.file_no < n → s.files n ≡ none
  pub numbered : s.next_location.file_no + 1 < 2 ^ 32

-- The bytes of a file that a location names.
abbrev pub slice : DataFiles → Location → Bytes
slice files l = take l.len (drop l.offset (content_of (files l.file_no)))

-- A location inside an existing file.
pub record IsStored (files : DataFiles) (l : Location) : Type 0 where
  pub file : Bytes
  pub there : files l.file_no ≡ some file
  pub inside : l.offset + l.len ≤ length file

set_file_self :
    (files : DataFiles) (n : ℕ) (content : Bytes) → set_file files n content n ≡ some content
unfolding set_file
set_file_self files n content = rw (==_refl n)

set_file_ne :
    (files : DataFiles) (n m : ℕ) (content : Bytes) → n ≢ m → set_file files n content m ≡ files m
unfolding set_file
set_file_ne files n m content h = ground arith

-- A file that is made leaves the files that were there.
set_file_kept :
    (files : DataFiles) (n : ℕ) (l : Location) (file : Bytes)
    → files n ≡ none
    → files l.file_no ≡ some file
    → set_file files n [] l.file_no ≡ some file
set_file_kept files n l file fresh there =
    set_file_ne files n l.file_no [] (λ e. none-ne-some (sym fresh ∙ ap files e ∙ there)) ∙ there
  where
    none-ne-some : {a : Bytes} → ◌≡◌ {A = Option Bytes} none (some a) → ⊥
    none-ne-some h = cc

-- What `make_room` guarantees: a well formed store with room for the value, but for the last number.
record HasSpace (s s' : DataStore) (size : ℕ) : Type 0 where
  is_open : s'.fd ≡ opened
  current : s'.fd_no ≡ s'.next_location.file_no
  counted : s'.next_location.offset ≡ length (content_of (s'.files s'.next_location.file_no))
  space : s'.next_location.offset + size ≤ k_single_file_size
  last : (n : ℕ) → s'.next_location.file_no < n → s'.files n ≡ none
  number : s'.next_location.file_no ≤ s.next_location.file_no + 1
  kept :
      (l : Location) (file : Bytes) → s.files l.file_no ≡ some file → s'.files l.file_no ≡ some file

make_room-HasSpace :
    (s : DataStore) (size : ℕ)
    → IsValid s
    → size ≤ k_single_file_size
    → HasSpace s (make_room true s size) size
unfolding make_room switch_file open_cur_file
make_room-HasSpace s size valid h =
    elim (Bool-cases (ltb k_single_file_size (s.next_location.offset + size))) [
      | inl full ↦
          let next : ℕ = s.next_location.file_no + 1 in
          let e : (s.next_location.file_no + 1) % 2 ^ 32 ≡ s.next_location.file_no + 1 =
            omega (arith, valid.numbered) in
          let fresh : s.files (s.next_location.file_no + 1) ≡ none =
            valid.last (s.next_location.file_no + 1) (omega arith) in
          rw (full, e, fresh)
            (record {
              is_open = refl;
              current = refl;
              counted = rw (set_file_self s.files next []);
              space = omega arith;
              last =
                  λ n lt. set_file_ne s.files next n [] (omega arith) ∙ valid.last n (omega arith);
              number = omega arith;
              kept = λ l file there. set_file_kept s.files next l file fresh there;
            })
      | inr space ↦ rw space (record {
        is_open = valid.is_open;
        current = valid.current;
        counted = valid.counted;
        space = ground (arith, space);
        last = valid.last;
        number = omega arith;
        kept = λ l file e. e;
      })
    ]

-- What `Append` of a value answers when it succeeds: its location holds the value, and every
-- location that was stored before holds what it held.
pub record Keeps (s : DataStore) (value : Bytes) (a : Stored) : Type 0 where
  pub ret : a.ret ≡ succ
  pub stored : IsStored a.store.files a.location
  pub holds : slice a.store.files a.location ≡ value
  pub len : a.location.len ≡ length value
  pub old :
      (l : Location)
      → IsStored s.files l
      → IsStored a.store.files l × (slice a.store.files l ≡ slice s.files l)
  pub number : a.store.next_location.file_no ≤ s.next_location.file_no + 1
  pub valid : IsValid a.store

-- The answer of the append to the open file, once there is room.
abbrev appended : DataStore → Bytes → List Io → Stored
appended s value io = record {
  ret = succ;
  location = record {
    file_no = s.next_location.file_no;
    offset = s.next_location.offset;
    len = length value;
  };
  store = record s {
    files =
        set_file s.files s.next_location.file_no
          (content_of (s.files s.next_location.file_no) ++ value);
    next_location = record {
      file_no = s.next_location.file_no;
      offset = (s.next_location.offset + length value) % 2 ^ 32;
      len = s.next_location.len;
    };
  };
  io = io;
}

append_current_ok :
    (io : List Io) (s : DataStore) (value : Bytes) (location : Location)
    → s.fd ≡ opened
    → s.fd_no ≡ s.next_location.file_no
    → NoFailure io
    → length value ≤ transfers io
    → (io' : List Io) × (append_current io s value location ≡ ok (appended s value io'))
unfolding append_current append_string files_after
append_current_ok io s value location is_open current good enough =
    let file = content_of (s.files s.next_location.file_no) in
    let w = file_append-Wrote io file value good enough in
    ((file_append opened io file value).io, ground (arith, w.0, w.1))

module _ (s s' : DataStore) (value : Bytes) (io : List Io)
    (space : HasSpace s s' (length value)) where
  appended_file :
      (appended s' value io).store.files s'.next_location.file_no
      ≡ some (content_of (s'.files s'.next_location.file_no) ++ value)
  appended_file = set_file_self s'.files s'.next_location.file_no _

  appended-IsStored : IsStored (appended s' value io).store.files (appended s' value io).location
  appended-IsStored = record {
    file = content_of (s'.files s'.next_location.file_no) ++ value;
    there = appended_file;
    inside = omega (
      arith,
      space.counted,
      length-append {0} (content_of (s'.files s'.next_location.file_no)) value,
    );
  }

  appended_holds : slice (appended s' value io).store.files (appended s' value io).location ≡ value
  appended_holds =
      rw (appended_file, space.counted)
        (take-drop_end (content_of (s'.files s'.next_location.file_no)) value)

  appended_old :
      (l : Location)
      → IsStored s.files l
      → IsStored (appended s' value io).store.files l
        × (slice (appended s' value io).store.files l ≡ slice s.files l)
  appended_old l h = elim (ℕ_discrete s'.next_location.file_no l.file_no) [
    | yes e ↦
        let here : s'.files s'.next_location.file_no ≡ some h.file =
          ap s'.files e ∙ space.kept l h.file h.there in
        let there : (appended s' value io).store.files l.file_no ≡ some (h.file ++ value) =
          ap (appended s' value io).store.files (sym e)
          ∙ appended_file
          ∙ ap (λ (o : Option Bytes). some (content_of o ++ value)) here in
        (
          record {
            file = h.file ++ value;
            there = there;
            inside = omega (arith, h.inside, length-append {0} h.file value);
          },
          rw (there, h.there) (take-drop_append l.len l.offset h.file value h.inside),
        )
    | no away ↦
        let there : (appended s' value io).store.files l.file_no ≡ some h.file =
          set_file_ne s'.files s'.next_location.file_no l.file_no _ away
          ∙ space.kept l h.file h.there in
        (record { file = h.file; there = there; inside = h.inside }, rw (there, h.there))
  ]

  appended-IsValid : s.next_location.file_no + 2 < 2 ^ 32 → IsValid (appended s' value io).store
  appended-IsValid small = record {
    is_open = space.is_open;
    current = space.current;
    counted = rw appended_file (
        omega (
          arith,
          space.counted,
          space.space,
          length-append {0} (content_of (s'.files s'.next_location.file_no)) value,
        ));
    within = omega (arith, space.space);
    last =
        λ n lt. set_file_ne s'.files s'.next_location.file_no n _ (omega arith) ∙ space.last n lt;
    numbered = omega (arith, space.number);
  }

-- `Append` of a value of at most 100 MB to a well formed store whose file number is at least 2
-- below its limit, where a new file can be opened, no call of write(2) fails and as many of them
-- move bytes as the value has: it answers `succ` with a location of the value's length that holds
-- the value, every location stored before holds what it held, the file number grows by 1 at most,
-- and the store is well formed again.
pub append-Keeps :
    (io : List Io) (s : DataStore) (value : Bytes) (location : Location)
    → IsValid s
    → s.next_location.file_no + 2 < 2 ^ 32
    → length value ≤ k_single_file_size
    → NoFailure io
    → length value ≤ transfers io
    → (a : Stored) × (append io true s value location ≡ ok a) × Keeps s value a
unfolding append
append-Keeps io s value location valid number small good enough =
    let s' = make_room true s (length value) in
    let space = make_room-HasSpace s (length value) valid small in
    let (io', run) =
      append_current_ok io s' value location space.is_open space.current good enough in
    (
      appended s' value io',
      rw (le→ltb k_single_file_size (length value) small) run,
      record {
        ret = refl;
        stored = appended-IsStored s s' value io' space;
        holds = appended_holds s s' value io' space;
        len = refl;
        old = appended_old s s' value io' space;
        number = space.number;
        valid = appended-IsValid s s' value io' space number;
      },
    )
