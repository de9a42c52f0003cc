-- ===== src/Tests/DirectoryExamples.antt =====
-- The lock file on a small system: a lock is taken with fcntl, and released with fcntl or close.
use nvm_kv.Prelude.{
  ℕ, ◌≡◌, ◌≢◌, refl, ap, sym, ◌∙◌, arith, [], ◌∷◌, Option, none, some, true, ◌==◌, ◌&&◌, ==_refl,
  if◌then◌else◌, Bytes, same, same_refl, eq_of_same, inl, inr, Bool-cases,
}
use mathlib.Core.Option.{some-injective}
use nvm_kv.Example.Directory.{LockType, write_lock, unlock, Answer, gave, refused, System}
use nvm_kv.Example.Directory.Excluding.{PosixLocks, Excludes, lock_file-Excludes}

record Machine : Type 0 where
  names : ℕ → ℕ → Bytes
  owner : Bytes → Option ℕ

abbrev set_owner : Bytes → Option ℕ → Machine → Machine
set_owner name o s = record s { owner = λ other. if same other name then o else s.owner other }

abbrev releasing : ℕ → Bytes → Option ℕ → Machine → Machine
releasing p name none s = s
releasing p name (some q) s = if q == p then set_owner name none s else s

abbrev locking : ℕ → Bytes → Option ℕ → Machine → Answer × Machine
locking p name none s = (gave 0, set_owner name (some p) s)
locking p name (some q) s = if q == p then (gave 0, s) else (refused 11, s)

abbrev release : ℕ → ℕ → Machine → Machine
release p fd s = releasing p (s.names p fd) (s.owner (s.names p fd)) s

abbrev fcntl : ℕ → ℕ → LockType → Machine → Answer × Machine
fcntl p fd write_lock s = locking p (s.names p fd) (s.owner (s.names p fd)) s
fcntl p fd unlock s = (gave 0, release p fd s)

abbrev with_descriptor : ℕ → Bytes → Machine → Machine
with_descriptor p name s = record s {
  names = λ q fd. if q == p && fd == 5 then name else s.names q fd;
}

abbrev machine : System Machine
machine = record {
  open_file = λ p name s. (gave 5, with_descriptor p name s);
  fcntl = fcntl;
  close = release;
}

releasing_names :
    (p : ℕ) (name : Bytes) (o : Option ℕ) (s : Machine) (q fd : ℕ)
    → (releasing p name o s).names q fd ≡ s.names q fd
releasing_names p name none s q fd = refl
releasing_names p name (some r) s q fd = ground arith

locking_names :
    (p : ℕ) (name : Bytes) (o : Option ℕ) (s : Machine) (q fd : ℕ)
    → (locking p name o s).1.names q fd ≡ s.names q fd
locking_names p name none s q fd = refl
locking_names p name (some r) s q fd = ground arith

fcntl_names :
    (p q fd fd' : ℕ) (type : LockType) (s : Machine)
    → (fcntl p fd type s).1.names q fd' ≡ s.names q fd'
fcntl_names p q fd fd' write_lock s = locking_names p _ _ s q fd'
fcntl_names p q fd fd' unlock s = releasing_names p _ _ s q fd'

releasing_free :
    (p : ℕ) (name other : Bytes) (o : Option ℕ) (s : Machine)
    → s.owner other ≡ none
    → (releasing p name o s).owner other ≡ none
releasing_free p name other none s h = h
releasing_free p name other (some r) s h = ground (arith, h)

releasing_others :
    (p q : ℕ) (name other : Bytes) (o : Option ℕ) (s : Machine)
    → p ≢ q
    → s.owner name ≡ o
    → s.owner other ≡ some q
    → (releasing p name o s).owner other ≡ some q
releasing_others p q name other none s away e h = h
releasing_others p q name other (some r) s away e h = elim (Bool-cases (r == p)) [
  | inr other_owner ↦ rw other_owner h
  | inl owns ↦ elim (Bool-cases (same other name)) [
    | inr apart ↦ rw (owns, apart) h
    | inl there ↦ absurd (mine owns there)
  ]
]
  where
    mine : (r == p) ≡ true → same other name ≡ true → ⊥
    mine owns there =
        let e' : r ≡ q =
          some-injective _ _ (sym e ∙ ap s.owner (sym (eq_of_same other name there)) ∙ h) in
        away (ground (arith, owns, e'))

releasing_own :
    (p : ℕ) (name : Bytes) (o : Option ℕ) (s : Machine)
    → o ≡ some p
    → (releasing p name o s).owner name ≡ none
releasing_own p name o s h = rw (h, ==_refl p, same_refl name)

abbrev number_of : Answer → ℕ
number_of (gave n) = n
number_of (refused errno) = 0

abbrev posix : PosixLocks machine
posix = record {
  name_of = λ s p fd. s.names p fd;
  owner = λ s name. s.owner name;
  open_names = open_names;
  open_others = open_others;
  open_locks = λ p name other s. refl;
  lock_free = lock_free;
  lock_taken = lock_taken;
  fcntl_names = fcntl_names;
  unlock_own = λ p fd s h. releasing_own p (s.names p fd) (s.owner (s.names p fd)) s h;
  close_free = λ p fd name s h. releasing_free p (s.names p fd) name (s.owner (s.names p fd)) s h;
  close_others = λ p q fd name s away h.
      releasing_others p q (s.names p fd) name (s.owner (s.names p fd)) s away refl h;
  close_names =
      λ p q fd fd' s away. releasing_names p (s.names p fd) (s.owner (s.names p fd)) s q fd';
}
  where
    open_names :
        (p fd : ℕ) (name : Bytes) (s s' : Machine)
        → ◌≡◌ {A = Answer × Machine} (gave 5, with_descriptor p name s) (gave fd, s')
        → s'.names p fd ≡ name
    open_names p fd name s s' e =
        let number : 5 ≡ fd = ap (λ a. number_of a.0) e in
        let state : with_descriptor p name s ≡ s' = ap (λ a. a.1) e in
        rw (← state, ← number) (rw (==_refl p) refl)

    open_others :
        (p q fd : ℕ) (name : Bytes) (s : Machine)
        → p ≢ q
        → (with_descriptor p name s).names q fd ≡ s.names q fd
    open_others p q fd name s away = ground (arith, away)

    lock_free :
        (p fd : ℕ) (s : Machine)
        → s.owner (s.names p fd) ≡ none
        → (n : ℕ) × (s' : Machine) × (fcntl p fd write_lock s ≡ (gave n, s'))
          × (s'.owner (s.names p fd) ≡ some p)
    lock_free p fd s h =
        (0, set_owner (s.names p fd) (some p) s, rw h refl, rw (same_refl (s.names p fd)) refl)

    lock_taken :
        (p q fd : ℕ) (s : Machine)
        → s.owner (s.names p fd) ≡ some q
        → p ≢ q
        → (errno : ℕ) × (fcntl p fd write_lock s ≡ (refused errno, s)) × (errno ≢ 0)
    lock_taken p q fd s h away = (11, rw h (ground (arith, away)), λ e. omega (arith, e))

abbrev unlocked : Machine
unlocked = record { names = λ p fd. []; owner = λ name. none }

lock_file-Excludes_example : Excludes machine posix 1 2 (b'L' ∷ []) unlocked
lock_file-Excludes_example =
    lock_file-Excludes machine posix 1 2 (b'L' ∷ []) unlocked (λ e. omega (arith, e))
      (λ p s. (5, with_descriptor p (b'L' ∷ []) s, refl)) refl
