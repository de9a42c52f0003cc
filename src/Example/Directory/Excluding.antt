-- ===== src/Example/Directory/Excluding.antt =====
-- engine_example/util.cc: the lock file between two processes.
use nvm_kv.Prelude.{ℕ, ◌≡◌, ◌≢◌, refl, ◌∙◌, Option, none, some, Bytes}
use nvm_kv.Example.Directory.{
  FileLock, LockType, write_lock, unlock, gave, refused, System, lock_file, destroy, lock_or_unlock,
  keep_lock, lock_opened, unlock_file,
}

-- What open(2), fcntl(2) and close(2) document of the write locks of processes: `name_of` is the
-- file behind a descriptor of a process, and `owner` the process that has a file locked.
pub record PosixLocks {S : Type 0} (sys : System S) : Type 0 where
  pub name_of : S → ℕ → ℕ → Bytes
  pub owner : S → Bytes → Option ℕ
  -- open gives a descriptor of the file, and changes no other process's descriptors and no lock
  pub open_names :
      (p fd : ℕ) (name : Bytes) (s s' : S)
      → sys.open_file p name s ≡ (gave fd, s')
      → name_of s' p fd ≡ name
  pub open_others :
      (p q fd : ℕ) (name : Bytes) (s : S)
      → p ≢ q
      → name_of (sys.open_file p name s).1 q fd ≡ name_of s q fd
  pub open_locks :
      (p : ℕ) (name other : Bytes) (s : S) → owner (sys.open_file p name s).1 other ≡ owner s other
  -- a file that no process has locked is locked
  pub lock_free :
      (p fd : ℕ) (s : S)
      → owner s (name_of s p fd) ≡ none
      → (n : ℕ) × (s' : S) × (sys.fcntl p fd write_lock s ≡ (gave n, s'))
        × (owner s' (name_of s p fd) ≡ some p)
  -- one that another process has locked is not
  pub lock_taken :
      (p q fd : ℕ) (s : S)
      → owner s (name_of s p fd) ≡ some q
      → p ≢ q
      → (errno : ℕ) × (sys.fcntl p fd write_lock s ≡ (refused errno, s)) × (errno ≢ 0)
  -- fcntl leaves the descriptors
  pub fcntl_names :
      (p q fd fd' : ℕ) (type : LockType) (s : S)
      → name_of (sys.fcntl p fd type s).1 q fd' ≡ name_of s q fd'
  -- the process that has a file locked unlocks it
  pub unlock_own :
      (p fd : ℕ) (s : S)
      → owner s (name_of s p fd) ≡ some p
      → owner (sys.fcntl p fd unlock s).1 (name_of s p fd) ≡ none
  -- close gives no lock, and takes none from another process
  pub close_free :
      (p fd : ℕ) (name : Bytes) (s : S) → owner s name ≡ none → owner (sys.close p fd s) name ≡ none
  pub close_others :
      (p q fd : ℕ) (name : Bytes) (s : S)
      → p ≢ q
      → owner s name ≡ some q
      → owner (sys.close p fd s) name ≡ some q
  pub close_names :
      (p q fd fd' : ℕ) (s : S) → p ≢ q → name_of (sys.close p fd s) q fd' ≡ name_of s q fd'

module _ {S : Type 0} (sys : System S) (posix : PosixLocks sys) where
  -- The process has the file locked by this `FileLock`.
  pub record HasLock (p : ℕ) (lock : FileLock) (s : S) : Type 0 where
    pub named : posix.name_of s p lock.fd ≡ lock.name
    pub owned : posix.owner s lock.name ≡ some p

  -- `LockFile` of the process answers 0 with a lock that it then has.
  abbrev pub Locks : ℕ → Bytes → S → Type 0
  Locks p name s =
      (lock : FileLock) × (s' : S) × (lock_file sys p name s ≡ (0, some lock, s'))
      × (lock.name ≡ name)
      × HasLock p lock s'

  -- `LockFile` of the process answers an error without a lock, and the other one has its lock.
  abbrev pub Refuses : ℕ → ℕ → FileLock → S → S → Type 0
  Refuses q p lock s s' =
      (errno : ℕ) × (lock_file sys q lock.name s ≡ (errno, none, s'))
      × (errno ≢ 0)
      × HasLock p lock s'

  module _ (p fd : ℕ) (name : Bytes) (s s' : S)
      (opens : sys.open_file p name s ≡ (gave fd, s')) where
    owner_kept : (other : Bytes) → posix.owner s' other ≡ posix.owner s other
    owner_kept other = rw opens at (posix.open_locks p name other s)

    lock_file_free : posix.owner s name ≡ none → Locks p name s
    unfolding lock_file lock_opened lock_or_unlock keep_lock
    lock_file_free free =
        let named = posix.open_names p fd name s s' opens in
        let (n, t, locked, owned) = posix.lock_free p fd s' (rw named (owner_kept name ∙ free)) in
        let kept : posix.name_of t p fd ≡ name =
          rw locked at (posix.fcntl_names p p fd fd write_lock s') ∙ named in
        (
          record { fd = fd; name = name },
          t,
          rw (opens, locked) refl,
          refl,
          record { named = kept; owned = rw named at owned },
        )

  module _ (p q fd : ℕ) (lock : FileLock) (s s' : S) (away : q ≢ p)
      (opens : sys.open_file q lock.name s ≡ (gave fd, s')) where
    keeps_lock : HasLock p lock s → HasLock p lock (sys.close q fd s')
    keeps_lock has = record {
      named =
          posix.close_names q p fd lock.fd s' away
          ∙ rw opens at (posix.open_others q p lock.fd lock.name s away)
          ∙ has.named;
      owned =
          posix.close_others q p fd lock.name s' away
            (owner_kept q fd lock.name s s' opens lock.name ∙ has.owned);
    }

    refuses : HasLock p lock s → Refuses q p lock s (sys.close q fd s')
    unfolding lock_file lock_opened lock_or_unlock keep_lock
    refuses has =
        let named = posix.open_names q fd lock.name s s' opens in
        let taken = owner_kept q fd lock.name s s' opens lock.name ∙ has.owned in
        let (errno, answer, bad) = posix.lock_taken q p fd s' (rw named taken) away in
        (errno, rw (opens, answer) refl, bad, keeps_lock has)

  releases :
      (p : ℕ) (lock : FileLock) (s : S)
      → HasLock p lock s
      → posix.owner (destroy sys p (some lock) s) lock.name ≡ none
  unfolding destroy unlock_file lock_or_unlock
  releases p lock s has =
      posix.close_free p lock.fd lock.name _
        (rw (has.named) at (posix.unlock_own p lock.fd s (rw (has.named) (has.owned))))

  -- One process locks the file; another one is refused, until the destructor of the first has run.
  abbrev pub Excludes : ℕ → ℕ → Bytes → S → Type 0
  Excludes p q name s =
      (lock : FileLock) × (s₁ : S) × (s₂ : S) × (errno : ℕ) × (lock_file sys p name s
        ≡ (0, some lock, s₁))
      × (lock_file sys q name s₁ ≡ (errno, none, s₂))
      × (errno ≢ 0)
      × Locks q name (destroy sys p (some lock) s₂)

  -- open(2) of the lock file gives every process a descriptor.
  abbrev pub Opens : Bytes → Type 0
  Opens name = (p : ℕ) (s : S) → (fd : ℕ) × (s' : S) × (sys.open_file p name s ≡ (gave fd, s'))

  -- Two processes and a lock file that nobody has locked: `LockFile` of the first answers 0 with
  -- a lock, `LockFile` of the second then answers an error and no lock, and after the destructor
  -- of the first process's engine `LockFile` of the second answers 0 with a lock of that name,
  -- which it then has. The calls of the system are parameters. They do what POSIX documents:
  -- fcntl with F_WRLCK locks a file that no process has locked and refuses one that another
  -- process has locked, F_UNLCK of the owner releases it, open and close take no lock from
  -- another process, and open and fcntl leave the descriptors of other calls as they are. open
  -- gives a descriptor each time.
  pub lock_file-Excludes :
      (p q : ℕ) (name : Bytes) (s : S)
      → q ≢ p
      → Opens name
      → posix.owner s name ≡ none
      → Excludes p q name s
  lock_file-Excludes p q name s away opens free =
      let (fd, s', e) = opens p s in
      let (lock, s₁, locked, named, has) = lock_file_free p fd name s s' e free in
      let (fd', t, e') = opens q s₁ in
      let (errno, answer, bad, has') = refuses p q fd' lock s₁ t away (rw named e') has in
      let s₂ = sys.close q fd' t in
      let (fd₃, t₃, e₃) = opens q (destroy sys p (some lock) s₂) in
      (
        lock,
        s₁,
        s₂,
        errno,
        locked,
        rw named at answer,
        bad,
        lock_file_free q fd₃ name _ t₃ e₃ (rw named at (releases p lock s₂ has')),
      )
