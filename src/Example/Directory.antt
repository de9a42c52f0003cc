-- ===== src/Example/Directory.antt =====
-- engine_example/util.cc: the listing of a directory, and the lock file.
pub mod Excluding
use nvm_kv.Prelude.{
  ℕ, ◌≡◌, ◌≢◌, refl, ◌⊎◌, inl, inr, Option, none, some, List, [], ◌∷◌, Bool, true, false, ◌||◌,
  ◌==◌, ==_refl, if◌then◌else◌, Bytes, same,
}

abbrev dot : Bytes
dot = b'.' ∷ []

-- The loop over the entries of the directory
unfoldable pub list_entries : List Bytes → List Bytes
list_entries [] = []
list_entries (d_name ∷ entries) =
    let rest = list_entries entries in
    if same d_name (b'.' ∷ dot) || same d_name dot then rest else d_name ∷ rest

-- int GetDirFiles(dir, result): the entries if the directory can be opened, or errno
unfoldable pub get_dir_files : Option (List Bytes) → ℕ → ℕ × List Bytes
unfolding list_entries
get_dir_files none errno = (errno, [])
get_dir_files (some entries) errno = (0, list_entries entries)

pub record FileLock : Type 0 where
  pub fd : ℕ
  pub name : Bytes

-- l_type of a `struct flock`: F_WRLCK or F_UNLCK
pub data LockType : Type 0 where
  write_lock unlock : LockType

-- What a call answers: a number, or -1 with the errno it leaves
pub data Answer : Type 0 where
  gave : ℕ → Answer
  refused : (errno : ℕ) → Answer

-- The calls of the system, of a process on a state of the system: open of a file that is created if
-- it is not there, fcntl with F_SETLK on the whole file, and close.
pub record System (S : Type 0) : Type 0 where
  pub open_file : ℕ → Bytes → S → Answer × S
  pub fcntl : ℕ → ℕ → LockType → S → Answer × S
  pub close : ℕ → ℕ → S → S

module _ {S : Type 0} (sys : System S) (process : ℕ) where
  -- LockOrUnlock(fd, lock)
  unfoldable pub lock_or_unlock : ℕ → Bool → S → Answer × S
  lock_or_unlock fd lock s = sys.fcntl process fd (if lock then write_lock else unlock) s

  -- The answer of `LockOrUnlock` in `LockFile`: a descriptor that cannot be locked is closed again.
  unfoldable pub keep_lock : Bytes → ℕ → Answer × S → ℕ × Option FileLock × S
  keep_lock fname fd (refused errno, s) = (errno, none, sys.close process fd s)
  keep_lock fname fd (gave n, s) = (0, some (record { fd = fd; name = fname }), s)

  unfoldable pub lock_opened : Bytes → Answer × S → ℕ × Option FileLock × S
  unfolding lock_or_unlock keep_lock
  lock_opened fname (refused errno, s) = (errno, none, s)
  lock_opened fname (gave fd, s) = keep_lock fname fd (lock_or_unlock fd true s)

  -- int LockFile(fname, lock): the answer and `*lock`
  unfoldable pub lock_file : Bytes → S → ℕ × Option FileLock × S
  unfolding lock_opened
  lock_file fname s = lock_opened fname (sys.open_file process fname s)

  abbrev errno_of : Answer → ℕ
  errno_of (gave n) = 0
  errno_of (refused errno) = errno

  -- int UnlockFile(lock)
  unfoldable pub unlock_file : FileLock → S → ℕ × S
  unfolding lock_or_unlock
  unlock_file lock s =
      let (answer, s') = lock_or_unlock lock.fd false s in
      (errno_of answer, sys.close process lock.fd s')

  -- EngineExample::~EngineExample, on `db_lock_`
  unfoldable pub destroy : Option FileLock → S → S
  unfolding unlock_file
  destroy none s = s
  destroy (some lock) s = (unlock_file lock s).1
