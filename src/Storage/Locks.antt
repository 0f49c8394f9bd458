-- ===== src/Storage/Locks.antt =====
-- ss.c: the table of sentence locks. A lock's time is stored and never read, and is left out. A
-- call here runs whole; Exclusion takes it apart into the sections that its mutexes guard, since
-- the pointer that `get_sentence_lock` returns is used after `locks_mutex` has been released.
pub mod Holders
pub mod Calls
pub mod Exclusion
use docs_plus_plus.Base.{
  ℕ, zero, suc, ◌+◌, ◌-◌, ℤ, pos, negsuc, Bool, true, false, ◌&&◌, ◌||◌, not, Option, none, some,
  List, [], ◌∷◌, ◌++◌, Text, text_eq, ltb, ◌==◌, if◌then◌else◌, length, get_elem?, set, take,
  replicate,
}
use docs_plus_plus.Codes.{
  success, err_invalid_index, err_sentence_locked, err_access_denied, max_username,
}

pub record SentenceLock : Type 0 where
  pub locked : Bool
  pub locked_by : Text

-- An entry of `ss.file_locks`; `lock_count` is the length of `locks`.
pub record FileLocks : Type 0 where
  pub filename : Text
  pub locks : List SentenceLock

abbrev pub LockTable : Type 0
LockTable = List FileLocks

unfoldable pub free_lock : Text → SentenceLock
free_lock name = record { locked = false; locked_by = name }

-- `get_sentence_lock` at an index that is not negative.
unfoldable pub find_lock : LockTable → Text → ℕ → Option SentenceLock
find_lock [] filename i = none
find_lock (e ∷ table) filename i =
    if text_eq e.filename filename then get_elem? e.locks i else find_lock table filename i

unfoldable pub get_sentence_lock : LockTable → Text → ℤ → Option SentenceLock
unfolding find_lock
get_sentence_lock table filename (negsuc i) = none
get_sentence_lock table filename (pos i) = find_lock table filename i

-- A write through the pointer that `get_sentence_lock` returned.
unfoldable pub set_lock : LockTable → Text → ℕ → SentenceLock → LockTable
set_lock [] filename i lock = []
set_lock (e ∷ table) filename i lock =
    if text_eq e.filename filename
    then record e { locks = set e.locks i lock } ∷ table
    else e ∷ set_lock table filename i lock

-- `check_file_locks`
unfoldable pub any_locked : List SentenceLock → Bool
any_locked [] = false
any_locked (l ∷ ls) = l.locked || any_locked ls

unfoldable pub check_file_locks : LockTable → Text → Bool
unfolding any_locked
check_file_locks [] filename = false
check_file_locks (e ∷ table) filename =
    if text_eq e.filename filename then any_locked e.locks else check_file_locks table filename

abbrev pub at_least_one : ℕ → ℕ
at_least_one zero = 1
at_least_one (suc n) = suc n

-- `locked && strcmp(locked_by, username) != 0`
unfoldable pub held_by_other : SentenceLock → Text → Bool
held_by_other lock username = lock.locked && not (text_eq lock.locked_by username)

-- What `locked_by` reads as after `strncpy(locked_by, username, MAX_USERNAME - 1)`: a name of 63
-- bytes or more leaves the last byte unwritten, and `junk` is what stands there and behind it.
unfoldable pub stored_name : Text → Text → Text
stored_name junk username =
    if ltb (length username) (max_username - 1)
    then username
    else take (max_username - 1) username ++ junk

-- `lock_sentence_ss`, on what `get_sentence_lock` found.
unfoldable pub lock_found : Text → LockTable → Text → ℕ → Text → Option SentenceLock → LockTable × ℤ
unfolding set_lock held_by_other stored_name
lock_found junk table filename i username none = (table, err_invalid_index)
lock_found junk table filename i username (some lock) =
    if held_by_other lock username then (table, err_sentence_locked) else (
      set_lock table filename i (record { locked = true; locked_by = stored_name junk username }),
      success,
    )

-- What `realloc` leaves in the new slots is `junk`, too.
module _ (junk : Text) where
  -- `init_file_locks`, once 0 has been replaced by 1.
  unfoldable pub grow_locks : LockTable → Text → ℕ → LockTable
  unfolding free_lock
  grow_locks [] filename count =
      record { filename = filename; locks = replicate count (free_lock []) } ∷ []
  grow_locks (e ∷ table) filename count =
      if text_eq e.filename filename
      then record e { locks = e.locks ++ replicate (count - length e.locks) (free_lock junk) }
        ∷ table
      else e ∷ grow_locks table filename count

  unfoldable pub init_file_locks : LockTable → Text → ℕ → LockTable
  unfolding grow_locks
  init_file_locks table filename count = grow_locks table filename (at_least_one count)

  -- `lock_sentence_ss`, at an index that its caller has checked.
  unfoldable pub lock_sentence_ss : LockTable → Text → ℕ → Text → LockTable × ℤ
  unfolding init_file_locks find_lock lock_found
  lock_sentence_ss table filename sent_idx username =
      let grown = init_file_locks table filename (suc sent_idx) in
      lock_found junk grown filename sent_idx username (find_lock grown filename sent_idx)

-- `unlock_sentence_ss`
unfoldable pub unlock_found : LockTable → Text → ℕ → Text → Option SentenceLock → LockTable × ℤ
unfolding set_lock
unlock_found table filename i username none = (table, err_invalid_index)
unlock_found table filename i username (some lock) =
    if not lock.locked || not (text_eq lock.locked_by username)
    then (table, err_access_denied)
    else (set_lock table filename i (record { locked = false; locked_by = [] }), success)

unfoldable pub unlock_sentence_ss : LockTable → Text → ℤ → Text → LockTable × ℤ
unfolding unlock_found find_lock
unlock_sentence_ss table filename (negsuc i) username = (table, err_invalid_index)
unlock_sentence_ss table filename (pos i) username =
    unlock_found table filename i username (find_lock table filename i)
