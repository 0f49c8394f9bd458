-- ===== src/Storage/Server.antt =====
-- ss.c: the storage server's handlers, on its whole state.
pub mod Edits
pub mod Commit
pub mod Session
use docs_plus_plus.Base.{
  ℕ, ◌-◌, ℤ, pos, negsuc, Bool, true, false, ◌||◌, Option, none, some, List, [], ◌∷◌, Text, ltb,
  ◌==◌, if◌then◌else◌, length, take,
}
use docs_plus_plus.Codes.{
  success, err_file_not_found, err_invalid_index, err_invalid_operation, err_server_error,
  err_file_exists, max_buffer, is_success,
}
use docs_plus_plus.Document.{Sentence, is_delimiter_token, is_newline_token}
use docs_plus_plus.Document.Render.{render}
use docs_plus_plus.Document.Insert.{
  FileContent, rejected, inserted, overflow, insert_word_in_sentence,
}
use docs_plus_plus.Storage.Disk.{
  Disk, write_disk, unlink, exists, undo_path, restore_from_undo, undo_backup_exists,
}
use docs_plus_plus.Storage.Locks.{LockTable, init_file_locks, lock_sentence_ss, unlock_sentence_ss}
use docs_plus_plus.Storage.Sessions.{
  Env, WriteSession, find_session, drop_session, parse_path, file_path, remove_write_session,
  start_write_session_ss, cancel_write_session_ss,
}
use docs_plus_plus.Storage.Commits.{CommitEntry, CommitQueue, enqueue_commit, process_commit_queue}

pub record Server : Type 0 where
  pub disk : Disk
  pub table : LockTable
  pub sessions : List WriteSession
  pub queues : List CommitQueue

-- The last token of a sentence is a delimiter or a newline.
unfoldable pub is_closed : Sentence → Bool
is_closed [] = false
is_closed (w ∷ []) = is_delimiter_token w || is_newline_token w
is_closed (w ∷ w' ∷ ws) = is_closed (w' ∷ ws)

unfoldable pub last_is_closed : List Sentence → Bool
unfolding is_closed
last_is_closed [] = false
last_is_closed (s ∷ []) = is_closed s
last_is_closed (s ∷ s' ∷ ss) = last_is_closed (s' ∷ ss)

-- The check of the index in the case `MSG_LOCK_SENTENCE`.
unfoldable pub valid_index : List Sentence → ℤ → Bool
unfolding last_is_closed
valid_index ss (negsuc i) = false
valid_index [] (pos i) = i == 0
valid_index (s ∷ ss) (pos i) =
    if ltb (length (s ∷ ss)) i
    then false
    else if i == length (s ∷ ss)
    then last_is_closed (s ∷ ss)
    else true

-- `fc` after the parse of the temporary file: a document has at least one sentence.
unfoldable pub editable : List Sentence → FileContent
editable [] = record { sentences = [] ∷ []; sentence_count = 1 }
editable (s ∷ ss) = record { sentences = s ∷ ss; sentence_count = length (s ∷ ss) }

unfoldable pub session_at : List WriteSession → Text → Text → ℤ → Option WriteSession
session_at ss filename username (negsuc i) = none
session_at ss filename username (pos i) = find_session ss filename username i

module _ (env : Env) (junk : Text) where
  -- `lock_sentence_ss` and `start_write_session_ss`, once the index is valid.
  unfoldable pub lock_and_start : Server → Text → ℕ → Text → Server × ℤ
  unfolding lock_sentence_ss start_write_session_ss unlock_sentence_ss
  lock_and_start sv filename idx sender =
      let (table, locked) = lock_sentence_ss junk sv.table filename idx sender in
      let ((disk, sessions), started) =
        start_write_session_ss env sv.disk sv.sessions filename sender idx in
      let unlocked = (unlock_sentence_ss table filename (pos idx) sender).0 in
      if is_success locked
      then (if is_success started
          then (record sv { disk = disk; table = table; sessions = sessions }, success)
          else (record sv { disk = disk; table = unlocked; sessions = sessions }, started))
      else (record sv { table = table }, locked)

  -- The case `MSG_LOCK_SENTENCE`.
  unfoldable pub handle_lock_sentence : Server → Text → ℤ → Text → Server × ℤ
  unfolding valid_index lock_and_start parse_path
  handle_lock_sentence sv filename (negsuc i) sender = (sv, err_invalid_index)
  handle_lock_sentence sv filename (pos i) sender =
      if valid_index (parse_path sv.disk (file_path env filename)).0 (pos i)
      then lock_and_start sv filename i sender
      else (sv, err_invalid_index)

  -- The insertion into the copy of a session; `none` is a write outside a buffer.
  unfoldable pub edit_temp : Server → Text → FileContent → ℤ → ℤ → Text → Option (Server × ℤ)
  unfolding insert_word_in_sentence
  edit_temp sv temp fc sent_idx word_idx content =
      elim (insert_word_in_sentence fc sent_idx word_idx content) [
        | rejected ↦ some (sv, err_invalid_index)
        | overflow ↦ none
        | inserted fc' n ↦
            if env.writable temp
            then some (
              record sv {
                disk = write_disk sv.disk temp (render (take fc'.sentence_count fc'.sentences));
              },
              success,
            )
            else some (sv, err_server_error)
      ]

  -- `write_file_ss`
  unfoldable pub write_file_ss : Server → Text → Text → ℤ → ℤ → Text → Option (Server × ℤ)
  unfolding session_at editable edit_temp parse_path
  write_file_ss sv filename username sent_idx word_idx content =
      elim (session_at sv.sessions filename username sent_idx) [
        | none ↦ some (sv, err_invalid_operation)
        | some s ↦
            edit_temp sv s.temp_filepath (editable (parse_path sv.disk s.temp_filepath).0) sent_idx
              word_idx content
      ]

  -- `commit_write_session_ss`, with a session at hand.
  unfoldable pub commit_session : Server → Text → Text → ℕ → WriteSession → Server × ℤ
  commit_session sv filename username idx s =
      let entry : CommitEntry = record {
        filename = filename;
        username = username;
        sentence_idx = idx;
        original_sentence_count = s.original_sentence_count;
        temp_filepath = s.temp_filepath;
      } in
      elim (enqueue_commit sv.queues entry) [
        | none ↦
            let (disk, sessions) = remove_write_session sv.disk sv.sessions filename username idx in
            (record sv { disk = disk; sessions = sessions }, err_server_error)
        | some queues ↦
            let (disk, queues') = process_commit_queue env sv.disk queues filename in
            (
              record sv {
                disk = disk;
                sessions = drop_session sv.sessions filename username idx;
                queues = queues';
              },
              success,
            )
      ]

  unfoldable pub commit_write_session_ss : Server → Text → Text → ℤ → Server × ℤ
  unfolding commit_session
  commit_write_session_ss sv filename username (negsuc i) = (sv, success)
  commit_write_session_ss sv filename username (pos i) =
      elim (find_session sv.sessions filename username i) [
        | none ↦ (sv, success)
        | some s ↦ commit_session sv filename username i s
      ]

  -- The case `MSG_UNLOCK_SENTENCE`: the sentence is unlocked whether or not the commit succeeds.
  unfoldable pub handle_unlock_sentence : Server → Text → ℤ → Text → Server × ℤ
  unfolding commit_write_session_ss unlock_sentence_ss
  handle_unlock_sentence sv filename idx sender =
      let (sv', committed) = commit_write_session_ss sv filename sender idx in
      let (table, unlocked) = unlock_sentence_ss sv'.table filename idx sender in
      (record sv' { table = table }, (if is_success committed then unlocked else committed))

  -- `cancel_write_session_ss` at any index: none has a session at a negative one.
  unfoldable pub cancel_at : Server → Text → Text → ℤ → Disk × List WriteSession
  unfolding cancel_write_session_ss
  cancel_at sv filename username (negsuc i) = (sv.disk, sv.sessions)
  cancel_at sv filename username (pos i) =
      (cancel_write_session_ss env sv.disk sv.sessions filename username i).0

  -- The case `MSG_CANCEL_WRITE`.
  unfoldable pub handle_cancel_write : Server → Text → ℤ → Text → Server × ℤ
  unfolding cancel_at unlock_sentence_ss
  handle_cancel_write sv filename idx sender =
      let (disk, sessions) = cancel_at sv filename sender idx in
      let (table, unlocked) = unlock_sentence_ss sv.table filename idx sender in
      (record sv { disk = disk; table = table; sessions = sessions }, unlocked)

  -- The case `MSG_UNDO`.
  unfoldable pub handle_undo : Server → Text → Server × ℤ
  unfolding undo_backup_exists restore_from_undo
  handle_undo sv filename =
      let filepath = file_path env filename in
      let (disk, status) = restore_from_undo env.writable sv.disk filepath in
      if undo_backup_exists sv.disk filepath
      then (record sv { disk = disk }, status)
      else (sv, err_invalid_operation)

  -- `create_file_ss`
  unfoldable pub create_file_ss : Server → Text → Server × ℤ
  unfolding exists
  create_file_ss sv filename =
      let filepath = file_path env filename in
      if exists sv.disk filepath
      then (sv, err_file_exists)
      else if env.writable filepath
      then (
        record sv {
          disk = write_disk sv.disk filepath [];
          table = init_file_locks junk sv.table filename 1;
        },
        success,
      )
      else (sv, err_server_error)

  -- `delete_file_ss`; `unlink` fails on a path that is not there.
  unfoldable pub delete_file_ss : Server → Text → Server × ℤ
  unfolding exists
  delete_file_ss sv filename =
      let filepath = file_path env filename in
      if exists sv.disk filepath
      then (record sv { disk = unlink (unlink sv.disk filepath) (undo_path filepath) }, success)
      else (sv, err_file_not_found)

  -- `read_file_ss`: the bytes that fit the buffer, with the status.
  unfoldable pub read_file_ss : Server → Text → Text × ℤ
  read_file_ss sv filename = elim (sv.disk (file_path env filename)) [
    | none ↦ ([], err_file_not_found)
    | some bytes ↦ (take (max_buffer - 1) bytes, success)
  ]
