-- ===== src/Storage/Requests.antt =====
-- ss.c: the requests of the name server to a storage server, and the stream of a file's words.
pub mod Moved
pub mod Stream
pub mod Clients
use docs_plus_plus.Base.{
  ℕ, suc, ◌+◌, ◌-◌, ℤ, pos, Bool, true, false, not, ◌||◌, ◌&&◌, Option, none, some, List, [], ◌∷◌,
  ◌++◌, Text, codes, text_eq, ltb, if◌then◌else◌, length, take,
}
use docs_plus_plus.Codes.{
  success, err_file_not_found, err_server_error, err_file_locked, max_buffer,
}
use docs_plus_plus.Document.{Sentence, is_delimiter_token}
use docs_plus_plus.Document.Stats.{get_file_stats}
use docs_plus_plus.Storage.Disk.{
  Disk, write_disk, unlink, clip, undo_path, create_checkpoint, revert_to_checkpoint,
  view_checkpoint,
}
use docs_plus_plus.Storage.Locks.{check_file_locks}
use docs_plus_plus.Storage.Sessions.{Env, parse_path, file_path}
use docs_plus_plus.Storage.Server.{Server, create_file_ss, delete_file_ss, read_file_ss}

-- The root is the empty path or `/`.
unfoldable pub names_folder : Text → Bool
names_folder path = ltb 0 (length path) && not (text_eq path (codes "/"))

-- What `get_file_info_ss` finds out, less the times of `stat`.
pub record FileInfo : Type 0 where
  pub size : ℕ
  pub word_count : ℕ
  pub char_count : ℕ

-- A word of the stream: `status` is whether a space follows.
pub record StreamWord : Type 0 where
  pub status : Bool
  pub sentence_index : ℕ
  pub word_index : ℕ
  pub payload : Text

-- The words of a sentence; `more` is whether another sentence follows.
unfoldable pub stream_words : ℕ → Bool → ℕ → List Text → List StreamWord
stream_words i more j [] = []
stream_words i more j (curr ∷ []) =
    record {
      status = more;
      sentence_index = i;
      word_index = j;
      payload = take (max_buffer - 1) curr;
    }
    ∷ []
stream_words i more j (curr ∷ next ∷ words) =
    record {
      status = not (is_delimiter_token curr) && not (is_delimiter_token next);
      sentence_index = i;
      word_index = j;
      payload = take (max_buffer - 1) curr;
    }
    ∷ stream_words i more (suc j) (next ∷ words)

unfoldable pub stream_sentences : ℕ → List Sentence → List StreamWord
unfolding stream_words
stream_sentences i [] = []
stream_sentences i (s ∷ ss) = stream_words i (ltb 0 (length ss)) 0 s ++ stream_sentences (suc i) ss

-- The requests of `handle_nm_communication` that read or change the files or the locks.
pub data NmRequest : Type 0 where
  msg_check_locks : Text → NmRequest
  msg_checkpoint : Text → Text → NmRequest
  msg_viewcheckpoint : Text → Text → NmRequest
  msg_revert : Text → Text → NmRequest
  msg_move : Text → Text → Text → NmRequest
  msg_create : Text → NmRequest
  msg_delete : Text → NmRequest
  msg_read_content : Text → NmRequest

module _ (can_move : Text → Text → Bool) where
  -- `rename`, for which `can_move` says whether the target can be made.
  unfoldable pub rename : Disk → Text → Text → Disk × Bool
  rename disk old new = elim (disk old) [
    | none ↦ (disk, false)
    | some bytes ↦
        if can_move old new then (write_disk (unlink disk old) new bytes, true) else (disk, false)
  ]

module _ (env : Env) where
  -- The path of a file in a folder.
  unfoldable pub full_path : Text → Text → Text
  unfolding names_folder
  full_path path filename =
      if names_folder path
      then clip (env.storage_path ++ (path ++ (codes "/" ++ filename)))
      else file_path env filename

  unfoldable pub get_file_info_ss : Server → Text → FileInfo × ℤ
  get_file_info_ss sv filename = elim (sv.disk (file_path env filename)) [
    | none ↦ (record { size = 0; word_count = 0; char_count = 0 }, err_file_not_found)
    | some bytes ↦
        let (words, chars) = get_file_stats bytes in
        (record { size = length bytes; word_count = words; char_count = chars }, success)
  ]

  -- The words that are sent, as long as `send_message` does not fail, with the status.
  unfoldable pub stream_file_ss : Server → Text → List StreamWord × ℤ
  unfolding parse_path stream_sentences
  stream_file_ss sv filename =
      let (sentences, parsed) = parse_path sv.disk (file_path env filename) in
      if parsed then (stream_sentences 0 sentences, success) else ([], err_file_not_found)

module _ (env : Env) (can_move : Text → Text → Bool) where
  -- The undo copy moves with the file; that it may fail to is ignored.
  unfoldable pub move_file_ss : Server → Text → Text → Text → Server × ℤ
  unfolding full_path rename
  move_file_ss sv filename old_path new_path =
      let old_full = full_path env old_path filename in
      let new_full = full_path env new_path filename in
      let (disk, moved) = rename can_move sv.disk old_full new_full in
      let (disk', undo_moved) = rename can_move disk (undo_path old_full) (undo_path new_full) in
      if moved then (record sv { disk = disk' }, success) else (sv, err_server_error)

module _ (env : Env) (junk : Text) (can_move : Text → Text → Bool) where
  -- The new state, the text of the answer and its status.
  unfoldable pub handle_nm_request : Server → NmRequest → Server × (Text × ℤ)
  unfolding move_file_ss create_checkpoint revert_to_checkpoint view_checkpoint
  handle_nm_request sv (msg_check_locks filename) =
      (sv, ([], if check_file_locks sv.table filename then err_file_locked else success))
  handle_nm_request sv (msg_checkpoint filename tag) =
      let (disk, status) = create_checkpoint env.writable sv.disk (file_path env filename) tag in
      (record sv { disk = disk }, ([], status))
  handle_nm_request sv (msg_viewcheckpoint filename tag) =
      (sv, view_checkpoint sv.disk (file_path env filename) tag max_buffer)
  handle_nm_request sv (msg_revert filename tag) =
      let (disk, status) = revert_to_checkpoint env.writable sv.disk (file_path env filename) tag in
      (record sv { disk = disk }, ([], status))
  handle_nm_request sv (msg_move filename old_path new_path) =
      let (sv', status) = move_file_ss env can_move sv filename old_path new_path in
      (sv', ([], status))
  handle_nm_request sv (msg_create filename) =
      let (sv', status) = create_file_ss env junk sv filename in (sv', ([], status))
  handle_nm_request sv (msg_delete filename) =
      let (sv', status) = delete_file_ss env junk sv filename in (sv', ([], status))
  handle_nm_request sv (msg_read_content filename) = (sv, read_file_ss env junk sv filename)
