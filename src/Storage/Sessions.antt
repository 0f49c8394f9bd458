-- ===== src/Storage/Sessions.antt =====
-- ss.c: write sessions, and the temporary copies that they edit.
use docs_plus_plus.Base.{
  ℕ, ◌*◌, ℤ, Bool, true, false, ◌&&◌, Option, none, some, List, [], ◌∷◌, ◌++◌, Text, codes, text_eq,
  ltb, ◌==◌, if◌then◌else◌, length, decimal,
}
use docs_plus_plus.Codes.{success, err_server_error, max_clients}
use docs_plus_plus.Document.{Sentence}
use docs_plus_plus.Document.Parse.{parse_file}
use docs_plus_plus.Storage.Disk.{Disk, write_disk, unlink, clip}

-- What the server takes from its surroundings: its directory, and which paths may be written.
pub record Env : Type 0 where
  pub storage_path : Text
  pub writable : Text → Bool

-- A slot of `write_sessions` that is in use. Sessions are made for checked sentence indices only;
-- `lock_time` is only logged, and left out.
pub record WriteSession : Type 0 where
  pub filename : Text
  pub username : Text
  pub sentence_idx : ℕ
  pub temp_filepath : Text
  pub original_sentence_count : ℕ

unfoldable pub is_session : Text → Text → ℕ → WriteSession → Bool
is_session filename username idx s =
    text_eq s.filename filename && (text_eq s.username username && s.sentence_idx == idx)

-- The search of `get_write_session`.
unfoldable pub find_session : List WriteSession → Text → Text → ℕ → Option WriteSession
unfolding is_session
find_session [] filename username idx = none
find_session (s ∷ ss) filename username idx =
    if is_session filename username idx s then some s else find_session ss filename username idx

-- The compaction of the array when a session is removed.
unfoldable pub drop_session : List WriteSession → Text → Text → ℕ → List WriteSession
unfolding is_session
drop_session [] filename username idx = []
drop_session (s ∷ ss) filename username idx =
    if is_session filename username idx s then ss else s ∷ drop_session ss filename username idx

-- A write through the pointer that `get_write_session` returned.
unfoldable pub set_original_count : List WriteSession → Text → Text → ℕ → ℕ → List WriteSession
unfolding is_session
set_original_count [] filename username idx count = []
set_original_count (s ∷ ss) filename username idx count =
    if is_session filename username idx s
    then record s { original_sentence_count = count } ∷ ss
    else s ∷ set_original_count ss filename username idx count

abbrev pub max_sessions : ℕ
max_sessions = max_clients * 10

-- `parse_file` on a path: the sentences, and whether the file was there.
unfoldable pub parse_path : Disk → Text → List Sentence × Bool
parse_path disk path = elim (disk path) [
  | none ↦ ([], false)
  | some bytes ↦ (parse_file bytes, true)
]

-- `remove_write_session`
unfoldable pub remove_write_session :
    Disk → List WriteSession → Text → Text → ℕ → Disk × List WriteSession
unfolding find_session drop_session
remove_write_session disk ss filename username idx = elim (find_session ss filename username idx) [
  | none ↦ (disk, ss)
  | some s ↦ (unlink disk s.temp_filepath, drop_session ss filename username idx)
]

module _ (env : Env) where
  unfoldable pub file_path : Text → Text
  file_path filename = clip (env.storage_path ++ (codes "/" ++ filename))

  unfoldable pub temp_path : Text → Text → ℕ → Text
  temp_path filename username idx = clip (
      env.storage_path
      ++ (codes "/" ++ (filename ++ (codes ".temp_" ++ (username ++ (codes "_" ++ decimal idx))))))

  -- `get_write_session` with `create` set: the sessions after it, and the session.
  unfoldable pub open_session :
      List WriteSession → Text → Text → ℕ → List WriteSession × Option WriteSession
  unfolding find_session temp_path
  open_session ss filename username idx = elim (find_session ss filename username idx) [
    | some s ↦ (ss, some s)
    | none ↦
        let new : WriteSession = record {
          filename = filename;
          username = username;
          sentence_idx = idx;
          temp_filepath = temp_path filename username idx;
          original_sentence_count = 0;
        } in
        if ltb (length ss) max_sessions then (ss ++ new ∷ [], some new) else (ss, none)
  ]

  -- The copy of the file, or nothing, into the temporary file.
  unfoldable pub fill_temp :
      Disk → List WriteSession → Text → Text → ℕ → Text → (Disk × List WriteSession) × ℤ
  unfolding remove_write_session
  fill_temp disk ss filename username idx temp =
      let bytes : Text = elim (disk (file_path filename)) [ none ↦ [] | some b ↦ b ] in
      if env.writable temp
      then ((write_disk disk temp bytes, ss), success)
      else (remove_write_session disk ss filename username idx, err_server_error)

  -- `start_write_session_ss` on what `get_write_session` returned.
  unfoldable pub start_in :
      Disk
      → Text
      → Text
      → ℕ
      → ℕ
      → List WriteSession × Option WriteSession
      → (Disk × List WriteSession) × ℤ
  unfolding set_original_count fill_temp
  start_in disk filename username idx count (ss, none) = ((disk, ss), err_server_error)
  start_in disk filename username idx count (ss, some s) =
      fill_temp disk (set_original_count ss filename username idx count) filename username idx
        s.temp_filepath

  unfoldable pub start_write_session_ss :
      Disk → List WriteSession → Text → Text → ℕ → (Disk × List WriteSession) × ℤ
  unfolding parse_path file_path open_session start_in
  start_write_session_ss disk ss filename username idx =
      start_in disk filename username idx (length (parse_path disk (file_path filename)).0)
        (open_session ss filename username idx)

  -- `cancel_write_session_ss`
  unfoldable pub cancel_write_session_ss :
      Disk → List WriteSession → Text → Text → ℕ → (Disk × List WriteSession) × ℤ
  unfolding remove_write_session find_session
  cancel_write_session_ss disk ss filename username idx =
      elim (find_session ss filename username idx) [
        | none ↦ ((disk, ss), success)
        | some s ↦ (remove_write_session disk ss filename username idx, success)
      ]
