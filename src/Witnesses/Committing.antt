-- ===== src/Witnesses/Committing.antt =====
-- ss.c: a commit and a whole session at concrete inputs.
use docs_plus_plus.Base.{
  ◌≡◌, refl, arith, pos, true, false, none, some, [], ◌∷◌, map, Text, codes, text_eq, if◌then◌else◌,
}
use docs_plus_plus.Codes.{success}
use docs_plus_plus.Document.{
  Sentence, should_skip_for_indexing, is_blank, is_delimiter_token, is_space_token,
  is_newline_token,
}
use docs_plus_plus.Document.Parse.{parse_file}
use docs_plus_plus.Document.Content.{blanks_fit}
use docs_plus_plus.Document.Render.{render}
use docs_plus_plus.Client.Redirections.{stream_text}
use docs_plus_plus.Client.Streaming.{ink, stream_text-stream_request}
use docs_plus_plus.Storage.Requests.Stream.{stream_request}
use docs_plus_plus.Document.Split.{split_by_delimiters}
use docs_plus_plus.Document.Insert.{insert_word_in_sentence}
use docs_plus_plus.Storage.Server.Session.{Quiet}
use docs_plus_plus.Storage.Requests.Clients.{reply}
use docs_plus_plus.Wire.{atoi}
use docs_plus_plus.Client.Editing.{typed_edit, typed_edit-commits}
use docs_plus_plus.Storage.Disk.{Disk, undo_path}
use docs_plus_plus.Storage.Locks.{LockTable, find_lock}
use docs_plus_plus.Storage.Locks.Holders.{holder}
use docs_plus_plus.Storage.Sessions.{Env, WriteSession, find_session, file_path, temp_path}
use docs_plus_plus.Storage.Commits.{get_commit_queue, queue_entries}
use docs_plus_plus.Storage.Server.{Server, editable, handle_unlock_sentence, handle_undo}
use docs_plus_plus.Storage.Server.Commit.{Ready, handle_unlock_sentence-commits}

abbrev ann : Text
ann = codes "a"

abbrev notes : Text
notes = codes "n"

-- The file has become `d.a.b.`; the session began at `a.b.` and has made it `c.b.`.
abbrev notes_bytes : Text
notes_bytes = codes "d.a.b."

abbrev copy_bytes : Text
copy_bytes = codes "c.b."

abbrev sentence_of : Text → Sentence
sentence_of word = word ∷ codes "." ∷ []

abbrev some_session : WriteSession
some_session = record {
  filename = notes;
  username = ann;
  sentence_idx = 0;
  temp_filepath = codes "s/n.temp_a_0";
  original_sentence_count = 2;
}

abbrev some_env : Env
some_env = record { storage_path = codes "s"; writable = λ path. true }

abbrev some_disk : Disk
some_disk q =
    if text_eq q (codes "s/n")
    then some notes_bytes
    else if text_eq q (codes "s/n.temp_a_0")
    then some copy_bytes
    else none

abbrev some_table : LockTable
some_table =
    record { filename = notes; locks = record { locked = true; locked_by = ann } ∷ [] } ∷ []

abbrev some_server : Server
some_server = record {
  disk = some_disk;
  table = some_table;
  sessions = some_session ∷ [];
  queues = [];
}

some_Ready :
    Ready some_env some_server some_session notes ann notes_bytes []
      (sentence_of (codes "c") ∷ [])
      (sentence_of (codes "b") ∷ [])
      (sentence_of (codes "d") ∷ [])
      (sentence_of (codes "a"))
unfolding parse_file find_session find_lock get_commit_queue queue_entries file_path undo_path
    text_eq
some_Ready = record {
  temp = copy_bytes;
  queues = record { filename = notes; entries = [] } ∷ [];
  found = refl;
  held = refl;
  counted = refl;
  file = refl;
  copy = refl;
  file_parsed = refl;
  copy_parsed = refl;
  room = refl;
  none_waits = refl;
  can = refl;
  can_undo = refl;
  file_apart = refl;
  copy_apart = refl;
  undo_apart = refl;
}

handle_unlock_sentence-commits_example :
    let done = handle_unlock_sentence some_env [] some_server notes (pos 0) ann in
    let path = file_path some_env notes in
    (done.1 ≡ success)
    × (done.0.disk path ≡ some (render (map sentence_of (codes "d" ∷ codes "c" ∷ codes "b" ∷ []))))
    × (done.0.disk (codes "s/n.temp_a_0") ≡ none)
    × ((q : Text)
        → text_eq q path ≡ false
        → text_eq q (undo_path path) ≡ false
        → text_eq q (codes "s/n.temp_a_0") ≡ false
        → done.0.disk q ≡ some_disk q)
    × (holder done.0.table notes 0 ≡ none)
    × ((handle_undo some_env [] done.0 notes).0.disk path ≡ some notes_bytes)
handle_unlock_sentence-commits_example =
    handle_unlock_sentence-commits some_env [] some_server some_session notes ann notes_bytes []
      (sentence_of (codes "c") ∷ []) (sentence_of (codes "b") ∷ []) (sentence_of (codes "d") ∷ [])
      (sentence_of (codes "a")) some_Ready

-- Nobody edits `a. b.`.
abbrev quiet_bytes : Text
quiet_bytes = codes "a. b."

abbrev quiet_server : Server
quiet_server = record {
  disk = λ q. if text_eq q (codes "s/n") then some quiet_bytes else none;
  table = [];
  sessions = [];
  queues = [];
}

abbrev later_sentence : Sentence
later_sentence = codes " " ∷ sentence_of (codes "b")

-- `a` writes `c` before the word 1 of the sentence 0.
quiet_server-Quiet :
    Quiet some_env quiet_server notes ann quiet_bytes []
      ((codes "c" ∷ codes " " ∷ sentence_of (codes "a")) ∷ [])
      (later_sentence ∷ [])
      (sentence_of (codes "a"))
      (pos 1)
      (codes "c")
unfolding parse_file editable render insert_word_in_sentence find_session find_lock get_commit_queue
    queue_entries file_path temp_path undo_path text_eq should_skip_for_indexing split_by_delimiters
    is_delimiter_token is_space_token is_newline_token
quiet_server-Quiet = record {
  edited = record {
    sentences = (codes "c" ∷ sentence_of (codes "a")) ∷ later_sentence ∷ [];
    sentence_count = 2;
  };
  parts = 0;
  queues = record { filename = notes; entries = [] } ∷ [];
  named = omega arith;
  file = refl;
  file_parsed = refl;
  free = refl;
  no_session = refl;
  session_room = refl;
  insertion = refl;
  copy_parsed = refl;
  room = refl;
  none_waits = refl;
  can = refl;
  can_undo = refl;
  can_copy = refl;
  file_apart = refl;
  copy_apart = refl;
  undo_apart = refl;
}

typed_edit-commits_example :
    let path = file_path some_env notes in
    let copy = temp_path some_env notes ann 0 in
    (done : Server) × (typed_edit some_env [] quiet_server ann notes (codes "0") (pos 1) (codes "c")
      ≡ some (done, reply success ∷ []))
    × (done.disk path
        ≡ some (render ((codes "c" ∷ codes " " ∷ sentence_of (codes "a")) ∷ later_sentence ∷ [])))
    × (done.disk copy ≡ none)
    × ((q : Text)
        → text_eq q path ≡ false
        → text_eq q (undo_path path) ≡ false
        → text_eq q copy ≡ false
        → done.disk q ≡ quiet_server.disk q)
    × (holder done.table notes 0 ≡ none)
    × ((handle_undo some_env [] done notes).0.disk path ≡ some quiet_bytes)
unfolding atoi
typed_edit-commits_example =
    typed_edit-commits some_env [] quiet_server ann notes (codes "0") quiet_bytes []
      ((codes "c" ∷ codes " " ∷ sentence_of (codes "a")) ∷ []) (later_sentence ∷ [])
      (sentence_of (codes "a")) (pos 1) (codes "c") refl quiet_server-Quiet

stream_text-stream_request_example :
    ink (stream_text (map some (stream_request some_env quiet_server notes))) ≡ ink quiet_bytes
unfolding blanks_fit is_blank file_path text_eq
stream_text-stream_request_example =
    stream_text-stream_request some_env quiet_server notes quiet_bytes refl refl (omega arith)
