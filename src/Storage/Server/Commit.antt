-- ===== src/Storage/Server/Commit.antt =====
-- ss.c: the end of a write session, from the case `MSG_UNLOCK_SENTENCE` to the file.
use docs_plus_plus.Base.{
  ◌+◌, ◌≡◌, refl, ap, ◌∙◌, ℤ, pos, true, false, none, some, List, [], ◌∷◌, ◌++◌, Text, text_eq,
  text_eq_refl, other_name, ==_iff, length,
}
use docs_plus_plus.Codes.{success}
use docs_plus_plus.Document.{Sentence}
use docs_plus_plus.Document.Parse.{parse_file}
use docs_plus_plus.Document.Render.{render}
use docs_plus_plus.Storage.Disk.{
  Disk, write_disk, unlink, undo_path, exists, create_undo_backup, undo_backup_exists,
}
use docs_plus_plus.Storage.Backups.{backup_lem, restore_lem}
use docs_plus_plus.Storage.Locks.Holders.{holder, is_user}
use docs_plus_plus.Storage.Locks.Holders.{unlock_sentence_ss-holder}
use docs_plus_plus.Storage.Locks.{LockTable, unlock_sentence_ss}
use docs_plus_plus.Storage.Sessions.{Env, WriteSession, find_session, drop_session, file_path}
use docs_plus_plus.Storage.Commits.{
  CommitEntry, CommitQueue, get_commit_queue, queue_entries, set_entries, merge,
}
use docs_plus_plus.Storage.Commits.Merge.{merge_earlier}
use docs_plus_plus.Storage.Commits.Queues.{process_commit_queue-enqueue_commit}
use docs_plus_plus.Storage.Server.{
  Server, commit_session, commit_write_session_ss, handle_unlock_sentence, handle_undo,
}

-- A session on the sentence `x` of a file, before its commit. The file has become `pre' x post`,
-- and the copy reads `pre new post`; the user holds the sentence, no commit waits, and the paths of
-- the file, its undo copy and the session's copy differ.
pub record Ready (env : Env) (sv : Server) (session : WriteSession) (f user bytes : Text)
    (pre new post pre' : List Sentence) (x : Sentence) : Type 0 where
  pub temp : Text
  pub queues : List CommitQueue
  pub found : find_session sv.sessions f user (length pre) ≡ some session
  pub held : is_user (holder sv.table f (length pre)) user ≡ true
  pub counted : session.original_sentence_count ≡ length pre + 1 + length post
  pub file : sv.disk (file_path env f) ≡ some bytes
  pub copy : sv.disk session.temp_filepath ≡ some temp
  pub file_parsed : parse_file bytes ≡ pre' ++ x ∷ post
  pub copy_parsed : parse_file temp ≡ pre ++ (new ++ post)
  pub room : get_commit_queue sv.queues 0 f ≡ some queues
  pub none_waits : queue_entries sv.queues f ≡ []
  pub can : env.writable (file_path env f) ≡ true
  pub can_undo : env.writable (undo_path (file_path env f)) ≡ true
  pub file_apart : text_eq (file_path env f) session.temp_filepath ≡ false
  pub copy_apart : text_eq session.temp_filepath (undo_path (file_path env f)) ≡ false
  pub undo_apart : text_eq (undo_path (file_path env f)) (file_path env f) ≡ false

module _ (env : Env) (junk : Text) (sv : Server) (session : WriteSession) (f user bytes : Text)
    (pre new post pre' : List Sentence) (x : Sentence)
    (r : Ready env sv session f user bytes pre new post pre' x) where
  abbrev file_place : Text
  file_place = file_path env f

  abbrev undo_place : Text
  undo_place = undo_path file_place

  abbrev entry : CommitEntry
  entry = record {
    filename = f;
    username = user;
    sentence_idx = length pre;
    original_sentence_count = session.original_sentence_count;
    temp_filepath = session.temp_filepath;
  }

  abbrev saved : Disk
  saved = write_disk sv.disk undo_place bytes

  abbrev merged : List Sentence
  merged = pre' ++ (new ++ post)

  abbrev disk_after : Disk
  disk_after = unlink (write_disk saved file_place (render merged)) session.temp_filepath

  file_differs : text_eq file_place undo_place ≡ false
  file_differs = other_name undo_place file_place undo_place r.undo_apart (text_eq_refl undo_place)

  undo_differs : text_eq undo_place session.temp_filepath ≡ false
  undo_differs =
      other_name session.temp_filepath undo_place session.temp_filepath r.copy_apart
        (text_eq_refl session.temp_filepath)

  merges : merge entry (parse_file bytes) (parse_file r.temp) ≡ some merged
  merges =
      ap (λ t. merge entry t (parse_file r.temp)) r.file_parsed
      ∙ ap (merge entry (pre' ++ x ∷ post)) r.copy_parsed
      ∙ merge_earlier entry pre new post pre' x (record { at = refl; counted = r.counted })

  saved_file : saved file_place ≡ some bytes
  unfolding write_disk
  saved_file = rw file_differs r.file

  saved_copy : saved session.temp_filepath ≡ some r.temp
  unfolding write_disk
  saved_copy = rw r.copy_apart r.copy

  backup : (create_undo_backup env.writable sv.disk file_place).0 ≡ saved
  backup = ap (λ p. p.0) (backup_lem env.writable file_place [] sv.disk bytes r.file r.can_undo)

  commit_session_lem :
      (queues : List CommitQueue) × (commit_write_session_ss env junk sv f user (pos (length pre))
        ≡ (
          record sv {
            disk = disk_after;
            sessions = drop_session sv.sessions f user (length pre);
            queues = set_entries queues f [];
          },
          success,
        ))
  unfolding commit_write_session_ss commit_session
  commit_session_lem =
      let (queues, queued, processed) =
        process_commit_queue-enqueue_commit env entry bytes r.temp merged merges r.can sv.disk
          sv.queues r.queues r.room r.none_waits
          (ap (λ (d : Disk). d file_place) backup ∙ saved_file)
          (ap (λ (d : Disk). d session.temp_filepath) backup ∙ saved_copy) in
      (
        queues,
        rw (r.found, commit_write_session_ss, queued, commit_session, processed, backup) refl,
      )

  abbrev unlocked : LockTable × ℤ
  unlocked = unlock_sentence_ss sv.table f (pos (length pre)) user

  abbrev after : List CommitQueue → Server
  after queues = record {
    disk = disk_after;
    table = unlocked.0;
    sessions = drop_session sv.sessions f user (length pre);
    queues = set_entries queues f [];
  }

  handle_unlock_sentence_lem :
      (queues : List CommitQueue) × (handle_unlock_sentence env junk sv f (pos (length pre)) user
        ≡ (after queues, unlocked.1))
  unfolding handle_unlock_sentence
  handle_unlock_sentence_lem =
      let (queues, e) = commit_session_lem in (queues, rw (e, handle_unlock_sentence) refl)

  disk_after-file : disk_after file_place ≡ some (render merged)
  unfolding unlink write_disk
  disk_after-file = rw (r.file_apart, text_eq_refl file_place) refl

  disk_after-backup : disk_after undo_place ≡ some bytes
  unfolding unlink write_disk
  disk_after-backup = rw (undo_differs, r.undo_apart, text_eq_refl undo_place) refl

  undone :
      (queues : List CommitQueue)
      → (handle_undo env junk (after queues) f).0.disk file_place ≡ some bytes
  unfolding handle_undo undo_backup_exists exists unlink write_disk
  undone queues =
      rw
        (
          disk_after-backup,
          handle_undo,
          restore_lem env.writable file_place [] disk_after bytes disk_after-backup r.can,
        )
        (rw (file_differs, text_eq_refl file_place) refl)

  disk_after-else :
      (q : Text)
      → text_eq q file_place ≡ false
      → text_eq q undo_place ≡ false
      → text_eq q session.temp_filepath ≡ false
      → disk_after q ≡ sv.disk q
  unfolding unlink write_disk
  disk_after-else q no_path no_undo no_temp = rw (no_temp, no_path, no_undo) refl

  -- The user who holds a sentence unlocks it: the call succeeds, the file has the sentences of the
  -- session in the place of the sentence with the changes that other commits made before it, the
  -- session's copy is gone, no other path but the undo copy changes, the sentence is free, and an
  -- undo gives the file its content from before the commit. The copy differs from the file of the
  -- session's start in that sentence only, the file differs from it before that sentence only, no
  -- commit of the file waits and the table of queues has room, the file and its undo copy can be
  -- written, and their paths and that of the session's copy differ.
  pub handle_unlock_sentence-commits :
      let done = handle_unlock_sentence env junk sv f (pos (length pre)) user in
      (done.1 ≡ success)
      × (done.0.disk file_place ≡ some (render (pre' ++ (new ++ post))))
      × (done.0.disk session.temp_filepath ≡ none)
      × ((q : Text)
          → text_eq q file_place ≡ false
          → text_eq q undo_place ≡ false
          → text_eq q session.temp_filepath ≡ false
          → done.0.disk q ≡ sv.disk q)
      × (holder done.0.table f (length pre) ≡ none)
      × ((handle_undo env junk done.0 f).0.disk file_place ≡ some bytes)
  unfolding unlink
  handle_unlock_sentence-commits =
      let (queues, e) = handle_unlock_sentence_lem in
      let (succeeds, holds) = unlock_sentence_ss-holder sv.table f (length pre) user in
      rw e (
        succeeds.1 r.held,
        disk_after-file,
        rw (text_eq_refl session.temp_filepath) refl,
        disk_after-else,
        holds f (length pre)
            ∙ rw (r.held, text_eq_refl f, (==_iff (length pre) (length pre)).1 refl) refl,
        undone queues,
      )
