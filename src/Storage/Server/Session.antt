-- ===== src/Storage/Server/Session.antt =====
-- ss.c: a write session from its lock to its commit.
use docs_plus_plus.Base.{
  ℕ, ◌<◌, ◌-◌, ◌≡◌, refl, sym, ap, ◌∙◌, inl, inr, ℤ, pos, true, false, Option, none, some, List, [],
  ◌∷◌, ◌++◌, Text, text_eq, text_eq_refl, ltb, ==_iff, length, length-append, take, Bool-cases,
  none≢some, arith,
}
use docs_plus_plus.Codes.{success, max_username}
use docs_plus_plus.Document.{Sentence}
use docs_plus_plus.Document.Parse.{parse_file}
use docs_plus_plus.Document.Render.{render}
use docs_plus_plus.Document.Insert.{FileContent, inserted, insert_word_in_sentence}
use docs_plus_plus.Storage.Disk.{Disk, write_disk, undo_path}
use docs_plus_plus.Storage.Locks.{lock_sentence_ss}
use docs_plus_plus.Storage.Locks.Holders.{holder, is_other, lock_sentence_ss-holder}
use docs_plus_plus.Storage.Sessions.{
  Env, WriteSession, max_sessions, is_session, find_session, set_original_count, file_path,
  temp_path, open_session, fill_temp, start_in,
}
use docs_plus_plus.Storage.Commits.{CommitQueue, get_commit_queue, queue_entries}
use docs_plus_plus.Storage.Commits.Queues.{parse_path_lem}
use docs_plus_plus.Storage.Server.{
  Server, valid_index, lock_and_start, handle_lock_sentence, editable, session_at, edit_temp,
  write_file_ss, handle_unlock_sentence, handle_undo,
}
use docs_plus_plus.Storage.Server.Commit.{Ready, handle_unlock_sentence-commits}

-- A client's session with one write: lock, write, unlock. `none` is a write outside a buffer.
unfoldable pub edit_once : Env → Text → Server → Text → Text → ℕ → ℤ → Text → Option (Server × ℤ)
edit_once env junk sv f user i w content =
    let sv1 = (handle_lock_sentence env junk sv f (pos i) user).0 in
    elim (write_file_ss env junk sv1 f user (pos i) w content) [
      | none ↦ none
      | some (sv2, written) ↦ some (handle_unlock_sentence env junk sv2 f (pos i) user)
    ]

valid_index-inside : (ss : List Sentence) (i : ℕ) → i < length ss → valid_index ss (pos i) ≡ true
unfolding valid_index
valid_index-inside [] i h = absurd (omega (arith, h))
valid_index-inside (s ∷ ss) i h = ground (arith, h)

-- The session that is appended is found, with its count.
find_session-set_original_count :
    (sessions : List WriteSession) (new : WriteSession) (f user : Text) (i count : ℕ)
    → find_session sessions f user i ≡ none
    → is_session f user i new ≡ true
    → find_session (set_original_count (sessions ++ new ∷ []) f user i count) f user i
      ≡ some (record new { original_sentence_count = count })
unfolding find_session set_original_count is_session
find_session-set_original_count [] new f user i count absent own = rw (own, own) refl
find_session-set_original_count (s ∷ sessions) new f user i count absent own =
    elim (Bool-cases (is_session f user i s)) [
      | inl e ↦ absurd (none≢some (sym (rw (e, find_session) at absent)))
      | inr e ↦
          rw (e, set_original_count, e)
            (find_session-set_original_count sessions new f user i count
              (rw (e, find_session) at absent) own)
    ]

-- The file reads `pre x post`; nobody else holds the sentence `x`, the user has no session on it,
-- and no commit of the file waits. The insertion turns the copy into `pre new post`. The tables
-- have room, and the paths of the file, its undo copy and the session's copy differ and can be
-- written.
pub record Quiet (env : Env) (sv : Server) (f user bytes : Text) (pre new post : List Sentence)
    (x : Sentence) (w : ℤ) (content : Text) : Type 0 where
  pub edited : FileContent
  pub parts : ℕ
  pub queues : List CommitQueue
  pub named : length user < max_username - 1
  pub file : sv.disk (file_path env f) ≡ some bytes
  pub file_parsed : parse_file bytes ≡ pre ++ x ∷ post
  pub free : is_other (holder sv.table f (length pre)) user ≡ false
  pub no_session : find_session sv.sessions f user (length pre) ≡ none
  pub session_room : ltb (length sv.sessions) max_sessions ≡ true
  pub insertion :
      insert_word_in_sentence (editable (parse_file bytes)) (pos (length pre)) w content
      ≡ inserted edited parts
  pub copy_parsed :
      parse_file (render (take edited.sentence_count edited.sentences)) ≡ pre ++ (new ++ post)
  pub room : get_commit_queue sv.queues 0 f ≡ some queues
  pub none_waits : queue_entries sv.queues f ≡ []
  pub can : env.writable (file_path env f) ≡ true
  pub can_undo : env.writable (undo_path (file_path env f)) ≡ true
  pub can_copy : env.writable (temp_path env f user (length pre)) ≡ true
  pub file_apart : text_eq (file_path env f) (temp_path env f user (length pre)) ≡ false
  pub copy_apart : text_eq (temp_path env f user (length pre)) (undo_path (file_path env f)) ≡ false
  pub undo_apart : text_eq (undo_path (file_path env f)) (file_path env f) ≡ false

module _ (env : Env) (junk : Text) (sv : Server) (f user bytes : Text)
    (pre new post : List Sentence) (x : Sentence) (w : ℤ) (content : Text)
    (r : Quiet env sv f user bytes pre new post x w content) where
  abbrev idx : ℕ
  idx = length pre

  abbrev copy_place : Text
  copy_place = temp_path env f user idx

  abbrev opened : WriteSession
  opened = record {
    filename = f;
    username = user;
    sentence_idx = idx;
    temp_filepath = copy_place;
    original_sentence_count = 0;
  }

  abbrev count : ℕ
  count = length (parse_file bytes)

  abbrev sessions : List WriteSession
  sessions = set_original_count (sv.sessions ++ opened ∷ []) f user idx count

  abbrev copied : Disk
  copied = write_disk sv.disk copy_place bytes

  abbrev locked : Server
  locked = record {
    disk = copied;
    table = (lock_sentence_ss junk sv.table f idx user).0;
    sessions = sessions;
    queues = sv.queues;
  }

  abbrev written : Server
  written = record locked {
    disk = write_disk copied copy_place (render (take r.edited.sentence_count r.edited.sentences));
  }

  started :
      start_in env sv.disk f user idx count (open_session env sv.sessions f user idx)
      ≡ ((copied, sessions), success)
  unfolding start_in open_session fill_temp
  started = rw (r.no_session, open_session, r.session_room, r.file, r.can_copy) refl

  inside : idx < length (parse_file bytes)
  inside = rw r.file_parsed (omega (arith, length-append pre (x ∷ post)))

  handle_lock_sentence_lem : handle_lock_sentence env junk sv f (pos idx) user ≡ (locked, success)
  unfolding handle_lock_sentence lock_and_start
  handle_lock_sentence_lem =
      let (succeeds, holds) = lock_sentence_ss-holder junk sv.table f idx user r.named in
      rw
        (
          parse_path_lem sv.disk (file_path env f) bytes r.file,
          handle_lock_sentence,
          valid_index-inside (parse_file bytes) idx inside,
          started,
          rw (r.free) at succeeds,
        )
        refl

  session_found :
      find_session sessions f user idx ≡ some (record opened { original_sentence_count = count })
  unfolding is_session
  session_found =
      find_session-set_original_count sv.sessions opened f user idx count r.no_session
        (rw (text_eq_refl f, text_eq_refl user, (==_iff idx idx).1 refl) refl)

  copied_lem : copied copy_place ≡ some bytes
  unfolding write_disk
  copied_lem = rw (text_eq_refl copy_place) refl

  write_file_ss_lem :
      write_file_ss env junk locked f user (pos idx) w content ≡ some (written, success)
  unfolding write_file_ss session_at edit_temp
  write_file_ss_lem =
      rw
        (
          session_found,
          write_file_ss,
          parse_path_lem copied copy_place bytes copied_lem,
          edit_temp,
          r.insertion,
          r.can_copy,
        )
        refl

  written_copy :
      written.disk copy_place ≡ some (render (take r.edited.sentence_count r.edited.sentences))
  unfolding write_disk
  written_copy = rw (text_eq_refl copy_place) refl

  written-else : (q : Text) → text_eq q copy_place ≡ false → written.disk q ≡ sv.disk q
  unfolding write_disk
  written-else q apart = rw apart refl

  session_held : holder locked.table f idx ≡ some user
  session_held =
      let (succeeds, holds) = lock_sentence_ss-holder junk sv.table f idx user r.named in
      holds f idx ∙ rw (r.free, text_eq_refl f, (==_iff idx idx).1 refl) refl

  written-Ready :
      Ready env written
        (record opened { original_sentence_count = count })
        f
        user
        bytes
        pre
        new
        post
        pre
        x
  written-Ready = record {
    temp = render (take r.edited.sentence_count r.edited.sentences);
    queues = r.queues;
    found = session_found;
    held = rw session_held (text_eq_refl user);
    counted = rw r.file_parsed (omega (arith, length-append pre (x ∷ post)));
    file = written-else (file_path env f) r.file_apart ∙ r.file;
    copy = written_copy;
    file_parsed = r.file_parsed;
    copy_parsed = r.copy_parsed;
    room = r.room;
    none_waits = r.none_waits;
    can = r.can;
    can_undo = r.can_undo;
    file_apart = r.file_apart;
    copy_apart = r.copy_apart;
    undo_apart = r.undo_apart;
  }

  -- A client that locks a sentence, writes once and unlocks, while nobody else acts on the file,
  -- makes the edited sentences part of the file: the session ends well, only that sentence is
  -- replaced, the copy is gone, no path but the file and its undo copy changes, the sentence is
  -- free, and an undo restores the file. The sentence is there and held by nobody else, the word
  -- index and the text are accepted, and the copy that is written, when it is parsed again, differs
  -- from the file in that sentence only. The user has no session on the sentence yet, the tables
  -- have room, the user's name is shorter than 63 bytes, and the paths of the file, its undo copy
  -- and the session's copy differ and can be written.
  pub edit_once-commits :
      (done : Server) × (edit_once env junk sv f user idx w content ≡ some (done, success))
      × (done.disk (file_path env f) ≡ some (render (pre ++ (new ++ post))))
      × (done.disk copy_place ≡ none)
      × ((q : Text)
          → text_eq q (file_path env f) ≡ false
          → text_eq q (undo_path (file_path env f)) ≡ false
          → text_eq q copy_place ≡ false
          → done.disk q ≡ sv.disk q)
      × (holder done.table f idx ≡ none)
      × ((handle_undo env junk done f).0.disk (file_path env f) ≡ some bytes)
  unfolding edit_once
  edit_once-commits =
      let done = handle_unlock_sentence env junk written f (pos idx) user in
      let (succeeds, made, gone, others, freed, undone) =
        handle_unlock_sentence-commits env junk written
          (record opened { original_sentence_count = count }) f user bytes pre new post pre x
          written-Ready in
      (
        done.0,
        rw (handle_lock_sentence_lem, edit_once, write_file_ss_lem)
            (ap (λ s. some (done.0, s)) succeeds),
        made,
        gone,
        λ q no_file no_undo no_copy. others q no_file no_undo no_copy ∙ written-else q no_copy,
        freed,
        undone,
      )
