-- ===== src/Client/Editing.antt =====
-- client.c and ss.c: the messages of a write session at the storage server.
use docs_plus_plus.Base.{
  ℕ, ◌≡◌, refl, ap, inl, inr, ℤ, pos, Option, none, some, List, [], ◌∷◌, ◌++◌, Text, text_eq, false,
  length, Option-cases, some-injective, none≢some,
}
use docs_plus_plus.Codes.{success}
use docs_plus_plus.Document.{Sentence}
use docs_plus_plus.Document.Render.{render}
use docs_plus_plus.Wire.{Message, init_message, atoi}
use docs_plus_plus.Client.{write_message}
use docs_plus_plus.Client.Redirections.{lock_message, unlock_message}
use docs_plus_plus.Storage.Disk.{undo_path}
use docs_plus_plus.Storage.Locks.Holders.{holder}
use docs_plus_plus.Storage.Sessions.{Env, file_path, temp_path}
use docs_plus_plus.Storage.Server.{
  Server, handle_lock_sentence, write_file_ss, handle_unlock_sentence, handle_undo,
}
use docs_plus_plus.Storage.Server.Session.{Quiet, edit_once, edit_once-commits}
use docs_plus_plus.Storage.Requests.Clients.{
  reply, replies, client_request_of, serve_client, handle_client_request,
}

-- The messages of `WRITE filename sent_idx_str` with one line, one after the other at the server,
-- and the server's last answer.
unfoldable pub typed_edit :
    Env → Text → Server → Text → Text → Text → ℤ → Text → Option (Server × List Message)
typed_edit env junk sv u filename sent_idx_str w content =
    elim (handle_client_request env junk sv (lock_message u filename sent_idx_str)) [
      | none ↦ none
      | some (sv1, locked) ↦
          elim (handle_client_request env junk sv1
            (write_message u filename (atoi sent_idx_str) w content)) [
              | none ↦ none
              | some (sv2, written) ↦
                  handle_client_request env junk sv2 (unlock_message u filename (atoi sent_idx_str))
            ]
    ]

module _ (env : Env) (junk : Text) (sv : Server) (u filename : Text) where
  lock_message_served :
      (sent_idx_str : Text)
      → handle_client_request env junk sv (lock_message u filename sent_idx_str)
        ≡ some (replies (handle_lock_sentence env junk sv filename (atoi sent_idx_str) u))
  unfolding handle_client_request client_request_of serve_client lock_message init_message
  lock_message_served sent_idx_str = refl

  write_message_served :
      (idx w : ℤ) (content : Text) (next : Server × ℤ)
      → write_file_ss env junk sv filename u idx w content ≡ some next
      → handle_client_request env junk sv (write_message u filename idx w content)
        ≡ some (replies next)
  unfolding handle_client_request client_request_of serve_client write_message init_message
  write_message_served idx w content next e =
      ap {B = Option (Server × List Message)}
        (λ r. elim r [ none ↦ none | some done ↦ some (replies done) ]) e

  unlock_message_served :
      (idx : ℤ)
      → handle_client_request env junk sv (unlock_message u filename idx)
        ≡ some (replies (handle_unlock_sentence env junk sv filename idx u))
  unfolding handle_client_request client_request_of serve_client unlock_message init_message
  unlock_message_served idx = refl

typed_edit-edit_once :
    (env : Env) (junk : Text) (sv done : Server) (u filename sent_idx_str : Text) (i : ℕ) (w : ℤ)
    (content : Text)
    → atoi sent_idx_str ≡ pos i
    → edit_once env junk sv filename u i w content ≡ some (done, success)
    → typed_edit env junk sv u filename sent_idx_str w content ≡ some (done, reply success ∷ [])
unfolding typed_edit edit_once
typed_edit-edit_once env junk sv done u filename sent_idx_str i w content at e =
    let sv1 = (handle_lock_sentence env junk sv filename (pos i) u).0 in
    elim (Option-cases (write_file_ss env junk sv1 filename u (pos i) w content)) [
      | inl over ↦ absurd (none≢some (rw (over, edit_once) at e))
      | inr ((sv2, written), more) ↦
          rw
            (
              lock_message_served env junk sv u filename sent_idx_str,
              typed_edit,
              at,
              write_message_served env junk sv1 u filename (pos i) w content (sv2, written) more,
              at,
              unlock_message_served env junk sv2 u filename (pos i),
            )
            (ap (λ r. some (replies r)) (some-injective (rw (more, edit_once) at e)))
    ]

-- A client that types a write session with one line, while nobody else acts on the file: after its
-- three messages the storage server answers with success, the edited sentences are part of the
-- file, the session's copy is gone, no path but the file and its undo copy has changed, the
-- sentence is free, and an undo restores the file. The index is typed as `sent_idx_str`; the
-- sentence is there and held by nobody else, the word index and the text are accepted, and the copy
-- that is written, when it is parsed again, differs from the file in that sentence only. The user
-- has no session on the sentence yet, no commit of the file waits, the tables have room, the user's
-- name is shorter than 63 bytes, and the paths of the file, its undo copy and the session's copy
-- differ and can be written.
pub typed_edit-commits :
    (env : Env) (junk : Text) (sv : Server) (u f sent_idx_str bytes : Text)
    (pre new post : List Sentence) (x : Sentence) (w : ℤ) (content : Text)
    → atoi sent_idx_str ≡ pos (length pre)
    → Quiet env sv f u bytes pre new post x w content
    → (done : Server) × (typed_edit env junk sv u f sent_idx_str w content
        ≡ some (done, reply success ∷ []))
      × (done.disk (file_path env f) ≡ some (render (pre ++ (new ++ post))))
      × (done.disk (temp_path env f u (length pre)) ≡ none)
      × ((q : Text)
          → text_eq q (file_path env f) ≡ false
          → text_eq q (undo_path (file_path env f)) ≡ false
          → text_eq q (temp_path env f u (length pre)) ≡ false
          → done.disk q ≡ sv.disk q)
      × (holder done.table f (length pre) ≡ none)
      × ((handle_undo env junk done f).0.disk (file_path env f) ≡ some bytes)
typed_edit-commits env junk sv u f sent_idx_str bytes pre new post x w content at quiet =
    let (done, ends, made, gone, others, freed, undone) =
      edit_once-commits env junk sv f u bytes pre new post x w content quiet in
    (
      done,
      typed_edit-edit_once env junk sv done u f sent_idx_str (length pre) w content at ends,
      made,
      gone,
      others,
      freed,
      undone,
    )
