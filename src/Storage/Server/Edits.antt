-- ===== src/Storage/Server/Edits.antt =====
-- ss.c: locks, writes and cancellations in any order, before a commit.
use docs_plus_plus.Base.{
  ℕ, ◌+◌, ◌≡◌, refl, ◌∙◌, inl, inr, ◌⊎◌, ℤ, pos, negsuc, true, false, Option, none, some, List, [],
  ◌∷◌, Text, text_eq, ltb, take, get_elem?, Bool-cases, Option-cases, ◌||◌,
}
use docs_plus_plus.Codes.{
  is_success, success, err_invalid_index, err_server_error, err_invalid_operation,
}
use docs_plus_plus.Document.Render.{render}
use docs_plus_plus.Document.{Sentence}
use docs_plus_plus.Document.Insert.{
  FileContent, Inserted, rejected, inserted, real_word_count, actual_place, append_slot,
  insert_split, insert_in, insert_word_in_sentence,
}
use docs_plus_plus.Document.SplitLaws.{runs_fit, concat-split_by_delimiters}
use docs_plus_plus.Storage.Disk.{write_disk}
use docs_plus_plus.Storage.Locks.{lock_sentence_ss}
use docs_plus_plus.Storage.Sessions.{
  Env, WriteSession, parse_path, file_path, temp_path, start_write_session_ss,
}
use docs_plus_plus.Storage.Isolation.{
  Spares, Keeps, find_session-Spares, write_disk-apart, start_write_session_ss-Keeps,
  cancel_write_session_ss-Keeps,
}
use docs_plus_plus.Storage.Server.{
  Server, valid_index, editable, session_at, lock_and_start, handle_lock_sentence, edit_temp,
  write_file_ss, cancel_at, handle_cancel_write,
}

-- An insertion of a text that fits is refused or done.
abbrev Returns : Inserted → Type 0
Returns r = (r ≡ rejected) ⊎ ((fc : FileContent) × (n : ℕ) × (r ≡ inserted fc n))

insert_split-Returns :
    (fc : FileContent) (i : ℕ) (sent : Sentence) (place : ℕ) (parts : List Text)
    → Returns (insert_split fc i sent place parts)
unfolding insert_split
insert_split-Returns fc i sent place [] = inr (_, _, refl)
insert_split-Returns fc i sent place (p ∷ ps) = inr (_, _, refl)

insert_in-Returns :
    (fc : FileContent) (i : ℕ) (w : ℤ) (word : Text)
    → runs_fit 0 0 word ≡ true
    → Returns (insert_in fc i w word)
unfolding insert_in
insert_in-Returns fc i (negsuc w) word fit = inl refl
insert_in-Returns fc i (pos w) word fit = elim (Option-cases (get_elem? fc.sentences i)) [
  | inl out ↦ rw (out, insert_in) (inl refl)
  | inr (sent, e) ↦ elim (Bool-cases (ltb w 1 || ltb (real_word_count sent + 1) w)) [
    | inl invalid ↦ rw (e, insert_in, invalid) (inl refl)
    | inr valid ↦
        let (parts, split, same) = concat-split_by_delimiters word fit in
        rw (e, insert_in, valid, split) (insert_split-Returns fc i sent (actual_place sent w) parts)
  ]
]

insert_word_in_sentence-Returns :
    (fc : FileContent) (s w : ℤ) (word : Text)
    → runs_fit 0 0 word ≡ true
    → Returns (insert_word_in_sentence fc s w word)
unfolding insert_word_in_sentence
insert_word_in_sentence-Returns fc (negsuc s) w word fit = inl refl
insert_word_in_sentence-Returns fc (pos s) w word fit =
    elim (Bool-cases (ltb fc.sentence_count s)) [
      | inl out ↦ rw (out, insert_word_in_sentence) (inl refl)
      | inr within ↦
          rw (within, insert_word_in_sentence) (insert_in-Returns (append_slot fc s) s w word fit)
    ]

-- The state after an edit, and the content at `q` in it.
abbrev Holds : Text → Server → Server → Type 0
Holds q sv sv' = (sv'.disk q ≡ sv.disk q) × Spares q sv'.sessions

module _ (env : Env) (junk : Text) (q : Text) (sv : Server) (spares : Spares q sv.sessions) where
  Written : Option (Server × ℤ) → Type 0
  Written r = (sv' : Server) × (status : ℤ) × (r ≡ some (sv', status)) × Holds q sv sv'

  edit_temp-Holds :
      (temp : Text) (fc : FileContent) (s w : ℤ) (word : Text)
      → text_eq q temp ≡ false
      → runs_fit 0 0 word ≡ true
      → Written (edit_temp env junk sv temp fc s w word)
  unfolding edit_temp Written
  edit_temp-Holds temp fc s w word e fit = elim (insert_word_in_sentence-Returns fc s w word fit) [
    | inl refused ↦ (sv, err_invalid_index, rw (refused, edit_temp) refl, (refl, spares))
    | inr (fc', n, done) ↦ elim (Bool-cases (env.writable temp)) [
      | inl can ↦
          let bytes = render (take fc'.sentence_count fc'.sentences) in
          (
            record sv { disk = write_disk sv.disk temp bytes },
            success,
            rw (done, edit_temp, can) refl,
            (write_disk-apart sv.disk temp q bytes e, spares),
          )
      | inr cannot ↦ (sv, err_server_error, rw (done, edit_temp, cannot) refl, (refl, spares))
    ]
  ]

  session_at-Spares :
      (f u : Text) (i : ℤ) (s : WriteSession)
      → session_at sv.sessions f u i ≡ some s
      → text_eq q s.temp_filepath ≡ false
  unfolding session_at
  session_at-Spares f u (negsuc i) s e = cc
  session_at-Spares f u (pos i) s e = find_session-Spares q sv.sessions f u i s spares e

  write_file_ss-Holds :
      (f u : Text) (i w : ℤ) (word : Text)
      → runs_fit 0 0 word ≡ true
      → Written (write_file_ss env junk sv f u i w word)
  unfolding write_file_ss Written
  write_file_ss-Holds f u i w word fit = elim (Option-cases (session_at sv.sessions f u i)) [
    | inl is_none ↦ (sv, err_invalid_operation, rw (is_none, write_file_ss) refl, (refl, spares))
    | inr (s, e) ↦
        rw (e, write_file_ss)
          (edit_temp-Holds s.temp_filepath (editable (parse_path sv.disk s.temp_filepath).0) i w
            word (session_at-Spares f u i s e) fit)
  ]

  handle_lock_sentence-Holds :
      (f : Text) (i : ℕ) (sender : Text)
      → text_eq q (temp_path env f sender i) ≡ false
      → Holds q sv (handle_lock_sentence env junk sv f (pos i) sender).0
  unfolding handle_lock_sentence lock_and_start
  handle_lock_sentence-Holds f i sender e =
      elim (Bool-cases (valid_index (parse_path sv.disk (file_path env f)).0 (pos i))) [
        | inr invalid ↦ rw (invalid, handle_lock_sentence) (refl, spares)
        | inl valid ↦
            let started = start_write_session_ss env sv.disk sv.sessions f sender i in
            let keeps : Keeps q sv.disk started.0 =
              start_write_session_ss-Keeps env q sv.disk sv.sessions f sender i spares e in
            elim (Bool-cases (is_success (lock_sentence_ss junk sv.table f i sender).1)) [
              | inr refused ↦
                  rw (valid, handle_lock_sentence, lock_and_start, refused) (refl, spares)
              | inl locked ↦ elim (Bool-cases (is_success started.1)) [
                | inl begun ↦ rw (valid, handle_lock_sentence, lock_and_start, locked, begun) keeps
                | inr failed ↦
                    rw (valid, handle_lock_sentence, lock_and_start, locked, failed) keeps
              ]
            ]
      ]

  handle_cancel_write-Holds :
      (f : Text) (i : ℤ) (sender : Text) → Holds q sv (handle_cancel_write env junk sv f i sender).0
  unfolding handle_cancel_write cancel_at
  handle_cancel_write-Holds f (negsuc i) sender = (refl, spares)
  handle_cancel_write-Holds f (pos i) sender =
      cancel_write_session_ss-Keeps env q sv.disk sv.sessions f sender i spares

-- A request of a client before it commits.
pub data Edit : Type 0 where
  lock cancel : Text → ℕ → Text → Edit
  write : Text → Text → ℤ → ℤ → Text → Edit

module _ (env : Env) (junk : Text) where
  pub edit : Edit → Server → Option (Server × ℤ)
  edit (lock f i sender) sv = some (handle_lock_sentence env junk sv f (pos i) sender)
  edit (cancel f i sender) sv = some (handle_cancel_write env junk sv f (pos i) sender)
  edit (write f sender i w word) sv = write_file_ss env junk sv f sender i w word

  pub edits : List Edit → Server → Option Server
  edits [] sv = some sv
  edits (e ∷ es) sv = elim (edit e sv) [ none ↦ none | some r ↦ edits es r.0 ]

  -- The copies of new sessions are not at `q`, and the texts fit the buffers.
  abbrev pub IsApart : Text → List Edit → Type 0
  IsApart q [] = Unit
  IsApart q (lock f i sender ∷ es) = (text_eq q (temp_path env f sender i) ≡ false) × IsApart q es
  IsApart q (cancel f i sender ∷ es) = IsApart q es
  IsApart q (write f sender i w word ∷ es) = (runs_fit 0 0 word ≡ true) × IsApart q es

  -- Locks, writes and cancellations by any clients, in any order, run to their end, and leave the
  -- content of a path as it was, if it is not the path of a session's copy, and the words and runs
  -- of blanks written are shorter than `MAX_WORD`.
  pub edits-isolated :
      (es : List Edit) (sv : Server) (q : Text)
      → Spares q sv.sessions
      → IsApart q es
      → (sv' : Server) × (edits es sv ≡ some sv') × (sv'.disk q ≡ sv.disk q)
  unfolding edits edit Written
  edits-isolated [] sv q h apart = (sv, refl, refl)
  edits-isolated (lock f i sender ∷ es) sv q h (e, apart) =
      let (same, h') = handle_lock_sentence-Holds env junk q sv h f i sender e in
      let (end, ran, kept) =
        edits-isolated es (handle_lock_sentence env junk sv f (pos i) sender).0 q h' apart in
      (end, ran, kept ∙ same)
  edits-isolated (cancel f i sender ∷ es) sv q h apart =
      let (same, h') = handle_cancel_write-Holds env junk q sv h f (pos i) sender in
      let (end, ran, kept) =
        edits-isolated es (handle_cancel_write env junk sv f (pos i) sender).0 q h' apart in
      (end, ran, kept ∙ same)
  edits-isolated (write f sender i w word ∷ es) sv q h (fit, apart) =
      let (next, status, done, (same, h')) =
        write_file_ss-Holds env junk q sv h f sender i w word fit in
      let (end, ran, kept) = edits-isolated es next q h' apart in
      (end, rw (done, edits, edit) ran, kept ∙ same)
