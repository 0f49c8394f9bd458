-- ===== src/Client/Redirections.antt =====
-- client.c: the handlers that go on with a storage server: READ, UNDO, STREAM, the beginning and
-- the end of WRITE, and the interrupt of a write session.
use docs_plus_plus.Base.{
  ℕ, ◌-◌, ℤ, pos, negsuc, Bool, true, false, ◌&&◌, Option, none, some, List, [], ◌∷◌, ◌++◌, Text,
  codes, ltb, ◌==◌, if◌then◌else◌, take,
}
use docs_plus_plus.Codes.{is_success, max_filename}
use docs_plus_plus.Wire.{Message, init_message, format_int, atoi}
use docs_plus_plus.Client.Answers.{print_error, shown, line_text}
use docs_plus_plus.Client.Exchanges.{about_file}

-- What a handler sends to the name server and to the storage server, and what it prints of their
-- answers, where the second is `none` without a connection.
pub record Redirection : Type 0 where
  pub asks : Message
  pub asks_ss : Message
  pub shows : Message → Option Message → Text

unfoldable pub redirected_text : (Message → Text) → Message → Option Message → Text
unfolding shown
redirected_text text response none =
    shown response (line_text (codes "Error: Could not connect to storage server"))
redirected_text text response (some answer) = shown response (shown answer (text answer))

unfoldable pub read_redirection : Text → Text → Redirection
unfolding init_message redirected_text
read_redirection u filename = record {
  asks = about_file u 3 filename;
  asks_ss = about_file u 3 filename;
  shows = redirected_text (λ answer. line_text answer.payload);
}

unfoldable pub undo_redirection : Text → Text → Redirection
unfolding init_message redirected_text
undo_redirection u filename = record {
  asks = about_file u 13 filename;
  asks_ss = about_file u 13 filename;
  shows = redirected_text (λ answer. line_text (codes "Undo successful!"));
}

abbrev pub is_kind : ℕ → ℤ → Bool
is_kind k (pos n) = n == k
is_kind k (negsuc n) = false

-- The word of a message, with a space if the server asked for one.
abbrev pub word_text : Message → Text
word_text m = m.payload ++ (if is_kind 1 m.status then b' ' ∷ [] else [])

-- The loop of `handle_stream` over what arrives, where `none` is a lost connection.
unfoldable pub stream_text : List (Option Message) → Text
stream_text [] = []
stream_text (none ∷ messages) = line_text (codes "Stream interrupted") ++ 10 ∷ []
stream_text (some m ∷ messages) =
    let rest = stream_text messages in
    if is_kind 20 m.kind then 10 ∷ [] else if is_kind 18 m.kind then word_text m ++ rest else rest

-- How far the request of a stream got: no connection, not sent, or the messages that arrive.
pub data Streaming : Type 0 where
  unconnected unsent : Streaming
  streaming : List (Option Message) → Streaming

unfoldable pub streaming_text : Streaming → Text
unfolding stream_text
streaming_text unconnected = line_text (codes "Failed to connect to storage server for streaming")
streaming_text unsent = line_text (codes "Failed to request stream")
streaming_text (streaming messages) = stream_text messages

-- `handle_stream`: the request to the storage server, and what is shown.
unfoldable pub handle_stream : Text → Text → Message → Streaming → Message × Text
unfolding init_message shown streaming_text
handle_stream u filename response s =
    (about_file u 11 (take (max_filename - 1) filename), shown response (streaming_text s))

-- The globals that an interrupt finds: if there is a connection, and the sentence that is locked.
pub record Pending : Type 0 where
  pub connected : Bool
  pub locked_filename : Text
  pub locked_sentence : ℤ

abbrev pub is_locked : ℤ → Bool
is_locked (pos n) = true
is_locked (negsuc n) = false

-- `perform_pending_unlock`: `MSG_CANCEL_WRITE`, if a sentence is locked, and nothing is pending
-- after it.
unfoldable pub perform_pending_unlock : Text → Pending → Option Message × Pending
unfolding init_message
perform_pending_unlock u p =
    if p.connected && is_locked p.locked_sentence
    then (
      some (record (about_file u 34 (take (max_filename - 1) p.locked_filename)) {
        sentence_index = p.locked_sentence;
      }),
      record p { locked_filename = []; locked_sentence = negsuc 0 },
    )
    else (none, p)

-- Before a session, and after it.
abbrev pub nothing_pending : Pending
nothing_pending = record { connected = false; locked_filename = []; locked_sentence = negsuc 0 }

unfoldable pub lock_message : Text → Text → Text → Message
unfolding init_message atoi
lock_message u filename sent_idx_str = record (about_file u 14 filename) {
  sentence_index = atoi sent_idx_str;
}

-- `handle_write` up to its loop: what is shown and what is pending, given the name server's answer
-- and the answer to the lock, where `none` is no connection. The loop begins if a sentence is
-- locked.
unfoldable pub begin_write : Text → Text → Message → Option Message → Text × Pending
unfolding print_error atoi
begin_write filename sent_idx_str response none =
    if is_success response.status
    then (line_text (codes "Error: Could not connect to storage server"), nothing_pending)
    else (print_error response.status, nothing_pending)
begin_write filename sent_idx_str response (some answer) =
    if is_success response.status
    then if is_success answer.status
      then (
        line_text (codes "Sentence locked. Enter writes (word_index content), then type ETIRW:"),
        record {
          connected = true;
          locked_filename = take (max_filename - 1) filename;
          locked_sentence = atoi sent_idx_str;
        },
      )
      else (print_error answer.status, nothing_pending)
    else (print_error response.status, nothing_pending)

-- How the unlock of `handle_write` goes: not sent, not answered, or answered.
pub data Unlocking : Type 0 where
  unsent_unlock unanswered : Unlocking
  answered : Message → Unlocking

unfoldable pub unlock_text : Unlocking → Text
unfolding print_error
unlock_text unsent_unlock = line_text (codes "Error: Could not send unlock (connection lost)")
unlock_text unanswered =
    line_text (codes "Error: Could not receive unlock response (connection lost)")
unlock_text (answered response) =
    if is_success response.status
    then []
    else codes "Unlock failed: " ++ print_error response.status

unfoldable pub final_text : ℕ → Bool → Text
unfolding format_int
final_text write_count status =
    if ltb 0 write_count && status
    then codes "All writes completed successfully! ("
      ++ (format_int (pos write_count) ++ line_text (codes " write(s))"))
    else if write_count == 0
    then line_text (codes "No writes performed.")
    else codes "Write session ended with errors. Completed "
      ++ (format_int (pos write_count) ++ line_text (codes " write(s) before failure."))

unfoldable pub unlock_message : Text → Text → ℤ → Message
unfolding init_message
unlock_message u filename sent_idx = record (about_file u 15 filename) { sentence_index = sent_idx }

-- `handle_write` after its loop: `MSG_UNLOCK_SENTENCE` if there is a connection, and what is shown.
unfoldable pub end_write :
    Bool → Text → Text → ℤ → Unlocking → ℕ → Bool → Option Message × Text × Pending
unfolding unlock_message unlock_text final_text
end_write connected u filename sent_idx unlocking write_count status = (
  (if connected then some (unlock_message u filename sent_idx) else none),
  (if connected then unlock_text unlocking else []) ++ final_text write_count status,
  nothing_pending,
)
