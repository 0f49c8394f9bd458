-- ===== src/Storage/Requests/Clients.antt =====
-- ss.c: the loop of `handle_client_request` over the messages of a client. Nobody's access is
-- checked.
use docs_plus_plus.Base.{
  ℤ, pos, negsuc, Option, none, some, List, [], ◌∷◌, Text, ◌==◌, if◌then◌else◌,
}
use docs_plus_plus.Codes.{is_success, err_invalid_operation}
use docs_plus_plus.Wire.{Message, init_message, msg_ack}
use docs_plus_plus.Storage.Sessions.{Env}
use docs_plus_plus.Storage.Server.{
  Server, handle_lock_sentence, write_file_ss, handle_unlock_sentence, handle_cancel_write,
  handle_undo, read_file_ss,
}
use docs_plus_plus.Storage.Requests.Stream.{stream_request}

-- The cases of the `switch`.
pub data ClientRequest : Type 0 where
  read lock_sentence write unlock_sentence cancel_write stream undo unknown : ClientRequest

-- By the places in the enumeration `MessageType`.
unfoldable pub client_request_of : ℤ → ClientRequest
client_request_of (negsuc k) = unknown
client_request_of (pos k) =
    if k == 3
    then read
    else if k == 14
    then lock_sentence
    else if k == 4
    then write
    else if k == 15
    then unlock_sentence
    else if k == 34
    then cancel_write
    else if k == 11
    then stream
    else if k == 13
    then undo
    else unknown

abbrev pub reply : ℤ → Message
unfolding init_message
reply status = record init_message { kind = msg_ack; status = status }

abbrev pub replies : Server × ℤ → Server × List Message
replies (sv, status) = (sv, reply status ∷ [])

-- The message of the case `MSG_READ`.
unfoldable pub read_reply : Text × ℤ → Message
read_reply (bytes, status) = record (reply status) {
  payload = if is_success status then bytes else [];
}

-- A message's case: the state after it, and what is sent; `none` is a write outside a buffer.
unfoldable pub serve_client :
    ClientRequest → Env → Text → Server → Message → Option (Server × List Message)
unfolding read_reply
serve_client read env junk sv msg =
    some (sv, read_reply (read_file_ss env junk sv msg.filename) ∷ [])
serve_client lock_sentence env junk sv msg =
    some (replies (handle_lock_sentence env junk sv msg.filename msg.sentence_index msg.sender))
serve_client write env junk sv msg =
    elim (write_file_ss env junk sv msg.filename msg.sender msg.sentence_index msg.word_index
      msg.payload) [ none ↦ none | some done ↦ some (replies done) ]
serve_client unlock_sentence env junk sv msg =
    some (replies (handle_unlock_sentence env junk sv msg.filename msg.sentence_index msg.sender))
serve_client cancel_write env junk sv msg =
    some (replies (handle_cancel_write env junk sv msg.filename msg.sentence_index msg.sender))
serve_client stream env junk sv msg = some (sv, stream_request env sv msg.filename)
serve_client undo env junk sv msg = some (replies (handle_undo env junk sv msg.filename))
serve_client unknown env junk sv msg = some (sv, reply err_invalid_operation ∷ [])

-- One turn of the loop.
unfoldable pub handle_client_request :
    Env → Text → Server → Message → Option (Server × List Message)
unfolding client_request_of serve_client
handle_client_request env junk sv msg = serve_client (client_request_of msg.kind) env junk sv msg
