-- ===== src/Storage/Requests/Stream.antt =====
-- ss.c: the case `MSG_STREAM` of a storage server.
use docs_plus_plus.Base.{ℤ, pos, List, [], ◌∷◌, Text, if◌then◌else◌}
use docs_plus_plus.Codes.{is_success, success}
use docs_plus_plus.Wire.{Message, init_message, msg_ack}
use docs_plus_plus.Storage.Sessions.{Env}
use docs_plus_plus.Storage.Server.{Server}
use docs_plus_plus.Storage.Requests.{StreamWord, stream_file_ss}

-- `MSG_DATA` and `MSG_STOP`
abbrev pub data_kind : ℤ
data_kind = pos 18

abbrev pub stop_kind : ℤ
stop_kind = pos 20

-- The messages of the words, each in the variable `msg` after the one before it, and `MSG_STOP`.
unfoldable pub send_words : Message → List StreamWord → List Message
send_words msg [] = record msg { kind = stop_kind; status = success } ∷ []
send_words msg (w ∷ ws) =
    let m : Message = record msg {
      payload = w.payload;
      status = if w.status then pos 1 else pos 0;
      sentence_index = pos w.sentence_index;
      word_index = pos w.word_index;
    } in
    m ∷ send_words m ws

-- The case `MSG_STREAM`: what is sent, as long as `send_message` does not fail. The result of
-- `stream_file_ss` is ignored.
unfoldable pub stream_request : Env → Server → Text → List Message
unfolding init_message send_words
stream_request env sv filename =
    let (words, status) = stream_file_ss env sv filename in
    record init_message { kind = msg_ack; status = success }
    ∷ (if is_success status
        then send_words (record init_message { kind = data_kind }) words
        else [])
