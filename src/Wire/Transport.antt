-- ===== src/Wire/Transport.antt =====
-- common.c: `send_message` and `recv_message` over a stream socket. What the calls of `send` and
-- `recv` return is an argument: a list with an answer for each call.
pub mod Delivery
use docs_plus_plus.Base.{
  ℕ, ◌+◌, ◌*◌, ◌-◌, ℤ, pos, negsuc, Bool, true, false, ◌||◌, Option, none, some, List, [], ◌∷◌,
  ◌++◌, Text, ltb, leb, if◌then◌else◌, length, take, drop,
}
use docs_plus_plus.Codes.{minus_one, max_buffer}
use docs_plus_plus.Wire.{Message, serialize_message, deserialize_message}

-- What `send` answers: the number of bytes it took, or -1 with `errno` EINTR or another.
pub data Sent : Type 0 where
  taken : ℕ → Sent
  interrupted failed : Sent

-- The bytes that are on their way, and the result of the call.
abbrev pub Transfer : Type 0
Transfer = Text × ℤ

unfoldable pub after_bytes : Text → Option Transfer → Option Transfer
after_bytes bytes none = none
after_bytes bytes (some (more, result)) = some (bytes ++ more, result)

-- "Send data": the loop. It is `none` while it waits for an answer.
unfoldable pub send_bytes : List Sent → Text → ℕ → Option Transfer
unfolding after_bytes
send_bytes [] buffer total_sent = if ltb total_sent (length buffer) then none else some ([], pos 0)
send_bytes (taken s ∷ answers) buffer total_sent =
    let rest =
      after_bytes (take s (drop total_sent buffer)) (send_bytes answers buffer (total_sent + s)) in
    if ltb total_sent (length buffer) then rest else some ([], pos 0)
send_bytes (interrupted ∷ answers) buffer total_sent =
    let rest = send_bytes answers buffer total_sent in
    if ltb total_sent (length buffer) then rest else some ([], pos 0)
send_bytes (failed ∷ answers) buffer total_sent =
    if ltb total_sent (length buffer) then some ([], minus_one) else some ([], pos 0)

-- What the peer is sent: the first `head` of the four bytes of the length `len`, and the bytes of
-- the text.
pub record Frame : Type 0 where
  pub head : ℕ
  pub len : ℕ
  pub bytes : Text

unfoldable pub framed : ℕ → ℕ → Option Transfer → Option (Frame × ℤ)
framed head len none = none
framed head len (some (bytes, result)) =
    some (record { head = head; len = len; bytes = bytes }, result)

-- "Send length first": a `send` that took less than the four bytes is not repeated.
unfoldable pub send_message : List Sent → Message → Option (Frame × ℤ)
unfolding framed send_bytes
send_message [] msg = none
send_message (taken s ∷ answers) msg =
    let buffer = serialize_message msg in framed s (length buffer) (send_bytes answers buffer 0)
send_message (interrupted ∷ answers) msg =
    some (record { head = 0; len = length (serialize_message msg); bytes = [] }, minus_one)
send_message (failed ∷ answers) msg =
    some (record { head = 0; len = length (serialize_message msg); bytes = [] }, minus_one)

-- "Receive data": the loop. An answer `none` is 0 or negative.
unfoldable pub recv_bytes : ℕ → List (Option Text) → Text → Option Transfer
recv_bytes len [] received = if ltb (length received) len then none else some (received, pos 0)
recv_bytes len (none ∷ answers) received =
    if ltb (length received) len then some (received, minus_one) else some (received, pos 0)
recv_bytes len (some piece ∷ answers) received =
    let rest = recv_bytes len answers (received ++ piece) in
    if ltb (length received) len then rest else some (received, pos 0)

-- The message that is read, if all bytes came.
unfoldable pub received_message : Message → Option Transfer → Option (Message × ℤ)
received_message msg none = none
received_message msg (some (received, pos n)) = some (deserialize_message received, pos n)
received_message msg (some (received, negsuc n)) = some (msg, negsuc n)

abbrev pub is_refused : ℤ → Bool
is_refused (negsuc n) = true
is_refused (pos len) = leb (max_buffer * 2) len || leb len 0

abbrev pub magnitude : ℤ → ℕ
magnitude (pos n) = n
magnitude (negsuc n) = 0

-- `recv_message`: the answers are that of the `recv` for the length, and those for the bytes.
unfoldable pub recv_message : Option ℤ → List (Option Text) → Message → Option (Message × ℤ)
unfolding recv_bytes received_message
recv_message none answers msg = some (msg, minus_one)
recv_message (some len) answers msg =
    if is_refused len
    then some (msg, minus_one)
    else received_message msg (recv_bytes (magnitude len) answers [])
