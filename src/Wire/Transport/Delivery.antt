-- ===== src/Wire/Transport/Delivery.antt =====
-- common.c: what `recv_message` makes of the bytes that `send_message` sends.
use docs_plus_plus.Base.{
  ◌==◌, if◌then◌else◌, ℕ, ◌+◌, ◌*◌, ◌<◌, ◌≤◌, ◌≡◌, refl, sym, ap, ◌∙◌, inl, inr, ℤ, pos, false,
  Option, none, some, List, [], ◌∷◌, ◌++◌, map, append-nil, append_assoc, Text, ltb, length, concat,
  take, drop, Bool-cases, arith, length-append, drop-drop, drop_of_length-le, take-append-drop,
}
use docs_plus_plus.Codes.{max_buffer, max_filename}
use docs_plus_plus.Wire.{Message, serialize_message, clip_to, join, fields}
use docs_plus_plus.Wire.Numbers.{length-format_int}
use docs_plus_plus.Wire.RoundTrip.{IsMessage, deserialize_message-serialize_message}
use docs_plus_plus.Wire.Transport.{
  Sent, taken, interrupted, failed, Frame, send_bytes, send_message, recv_bytes, recv_message,
  is_refused, received_message, framed, after_bytes, Transfer,
}

-- The text of a message fits the buffers of `send_message` and `recv_message`, and is not empty.
pub length-serialize_message :
    (m : Message)
    → IsMessage m
    → (0 < length (serialize_message m)) × (length (serialize_message m) < max_buffer * 2)
unfolding serialize_message join fields
length-serialize_message m w =
    let n = length-format_int in
    simp length-append (
      omega (
        arith,
        n m.kind w.kind,
        n m.status w.status,
        n m.sentence_index w.sentence_index,
        n m.word_index w.word_index,
        n m.ss_id w.ss_id,
        n m.client_port w.client_port,
        n m.nm_port w.nm_port,
        n m.access w.access,
      ))

-- What the `recv` for the length gives, with `MSG_WAITALL`: the length, if its four bytes came.
abbrev pub received_length : Frame → Option ℤ
received_length frame = if frame.head == 4 then some (pos frame.len) else none

nil_of_length : (t : Text) → length t ≡ 0 → t ≡ []
nil_of_length [] e = refl
nil_of_length (c ∷ cs) e = absurd (omega arith)

recv_bytes-concat :
    (len : ℕ) (pieces : List Text) (received : Text)
    → length received + length (concat pieces) ≡ len
    → recv_bytes len (map some pieces) received ≡ some (received ++ concat pieces, pos 0)
unfolding recv_bytes
recv_bytes-concat len [] received e = rw (all, append-nil) refl
  where
    all : ltb (length received) len ≡ false
    all = ground arith
recv_bytes-concat len (p ∷ ps) received e = elim (Bool-cases (ltb (length received) len)) [
  | inl some_left ↦ rw some_left (
      recv_bytes-concat len ps (received ++ p)
        (omega (arith, length-append received p, length-append p (concat ps)))
      ∙ rw append_assoc refl)
  | inr done ↦ rw done (ap some (rw (none_left done) (rw append-nil refl)))
]
  where
    none_left : ltb (length received) len ≡ false → p ++ concat ps ≡ []
    none_left done = nil_of_length (p ++ concat ps) (ground (arith, length-append p (concat ps)))

after_bytes-some :
    (b : Text) (o : Option Transfer) {bytes : Text} {r : ℤ}
    → after_bytes b o ≡ some (bytes, r)
    → (more : Text) × ((o ≡ some (more, r)) × (bytes ≡ b ++ more))
unfolding after_bytes
after_bytes-some b none e = cc
after_bytes-some b (some (more, r)) e = (more, (cc, cc))

-- What was sent when the loop ends well is the rest of the buffer.
send_bytes-drop :
    (answers : List Sent) (buffer : Text) (total_sent : ℕ) {bytes : Text}
    → send_bytes answers buffer total_sent ≡ some (bytes, pos 0)
    → bytes ≡ drop total_sent buffer
unfolding send_bytes after_bytes
send_bytes-drop [] buffer total_sent e = ground (arith, drop_of_length-le total_sent buffer)
send_bytes-drop (taken s ∷ answers) buffer total_sent {bytes} e =
    elim (Bool-cases (ltb total_sent (length buffer))) [
      | inl some_left ↦
          let step = after_bytes-some _ _ (rw some_left at e) in
          step.1.1
          ∙ ap (◌++◌ (take s (drop total_sent buffer))) (
              send_bytes-drop answers buffer (total_sent + s) step.1.0
              ∙ sym (drop-drop total_sent s buffer))
          ∙ take-append-drop s (drop total_sent buffer)
      | inr done ↦ ground (arith, drop_of_length-le total_sent buffer)
    ]
send_bytes-drop (interrupted ∷ answers) buffer total_sent {bytes} e = ground (
  arith,
  drop_of_length-le total_sent buffer,
  send_bytes-drop answers buffer total_sent {bytes = bytes},
)
send_bytes-drop (failed ∷ answers) buffer total_sent e =
    ground (arith, drop_of_length-le total_sent buffer)

send_message-bytes :
    (answers : List Sent) (m : Message) {frame : Frame}
    → send_message answers m ≡ some (frame, pos 0)
    → (frame.len ≡ length (serialize_message m)) × (frame.bytes ≡ serialize_message m)
unfolding send_message framed
send_message-bytes [] m e = cc
send_message-bytes (taken s ∷ answers) m {frame} e =
    step (send_bytes answers (serialize_message m) 0) refl e
  where
    step :
        (o : Option Transfer)
        → send_bytes answers (serialize_message m) 0 ≡ o
        → framed s (length (serialize_message m)) o ≡ some (frame, pos 0)
        → (frame.len ≡ length (serialize_message m)) × (frame.bytes ≡ serialize_message m)
    step none at e = cc
    step (some (bytes, result)) at e = (
      ap (λ f. f.len) built,
      ap (λ f. f.bytes) built
          ∙ send_bytes-drop answers (serialize_message m) 0 {bytes = bytes} ended,
    )
      where
        built : frame ≡ record { head = s; len = length (serialize_message m); bytes = bytes }
        built = cc

        ended : send_bytes answers (serialize_message m) 0 ≡ some (bytes, pos 0)
        ended = cc
send_message-bytes (interrupted ∷ answers) m e = cc
send_message-bytes (failed ∷ answers) m e = cc

-- When `send_message` ends well and its first `send` took all four bytes of the length, then, in
-- whatever pieces the socket took the text and in whatever pieces it arrives, `recv_message` ends
-- well with the message that was sent, its `target_path` cut at 255 bytes.
pub recv_message-send_message :
    (answers : List Sent) (m old : Message) (frame : Frame) (pieces : List Text)
    → IsMessage m
    → send_message answers m ≡ some (frame, pos 0)
    → frame.head ≡ 4
    → concat pieces ≡ frame.bytes
    → recv_message (received_length frame) (map some pieces) old
      ≡ some (record m { target_path = clip_to max_filename m.target_path }, pos 0)
unfolding recv_message received_message
recv_message-send_message answers m old frame pieces w sent complete arrived =
    let (sized, whole) = send_message-bytes answers m sent in
    let accepted : is_refused (pos frame.len) ≡ false =
      ground (arith, sized, length-serialize_message m w) in
    rw
      (
        complete,
        accepted,
        recv_bytes-concat frame.len pieces [] (omega (arith, sized, ap length (arrived ∙ whole))),
        arrived,
        whole,
        deserialize_message-serialize_message m w,
      )
      refl

-- No call of `send` fails but for an interruption.
abbrev pub NoFailure : List Sent → Type 0
NoFailure [] = Unit {0}
NoFailure (taken s ∷ answers) = NoFailure answers
NoFailure (interrupted ∷ answers) = NoFailure answers
NoFailure (failed ∷ answers) = ⊥

-- The number of bytes that the calls of `send` take.
abbrev pub total_taken : List Sent → ℕ
total_taken [] = 0
total_taken (taken s ∷ answers) = s + total_taken answers
total_taken (interrupted ∷ answers) = total_taken answers
total_taken (failed ∷ answers) = total_taken answers

send_bytes_ends :
    (answers : List Sent) (buffer : Text) (total_sent : ℕ)
    → NoFailure answers
    → length buffer ≤ total_sent + total_taken answers
    → send_bytes answers buffer total_sent ≡ some (drop total_sent buffer, pos 0)
unfolding send_bytes after_bytes
send_bytes_ends [] buffer total_sent p enough = ground (arith, drop_of_length-le total_sent buffer)
send_bytes_ends (taken s ∷ answers) buffer total_sent p enough =
    elim (Bool-cases (ltb total_sent (length buffer))) [
      | inl some_left ↦
          rw (some_left, send_bytes_ends answers buffer (total_sent + s) p (omega arith))
            (ap (λ b. some (b, pos 0))
              (ap (◌++◌ (take s (drop total_sent buffer))) (sym (drop-drop total_sent s buffer))
                ∙ take-append-drop s (drop total_sent buffer)))
      | inr done ↦ ground (arith, drop_of_length-le total_sent buffer)
    ]
send_bytes_ends (interrupted ∷ answers) buffer total_sent p enough =
    ground (
      arith,
      drop_of_length-le total_sent buffer,
      send_bytes_ends answers buffer total_sent p enough,
    )
send_bytes_ends (failed ∷ answers) buffer total_sent p enough = absurd p

-- When the first `send` does not fail, however few bytes of the length it takes, and then, with no
-- failure but interruptions, the socket takes as many bytes as the text of the message has, in
-- whatever pieces, `send_message` ends well with the whole text sent, but with only these bytes of
-- the length.
pub send_message_ends :
    (head : ℕ) (answers : List Sent) (m : Message)
    → NoFailure answers
    → length (serialize_message m) ≤ total_taken answers
    → send_message (taken head ∷ answers) m
      ≡ some (
        record { head = head; len = length (serialize_message m); bytes = serialize_message m },
        pos 0,
      )
unfolding send_message framed
send_message_ends head answers m p enough =
    rw (send_bytes_ends answers (serialize_message m) 0 p (omega arith)) refl
