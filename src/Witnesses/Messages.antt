-- ===== src/Witnesses/Messages.antt =====
-- common.c at concrete inputs.
use docs_plus_plus.Base.{
  ◌≡◌, refl, ap, pos, some, [], ◌∷◌, map, Text, codes, length, take, drop, decimal, digits_before,
  arith,
}
use docs_plus_plus.Codes.{max_filename, success, minus_one}
use docs_plus_plus.Wire.{
  Message, init_message, serialize_message, fields, join, format_int, clip_to, msg_ack,
}
use docs_plus_plus.Wire.RoundTrip.{IsMessage}
use docs_plus_plus.Wire.Transport.{taken, interrupted, Frame, send_message, recv_message}
use docs_plus_plus.Wire.Transport.Delivery.{
  received_length, recv_message-send_message, send_message_ends,
}

abbrev some_message : Message
some_message = record {
  kind = msg_ack;
  status = success;
  sender = codes "bob";
  filename = codes "a.txt";
  foldername = [];
  checkpoint_tag = [];
  target_path = [];
  payload = codes "x|y";
  sentence_index = minus_one;
  word_index = pos 12;
  ss_id = minus_one;
  client_port = pos 0;
  nm_port = pos 0;
  access = pos 0;
  target_user = [];
}

abbrev some_text : Text
some_text = codes "16|200|bob|a.txt|||-1|12|-1|0|0|0|||x|y"

serialize_message_example : serialize_message some_message ≡ some_text
unfolding serialize_message fields join format_int decimal digits_before
serialize_message_example = refl

abbrev some_frame : Frame
some_frame = record { head = 4; len = 39; bytes = some_text }

some_message-IsMessage : IsMessage some_message
some_message-IsMessage = omega arith

send_message_example :
    send_message (taken 4 ∷ taken 10 ∷ interrupted ∷ taken 29 ∷ []) some_message
    ≡ some (some_frame, pos 0)
unfolding send_message serialize_message fields join format_int decimal digits_before
send_message_example = refl

recv_message-send_message_example :
    recv_message
      (received_length some_frame)
      (map some (take 5 some_text ∷ drop 5 some_text ∷ []))
      init_message
    ≡ some (record some_message { target_path = clip_to max_filename [] }, pos 0)
recv_message-send_message_example =
    recv_message-send_message (taken 4 ∷ taken 10 ∷ interrupted ∷ taken 29 ∷ []) some_message
      init_message some_frame (take 5 some_text ∷ drop 5 some_text ∷ []) some_message-IsMessage
      send_message_example refl refl

send_message_ends_example :
    send_message (taken 4 ∷ interrupted ∷ taken 10 ∷ taken 29 ∷ []) some_message
    ≡ some (
      record {
        head = 4;
        len = length (serialize_message some_message);
        bytes = serialize_message some_message;
      },
      pos 0,
    )
send_message_ends_example =
    send_message_ends 4 (interrupted ∷ taken 10 ∷ taken 29 ∷ []) some_message tt
      (omega (arith, ap length serialize_message_example))
