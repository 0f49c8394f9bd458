-- ===== src/Wire.antt =====
-- common.c: a message, and its text on the wire.
pub mod Numbers
pub mod RoundTrip
pub mod Transport
use docs_plus_plus.Base.{
  ℕ, zero, suc, ◌+◌, ◌*◌, ◌-◌, ℤ, pos, negsuc, Bool, true, false, ◌&&◌, ◌||◌, Option, none, some,
  List, [], ◌∷◌, ◌++◌, Text, ltb, leb, ◌==◌, if◌then◌else◌, take, decimal,
}
use docs_plus_plus.Codes.{success, minus_one, max_buffer, max_filename, max_username}

-- `kind` is the field `type`, and `payload` the field `data`. An enumeration is its number.
pub record Message : Type 0 where
  pub kind : ℤ
  pub status : ℤ
  pub sender : Text
  pub filename : Text
  pub foldername : Text
  pub checkpoint_tag : Text
  pub target_path : Text
  pub payload : Text
  pub sentence_index : ℤ
  pub word_index : ℤ
  pub ss_id : ℤ
  pub client_port : ℤ
  pub nm_port : ℤ
  pub access : ℤ
  pub target_user : Text

-- `MSG_ACK`, by its place in the enumeration.
abbrev pub msg_ack : ℤ
msg_ack = pos 16

unfoldable pub init_message : Message
init_message = record {
  kind = msg_ack;
  status = success;
  sender = [];
  filename = [];
  foldername = [];
  checkpoint_tag = [];
  target_path = [];
  payload = [];
  sentence_index = minus_one;
  word_index = minus_one;
  ss_id = minus_one;
  client_port = pos 0;
  nm_port = pos 0;
  access = pos 0;
  target_user = [];
}

-- `%d`
unfoldable pub format_int : ℤ → Text
unfolding decimal
format_int (pos n) = decimal n
format_int (negsuc n) = b'-' ∷ decimal (suc n)

abbrev pub separator : ℕ
separator = b'|'

unfoldable pub fields : Message → List Text
unfolding format_int
fields m =
    format_int m.kind
    ∷ format_int m.status
    ∷ m.sender
    ∷ m.filename
    ∷ m.foldername
    ∷ m.target_path
    ∷ format_int m.sentence_index
    ∷ format_int m.word_index
    ∷ format_int m.ss_id
    ∷ format_int m.client_port
    ∷ format_int m.nm_port
    ∷ format_int m.access
    ∷ m.target_user
    ∷ m.checkpoint_tag
    ∷ m.payload
    ∷ []

unfoldable pub join : List Text → Text
join [] = []
join (t ∷ []) = t
join (t ∷ u ∷ ts) = t ++ separator ∷ join (u ∷ ts)

-- `serialize_message`
unfoldable pub serialize_message : Message → Text
unfolding fields join
serialize_message m = join (fields m)

abbrev pub is_digit : ℕ → Bool
is_digit c = leb b'0' c && leb c b'9'

-- The digits of `atoi` after the value `n` of those before; a value that `int` holds.
unfoldable pub atoi_digits : Text → ℕ → ℕ
atoi_digits [] n = n
atoi_digits (c ∷ cs) n =
    let more = atoi_digits cs (n * 10 + (c - b'0')) in if is_digit c then more else n

unfoldable pub negate : ℕ → ℤ
negate zero = pos zero
negate (suc n) = negsuc n

-- `isspace`
abbrev pub is_space : ℕ → Bool
is_space c = c == b' ' || (leb 9 c && leb c 13)

-- C's `atoi`
unfoldable pub atoi : Text → ℤ
unfolding atoi_digits negate
atoi [] = pos 0
atoi (c ∷ cs) =
    let skipped = atoi cs in
    if is_space c
    then skipped
    else if c == b'-'
    then negate (atoi_digits cs 0)
    else if c == b'+'
    then pos (atoi_digits cs 0)
    else pos (atoi_digits (c ∷ cs) 0)

-- The token before the first separator, and what stands behind it, if there is one.
unfoldable pub cut : Text → Text × Option Text
cut [] = ([], none)
cut (c ∷ cs) =
    let (token, rest) = cut cs in if c == separator then ([], some cs) else (c ∷ token, rest)

-- What `strncpy(field, token, size - 1)` leaves in a field that was empty.
abbrev pub clip_to : ℕ → Text → Text
clip_to size = take (size - 1)

-- The branch for an empty token.
unfoldable pub clear_field : Message → ℕ → Message
clear_field m field =
    if field == 2
    then record m { sender = [] }
    else if field == 3
    then record m { filename = [] }
    else if field == 10
    then record m { target_user = [] }
    else if field == 11
    then record m { payload = [] }
    else m

-- The `switch` on `field`. The cases 4, 5 and 13 also write the last byte of another field.
unfoldable pub fill_field : Message → ℕ → Text → Message
unfolding atoi
fill_field m field token =
    if field == 0
    then record m { kind = atoi token }
    else if field == 1
    then record m { status = atoi token }
    else if field == 2
    then record m { sender = clip_to max_username token }
    else if field == 3
    then record m { filename = clip_to max_filename token }
    else if field == 4
    then record m {
      foldername = clip_to max_filename token;
      filename = clip_to max_filename m.filename;
    }
    else if field == 5
    then record m {
      target_path = clip_to max_filename token;
      filename = clip_to max_filename m.filename;
    }
    else if field == 6
    then record m { sentence_index = atoi token }
    else if field == 7
    then record m { word_index = atoi token }
    else if field == 8
    then record m { ss_id = atoi token }
    else if field == 9
    then record m { client_port = atoi token }
    else if field == 10
    then record m { nm_port = atoi token }
    else if field == 11
    then record m { access = atoi token }
    else if field == 12
    then record m { target_user = clip_to max_username token }
    else if field == 13
    then record m {
      checkpoint_tag = clip_to max_username token;
      sender = clip_to max_username m.sender;
    }
    else record m { payload = clip_to max_buffer token }

unfoldable pub set_field : Message → ℕ → Text → Message
unfolding clear_field fill_field
set_field m field [] = clear_field m field
set_field m field (c ∷ cs) = fill_field m field (c ∷ cs)

-- "For the last field, take everything remaining"
unfoldable pub next_token : ℕ → Text → Text × Option Text
unfolding cut
next_token field p = if field == 14 then (p, none) else cut p

-- The loop of `deserialize_message`, with the rounds left.
unfoldable pub read_fields : ℕ → ℕ → Text → Message → Message
unfolding next_token set_field
read_fields zero field p m = m
read_fields (suc n) field p m =
    let (token, sep) = next_token field p in
    let m' = set_field m field (clip_to max_buffer token) in
    elim sep [ none ↦ m' | some p' ↦ read_fields n (suc field) p' m' ]

unfoldable pub deserialize_message : Text → Message
unfolding read_fields init_message
deserialize_message buffer = read_fields 15 0 buffer init_message
