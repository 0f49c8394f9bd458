-- ===== src/Wire/RoundTrip.antt =====
-- common.c: what `deserialize_message` reads of the text that `serialize_message` writes.
use docs_plus_plus.Base.{
  ℕ, suc, ◌-◌, ◌<◌, ◌≡◌, refl, sym, ◌∙◌, ap, ℤ, false, some, [], ◌∷◌, ◌++◌, Text, ◌==◌, length,
  arith, take_of_length-le, take-nil,
}
use docs_plus_plus.Codes.{max_buffer, max_filename, max_username, max_path}
use docs_plus_plus.Wire.{
  Message, format_int, separator, join, fields, serialize_message, cut, clip_to, clear_field,
  fill_field, set_field, next_token, read_fields, deserialize_message, init_message, atoi,
}
use docs_plus_plus.Wire.Numbers.{
  NoSeparator, IsInt, atoi-format_int, format_int-NoSeparator, format_int-ne-nil, length-format_int,
}

cut-separator : (t rest : Text) → NoSeparator t → cut (t ++ separator ∷ rest) ≡ (t, some rest)
unfolding cut
cut-separator [] rest h = refl
cut-separator (c ∷ cs) rest (other, h) = rw (cut-separator cs rest h, differs) refl
  where
    differs : (c == separator) ≡ false
    differs = ground arith

-- One round of the loop at a field before the last.
read_fields-suc :
    (n field : ℕ) (t rest : Text) (m : Message)
    → field < 14
    → NoSeparator t
    → length t < max_buffer
    → read_fields (suc n) field (t ++ separator ∷ rest) m
      ≡ read_fields n (suc field) rest (set_field m field t)
unfolding read_fields
read_fields-suc n field t rest m before free short =
    rw (token, read_fields, token, take_of_length-le (max_buffer - 1) t (omega arith)) refl
  where
    earlier : (field == 14) ≡ false
    earlier = ground arith

    token : next_token field (t ++ separator ∷ rest) ≡ (t, some rest)
    token = rw (earlier, next_token) (cut-separator t rest free)

read_fields_last :
    (t : Text) (m : Message) → length t < max_buffer → read_fields 1 14 t m ≡ set_field m 14 t
unfolding read_fields next_token
read_fields_last t m short = rw (take_of_length-le (max_buffer - 1) t (omega arith)) refl

-- A field that holds a number.
set_field-format_int :
    (m : Message) (field : ℕ) (x : ℤ)
    → set_field m field (format_int x) ≡ fill_field m field (format_int x)
unfolding set_field
set_field-format_int m field x = let head = format_int-ne-nil x in rw (head.1.1) refl

fits : (size : ℕ) (t : Text) → length t < size → clip_to size t ≡ t
fits size t short = take_of_length-le (size - 1) t (omega arith)

-- A field that holds a string: `put` is what its case writes.
set_field-string :
    (m : Message) (field size : ℕ) (put : Text → Message) (t : Text)
    → clear_field m field ≡ put []
    → ((u : Text) → fill_field m field u ≡ put (clip_to size u))
    → set_field m field t ≡ put (clip_to size t)
unfolding set_field
set_field-string m field size put [] cleared filled = cleared ∙ ap put (sym (take-nil (size - 1)))
set_field-string m field size put (c ∷ cs) cleared filled = filled (c ∷ cs)

-- The text of a field that is not the last.
abbrev IsField : ℕ → Text → Type 0
IsField size t = (length t < size) × NoSeparator t

-- A message as the programs build it: numbers in the range of `int`, strings that fit their
-- arrays, and no separator in a string but the last.
pub record IsMessage (m : Message) : Type 0 where
  pub kind : IsInt m.kind
  pub status : IsInt m.status
  pub sender : IsField max_username m.sender
  pub filename : IsField max_filename m.filename
  pub foldername : IsField max_filename m.foldername
  pub checkpoint_tag : IsField max_username m.checkpoint_tag
  pub target_path : IsField max_path m.target_path
  pub payload : length m.payload < max_buffer
  pub sentence_index : IsInt m.sentence_index
  pub word_index : IsInt m.word_index
  pub ss_id : IsInt m.ss_id
  pub client_port : IsInt m.client_port
  pub nm_port : IsInt m.nm_port
  pub access : IsInt m.access
  pub target_user : IsField max_username m.target_user

-- One round at a number, and one at a string: `put` is what the case writes.
module _ (n field : ℕ) (rest : Text) (m : Message) (before : field < 14) where
  read_number :
      (put : Message → ℤ → Message) (x : ℤ)
      → ((a : Message) (t : Text) → fill_field a field t ≡ put a (atoi t))
      → IsInt x
      → read_fields (suc n) field (format_int x ++ separator ∷ rest) m
        ≡ read_fields n (suc field) rest (put m x)
  read_number put x filled range =
      read_fields-suc n field (format_int x) rest m before (format_int-NoSeparator x)
        (omega (arith, length-format_int x range))
      ∙ ap (read_fields n (suc field) rest) (
          set_field-format_int m field x ∙ filled m (format_int x) ∙ ap (put m) (atoi-format_int x))

  read_string :
      (size bound : ℕ) (put : Message → Text → Message) (t : Text)
      → clear_field m field ≡ put m []
      → ((u : Text) → fill_field m field u ≡ put m (clip_to size u))
      → bound < max_buffer
      → IsField bound t
      → read_fields (suc n) field (t ++ separator ∷ rest) m
        ≡ read_fields n (suc field) rest (put m (clip_to size t))
  read_string size bound put t cleared filled small (short, free) =
      read_fields-suc n field t rest m before free (omega arith)
      ∙ ap (read_fields n (suc field) rest) (set_field-string m field size (put m) t cleared filled)

  read_whole :
      (size : ℕ) (put : Message → Text → Message) (t : Text)
      → clear_field m field ≡ put m []
      → ((u : Text) → fill_field m field u ≡ put m (clip_to size u))
      → size < max_buffer
      → IsField size t
      → read_fields (suc n) field (t ++ separator ∷ rest) m
        ≡ read_fields n (suc field) rest (put m t)
  read_whole size put t cleared filled small (short, free) =
      read_string size size put t cleared filled small (short, free)
      ∙ ap (λ u. read_fields n (suc field) rest (put m u)) (fits size t short)

-- The message after the first five fields, and after the next five.
abbrev names_read : Message → Message
names_read m = record init_message {
  kind = m.kind;
  status = m.status;
  sender = m.sender;
  filename = m.filename;
  foldername = m.foldername;
}

abbrev numbers_read : Message → Message
numbers_read m = record (names_read m) {
  target_path = clip_to max_filename m.target_path;
  sentence_index = m.sentence_index;
  word_index = m.word_index;
  ss_id = m.ss_id;
  client_port = m.client_port;
}

module _ (m : Message) (w : IsMessage m) (rest : Text) where
  read_names :
      read_fields 15 0
        (format_int m.kind
          ++ separator
            ∷ (format_int m.status
                ++ separator
                  ∷ (m.sender
                      ++ separator
                        ∷ (m.filename ++ separator ∷ (m.foldername ++ separator ∷ rest)))))
        init_message
      ≡ read_fields 10 5 rest (names_read m)
  unfolding init_message clear_field fill_field
  read_names =
      read_number 14 0 _ _ (omega arith) (λ a x. record a { kind = x }) m.kind (λ a t. refl) w.kind
      ∙ read_number 13 1 _ _ (omega arith) (λ a x. record a { status = x }) m.status (λ a t. refl)
          w.status
      ∙ read_whole 12 2 _ _ (omega arith) max_username (λ a s. record a { sender = s }) m.sender
          refl (λ u. refl) (omega arith) w.sender
      ∙ read_whole 11 3 _ _ (omega arith) max_filename (λ a s. record a { filename = s }) m.filename
          refl (λ u. refl) (omega arith) w.filename
      ∙ read_whole 10 4 _ _ (omega arith) max_filename (λ a s. record a { foldername = s })
          m.foldername refl
          (λ u.
            ap (λ f. record (names_read m) { foldername = clip_to max_filename u; filename = f })
              (fits max_filename m.filename w.filename.0))
          (omega arith) w.foldername

  read_numbers :
      read_fields 10 5
        (m.target_path
          ++ separator
            ∷ (format_int m.sentence_index
                ++ separator
                  ∷ (format_int m.word_index
                      ++ separator
                        ∷ (format_int m.ss_id
                            ++ separator ∷ (format_int m.client_port ++ separator ∷ rest)))))
        (names_read m)
      ≡ read_fields 5 10 rest (numbers_read m)
  unfolding init_message clear_field fill_field
  read_numbers =
      read_string 9 5 _ _ (omega arith) max_filename max_path (λ a s. record a { target_path = s })
        m.target_path refl
        (λ u.
          ap (λ f. record (names_read m) { target_path = clip_to max_filename u; filename = f })
            (fits max_filename m.filename w.filename.0))
        (omega arith) w.target_path
      ∙ read_number 8 6 _ _ (omega arith) (λ a x. record a { sentence_index = x }) m.sentence_index
          (λ a t. refl) w.sentence_index
      ∙ read_number 7 7 _ _ (omega arith) (λ a x. record a { word_index = x }) m.word_index
          (λ a t. refl) w.word_index
      ∙ read_number 6 8 _ _ (omega arith) (λ a x. record a { ss_id = x }) m.ss_id (λ a t. refl)
          w.ss_id
      ∙ read_number 5 9 _ _ (omega arith) (λ a x. record a { client_port = x }) m.client_port
          (λ a t. refl) w.client_port

-- A message is read back as it was sent, but for a `target_path` of 256 bytes or more, which is cut
-- at 255.
pub deserialize_message-serialize_message :
    (m : Message)
    → IsMessage m
    → deserialize_message (serialize_message m)
      ≡ record m { target_path = clip_to max_filename m.target_path }
unfolding deserialize_message serialize_message init_message clear_field fill_field fields join
deserialize_message-serialize_message m w =
    read_names m w _
    ∙ read_numbers m w _
    ∙ read_number 4 10 _ _ (omega arith) (λ a x. record a { nm_port = x }) m.nm_port (λ a t. refl)
        w.nm_port
    ∙ read_number 3 11 _ _ (omega arith) (λ a x. record a { access = x }) m.access (λ a t. refl)
        w.access
    ∙ read_whole 2 12 _ _ (omega arith) max_username (λ a s. record a { target_user = s })
        m.target_user refl (λ u. refl) (omega arith) w.target_user
    ∙ read_whole 1 13 _ _ (omega arith) max_username (λ a s. record a { checkpoint_tag = s })
        m.checkpoint_tag refl
        (λ u.
          ap
            (λ s. record (numbers_read m) {
              nm_port = m.nm_port;
              access = m.access;
              target_user = m.target_user;
              checkpoint_tag = clip_to max_username u;
              sender = s;
            })
            (fits max_username m.sender w.sender.0))
        (omega arith) w.checkpoint_tag
    ∙ read_fields_last m.payload _ w.payload
    ∙ set_field-string _ 14 max_buffer
        (λ s. record m { target_path = clip_to max_filename m.target_path; payload = s }) m.payload
        refl (λ u. refl)
    ∙ ap (λ s. record m { target_path = clip_to max_filename m.target_path; payload = s })
        (fits max_buffer m.payload w.payload)
