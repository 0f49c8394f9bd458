-- ===== src/Client.antt =====
-- client.c: the lines that a user types in a write session, and the messages that they become.
pub mod Session
pub mod Answers
pub mod Exchanges
pub mod Redirections
pub mod Streaming
pub mod Editing
pub mod Typing
pub mod Commands
use docs_plus_plus.Base.{
  ℕ, ◌+◌, ◌-◌, ◌*◌, ℤ, pos, negsuc, Bool, true, false, ◌||◌, ◌&&◌, Option, none, some, List, [],
  ◌∷◌, ◌++◌, Text, codes, text_eq, ltb, ◌==◌, if◌then◌else◌, length, take, ◌^◌,
}
use docs_plus_plus.Codes.{max_buffer}
use docs_plus_plus.Wire.{Message, init_message, atoi_digits, negate, is_digit, is_space, msg_ack}

-- The blanks of `trim_whitespace`.
abbrev pub is_trimmed : ℕ → Bool
is_trimmed c = c == b' ' || (c == 9 || (c == 10 || c == 13))

unfoldable pub keep_before : ℕ → Text → Text
keep_before c [] = if is_trimmed c then [] else c ∷ []
keep_before c (d ∷ ds) = c ∷ d ∷ ds

-- "Trim trailing space"
unfoldable pub trim_end : Text → Text
unfolding keep_before
trim_end [] = []
trim_end (c ∷ cs) = keep_before c (trim_end cs)

-- What `trim_whitespace` leaves in the caller's buffer: the blanks at the start stay, since only
-- the local pointer moves over them, and so does a text of blanks alone.
unfoldable pub trim_whitespace : Text → Text
unfolding trim_end
trim_whitespace str = elim (trim_end str) [ [] ↦ str | c ∷ cs ↦ c ∷ cs ]

-- The character that an escape stands for.
unfoldable pub escaped : ℕ → ℕ
escaped c = if c == b'n' then 10 else if c == b't' then 9 else if c == b'r' then 13 else c

-- `process_escape_sequences`; a NUL ends the string.
unfoldable pub process_escape_sequences : Text → Text
unfolding escaped
process_escape_sequences [] = []
process_escape_sequences (c ∷ []) = c ∷ []
process_escape_sequences (c ∷ d ∷ cs) =
    let after_escape = process_escape_sequences cs in
    let after_letter = process_escape_sequences (d ∷ cs) in
    if c == b'\\' then (if d == b'0' then [] else escaped d ∷ after_escape) else c ∷ after_letter

-- The digits of `sscanf` with `%d`; at least one is needed.
unfoldable pub scan_digits : (ℕ → ℤ) → Text → Option ℤ
unfolding atoi_digits
scan_digits sign [] = none
scan_digits sign (c ∷ cs) = if is_digit c then some (sign (atoi_digits (c ∷ cs) 0)) else none

-- `sscanf(line, "%d", &word_idx)`, as the number that is written; `write_input` tells whether `int`
-- holds it.
unfoldable pub scan_int : Text → Option ℤ
unfolding scan_digits negate
scan_int [] = none
scan_int (c ∷ cs) =
    let skipped = scan_int cs in
    if is_space c
    then skipped
    else if c == b'-'
    then scan_digits negate cs
    else if c == b'+'
    then scan_digits pos cs
    else scan_digits pos (c ∷ cs)

-- `first_space + 1`
unfoldable pub after_space : Text → Option Text
after_space [] = none
after_space (c ∷ cs) = let rest = after_space cs in if c == b' ' then some cs else rest

unfoldable pub before_newline : ℕ → Text → Text
before_newline c [] = if c == 10 then [] else c ∷ []
before_newline c (d ∷ ds) = c ∷ d ∷ ds

-- "Remove only the trailing newline if present"
unfoldable pub drop_newline : Text → Text
unfolding before_newline
drop_newline [] = []
drop_newline (c ∷ []) = before_newline c []
drop_newline (c ∷ d ∷ cs) = c ∷ drop_newline (d ∷ cs)

-- What a line of a write session is: its end, a line that is refused, a word index and a content,
-- or an index that `int` does not hold, for which the behaviour of `sscanf` is undefined.
pub data Input : Type 0 where
  etirw invalid out_of_int : Input
  write : ℤ → Text → Input

-- `int` holds the number.
unfoldable pub is_int : ℤ → Bool
is_int (pos n) = ltb n (2 ^ 31)
is_int (negsuc n) = ltb n (2 ^ 31)

unfoldable pub write_input : Option ℤ → Option Text → Input
unfolding process_escape_sequences drop_newline is_int
write_input none rest = invalid
write_input (some word_idx) none = if is_int word_idx then invalid else out_of_int
write_input (some word_idx) (some rest) =
    if is_int word_idx
    then write word_idx (process_escape_sequences (drop_newline rest))
    else out_of_int

unfoldable pub read_input : Text → Input
unfolding trim_whitespace write_input scan_int after_space
read_input line =
    let trimmed = trim_whitespace line in
    if text_eq trimmed (codes "ETIRW")
    then etirw
    else write_input (scan_int trimmed) (after_space trimmed)

-- `fgets(line, sizeof(line), stdin)` on what is typed up to a newline.
unfoldable pub fgets : Text → Text
fgets typed_text = take (max_buffer - 1) typed_text

-- `MSG_WRITE`, by its place in the enumeration.
abbrev pub msg_write : ℤ
msg_write = pos 4

-- "Prepare write message"
unfoldable pub write_message : Text → Text → ℤ → ℤ → Text → Message
unfolding init_message
write_message username filename sent_idx word_idx content = record init_message {
  kind = msg_write;
  filename = filename;
  sender = username;
  sentence_index = sent_idx;
  word_index = word_idx;
  payload = content;
}
