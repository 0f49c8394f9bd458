-- ===== src/Document/Parse.antt =====
-- file_ops.c: `parse_file` on the bytes of the file, one character at a time.
use docs_plus_plus.Base.{
  ℕ, ◌-◌, Option, none, some, List, [], ◌∷◌, ◌++◌, Text, ltb, leb, if◌then◌else◌, length,
}
use docs_plus_plus.Document.{max_word, Sentence, is_blank, is_newline, is_delimiter}

-- The finished sentences, the tokens of the sentence at `current_sent`, and `word[0 .. word_idx)`.
pub record ParseState : Type 0 where
  pub sentences : List Sentence
  pub current : Sentence
  pub word : Text

-- `sent->words[sent->word_count++] = strdup(token)`
unfoldable pub add_token : ParseState → Text → ParseState
add_token st token = record st { current = st.current ++ token ∷ [] }

-- `if (word_idx > 0) { ... word_idx = 0; }`
unfoldable pub flush_word : ParseState → ParseState
unfolding add_token
flush_word st = elim (st.word) [ [] ↦ st | c ∷ cs ↦ record (add_token st (c ∷ cs)) { word = [] } ]

-- `current_sent++` after a delimiter.
unfoldable pub start_sentence : ParseState → ParseState
start_sentence st = record st { sentences = st.sentences ++ st.current ∷ []; current = [] }

-- The last branch of the loop: a word that fills the buffer is saved at once.
unfoldable pub add_letter : ParseState → ℕ → ParseState
unfolding flush_word
add_letter st c =
    let longer = record st { word = st.word ++ c ∷ [] } in
    if leb (max_word - 1) (length longer.word) then flush_word longer else longer

-- The branches for a character that is no space, tab or carriage return.
unfoldable pub read_other : ParseState → ℕ → ParseState
unfolding add_token flush_word start_sentence add_letter
read_other st c =
    if is_newline c
    then add_token (flush_word st) (c ∷ [])
    else if is_delimiter c
    then start_sentence (add_token (flush_word st) (c ∷ []))
    else add_letter st c

-- The inner loop's `if (space_idx < MAX_WORD - 1) space_buf[space_idx++] = next`.
unfoldable pub add_blank : Text → ℕ → Text
add_blank buf c = if ltb (length buf) (max_word - 1) then buf ++ c ∷ [] else buf

-- One character. `some buf` stands for the inner loop that collects a run of blanks in
-- `space_buf`; the first other character ends the run and is read again by the outer loop.
unfoldable pub read_char : ParseState × Option Text → ℕ → ParseState × Option Text
unfolding add_token flush_word read_other add_blank
read_char (st, none) c =
    if is_blank c then (flush_word st, some (c ∷ [])) else (read_other st c, none)
read_char (st, some buf) c =
    if is_blank c then (st, some (add_blank buf c)) else (read_other (add_token st buf) c, none)

unfoldable pub read_all : ParseState × Option Text → Text → ParseState × Option Text
unfolding read_char
read_all st [] = st
read_all st (c ∷ cs) = read_all (read_char st c) cs

-- The end of the file: a run of blanks ends, and the remaining word is saved.
unfoldable pub finish : ParseState × Option Text → ParseState
unfolding add_token flush_word
finish (st, none) = flush_word st
finish (st, some buf) = flush_word (add_token st buf)

-- `sentence_count`: the sentence after the last delimiter counts only if it has words.
unfoldable pub counted : ParseState → List Sentence
counted st = elim (st.current) [ [] ↦ st.sentences | w ∷ ws ↦ st.sentences ++ (w ∷ ws) ∷ [] ]

abbrev pub start : ParseState
start = record { sentences = []; current = []; word = [] }

-- `parse_file`, once the file is open.
unfoldable pub parse_file : Text → List Sentence
unfolding read_all finish counted
parse_file bytes = counted (finish (read_all (start, none) bytes))
