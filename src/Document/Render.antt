-- ===== src/Document/Render.antt =====
-- file_ops.c: `write_file_content` and `file_content_to_string`, as the bytes that they write.
use docs_plus_plus.Base.{◌||◌, List, [], ◌∷◌, ◌++◌, Text, if◌then◌else◌}
use docs_plus_plus.Document.{Sentence, is_space_token, is_newline_token, is_delimiter_token}

abbrev pub space : Text
space = b' ' ∷ []

-- What goes between two tokens of one sentence.
unfoldable pub word_gap : Text → Text → Text
word_gap cur next =
    if is_space_token cur
      || (is_space_token next || (is_newline_token cur || is_newline_token next))
    then []
    else if is_delimiter_token cur || is_delimiter_token next
    then []
    else space

-- The loop over the words of a sentence.
unfoldable pub render_words : Sentence → Text
unfolding word_gap
render_words [] = []
render_words (w ∷ []) = w
render_words (w ∷ w' ∷ ws) = w ++ (word_gap w w' ++ render_words (w' ∷ ws))

unfoldable pub first_gap : Sentence → Text
first_gap [] = space
first_gap (first ∷ ws) = if is_space_token first || is_newline_token first then [] else space

-- What goes before the next sentence, given the last token of the one before it.
unfoldable pub gap_before : Text → Sentence → Text
unfolding first_gap
gap_before last next = if is_newline_token last || is_space_token last then [] else first_gap next

-- `sentences[i].words[word_count - 1]`, in a sentence that has words.
unfoldable pub sentence_gap : Sentence → Sentence → Text
unfolding gap_before
sentence_gap [] next = []
sentence_gap (w ∷ []) next = gap_before w next
sentence_gap (w ∷ w' ∷ ws) next = sentence_gap (w' ∷ ws) next

-- `write_file_content`: the loop over the sentences.
unfoldable pub render : List Sentence → Text
unfolding render_words sentence_gap
render [] = []
render (s ∷ []) = render_words s
render (s ∷ s' ∷ ss) = render_words s ++ (sentence_gap s s' ++ render (s' ∷ ss))
