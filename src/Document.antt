-- ===== src/Document.antt =====
-- file_ops.c and file_ops.h: a document is a list of sentences, a sentence a list of word tokens.
-- The `capacity` fields and the growth of the arrays are left out: an array is the list of its
-- used slots.
pub mod Parse
pub mod Render
pub mod Split
pub mod Insert
pub mod Content
pub mod SplitLaws
pub mod SplitOverflow
pub mod Edit
pub mod Cut
pub mod Divide
pub mod Place
pub mod Insertion
pub mod Stats
use docs_plus_plus.Base.{ℕ, Bool, true, false, ◌&&◌, ◌||◌, List, [], ◌∷◌, Text, ◌==◌}

abbrev pub max_word : ℕ
max_word = 128

abbrev pub Sentence : Type 0
Sentence = List Text

-- `c == ' ' || c == '\t' || c == '\r'`
abbrev pub is_blank : ℕ → Bool
is_blank c = c == b' ' || (c == 9 || c == 13)

abbrev pub is_newline : ℕ → Bool
is_newline c = c == 10

abbrev pub is_delimiter : ℕ → Bool
is_delimiter c = c == b'.' || (c == b'!' || c == b'?')

-- The loop of `is_space_token`.
unfoldable pub all_blank : Text → Bool
all_blank [] = true
all_blank (c ∷ cs) = is_blank c && all_blank cs

unfoldable pub is_space_token : Text → Bool
unfolding all_blank
is_space_token [] = false
is_space_token (c ∷ cs) = all_blank (c ∷ cs)

unfoldable pub is_newline_token : Text → Bool
is_newline_token [] = false
is_newline_token (c ∷ []) = is_newline c
is_newline_token (c ∷ d ∷ cs) = false

unfoldable pub should_skip_for_indexing : Text → Bool
unfolding is_space_token is_newline_token
should_skip_for_indexing token = is_space_token token || is_newline_token token

-- `is_delimiter(token[0])`; the first character of the empty token is NUL.
unfoldable pub is_delimiter_token : Text → Bool
is_delimiter_token [] = false
is_delimiter_token (c ∷ cs) = is_delimiter c
