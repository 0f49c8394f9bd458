-- ===== src/Document/Stats.antt =====
-- file_ops.c: `get_file_stats`, the numbers of words and characters of a file.
pub mod Words
pub mod Reading
pub mod Count
use docs_plus_plus.Base.{ℕ, ◌+◌, Bool, true, false, ◌||◌, List, [], ◌∷◌, Text, if◌then◌else◌}
use docs_plus_plus.Document.{is_blank, is_newline, is_delimiter}

pub record Stats : Type 0 where
  pub word_count : ℕ
  pub char_count : ℕ
  pub in_word : Bool

-- A word that ends is counted.
unfoldable pub end_word : Stats → Stats
end_word s = if s.in_word then record s { word_count = s.word_count + 1; in_word = false } else s

-- One character.
unfoldable pub count_char : Stats → ℕ → Stats
unfolding end_word
count_char s c =
    let more = record s { char_count = s.char_count + 1 } in
    if is_blank c || is_newline c
    then end_word more
    else if is_delimiter c
    then end_word more
    else record more { in_word = true }

unfoldable pub count_chars : Stats → Text → Stats
count_chars s [] = s
count_chars s (c ∷ cs) = count_chars (count_char s c) cs

abbrev pub no_stats : Stats
no_stats = record { word_count = 0; char_count = 0; in_word = false }

-- `get_file_stats`, once the file is open: the words and the characters.
unfoldable pub get_file_stats : Text → ℕ × ℕ
get_file_stats bytes = let s = end_word (count_chars no_stats bytes) in (s.word_count, s.char_count)
