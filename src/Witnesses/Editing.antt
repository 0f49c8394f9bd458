-- ===== src/Witnesses/Editing.antt =====
-- file_ops.c at concrete inputs.
use docs_plus_plus.Base.{
  ℕ, ◌+◌, ◌≡◌, refl, pos, none, some, List, [], ◌∷◌, Text, replicate, length, concat, take, arith,
}
use docs_plus_plus.Document.{
  Sentence, is_blank, is_newline, is_delimiter, is_newline_token, is_space_token,
  should_skip_for_indexing, is_delimiter_token, all_blank,
}
use docs_plus_plus.Document.Parse.{parse_file}
use docs_plus_plus.Document.Split.{split_by_delimiters}
use docs_plus_plus.Document.Insert.{FileContent, real_word_count, insert_word_in_sentence}
use docs_plus_plus.Document.Content.{blanks_fit, concat-parse_file}
use docs_plus_plus.Document.Stats.{get_file_stats}
use docs_plus_plus.Document.Stats.Words.{word_tokens, words_fit}
use docs_plus_plus.Document.Stats.Count.{get_file_stats-parse_file}
use docs_plus_plus.Document.SplitLaws.{runs_fit}
use docs_plus_plus.Document.SplitOverflow.{word_length, split_by_delimiters_overflow}
use docs_plus_plus.Document.Insertion.{Inserts, insert_word_in_sentence-Inserts}

-- `a b.` and `c. d`
abbrev a_b : Text
a_b = 97 ∷ 32 ∷ 98 ∷ 46 ∷ []

abbrev c_d : Text
c_d = 99 ∷ 46 ∷ 32 ∷ 100 ∷ []

concat-parse_file_example : concat (concat (parse_file a_b)) ≡ a_b
unfolding blanks_fit is_blank
concat-parse_file_example = concat-parse_file a_b refl

split_by_delimiters_overflow_example : split_by_delimiters (replicate 130 97) ≡ none
unfolding word_length is_blank is_newline is_delimiter
split_by_delimiters_overflow_example = split_by_delimiters_overflow (replicate 130 97) (omega arith)

-- The tokens of `a b.`
abbrev some_sentence : Sentence
some_sentence = (97 ∷ []) ∷ (32 ∷ []) ∷ (98 ∷ []) ∷ (46 ∷ []) ∷ []

abbrev some_file : FileContent
some_file = record { sentences = some_sentence ∷ []; sentence_count = 1 }

insert_word_in_sentence-Inserts_example :
    (place : ℕ) × (parts : List Text) × (real_word_count (take place some_sentence) + 1 ≡ 2)
    × (split_by_delimiters c_d ≡ some parts)
    × (concat parts ≡ c_d)
    × Inserts some_file 0 place some_sentence parts
        (insert_word_in_sentence some_file (pos 0) (pos 2) c_d)
unfolding real_word_count is_newline_token is_space_token should_skip_for_indexing
    is_delimiter_token all_blank runs_fit is_blank is_newline is_delimiter
insert_word_in_sentence-Inserts_example =
    insert_word_in_sentence-Inserts some_file 0 2 some_sentence c_d refl refl (omega arith)
      (omega arith) refl

get_file_stats-parse_file_example :
    get_file_stats a_b ≡ (word_tokens (concat (parse_file a_b)), length a_b)
unfolding words_fit is_blank is_newline is_delimiter
get_file_stats-parse_file_example = get_file_stats-parse_file a_b refl
