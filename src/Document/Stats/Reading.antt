-- ===== src/Document/Stats/Reading.antt =====
-- file_ops.c: one character of a file, for `parse_file` and for `get_file_stats`.
use docs_plus_plus.Base.{
  ℕ, ◌+◌, ◌-◌, ◌≡◌, refl, inl, inr, true, false, [], ◌∷◌, ◌++◌, Text, ltb, leb, length,
  length-append, Bool-cases, and_parts, arith,
}
use docs_plus_plus.Document.{
  max_word, is_blank, is_newline, is_delimiter, all_blank, is_space_token, is_newline_token,
  should_skip_for_indexing, is_delimiter_token,
}
use docs_plus_plus.Document.Parse.{
  ParseState, add_token, flush_word, start_sentence, add_letter, read_other,
}
use docs_plus_plus.Document.Stats.{Stats, end_word, count_char}
use docs_plus_plus.Document.Stats.Words.{
  is_word, is_letter, words_fit, all_letters, is_inside, Agrees, one_more, ended, added,
  sentence_started, flushed,
}

module _ (c : ℕ) (s : Stats) where
  count_char-letter : is_letter c ≡ true → count_char s c ≡ record (one_more s) { in_word = true }
  unfolding count_char
  count_char-letter h = ground arith

  pub count_char-other : is_letter c ≡ false → count_char s c ≡ end_word (one_more s)
  unfolding count_char
  count_char-other h = ground arith

plain_token : (c : ℕ) → is_letter c ≡ false → is_word (c ∷ []) ≡ false
unfolding is_word should_skip_for_indexing is_delimiter_token is_space_token is_newline_token
    all_blank
plain_token c h = ground arith

-- A character that ends words, on both sides.
module _ (st : ParseState) (s : Stats) (c : ℕ) (rest : Text) (a : Agrees st s)
    (plain : is_letter c ≡ false) where
  other_read : Agrees (add_token (flush_word st) (c ∷ [])) (count_char s c)
  other_read = rw (count_char-other c s plain) (
      added (flush_word st) (end_word (one_more s)) (c ∷ [])
        (ended st (one_more s)
          (record { words = a.words; inside = a.inside; letters = a.letters })).0
        (plain_token c plain))

  word_other : (add_token (flush_word st) (c ∷ [])).word ≡ []
  unfolding add_token
  word_other = (flushed st a.letters).1

  fits_other : (n : ℕ) → words_fit n (c ∷ rest) ≡ true → words_fit 0 rest ≡ true
  unfolding words_fit
  fits_other n fits = rw plain at fits

all_letters-append :
    (w : Text) (c : ℕ)
    → all_letters w ≡ true
    → is_letter c ≡ true
    → all_letters (w ++ c ∷ []) ≡ true
all_letters-append [] c h l = rw l refl
all_letters-append (d ∷ w) c h l =
    let parts = and_parts {a = is_letter d} h in rw (parts.0, all_letters-append w c parts.1 l) refl

is_inside-append : (w : Text) (c : ℕ) → true ≡ is_inside (w ++ c ∷ [])
is_inside-append [] c = refl
is_inside-append (d ∷ w) c = refl

add_letter-fits :
    (st : ParseState) (c : ℕ)
    → ltb (length st.word + 1) (max_word - 1) ≡ true
    → add_letter st c ≡ record st { word = st.word ++ c ∷ [] }
unfolding add_letter
add_letter-fits st c fits = rw (short, add_letter) refl
  where
    short : leb (max_word - 1) (length (st.word ++ c ∷ [])) ≡ false
    short = ground (arith, length-append st.word (c ∷ []))

-- A letter continues the word, on both sides.
letter_read :
    (st : ParseState) (s : Stats) (c : ℕ) (rest : Text)
    → Agrees st s
    → is_letter c ≡ true
    → words_fit (length st.word) (c ∷ rest) ≡ true
    → Agrees (add_letter st c) (count_char s c)
      × (words_fit (length (add_letter st c).word) rest ≡ true)
unfolding words_fit
letter_read st s c rest a letter fits =
    let (short, later) = and_parts (rw letter at fits) in
    rw (add_letter-fits st c short, count_char-letter c s letter, length-append st.word (c ∷ []))
      (
        record {
          words = a.words;
          inside = is_inside-append st.word c;
          letters = all_letters-append st.word c a.letters letter;
        },
        later,
      )

module _ (st : ParseState) (c : ℕ) where
  read_other-newline : is_newline c ≡ true → read_other st c ≡ add_token (flush_word st) (c ∷ [])
  unfolding read_other
  read_other-newline e = rw (e, read_other) refl

  read_other-delimiter :
      is_newline c ≡ false
      → is_delimiter c ≡ true
      → read_other st c ≡ start_sentence (add_token (flush_word st) (c ∷ []))
  unfolding read_other
  read_other-delimiter e d = rw (e, read_other, d) refl

  read_other-letter :
      is_newline c ≡ false → is_delimiter c ≡ false → read_other st c ≡ add_letter st c
  unfolding read_other
  read_other-letter e d = rw (e, read_other, d) refl

start_sentence-word : (st : ParseState) → (start_sentence st).word ≡ st.word
unfolding start_sentence
start_sentence-word st = refl

-- A character that is no blank.
pub read_other-Agrees :
    (st : ParseState) (s : Stats) (c : ℕ) (rest : Text)
    → is_blank c ≡ false
    → Agrees st s
    → words_fit (length st.word) (c ∷ rest) ≡ true
    → Agrees (read_other st c) (count_char s c)
      × (words_fit (length (read_other st c).word) rest ≡ true)
read_other-Agrees st s c rest other a fits = elim (Bool-cases (is_newline c)) [
  | inl newline ↦
      rw (read_other-newline st c newline)
        (other_read st s c rest a (ground arith), cleared (ground arith))
  | inr on ↦ elim (Bool-cases (is_delimiter c)) [
    | inl delimiter ↦
        rw (read_other-delimiter st c on delimiter)
          (sentence_started _ _ (other_read st s c rest a (ground arith)), started (ground arith))
    | inr letter ↦
        rw (read_other-letter st c on letter) (letter_read st s c rest a (ground arith) fits)
  ]
]
  where
    cleared :
        is_letter c ≡ false
        → words_fit (length (add_token (flush_word st) (c ∷ [])).word) rest ≡ true
    cleared plain =
        rw (word_other st s c rest a plain) (fits_other st s c rest a plain (length st.word) fits)

    started :
        is_letter c ≡ false
        → words_fit (length (start_sentence (add_token (flush_word st) (c ∷ []))).word) rest ≡ true
    started plain = rw (start_sentence-word (add_token (flush_word st) (c ∷ []))) (cleared plain)
