-- ===== src/Document/Stats/Words.antt =====
-- file_ops.c: the word count of `get_file_stats` against the tokens of `parse_file`.
use docs_plus_plus.Base.{
  ℕ, ◌+◌, ◌-◌, ◌≡◌, refl, sym, ap, ◌∙◌, inl, inr, Bool, true, false, ◌&&◌, ◌||◌, not, List, [], ◌∷◌,
  ◌++◌, append-nil, append_assoc, Text, ltb, if◌then◌else◌, concat, concat-append, Bool-cases,
  arith,
}
use docs_plus_plus.Document.{
  max_word, is_blank, is_newline, is_delimiter, all_blank, is_space_token, is_newline_token,
  should_skip_for_indexing, is_delimiter_token,
}
use docs_plus_plus.Document.Parse.{ParseState, add_token, flush_word, start_sentence}
use docs_plus_plus.Document.Stats.{Stats, end_word}

-- A token that is neither blank nor a delimiter.
unfoldable pub is_word : Text → Bool
unfolding should_skip_for_indexing is_delimiter_token
is_word token = not (should_skip_for_indexing token) && not (is_delimiter_token token)

abbrev one_if : Bool → ℕ
one_if true = 1
one_if false = 0

unfoldable pub word_tokens : List Text → ℕ
word_tokens [] = 0
word_tokens (t ∷ ts) = one_if (is_word t) + word_tokens ts

abbrev pub is_letter : ℕ → Bool
is_letter c = not (is_blank c || is_newline c) && not (is_delimiter c)

-- No word has 127 letters or more; `n` letters of the current one have been read.
unfoldable pub words_fit : ℕ → Text → Bool
words_fit n [] = true
words_fit n (c ∷ cs) =
    if is_letter c then ltb (n + 1) (max_word - 1) && words_fit (n + 1) cs else words_fit 0 cs

word_tokens-append : (ts us : List Text) → word_tokens (ts ++ us) ≡ word_tokens ts + word_tokens us
unfolding word_tokens
word_tokens-append [] us = omega arith
word_tokens-append (t ∷ ts) us = omega (arith, word_tokens-append ts us)

abbrev pub tokens : ParseState → List Text
tokens st = concat st.sentences ++ st.current

tokens-add_token :
    (st : ParseState) (t : Text)
    → word_tokens (tokens (add_token st t)) ≡ word_tokens (tokens st) + one_if (is_word t)
unfolding add_token word_tokens
tokens-add_token st t =
    ap word_tokens (sym (append_assoc (concat st.sentences) st.current (t ∷ [])))
    ∙ omega (arith, word_tokens-append (tokens st) (t ∷ []))

tokens-start_sentence :
    (st : ParseState) → word_tokens (tokens (start_sentence st)) ≡ word_tokens (tokens st)
unfolding start_sentence
tokens-start_sentence st =
    rw (concat-append st.sentences (st.current ∷ [])) (simp (append-nil) refl)

-- A word in the making: letters only.
abbrev pub all_letters : Text → Bool
all_letters [] = true
all_letters (c ∷ cs) = is_letter c && all_letters cs

abbrev pub is_inside : Text → Bool
is_inside [] = false
is_inside (c ∷ cs) = true

letters-is_word : (c : ℕ) (cs : Text) → all_letters (c ∷ cs) ≡ true → is_word (c ∷ cs) ≡ true
unfolding is_word should_skip_for_indexing is_delimiter_token is_space_token is_newline_token
    all_blank
letters-is_word c [] h = ground arith
letters-is_word c (d ∷ cs) h = ground arith

abbrev mk : List (List Text) → List Text → Text → ParseState
mk sentences current word = record { sentences = sentences; current = current; word = word }

flushed_mk :
    (ss : List (List Text)) (cur : List Text) (w : Text)
    → all_letters w ≡ true
    → (word_tokens (tokens (flush_word (mk ss cur w)))
        ≡ word_tokens (concat ss ++ cur) + one_if (is_inside w))
      × ((flush_word (mk ss cur w)).word ≡ [])
unfolding flush_word
flushed_mk ss cur [] h = (omega arith, refl)
flushed_mk ss cur (c ∷ cs) h =
    (tokens-add_token (mk ss cur []) (c ∷ cs) ∙ rw (letters-is_word c cs h) refl, refl)

pub flushed :
    (st : ParseState)
    → all_letters st.word ≡ true
    → (word_tokens (tokens (flush_word st)) ≡ word_tokens (tokens st) + one_if (is_inside st.word))
      × ((flush_word st).word ≡ [])
flushed st = flushed_mk st.sentences st.current st.word

-- What the parser has read is what has been counted, while no run of blanks is collected.
pub record Agrees (st : ParseState) (s : Stats) : Type 0 where
  pub words : word_tokens (tokens st) ≡ s.word_count
  pub inside : s.in_word ≡ is_inside st.word
  pub letters : all_letters st.word ≡ true

abbrev pub one_more : Stats → Stats
one_more s = record s { char_count = s.char_count + 1 }

end_word-fields :
    (s : Stats)
    → ((end_word s).word_count ≡ s.word_count + one_if s.in_word) × ((end_word s).in_word ≡ false)
unfolding end_word
end_word-fields s = elim (Bool-cases s.in_word) [
  | inl e ↦ rw e (refl, refl)
  | inr e ↦ rw e (omega arith, refl)
]

-- A word ends on both sides.
pub ended :
    (st : ParseState) (s : Stats)
    → Agrees st s
    → Agrees (flush_word st) (end_word s) × ((flush_word st).word ≡ [])
ended st s a =
    let (count, cleared) = flushed st a.letters in
    let (more, outside) = end_word-fields s in
    (
      record {
        words = count ∙ rw (a.words, ← a.inside) (sym more);
        inside = outside ∙ rw cleared refl;
        letters = rw cleared refl;
      },
      cleared,
    )

-- A token that is no word makes no difference.
pub added :
    (st : ParseState) (s : Stats) (t : Text)
    → Agrees st s
    → is_word t ≡ false
    → Agrees (add_token st t) s
unfolding add_token
added st s t a plain = record {
  words = tokens-add_token st t ∙ rw plain (omega (arith, a.words));
  inside = a.inside;
  letters = a.letters;
}

pub sentence_started : (st : ParseState) (s : Stats) → Agrees st s → Agrees (start_sentence st) s
unfolding start_sentence
sentence_started st s a = record {
  words = tokens-start_sentence st ∙ a.words;
  inside = a.inside;
  letters = a.letters;
}
