-- ===== src/Document/Stats/Count.antt =====
-- file_ops.c: the counts of `get_file_stats` are those of the tokens of `parse_file`.
use docs_plus_plus.Base.{
  ℕ, ◌+◌, ◌-◌, ◌≡◌, refl, subst, sym, ap, ◌∙◌, inl, inr, true, false, Option, none, some, List, [],
  ◌∷◌, ◌++◌, append-nil, Text, ltb, length, concat, concat-append, Bool-cases, and_parts, arith,
}
use docs_plus_plus.Document.{
  max_word, is_blank, all_blank, is_space_token, should_skip_for_indexing,
}
use docs_plus_plus.Document.Parse.{
  ParseState, add_token, flush_word, read_other, add_blank, read_all, finish, counted, start,
  parse_file,
}
use docs_plus_plus.Document.Stats.{
  Stats, end_word, count_char, count_chars, no_stats, get_file_stats,
}
use docs_plus_plus.Document.Stats.Words.{
  is_word, word_tokens, is_letter, words_fit, tokens, Agrees, one_more, ended, added,
}
use docs_plus_plus.Document.Stats.Reading.{count_char-other, read_other-Agrees}

-- What the parser has read is what has been counted; a run of blanks is no word, and no word is in
-- the making then.
abbrev Simulates : ParseState × Option Text → Stats → Type 0
Simulates (st, none) s = Agrees st s
Simulates (st, some buf) s = Agrees st s × (st.word ≡ []) × (is_space_token buf ≡ true)

is_space_token-is_word : (buf : Text) → is_space_token buf ≡ true → is_word buf ≡ false
unfolding is_word should_skip_for_indexing
is_space_token-is_word buf e = rw e refl

all_blank-append :
    (buf : Text) (c : ℕ)
    → all_blank buf ≡ true
    → is_blank c ≡ true
    → all_blank (buf ++ c ∷ []) ≡ true
unfolding all_blank
all_blank-append [] c h b = rw b refl
all_blank-append (d ∷ buf) c h b =
    let parts = and_parts {a = is_blank d} h in rw (parts.0, all_blank-append buf c parts.1 b) refl

add_blank-is_space_token :
    (buf : Text) (c : ℕ)
    → is_space_token buf ≡ true
    → is_blank c ≡ true
    → is_space_token (add_blank buf c) ≡ true
unfolding add_blank is_space_token
add_blank-is_space_token [] c h b = cc
add_blank-is_space_token (d ∷ buf) c h b =
    elim (Bool-cases (ltb (length (d ∷ buf)) (max_word - 1))) [
      | inl room ↦ rw room (all_blank-append (d ∷ buf) c h b)
      | inr full ↦ rw full h
    ]

flush_mk-nil :
    (ss : List (List Text)) (cur : List Text) (w : Text)
    → w ≡ []
    → flush_word (record { sentences = ss; current = cur; word = w })
      ≡ record { sentences = ss; current = cur; word = w }
unfolding flush_word
flush_mk-nil ss cur [] e = refl
flush_mk-nil ss cur (c ∷ cs) e = absurd (cc)

flush_word-nil : (st : ParseState) → st.word ≡ [] → flush_word st ≡ st
flush_word-nil st e = flush_mk-nil st.sentences st.current st.word e

blank-is_letter : (c : ℕ) → is_blank c ≡ true → is_letter c ≡ false
blank-is_letter c h = ground arith

counted_more : (st : ParseState) (s : Stats) → Agrees st s → Agrees st (one_more s)
counted_more st s a = record { words = a.words; inside = a.inside; letters = a.letters }

words_fit-blank :
    (n c : ℕ) (rest : Text)
    → is_blank c ≡ true
    → words_fit n (c ∷ rest) ≡ true
    → words_fit 0 rest ≡ true
unfolding words_fit
words_fit-blank n c rest blank fits = rw (blank-is_letter c blank) at fits

blank-Agrees :
    (st : ParseState) (s : Stats) (c : ℕ)
    → is_blank c ≡ true
    → Agrees st s
    → Agrees (flush_word st) (count_char s c) × ((flush_word st).word ≡ [])
blank-Agrees st s c blank a =
    rw (count_char-other c s (blank-is_letter c blank))
      (ended st (one_more s) (counted_more st s a))

blank_token : (c : ℕ) → is_blank c ≡ true → is_space_token (c ∷ []) ≡ true
unfolding is_space_token all_blank
blank_token c blank = rw blank refl

read_all-Simulates :
    (p : ParseState × Option Text) (s : Stats) (bytes : Text)
    → Simulates p s
    → words_fit (length p.0.word) bytes ≡ true
    → Simulates (read_all p bytes) (count_chars s bytes)
unfolding read_all count_chars
read_all-Simulates p s [] sim fits = sim
read_all-Simulates (st, none) s (c ∷ cs) a fits = elim (Bool-cases (is_blank c)) [
  | inl blank ↦
      let (agrees, cleared) = blank-Agrees st s c blank a in
      rw blank (
        read_all-Simulates (flush_word st, some (c ∷ [])) (count_char s c) cs
          (agrees, cleared, blank_token c blank)
          (rw cleared (words_fit-blank (length st.word) c cs blank fits)))
  | inr other ↦
      let (agrees, later) = read_other-Agrees st s c cs other a fits in
      rw other (read_all-Simulates (read_other st c, none) (count_char s c) cs agrees later)
]
read_all-Simulates (st, some buf) s (c ∷ cs) (a, empty, spaces) fits =
    elim (Bool-cases (is_blank c)) [
      | inl blank ↦
          let (agrees, cleared) = blank-Agrees st s c blank a in
          rw blank (
            read_all-Simulates (st, some (add_blank buf c)) (count_char s c) cs
              (
                subst (λ x. Agrees x (count_char s c)) (flush_word-nil st empty) agrees,
                empty,
                add_blank-is_space_token buf c spaces blank,
              )
              (rw empty (words_fit-blank (length st.word) c cs blank fits)))
      | inr other ↦
          let (agrees, later) =
            read_other-Agrees (add_token st buf) s c cs other
              (added st s buf a (is_space_token-is_word buf spaces)) (unfold add_token in fits) in
          rw other (
            read_all-Simulates (read_other (add_token st buf) c, none) (count_char s c) cs agrees
              later)
    ]

concat-counted :
    (ss : List (List Text)) (cur : List Text) (w : Text)
    → concat (counted (record { sentences = ss; current = cur; word = w })) ≡ concat ss ++ cur
unfolding counted
concat-counted ss [] w = sym (append-nil (concat ss))
concat-counted ss (t ∷ ts) w = rw (concat-append ss ((t ∷ ts) ∷ [])) (simp (append-nil) refl)

finish-words :
    (p : ParseState × Option Text) (s : Stats)
    → Simulates p s
    → word_tokens (tokens (finish p)) ≡ (end_word s).word_count
unfolding finish
finish-words (st, none) s a = (ended st s a).0.words
finish-words (st, some buf) s (a, empty, spaces) =
    (ended (add_token st buf) s (added st s buf a (is_space_token-is_word buf spaces))).0.words

end_word-char_count : (s : Stats) → (end_word s).char_count ≡ s.char_count
unfolding end_word
end_word-char_count s = elim (Bool-cases s.in_word) [ inl e ↦ rw e refl | inr e ↦ rw e refl ]

count_char-char_count : (s : Stats) (c : ℕ) → (count_char s c).char_count ≡ s.char_count + 1
unfolding count_char
count_char-char_count s c = ground (arith, end_word-char_count (one_more s))

count_chars-char_count :
    (s : Stats) (bytes : Text) → (count_chars s bytes).char_count ≡ s.char_count + length bytes
unfolding count_chars
count_chars-char_count s [] = omega arith
count_chars-char_count s (c ∷ cs) =
    omega (arith, count_chars-char_count (count_char s c) cs, count_char-char_count s c)

-- The statistics of a file are those of the document that `parse_file` makes of it: the words are
-- its tokens that are neither blank nor a delimiter, and the characters are all bytes. No run of
-- letters may be of 127 bytes or more.
pub get_file_stats-parse_file :
    (bytes : Text)
    → words_fit 0 bytes ≡ true
    → get_file_stats bytes ≡ (word_tokens (concat (parse_file bytes)), length bytes)
unfolding get_file_stats parse_file word_tokens
get_file_stats-parse_file bytes fits =
    let p = read_all (start, none) bytes in
    let s = count_chars no_stats bytes in
    let sim : Simulates p s =
      read_all-Simulates (start, none) no_stats bytes
        (record { words = refl; inside = refl; letters = refl }) fits in
    let tokens_counted = concat-counted (finish p).sentences (finish p).current (finish p).word in
    let words : (end_word s).word_count ≡ word_tokens (concat (parse_file bytes)) =
      sym (ap word_tokens tokens_counted ∙ finish-words p s sim) in
    let chars : (end_word s).char_count ≡ length bytes =
      omega (arith, end_word-char_count s, count_chars-char_count no_stats bytes) in
    rw (words, chars) refl
