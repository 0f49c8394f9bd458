-- ===== src/Document/SplitOverflow.antt =====
-- file_ops.c: where `split_by_delimiters` writes outside its buffer.
use docs_plus_plus.Base.{
  ℕ, ◌+◌, ◌≤◌, ◌<◌, ◌≡◌, refl, ap, inl, inr, true, false, ◌||◌, Option, none, some, List, [], ◌∷◌,
  ◌++◌, Text, leb, if◌then◌else◌, length, length-append, arith, Bool-cases, dec_lt,
}
use docs_plus_plus.Document.{max_word, is_blank, is_newline, is_delimiter}
use docs_plus_plus.Document.Split.{
  SplitState, save_buffer, push_letter, end_blanks, split_other, split_char, split_loop,
  split_by_delimiters, ◌>>=◌,
}

abbrev mk : List Text → Text → Option Text → SplitState
mk parts buffer blanks = record { parts = parts; buffer = buffer; blanks = blanks }

-- The first run of letters, `n` letters of which have been read.
unfoldable pub word_length : ℕ → Text → ℕ
word_length n [] = n
word_length n (c ∷ cs) =
    let longer = word_length (n + 1) cs in
    if is_blank c || (is_newline c || is_delimiter c) then n else longer

save_buffer_full :
    (ps : List Text) (buffer : Text)
    → max_word ≤ length buffer
    → save_buffer (mk ps buffer none) ≡ none
unfolding save_buffer
save_buffer_full ps [] h = absurd (omega arith)
save_buffer_full ps (c ∷ cs) h = rw full refl
  where
    full : leb max_word (length (c ∷ cs)) ≡ true
    full = ground arith

abbrev finish_split : Option SplitState → Option (List Text)
finish_split r = do st ← r; saved ← save_buffer (end_blanks st); some saved.parts

-- With a full buffer only a letter is read, and `push_letter` refuses it.
split_char_full :
    (ps : List Text) (buffer : Text) (c : ℕ)
    → max_word ≤ length buffer
    → split_char (mk ps buffer none) c ≡ none
unfolding split_char split_other push_letter
split_char_full ps buffer c h = elim (Bool-cases (is_blank c)) [
  | inl blank ↦ rw (blank, save_buffer_full ps buffer h) refl
  | inr letter ↦ elim (Bool-cases (is_newline c)) [
    | inl nl ↦ rw (letter, nl, save_buffer_full ps buffer h) refl
    | inr no_nl ↦ elim (Bool-cases (is_delimiter c)) [
      | inl delim ↦ rw (letter, no_nl, delim, save_buffer_full ps buffer h) refl
      | inr word ↦ rw (letter, no_nl, word, full) refl
    ]
  ]
]
  where
    full : leb max_word (length buffer) ≡ true
    full = ground arith

split_char_letter :
    (ps : List Text) (buffer : Text) (c : ℕ)
    → length buffer < max_word
    → (is_blank c || (is_newline c || is_delimiter c)) ≡ false
    → split_char (mk ps buffer none) c ≡ some (mk ps (buffer ++ c ∷ []) none)
unfolding split_char split_other push_letter
split_char_letter ps buffer c h letter = elim (Bool-cases (is_blank c)) [
  | inl blank ↦ absurd (cc (rw blank at letter))
  | inr a ↦ elim (Bool-cases (is_newline c)) [
    | inl nl ↦ absurd (cc (rw (a, nl) at letter))
    | inr b ↦ rw (a, b, (rw (a, b) at letter), room) refl
  ]
]
  where
    room : leb max_word (length buffer) ≡ false
    room = ground arith

split_loop_overflow :
    (cs : Text) (ps : List Text) (buffer : Text)
    → max_word ≤ word_length (length buffer) cs
    → finish_split (split_loop (mk ps buffer none) cs) ≡ none
unfolding split_loop word_length
split_loop_overflow [] ps buffer h = unfold end_blanks in rw (save_buffer_full ps buffer h) refl
split_loop_overflow (c ∷ cs) ps buffer h = elim (dec_lt (length buffer) max_word) [
  | yes room ↦ elim (Bool-cases (is_blank c || (is_newline c || is_delimiter c))) [
    | inl ends ↦ absurd (omega (arith, (rw ends at h)))
    | inr letter ↦
        rw (split_char_letter ps buffer c room letter, split_loop)
          (split_loop_overflow cs ps (buffer ++ c ∷ [])
            (omega (arith, (rw letter at h), ap (λ n. word_length n cs) (longer c))))
  ]
  | no full ↦ rw (split_char_full ps buffer c (omega arith), split_loop) refl
]
  where
    longer : (d : ℕ) → length (buffer ++ d ∷ []) ≡ length buffer + 1
    longer d = omega (arith, length-append buffer (d ∷ []))

-- A text that begins with `MAX_WORD` letters or more makes `split_by_delimiters` write outside
-- its buffer.
pub split_by_delimiters_overflow :
    (word : Text) → max_word ≤ word_length 0 word → split_by_delimiters word ≡ none
unfolding split_by_delimiters
split_by_delimiters_overflow word h = split_loop_overflow word [] [] h
