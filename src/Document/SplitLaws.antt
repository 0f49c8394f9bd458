-- ===== src/Document/SplitLaws.antt =====
-- file_ops.c: `split_by_delimiters` loses nothing while its buffers suffice.
use docs_plus_plus.Base.{
  ℕ, ◌+◌, ◌-◌, ◌<◌, ◌≡◌, refl, ap, ◌∙◌, sym, inl, inr, Bool, true, false, ◌&&◌, ◌||◌, Option, none,
  some, List, [], ◌∷◌, ◌++◌, append-nil, append_assoc, Text, ltb, leb, if◌then◌else◌, length,
  length-append, concat, concat-append, arith, Bool-cases,
}
use docs_plus_plus.Document.{max_word, is_blank, is_newline, is_delimiter}
use docs_plus_plus.Document.Parse.{add_blank}
use docs_plus_plus.Document.Split.{
  SplitState, save_buffer, push_letter, end_blanks, split_other, split_char, split_loop,
  split_start, split_by_delimiters,
}
use docs_plus_plus.Document.Content.{held}

-- No word and no run of blanks has `MAX_WORD` characters or more; `l` and `b` are the lengths of
-- the word and of the run that are being read.
unfoldable pub runs_fit : ℕ → ℕ → Text → Bool
runs_fit l b [] = true
runs_fit l b (c ∷ cs) =
    let in_blanks = ltb b (max_word - 1) && runs_fit 0 (b + 1) cs in
    let ended = runs_fit 0 0 cs in
    let in_word = ltb l (max_word - 1) && runs_fit (l + 1) 0 cs in
    if is_blank c then in_blanks else if is_newline c || is_delimiter c then ended else in_word

abbrev content : SplitState → Text
content st = concat st.parts ++ (st.buffer ++ held st.blanks)

abbrev mk : List Text → Text → Option Text → SplitState
mk parts buffer blanks = record { parts = parts; buffer = buffer; blanks = blanks }

abbrev Apart : Text → Option Text → Type 0
Apart buffer none = Unit {0}
Apart buffer (some buf) = buffer ≡ []

-- What is being read fits: a run of blanks or a word, never both.
abbrev Steady : SplitState → Type 0
Steady st = (length st.buffer < max_word) × Apart st.buffer st.blanks

abbrev fits : SplitState → Text → Bool
fits st cs = runs_fit (length st.buffer) (length (held st.blanks)) cs

-- A step that keeps what was read and the state in order.
abbrev Reads : Option SplitState → Text → Text → Type 0
Reads r read cs =
    (st' : SplitState) × (r ≡ some st') × (content st' ≡ read) × Steady st' × (fits st' cs ≡ true)

save_buffer_lem :
    (ps : List Text) (buffer : Text)
    → length buffer < max_word
    → (ps' : List Text) × (save_buffer (mk ps buffer none) ≡ some (mk ps' [] none))
      × (concat ps' ≡ concat ps ++ buffer)
unfolding save_buffer
save_buffer_lem ps [] h = (ps, refl, sym (append-nil (concat ps)))
save_buffer_lem ps (c ∷ cs) h = (
  ps ++ (c ∷ cs) ∷ [],
  rw (← small) refl,
  concat-append ps ((c ∷ cs) ∷ []) ∙ simp append-nil refl,
)
  where
    small : false ≡ leb max_word (length (c ∷ cs))
    small = ground arith

concat-snoc : (ps : List Text) (p : Text) → concat (ps ++ p ∷ []) ≡ concat ps ++ p
concat-snoc ps p = concat-append ps (p ∷ []) ∙ simp append-nil refl

push_letter_lem :
    (ps : List Text) (buffer : Text) (c : ℕ) (cs : Text)
    → length buffer < max_word
    → (ltb (length buffer) (max_word - 1) && runs_fit (length buffer + 1) 0 cs) ≡ true
    → Reads (push_letter (mk ps buffer none) c) (concat ps ++ (buffer ++ c ∷ [])) cs
unfolding push_letter
push_letter_lem ps buffer c cs h room = (
  mk ps (buffer ++ c ∷ []) none,
  rw small refl,
  simp append-nil refl,
  (ground (arith, longer), tt),
  rw longer (ground arith),
)
  where
    longer : length (buffer ++ c ∷ []) ≡ length buffer + 1
    longer = omega (arith, length-append buffer (c ∷ []))

    small : leb max_word (length buffer) ≡ false
    small = ground arith

-- A character that is no blank, outside a run of blanks.
split_other_lem :
    (ps : List Text) (buffer : Text) (c : ℕ) (cs : Text)
    → length buffer < max_word
    → is_blank c ≡ false
    → runs_fit (length buffer) 0 (c ∷ cs) ≡ true
    → Reads (split_other (mk ps buffer none) c) (concat ps ++ (buffer ++ c ∷ [])) cs
unfolding split_other runs_fit
split_other_lem ps buffer c cs h letter fit =
    let (ps', saved, kept) = save_buffer_lem ps buffer h in
    let token : concat (ps' ++ (c ∷ []) ∷ []) ++ [] ≡ concat ps ++ (buffer ++ c ∷ []) =
      append-nil _
      ∙ concat-snoc ps' (c ∷ [])
      ∙ ap (λ t. t ++ c ∷ []) kept
      ∙ append_assoc (concat ps) buffer (c ∷ []) in
    elim (Bool-cases (is_newline c)) [
      | inl nl ↦
          rw (nl, saved)
            (
              mk (ps' ++ (c ∷ []) ∷ []) [] none,
              refl,
              token,
              (omega arith, tt),
              rw (letter, nl) at fit,
            )
      | inr other ↦ elim (Bool-cases (is_delimiter c)) [
        | inl delim ↦
            rw (other, delim, saved)
              (
                mk (ps' ++ (c ∷ []) ∷ []) [] none,
                refl,
                token,
                (omega arith, tt),
                rw (letter, other, delim) at fit,
              )
        | inr word ↦
            let room : (ltb (length buffer) (max_word - 1) && runs_fit (length buffer + 1) 0 cs)
                ≡ true =
              rw (letter, other, word) at fit in
            rw (other, word) (push_letter_lem ps buffer c cs h room)
      ]
    ]

add_blank-room :
    (buf : Text) (c : ℕ) → ltb (length buf) (max_word - 1) ≡ true → add_blank buf c ≡ buf ++ c ∷ []
unfolding add_blank
add_blank-room buf c h = rw h refl

fit_blank :
    (l b c : ℕ) (cs : Text)
    → is_blank c ≡ true
    → runs_fit l b (c ∷ cs) ≡ true
    → (ltb b (max_word - 1) ≡ true) × (runs_fit 0 (b + 1) cs ≡ true)
unfolding runs_fit
fit_blank l b c cs blank fit =
    let both : (ltb b (max_word - 1) && runs_fit 0 (b + 1) cs) ≡ true = rw blank at fit in
    (ground arith, ground arith)

fit_other :
    (l b c : ℕ) (cs : Text) → is_blank c ≡ false → runs_fit l b (c ∷ cs) ≡ runs_fit l 0 (c ∷ cs)
unfolding runs_fit
fit_other l b c cs other = rw other refl

-- One character of the text.
split_char_lem :
    (ps : List Text) (buffer : Text) (blanks : Option Text) (c : ℕ) (cs : Text)
    → Steady (mk ps buffer blanks)
    → fits (mk ps buffer blanks) (c ∷ cs) ≡ true
    → Reads (split_char (mk ps buffer blanks) c) (content (mk ps buffer blanks) ++ c ∷ []) cs
unfolding split_char
split_char_lem ps buffer none c cs (h, _) fit = elim (Bool-cases (is_blank c)) [
  | inl blank ↦
      let (ps', saved, kept) = save_buffer_lem ps buffer h in
      rw (blank, saved)
        (
          mk ps' [] (some (c ∷ [])),
          refl,
          ap (λ t. t ++ c ∷ []) kept ∙ simp append-nil refl,
          (omega arith, refl),
          (fit_blank (length buffer) 0 c cs blank fit).1,
        )
  | inr other ↦ rw other (
      rw (append-nil buffer, append_assoc (concat ps) buffer (c ∷ []))
        (split_other_lem ps buffer c cs h other fit))
]
split_char_lem ps (x ∷ xs) (some buf) c cs (h, e) fit = cc
split_char_lem ps [] (some buf) c cs (h, e) fit = elim (Bool-cases (is_blank c)) [
  | inl blank ↦
      let (room, rest) = fit_blank 0 (length buf) c cs blank fit in
      rw (blank, add_blank-room buf c room)
        (
          mk ps [] (some (buf ++ c ∷ [])),
          refl,
          simp append_assoc refl,
          (h, refl),
          rw (length-snoc buf c) rest,
        )
  | inr other ↦
      rw (other, ← same)
        (split_other_lem (ps ++ buf ∷ []) [] c cs (omega arith) other
          (sym (fit_other 0 (length buf) c cs other) ∙ fit))
]
  where
    length-snoc : (t : Text) (d : ℕ) → length (t ++ d ∷ []) ≡ length t + 1
    length-snoc t d = omega (arith, length-append t (d ∷ []))

    same : concat (ps ++ buf ∷ []) ++ c ∷ [] ≡ (concat ps ++ buf) ++ c ∷ []
    same = ap (λ t. t ++ c ∷ []) (concat-snoc ps buf)

split_loop_lem :
    (cs : Text) (st : SplitState)
    → Steady st
    → fits st cs ≡ true
    → (st' : SplitState) × (split_loop st cs ≡ some st')
      × (content st' ≡ content st ++ cs)
      × Steady st'
unfolding split_loop
split_loop_lem [] st h fit = (st, refl, sym (append-nil (content st)), h)
split_loop_lem (c ∷ cs) st h fit =
    let (st', went, read, h', fit') = split_char_lem st.parts st.buffer st.blanks c cs h fit in
    let (st'', ended, all, steady) = split_loop_lem cs st' h' fit' in
    (
      st'',
      rw (went, split_loop) ended,
      all ∙ ap (λ t. t ++ cs) read ∙ append_assoc (content st) (c ∷ []) cs,
      steady,
    )

-- At the end the run of blanks or the word is saved.
finish_lem :
    (ps : List Text) (buffer : Text) (blanks : Option Text)
    → Steady (mk ps buffer blanks)
    → (saved : SplitState) × (save_buffer (end_blanks (mk ps buffer blanks)) ≡ some saved)
      × (concat saved.parts ≡ content (mk ps buffer blanks))
finish_lem ps buffer none (h, _) =
    let (ps', saved, kept) = save_buffer_lem ps buffer h in
    (mk ps' [] none, unfold end_blanks in saved, simp append-nil kept)
finish_lem ps (x ∷ xs) (some buf) (h, e) = cc
finish_lem ps [] (some buf) (h, e) =
    (mk (ps ++ buf ∷ []) [] none, unfold end_blanks save_buffer in refl, concat-snoc ps buf)

-- A text whose words and runs of blanks are shorter than `MAX_WORD` is split without a write
-- outside the buffer, and the parts, put together, are the text.
pub concat-split_by_delimiters :
    (word : Text)
    → runs_fit 0 0 word ≡ true
    → (parts : List Text) × (split_by_delimiters word ≡ some parts) × (concat parts ≡ word)
unfolding split_by_delimiters
concat-split_by_delimiters word fit =
    let (st, went, read, steady) = split_loop_lem word split_start (omega arith, tt) fit in
    let (saved, ended, all) = finish_lem st.parts st.buffer st.blanks steady in
    (saved.parts, rw (went, ended) refl, all ∙ read)
