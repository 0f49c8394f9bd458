-- ===== src/Document/Content.antt =====
-- file_ops.c: the tokens of `parse_file` and `split_by_delimiters` hold the characters read.
use docs_plus_plus.Base.{
  ℕ, ◌+◌, ◌-◌, ◌≡◌, refl, ap, subst, ◌∙◌, sym, inl, inr, Bool, true, ◌&&◌, Option, none, some, List,
  [], ◌∷◌, ◌++◌, append-nil, append_assoc, Text, ltb, leb, if◌then◌else◌, length, length-append,
  concat, concat-append, arith, Bool-cases,
}
use docs_plus_plus.Document.{max_word, is_blank, is_newline, is_delimiter}
use docs_plus_plus.Document.Parse.{
  ParseState, add_token, flush_word, start_sentence, add_letter, read_other, add_blank, read_char,
  read_all, finish, counted, start, parse_file,
}

-- No run of blanks is longer than the buffer for it; `b` is the length of the run so far.
unfoldable pub blanks_fit : ℕ → Text → Bool
blanks_fit b [] = true
blanks_fit b (c ∷ cs) =
    if is_blank c then ltb b (max_word - 1) && blanks_fit (b + 1) cs else blanks_fit 0 cs

abbrev pub held : Option Text → Text
held none = []
held (some buf) = buf

-- Everything that a state of the parser holds, in order.
abbrev pub content : ParseState → Text
content st = concat (concat st.sentences) ++ (concat st.current ++ st.word)

-- Between two characters, a run of blanks is collected only while no word is.
abbrev pub whole : ParseState × Option Text → Text
whole (st, blanks) = content st ++ held blanks

abbrev mk : List (List Text) → List Text → Text → ParseState
mk sentences current word = record { sentences = sentences; current = current; word = word }

content-add_token :
    (st : ParseState) (t : Text) → st.word ≡ [] → content (add_token st t) ≡ content st ++ t
unfolding add_token
content-add_token st t h =
    rw (h, concat-append st.current (t ∷ [])) (simp (append_assoc, append-nil))

content-flush_mk :
    (ss : List (List Text)) (cur : List Text) (w : Text)
    → (content (flush_word (mk ss cur w)) ≡ content (mk ss cur w))
      × ((flush_word (mk ss cur w)).word ≡ [])
unfolding flush_word
content-flush_mk ss cur [] = (refl, refl)
content-flush_mk ss cur (c ∷ cs) =
    (rw (concat-append cur ((c ∷ cs) ∷ [])) (simp (append_assoc, append-nil)), refl)

content-flush_word : (st : ParseState) → content (flush_word st) ≡ content st
content-flush_word st = (content-flush_mk st.sentences st.current st.word).0

word-flush_word : (st : ParseState) → (flush_word st).word ≡ []
word-flush_word st = (content-flush_mk st.sentences st.current st.word).1

content-start_sentence : (st : ParseState) → content (start_sentence st) ≡ content st
unfolding start_sentence
content-start_sentence st = rw (concat-append st.sentences (st.current ∷ [])) (
    rw (concat-append (concat st.sentences) (concat (st.current ∷ [])))
      (simp (append_assoc, append-nil)))

content-add_letter : (st : ParseState) (c : ℕ) → content (add_letter st c) ≡ content st ++ c ∷ []
unfolding add_letter
content-add_letter st c = elim (Bool-cases (leb (max_word - 1) (length (st.word ++ c ∷ [])))) [
  | inl full ↦
      rw full (content-flush_word (record st { word = st.word ++ c ∷ [] }) ∙ simp append_assoc refl)
  | inr room ↦ rw room (simp append_assoc refl)
]

content-read_other : (st : ParseState) (c : ℕ) → content (read_other st c) ≡ content st ++ c ∷ []
unfolding read_other
content-read_other st c =
    let token =
      content-add_token (flush_word st) (c ∷ []) (word-flush_word st)
      ∙ ap (λ t. t ++ c ∷ []) (content-flush_word st) in
    elim (Bool-cases (is_newline c)) [
      | inl nl ↦ rw nl token
      | inr other ↦ elim (Bool-cases (is_delimiter c)) [
        | inl delim ↦
            rw (other, delim) (content-start_sentence (add_token (flush_word st) (c ∷ [])) ∙ token)
        | inr letter ↦ rw (other, letter) (content-add_letter st c)
      ]
    ]

-- While a run of blanks is collected there is no word, and `n` blanks are held.
abbrev Ready : ParseState × Option Text → ℕ → Type 0
Ready (st, none) n = Unit {0}
Ready (st, some buf) n = (st.word ≡ []) × (length buf ≡ n)

add_blank-room :
    (buf : Text) (c : ℕ) → ltb (length buf) (max_word - 1) ≡ true → add_blank buf c ≡ buf ++ c ∷ []
unfolding add_blank
add_blank-room buf c h = rw h refl

length-snoc : (buf : Text) (c n : ℕ) → length buf ≡ n → length (buf ++ c ∷ []) ≡ n + 1
length-snoc buf c n h = omega (arith, length-append buf (c ∷ []))

-- What one character adds, with the length of the run of blanks before and after it.
read_char-whole :
    (s : ParseState × Option Text) (n c : ℕ) (cs : Text)
    → Ready s n
    → blanks_fit (length (held s.1)) (c ∷ cs) ≡ true
    → (whole (read_char s c) ≡ whole s ++ c ∷ [])
      × (blanks_fit (length (held (read_char s c).1)) cs ≡ true)
      × Ready (read_char s c) (length (held (read_char s c).1))
unfolding read_char blanks_fit
read_char-whole (st, none) n c cs r h = elim (Bool-cases (is_blank c)) [
  | inl blank ↦ rw blank (
    simp append-nil (ap (λ t. t ++ c ∷ []) (content-flush_word st)),
    ground arith,
    (word-flush_word st, refl),
  )
  | inr other ↦ rw other (simp append-nil (content-read_other st c), rw other at h, tt)
]
read_char-whole (st, some buf) n c cs (w, e) h = elim (Bool-cases (is_blank c)) [
  | inl blank ↦
      let room : ltb (length buf) (max_word - 1) ≡ true = ground arith in
      rw (blank, add_blank-room buf c room)
        (simp append_assoc refl, rw (length-snoc buf c (length buf) refl) (ground arith), (w, refl))
  | inr other ↦ rw other (
    simp append-nil (
        content-read_other (add_token st buf) c
        ∙ ap (λ t. t ++ c ∷ []) (content-add_token st buf w)),
    rw other at h,
    tt,
  )
]

read_all-whole :
    (cs : Text) (s : ParseState × Option Text) (n : ℕ)
    → Ready s n
    → blanks_fit (length (held s.1)) cs ≡ true
    → (whole (read_all s cs) ≡ whole s ++ cs)
      × Ready (read_all s cs) (length (held (read_all s cs).1))
unfolding read_all
read_all-whole [] (st, none) n r h = (sym (append-nil (whole (st, none))), tt)
read_all-whole [] (st, some buf) n (w, e) h = (sym (append-nil (whole (st, some buf))), (w, refl))
read_all-whole (c ∷ cs) s n r h =
    let (added, fits, ready) = read_char-whole s n c cs r h in
    let (rest, final) = read_all-whole cs (read_char s c) _ ready fits in
    (rest ∙ ap (λ t. t ++ cs) added ∙ append_assoc (whole s) (c ∷ []) cs, final)

finish-whole :
    (s : ParseState × Option Text) (n : ℕ)
    → Ready s n
    → (content (finish s) ≡ whole s) × ((finish s).word ≡ [])
unfolding finish
finish-whole (st, none) n r =
    (content-flush_word st ∙ sym (append-nil (content st)), word-flush_word st)
finish-whole (st, some buf) n (w, e) = (
  content-flush_word (add_token st buf) ∙ content-add_token st buf w,
  word-flush_word (add_token st buf),
)

counted-content :
    (ss : List (List Text)) (cur : List Text)
    → concat (concat (counted (mk ss cur []))) ≡ content (mk ss cur [])
unfolding counted
counted-content ss [] = simp append-nil refl
counted-content ss (w ∷ ws) =
    rw (concat-append ss ((w ∷ ws) ∷ []))
      (rw (concat-append (concat ss) (concat ((w ∷ ws) ∷ []))) (simp (append_assoc, append-nil)))

-- The tokens of a parsed file, put together, are the file, if no run of blanks overruns the
-- buffer that holds it.
pub concat-parse_file :
    (bytes : Text) → blanks_fit 0 bytes ≡ true → concat (concat (parse_file bytes)) ≡ bytes
unfolding parse_file
concat-parse_file bytes h =
    let s = read_all (start, none) bytes in
    let (read, ready) = read_all-whole bytes (start, none) 0 tt h in
    let (kept, no_word) = finish-whole s _ ready in
    let st = finish s in
    subst
      (λ w.
        concat (concat (counted (mk st.sentences st.current w)))
        ≡ content (mk st.sentences st.current w))
      (sym no_word) (counted-content st.sentences st.current)
    ∙ kept
    ∙ read
