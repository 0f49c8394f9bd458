-- ===== src/Document/Insertion.antt =====
-- file_ops.c: what `insert_word_in_sentence` does to a document, and when it refuses.
use docs_plus_plus.Base.{
  ℕ, zero, suc, ◌+◌, ◌≤◌, ◌<◌, ◌≡◌, refl, ap, ◌∙◌, sym, ◌⊎◌, inl, inr, true, false, pos, negsuc,
  ◌||◌, Option, none, some, List, [], ◌∷◌, ◌++◌, append_assoc, Text, ltb, ◌==◌, if◌then◌else◌,
  length, get_elem?, take, drop, take-append-drop, concat, arith, Bool-cases, ℤ,
}
use docs_plus_plus.Document.{Sentence}
use docs_plus_plus.Document.Split.{split_by_delimiters}
use docs_plus_plus.Document.SplitLaws.{runs_fit, concat-split_by_delimiters}
use docs_plus_plus.Document.Insert.{
  FileContent, Inserted, rejected, inserted, append_slot, real_word_count, actual_place,
  last_delimiter, delimiter_count, splits, new_sentence_count, InsertState, insert_parts,
  insert_split, insert_in, insert_word_in_sentence,
}
use docs_plus_plus.Document.Place.{actual_place_lem}
use docs_plus_plus.Document.Edit.{
  closed_words, words_before, words_after, mk, insert_parts-Places, insert_parts-closed,
  concat-store_back, length-store_back,
}
use docs_plus_plus.Document.Cut.{cut, divided_sentences, has_rest}
use docs_plus_plus.Document.Divide.{new_sentence_count_lem, stored_after-divided_sentences}

-- What the insertion does to a document whose slots are all counted.
pub record Inserts (fc : FileContent) (i place : ℕ) (sent : Sentence) (parts : List Text)
    (r : Inserted) : Type 0 where
  pub after : FileContent
  pub created : ℕ
  pub returned : r ≡ inserted after created
  pub divided :
      after.sentences
      ≡ take i fc.sentences
        ++ (divided_sentences (take place sent) parts (drop place sent) created (cut parts)
            ++ drop (suc i) fc.sentences)
  pub made : created ≡ (if has_rest (cut parts) then 1 else 0) + delimiter_count parts
  pub words :
      concat after.sentences
      ≡ concat (take i fc.sentences)
        ++ (take place sent ++ (parts ++ (drop place sent ++ concat (drop (suc i) fc.sentences))))
  pub grown : after.sentence_count ≡ fc.sentence_count + created
  pub all_counted : length after.sentences ≡ after.sentence_count

-- A sentence of which nothing changes.
unchanged :
    (slots : List Sentence) (i place : ℕ) (sent : Sentence)
    → get_elem? slots i ≡ some sent
    → slots ≡ take i slots ++ ((take place sent ++ drop place sent) ∷ drop (suc i) slots)
unchanged [] i place sent e = cc
unchanged (x ∷ ss) zero place sent e =
    ap (λ t. t ∷ ss) (ground arith ∙ sym (take-append-drop place sent))
unchanged (x ∷ ss) (suc i) place sent e = ap (λ t. x ∷ t) (unchanged ss i place sent e)

split_sentence :
    (slots : List Sentence) (i : ℕ) (sent : Sentence)
    → get_elem? slots i ≡ some sent
    → concat slots ≡ concat (take i slots) ++ (sent ++ concat (drop (suc i) slots))
split_sentence [] i sent e = cc
split_sentence (x ∷ ss) zero sent e = ap (λ t. t ++ concat ss) (ground arith)
split_sentence (x ∷ ss) (suc i) sent e =
    ap (◌++◌ x) (split_sentence ss i sent e)
    ∙ sym (append_assoc x (concat (take i ss)) (sent ++ concat (drop (suc i) ss)))

joined :
    (closed : Option Sentence) (cur : Sentence) (place : ℕ) (rest : Sentence)
    → closed_words closed ++ (cur ++ rest)
      ≡ words_before (mk cur place closed) ++ (words_after (mk cur place closed) ++ rest)
joined closed cur place rest =
    ap (λ t. closed_words closed ++ (t ++ rest)) (sym (take-append-drop place cur))
    ∙ simp append_assoc refl

-- A split makes at least one new sentence.
closed_or_grown :
    (parts : List Text) (st : InsertState)
    → st.closed ≡ none
    → let end = insert_parts (last_delimiter 0 parts none) (length parts) 0 parts st in
      (end.closed ≡ none) ⊎ (0 < new_sentence_count parts)
closed_or_grown parts st e =
    elim (Bool-cases (splits (last_delimiter 0 parts none) (length parts))) [
      | inl split ↦ inr (unfold new_sentence_count in rw split (omega arith))
      | inr whole ↦ inl (insert_parts-closed _ _ 0 parts st whole e)
    ]

insert_split_lem :
    (fc : FileContent) (i place : ℕ) (sent : Sentence) (parts : List Text)
    → length fc.sentences ≡ fc.sentence_count
    → get_elem? fc.sentences i ≡ some sent
    → place ≤ length sent
    → Inserts fc i place sent parts (insert_split fc i sent place parts)
unfolding insert_split
insert_split_lem fc i place sent [] all e h = record {
  after = fc;
  created = 0;
  returned = refl;
  divided = unchanged fc.sentences i place sent e;
  made = unfold delimiter_count in refl;
  words =
      split_sentence fc.sentences i sent e
      ∙ ap (λ t. concat (take i fc.sentences) ++ t)
          (ap (λ t. t ++ concat (drop (suc i) fc.sentences)) (sym (take-append-drop place sent))
            ∙ append_assoc (take place sent) (drop place sent) _);
  grown = omega arith;
  all_counted = all;
}
insert_split_lem fc i place sent (p ∷ ps) all e h =
    let rest = concat (drop (suc i) fc.sentences) in
    let parts = p ∷ ps in
    let n = new_sentence_count parts in
    let last = last_delimiter 0 parts none in
    let end = insert_parts last (length parts) 0 parts (mk sent place none) in
    let (before, behind, fits) =
      insert_parts-Places last (length parts) 0 parts (mk sent place none) h in
    record {
      after = _;
      created = n;
      returned = refl;
      divided = stored_after-divided_sentences fc.sentences i place sent parts e h;
      made = new_sentence_count_lem parts;
      words =
          concat-store_back fc.sentences i n sent end.cur end.place end.closed e
            (closed_or_grown parts (mk sent place none) refl)
          ∙ ap (◌++◌ (concat (take i fc.sentences))) (
              joined end.closed end.cur end.place rest
              ∙ ap (λ t. t ++ (words_after end ++ rest)) before
              ∙ ap (λ t. (take place sent ++ parts) ++ (t ++ rest)) behind
              ∙ append_assoc (take place sent) parts (drop place sent ++ rest));
      grown = refl;
      all_counted =
          length-store_back fc.sentences i n sent end.cur end.place end.closed e
          ∙ ap (λ m. m + n) all;
    }

get_elem?-lt :
    (slots : List Sentence) (i : ℕ) (s : Sentence) → get_elem? slots i ≡ some s → i < length slots
get_elem?-lt [] i s e = cc
get_elem?-lt (x ∷ ss) zero s e = omega arith
get_elem?-lt (x ∷ ss) (suc i) s e = omega (arith, get_elem?-lt ss i s e)

append_slot_inside :
    (fc : FileContent) (i : ℕ) → (i == fc.sentence_count) ≡ false → append_slot fc i ≡ fc
unfolding append_slot
append_slot_inside fc i h = rw h refl

insert_in_valid :
    (fc : FileContent) (i w : ℕ) (sent : Sentence) (word : Text) (parts : List Text)
    → get_elem? fc.sentences i ≡ some sent
    → (ltb w 1 || ltb (real_word_count sent + 1) w) ≡ false
    → split_by_delimiters word ≡ some parts
    → insert_in fc i (pos w) word ≡ insert_split fc i sent (actual_place sent w) parts
unfolding insert_in
insert_in_valid fc i w sent word parts e valid split = rw (e, insert_in, valid, split) refl

insert_in_invalid :
    (fc : FileContent) (i w : ℕ) (sent : Sentence) (word : Text)
    → get_elem? fc.sentences i ≡ some sent
    → (ltb w 1 || ltb (real_word_count sent + 1) w) ≡ true
    → insert_in fc i (pos w) word ≡ rejected
unfolding insert_in
insert_in_invalid fc i w sent word e invalid = rw (e, insert_in, invalid) refl

-- Inserting a text, whose words and runs of blanks are shorter than `MAX_WORD`, at the word index
-- `w` of the sentence `i`, both in range, where all sentences are counted. The parts that
-- `split_by_delimiters` finds spell the text; there is a place behind the first `w - 1` real words
-- of the sentence. If no part ends a sentence, or the last part does, all parts are put at the
-- place, in order. Otherwise the sentence ends with the last part that ends one, and the parts
-- behind it begin a new sentence, followed by the words behind the place. One empty sentence
-- follows for each part that ends a sentence. The call returns the number of sentences added, and
-- all other sentences stay as they are.
pub insert_word_in_sentence-Inserts :
    (fc : FileContent) (i w : ℕ) (sent : Sentence) (word : Text)
    → length fc.sentences ≡ fc.sentence_count
    → get_elem? fc.sentences i ≡ some sent
    → 1 ≤ w
    → w ≤ real_word_count sent + 1
    → runs_fit 0 0 word ≡ true
    → (place : ℕ) × (parts : List Text) × (real_word_count (take place sent) + 1 ≡ w)
      × (split_by_delimiters word ≡ some parts)
      × (concat parts ≡ word)
      × Inserts fc i place sent parts (insert_word_in_sentence fc (pos i) (pos w) word)
unfolding insert_word_in_sentence
insert_word_in_sentence-Inserts fc i w sent word all e h p fit =
    let (parts, split, same) = concat-split_by_delimiters word fit in
    let (inside, real) = actual_place_lem sent w h p in
    let valid : (ltb w 1 || ltb (real_word_count sent + 1) w) ≡ false = ground arith in
    let below : i < length fc.sentences = get_elem?-lt fc.sentences i sent e in
    let in_range : ltb fc.sentence_count i ≡ false = ground arith in
    let not_end : (i == fc.sentence_count) ≡ false = ground arith in
    (
      actual_place sent w,
      parts,
      real,
      split,
      same,
      rw
          (
            in_range,
            append_slot_inside fc i not_end,
            insert_in_valid fc i w sent word parts e valid split,
          )
          (insert_split_lem fc i (actual_place sent w) sent parts all e inside),
    )

-- A sentence index or a word index that the call may not take.
abbrev pub OutOfRange : FileContent → ℤ → ℤ → Type 0
OutOfRange fc (negsuc s) w = Unit {0}
OutOfRange fc (pos s) (negsuc w) = Unit {0}
OutOfRange fc (pos s) (pos w) =
    (fc.sentence_count < s)
    ⊎ ((sent : Sentence) × (get_elem? fc.sentences s ≡ some sent)
        × ((w ≡ 0) ⊎ (real_word_count sent + 1 < w)))

-- Where all sentences are counted, an insertion is refused, whatever the text, if the sentence
-- index is negative or greater than the count, or if the word index is negative, or if it is 0 or
-- too great in a sentence that is there.
pub insert_word_in_sentence-rejected :
    (fc : FileContent) (s w : ℤ) (word : Text)
    → length fc.sentences ≡ fc.sentence_count
    → OutOfRange fc s w
    → insert_word_in_sentence fc s w word ≡ rejected
unfolding insert_word_in_sentence
insert_word_in_sentence-rejected fc (negsuc s) w word all o = refl
insert_word_in_sentence-rejected fc (pos s) (negsuc w) word all o =
    elim (Bool-cases (ltb fc.sentence_count s)) [
      | inl out ↦ rw out refl
      | inr within ↦ rw within (unfold insert_in in refl)
    ]
insert_word_in_sentence-rejected fc (pos s) (pos w) word all (inl out) =
    let out' : ltb fc.sentence_count s ≡ true = ground arith in rw out' refl
insert_word_in_sentence-rejected fc (pos s) (pos w) word all (inr (sent, e, bad)) =
    let below : s < length fc.sentences = get_elem?-lt fc.sentences s sent e in
    let in_range : ltb fc.sentence_count s ≡ false = ground arith in
    let not_end : (s == fc.sentence_count) ≡ false = ground arith in
    let invalid : (ltb w 1 || ltb (real_word_count sent + 1) w) ≡ true = ground arith in
    let same : append_slot fc s ≡ fc = append_slot_inside fc s not_end in
    let refused : insert_in fc s (pos w) word ≡ rejected =
      insert_in_invalid fc s w sent word e invalid in
    rw (in_range, same) refused
