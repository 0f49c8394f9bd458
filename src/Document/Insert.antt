-- ===== src/Document/Insert.antt =====
-- file_ops.c: `insert_word_in_sentence`.
use docs_plus_plus.Base.{
  ℕ, suc, ◌+◌, ◌-◌, ℤ, pos, negsuc, Bool, true, false, ◌&&◌, ◌||◌, Option, none, some, List, [],
  ◌∷◌, ◌++◌, Text, ltb, ◌==◌, if◌then◌else◌, length, get_elem?, set, take, drop, replicate,
  insert_at,
}
use docs_plus_plus.Document.{Sentence, should_skip_for_indexing, is_delimiter_token}
use docs_plus_plus.Document.Split.{split_by_delimiters}

-- `sentences` holds the slots in use; the first `sentence_count` of them are the document.
pub record FileContent : Type 0 where
  pub sentences : List Sentence
  pub sentence_count : ℕ

-- What the call returns: -1, the number of new sentences, or a write outside a buffer.
pub data Inserted : Type 0 where
  rejected : Inserted
  inserted : FileContent → ℕ → Inserted
  overflow : Inserted

-- `fc->sentences[0].word_count == 0`
unfoldable pub first_is_empty : List Sentence → Bool
first_is_empty [] = true
first_is_empty ([] ∷ ss) = true
first_is_empty ((w ∷ ws) ∷ ss) = false

-- `sent_idx == fc->sentence_count`: an empty sentence is made at the end, and counted unless the
-- document is one empty sentence.
unfoldable pub append_slot : FileContent → ℕ → FileContent
unfolding first_is_empty
append_slot fc sent_idx =
    if sent_idx == fc.sentence_count
    then record {
      sentences = take fc.sentence_count fc.sentences ++ [] ∷ [];
      sentence_count =
          (if fc.sentence_count == 1 && first_is_empty fc.sentences
            then fc.sentence_count
            else fc.sentence_count + 1);
    }
    else fc

-- The count of the tokens that are no blanks and no newlines.
unfoldable pub real_word_count : Sentence → ℕ
real_word_count [] = 0
real_word_count (w ∷ ws) = (if should_skip_for_indexing w then 0 else 1) + real_word_count ws

-- The loop that looks for the place after `wanted` real words; `i` is its counter.
unfoldable pub place_after : ℕ → ℕ → ℕ → Sentence → ℕ
place_after wanted seen i [] = 0
place_after wanted seen i (w ∷ ws) =
    let skipped = place_after wanted seen (i + 1) ws in
    let next = place_after wanted (seen + 1) (i + 1) ws in
    if should_skip_for_indexing w then skipped else if seen + 1 == wanted then i + 1 else next

-- `actual_idx` for a valid 1-based `word_idx`.
unfoldable pub actual_place : Sentence → ℕ → ℕ
unfolding real_word_count place_after
actual_place sent word_idx =
    if word_idx == 1
    then 0
    else if word_idx == real_word_count sent + 1
    then length sent
    else place_after (word_idx - 1) 0 0 sent

-- `last_delimiter_idx`, with the counter of its loop and the value so far; `none` is -1.
unfoldable pub last_delimiter : ℕ → List Text → Option ℕ → Option ℕ
last_delimiter i [] last = last
last_delimiter i (p ∷ ps) last =
    last_delimiter (i + 1) ps (if is_delimiter_token p then some i else last)

unfoldable pub delimiter_count : List Text → ℕ
delimiter_count [] = 0
delimiter_count (p ∷ ps) = (if is_delimiter_token p then 1 else 0) + delimiter_count ps

-- `i == last_delimiter_idx && last_delimiter_idx < part_count - 1`
unfoldable pub is_split : Option ℕ → ℕ → ℕ → Bool
is_split none part_count i = false
is_split (some last) part_count i = i == last && ltb last (part_count - 1)

-- `last_delimiter_idx >= 0 && last_delimiter_idx < part_count - 1`
unfoldable pub splits : Option ℕ → ℕ → Bool
splits none part_count = false
splits (some last) part_count = ltb last (part_count - 1)

unfoldable pub new_sentence_count : List Text → ℕ
unfolding last_delimiter splits delimiter_count
new_sentence_count parts =
    (if splits (last_delimiter 0 parts none) (length parts) then 1 else 0) + delimiter_count parts

-- The shift of the later sentences, and the new empty slots.
unfoldable pub make_room : List Sentence → ℕ → ℕ → List Sentence
make_room slots sent_idx n =
    take (suc sent_idx) slots ++ (replicate n [] ++ drop (suc sent_idx) slots)

-- `cur_sent`, `actual_idx`, and the sentence at `sent_idx` once `in_new_sentence` is set.
pub record InsertState : Type 0 where
  pub cur : Sentence
  pub place : ℕ
  pub closed : Option Sentence

-- One round of the loop over the parts. A new sentence starts with the words that follow.
unfoldable pub insert_part : InsertState → Bool → Text → InsertState
insert_part st split part =
    let words = insert_at st.cur st.place part in
    let moved : InsertState = record {
      cur = drop (suc st.place) words;
      place = 0;
      closed = some (take (suc st.place) words);
    } in
    let stays : InsertState = record st { cur = words; place = suc st.place } in
    elim (st.closed) [ none ↦ if split then moved else stays | some s ↦ stays ]

unfoldable pub insert_parts : Option ℕ → ℕ → ℕ → List Text → InsertState → InsertState
unfolding insert_part is_split
insert_parts last part_count i [] st = st
insert_parts last part_count i (p ∷ ps) st =
    insert_parts last part_count (i + 1) ps (insert_part st (is_split last part_count i) p)

-- The slots after the loop: `sent_idx`, and the next one if the sentence was split.
unfoldable pub store_back : List Sentence → ℕ → InsertState → List Sentence
store_back slots sent_idx st = elim (st.closed) [
  | none ↦ set slots sent_idx st.cur
  | some s ↦ set (set slots sent_idx s) (suc sent_idx) st.cur
]

-- From "Split word by delimiters" to the end, in the sentence `sent`.
unfoldable pub insert_split : FileContent → ℕ → Sentence → ℕ → List Text → Inserted
unfolding new_sentence_count last_delimiter make_room insert_parts store_back
insert_split fc sent_idx sent place [] = inserted fc 0
insert_split fc sent_idx sent place (p ∷ ps) =
    let parts = p ∷ ps in
    let n = new_sentence_count parts in
    let end =
      insert_parts (last_delimiter 0 parts none) (length parts) 0 parts
        (record { cur = sent; place = place; closed = none }) in
    inserted
      (record {
        sentences = store_back (make_room fc.sentences sent_idx n) sent_idx end;
        sentence_count = fc.sentence_count + n;
      })
      n

-- The part after the checks of `sent_idx`.
unfoldable pub insert_in : FileContent → ℕ → ℤ → Text → Inserted
unfolding actual_place insert_split
insert_in fc sent_idx (negsuc w) word = rejected
insert_in fc sent_idx (pos w) word = elim (get_elem? fc.sentences sent_idx) [
  | none ↦ rejected
  | some sent ↦
      if ltb w 1 || ltb (real_word_count sent + 1) w
      then rejected
      else elim (split_by_delimiters word) [
        | none ↦ overflow
        | some parts ↦ insert_split fc sent_idx sent (actual_place sent w) parts
      ]
]

unfoldable pub insert_word_in_sentence : FileContent → ℤ → ℤ → Text → Inserted
unfolding append_slot insert_in
insert_word_in_sentence fc (negsuc s) word_idx word = rejected
insert_word_in_sentence fc (pos s) word_idx word =
    if ltb fc.sentence_count s then rejected else insert_in (append_slot fc s) s word_idx word
