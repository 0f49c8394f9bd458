-- ===== src/Document/Divide.antt =====
-- file_ops.c: the slots that `insert_word_in_sentence` leaves, sentence by sentence.
use docs_plus_plus.Base.{
  ℕ, zero, suc, ◌+◌, ◌-◌, ◌≤◌, ◌<◌, ◌≡◌, refl, ap, ◌∙◌, sym, inl, inr, true, false, Option, none,
  some, List, [], ◌∷◌, ◌++◌, append_assoc, Text, ltb, if◌then◌else◌, length, get_elem?, set, take,
  drop, replicate, length-append, take-append-drop, arith,
}
use docs_plus_plus.Document.{Sentence}
use docs_plus_plus.Document.Insert.{
  last_delimiter, splits, delimiter_count, new_sentence_count, make_room, InsertState, insert_parts,
  store_back,
}
use docs_plus_plus.Document.Edit.{mk}
use docs_plus_plus.Document.Cut.{
  cut, cut_lem, Cut, divided_sentences, has_rest, insert_parts-open, insert_parts-split,
}

set-there :
    (slots : List Sentence) (i : ℕ) (s : Sentence) (rest : List Sentence) (cur : Sentence)
    → get_elem? slots i ≡ some s
    → set (take (suc i) slots ++ rest) i cur ≡ take i slots ++ (cur ∷ rest)
set-there [] i s rest cur e = cc
set-there (x ∷ ss) zero s rest cur e = refl
set-there (x ∷ ss) (suc i) s rest cur e = ap (λ t. x ∷ t) (set-there ss i s rest cur e)

set-next :
    (slots : List Sentence) (i : ℕ) (s c d : Sentence) (rest : List Sentence) (cur : Sentence)
    → get_elem? slots i ≡ some s
    → set (take i slots ++ (c ∷ d ∷ rest)) (suc i) cur ≡ take i slots ++ (c ∷ cur ∷ rest)
set-next [] i s c d rest cur e = cc
set-next (x ∷ ss) zero s c d rest cur e = refl
set-next (x ∷ ss) (suc i) s c d rest cur e = ap (λ t. x ∷ t) (set-next ss i s c d rest cur e)

store_back-whole :
    (slots : List Sentence) (i n : ℕ) (s cur : Sentence) (place : ℕ)
    → get_elem? slots i ≡ some s
    → store_back (make_room slots i n) i (mk cur place none)
      ≡ take i slots ++ (cur ∷ (replicate n [] ++ drop (suc i) slots))
unfolding store_back make_room
store_back-whole slots i n s cur place e = set-there slots i s _ cur e

store_back-split :
    (slots : List Sentence) (i n m : ℕ) (s c cur : Sentence) (place : ℕ)
    → get_elem? slots i ≡ some s
    → n ≡ suc m
    → store_back (make_room slots i n) i (mk cur place (some c))
      ≡ take i slots ++ (c ∷ cur ∷ (replicate m [] ++ drop (suc i) slots))
unfolding store_back make_room
store_back-split slots i n m s c cur place e h =
    ap (λ k. store_back (make_room slots i k) i (mk cur place (some c))) h
    ∙ ap (λ t. set t (suc i) cur) (set-there slots i s _ c e)
    ∙ set-next slots i s c [] _ cur e

length-take : (place : ℕ) (s : Sentence) → place ≤ length s → length (take place s) ≡ place
length-take zero s h = refl
length-take (suc n) [] h = absurd (omega (arith, h))
length-take (suc n) (x ∷ s) h = ap suc (length-take n s (omega (arith, h)))

-- The state in which the loop starts, by what stands before and behind the place.
start :
    (sent : Sentence) (place : ℕ)
    → place ≤ length sent
    → mk sent place none ≡ mk (take place sent ++ drop place sent) (length (take place sent)) none
start sent place h =
    ap (λ t. mk t place none) (sym (take-append-drop place sent))
    ∙ ap (λ t. mk (take place sent ++ drop place sent) t none) (sym (length-take place sent h))

-- The slots after the loop over the parts.
abbrev pub stored_after : List Sentence → ℕ → ℕ → Sentence → List Text → List Sentence
stored_after slots i place sent parts =
    store_back (make_room slots i (new_sentence_count parts)) i
      (insert_parts (last_delimiter 0 parts none) (length parts) 0 parts (mk sent place none))

stored_after-whole :
    (slots : List Sentence) (i place : ℕ) (sent : Sentence) (parts : List Text)
    → get_elem? slots i ≡ some sent
    → place ≤ length sent
    → splits (last_delimiter 0 parts none) (length parts) ≡ false
    → stored_after slots i place sent parts
      ≡ take i slots
        ++ ((take place sent ++ (parts ++ drop place sent))
            ∷ (replicate (new_sentence_count parts) [] ++ drop (suc i) slots))
stored_after-whole slots i place sent parts e h whole =
    let last = last_delimiter 0 parts none in
    let n = new_sentence_count parts in
    let b = take place sent in
    let a = drop place sent in
    ap (λ st. store_back (make_room slots i n) i (insert_parts last (length parts) 0 parts st))
      (start sent place h)
    ∙ ap (λ st. store_back (make_room slots i n) i st)
        (insert_parts-open last (length parts) 0 parts b a whole)
    ∙ store_back-whole slots i n sent ((b ++ parts) ++ a) _ e
    ∙ ap (λ t. take i slots ++ (t ∷ (replicate n [] ++ drop (suc i) slots)))
        (append_assoc b parts a)

-- Parts of which the last delimiter is the last one, or that have none; or parts behind it.
data Shape (parts : List Text) : Type 0 where
  whole :
      splits (last_delimiter 0 parts none) (length parts) ≡ false
      → has_rest (cut parts) ≡ false
      → Shape parts
  split :
      (a : List Text) (b : Text) (bs : List Text) (last : ℕ)
      → cut parts ≡ some (a, b ∷ bs)
      → parts ≡ a ++ b ∷ bs
      → length a ≡ suc last
      → last_delimiter 0 parts none ≡ some last
      → last < length parts - 1
      → Shape parts

Cut-Shape : (parts a b : List Text) → Cut parts a b 0 none → Shape parts
unfolding splits
Cut-Shape parts a [] c =
    let size : length parts ≡ suc c.index =
      ap length c.parts ∙ (omega (arith, length-append a [], c.size)) in
    whole (rw c.found (ground (arith, size))) (rw c.is_cut refl)
Cut-Shape parts a (b ∷ bs) c =
    let size : length parts ≡ length a + suc (length bs) =
      ap length c.parts ∙ length-append a (b ∷ bs) in
    split a b bs c.index c.is_cut c.parts c.size (c.found ∙ ap some (omega arith))
      (omega (arith, size, c.size))

Shape_lem : (parts : List Text) → Shape parts
unfolding splits
Shape_lem parts = elim (cut_lem parts 0 none) [
  | inl (absent, kept) ↦ whole (rw kept refl) (rw absent refl)
  | inr (a, b, c) ↦ Cut-Shape parts a b c
]

-- The number of new sentences.
pub new_sentence_count_lem :
    (parts : List Text)
    → new_sentence_count parts ≡ (if has_rest (cut parts) then 1 else 0) + delimiter_count parts
unfolding new_sentence_count splits
new_sentence_count_lem parts = elim (Shape_lem parts) [
  | whole closed none_left ↦ rw (closed, none_left) refl
  | split a b bs last is_cut same size found inside ↦
      let open' : ltb last (length parts - 1) ≡ true = ground (arith, inside) in
      rw (found, open', is_cut) refl
]

divided_sentences-whole :
    (before : Sentence) (parts : List Text) (after : Sentence) (n : ℕ)
    (c : Option (List Text × List Text))
    → has_rest c ≡ false
    → divided_sentences before parts after n c ≡ (before ++ (parts ++ after)) ∷ replicate n []
divided_sentences-whole before parts after n none h = refl
divided_sentences-whole before parts after n (some (a, [])) h = refl
divided_sentences-whole before parts after n (some (a, b ∷ bs)) h = cc

stored_after-split :
    (slots : List Sentence) (i place last : ℕ) (sent : Sentence) (parts a b : List Text)
    → get_elem? slots i ≡ some sent
    → place ≤ length sent
    → parts ≡ a ++ b
    → length a ≡ suc last
    → last_delimiter 0 parts none ≡ some last
    → last < length parts - 1
    → 0 < new_sentence_count parts
    → stored_after slots i place sent parts
      ≡ take i slots
        ++ ((take place sent ++ a)
            ∷ (b ++ drop place sent)
            ∷ (replicate (new_sentence_count parts - 1) [] ++ drop (suc i) slots))
stored_after-split slots i place last sent parts a b e h same size found inside grown =
    let n = new_sentence_count parts in
    let count = length parts in
    let before = take place sent in
    let after = drop place sent in
    let from : InsertState = mk (before ++ after) (length before) none in
    let stored : InsertState → List Sentence = store_back (make_room slots i n) i in
    ap (λ st. stored (insert_parts (last_delimiter 0 parts none) count 0 parts st))
      (start sent place h)
    ∙ ap (λ l. stored (insert_parts l count 0 parts from)) found
    ∙ ap (λ p. stored (insert_parts (some last) count 0 p from)) same
    ∙ ap stored (
        insert_parts-split count last 0 a b before after (omega (arith, size)) (omega arith) inside)
    ∙ store_back-split slots i n (n - 1) sent (before ++ a) (b ++ after) (length b) e
        (omega (arith, grown))

-- The slots after the loop, sentence by sentence.
pub stored_after-divided_sentences :
    (slots : List Sentence) (i place : ℕ) (sent : Sentence) (parts : List Text)
    → get_elem? slots i ≡ some sent
    → place ≤ length sent
    → stored_after slots i place sent parts
      ≡ take i slots
        ++ (divided_sentences
              (take place sent)
              parts
              (drop place sent)
              (new_sentence_count parts)
              (cut parts)
            ++ drop (suc i) slots)
stored_after-divided_sentences slots i place sent parts e h = elim (Shape_lem parts) [
  | whole closed none_left ↦
      stored_after-whole slots i place sent parts e h closed
      ∙ ap (λ t. take i slots ++ (t ++ drop (suc i) slots))
          (sym (
            divided_sentences-whole (take place sent) parts (drop place sent)
              (new_sentence_count parts) (cut parts) none_left))
  | split a b bs last is_cut same size found inside ↦
      let rest : has_rest (cut parts) ≡ true = rw is_cut refl in
      let count : new_sentence_count parts ≡ 1 + delimiter_count parts =
        rw rest at (new_sentence_count_lem parts) in
      stored_after-split slots i place last sent parts a (b ∷ bs) e h same size found inside
        (omega (arith, count))
      ∙ ap
          (λ c.
            take i slots
            ++ (divided_sentences (take place sent) parts (drop place sent)
                  (new_sentence_count parts) c
                ++ drop (suc i) slots))
          (sym is_cut)
]
