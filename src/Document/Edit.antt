-- ===== src/Document/Edit.antt =====
-- file_ops.c: `insert_word_in_sentence` puts the parts at one place and moves nothing else.
use docs_plus_plus.Base.{
  ℕ, zero, suc, ◌+◌, ◌≤◌, ◌<◌, ◌≡◌, refl, ap, ◌∙◌, sym, ◌⊎◌, inl, inr, Bool, true, false, Option,
  none, some, List, [], ◌∷◌, ◌++◌, append-nil, append_assoc, Text, length, get_elem?, take, drop,
  replicate, insert_at, length-append, length-set, length-replicate, concat, arith,
}
use docs_plus_plus.Document.{Sentence}
use docs_plus_plus.Document.Insert.{
  is_split, splits, make_room, InsertState, insert_part, insert_parts, store_back,
}

-- The words before and after the place where the next part goes.
abbrev pub closed_words : Option Sentence → Sentence
closed_words none = []
closed_words (some s) = s

abbrev pub words_before : InsertState → Sentence
words_before st = closed_words st.closed ++ take st.place st.cur

abbrev pub words_after : InsertState → Sentence
words_after st = drop st.place st.cur

take-suc-insert_at :
    (ws : Sentence) (i : ℕ) (w : Text)
    → i ≤ length ws
    → take (suc i) (insert_at ws i w) ≡ take i ws ++ w ∷ []
take-suc-insert_at ws zero w h = refl
take-suc-insert_at [] (suc i) w h = absurd (omega arith)
take-suc-insert_at (x ∷ ws) (suc i) w h = ap (◌∷◌ x) (take-suc-insert_at ws i w (omega arith))

drop-suc-insert_at :
    (ws : Sentence) (i : ℕ) (w : Text) → i ≤ length ws → drop (suc i) (insert_at ws i w) ≡ drop i ws
drop-suc-insert_at ws zero w h = refl
drop-suc-insert_at [] (suc i) w h = absurd (omega arith)
drop-suc-insert_at (x ∷ ws) (suc i) w h = drop-suc-insert_at ws i w (omega arith)

length-insert_at :
    (ws : Sentence) (i : ℕ) (w : Text) → i ≤ length ws → length (insert_at ws i w) ≡ suc (length ws)
length-insert_at ws zero w h = refl
length-insert_at [] (suc i) w h = absurd (omega arith)
length-insert_at (x ∷ ws) (suc i) w h = ap suc (length-insert_at ws i w (omega arith))

-- What one part changes.
abbrev pub Places : InsertState → InsertState → List Text → Type 0
Places st st' parts =
    (words_before st' ≡ words_before st ++ parts)
    × (words_after st' ≡ words_after st)
    × (st'.place ≤ length st'.cur)

abbrev pub mk : Sentence → ℕ → Option Sentence → InsertState
mk cur place closed = record { cur = cur; place = place; closed = closed }

insert_part-Places :
    (cur : Sentence) (place : ℕ) (closed : Option Sentence) (split : Bool) (part : Text)
    → place ≤ length cur
    → Places (mk cur place closed) (insert_part (mk cur place closed) split part) (part ∷ [])
unfolding insert_part
insert_part-Places cur place none true part h = (
  append-nil _ ∙ take-suc-insert_at cur place part h,
  drop-suc-insert_at cur place part h,
  omega arith,
)
insert_part-Places cur place none false part h = (
  take-suc-insert_at cur place part h,
  drop-suc-insert_at cur place part h,
  omega (arith, length-insert_at cur place part h),
)
insert_part-Places cur place (some s) split part h = (
  ap (◌++◌ s) (take-suc-insert_at cur place part h)
      ∙ sym (append_assoc s (take place cur) (part ∷ [])),
  drop-suc-insert_at cur place part h,
  omega (arith, length-insert_at cur place part h),
)

pub insert_parts-Places :
    (last : Option ℕ) (count i : ℕ) (parts : List Text) (st : InsertState)
    → st.place ≤ length st.cur
    → Places st (insert_parts last count i parts st) parts
unfolding insert_parts
insert_parts-Places last count i [] st h = (sym (append-nil (words_before st)), refl, h)
insert_parts-Places last count i (p ∷ ps) st h =
    let split = is_split last count i in
    let (before, after, fits) = insert_part-Places st.cur st.place st.closed split p h in
    let (before', after', fits') =
      insert_parts-Places last count (i + 1) ps (insert_part st split p) fits in
    (
      before' ∙ ap (λ t. t ++ ps) before ∙ append_assoc (words_before st) (p ∷ []) ps,
      after' ∙ after,
      fits',
    )

-- Without a delimiter before the last part no sentence is closed.
pub insert_parts-closed :
    (last : Option ℕ) (count i : ℕ) (parts : List Text) (st : InsertState)
    → splits last count ≡ false
    → st.closed ≡ none
    → (insert_parts last count i parts st).closed ≡ none
unfolding insert_parts
insert_parts-closed last count i [] st h e = e
insert_parts-closed last count i (p ∷ ps) st h e =
    insert_parts-closed last count (i + 1) ps _ h (open_part last h)
  where
    not_split : (l : Option ℕ) → splits l count ≡ false → is_split l count i ≡ false
    not_split none h' = unfold is_split in refl
    not_split (some k) h' = unfold is_split splits in ground (arith, h')

    open_part :
        (l : Option ℕ)
        → splits l count ≡ false
        → (insert_part st (is_split l count i) p).closed ≡ none
    open_part l h' = rw (not_split l h') (unfold insert_part in rw (e, insert_part) e)

-- The sentence of the insertion is replaced by what the loop made of it, and the others are kept.
concat-replicate : (n : ℕ) (ss : List Sentence) → concat (replicate n [] ++ ss) ≡ concat ss
concat-replicate zero ss = refl
concat-replicate (suc n) ss = concat-replicate n ss

pub concat-store_back :
    (slots : List Sentence) (i n : ℕ) (s cur : Sentence) (place : ℕ) (closed : Option Sentence)
    → get_elem? slots i ≡ some s
    → (closed ≡ none) ⊎ (0 < n)
    → concat (store_back (make_room slots i n) i (mk cur place closed))
      ≡ concat (take i slots) ++ (closed_words closed ++ (cur ++ concat (drop (suc i) slots)))
unfolding store_back make_room
concat-store_back [] i n s cur place closed e h = cc
concat-store_back (x ∷ ss) zero n s cur place none e h = ap (◌++◌ cur) (concat-replicate n ss)
concat-store_back (x ∷ ss) zero zero s cur place (some c) e h = absurd (no h)
  where
    no : (some c ≡ none) ⊎ (0 < 0) → ⊥
    no (inl p) = cc
    no (inr q) = omega arith
concat-store_back (x ∷ ss) zero (suc n) s cur place (some c) e h =
    ap (λ t. c ++ (cur ++ t)) (concat-replicate n ss)
concat-store_back (x ∷ ss) (suc i) n s cur place none e h =
    ap (◌++◌ x) (concat-store_back ss i n s cur place none e h)
    ∙ sym (append_assoc x (concat (take i ss)) (cur ++ concat (drop (suc i) ss)))
concat-store_back (x ∷ ss) (suc i) n s cur place (some c) e h =
    ap (◌++◌ x) (concat-store_back ss i n s cur place (some c) e h)
    ∙ sym (append_assoc x (concat (take i ss)) (c ++ (cur ++ concat (drop (suc i) ss))))

pub length-store_back :
    (slots : List Sentence) (i n : ℕ) (s cur : Sentence) (place : ℕ) (closed : Option Sentence)
    → get_elem? slots i ≡ some s
    → length (store_back (make_room slots i n) i (mk cur place closed)) ≡ length slots + n
unfolding store_back make_room
length-store_back [] i n s cur place closed e = cc
length-store_back (x ∷ ss) zero n s cur place none e = omega (arith, padded)
  where
    padded : length (replicate n [] ++ ss) ≡ n + length ss
    padded = omega (
      arith,
      length-append (replicate {A = Sentence} n []) ss,
      length-replicate {A = Sentence} n [],
    )
length-store_back (x ∷ ss) zero n s cur place (some c) e =
    omega (arith, padded, length-set (c ∷ (replicate n [] ++ ss)) 1 cur)
  where
    padded : length (replicate n [] ++ ss) ≡ n + length ss
    padded = omega (
      arith,
      length-append (replicate {A = Sentence} n []) ss,
      length-replicate {A = Sentence} n [],
    )
length-store_back (x ∷ ss) (suc i) n s cur place none e =
    omega (arith, length-store_back ss i n s cur place none e)
length-store_back (x ∷ ss) (suc i) n s cur place (some c) e =
    omega (arith, length-store_back ss i n s cur place (some c) e)
