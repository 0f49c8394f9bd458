-- ===== src/Document/Cut.antt =====
-- file_ops.c: which words the sentences have after an insertion, in `insert_word_in_sentence`.
use docs_plus_plus.Base.{
  ℕ, suc, ◌+◌, ◌-◌, ◌≤◌, ◌<◌, ◌≡◌, ◌⊎◌, refl, ap, ◌∙◌, inl, inr, Bool, true, false, Option, none,
  some, List, [], ◌∷◌, ◌++◌, append-nil, append_assoc, Text, if◌then◌else◌, length, replicate,
  insert_at, length-append, take-append_length, drop-append_length, Bool-cases, arith,
}
use docs_plus_plus.Document.{Sentence, is_delimiter_token}
use docs_plus_plus.Document.Insert.{
  last_delimiter, is_split, splits, InsertState, insert_part, insert_parts,
}
use docs_plus_plus.Document.Edit.{mk}

-- The parts up to the last delimiter, that one included, and the parts behind it.
abbrev pub cut : List Text → Option (List Text × List Text)
cut [] = none
cut (p ∷ ps) = elim (cut ps) [
  | some (a, b) ↦ some (p ∷ a, b)
  | none ↦ if is_delimiter_token p then some (p ∷ [], ps) else none
]

-- The sentence of the insertion and the new ones: parts behind the last delimiter begin a new
-- sentence with the words that follow the place, and all other new sentences are empty.
abbrev pub divided_sentences :
    Sentence → List Text → Sentence → ℕ → Option (List Text × List Text) → List Sentence
divided_sentences before parts after n none = (before ++ (parts ++ after)) ∷ replicate n []
divided_sentences before parts after n (some (a, [])) =
    (before ++ (parts ++ after)) ∷ replicate n []
divided_sentences before parts after n (some (a, b ∷ bs)) =
    (before ++ a) ∷ ((b ∷ bs) ++ after) ∷ replicate (n - 1) []

-- Parts stand behind the last delimiter.
abbrev pub has_rest : Option (List Text × List Text) → Bool
has_rest none = false
has_rest (some (a, [])) = false
has_rest (some (a, b ∷ bs)) = true

insert_at-here : (b a : Sentence) (p : Text) → insert_at (b ++ a) (length b) p ≡ (b ++ p ∷ []) ++ a
insert_at-here [] a p = refl
insert_at-here (x ∷ b) a p = ap (λ t. x ∷ t) (insert_at-here b a p)

length-snoc : (b : Sentence) (p : Text) → length (b ++ p ∷ []) ≡ suc (length b)
length-snoc b p = omega (arith, length-append b (p ∷ []))

-- Parts that close no sentence are put at the place one after the other.
insert_parts-closed_before :
    (last : Option ℕ) (count i : ℕ) (ps : List Text) (b a s : Sentence)
    → insert_parts last count i ps (mk (b ++ a) (length b) (some s))
      ≡ mk ((b ++ ps) ++ a) (length (b ++ ps)) (some s)
unfolding insert_parts insert_part
insert_parts-closed_before last count i [] b a s = rw (append-nil b) refl
insert_parts-closed_before last count i (p ∷ ps) b a s =
    rw (insert_at-here b a p, ← length-snoc b p)
      (insert_parts-closed_before last count (i + 1) ps (b ++ p ∷ []) a s
        ∙ ap (λ t. mk (t ++ a) (length t) (some s)) (append_assoc b (p ∷ []) ps))

not_split : (l : Option ℕ) (count i : ℕ) → splits l count ≡ false → is_split l count i ≡ false
unfolding is_split splits
not_split none count i h = refl
not_split (some k) count i h = ground (arith, h)

pub insert_parts-open :
    (last : Option ℕ) (count i : ℕ) (ps : List Text) (b a : Sentence)
    → splits last count ≡ false
    → insert_parts last count i ps (mk (b ++ a) (length b) none)
      ≡ mk ((b ++ ps) ++ a) (length (b ++ ps)) none
unfolding insert_parts insert_part
insert_parts-open last count i [] b a h = rw (append-nil b) refl
insert_parts-open last count i (p ∷ ps) b a h =
    rw (not_split last count i h, insert_at-here b a p, ← length-snoc b p)
      (insert_parts-open last count (i + 1) ps (b ++ p ∷ []) a h
        ∙ ap (λ t. mk (t ++ a) (length t) none) (append_assoc b (p ∷ []) ps))

one_part :
    (l : Option ℕ) (count i : ℕ) (p : Text) (ps : List Text) (st : InsertState)
    → insert_parts l count i (p ∷ ps) st
      ≡ insert_parts l count (i + 1) ps (insert_part st (is_split l count i) p)
unfolding insert_parts
one_part l count i p ps st = refl

insert_part-stays :
    (b a : Sentence) (p : Text)
    → insert_part (mk (b ++ a) (length b) none) false p
      ≡ mk ((b ++ p ∷ []) ++ a) (length (b ++ p ∷ [])) none
unfolding insert_part
insert_part-stays b a p = rw (insert_at-here b a p, ← length-snoc b p) refl

insert_part-moves :
    (b a : Sentence) (p : Text)
    → insert_part (mk (b ++ a) (length b) none) true p ≡ mk a 0 (some (b ++ p ∷ []))
unfolding insert_part
insert_part-moves b a p =
    rw
      (
        insert_at-here b a p,
        ← length-snoc b p,
        take-append_length (b ++ p ∷ []) a,
        drop-append_length (b ++ p ∷ []) a,
      )
      refl

-- The parts up to the delimiter close the sentence; the others begin the next one.
pub insert_parts-split :
    (count l i : ℕ) (c e : List Text) (b a : Sentence)
    → length c + i ≡ suc l
    → i ≤ l
    → l < count - 1
    → insert_parts (some l) count i (c ++ e) (mk (b ++ a) (length b) none)
      ≡ mk (e ++ a) (length e) (some (b ++ c))
insert_parts-split count l i [] e b a size at inside = absurd (omega (arith, size))
insert_parts-split count l i (p ∷ []) e b a size at inside =
    let now : is_split (some l) count i ≡ true = unfold is_split in ground (arith, size, inside) in
    one_part (some l) count i p e _
    ∙ ap
        (λ t. insert_parts (some l) count (i + 1) e (insert_part (mk (b ++ a) (length b) none) t p))
        now
    ∙ ap (insert_parts (some l) count (i + 1) e) (insert_part-moves b a p)
    ∙ insert_parts-closed_before (some l) count (i + 1) e [] a (b ++ p ∷ [])
insert_parts-split count l i (p ∷ q ∷ c) e b a size at inside =
    let later : is_split (some l) count i ≡ false = unfold is_split in ground (arith, size) in
    let ps = (q ∷ c) ++ e in
    one_part (some l) count i p ps _
    ∙ ap
        (λ t.
          insert_parts (some l) count (i + 1) ps (insert_part (mk (b ++ a) (length b) none) t p))
        later
    ∙ ap (insert_parts (some l) count (i + 1) ps) (insert_part-stays b a p)
    ∙ insert_parts-split count l (i + 1) (q ∷ c) e (b ++ p ∷ []) a (omega (arith, size))
        (omega (arith, size)) inside
    ∙ ap (λ t. mk (e ++ a) (length e) (some t)) (append_assoc b (p ∷ []) (q ∷ c))

-- Where the last delimiter is.
pub record Cut (ps a b : List Text) (i : ℕ) (acc : Option ℕ) : Type 0 where
  pub index : ℕ
  pub is_cut : cut ps ≡ some (a, b)
  pub parts : ps ≡ a ++ b
  pub size : length a ≡ suc index
  pub found : last_delimiter i ps acc ≡ some (i + index)

pub cut_lem :
    (ps : List Text) (i : ℕ) (acc : Option ℕ)
    → ((cut ps ≡ none) × (last_delimiter i ps acc ≡ acc))
      ⊎ ((a : List Text) × (b : List Text) × Cut ps a b i acc)
unfolding last_delimiter
cut_lem [] i acc = inl (refl, refl)
cut_lem (p ∷ ps) i acc = elim (cut_lem ps (i + 1) (if is_delimiter_token p then some i else acc)) [
  | inr (a, b, c) ↦ inr (
    p ∷ a,
    b,
    record {
      index = suc c.index;
      is_cut = rw c.is_cut refl;
      parts = ap (λ t. p ∷ t) c.parts;
      size = ap suc c.size;
      found = c.found ∙ ap some (omega arith);
    },
  )
  | inl (absent, kept) ↦ elim (Bool-cases (is_delimiter_token p)) [
    | inr other ↦ inl (rw (absent, other) refl, rw other (rw other at kept))
    | inl here ↦ inr (
      p ∷ [],
      ps,
      record {
        index = 0;
        is_cut = rw (absent, here) refl;
        parts = refl;
        size = refl;
        found = rw here ((rw here at kept) ∙ ap some (omega arith));
      },
    )
  ]
]
