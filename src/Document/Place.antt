-- ===== src/Document/Place.antt =====
-- file_ops.c: the place in a sentence that a word index of `insert_word_in_sentence` stands for.
use docs_plus_plus.Base.{
  ℕ, suc, ◌+◌, ◌-◌, ◌≤◌, ◌<◌, ◌≡◌, refl, inl, inr, true, false, [], ◌∷◌, Text, ◌==◌, length, take,
  take_of_length-le, arith, Bool-cases,
}
use docs_plus_plus.Document.{Sentence, should_skip_for_indexing}
use docs_plus_plus.Document.Insert.{real_word_count, place_after, actual_place}

-- The place found lies in the sentence, and has the wanted number of real words before it.
abbrev Placed : Sentence → ℕ → ℕ → ℕ → Type 0
Placed ws wanted seen i =
    (k : ℕ) × (place_after wanted seen i ws ≡ i + k)
    × (k ≤ length ws)
    × (real_word_count (take k ws) + seen ≡ wanted)

Placed-skip :
    (w : Text) (ws : Sentence) (wanted seen i : ℕ)
    → should_skip_for_indexing w ≡ true
    → Placed ws wanted seen (i + 1)
    → Placed (w ∷ ws) wanted seen i
unfolding place_after real_word_count
Placed-skip w ws wanted seen i skip (k, at, fits, real) =
    (suc k, rw skip (omega (arith, at)), omega arith, rw skip (omega (arith, real)))

Placed-word :
    (w : Text) (ws : Sentence) (wanted seen i : ℕ)
    → should_skip_for_indexing w ≡ false
    → ((seen + 1) == wanted) ≡ false
    → Placed ws wanted (seen + 1) (i + 1)
    → Placed (w ∷ ws) wanted seen i
unfolding place_after real_word_count
Placed-word w ws wanted seen i word later (k, at, fits, real) =
    (suc k, rw (word, later) (omega (arith, at)), omega arith, rw word (omega (arith, real)))

place_after_lem :
    (ws : Sentence) (wanted seen i : ℕ)
    → seen < wanted
    → wanted ≤ seen + real_word_count ws
    → Placed ws wanted seen i
unfolding real_word_count
place_after_lem [] wanted seen i h p = absurd (omega arith)
place_after_lem (w ∷ ws) wanted seen i h p = elim (Bool-cases (should_skip_for_indexing w)) [
  | inl skip ↦
      Placed-skip w ws wanted seen i skip
        (place_after_lem ws wanted seen (i + 1) h (omega (arith, (rw skip at p))))
  | inr word ↦ elim (Bool-cases ((seen + 1) == wanted)) [
    | inl here ↦
        (1, unfold place_after in rw (word, here) refl, omega arith, rw word (ground arith))
    | inr later ↦ Placed-word w ws wanted seen i word later (
        place_after_lem ws wanted (seen + 1) (i + 1) (ground arith) (omega (arith, (rw word at p))))
  ]
]

-- A valid word index `w` stands for a place with `w - 1` real words before it.
pub actual_place_lem :
    (ws : Sentence) (w : ℕ)
    → 1 ≤ w
    → w ≤ real_word_count ws + 1
    → (actual_place ws w ≤ length ws) × (real_word_count (take (actual_place ws w) ws) + 1 ≡ w)
unfolding actual_place
actual_place_lem ws w h p = elim (Bool-cases (w == 1)) [
  | inl first ↦ rw first (omega arith, unfold real_word_count in ground arith)
  | inr more ↦ elim (Bool-cases (w == (real_word_count ws + 1))) [
    | inl last ↦
        rw (more, last)
          (omega arith, rw (take_of_length-le (length ws) ws (omega arith)) (ground arith))
    | inr middle ↦
        let (k, at, fits, real) = place_after_lem ws (w - 1) 0 0 (ground arith) (ground arith) in
        let at' : place_after (w - 1) 0 0 ws ≡ k = omega (arith, at) in
        rw (more, middle, at') (fits, omega (arith, real))
  ]
]
