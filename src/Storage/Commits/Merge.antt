-- ===== src/Storage/Commits/Merge.antt =====
-- ss.c: which sentence a commit replaces, in `process_commit_queue`.
use docs_plus_plus.Base.{
  ◌+◌, ◌-◌, ◌≡◌, refl, ap, ◌∙◌, sym, false, some, List, ◌∷◌, ◌++◌, append_assoc, ltb, leb, ◌==◌,
  length, take, drop, length-append, take-append_length, drop-append_length, drop-suc-append_length,
  arith,
}
use docs_plus_plus.Document.{Sentence}
use docs_plus_plus.Storage.Commits.{CommitEntry, adjusted_idx, modified_count, merge_at, merge}

-- The file that a session started from was `pre ++ s ∷ post`, its sentence was `s`, and its copy
-- now reads `pre ++ (new ++ post)`.
pub record Edits (e : CommitEntry) (pre new post : List Sentence) : Type 0 where
  pub at : e.sentence_idx ≡ length pre
  pub counted : e.original_sentence_count ≡ length pre + 1 + length post

module _ (e : CommitEntry) (pre new post : List Sentence) (h : Edits e pre new post)
    (a b : List Sentence) (x : Sentence) (same : length b ≡ length post) where
  adjusted-place : adjusted_idx e (length (a ++ x ∷ b)) ≡ some (length a)
  unfolding adjusted_idx
  adjusted-place =
      rw small (ap some (omega (arith, h.at, h.counted, same, length-append a (x ∷ b))))
    where
      small : ltb (e.sentence_idx + length (a ++ x ∷ b)) e.original_sentence_count ≡ false
      small = ground (arith, h.at, h.counted, same, length-append a (x ∷ b))

  modified-new :
      take
        (modified_count e (length (pre ++ (new ++ post))))
        (drop e.sentence_idx (pre ++ (new ++ post)))
      ≡ new
  unfolding modified_count
  modified-new =
      rw (h.at, drop-append_length pre (new ++ post), count) (take-append_length new post)
    where
      count : 1 + length (pre ++ (new ++ post)) - e.original_sentence_count ≡ length new
      count = omega (arith, h.counted, length-append pre (new ++ post), length-append new post)

  -- A commit replaces the sentence that has as many sentences behind it as the session's
  -- sentence had when the session started, whatever that sentence is.
  pub merge_lem : merge e (a ++ x ∷ b) (pre ++ (new ++ post)) ≡ some (a ++ (new ++ b))
  unfolding merge merge_at
  merge_lem =
      rw
        (
          adjusted-place,
          merge,
          filled,
          inside,
          modified-new,
          take-append_length a (x ∷ b),
          drop-suc-append_length a b x,
        )
        refl
    where
      filled : (length (a ++ x ∷ b) == 0) ≡ false
      filled = ground (arith, length-append a (x ∷ b))

      inside : leb (length (a ++ x ∷ b)) (length a) ≡ false
      inside = ground (arith, length-append a (x ∷ b))

-- If other commits changed only what stands before the session's sentence, and the session only
-- its sentence, the merged file has
-- the session's sentences in its place, and all else as the other commits left it.
pub merge_earlier :
    (e : CommitEntry) (pre new post pre' : List Sentence) (s : Sentence)
    → Edits e pre new post
    → merge e (pre' ++ s ∷ post) (pre ++ (new ++ post)) ≡ some (pre' ++ (new ++ post))
merge_earlier e pre new post pre' s h = merge_lem e pre new post h pre' post s refl

-- If other commits changed what stands behind the session's sentence `s` so that it is longer, and
-- nothing else, the merged file keeps the old `s`, and the session's sentences replace the one
-- that has as many sentences behind it as `s` had.
pub merge_later :
    (e : CommitEntry) (pre new post later rest : List Sentence) (s victim : Sentence)
    → Edits e pre new post
    → length rest ≡ length post
    → merge e (pre ++ s ∷ (later ++ victim ∷ rest)) (pre ++ (new ++ post))
      ≡ some (pre ++ s ∷ (later ++ (new ++ rest)))
merge_later e pre new post later rest s victim h same =
    ap (λ t. merge e t (pre ++ (new ++ post))) (sym (append_assoc pre (s ∷ later) (victim ∷ rest)))
    ∙ merge_lem e pre new post h (pre ++ s ∷ later) rest victim same
    ∙ ap some (append_assoc pre (s ∷ later) (new ++ rest))
