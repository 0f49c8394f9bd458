-- ===== src/Base/Selection.antt =====
-- The elements of a list that pass a Boolean test, and membership.
use mathlib.Core.Path.{◌≡◌, sym, ap}
use mathlib.Core.Logic.{inl, inr}
use mathlib.Core.Bool.{Bool, true}
use mathlib.Core.List.{List, [], ◌∷◌}
use mathlib.Core.List.{Memᴰ}
use mathlib.Core.List.Memᴰ.{head, tail, not-nil, cases_cons}
use docs_plus_plus.Base.Tests.{if◌then◌else◌, Bool-cases}

module _ {ℓ} {A : Type ℓ} (p : A → Bool) where
  unfoldable pub keep_if : List A → List A
  keep_if [] = []
  keep_if (x ∷ xs) = let rest = keep_if xs in if p x then x ∷ rest else rest

  pub mem-keep_if : (xs : List A) (a : A) → Memᴰ a (keep_if xs) → Memᴰ a xs × (p a ≡ true)
  unfolding keep_if
  mem-keep_if [] a m = absurd (not-nil m)
  mem-keep_if (x ∷ xs) a m = elim (Bool-cases (p x)) [
    | inr fails ↦ let (later, passes) = mem-keep_if xs a (rw fails at m) in (tail later, passes)
    | inl passes ↦ elim (cases_cons (rw passes at m)) [
      | inl same ↦ (head same, rw same passes)
      | inr kept ↦ let (later, good) = mem-keep_if xs a kept in (tail later, good)
    ]
  ]

  pub keep_if-mem : (xs : List A) (a : A) → Memᴰ a xs → p a ≡ true → Memᴰ a (keep_if xs)
  unfolding keep_if
  keep_if-mem [] a m passes = absurd (not-nil m)
  keep_if-mem (x ∷ xs) a (head same) passes = rw (ap p (sym same), passes) (head same)
  keep_if-mem (x ∷ xs) a (tail later) passes = elim (Bool-cases (p x)) [
    | inl here ↦ rw here (tail (keep_if-mem xs a later passes))
    | inr gone ↦ rw gone (keep_if-mem xs a later passes)
  ]
