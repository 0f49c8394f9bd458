-- ===== src/Trie/Lookup.antt =====
-- trie.c: what a search finds after an insertion, a deletion and an update.
use docs_plus_plus.Base.{
  ℕ, zero, suc, ◌+◌, ◌<◌, ◌≤◌, ◌≡◌, refl, ◌∙◌, sym, inl, inr, Bool, true, false, ◌&&◌, ◌||◌, not,
  Option, none, some, [], ◌∷◌, Text, leb, ◌==◌, if◌then◌else◌, arith, text_eq, and_false,
  Bool-cases,
}
use docs_plus_plus.Trie.{
  alphabet_size, TrieNode, null, node, done, failed, is_null, set_child, or_create, insert_walk,
  search_walk, delete_helper, no_child_from, has_no_child,
}

-- Every character of a name is below `ALPHABET_SIZE`.
abbrev pub is_ascii : Text → Bool
is_ascii [] = true
is_ascii (c ∷ key) = not (leb alphabet_size c) && is_ascii key

module _ {ℓ} {A : Type ℓ} where
  pub search-cons :
      (e : Bool) (m : Option A) (ch : ℕ → TrieNode A) (c : ℕ) (key : Text)
      → search_walk (node e m ch) (c ∷ key)
        ≡ (if leb alphabet_size c then none else search_walk (ch c) key)
  unfolding search_walk
  search-cons e m ch c key = go (ch c)
    where
      go :
          (t : TrieNode A)
          → (if leb alphabet_size c || is_null t then none else search_walk t key)
            ≡ (if leb alphabet_size c then none else search_walk t key)
      go null = ground arith
      go (node e' m' ch') = ground arith

  pub search-null : (key : Text) → search_walk {A = A} null key ≡ none
  unfolding search_walk
  search-null key = refl

  search-or_create :
      (t : TrieNode A) (key : Text) → search_walk (or_create t) key ≡ search_walk t key
  unfolding search_walk or_create
  search-or_create null [] = refl
  search-or_create null (c ∷ key) = ground arith
  search-or_create (node e m ch) key = refl

  or_create-allocated : (t : TrieNode A) → is_null (or_create t) ≡ false
  unfolding or_create is_null
  or_create-allocated null = refl
  or_create-allocated (node e m ch) = refl

  pub insert_walk-allocated :
      (t : TrieNode A) (key : Text) (v : A)
      → is_null t ≡ false
      → is_null (insert_walk t key v).0 ≡ false
  unfolding insert_walk is_null
  insert_walk-allocated null key v h = cc
  insert_walk-allocated (node e m ch) [] v h = refl
  insert_walk-allocated (node e m ch) (c ∷ key) v h = ground arith

  pub insert_walk-status :
      (t : TrieNode A) (key : Text) (v : A)
      → is_null t ≡ false
      → (insert_walk t key v).1 ≡ (if is_ascii key then done else failed)
  unfolding insert_walk is_null
  insert_walk-status null key v h = cc
  insert_walk-status (node e m ch) [] v h = refl
  insert_walk-status (node e m ch) (c ∷ key) v h =
      ground (arith, insert_walk-status (or_create (ch c)) key v (or_create-allocated (ch c)))

  pub search-set_child :
      (e : Bool) (m : Option A) (ch : ℕ → TrieNode A) (c d : ℕ) (t : TrieNode A) (j : Text)
      → search_walk (node e m (set_child ch c t)) (d ∷ j) ≡ (
          if leb alphabet_size d
          then none
          else if d == c
          then search_walk t j
          else search_walk (ch d) j)
  unfolding set_child
  search-set_child e m ch c d t j = ground (arith, search-cons e m (set_child ch c t) d j)

  pub search-nil :
      (e : Bool) (m : Option A) (ch : ℕ → TrieNode A)
      → search_walk (node e m ch) [] ≡ (if e then m else none)
  unfolding search_walk
  search-nil e m ch = refl

  -- What the walk of an insertion leaves to be found, for every name.
  pub search-insert_walk :
      (t : TrieNode A) (key j : Text) (v : A)
      → is_null t ≡ false
      → search_walk (insert_walk t key v).0 j
        ≡ (if is_ascii key && text_eq key j then some v else search_walk t j)
  unfolding insert_walk text_eq
  search-insert_walk null key j v h = unfold is_null in cc
  search-insert_walk (node e m ch) [] [] v h = search-nil true (some v) ch
  search-insert_walk (node e m ch) [] (d ∷ j) v h =
      search-cons true (some v) ch d j ∙ sym (search-cons e m ch d j)
  search-insert_walk (node e m ch) (c ∷ key) [] v h =
      let t = (insert_walk (or_create (ch c)) key v).0 in
      elim (Bool-cases (leb alphabet_size c)) [
        | inl bad ↦ rw bad refl
        | inr good ↦
            rw (good, and_false (is_ascii key))
              (search-nil e m (set_child ch c t) ∙ sym (search-nil e m ch))
      ]
  search-insert_walk (node e m ch) (c ∷ key) (d ∷ j) v h =
      let t = (insert_walk (or_create (ch c)) key v).0 in
      elim (Bool-cases (leb alphabet_size c)) [
        | inl bad ↦ rw bad refl
        | inr good ↦
            rw (good, search-set_child e m ch c d t j, search-cons e m ch d j)
              (ground (
                arith,
                search-or_create (ch c) j,
                search-insert_walk (or_create (ch c)) key j v (or_create-allocated (ch c)),
              ))
      ]

  no_child_from-null :
      (n i : ℕ) (ch : ℕ → TrieNode A) (j : ℕ)
      → no_child_from n i ch ≡ true
      → i ≤ j
      → j < i + n
      → is_null (ch j) ≡ true
  unfolding no_child_from
  no_child_from-null zero i ch j h p q = absurd (omega arith)
  no_child_from-null (suc n) i ch j h p q = ground (arith, no_child_from-null n (i + 1) ch j)

  search-is_null : (t : TrieNode A) (key : Text) → is_null t ≡ true → search_walk t key ≡ none
  unfolding is_null
  search-is_null null key h = search-null key
  search-is_null (node e m ch) key h = cc

  -- A node without children and without an entry holds nothing.
  search-has_no_child :
      (m : Option A) (ch : ℕ → TrieNode A) (key : Text)
      → has_no_child ch ≡ true
      → search_walk (node false m ch) key ≡ none
  unfolding has_no_child
  search-has_no_child m ch [] h = search-nil false m ch
  search-has_no_child m ch (d ∷ j) h =
      search-cons false m ch d j ∙ elim (Bool-cases (leb alphabet_size d)) [
        | inl bad ↦ rw bad refl
        | inr good ↦ rw good (
            search-is_null (ch d) j
              (no_child_from-null alphabet_size 0 ch d h (omega arith) (ground arith)))
      ]

  search-delete_helper_pruned :
      (t : TrieNode A) (key j : Text)
      → (delete_helper t key).1 ≡ true
      → search_walk (delete_helper t key).0 j ≡ none
  unfolding delete_helper
  search-delete_helper_pruned null key j h = cc
  search-delete_helper_pruned (node e m ch) [] j h = search-has_no_child _ ch j h
  search-delete_helper_pruned (node e m ch) (c ∷ key) j h =
      elim (Bool-cases (leb alphabet_size c)) [
        | inl bad ↦ absurd (cc (rw bad at h))
        | inr good ↦ elim (Bool-cases (delete_helper (ch c) key).1) [
          | inl pruned ↦ rw (good, pruned) (go e (rw (good, pruned) at h))
          | inr kept ↦ absurd (cc (rw (good, kept) at h))
        ]
      ]
    where
      go :
          (e : Bool)
          → (not e && has_no_child (set_child ch c null)) ≡ true
          → search_walk (node e m (set_child ch c null)) j ≡ none
      go true h = cc
      go false h = search-has_no_child m (set_child ch c null) j h

  pub search-delete_helper :
      (t : TrieNode A) (key j : Text)
      → search_walk (delete_helper t key).0 j
        ≡ (if is_ascii key && text_eq key j then none else search_walk t j)
  unfolding delete_helper text_eq
  search-delete_helper null key j = elim (Bool-cases (is_ascii key && text_eq key j)) [
    | inl e ↦ rw (e, search-null j) refl
    | inr e ↦ rw e refl
  ]
  search-delete_helper (node e m ch) [] [] = search-nil false (if e then none else m) ch
  search-delete_helper (node e m ch) [] (d ∷ j) =
      search-cons false (if e then none else m) ch d j ∙ sym (search-cons e m ch d j)
  search-delete_helper (node e m ch) (c ∷ key) [] = elim (Bool-cases (leb alphabet_size c)) [
    | inl bad ↦ rw bad refl
    | inr good ↦ elim (Bool-cases (delete_helper (ch c) key).1) [
      | inl pruned ↦
          rw (good, pruned, and_false (is_ascii key))
            (search-nil e m (set_child ch c null) ∙ sym (search-nil e m ch))
      | inr kept ↦
          rw (good, kept, and_false (is_ascii key))
            (search-nil e m (set_child ch c (delete_helper (ch c) key).0) ∙ sym (search-nil e m ch))
    ]
  ]
  search-delete_helper (node e m ch) (c ∷ key) (d ∷ j) = elim (Bool-cases (leb alphabet_size c)) [
    | inl bad ↦ rw bad refl
    | inr good ↦ elim (Bool-cases (delete_helper (ch c) key).1) [
      | inl pruned ↦
          rw (good, pruned, search-set_child e m ch c d null j, search-cons e m ch d j)
            (ground (
              arith,
              search-null j,
              search-delete_helper (ch c) key j,
              search-delete_helper_pruned (ch c) key j,
            ))
      | inr kept ↦
          rw
            (
              good,
              kept,
              search-set_child e m ch c d (delete_helper (ch c) key).0 j,
              search-cons e m ch d j,
            )
            (ground (arith, search-delete_helper (ch c) key j))
    ]
  ]
