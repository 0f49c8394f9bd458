-- ===== src/Trie/Update.antt =====
-- trie.c: what `trie_update` changes, and what each operation does to the root.
use docs_plus_plus.Base.{
  ℕ, ◌≡◌, refl, ◌∙◌, sym, inl, inr, Bool, true, false, ◌&&◌, ◌||◌, Option, none, some, [], ◌∷◌,
  Text, leb, if◌then◌else◌, arith, text_eq, and_false, Bool-cases,
}
use docs_plus_plus.Trie.{
  alphabet_size, TrieNode, null, node, done, failed, is_null, set_child, search_walk, delete_helper,
  update_walk,
}
use docs_plus_plus.Trie.Lookup.{is_ascii, search-cons, search-nil, search-null, search-set_child}

abbrev pub is_some {ℓ} : {A : Type ℓ} → Option A → Bool
is_some none = false
is_some (some a) = true

module _ {ℓ} {A : Type ℓ} where
  -- The test of the loop, and what it lets through.
  walk_test :
      (t : TrieNode A) (c : ℕ) (key : Text)
      → (leb alphabet_size c || is_null t) ≡ true
      → (if leb alphabet_size c then none else search_walk t key) ≡ none
  unfolding is_null
  walk_test null c key h = elim (Bool-cases (leb alphabet_size c)) [
    | inl bad ↦ rw bad refl
    | inr good ↦ rw good (search-null key)
  ]
  walk_test (node e m ch) c key h = ground arith

  walk_passes :
      (t : TrieNode A) (c : ℕ)
      → (leb alphabet_size c || is_null t) ≡ false
      → leb alphabet_size c ≡ false
  walk_passes t c h = ground arith

  -- An update reports success exactly when the name is there.
  pub update_walk-status :
      (t : TrieNode A) (key : Text) (v : A)
      → (update_walk t key v).1 ≡ (if is_some (search_walk t key) then done else failed)
  unfolding update_walk
  update_walk-status null key v = rw (search-null key) refl
  update_walk-status (node true none ch) [] v = rw (search-nil true none ch) refl
  update_walk-status (node true (some old) ch) [] v = rw (search-nil true (some old) ch) refl
  update_walk-status (node false none ch) [] v = rw (search-nil false none ch) refl
  update_walk-status (node false (some old) ch) [] v = rw (search-nil false (some old) ch) refl
  update_walk-status (node e m ch) (c ∷ key) v =
      rw (search-cons e m ch c key) (elim (Bool-cases (leb alphabet_size c || is_null (ch c))) [
        | inl bad ↦ rw (bad, walk_test (ch c) c key bad) refl
        | inr good ↦ rw (good, walk_passes (ch c) c good) (update_walk-status (ch c) key v)
      ])

  -- It replaces the entry of that name, if there is one, and no other.
  pub search-update_walk :
      (t : TrieNode A) (key j : Text) (v : A)
      → search_walk (update_walk t key v).0 j
        ≡ (if is_some (search_walk t key) && text_eq key j then some v else search_walk t j)
  unfolding update_walk text_eq
  search-update_walk null key j v = rw (search-null key) refl
  search-update_walk (node true none ch) [] j v = rw (search-nil true none ch) refl
  search-update_walk (node true (some old) ch) [] [] v =
      rw (search-nil true (some old) ch) (search-nil true (some v) ch)
  search-update_walk (node true (some old) ch) [] (d ∷ j) v =
      rw (search-nil true (some old) ch)
        (search-cons true (some v) ch d j ∙ sym (search-cons true (some old) ch d j))
  search-update_walk (node false none ch) [] j v = rw (search-nil false none ch) refl
  search-update_walk (node false (some old) ch) [] j v = rw (search-nil false (some old) ch) refl
  search-update_walk (node e m ch) (c ∷ key) [] v =
      rw (and_false (is_some (search_walk (node e m ch) (c ∷ key))))
        (elim (Bool-cases (leb alphabet_size c || is_null (ch c))) [
          | inl bad ↦ rw bad refl
          | inr good ↦ rw good (
              search-nil e m (set_child ch c (update_walk (ch c) key v).0)
              ∙ sym (search-nil e m ch))
        ])
  search-update_walk (node e m ch) (c ∷ key) (d ∷ j) v =
      rw (search-cons e m ch c key) (elim (Bool-cases (leb alphabet_size c || is_null (ch c))) [
        | inl bad ↦ rw (bad, walk_test (ch c) c key bad) refl
        | inr good ↦
            rw
              (
                good,
                walk_passes (ch c) c good,
                search-set_child e m ch c d (update_walk (ch c) key v).0 j,
                search-cons e m ch d j,
              )
              (ground (arith, walk_passes (ch c) c good, search-update_walk (ch c) key j v))
      ])

  pub update_walk-allocated :
      (t : TrieNode A) (key : Text) (v : A) → is_null (update_walk t key v).0 ≡ is_null t
  unfolding update_walk is_null
  update_walk-allocated null key v = refl
  update_walk-allocated (node e none ch) [] v = refl
  update_walk-allocated (node true (some old) ch) [] v = refl
  update_walk-allocated (node false (some old) ch) [] v = refl
  update_walk-allocated (node e m ch) (c ∷ key) v =
      elim (Bool-cases (leb alphabet_size c || is_null (ch c))) [
        | inl bad ↦ rw bad refl
        | inr good ↦ rw good refl
      ]

  pub delete_helper-allocated :
      (t : TrieNode A) (key : Text) → is_null (delete_helper t key).0 ≡ is_null t
  unfolding delete_helper is_null
  delete_helper-allocated null key = refl
  delete_helper-allocated (node e m ch) [] = refl
  delete_helper-allocated (node e m ch) (c ∷ key) = ground arith

  -- No name with a character outside ASCII is ever found.
  pub search_not_ascii :
      (t : TrieNode A) (key : Text) → is_ascii key ≡ false → search_walk t key ≡ none
  search_not_ascii null key h = search-null key
  search_not_ascii (node e m ch) [] h = cc
  search_not_ascii (node e m ch) (c ∷ key) h =
      search-cons e m ch c key ∙ elim (Bool-cases (leb alphabet_size c)) [
        | inl bad ↦ rw bad refl
        | inr good ↦ rw good (search_not_ascii (ch c) key (rw good at h))
      ]
