-- ===== src/Trie/Listing.antt =====
-- trie.c: how many entries `trie_get_all_files` writes into the array of its caller.
use docs_plus_plus.Base.{
  ℕ, zero, suc, ◌+◌, ◌≤◌, ◌<◌, inl, inr, Bool, true, false, Option, none, some, List, [], ◌∷◌, ◌++◌,
  leb, if◌then◌else◌, length, length-append, arith, Bool-cases,
}
use docs_plus_plus.Trie.{
  alphabet_size, TrieNode, null, node, is_null, each_child, option_list, collect_files, Trie,
  trie_get_all_files,
}

module _ {ℓ} {A : Type ℓ} where
  each_child-bound :
      (max n i : ℕ) (ch : ℕ → TrieNode A) (body : ℕ → List A → List A) (files : List A)
      → ((j : ℕ) (fs : List A) → length fs ≤ max → length (body j fs) ≤ max)
      → length files ≤ max
      → length (each_child n i ch body files) ≤ max
  unfolding each_child
  each_child-bound max zero i ch body files keeps h = h
  each_child-bound max (suc n) i ch body files keeps h =
      each_child-bound max n (i + 1) ch body (if is_null (ch i) then files else body i files) keeps
        (elim (Bool-cases (is_null (ch i))) [
          | inl gone ↦ rw gone h
          | inr there ↦ rw there (keeps i files h)
        ])

  pub own-bound :
      (max : ℕ) (e : Bool) (m : Option A) (files : List A)
      → length files < max
      → length (if e then files ++ option_list m else files) ≤ max
  own-bound max true none files h = omega (arith, length-append files [])
  own-bound max true (some a) files h = omega (arith, length-append files (a ∷ []))
  own-bound max false m files h = omega arith

  collect_files-bound :
      (t : TrieNode A) (max : ℕ) (files : List A)
      → length files ≤ max
      → length (collect_files t max files) ≤ max
  unfolding collect_files
  collect_files-bound null max files h = h
  collect_files-bound (node e m ch) max files h = elim (Bool-cases (leb max (length files))) [
    | inl full ↦ rw full h
    | inr room ↦ rw room (
        each_child-bound max alphabet_size 0 ch (λ i fs. collect_files (ch i) max fs) _
          (λ j fs k. collect_files-bound (ch j) max fs k) (own-bound max e m files (ground arith)))
  ]

  -- `trie_get_all_files` writes at most `max` entries, however many files there are.
  pub length-trie_get_all_files : (t : Trie A) (max : ℕ) → length (trie_get_all_files t max) ≤ max
  unfolding trie_get_all_files
  length-trie_get_all_files t max = collect_files-bound t.root max [] (omega arith)
