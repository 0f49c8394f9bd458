-- ===== src/Trie.antt =====
-- trie.c and trie.h: the 128-way tries of file and folder metadata.
pub mod Listing
pub mod Contents
pub mod Lookup
pub mod Update
pub mod Refinement
use docs_plus_plus.Base.{
  ℕ, zero, suc, ◌+◌, Bool, true, false, ◌&&◌, ◌||◌, not, Option, none, some, List, [], ◌∷◌, ◌++◌,
  Text, ltb, leb, ◌==◌, if◌then◌else◌, length,
}

abbrev pub alphabet_size : ℕ
alphabet_size = 128

-- A `TrieNode *`: NULL, or a node with `is_end_of_word`, `file_meta` and the array `children`.
pub data TrieNode {ℓ} (A : Type ℓ) : Type ℓ where
  null : TrieNode A
  node : Bool → Option A → (ℕ → TrieNode A) → TrieNode A

-- The status that the operations return: 0 or -1.
pub data Status : Type 0 where
  done failed : Status

module _ {ℓ} {A : Type ℓ} where
  unfoldable pub create_trie_node : TrieNode A
  create_trie_node = node false none (λ i. null)

  unfoldable pub is_null : TrieNode A → Bool
  is_null null = true
  is_null (node e m ch) = false

  -- `children[index] = t`
  unfoldable pub set_child : (ℕ → TrieNode A) → ℕ → TrieNode A → ℕ → TrieNode A
  set_child ch index t i = if i == index then t else ch i

  -- `if (!current->children[index]) current->children[index] = create_trie_node();`
  unfoldable pub or_create : TrieNode A → TrieNode A
  unfolding create_trie_node
  or_create null = create_trie_node
  or_create (node e m ch) = node e m ch

  -- The loop of `trie_insert` and `folder_trie_insert` from the node `current` on. Nodes made
  -- before an unusable character stay in the trie.
  unfoldable pub insert_walk : TrieNode A → Text → A → TrieNode A × Status
  unfolding or_create set_child
  insert_walk null key meta = (null, failed)
  insert_walk (node e m ch) [] meta = (node true (some meta) ch, done)
  insert_walk (node e m ch) (c ∷ key) meta =
      let deeper = insert_walk (or_create (ch c)) key meta in
      if leb alphabet_size c
      then (node e m ch, failed)
      else (node e m (set_child ch c deeper.0), deeper.1)

  -- The loop of `trie_search` and `folder_trie_search`, and the copy at its end.
  unfoldable pub search_walk : TrieNode A → Text → Option A
  unfolding is_null
  search_walk null key = none
  search_walk (node e m ch) [] = if e then m else none
  search_walk (node e m ch) (c ∷ key) =
      let deeper = search_walk (ch c) key in
      if leb alphabet_size c || is_null (ch c) then none else deeper

  -- `for (i = ...) if (node->children[i]) return 0;`, with the rounds left.
  unfoldable pub no_child_from : ℕ → ℕ → (ℕ → TrieNode A) → Bool
  unfolding is_null
  no_child_from zero i ch = true
  no_child_from (suc n) i ch = if is_null (ch i) then no_child_from n (i + 1) ch else false

  unfoldable pub has_no_child : (ℕ → TrieNode A) → Bool
  has_no_child ch = no_child_from alphabet_size 0 ch

  -- `trie_delete_helper`: the node after the call, and whether its owner shall free it.
  unfoldable pub delete_helper : TrieNode A → Text → TrieNode A × Bool
  unfolding set_child
  delete_helper null key = (null, false)
  delete_helper (node e m ch) [] = (node false (if e then none else m) ch, has_no_child ch)
  delete_helper (node e m ch) (c ∷ key) =
      let (t, should_delete) = delete_helper (ch c) key in
      let pruned = set_child ch c null in
      if leb alphabet_size c
      then (node e m ch, false)
      else if should_delete
      then (node e m pruned, not e && has_no_child pruned)
      else (node e m (set_child ch c t), false)

  -- The loop of `trie_update`, and the overwrite at its end.
  unfoldable pub update_walk : TrieNode A → Text → A → TrieNode A × Status
  unfolding is_null set_child
  update_walk null key meta = (null, failed)
  update_walk (node e none ch) [] meta = (node e none ch, failed)
  update_walk (node e (some old) ch) [] meta =
      if e then (node e (some meta) ch, done) else (node e (some old) ch, failed)
  update_walk (node e m ch) (c ∷ key) meta =
      let deeper = update_walk (ch c) key meta in
      if leb alphabet_size c || is_null (ch c)
      then (node e m ch, failed)
      else (node e m (set_child ch c deeper.0), deeper.1)

  -- `for (i = ...) if (node->children[i]) body(i)`, with the rounds left.
  unfoldable pub each_child : ℕ → ℕ → (ℕ → TrieNode A) → (ℕ → List A → List A) → List A → List A
  unfolding is_null
  each_child zero i ch body files = files
  each_child (suc n) i ch body files =
      each_child n (i + 1) ch body (if is_null (ch i) then files else body i files)

  -- The entry of a node, if it has one.
  abbrev pub option_list : Option A → List A
  option_list none = []
  option_list (some a) = a ∷ []

  -- `trie_collect_files`; `files` is the array filled so far, and its length is `*count`.
  unfoldable pub collect_files : TrieNode A → ℕ → List A → List A
  unfolding each_child
  collect_files null max files = files
  collect_files (node e m ch) max files =
      let own = if e then files ++ option_list m else files in
      let rest = each_child alphabet_size 0 ch (λ i fs. collect_files (ch i) max fs) own in
      if leb max (length files) then files else rest

-- A trie is its root; the lock only serialises the operations.
pub record Trie {ℓ} (A : Type ℓ) : Type ℓ where
  pub root : TrieNode A

module _ {ℓ} {A : Type ℓ} where
  unfoldable pub init_trie : Trie A
  unfolding create_trie_node
  init_trie = record { root = create_trie_node }

  unfoldable pub trie_insert : Trie A → Text → A → Trie A × Status
  trie_insert t key meta =
      let (root, status) = insert_walk t.root key meta in (record { root = root }, status)

  unfoldable pub trie_search : Trie A → Text → Option A
  trie_search t key = search_walk t.root key

  unfoldable pub trie_delete : Trie A → Text → Trie A × Status
  trie_delete t key = (record { root = (delete_helper t.root key).0 }, done)

  unfoldable pub trie_update : Trie A → Text → A → Trie A × Status
  trie_update t key meta =
      let (root, status) = update_walk t.root key meta in (record { root = root }, status)

  unfoldable pub trie_get_all_files : Trie A → ℕ → List A
  trie_get_all_files t max = collect_files t.root max []
