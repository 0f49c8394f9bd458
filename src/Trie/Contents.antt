-- ===== src/Trie/Contents.antt =====
-- trie.c: which entries a listing of a trie holds.
use docs_plus_plus.Base.{
  some-injective, none≢some, ℕ, zero, suc, ◌+◌, ◌≤◌, ◌<◌, ◌≡◌, refl, sym, ap, subst, ◌∙◌, inl, inr,
  Bool, true, false, Option, none, some, List, [], ◌∷◌, ◌++◌, append-nil, append_assoc, Text, leb,
  if◌then◌else◌, length, take, take_of_length-le, arith, Bool-cases, ◌==◌, ==_iff,
}
use mathlib.Core.List.{Memᴰ}
use mathlib.Core.List.Memᴰ.{head, not-nil, cases_cons, append_left, append_right, append_cases}
use docs_plus_plus.Trie.{
  alphabet_size, TrieNode, null, node, is_null, each_child, option_list, collect_files, search_walk,
  Trie, trie_get_all_files, trie_search,
}
use docs_plus_plus.Trie.Listing.{own-bound}
use docs_plus_plus.Trie.Lookup.{search-cons, search-nil, search-null}

module _ {ℓ} {A : Type ℓ} where
  -- The elements of the lists `each i`, for `n` indices from `i` on.
  unfoldable pub all_from : ℕ → ℕ → (ℕ → List A) → List A
  all_from zero i each = []
  all_from (suc n) i each = each i ++ all_from n (i + 1) each

  -- The entries of a trie in the order of their names.
  unfoldable pub entries : TrieNode A → List A
  entries null = []
  entries (node e m ch) =
      (if e then option_list m else []) ++ all_from alphabet_size 0 (λ i. entries (ch i))

  take-take_append : (n : ℕ) (xs ys : List A) → take n (take n xs ++ ys) ≡ take n (xs ++ ys)
  take-take_append zero xs ys = refl
  take-take_append (suc n) [] ys = refl
  take-take_append (suc n) (x ∷ xs) ys = ap (◌∷◌ x) (take-take_append n xs ys)

  length-take : (n : ℕ) (xs : List A) → length (take n xs) ≤ n
  length-take zero xs = omega arith
  length-take (suc n) [] = omega arith
  length-take (suc n) (x ∷ xs) = omega (arith, length-take n xs)

  each_child-all_from :
      (max n i : ℕ) (ch : ℕ → TrieNode A) (body : ℕ → List A → List A) (each : ℕ → List A)
      (files : List A)
      → ((j : ℕ) (fs : List A) → length fs ≤ max → body j fs ≡ take max (fs ++ each j))
      → ((j : ℕ) → is_null (ch j) ≡ true → each j ≡ [])
      → length files ≤ max
      → each_child n i ch body files ≡ take max (files ++ all_from n i each)
  unfolding each_child all_from
  each_child-all_from max zero i ch body each files collects empty h =
      sym (rw append-nil (take_of_length-le max files h))
  each_child-all_from max (suc n) i ch body each files collects empty h =
      ap (each_child n (i + 1) ch body) step
      ∙ each_child-all_from max n (i + 1) ch body each (take max (files ++ each i)) collects empty
          (length-take max (files ++ each i))
      ∙ take-take_append max (files ++ each i) (all_from n (i + 1) each)
      ∙ ap (take max) (append_assoc files (each i) (all_from n (i + 1) each))
    where
      step : (if is_null (ch i) then files else body i files) ≡ take max (files ++ each i)
      step = elim (Bool-cases (is_null (ch i))) [
        | inl gone ↦ rw (gone, empty i gone, append-nil) (sym (take_of_length-le max files h))
        | inr there ↦ rw there (collects i files h)
      ]

  take-append_full :
      (n : ℕ) (xs ys : List A) → length xs ≤ n → n ≤ length xs → take n (xs ++ ys) ≡ xs
  take-append_full zero [] ys short long = refl
  take-append_full zero (x ∷ xs) ys short long = absurd (omega arith)
  take-append_full (suc n) [] ys short long = absurd (omega arith)
  take-append_full (suc n) (x ∷ xs) ys short long =
      ap (◌∷◌ x) (take-append_full n xs ys (omega arith) (omega arith))

  own_entry :
      (e : Bool) (m : Option A) (files rest : List A)
      → (if e then files ++ option_list m else files) ++ rest
        ≡ files ++ ((if e then option_list m else []) ++ rest)
  own_entry true m files rest = append_assoc files (option_list m) rest
  own_entry false m files rest = refl

  entries-null : (t : TrieNode A) → is_null t ≡ true → entries t ≡ []
  unfolding entries is_null
  entries-null null gone = refl
  entries-null (node e m ch) gone = absurd (cc)

  -- The walk adds the entries to the array, until the array is full.
  collect_files-entries :
      (t : TrieNode A) (max : ℕ) (files : List A)
      → length files ≤ max
      → collect_files t max files ≡ take max (files ++ entries t)
  unfolding collect_files entries
  collect_files-entries null max files h = sym (rw append-nil (take_of_length-le max files h))
  collect_files-entries (node e m ch) max files h = elim (Bool-cases (leb max (length files))) [
    | inl full ↦ rw full (sym (take-append_full max files _ h (ground arith)))
    | inr room ↦ rw room (
        each_child-all_from max alphabet_size 0 ch (λ i fs. collect_files (ch i) max fs)
          (λ i. entries (ch i)) _ (λ j fs short. collect_files-entries (ch j) max fs short)
          (λ j gone. entries-null (ch j) gone) (own-bound max e m files (ground arith))
        ∙ ap (take max) (own_entry e m files _))
  ]

  all_from-mem :
      (n i j : ℕ) (each : ℕ → List A) (a : A)
      → i ≤ j
      → j < i + n
      → Memᴰ a (each j)
      → Memᴰ a (all_from n i each)
  unfolding all_from
  all_from-mem zero i j each a low high m = absurd (omega arith)
  all_from-mem (suc n) i j each a low high m = elim (Bool-cases (i == j)) [
    | inl here ↦ append_left (all_from n (i + 1) each) (rw ((==_iff i j).0 here) m)
    | inr later ↦
        append_right (each i) (all_from-mem n (i + 1) j each a (ground arith) (omega arith) m)
  ]

  mem-all_from :
      (n i : ℕ) (each : ℕ → List A) (a : A)
      → Memᴰ a (all_from n i each)
      → (j : ℕ) × (j < i + n) × Memᴰ a (each j)
  unfolding all_from
  mem-all_from zero i each a m = absurd (not-nil m)
  mem-all_from (suc n) i each a m = elim (append_cases (each i) m) [
    | inl here ↦ (i, omega arith, here)
    | inr later ↦
        let (j, high, there) = mem-all_from n (i + 1) each a later in (j, omega arith, there)
  ]

  own-mem :
      (e : Bool) (m : Option A) (a : A)
      → (if e then m else none) ≡ some a
      → Memᴰ a (if e then option_list m else [])
  own-mem true none a h = absurd (cc)
  own-mem true (some b) a h = head (sym (some-injective h))
  own-mem false m a h = absurd (cc)

  mem-own :
      (e : Bool) (m : Option A) (a : A)
      → Memᴰ a (if e then option_list m else [])
      → (if e then m else none) ≡ some a
  mem-own true none a h = absurd (not-nil h)
  mem-own true (some b) a h = elim (cases_cons h) [
    | inl same ↦ ap some (sym same)
    | inr later ↦ absurd (not-nil later)
  ]
  mem-own false m a h = absurd (not-nil h)

  -- What a search finds is an entry.
  search-mem :
      (t : TrieNode A) (key : Text) (a : A) → search_walk t key ≡ some a → Memᴰ a (entries t)
  unfolding entries
  search-mem null key a h = absurd (none≢some (sym (search-null key) ∙ h))
  search-mem (node e m ch) [] a h = append_left _ (own-mem e m a (sym (search-nil e m ch) ∙ h))
  search-mem (node e m ch) (c ∷ key) a h = elim (Bool-cases (leb alphabet_size c)) [
    | inl bad ↦ absurd (none≢some (rw bad at (sym (search-cons e m ch c key) ∙ h)))
    | inr good ↦ append_right (if e then option_list m else []) (
        all_from-mem alphabet_size 0 c (λ i. entries (ch i)) a (omega arith) (ground arith)
          (search-mem (ch c) key a (rw good at (sym (search-cons e m ch c key) ∙ h))))
  ]

  -- An entry is found by some name.
  mem-search :
      (t : TrieNode A) (a : A) → Memᴰ a (entries t) → (key : Text) × (search_walk t key ≡ some a)
  unfolding entries
  mem-search null a h = absurd (not-nil h)
  mem-search (node e m ch) a h = elim (append_cases (if e then option_list m else []) h) [
    | inl own ↦ ([], search-nil e m ch ∙ mem-own e m a own)
    | inr deeper ↦
        let (c, small, there) = mem-all_from alphabet_size 0 (λ i. entries (ch i)) a deeper in
        let (key, found) = mem-search (ch c) a there in
        (c ∷ key, search-cons e m ch c key ∙ rw (below c small) found)
  ]
    where
      below : (c : ℕ) → c < 0 + alphabet_size → leb alphabet_size c ≡ false
      below c small = ground arith

  take-all : (n : ℕ) (xs : List A) → length (take n xs) < n → take n xs ≡ xs
  take-all zero xs h = absurd (omega arith)
  take-all (suc n) [] h = refl
  take-all (suc n) (x ∷ xs) h = ap (◌∷◌ x) (take-all n xs (omega arith))

  trie_get_all_files-entries :
      (t : Trie A) (max : ℕ) → trie_get_all_files t max ≡ take max (entries t.root)
  unfolding trie_get_all_files
  trie_get_all_files-entries t max = collect_files-entries t.root max [] (omega arith)

  -- A listing that does not fill the array of its caller holds exactly what searches find: each of
  -- its entries is found by some name, and what is found by a name is among its entries.
  pub Mem-trie_get_all_files :
      (t : Trie A) (max : ℕ)
      → length (trie_get_all_files t max) < max
      → (a : A)
      → (Memᴰ a (trie_get_all_files t max) → (key : Text) × (trie_search t key ≡ some a))
        × ((key : Text) → trie_search t key ≡ some a → Memᴰ a (trie_get_all_files t max))
  unfolding trie_search
  Mem-trie_get_all_files t max room a =
      rw whole (mem-search t.root a, λ key found. search-mem t.root key a found)
    where
      whole : trie_get_all_files t max ≡ entries t.root
      whole =
          trie_get_all_files-entries t max
          ∙ take-all max (entries t.root) (rw (trie_get_all_files-entries t max) at room)

  Mem-take : (n : ℕ) (xs : List A) (a : A) → Memᴰ a (take n xs) → Memᴰ a xs
  Mem-take zero xs a h = absurd (not-nil h)
  Mem-take (suc n) [] a h = absurd (not-nil h)
  Mem-take (suc n) (x ∷ xs) a h = elim (cases_cons h) [
    | inl e ↦ head e
    | inr later ↦ append_right (x ∷ []) (Mem-take n xs a later)
  ]

  -- Each entry of a listing, full or not, is found by some name.
  pub listed_found :
      (t : Trie A) (max : ℕ) (a : A)
      → Memᴰ a (trie_get_all_files t max)
      → (key : Text) × (trie_search t key ≡ some a)
  unfolding trie_search
  listed_found t max a h = mem-search t.root a (
      Mem-take max (entries t.root) a
        (subst (λ xs. Memᴰ a xs) (trie_get_all_files-entries t max) h))
