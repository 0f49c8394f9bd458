-- ===== src/Trie/Refinement.antt =====
-- trie.c: a trie is a dictionary of names, whatever calls are made on it.
use docs_plus_plus.Base.{
  ◌≡◌, refl, ap, ◌∙◌, fun_ext, inl, inr, false, Option, none, some, List, [], ◌∷◌, Text,
  if◌then◌else◌, arith, text_eq, text_eq_iff, Bool-cases,
}
use docs_plus_plus.Trie.{
  Status, done, failed, Trie, is_null, create_trie_node, init_trie, trie_insert, trie_search,
  trie_delete, trie_update, search_walk,
}
use docs_plus_plus.Trie.Lookup.{
  is_ascii, search-insert_walk, insert_walk-allocated, insert_walk-status, search-delete_helper,
}
use docs_plus_plus.Trie.Update.{
  is_some, update_walk-status, search-update_walk, update_walk-allocated, delete_helper-allocated,
  search_not_ascii,
}

-- What a client sees of a trie.
abbrev pub Dict {ℓ} : Type ℓ → Type ℓ
Dict A = Text → Option A

pub data Call {ℓ} (A : Type ℓ) : Type ℓ where
  insert update : Text → A → Call A
  delete : Text → Call A

module _ {ℓ} {A : Type ℓ} where
  abbrev pub put : Dict A → Text → Option A → Dict A
  put m key o j = if text_eq key j then o else m j

  -- The dictionary's side of each call: only ASCII names enter, and only present ones are updated.
  pub dict_step : Call A → Dict A → Dict A × Status
  dict_step (insert key v) m = if is_ascii key then (put m key (some v), done) else (m, failed)
  dict_step (update key v) m = if is_some (m key) then (put m key (some v), done) else (m, failed)
  dict_step (delete key) m = (put m key none, done)

  pub trie_step : Call A → Trie A → Trie A × Status
  trie_step (insert key v) t = trie_insert t key v
  trie_step (update key v) t = trie_update t key v
  trie_step (delete key) t = trie_delete t key

  pub dict_run : List (Call A) → Dict A → Dict A × List Status
  dict_run [] m = (m, [])
  dict_run (c ∷ cs) m =
      let (m', s) = dict_step c m in let (m'', ss) = dict_run cs m' in (m'', s ∷ ss)

  pub trie_run : List (Call A) → Trie A → Trie A × List Status
  trie_run [] t = (t, [])
  trie_run (c ∷ cs) t =
      let (t', s) = trie_step c t in let (t'', ss) = trie_run cs t' in (t'', s ∷ ss)

  abbrev pub view : Trie A → Dict A
  view t = trie_search t

  -- The root that `init_trie` made is never NULL.
  abbrev pub IsAllocated : Trie A → Type 0
  IsAllocated t = is_null t.root ≡ false

  abbrev Simulates : Call A → Trie A → Type ℓ
  Simulates c t =
      (view (trie_step c t).0 ≡ (dict_step c (view t)).0)
      × ((trie_step c t).1 ≡ (dict_step c (view t)).1)
      × IsAllocated (trie_step c t).0

  insert-Simulates : (key : Text) (v : A) (t : Trie A) → IsAllocated t → Simulates (insert key v) t
  unfolding trie_step dict_step trie_insert trie_search
  insert-Simulates key v t h = elim (Bool-cases (is_ascii key)) [
    | inl good ↦ (
      rw good (fun_ext λ j. rw (search-insert_walk t.root key j v h, good) refl),
      rw (insert_walk-status t.root key v h, good) refl,
      insert_walk-allocated t.root key v h,
    )
    | inr bad ↦ (
      rw bad (fun_ext λ j. rw (search-insert_walk t.root key j v h, bad) refl),
      rw (insert_walk-status t.root key v h, bad) refl,
      insert_walk-allocated t.root key v h,
    )
  ]

  update-Simulates : (key : Text) (v : A) (t : Trie A) → IsAllocated t → Simulates (update key v) t
  unfolding trie_step dict_step trie_update trie_search
  update-Simulates key v t h = elim (Bool-cases (is_some (search_walk t.root key))) [
    | inl here ↦ (
      rw here (fun_ext λ j. rw (search-update_walk t.root key j v, here) refl),
      rw (update_walk-status t.root key v, here) refl,
      update_walk-allocated t.root key v ∙ h,
    )
    | inr gone ↦ (
      rw gone (fun_ext λ j. rw (search-update_walk t.root key j v, gone) refl),
      rw (update_walk-status t.root key v, gone) refl,
      update_walk-allocated t.root key v ∙ h,
    )
  ]

  put-none_not_ascii :
      (t : Trie A) (key j : Text) → is_ascii key ≡ false → view t j ≡ put (view t) key none j
  unfolding trie_search
  put-none_not_ascii t key j h = elim (Bool-cases (text_eq key j)) [
    | inl e ↦ rw (e, ← (text_eq_iff key j).0 e) (search_not_ascii t.root key h)
    | inr e ↦ rw e refl
  ]

  delete-Simulates : (key : Text) (t : Trie A) → IsAllocated t → Simulates (delete key) t
  unfolding trie_step dict_step trie_delete trie_search
  delete-Simulates key t h = (
    fun_ext (λ j. search-delete_helper t.root key j ∙ elim (Bool-cases (is_ascii key)) [
      | inl good ↦ rw good refl
      | inr bad ↦ rw bad (unfold trie_search in put-none_not_ascii t key j bad)
    ]),
    refl,
    delete_helper-allocated t.root key ∙ h,
  )

  step-Simulates : (c : Call A) (t : Trie A) → IsAllocated t → Simulates c t
  step-Simulates (insert key v) t h = insert-Simulates key v t h
  step-Simulates (update key v) t h = update-Simulates key v t h
  step-Simulates (delete key) t h = delete-Simulates key t h

  -- After any sequence of insertions, updates and deletions on a trie that has its root, every
  -- search finds what the dictionary under the same calls holds, and every call has returned the
  -- dictionary's status.
  pub run-Refines :
      (cs : List (Call A)) (t : Trie A)
      → IsAllocated t
      → (view (trie_run cs t).0 ≡ (dict_run cs (view t)).0)
        × ((trie_run cs t).1 ≡ (dict_run cs (view t)).1)
  unfolding trie_run dict_run
  run-Refines [] t h = (refl, refl)
  run-Refines (c ∷ cs) t h =
      let (seen, status, kept) = step-Simulates c t h in
      let (seen', statuses) = run-Refines cs (trie_step c t).0 kept in
      (seen' ∙ ap (λ m. (dict_run cs m).0) seen, rw (statuses, seen, status) refl)

  -- A new trie is the empty dictionary.
  pub view-init_trie : (key : Text) → view (init_trie {A = A}) key ≡ none
  unfolding init_trie trie_search create_trie_node search_walk is_null
  view-init_trie [] = refl
  view-init_trie (c ∷ key) = ground arith
