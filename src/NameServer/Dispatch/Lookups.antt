-- ===== src/NameServer/Dispatch/Lookups.antt =====
-- nm.c: the requests that only look a file up, or touch it, keep to the policy.
use docs_plus_plus.Base.{
  ℕ, ℤ, ◌≡◌, refl, sym, ap, subst, ◌+◌, ◌%◌, ◌==◌, length, inl, inr, Bool, Option, none, some, Text,
  if◌then◌else◌, Bool-cases, Option-cases, some-injective, arith,
}
use docs_plus_plus.Codes.{is_success}
use docs_plus_plus.Trie.{Trie, trie_search}
use docs_plus_plus.Trie.Refinement.{IsAllocated}
use docs_plus_plus.Wire.{Message}
use docs_plus_plus.Cache.{cache_get, cache_put}
use docs_plus_plus.NameServer.{NameServer, FileMetadata, AccessType, access_read, access_write}
use docs_plus_plus.NameServer.Access.{check_access}
use docs_plus_plus.NameServer.Requests.{handle_requestaccess, handle_denyrequest}
use docs_plus_plus.NameServer.Files.{find_ss_for_file, get_next_ss_round_robin, id_at}
use docs_plus_plus.NameServer.Servers.{active_ss}
use docs_plus_plus.NameServer.Forwarding.{
  full_path, create_folder_on, handle_createfolder, forward_to, handle_checkpoint_request, msg_data,
  touch, redirect_to, redirect,
}
use docs_plus_plus.NameServer.Dispatch.{Answers, informed, handle_info, execute_on, handle_exec}
use docs_plus_plus.NameServer.Dispatch.Rights.{kept, Steps, no_step, store_metadata-Steps}
use docs_plus_plus.NameServer.Dispatch.Handlers.{Keeps}

-- The state of a result has the same trie.
abbrev SameTrie : NameServer → {A : Type 0} → Option (NameServer × A) → Type 0
SameTrie nm none = Unit {0}
SameTrie nm (some (nm', x)) = nm'.file_trie ≡ nm.file_trie

find_ss_for_file-SameTrie :
    (fuel : ℕ) (nm : NameServer) (file : Text) → SameTrie nm (find_ss_for_file fuel nm file)
unfolding find_ss_for_file
find_ss_for_file-SameTrie fuel nm file = elim (Option-cases (cache_get fuel nm.cache file)) [
  | inl stuck ↦ rw (stuck, find_ss_for_file) tt
  | inr ((cache, some m), hit) ↦ rw (hit, find_ss_for_file) refl
  | inr ((cache, none), miss) ↦ elim (Option-cases (trie_search nm.file_trie file)) [
    | inl missing ↦ rw (miss, find_ss_for_file, missing) refl
    | inr (m, here) ↦ elim (Option-cases (cache_put fuel cache file m)) [
      | inl stuck ↦ rw (miss, find_ss_for_file, here, stuck) tt
      | inr (cache', put) ↦ rw (miss, find_ss_for_file, here, put) refl
    ]
  ]
]

module _ (sender : Text) (nm : NameServer) (root : IsAllocated nm.file_trie) where
  pub same_step : {t' : Trie FileMetadata} → t' ≡ nm.file_trie → Steps sender nm.file_trie t'
  same_step e = subst (λ t. Steps sender nm.file_trie t) (sym e) (no_step nm.file_trie root)

  -- What follows the lookup of the storage server.
  after_lookup :
      {A : Type 0} (fuel : ℕ) (file : Text) (k : NameServer → Option ℕ → Option (NameServer × A))
      → ((nm' : NameServer) (ss_id : Option ℕ)
          → nm'.file_trie ≡ nm.file_trie
          → Keeps sender nm.file_trie (k nm' ss_id))
      → Keeps sender nm.file_trie
          (elim (find_ss_for_file fuel nm file) [ none ↦ none | some (nm', ss_id) ↦ k nm' ss_id ])
  after_lookup fuel file k keeps = elim (Option-cases (find_ss_for_file fuel nm file)) [
    | inl stuck ↦ rw stuck tt
    | inr ((nm', ss_id), e) ↦ rw e (
        keeps nm' ss_id (
          subst (λ (r : Option (NameServer × Option ℕ)). SameTrie nm r) e
            (find_ss_for_file-SameTrie fuel nm file)))
  ]

  forward_to-SameTrie :
      (answer : ℕ → ℤ) (nm' : NameServer) (ss_id : Option ℕ)
      → nm'.file_trie ≡ nm.file_trie
      → (forward_to answer nm' ss_id).0.file_trie ≡ nm.file_trie
  unfolding forward_to
  forward_to-SameTrie answer nm' none e = e
  forward_to-SameTrie answer nm' (some ss_id) e =
      elim (Option-cases (active_ss ss_id nm'.ss_list)) [
        | inl silent ↦ rw (silent, forward_to) e
        | inr (ss, active) ↦ rw (active, forward_to) e
      ]

  pub handle_checkpoint_request-Keeps :
      (fuel : ℕ) (answer : ℕ → ℤ) (file : Text)
      → Keeps sender nm.file_trie (handle_checkpoint_request fuel answer nm file sender)
  unfolding handle_checkpoint_request
  handle_checkpoint_request-Keeps fuel answer file =
      elim (Bool-cases (check_access nm.file_trie file sender access_write)) [
        | inr denied ↦ rw denied (no_step nm.file_trie root)
        | inl allowed ↦ rw allowed (
            after_lookup fuel file (λ nm' ss_id. some (forward_to answer nm' ss_id))
              (λ nm' ss_id e. same_step (forward_to-SameTrie answer nm' ss_id e)))
      ]

  pub handle_info-Keeps :
      (a : Answers) (file : Text) → Keeps sender nm.file_trie (handle_info a nm file)
  unfolding handle_info
  handle_info-Keeps a file = elim (Option-cases (trie_search nm.file_trie file)) [
    | inl missing ↦ rw (missing, handle_info) (no_step nm.file_trie root)
    | inr (m, here) ↦
        rw (here, handle_info)
          (after_lookup a.fuel file (λ nm' ss_id. some (nm', some (informed a nm' m file ss_id)))
            (λ nm' ss_id e. same_step e))
  ]

  pub handle_exec-Keeps :
      (a : Answers) (file : Text) → Keeps sender nm.file_trie (handle_exec a nm file sender)
  unfolding handle_exec
  handle_exec-Keeps a file = elim (Bool-cases (check_access nm.file_trie file sender access_read)) [
    | inr denied ↦ rw denied (no_step nm.file_trie root)
    | inl allowed ↦ rw allowed (
        after_lookup a.fuel file (λ nm' ss_id. some (nm', execute_on a nm' file ss_id))
          (λ nm' ss_id e. same_step e))
  ]

  touch-Keeps :
      (fuel now : ℕ) (file : Text) (nm' : NameServer)
      → touch fuel now nm file sender ≡ some nm'
      → Steps sender nm.file_trie nm'.file_trie
  unfolding touch
  touch-Keeps fuel now file nm' e = elim (Option-cases (trie_search nm.file_trie file)) [
    | inl missing ↦
        same_step
          (sym (ap (λ (x : NameServer). x.file_trie) (some-injective (rw (missing, touch) at e))))
    | inr (m, here) ↦
        store_metadata-Steps sender fuel nm file m
          (record m { accessed = now; last_accessed_by = sender }) root here
          (kept (record { filename = refl; owner = refl; acl = refl })) nm' (rw (here, touch) at e)
  ]

  redirect_to-Keeps :
      (fuel now : ℕ) (response : Message) (file : Text) (ss_id : Option ℕ)
      → Keeps sender nm.file_trie (redirect_to fuel now nm response file sender ss_id)
  unfolding redirect_to
  redirect_to-Keeps fuel now response file none = no_step nm.file_trie root
  redirect_to-Keeps fuel now response file (some ss_id) =
      elim (Option-cases (touch fuel now nm file sender)) [
        | inl stuck ↦ rw (stuck, redirect_to) tt
        | inr (nm', e) ↦ rw (e, redirect_to) (touch-Keeps fuel now file nm' e)
      ]

  pub handle_requestaccess-same :
      (now : ℕ) (file : Text) (access : AccessType)
      → (handle_requestaccess now nm file sender access).0.file_trie ≡ nm.file_trie
  unfolding handle_requestaccess
  handle_requestaccess-same now file access = ground arith

  pub handle_denyrequest-same :
      (id : ℤ) → (handle_denyrequest nm sender id).0.file_trie ≡ nm.file_trie
  unfolding handle_denyrequest
  handle_denyrequest-same id = ground arith

  create_folder_on-same :
      (now : ℕ) (answer : ℕ → ℤ) (target_path foldername : Text) (next : Option ℕ)
      → (create_folder_on now answer nm target_path foldername sender next).0.file_trie
        ≡ nm.file_trie
  unfolding create_folder_on
  create_folder_on-same now answer target_path foldername none = refl
  create_folder_on-same now answer target_path foldername (some ss_id) =
      elim (Option-cases (active_ss ss_id nm.ss_list)) [
        | inl silent ↦ rw (silent, create_folder_on) refl
        | inr (ss, active) ↦ elim (Bool-cases (is_success (answer ss_id))) [
          | inl done ↦ rw (active, create_folder_on, done) refl
          | inr failed ↦ rw (active, create_folder_on, failed) refl
        ]
      ]

module _ (sender : Text) (nm : NameServer) (root : IsAllocated nm.file_trie) where
  pub redirect-Keeps :
      (fuel now : ℕ) (response : Message) (writes : Bool) (file : Text)
      → Keeps sender nm.file_trie (redirect fuel now nm response writes file sender)
  unfolding redirect
  redirect-Keeps fuel now response writes file =
      let required : AccessType = if writes then access_write else access_read in
      let fresh : Message = record response { kind = msg_data } in
      elim (Bool-cases (check_access nm.file_trie file sender required)) [
        | inr denied ↦ rw denied (no_step nm.file_trie root)
        | inl allowed ↦ rw allowed (
            after_lookup sender nm root fuel file
              (λ nm' ss_id. redirect_to fuel now nm' fresh file sender ss_id)
              (λ nm' ss_id e.
                subst (λ t. Keeps sender t (redirect_to fuel now nm' fresh file sender ss_id)) e
                  (redirect_to-Keeps sender nm' (subst IsAllocated (sym e) root) fuel now fresh file
                    ss_id)))
      ]

  pub handle_createfolder-same :
      (now : ℕ) (answer : ℕ → ℤ) (target_path foldername : Text)
      → (handle_createfolder now answer nm target_path foldername sender).0.file_trie ≡ nm.file_trie
  unfolding handle_createfolder get_next_ss_round_robin
  handle_createfolder-same now answer target_path foldername =
      elim (Option-cases (trie_search nm.folder_trie (full_path target_path foldername))) [
        | inr (m, there) ↦ rw (there, handle_createfolder) refl
        | inl new ↦ elim (Bool-cases (length nm.ss_list == 0)) [
          | inl e ↦ rw (new, handle_createfolder, e) refl
          | inr e ↦
              rw (new, handle_createfolder, e)
                (create_folder_on-same sender (record nm { next_ss_id = nm.next_ss_id + 1 }) root
                  now answer target_path foldername
                  (id_at nm.ss_list (nm.next_ss_id % length nm.ss_list)))
        ]
      ]
