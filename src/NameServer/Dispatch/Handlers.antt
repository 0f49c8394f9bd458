-- ===== src/NameServer/Dispatch/Handlers.antt =====
-- nm.c: each handler that changes the metadata keeps to the policy.
use docs_plus_plus.Base.{
  ℕ, ℤ, ◌≡◌, refl, sym, subst, ◌+◌, ◌%◌, ◌==◌, length, inl, inr, Bool, true, not, ◌&&◌, Option,
  none, some, Text, text_eq, Bool-cases, Option-cases, some-injective, none≢some,
}
use docs_plus_plus.Codes.{is_success}
use docs_plus_plus.Trie.{Trie, trie_search, trie_delete}
use docs_plus_plus.Trie.Refinement.{IsAllocated}
use docs_plus_plus.Cache.{cache_put, cache_remove}
use docs_plus_plus.NameServer.{
  NameServer, FileMetadata, StorageServerInfo, AccessRequest, access_write,
}
use docs_plus_plus.NameServer.Users.{user_exists}
use docs_plus_plus.NameServer.Access.{
  check_access, grant, revoke, store_metadata, responds, AccessChange, add_access, rem_access,
  change_list, handle_access,
}
use docs_plus_plus.NameServer.Requests.{request_at, owned, handle_approverequest}
use docs_plus_plus.NameServer.Files.{
  get_next_ss_round_robin, id_at, has_ss, new_metadata, create_on, handle_create, handle_delete,
}
use docs_plus_plus.NameServer.Servers.{active_ss}
use docs_plus_plus.NameServer.Forwarding.{folder_exists, move_on, handle_move}
use docs_plus_plus.NameServer.Dispatch.Rights.{
  same_rights, Change, created, kept, granted, revoked, deleted, Steps, no_step, insert-Steps,
  delete-Steps, store_metadata-Steps,
}

-- The trie of a result, if there is one, comes from `t` by a step under the policy.
abbrev pub Keeps : Text → Trie FileMetadata → {A : Type 0} → Option (NameServer × A) → Type 0
Keeps sender t none = Unit {0}
Keeps sender t (some (nm', x)) = Steps sender t nm'.file_trie

module _ (sender : Text) (nm : NameServer) (root : IsAllocated nm.file_trie) where
  stays : {A : Type 0} (x : A) → Keeps sender nm.file_trie (some (nm, x))
  stays x = no_step nm.file_trie root

  responds-Keeps :
      (fuel : ℕ) (file : Text) (old m : FileMetadata)
      → trie_search nm.file_trie file ≡ some old
      → Change sender file (some old) (some m)
      → Keeps sender nm.file_trie (responds (store_metadata fuel nm file m))
  responds-Keeps fuel file old m here change = elim (Option-cases (store_metadata fuel nm file m)) [
    | inl stuck ↦ rw stuck tt
    | inr (nm', e) ↦ rw e (store_metadata-Steps sender fuel nm file old m root here change nm' e)
  ]

  change_list-Keeps :
      (fuel : ℕ) (file target : Text) (m : FileMetadata) (change : AccessChange)
      → trie_search nm.file_trie file ≡ some m
      → text_eq m.owner sender ≡ true
      → Keeps sender nm.file_trie (change_list fuel nm file sender target m change)
  unfolding change_list
  change_list-Keeps fuel file target m (add_access access) here own =
      elim (Bool-cases (user_exists nm.registered_users target)) [
        | inr unknown ↦ rw unknown (stays tt)
        | inl known ↦ elim (Bool-cases (text_eq target sender)) [
          | inl self ↦ rw (known, self) (stays tt)
          | inr other ↦
              rw (known, other)
                (responds-Keeps fuel file m (record m { acl = grant m.acl target access }) here
                  (granted target access own (same_rights _)))
        ]
      ]
  change_list-Keeps fuel file target m rem_access here own =
      responds-Keeps fuel file m (record m { acl = revoke m.acl target }) here
        (revoked target own (same_rights _))

  pub handle_access-Keeps :
      (fuel : ℕ) (file target : Text) (change : AccessChange)
      → Keeps sender nm.file_trie (handle_access fuel nm file sender target change)
  unfolding handle_access
  handle_access-Keeps fuel file target change =
      elim (Option-cases (trie_search nm.file_trie file)) [
        | inl missing ↦ rw (missing, handle_access) (stays tt)
        | inr (m, here) ↦ elim (Bool-cases (text_eq m.owner sender)) [
          | inl own ↦
              rw (here, handle_access, own) (change_list-Keeps fuel file target m change here own)
          | inr other ↦ rw (here, handle_access, other) (stays tt)
        ]
      ]

  owned_lem :
      (r : AccessRequest) (m : FileMetadata)
      → owned nm sender r ≡ some m
      → (trie_search nm.file_trie r.filename ≡ some m) × (text_eq m.owner sender ≡ true)
  unfolding owned
  owned_lem r m e = elim (Option-cases (trie_search nm.file_trie r.filename)) [
    | inl missing ↦ absurd (none≢some (rw (missing, owned) at e))
    | inr (m', here) ↦ elim (Bool-cases (text_eq m'.owner sender)) [
      | inr other ↦ absurd (none≢some (rw (here, owned, other) at e))
      | inl own ↦
          subst
            (λ (x : FileMetadata).
              (trie_search nm.file_trie r.filename ≡ some x) × (text_eq x.owner sender ≡ true))
            (some-injective (rw (here, owned, own) at e)) (here, own)
    ]
  ]

  pub handle_approverequest-Keeps :
      (fuel : ℕ) (id : ℤ) → Keeps sender nm.file_trie (handle_approverequest fuel nm sender id)
  unfolding handle_approverequest
  handle_approverequest-Keeps fuel id = elim (Option-cases (request_at nm.access_requests id)) [
    | inl missing ↦ rw (missing, handle_approverequest) (stays tt)
    | inr ((i, r), found) ↦ elim (Option-cases (owned nm sender r)) [
      | inl other ↦ rw (found, handle_approverequest, other) (stays tt)
      | inr (m, own) ↦
          let (here, owns) = owned_lem r m own in
          let m' = record m { acl = grant m.acl r.username r.requested_access } in
          elim (Option-cases (store_metadata fuel nm r.filename m')) [
            | inl stuck ↦ rw (found, handle_approverequest, own, stuck) tt
            | inr (nm', e) ↦
                rw (found, handle_approverequest, own, e)
                  (store_metadata-Steps sender fuel nm r.filename m m' root here
                    (granted r.username r.requested_access owns (same_rights _)) nm' e)
          ]
    ]
  ]

  create_on-Keeps :
      (fuel now : ℕ) (answer : ℕ → ℤ) (file : Text) (next : Option ℕ)
      → trie_search nm.file_trie file ≡ none
      → Keeps sender nm.file_trie (create_on fuel now answer file sender nm next)
  unfolding create_on new_metadata
  create_on-Keeps fuel now answer file none new = stays tt
  create_on-Keeps fuel now answer file (some ss_id) new =
      elim (Bool-cases (has_ss nm.ss_list ss_id)) [
        | inr missing ↦ rw missing (stays tt)
        | inl there ↦ elim (Bool-cases (is_success (answer ss_id))) [
          | inr failed ↦ rw (there, failed) (stays tt)
          | inl done ↦
              let m = new_metadata now file sender ss_id in
              elim (Option-cases (cache_put fuel nm.cache file m)) [
                | inl stuck ↦ rw (there, done, stuck) tt
                | inr (cache, put) ↦
                    rw (there, done, put)
                      (insert-Steps sender nm.file_trie root file m (
                        subst (λ o. Change sender file o (some m)) (sym new)
                          (created refl refl refl)))
              ]
        ]
      ]

module _ (sender : Text) (nm : NameServer) (root : IsAllocated nm.file_trie) where
  pub handle_create-Keeps :
      (fuel now : ℕ) (answer : ℕ → ℤ) (file : Text)
      → Keeps sender nm.file_trie (handle_create fuel now answer nm file sender)
  unfolding handle_create get_next_ss_round_robin
  handle_create-Keeps fuel now answer file = elim (Option-cases (trie_search nm.file_trie file)) [
    | inr (m, here) ↦ rw (here, handle_create) (no_step nm.file_trie root)
    | inl new ↦ elim (Bool-cases (length nm.ss_list == 0)) [
      | inl e ↦
          rw (new, handle_create, e) (create_on-Keeps sender nm root fuel now answer file none new)
      | inr e ↦
          rw (new, handle_create, e)
            (create_on-Keeps sender (record nm { next_ss_id = nm.next_ss_id + 1 }) root fuel now
              answer file (id_at nm.ss_list (nm.next_ss_id % length nm.ss_list)) new)
    ]
  ]

  pub handle_delete-Keeps :
      (fuel : ℕ) (locks : ℕ → Bool) (answer : ℕ → ℤ) (file : Text)
      → Keeps sender nm.file_trie (handle_delete fuel locks answer nm file sender)
  unfolding handle_delete
  handle_delete-Keeps fuel locks answer file = elim (Option-cases (trie_search nm.file_trie file)) [
    | inl missing ↦ rw (missing, handle_delete) (no_step nm.file_trie root)
    | inr (m, here) ↦
        let trie_step : text_eq m.owner sender ≡ true
            → Steps sender nm.file_trie (trie_delete nm.file_trie file).0 =
          λ own.
            delete-Steps sender nm.file_trie root file
              (subst (λ o. Change sender file o none) (sym here) (deleted own)) in
        let same = no_step {sender = sender} nm.file_trie root in
        elim (Bool-cases (text_eq m.owner sender)) [
          | inr other ↦ rw (here, handle_delete, other) same
          | inl own ↦ elim (Bool-cases (has_ss nm.ss_list m.ss_id)) [
            | inr missing ↦ rw (here, handle_delete, own, missing) same
            | inl there ↦ elim (Bool-cases (locks m.ss_id)) [
              | inl locked ↦ rw (here, handle_delete, own, there, locked) same
              | inr free ↦ elim (Bool-cases (is_success (answer m.ss_id))) [
                | inr failed ↦ rw (here, handle_delete, own, there, free, failed) same
                | inl done ↦ elim (Option-cases (cache_remove fuel nm.cache file)) [
                  | inl stuck ↦ rw (here, handle_delete, own, there, free, done, stuck) tt
                  | inr (cache, gone) ↦
                      rw (here, handle_delete, own, there, free, done, gone) (trie_step own)
                ]
              ]
            ]
          ]
        ]
  ]

  move_on-Keeps :
      (fuel : ℕ) (answer : ℕ → ℤ) (file target_path : Text) (m : FileMetadata)
      → trie_search nm.file_trie file ≡ some m
      → (ss : Option StorageServerInfo)
      → Keeps sender nm.file_trie (move_on fuel answer nm file target_path m ss)
  unfolding move_on
  move_on-Keeps fuel answer file target_path m here none = no_step nm.file_trie root
  move_on-Keeps fuel answer file target_path m here (some ss) =
      let m' = record m { folder_path = target_path } in
      elim (Bool-cases (is_success (answer m.ss_id))) [
        | inr failed ↦ rw failed (no_step nm.file_trie root)
        | inl done ↦ elim (Option-cases (store_metadata fuel nm file m')) [
          | inl stuck ↦ rw (done, stuck) tt
          | inr (nm', e) ↦
              rw (done, e)
                (store_metadata-Steps sender fuel nm file m m' root here
                  (kept (record { filename = refl; owner = refl; acl = refl })) nm' e)
        ]
      ]

  pub handle_move-Keeps :
      (fuel : ℕ) (answer : ℕ → ℤ) (file target_path : Text)
      → Keeps sender nm.file_trie (handle_move fuel answer nm file sender target_path)
  unfolding handle_move move_on
  handle_move-Keeps fuel answer file target_path =
      elim (Option-cases (trie_search nm.file_trie file)) [
        | inl missing ↦ rw (missing, handle_move) (no_step nm.file_trie root)
        | inr (m, here) ↦
            elim (Bool-cases (
              not (text_eq m.owner sender)
              && not (check_access nm.file_trie file sender access_write))) [
                | inl denied ↦ rw (here, handle_move, denied) (no_step nm.file_trie root)
                | inr allowed ↦ elim (Bool-cases (folder_exists nm.folder_trie target_path)) [
                  | inr no_folder ↦
                      rw (here, handle_move, allowed, no_folder) (no_step nm.file_trie root)
                  | inl folder ↦
                      rw (here, handle_move, allowed, folder)
                        (move_on-Keeps fuel answer file target_path m here
                          (active_ss m.ss_id nm.ss_list))
                ]
              ]
      ]
