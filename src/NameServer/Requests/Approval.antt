-- ===== src/NameServer/Requests/Approval.antt =====
-- nm.c: what the approval of a request changes, and what a full access list does to it.
use docs_plus_plus.Base.{
  ℕ, ◌<◌, ◌≤◌, ◌≡◌, refl, sym, ap, ◌∙◌, ℤ, inl, inr, true, false, none, some, List, [], ◌∷◌, Text,
  text_eq, ltb, if◌then◌else◌, length, Bool-cases, arith,
}
use docs_plus_plus.Codes.{success, max_acl_entries, max_filename}
use docs_plus_plus.Trie.{trie_search}
use docs_plus_plus.NameServer.{NameServer, FileMetadata, AclEntry, AccessType, AccessRequest}
use docs_plus_plus.NameServer.Users.{user_exists}
use docs_plus_plus.NameServer.Access.{
  gives, acl_access, change_access, check_access, grant, add_access, change_list, handle_access,
}
use docs_plus_plus.NameServer.Access.Changes.{
  HasRoom, store_metadata-stores, check_access_lem, Stored-answer, answer-grant,
}
use docs_plus_plus.NameServer.Requests.{request_at, owned, remove_request, handle_approverequest}

-- When the owner of the file approves a request of another user, that user has exactly what the
-- requested access gives, every other user has what they had, and the request is gone. The list
-- must not be full, the cache must have room, and the name be shorter than `MAX_FILENAME`.
pub handle_approverequest-check_access :
    (fuel : ℕ) (nm : NameServer) (sender : Text) (request_id : ℤ) (i : ℕ) (r : AccessRequest)
    (meta : FileMetadata)
    → request_at nm.access_requests request_id ≡ some (i, r)
    → trie_search nm.file_trie r.filename ≡ some meta
    → text_eq meta.owner sender ≡ true
    → text_eq meta.owner r.username ≡ false
    → length meta.acl < max_acl_entries
    → HasRoom fuel nm.cache
    → length r.filename < max_filename
    → (nm' : NameServer) × (handle_approverequest fuel nm sender request_id ≡ some (nm', success))
      × (nm'.access_requests ≡ remove_request nm.access_requests i)
      × ((user : Text) (required : AccessType)
          → check_access nm'.file_trie r.filename user required ≡ (
              if text_eq r.username user
              then gives required r.requested_access
              else check_access nm.file_trie r.filename user required))
unfolding handle_approverequest owned
handle_approverequest-check_access fuel nm sender request_id i r meta at here own other list_room
      room short =
    let after =
      store_metadata-stores fuel nm r.filename meta
        (record meta { acl = grant meta.acl r.username r.requested_access }) here room short in
    (
      record after.0 { access_requests = remove_request after.0.access_requests i },
      rw (at, handle_approverequest, here, owned, own, after.1) refl,
      ap (λ rs. remove_request rs i) after.2,
      λ user required.
          Stored-answer fuel nm r.filename _ after user required
          ∙ answer-grant meta r.username r.requested_access user required other list_room
          ∙ rw (check_access_lem nm.file_trie r.filename meta user required here) refl,
    )

change_access-none :
    (acl : List AclEntry) (u : Text) (a : AccessType)
    → acl_access acl u ≡ none
    → change_access acl u a ≡ none
unfolding acl_access change_access
change_access-none [] u a h = refl
change_access-none (e ∷ es) u a h = elim (Bool-cases (text_eq e.username u)) [
  | inl here ↦ absurd (some≢none (rw here at h))
  | inr apart ↦ rw (apart, change_access-none es u a (rw apart at h)) refl
]
  where
    some≢none : some e.access ≡ none → ⊥
    some≢none h = cc

-- With a full list in which the user has no entry, the owner's `handle_access` for that
-- user, if registered and another, reports success and changes nobody's access. The cache has room,
-- and the name is shorter than `MAX_FILENAME`.
pub handle_access_full :
    (fuel : ℕ) (nm : NameServer) (filename sender target_user : Text) (access : AccessType)
    (meta : FileMetadata)
    → trie_search nm.file_trie filename ≡ some meta
    → text_eq meta.owner sender ≡ true
    → user_exists nm.registered_users target_user ≡ true
    → text_eq target_user sender ≡ false
    → acl_access meta.acl target_user ≡ none
    → max_acl_entries ≤ length meta.acl
    → HasRoom fuel nm.cache
    → length filename < max_filename
    → (nm' : NameServer) × (handle_access fuel nm filename sender target_user (add_access access)
        ≡ some (nm', success))
      × ((user : Text) (required : AccessType)
          → check_access nm'.file_trie filename user required
            ≡ check_access nm.file_trie filename user required)
unfolding handle_access change_list
handle_access_full fuel nm filename sender target_user access meta here own known other absent full
      room short =
    let after =
      store_metadata-stores fuel nm filename meta
        (record meta { acl = grant meta.acl target_user access }) here room short in
    (
      after.0,
      rw (here, handle_access, own, known, other, after.1) refl,
      λ user required.
          Stored-answer fuel nm filename _ after user required
          ∙ rw same refl
          ∙ sym (check_access_lem nm.file_trie filename meta user required here),
    )
  where
    refused : ltb (length meta.acl) max_acl_entries ≡ false
    refused = ground arith

    same : grant meta.acl target_user access ≡ meta.acl
    same = rw (change_access-none meta.acl target_user access absent, grant, refused) refl
