-- ===== src/NameServer/Views/Races.antt =====
-- nm.c: a listing with details beside a change of an access list.
use docs_plus_plus.Base.{
  ℕ, ◌≡◌, refl, sym, ap, ◌∙◌, inl, inr, true, Option, none, some, Text, text_eq, text_eq_refl,
  Option-cases, some-injective, none≢some,
}
use docs_plus_plus.Codes.{success}
use docs_plus_plus.Trie.{trie_search, trie_update}
use docs_plus_plus.Trie.Update.{search-update_walk}
use docs_plus_plus.Cache.{cache_put}
use docs_plus_plus.NameServer.{NameServer, FileMetadata, StorageServerInfo, AccessType}
use docs_plus_plus.NameServer.Access.{
  check_access, revoke, store_metadata, responds, rem_access, change_list, handle_access,
}
use docs_plus_plus.NameServer.Access.Changes.{check_access_lem}
use docs_plus_plus.NameServer.Views.{FileInfo, with_info, refresh_file}

-- What is stored under a name is found under it.
store_metadata-found :
    (fuel : ℕ) (nm nm' : NameServer) (file : Text) (old m : FileMetadata)
    → trie_search nm.file_trie file ≡ some old
    → store_metadata fuel nm file m ≡ some nm'
    → trie_search nm'.file_trie file ≡ some m
unfolding store_metadata trie_search trie_update
store_metadata-found fuel nm nm' file old m here e =
    elim (Option-cases (cache_put fuel nm.cache file m)) [
      | inl stuck ↦ absurd (none≢some (rw (stuck, store_metadata) at e))
      | inr (cache, put) ↦
          ap (λ (x : NameServer). trie_search x.file_trie file)
            (sym (some-injective (rw (put, store_metadata) at e)))
          ∙ search-update_walk nm.file_trie.root file file m
          ∙ rw (here, text_eq_refl file) refl
    ]

responds_lem :
    (r : Option NameServer) (nm' : NameServer) → responds r ≡ some (nm', success) → r ≡ some nm'
responds_lem none nm' e = absurd (none≢some e)
responds_lem (some nm) nm' e = ap (λ x. some x.0) (some-injective e)

-- A listing with details reads the metadata of a file, asks the storage server, and stores what it
-- read with the answer. If the owner removes a user's access in between, the listing undoes it:
-- every user has the access from before the removal again.
pub refresh_file-revoked :
    (fuel : ℕ) (nm nm' nm'' : NameServer) (file sender target : Text) (meta meta' : FileMetadata)
    (ss : StorageServerInfo) (info : FileInfo)
    → trie_search nm.file_trie file ≡ some meta
    → meta.filename ≡ file
    → text_eq meta.owner sender ≡ true
    → handle_access fuel nm file sender target rem_access ≡ some (nm', success)
    → refresh_file fuel nm' meta (some ss) (some info) ≡ some (nm'', meta')
    → (user : Text) (required : AccessType)
    → check_access nm''.file_trie file user required ≡ check_access nm.file_trie file user required
unfolding handle_access change_list refresh_file with_info
refresh_file-revoked fuel nm nm' nm'' file sender target meta meta' ss info here name own removed
      refreshed user required =
    let less = record meta { acl = revoke meta.acl target } in
    let stored =
      responds_lem (store_metadata fuel nm file less) nm'
        (rw (here, handle_access, own) at removed) in
    let between = store_metadata-found fuel nm nm' file meta less here stored in
    elim (Option-cases (store_metadata fuel nm' meta.filename (with_info meta info))) [
      | inl stuck ↦ absurd (none≢some (rw (stuck, refresh_file) at refreshed))
      | inr (nm2, e) ↦
          let same : nm2 ≡ nm'' =
            ap (λ x. x.0) (some-injective (rw (e, refresh_file) at refreshed)) in
          let after =
            store_metadata-found fuel nm' nm2 meta.filename less (with_info meta info)
              (ap (trie_search nm'.file_trie) name ∙ between) e in
          ap (λ (x : NameServer). check_access x.file_trie file user required) (sym same)
          ∙ check_access_lem nm2.file_trie file (with_info meta info) user required
              (ap (trie_search nm2.file_trie) (sym name) ∙ after)
          ∙ sym (check_access_lem nm.file_trie file meta user required here)
    ]
