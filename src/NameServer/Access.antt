-- ===== src/NameServer/Access.antt =====
-- nm.c: who may read and write a file, `check_access` and `handle_access`.
pub mod Changes
pub mod Entries
pub mod Room
use docs_plus_plus.Base.{
  ℕ, zero, suc, ◌+◌, ◌≡◌, refl, sym, ℤ, inl, inr, Bool, true, false, Option, none, some, List, [],
  ◌∷◌, ◌++◌, Text, text_eq, ltb, if◌then◌else◌, length,
}
use docs_plus_plus.Codes.{
  success, err_file_not_found, err_not_owner, err_user_not_found, err_invalid_operation,
  max_acl_entries,
}
use docs_plus_plus.Trie.{Trie, trie_search, trie_update}
use docs_plus_plus.Cache.{cache_put}
use docs_plus_plus.NameServer.{
  NameServer, FileMetadata, AclEntry, AccessType, access_none, access_read, access_write,
  access_readwrite,
}
use docs_plus_plus.NameServer.Users.{user_exists}

-- Whether an entry of the list gives the access that is required.
unfoldable pub gives : AccessType → AccessType → Bool
gives access_read access_read = true
gives access_read access_readwrite = true
gives access_write access_readwrite = true
gives required access = false

-- "Check ACL": the first entry of the user decides.
unfoldable pub acl_access : List AclEntry → Text → Option AccessType
acl_access [] username = none
acl_access (e ∷ es) username =
    if text_eq e.username username then some e.access else acl_access es username

unfoldable pub check_access : Trie FileMetadata → Text → Text → AccessType → Bool
unfolding acl_access gives
check_access t filename username required = elim (trie_search t filename) [
  | none ↦ false
  | some meta ↦ if text_eq meta.owner username then true else elim (acl_access meta.acl username) [
    | none ↦ false
    | some access ↦ gives required access
  ]
]

-- The loop that changes the entry of a user who has one.
unfoldable pub change_access : List AclEntry → Text → AccessType → Option (List AclEntry)
change_access [] username access = none
change_access (e ∷ es) username access =
    let rest = change_access es username access in
    if text_eq e.username username
    then some (record e { access = access } ∷ es)
    else elim rest [ none ↦ none | some es' ↦ some (e ∷ es') ]

-- The loop and the new entry after it, which a full list does not take.
unfoldable pub grant : List AclEntry → Text → AccessType → List AclEntry
unfolding change_access
grant acl username access = elim (change_access acl username access) [
  | some acl' ↦ acl'
  | none ↦
      if ltb (length acl) max_acl_entries
      then acl ++ record { username = username; access = access } ∷ []
      else acl
]

-- The entry of a user is removed, and the later ones are shifted.
unfoldable pub revoke : List AclEntry → Text → List AclEntry
revoke [] username = []
revoke (e ∷ es) username = if text_eq e.username username then es else e ∷ revoke es username

-- `trie_update` and `cache_put`; `none` where the latter takes more rounds than the fuel.
unfoldable pub store_metadata : ℕ → NameServer → Text → FileMetadata → Option NameServer
unfolding trie_update cache_put
store_metadata fuel nm filename meta = elim (cache_put fuel nm.cache filename meta) [
  | none ↦ none
  | some cache ↦
      some (record nm { file_trie = (trie_update nm.file_trie filename meta).0; cache = cache })
]

-- A handler's result: the state and the status of the response.
abbrev pub Handled : Type 0
Handled = Option (NameServer × ℤ)

abbrev pub responds : Option NameServer → Handled
responds none = none
responds (some nm) = some (nm, success)

-- `msg->type`
pub data AccessChange : Type 0 where
  add_access : AccessType → AccessChange
  rem_access : AccessChange

unfoldable pub change_list :
    ℕ → NameServer → Text → Text → Text → FileMetadata → AccessChange → Handled
unfolding user_exists grant revoke store_metadata
change_list fuel nm filename sender target_user meta (add_access access) =
    if user_exists nm.registered_users target_user
    then (if text_eq target_user sender
        then some (nm, err_invalid_operation)
        else responds (
            store_metadata fuel nm filename
              (record meta { acl = grant meta.acl target_user access })))
    else some (nm, err_user_not_found)
change_list fuel nm filename sender target_user meta rem_access =
    responds (store_metadata fuel nm filename (record meta { acl = revoke meta.acl target_user }))

unfoldable pub handle_access : ℕ → NameServer → Text → Text → Text → AccessChange → Handled
unfolding change_list
handle_access fuel nm filename sender target_user change =
    elim (trie_search nm.file_trie filename) [
      | none ↦ some (nm, err_file_not_found)
      | some meta ↦
          if text_eq meta.owner sender
          then change_list fuel nm filename sender target_user meta change
          else some (nm, err_not_owner)
    ]
