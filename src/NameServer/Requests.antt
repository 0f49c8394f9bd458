-- ===== src/NameServer/Requests.antt =====
-- nm.c: the queue of access requests.
pub mod Approval
use docs_plus_plus.Base.{
  ℕ, zero, suc, ◌+◌, ◌*◌, ℤ, pos, negsuc, Bool, true, false, ◌&&◌, Option, none, some, List, [],
  ◌∷◌, ◌++◌, Text, text_eq, ltb, if◌then◌else◌, length, get_elem?,
}
use docs_plus_plus.Codes.{
  success, err_file_not_found, err_not_owner, err_invalid_index, err_server_error, max_files,
}
use docs_plus_plus.Trie.{trie_search}
use docs_plus_plus.NameServer.{
  NameServer, FileMetadata, AccessRequest, AccessType, access_none, access_read, access_write,
  access_readwrite,
}
use docs_plus_plus.NameServer.Access.{check_access, grant, store_metadata, Handled}

unfoldable pub same_access : AccessType → AccessType → Bool
same_access access_none access_none = true
same_access access_read access_read = true
same_access access_write access_write = true
same_access access_readwrite access_readwrite = true
same_access a b = false

-- "Check if request already exists"
unfoldable pub is_pending : List AccessRequest → Text → Text → AccessType → Bool
unfolding same_access
is_pending [] username filename access = false
is_pending (r ∷ rs) username filename access =
    if text_eq r.username username
      && (text_eq r.filename filename && same_access r.requested_access access)
    then true
    else is_pending rs username filename access

unfoldable pub handle_requestaccess : ℕ → NameServer → Text → Text → AccessType → NameServer × ℤ
unfolding check_access is_pending
handle_requestaccess now nm filename sender access = elim (trie_search nm.file_trie filename) [
  | none ↦ (nm, err_file_not_found)
  | some meta ↦
      if check_access nm.file_trie filename sender access
      then (nm, success)
      else if is_pending nm.access_requests sender filename access
      then (nm, success)
      else if ltb (length nm.access_requests) (max_files * 10)
      then (
        record nm {
          access_requests =
              nm.access_requests
              ++ record {
                username = sender;
                filename = filename;
                requested_access = access;
                request_time = now;
              }
                ∷ [];
        },
        success,
      )
      else (nm, err_server_error)
]

-- "Remove request": the later ones are shifted.
unfoldable pub remove_request : List AccessRequest → ℕ → List AccessRequest
remove_request [] i = []
remove_request (r ∷ rs) zero = rs
remove_request (r ∷ rs) (suc i) = r ∷ remove_request rs i

-- The request with an id, if the id is in range.
unfoldable pub request_at : List AccessRequest → ℤ → Option (ℕ × AccessRequest)
request_at rs (negsuc i) = none
request_at rs (pos i) = elim (get_elem? rs i) [ none ↦ none | some r ↦ some (i, r) ]

-- The metadata of the file of a request, if the sender owns it: "Verify ownership".
unfoldable pub owned : NameServer → Text → AccessRequest → Option FileMetadata
owned nm sender r = elim (trie_search nm.file_trie r.filename) [
  | none ↦ none
  | some meta ↦ if text_eq meta.owner sender then some meta else none
]

unfoldable pub handle_approverequest : ℕ → NameServer → Text → ℤ → Handled
unfolding request_at owned grant store_metadata remove_request
handle_approverequest fuel nm sender request_id = elim (request_at nm.access_requests request_id) [
  | none ↦ some (nm, err_invalid_index)
  | some (i, r) ↦ elim (owned nm sender r) [
    | none ↦ some (nm, err_not_owner)
    | some meta ↦
        elim (store_metadata fuel nm r.filename
          (record meta { acl = grant meta.acl r.username r.requested_access })) [
            | none ↦ none
            | some nm' ↦
                some
                  (record nm' { access_requests = remove_request nm'.access_requests i }, success)
          ]
  ]
]

unfoldable pub handle_denyrequest : NameServer → Text → ℤ → NameServer × ℤ
unfolding request_at owned remove_request
handle_denyrequest nm sender request_id = elim (request_at nm.access_requests request_id) [
  | none ↦ (nm, err_invalid_index)
  | some (i, r) ↦ elim (owned nm sender r) [
    | none ↦ (nm, err_not_owner)
    | some meta ↦ (record nm { access_requests = remove_request nm.access_requests i }, success)
  ]
]
