-- ===== src/NameServer/Dispatch.antt =====
-- nm.c: the loop of `handle_client_connection` over the requests of a client, with handle_info and
-- handle_exec. What the storage servers, the clock and the shell answer is an argument.
pub mod Rights
pub mod Handlers
pub mod Lookups
pub mod Refresh
use docs_plus_plus.Base.{
  ℕ, ℤ, pos, negsuc, Bool, true, false, Option, none, some, List, [], Text, ◌==◌, if◌then◌else◌,
  take, ◌-◌,
}
use docs_plus_plus.Codes.{
  is_success, success, err_file_not_found, err_access_denied, err_ss_unavailable, err_server_error,
  err_invalid_operation, max_buffer,
}
use docs_plus_plus.Trie.{trie_search}
use docs_plus_plus.Wire.{Message, init_message}
use docs_plus_plus.NameServer.{
  NameServer, FileMetadata, AccessType, access_none, access_read, access_write, access_readwrite,
}
use docs_plus_plus.NameServer.Access.{check_access, add_access, rem_access, handle_access}
use docs_plus_plus.NameServer.Requests.{
  handle_requestaccess, handle_approverequest, handle_denyrequest,
}
use docs_plus_plus.NameServer.Files.{find_ss_for_file, handle_create, handle_delete}
use docs_plus_plus.NameServer.Servers.{find_ss}
use docs_plus_plus.NameServer.Forwarding.{
  handle_createfolder, handle_move, handle_checkpoint_request, redirect,
}
use docs_plus_plus.NameServer.Views.{
  FileInfo, with_info, handle_view, handle_viewfolder, handle_viewrequests, handle_list,
}

-- What is answered while a request is served: by a storage server with a status, to
-- `MSG_CHECK_LOCKS`, to `MSG_SS_INFO` for statistics and for a content, and by the shell. `fuel` is
-- for the loops of the cache.
pub record Answers : Type 0 where
  pub fuel : ℕ
  pub now : ℕ
  pub status : ℕ → ℤ
  pub has_locks : ℕ → Bool
  pub info : ℕ → Text → Option FileInfo
  pub content : ℕ → Text → Text × ℤ
  pub run : Text → Option Text

-- A message for the client, and the state.
abbrev pub Reply : Type 0 → Type 0
Reply A = Option (NameServer × A)

-- The metadata with what the storage server answers, if it is registered and answers well.
unfoldable pub informed : Answers → NameServer → FileMetadata → Text → Option ℕ → FileMetadata
unfolding find_ss with_info
informed a nm meta filename none = meta
informed a nm meta filename (some ss_id) = elim (find_ss ss_id nm.ss_list) [
  | none ↦ meta
  | some ss ↦ elim (a.info ss_id filename) [ none ↦ meta | some info ↦ with_info meta info ]
]

-- `handle_info`: the metadata that it prints, or `none` for `ERR_FILE_NOT_FOUND`. Nobody's access
-- is checked.
unfoldable pub handle_info : Answers → NameServer → Text → Reply (Option FileMetadata)
unfolding find_ss_for_file informed
handle_info a nm filename = elim (trie_search nm.file_trie filename) [
  | none ↦ some (nm, none)
  | some meta ↦ elim (find_ss_for_file a.fuel nm filename) [
    | none ↦ none
    | some (nm', ss_id) ↦ some (nm', some (informed a nm' meta filename ss_id))
  ]
]

-- "Execute commands": the text and the status of the response.
unfoldable pub execute : Answers → Text × ℤ → Text × ℤ
execute a (commands, status) =
    if is_success status
    then elim (a.run commands) [
      | none ↦ ([], err_server_error)
      | some output ↦ (take (max_buffer - 1) output, success)
    ]
    else ([], status)

unfoldable pub execute_on : Answers → NameServer → Text → Option ℕ → Text × ℤ
unfolding find_ss execute
execute_on a nm filename none = ([], err_file_not_found)
execute_on a nm filename (some ss_id) = elim (find_ss ss_id nm.ss_list) [
  | none ↦ ([], err_ss_unavailable)
  | some ss ↦ execute a (a.content ss_id filename)
]

unfoldable pub handle_exec : Answers → NameServer → Text → Text → Reply (Text × ℤ)
unfolding check_access find_ss_for_file execute_on
handle_exec a nm filename sender =
    if check_access nm.file_trie filename sender access_read
    then elim (find_ss_for_file a.fuel nm filename) [
      | none ↦ none
      | some (nm', ss_id) ↦ some (nm', execute_on a nm' filename ss_id)
    ]
    else some (nm, ([], err_access_denied))

-- The cases of the `switch`.
pub data Request : Type 0 where
  request_access view_requests approve_request deny_request checkpoint create_folder move : Request
  view_folder view info listing create delete change_add change_remove exec : Request
  redirection : Bool → Request
  unknown : Request

-- By the places in the enumeration `MessageType`.
unfoldable pub request_of : ℤ → Request
request_of (negsuc k) = unknown
request_of (pos k) =
    if k == 29
    then request_access
    else if k == 30
    then view_requests
    else if k == 31
    then approve_request
    else if k == 32
    then deny_request
    else if k == 25
    then checkpoint
    else if k == 26
    then checkpoint
    else if k == 27
    then checkpoint
    else if k == 28
    then checkpoint
    else if k == 22
    then create_folder
    else if k == 23
    then move
    else if k == 24
    then view_folder
    else if k == 7
    then view
    else if k == 6
    then info
    else if k == 8
    then listing
    else if k == 2
    then create
    else if k == 5
    then delete
    else if k == 9
    then change_add
    else if k == 10
    then change_remove
    else if k == 12
    then exec
    else if k == 3
    then redirection false
    else if k == 11
    then redirection false
    else if k == 4
    then redirection true
    else if k == 13
    then redirection true
    else unknown

-- `msg.access`; a number outside the enumeration gives no access.
unfoldable pub access_of : ℤ → AccessType
access_of (negsuc k) = access_none
access_of (pos k) =
    if k == 1
    then access_read
    else if k == 2
    then access_write
    else if k == 3
    then access_readwrite
    else access_none

-- The state after a request, the variable `response` of the connection, and the status that is
-- sent.
pub record Served : Type 0 where
  pub nm : NameServer
  pub response : Message
  pub status : ℤ

unfoldable pub sends : Message → Reply ℤ → Option Served
sends response none = none
sends response (some (nm, status)) = some (record { nm = nm; response = response; status = status })

unfoldable pub shows {ℓ} : {A : Type ℓ} → Message → Option (NameServer × A) → Option Served
shows response none = none
shows response (some (nm, shown)) = some (record { nm = nm; response = response; status = success })

unfoldable pub shows_found : {A : Type 0} → Message → Reply (Option A) → Option Served
shows_found response none = none
shows_found response (some (nm, none)) =
    some (record { nm = nm; response = response; status = err_file_not_found })
shows_found response (some (nm, some shown)) =
    some (record { nm = nm; response = response; status = success })

unfoldable pub sends_text : Message → Reply (Text × ℤ) → Option Served
sends_text response none = none
sends_text response (some (nm, (text, status))) =
    some (record { nm = nm; response = response; status = status })

-- The response is the connection's own.
unfoldable pub sends_response : Reply Message → Option Served
sends_response none = none
sends_response (some (nm, response)) =
    some (record { nm = nm; response = response; status = response.status })

-- One turn of the loop: the handler of the request.
unfoldable pub serve : Request → Answers → NameServer → Message → Message → Option Served
unfolding sends shows shows_found sends_text sends_response access_of handle_info handle_exec
serve request_access a nm response msg =
    sends response
      (some (handle_requestaccess a.now nm msg.filename msg.sender (access_of msg.access)))
serve view_requests a nm response msg =
    shows response (some (nm, handle_viewrequests nm msg.sender))
serve approve_request a nm response msg =
    sends response (handle_approverequest a.fuel nm msg.sender msg.sentence_index)
serve deny_request a nm response msg =
    sends response (some (handle_denyrequest nm msg.sender msg.sentence_index))
serve checkpoint a nm response msg =
    sends response (handle_checkpoint_request a.fuel a.status nm msg.filename msg.sender)
serve create_folder a nm response msg =
    sends response
      (some (handle_createfolder a.now a.status nm msg.target_path msg.foldername msg.sender))
serve move a nm response msg =
    sends response (handle_move a.fuel a.status nm msg.filename msg.sender msg.target_path)
serve view_folder a nm response msg =
    shows_found response (some (nm, handle_viewfolder nm msg.target_path msg.sender))
serve view a nm response msg = shows response (handle_view a.fuel a.info nm msg.payload msg.sender)
serve info a nm response msg = shows_found response (handle_info a nm msg.filename)
serve listing a nm response msg = shows response (some (nm, handle_list nm))
serve create a nm response msg =
    sends response (handle_create a.fuel a.now a.status nm msg.filename msg.sender)
serve delete a nm response msg =
    sends response (handle_delete a.fuel a.has_locks a.status nm msg.filename msg.sender)
serve change_add a nm response msg = sends response (
    handle_access a.fuel nm msg.filename msg.sender msg.target_user
      (add_access (access_of msg.access)))
serve change_remove a nm response msg =
    sends response (handle_access a.fuel nm msg.filename msg.sender msg.target_user rem_access)
serve exec a nm response msg = sends_text response (handle_exec a nm msg.filename msg.sender)
serve (redirection writes) a nm response msg =
    sends_response (redirect a.fuel a.now nm response writes msg.filename msg.sender)
serve unknown a nm response msg =
    sends_response (some (nm, record response { status = err_invalid_operation }))

unfoldable pub handle_request : Answers → NameServer → Message → Message → Option Served
unfolding request_of serve
handle_request a nm response msg = serve (request_of msg.kind) a nm response msg
