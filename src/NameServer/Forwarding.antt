-- ===== src/NameServer/Forwarding.antt =====
-- nm.c: requests that the name server passes on to a storage server, and those that it answers with
-- the address of one. What a storage server answers is an argument.
pub mod Moves
use docs_plus_plus.Base.{
  ℕ, ◌+◌, ◌-◌, ℤ, pos, Bool, true, false, ◌&&◌, not, Option, none, some, List, [], ◌∷◌, ◌++◌, Text,
  text_eq, take, if◌then◌else◌,
}
use docs_plus_plus.Codes.{
  is_success, success, err_file_not_found, err_file_exists, err_ss_unavailable, err_access_denied,
  max_path,
}
use docs_plus_plus.Trie.{Trie, trie_search, trie_insert}
use docs_plus_plus.Wire.{Message, format_int}
use docs_plus_plus.NameServer.{
  NameServer, FileMetadata, FolderMetadata, StorageServerInfo, AccessType, access_read,
  access_write,
}
use docs_plus_plus.NameServer.Access.{check_access, store_metadata, responds, Handled}
use docs_plus_plus.NameServer.Files.{find_ss_for_file, get_next_ss_round_robin}
use docs_plus_plus.NameServer.Servers.{find_ss, active_ss}

-- "Build full path"
unfoldable pub full_path : Text → Text → Text
full_path [] foldername = take (max_path - 1) (b'/' ∷ foldername)
full_path (c ∷ cs) foldername = take (max_path - 1) ((c ∷ cs) ++ b'/' ∷ foldername)

unfoldable pub new_folder : ℕ → Text → Text → Text → ℕ → FolderMetadata
new_folder now target_path foldername owner ss_id = record {
  foldername = foldername;
  parent_path = target_path;
  owner = owner;
  created = now;
  ss_id = ss_id;
  acl = [];
}

-- `handle_createfolder` after the choice of a storage server, which answers the status `answer id`.
unfoldable pub create_folder_on :
    ℕ → (ℕ → ℤ) → NameServer → Text → Text → Text → Option ℕ → NameServer × ℤ
unfolding active_ss new_folder full_path trie_insert
create_folder_on now answer nm target_path foldername sender none = (nm, err_ss_unavailable)
create_folder_on now answer nm target_path foldername sender (some ss_id) =
    let meta = new_folder now target_path foldername sender ss_id in
    elim (active_ss ss_id nm.ss_list) [
      | none ↦ (nm, err_ss_unavailable)
      | some ss ↦
          if is_success (answer ss_id)
          then (
            record nm {
              folder_trie = (trie_insert nm.folder_trie (full_path target_path foldername) meta).0;
            },
            success,
          )
          else (nm, answer ss_id)
    ]

unfoldable pub handle_createfolder : ℕ → (ℕ → ℤ) → NameServer → Text → Text → Text → NameServer × ℤ
unfolding full_path get_next_ss_round_robin create_folder_on
handle_createfolder now answer nm target_path foldername sender =
    elim (trie_search nm.folder_trie (full_path target_path foldername)) [
      | some existing ↦ (nm, err_file_exists)
      | none ↦
          let (nm', next) = get_next_ss_round_robin nm in
          create_folder_on now answer nm' target_path foldername sender next
    ]

-- The root, as an empty path or as `/`.
unfoldable pub is_root : Text → Bool
is_root [] = true
is_root (c ∷ cs) = text_eq (c ∷ cs) (b'/' ∷ [])

abbrev pub is_found {ℓ} : {A : Type ℓ} → Option A → Bool
is_found none = false
is_found (some a) = true

-- "Check if target folder exists (unless moving to root)"
unfoldable pub folder_exists : Trie FolderMetadata → Text → Bool
unfolding is_root
folder_exists t path = if is_root path then true else is_found (trie_search t path)

-- `handle_move` after the search; `ss` is the active storage server of the file.
unfoldable pub move_on :
    ℕ → (ℕ → ℤ) → NameServer → Text → Text → FileMetadata → Option StorageServerInfo → Handled
unfolding store_metadata
move_on fuel answer nm filename target_path meta none = some (nm, err_ss_unavailable)
move_on fuel answer nm filename target_path meta (some ss) =
    if is_success (answer meta.ss_id)
    then elim (store_metadata fuel nm filename (record meta { folder_path = target_path })) [
      | none ↦ none
      | some nm' ↦ some (nm', success)
    ]
    else some (nm, answer meta.ss_id)

-- The path is one that a message holds.
unfoldable pub handle_move : ℕ → (ℕ → ℤ) → NameServer → Text → Text → Text → Handled
unfolding check_access folder_exists active_ss move_on
handle_move fuel answer nm filename sender target_path = elim (trie_search nm.file_trie filename) [
  | none ↦ some (nm, err_file_not_found)
  | some meta ↦
      if not (text_eq meta.owner sender)
        && not (check_access nm.file_trie filename sender access_write)
      then some (nm, err_access_denied)
      else if folder_exists nm.folder_trie target_path
      then move_on fuel answer nm filename target_path meta (active_ss meta.ss_id nm.ss_list)
      else some (nm, err_file_not_found)
]

-- `handle_checkpoint_request` after the lookup of the storage server.
unfoldable pub forward_to : (ℕ → ℤ) → NameServer → Option ℕ → NameServer × ℤ
unfolding active_ss
forward_to answer nm none = (nm, err_file_not_found)
forward_to answer nm (some ss_id) = elim (active_ss ss_id nm.ss_list) [
  | none ↦ (nm, err_ss_unavailable)
  | some ss ↦ (nm, answer ss_id)
]

-- The answer of the storage server is passed on; of it, the status is kept.
unfoldable pub handle_checkpoint_request : ℕ → (ℕ → ℤ) → NameServer → Text → Text → Handled
unfolding check_access find_ss_for_file forward_to
handle_checkpoint_request fuel answer nm filename sender =
    if check_access nm.file_trie filename sender access_write
    then elim (find_ss_for_file fuel nm filename) [
      | none ↦ none
      | some (nm', ss_id) ↦ some (forward_to answer nm' ss_id)
    ]
    else some (nm, err_access_denied)

-- `MSG_DATA`, by its place in the enumeration.
abbrev pub msg_data : ℤ
msg_data = pos 18

-- `"%s:%d"`
unfoldable pub address : StorageServerInfo → Text
unfolding format_int
address ss = ss.ip ++ b':' ∷ format_int ss.client_port

-- The address of the storage server with an id. Where there is none, the response of the request
-- before stays as it was.
unfoldable pub with_address : NameServer → ℕ → Message → Message
unfolding find_ss address
with_address nm ss_id response = elim (find_ss ss_id nm.ss_list) [
  | none ↦ response
  | some ss ↦ record response { payload = address ss; status = success }
]

-- The time and the user of the access are stored.
unfoldable pub touch : ℕ → ℕ → NameServer → Text → Text → Option NameServer
unfolding store_metadata
touch fuel now nm filename sender = elim (trie_search nm.file_trie filename) [
  | none ↦ some nm
  | some meta ↦
      store_metadata fuel nm filename (record meta { accessed = now; last_accessed_by = sender })
]

unfoldable pub redirect_to :
    ℕ → ℕ → NameServer → Message → Text → Text → Option ℕ → Option (NameServer × Message)
unfolding with_address touch
redirect_to fuel now nm response filename sender none =
    some (nm, record response { status = err_file_not_found })
redirect_to fuel now nm response filename sender (some ss_id) =
    elim (touch fuel now nm filename sender) [
      | none ↦ none
      | some nm' ↦ some (nm', with_address nm ss_id response)
    ]

-- The cases `MSG_WRITE` and `MSG_UNDO`, where `writes` holds, and `MSG_READ` and `MSG_STREAM`. The
-- response is a variable that the requests of a connection share.
unfoldable pub redirect :
    ℕ → ℕ → NameServer → Message → Bool → Text → Text → Option (NameServer × Message)
unfolding check_access find_ss_for_file redirect_to
redirect fuel now nm response writes filename sender =
    let fresh = record response { kind = msg_data } in
    let required : AccessType = if writes then access_write else access_read in
    if check_access nm.file_trie filename sender required
    then elim (find_ss_for_file fuel nm filename) [
      | none ↦ none
      | some (nm', ss_id) ↦ redirect_to fuel now nm' fresh filename sender ss_id
    ]
    else some (nm, record fresh { status = err_access_denied })
