-- ===== src/NameServer/Views.antt =====
-- nm.c: which files and users the listings show. How a line is printed is left out but for the
-- plain listing.
pub mod Shown
pub mod Races
use docs_plus_plus.Base.{
  ℕ, zero, suc, ◌+◌, ◌-◌, ℤ, Bool, true, false, ◌&&◌, ◌||◌, Option, none, some, List, [], ◌∷◌, ◌++◌,
  map, Text, text_eq, ltb, leb, ◌==◌, if◌then◌else◌, length, keep_if, take, codes,
}
use docs_plus_plus.Codes.{err_file_not_found, max_files, max_buffer}
use docs_plus_plus.Trie.{Trie, trie_search, trie_get_all_files}
use docs_plus_plus.Wire.{is_space}
use docs_plus_plus.NameServer.{
  NameServer, FileMetadata, AccessRequest, RegisteredUser, ClientInfo, StorageServerInfo,
  access_read,
}
use docs_plus_plus.NameServer.Access.{check_access, store_metadata}
use docs_plus_plus.NameServer.Servers.{active_ss}
use docs_plus_plus.NameServer.Forwarding.{is_root, is_found}

-- Where the parser of the flags is: between tokens, in a token of flags, or in another.
pub data FlagMode : Type 0 where
  between in_flag in_other : FlagMode

pub record Flags : Type 0 where
  pub show_all : Bool
  pub show_details : Bool

unfoldable pub flag_step : FlagMode → ℕ → Flags → FlagMode × Flags
flag_step between c f =
    if is_space c then (between, f) else if c == b'-' then (in_flag, f) else (in_other, f)
flag_step in_flag c f =
    if is_space c
    then (between, f)
    else if c == b'a'
    then (in_flag, record f { show_all = true })
    else if c == b'l'
    then (in_flag, record f { show_details = true })
    else (in_flag, f)
flag_step in_other c f = if is_space c then (between, f) else (in_other, f)

unfoldable pub read_flags : FlagMode → Text → Flags → Flags
unfolding flag_step
read_flags mode [] f = f
read_flags mode (c ∷ cs) f = let (mode', f') = flag_step mode c f in read_flags mode' cs f'

unfoldable pub parse_flags : Text → Flags
unfolding read_flags
parse_flags s = read_flags between s (record { show_all = false; show_details = false })

-- What a storage server answers to `MSG_SS_INFO`.
pub record FileInfo : Type 0 where
  pub size : ℕ
  pub word_count : ℕ
  pub char_count : ℕ
  pub modified : ℕ
  pub accessed : ℕ

unfoldable pub with_info : FileMetadata → FileInfo → FileMetadata
with_info meta info = record meta {
  size = info.size;
  word_count = info.word_count;
  char_count = info.char_count;
  modified = info.modified;
  accessed = info.accessed;
}

-- One file of "Fetch metadata for files if needed"; `reply` is what the storage server answers, and
-- `none` a failure.
unfoldable pub refresh_file :
    ℕ
    → NameServer
    → FileMetadata
    → Option StorageServerInfo
    → Option FileInfo
    → Option (NameServer × FileMetadata)
unfolding with_info store_metadata
refresh_file fuel nm meta none reply = some (nm, meta)
refresh_file fuel nm meta (some ss) none = some (nm, meta)
refresh_file fuel nm meta (some ss) (some info) =
    elim (store_metadata fuel nm meta.filename (with_info meta info)) [
      | none ↦ none
      | some nm' ↦ some (nm', with_info meta info)
    ]

unfoldable pub keep_file :
    FileMetadata → Option (NameServer × List FileMetadata) → Option (NameServer × List FileMetadata)
keep_file meta none = none
keep_file meta (some (nm, files)) = some (nm, meta ∷ files)

unfoldable pub refresh_files :
    ℕ
    → (ℕ → Text → Option FileInfo)
    → NameServer
    → List FileMetadata
    → Option (NameServer × List FileMetadata)
unfolding refresh_file active_ss keep_file
refresh_files fuel reply nm [] = some (nm, [])
refresh_files fuel reply nm (meta ∷ files) =
    elim (refresh_file fuel nm meta (active_ss meta.ss_id nm.ss_list)
      (reply meta.ss_id meta.filename)) [
        | none ↦ none
        | some (nm', meta') ↦ keep_file meta' (refresh_files fuel reply nm' files)
      ]

-- The files that `handle_view` prints.
unfoldable pub shown_files : Trie FileMetadata → Text → Bool → List FileMetadata → List FileMetadata
unfolding keep_if
shown_files t sender show_all =
    keep_if (λ meta. show_all || check_access t meta.filename sender access_read)

unfoldable pub show_files :
    Text → Bool → Option (NameServer × List FileMetadata) → Option (NameServer × List FileMetadata)
unfolding shown_files
show_files sender show_all none = none
show_files sender show_all (some (nm, files)) =
    some (nm, shown_files nm.file_trie sender show_all files)

-- `handle_view`: the new state, and the files in the order of the listing.
unfoldable pub handle_view :
    ℕ
    → (ℕ → Text → Option FileInfo)
    → NameServer
    → Text
    → Text
    → Option (NameServer × List FileMetadata)
unfolding parse_flags refresh_files show_files
handle_view fuel reply nm flags sender =
    let f = parse_flags flags in
    let files = trie_get_all_files nm.file_trie max_files in
    show_files sender f.show_all
      (if f.show_details then refresh_files fuel reply nm files else some (nm, files))

-- The plain listing. `none` is a text that does not fit the buffer, which `sprintf` overruns.
unfoldable pub print_names : List FileMetadata → Text
print_names [] = []
print_names (meta ∷ files) = meta.filename ++ b'\n' ∷ print_names files

unfoldable pub view_text : List FileMetadata → Option Text
unfolding print_names
view_text files =
    let text = print_names files in if ltb (length text) max_buffer then some text else none

-- Whether a file is in the folder of `handle_viewfolder`.
unfoldable pub in_folder : Text → FileMetadata → Bool
unfolding is_root
in_folder target_path meta =
    if is_root target_path
    then text_eq meta.folder_path []
    else text_eq meta.folder_path target_path

-- "Filter files in this folder"
unfoldable pub folder_files :
    Trie FileMetadata → Text → Text → List FileMetadata → List FileMetadata
unfolding keep_if
folder_files t sender target_path =
    keep_if (λ meta. in_folder target_path meta && check_access t meta.filename sender access_read)

-- The files that `handle_viewfolder` prints, in the order of the listing, or `none` for
-- `ERR_FILE_NOT_FOUND`.
unfoldable pub viewfolder_files : NameServer → Text → Text → Option (List FileMetadata)
unfolding is_root folder_files
viewfolder_files nm target_path sender =
    let files = trie_get_all_files nm.file_trie max_files in
    if is_root target_path || is_found (trie_search nm.folder_trie target_path)
    then some (folder_files nm.file_trie sender target_path files)
    else none

-- The loop of `snprintf(buffer + pos, MAX_BUFFER - pos, "%s\n", ...)`, which adds the length of the
-- whole line to `pos`. `none` is a write behind the buffer: the size is unsigned, so that a `pos`
-- greater than `MAX_BUFFER` makes it huge.
unfoldable pub print_folder : Text → ℕ → List FileMetadata → Option Text
print_folder buffer pos [] = some buffer
print_folder buffer pos (meta ∷ files) =
    let line = meta.filename ++ b'\n' ∷ [] in
    let rest =
      print_folder (buffer ++ take (max_buffer - 1 - pos) line) (pos + length line) files in
    if ltb max_buffer pos then none else rest

-- The text of the response.
unfoldable pub folder_text : List FileMetadata → Option Text
unfolding print_folder
folder_text [] = some (codes "(empty folder)\n")
folder_text (meta ∷ files) = print_folder [] 0 (meta ∷ files)

-- `handle_viewfolder`: `none` for `ERR_FILE_NOT_FOUND`, or the text with success.
unfoldable pub handle_viewfolder : NameServer → Text → Text → Option (Option Text)
unfolding viewfolder_files folder_text
handle_viewfolder nm target_path sender = elim (viewfolder_files nm target_path sender) [
  | none ↦ none
  | some files ↦ some (folder_text files)
]

-- `handle_list`: the connected users, and all users; the two loops stop where the buffer is nearly
-- full, which is left out.
unfoldable pub connected : ℕ → ℕ → (ℕ → ClientInfo) → List Text
connected zero i clients = []
connected (suc left) i clients = (clients i).username ∷ connected left (i + 1) clients

unfoldable pub handle_list : NameServer → List Text × List Text
unfolding connected
handle_list nm = (
  connected nm.client_count 0 nm.client_list,
  map (λ (u : RegisteredUser). u.username) nm.registered_users,
)

-- `handle_viewrequests`: the requests for the sender's files, with their ids.
unfoldable pub own_requests :
    Trie FileMetadata → Text → ℕ → List AccessRequest → List (ℕ × AccessRequest)
own_requests t sender i [] = []
own_requests t sender i (r ∷ rs) =
    let rest = own_requests t sender (i + 1) rs in
    elim (trie_search t r.filename) [
      | none ↦ rest
      | some meta ↦ if text_eq meta.owner sender then (i, r) ∷ rest else rest
    ]

unfoldable pub handle_viewrequests : NameServer → Text → List (ℕ × AccessRequest)
unfolding own_requests
handle_viewrequests nm sender = own_requests nm.file_trie sender 0 nm.access_requests
