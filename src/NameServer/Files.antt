-- ===== src/NameServer/Files.antt =====
-- nm.c: the placement of files on the storage servers, their creation and deletion. What a storage
-- server answers is an argument.
pub mod Creation
use docs_plus_plus.Base.{
  ℕ, zero, suc, ◌+◌, ◌%◌, ℤ, Bool, true, false, Option, none, some, List, [], ◌∷◌, Text, text_eq,
  ltb, ◌==◌, if◌then◌else◌, length, get_elem?,
}
use docs_plus_plus.Codes.{
  is_success, success, err_file_not_found, err_file_exists, err_not_owner, err_file_locked,
  err_ss_unavailable,
}
use docs_plus_plus.Trie.{trie_search, trie_insert, trie_delete}
use docs_plus_plus.Cache.{cache_get, cache_put, cache_remove}
use docs_plus_plus.NameServer.{NameServer, FileMetadata, StorageServerInfo}
use docs_plus_plus.NameServer.Access.{Handled}

-- `find_ss_for_file`: the id, where -1 is `none`, and the state, in which the cache may have
-- changed.
unfoldable pub find_ss_for_file : ℕ → NameServer → Text → Option (NameServer × Option ℕ)
unfolding cache_get cache_put
find_ss_for_file fuel nm filename = elim (cache_get fuel nm.cache filename) [
  | none ↦ none
  | some (cache, some meta) ↦ some (record nm { cache = cache }, some meta.ss_id)
  | some (cache, none) ↦ elim (trie_search nm.file_trie filename) [
    | none ↦ some (record nm { cache = cache }, none)
    | some meta ↦ elim (cache_put fuel cache filename meta) [
      | none ↦ none
      | some cache' ↦ some (record nm { cache = cache' }, some meta.ss_id)
    ]
  ]
]

-- `ss_list[i].id`
abbrev pub id_at : List StorageServerInfo → ℕ → Option ℕ
id_at ss i = elim (get_elem? ss i) [ none ↦ none | some s ↦ some s.id ]

-- `get_next_ss_round_robin`; -1 is `none`.
unfoldable pub get_next_ss_round_robin : NameServer → NameServer × Option ℕ
get_next_ss_round_robin nm = if length nm.ss_list == 0 then (nm, none) else (
  record nm { next_ss_id = nm.next_ss_id + 1 },
  id_at nm.ss_list (nm.next_ss_id % length nm.ss_list),
)

-- The search of the index of a storage server.
unfoldable pub has_ss : List StorageServerInfo → ℕ → Bool
has_ss [] ss_id = false
has_ss (s ∷ ss) ss_id = if s.id == ss_id then true else has_ss ss ss_id

-- The metadata of a new file, at the time `now`.
unfoldable pub new_metadata : ℕ → Text → Text → ℕ → FileMetadata
new_metadata now filename owner ss_id = record {
  filename = filename;
  folder_path = [];
  owner = owner;
  ss_id = ss_id;
  size = 0;
  word_count = 0;
  char_count = 0;
  created = now;
  modified = now;
  accessed = now;
  last_accessed_by = owner;
  acl = [];
}

-- `handle_create` after the choice of a storage server, which answers the status `answer ss_id`.
unfoldable pub create_on : ℕ → ℕ → (ℕ → ℤ) → Text → Text → NameServer → Option ℕ → Handled
unfolding has_ss new_metadata trie_insert cache_put
create_on fuel now answer filename sender nm none = some (nm, err_ss_unavailable)
create_on fuel now answer filename sender nm (some ss_id) =
    let meta = new_metadata now filename sender ss_id in
    let added : Handled = elim (cache_put fuel nm.cache filename meta) [
      | none ↦ none
      | some cache ↦ some (
        record nm { file_trie = (trie_insert nm.file_trie filename meta).0; cache = cache },
        success,
      )
    ] in
    if has_ss nm.ss_list ss_id
    then (if is_success (answer ss_id) then added else some (nm, answer ss_id))
    else some (nm, err_ss_unavailable)

unfoldable pub handle_create : ℕ → ℕ → (ℕ → ℤ) → NameServer → Text → Text → Handled
unfolding get_next_ss_round_robin create_on
handle_create fuel now answer nm filename sender = elim (trie_search nm.file_trie filename) [
  | some existing ↦ some (nm, err_file_exists)
  | none ↦
      let (nm', next) = get_next_ss_round_robin nm in
      create_on fuel now answer filename sender nm' next
]

-- `handle_delete`: `has_locks` and `answer` are what the storage server answers to
-- `MSG_CHECK_LOCKS` (whether the status is `ERR_FILE_LOCKED`) and to `MSG_DELETE`.
unfoldable pub handle_delete : ℕ → (ℕ → Bool) → (ℕ → ℤ) → NameServer → Text → Text → Handled
unfolding has_ss trie_delete cache_remove
handle_delete fuel has_locks answer nm filename sender = elim (trie_search nm.file_trie filename) [
  | none ↦ some (nm, err_file_not_found)
  | some meta ↦
      let removed : Handled = elim (cache_remove fuel nm.cache filename) [
        | none ↦ none
        | some cache ↦ some (
          record nm { file_trie = (trie_delete nm.file_trie filename).0; cache = cache },
          success,
        )
      ] in
      if text_eq meta.owner sender
      then (if has_ss nm.ss_list meta.ss_id
          then (if has_locks meta.ss_id
              then some (nm, err_file_locked)
              else if is_success (answer meta.ss_id)
              then removed
              else some (nm, answer meta.ss_id))
          else some (nm, err_ss_unavailable))
      else some (nm, err_not_owner)
]
