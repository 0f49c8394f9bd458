-- ===== src/NameServer/Forwarding/Moves.antt =====
-- nm.c: what a move changes.
use docs_plus_plus.Base.{
  ℕ, ◌<◌, ◌≡◌, refl, sym, ◌∙◌, ℤ, Bool, true, false, ◌&&◌, ◌||◌, not, some, Text, text_eq,
  if◌then◌else◌, length,
}
use docs_plus_plus.Codes.{is_success, success, max_filename}
use docs_plus_plus.Trie.{trie_search}
use docs_plus_plus.NameServer.{
  NameServer, FileMetadata, StorageServerInfo, AccessType, access_write,
}
use docs_plus_plus.NameServer.Access.{check_access}
use docs_plus_plus.NameServer.Access.Changes.{
  HasRoom, store_metadata-stores, Stored-answer, check_access_lem,
}
use docs_plus_plus.NameServer.Servers.{active_ss}
use docs_plus_plus.NameServer.Forwarding.{folder_exists, move_on, handle_move}

-- A user who owns a file or may write it moves it to a folder that exists, or to the root, if its
-- storage server is active and moves it: the search for the file then gives the new folder and all
-- else as it was, the search for any other name gives what it gave, and everybody's access is what
-- it was. The cache has room, and the name is shorter than `MAX_FILENAME`.
pub handle_move-trie_search :
    (fuel : ℕ) (answer : ℕ → ℤ) (nm : NameServer) (filename sender target_path : Text)
    (meta : FileMetadata) (ss : StorageServerInfo)
    → trie_search nm.file_trie filename ≡ some meta
    → (text_eq meta.owner sender || check_access nm.file_trie filename sender access_write) ≡ true
    → folder_exists nm.folder_trie target_path ≡ true
    → active_ss meta.ss_id nm.ss_list ≡ some ss
    → is_success (answer meta.ss_id) ≡ true
    → HasRoom fuel nm.cache
    → length filename < max_filename
    → (nm' : NameServer) × (handle_move fuel answer nm filename sender target_path
        ≡ some (nm', success))
      × ((q : Text)
          → trie_search nm'.file_trie q ≡ (
              if text_eq filename q
              then some (record meta { folder_path = target_path })
              else trie_search nm.file_trie q))
      × ((user : Text) (required : AccessType)
          → check_access nm'.file_trie filename user required
            ≡ check_access nm.file_trie filename user required)
unfolding handle_move move_on
handle_move-trie_search fuel answer nm filename sender target_path meta ss here may folder active
      accepts room short =
    let after =
      store_metadata-stores fuel nm filename meta (record meta { folder_path = target_path }) here
        room short in
    (
      after.0,
      rw (here, handle_move, permitted _ _ may, folder, active, move_on, accepts, after.1) refl,
      after.3,
      λ user required.
          Stored-answer fuel nm filename _ after user required
          ∙ sym (check_access_lem nm.file_trie filename meta user required here),
    )
  where
    permitted : (owns writes : Bool) → (owns || writes) ≡ true → (not owns && not writes) ≡ false
    permitted true writes e = refl
    permitted false true e = refl
    permitted false false e = cc
