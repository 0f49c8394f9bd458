-- ===== src/Witnesses/Moving.antt =====
-- Listings and moves at concrete inputs.
use docs_plus_plus.Base.{
  ℕ, ◌≡◌, refl, true, false, none, some, List, [], ◌∷◌, Text, text_eq, if◌then◌else◌, keep_if,
  arith, ◌==◌,
}
use mathlib.Core.List.{Memᴰ}
use docs_plus_plus.Codes.{success}
use docs_plus_plus.Trie.{
  Trie, null, node, is_null, search_walk, trie_search, trie_get_all_files, collect_files,
  each_child,
}
use docs_plus_plus.Trie.Contents.{Mem-trie_get_all_files}
use docs_plus_plus.NameServer.{NameServer, FileMetadata, AccessType}
use docs_plus_plus.NameServer.Access.{check_access, acl_access, gives}
use docs_plus_plus.NameServer.Servers.{active_ss}
use docs_plus_plus.NameServer.Forwarding.{handle_move, folder_exists, is_root}
use docs_plus_plus.NameServer.Forwarding.Moves.{handle_move-trie_search}
use docs_plus_plus.NameServer.Views.{
  handle_viewfolder, viewfolder_files, print_names, folder_files, in_folder,
}
use docs_plus_plus.NameServer.Views.Shown.{IsShown, listed_text, handle_viewfolder-mem}
use docs_plus_plus.Witnesses.Naming.{
  ann, bob, notes, a_file, some_ss, some_server, two_readers, empty_cache-HasRoom,
}

abbrev small_trie : Trie ℕ
small_trie = record {
  root = node false none (λ i. if i == 97 then node true (some 5) (λ j. null) else null);
}

Mem-trie_get_all_files_example :
    (Memᴰ 5 (trie_get_all_files small_trie 3)
      → (key : Text) × (trie_search small_trie key ≡ some 5))
    × ((key : Text)
        → trie_search small_trie key ≡ some 5
        → Memᴰ 5 (trie_get_all_files small_trie 3))
unfolding trie_get_all_files collect_files each_child is_null
Mem-trie_get_all_files_example = Mem-trie_get_all_files small_trie 3 (omega arith) 5

abbrev one_file : List FileMetadata
one_file = a_file two_readers ∷ []

listing_example : viewfolder_files (some_server two_readers) [] bob ≡ some one_file
unfolding viewfolder_files folder_files keep_if in_folder is_root check_access acl_access gives
    text_eq trie_search search_walk trie_get_all_files collect_files each_child is_null
listing_example = refl

handle_viewfolder-mem_example :
    (handle_viewfolder (some_server two_readers) [] bob ≡ some (some (listed_text one_file)))
    × ((meta : FileMetadata)
        → (Memᴰ meta one_file
            → ((key : Text) × (trie_search (some_server two_readers).file_trie key ≡ some meta))
              × IsShown (some_server two_readers).file_trie bob [] meta)
          × ((key : Text)
              → trie_search (some_server two_readers).file_trie key ≡ some meta
              → IsShown (some_server two_readers).file_trie bob [] meta
              → Memᴰ meta one_file))
unfolding trie_get_all_files collect_files each_child is_null print_names
handle_viewfolder-mem_example =
    handle_viewfolder-mem (some_server two_readers) [] bob one_file (omega arith) listing_example
      (omega arith)

handle_move-trie_search_example :
    (nm' : NameServer) × (handle_move 2 (λ ss_id. success) (some_server two_readers) notes ann []
      ≡ some (nm', success))
    × ((q : Text)
        → trie_search nm'.file_trie q ≡ (
            if text_eq notes q
            then some (record (a_file two_readers) { folder_path = [] })
            else trie_search (some_server two_readers).file_trie q))
    × ((user : Text) (required : AccessType)
        → check_access nm'.file_trie notes user required
          ≡ check_access (some_server two_readers).file_trie notes user required)
unfolding trie_search search_walk is_null text_eq folder_exists is_root active_ss
handle_move-trie_search_example =
    handle_move-trie_search 2 (λ ss_id. success) (some_server two_readers) notes ann []
      (a_file two_readers) (some_ss 4) refl refl refl refl refl empty_cache-HasRoom (omega arith)
