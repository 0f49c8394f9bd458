-- ===== src/Witnesses/Naming.antt =====
-- nm.c at concrete inputs.
use docs_plus_plus.Base.{
  ℕ, zero, suc, ◌<◌, ◌≡◌, refl, ℤ, pos, true, false, ◌&&◌, Option, none, some, List, [], ◌∷◌, Text,
  text_eq, ◌==◌, if◌then◌else◌, replicate, arith,
}
use docs_plus_plus.Codes.{success}
use docs_plus_plus.Trie.{null, node, is_null, search_walk, trie_search}
use docs_plus_plus.Trie.Lookup.{is_ascii}
use docs_plus_plus.Cache.{LruCache, slot}
use docs_plus_plus.NameServer.{
  NameServer, FileMetadata, AclEntry, AccessType, access_read, access_readwrite, RegisteredUser,
  StorageServerInfo,
}
use docs_plus_plus.NameServer.Users.{
  Registered, session, is_sock, user_exists, register_user_persistent, deregister_active_session,
  session_changes,
}
use docs_plus_plus.NameServer.Access.{
  gives, acl_access, check_access, add_access, rem_access, handle_access,
}
use docs_plus_plus.NameServer.Access.Entries.{IsUnique, unique_nil, unique_cons}
use docs_plus_plus.NameServer.Access.Changes.{
  HasRoom, handle_access_add-check_access, handle_access_rem-check_access,
}
use docs_plus_plus.NameServer.Requests.{request_at, remove_request, handle_approverequest}
use docs_plus_plus.NameServer.Requests.Approval.{
  handle_approverequest-check_access, handle_access_full,
}
use docs_plus_plus.NameServer.Files.{new_metadata, handle_create, find_ss_for_file}
use docs_plus_plus.NameServer.Files.Creation.{
  handle_create-find_ss_for_file, handle_create_not_ascii,
}

abbrev pub ann : Text
ann = 97 ∷ []

abbrev pub bob : Text
bob = 98 ∷ []

abbrev pub cy : Text
cy = 99 ∷ []

abbrev pub notes : Text
notes = 110 ∷ []

abbrev pub user : Text → Option ℕ → RegisteredUser
user name none = record {
  username = name;
  first_registered = 1;
  last_seen = 2;
  active_session = false;
  client_sock = none;
}
user name (some s) = record {
  username = name;
  first_registered = 1;
  last_seen = 2;
  active_session = true;
  client_sock = some s;
}

-- `ann` is logged in on the socket 7, and `bob` is not.
abbrev pub some_users : List RegisteredUser
some_users = user ann (some 7) ∷ user bob none ∷ []

session_changes_example :
    Registered some_users bob 8 (register_user_persistent 5 some_users bob 8) ann
    × (session (deregister_active_session 5 some_users bob 8) ann ≡ (
        if text_eq bob ann && is_sock (session some_users ann) 8
        then none
        else session some_users ann))
session_changes_example = session_changes 5 some_users bob 8 ann

abbrev pub empty_cache : LruCache FileMetadata
empty_cache = record {
  key = λ n. [];
  value = λ n. none;
  prev = λ n. 0;
  next = λ n. 1;
  hash_table = none ∷ none ∷ [];
  capacity = 2;
  size = 0;
  fresh = 2;
}

empty_cache-made : (h n : ℕ) → slot (none ∷ none ∷ []) h ≡ some n → n < 2
unfolding slot
empty_cache-made zero n e = cc
empty_cache-made (suc zero) n e = cc
empty_cache-made (suc (suc h)) n e = cc

pub empty_cache-HasRoom : HasRoom 2 empty_cache
unfolding slot
empty_cache-HasRoom = record {
  table = record { positive = omega arith; sized = refl; made = empty_cache-made };
  room = omega arith;
  free = 1;
  inside = omega arith;
  empty = refl;
  enough = omega arith;
}

abbrev pub reader : Text → AclEntry
reader name = record { username = name; access = access_read }

-- A file of `ann`.
abbrev pub a_file : List AclEntry → FileMetadata
a_file acl = record {
  filename = notes;
  folder_path = [];
  owner = ann;
  ss_id = 4;
  size = 0;
  word_count = 0;
  char_count = 0;
  created = 1;
  modified = 1;
  accessed = 1;
  last_accessed_by = ann;
  acl = acl;
}

abbrev pub some_ss : ℕ → StorageServerInfo
some_ss id = record {
  id = id;
  ip = [];
  nm_port = pos 0;
  client_port = pos 0;
  sock = id;
  hb_sock = none;
  active = true;
  last_heartbeat = 0;
  files = [];
}

-- A name server with the file `notes` of `ann`, and a request of `cy` for it.
abbrev pub some_server : List AclEntry → NameServer
some_server acl = record {
  file_trie = record {
    root =
        node false none (λ i. if i == 110 then node true (some (a_file acl)) (λ j. null) else null);
  };
  cache = empty_cache;
  registered_users = some_users;
  access_requests =
      record {
        username = cy;
        filename = notes;
        requested_access = access_readwrite;
        request_time = 3;
      }
      ∷ [];
  folder_trie = record { root = null };
  client_list = λ i. record { username = []; ip = []; sock = 0; connected = 0 };
  client_count = 0;
  ss_list = some_ss 4 ∷ some_ss 6 ∷ [];
  next_ss_id = 3;
}

abbrev pub two_readers : List AclEntry
two_readers = reader bob ∷ reader cy ∷ []

two_readers-IsUnique : IsUnique two_readers
unfolding acl_access text_eq
two_readers-IsUnique =
    unique_cons (reader bob) (reader cy ∷ []) refl (unique_cons (reader cy) [] refl unique_nil)

handle_access_add-check_access_example :
    (nm' : NameServer) × (handle_access 2
        (some_server two_readers)
        notes
        ann
        bob
        (add_access access_readwrite)
      ≡ some (nm', success))
    × ((u : Text) (required : AccessType)
        → check_access nm'.file_trie notes u required ≡ (
            if text_eq bob u
            then gives required access_readwrite
            else check_access (some_server two_readers).file_trie notes u required))
unfolding trie_search search_walk is_null text_eq user_exists
handle_access_add-check_access_example =
    handle_access_add-check_access 2 (some_server two_readers) notes ann bob access_readwrite
      (a_file two_readers) refl refl refl refl (omega arith) empty_cache-HasRoom (omega arith)

handle_access_rem-check_access_example :
    (nm' : NameServer) × (handle_access 2 (some_server two_readers) notes ann bob rem_access
      ≡ some (nm', success))
    × ((u : Text) (required : AccessType)
        → check_access nm'.file_trie notes u required ≡ (
            if text_eq ann u
            then true
            else if text_eq bob u
            then false
            else check_access (some_server two_readers).file_trie notes u required))
unfolding trie_search search_walk is_null text_eq
handle_access_rem-check_access_example =
    handle_access_rem-check_access 2 (some_server two_readers) notes ann bob (a_file two_readers)
      refl refl two_readers-IsUnique empty_cache-HasRoom (omega arith)

-- A list with no place left.
abbrev pub full_list : List AclEntry
full_list = replicate 100 (reader cy)

handle_access_full_example :
    (nm' : NameServer) × (handle_access 2
        (some_server full_list)
        notes
        ann
        bob
        (add_access access_read)
      ≡ some (nm', success))
    × ((u : Text) (required : AccessType)
        → check_access nm'.file_trie notes u required
          ≡ check_access (some_server full_list).file_trie notes u required)
unfolding trie_search search_walk is_null text_eq user_exists acl_access
handle_access_full_example =
    handle_access_full 2 (some_server full_list) notes ann bob access_read (a_file full_list) refl
      refl refl refl refl (omega arith) empty_cache-HasRoom (omega arith)

handle_approverequest-check_access_example :
    (nm' : NameServer) × (handle_approverequest 2 (some_server two_readers) ann (pos 0)
      ≡ some (nm', success))
    × (nm'.access_requests ≡ remove_request (some_server two_readers).access_requests 0)
    × ((u : Text) (required : AccessType)
        → check_access nm'.file_trie notes u required ≡ (
            if text_eq cy u
            then gives required access_readwrite
            else check_access (some_server two_readers).file_trie notes u required))
unfolding trie_search search_walk is_null text_eq request_at
handle_approverequest-check_access_example =
    handle_approverequest-check_access 2 (some_server two_readers) ann (pos 0) 0
      (record {
        username = cy;
        filename = notes;
        requested_access = access_readwrite;
        request_time = 3;
      })
      (a_file two_readers) refl refl refl refl (omega arith) empty_cache-HasRoom (omega arith)

abbrev pub answers : ℕ → ℤ
answers ss_id = success

handle_create-find_ss_for_file_example :
    (nm' : NameServer) × (handle_create 2 9 answers (some_server []) cy bob ≡ some (nm', success))
    × ((q : Text)
        → trie_search nm'.file_trie q ≡ (
            if is_ascii cy && text_eq cy q
            then some (new_metadata 9 cy bob 6)
            else trie_search (some_server []).file_trie q))
    × ((nm'' : NameServer) × (find_ss_for_file 2 nm' cy ≡ some (nm'', some 6)))
unfolding trie_search search_walk is_null
handle_create-find_ss_for_file_example =
    handle_create-find_ss_for_file 2 9 answers (some_server []) cy bob 6 refl refl refl refl
      empty_cache-HasRoom (omega arith)

handle_create_not_ascii_example :
    (nm' : NameServer) × (handle_create 2 9 answers (some_server []) (200 ∷ []) bob
      ≡ some (nm', success))
    × (trie_search nm'.file_trie (200 ∷ []) ≡ none)
    × ((required : AccessType) → check_access nm'.file_trie (200 ∷ []) bob required ≡ false)
unfolding trie_search search_walk is_null is_ascii
handle_create_not_ascii_example =
    handle_create_not_ascii 2 9 answers (some_server []) (200 ∷ []) bob 6 refl refl refl refl
      empty_cache-HasRoom (omega arith) refl
