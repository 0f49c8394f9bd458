-- ===== src/NameServer/Files/Creation.antt =====
-- nm.c: where a created file is found, and who may use it.
use docs_plus_plus.Base.{
  ℕ, zero, suc, ◌+◌, ◌%◌, ◌<◌, ◌≡◌, refl, ap, ◌∙◌, ℤ, true, false, ◌&&◌, none, some, List, [], ◌∷◌,
  Text, text_eq, ◌==◌, if◌then◌else◌, length, arith,
}
use docs_plus_plus.Codes.{is_success, success, max_filename}
use docs_plus_plus.Trie.{trie_search, trie_insert}
use docs_plus_plus.Trie.Lookup.{is_ascii, search-insert_walk}
use docs_plus_plus.Trie.Refinement.{IsAllocated}
use docs_plus_plus.Cache.PutGet.{cache_get-cache_put}
use docs_plus_plus.NameServer.{NameServer, StorageServerInfo, AccessType}
use docs_plus_plus.NameServer.Access.{check_access}
use docs_plus_plus.NameServer.Access.Changes.{HasRoom}
use docs_plus_plus.NameServer.Files.{
  find_ss_for_file, get_next_ss_round_robin, has_ss, id_at, new_metadata, create_on, handle_create,
}

has_ss-id_at :
    (ss : List StorageServerInfo) (i ss_id : ℕ)
    → id_at ss i ≡ some ss_id
    → (has_ss ss ss_id ≡ true) × ((length ss == 0) ≡ false)
unfolding has_ss
has_ss-id_at [] i ss_id e = cc
has_ss-id_at (s ∷ ss) zero ss_id e = (ground arith, ground arith)
has_ss-id_at (s ∷ ss) (suc i) ss_id e =
    (ground (arith, (has_ss-id_at ss i ss_id e).0), ground arith)

next_ss :
    (nm : NameServer) (ss_id : ℕ)
    → id_at nm.ss_list (nm.next_ss_id % length nm.ss_list) ≡ some ss_id
    → get_next_ss_round_robin nm ≡ (record nm { next_ss_id = nm.next_ss_id + 1 }, some ss_id)
unfolding get_next_ss_round_robin
next_ss nm ss_id next =
    let (has, some_ss) = has_ss-id_at nm.ss_list (nm.next_ss_id % length nm.ss_list) ss_id next in
    rw (some_ss, next) refl

-- The hypotheses of a creation: a new name, and a storage server that creates the file.
module _ (fuel now : ℕ) (answer : ℕ → ℤ) (nm : NameServer) (filename sender : Text) (ss_id : ℕ)
    (new : trie_search nm.file_trie filename ≡ none)
    (next : id_at nm.ss_list (nm.next_ss_id % length nm.ss_list) ≡ some ss_id)
    (accepts : is_success (answer ss_id) ≡ true) (allocated : IsAllocated nm.file_trie)
    (room : HasRoom fuel nm.cache) (short : length filename < max_filename) where
  -- What a creation makes of the searches.
  abbrev pub Created : Type 0
  Created =
      (nm' : NameServer) × (handle_create fuel now answer nm filename sender ≡ some (nm', success))
      × ((q : Text)
          → trie_search nm'.file_trie q ≡ (
              if is_ascii filename && text_eq filename q
              then some (new_metadata now filename sender ss_id)
              else trie_search nm.file_trie q))
      × ((nm'' : NameServer) × (find_ss_for_file fuel nm' filename ≡ some (nm'', some ss_id)))

  -- If the name is new and shorter than `MAX_FILENAME`, the storage server that the rotation
  -- chooses creates the file, the trie has its root, and the cache has room, the creation succeeds.
  -- If the name is ASCII, searches find its metadata from then on. Searches for other names give
  -- what they gave, and the file is found on that storage server.
  pub handle_create-find_ss_for_file : Created
  unfolding handle_create create_on find_ss_for_file get_next_ss_round_robin new_metadata
      trie_insert trie_search
  handle_create-find_ss_for_file =
      let meta = new_metadata now filename sender ss_id in
      let (has, some_ss) = has_ss-id_at nm.ss_list (nm.next_ss_id % length nm.ss_list) ss_id next in
      let (cache, put, (cache', got)) =
        cache_get-cache_put fuel nm.cache filename meta room.free room.table room.room room.inside
          room.empty room.enough short in
      let nm' : NameServer = record nm {
        next_ss_id = nm.next_ss_id + 1;
        file_trie = (trie_insert nm.file_trie filename meta).0;
        cache = cache;
      } in
      (
        nm',
        rw (new, handle_create)
            (ap (λ r. create_on fuel now answer filename sender r.0 r.1) (next_ss nm ss_id next)
              ∙ rw (has, create_on, accepts, put) refl),
        λ q. search-insert_walk nm.file_trie.root filename q meta allocated,
        (record nm' { cache = cache' }, rw (got, find_ss_for_file) refl),
      )

  -- If the name is new, shorter than `MAX_FILENAME` and not ASCII, the storage server that the
  -- rotation chooses creates the file, and the cache has room, the creation reports success, but no
  -- search finds the file, and its owner has no access to it.
  pub handle_create_not_ascii :
      is_ascii filename ≡ false
      → (nm' : NameServer) × (handle_create fuel now answer nm filename sender
          ≡ some (nm', success))
        × (trie_search nm'.file_trie filename ≡ none)
        × ((required : AccessType) → check_access nm'.file_trie filename sender required ≡ false)
  unfolding check_access
  handle_create_not_ascii bad =
      let (nm', e, found, located) = handle_create-find_ss_for_file in
      let gone : trie_search nm'.file_trie filename ≡ none = found filename ∙ rw (bad, new) refl in
      (nm', e, gone, λ required. rw (gone, check_access) refl)
