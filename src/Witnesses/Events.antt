-- ===== src/Witnesses/Events.antt =====
-- nm.c at concrete events.
use docs_plus_plus.Base.{
  ℕ, ◌≡◌, refl, sym, ap, ◌∙◌, inl, inr, pos, true, false, none, some, List, [], ◌∷◌, Text, text_eq,
  leb, ◌==◌, ==_iff, if◌then◌else◌, Bool-cases, some-injective, none≢some, if_same, arith, subst,
}
use docs_plus_plus.Codes.{success}
use docs_plus_plus.Trie.{TrieNode, null, node, is_null, search_walk, trie_search}
use docs_plus_plus.Trie.Lookup.{search-cons, search-nil, search-null}
use docs_plus_plus.Wire.{Message, init_message}
use docs_plus_plus.NameServer.{NameServer, FileMetadata, access_read, access_write}
use docs_plus_plus.NameServer.Access.{
  check_access, acl_access, revoke, store_metadata, handle_access,
}
use docs_plus_plus.NameServer.Access.Entries.{IsUnique, unique_nil, unique_cons}
use docs_plus_plus.NameServer.Requests.{handle_requestaccess}
use docs_plus_plus.NameServer.Servers.{heartbeat, server_step}
use docs_plus_plus.NameServer.Views.{FileInfo, refresh_file, with_info}
use docs_plus_plus.NameServer.Views.Races.{refresh_file-revoked}
use docs_plus_plus.NameServer.Dispatch.{
  Answers, request_of, access_of, serve, sends, handle_request,
}
use docs_plus_plus.NameServer.Events.{
  Event, request, server, served_state, handle_event, handle_events,
}
use docs_plus_plus.NameServer.Events.Safety.{
  IsFile, HasFiles, handle_events-HasFiles, handle_events-check_access,
}
use docs_plus_plus.Witnesses.Naming.{
  ann, bob, cy, notes, reader, a_file, some_ss, some_server, two_readers,
}

abbrev child_of : ℕ → TrieNode FileMetadata
child_of i = if i == 110 then node true (some (a_file two_readers)) (λ j. null) else null

both_readers-IsUnique : IsUnique two_readers
unfolding acl_access text_eq
both_readers-IsUnique =
    unique_cons (reader bob) (reader cy ∷ []) refl (unique_cons (reader cy) [] refl unique_nil)

notes-IsFile : (c : ℕ) → (c == 110) ≡ true → IsFile (c ∷ []) (a_file two_readers)
notes-IsFile c e = record {
  named = ap (λ x. x ∷ []) (sym ((==_iff c 110).0 e));
  unique = both_readers-IsUnique;
  room = omega arith;
}

abbrev notes_node : TrieNode FileMetadata
notes_node = node true (some (a_file two_readers)) (λ j. null)

end-IsFile :
    (c : ℕ) (key : Text) (m : FileMetadata)
    → (c == 110) ≡ true
    → search_walk notes_node key ≡ some m
    → IsFile (c ∷ key) m
end-IsFile c [] m it h =
    subst (IsFile (c ∷ []))
      (some-injective (sym (search-nil true (some (a_file two_readers)) (λ j. null)) ∙ h))
      (notes-IsFile c it)
end-IsFile c (d ∷ key) m it h = absurd (
    none≢some (
      (if_same (leb 128 d) none ∙ ap (λ o. if leb 128 d then none else o) (sym (search-null key)))
      ∙ sym (search-cons true (some (a_file two_readers)) (λ j. null) d key)
      ∙ h))

stored-IsFile :
    (q : Text) (m : FileMetadata) → search_walk (node false none child_of) q ≡ some m → IsFile q m
stored-IsFile [] m h = absurd (none≢some (sym (search-nil false none child_of) ∙ h))
stored-IsFile (c ∷ key) m h =
    let e = sym (search-cons false none child_of c key) ∙ h in
    elim (Bool-cases (leb 128 c)) [
      | inl outside ↦ absurd (none≢some (rw outside at e))
      | inr inside ↦ elim (Bool-cases (c == 110)) [
        | inl it ↦ end-IsFile c key m it (rw (inside, it) at e)
        | inr other ↦ absurd (none≢some (sym (search-null key) ∙ rw (inside, other) at e))
      ]
    ]

some_server-HasFiles : HasFiles (some_server two_readers).file_trie
unfolding trie_search is_null
some_server-HasFiles = record { root = refl; files = stored-IsFile }

abbrev some_info : FileInfo
some_info = record { size = 7; word_count = 2; char_count = 7; modified = 8; accessed = 9 }

abbrev some_answers : Answers
some_answers = record {
  fuel = 2;
  now = 5;
  status = λ id. success;
  has_locks = λ id. false;
  info = λ id file. some some_info;
  content = λ id file. ([], success);
  run = λ commands. none;
}

-- `cy` asks for a write access to `notes`, and tries to remove that of `bob`.
abbrev asking : Message
asking = record init_message { kind = pos 29; sender = cy; filename = notes; access = pos 2 }

abbrev removing : Message
removing = record init_message { kind = pos 10; sender = cy; filename = notes; target_user = bob }

abbrev some_events : List Event
some_events =
    request some_answers init_message asking
    ∷ request some_answers init_message removing
    ∷ server (heartbeat 50 4)
    ∷ []

abbrev asked : NameServer
asked = (handle_requestaccess 5 (some_server two_readers) notes cy access_write).0

handled :
    handle_events some_events (some_server two_readers) ≡ some (server_step (heartbeat 50 4) asked)
unfolding handle_events handle_event served_state handle_request request_of serve sends access_of
    handle_requestaccess check_access handle_access trie_search search_walk is_null text_eq
handled = refl

handle_events-HasFiles_example : HasFiles (server_step (heartbeat 50 4) asked).file_trie
handle_events-HasFiles_example =
    handle_events-HasFiles some_events (some_server two_readers)
      (server_step (heartbeat 50 4) asked) some_server-HasFiles handled

handle_events-check_access_example :
    check_access (server_step (heartbeat 50 4) asked).file_trie notes bob access_read
    ≡ check_access (some_server two_readers).file_trie notes bob access_read
unfolding trie_search search_walk is_null text_eq
handle_events-check_access_example =
    handle_events-check_access some_events (some_server two_readers)
      (server_step (heartbeat 50 4) asked) notes (a_file two_readers) some_server-HasFiles handled
      refl (refl, (refl, (refl, tt))) bob access_read

-- The state with a record stored.
unfoldable stored_in : NameServer → FileMetadata → NameServer
unfolding store_metadata
stored_in nm m = elim (store_metadata 2 nm notes m) [ none ↦ nm | some nm' ↦ nm' ]

abbrev without_bob : NameServer
unfolding stored_in
without_bob =
    stored_in (some_server two_readers) (record (a_file two_readers) { acl = reader cy ∷ [] })

abbrev refreshed : NameServer
unfolding stored_in
refreshed = stored_in without_bob (with_info (a_file two_readers) some_info)

refresh_file-revoked_example :
    check_access refreshed.file_trie notes bob access_read
    ≡ check_access (some_server two_readers).file_trie notes bob access_read
unfolding trie_search search_walk is_null text_eq handle_access revoke stored_in refresh_file
    with_info
refresh_file-revoked_example =
    refresh_file-revoked 2 (some_server two_readers) without_bob refreshed notes ann bob
      (a_file two_readers) (with_info (a_file two_readers) some_info) (some_ss 4) some_info refl
      refl refl refl refl bob access_read
