-- ===== src/NameServer/Access/Changes.antt =====
-- nm.c: what `handle_access` changes in the answers of `check_access`.
use docs_plus_plus.Base.{
  ℕ, ◌<◌, ◌≤◌, ◌≡◌, refl, sym, ◌∙◌, inl, inr, Bool, true, false, none, some, Text, text_eq,
  text_eq_refl, text_eq_iff, own_name, if◌then◌else◌, length, Bool-cases,
}
use docs_plus_plus.Codes.{success, max_acl_entries, max_filename}
use docs_plus_plus.Trie.{Trie, trie_search, trie_update}
use docs_plus_plus.Trie.Update.{search-update_walk}
use docs_plus_plus.Cache.{LruCache, slot}
use docs_plus_plus.Cache.Reads.{IsTable}
use docs_plus_plus.Cache.PutGet.{cache_get-cache_put}
use docs_plus_plus.NameServer.{NameServer, FileMetadata, AccessType}
use docs_plus_plus.NameServer.Users.{user_exists}
use docs_plus_plus.NameServer.Access.{
  gives, acl_access, check_access, grant, revoke, store_metadata, add_access, rem_access,
  change_list, handle_access,
}
use docs_plus_plus.NameServer.Access.Entries.{IsUnique, acl_access-grant, acl_access-revoke}

-- The cache can take one more name, and the fuel is enough to put it there.
pub record HasRoom (fuel : ℕ) (c : LruCache FileMetadata) : Type 0 where
  pub table : IsTable c
  pub room : c.size < c.capacity
  pub free : ℕ
  pub inside : free < c.capacity
  pub empty : slot c.hash_table free ≡ none
  pub enough : c.capacity ≤ fuel

-- What a stored record makes of the later searches.
abbrev pub Stored : ℕ → NameServer → Text → FileMetadata → Type 0
Stored fuel nm filename meta =
    (nm' : NameServer) × (store_metadata fuel nm filename meta ≡ some nm')
    × (nm'.access_requests ≡ nm.access_requests)
    × ((q : Text)
        → trie_search nm'.file_trie q
          ≡ (if text_eq filename q then some meta else trie_search nm.file_trie q))

pub store_metadata-stores :
    (fuel : ℕ) (nm : NameServer) (filename : Text) (old meta : FileMetadata)
    → trie_search nm.file_trie filename ≡ some old
    → HasRoom fuel nm.cache
    → length filename < max_filename
    → Stored fuel nm filename meta
unfolding store_metadata trie_update trie_search
store_metadata-stores fuel nm filename old meta here r short =
    let (cache, e, later) =
      cache_get-cache_put fuel nm.cache filename meta r.free r.table r.room r.inside r.empty
        r.enough short in
    (
      record nm { file_trie = (trie_update nm.file_trie filename meta).0; cache = cache },
      rw (e, store_metadata) refl,
      refl,
      λ q. search-update_walk nm.file_trie.root filename q meta ∙ rw here refl,
    )

-- The answer of `check_access` on a record that was found.
abbrev pub answer : FileMetadata → Text → AccessType → Bool
answer meta user required =
    if text_eq meta.owner user
    then true
    else elim (acl_access meta.acl user) [ none ↦ false | some access ↦ gives required access ]

pub check_access_lem :
    (t : Trie FileMetadata) (filename : Text) (meta : FileMetadata) (user : Text)
    (required : AccessType)
    → trie_search t filename ≡ some meta
    → check_access t filename user required ≡ answer meta user required
unfolding check_access
check_access_lem t filename meta user required e = rw (e, check_access) refl

pub Stored-answer :
    (fuel : ℕ) (nm : NameServer) (filename : Text) (meta : FileMetadata)
    (s : Stored fuel nm filename meta) (user : Text) (required : AccessType)
    → check_access s.0.file_trie filename user required ≡ answer meta user required
Stored-answer fuel nm filename meta (nm', e, queue, found) user required =
    check_access_lem nm'.file_trie filename meta user required
      (found filename ∙ rw (text_eq_refl filename) refl)

pub clash : true ≡ false → ⊥
clash e = cc

pub answer-grant :
    (meta : FileMetadata) (target : Text) (access : AccessType) (user : Text)
    (required : AccessType)
    → text_eq meta.owner target ≡ false
    → length meta.acl < max_acl_entries
    → answer (record meta { acl = grant meta.acl target access }) user required
      ≡ (if text_eq target user then gives required access else answer meta user required)
answer-grant meta target access user required apart room = elim (Bool-cases (text_eq target user)) [
  | inl it ↦
      let owner : text_eq meta.owner user ≡ false = rw (← (text_eq_iff target user).0 it) apart in
      rw (it, owner, acl_access-grant meta.acl target access user room, it) refl
  | inr away ↦ rw (away, acl_access-grant meta.acl target access user room, away) refl
]

answer-revoke :
    (meta : FileMetadata) (target user : Text) (required : AccessType)
    → IsUnique meta.acl
    → answer (record meta { acl = revoke meta.acl target }) user required ≡ (
        if text_eq meta.owner user
        then true
        else if text_eq target user
        then false
        else answer meta user required)
answer-revoke meta target user required unique = elim (Bool-cases (text_eq meta.owner user)) [
  | inl owner ↦ rw owner refl
  | inr other ↦ elim (Bool-cases (text_eq target user)) [
    | inl it ↦ rw (other, it, acl_access-revoke meta.acl target user unique, it) refl
    | inr away ↦ rw (other, away, acl_access-revoke meta.acl target user unique, away) refl
  ]
]

-- In a file that the sender owns, adding an access for another registered user succeeds. From
-- then on that user has exactly what the access gives, and every other user what they had.
-- The list must not be full, the cache
-- must have room, and the name be shorter than `MAX_FILENAME`.
pub handle_access_add-check_access :
    (fuel : ℕ) (nm : NameServer) (filename sender target_user : Text) (access : AccessType)
    (meta : FileMetadata)
    → trie_search nm.file_trie filename ≡ some meta
    → text_eq meta.owner sender ≡ true
    → user_exists nm.registered_users target_user ≡ true
    → text_eq target_user sender ≡ false
    → length meta.acl < max_acl_entries
    → HasRoom fuel nm.cache
    → length filename < max_filename
    → (nm' : NameServer) × (handle_access fuel nm filename sender target_user (add_access access)
        ≡ some (nm', success))
      × ((user : Text) (required : AccessType)
          → check_access nm'.file_trie filename user required ≡ (
              if text_eq target_user user
              then gives required access
              else check_access nm.file_trie filename user required))
unfolding handle_access change_list
handle_access_add-check_access fuel nm filename sender target_user access meta here own known other
      list_room room short =
    let after =
      store_metadata-stores fuel nm filename meta
        (record meta { acl = grant meta.acl target_user access }) here room short in
    (
      after.0,
      rw (here, handle_access, own, known, other, after.1) refl,
      λ user required.
          Stored-answer fuel nm filename _ after user required
          ∙ answer-grant meta target_user access user required owner list_room
          ∙ rw (check_access_lem nm.file_trie filename meta user required here) refl,
    )
  where
    owner : text_eq meta.owner target_user ≡ false
    owner = elim (Bool-cases (text_eq meta.owner target_user)) [
      | inr apart ↦ apart
      | inl same ↦ absurd (clash (sym own ∙ own_name meta.owner target_user same sender ∙ other))
    ]

-- In a file that the sender owns, removing the access of a user succeeds. From then on that user,
-- the owner apart, has no access, and every other user what they had. The cache must have room,
-- the name be shorter than `MAX_FILENAME`, and each user have at most one entry.
pub handle_access_rem-check_access :
    (fuel : ℕ) (nm : NameServer) (filename sender target_user : Text) (meta : FileMetadata)
    → trie_search nm.file_trie filename ≡ some meta
    → text_eq meta.owner sender ≡ true
    → IsUnique meta.acl
    → HasRoom fuel nm.cache
    → length filename < max_filename
    → (nm' : NameServer) × (handle_access fuel nm filename sender target_user rem_access
        ≡ some (nm', success))
      × ((user : Text) (required : AccessType)
          → check_access nm'.file_trie filename user required ≡ (
              if text_eq meta.owner user
              then true
              else if text_eq target_user user
              then false
              else check_access nm.file_trie filename user required))
unfolding handle_access change_list
handle_access_rem-check_access fuel nm filename sender target_user meta here own unique room short =
    let after =
      store_metadata-stores fuel nm filename meta
        (record meta { acl = revoke meta.acl target_user }) here room short in
    (
      after.0,
      rw (here, handle_access, own, after.1) refl,
      λ user required.
          Stored-answer fuel nm filename _ after user required
          ∙ answer-revoke meta target_user user required unique
          ∙ rw (check_access_lem nm.file_trie filename meta user required here) refl,
    )
