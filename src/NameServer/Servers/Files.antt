-- ===== src/NameServer/Servers/Files.antt =====
-- nm.c: what the registration of a storage server makes of the files' metadata.
use docs_plus_plus.Base.{
  some-injective, none≢some, ℕ, zero, suc, ◌≡◌, refl, sym, ap, ◌∙◌, inl, inr, Bool, true, false,
  ◌&&◌, ◌||◌, Option, none, some, List, [], ◌∷◌, Text, text_eq, text_eq_iff, codes, if◌then◌else◌,
  take, Bool-cases, Option-cases, and_false, and_true, if_same, text_eq_refl, take-nil,
}
use docs_plus_plus.Codes.{max_files}
use docs_plus_plus.Wire.{Message}
use docs_plus_plus.Trie.{Trie, trie_search, trie_insert, trie_update}
use docs_plus_plus.Trie.Lookup.{is_ascii, search-insert_walk, insert_walk-allocated}
use docs_plus_plus.Trie.Update.{search-update_walk, update_walk-allocated, search_not_ascii}
use docs_plus_plus.Trie.Refinement.{IsAllocated}
use docs_plus_plus.NameServer.{NameServer, FileMetadata}
use docs_plus_plus.NameServer.Files.{new_metadata}
use docs_plus_plus.NameServer.Servers.{
  fill_slot, put_slot, strtok_from, register_file, register_files, register_ss,
}

-- The metadata of a reported file: what was known, on that storage server, or that of a file of
-- `system`.
abbrev pub adopted : ℕ → ℕ → Text → Option FileMetadata → FileMetadata
adopted now ss_id file (some existing) = record existing { ss_id = ss_id }
adopted now ss_id file none = record (new_metadata now file (codes "system") ss_id) {
  last_accessed_by = [];
}

-- Whether a name is among the files.
abbrev pub reports : List Text → Text → Bool
reports [] q = false
reports (file ∷ files) q = text_eq file q || reports files q

module _ (now ss_id : ℕ) where
  search-register_file :
      (t : Trie FileMetadata) (file q : Text)
      → IsAllocated t
      → trie_search (register_file now ss_id t file) q ≡ (
          if is_ascii file && text_eq file q
          then some (adopted now ss_id file (trie_search t file))
          else trie_search t q)
  unfolding register_file trie_search trie_insert trie_update new_metadata
  search-register_file t file q allocated = elim (Option-cases (trie_search t file)) [
    | inl new ↦ rw (new, register_file) (search-insert_walk t.root file q _ allocated)
    | inr (m, known) ↦
        rw (known, register_file)
          (search-update_walk t.root file q _ ∙ rw (known, good m known) refl)
  ]
    where
      good : (m : FileMetadata) → trie_search t file ≡ some m → is_ascii file ≡ true
      good m known = elim (Bool-cases (is_ascii file)) [
        | inl e ↦ e
        | inr bad ↦ absurd (none≢some (sym (search_not_ascii t.root file bad) ∙ known))
      ]

  pub register_file-IsAllocated :
      (t : Trie FileMetadata) (file : Text)
      → IsAllocated t
      → IsAllocated (register_file now ss_id t file)
  unfolding register_file trie_insert trie_update
  register_file-IsAllocated t file allocated = elim (Option-cases (trie_search t file)) [
    | inl new ↦ rw (new, register_file) (insert_walk-allocated t.root file _ allocated)
    | inr (m, known) ↦ rw (known, register_file) (update_walk-allocated t.root file _ ∙ allocated)
  ]

  adopted-adopted :
      (file : Text) (o : Option FileMetadata)
      → adopted now ss_id file (some (adopted now ss_id file o)) ≡ adopted now ss_id file o
  unfolding new_metadata
  adopted-adopted file none = refl
  adopted-adopted file (some m) = refl

  -- After a registration, the search for a reported name gives what was known of it, its owner and
  -- its access list included, but on the new storage server, or, if nothing was known, a new file
  -- of `system`. Searches for other names, and for names outside ASCII, give what they gave. Of the
  -- reported names, those that have room in the server's list count.
  pub search-register_files :
      (room : ℕ) (files : List Text) (t : Trie FileMetadata) (q : Text)
      → IsAllocated t
      → trie_search (register_files room now ss_id t files) q ≡ (
          if is_ascii q && reports (take room files) q
          then some (adopted now ss_id q (trie_search t q))
          else trie_search t q)
  unfolding register_files
  search-register_files room [] t q allocated = rw (take-nil room, and_false (is_ascii q)) refl
  search-register_files zero (file ∷ files) t q allocated = rw (and_false (is_ascii q)) refl
  search-register_files (suc room) (file ∷ files) t q allocated =
      search-register_files room files (register_file now ss_id t file) q
        (register_file-IsAllocated t file allocated)
      ∙ elim (Bool-cases (text_eq file q)) [
        | inl same ↦ again ((text_eq_iff file q).0 same)
        | inr other ↦
            rw (search-register_file t file q allocated, other, and_false (is_ascii file)) refl
      ]
    where
      twice :
          (good : Bool) (found : Option FileMetadata)
          → found ≡ (if good then some (adopted now ss_id q (trie_search t q)) else trie_search t q)
          → (if good && reports (take room files) q
              then some (adopted now ss_id q found)
              else found)
            ≡ (if good then some (adopted now ss_id q (trie_search t q)) else trie_search t q)
      twice true found e =
          rw (e, adopted-adopted q (trie_search t q))
            (sym (if_same (reports (take room files) q) _))
      twice false found e = e

      again :
          file ≡ q
          → (if is_ascii q && reports (take room files) q
              then some (adopted now ss_id q (trie_search (register_file now ss_id t file) q))
              else trie_search (register_file now ss_id t file) q)
            ≡ (if is_ascii q && (text_eq file q || reports (take room files) q)
                then some (adopted now ss_id q (trie_search t q))
                else trie_search t q)
      again e =
          rw (e, text_eq_refl q)
            (twice (is_ascii q) _ (
                search-register_file t q q allocated
                ∙ rw (text_eq_refl q, and_true (is_ascii q)) refl)
              ∙ rw (and_true (is_ascii q)) refl)

-- After the registration of a storage server, a search for a name that it reports gives what was
-- known of it, its owner and its access list included, but on this storage server, or, if nothing
-- was known, a new file of `system`. Searches for other names, and for names outside ASCII, give
-- what they gave. The reported names are the first `MAX_FILES` tokens of the message. The trie has
-- its root.
pub register_ss-trie_search :
    (now sock ss_id : ℕ) (msg : Message) (nm nm' : NameServer)
    → IsAllocated nm.file_trie
    → register_ss now nm sock ss_id msg ≡ some nm'
    → (q : Text)
    → trie_search nm'.file_trie q ≡ (
        if is_ascii q && reports (take max_files (strtok_from [] msg.payload)) q
        then some (adopted now ss_id q (trie_search nm.file_trie q))
        else trie_search nm.file_trie q)
unfolding register_ss
register_ss-trie_search now sock ss_id msg nm nm' allocated e q =
    elim (Option-cases (
      put_slot (fill_slot now sock ss_id msg (take max_files (strtok_from [] msg.payload)))
        nm.ss_list)) [
          | inl full ↦ absurd (none≢some (rw (full, register_ss) at e))
          | inr (ss, put) ↦
              ap (λ t. trie_search t q) (sym (same_trie (rw (put, register_ss) at e)))
              ∙ search-register_files now ss_id max_files (strtok_from [] msg.payload) nm.file_trie
                  q allocated
        ]
  where
    same_trie : {a : NameServer} → some a ≡ some nm' → a.file_trie ≡ nm'.file_trie
    same_trie h = ap (λ x. x.file_trie) (some-injective h)
