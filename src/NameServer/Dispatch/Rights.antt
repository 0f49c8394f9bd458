-- ===== src/NameServer/Dispatch/Rights.antt =====
-- nm.c: what a request may do to the stored metadata of a file, seen as an access policy.
use docs_plus_plus.Base.{
  ℕ, ◌≡◌, refl, sym, subst, ◌∙◌, inl, inr, Bool, true, ◌&&◌, Option, none, some, [], Text, text_eq,
  text_eq_iff, if◌then◌else◌, Bool-cases, Option-cases, some-injective, none≢some, and_parts,
}
use docs_plus_plus.Trie.{Trie, trie_search, trie_insert, trie_update, trie_delete}
use docs_plus_plus.Trie.Lookup.{
  is_ascii, search-insert_walk, insert_walk-allocated, search-delete_helper,
}
use docs_plus_plus.Trie.Update.{
  search-update_walk, update_walk-allocated, delete_helper-allocated, is_some,
}
use docs_plus_plus.Trie.Refinement.{IsAllocated}
use docs_plus_plus.Cache.{cache_put}
use docs_plus_plus.NameServer.{NameServer, FileMetadata, AccessType}
use docs_plus_plus.NameServer.Access.{grant, revoke, store_metadata}

-- The name, the owner and the access list are the same.
pub record SameRights (m m' : FileMetadata) : Type 0 where
  pub filename : m'.filename ≡ m.filename
  pub owner : m'.owner ≡ m.owner
  pub acl : m'.acl ≡ m.acl

pub same_rights : (m : FileMetadata) → SameRights m m
same_rights m = record { filename = refl; owner = refl; acl = refl }

-- What a request of `sender` may do to the metadata under the name `q`: leave the rights as they
-- are, make a file of the sender, or, in a file of the sender, change an entry of the list or
-- delete it.
pub data Change (sender q : Text) : Option FileMetadata → Option FileMetadata → Type 0 where
  absent : Change sender q none none
  kept : {m m' : FileMetadata} → SameRights m m' → Change sender q (some m) (some m')
  created :
      {m' : FileMetadata}
      → m'.filename ≡ q
      → m'.owner ≡ sender
      → m'.acl ≡ []
      → Change sender q none (some m')
  granted :
      (u : Text) (access : AccessType) {m m' : FileMetadata}
      → text_eq m.owner sender ≡ true
      → SameRights (record m { acl = grant m.acl u access }) m'
      → Change sender q (some m) (some m')
  revoked :
      (u : Text) {m m' : FileMetadata}
      → text_eq m.owner sender ≡ true
      → SameRights (record m { acl = revoke m.acl u }) m'
      → Change sender q (some m) (some m')
  deleted : {m : FileMetadata} → text_eq m.owner sender ≡ true → Change sender q (some m) none

pub Change-kept : {sender q : Text} (o : Option FileMetadata) → Change sender q o o
Change-kept none = absent
Change-kept (some m) = kept (same_rights m)

-- What may happen to the metadata under a name.
abbrev pub Policy : Type 1
Policy = Text → Option FileMetadata → Option FileMetadata → Type 0

-- A step of the trie under a policy.
pub record StepsBy (R : Policy) (t t' : Trie FileMetadata) : Type 0 where
  pub allocated : IsAllocated t'
  pub changes : (q : Text) → R q (trie_search t q) (trie_search t' q)

-- A step of a request of `sender`.
abbrev pub Steps : Text → Trie FileMetadata → Trie FileMetadata → Type 0
Steps sender = StepsBy (Change sender)

pub no_step : {sender : Text} (t : Trie FileMetadata) → IsAllocated t → Steps sender t t
no_step t allocated = record { allocated = allocated; changes = λ q. Change-kept (trie_search t q) }

module _ (R : Policy) (same : (q : Text) (o : Option FileMetadata) → R q o o)
    (t : Trie FileMetadata) (root : IsAllocated t) where
  -- A step that changes one name.
  change_at :
      (t' : Trie FileMetadata) (b : Bool) (file : Text) (o' : Option FileMetadata) (q : Text)
      → trie_search t' q ≡ (if b && text_eq file q then o' else trie_search t q)
      → R file (trie_search t file) o'
      → R q (trie_search t q) (trie_search t' q)
  change_at t' b file o' q e change = elim (Bool-cases (b && text_eq file q)) [
    | inr other ↦ rw (e, other) (same q (trie_search t q))
    | inl it ↦
        let here : file ≡ q = (text_eq_iff file q).0 (and_parts {a = b} it).1 in
        rw (e, it) (subst (λ x. R x (trie_search t x) o') here change)
  ]

  pub update-StepsBy :
      (file : Text) (old m : FileMetadata)
      → trie_search t file ≡ some old
      → R file (some old) (some m)
      → StepsBy R t (trie_update t file m).0
  unfolding trie_update trie_search
  update-StepsBy file old m here change = record {
    allocated = update_walk-allocated t.root file m ∙ root;
    changes = λ q.
        change_at (trie_update t file m).0 (is_some (trie_search t file)) file (some m) q
          (search-update_walk t.root file q m) (subst (λ o. R file o (some m)) (sym here) change);
  }

  pub insert-StepsBy :
      (file : Text) (m : FileMetadata)
      → R file (trie_search t file) (some m)
      → StepsBy R t (trie_insert t file m).0
  unfolding trie_insert trie_search
  insert-StepsBy file m change = record {
    allocated = insert_walk-allocated t.root file m root;
    changes = λ q.
        change_at (trie_insert t file m).0 (is_ascii file) file (some m) q
          (search-insert_walk t.root file q m root) change;
  }

  pub delete-StepsBy :
      (file : Text) → R file (trie_search t file) none → StepsBy R t (trie_delete t file).0
  unfolding trie_delete trie_search
  delete-StepsBy file change = record {
    allocated = delete_helper-allocated t.root file ∙ root;
    changes = λ q.
        change_at (trie_delete t file).0 (is_ascii file) file none q
          (search-delete_helper t.root file q) change;
  }

  -- A stored record is an update of the trie.
  pub store_metadata-StepsBy :
      (fuel : ℕ) (nm : NameServer) (file : Text) (old m : FileMetadata)
      → nm.file_trie ≡ t
      → trie_search t file ≡ some old
      → R file (some old) (some m)
      → (nm' : NameServer) → store_metadata fuel nm file m ≡ some nm'
      → StepsBy R t nm'.file_trie
  unfolding store_metadata
  store_metadata-StepsBy fuel nm file old m trie here change nm' e =
      elim (Option-cases (cache_put fuel nm.cache file m)) [
        | inl stuck ↦ absurd (none≢some (rw (stuck, store_metadata) at e))
        | inr (cache, put) ↦
            subst (λ (x : NameServer). StepsBy R t x.file_trie)
              (some-injective (rw (put, store_metadata) at e))
              (subst (λ x. StepsBy R t (trie_update x file m).0) (sym trie)
                (update-StepsBy file old m here change))
      ]

module _ (sender : Text) where
  pub insert-Steps :
      (t : Trie FileMetadata)
      → IsAllocated t
      → (file : Text) (m : FileMetadata) → Change sender file (trie_search t file) (some m)
      → Steps sender t (trie_insert t file m).0
  insert-Steps = insert-StepsBy (Change sender) (λ q o. Change-kept o)

  pub delete-Steps :
      (t : Trie FileMetadata)
      → IsAllocated t
      → (file : Text) → Change sender file (trie_search t file) none
      → Steps sender t (trie_delete t file).0
  delete-Steps = delete-StepsBy (Change sender) (λ q o. Change-kept o)

  pub store_metadata-Steps :
      (fuel : ℕ) (nm : NameServer) (file : Text) (old m : FileMetadata)
      → IsAllocated nm.file_trie
      → trie_search nm.file_trie file ≡ some old
      → Change sender file (some old) (some m)
      → (nm' : NameServer) → store_metadata fuel nm file m ≡ some nm'
      → Steps sender nm.file_trie nm'.file_trie
  store_metadata-Steps fuel nm file old m root =
      store_metadata-StepsBy (Change sender) (λ q o. Change-kept o) nm.file_trie root fuel nm file
        old m refl
