-- ===== src/NameServer/Events/Safety.antt =====
-- nm.c: what holds of the files after any events.
use docs_plus_plus.Base.{
  ◌≤◌, ◌≡◌, refl, sym, ap, subst, ◌∙◌, inl, inr, false, Option, some, List, [], ◌∷◌, Text, text_eq,
  length, Option-cases, some-injective, none≢some, arith,
}
use docs_plus_plus.Codes.{max_acl_entries}
use docs_plus_plus.Trie.{Trie, trie_search}
use docs_plus_plus.Trie.Refinement.{IsAllocated}
use docs_plus_plus.NameServer.{NameServer, FileMetadata, AccessType}
use docs_plus_plus.NameServer.Access.{check_access}
use docs_plus_plus.NameServer.Access.Entries.{IsUnique, unique_nil, grant-IsUnique, revoke-IsUnique}
use docs_plus_plus.NameServer.Access.Room.{length-grant, length-revoke}
use docs_plus_plus.NameServer.Access.Changes.{check_access_lem, clash}
use docs_plus_plus.NameServer.Dispatch.Rights.{
  SameRights, Change, absent, kept, created, granted, revoked, deleted, Steps,
}
use docs_plus_plus.NameServer.Dispatch.Refresh.{IsNamed}
use docs_plus_plus.NameServer.Events.{Event, handle_event, handle_events, actor}
use docs_plus_plus.NameServer.Events.Policy.{handle_event-Steps}

-- What is stored under a name: it has the name, and a list that fits its array with one entry for
-- each user.
pub record IsFile (q : Text) (m : FileMetadata) : Type 0 where
  pub named : m.filename ≡ q
  pub unique : IsUnique m.acl
  pub room : length m.acl ≤ max_acl_entries

-- The trie has its root, and all that it holds is well formed.
pub record HasFiles (t : Trie FileMetadata) : Type 0 where
  pub root : IsAllocated t
  pub files : (q : Text) (m : FileMetadata) → trie_search t q ≡ some m → IsFile q m

SameRights-IsFile : {q : Text} {m m' : FileMetadata} → SameRights m m' → IsFile q m → IsFile q m'
SameRights-IsFile r f = record {
  named = r.filename ∙ f.named;
  unique = subst IsUnique (sym r.acl) f.unique;
  room = subst (λ (acl : List _). length acl ≤ max_acl_entries) (sym r.acl) f.room;
}

Change-IsFile :
    {sender q : Text} {o o' : Option FileMetadata} (m' : FileMetadata)
    → Change sender q o o'
    → ((m : FileMetadata) → o ≡ some m → IsFile q m)
    → o' ≡ some m'
    → IsFile q m'
Change-IsFile m' absent f e = absurd (none≢some e)
Change-IsFile {q} m' (kept {m = old} r) f e =
    subst (IsFile q) (some-injective e) (SameRights-IsFile r (f old refl))
Change-IsFile {q} m' (created name owner acl) f e = subst (IsFile q) (some-injective e) (record {
  named = name;
  unique = subst IsUnique (sym acl) unique_nil;
  room = rw acl (omega arith);
})
Change-IsFile {q} m' (granted u access {m = old} own r) f e =
    let before = f old refl in
    subst (IsFile q) (some-injective e) (
      SameRights-IsFile r (record {
        named = before.named;
        unique = grant-IsUnique old.acl u access before.unique;
        room = length-grant old.acl u access before.room;
      }))
Change-IsFile {q} m' (revoked u {m = old} own r) f e =
    let before = f old refl in
    subst (IsFile q) (some-injective e) (
      SameRights-IsFile r (record {
        named = before.named;
        unique = revoke-IsUnique old.acl u before.unique;
        room = omega (arith, length-revoke old.acl u, before.room);
      }))
Change-IsFile m' (deleted own) f e = absurd (none≢some e)

IsNamed-HasFiles : {t : Trie FileMetadata} → HasFiles t → IsNamed t
IsNamed-HasFiles h q m found = (h.files q m found).named

Steps-HasFiles :
    {sender : Text} {t t' : Trie FileMetadata} → Steps sender t t' → HasFiles t → HasFiles t'
Steps-HasFiles step h = record {
  root = step.allocated;
  files = λ q m found. Change-IsFile m (step.changes q) (h.files q) found;
}

-- Whatever requests, arrivals, departures and steps of storage servers happen, in any order: every
-- file is stored under its own name, its access list has one entry for each user at most, and never
-- more entries than the array has room for. This holds for a trie with its root if it holds in the
-- beginning, and if every loop of the cache ends.
pub handle_events-HasFiles :
    (es : List Event) (nm nm' : NameServer)
    → HasFiles nm.file_trie
    → handle_events es nm ≡ some nm'
    → HasFiles nm'.file_trie
unfolding handle_events
handle_events-HasFiles [] nm nm' h done =
    subst (λ (x : NameServer). HasFiles x.file_trie) (some-injective done) h
handle_events-HasFiles (e ∷ es) nm nm' h done = elim (Option-cases (handle_event e nm)) [
  | inl stuck ↦ absurd (none≢some (rw (stuck, handle_events) at done))
  | inr (nm1, first) ↦
      handle_events-HasFiles es nm1 nm'
        (Steps-HasFiles (handle_event-Steps nm h.root e nm1 (IsNamed-HasFiles h) first) h)
        (rw (first, handle_events) at done)
]

-- No event is the owner's.
abbrev pub WithoutOwner : Text → List Event → Type 0
WithoutOwner owner [] = Unit {0}
WithoutOwner owner (e ∷ es) = (text_eq owner (actor e) ≡ false) × WithoutOwner owner es

Change-by_other :
    {sender q : Text} {o o' : Option FileMetadata} (m : FileMetadata)
    → Change sender q o o'
    → o ≡ some m
    → text_eq m.owner sender ≡ false
    → (m' : FileMetadata) × (o' ≡ some m') × (m'.owner ≡ m.owner) × (m'.acl ≡ m.acl)
Change-by_other m absent e other = absurd (none≢some e)
Change-by_other m (kept {m = old} {m' = new} r) e other =
    let same : old ≡ m = some-injective e in
    (new, refl, r.owner ∙ ap (λ x. x.owner) same, r.acl ∙ ap (λ x. x.acl) same)
Change-by_other m (created name owner acl) e other = absurd (none≢some e)
Change-by_other {sender} m (granted u access own r) e other =
    absurd (clash (sym own ∙ ap (λ x. text_eq x.owner sender) (some-injective e) ∙ other))
Change-by_other {sender} m (revoked u own r) e other =
    absurd (clash (sym own ∙ ap (λ x. text_eq x.owner sender) (some-injective e) ∙ other))
Change-by_other {sender} m (deleted own) e other =
    absurd (clash (sym own ∙ ap (λ x. text_eq x.owner sender) (some-injective e) ∙ other))

same_answer :
    (t t' : Trie FileMetadata) (file : Text) (m m' : FileMetadata) (user : Text)
    (required : AccessType)
    → trie_search t file ≡ some m
    → trie_search t' file ≡ some m'
    → m'.owner ≡ m.owner
    → m'.acl ≡ m.acl
    → check_access t' file user required ≡ check_access t file user required
same_answer t t' file m m' user required here here' owner acl =
    check_access_lem t' file m' user required here'
    ∙ rw (owner, acl) refl
    ∙ sym (check_access_lem t file m user required here)

-- As long as no request names the owner of a file as its sender, the file stays, and nobody gains
-- or loses an access to it, whatever else happens in any order: requests of any kind by others,
-- arrivals and departures of clients, and steps of the storage servers. The files are well formed
-- in the beginning, and every loop of the cache ends. The owner is not the user `system`, in whose
-- name the storage servers register files.
pub handle_events-check_access :
    (es : List Event) (nm nm' : NameServer) (file : Text) (m : FileMetadata)
    → HasFiles nm.file_trie
    → handle_events es nm ≡ some nm'
    → trie_search nm.file_trie file ≡ some m
    → WithoutOwner m.owner es
    → (user : Text) (required : AccessType)
    → check_access nm'.file_trie file user required ≡ check_access nm.file_trie file user required
unfolding handle_events
handle_events-check_access [] nm nm' file m h done here others user required =
    ap (λ (x : NameServer). check_access x.file_trie file user required) (sym (some-injective done))
handle_events-check_access (e ∷ es) nm nm' file m h done here others user required =
    elim (Option-cases (handle_event e nm)) [
      | inl stuck ↦ absurd (none≢some (rw (stuck, handle_events) at done))
      | inr (nm1, first) ↦
          let step = handle_event-Steps nm h.root e nm1 (IsNamed-HasFiles h) first in
          let (m1, here1, owner, acl) = Change-by_other m (step.changes file) here others.0 in
          handle_events-check_access es nm1 nm' file m1 (Steps-HasFiles step h)
            (rw (first, handle_events) at done) here1
            (subst (λ x. WithoutOwner x es) (sym owner) others.1) user required
          ∙ same_answer nm.file_trie nm1.file_trie file m m1 user required here here1 owner acl
    ]
