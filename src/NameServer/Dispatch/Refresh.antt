-- ===== src/NameServer/Dispatch/Refresh.antt =====
-- nm.c: `handle_view` stores refreshed metadata, and keeps to the policy.
use docs_plus_plus.Base.{
  ℕ, ◌≡◌, refl, sym, ap, subst, ◌∙◌, inl, inr, Bool, Option, none, some, List, [], ◌∷◌, Text,
  Bool-cases, Option-cases, some-injective, none≢some,
}
use mathlib.Core.List.{Memᴰ}
use mathlib.Core.List.Memᴰ.{head, tail}
use docs_plus_plus.Codes.{max_files}
use docs_plus_plus.Trie.{Trie, trie_search, trie_get_all_files}
use docs_plus_plus.Trie.Refinement.{IsAllocated}
use docs_plus_plus.Trie.Contents.{listed_found}
use docs_plus_plus.NameServer.{NameServer, FileMetadata, StorageServerInfo}
use docs_plus_plus.NameServer.Access.{store_metadata}
use docs_plus_plus.NameServer.Servers.{active_ss}
use docs_plus_plus.NameServer.Views.{
  FileInfo, with_info, refresh_file, keep_file, refresh_files, show_files, parse_flags, handle_view,
}
use docs_plus_plus.NameServer.Dispatch.Rights.{
  SameRights, same_rights, Change, absent, kept, StepsBy, store_metadata-StepsBy,
}
use docs_plus_plus.NameServer.Dispatch.Handlers.{Keeps}

-- A file is stored under its own name with the rights of a record.
record Holds (t : Trie FileMetadata) (m : FileMetadata) : Type 0 where
  stored : FileMetadata
  found : trie_search t m.filename ≡ some stored
  rights : SameRights stored m

abbrev AllHold : Trie FileMetadata → List FileMetadata → Type 0
AllHold t [] = Unit {0}
AllHold t (m ∷ ms) = Holds t m × AllHold t ms

AllHold-Mem :
    (t : Trie FileMetadata) (ms : List FileMetadata)
    → ((m : FileMetadata) → Memᴰ m ms → Holds t m)
    → AllHold t ms
AllHold-Mem t [] h = tt
AllHold-Mem t (m ∷ ms) h = (h m (head refl), AllHold-Mem t ms (λ k i. h k (tail i)))

-- The rights of a file are left alone, and no file is made or removed.
data Alike (q : Text) : Option FileMetadata → Option FileMetadata → Type 0 where
  both_absent : Alike q none none
  alike : {m m' : FileMetadata} → SameRights m m' → Alike q (some m) (some m')

Alike-refl : (q : Text) (o : Option FileMetadata) → Alike q o o
Alike-refl q none = both_absent
Alike-refl q (some m) = alike (same_rights m)

Alike-trans : {q : Text} {a b c : Option FileMetadata} → Alike q a b → Alike q b c → Alike q a c
Alike-trans both_absent both_absent = both_absent
Alike-trans (alike r) (alike r') = alike (record {
  filename = r'.filename ∙ r.filename;
  owner = r'.owner ∙ r.owner;
  acl = r'.acl ∙ r.acl;
})

Alike-Change : {sender q : Text} {a b : Option FileMetadata} → Alike q a b → Change sender q a b
Alike-Change both_absent = absent
Alike-Change (alike r) = kept r

-- What is found after it, where a file was found before.
Alike-found :
    {q : Text} {o o' : Option FileMetadata} {stored m : FileMetadata}
    → Alike q o o'
    → o ≡ some stored
    → SameRights stored m
    → (stored' : FileMetadata) × (o' ≡ some stored') × SameRights stored' m
Alike-found both_absent e r = absurd (none≢some e)
Alike-found {stored} {m} (alike {m = old} {m' = new} kept_rights) e r =
    let same : old ≡ stored = some-injective e in
    (
      new,
      refl,
      record {
        filename = r.filename ∙ ap (λ x. x.filename) (sym same) ∙ sym kept_rights.filename;
        owner = r.owner ∙ ap (λ x. x.owner) (sym same) ∙ sym kept_rights.owner;
        acl = r.acl ∙ ap (λ x. x.acl) (sym same) ∙ sym kept_rights.acl;
      },
    )

Holds-StepsBy :
    {t t' : Trie FileMetadata} (m : FileMetadata) → StepsBy Alike t t' → Holds t m → Holds t' m
Holds-StepsBy m step h =
    let (stored, found, rights) = Alike-found (step.changes m.filename) h.found h.rights in
    record { stored = stored; found = found; rights = rights }

AllHold-StepsBy :
    {t t' : Trie FileMetadata} (ms : List FileMetadata)
    → StepsBy Alike t t'
    → AllHold t ms
    → AllHold t' ms
AllHold-StepsBy [] step h = tt
AllHold-StepsBy (m ∷ ms) step h = (Holds-StepsBy m step h.0, AllHold-StepsBy ms step h.1)

StepsBy-trans :
    {t u v : Trie FileMetadata} → StepsBy Alike t u → StepsBy Alike u v → StepsBy Alike t v
StepsBy-trans s s' = record {
  allocated = s'.allocated;
  changes = λ q. Alike-trans (s.changes q) (s'.changes q);
}

abbrev Quiet : Trie FileMetadata → {A : Type 0} → Option (NameServer × A) → Type 0
Quiet t none = Unit {0}
Quiet t (some (nm', x)) = StepsBy Alike t nm'.file_trie

quiet : (t : Trie FileMetadata) → IsAllocated t → StepsBy Alike t t
quiet t root = record { allocated = root; changes = λ q. Alike-refl q (trie_search t q) }

refresh_file-Quiet :
    (fuel : ℕ) (nm : NameServer) (m : FileMetadata) (ss : Option StorageServerInfo)
    (reply : Option FileInfo)
    → IsAllocated nm.file_trie
    → Holds nm.file_trie m
    → Quiet nm.file_trie (refresh_file fuel nm m ss reply)
unfolding refresh_file with_info
refresh_file-Quiet fuel nm m none reply root h = quiet nm.file_trie root
refresh_file-Quiet fuel nm m (some ss) none root h = quiet nm.file_trie root
refresh_file-Quiet fuel nm m (some ss) (some info) root h =
    elim (Option-cases (store_metadata fuel nm m.filename (with_info m info))) [
      | inl stuck ↦ rw (stuck, refresh_file) tt
      | inr (nm', e) ↦
          rw (e, refresh_file)
            (store_metadata-StepsBy Alike Alike-refl nm.file_trie root fuel nm m.filename h.stored
              (with_info m info) refl h.found
              (alike (record {
                filename = h.rights.filename;
                owner = h.rights.owner;
                acl = h.rights.acl;
              }))
              nm' e)
    ]

keep_file-Quiet :
    (t : Trie FileMetadata) (m : FileMetadata) (r : Option (NameServer × List FileMetadata))
    → Quiet t r
    → Quiet t (keep_file m r)
unfolding keep_file
keep_file-Quiet t m none s = tt
keep_file-Quiet t m (some (nm, files)) s = s

later :
    (t u : Trie FileMetadata) (r : Option (NameServer × List FileMetadata))
    → StepsBy Alike t u
    → Quiet u r
    → Quiet t r
later t u none s s' = tt
later t u (some (nm, files)) s s' = StepsBy-trans s s'

refresh_files-Quiet :
    (fuel : ℕ) (reply : ℕ → Text → Option FileInfo) (nm : NameServer) (ms : List FileMetadata)
    → IsAllocated nm.file_trie
    → AllHold nm.file_trie ms
    → Quiet nm.file_trie (refresh_files fuel reply nm ms)
unfolding refresh_files
refresh_files-Quiet fuel reply nm [] root h = quiet nm.file_trie root
refresh_files-Quiet fuel reply nm (m ∷ ms) root h =
    let ss = active_ss m.ss_id nm.ss_list in
    let info = reply m.ss_id m.filename in
    let first = refresh_file-Quiet fuel nm m ss info root h.0 in
    elim (Option-cases (refresh_file fuel nm m ss info)) [
      | inl stuck ↦ rw (stuck, refresh_files) tt
      | inr ((nm', m'), e) ↦
          let step : StepsBy Alike nm.file_trie nm'.file_trie =
            subst (λ (r : Option (NameServer × FileMetadata)). Quiet nm.file_trie r) e first in
          rw (e, refresh_files)
            (keep_file-Quiet nm.file_trie m' (refresh_files fuel reply nm' ms) (
              later nm.file_trie nm'.file_trie (refresh_files fuel reply nm' ms) step (
                refresh_files-Quiet fuel reply nm' ms step.allocated
                  (AllHold-StepsBy ms step h.1))))
    ]

-- Every file is stored under its own name.
abbrev pub IsNamed : Trie FileMetadata → Type 0
IsNamed t = (q : Text) (m : FileMetadata) → trie_search t q ≡ some m → m.filename ≡ q

listed-Holds : (t : Trie FileMetadata) → IsNamed t → AllHold t (trie_get_all_files t max_files)
listed-Holds t named = AllHold-Mem t (trie_get_all_files t max_files) (λ m listed.
    let (key, found) = listed_found t max_files m listed in
    record {
      stored = m;
      found = ap (trie_search t) (named key m found) ∙ found;
      rights = same_rights m;
    })

show_files-Keeps :
    (sender : Text) (show_all : Bool) (t : Trie FileMetadata)
    (r : Option (NameServer × List FileMetadata))
    → Quiet t r
    → Keeps sender t (show_files sender show_all r)
unfolding show_files
show_files-Keeps sender show_all t none s = tt
show_files-Keeps sender show_all t (some (nm, files)) s = record {
  allocated = s.allocated;
  changes = λ q. Alike-Change (s.changes q);
}

pub handle_view-Keeps :
    (fuel : ℕ) (reply : ℕ → Text → Option FileInfo) (nm : NameServer) (flags sender : Text)
    → IsAllocated nm.file_trie
    → IsNamed nm.file_trie
    → Keeps sender nm.file_trie (handle_view fuel reply nm flags sender)
unfolding handle_view
handle_view-Keeps fuel reply nm flags sender root named =
    let f = parse_flags flags in
    let files = trie_get_all_files nm.file_trie max_files in
    elim (Bool-cases f.show_details) [
      | inl details ↦ rw details (
          show_files-Keeps sender f.show_all nm.file_trie (refresh_files fuel reply nm files)
            (refresh_files-Quiet fuel reply nm files root (listed-Holds nm.file_trie named)))
      | inr plain ↦ rw plain (
          show_files-Keeps sender f.show_all nm.file_trie (some (nm, files))
            (quiet nm.file_trie root))
    ]
