-- ===== src/NameServer/Access/Entries.antt =====
-- nm.c: the access list after `grant` and `revoke`.
use docs_plus_plus.Base.{
  ◌<◌, ◌≡◌, refl, sym, subst, ◌∙◌, inl, inr, ◌⊎◌, true, false, Option, none, some, List, [], ◌∷◌,
  ◌++◌, Text, text_eq, text_eq_refl, text_eq_iff, own_name, other_name, if_same, ltb, lt→ltb,
  if◌then◌else◌, length, Bool-cases, Option-cases,
}
use docs_plus_plus.Codes.{max_acl_entries}
use docs_plus_plus.NameServer.{AclEntry, AccessType}
use docs_plus_plus.NameServer.Access.{
  AccessChange, add_access, rem_access, acl_access, change_access, grant, revoke,
}

-- Each user has at most one entry.
pub data IsUnique : List AclEntry → Type 0 where
  unique_nil : IsUnique []
  unique_cons :
      (e : AclEntry) (es : List AclEntry)
      → acl_access es e.username ≡ none
      → IsUnique es
      → IsUnique (e ∷ es)

-- What a change of the list must do.
abbrev Changed : List AclEntry → Text → AccessType → Option (List AclEntry) → Text → Type 0
Changed acl u a none v = acl_access acl u ≡ none
Changed acl u a (some acl') v =
    acl_access acl' v ≡ (if text_eq u v then some a else acl_access acl v)

Changed-later :
    (e : AclEntry) (es es' : List AclEntry) (u : Text) (a : AccessType) (v : Text)
    → text_eq e.username u ≡ false
    → Changed es u a (some es') v
    → Changed (e ∷ es) u a (some (e ∷ es')) v
unfolding acl_access
Changed-later e es es' u a v apart rest = elim (Bool-cases (text_eq e.username v)) [
  | inl here ↦ rw (here, other_name e.username u v apart here) refl
  | inr there ↦ rw there rest
]

acl_access-change_access :
    (acl : List AclEntry) (u : Text) (a : AccessType) (v : Text)
    → Changed acl u a (change_access acl u a) v
unfolding acl_access change_access
acl_access-change_access [] u a v = refl
acl_access-change_access (e ∷ es) u a v = elim (Bool-cases (text_eq e.username u)) [
  | inl here ↦ rw (here, own_name e.username u here v) (split (Bool-cases (text_eq u v)))
  | inr apart ↦ elim (Option-cases (change_access es u a)) [
    | inl is_none ↦
        let rest : Changed es u a none v =
          subst (λ r. Changed es u a r v) is_none (acl_access-change_access es u a v) in
        rw (apart, is_none, apart) rest
    | inr (es', is_some) ↦
        let rest : Changed es u a (some es') v =
          subst (λ r. Changed es u a r v) is_some (acl_access-change_access es u a v) in
        rw (apart, is_some) (Changed-later e es es' u a v apart rest)
  ]
]
  where
    split :
        (text_eq u v ≡ true) ⊎ (text_eq u v ≡ false)
        → (if text_eq u v then some a else acl_access es v)
          ≡ (if text_eq u v then some a else if text_eq u v then some e.access else acl_access es v)
    split (inl e) = rw e refl
    split (inr e) = rw e refl

some_inj {ℓ} : {A : Type ℓ} {a b : A} → some a ≡ some b → a ≡ b
some_inj e = cc

none≢some {ℓ} : {A : Type ℓ} {a : A} → some a ≡ none → ⊥
none≢some e = cc

acl_access-append :
    (es : List AclEntry) (e : AclEntry) (v : Text)
    → acl_access es e.username ≡ none
    → acl_access (es ++ e ∷ []) v
      ≡ (if text_eq e.username v then some e.access else acl_access es v)
unfolding acl_access
acl_access-append [] e v h = refl
acl_access-append (d ∷ es) e v h = elim (Bool-cases (text_eq d.username e.username)) [
  | inl same ↦ absurd (none≢some (rw same at h))
  | inr apart ↦ elim (Bool-cases (text_eq d.username v)) [
    | inl here ↦ rw (here, other_name d.username e.username v apart here) refl
    | inr there ↦ rw there (acl_access-append es e v (rw apart at h))
  ]
]

-- Below the limit, a grant gives the user the access and leaves every other user's as it was.
pub acl_access-grant :
    (acl : List AclEntry) (u : Text) (a : AccessType) (v : Text)
    → length acl < max_acl_entries
    → acl_access (grant acl u a) v ≡ (if text_eq u v then some a else acl_access acl v)
unfolding grant
acl_access-grant acl u a v room = elim (Option-cases (change_access acl u a)) [
  | inl is_none ↦
      let new : Changed acl u a none v =
        subst (λ r. Changed acl u a r v) is_none (acl_access-change_access acl u a v) in
      rw (is_none, grant, lt→ltb (length acl) max_acl_entries room) (acl_access-append acl _ v new)
  | inr (acl', is_some) ↦
      let done : Changed acl u a (some acl') v =
        subst (λ r. Changed acl u a r v) is_some (acl_access-change_access acl u a v) in
      rw (is_some, grant) done
]

named : (a b c : Text) → text_eq a b ≡ true → text_eq b c ≡ true → a ≡ c
named a b c h h' = (text_eq_iff a b).0 h ∙ (text_eq_iff b c).0 h'

-- Where each user has one entry, a revocation removes the user's access and no other one.
pub acl_access-revoke :
    (acl : List AclEntry) (u v : Text)
    → IsUnique acl
    → acl_access (revoke acl u) v ≡ (if text_eq u v then none else acl_access acl v)
unfolding revoke acl_access
acl_access-revoke [] u v unique_nil = if_same (text_eq u v) none
acl_access-revoke (e ∷ es) u v (unique_cons _ _ fresh rest) =
    elim (Bool-cases (text_eq e.username u)) [
      | inl here ↦ elim (Bool-cases (text_eq u v)) [
        | inl it ↦
            rw (here, it) (subst (λ w. acl_access es w ≡ none) (named e.username u v here it) fresh)
        | inr other ↦ rw (here, own_name e.username u here v, other) refl
      ]
      | inr apart ↦ elim (Bool-cases (text_eq e.username v)) [
        | inl it ↦ rw (apart, it, other_name e.username u v apart it) refl
        | inr away ↦ rw (apart, away) (acl_access-revoke es u v rest)
      ]
    ]

change_access-IsUnique :
    (acl acl' : List AclEntry) (u : Text) (a : AccessType)
    → change_access acl u a ≡ some acl'
    → IsUnique acl
    → IsUnique acl'
unfolding change_access
change_access-IsUnique [] acl' u a h unique = cc
change_access-IsUnique (e ∷ es) acl' u a h (unique_cons _ _ fresh rest) =
    elim (Bool-cases (text_eq e.username u)) [
      | inl here ↦ subst IsUnique (some_inj (rw here at h)) (unique_cons _ es fresh rest)
      | inr apart ↦ elim (Option-cases (change_access es u a)) [
        | inl is_none ↦ absurd (none≢some (sym (rw (apart, is_none) at h)))
        | inr (es', is_some) ↦
            let kept : acl_access es' e.username ≡ none =
              (subst (λ r. Changed es u a r e.username) is_some
                  (acl_access-change_access es u a e.username)
                ∙ rw (other_name e.username u e.username apart (text_eq_refl e.username)) fresh) in
            subst IsUnique (some_inj (rw (apart, is_some) at h))
              (unique_cons e es' kept (change_access-IsUnique es es' u a is_some rest))
      ]
    ]

append-IsUnique :
    (es : List AclEntry) (e : AclEntry)
    → acl_access es e.username ≡ none
    → IsUnique es
    → IsUnique (es ++ e ∷ [])
unfolding acl_access
append-IsUnique [] e new unique_nil = unique_cons e [] refl unique_nil
append-IsUnique (d ∷ es) e new (unique_cons _ _ fresh rest) =
    elim (Bool-cases (text_eq d.username e.username)) [
      | inl same ↦ absurd (none≢some (rw same at new))
      | inr apart ↦
          unique_cons d (es ++ e ∷ [])
            (acl_access-append es e d.username (rw apart at new)
              ∙ rw (other_name d.username e.username d.username apart (text_eq_refl d.username))
                  fresh)
            (append-IsUnique es e (rw apart at new) rest)
    ]

pub grant-IsUnique :
    (acl : List AclEntry) (u : Text) (a : AccessType) → IsUnique acl → IsUnique (grant acl u a)
unfolding grant
grant-IsUnique acl u a unique = elim (Option-cases (change_access acl u a)) [
  | inl is_none ↦
      let new : Changed acl u a none u =
        subst (λ r. Changed acl u a r u) is_none (acl_access-change_access acl u a u) in
      elim (Bool-cases (ltb (length acl) max_acl_entries)) [
        | inl room ↦ rw (is_none, grant, room) (append-IsUnique acl _ new unique)
        | inr full ↦ rw (is_none, grant, full) unique
      ]
  | inr (acl', is_some) ↦ rw (is_some, grant) (change_access-IsUnique acl acl' u a is_some unique)
]

pub revoke-IsUnique : (acl : List AclEntry) (u : Text) → IsUnique acl → IsUnique (revoke acl u)
unfolding revoke
revoke-IsUnique [] u unique = unique
revoke-IsUnique (e ∷ es) u (unique_cons _ _ fresh rest) = elim (Bool-cases (text_eq e.username u)) [
  | inl here ↦ rw here rest
  | inr apart ↦ rw apart (
      unique_cons e (revoke es u)
        (acl_access-revoke es u e.username rest
          ∙ rw (other_name e.username u e.username apart (text_eq_refl e.username)) fresh)
        (revoke-IsUnique es u rest))
]

-- The changes that the requests for a file make to its list, one after the other.
unfoldable change_entries : List (Text × AccessChange) → List AclEntry → List AclEntry
unfolding grant revoke
change_entries [] acl = acl
change_entries ((u, add_access a) ∷ changes) acl = change_entries changes (grant acl u a)
change_entries ((u, rem_access) ∷ changes) acl = change_entries changes (revoke acl u)

-- However a list is changed by grants and revocations, it keeps one entry for each user.
change_entries-IsUnique :
    (changes : List (Text × AccessChange)) (acl : List AclEntry)
    → IsUnique acl
    → IsUnique (change_entries changes acl)
unfolding change_entries
change_entries-IsUnique [] acl unique = unique
change_entries-IsUnique ((u, add_access a) ∷ changes) acl unique =
    change_entries-IsUnique changes (grant acl u a) (grant-IsUnique acl u a unique)
change_entries-IsUnique ((u, rem_access) ∷ changes) acl unique =
    change_entries-IsUnique changes (revoke acl u) (revoke-IsUnique acl u unique)
