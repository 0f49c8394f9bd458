-- ===== src/NameServer/Access/Room.antt =====
-- nm.c: the length of an access list after `grant` and `revoke`.
use docs_plus_plus.Base.{
  suc, ◌≤◌, ◌≡◌, sym, ap, ◌∙◌, inl, inr, some, List, [], ◌∷◌, Text, text_eq, ltb, length,
  length-append, Bool-cases, Option-cases, some-injective, none≢some, arith,
}
use docs_plus_plus.Codes.{max_acl_entries}
use docs_plus_plus.NameServer.{AclEntry, AccessType}
use docs_plus_plus.NameServer.Access.{change_access, grant, revoke}

length-change_access :
    (acl acl' : List AclEntry) (u : Text) (a : AccessType)
    → change_access acl u a ≡ some acl'
    → length acl' ≡ length acl
unfolding change_access
length-change_access [] acl' u a h = cc
length-change_access (e ∷ es) acl' u a h = elim (Bool-cases (text_eq e.username u)) [
  | inl here ↦ ap length (sym (some-injective (rw here at h)))
  | inr apart ↦ elim (Option-cases (change_access es u a)) [
    | inl is_none ↦ absurd (none≢some (rw (apart, is_none) at h))
    | inr (es', is_some) ↦
        ap length (sym (some-injective (rw (apart, is_some) at h)))
        ∙ ap suc (length-change_access es es' u a is_some)
  ]
]

pub length-grant :
    (acl : List AclEntry) (u : Text) (a : AccessType)
    → length acl ≤ max_acl_entries
    → length (grant acl u a) ≤ max_acl_entries
unfolding grant
length-grant acl u a h = elim (Option-cases (change_access acl u a)) [
  | inr (acl', is_some) ↦
      rw (is_some, grant) (omega (arith, length-change_access acl acl' u a is_some))
  | inl is_none ↦ elim (Bool-cases (ltb (length acl) max_acl_entries)) [
    | inr full ↦ rw (is_none, grant, full) h
    | inl room ↦
        rw (is_none, grant, room, length-append acl (record { username = u; access = a } ∷ []))
          (ground arith)
  ]
]

pub length-revoke : (acl : List AclEntry) (u : Text) → length (revoke acl u) ≤ length acl
unfolding revoke
length-revoke [] u = omega arith
length-revoke (e ∷ es) u = elim (Bool-cases (text_eq e.username u)) [
  | inl here ↦ rw here (omega arith)
  | inr apart ↦ rw apart (omega (arith, length-revoke es u))
]
