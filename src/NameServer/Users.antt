-- ===== src/NameServer/Users.antt =====
-- nm.c: the registered users and their sessions.
use docs_plus_plus.Base.{
  ℕ, ◌*◌, ◌≡◌, refl, subst, inl, inr, ◌⊎◌, Bool, true, false, ◌&&◌, Option, none, some, List, [],
  ◌∷◌, ◌++◌, Text, text_eq, own_name, other_name, if_same, ltb, ◌==◌, if◌then◌else◌, length,
  Bool-cases, Option-cases,
}
use docs_plus_plus.Codes.{max_clients}
use docs_plus_plus.NameServer.{RegisteredUser}

abbrev pub max_users : ℕ
max_users = max_clients * 10

-- The loop of `register_user_persistent`: the users and `*is_duplicate`, if the name is known.
unfoldable pub reconnect : ℕ → List RegisteredUser → Text → ℕ → Option (List RegisteredUser × Bool)
reconnect now [] username client_sock = none
reconnect now (u ∷ us) username client_sock =
    let rest = reconnect now us username client_sock in
    if text_eq u.username username
    then (if u.active_session
        then some (u ∷ us, true)
        else some (
          record u { last_seen = now; active_session = true; client_sock = some client_sock } ∷ us,
          false,
        ))
    else elim rest [ none ↦ none | some (us', dup) ↦ some (u ∷ us', dup) ]

unfoldable pub register_user_persistent :
    ℕ → List RegisteredUser → Text → ℕ → List RegisteredUser × Bool
unfolding reconnect
register_user_persistent now us username client_sock =
    let new : RegisteredUser = record {
      username = username;
      first_registered = now;
      last_seen = now;
      active_session = true;
      client_sock = some client_sock;
    } in
    elim (reconnect now us username client_sock) [
      | none ↦ if ltb (length us) max_users then (us ++ new ∷ [], false) else (us, true)
      | some r ↦ r
    ]

abbrev pub is_sock : Option ℕ → ℕ → Bool
is_sock none sock = false
is_sock (some s) sock = s == sock

unfoldable pub deregister_active_session : ℕ → List RegisteredUser → Text → ℕ → List RegisteredUser
deregister_active_session now [] username client_sock = []
deregister_active_session now (u ∷ us) username client_sock =
    if text_eq u.username username
    then (if is_sock u.client_sock client_sock
        then record u { active_session = false; client_sock = none; last_seen = now } ∷ us
        else u ∷ us)
    else u ∷ deregister_active_session now us username client_sock

unfoldable pub user_exists : List RegisteredUser → Text → Bool
user_exists [] username = false
user_exists (u ∷ us) username =
    if text_eq u.username username then true else user_exists us username

-- The socket on which a user is logged in.
unfoldable pub session : List RegisteredUser → Text → Option ℕ
session [] name = none
session (u ∷ us) name =
    if text_eq u.username name
    then (if u.active_session then u.client_sock else none)
    else session us name

-- What a registration that returned `(us', dup)` makes of every user's session.
abbrev pub Registered : List RegisteredUser → Text → ℕ → List RegisteredUser × Bool → Text → Type 0
Registered us name sock (us', dup) other =
    session us' other
    ≡ (if dup then session us other else if text_eq name other then some sock else session us other)

abbrev Reconnected :
    List RegisteredUser → Text → ℕ → Option (List RegisteredUser × Bool) → Text → Type 0
Reconnected us name sock none other = user_exists us name ≡ false
Reconnected us name sock (some r) other = Registered us name sock r other

reconnected_later :
    (u : RegisteredUser) (us : List RegisteredUser) (name : Text) (sock : ℕ)
    (us' : List RegisteredUser) (dup : Bool) (other : Text)
    → text_eq u.username name ≡ false
    → Registered us name sock (us', dup) other
    → Registered (u ∷ us) name sock (u ∷ us', dup) other
unfolding session
reconnected_later u us name sock us' dup other apart rest =
    elim (Bool-cases (text_eq u.username other)) [
      | inl here ↦
          let e : text_eq name other ≡ false = other_name u.username name other apart here in
          rw (here, e) (if_same dup _)
      | inr there ↦ rw (there) rest
    ]

reconnect-session :
    (now : ℕ) (us : List RegisteredUser) (name : Text) (sock : ℕ) (other : Text)
    → Reconnected us name sock (reconnect now us name sock) other
unfolding reconnect session user_exists
reconnect-session now [] name sock other = refl
reconnect-session now (u ∷ us) name sock other = elim (Bool-cases (text_eq u.username name)) [
  | inl here ↦ elim (Bool-cases u.active_session) [
    | inl active ↦ rw (here, active) refl
    | inr idle ↦
        rw (here, idle, own_name u.username name here other)
          (split (Bool-cases (text_eq name other)))
  ]
  | inr apart ↦ elim (Option-cases (reconnect now us name sock)) [
    | inl e ↦
        let rest : Reconnected us name sock none other =
          subst (λ r. Reconnected us name sock r other) e
            (reconnect-session now us name sock other) in
        rw (apart, e, apart) rest
    | inr ((us', dup), e) ↦
        let rest : Reconnected us name sock (some (us', dup)) other =
          subst (λ r. Reconnected us name sock r other) e
            (reconnect-session now us name sock other) in
        rw (apart, e) (reconnected_later u us name sock us' dup other apart rest)
  ]
]
  where
    split :
        (text_eq name other ≡ true) ⊎ (text_eq name other ≡ false)
        → (if text_eq name other then some sock else session us other) ≡ (
            if text_eq name other
            then some sock
            else if text_eq name other
            then none
            else session us other)
    split (inl e) = rw e refl
    split (inr e) = rw e refl

session-append :
    (us : List RegisteredUser) (u : RegisteredUser) (other : Text)
    → user_exists us u.username ≡ false
    → session (us ++ u ∷ []) other ≡ (
        if text_eq u.username other
        then if u.active_session then u.client_sock else none
        else session us other)
unfolding session user_exists
session-append [] u other e = refl
session-append (v ∷ us) u other e = elim (Bool-cases (text_eq v.username u.username)) [
  | inl same ↦ absurd (known (rw same at e))
  | inr apart ↦ elim (Bool-cases (text_eq v.username other)) [
    | inl here ↦ rw (here, other_name v.username u.username other apart here) refl
    | inr there ↦ rw there (session-append us u other (rw apart at e))
  ]
]
  where
    known : true ≡ false → ⊥
    known e = cc

register_user_persistent-session :
    (now : ℕ) (us : List RegisteredUser) (name : Text) (sock : ℕ) (other : Text)
    → Registered us name sock (register_user_persistent now us name sock) other
unfolding register_user_persistent
register_user_persistent-session now us name sock other =
    elim (Option-cases (reconnect now us name sock)) [
      | inl e ↦
          let new : user_exists us name ≡ false =
            subst (λ r. Reconnected us name sock r other) e
              (reconnect-session now us name sock other) in
          elim (Bool-cases (ltb (length us) max_users)) [
            | inl room ↦ rw (e, register_user_persistent, room) (session-append us _ other new)
            | inr full ↦ rw (e, register_user_persistent, full) refl
          ]
      | inr (r, e) ↦
          rw (e, register_user_persistent)
            (subst (λ r. Reconnected us name sock r other) e
              (reconnect-session now us name sock other))
    ]

pub deregister_active_session-session :
    (now : ℕ) (us : List RegisteredUser) (name : Text) (sock : ℕ) (other : Text)
    → session (deregister_active_session now us name sock) other
      ≡ (if text_eq name other && is_sock (session us other) sock then none else session us other)
unfolding session deregister_active_session
deregister_active_session-session now [] name sock other =
    if_same (text_eq name other && false) none
deregister_active_session-session now (u ∷ us) name sock other =
    elim (Bool-cases (text_eq u.username name)) [
      | inl here ↦
          let name_of = own_name u.username name here other in
          elim (Bool-cases (text_eq name other)) [
            | inr there ↦ elim (Bool-cases (is_sock u.client_sock sock)) [
              | inl owns ↦ rw (here, owns, name_of, there) refl
              | inr differs ↦ rw (here, differs, name_of, there) refl
            ]
            | inl it ↦ elim (Bool-cases (is_sock u.client_sock sock)) [
              | inl owns ↦ elim (Bool-cases u.active_session) [
                | inl active ↦ rw (here, owns, name_of, it, active, owns) refl
                | inr idle ↦ rw (here, owns, name_of, it, idle) refl
              ]
              | inr differs ↦ elim (Bool-cases u.active_session) [
                | inl active ↦ rw (here, differs, name_of, it, active, differs) refl
                | inr idle ↦ rw (here, differs, name_of, it, idle) refl
              ]
            ]
          ]
      | inr apart ↦ elim (Bool-cases (text_eq u.username other)) [
        | inl there ↦ rw (apart, there, other_name u.username name other apart there) refl
        | inr away ↦ rw (apart, away) (deregister_active_session-session now us name sock other)
      ]
    ]

-- A registration that is refused leaves every session as it was; one that is not gives the user
-- the new socket, and leaves every other user's session as it was. A session ends when its own
-- socket says so, and no other one does.
pub session_changes :
    (now : ℕ) (us : List RegisteredUser) (name : Text) (sock : ℕ) (other : Text)
    → Registered us name sock (register_user_persistent now us name sock) other
      × (session (deregister_active_session now us name sock) other ≡ (
          if text_eq name other && is_sock (session us other) sock then none else session us other))
session_changes now us name sock other = (
  register_user_persistent-session now us name sock other,
  deregister_active_session-session now us name sock other,
)
