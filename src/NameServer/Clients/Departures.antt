-- ===== src/NameServer/Clients/Departures.antt =====
-- nm.c: what the end of a client's thread does to the sessions.
use docs_plus_plus.Base.{
  none≢some, ℕ, ◌+◌, ◌<◌, ◌≤◌, ◌≡◌, refl, ◌∙◌, inl, inr, true, false, ◌&&◌, none, some, List, [],
  ◌∷◌, Text, text_eq, ltb, leb, if◌then◌else◌, arith, Bool-cases, Option-cases,
}
use docs_plus_plus.NameServer.{NameServer, RegisteredUser}
use docs_plus_plus.NameServer.Users.{
  session, is_sock, reconnect, register_user_persistent, deregister_active_session-session,
}
use docs_plus_plus.NameServer.Clients.{
  duplicate, login, admit, logout, remove_client, find_client, shift_clients,
}

remove_client-registered_users :
    (nm : NameServer) (sock : ℕ) → (remove_client nm sock).registered_users ≡ nm.registered_users
unfolding remove_client
remove_client-registered_users nm sock =
    elim (Option-cases (find_client nm.client_count 0 nm.client_list sock)) [
      | inl e ↦ rw (e, remove_client) refl
      | inr (i, e) ↦ rw (e, remove_client) refl
    ]

-- A thread that ends closes the session of the name in its slot, if that session is on its socket,
-- and no other session.
pub logout-session :
    (now : ℕ) (nm : NameServer) (idx sock : ℕ) (other : Text)
    → session (logout now nm idx sock).registered_users other ≡ (
        if text_eq (nm.client_list idx).username other
          && is_sock (session nm.registered_users other) sock
        then none
        else session nm.registered_users other)
unfolding logout
logout-session now nm idx sock other = rw (remove_client-registered_users nm sock) (
    deregister_active_session-session now nm.registered_users (nm.client_list idx).username sock
      other)

reconnect_duplicate :
    (now : ℕ) (us : List RegisteredUser) (name : Text) (sock s : ℕ)
    → session us name ≡ some s
    → (us' : List RegisteredUser) × (reconnect now us name sock ≡ some (us', true))
unfolding session reconnect
reconnect_duplicate now [] name sock s e = absurd (cc)
reconnect_duplicate now (u ∷ us) name sock s e = elim (Bool-cases (text_eq u.username name)) [
  | inl here ↦ elim (Bool-cases u.active_session) [
    | inl active ↦ (u ∷ us, rw (here, active) refl)
    | inr idle ↦ absurd (none≢some (rw (here, idle) at e))
  ]
  | inr apart ↦
      let (us', rest) = reconnect_duplicate now us name sock s (rw apart at e) in
      (u ∷ us', rw (apart, rest) refl)
]

-- Who has a session cannot log in.
login_duplicate :
    (now : ℕ) (nm : NameServer) (name ip : Text) (sock s : ℕ)
    → session nm.registered_users name ≡ some s
    → (login now nm name ip sock).1 ≡ duplicate
unfolding login register_user_persistent admit
login_duplicate now nm name ip sock s e =
    let (us', dup) = reconnect_duplicate now nm.registered_users name sock s e in
    rw (dup, register_user_persistent) refl

-- After a client at `i` has left, a slot from `i` on holds what the next one held.
logout-slot :
    (now : ℕ) (nm : NameServer) (i j gone : ℕ)
    → find_client nm.client_count 0 nm.client_list gone ≡ some i
    → i ≤ j
    → j + 1 < nm.client_count
    → (logout now nm i gone).client_list j ≡ nm.client_list (j + 1)
unfolding logout remove_client shift_clients
logout-slot now nm i j gone at after behind = rw (at, remove_client, moved) refl
  where
    moved : (leb i j && ltb (j + 1) nm.client_count) ≡ true
    moved = ground arith

-- A client leaves from the slot `i`, the first with its socket, and a user's thread with the index
-- `j` behind `i` ends after it, while a client in the slot `j + 1` is still there. If neither of
-- the two clients is that user, the user's session stays open, on the socket of the thread that has
-- ended, and every login of the user is refused from then on.
pub logout_shifted :
    (now : ℕ) (nm : NameServer) (i j gone sock : ℕ) (user : Text)
    → find_client nm.client_count 0 nm.client_list gone ≡ some i
    → i < j
    → j + 1 < nm.client_count
    → text_eq (nm.client_list i).username user ≡ false
    → text_eq (nm.client_list (j + 1)).username user ≡ false
    → session nm.registered_users user ≡ some sock
    → (session (logout now (logout now nm i gone) j sock).registered_users user ≡ some sock)
      × ((later again : ℕ) (ip : Text)
          → (login later (logout now (logout now nm i gone) j sock) user ip again).1 ≡ duplicate)
logout_shifted now nm i j gone sock user at before behind left third logged_in =
    (still, λ later again ip. login_duplicate later _ user ip again sock still)
  where
    first : session (logout now nm i gone).registered_users user ≡ some sock
    first = logout-session now nm i gone user ∙ rw left logged_in

    slot : (logout now nm i gone).client_list j ≡ nm.client_list (j + 1)
    slot = logout-slot now nm i j gone at (omega arith) behind

    still : session (logout now (logout now nm i gone) j sock).registered_users user ≡ some sock
    still = logout-session now (logout now nm i gone) j sock user ∙ rw (slot, third) first
