-- ===== src/NameServer/Servers/Silence.antt =====
-- nm.c: a storage server that is given up, and the array of the storage servers.
use docs_plus_plus.Base.{
  some-injective, none≢some, ℕ, suc, ◌+◌, ◌≤◌, ◌≡◌, refl, subst, sym, ap, ◌∙◌, inl, inr, true,
  false, ◌&&◌, none, some, List, [], ◌∷◌, ◌++◌, ltb, leb, ◌==◌, length, map, take, ◌≢◌, arith,
  Bool-cases, Option-cases, ==_iff, length-append,
}
use docs_plus_plus.Codes.{max_files}
use docs_plus_plus.Wire.{Message}
use docs_plus_plus.NameServer.{NameServer, StorageServerInfo}
use docs_plus_plus.NameServer.Files.{has_ss}
use docs_plus_plus.NameServer.Servers.{
  change_ss, find_ss, active_ss, connect_heartbeat, receive_heartbeat, lose_heartbeat, fill_slot,
  register_ss, put_slot, strtok_from, ServerStep, registration, heartbeat_connection, heartbeat,
  heartbeat_loss, monitoring, or_same, server_step, server_steps, max_ss,
}
use docs_plus_plus.NameServer.Servers.Monitor.{
  monitor_round-map, after_round, own_step, own_steps, server_steps-own,
}

-- The ids are distinct.
abbrev Distinct : List StorageServerInfo → Type 0
Distinct [] = Unit {0}
Distinct (s ∷ ss) = (has_ss ss s.id ≡ false) × Distinct ss

-- The array has at most `MAX_SS` servers, and their ids are distinct.
pub record IsRegistry (ss : List StorageServerInfo) : Type 0 where
  pub room : length ss ≤ max_ss
  pub distinct : Distinct ss

has_ss-change_ss :
    (f : StorageServerInfo → StorageServerInfo) (j k : ℕ) (ss : List StorageServerInfo)
    → ((x : StorageServerInfo) → x.id ≡ j → (f x).id ≡ j)
    → has_ss (change_ss f j ss) k ≡ has_ss ss k
unfolding has_ss change_ss
has_ss-change_ss f j k [] keeps = refl
has_ss-change_ss f j k (x ∷ ss) keeps = ground (arith, keeps x, has_ss-change_ss f j k ss keeps)

length-change_ss :
    (f : StorageServerInfo → StorageServerInfo) (j : ℕ) (ss : List StorageServerInfo)
    → length (change_ss f j ss) ≡ length ss
unfolding change_ss
length-change_ss f j [] = refl
length-change_ss f j (x ∷ ss) = ground (arith, length-change_ss f j ss)

Distinct-change_ss :
    (f : StorageServerInfo → StorageServerInfo) (j : ℕ) (ss : List StorageServerInfo)
    → ((x : StorageServerInfo) → x.id ≡ j → (f x).id ≡ j)
    → Distinct ss
    → Distinct (change_ss f j ss)
unfolding change_ss
Distinct-change_ss f j [] keeps d = tt
Distinct-change_ss f j (x ∷ ss) keeps (new, d) = elim (Bool-cases (x.id == j)) [
  | inl here ↦
      rw here (rw (keeps x ((==_iff x.id j).0 here)) (rw (sym ((==_iff x.id j).0 here)) new), d)
  | inr there ↦
      rw there (has_ss-change_ss f j x.id ss keeps ∙ new, Distinct-change_ss f j ss keeps d)
]

change_ss-IsRegistry :
    (f : StorageServerInfo → StorageServerInfo) (j : ℕ) (ss : List StorageServerInfo)
    → ((x : StorageServerInfo) → x.id ≡ j → (f x).id ≡ j)
    → IsRegistry ss
    → IsRegistry (change_ss f j ss)
change_ss-IsRegistry f j ss keeps r = record {
  room = omega (arith, length-change_ss f j ss);
  distinct = Distinct-change_ss f j ss keeps r.distinct;
}

has_ss-append :
    (ss : List StorageServerInfo) (slot : StorageServerInfo) (k : ℕ)
    → (slot.id == k) ≡ false
    → has_ss (ss ++ slot ∷ []) k ≡ has_ss ss k
unfolding has_ss
has_ss-append [] slot k other = rw other refl
has_ss-append (x ∷ ss) slot k other = ground (arith, has_ss-append ss slot k other)

Distinct-append :
    (ss : List StorageServerInfo) (slot : StorageServerInfo)
    → has_ss ss slot.id ≡ false
    → Distinct ss
    → Distinct (ss ++ slot ∷ [])
unfolding has_ss
Distinct-append [] slot new d = (refl, tt)
Distinct-append (x ∷ ss) slot new (first, d) =
    (has_ss-append ss slot x.id (ground arith) ∙ first, Distinct-append ss slot (ground arith) d)

has_ss-round :
    (now k : ℕ) (ss : List StorageServerInfo) → has_ss (map (after_round now) ss) k ≡ has_ss ss k
unfolding has_ss
has_ss-round now k [] = refl
has_ss-round now k (x ∷ ss) = ground (arith, has_ss-round now k ss)

Distinct-round :
    (now : ℕ) (ss : List StorageServerInfo) → Distinct ss → Distinct (map (after_round now) ss)
Distinct-round now [] d = tt
Distinct-round now (x ∷ ss) (first, d) =
    (rw same_id (has_ss-round now x.id ss ∙ first), Distinct-round now ss d)
  where
    same_id : (after_round now x).id ≡ x.id
    same_id = ground arith

length-round :
    (now : ℕ) (ss : List StorageServerInfo) → length (map (after_round now) ss) ≡ length ss
length-round now [] = refl
length-round now (x ∷ ss) = ap suc (length-round now ss)

put_slot-IsRegistry :
    (slot : StorageServerInfo) (ss : List StorageServerInfo) {ss' : List StorageServerInfo}
    → put_slot slot ss ≡ some ss'
    → IsRegistry ss
    → IsRegistry ss'
unfolding put_slot
put_slot-IsRegistry slot ss {ss'} e r = elim (Bool-cases (has_ss ss slot.id)) [
  | inl known ↦
      subst IsRegistry (some-injective (rw known at e))
        (change_ss-IsRegistry (λ s. slot) slot.id ss (λ x h. refl) r)
  | inr new ↦ elim (Bool-cases (leb max_ss (length ss))) [
    | inl full ↦ absurd (none≢some (rw (new, full) at e))
    | inr room ↦ subst IsRegistry (some-injective (rw (new, room) at e)) (record {
      room = ground (arith, length-append ss (slot ∷ []));
      distinct = Distinct-append ss slot new r.distinct;
    })
  ]
]

register_ss-IsRegistry :
    (now sock ss_id : ℕ) (msg : Message) (nm : NameServer)
    → IsRegistry nm.ss_list
    → IsRegistry (or_same nm (register_ss now nm sock ss_id msg)).ss_list
unfolding register_ss or_same
register_ss-IsRegistry now sock ss_id msg nm r =
    let slot = fill_slot now sock ss_id msg (take max_files (strtok_from [] msg.payload)) in
    elim (Option-cases (put_slot slot nm.ss_list)) [
      | inl full ↦ rw (full, or_same) r
      | inr (ss, put) ↦ rw (put, or_same) (put_slot-IsRegistry slot nm.ss_list put r)
    ]

-- No step of a thread puts more than `MAX_SS` servers into the array or an id into it twice.
pub server_step-IsRegistry :
    (step : ServerStep) (nm : NameServer)
    → IsRegistry nm.ss_list
    → IsRegistry (server_step step nm).ss_list
unfolding server_step
server_step-IsRegistry (registration now sock ss_id msg) nm r =
    register_ss-IsRegistry now sock ss_id msg nm r
server_step-IsRegistry (heartbeat_connection now hb_sock ss_id) nm r =
    change_ss-IsRegistry (connect_heartbeat now hb_sock) ss_id nm.ss_list (λ x h. h) r
server_step-IsRegistry (heartbeat now ss_id) nm r =
    change_ss-IsRegistry (receive_heartbeat now) ss_id nm.ss_list (λ x h. h) r
server_step-IsRegistry (heartbeat_loss ss_id) nm r =
    change_ss-IsRegistry lose_heartbeat ss_id nm.ss_list (λ x h. h) r
server_step-IsRegistry (monitoring now) nm r = rw (monitor_round-map now nm.ss_list) (record {
  room = omega (arith, length-round now nm.ss_list);
  distinct = Distinct-round now nm.ss_list r.distinct;
})

server_steps-IsRegistry :
    (steps : List ServerStep) (nm : NameServer)
    → IsRegistry nm.ss_list
    → IsRegistry (server_steps steps nm).ss_list
unfolding server_steps
server_steps-IsRegistry [] nm r = r
server_steps-IsRegistry (step ∷ steps) nm r =
    server_steps-IsRegistry steps (server_step step nm) (server_step-IsRegistry step nm r)

active_ss-absent :
    (k : ℕ) (ss : List StorageServerInfo) → has_ss ss k ≡ false → active_ss k ss ≡ none
unfolding active_ss has_ss
active_ss-absent k [] absent = refl
active_ss-absent k (x ∷ ss) absent = ground (arith, active_ss-absent k ss)

active_ss-inactive :
    (k : ℕ) (ss : List StorageServerInfo) (s : StorageServerInfo)
    → Distinct ss
    → find_ss k ss ≡ some s
    → s.active ≡ false
    → active_ss k ss ≡ none
unfolding active_ss find_ss
active_ss-inactive k [] s d e idle = refl
active_ss-inactive k (x ∷ ss) s (new, d) e idle = elim (Bool-cases (x.id == k)) [
  | inl here ↦
      let found : x ≡ s = some-injective (rw here at e) in
      let off : x.active ≡ false = ap (λ y. y.active) found ∙ idle in
      rw (here, off) (active_ss-absent k ss (rw ((==_iff x.id k).0 here) at new))
  | inr there ↦ rw there (active_ss-inactive k ss s d (rw there at e) idle)
]

-- No own registration among the steps.
abbrev pub Unregistered : ℕ → List ServerStep → Type 0
Unregistered k [] = Unit {0}
Unregistered k (registration now sock ss_id msg ∷ steps) = (ss_id ≢ k) × Unregistered k steps
Unregistered k (heartbeat_connection now hb_sock ss_id ∷ steps) = Unregistered k steps
Unregistered k (heartbeat now ss_id ∷ steps) = Unregistered k steps
Unregistered k (heartbeat_loss ss_id ∷ steps) = Unregistered k steps
Unregistered k (monitoring now ∷ steps) = Unregistered k steps

own_steps_given_up :
    (k : ℕ) (steps : List ServerStep) (last : ℕ)
    → Unregistered k steps
    → (own_steps k steps (false, last)).0 ≡ false
unfolding own_steps own_step
own_steps_given_up k [] last u = refl
own_steps_given_up k (registration now sock ss_id msg ∷ steps) last (other, u) =
    ground (arith, own_steps_given_up k steps last u)
own_steps_given_up k (heartbeat_connection now hb_sock ss_id ∷ steps) last u =
    ground (arith, own_steps_given_up k steps last u, own_steps_given_up k steps now u)
own_steps_given_up k (heartbeat now ss_id ∷ steps) last u =
    ground (arith, own_steps_given_up k steps last u, own_steps_given_up k steps now u)
own_steps_given_up k (heartbeat_loss ss_id ∷ steps) last u =
    ground (arith, own_steps_given_up k steps last u)
own_steps_given_up k (monitoring now ∷ steps) last u = own_steps_given_up k steps last u

-- A server that is inactive is not used again before it registers.
given_up :
    (k : ℕ) (steps : List ServerStep) (nm : NameServer) (s : StorageServerInfo)
    → IsRegistry nm.ss_list
    → find_ss k nm.ss_list ≡ some s
    → s.active ≡ false
    → Unregistered k steps
    → active_ss k (server_steps steps nm).ss_list ≡ none
given_up k steps nm s r e idle u =
    let (s', (e', now)) = server_steps-own k steps nm s e in
    active_ss-inactive k (server_steps steps nm).ss_list s'
      (server_steps-IsRegistry steps nm r).distinct e'
      (ap (λ o. o.0) now ∙ rw idle (own_steps_given_up k steps s.last_heartbeat u))

-- When a round of the monitor finds the last heartbeat of a server 60 seconds or more ago, the
-- search for that server among the active ones finds nothing from then on, whatever the threads do,
-- its own heartbeats included, as long as it does not register again.
pub active_ss-silent :
    (k now : ℕ) (steps : List ServerStep) (nm : NameServer) (s : StorageServerInfo)
    → IsRegistry nm.ss_list
    → find_ss k nm.ss_list ≡ some s
    → s.last_heartbeat + 60 ≤ now
    → Unregistered k steps
    → active_ss k (server_steps (monitoring now ∷ steps) nm).ss_list ≡ none
unfolding server_steps own_steps own_step
active_ss-silent k now steps nm s r e silent u =
    let (s', (e', after)) = server_steps-own k (monitoring now ∷ []) nm s e in
    given_up k steps (server_step (monitoring now) nm) s'
      (server_step-IsRegistry (monitoring now) nm r) e' (ap (λ o. o.0) after ∙ late) u
  where
    late : (s.active && ltb now (s.last_heartbeat + 60)) ≡ false
    late = ground arith

-- When a server registers again, and the thread of its old heartbeat connection then finds that
-- connection closed, the search for the server among the active ones finds nothing from then on,
-- whatever the threads do, its heartbeats on the new connection included, as long as it does not
-- register once more.
pub active_ss_reconnected :
    (k now sock : ℕ) (msg : Message) (steps : List ServerStep) (nm : NameServer)
    (s : StorageServerInfo)
    → IsRegistry nm.ss_list
    → find_ss k nm.ss_list ≡ some s
    → Unregistered k steps
    → active_ss k (server_steps (registration now sock k msg ∷ heartbeat_loss k ∷ steps) nm).ss_list
      ≡ none
unfolding server_steps own_steps own_step
active_ss_reconnected k now sock msg steps nm s r e u =
    let both = registration now sock k msg ∷ heartbeat_loss k ∷ [] in
    let (s', (e', after)) = server_steps-own k both nm s e in
    given_up k steps (server_steps both nm) s' (server_steps-IsRegistry both nm r) e'
      (ap (λ o. o.0) after ∙ rw self refl) u
  where
    self : (k == k) ≡ true
    self = ground arith
