-- ===== src/NameServer/Servers/Monitor.antt =====
-- nm.c: which storage servers count as active, over any sequence of the threads' steps.
use docs_plus_plus.Base.{
  ℕ, ◌+◌, ◌≡◌, refl, ap, ◌∙◌, inl, inr, Bool, true, false, ◌&&◌, none, some, List, [], ◌∷◌, ◌++◌,
  ltb, leb, ◌==◌, if◌then◌else◌, length, map, take, ◌⊎◌, arith, Bool-cases, fun_ext,
}
use docs_plus_plus.Codes.{max_files}
use docs_plus_plus.Wire.{Message}
use docs_plus_plus.NameServer.{NameServer, StorageServerInfo}
use docs_plus_plus.NameServer.Files.{has_ss}
use docs_plus_plus.NameServer.Servers.{
  change_ss, find_ss, connect_heartbeat, receive_heartbeat, lose_heartbeat, check_ss, monitor_round,
  fill_slot, register_ss, put_slot, strtok_from, ServerStep, registration, heartbeat_connection,
  heartbeat, heartbeat_loss, monitoring, or_same, server_step, server_steps, max_ss,
}

-- What a round of the monitor means for one server.
abbrev pub after_round : ℕ → StorageServerInfo → StorageServerInfo
after_round now s =
    if s.active && leb (s.last_heartbeat + 60) now
    then record s { active = false; hb_sock = none }
    else s

check_ss-after_round : (now : ℕ) (s : StorageServerInfo) → check_ss now s ≡ after_round now s
unfolding check_ss
check_ss-after_round now s = ground arith

-- A round of the monitor gives up each active server whose last heartbeat is 60 seconds or more
-- ago, closes its heartbeat socket, and leaves all else.
pub monitor_round-map :
    (now : ℕ) (ss : List StorageServerInfo) → monitor_round now ss ≡ map (after_round now) ss
unfolding monitor_round
monitor_round-map now ss = ap (λ f. map f ss) (fun_ext (check_ss-after_round now))

-- The steps seen by one server: whether it is active, and its last heartbeat.
unfoldable pub own_step : ℕ → ServerStep → Bool × ℕ → Bool × ℕ
own_step k (registration now sock ss_id msg) (active, last) =
    if ss_id == k then (true, now) else (active, last)
own_step k (heartbeat_connection now hb_sock ss_id) (active, last) =
    if ss_id == k then (active, now) else (active, last)
own_step k (heartbeat now ss_id) (active, last) =
    if ss_id == k then (active, now) else (active, last)
own_step k (heartbeat_loss ss_id) (active, last) =
    if ss_id == k then (false, last) else (active, last)
own_step k (monitoring now) (active, last) = (active && ltb now (last + 60), last)

unfoldable pub own_steps : ℕ → List ServerStep → Bool × ℕ → Bool × ℕ
unfolding own_step
own_steps k [] own = own
own_steps k (step ∷ steps) own = own_steps k steps (own_step k step own)

abbrev own : StorageServerInfo → Bool × ℕ
own s = (s.active, s.last_heartbeat)

find_ss-change_ss :
    (f : StorageServerInfo → StorageServerInfo) (j k : ℕ) (ss : List StorageServerInfo)
    (s : StorageServerInfo)
    → ((x : StorageServerInfo) → x.id ≡ j → (f x).id ≡ j)
    → find_ss k ss ≡ some s
    → find_ss k (change_ss f j ss) ≡ some (if j == k then f s else s)
unfolding find_ss change_ss
find_ss-change_ss f j k [] s keeps e = cc
find_ss-change_ss f j k (x ∷ ss) s keeps e =
    ground (arith, keeps x, find_ss-change_ss f j k ss s keeps)

find_ss-map :
    (f : StorageServerInfo → StorageServerInfo) (k : ℕ) (ss : List StorageServerInfo)
    (s : StorageServerInfo)
    → ((x : StorageServerInfo) → (f x).id ≡ x.id)
    → find_ss k ss ≡ some s
    → find_ss k (map f ss) ≡ some (f s)
unfolding find_ss
find_ss-map f k [] s keeps e = cc
find_ss-map f k (x ∷ ss) s keeps e = ground (arith, keeps x, find_ss-map f k ss s keeps)

find_ss-append :
    (k : ℕ) (ss more : List StorageServerInfo) (s : StorageServerInfo)
    → find_ss k ss ≡ some s
    → find_ss k (ss ++ more) ≡ some s
unfolding find_ss
find_ss-append k [] more s e = cc
find_ss-append k (x ∷ ss) more s e = ground (arith, find_ss-append k ss more s)

has_ss-find_ss :
    (k : ℕ) (ss : List StorageServerInfo) {s : StorageServerInfo}
    → find_ss k ss ≡ some s
    → has_ss ss k ≡ true
unfolding find_ss has_ss
has_ss-find_ss k [] e = cc
has_ss-find_ss k (x ∷ ss) {s} e = ground (arith, has_ss-find_ss k ss {s = s})

own-if :
    (b : Bool) (x y : StorageServerInfo) → own (if b then x else y) ≡ (if b then own x else own y)
own-if true x y = refl
own-if false x y = refl

put_slot-own :
    (k : ℕ) (slot : StorageServerInfo) (ss : List StorageServerInfo) (s : StorageServerInfo)
    → find_ss k ss ≡ some s
    → (put_slot slot ss ≡ none) × ((slot.id == k) ≡ false)
      ⊎ ((ss' : List StorageServerInfo) × ((put_slot slot ss ≡ some ss')
            × (find_ss k ss' ≡ some (if slot.id == k then slot else s))))
unfolding put_slot
put_slot-own k slot ss s e = elim (Bool-cases (has_ss ss slot.id)) [
  | inl known ↦ inr (
    change_ss (λ x. slot) slot.id ss,
    (rw known refl, find_ss-change_ss (λ x. slot) slot.id k ss s (λ x h. refl) e),
  )
  | inr new ↦ elim (Bool-cases (leb max_ss (length ss))) [
    | inl full ↦ inl (rw (new, full) refl, other new)
    | inr room ↦ inr (
      ss ++ slot ∷ [],
      (rw (new, room) refl, rw (other new) (find_ss-append k ss (slot ∷ []) s e)),
    )
  ]
]
  where
    other : has_ss ss slot.id ≡ false → (slot.id == k) ≡ false
    other new = ground (arith, has_ss-find_ss k ss {s = s} e)

register_ss-own :
    (k now sock ss_id : ℕ) (msg : Message) (nm : NameServer) (s : StorageServerInfo)
    → find_ss k nm.ss_list ≡ some s
    → (s' : StorageServerInfo) × ((find_ss k
            (or_same nm (register_ss now nm sock ss_id msg)).ss_list
          ≡ some s')
        × (own s' ≡ (if ss_id == k then (true, now) else own s)))
unfolding register_ss or_same
register_ss-own k now sock ss_id msg nm s e =
    let slot = fill_slot now sock ss_id msg (take max_files (strtok_from [] msg.payload)) in
    elim (put_slot-own k slot nm.ss_list s e) [
      | inl (full, other) ↦ (s, (rw (full, or_same) e, rw other refl))
      | inr (ss, (put, found)) ↦
          (if ss_id == k then slot else s, (rw (put, or_same) found, own-if (ss_id == k) slot s))
    ]

-- A step of any thread, seen by a registered server.
server_step-own :
    (k : ℕ) (step : ServerStep) (nm : NameServer) (s : StorageServerInfo)
    → find_ss k nm.ss_list ≡ some s
    → (s' : StorageServerInfo) × ((find_ss k (server_step step nm).ss_list ≡ some s')
        × (own s' ≡ own_step k step (own s)))
unfolding server_step own_step
server_step-own k (registration now sock ss_id msg) nm s e =
    register_ss-own k now sock ss_id msg nm s e
server_step-own k (heartbeat_connection now hb_sock ss_id) nm s e = (
  _,
  (
    find_ss-change_ss (connect_heartbeat now hb_sock) ss_id k nm.ss_list s (λ x h. h) e,
    own-if (ss_id == k) _ s,
  ),
)
server_step-own k (heartbeat now ss_id) nm s e = (
  _,
  (
    find_ss-change_ss (receive_heartbeat now) ss_id k nm.ss_list s (λ x h. h) e,
    own-if (ss_id == k) _ s,
  ),
)
server_step-own k (heartbeat_loss ss_id) nm s e = (
  _,
  (find_ss-change_ss lose_heartbeat ss_id k nm.ss_list s (λ x h. h) e, own-if (ss_id == k) _ s),
)
server_step-own k (monitoring now) nm s e = (
  after_round now s,
  (
    rw (monitor_round-map now nm.ss_list)
        (find_ss-map (after_round now) k nm.ss_list s (λ x. ground arith) e),
    ground arith,
  ),
)

-- Under every sequence of steps of the threads, registrations and heartbeats of other servers
-- included, a registered server is active, and has its last heartbeat, as its own steps and the
-- rounds of the monitor alone determine: a registration makes it active, a loss of its heartbeat
-- or a round of the monitor 60 seconds or more after its last heartbeat makes it inactive, and no
-- heartbeat makes it active again.
pub server_steps-own :
    (k : ℕ) (steps : List ServerStep) (nm : NameServer) (s : StorageServerInfo)
    → find_ss k nm.ss_list ≡ some s
    → (s' : StorageServerInfo) × ((find_ss k (server_steps steps nm).ss_list ≡ some s')
        × ((s'.active, s'.last_heartbeat) ≡ own_steps k steps (s.active, s.last_heartbeat)))
unfolding server_steps own_steps
server_steps-own k [] nm s e = (s, (e, refl))
server_steps-own k (step ∷ steps) nm s e =
    let (s', (e', now)) = server_step-own k step nm s e in
    let (s'', (e'', later)) = server_steps-own k steps (server_step step nm) s' e' in
    (s'', (e'', later ∙ ap (own_steps k steps) now))
