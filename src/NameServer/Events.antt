-- ===== src/NameServer/Events.antt =====
-- nm.c: everything that changes the name server's state, as events in any order: the requests of
-- the clients, their arrival and departure, and the steps of the storage servers' threads.
pub mod Policy
pub mod Safety
use docs_plus_plus.Base.{ℕ, Option, none, some, List, [], ◌∷◌, Text, codes}
use docs_plus_plus.Wire.{Message}
use docs_plus_plus.NameServer.{NameServer}
use docs_plus_plus.NameServer.Servers.{ServerStep, server_step}
use docs_plus_plus.NameServer.Clients.{login, logout}
use docs_plus_plus.NameServer.Dispatch.{Answers, Served, handle_request}

-- A request has the answers that it meets and the variable `response` of its connection.
pub data Event : Type 0 where
  request : Answers → Message → Message → Event
  server : ServerStep → Event
  arrival : ℕ → Text → Text → ℕ → Event
  departure : ℕ → ℕ → ℕ → Event

unfoldable pub served_state : Option Served → Option NameServer
served_state none = none
served_state (some s) = some s.nm

-- The state after an event; `none` where a loop of the cache does not end.
unfoldable pub handle_event : Event → NameServer → Option NameServer
unfolding served_state
handle_event (request a response msg) nm = served_state (handle_request a nm response msg)
handle_event (server step) nm = some (server_step step nm)
handle_event (arrival now sender ip sock) nm = some (login now nm sender ip sock).0
handle_event (departure now idx sock) nm = some (logout now nm idx sock)

unfoldable pub handle_events : List Event → NameServer → Option NameServer
unfolding handle_event
handle_events [] nm = some nm
handle_events (e ∷ es) nm = elim (handle_event e nm) [
  | none ↦ none
  | some nm' ↦ handle_events es nm'
]

-- In whose name an event acts on the files: the sender that the message names, or the name server.
abbrev pub actor : Event → Text
actor (request a response msg) = msg.sender
actor (server step) = codes "system"
actor (arrival now sender ip sock) = codes "system"
actor (departure now idx sock) = codes "system"
