-- ===== src/NameServer/Servers.antt =====
-- nm.c: the storage servers, their registration, their heartbeats and the monitor. Each part that
-- runs under `ss_mutex` is one step.
pub mod Monitor
pub mod Files
pub mod Silence
use docs_plus_plus.Base.{
  ℕ, zero, suc, ◌+◌, ◌-◌, ℤ, pos, negsuc, Bool, true, false, ◌&&◌, Option, none, some, List, [],
  ◌∷◌, ◌++◌, Text, text_eq, codes, ltb, leb, ◌==◌, if◌then◌else◌, length, take, map,
}
use docs_plus_plus.Codes.{max_files}
use docs_plus_plus.Trie.{Trie, trie_search, trie_insert, trie_update}
use docs_plus_plus.Wire.{Message}
use docs_plus_plus.Wire.Transport.{magnitude}
use docs_plus_plus.NameServer.{NameServer, FileMetadata, StorageServerInfo}
use docs_plus_plus.NameServer.Files.{has_ss, new_metadata}

abbrev pub max_ss : ℕ
max_ss = 50

-- The loops that look for the server with an id and change it.
unfoldable pub change_ss :
    (StorageServerInfo → StorageServerInfo) → ℕ → List StorageServerInfo → List StorageServerInfo
change_ss f ss_id [] = []
change_ss f ss_id (s ∷ ss) = if s.id == ss_id then f s ∷ ss else s ∷ change_ss f ss_id ss

-- The loops that look for the server with an id.
unfoldable pub find_ss : ℕ → List StorageServerInfo → Option StorageServerInfo
find_ss ss_id [] = none
find_ss ss_id (s ∷ ss) = if s.id == ss_id then some s else find_ss ss_id ss

-- The loops that look for the index of an active server with an id, in `handle_move`,
-- `handle_createfolder`, `handle_checkpoint_request` and the details of `handle_view`. The other
-- handlers take a server by its id alone.
unfoldable pub active_ss : ℕ → List StorageServerInfo → Option StorageServerInfo
active_ss ss_id [] = none
active_ss ss_id (s ∷ ss) = if (s.id == ss_id) && s.active then some s else active_ss ss_id ss

-- `handle_ss_heartbeat`: the first message.
abbrev pub connect_heartbeat : ℕ → ℕ → StorageServerInfo → StorageServerInfo
connect_heartbeat now hb_sock s = record s { hb_sock = some hb_sock; last_heartbeat = now }

-- `handle_ss_heartbeat`: a heartbeat.
abbrev pub receive_heartbeat : ℕ → StorageServerInfo → StorageServerInfo
receive_heartbeat now s = record s { last_heartbeat = now }

-- `handle_ss_heartbeat`: "Heartbeat lost - mark as inactive"
abbrev pub lose_heartbeat : StorageServerInfo → StorageServerInfo
lose_heartbeat s = record s { hb_sock = none; active = false }

abbrev pub heartbeat_timeout : ℕ
heartbeat_timeout = 15

-- The body of the loop of `heartbeat_monitor`. An idle time below 0 counts as 0, since both are
-- below 60.
unfoldable pub check_ss : ℕ → StorageServerInfo → StorageServerInfo
check_ss now s =
    let idle = now - s.last_heartbeat in
    let timeout : ℕ = if ltb idle 60 then 60 else heartbeat_timeout in
    if s.active
    then (if ltb timeout idle then record s { active = false; hb_sock = none } else s)
    else s

-- A round of `heartbeat_monitor`.
unfoldable pub monitor_round : ℕ → List StorageServerInfo → List StorageServerInfo
unfolding check_ss
monitor_round now = map (check_ss now)

-- What `handle_ss_connection` writes into the slot of the server, but for the files.
abbrev pub fill_slot : ℕ → ℕ → ℕ → Message → List Text → StorageServerInfo
fill_slot now sock ss_id msg files = record {
  id = ss_id;
  ip = msg.sender;
  nm_port = msg.nm_port;
  client_port = msg.client_port;
  sock = sock;
  hb_sock = none;
  active = true;
  last_heartbeat = now;
  files = files;
}

-- A file that a storage server reports: a known one keeps its metadata. Its name is copied by
-- `strcpy` into 256 bytes, and here is shorter.
unfoldable pub register_file : ℕ → ℕ → Trie FileMetadata → Text → Trie FileMetadata
unfolding new_metadata trie_search trie_insert trie_update
register_file now ss_id t file = elim (trie_search t file) [
  | some existing ↦ (trie_update t file (record existing { ss_id = ss_id })).0
  | none ↦
      (trie_insert t file
        (record (new_metadata now file (codes "system") ss_id) { last_accessed_by = [] })).0
]

-- The loop over the tokens, with the room that is left in `files`.
unfoldable pub register_files : ℕ → ℕ → ℕ → Trie FileMetadata → List Text → Trie FileMetadata
register_files room now ss_id t [] = t
register_files zero now ss_id t (file ∷ files) = t
register_files (suc room) now ss_id t (file ∷ files) =
    register_files room now ss_id (register_file now ss_id t file) files

unfoldable pub token_before : Text → List Text → List Text
token_before [] tokens = tokens
token_before (c ∷ cs) tokens = (c ∷ cs) ∷ tokens

-- `strtok(_, ",")`: the tokens, none of them empty, after the bytes `token` of the current one.
unfoldable pub strtok_from : Text → Text → List Text
unfolding token_before
strtok_from token [] = token_before token []
strtok_from token (c ∷ cs) =
    let ended = token_before token (strtok_from [] cs) in
    let longer = strtok_from (token ++ c ∷ []) cs in if c == b',' then ended else longer

-- The choice of the slot, and the slot filled: the old one of the server, or a new one, if there is
-- room.
unfoldable pub put_slot :
    StorageServerInfo → List StorageServerInfo → Option (List StorageServerInfo)
unfolding has_ss change_ss
put_slot slot ss =
    if has_ss ss slot.id
    then some (change_ss (λ s. slot) slot.id ss)
    else if leb max_ss (length ss)
    then none
    else some (ss ++ slot ∷ [])

-- `handle_ss_connection` up to the loop that waits: the new state, or `none` at full capacity.
unfoldable pub register_ss : ℕ → NameServer → ℕ → ℕ → Message → Option NameServer
unfolding put_slot
register_ss now nm sock ss_id msg =
    let files = strtok_from [] msg.payload in
    elim (put_slot (fill_slot now sock ss_id msg (take max_files files)) nm.ss_list) [
      | none ↦ none
      | some ss ↦ some (record nm {
        ss_list = ss;
        file_trie = register_files max_files now ss_id nm.file_trie files;
      })
    ]

-- What the threads of the storage servers and the monitor do under `ss_mutex`.
pub data ServerStep : Type 0 where
  registration : ℕ → ℕ → ℕ → Message → ServerStep
  heartbeat_connection : ℕ → ℕ → ℕ → ServerStep
  heartbeat : ℕ → ℕ → ServerStep
  heartbeat_loss : ℕ → ServerStep
  monitoring : ℕ → ServerStep

abbrev pub is_ack : ℤ → Bool
is_ack (pos n) = n == 16
is_ack (negsuc n) = false

-- "Receive heartbeats", with what arrives and when. A lost connection is `none`, and ends the loop.
unfoldable pub heartbeats : ℕ → List (ℕ × Option Message) → List ServerStep
heartbeats ss_id [] = []
heartbeats ss_id ((now, none) ∷ messages) = heartbeat_loss ss_id ∷ []
heartbeats ss_id ((now, some msg) ∷ messages) =
    let rest = heartbeats ss_id messages in
    if is_ack msg.kind && text_eq msg.payload (codes "HEARTBEAT")
    then heartbeat now ss_id ∷ rest
    else rest

-- `handle_ss_heartbeat`: the steps that the thread takes. The id is not negative.
unfoldable pub handle_ss_heartbeat : ℕ → List (ℕ × Option Message) → List ServerStep
unfolding heartbeats
handle_ss_heartbeat hb_sock [] = []
handle_ss_heartbeat hb_sock ((now, none) ∷ messages) = []
handle_ss_heartbeat hb_sock ((now, some msg) ∷ messages) =
    let ss_id = magnitude msg.ss_id in
    if is_ack msg.kind
    then heartbeat_connection now hb_sock ss_id ∷ heartbeats ss_id messages
    else []

unfoldable pub or_same : NameServer → Option NameServer → NameServer
or_same nm none = nm
or_same nm (some nm') = nm'

unfoldable pub server_step : ServerStep → NameServer → NameServer
unfolding register_ss change_ss monitor_round or_same
server_step (registration now sock ss_id msg) nm = or_same nm (register_ss now nm sock ss_id msg)
server_step (heartbeat_connection now hb_sock ss_id) nm = record nm {
  ss_list = change_ss (connect_heartbeat now hb_sock) ss_id nm.ss_list;
}
server_step (heartbeat now ss_id) nm = record nm {
  ss_list = change_ss (receive_heartbeat now) ss_id nm.ss_list;
}
server_step (heartbeat_loss ss_id) nm = record nm {
  ss_list = change_ss lose_heartbeat ss_id nm.ss_list;
}
server_step (monitoring now) nm = record nm { ss_list = monitor_round now nm.ss_list }

unfoldable pub server_steps : List ServerStep → NameServer → NameServer
unfolding server_step
server_steps [] nm = nm
server_steps (step ∷ steps) nm = server_steps steps (server_step step nm)
