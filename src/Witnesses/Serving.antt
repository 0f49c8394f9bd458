-- ===== src/Witnesses/Serving.antt =====
-- nm.c at concrete inputs: storage servers and clients that come and go.
use docs_plus_plus.Base.{
  ℕ, ◌+◌, ◌≡◌, refl, pos, true, false, none, some, [], ◌∷◌, Text, codes, text_eq, ◌==◌,
  if◌then◌else◌, arith,
}
use docs_plus_plus.Trie.{null, node, is_null, search_walk, trie_search}
use docs_plus_plus.Trie.Lookup.{is_ascii}
use docs_plus_plus.Cache.{init_cache}
use docs_plus_plus.Wire.{Message, init_message}
use docs_plus_plus.NameServer.{NameServer, StorageServerInfo, ClientInfo, RegisteredUser}
use docs_plus_plus.NameServer.Users.{session}
use docs_plus_plus.NameServer.Files.{has_ss}
use docs_plus_plus.NameServer.Servers.{
  find_ss, active_ss, registration, heartbeat, heartbeat_loss, monitoring, server_step,
  server_steps, or_same, register_ss, strtok_from, put_slot,
}
use docs_plus_plus.NameServer.Servers.Monitor.{own_steps, server_steps-own}
use docs_plus_plus.NameServer.Servers.Silence.{
  IsRegistry, server_step-IsRegistry, active_ss-silent, active_ss_reconnected,
}
use docs_plus_plus.NameServer.Servers.Files.{adopted, register_ss-trie_search}
use docs_plus_plus.NameServer.Clients.{login, logout, duplicate, find_client}
use docs_plus_plus.NameServer.Clients.Departures.{logout_shifted}

abbrev a_server : ℕ → StorageServerInfo
a_server id = record {
  id = id;
  ip = codes "10.0.0.1";
  nm_port = pos 9001;
  client_port = pos 9002;
  sock = id + 10;
  hb_sock = some (id + 20);
  active = true;
  last_heartbeat = 100;
  files = [];
}

abbrev a_user : Text → ℕ → RegisteredUser
a_user name sock = record {
  username = name;
  first_registered = 1;
  last_seen = 2;
  active_session = true;
  client_sock = some sock;
}

abbrev a_client : Text → ℕ → ClientInfo
a_client name sock = record { username = name; ip = []; sock = sock; connected = 2 }

-- A name server with two storage servers and the clients `ann`, `bob` and `cy`.
abbrev busy_server : NameServer
busy_server = record {
  file_trie = record { root = node false none (λ i. null) };
  folder_trie = record { root = node false none (λ i. null) };
  cache = init_cache 4;
  registered_users = a_user (codes "ann") 4 ∷ a_user (codes "bob") 5 ∷ a_user (codes "cy") 6 ∷ [];
  client_list = λ i.
      if i == 0
      then a_client (codes "ann") 4
      else if i == 1
      then a_client (codes "bob") 5
      else a_client (codes "cy") 6;
  client_count = 3;
  access_requests = [];
  ss_list = a_server 1 ∷ a_server 2 ∷ [];
  next_ss_id = 0;
}

busy_server-IsRegistry : IsRegistry busy_server.ss_list
unfolding has_ss
busy_server-IsRegistry = record { room = omega arith; distinct = (refl, (refl, tt)) }

server_steps-own_example :
    (s' : StorageServerInfo) × ((find_ss 2
          (server_steps (heartbeat 130 2 ∷ monitoring 170 ∷ []) busy_server).ss_list
        ≡ some s')
      × ((s'.active, s'.last_heartbeat)
          ≡ own_steps 2 (heartbeat 130 2 ∷ monitoring 170 ∷ []) (true, 100)))
unfolding find_ss
server_steps-own_example =
    server_steps-own 2 (heartbeat 130 2 ∷ monitoring 170 ∷ []) busy_server (a_server 2) refl

server_step-IsRegistry_example :
    IsRegistry (server_step (registration 120 31 2 init_message) busy_server).ss_list
server_step-IsRegistry_example =
    server_step-IsRegistry (registration 120 31 2 init_message) busy_server busy_server-IsRegistry

active_ss-silent_example :
    active_ss 1 (server_steps (monitoring 160 ∷ heartbeat 161 1 ∷ []) busy_server).ss_list ≡ none
unfolding find_ss
active_ss-silent_example =
    active_ss-silent 1 160 (heartbeat 161 1 ∷ []) busy_server (a_server 1) busy_server-IsRegistry
      refl (omega arith) tt

active_ss_reconnected_example :
    active_ss 1
      (server_steps
        (registration 120 31 1 init_message ∷ heartbeat_loss 1 ∷ heartbeat 125 1 ∷ [])
        busy_server).ss_list
    ≡ none
unfolding find_ss
active_ss_reconnected_example =
    active_ss_reconnected 1 120 31 init_message (heartbeat 125 1 ∷ []) busy_server (a_server 1)
      busy_server-IsRegistry refl tt

abbrev a_report : Message
a_report = record init_message { payload = codes "a,bc" }

abbrev after_report : NameServer
after_report = or_same busy_server (register_ss 120 busy_server 31 1 a_report)

after_report-register_ss : register_ss 120 busy_server 31 1 a_report ≡ some after_report
unfolding register_ss put_slot has_ss or_same
after_report-register_ss = refl

register_ss-trie_search_example :
    trie_search after_report.file_trie (codes "bc") ≡ some (adopted 120 1 (codes "bc") none)
unfolding is_ascii text_eq strtok_from trie_search search_walk is_null
register_ss-trie_search_example =
    register_ss-trie_search 120 31 1 a_report busy_server after_report refl after_report-register_ss
      (codes "bc")

logout_shifted_example :
    (session (logout 9 (logout 9 busy_server 0 4) 1 5).registered_users (codes "bob") ≡ some 5)
    × ((later again : ℕ) (ip : Text)
        → (login later (logout 9 (logout 9 busy_server 0 4) 1 5) (codes "bob") ip again).1
          ≡ duplicate)
unfolding find_client session text_eq
logout_shifted_example =
    logout_shifted 9 busy_server 0 1 4 5 (codes "bob") refl (omega arith) (omega arith) refl refl
      refl
