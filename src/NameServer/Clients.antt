-- ===== src/NameServer/Clients.antt =====
-- nm.c: `handle_client_connection`, the array of the connected clients.
pub mod Departures
use docs_plus_plus.Base.{
  ℕ, zero, suc, ◌+◌, ◌-◌, Bool, true, false, ◌&&◌, Option, none, some, Text, ltb, leb, ◌==◌,
  if◌then◌else◌,
}
use docs_plus_plus.Codes.{max_clients}
use docs_plus_plus.NameServer.{NameServer, ClientInfo}
use docs_plus_plus.NameServer.Users.{register_user_persistent, deregister_active_session}

-- How the thread goes on: the client is refused as logged in already (it is sent
-- `ERR_INVALID_OPERATION`), refused for lack of room (it is sent nothing), or served, and the
-- thread keeps its index.
pub data Login : Type 0 where
  duplicate crowded : Login
  joined : ℕ → Login

unfoldable pub join_clients : ℕ → NameServer → Text → Text → ℕ → NameServer × Login
join_clients now nm sender ip client_sock =
    let idx = nm.client_count in
    let info : ClientInfo = record {
      username = sender;
      ip = ip;
      sock = client_sock;
      connected = now;
    } in
    if leb max_clients nm.client_count
    then (
      record nm {
        registered_users = deregister_active_session now nm.registered_users sender client_sock;
      },
      crowded,
    )
    else (
      record nm {
        client_list = λ i. if i == idx then info else nm.client_list i;
        client_count = nm.client_count + 1;
      },
      joined idx,
    )

unfoldable pub admit : ℕ → NameServer → Text → Text → ℕ → Bool → NameServer × Login
unfolding join_clients
admit now nm sender ip client_sock true = (nm, duplicate)
admit now nm sender ip client_sock false = join_clients now nm sender ip client_sock

-- The thread up to its loop over the requests; `ip` is what the client sends as its address.
unfoldable pub login : ℕ → NameServer → Text → Text → ℕ → NameServer × Login
unfolding register_user_persistent admit
login now nm sender ip client_sock =
    let registered = register_user_persistent now nm.registered_users sender client_sock in
    admit now (record nm { registered_users = registered.0 }) sender ip client_sock registered.1

-- The search for the socket in the `left` slots from `i` on.
unfoldable pub find_client : ℕ → ℕ → (ℕ → ClientInfo) → ℕ → Option ℕ
find_client zero i clients client_sock = none
find_client (suc left) i clients client_sock =
    let rest = find_client left (i + 1) clients client_sock in
    if (clients i).sock == client_sock then some i else rest

-- The loop over `j`: the later clients are shifted by one, and the last slot stays as it is.
unfoldable pub shift_clients : (ℕ → ClientInfo) → ℕ → ℕ → ℕ → ClientInfo
shift_clients clients count i j =
    if leb i j && ltb (j + 1) count then clients (j + 1) else clients j

unfoldable pub remove_client : NameServer → ℕ → NameServer
unfolding find_client shift_clients
remove_client nm client_sock = elim (find_client nm.client_count 0 nm.client_list client_sock) [
  | none ↦ nm
  | some i ↦ record nm {
    client_list = shift_clients nm.client_list nm.client_count i;
    client_count = nm.client_count - 1;
  }
]

-- The end of the thread of the client with the index `idx`.
unfoldable pub logout : ℕ → NameServer → ℕ → ℕ → NameServer
unfolding remove_client deregister_active_session
logout now nm idx client_sock =
    let username = (nm.client_list idx).username in
    let nm' = remove_client nm client_sock in
    record nm' {
      registered_users = deregister_active_session now nm'.registered_users username client_sock;
    }
