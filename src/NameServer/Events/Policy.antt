-- ===== src/NameServer/Events/Policy.antt =====
-- nm.c: every event keeps to the policy.
use docs_plus_plus.Base.{
  ℕ, zero, suc, ℤ, ◌≡◌, refl, subst, inl, inr, ◌&&◌, Option, none, some, List, [], ◌∷◌, Text, codes,
  Bool-cases, Option-cases, some-injective, none≢some, arith, take,
}
use docs_plus_plus.Codes.{max_files}
use docs_plus_plus.Trie.{Trie, trie_search}
use docs_plus_plus.Trie.Lookup.{is_ascii}
use docs_plus_plus.Trie.Refinement.{IsAllocated}
use docs_plus_plus.Wire.{Message}
use docs_plus_plus.NameServer.{NameServer, FileMetadata}
use docs_plus_plus.NameServer.Access.{add_access, rem_access}
use docs_plus_plus.NameServer.Files.{new_metadata}
use docs_plus_plus.NameServer.Clients.{join_clients, admit, login, remove_client, logout}
use docs_plus_plus.NameServer.Servers.{
  ServerStep, registration, heartbeat_connection, heartbeat, heartbeat_loss, monitoring,
  strtok_from, fill_slot, put_slot, register_files, register_ss, or_same, server_step,
}
use docs_plus_plus.NameServer.Servers.Files.{
  adopted, reports, register_file-IsAllocated, register_ss-trie_search,
}
use docs_plus_plus.NameServer.Views.{handle_viewfolder}
use docs_plus_plus.NameServer.Dispatch.{
  Answers, Reply, Request, request_access, view_requests, approve_request, deny_request, checkpoint,
  create_folder, move, view_folder, view, info, listing, create, delete, change_add, change_remove,
  exec, redirection, unknown, request_of, access_of, Served, sends, shows, shows_found, sends_text,
  sends_response, serve, handle_request,
}
use docs_plus_plus.NameServer.Dispatch.Rights.{Change, kept, created, Change-kept, Steps, no_step}
use docs_plus_plus.NameServer.Dispatch.Handlers.{
  Keeps, handle_access-Keeps, handle_approverequest-Keeps, handle_create-Keeps, handle_delete-Keeps,
  handle_move-Keeps,
}
use docs_plus_plus.NameServer.Dispatch.Lookups.{
  same_step, handle_checkpoint_request-Keeps, handle_info-Keeps, handle_exec-Keeps,
  handle_requestaccess-same, handle_denyrequest-same, redirect-Keeps, handle_createfolder-same,
}
use docs_plus_plus.NameServer.Dispatch.Refresh.{IsNamed, handle_view-Keeps}
use docs_plus_plus.NameServer.Events.{
  Event, request, server, arrival, departure, served_state, handle_event, actor,
}

abbrev ServedKeeps : Text → Trie FileMetadata → Option Served → Type 0
ServedKeeps sender t none = Unit {0}
ServedKeeps sender t (some s) = Steps sender t s.nm.file_trie

module _ (sender : Text) (t : Trie FileMetadata) (response : Message) where
  sends-Keeps : (r : Reply ℤ) → Keeps sender t r → ServedKeeps sender t (sends response r)
  unfolding sends
  sends-Keeps none s = tt
  sends-Keeps (some (nm, status)) s = s

  shows-Keeps :
      {A : Type 0} (r : Option (NameServer × A))
      → Keeps sender t r
      → ServedKeeps sender t (shows response r)
  unfolding shows
  shows-Keeps none s = tt
  shows-Keeps (some (nm, shown)) s = s

  shows_found-Keeps :
      {A : Type 0} (r : Reply (Option A))
      → Keeps sender t r
      → ServedKeeps sender t (shows_found response r)
  unfolding shows_found
  shows_found-Keeps none s = tt
  shows_found-Keeps (some (nm, none)) s = s
  shows_found-Keeps (some (nm, some shown)) s = s

  sends_text-Keeps :
      (r : Reply (Text × ℤ)) → Keeps sender t r → ServedKeeps sender t (sends_text response r)
  unfolding sends_text
  sends_text-Keeps none s = tt
  sends_text-Keeps (some (nm, (text, status))) s = s

sends_response-Keeps :
    (sender : Text) (t : Trie FileMetadata) (r : Reply Message)
    → Keeps sender t r
    → ServedKeeps sender t (sends_response r)
unfolding sends_response
sends_response-Keeps sender t none s = tt
sends_response-Keeps sender t (some (nm, response)) s = s

module _ (a : Answers) (nm : NameServer) (response msg : Message) (root : IsAllocated nm.file_trie)
    (named : IsNamed nm.file_trie) where
  serve-Keeps : (r : Request) → ServedKeeps msg.sender nm.file_trie (serve r a nm response msg)
  unfolding serve
  serve-Keeps request_access =
      same_step msg.sender nm root
        (handle_requestaccess-same msg.sender nm root a.now msg.filename (access_of msg.access))
  serve-Keeps view_requests = no_step nm.file_trie root
  serve-Keeps approve_request =
      sends-Keeps msg.sender nm.file_trie response _
        (handle_approverequest-Keeps msg.sender nm root a.fuel msg.sentence_index)
  serve-Keeps deny_request =
      same_step msg.sender nm root (handle_denyrequest-same msg.sender nm root msg.sentence_index)
  serve-Keeps checkpoint =
      sends-Keeps msg.sender nm.file_trie response _
        (handle_checkpoint_request-Keeps msg.sender nm root a.fuel a.status msg.filename)
  serve-Keeps create_folder =
      same_step msg.sender nm root
        (handle_createfolder-same msg.sender nm root a.now a.status msg.target_path msg.foldername)
  serve-Keeps move =
      sends-Keeps msg.sender nm.file_trie response _
        (handle_move-Keeps msg.sender nm root a.fuel a.status msg.filename msg.target_path)
  serve-Keeps view_folder =
      shows_found-Keeps msg.sender nm.file_trie response
        (some (nm, handle_viewfolder nm msg.target_path msg.sender))
        (no_step {sender = msg.sender} nm.file_trie root)
  serve-Keeps view =
      shows-Keeps msg.sender nm.file_trie response _
        (handle_view-Keeps a.fuel a.info nm msg.payload msg.sender root named)
  serve-Keeps info =
      shows_found-Keeps msg.sender nm.file_trie response _
        (handle_info-Keeps msg.sender nm root a msg.filename)
  serve-Keeps listing = no_step nm.file_trie root
  serve-Keeps create =
      sends-Keeps msg.sender nm.file_trie response _
        (handle_create-Keeps msg.sender nm root a.fuel a.now a.status msg.filename)
  serve-Keeps delete =
      sends-Keeps msg.sender nm.file_trie response _
        (handle_delete-Keeps msg.sender nm root a.fuel a.has_locks a.status msg.filename)
  serve-Keeps change_add = sends-Keeps msg.sender nm.file_trie response _ (
      handle_access-Keeps msg.sender nm root a.fuel msg.filename msg.target_user
        (add_access (access_of msg.access)))
  serve-Keeps change_remove =
      sends-Keeps msg.sender nm.file_trie response _
        (handle_access-Keeps msg.sender nm root a.fuel msg.filename msg.target_user rem_access)
  serve-Keeps exec =
      sends_text-Keeps msg.sender nm.file_trie response _
        (handle_exec-Keeps msg.sender nm root a msg.filename)
  serve-Keeps (redirection writes) =
      sends_response-Keeps msg.sender nm.file_trie _
        (redirect-Keeps msg.sender nm root a.fuel a.now response writes msg.filename)
  serve-Keeps unknown = no_step nm.file_trie root

register_files-IsAllocated :
    (room now ss_id : ℕ) (t : Trie FileMetadata) (files : List Text)
    → IsAllocated t
    → IsAllocated (register_files room now ss_id t files)
unfolding register_files
register_files-IsAllocated room now ss_id t [] root = root
register_files-IsAllocated zero now ss_id t (file ∷ files) root = root
register_files-IsAllocated (suc room) now ss_id t (file ∷ files) root =
    register_files-IsAllocated room now ss_id _ files
      (register_file-IsAllocated now ss_id t file root)

adopted-Change :
    (now ss_id : ℕ) (q : Text) (o : Option FileMetadata)
    → Change (codes "system") q o (some (adopted now ss_id q o))
unfolding new_metadata
adopted-Change now ss_id q none = created refl refl refl
adopted-Change now ss_id q (some m) = kept (record { filename = refl; owner = refl; acl = refl })

module _ (nm : NameServer) (root : IsAllocated nm.file_trie) where
  register_ss-Steps :
      (now sock ss_id : ℕ) (msg : Message) (nm' : NameServer)
      → register_ss now nm sock ss_id msg ≡ some nm'
      → Steps (codes "system") nm.file_trie nm'.file_trie
  unfolding register_ss
  register_ss-Steps now sock ss_id msg nm' e = record {
    allocated =
        elim (Option-cases (
          put_slot (fill_slot now sock ss_id msg (take max_files (strtok_from [] msg.payload)))
            nm.ss_list)) [
              | inl full ↦ absurd (none≢some (rw (full, register_ss) at e))
              | inr (ss, put) ↦
                  subst (λ (x : NameServer). IsAllocated x.file_trie)
                    (some-injective (rw (put, register_ss) at e))
                    (register_files-IsAllocated max_files now ss_id nm.file_trie
                      (strtok_from [] msg.payload) root)
            ];
    changes = λ q.
        elim (Bool-cases (is_ascii q && reports (take max_files (strtok_from [] msg.payload)) q)) [
          | inl reported ↦
              rw (register_ss-trie_search now sock ss_id msg nm nm' root e q, reported)
                (adopted-Change now ss_id q (trie_search nm.file_trie q))
          | inr other ↦
              rw (register_ss-trie_search now sock ss_id msg nm nm' root e q, other)
                (Change-kept (trie_search nm.file_trie q))
        ];
  }

  server_step-Steps :
      (step : ServerStep) → Steps (codes "system") nm.file_trie (server_step step nm).file_trie
  unfolding server_step or_same
  server_step-Steps (registration now sock ss_id msg) =
      elim (Option-cases (register_ss now nm sock ss_id msg)) [
        | inl full ↦ rw (full, or_same) (no_step nm.file_trie root)
        | inr (nm', e) ↦ rw (e, or_same) (register_ss-Steps now sock ss_id msg nm' e)
      ]
  server_step-Steps (heartbeat_connection now sock ss_id) = no_step nm.file_trie root
  server_step-Steps (heartbeat now ss_id) = no_step nm.file_trie root
  server_step-Steps (heartbeat_loss ss_id) = no_step nm.file_trie root
  server_step-Steps (monitoring now) = no_step nm.file_trie root

  login-same :
      (now : ℕ) (sender ip : Text) (sock : ℕ)
      → (login now nm sender ip sock).0.file_trie ≡ nm.file_trie
  unfolding login admit join_clients
  login-same now sender ip sock = ground arith

  logout-same : (now idx sock : ℕ) → (logout now nm idx sock).file_trie ≡ nm.file_trie
  unfolding logout remove_client
  logout-same now idx sock = ground arith

  -- Every event acts on the files as the policy allows its actor.
  pub handle_event-Steps :
      (e : Event) (nm' : NameServer)
      → IsNamed nm.file_trie
      → handle_event e nm ≡ some nm'
      → Steps (actor e) nm.file_trie nm'.file_trie
  unfolding handle_event handle_request serve
  handle_event-Steps (request a response msg) nm' named done =
      served (handle_request a nm response msg)
        (serve-Keeps a nm response msg root named (request_of msg.kind)) done
    where
      served :
          (r : Option Served)
          → ServedKeeps msg.sender nm.file_trie r
          → served_state r ≡ some nm'
          → Steps msg.sender nm.file_trie nm'.file_trie
      served none s e = absurd (none≢some e)
      served (some s) step e =
          subst (λ (x : NameServer). Steps msg.sender nm.file_trie x.file_trie) (some-injective e)
            step
  handle_event-Steps (server step) nm' named done =
      subst (λ (x : NameServer). Steps (codes "system") nm.file_trie x.file_trie)
        (some-injective done) (server_step-Steps step)
  handle_event-Steps (arrival now sender ip sock) nm' named done =
      subst (λ (x : NameServer). Steps (codes "system") nm.file_trie x.file_trie)
        (some-injective done) (same_step (codes "system") nm root (login-same now sender ip sock))
  handle_event-Steps (departure now idx sock) nm' named done =
      subst (λ (x : NameServer). Steps (codes "system") nm.file_trie x.file_trie)
        (some-injective done) (same_step (codes "system") nm root (logout-same now idx sock))
