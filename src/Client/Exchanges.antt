-- ===== src/Client/Exchanges.antt =====
-- client.c: the handlers of the commands that ask the name server, each with the message that it
-- sends and what it shows of the answer. The names are shorter than the fields, into which `strcpy`
-- writes them, and the calls of the socket succeed.
use docs_plus_plus.Base.{
  ℕ, ◌-◌, ℤ, pos, Option, none, some, [], ◌∷◌, ◌++◌, Text, codes, text_eq, take, if◌then◌else◌,
}
use docs_plus_plus.Codes.{max_buffer}
use docs_plus_plus.Wire.{Message, init_message, atoi}
use docs_plus_plus.Client.Answers.{shown, line_text}
use docs_plus_plus.Client.Commands.{
  Command, list, view_requests, view, read, create, delete, info, stream, exec, undo, view_folder,
  list_checkpoints, approve_request, deny_request, write, rem_access, move, checkpoint,
  view_checkpoint, revert, request_access, add_access, create_folder,
}

-- What a handler sends to the name server, and what it prints of the answer.
pub record Exchange : Type 0 where
  pub asks : Message
  pub shows : Message → Text

-- `-R` is `ACCESS_READ`, and `-W` is `ACCESS_READWRITE`.
unfoldable pub flag_access : Text → Option ℤ
flag_access flag =
    if text_eq flag (codes "-R")
    then some (pos 1)
    else if text_eq flag (codes "-W")
    then some (pos 3)
    else none

abbrev pub from : Text → ℕ → Message
unfolding init_message
from username k = record init_message { kind = pos k; sender = username }

abbrev pub about_file : Text → ℕ → Text → Message
unfolding init_message
about_file username k filename = record (from username k) { filename = filename }

abbrev pub about_checkpoint : Text → ℕ → Text → Text → Message
unfolding init_message
about_checkpoint username k filename tag = record (about_file username k filename) {
  checkpoint_tag = tag;
}

-- The exchange with the access of the flag; with another flag, nothing is sent.
unfoldable pub with_access : Exchange → Option ℤ → Option Exchange
with_access x none = none
with_access x (some access) = some (record x { asks = record x.asks { access = access } })

abbrev pub or_empty : Option Text → Text
or_empty none = []
or_empty (some t) = t

-- An exchange that shows a text if the status is a success, and the error otherwise.
abbrev pub exchange : Message → (Message → Text) → Exchange
unfolding shown
exchange msg text = record { asks = msg; shows = λ r. shown r (text r) }

abbrev pub says : Text → Message → Text
says text r = line_text text

abbrev pub data_text : Message → Text
data_text r = r.payload

unfoldable pub createfolder_exchange : Text → Text → Option Text → Exchange
unfolding init_message shown atoi
createfolder_exchange u foldername parent_path =
    exchange (record (from u 22) { foldername = foldername; target_path = or_empty parent_path })
      (says (codes "Folder created successfully!"))

unfoldable pub move_file_exchange : Text → Text → Text → Exchange
unfolding init_message shown atoi
move_file_exchange u filename foldername =
    exchange (record (about_file u 23 filename) { target_path = foldername })
      (says (codes "File moved successfully!"))

unfoldable pub viewfolder_exchange : Text → Text → Exchange
unfolding init_message shown atoi
viewfolder_exchange u foldername =
    exchange (record (from u 24) { target_path = foldername }) data_text

unfoldable pub view_exchange : Text → Option Text → Exchange
unfolding init_message shown atoi
view_exchange u args =
    exchange (record (from u 7) { payload = take (max_buffer - 1) (or_empty args) }) data_text

unfoldable pub checkpoint_exchange : Text → Text → Text → Exchange
unfolding init_message shown atoi
checkpoint_exchange u filename tag =
    exchange (about_checkpoint u 25 filename tag)
      (says (codes "Checkpoint '" ++ (tag ++ codes "' created successfully!")))

unfoldable pub viewcheckpoint_exchange : Text → Text → Text → Exchange
unfolding init_message shown atoi
viewcheckpoint_exchange u filename tag =
    exchange (about_checkpoint u 26 filename tag) (λ r. line_text r.payload)

unfoldable pub revert_exchange : Text → Text → Text → Exchange
unfolding init_message shown atoi
revert_exchange u filename tag =
    exchange (about_checkpoint u 27 filename tag)
      (says (codes "File reverted to checkpoint '" ++ (tag ++ codes "' successfully!")))

unfoldable pub listcheckpoints_exchange : Text → Text → Exchange
unfolding init_message shown atoi
listcheckpoints_exchange u filename =
    exchange (about_file u 28 filename)
      (λ r. codes "Checkpoints for " ++ (filename ++ (line_text (codes ":") ++ r.payload)))

unfoldable pub create_exchange : Text → Text → Exchange
unfolding init_message shown atoi
create_exchange u filename =
    exchange (about_file u 2 filename) (says (codes "File created successfully!"))

unfoldable pub delete_exchange : Text → Text → Exchange
unfolding init_message shown atoi
delete_exchange u filename =
    exchange (about_file u 5 filename) (says (codes "File deleted successfully!"))

unfoldable pub info_exchange : Text → Text → Exchange
unfolding init_message shown atoi
info_exchange u filename = exchange (about_file u 6 filename) data_text

unfoldable pub list_exchange : Text → Exchange
unfolding init_message shown atoi
list_exchange u = exchange (from u 8) data_text

unfoldable pub remaccess_exchange : Text → Text → Text → Exchange
unfolding init_message shown atoi
remaccess_exchange u filename username =
    exchange (record (about_file u 10 filename) { target_user = username })
      (says (codes "Access removed successfully!"))

unfoldable pub exec_exchange : Text → Text → Exchange
unfolding init_message shown atoi
exec_exchange u filename = exchange (about_file u 12 filename) data_text

unfoldable pub viewrequests_exchange : Text → Exchange
unfolding init_message shown atoi
viewrequests_exchange u =
    exchange (from u 30) (λ r. line_text (codes "Pending Access Requests:") ++ r.payload)

unfoldable pub approverequest_exchange : Text → Text → Exchange
unfolding init_message shown atoi
approverequest_exchange u id =
    exchange (record (from u 31) { sentence_index = atoi id })
      (says (codes "Access request approved successfully!"))

unfoldable pub denyrequest_exchange : Text → Text → Exchange
unfolding init_message shown atoi
denyrequest_exchange u id =
    exchange (record (from u 32) { sentence_index = atoi id })
      (says (codes "Access request denied successfully!"))

unfoldable pub addaccess_exchange : Text → Text → Text → Text → Option Exchange
unfolding init_message shown flag_access with_access
addaccess_exchange u flag filename username =
    with_access
      (exchange (record (about_file u 9 filename) { target_user = username })
        (says (codes "Access granted successfully!")))
      (flag_access flag)

-- The line with the text of the answer, if there is one.
unfoldable pub extra_line : Text → Text
extra_line [] = []
extra_line (c ∷ cs) = line_text (c ∷ cs)

unfoldable pub requestaccess_exchange : Text → Text → Text → Option Exchange
unfolding init_message shown flag_access with_access extra_line
requestaccess_exchange u flag filename =
    with_access
      (exchange (about_file u 29 filename)
        (λ r. line_text (codes "Access request sent successfully!") ++ extra_line r.payload))
      (flag_access flag)

-- The exchange of a command that asks only the name server.
unfoldable pub exchange_of : Text → Command → Option Exchange
unfolding createfolder_exchange move_file_exchange viewfolder_exchange view_exchange
    checkpoint_exchange viewcheckpoint_exchange revert_exchange listcheckpoints_exchange
    create_exchange delete_exchange info_exchange list_exchange remaccess_exchange exec_exchange
    viewrequests_exchange approverequest_exchange denyrequest_exchange addaccess_exchange
    requestaccess_exchange
exchange_of u list = some (list_exchange u)
exchange_of u view_requests = some (viewrequests_exchange u)
exchange_of u (view args) = some (view_exchange u args)
exchange_of u (create filename) = some (create_exchange u filename)
exchange_of u (delete filename) = some (delete_exchange u filename)
exchange_of u (info filename) = some (info_exchange u filename)
exchange_of u (exec filename) = some (exec_exchange u filename)
exchange_of u (view_folder foldername) = some (viewfolder_exchange u foldername)
exchange_of u (list_checkpoints filename) = some (listcheckpoints_exchange u filename)
exchange_of u (approve_request id) = some (approverequest_exchange u id)
exchange_of u (deny_request id) = some (denyrequest_exchange u id)
exchange_of u (rem_access filename username) = some (remaccess_exchange u filename username)
exchange_of u (move filename foldername) = some (move_file_exchange u filename foldername)
exchange_of u (checkpoint filename tag) = some (checkpoint_exchange u filename tag)
exchange_of u (view_checkpoint filename tag) = some (viewcheckpoint_exchange u filename tag)
exchange_of u (revert filename tag) = some (revert_exchange u filename tag)
exchange_of u (request_access flag filename) = requestaccess_exchange u flag filename
exchange_of u (add_access flag filename username) = addaccess_exchange u flag filename username
exchange_of u (create_folder foldername parent_path) =
    some (createfolder_exchange u foldername parent_path)
exchange_of u command = none

-- The first message of a command that goes on with a storage server.
unfoldable pub redirected_message : Text → Command → Option Message
unfolding init_message
redirected_message u (read filename) = some (about_file u 3 filename)
redirected_message u (stream filename) = some (about_file u 3 filename)
redirected_message u (undo filename) = some (about_file u 13 filename)
redirected_message u (write filename sentence) = some (about_file u 4 filename)
redirected_message u command = none

-- The message that a command sends to the name server, if it sends one.
unfoldable pub nm_message : Text → Command → Option Message
unfolding exchange_of redirected_message
nm_message u command = elim (exchange_of u command) [
  | none ↦ redirected_message u command
  | some x ↦ some x.asks
]
