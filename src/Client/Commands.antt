-- ===== src/Client/Commands.antt =====
-- client.c: the command loop, from a typed line to a command with its arguments.
pub mod Words
use docs_plus_plus.Base.{
  ℕ, ◌+◌, ◌-◌, ℤ, pos, negsuc, Bool, true, false, ◌||◌, ◌&&◌, Option, none, some, List, [], ◌∷◌,
  ◌++◌, Text, codes, text_eq, ltb, leb, ◌==◌, if◌then◌else◌, concat, take, length,
}
use docs_plus_plus.Codes.{
  is_success, max_buffer, max_filename, err_file_not_found, err_access_denied, err_sentence_locked,
  err_invalid_index, err_file_exists, err_ss_unavailable, err_invalid_operation, err_not_owner,
  err_user_not_found, err_file_locked,
}
use docs_plus_plus.Wire.{Message, init_message, atoi}
use docs_plus_plus.Client.{trim_whitespace}

-- The delimiters `" \t"` of `strtok_r`.
abbrev pub is_gap : ℕ → Bool
is_gap c = c == b' ' || c == 9

unfoldable pub word_before : Text → List Text → List Text
word_before [] words = words
word_before (c ∷ cs) words = (c ∷ cs) ∷ words

-- The words of `strtok_r`, none of them empty, after the bytes `word` of the current one.
unfoldable pub words_from : Text → Text → List Text
unfolding word_before
words_from word [] = word_before word []
words_from word (c ∷ cs) =
    let ended = word_before word (words_from [] cs) in
    let longer = words_from (word ++ c ∷ []) cs in if is_gap c then ended else longer

-- `tail`: the arguments of VIEW, put together.
unfoldable pub tail_text : List Text → Text
tail_text [] = []
tail_text (arg ∷ args) = take (max_buffer - 1) (b' ' ∷ concat (arg ∷ args))

-- What a line asks for: nothing, or a command with its arguments.
pub data Command : Type 0 where
  nothing exit help list view_requests : Command
  usage unknown : Text → Command
  view : Option Text → Command
  read create delete info stream exec undo view_folder list_checkpoints : Text → Command
  approve_request deny_request : Text → Command
  write rem_access move checkpoint view_checkpoint revert request_access : Text → Text → Command
  add_access : Text → Text → Text → Command
  create_folder : Text → Option Text → Command

-- A command of one, two or three arguments; further words are ignored.
unfoldable pub one_arg : (Text → Command) → Text → List Text → Command
one_arg command cmd [] = usage cmd
one_arg command cmd (a ∷ args) = command a

unfoldable pub two_args : (Text → Text → Command) → Text → List Text → Command
two_args command cmd [] = usage cmd
two_args command cmd (a ∷ []) = usage cmd
two_args command cmd (a ∷ b ∷ args) = command a b

unfoldable pub three_args : (Text → Text → Text → Command) → Text → List Text → Command
three_args command cmd [] = usage cmd
three_args command cmd (a ∷ []) = usage cmd
three_args command cmd (a ∷ b ∷ []) = usage cmd
three_args command cmd (a ∷ b ∷ c ∷ args) = command a b c

unfoldable pub folder_args : Text → List Text → Command
folder_args cmd [] = usage cmd
folder_args cmd (a ∷ []) = create_folder a none
folder_args cmd (a ∷ b ∷ args) = create_folder a (some b)

unfoldable pub view_args : List Text → Command
unfolding tail_text
view_args [] = view none
view_args (a ∷ args) = view (some (tail_text (a ∷ args)))

-- The chain of `strcmp(cmd, ...)`.
unfoldable pub command_of : Text → List Text → Command
unfolding one_arg two_args three_args folder_args view_args
command_of cmd args =
    if text_eq cmd (codes "exit") || text_eq cmd (codes "quit")
    then exit
    else if text_eq cmd (codes "help")
    then help
    else if text_eq cmd (codes "VIEW")
    then view_args args
    else if text_eq cmd (codes "READ")
    then one_arg read cmd args
    else if text_eq cmd (codes "CREATE")
    then one_arg create cmd args
    else if text_eq cmd (codes "WRITE")
    then two_args write cmd args
    else if text_eq cmd (codes "DELETE")
    then one_arg delete cmd args
    else if text_eq cmd (codes "INFO")
    then one_arg info cmd args
    else if text_eq cmd (codes "STREAM")
    then one_arg stream cmd args
    else if text_eq cmd (codes "LIST")
    then list
    else if text_eq cmd (codes "ADDACCESS")
    then three_args add_access cmd args
    else if text_eq cmd (codes "REMACCESS")
    then two_args rem_access cmd args
    else if text_eq cmd (codes "EXEC")
    then one_arg exec cmd args
    else if text_eq cmd (codes "UNDO")
    then one_arg undo cmd args
    else if text_eq cmd (codes "CREATEFOLDER")
    then folder_args cmd args
    else if text_eq cmd (codes "MOVE")
    then two_args move cmd args
    else if text_eq cmd (codes "VIEWFOLDER")
    then one_arg view_folder cmd args
    else if text_eq cmd (codes "CHECKPOINT")
    then two_args checkpoint cmd args
    else if text_eq cmd (codes "VIEWCHECKPOINT")
    then two_args view_checkpoint cmd args
    else if text_eq cmd (codes "REVERT")
    then two_args revert cmd args
    else if text_eq cmd (codes "LISTCHECKPOINTS")
    then one_arg list_checkpoints cmd args
    else if text_eq cmd (codes "REQUESTACCESS")
    then two_args request_access cmd args
    else if text_eq cmd (codes "VIEWREQUESTS")
    then view_requests
    else if text_eq cmd (codes "APPROVEREQUEST")
    then one_arg approve_request cmd args
    else if text_eq cmd (codes "DENYREQUEST")
    then one_arg deny_request cmd args
    else unknown cmd

unfoldable pub command_of_words : List Text → Command
unfolding command_of
command_of_words [] = nothing
command_of_words (cmd ∷ args) = command_of cmd args

-- A line of the loop.
unfoldable pub parse_command : Text → Command
unfolding trim_whitespace words_from command_of_words
parse_command line = command_of_words (words_from [] (trim_whitespace line))
