-- ===== src/Client/Answers.antt =====
-- client.c: the texts of the answers.
use docs_plus_plus.Base.{
  ℤ, pos, negsuc, Bool, false, [], ◌∷◌, ◌++◌, Text, codes, ◌==◌, if◌then◌else◌,
}
use docs_plus_plus.Codes.{
  is_success, err_file_not_found, err_access_denied, err_sentence_locked, err_invalid_index,
  err_file_exists, err_ss_unavailable, err_invalid_operation, err_not_owner, err_user_not_found,
  err_file_locked,
}
use docs_plus_plus.Wire.{Message, format_int}

unfoldable pub is_status : ℤ → ℤ → Bool
is_status (pos a) (pos b) = a == b
is_status (negsuc a) (negsuc b) = a == b
is_status a b = false

-- `print_error`, less "Error: " and the newline. `ERR_SERVER_ERROR` has no text.
unfoldable pub error_text : ℤ → Text
unfolding is_status format_int
error_text status =
    if is_status status err_file_not_found
    then codes "File not found"
    else if is_status status err_access_denied
    then codes "Access denied"
    else if is_status status err_sentence_locked
    then codes "Sentence is locked by another user"
    else if is_status status err_file_locked
    then codes "Cannot delete file - one or more sentences are currently locked by other users"
    else if is_status status err_invalid_index
    then codes "Invalid sentence or word index"
    else if is_status status err_file_exists
    then codes "File already exists"
    else if is_status status err_ss_unavailable
    then codes "Storage server unavailable"
    else if is_status status err_invalid_operation
    then codes "Invalid operation"
    else if is_status status err_not_owner
    then codes "You are not the owner of this file"
    else if is_status status err_user_not_found
    then codes "User not found"
    else codes "Unknown error (code " ++ (format_int status ++ codes ")")

unfoldable pub print_error : ℤ → Text
unfolding error_text
print_error status = codes "Error: " ++ (error_text status ++ 10 ∷ [])

-- What a handler shows of an answer: a text if it is a success, or the error.
unfoldable pub shown : Message → Text → Text
unfolding print_error
shown response text = if is_success response.status then text else print_error response.status

abbrev pub line_text : Text → Text
line_text t = t ++ 10 ∷ []
