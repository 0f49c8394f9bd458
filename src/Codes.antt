-- ===== src/Codes.antt =====
-- common.h: the status codes and the limits.
use docs_plus_plus.Base.{ℕ, ℤ, pos, negsuc, Bool, false, ◌==◌}

-- A status is an `int`: a code of common.h, or -1.
abbrev pub success : ℤ
success = pos 200

abbrev pub minus_one : ℤ
minus_one = negsuc 0

abbrev pub err_file_not_found : ℤ
err_file_not_found = pos 404

abbrev pub err_access_denied : ℤ
err_access_denied = pos 403

abbrev pub err_sentence_locked : ℤ
err_sentence_locked = pos 423

abbrev pub err_invalid_index : ℤ
err_invalid_index = pos 400

abbrev pub err_file_exists : ℤ
err_file_exists = pos 409

abbrev pub err_ss_unavailable : ℤ
err_ss_unavailable = pos 503

abbrev pub err_invalid_operation : ℤ
err_invalid_operation = pos 405

abbrev pub err_server_error : ℤ
err_server_error = pos 500

abbrev pub err_not_owner : ℤ
err_not_owner = pos 401

abbrev pub err_user_not_found : ℤ
err_user_not_found = pos 406

abbrev pub err_file_locked : ℤ
err_file_locked = pos 424

abbrev pub max_filename : ℕ
max_filename = 256

abbrev pub max_username : ℕ
max_username = 64

abbrev pub max_path : ℕ
max_path = 512

abbrev pub max_buffer : ℕ
max_buffer = 8192

abbrev pub max_acl_entries : ℕ
max_acl_entries = 100

abbrev pub max_clients : ℕ
max_clients = 100

abbrev pub max_files : ℕ
max_files = 10000

-- `status == SUCCESS`
abbrev pub is_success : ℤ → Bool
is_success (pos n) = n == 200
is_success (negsuc n) = false
