-- ===== src/Witnesses/Storing.antt =====
-- ss.c at a concrete input: a file that is moved into a folder.
use docs_plus_plus.Base.{
  ◌≡◌, refl, Bool, true, some, none, [], ◌∷◌, Text, text_eq, if◌then◌else◌, arith,
}
use docs_plus_plus.Codes.{success, err_file_not_found}
use docs_plus_plus.Storage.Sessions.{Env, file_path}
use docs_plus_plus.Storage.Server.{Server, read_file_ss, delete_file_ss}
use docs_plus_plus.Storage.Requests.{names_folder, move_file_ss, get_file_info_ss}
use docs_plus_plus.Storage.Requests.Moved.{move_file_ss_lost}

-- The directory `s`, where all can be written and moved, the file `n` in it, and the folder `/f`.
abbrev open_env : Env
open_env = record { storage_path = 115 ∷ []; writable = λ path. true }

abbrev moves_all : Text → Text → Bool
moves_all old new = true

abbrev file_n : Text
file_n = 110 ∷ []

abbrev folder_f : Text
folder_f = 47 ∷ 102 ∷ []

abbrev one_file : Server
one_file = record {
  disk = λ q. if text_eq q (115 ∷ 47 ∷ 110 ∷ []) then some (97 ∷ 46 ∷ []) else none;
  table = [];
  sessions = [];
  queues = [];
}

move_file_ss_lost_example :
    ((move_file_ss open_env moves_all one_file file_n [] folder_f).1 ≡ success)
    × ((read_file_ss open_env []
          (move_file_ss open_env moves_all one_file file_n [] folder_f).0
          file_n).1
        ≡ err_file_not_found)
    × ((delete_file_ss open_env []
          (move_file_ss open_env moves_all one_file file_n [] folder_f).0
          file_n).1
        ≡ err_file_not_found)
    × ((get_file_info_ss open_env
          (move_file_ss open_env moves_all one_file file_n [] folder_f).0
          file_n).1
        ≡ err_file_not_found)
unfolding names_folder file_path text_eq
move_file_ss_lost_example =
    move_file_ss_lost open_env moves_all file_n folder_f one_file [] (97 ∷ 46 ∷ []) refl
      (ground arith) refl refl
