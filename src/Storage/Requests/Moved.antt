-- ===== src/Storage/Requests/Moved.antt =====
-- ss.c: files that were moved into a folder.
use docs_plus_plus.Base.{
  ◌+◌, ◌-◌, ◌<◌, ◌≡◌, refl, ap, inl, inr, Bool, true, false, none, some, [], ◌++◌, Text, codes,
  text_eq, text_eq_iff, text_eq_refl, ltb, length, length-append, take_of_length-le, Bool-cases,
  Option-cases, and_parts, arith,
}
use docs_plus_plus.Codes.{success, err_file_not_found, max_path}
use docs_plus_plus.Storage.Disk.{Disk, write_disk, unlink, exists, undo_path}
use docs_plus_plus.Storage.Sessions.{Env, file_path}
use docs_plus_plus.Storage.Server.{Server, delete_file_ss, read_file_ss}
use docs_plus_plus.Storage.Requests.{
  names_folder, full_path, rename, move_file_ss, get_file_info_ss,
}

longer_apart : (a b : Text) → length a < length b → text_eq a b ≡ false
longer_apart a b h = elim (Bool-cases (text_eq a b)) [
  | inr apart ↦ apart
  | inl same ↦ absurd (omega (arith, ap length ((text_eq_iff a b).0 same)))
]

module _ (can_move : Text → Text → Bool) where
  rename_away :
      (disk : Disk) (old new bytes : Text)
      → disk old ≡ some bytes
      → can_move old new ≡ true
      → text_eq old new ≡ false
      → ((rename can_move disk old new).0 old ≡ none) × ((rename can_move disk old new).1 ≡ true)
  unfolding rename write_disk unlink
  rename_away disk old new bytes at can apart =
      rw (at, rename, can, apart, text_eq_refl old) (refl, refl)

  moved_over :
      (disk : Disk) (old new q bytes : Text)
      → disk q ≡ none
      → text_eq q new ≡ false
      → write_disk (unlink disk old) new bytes q ≡ none
  unfolding write_disk unlink
  moved_over disk old new q bytes at apart = elim (Bool-cases (text_eq q old)) [
    | inl e ↦ rw (apart, e) refl
    | inr e ↦ rw (apart, e) at
  ]

  rename-none :
      (disk : Disk) (old new q : Text)
      → disk q ≡ none
      → text_eq q new ≡ false
      → (rename can_move disk old new).0 q ≡ none
  unfolding rename
  rename-none disk old new q at apart = elim (Option-cases (disk old)) [
    | inl gone ↦ rw (gone, rename) at
    | inr (bytes, there) ↦ elim (Bool-cases (can_move old new)) [
      | inl can ↦ rw (there, rename, can) (moved_over disk old new q bytes at apart)
      | inr not_made ↦ rw (there, rename, not_made) at
    ]
  ]

module _ (env : Env) (can_move : Text → Text → Bool) (filename path : Text) where
  module _ (folder : names_folder path ≡ true)
      (fits : length env.storage_path + length path + length filename + 6 < max_path) where
    unfoldable root_file : Text
    root_file = env.storage_path ++ (codes "/" ++ filename)

    unfoldable folder_file : Text
    folder_file = env.storage_path ++ (path ++ (codes "/" ++ filename))

    path_length : 0 < length path
    unfolding names_folder
    path_length = let parts = and_parts {a = ltb 0 (length path)} folder in ground (arith, parts.0)

    root_length : length root_file ≡ length env.storage_path + length filename + 1
    unfolding root_file
    root_length = rw (length-append env.storage_path (codes "/" ++ filename)) (omega arith)

    folder_length : length folder_file ≡ length env.storage_path + length path + length filename + 1
    unfolding folder_file
    folder_length =
        rw
          (
            length-append env.storage_path (path ++ (codes "/" ++ filename)),
            length-append path (codes "/" ++ filename),
          )
          (omega arith)

    file_path_lem : file_path env filename ≡ root_file
    unfolding file_path root_file
    file_path_lem = take_of_length-le (max_path - 1) root_file (omega (arith, root_length))

    full_path_lem : full_path env path filename ≡ folder_file
    unfolding full_path folder_file
    full_path_lem =
        rw folder (take_of_length-le (max_path - 1) folder_file (omega (arith, folder_length)))

    folder_apart : text_eq (file_path env filename) (full_path env path filename) ≡ false
    folder_apart =
        rw (file_path_lem, full_path_lem)
          (longer_apart root_file folder_file
            (omega (arith, root_length, folder_length, path_length)))

    undo_apart : text_eq (file_path env filename) (undo_path (full_path env path filename)) ≡ false
    unfolding undo_path
    undo_apart =
        let full = folder_file ++ codes ".undo" in
        let size : length full ≡ length folder_file + 5 =
          length-append folder_file (codes ".undo") in
        rw
          (
            file_path_lem,
            full_path_lem,
            take_of_length-le (max_path - 1) full (omega (arith, size, folder_length)),
          )
          (longer_apart root_file full
            (omega (arith, size, root_length, folder_length, path_length)))

  from_root : full_path env [] filename ≡ file_path env filename
  unfolding full_path names_folder
  from_root = refl

  absent_file :
      (sv : Server) (junk : Text)
      → sv.disk (file_path env filename) ≡ none
      → ((read_file_ss env junk sv filename).1 ≡ err_file_not_found)
        × ((delete_file_ss env junk sv filename).1 ≡ err_file_not_found)
        × ((get_file_info_ss env sv filename).1 ≡ err_file_not_found)
  unfolding read_file_ss delete_file_ss get_file_info_ss exists
  absent_file sv junk gone = (
    rw (gone, read_file_ss) refl,
    rw (gone, delete_file_ss) refl,
    rw (gone, get_file_info_ss) refl,
  )

  moved_from_root :
      (sv : Server) (bytes : Text)
      → names_folder path ≡ true
      → length env.storage_path + length path + length filename + 6 < max_path
      → sv.disk (file_path env filename) ≡ some bytes
      → can_move (file_path env filename) (full_path env path filename) ≡ true
      → ((move_file_ss env can_move sv filename [] path).1 ≡ success)
        × ((move_file_ss env can_move sv filename [] path).0.disk (file_path env filename) ≡ none)
  unfolding move_file_ss
  moved_from_root sv bytes folder fits at can =
      let old_full = file_path env filename in
      let new_full = full_path env path filename in
      let away =
        rename_away can_move sv.disk old_full new_full bytes at can (folder_apart folder fits) in
      let lost =
        rename-none can_move (rename can_move sv.disk old_full new_full).0 (undo_path old_full)
          (undo_path new_full) old_full away.0 (undo_apart folder fits) in
      (rw (from_root, move_file_ss, away.1) refl, rw (from_root, move_file_ss, away.1) lost)

  -- After a file is moved from the root into a folder, the server finds it no more: it is neither
  -- read nor deleted, and its statistics are an error. The file is there, `rename` can move it, and
  -- the paths fit their buffers.
  pub move_file_ss_lost :
      (sv : Server) (junk bytes : Text)
      → names_folder path ≡ true
      → length env.storage_path + length path + length filename + 6 < max_path
      → sv.disk (file_path env filename) ≡ some bytes
      → can_move (file_path env filename) (full_path env path filename) ≡ true
      → ((move_file_ss env can_move sv filename [] path).1 ≡ success)
        × ((read_file_ss env junk (move_file_ss env can_move sv filename [] path).0 filename).1
            ≡ err_file_not_found)
        × ((delete_file_ss env junk (move_file_ss env can_move sv filename [] path).0 filename).1
            ≡ err_file_not_found)
        × ((get_file_info_ss env (move_file_ss env can_move sv filename [] path).0 filename).1
            ≡ err_file_not_found)
  move_file_ss_lost sv junk bytes folder fits at can =
      let (done, gone) = moved_from_root sv bytes folder fits at can in
      let (unread, kept, unknown) =
        absent_file (move_file_ss env can_move sv filename [] path).0 junk gone in
      (done, unread, kept, unknown)
