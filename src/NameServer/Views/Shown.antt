-- ===== src/NameServer/Views/Shown.antt =====
-- nm.c: who sees which file in the listing of a folder.
use docs_plus_plus.Base.{
  codes, ap, ◌+◌, ◌-◌, ◌++◌, ltb, take, append-nil, append_assoc, take_of_length-le, length-append,
  arith, and_parts, some-injective, none≢some, ℕ, ◌<◌, ◌≡◌, refl, sym, ◌∙◌, ℤ, inl, inr, Bool, true,
  false, ◌&&◌, ◌||◌, some, List, [], ◌∷◌, Text, text_eq, text_eq_refl, text_eq_comm, length,
  Bool-cases, keep_if, keep_if-mem, mem-keep_if,
}
use mathlib.Core.List.{Memᴰ}
use docs_plus_plus.Codes.{is_success, success, max_files, max_filename, max_buffer}
use docs_plus_plus.Trie.{Trie, trie_search, trie_get_all_files}
use docs_plus_plus.Trie.Contents.{Mem-trie_get_all_files}
use docs_plus_plus.NameServer.{
  NameServer, FileMetadata, StorageServerInfo, access_read, access_write,
}
use docs_plus_plus.NameServer.Access.{check_access}
use docs_plus_plus.NameServer.Access.Changes.{HasRoom, clash}
use docs_plus_plus.NameServer.Servers.{active_ss}
use docs_plus_plus.NameServer.Forwarding.{is_root, is_found, folder_exists, handle_move}
use docs_plus_plus.NameServer.Forwarding.Moves.{handle_move-trie_search}
use docs_plus_plus.NameServer.Views.{
  in_folder, folder_files, viewfolder_files, print_names, print_folder, folder_text,
  handle_viewfolder,
}

-- A file is listed for a user: it is in the folder, and the user may read it.
abbrev pub IsShown : Trie FileMetadata → Text → Text → FileMetadata → Type 0
IsShown t sender target_path meta =
    (in_folder target_path meta ≡ true) × (check_access t meta.filename sender access_read ≡ true)

abbrev is_listed : NameServer → Text → Text → FileMetadata → Bool
is_listed nm target_path sender x =
    in_folder target_path x && check_access nm.file_trie x.filename sender access_read

listing :
    (nm : NameServer) (target_path sender : Text) (files : List FileMetadata)
    → viewfolder_files nm target_path sender ≡ some files
    → keep_if (is_listed nm target_path sender) (trie_get_all_files nm.file_trie max_files) ≡ files
unfolding viewfolder_files folder_files
listing nm target_path sender files e =
    elim (Bool-cases (is_root target_path || is_found (trie_search nm.folder_trie target_path))) [
      | inl there ↦ some-injective (rw there at e)
      | inr missing ↦ absurd (none≢some (rw missing at e))
    ]

print_folder_lem :
    (files : List FileMetadata) (buffer : Text)
    → length buffer + length (print_names files) < max_buffer
    → print_folder buffer (length buffer) files ≡ some (buffer ++ print_names files)
unfolding print_folder print_names
print_folder_lem [] buffer fits = ap some (sym (append-nil buffer))
print_folder_lem (meta ∷ files) buffer fits =
    let line = meta.filename ++ b'\n' ∷ [] in
    let split : meta.filename ++ b'\n' ∷ print_names files ≡ line ++ print_names files =
      sym (append_assoc meta.filename (b'\n' ∷ []) (print_names files)) in
    let longer = length-append line (print_names files) in
    let total = ap length split in
    let whole : take (max_buffer - 1 - length buffer) line ≡ line =
      take_of_length-le (max_buffer - 1 - length buffer) line
        (omega (arith, fits, longer, total)) in
    let below : ltb max_buffer (length buffer) ≡ false = ground (arith, fits) in
    let rest =
      print_folder_lem files (buffer ++ line)
        (omega (arith, fits, longer, total, length-append buffer line)) in
    rw (below, whole, ← length-append buffer line)
      (rest
        ∙ ap some
            (append_assoc buffer line (print_names files) ∙ ap (λ t. buffer ++ t) (sym split)))

-- The text that a listing shows: a line with the name of each file, or the words for no file.
abbrev pub listed_text : List FileMetadata → Text
listed_text [] = codes "(empty folder)\n"
listed_text (meta ∷ files) = print_names (meta ∷ files)

folder_text_lem :
    (files : List FileMetadata)
    → length (print_names files) < max_buffer
    → folder_text files ≡ some (listed_text files)
unfolding folder_text
folder_text_lem [] fits = refl
folder_text_lem (meta ∷ files) fits = print_folder_lem (meta ∷ files) [] (omega (arith, fits))

-- The listing of a folder that is there, or of the root, shows the names of exactly those files
-- that some name finds, that are in the folder, and that the user may read by their own names: if
-- these names with their newlines are shorter than 8192 bytes, the response has all of them and
-- nothing else, or says that the folder is empty. There are fewer than `MAX_FILES` files.
pub handle_viewfolder-mem :
    (nm : NameServer) (target_path sender : Text) (files : List FileMetadata)
    → length (trie_get_all_files nm.file_trie max_files) < max_files
    → viewfolder_files nm target_path sender ≡ some files
    → length (print_names files) < max_buffer
    → (handle_viewfolder nm target_path sender ≡ some (some (listed_text files)))
      × ((meta : FileMetadata)
          → (Memᴰ meta files
              → ((key : Text) × (trie_search nm.file_trie key ≡ some meta))
                × IsShown nm.file_trie sender target_path meta)
            × ((key : Text)
                → trie_search nm.file_trie key ≡ some meta
                → IsShown nm.file_trie sender target_path meta
                → Memᴰ meta files))
unfolding handle_viewfolder
handle_viewfolder-mem nm target_path sender files room e fits = (
  rw (e, handle_viewfolder) (ap some (folder_text_lem files fits)),
  λ meta. rw (← listing nm target_path sender files e) (
    λ m.
        let (member, passes) = mem-keep_if (is_listed nm target_path sender) _ meta m in
        ((Mem-trie_get_all_files nm.file_trie max_files room meta).0 member, and_parts passes),
    λ key found (there, may).
        keep_if-mem (is_listed nm target_path sender) _ meta
          ((Mem-trie_get_all_files nm.file_trie max_files room meta).1 key found)
          (rw (there, may) refl),
  ),
)

slash-ne-nil : text_eq (b'/' ∷ []) [] ≡ false
unfolding text_eq
slash-ne-nil = refl

in_folder_slash :
    (target_path : Text) (meta : FileMetadata)
    → meta.folder_path ≡ b'/' ∷ []
    → in_folder target_path meta ≡ false
unfolding in_folder is_root
in_folder_slash [] meta e = rw e slash-ne-nil
in_folder_slash (c ∷ cs) meta e = elim (Bool-cases (text_eq (c ∷ cs) (b'/' ∷ []))) [
  | inl root ↦ rw (root, e) slash-ne-nil
  | inr other ↦ rw (other, e) (text_eq_comm (b'/' ∷ []) (c ∷ cs) ∙ other)
]

not-listed_slash :
    (nm : NameServer) (target_path user : Text) (files : List FileMetadata) (meta : FileMetadata)
    → meta.folder_path ≡ b'/' ∷ []
    → viewfolder_files nm target_path user ≡ some files
    → Memᴰ meta files
    → ⊥
not-listed_slash nm target_path user files meta slash e m =
    let (member, passes) =
      mem-keep_if (is_listed nm target_path user) (trie_get_all_files nm.file_trie max_files) meta
        (rw (listing nm target_path user files e) m) in
    clash (sym (rw (in_folder_slash target_path meta slash) at passes))

-- When a user who owns a file or may write it moves it to the folder `/`, its storage server being
-- active and moving it, the move succeeds and the search for the file gives it, but no listing of a
-- folder, the root included, shows it to anybody any more. The cache has room, and the name is
-- shorter than `MAX_FILENAME`.
pub handle_move_hidden :
    (fuel : ℕ) (answer : ℕ → ℤ) (nm : NameServer) (filename sender : Text) (meta : FileMetadata)
    (ss : StorageServerInfo)
    → trie_search nm.file_trie filename ≡ some meta
    → (text_eq meta.owner sender || check_access nm.file_trie filename sender access_write) ≡ true
    → active_ss meta.ss_id nm.ss_list ≡ some ss
    → is_success (answer meta.ss_id) ≡ true
    → HasRoom fuel nm.cache
    → length filename < max_filename
    → (nm' : NameServer) × (handle_move fuel answer nm filename sender (b'/' ∷ [])
        ≡ some (nm', success))
      × (trie_search nm'.file_trie filename ≡ some (record meta { folder_path = b'/' ∷ [] }))
      × ((target_path user : Text) (files : List FileMetadata)
          → viewfolder_files nm' target_path user ≡ some files
          → Memᴰ (record meta { folder_path = b'/' ∷ [] }) files
          → ⊥)
unfolding folder_exists is_root text_eq
handle_move_hidden fuel answer nm filename sender meta ss here may active accepts room short =
    let moved =
      handle_move-trie_search fuel answer nm filename sender (b'/' ∷ []) meta ss here may refl
        active accepts room short in
    (
      moved.0,
      moved.1,
      moved.2 filename ∙ rw (text_eq_refl filename) refl,
      λ target_path user files e m. not-listed_slash moved.0 target_path user files _ refl e m,
    )
