-- ===== src/Storage/Disk.antt =====
-- The server's files: the content of each path that exists. The C library copies and writes whole
-- files here; a `fopen` for writing fails where `writable` says so.
use docs_plus_plus.Base.{
  ℕ, ◌-◌, ◌≡◌, refl, Bool, true, false, Option, none, some, [], ◌++◌, Text, codes, text_eq,
  text_eq_refl, take, if◌then◌else◌, ℤ, pos,
}
use docs_plus_plus.Codes.{
  success, minus_one, err_file_not_found, err_file_exists, err_server_error, max_path,
}

abbrev pub Disk : Type 0
Disk = Text → Option Text

-- `fopen(path, "w")`, the writes, and `fclose`.
unfoldable pub write_disk : Disk → Text → Text → Disk
write_disk disk path bytes q = if text_eq q path then some bytes else disk q

unfoldable pub unlink : Disk → Text → Disk
unlink disk path q = if text_eq q path then none else disk q

abbrev pub is_some : Option Text → Bool
is_some none = false
is_some (some b) = true

-- `access(path, F_OK) == 0`
unfoldable pub exists : Disk → Text → Bool
exists disk path = is_some (disk path)

-- What `snprintf(path, sizeof(path), ...)` keeps.
abbrev pub clip : Text → Text
clip = take (max_path - 1)

-- `snprintf(undo_path, sizeof(undo_path), "%s.undo", filepath)`
unfoldable pub undo_path : Text → Text
undo_path filepath = clip (filepath ++ codes ".undo")

-- `snprintf(checkpoint_path, sizeof(checkpoint_path), "%s.checkpoint_%s", filepath, tag)`
unfoldable pub checkpoint_path : Text → Text → Text
checkpoint_path filepath tag = clip (filepath ++ (codes ".checkpoint_" ++ tag))

module _ (writable : Text → Bool) where
  unfoldable pub create_undo_backup : Disk → Text → Disk × ℤ
  create_undo_backup disk filepath = elim (disk filepath) [
    | none ↦ (disk, minus_one)
    | some bytes ↦
        if writable (undo_path filepath)
        then (write_disk disk (undo_path filepath) bytes, pos 0)
        else (disk, minus_one)
  ]

  unfoldable pub restore_from_undo : Disk → Text → Disk × ℤ
  restore_from_undo disk filepath = elim (disk (undo_path filepath)) [
    | none ↦ (disk, minus_one)
    | some bytes ↦
        if writable filepath
        then (unlink (write_disk disk filepath bytes) (undo_path filepath), success)
        else (disk, minus_one)
  ]

  unfoldable pub create_checkpoint : Disk → Text → Text → Disk × ℤ
  unfolding exists
  create_checkpoint disk filepath tag =
      if exists disk (checkpoint_path filepath tag)
      then (disk, err_file_exists)
      else elim (disk filepath) [
        | none ↦ (disk, err_file_not_found)
        | some bytes ↦
            if writable (checkpoint_path filepath tag)
            then (write_disk disk (checkpoint_path filepath tag) bytes, success)
            else (disk, err_server_error)
      ]

  -- The backup's own failure is only logged.
  unfoldable pub revert_to_checkpoint : Disk → Text → Text → Disk × ℤ
  unfolding exists create_undo_backup
  revert_to_checkpoint disk filepath tag =
      if exists disk (checkpoint_path filepath tag)
      then (let saved = (create_undo_backup disk filepath).0 in
          elim (saved (checkpoint_path filepath tag)) [
            | none ↦ (saved, err_file_not_found)
            | some bytes ↦
                if writable filepath
                then (write_disk saved filepath bytes, success)
                else (saved, err_server_error)
          ])
      else (disk, err_file_not_found)

unfoldable pub undo_backup_exists : Disk → Text → Bool
unfolding exists
undo_backup_exists disk filepath = exists disk (undo_path filepath)

-- The bytes that `fread(buffer, 1, buffer_size - 1, file)` takes, with the status.
unfoldable pub view_checkpoint : Disk → Text → Text → ℕ → Text × ℤ
view_checkpoint disk filepath tag buffer_size = elim (disk (checkpoint_path filepath tag)) [
  | none ↦ ([], err_file_not_found)
  | some bytes ↦ (take (buffer_size - 1) bytes, success)
]

pub lookup-write_disk :
    (disk : Disk) (path q bytes : Text)
    → write_disk disk path bytes q ≡ (if text_eq q path then some bytes else disk q)
unfolding write_disk
lookup-write_disk disk path q bytes = refl

pub lookup-write_disk_self :
    (disk : Disk) (path bytes : Text) → write_disk disk path bytes path ≡ some bytes
unfolding write_disk
lookup-write_disk_self disk path bytes = rw (text_eq_refl path) refl
