-- ===== src/Storage/Backups.antt =====
-- file_ops.c: the undo copy and the checkpoints of a file, one after the other.
use docs_plus_plus.Base.{
  ◌≡◌, refl, ◌∙◌, Bool, true, false, some, Text, text_eq, text_eq_refl, other_name, ap, pos,
}
use docs_plus_plus.Codes.{success}
use docs_plus_plus.Storage.Disk.{
  Disk, write_disk, unlink, exists, undo_path, checkpoint_path, create_undo_backup,
  restore_from_undo, revert_to_checkpoint, lookup-write_disk,
}

module _ (writable : Text → Bool) (filepath tag : Text) where
  pub backup_lem :
      (disk : Disk) (old : Text)
      → disk filepath ≡ some old
      → writable (undo_path filepath) ≡ true
      → create_undo_backup writable disk filepath
        ≡ (write_disk disk (undo_path filepath) old, pos 0)
  unfolding create_undo_backup
  backup_lem disk old at can = rw (at, create_undo_backup, can) refl

  pub restore_lem :
      (disk : Disk) (old : Text)
      → disk (undo_path filepath) ≡ some old
      → writable filepath ≡ true
      → restore_from_undo writable disk filepath
        ≡ (unlink (write_disk disk filepath old) (undo_path filepath), success)
  unfolding restore_from_undo
  restore_lem disk old at can = rw (at, restore_from_undo, can) refl

  -- What a revert does, the undo copy included.
  revert_lem :
      (disk : Disk) (old saved : Text)
      → disk filepath ≡ some old
      → disk (checkpoint_path filepath tag) ≡ some saved
      → writable filepath ≡ true
      → writable (undo_path filepath) ≡ true
      → text_eq (checkpoint_path filepath tag) (undo_path filepath) ≡ false
      → revert_to_checkpoint writable disk filepath tag
        ≡ (write_disk (write_disk disk (undo_path filepath) old) filepath saved, success)
  unfolding revert_to_checkpoint exists
  revert_lem disk old saved at point can can_undo apart =
      let kept : write_disk disk (undo_path filepath) old (checkpoint_path filepath tag)
          ≡ some saved =
        lookup-write_disk disk (undo_path filepath) (checkpoint_path filepath tag) old
        ∙ rw apart point in
      let backup = backup_lem disk old at can_undo in
      let kept' : (create_undo_backup writable disk filepath).0 (checkpoint_path filepath tag)
          ≡ some saved =
        ap (λ r. r.0 (checkpoint_path filepath tag)) backup ∙ kept in
      rw (point, revert_to_checkpoint, kept', can)
        (ap (λ r. (write_disk r.0 filepath saved, success)) backup)

  -- A revert gives the file the content of the checkpoint, and the undo after it gives it the
  -- content from before. The file and the checkpoint exist,
  -- the file and its undo copy can be written, and the path of the undo copy differs from both.
  pub restore_from_undo-revert_to_checkpoint :
      (disk : Disk) (old saved : Text)
      → disk filepath ≡ some old
      → disk (checkpoint_path filepath tag) ≡ some saved
      → writable filepath ≡ true
      → writable (undo_path filepath) ≡ true
      → text_eq (checkpoint_path filepath tag) (undo_path filepath) ≡ false
      → text_eq (undo_path filepath) filepath ≡ false
      → let reverted = revert_to_checkpoint writable disk filepath tag in
        let restored = restore_from_undo writable reverted.0 filepath in
        (reverted.0 filepath ≡ some saved)
        × (reverted.1 ≡ success)
        × (restored.0 filepath ≡ some old)
        × (restored.1 ≡ success)
        × (exists restored.0 (undo_path filepath) ≡ false)
  unfolding write_disk unlink exists
  restore_from_undo-revert_to_checkpoint disk old saved at point can can_undo apart differ =
      let done = revert_lem disk old saved at point can can_undo apart in
      let written = write_disk (write_disk disk (undo_path filepath) old) filepath saved in
      let copy : written (undo_path filepath) ≡ some old =
        rw (differ, text_eq_refl (undo_path filepath)) refl in
      let undone = restore_lem written old copy can in
      let differ' : text_eq filepath (undo_path filepath) ≡ false =
        other_name (undo_path filepath) filepath (undo_path filepath) differ
          (text_eq_refl (undo_path filepath)) in
      rw (done, undone)
        (
          rw (text_eq_refl filepath) refl,
          refl,
          rw (differ', text_eq_refl filepath) refl,
          refl,
          rw (text_eq_refl (undo_path filepath)) refl,
        )
