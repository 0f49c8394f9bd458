-- ===== src/Witnesses/Locking.antt =====
-- ss.c and the copies of file_ops.c at concrete inputs.
use docs_plus_plus.Base.{
  ℕ, ◌≡◌, refl, pos, Bool, true, false, none, some, List, [], ◌∷◌, Text, text_eq, if◌then◌else◌,
  arith,
}
use docs_plus_plus.Codes.{success}
use docs_plus_plus.Storage.Disk.{
  Disk, exists, undo_path, checkpoint_path, restore_from_undo, revert_to_checkpoint,
}
use docs_plus_plus.Document.SplitLaws.{runs_fit}
use docs_plus_plus.Storage.Sessions.{Env, temp_path}
use docs_plus_plus.Storage.Server.{Server}
use docs_plus_plus.Storage.Server.Edits.{Edit, lock, cancel, write, edits, edits-isolated}
use docs_plus_plus.Storage.Backups.{restore_from_undo-revert_to_checkpoint}
use docs_plus_plus.Storage.Locks.{LockTable, find_lock, init_file_locks, lock_found, unlock_found}
use docs_plus_plus.Storage.Locks.Holders.{holder}
use docs_plus_plus.Storage.Locks.Calls.{Locks, Unlocks, lock_calls-holder}
use docs_plus_plus.Storage.Locks.Exclusion.{
  LockStep, grow, act, Arrays, is_moved, acted, lock_step, lock_steps, Refused,
  lock_steps-exclusive,
}
use docs_plus_plus.Document.{Sentence}
use docs_plus_plus.Storage.Commits.{CommitEntry, merge}
use docs_plus_plus.Storage.Commits.Merge.{Edits, merge_later}

abbrev ann : Text
ann = 97 ∷ []

abbrev bob : Text
bob = 98 ∷ []

abbrev notes : Text
notes = 110 ∷ []

-- The sentence 0 of `notes` is held by `ann`; the sentence 1 is free.
abbrev some_locks : LockTable
some_locks =
    record {
      filename = notes;
      locks =
          record { locked = true; locked_by = ann }
          ∷ record { locked = false; locked_by = [] }
          ∷ [];
    }
    ∷ []

abbrev some_arrays : Arrays
some_arrays = record { table = some_locks; moves = λ f. 0 }

-- `bob` tries both sentences, while the array grows; `ann` unlocks the one that `bob` holds.
abbrev some_steps : List LockStep
some_steps =
    grow notes 1
    ∷ act 0 (record { is_lock = true; file = notes; index = 0; user = bob }) success
    ∷ grow notes 3
    ∷ act 1 (record { is_lock = true; file = notes; index = 1; user = bob }) success
    ∷ act 1 (record { is_lock = false; file = notes; index = 0; user = bob }) success
    ∷ act 1 (record { is_lock = false; file = notes; index = 1; user = ann }) success
    ∷ []

lock_steps-exclusive_example :
    (holder (lock_steps [] some_steps some_arrays).0.table notes 0 ≡ some ann)
    × Refused [] some_steps (lock_steps [] some_steps some_arrays).1 ann notes 0
unfolding find_lock lock_step is_moved text_eq acted lock_found unlock_found init_file_locks
lock_steps-exclusive_example = lock_steps-exclusive [] some_steps some_arrays ann notes 0 refl (
  omega arith,
  refl,
  refl,
  (omega arith, refl, refl, (omega arith, refl, refl, (omega arith, refl, refl, tt))),
)

lock_calls-holder_example : Locks [] some_locks notes 0 bob × Unlocks some_locks notes 0 bob
lock_calls-holder_example = lock_calls-holder [] some_locks notes 0 bob (omega arith)

-- The sentences of a document: `a.`, `b.` and `c.`.
abbrev sentence_a : Sentence
sentence_a = (97 ∷ []) ∷ (46 ∷ []) ∷ []

abbrev sentence_b : Sentence
sentence_b = (98 ∷ []) ∷ (46 ∷ []) ∷ []

abbrev sentence_c : Sentence
sentence_c = (99 ∷ []) ∷ (46 ∷ []) ∷ []

-- A session on the sentence 1 of a file of 2 sentences.
abbrev entry : ℕ → ℕ → CommitEntry
entry idx count = record {
  filename = notes;
  username = ann;
  sentence_idx = idx;
  original_sentence_count = count;
  temp_filepath = bob;
}

later-Edits : Edits (entry 0 2) [] (sentence_c ∷ []) (sentence_b ∷ [])
later-Edits = record { at = refl; counted = refl }

-- `a. b.` has become `a. b. b.`, and the session made `c. b.` of `a. b.`.
merge_later_example :
    merge (entry 0 2) (sentence_a ∷ sentence_b ∷ sentence_b ∷ []) (sentence_c ∷ sentence_b ∷ [])
    ≡ some (sentence_a ∷ sentence_c ∷ sentence_b ∷ [])
merge_later_example =
    merge_later (entry 0 2) [] (sentence_c ∷ []) (sentence_b ∷ []) [] (sentence_b ∷ []) sentence_a
      sentence_b later-Edits refl

-- The file `n` and its checkpoint `t`.
abbrev some_disk : Disk
some_disk q =
    if text_eq q notes
    then some ann
    else if text_eq q (checkpoint_path notes bob)
    then some bob
    else none

abbrev all_writable : Text → Bool
all_writable path = true

restore_from_undo-revert_to_checkpoint_example :
    let reverted = revert_to_checkpoint all_writable some_disk notes bob in
    let restored = restore_from_undo all_writable reverted.0 notes in
    (reverted.0 notes ≡ some bob)
    × (reverted.1 ≡ success)
    × (restored.0 notes ≡ some ann)
    × (restored.1 ≡ success)
    × (exists restored.0 (undo_path notes) ≡ false)
unfolding checkpoint_path undo_path text_eq
restore_from_undo-revert_to_checkpoint_example =
    restore_from_undo-revert_to_checkpoint all_writable notes bob some_disk ann bob refl refl refl
      refl refl refl

abbrev some_env : Env
some_env = record { storage_path = 115 ∷ []; writable = all_writable }

-- The path of `notes`.
abbrev notes_path : Text
notes_path = 115 ∷ 47 ∷ 110 ∷ []

abbrev storage_server : Server
storage_server = record {
  disk = λ q. if text_eq q notes_path then some (97 ∷ 46 ∷ []) else none;
  table = some_locks;
  sessions = [];
  queues = [];
}

abbrev some_edits : List Edit
some_edits =
    lock notes 0 ann
    ∷ lock notes 1 bob
    ∷ write notes ann (pos 0) (pos 1) (98 ∷ 32 ∷ [])
    ∷ cancel notes 0 ann
    ∷ []

edits-isolated_example :
    (sv' : Server) × (edits some_env [] some_edits storage_server ≡ some sv')
    × (sv'.disk notes_path ≡ storage_server.disk notes_path)
unfolding temp_path text_eq runs_fit
edits-isolated_example =
    edits-isolated some_env [] some_edits storage_server notes_path tt (refl, (refl, (refl, tt)))
