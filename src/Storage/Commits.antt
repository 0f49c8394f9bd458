-- ===== src/Storage/Commits.antt =====
-- ss.c: the commit queues, and the merge of a session's sentences into the current file.
pub mod Merge
pub mod Queues
use docs_plus_plus.Base.{
  ℕ, zero, suc, ◌+◌, ◌-◌, ℤ, pos, Bool, true, false, ◌&&◌, Option, none, some, List, [], ◌∷◌, ◌++◌,
  Text, text_eq, ltb, leb, ◌==◌, if◌then◌else◌, length, take, drop,
}
use docs_plus_plus.Codes.{success, minus_one, err_server_error}
use docs_plus_plus.Document.{Sentence}
use docs_plus_plus.Document.Render.{render}
use docs_plus_plus.Storage.Disk.{Disk, write_disk, unlink, create_undo_backup}
use docs_plus_plus.Storage.Sessions.{
  Env, WriteSession, find_session, drop_session, parse_path, file_path, remove_write_session,
}

-- An entry of a queue; `lock_time` is only logged, and left out.
pub record CommitEntry : Type 0 where
  pub filename : Text
  pub username : Text
  pub sentence_idx : ℕ
  pub original_sentence_count : ℕ
  pub temp_filepath : Text

pub record CommitQueue : Type 0 where
  pub filename : Text
  pub entries : List CommitEntry

abbrev pub max_file_queues : ℕ
max_file_queues = 100

-- `get_commit_queue`: the queues with the file's own among them, unless the table is full.
unfoldable pub get_commit_queue : List CommitQueue → ℕ → Text → Option (List CommitQueue)
get_commit_queue [] used filename =
    if leb max_file_queues used
    then none
    else some (record { filename = filename; entries = [] } ∷ [])
get_commit_queue (q ∷ qs) used filename =
    if text_eq q.filename filename
    then some (q ∷ qs)
    else elim (get_commit_queue qs (used + 1) filename) [ none ↦ none | some qs' ↦ some (q ∷ qs') ]

unfoldable pub queue_entries : List CommitQueue → Text → List CommitEntry
queue_entries [] filename = []
queue_entries (q ∷ qs) filename =
    if text_eq q.filename filename then q.entries else queue_entries qs filename

unfoldable pub set_entries : List CommitQueue → Text → List CommitEntry → List CommitQueue
set_entries [] filename es = []
set_entries (q ∷ qs) filename es =
    if text_eq q.filename filename
    then record q { entries = es } ∷ qs
    else q ∷ set_entries qs filename es

-- `enqueue_commit`: 0 with the entry at the tail, or -1.
unfoldable pub enqueue_commit : List CommitQueue → CommitEntry → Option (List CommitQueue)
unfolding get_commit_queue queue_entries set_entries
enqueue_commit queues entry = elim (get_commit_queue queues 0 entry.filename) [
  | none ↦ none
  | some qs ↦ some (set_entries qs entry.filename (queue_entries qs entry.filename ++ entry ∷ []))
]

-- `adjusted_idx`, unless it is negative.
unfoldable pub adjusted_idx : CommitEntry → ℕ → Option ℕ
adjusted_idx e current =
    if ltb (e.sentence_idx + current) e.original_sentence_count
    then none
    else some (e.sentence_idx + current - e.original_sentence_count)

-- `modified_sentence_count`; a loop up to a negative bound makes no round.
unfoldable pub modified_count : CommitEntry → ℕ → ℕ
modified_count e temp_count = 1 + temp_count - e.original_sentence_count

-- The sentences of the merged file, or `none` where the commit is skipped.
unfoldable pub merge_at : CommitEntry → List Sentence → List Sentence → ℕ → Option (List Sentence)
unfolding modified_count
merge_at e main temp adjusted =
    if length main == 0
    then if e.original_sentence_count == 0 && adjusted == 0 then some temp else none
    else if leb (length main) adjusted
    then none
    else some (
        take adjusted main
        ++ (take (modified_count e (length temp)) (drop e.sentence_idx temp)
            ++ drop (suc adjusted) main))

unfoldable pub merge : CommitEntry → List Sentence → List Sentence → Option (List Sentence)
unfolding adjusted_idx merge_at
merge e main temp = elim (adjusted_idx e (length main)) [
  | none ↦ none
  | some adjusted ↦ merge_at e main temp adjusted
]

module _ (env : Env) where
  -- The loop of `process_commit_queue` on the entries: the disk and the entries left, and the
  -- count of commits or -1. A failed write leaves its entry in the queue.
  unfoldable pub process_entries :
      Text → Disk → List CommitEntry → ℕ → (Disk × List CommitEntry) × ℤ
  process_entries filepath disk [] processed = ((disk, []), pos processed)
  process_entries filepath disk (e ∷ es) processed =
      let skip = process_entries filepath (unlink disk e.temp_filepath) es processed in
      let (temp, temp_parsed) = parse_path disk e.temp_filepath in
      if temp_parsed
      then elim (merge e (parse_path disk filepath).0 temp) [
        | none ↦ skip
        | some merged ↦
            if env.writable filepath
            then process_entries filepath
                (unlink (write_disk disk filepath (render merged)) e.temp_filepath) es
                (processed + 1)
            else ((disk, e ∷ es), minus_one)
      ]
      else skip

  unfoldable pub backup_first : Text → Disk → List CommitEntry → Disk
  backup_first filepath disk [] = disk
  backup_first filepath disk (e ∷ es) = (create_undo_backup env.writable disk filepath).0

  unfoldable pub process_commit_queue : Disk → List CommitQueue → Text → Disk × List CommitQueue
  unfolding get_commit_queue queue_entries set_entries backup_first process_entries file_path
  process_commit_queue disk queues filename = elim (get_commit_queue queues 0 filename) [
    | none ↦ (disk, queues)
    | some qs ↦
        let entries = queue_entries qs filename in
        let filepath = file_path env filename in
        let ((disk', left), count) =
          process_entries filepath (backup_first filepath disk entries) entries 0 in
        (disk', set_entries qs filename left)
  ]
