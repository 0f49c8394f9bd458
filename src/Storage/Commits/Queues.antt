-- ===== src/Storage/Commits/Queues.antt =====
-- ss.c: a commit in a queue without others.
use docs_plus_plus.Base.{
  ℕ, ◌+◌, ◌≡◌, refl, ap, subst, inl, inr, pos, true, false, some, List, [], ◌∷◌, Text, text_eq,
  text_eq_refl, leb, Bool-cases, Option-cases, some-injective, none≢some,
}
use docs_plus_plus.Document.{Sentence}
use docs_plus_plus.Document.Parse.{parse_file}
use docs_plus_plus.Document.Render.{render}
use docs_plus_plus.Storage.Disk.{Disk, write_disk, unlink, create_undo_backup}
use docs_plus_plus.Storage.Sessions.{Env, parse_path, file_path}
use docs_plus_plus.Storage.Commits.{
  CommitEntry, CommitQueue, max_file_queues, get_commit_queue, queue_entries, set_entries,
  enqueue_commit, merge, process_entries, backup_first, process_commit_queue,
}

-- The queues have one of the file.
data HasQueue (f : Text) : List CommitQueue → Type 0 where
  here :
      {q : CommitQueue} {qs : List CommitQueue} → text_eq q.filename f ≡ true → HasQueue f (q ∷ qs)
  there :
      {q : CommitQueue} {qs : List CommitQueue}
      → text_eq q.filename f ≡ false
      → HasQueue f qs
      → HasQueue f (q ∷ qs)

-- `get_commit_queue` gives queues with one of the file, whose entries are those from before.
get_commit_queue_lem :
    (queues qs : List CommitQueue) (used : ℕ) (f : Text)
    → text_eq f f ≡ true
    → get_commit_queue queues used f ≡ some qs
    → HasQueue f qs × (queue_entries qs f ≡ queue_entries queues f)
unfolding get_commit_queue queue_entries
get_commit_queue_lem [] qs used f same e = elim (Bool-cases (leb max_file_queues used)) [
  | inl full ↦ absurd (none≢some (rw (full) at e))
  | inr room ↦
      let new = some-injective (rw (room) at e) in
      subst (λ (x : List CommitQueue). HasQueue f x × (queue_entries x f ≡ [])) new
        (here same, rw same refl)
]
get_commit_queue_lem (q ∷ queues) qs used f same e = elim (Bool-cases (text_eq q.filename f)) [
  | inl at ↦
      subst
        (λ (x : List CommitQueue).
          HasQueue f x × (queue_entries x f ≡ queue_entries (q ∷ queues) f))
        (some-injective (rw (at) at e)) (here at, refl)
  | inr other ↦ elim (Option-cases (get_commit_queue queues (used + 1) f)) [
    | inl full ↦ absurd (none≢some (rw (other, full) at e))
    | inr (rest, more) ↦
        let (has, entries) = get_commit_queue_lem queues rest (used + 1) f same more in
        subst
          (λ (x : List CommitQueue).
            HasQueue f x × (queue_entries x f ≡ queue_entries (q ∷ queues) f))
          (some-injective (rw (other, more) at e)) (there other has, rw (other) entries)
  ]
]

get_commit_queue-HasQueue :
    {f : Text} {qs : List CommitQueue} (used : ℕ)
    → HasQueue f qs
    → get_commit_queue qs used f ≡ some qs
unfolding get_commit_queue
get_commit_queue-HasQueue used (here at) = rw at refl
get_commit_queue-HasQueue used (there {qs} other has) =
    rw (other, get_commit_queue-HasQueue (used + 1) has) refl

set_entries-HasQueue :
    {f : Text} {qs : List CommitQueue} (es : List CommitEntry)
    → HasQueue f qs
    → HasQueue f (set_entries qs f es)
unfolding set_entries
set_entries-HasQueue es (here at) = rw at (here at)
set_entries-HasQueue es (there other has) = rw other (there other (set_entries-HasQueue es has))

queue_entries-set_entries :
    {f : Text} {qs : List CommitQueue} (es : List CommitEntry)
    → HasQueue f qs
    → queue_entries (set_entries qs f es) f ≡ es
unfolding set_entries queue_entries
queue_entries-set_entries es (here at) = rw (at, queue_entries, at) refl
queue_entries-set_entries es (there other has) =
    rw (other, queue_entries, other) (queue_entries-set_entries es has)

pub parse_path_lem :
    (d : Disk) (path bytes : Text)
    → d path ≡ some bytes
    → parse_path d path ≡ (parse_file bytes, true)
unfolding parse_path
parse_path_lem d path bytes found = rw (found, parse_path) refl

module _ (env : Env) (e : CommitEntry) (bytes temp : Text) (merged : List Sentence)
    (merges : merge e (parse_file bytes) (parse_file temp) ≡ some merged)
    (can : env.writable (file_path env e.filename) ≡ true) where
  -- What a commit makes of the disk `d` after the backup.
  abbrev pub committed : Disk → Disk
  committed d = unlink (write_disk d (file_path env e.filename) (render merged)) e.temp_filepath

  process_entries_lem :
      (d : Disk)
      → d (file_path env e.filename) ≡ some bytes
      → d e.temp_filepath ≡ some temp
      → process_entries env (file_path env e.filename) d (e ∷ []) 0 ≡ ((committed d, []), pos 1)
  unfolding process_entries
  process_entries_lem d file copy =
      let main = parse_path_lem d (file_path env e.filename) bytes file in
      rw (parse_path_lem d e.temp_filepath temp copy, process_entries, main, merges, can) refl

  -- A commit that is queued where none waits for the file is processed at once.
  pub process_commit_queue-enqueue_commit :
      (disk : Disk) (queues qs : List CommitQueue)
      → let saved = (create_undo_backup env.writable disk (file_path env e.filename)).0 in
        get_commit_queue queues 0 e.filename ≡ some qs
        → queue_entries queues e.filename ≡ []
        → saved (file_path env e.filename) ≡ some bytes
        → saved e.temp_filepath ≡ some temp
        → (queues' : List CommitQueue) × (enqueue_commit queues e ≡ some queues')
          × (process_commit_queue env disk queues' e.filename
              ≡ (committed saved, set_entries queues' e.filename []))
  unfolding enqueue_commit process_commit_queue backup_first
  process_commit_queue-enqueue_commit disk queues qs room none_waits file copy =
      let saved = (create_undo_backup env.writable disk (file_path env e.filename)).0 in
      let (has, entries) =
        get_commit_queue_lem queues qs 0 e.filename (text_eq_refl e.filename) room in
      let queues' = set_entries qs e.filename (e ∷ []) in
      let has' = set_entries-HasQueue (e ∷ []) has in
      (
        queues',
        rw (room, enqueue_commit, entries, none_waits) refl,
        rw
            (
              get_commit_queue-HasQueue 0 has',
              process_commit_queue,
              queue_entries-set_entries (e ∷ []) has,
            )
            (ap (λ r. (r.0.0, set_entries queues' e.filename r.0.1))
              (process_entries_lem saved file copy)),
      )
