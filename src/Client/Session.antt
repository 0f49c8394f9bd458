-- ===== src/Client/Session.antt =====
-- client.c: the loop of a write session, with what the connection does as an argument.
use docs_plus_plus.Base.{
  ℕ, ◌+◌, ℤ, Bool, true, false, Option, none, some, List, [], ◌∷◌, ltb, if◌then◌else◌,
}
use docs_plus_plus.Codes.{is_success}
use docs_plus_plus.Client.{Input, etirw, invalid, out_of_int, write}

-- One round of the retry loop: the storage server answers a status, or the connection is lost.
-- After a loss, the client is connected again and holds the lock, or it is not, and tries again.
pub data Attempt : Type 0 where
  answered : ℤ → Attempt
  lost : Bool → Attempt

-- How the retry loop ends: by a success or another status after some losses, or by five losses. The
-- Boolean is whether the client is connected.
pub data Outcome : Type 0 where
  written : Outcome
  refused : ℕ → ℤ → Outcome
  gave_up : Bool → Outcome

unfoldable pub answer_outcome : ℕ → ℤ → Outcome
answer_outcome retry_count status =
    if is_success status then written else refused retry_count status

-- The retry loop for one line, from `retry_count` losses on, and the attempts that are left for the
-- next lines; `none` while it waits.
unfoldable pub retry : ℕ → Bool → List Attempt → Option (Outcome × List Attempt)
unfolding answer_outcome
retry retry_count connected [] = if ltb retry_count 5 then none else some (gave_up connected, [])
retry retry_count connected (answered status ∷ attempts) =
    if ltb retry_count 5
    then some (answer_outcome retry_count status, attempts)
    else some (gave_up connected, answered status ∷ attempts)
retry retry_count connected (lost again ∷ attempts) =
    let rest = retry (retry_count + 1) again attempts in
    if ltb retry_count 5 then rest else some (gave_up connected, lost again ∷ attempts)

-- The variables of the session.
pub record Report : Type 0 where
  pub write_count : ℕ
  pub status : Bool
  pub connected : Bool

unfoldable pub after_line : Report → Outcome → Report × Bool
after_line r written = (record r { write_count = r.write_count + 1; connected = true }, true)
after_line r (refused retry_count status) =
    (record r { status = false; connected = true }, ltb 0 retry_count)
after_line r (gave_up connected) = (record r { status = false; connected = connected }, false)

-- The loop over the lines: the report at its end, and what was left of the connection; `none` where
-- it waits for an answer, or where its behaviour is undefined.
unfoldable pub write_loop : List Input → List Attempt → Report → Option (Report × List Attempt)
unfolding retry after_line
write_loop [] attempts r = some (r, attempts)
write_loop (etirw ∷ lines) attempts r = some (r, attempts)
write_loop (invalid ∷ lines) attempts r = write_loop lines attempts r
write_loop (out_of_int ∷ lines) attempts r = none
write_loop (write word_idx content ∷ lines) attempts r = elim (retry 0 r.connected attempts) [
  | none ↦ none
  | some (outcome, left) ↦
      let (r', goes_on) = after_line r outcome in
      let rest = write_loop lines left r' in if goes_on then rest else some (r', left)
]
