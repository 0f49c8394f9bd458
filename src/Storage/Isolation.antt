-- ===== src/Storage/Isolation.antt =====
-- ss.c: edits that are not committed change no file but the copies of their sessions.
use docs_plus_plus.Base.{
  ℕ, ◌≡◌, refl, inl, inr, false, Option, none, some, List, [], ◌∷◌, ◌++◌, Text, text_eq, ltb,
  length, Bool-cases, Option-cases,
}
use docs_plus_plus.Storage.Disk.{Disk, write_disk, unlink}
use docs_plus_plus.Storage.Sessions.{
  Env, WriteSession, is_session, find_session, drop_session, set_original_count, max_sessions,
  remove_write_session, temp_path, open_session, fill_temp, start_in, start_write_session_ss,
  cancel_write_session_ss,
}

-- The path `q` is not the copy of a session.
abbrev pub Spares : Text → List WriteSession → Type 0
Spares q [] = Unit
Spares q (s ∷ ss) = (text_eq q s.temp_filepath ≡ false) × Spares q ss

-- The content at `q` is as before, and no session's copy is there.
abbrev pub Keeps : Text → Disk → Disk × List WriteSession → Type 0
Keeps q disk (disk', ss) = (disk' q ≡ disk q) × Spares q ss

some_inj {ℓ} : {A : Type ℓ} {a b : A} → some a ≡ some b → a ≡ b
some_inj e = cc

pub find_session-Spares :
    (q : Text) (ss : List WriteSession) (f u : Text) (i : ℕ) (s : WriteSession)
    → Spares q ss
    → find_session ss f u i ≡ some s
    → text_eq q s.temp_filepath ≡ false
unfolding find_session
find_session-Spares q [] f u i s h e = cc
find_session-Spares q (t ∷ ss) f u i s (h, hs) e = elim (Bool-cases (is_session f u i t)) [
  | inl here ↦ let same : t ≡ s = some_inj (rw here at e) in rw (← same) h
  | inr other ↦ find_session-Spares q ss f u i s hs (rw other at e)
]

drop_session-Spares :
    (q : Text) (ss : List WriteSession) (f u : Text) (i : ℕ)
    → Spares q ss
    → Spares q (drop_session ss f u i)
unfolding drop_session
drop_session-Spares q [] f u i h = tt
drop_session-Spares q (t ∷ ss) f u i (h, hs) = elim (Bool-cases (is_session f u i t)) [
  | inl here ↦ rw here hs
  | inr other ↦ rw other (h, drop_session-Spares q ss f u i hs)
]

set_original_count-Spares :
    (q : Text) (ss : List WriteSession) (f u : Text) (i n : ℕ)
    → Spares q ss
    → Spares q (set_original_count ss f u i n)
unfolding set_original_count
set_original_count-Spares q [] f u i n h = tt
set_original_count-Spares q (t ∷ ss) f u i n (h, hs) = elim (Bool-cases (is_session f u i t)) [
  | inl here ↦ rw here (h, hs)
  | inr other ↦ rw other (h, set_original_count-Spares q ss f u i n hs)
]

append-Spares :
    (q : Text) (ss : List WriteSession) (s : WriteSession)
    → Spares q ss
    → text_eq q s.temp_filepath ≡ false
    → Spares q (ss ++ s ∷ [])
append-Spares q [] s h e = (e, tt)
append-Spares q (t ∷ ss) s (h, hs) e = (h, append-Spares q ss s hs e)

pub write_disk-apart :
    (disk : Disk) (path q bytes : Text)
    → text_eq q path ≡ false
    → write_disk disk path bytes q ≡ disk q
unfolding write_disk
write_disk-apart disk path q bytes e = rw e refl

remove_write_session-Keeps :
    (q : Text) (disk : Disk) (ss : List WriteSession) (f u : Text) (i : ℕ)
    → Spares q ss
    → Keeps q disk (remove_write_session disk ss f u i)
unfolding remove_write_session unlink
remove_write_session-Keeps q disk ss f u i h = elim (Option-cases (find_session ss f u i)) [
  | inl is_none ↦ rw (is_none, remove_write_session) (refl, h)
  | inr (s, e) ↦
      rw (e, remove_write_session, find_session-Spares q ss f u i s h e)
        (refl, drop_session-Spares q ss f u i h)
]

module _ (env : Env) (q : Text) (disk : Disk) where
  fill_temp-Keeps :
      (ss : List WriteSession) (f u : Text) (i : ℕ) (temp : Text)
      → Spares q ss
      → text_eq q temp ≡ false
      → Keeps q disk (fill_temp env disk ss f u i temp).0
  unfolding fill_temp
  fill_temp-Keeps ss f u i temp h e = elim (Bool-cases (env.writable temp)) [
    | inl can ↦ rw can (write_disk-apart disk temp q _ e, h)
    | inr cannot ↦ rw cannot (remove_write_session-Keeps q disk ss f u i h)
  ]

  -- The session that `get_write_session` opens has its copy apart from `q`.
  abbrev Opens : List WriteSession × Option WriteSession → Type 0
  Opens (ss, none) = Spares q ss
  Opens (ss, some s) = Spares q ss × (text_eq q s.temp_filepath ≡ false)

  open_session-Opens :
      (ss : List WriteSession) (f u : Text) (i : ℕ)
      → Spares q ss
      → text_eq q (temp_path env f u i) ≡ false
      → Opens (open_session env ss f u i)
  unfolding open_session
  open_session-Opens ss f u i h e = elim (Option-cases (find_session ss f u i)) [
    | inr (s, found) ↦ rw (found, open_session) (h, find_session-Spares q ss f u i s h found)
    | inl is_none ↦ elim (Bool-cases (ltb (length ss) max_sessions)) [
      | inl room ↦ rw (is_none, open_session, room) (append-Spares q ss _ h e, e)
      | inr full ↦ rw (is_none, open_session, full) h
    ]
  ]

  start_in-Keeps :
      (f u : Text) (i count : ℕ) (r : List WriteSession × Option WriteSession)
      → Opens r
      → Keeps q disk (start_in env disk f u i count r).0
  unfolding start_in
  start_in-Keeps f u i count (ss, none) o = (refl, o)
  start_in-Keeps f u i count (ss, some s) (h, e) =
      fill_temp-Keeps _ f u i s.temp_filepath (set_original_count-Spares q ss f u i count h) e

  pub start_write_session_ss-Keeps :
      (ss : List WriteSession) (f u : Text) (i : ℕ)
      → Spares q ss
      → text_eq q (temp_path env f u i) ≡ false
      → Keeps q disk (start_write_session_ss env disk ss f u i).0
  unfolding start_write_session_ss
  start_write_session_ss-Keeps ss f u i h e =
      start_in-Keeps f u i _ (open_session env ss f u i) (open_session-Opens ss f u i h e)

  pub cancel_write_session_ss-Keeps :
      (ss : List WriteSession) (f u : Text) (i : ℕ)
      → Spares q ss
      → Keeps q disk (cancel_write_session_ss env disk ss f u i).0
  unfolding cancel_write_session_ss
  cancel_write_session_ss-Keeps ss f u i h = elim (Option-cases (find_session ss f u i)) [
    | inl is_none ↦ rw (is_none, cancel_write_session_ss) (refl, h)
    | inr (s, e) ↦ rw (e, cancel_write_session_ss) (remove_write_session-Keeps q disk ss f u i h)
  ]
