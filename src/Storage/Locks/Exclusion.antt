-- ===== src/Storage/Locks/Exclusion.antt =====
-- ss.c: while a user holds a sentence, no other user gets it, with the calls taken apart into the
-- sections that the mutexes guard.
use docs_plus_plus.Base.{
  ℕ, suc, ◌++◌, ltb, ==_iff, none≢some, Option-cases, ◌<◌, ◌-◌, ◌≡◌, refl, ap, ◌∙◌, sym, inl, inr,
  ℤ, pos, negsuc, Bool, true, false, ◌&&◌, not, some, List, [], ◌∷◌, Text, text_eq, text_eq_iff,
  ◌==◌, if◌then◌else◌, length, Bool-cases, arith,
}
use docs_plus_plus.Codes.{success, err_sentence_locked, max_username, is_success}
use docs_plus_plus.Storage.Locks.{
  SentenceLock, LockTable, at_least_one, find_lock, init_file_locks, lock_found, unlock_found,
  lock_sentence_ss, unlock_sentence_ss,
}
use docs_plus_plus.Storage.Locks.Holders.{
  holder, is_other, is_user, lock_holder, holder-grow_locks, lock_found-holder,
  unlock_sentence_ss-holder,
}

-- A call, by a user, on a sentence of a file.
pub record LockCall : Type 0 where
  pub is_lock : Bool
  pub file : Text
  pub index : ℕ
  pub user : Text

-- A section that a mutex guards. `grow` is `init_file_locks`. `act` works through a pointer that
-- `get_sentence_lock` returned when the file's array had been moved so many times; if the array has
-- been moved since, or is moved meanwhile, which counts as before, the pointer leads into freed
-- memory: the write is lost, and the status is what that memory makes of it.
pub data LockStep : Type 0 where
  grow : Text → ℕ → LockStep
  act : ℕ → LockCall → ℤ → LockStep

-- The table, and how many times `realloc` has moved the array of each file.
pub record Arrays : Type 0 where
  pub table : LockTable
  pub moves : Text → ℕ

module _ (junk : Text) where
  -- The section that `lock->mutex` guards, through a pointer into the array as it is now.
  unfoldable pub acted : LockCall → LockTable → LockTable × ℤ
  unfolding lock_found unlock_found
  acted c table =
      if c.is_lock
      then lock_found junk table c.file c.index c.user (find_lock table c.file c.index)
      else unlock_found table c.file c.index c.user (find_lock table c.file c.index)

  -- `lock_count < sentence_count`
  unfoldable pub is_moved : LockTable → Text → ℕ → Bool
  is_moved [] f count = false
  is_moved (e ∷ table) f count =
      if text_eq e.filename f then ltb (length e.locks) count else is_moved table f count

  unfoldable pub lock_step : LockStep → Arrays → Arrays × List ℤ
  lock_step (grow f count) s = (
    record {
      table = init_file_locks junk s.table f count;
      moves = λ g.
          if text_eq f g && is_moved s.table f (at_least_one count)
          then suc (s.moves g)
          else s.moves g;
    },
    [],
  )
  lock_step (act moves c stale) s =
      if moves == s.moves c.file
      then (record s { table = (acted c s.table).0 }, (acted c s.table).1 ∷ [])
      else (s, stale ∷ [])

  -- Sections of any threads in any order, and what the calls returned.
  unfoldable pub lock_steps : List LockStep → Arrays → Arrays × List ℤ
  lock_steps [] s = (s, [])
  lock_steps (e ∷ es) s =
      let (s', status) = lock_step e s in
      let (end, rest) = lock_steps es s' in (end, status ++ rest)

  abbrev pub is_release : LockCall → Text → Text → ℕ → Bool
  is_release c owner f i =
      not c.is_lock && (text_eq c.file f && (c.index == i && text_eq c.user owner))

  -- The user names are short, none of the calls is `owner`'s unlock of the sentence, and no array
  -- is moved between the fetch of a pointer and its use.
  abbrev pub IsQuiet : List LockStep → Arrays → Text → Text → ℕ → Type 0
  IsQuiet [] s owner f i = Unit {0}
  IsQuiet (grow g count ∷ es) s owner f i = IsQuiet es (lock_step (grow g count) s).0 owner f i
  IsQuiet (act moves c stale ∷ es) s owner f i =
      (length c.user < max_username - 1)
      × (is_release c owner f i ≡ false)
      × (moves ≡ s.moves c.file)
      × IsQuiet es (lock_step (act moves c stale) s).0 owner f i

  -- Another user's call on the sentence.
  abbrev pub is_foreign : LockCall → Text → Text → ℕ → Bool
  is_foreign c owner f i = text_eq c.file f && (c.index == i && not (text_eq c.user owner))

  -- No other user's call on the sentence succeeded, and each call has a status.
  abbrev pub Refused : List LockStep → List ℤ → Text → Text → ℕ → Type 0
  Refused [] status owner f i = status ≡ []
  Refused (grow g count ∷ es) status owner f i = Refused es status owner f i
  Refused (act moves c stale ∷ es) [] owner f i = ⊥
  Refused (act moves c stale ∷ es) (s ∷ ss) owner f i =
      ((is_foreign c owner f i && is_success s) ≡ false) × Refused es ss owner f i

  not_success : (s : ℤ) → ¬ (s ≡ success) → is_success s ≡ false
  not_success (pos n) h = elim (Bool-cases (n == 200)) [
    | inr other ↦ other
    | inl same ↦ let e : n ≡ 200 = ground arith in absurd (h (ap pos e))
  ]
  not_success (negsuc n) h = refl

  foreign_refused :
      (c : LockCall) (owner f : Text) (i : ℕ) (s : ℤ)
      → ((c.file ≡ f) → (c.index ≡ i) → (text_eq c.user owner ≡ false) → ¬ (s ≡ success))
      → (is_foreign c owner f i && is_success s) ≡ false
  foreign_refused c owner f i s h = elim (Bool-cases (text_eq c.file f)) [
    | inr away ↦ rw away refl
    | inl here ↦ elim (Bool-cases (c.index == i)) [
      | inr away ↦ rw (here, away) refl
      | inl at ↦ elim (Bool-cases (text_eq c.user owner)) [
        | inl own ↦ rw (here, at, own) refl
        | inr other ↦
            rw (here, at, other)
              (not_success s (h ((text_eq_iff c.file f).0 here) (ground arith) other))
      ]
    ]
  ]

  text_eq_flip : (a b : Text) → text_eq a b ≡ false → text_eq b a ≡ false
  text_eq_flip a b h = elim (Bool-cases (text_eq b a)) [
    | inl same ↦ absurd (cc (sym h ∙ (text_eq_iff a b).1 (sym ((text_eq_iff b a).0 same))))
    | inr other ↦ other
  ]

  abbrev locking : LockTable → Text → ℕ → Text → LockTable × ℤ
  locking table f i user = lock_found junk table f i user (find_lock table f i)

  lock-refused :
      (table : LockTable) (owner f user : Text) (i : ℕ)
      → length user < max_username - 1
      → holder table f i ≡ some owner
      → text_eq user owner ≡ false
      → ¬ ((locking table f i user).1 ≡ success)
  lock-refused table owner f user i fits held other s = elim (Option-cases (find_lock table f i)) [
    | inl missing ↦ absurd (none≢some (rw missing at held))
    | inr (lock, found) ↦
        let held' : lock_holder (some lock) ≡ some owner = rw found at held in
        let status = (lock_found-holder junk table f i user lock fits found).0 in
        let refused : (locking table f i user).1 ≡ err_sentence_locked =
          rw found (status ∙ rw (held', text_eq_flip user owner other) refl) in
        ground (arith, s, refused)
  ]

  lock-keeps :
      (table : LockTable) (owner f g user : Text) (i j : ℕ)
      → length user < max_username - 1
      → holder table f i ≡ some owner
      → holder (locking table g j user).0 f i ≡ some owner
  lock-keeps table owner f g user i j fits held = elim (Option-cases (find_lock table g j)) [
    | inl missing ↦ rw missing (unfold lock_found in held)
    | inr (lock, found) ↦ rw found (
        (lock_found-holder junk table g j user lock fits found).1 f i
        ∙ elim (Bool-cases (is_other (lock_holder (some lock)) user)) [
          | inl out ↦ rw out held
          | inr free ↦ elim (Bool-cases (text_eq g f && i == j)) [
            | inr apart ↦ rw (free, apart) held
            | inl here ↦ rw (free, here) (same lock found here free)
          ]
        ])
  ]
    where
      same :
          (lock : SentenceLock)
          → find_lock table g j ≡ some lock
          → (text_eq g f && i == j) ≡ true
          → is_other (lock_holder (some lock)) user ≡ false
          → some user ≡ some owner
      same lock found here free =
          let eg : g ≡ f = (text_eq_iff g f).0 (ground arith) in
          let ej : i ≡ j = ground arith in
          let there : holder table g j ≡ some owner = rw (eg, ← ej) held in
          let there' : lock_holder (some lock) ≡ some owner = rw found at there in
          let mine : not (text_eq owner user) ≡ false = rw there' at free in
          ap some (sym ((text_eq_iff owner user).0 (ground arith)))

  unlock-keeps :
      (table : LockTable) (owner f g user : Text) (i j : ℕ)
      → holder table f i ≡ some owner
      → (text_eq g f && (j == i && text_eq user owner)) ≡ false
      → holder (unlock_sentence_ss table g (pos j) user).0 f i ≡ some owner
  unlock-keeps table owner f g user i j held keep =
      (unlock_sentence_ss-holder table g j user).1 f i
      ∙ elim (Bool-cases (is_user (holder table g j) user && (text_eq g f && i == j))) [
        | inr apart ↦ rw apart held
        | inl here ↦ absurd (no here)
      ]
    where
      no : (is_user (holder table g j) user && (text_eq g f && i == j)) ≡ true → ⊥
      no here =
          let same : text_eq g f ≡ true = ground arith in
          let eg : g ≡ f = (text_eq_iff g f).0 same in
          let ej : i ≡ j = ground arith in
          let there : holder table g j ≡ some owner = rw (eg, ← ej) held in
          let mine : is_user (holder table g j) user ≡ true = ground arith in
          let owns : text_eq owner user ≡ true = rw there at mine in
          let user_is : text_eq user owner ≡ true =
            (text_eq_iff user owner).1 (sym ((text_eq_iff owner user).0 owns)) in
          ground arith

  unlock-refused :
      (table : LockTable) (owner f user : Text) (i : ℕ)
      → holder table f i ≡ some owner
      → text_eq user owner ≡ false
      → ¬ ((unlock_sentence_ss table f (pos i) user).1 ≡ success)
  unlock-refused table owner f user i held other s =
      let mine : is_user (holder table f i) user ≡ true =
        (unlock_sentence_ss-holder table f i user).0.0 s in
      let owns : text_eq owner user ≡ true = rw held at mine in
      cc (sym owns ∙ text_eq_flip user owner other)

  -- One call, given by its parts.
  abbrev one : Bool → Text → ℕ → Text → LockCall
  one l g j user = record { is_lock = l; file = g; index = j; user = user }

  acted-keeps :
      (l : Bool) (g user : Text) (j : ℕ) (table : LockTable) (owner f : Text) (i : ℕ)
      → length user < max_username - 1
      → is_release (one l g j user) owner f i ≡ false
      → holder table f i ≡ some owner
      → (holder (acted (one l g j user) table).0 f i ≡ some owner)
        × ((g ≡ f)
            → (j ≡ i)
            → (text_eq user owner ≡ false)
            → ¬ ((acted (one l g j user) table).1 ≡ success))
  unfolding acted unlock_sentence_ss
  acted-keeps true g user j table owner f i fits keep held = (
    lock-keeps table owner f g user i j fits held,
    λ eg ej other s. lock-refused table owner f user i fits held other (rw (eg, ej) at s),
  )
  acted-keeps false g user j table owner f i fits keep held = (
    unlock-keeps table owner f g user i j held keep,
    λ eg ej other s. unlock-refused table owner f user i held other (rw (eg, ej) at s),
  )

  -- A lock call whose sections no other section comes between is `lock_sentence_ss`.
  pub lock_steps-lock_sentence_ss :
      (s : Arrays) (f user : Text) (i : ℕ) (stale : ℤ)
      → let c : LockCall = one true f i user in
        let grown = (lock_step (grow f (suc i)) s).0 in
        let r = lock_steps (grow f (suc i) ∷ act (grown.moves f) c stale ∷ []) s in
        (r.0.table ≡ (lock_sentence_ss junk s.table f i user).0)
        × (r.1 ≡ (lock_sentence_ss junk s.table f i user).1 ∷ [])
  unfolding lock_steps lock_step acted lock_sentence_ss
  lock_steps-lock_sentence_ss s f user i stale =
      let grown = (lock_step (grow f (suc i)) s).0 in
      rw ((==_iff (grown.moves f) (grown.moves f)).1 refl) (refl, refl)

  -- Once a user holds a sentence, and until that user's own unlock of it, it stays held through the
  -- sections of the lock and unlock calls of any threads, in any order, and no other user's call on
  -- it succeeds. The user names are shorter than 63 bytes, and no array is moved by `realloc` between
  -- the fetch of a pointer into it and the end of the section that uses the pointer.
  pub lock_steps-exclusive :
      (es : List LockStep) (s : Arrays) (owner f : Text) (i : ℕ)
      → holder s.table f i ≡ some owner
      → IsQuiet es s owner f i
      → (holder (lock_steps es s).0.table f i ≡ some owner)
        × Refused es (lock_steps es s).1 owner f i
  unfolding lock_steps lock_step init_file_locks
  lock_steps-exclusive [] s owner f i held quiet = (held, refl)
  lock_steps-exclusive (grow g count ∷ es) s owner f i held quiet =
      lock_steps-exclusive es (lock_step (grow g count) s).0 owner f i
        (holder-grow_locks junk s.table g (at_least_one count) f i ∙ held) quiet
  lock_steps-exclusive (act moves c stale ∷ es) s owner f i held (fits, keep, fresh, later) =
      let current : (moves == s.moves c.file) ≡ true = (==_iff moves (s.moves c.file)).1 fresh in
      let (held', refused) =
        acted-keeps c.is_lock c.file c.user c.index s.table owner f i fits keep held in
      let (end, rest) =
        lock_steps-exclusive es (record s { table = (acted c s.table).0 }) owner f i held'
          (rw current at later) in
      rw current (end, (foreign_refused c owner f i (acted c s.table).1 refused, rest))
