-- ===== src/Storage/Locks/Holders.antt =====
-- ss.c: who holds which sentence, after a lock and an unlock call.
use docs_plus_plus.Base.{
  ℕ, zero, suc, ◌+◌, ◌-◌, ◌<◌, ◌≡◌, refl, ap, ◌∙◌, sym, ◌↔◌, inl, inr, ℤ, pos, Bool, true, false,
  ◌&&◌, ◌||◌, not, Option, none, some, List, [], ◌∷◌, ◌++◌, Text, text_eq, text_eq_refl,
  text_eq_iff, ltb, ◌==◌, if◌then◌else◌, length, get_elem?, set, replicate, Bool-cases, arith,
}
use docs_plus_plus.Codes.{success, err_sentence_locked, max_username}
use docs_plus_plus.Storage.Locks.{
  SentenceLock, LockTable, free_lock, find_lock, set_lock, grow_locks, held_by_other, stored_name,
  lock_found, lock_sentence_ss, unlock_found, unlock_sentence_ss,
}

-- The user that a lock is held by.
abbrev pub lock_holder : Option SentenceLock → Option Text
lock_holder none = none
lock_holder (some lock) = if lock.locked then some lock.locked_by else none

abbrev pub holder : LockTable → Text → ℕ → Option Text
holder table f i = lock_holder (find_lock table f i)

lock_holder-pad :
    (ls : List SentenceLock) (n i : ℕ) (name : Text)
    → lock_holder (get_elem? (ls ++ replicate n (free_lock name)) i) ≡ lock_holder (get_elem? ls i)
lock_holder-pad [] zero i name = refl
lock_holder-pad [] (suc n) zero name = unfold free_lock in refl
lock_holder-pad [] (suc n) (suc i) name = lock_holder-pad [] n i name
lock_holder-pad (l ∷ ls) n zero name = refl
lock_holder-pad (l ∷ ls) n (suc i) name = lock_holder-pad ls n i name

-- New slots are free, so making them changes no holder.
pub holder-grow_locks :
    (junk : Text) (table : LockTable) (f : Text) (n : ℕ) (g : Text) (j : ℕ)
    → holder (grow_locks junk table f n) g j ≡ holder table g j
unfolding grow_locks find_lock
holder-grow_locks junk [] f n g j = elim (Bool-cases (text_eq f g)) [
  | inl same ↦ rw same (lock_holder-pad [] n j [])
  | inr other ↦ rw other refl
]
holder-grow_locks junk (e ∷ table) f n g j = elim (Bool-cases (text_eq e.filename f)) [
  | inl here ↦ elim (Bool-cases (text_eq e.filename g)) [
    | inl same ↦ rw (here, same) (lock_holder-pad e.locks (n - length e.locks) j junk)
    | inr other ↦ rw (here, other) refl
  ]
  | inr later ↦ elim (Bool-cases (text_eq e.filename g)) [
    | inl same ↦ rw (later, same) refl
    | inr other ↦ rw (later, other) (holder-grow_locks junk table f n g j)
  ]
]

get_elem?-pad :
    (ls : List SentenceLock) (n i : ℕ) (l : SentenceLock)
    → i < length ls + n
    → (x : SentenceLock) × (get_elem? (ls ++ replicate n l) i ≡ some x)
get_elem?-pad [] zero i l h = absurd (omega arith)
get_elem?-pad [] (suc n) zero l h = (l, refl)
get_elem?-pad [] (suc n) (suc i) l h = get_elem?-pad [] n i l (omega arith)
get_elem?-pad (x ∷ ls) n zero l h = (x, refl)
get_elem?-pad (x ∷ ls) n (suc i) l h = get_elem?-pad ls n i l (omega arith)

find_lock-grow_locks :
    (junk : Text) (table : LockTable) (f : Text) (n i : ℕ)
    → i < n
    → (x : SentenceLock) × (find_lock (grow_locks junk table f n) f i ≡ some x)
unfolding grow_locks find_lock
find_lock-grow_locks junk [] f n i h = rw (text_eq_refl f) (get_elem?-pad [] n i _ (omega arith))
find_lock-grow_locks junk (e ∷ table) f n i h = elim (Bool-cases (text_eq e.filename f)) [
  | inl here ↦ rw (here, here) (get_elem?-pad e.locks (n - length e.locks) i _ (omega arith))
  | inr later ↦ rw (later, later) (find_lock-grow_locks junk table f n i h)
]

get_elem?-set :
    (ls : List SentenceLock) (i j : ℕ) (l x : SentenceLock)
    → get_elem? ls i ≡ some x
    → get_elem? (set ls i l) j ≡ (if j == i then some l else get_elem? ls j)
get_elem?-set [] i j l x h = cc
get_elem?-set (y ∷ ls) zero zero l x h = refl
get_elem?-set (y ∷ ls) zero (suc j) l x h = ground arith
get_elem?-set (y ∷ ls) (suc i) zero l x h = ground arith
get_elem?-set (y ∷ ls) (suc i) (suc j) l x h = ground (arith, get_elem?-set ls i j l x h)

text_eq_apart : (a f g : Text) → text_eq a f ≡ false → a ≡ g → text_eq f g ≡ false
text_eq_apart a f g h e = elim (Bool-cases (text_eq f g)) [
  | inl same ↦ absurd (cc (sym h ∙ (text_eq_iff a f).1 (e ∙ sym ((text_eq_iff f g).0 same))))
  | inr other ↦ other
]

-- A write through the pointer changes that lock alone.
find_lock-set_lock :
    (table : LockTable) (f : Text) (i : ℕ) (l x : SentenceLock) (g : Text) (j : ℕ)
    → find_lock table f i ≡ some x
    → find_lock (set_lock table f i l) g j
      ≡ (if text_eq f g && j == i then some l else find_lock table g j)
unfolding find_lock set_lock
find_lock-set_lock [] f i l x g j h = cc
find_lock-set_lock (e ∷ table) f i l x g j h = elim (Bool-cases (text_eq e.filename f)) [
  | inl here ↦
      let same : e.filename ≡ f = (text_eq_iff e.filename f).0 here in
      rw here (
        rw (← same) (elim (Bool-cases (text_eq e.filename g)) [
          | inl match ↦ rw match (get_elem?-set e.locks i j l x (rw here at h))
          | inr other ↦ rw other refl
        ]))
  | inr later ↦ elim (Bool-cases (text_eq e.filename g)) [
    | inl match ↦
        let apart : text_eq f g ≡ false =
          text_eq_apart e.filename f g later ((text_eq_iff e.filename g).0 match) in
        rw (later, match, apart) refl
    | inr other ↦ rw (later, other) (find_lock-set_lock table f i l x g j (rw later at h))
  ]
]

-- Another user's hold keeps a user out.
abbrev pub is_other : Option Text → Text → Bool
is_other none user = false
is_other (some name) user = not (text_eq name user)

abbrev pub is_user : Option Text → Text → Bool
is_user none user = false
is_user (some name) user = text_eq name user

held_by_other_lem :
    (lock : SentenceLock) (user : Text)
    → held_by_other lock user ≡ is_other (lock_holder (some lock)) user
unfolding held_by_other
held_by_other_lem lock user = elim (Bool-cases lock.locked) [
  | inl on ↦ rw on refl
  | inr off ↦ rw off refl
]

-- The two outcomes of a lock call on a lock that is there.
pub lock_found-holder :
    (junk : Text) (table : LockTable) (f : Text) (i : ℕ) (user : Text) (lock : SentenceLock)
    → length user < max_username - 1
    → find_lock table f i ≡ some lock
    → let r = lock_found junk table f i user (some lock) in
      let out = is_other (lock_holder (some lock)) user in
      (r.1 ≡ (if out then err_sentence_locked else success))
      × ((g : Text) (j : ℕ)
          → holder r.0 g j ≡ (
              if out
              then holder table g j
              else if text_eq f g && j == i
              then some user
              else holder table g j))
unfolding lock_found
lock_found-holder junk table f i user lock h found =
    elim (Bool-cases (is_other (lock_holder (some lock)) user)) [
      | inl out ↦ rw (held_by_other_lem lock user, out) (refl, λ g j. refl)
      | inr mine ↦ rw (held_by_other_lem lock user, mine) (refl, λ g j. go g j)
    ]
  where
    new : SentenceLock
    new = record { locked = true; locked_by = stored_name junk user }

    name_fits : stored_name junk user ≡ user
    name_fits =
        let short : ltb (length user) (max_username - 1) ≡ true = ground (arith, h) in
        rw (short, stored_name) refl

    go :
        (g : Text) (j : ℕ)
        → holder (set_lock table f i new) g j
          ≡ (if text_eq f g && j == i then some user else holder table g j)
    go g j =
        ap lock_holder (find_lock-set_lock table f i new lock g j found)
        ∙ elim (Bool-cases (text_eq f g && j == i)) [
          | inl here ↦ rw here (ap some name_fits)
          | inr other ↦ rw other refl
        ]

pub lock_sentence_ss-holder :
    (junk : Text) (table : LockTable) (f : Text) (i : ℕ) (user : Text)
    → length user < max_username - 1
    → let r = lock_sentence_ss junk table f i user in
      let out = is_other (holder table f i) user in
      (r.1 ≡ (if out then err_sentence_locked else success))
      × ((g : Text) (j : ℕ)
          → holder r.0 g j ≡ (
              if out
              then holder table g j
              else if text_eq f g && j == i
              then some user
              else holder table g j))
unfolding lock_sentence_ss
lock_sentence_ss-holder junk table f i user h =
    let grown = grow_locks junk table f (suc i) in
    let (lock, found) = find_lock-grow_locks junk table f (suc i) i (omega arith) in
    let kept = holder-grow_locks junk table f (suc i) in
    let same : lock_holder (some lock) ≡ holder table f i = ap lock_holder (sym found) ∙ kept f i in
    let (status, holds) = lock_found-holder junk grown f i user lock h found in
    rw found (rw (← same) status, λ g j. rw (← same, ← kept g j) (holds g j))

-- The outcomes of an unlock call on what `get_sentence_lock` found.
abbrev Unlocks : LockTable → Text → ℕ → Text → Option SentenceLock → LockTable × ℤ → Type 0
Unlocks table f i user o r =
    ((r.1 ≡ success) ↔ (is_user (lock_holder o) user ≡ true))
    × ((g : Text) (j : ℕ)
        → holder r.0 g j ≡ (
            if is_user (lock_holder o) user && (text_eq f g && j == i)
            then none
            else holder table g j))

unlock_test :
    (lock : SentenceLock) (user : Text)
    → (not lock.locked || not (text_eq lock.locked_by user))
      ≡ not (is_user (lock_holder (some lock)) user)
unlock_test lock user = elim (Bool-cases lock.locked) [
  | inl on ↦ rw on refl
  | inr off ↦ rw off refl
]

unlock_found-holder :
    (table : LockTable) (f : Text) (i : ℕ) (user : Text) (o : Option SentenceLock)
    → find_lock table f i ≡ o
    → Unlocks table f i user o (unlock_found table f i user o)
unfolding unlock_found
unlock_found-holder table f i user none found = ((λ e. ground arith, λ e. cc), λ g j. refl)
unlock_found-holder table f i user (some lock) found =
    rw (unlock_test lock user) (elim (Bool-cases (is_user (lock_holder (some lock)) user)) [
      | inl mine ↦ rw mine ((λ e. refl, λ e. refl), λ g j. go g j)
      | inr other ↦ rw other ((λ e. ground arith, λ e. cc), λ g j. refl)
    ])
  where
    new : SentenceLock
    new = record { locked = false; locked_by = [] }

    go :
        (g : Text) (j : ℕ)
        → holder (set_lock table f i new) g j
          ≡ (if text_eq f g && j == i then none else holder table g j)
    go g j =
        ap lock_holder (find_lock-set_lock table f i new lock g j found)
        ∙ elim (Bool-cases (text_eq f g && j == i)) [
          | inl here ↦ rw here refl
          | inr other ↦ rw other refl
        ]

pub unlock_sentence_ss-holder :
    (table : LockTable) (f : Text) (i : ℕ) (user : Text)
    → let r = unlock_sentence_ss table f (pos i) user in
      let mine = is_user (holder table f i) user in
      ((r.1 ≡ success) ↔ (mine ≡ true))
      × ((g : Text) (j : ℕ)
          → holder r.0 g j ≡ (if mine && (text_eq f g && j == i) then none else holder table g j))
unfolding unlock_sentence_ss
unlock_sentence_ss-holder table f i user =
    unlock_found-holder table f i user (find_lock table f i) refl
