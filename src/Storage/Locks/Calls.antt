-- ===== src/Storage/Locks/Calls.antt =====
-- ss.c: both calls on the locks together.
use docs_plus_plus.Base.{
  ℕ, ◌<◌, ◌-◌, ◌≡◌, ◌↔◌, pos, true, ◌&&◌, none, some, Text, text_eq, ◌==◌, if◌then◌else◌, length,
}
use docs_plus_plus.Codes.{success, err_sentence_locked, max_username}
use docs_plus_plus.Storage.Locks.{LockTable, lock_sentence_ss, unlock_sentence_ss}
use docs_plus_plus.Storage.Locks.Holders.{
  holder, is_other, is_user, lock_sentence_ss-holder, unlock_sentence_ss-holder,
}

-- What a lock call returns, and who holds what after it.
abbrev pub Locks : Text → LockTable → Text → ℕ → Text → Type 0
Locks junk table f i user =
    let r = lock_sentence_ss junk table f i user in
    let out = is_other (holder table f i) user in
    (r.1 ≡ (if out then err_sentence_locked else success))
    × ((g : Text) (j : ℕ)
        → holder r.0 g j ≡ (
            if out
            then holder table g j
            else if text_eq f g && j == i
            then some user
            else holder table g j))

-- When an unlock call succeeds, and who holds what after it.
abbrev pub Unlocks : LockTable → Text → ℕ → Text → Type 0
Unlocks table f i user =
    let r = unlock_sentence_ss table f (pos i) user in
    let mine = is_user (holder table f i) user in
    ((r.1 ≡ success) ↔ (mine ≡ true))
    × ((g : Text) (j : ℕ)
        → holder r.0 g j ≡ (if mine && (text_eq f g && j == i) then none else holder table g j))

-- For a user whose name is shorter than 63 bytes, and calls that run one after the other: a lock
-- call returns 423 and changes no hold if another user holds the sentence; otherwise it returns
-- 200, the caller holds the sentence, and every other hold is as before. An unlock call by the
-- holder frees the sentence and changes no other hold; any other unlock call fails and changes
-- nothing.
pub lock_calls-holder :
    (junk : Text) (table : LockTable) (f : Text) (i : ℕ) (user : Text)
    → length user < max_username - 1
    → Locks junk table f i user × Unlocks table f i user
lock_calls-holder junk table f i user fits =
    (lock_sentence_ss-holder junk table f i user fits, unlock_sentence_ss-holder table f i user)
