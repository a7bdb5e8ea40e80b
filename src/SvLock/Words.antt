-- ===== src/SvLock/Words.antt =====
-- The states of an `sv_lock` word, and what each operation does to them.
use disco_skip.Prelude.{ℕ, ◌+◌, ◌^◌, ◌≤◌, ◌<◌, ◌≡◌, arith, Bool, true, false}
use disco_skip.Prelude.{some, ◌↔◌, ◌⊎◌, if◌then◌else◌}
use disco_skip.SvLock.{is_orphan, is_unlocked, is_frozen, is_locked, is_dead}
use disco_skip.SvLock.{done, acquire_round, freeze_round}
use disco_skip.SvLock.{try_upgrade, try_freeze, release, release_as_orphan}
use disco_skip.SvLock.{release_and_adopt, release_unchanged, release_changed_if, thaw}
use disco_skip.SvLock.{begin_read, confirm_read}

-- The state of a word and the rest of it: the sequence counter with the orphan bit.
pub data LockState : Type 0 where
  unlocked frozen locked dead : LockState

unfoldable pub state : ℕ → LockState
unfolding is_unlocked is_frozen is_locked
state word =
    if is_unlocked word
    then unlocked
    else if is_frozen word
    then frozen
    else if is_locked word
    then locked
    else dead

-- Every word is in exactly one of the four states that the predicates test for.
pub state_lem :
    (word : ℕ)
    → ((is_unlocked word ≡ true) ↔ (state word ≡ unlocked))
      × ((is_frozen word ≡ true) ↔ (state word ≡ frozen))
      × ((is_locked word ≡ true) ↔ (state word ≡ locked))
      × ((is_dead word ≡ true) ↔ (state word ≡ dead))
unfolding state is_dead
state_lem word = ground arith

-- No operation adds more than 8 to the word; below this bound none wraps.
abbrev pub NoWrap : ℕ → Type 0
NoWrap word = word + 8 ≤ 2 ^ 64

-- A thread leaves the loop of `acquire` with success only at an unlocked word, which it locks without
-- touching what a reader sees, and with failure only at a value that it read from a dead lock.
pub acquire_round_lem :
    (spurious : Bool) (read_value word : ℕ) (r : Bool) (word' : ℕ)
    → NoWrap word
    → acquire_round spurious read_value word ≡ done r word'
    → if r
      then (state word ≡ unlocked) × (state word' ≡ locked) × (begin_read word' ≡ begin_read word)
      else (state read_value ≡ dead) × (word' ≡ word)
unfolding state acquire_round is_dead begin_read
acquire_round_lem spurious read_value word true word' h e = ground arith
acquire_round_lem spurious read_value word false word' h e = ground arith

-- The same of `freeze`, which freezes the word.
pub freeze_round_lem :
    (spurious : Bool) (read_value word : ℕ) (r : Bool) (word' : ℕ)
    → NoWrap word
    → freeze_round spurious read_value word ≡ done r word'
    → if r
      then (state word ≡ unlocked) × (state word' ≡ frozen) × (begin_read word' ≡ begin_read word)
      else (state read_value ≡ dead) × (word' ≡ word)
unfolding state freeze_round is_dead begin_read
freeze_round_lem spurious read_value word true word' h e = ground arith
freeze_round_lem spurious read_value word false word' h e = ground arith

-- `release` unlocks a locked word, raises what a reader sees of it, keeps the orphan bit and returns
-- the new word; `release_changed_if(true)` leaves the same word.
pub release_lem :
    (word : ℕ)
    → NoWrap word
    → state word ≡ locked
    → (w : ℕ) × (release word ≡ some (w, w))
      × (release_changed_if true word ≡ some w)
      × (state w ≡ unlocked)
      × (begin_read word < begin_read w)
      × (is_orphan w ≡ is_orphan word)
unfolding state release release_changed_if begin_read is_orphan
release_lem word h e =
    (word + 4, ground arith, ground arith, ground arith, ground arith, ground arith)

-- `release_as_orphan` unlocks the locked word of a child, raises what a reader sees of it, sets the
-- orphan bit and returns the new word.
pub release_as_orphan_lem :
    (word : ℕ)
    → NoWrap word
    → state word ≡ locked
    → is_orphan word ≡ false
    → (w : ℕ) × (release_as_orphan word ≡ some (w, w))
      × (state w ≡ unlocked)
      × (begin_read word < begin_read w)
      × (is_orphan w ≡ true)
unfolding state release_as_orphan begin_read is_orphan
release_as_orphan_lem word h e o =
    (word + 5, ground arith, ground arith, ground arith, ground arith)

-- `release_and_adopt` unlocks the locked word of an orphan, raises what a reader sees of it although
-- it clears the orphan bit, and returns the new word.
pub release_and_adopt_lem :
    (word : ℕ)
    → NoWrap word
    → state word ≡ locked
    → is_orphan word ≡ true
    → (w : ℕ) × (release_and_adopt word ≡ some (w, w))
      × (state w ≡ unlocked)
      × (begin_read word < begin_read w)
      × (is_orphan w ≡ false)
unfolding state release_and_adopt begin_read is_orphan
release_and_adopt_lem word h e o =
    (word + 3, ground arith, ground arith, ground arith, ground arith)

-- `release_unchanged` and `thaw` restore the word from before the lock was taken, so a reader that
-- began before cannot tell.
pub undo_lem :
    (word : ℕ)
    → NoWrap word
    → state word ≡ unlocked
    → ((try_upgrade word word ≡ some (true, word + 4)) × (release_unchanged (word + 4) ≡ some word))
      × ((try_freeze word word ≡ some (true, word + 2)) × (thaw (word + 2) ≡ some word))
unfolding state try_upgrade try_freeze release_unchanged thaw
undo_lem word h e = ((ground arith, ground arith), (ground arith, ground arith))

-- A read that began at the word `u` is confirmed exactly when the word is unlocked or frozen and shows
-- the same counter and orphan bit as `u`.
pub confirm_read_iff :
    (u word : ℕ)
    → (confirm_read word (begin_read u) ≡ true)
      ↔ (((state word ≡ unlocked) ⊎ (state word ≡ frozen)) × (begin_read word ≡ begin_read u))
unfolding state confirm_read begin_read
confirm_read_iff u word = ground arith
