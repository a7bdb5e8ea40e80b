-- ===== src/SeqLock.antt =====
-- The lock of disco-skip/include/include-cache/lock/seq_lock.h: a sequence lock whose word has only a
-- lock bit beside the counter. A method is a function of the 64-bit word, as in SvLock: it returns the
-- new word beside its result, `none` is a failed assertion, and a busy-wait is given round by round.
use disco_skip.Prelude.{ℕ, ◌+◌, ◌-◌, ◌^◌, ◌%◌, Bool, true, false, not, ◌&&◌, Option, none, some}
use disco_skip.Prelude.{◌==◌, if◌then◌else◌}
use disco_skip.SvLock.{Progress, done, again, asserting, add64, sub64}
pub mod Words
mod Tests

-- DEAD_VALUE
abbrev pub dead_value : ℕ
dead_value = 2 ^ 64 - 1

unfoldable pub is_unlocked : ℕ → Bool
is_unlocked v = v % 2 == 0

unfoldable pub is_locked : ℕ → Bool
is_locked v = v % 2 == 1

unfoldable pub is_dead : ℕ → Bool
is_dead v = v == dead_value

-- The constructor.
unfoldable pub init : ℕ
init = 0

-- One round of the loop of `acquire`. The weak exchange may fail although the values agree, if
-- `spurious` holds; a failed one loads the word.
unfoldable pub acquire_round : Bool → (read_value word : ℕ) → Progress
unfolding is_unlocked is_dead
acquire_round spurious read_value word =
    if is_unlocked read_value
    then (if word == read_value && not spurious
        then done true (add64 read_value 1)
        else again word word)
    else if is_dead read_value
    then done false word
    else again word word

unfoldable pub try_upgrade : (word v : ℕ) → Option (Bool × ℕ)
unfolding is_unlocked
try_upgrade word v =
    asserting (is_unlocked v) (if word == v then (true, add64 v 1) else (false, word))

-- What the releases and `die` assert of the word.
abbrev is_held : ℕ → Bool
is_held word = not (is_dead word) && is_locked word

-- The value for the caller, and the new word.
unfoldable pub release : ℕ → Option (ℕ × ℕ)
unfolding is_locked is_dead
release word = asserting (is_held word) (add64 word 1, add64 word 1)

unfoldable pub release_unchanged : ℕ → Option ℕ
unfolding is_locked is_dead
release_unchanged word = asserting (is_held word) (sub64 word 1)

unfoldable pub release_changed_if : Bool → ℕ → Option ℕ
unfolding release release_unchanged
release_changed_if b word =
    if b
    then (elim (release word) [ none ↦ none | some (_, word') ↦ some word' ])
    else release_unchanged word

unfoldable pub die : ℕ → Option ℕ
unfolding is_locked is_dead
die word = asserting (is_held word) dead_value

-- `lock.load() & ~LOCK_BIT`
unfoldable pub begin_read : ℕ → ℕ
begin_read word = word - word % 2

unfoldable pub confirm_read : (word v : ℕ) → Bool
confirm_read word v = v == word
