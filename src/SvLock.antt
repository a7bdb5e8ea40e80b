-- ===== src/SvLock.antt =====
-- `sv_lock`, the sequence lock of a skipvector node (disco-skip/include/include-cache/lock/sv_lock.h).
-- The lock is its 64-bit word. An operation takes the word that it finds; one that writes returns the
-- new word, and `none` is a failed assertion. A bit mask is written by division and remainder:
-- ORPHAN_BIT is 1, FREEZE_BIT 2, LOCK_BIT 4, and the state is the two bits above the lowest.
use disco_skip.Prelude.{
  ℕ, ◌+◌, ◌-◌, ◌*◌, ◌/◌, ◌%◌, ◌^◌, Bool, true, false, ◌&&◌, not, Option, none, some,
}
use disco_skip.Prelude.{◌==◌, if◌then◌else◌}
pub mod Words
pub mod Protocol
pub mod Invariant
pub mod Safety
pub mod Acquire
mod Tests

-- Sums and differences of `uint64_t`.
abbrev pub add64 : ℕ → ℕ → ℕ
add64 a b = (a + b) % 2 ^ 64

abbrev pub sub64 : ℕ → ℕ → ℕ
sub64 a b = (a + 2 ^ 64 - b) % 2 ^ 64

-- `v & STATE_MASK`
abbrev pub state_bits : ℕ → ℕ
state_bits v = v / 2 % 4 * 2

-- `(v & ORPHAN_BIT) == ORPHAN_BIT`
unfoldable pub is_orphan : ℕ → Bool
is_orphan v = v % 2 == 1

unfoldable pub is_unlocked : ℕ → Bool
is_unlocked v = state_bits v == 0

unfoldable pub is_frozen : ℕ → Bool
is_frozen v = state_bits v == 2

unfoldable pub is_locked : ℕ → Bool
is_locked v = state_bits v == 4

unfoldable pub is_dead : ℕ → Bool
is_dead v = state_bits v == 6

-- The constructor `sv_lock(bool orphan)`.
unfoldable pub init : Bool → ℕ
init orphan = if orphan then 1 else 0

-- What a busy-waiting thread does next: return a result and leave a word in the lock, or go round
-- again with the value that it last read.
pub data Progress : Type 0 where
  done : Bool → ℕ → Progress
  again : ℕ → ℕ → Progress

-- One round of the loop of `acquire` or `freeze`: `bit` is LOCK_BIT or FREEZE_BIT. The weak CAS may
-- fail although the values agree, if `spurious` holds; a failed CAS loads the word.
unfoldable pub spin : ℕ → Bool → (read_value word : ℕ) → Progress
unfolding is_unlocked is_dead
spin bit spurious read_value word =
    if is_unlocked read_value
    then (if word == read_value && not spurious
        then done true (add64 read_value bit)
        else again word word)
    else if is_dead read_value
    then done false word
    else again word word

unfoldable pub acquire_round : Bool → ℕ → ℕ → Progress
unfolding spin
acquire_round = spin 4

unfoldable pub freeze_round : Bool → ℕ → ℕ → Progress
unfolding spin
freeze_round = spin 2

-- `assert(test)`, and then the rest.
abbrev pub asserting : {A : Type 0} → Bool → A → Option A
asserting test a = if test then some a else none

unfoldable pub acquire_frozen : ℕ → Option ℕ
unfolding is_frozen
acquire_frozen word = asserting (is_frozen word) (add64 word 2)

-- A strong CAS from `v` to `v + bit`.
unfoldable pub compare_exchange : (bit word v : ℕ) → Bool × ℕ
compare_exchange bit word v = if word == v then (true, add64 v bit) else (false, word)

unfoldable pub try_upgrade : (word v : ℕ) → Option (Bool × ℕ)
unfolding is_unlocked compare_exchange
try_upgrade word v = asserting (is_unlocked v) (compare_exchange 4 word v)

unfoldable pub try_freeze : (word v : ℕ) → Option (Bool × ℕ)
unfolding is_unlocked compare_exchange
try_freeze word v = asserting (is_unlocked v) (compare_exchange 2 word v)

-- The releases return the value for the caller and the new word.
unfoldable pub release : ℕ → Option (ℕ × ℕ)
unfolding is_locked
release word = asserting (is_locked word) (add64 word 4, add64 word 4)

unfoldable pub release_as_orphan : ℕ → Option (ℕ × ℕ)
unfolding is_locked is_orphan
release_as_orphan word =
    asserting (is_locked word && not (is_orphan word)) (add64 (add64 word 4) 1, add64 word 5)

unfoldable pub release_and_adopt : ℕ → Option (ℕ × ℕ)
unfolding is_locked is_orphan
release_and_adopt word = asserting (is_locked word && is_orphan word) (add64 word 3, add64 word 3)

unfoldable pub release_unchanged : ℕ → Option ℕ
unfolding is_locked
release_unchanged word = asserting (is_locked word) (sub64 word 4)

unfoldable pub release_changed_if : Bool → ℕ → Option ℕ
unfolding release release_unchanged
release_changed_if changed word =
    if changed
    then (elim (release word) [ none ↦ none | some (_, word') ↦ some word' ])
    else release_unchanged word

unfoldable pub thaw : ℕ → Option ℕ
unfolding is_frozen
thaw word = asserting (is_frozen word) (sub64 word 2)

unfoldable pub die : ℕ → Option ℕ
unfolding is_locked
die word = asserting (is_locked word) (add64 word 2)

-- `lock.load() & ~STATE_MASK`
unfoldable pub begin_read : ℕ → ℕ
begin_read word = word - state_bits word

-- `v == (lock.load() & ~FREEZE_BIT)`
unfoldable pub confirm_read : (word v : ℕ) → Bool
confirm_read word v = v == word - word / 2 % 2 * 2
