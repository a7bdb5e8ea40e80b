-- ===== src/SeqLock/Words.antt =====
-- What the methods of seq_lock.h do to the word of the lock.
use disco_skip.Prelude.{ℕ, ◌+◌, ◌^◌, ◌<◌, ◌≡◌, ◌↔◌, arith, Bool, true, false, some, ◌&&◌}
use disco_skip.Prelude.{◌==◌, if◌then◌else◌}
use disco_skip.SvLock.{done, again}
use disco_skip.Prelude.{◌≤◌}
use disco_skip.SeqLock.{
  dead_value, is_unlocked, is_locked, is_dead, acquire_round, try_upgrade, release,
  release_unchanged, release_changed_if, die, begin_read, confirm_read,
}

-- A reader's confirmation succeeds exactly if the lock is unlocked and holds the value that the reader
-- began with.
pub confirmed_iff :
    (u word : ℕ)
    → (confirm_read word (begin_read u) ≡ true)
      ↔ ((is_unlocked word ≡ true) × (begin_read word ≡ begin_read u))
unfolding confirm_read begin_read is_unlocked
confirmed_iff u word = ground arith

-- At an unlocked word with room for a step of the counter, an upgrade from an unlocked value succeeds
-- exactly if it is that word, and locks it. While the writer holds the lock, no reader confirms, whatever it
-- began with. After a release with a change, no reader confirms that began with the locked word or a
-- lower one; after one without, exactly those readers do that began with the old value. The writer can
-- also leave the lock dead. Then no reader confirms, no upgrade succeeds, and a round of `acquire`,
-- whatever it has read before, fails if it has read the dead value, and otherwise goes on with it, and leaves the lock dead.
pub write_lem :
    (word : ℕ)
    → is_unlocked word ≡ true
    → word + 2 < 2 ^ 64
    → ((v : ℕ)
        → is_unlocked v ≡ true
        → try_upgrade word v ≡ some (if word == v then (true, word + 1) else (false, word)))
      × (is_locked (word + 1) ≡ true)
      × ((u : ℕ) → confirm_read (word + 1) (begin_read u) ≡ false)
      × (release_changed_if true (word + 1) ≡ some (word + 2))
      × ((u : ℕ) → u ≤ word + 1 → confirm_read (word + 2) (begin_read u) ≡ false)
      × (release_changed_if false (word + 1) ≡ some word)
      × ((u : ℕ) → (confirm_read word (begin_read u) ≡ true) ↔ (begin_read u ≡ word))
      × (die (word + 1) ≡ some dead_value)
      × ((u : ℕ) → confirm_read dead_value (begin_read u) ≡ false)
      × ((v : ℕ) → is_unlocked v ≡ true → try_upgrade dead_value v ≡ some (false, dead_value))
      × ((spurious : Bool) (read_value : ℕ)
          → acquire_round spurious read_value dead_value
            ≡ (if is_dead read_value then done false dead_value else again dead_value dead_value))
unfolding confirm_read begin_read is_unlocked is_locked is_dead try_upgrade release
    release_unchanged release_changed_if die acquire_round
write_lem word u h = (
  λ v p. ground arith,
  ground arith,
  λ v. ground arith,
  ground arith,
  λ v p. ground arith,
  ground arith,
  λ v. ground arith,
  ground arith,
  λ v. ground arith,
  λ v p. ground arith,
  λ spurious read_value. ground arith,
)

-- A round of `acquire` that has read a word below 2^64 ends the call with success only if the lock has
-- that value and is unlocked, and then locks it, and with failure only if it has read the dead value,
-- and then leaves the lock as it is.
pub acquire_ends_lem :
    (spurious result : Bool) (read_value word word' : ℕ)
    → read_value < 2 ^ 64
    → acquire_round spurious read_value word ≡ done result word'
    → (if result
        then (is_unlocked word && (word == read_value)) && (is_locked word' && (word' == word + 1))
        else is_dead read_value && (word' == word))
      ≡ true
unfolding is_unlocked is_locked is_dead acquire_round
acquire_ends_lem spurious true read_value word word' h e = ground arith
acquire_ends_lem spurious false read_value word word' h e = ground arith
