-- ===== src/SeqLock/Tests.antt =====
-- The theorems on seq_lock.h at concrete words.
use disco_skip.Prelude.{ℕ, ◌≤◌, ◌≡◌, ◌↔◌, ◌==◌, if◌then◌else◌, refl, arith, Bool, true, false, some}
use disco_skip.SvLock.{done, again}
use disco_skip.SeqLock.{
  dead_value, is_unlocked, is_locked, is_dead, acquire_round, try_upgrade, release_changed_if, die,
  begin_read, confirm_read,
}
use disco_skip.SeqLock.Words.{write_lem}

unlocked_example : is_unlocked 6 ≡ true
unfolding is_unlocked
unlocked_example = refl

acquired_example : acquire_round false 6 6 ≡ done true 7
unfolding acquire_round is_unlocked
acquired_example = refl

write_lem_example :
    ((v : ℕ)
      → is_unlocked v ≡ true
      → try_upgrade 6 v ≡ some (if 6 == v then (true, 7) else (false, 6)))
    × (is_locked 7 ≡ true)
    × ((u : ℕ) → confirm_read 7 (begin_read u) ≡ false)
    × (release_changed_if true 7 ≡ some 8)
    × ((u : ℕ) → u ≤ 7 → confirm_read 8 (begin_read u) ≡ false)
    × (release_changed_if false 7 ≡ some 6)
    × ((u : ℕ) → (confirm_read 6 (begin_read u) ≡ true) ↔ (begin_read u ≡ 6))
    × (die 7 ≡ some dead_value)
    × ((u : ℕ) → confirm_read dead_value (begin_read u) ≡ false)
    × ((v : ℕ) → is_unlocked v ≡ true → try_upgrade dead_value v ≡ some (false, dead_value))
    × ((spurious : Bool) (read_value : ℕ)
        → acquire_round spurious read_value dead_value
          ≡ (if is_dead read_value then done false dead_value else again dead_value dead_value))
write_lem_example = write_lem 6 unlocked_example (omega arith)
