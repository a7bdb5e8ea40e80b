-- ===== src/SvLock/Tests.antt =====
-- Runs of the lock of sv_lock.h, and its theorems at concrete words and runs.
use disco_skip.SvLock.Acquire.{acquire, acquire_loop, IsSchedule, Ended, IsSettled, acquire_lem}
use disco_skip.Prelude.{List, [], ◌∷◌, get_elem?}
use disco_skip.SvLock.Words.{dead, frozen, locked, unlocked, state_lem}
use disco_skip.Prelude.{◌↔◌}
use disco_skip.SvLock.{is_unlocked, is_frozen, is_locked, is_dead}
use Prim.Native.Nat.{bit_and}
use disco_skip.Prelude.{ℕ, zero, suc, ◌*◌, ◌/◌, ◌%◌, ◌≡◌, refl, arith, Bool, true, false}
use disco_skip.Prelude.{none, some, ◌&&◌, ◌==◌}
use disco_skip.SvLock.{done, again, state_bits, init}
use disco_skip.SvLock.{
  acquire_round, freeze_round, acquire_frozen, try_upgrade, try_freeze, release,
}
use disco_skip.SvLock.{release_and_adopt, release_unchanged}
use disco_skip.SvLock.{thaw, die, begin_read, confirm_read}
use disco_skip.SvLock.Words.{unlocked, frozen, locked, state}
use disco_skip.SvLock.Words.{undo_lem}
use disco_skip.SvLock.Protocol.{Mode, System, Run, here, next, update, acquires, releases_unchanged}
use disco_skip.SvLock.Safety.{mutual_exclusion, read_consistency}

all_below : ℕ → (ℕ → Bool) → Bool
all_below zero p = true
all_below (suc n) p = p n && all_below n p

-- The masks of the source, on every word below 64.
masks_agree :
    (all_below 64 (λ v. bit_and v 6 == state_bits v) ≡ true)
    × (all_below 64 (λ v. bit_and v 1 == v % 2) ≡ true)
    × (all_below 64 (λ v. bit_and v 2 == v / 2 % 2 * 2) ≡ true)
unfolding all_below
masks_agree = (refl, refl, refl)

-- A dead lock ends a wait, and a weak CAS may fail without a reason.
rounds_run :
    (acquire_round false 8 8 ≡ done true 12)
    × (acquire_round true 8 8 ≡ again 8 8)
    × (acquire_round false 8 16 ≡ again 16 16)
    × (acquire_round false 14 14 ≡ done false 14)
    × (freeze_round false 8 8 ≡ done true 10)
unfolding acquire_round freeze_round
rounds_run = (refl, refl, refl, refl, refl)

lifecycle_runs :
    (try_upgrade 9 9 ≡ some (true, 13))
    × (try_upgrade 9 1 ≡ some (false, 9))
    × (release_and_adopt 13 ≡ some (16, 16))
    × (release 9 ≡ none)
    × (acquire_frozen 10 ≡ some 12)
    × (die 12 ≡ some 14)
unfolding try_upgrade release_and_adopt release acquire_frozen die
lifecycle_runs = (refl, refl, refl, refl, refl, refl)

state_lem_example :
    ((is_unlocked 12 ≡ true) ↔ (state 12 ≡ unlocked))
    × ((is_frozen 12 ≡ true) ↔ (state 12 ≡ frozen))
    × ((is_locked 12 ≡ true) ↔ (state 12 ≡ locked))
    × ((is_dead 12 ≡ true) ↔ (state 12 ≡ dead))
state_lem_example = state_lem 12

undo_lem_example :
    ((try_upgrade 9 9 ≡ some (true, 13)) × (release_unchanged 13 ≡ some 9))
    × ((try_freeze 9 9 ≡ some (true, 11)) × (thaw 11 ≡ some 9))
unfolding state
undo_lem_example = undo_lem 9 (omega arith) refl

abbrev start : System
start = record { word = 0; mode = λ _. Mode.idle; content = 7; dirty = false }

abbrev taken : System
taken = record { word = 4; mode = update start.mode 3 Mode.holding; content = 7; dirty = false }

abbrev restored : System
restored = record { word = 0; mode = update taken.mode 3 Mode.idle; content = 7; dirty = false }

-- Thread 3 takes a new lock, and gives it back unchanged.
taking : Run start 1 taken
unfolding acquire_round
taking = next 3 (here refl) (acquires false 0 4 refl refl)

restoring : Run taken 1 restored
unfolding release_unchanged
restoring = next 3 (here refl) (releases_unchanged 0 refl refl refl)

mutual_exclusion_example : ◌≡◌ {A = ℕ} 3 3
unfolding init
mutual_exclusion_example = mutual_exclusion false 7 3 3 (omega arith) taking (λ e. cc) (λ e. cc)

read_consistency_example : taken.content ≡ restored.content
unfolding init confirm_read begin_read
read_consistency_example = read_consistency false 7 (omega arith) (here refl) taking restoring refl

-- The lock is held in the first round, and free from the second on.
abbrev busy : List (Bool × ℕ)
busy = (false, 12) ∷ (true, 16) ∷ (false, 16) ∷ []

busy_runs : acquire 12 busy ≡ some (true, 20)
unfolding acquire acquire_loop acquire_round
busy_runs = refl

busy-IsSchedule : IsSchedule 12 busy
unfolding IsSchedule state
busy-IsSchedule =
    (λ d. refl, (omega arith, (λ d. cc d, (omega arith, (λ d. refl, (omega arith, tt))))))

acquire_lem_example :
    ((result : Bool) (word' : ℕ)
      → acquire 12 busy ≡ some (result, word')
      → (i : ℕ) × (spurious : Bool) × (found : ℕ) × (get_elem? busy i ≡ some (spurious, found))
        × Ended result found word')
    × ((i found : ℕ) (spurious : Bool)
        → get_elem? busy i ≡ some (spurious, found)
        → get_elem? busy (suc i) ≡ some (false, found)
        → IsSettled found
        → (result : Bool) × (word' : ℕ) × (acquire 12 busy ≡ some (result, word')))
acquire_lem_example = acquire_lem 12 busy busy-IsSchedule
