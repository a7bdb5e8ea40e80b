-- ===== src/SvLock/Protocol.antt =====
-- Threads that use one `sv_lock`, interleaved in any order at their atomic accesses, and the data that
-- it protects. A thread is idle, has locked or frozen the lock, or has killed it. Each step takes its
-- word from the operation of sv_lock.h that it names. The comments there say who may call what: only the
-- thread that acquired releases, and it releases unchanged only if it did not write.
use disco_skip.Prelude.{ℕ, suc, ◌≡◌, ◌==◌, if◌then◌else◌, Bool, true, false, some}
use disco_skip.SvLock.{done, acquire_round, freeze_round, acquire_frozen, try_upgrade}
use disco_skip.SvLock.{try_freeze, release, release_as_orphan, release_and_adopt, release_unchanged}
use disco_skip.SvLock.{thaw, die}

pub data Mode : Type 0 where
  idle holding freezing killer : Mode

-- `dirty` remembers that the holder wrote; the protected data is known by a number.
pub record System : Type 0 where
  pub word : ℕ
  pub mode : ℕ → Mode
  pub content : ℕ
  pub dirty : Bool

abbrev pub update : (ℕ → Mode) → ℕ → Mode → ℕ → Mode
update mode i m j = if i == j then m else mode j

-- One step of thread `i`.
pub data Step (s : System) (i : ℕ) : System → Type 0 where
  acquires :
      (spurious : Bool) (read_value w : ℕ)
      → s.mode i ≡ Mode.idle
      → acquire_round spurious read_value s.word ≡ done true w
      → Step s i (record s { word = w; mode = update s.mode i Mode.holding })
  upgrades :
      (v w : ℕ)
      → s.mode i ≡ Mode.idle
      → try_upgrade s.word v ≡ some (true, w)
      → Step s i (record s { word = w; mode = update s.mode i Mode.holding })
  freezes :
      (spurious : Bool) (read_value w : ℕ)
      → s.mode i ≡ Mode.idle
      → freeze_round spurious read_value s.word ≡ done true w
      → Step s i (record s { word = w; mode = update s.mode i Mode.freezing })
  tries_freeze :
      (v w : ℕ)
      → s.mode i ≡ Mode.idle
      → try_freeze s.word v ≡ some (true, w)
      → Step s i (record s { word = w; mode = update s.mode i Mode.freezing })
  acquires_frozen :
      (w : ℕ)
      → s.mode i ≡ Mode.freezing
      → acquire_frozen s.word ≡ some w
      → Step s i (record s { word = w; mode = update s.mode i Mode.holding })
  thaws :
      (w : ℕ)
      → s.mode i ≡ Mode.freezing
      → thaw s.word ≡ some w
      → Step s i (record s { word = w; mode = update s.mode i Mode.idle })
  writes : (x : ℕ) → s.mode i ≡ Mode.holding → Step s i (record s { content = x; dirty = true })
  releases :
      (w : ℕ)
      → s.mode i ≡ Mode.holding
      → release s.word ≡ some (w, w)
      → Step s i (record s { word = w; mode = update s.mode i Mode.idle; dirty = false })
  releases_as_orphan :
      (w : ℕ)
      → s.mode i ≡ Mode.holding
      → release_as_orphan s.word ≡ some (w, w)
      → Step s i (record s { word = w; mode = update s.mode i Mode.idle; dirty = false })
  releases_and_adopts :
      (w : ℕ)
      → s.mode i ≡ Mode.holding
      → release_and_adopt s.word ≡ some (w, w)
      → Step s i (record s { word = w; mode = update s.mode i Mode.idle; dirty = false })
  releases_unchanged :
      (w : ℕ)
      → s.mode i ≡ Mode.holding
      → s.dirty ≡ false
      → release_unchanged s.word ≡ some w
      → Step s i (record s { word = w; mode = update s.mode i Mode.idle })
  dies :
      (w : ℕ)
      → s.mode i ≡ Mode.holding
      → die s.word ≡ some w
      → Step s i (record s { word = w; mode = update s.mode i Mode.killer })

-- A run of so many steps.
pub data Run (s : System) : ℕ → System → Type 0 where
  here : {n : ℕ} → n ≡ 0 → Run s n s
  next : {n : ℕ} {t u : System} (i : ℕ) → Run s n t → Step t i u → Run s (suc n) u

-- No thread has the lock of a new node, and nothing is written.
abbrev pub fresh : ℕ → ℕ → System
fresh word content = record { word = word; mode = λ _. Mode.idle; content = content; dirty = false }
