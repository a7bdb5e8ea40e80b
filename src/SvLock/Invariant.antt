-- ===== src/SvLock/Invariant.antt =====
-- The word of an `sv_lock` agrees with what its threads are doing, and every step keeps it so.
use disco_skip.Prelude.{ℕ, ◌≡◌, ◌≢◌, refl, arith, Bool, true, false}
use disco_skip.Prelude.{◌⊎◌, inl, inr, ◌==◌, Bool-cases}
use disco_skip.SvLock.{
  acquire_round, freeze_round, acquire_frozen, try_upgrade, try_freeze, release,
}
use disco_skip.SvLock.{release_as_orphan, release_and_adopt, release_unchanged, thaw, die}
use disco_skip.SvLock.Words.{LockState, unlocked, frozen, locked, dead, state, NoWrap}
use disco_skip.SvLock.Protocol.{
  Mode, System, update, Step, acquires, upgrades, freezes, tries_freeze,
}
use disco_skip.SvLock.Protocol.{acquires_frozen, thaws, writes, releases, releases_as_orphan}
use disco_skip.SvLock.Protocol.{releases_and_adopts, releases_unchanged, dies}

-- The state of the lock that a thread's mode implies.
abbrev pub Implies : Mode → LockState → Type 0
Implies Mode.idle st = Unit
Implies Mode.holding st = st ≡ locked
Implies Mode.freezing st = st ≡ frozen
Implies Mode.killer st = st ≡ dead

pub record Inv (s : System) : Type 0 where
  pub free : (i : ℕ) → state s.word ≡ unlocked → s.mode i ≡ Mode.idle
  pub agrees : (i : ℕ) → Implies (s.mode i) (state s.word)
  pub alone : (i j : ℕ) → s.mode i ≢ Mode.idle → s.mode j ≢ Mode.idle → i ≡ j
  pub clean : s.dirty ≡ true → (state s.word ≡ locked) ⊎ (state s.word ≡ dead)

Mode-cases : (m : Mode) → (m ≡ Mode.idle) ⊎ (m ≢ Mode.idle)
Mode-cases Mode.idle = inl refl
Mode-cases Mode.holding = inr (λ e. cc)
Mode-cases Mode.freezing = inr (λ e. cc)
Mode-cases Mode.killer = inr (λ e. cc)

module _ {s : System} (v : Inv s) (i : ℕ) where
  -- Beside the one that steps, no thread has the lock.
  Sole : Type 0
  Sole = (j : ℕ) → (i == j) ≡ false → s.mode j ≡ Mode.idle

  sole_of_unlocked : state s.word ≡ unlocked → Sole
  unfolding Sole
  sole_of_unlocked e j n = v.free j e

  sole_of_owner : s.mode i ≢ Mode.idle → Sole
  unfolding Sole
  sole_of_owner own j n = elim (Mode-cases (s.mode j)) [
    | inl e ↦ e
    | inr busy ↦ ground (arith, v.alone i j)
  ]

  changed-Inv :
      (w : ℕ) (m : Mode) (x : ℕ) (d : Bool)
      → Sole
      → Implies m (state w)
      → (state w ≡ unlocked → m ≡ Mode.idle)
      → (d ≡ true → (state w ≡ locked) ⊎ (state w ≡ dead))
      → Inv (record s { word = w; mode = update s.mode i m; content = x; dirty = d })
  unfolding Sole
  changed-Inv w m x d sole a f c = record {
    free = λ j q. elim (Bool-cases (i == j)) [ inl p ↦ rw p (f q) | inr p ↦ rw p (sole j p) ];
    agrees = λ j. elim (Bool-cases (i == j)) [ inl p ↦ rw p a | inr p ↦ rw (p, sole j p) tt ];
    alone = λ j k p q. ground (arith, sole j, sole k);
    clean = c;
  }

module _ {s : System} (h : NoWrap s.word) (v : Inv s) (i : ℕ) where
  unlocked-Inv :
      (w : ℕ) (m : Mode)
      → state s.word ≡ unlocked
      → Implies m (state w)
      → state w ≢ unlocked
      → Inv (record s { word = w; mode = update s.mode i m })
  unlocked-Inv w m e a n =
      changed-Inv v i w m s.content s.dirty (sole_of_unlocked v i e) a (λ q. absurd (n q))
        (λ d. ground (arith, v.clean))

  owned-Inv :
      (w : ℕ) (m : Mode) (d : Bool)
      → s.mode i ≢ Mode.idle
      → Implies m (state w)
      → (state w ≡ unlocked → m ≡ Mode.idle)
      → (d ≡ true → (state w ≡ locked) ⊎ (state w ≡ dead))
      → Inv (record s { word = w; mode = update s.mode i m; dirty = d })
  owned-Inv w m d own a f c = changed-Inv v i w m s.content d (sole_of_owner v i own) a f c

  pub Step-Inv : {t : System} → Step s i t → Inv t
  unfolding state acquire_round freeze_round acquire_frozen try_upgrade try_freeze release
      release_as_orphan release_and_adopt release_unchanged thaw die
  Step-Inv (acquires sp rv w m e) =
      unlocked-Inv w Mode.holding (ground arith) (ground arith) (λ q. ground arith)
  Step-Inv (upgrades x w m e) =
      unlocked-Inv w Mode.holding (ground arith) (ground arith) (λ q. ground arith)
  Step-Inv (freezes sp rv w m e) =
      unlocked-Inv w Mode.freezing (ground arith) (ground arith) (λ q. ground arith)
  Step-Inv (tries_freeze x w m e) =
      unlocked-Inv w Mode.freezing (ground arith) (ground arith) (λ q. ground arith)
  Step-Inv (acquires_frozen w m e) =
      owned-Inv w Mode.holding s.dirty (ground arith) (ground arith) (λ q. ground arith)
        (λ d. ground arith)
  Step-Inv (thaws w m e) =
      owned-Inv w Mode.idle s.dirty (ground arith) tt (λ q. refl)
        (λ d. ground (arith, v.clean, v.agrees i))
  Step-Inv (writes x m) = record {
    free = v.free;
    agrees = v.agrees;
    alone = v.alone;
    clean = λ d. ground (arith, v.agrees i);
  }
  Step-Inv (releases w m e) =
      owned-Inv w Mode.idle false (ground arith) tt (λ q. refl) (λ d. ground arith)
  Step-Inv (releases_as_orphan w m e) =
      owned-Inv w Mode.idle false (ground arith) tt (λ q. refl) (λ d. ground arith)
  Step-Inv (releases_and_adopts w m e) =
      owned-Inv w Mode.idle false (ground arith) tt (λ q. refl) (λ d. ground arith)
  Step-Inv (releases_unchanged w m c e) =
      owned-Inv w Mode.idle s.dirty (ground arith) tt (λ q. refl) (λ d. ground arith)
  Step-Inv (dies w m e) =
      owned-Inv w Mode.killer s.dirty (ground arith) (ground arith) (λ q. ground arith)
        (λ d. ground arith)
