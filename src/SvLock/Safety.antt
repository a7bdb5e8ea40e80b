-- ===== src/SvLock/Safety.antt =====
-- What the protocol of an `sv_lock` guarantees: one writer at a time, and reads of unchanging data.
use disco_skip.Prelude.{ℕ, ◌+◌, ◌*◌, ◌^◌, ◌≤◌, ◌<◌, ◌≡◌, ◌≢◌, refl, arith, Bool, true}
use disco_skip.Prelude.{◌⊎◌, inl, inr}
use disco_skip.SvLock.{
  acquire_round, freeze_round, acquire_frozen, try_upgrade, try_freeze, release,
}
use disco_skip.SvLock.{release_as_orphan, release_and_adopt, release_unchanged, thaw, die}
use disco_skip.SvLock.{begin_read, confirm_read}
use disco_skip.SvLock.Words.{state, NoWrap, confirm_read_iff}
use disco_skip.SvLock.Protocol.{Mode, System, Step, acquires, upgrades, freezes, tries_freeze}
use disco_skip.SvLock.Protocol.{acquires_frozen, thaws, writes, releases, releases_as_orphan}
use disco_skip.SvLock.Protocol.{
  releases_and_adopts, releases_unchanged, dies, Run, here, next, fresh,
}
use disco_skip.SvLock.Invariant.{Inv, Step-Inv}
use disco_skip.SvLock.{init}

-- A step adds at most 8 to the word, and never lowers what a reader sees of it.
Step-grows :
    {s : System} (i : ℕ) {t : System}
    → NoWrap s.word
    → Step s i t
    → (t.word ≤ s.word + 8) × (begin_read s.word ≤ begin_read t.word)
unfolding begin_read acquire_round freeze_round acquire_frozen try_upgrade try_freeze release
    release_as_orphan release_and_adopt release_unchanged thaw die
Step-grows i h (acquires sp rv w m e) = ground arith
Step-grows i h (upgrades x w m e) = ground arith
Step-grows i h (freezes sp rv w m e) = ground arith
Step-grows i h (tries_freeze x w m e) = ground arith
Step-grows i h (acquires_frozen w m e) = ground arith
Step-grows i h (thaws w m e) = ground arith
Step-grows i h (writes x m) = omega arith
Step-grows i h (releases w m e) = ground arith
Step-grows i h (releases_as_orphan w m e) = ground arith
Step-grows i h (releases_and_adopts w m e) = ground arith
Step-grows i h (releases_unchanged w m c e) = ground arith
Step-grows i h (dies w m e) = ground arith

-- Seen from a state with the content `x` and the reader's value `b`: a later state shows a greater value,
-- or the same one, and then the data are the same unless the holder of the lock has written.
abbrev Since : ℕ → ℕ → System → Type 0
Since b x s =
    (b < begin_read s.word) ⊎ ((begin_read s.word ≡ b) × ((s.content ≡ x) ⊎ (s.dirty ≡ true)))

Step-Since :
    (b x : ℕ) {s : System} (i : ℕ) {t : System}
    → NoWrap s.word
    → Step s i t
    → Since b x s
    → Since b x t
unfolding begin_read acquire_round freeze_round acquire_frozen try_upgrade try_freeze release
    release_as_orphan release_and_adopt release_unchanged thaw die
Step-Since b x i h (acquires sp rv w m e) q = ground arith
Step-Since b x i h (upgrades y w m e) q = ground arith
Step-Since b x i h (freezes sp rv w m e) q = ground arith
Step-Since b x i h (tries_freeze y w m e) q = ground arith
Step-Since b x i h (acquires_frozen w m e) q = ground arith
Step-Since b x i h (thaws w m e) q = ground arith
Step-Since b x i h (writes y m) q = ground arith
Step-Since b x i h (releases w m e) q = ground arith
Step-Since b x i h (releases_as_orphan w m e) q = ground arith
Step-Since b x i h (releases_and_adopts w m e) q = ground arith
Step-Since b x i h (releases_unchanged w m c e) q = ground arith
Step-Since b x i h (dies w m e) q = ground arith

Run-grows :
    {s : System} {n : ℕ} {t : System}
    → s.word + 8 * n + 8 ≤ 2 ^ 64
    → Run s n t
    → (t.word ≤ s.word + 8 * n) × (begin_read s.word ≤ begin_read t.word)
Run-grows h (here e) = omega arith
Run-grows h (next i r st) =
    let (small, up) = Run-grows (omega arith) r in
    omega (arith, small, up, Step-grows i (omega (arith, small)) st)

Run-Inv :
    {s : System} {n : ℕ} {t : System} → s.word + 8 * n + 8 ≤ 2 ^ 64 → Inv s → Run s n t → Inv t
Run-Inv h v (here e) = v
Run-Inv h v (next i r st) =
    let (small, up) = Run-grows (omega arith) r in
    Step-Inv (omega (arith, small)) (Run-Inv (omega arith) v r) i st

Run-Since :
    (b x : ℕ) {s : System} {n : ℕ} {t : System}
    → s.word + 8 * n + 8 ≤ 2 ^ 64
    → Since b x s
    → Run s n t
    → Since b x t
Run-Since b x h q (here e) = q
Run-Since b x h q (next i r st) =
    let (small, up) = Run-grows (omega arith) r in
    Step-Since b x i (omega (arith, small)) st (Run-Since b x (omega arith) q r)

init-small : (orphan : Bool) → init orphan ≤ 1
unfolding init
init-small orphan = ground arith

fresh-Inv : (orphan : Bool) (x : ℕ) → Inv (fresh (init orphan) x)
unfolding init state
fresh-Inv orphan x = record {
  free = λ i p. refl;
  agrees = λ i. tt;
  alone = λ i j p q. absurd (p refl);
  clean = λ d. ground arith;
}

-- From a new lock and at most 2^61 - 2 steps on, at most one thread has locked, frozen or killed it.
pub mutual_exclusion :
    {n : ℕ} {s : System} (orphan : Bool) (x i j : ℕ)
    → 8 * n + 9 ≤ 2 ^ 64
    → Run (fresh (init orphan) x) n s
    → s.mode i ≢ Mode.idle
    → s.mode j ≢ Mode.idle
    → i ≡ j
mutual_exclusion orphan x i j h r p q =
    (Run-Inv (omega (arith, init-small orphan)) (fresh-Inv orphan x) r).alone i j p q

-- A reader that begins at `s`, reads at `u` and confirms at `t` has read the data that stand at `t`,
-- however the steps of other threads fall between, if the run from the new lock has at most
-- 2^61 - 2 steps. So all its reads are of one and the same content.
pub read_consistency :
    {n m k : ℕ} {s u t : System} (orphan : Bool) (x : ℕ)
    → 8 * (n + m + k) + 9 ≤ 2 ^ 64
    → Run (fresh (init orphan) x) n s
    → Run s m u
    → Run u k t
    → confirm_read t.word (begin_read s.word) ≡ true
    → u.content ≡ t.content
read_consistency {s} {u} {t} orphan x h r₁ r₂ r₃ c =
    let z = init-small orphan in
    let (small₁, up₁) = Run-grows (omega (arith, z)) r₁ in
    let (small₂, up₂) = Run-grows (omega (arith, z, small₁)) r₂ in
    let (small₃, up₃) = Run-grows (omega (arith, z, small₁, small₂)) r₃ in
    let v₁ = Run-Inv (omega (arith, z)) (fresh-Inv orphan x) r₁ in
    let v₂ = Run-Inv (omega (arith, z, small₁)) v₁ r₂ in
    let v₃ = Run-Inv (omega (arith, z, small₁, small₂)) v₂ r₃ in
    let (open_lock, same) = (confirm_read_iff s.word t.word).0 c in
    let since =
      Run-Since (begin_read u.word) u.content (omega (arith, z, small₁, small₂))
        (inr (refl, inl refl)) r₃ in
    ground (arith, since, open_lock, same, up₂, up₃, v₃.clean)
