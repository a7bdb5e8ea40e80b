-- ===== src/Vector/Unsorted/Copies.antt =====
-- What the copies of vector_umfra.h carry over, and what its vectors hold in common.
use disco_skip.Prelude.{ℕ, ◌+◌, ◌-◌, ◌≤◌, ◌<◌, ◌≡◌}
use disco_skip.Prelude.{ap, arith}
use disco_skip.Prelude.{List, ltb, leb, if◌then◌else◌, ◌&&◌}
use disco_skip.Prelude.{length, take, drop}
use disco_skip.Prelude.{get_elem?-take}
use disco_skip.Vector.Slots.{Entry, key_at, memcpy}
use disco_skip.Vector.Slots.{get_elem?-memcpy}
use disco_skip.Prelude.{take-append-take}
use disco_skip.Vector.Slots.{take-memcpy}
use disco_skip.Vector.Counts.{Test, tally, tally-append, tally-some}
use disco_skip.Vector.Unsorted.{Vec}
use disco_skip.Vector.Unsorted.Tracked.{entries, has_key}

module _ {V : Type 0} where
  pub tally-memcpy :
      (p : Test V) (n : ℕ) (dst : List (Entry V)) (d : ℕ) (src : List (Entry V)) (s : ℕ)
      → s + n ≤ length src
      → d + n ≤ length dst
      → tally p (take (d + n) (memcpy n dst d src s)) + tally p (take s src)
        ≡ tally p (take d dst) + tally p (take (s + n) src)
  tally-memcpy p n dst d src s hs hd = omega (
    arith,
    ap (tally p) (take-memcpy n dst d src s hs hd),
    tally-append p (take d dst) (take n (drop s src)),
    ap (tally p) (take-append-take s n src),
    tally-append p (take s src) (take n (drop s src)),
  )

  pub key_at-memcpy :
      (n : ℕ) (dst : List (Entry V)) (d : ℕ) (src : List (Entry V)) (s i : ℕ)
      → s + n ≤ length src
      → d + n ≤ length dst
      → key_at (memcpy n dst d src s) i
        ≡ (if leb d i && ltb i (d + n) then key_at src (s + (i - d)) else key_at dst i)
  key_at-memcpy n dst d src s i hs hd = ground (arith, get_elem?-memcpy n dst d src s i hs hd)

  -- A counted key stands in a slot.
  pub key_found :
      (v : Vec V) (k : ℕ)
      → 0 < tally (has_key k) (entries v)
      → (i : ℕ) × (i < v.size) × (key_at v.list i ≡ k)
  key_found v k h =
      let (i, e, there, passes) = tally-some (has_key k) (entries v) h in
      (
        i,
        ground (arith, get_elem?-take v.size i v.list),
        ground (arith, get_elem?-take v.size i v.list),
      )
