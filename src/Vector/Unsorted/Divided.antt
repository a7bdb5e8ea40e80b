-- ===== src/Vector/Unsorted/Divided.antt =====
-- What `split_insert` of vector_umfra.h leaves: a vector with the keys from the new one on, and the rest.
use disco_skip.Prelude.{ℕ, ◌+◌, ◌≤◌, ◌<◌, ◌≡◌}
use disco_skip.Prelude.{ap, arith, ℕ_discrete, false, not}
use disco_skip.Prelude.{◌∷◌, ltb, ◌&&◌}
use disco_skip.Vector.Slots.{Entry, key_at}
use disco_skip.Vector.Entries.{below, from}
use disco_skip.Vector.Counts.{
  Test, weight, tally, tally-none, tally-parts, tally-less, tally-below, tally-from, SameEntries,
}
use disco_skip.Vector.Unsorted.{Vec, get_capacity}
use disco_skip.Vector.Unsorted.Tracked.{IsTracked, entries, has_key, key_at-some}

module _ {V : Type 0} (v victim : Vec V) (pair : Entry V) where
  abbrev k : ℕ
  k = pair.key

  -- What each case leaves: the keys from `k` on in this vector and the others in the victim.
  pub record Divided (v' victim' : Vec V) : Type 0 where
    pub bounded : v'.size ≤ get_capacity v'
    pub capacity : get_capacity v' ≡ get_capacity v
    pub ours : (j : ℕ) → j < v'.size → k ≤ key_at v'.list j
    pub lowest : key_at v'.list 0 ≡ k
    pub greatest : (j : ℕ) → j < v'.size → 2 ≤ v'.size → key_at v'.list j ≤ key_at v'.list 1
    pub their_bounded : victim'.size ≤ get_capacity victim'
    pub their_capacity : get_capacity victim' ≡ get_capacity victim
    pub theirs : (j : ℕ) → j < victim'.size → key_at victim'.list j < k
    pub their_least : (j : ℕ) → j < victim'.size → key_at victim'.list 0 ≤ key_at victim'.list j
    pub their_greatest :
        (j : ℕ)
        → j < victim'.size
        → 2 ≤ victim'.size
        → key_at victim'.list j ≤ key_at victim'.list 1
    pub same :
        (p : Test V)
        → tally p (entries v') + tally p (entries victim')
          ≡ weight (p pair) + tally p (entries victim)

  abbrev is_below : Test V
  is_below e = ltb e.key k

  -- Every entry went to the side of its key.
  pub Divided-IsTracked :
      (v' victim' : Vec V)
      → IsTracked victim
      → tally (has_key k) (entries victim) ≡ 0
      → Divided v' victim'
      → IsTracked v'
        × IsTracked victim'
        × SameEntries (entries v') (pair ∷ from k (entries victim))
        × SameEntries (entries victim') (below k (entries victim))
  unfolding tally
  Divided-IsTracked v' victim' h absent d =
      let not_below : Test V = λ e. not (is_below e) in
      let ours_none : tally is_below (entries v') ≡ 0 =
        tally-none is_below v'.size v'.list
          (λ i e p q. ground (arith, d.ours i q, key_at-some v'.list i e p)) in
      let theirs_none : tally not_below (entries victim') ≡ 0 =
        tally-none not_below victim'.size victim'.list
          (λ i e p q. ground (arith, d.theirs i q, key_at-some victim'.list i e p)) in
      let here : is_below pair ≡ false = ground arith in
      let distinct : (m : ℕ)
          → tally (has_key m) (entries v') + tally (has_key m) (entries victim') ≤ 1 =
        λ m. elim (ℕ_discrete m k) [
          | yes z ↦
              ground
                (arith, d.same (has_key m), absent, ap (λ n. tally (has_key n) (entries victim)) z)
          | no o ↦ ground (arith, d.same (has_key m), h.distinct m)
        ] in
      (
        record {
          bounded = d.bounded;
          distinct = λ m. omega (arith, distinct m);
          least = λ i p. omega (arith, d.lowest, d.ours i p);
          greatest = d.greatest;
        },
        record {
          bounded = d.their_bounded;
          distinct = λ m. omega (arith, distinct m);
          least = d.their_least;
          greatest = d.their_greatest;
        },
        λ p. ground (
          arith,
          here,
          ours_none,
          theirs_none,
          tally-from p k (entries victim),
          d.same (λ e. p e && not (is_below e)),
          tally-parts p is_below (entries v'),
          tally-less p is_below (entries v'),
          tally-less p not_below (entries victim'),
        ),
        λ p. ground (
          arith,
          here,
          ours_none,
          theirs_none,
          tally-below p k (entries victim),
          d.same (λ e. p e && is_below e),
          tally-parts p is_below (entries victim'),
          tally-less p is_below (entries v'),
          tally-less p not_below (entries victim'),
        ),
      )
