-- ===== src/Vector/Unsorted/Shares.antt =====
-- The two halves that vector_umfra.h parts a reordered victim into.
use disco_skip.Prelude.{false}
use disco_skip.Prelude.{ℕ, ◌+◌, ◌-◌, ◌≤◌, ◌<◌, ◌≡◌, ◌≢◌, refl}
use disco_skip.Prelude.{ap, arith, true, not, some}
use disco_skip.Prelude.{◌∷◌, ltb, inl, inr}
use disco_skip.Prelude.{length, take}
use disco_skip.Prelude.{get_elem?-some}
use disco_skip.Vector.Slots.{Entry, key_at, memcpy}
use disco_skip.Vector.Slots.{length-memcpy}
use disco_skip.Prelude.{get_elem?-some}
use disco_skip.Vector.Counts.{Test, tally, tally-none, tally-member, tally-pair, SameEntries}
use disco_skip.Vector.Unsorted.{Vec, get_capacity, insert_asserting}
use disco_skip.Vector.Unsorted.Tracked.{IsTracked, entries, has_key, key_at-some}
use disco_skip.Vector.Unsorted.Copies.{tally-memcpy, key_at-memcpy}
use disco_skip.Vector.Unsorted.Insert.{insert-IsTracked}
use disco_skip.Vector.Counts.{tally-every}
use disco_skip.Vector.Unsorted.Halving.{Halved}

module _ {V : Type 0} where
  pub size_of : (v : Vec V) → v.size ≤ get_capacity v → tally (λ e. true) (entries v) ≡ v.size
  size_of v b = tally-every (λ e. true) v.size v.list b (λ i e p q. refl)

  abbrev pub at_least : ℕ → Test V
  at_least cut e = not (ltb e.key cut)

  abbrev pub less : ℕ → Test V
  less cut e = ltb e.key cut

  -- The cut between the keys of the two vectors.
  pub record IsCut (v victim : Vec V) (cut : ℕ) : Type 0 where
    pub theirs : (i : ℕ) → i < victim.size → key_at victim.list i < cut
    pub ours : (j : ℕ) → j < v.size → cut ≤ key_at v.list j

  pub tally-IsCut :
      (v victim : Vec V) (cut : ℕ)
      → v.size ≤ get_capacity v
      → victim.size ≤ get_capacity victim
      → tally (less cut) (entries v) ≡ 0
      → tally (at_least cut) (entries victim) ≡ 0
      → IsCut v victim cut
  tally-IsCut v victim cut b d none_low none_high = record {
    theirs = λ i p.
        let (e, at) = get_elem?-some victim.list i (omega arith) in
        ground (
          arith,
          tally-member (at_least cut) victim.size victim.list i e at p,
          key_at-some victim.list i e at,
        );
    ours = λ j p.
        let (e, at) = get_elem?-some v.list j (omega arith) in
        ground (arith, tally-member (less cut) v.size v.list j e at p, key_at-some v.list j e at);
  }

  -- A tracked vector with room takes an absent key.
  pub insert_room :
      (v : Vec V) (pair : Entry V)
      → IsTracked v
      → v.size < get_capacity v
      → tally (has_key pair.key) (entries v) ≡ 0
      → (v' : Vec V) × (insert_asserting v pair ≡ some (true, v'))
        × IsTracked v'
        × (get_capacity v' ≡ get_capacity v)
        × SameEntries (entries v') (pair ∷ entries v)
  unfolding insert_asserting
  insert_room v pair h room absent = elim (insert-IsTracked v pair false h) [
    | inl (present, run) ↦ absurd (omega arith)
    | inr (none_there, inl (full, run)) ↦ absurd (omega arith)
    | inr (none_there, inr (v', run, tracked, capacity, same)) ↦
        (v', rw run refl, tracked, capacity, same)
  ]

  module _ (v victim halved : Vec V) (h : IsTracked victim) (d : Halved victim halved) (n : ℕ)
      (inside : n ≤ victim.size) (room : victim.size - n ≤ get_capacity v) where
    abbrev pub taken : Vec V
    taken = record {
      list = memcpy (victim.size - n) v.list 0 halved.list n;
      size = victim.size - n;
    }

    abbrev pub left : Vec V
    left = record halved { size = n }

    pub source : n + (victim.size - n) ≤ length halved.list
    source = omega (arith, d.capacity, h.bounded)

    pub taken_key : (j : ℕ) → j < victim.size - n → key_at taken.list j ≡ key_at halved.list (n + j)
    taken_key j p = ground (
      arith,
      key_at-memcpy (victim.size - n) v.list 0 halved.list n j source (omega arith),
      ap (key_at halved.list) {x = n + (j - 0)} {y = n + j} (omega arith),
    )

    pub both_tally :
        (p : Test V) → tally p (entries left) + tally p (entries taken) ≡ tally p (entries victim)
    unfolding tally
    both_tally p = omega (
      arith,
      tally-memcpy p (victim.size - n) v.list 0 halved.list n source (omega arith),
      ap (λ m. tally p (take m taken.list)) {x = 0 + (victim.size - n)} {y = victim.size - n}
          (omega arith),
      ap (λ m. tally p (take m halved.list)) {x = n + (victim.size - n)} {y = victim.size}
          (omega arith),
      ap (λ m. tally p (take m halved.list)) d.size,
      d.same p,
    )

    pub taken_distinct : (k : ℕ) → tally (has_key k) (entries taken) ≤ 1
    taken_distinct k = omega (arith, both_tally (has_key k), h.distinct k)

    pub left_distinct : (k : ℕ) → tally (has_key k) (entries left) ≤ 1
    left_distinct k = omega (arith, both_tally (has_key k), h.distinct k)

    pub taken_capacity : get_capacity taken ≡ get_capacity v
    taken_capacity = length-memcpy (victim.size - n) v.list 0 halved.list n

    pub taken_last :
        (i : ℕ) → i < taken.size → key_at taken.list i ≤ key_at taken.list (taken.size - 1)
    taken_last i p = omega (
      arith,
      taken_key i p,
      taken_key (victim.size - n - 1) (omega arith),
      d.last (n + i) (omega arith),
      ap (key_at halved.list) {x = n + (victim.size - n - 1)} {y = victim.size - 1} (omega arith),
    )

    -- Different places of the reordered victim have different keys.
    pub halved_differ :
        (i j : ℕ) → i < j → j < victim.size → key_at halved.list i ≢ key_at halved.list j
    halved_differ i j p q same =
        let (e, at_i) = get_elem?-some halved.list i (omega (arith, d.capacity, h.bounded)) in
        let (f, at_j) = get_elem?-some halved.list j (omega (arith, d.capacity, h.bounded)) in
        ground (
          arith,
          tally-pair (has_key e.key) victim.size halved.list i j e f at_i at_j p q,
          d.same (has_key e.key),
          h.distinct e.key,
          ap (λ m. tally (has_key e.key) (take m halved.list)) d.size,
          key_at-some halved.list i e at_i,
          key_at-some halved.list j f at_j,
        )

    pub taken_none :
        (cut : ℕ)
        → ((j : ℕ) → n ≤ j → j < victim.size → cut ≤ key_at halved.list j)
        → tally (less cut) (entries taken) ≡ 0
    taken_none cut high =
        tally-none (less cut) taken.size taken.list
          (λ j e p q. ground (arith, high (n + j), taken_key j q, key_at-some taken.list j e p))

    pub left_none :
        (cut : ℕ)
        → ((j : ℕ) → j < n → key_at halved.list j < cut)
        → tally (at_least cut) (entries left) ≡ 0
    left_none cut low =
        tally-none (at_least cut) n halved.list
          (λ j e p q. ground (arith, low j q, key_at-some halved.list j e p))
