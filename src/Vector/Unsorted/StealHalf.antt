-- ===== src/Vector/Unsorted/StealHalf.antt =====
-- `steal_half` of vector_umfra.h.
use disco_skip.Prelude.{ℕ, ◌+◌, ◌-◌, ◌/◌, ◌≤◌, ◌<◌, ◌≡◌, refl, ◌∙◌}
use disco_skip.Prelude.{ap, arith}
use disco_skip.Prelude.{List}
use disco_skip.Vector.Slots.{Entry, key_at}
use disco_skip.Vector.Counts.{Test, tally}
use disco_skip.Vector.Unsorted.{Vec, get_capacity, restore_invariant, find_new_max}
use disco_skip.Vector.Unsorted.Transfer.{quickselect_median, steal_from, steal_half}
use disco_skip.Vector.Unsorted.Tracked.{IsTracked, entries}
use disco_skip.Vector.Unsorted.Restore.{Restored, restore_invariant_lem, find_new_max_lem}
use disco_skip.Vector.Unsorted.Halving.{IsNthElement, Halved, quickselect_median_lem}
use disco_skip.Vector.Unsorted.Shares.{IsCut, tally-IsCut, insert_room, size_of, at_least, less}
use disco_skip.Vector.Unsorted.Shares

module _ {V : Type 0} (nth : ℕ → ℕ → ℕ → List (Entry V) → List (Entry V))
    (documented : IsNthElement nth) (v victim : Vec V) (h : IsTracked victim)
    (large : get_capacity v ≡ get_capacity victim) where
  abbrev pub halved : Vec V
  halved = quickselect_median nth victim

  pub d : Halved victim halved
  d = quickselect_median_lem nth documented victim h

  abbrev pub mid : ℕ
  mid = victim.size / 2

  module _ (n : ℕ) (inside : n ≤ victim.size) where
    pub enough : victim.size - n ≤ get_capacity v
    enough = omega (arith, h.bounded)

    abbrev pub taken : Vec V
    taken = Shares.taken v victim halved h d n inside enough

    abbrev pub left : Vec V
    left = Shares.left v victim halved h d n inside enough

  pub steal_from_run :
      (n : ℕ) (inside : n ≤ victim.size)
      → steal_from v halved n ≡ (restore_invariant (taken n inside), left n inside)
  unfolding steal_from
  steal_from_run n inside = rw d.size refl

  pub middle : mid ≤ victim.size
  middle = omega arith

  pub upper_Restored : Restored (taken mid middle) (restore_invariant (taken mid middle))
  upper_Restored =
      let enough' = enough mid middle in
      let key = Shares.taken_key v victim halved h d mid middle enough' in
      restore_invariant_lem (taken mid middle)
        (omega (arith, Shares.taken_capacity v victim halved h d mid middle enough', enough'))
        (Shares.taken_distinct v victim halved h d mid middle enough')
        (λ i p. omega (
          arith,
          key i p,
          key 0 (omega arith),
          d.upper (mid + i) (omega arith) (omega arith),
          ap (key_at halved.list) {x = mid + 0} {y = mid} (omega arith),
        ))
        (Shares.taken_last v victim halved h d mid middle enough')

  pub lower_Restored : Restored (left mid middle) (find_new_max (left mid middle))
  lower_Restored =
      let enough' = enough mid middle in
      find_new_max_lem (left mid middle) (omega (arith, d.capacity, h.bounded))
        (Shares.left_distinct v victim halved h d mid middle enough')
        (λ i p. d.least i (omega arith))

  abbrev pub cut : ℕ
  cut = key_at halved.list mid

  pub upper_none : tally (less cut) (entries (restore_invariant (taken mid middle))) ≡ 0
  upper_none =
      upper_Restored.same (less cut)
      ∙ Shares.taken_none v victim halved h d mid middle (enough mid middle) cut
          (λ j p q. d.upper j p q)

  pub lower_none : tally (at_least cut) (entries (find_new_max (left mid middle))) ≡ 0
  lower_none =
      lower_Restored.same (at_least cut)
      ∙ Shares.left_none v victim halved h d mid middle (enough mid middle) cut (λ j p. omega (
        arith,
        d.lower j p,
        Shares.halved_differ v victim halved h d mid middle (enough mid middle) j mid p
            (omega arith),
      ))

  -- `steal_half` of a tracked victim by a vector of the same capacity, given what is documented of
  -- `std::nth_element`. The victim keeps the lower half of its entries, rounded down, and this vector gets
  -- the others. Both are tracked, and every key of the victim is below every key of this vector.
  pub steal_half-IsTracked :
      (v' : Vec V) × (victim' : Vec V) × (steal_half nth v victim ≡ (v', victim'))
      × IsTracked v'
      × IsTracked victim'
      × (v'.size ≡ victim.size - victim.size / 2)
      × (victim'.size ≡ victim.size / 2)
      × ((p : Test V) → tally p (entries victim') + tally p (entries v') ≡ tally p (entries victim))
      × ((i j : ℕ) → i < victim'.size → j < v'.size → key_at victim'.list i < key_at v'.list j)
  unfolding steal_half
  steal_half-IsTracked =
      let v' = restore_invariant (taken mid middle) in
      let victim' = find_new_max (left mid middle) in
      let apart =
        tally-IsCut v' victim' cut upper_Restored.tracked.bounded lower_Restored.tracked.bounded
          upper_none lower_none in
      let same_mid : halved.size / 2 ≡ mid = ap (λ m. m / 2) d.size in
      (
        v',
        victim',
        ap (λ m. ((steal_from v halved m).0, find_new_max (steal_from v halved m).1)) same_mid
            ∙ ap (λ pair. (pair.0, find_new_max pair.1)) (steal_from_run mid middle),
        upper_Restored.tracked,
        lower_Restored.tracked,
        upper_Restored.size,
        lower_Restored.size,
        λ p. omega (
          arith,
          upper_Restored.same p,
          lower_Restored.same p,
          Shares.both_tally v victim halved h d mid middle (enough mid middle) p,
        ),
        λ i j p q. omega (arith, apart.theirs i p, apart.ours j q),
      )
