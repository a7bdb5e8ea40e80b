-- ===== src/Vector/Unsorted/StealInsert.antt =====
-- `steal_half_and_insert` of vector_umfra.h.
use disco_skip.Prelude.{ℕ, ◌+◌, ◌-◌, ◌/◌, ◌≤◌, ◌<◌, ◌≡◌, ◌≢◌, refl, ◌∙◌}
use disco_skip.Prelude.{ap, arith, dec_lt, ℕ_discrete, true, false, Option, some}
use disco_skip.Prelude.{List, ltb, if◌then◌else◌}
use disco_skip.Prelude.{ltb-true, ltb-false}
use disco_skip.Prelude.{take}
use disco_skip.Prelude.{get_elem?-some}
use disco_skip.Vector.Slots.{Entry, key_at}
use disco_skip.Prelude.{get_elem?-some}
use disco_skip.Vector.Counts.{Test, weight, tally, tally-member}
use disco_skip.Vector.Unsorted.{
  Vec, get_capacity, restore_invariant, find_new_min, find_new_max, insert_asserting,
}
use disco_skip.Vector.Unsorted.Transfer.{
  quickselect_median, steal_from, steal_half_and_insert, insert_lower, insert_upper,
}
use disco_skip.Vector.Unsorted.Tracked.{IsTracked, entries, has_key, key_at-some}
use disco_skip.Vector.Unsorted.Restore.{
  Restored, restore_invariant_lem, restore_greatest, find_new_min_lem,
}
use disco_skip.Vector.Unsorted.Halving.{IsNthElement, Halved}
use disco_skip.Vector.Unsorted.Shares.{IsCut, tally-IsCut, insert_room, size_of, at_least, less}
use disco_skip.Vector.Unsorted.Shares
use disco_skip.Vector.Unsorted.StealHalf

module _ {V : Type 0} (pair : Entry V) (v victim : Vec V) where
  insert_lower_run :
      (victim' : Vec V)
      → insert_asserting (find_new_max victim) pair ≡ some (true, victim')
      → insert_lower pair (v, victim) ≡ some (v, victim')
  unfolding insert_lower
  insert_lower_run victim' p = rw (p, insert_lower) refl

  insert_upper_run :
      (v' : Vec V)
      → insert_asserting (find_new_min v) pair ≡ some (true, v')
      → insert_upper pair (v, victim) ≡ some (v', restore_invariant victim)
  unfolding insert_upper
  insert_upper_run v' p = rw (p, insert_upper) refl

module _ {V : Type 0} (nth : ℕ → ℕ → ℕ → List (Entry V) → List (Entry V))
    (documented : IsNthElement nth) (v victim : Vec V) (h : IsTracked victim)
    (large : get_capacity v ≡ get_capacity victim) (pair : Entry V)
    (absent : tally (has_key pair.key) (entries victim) ≡ 0) (some_old : 0 < victim.size) where
  abbrev halved : Vec V
  halved = quickselect_median nth victim

  abbrev mid : ℕ
  mid = victim.size / 2

  abbrev cut : ℕ
  cut = key_at halved.list mid

  d : Halved victim halved
  d = StealHalf.d nth documented v victim h large

  module _ (n : ℕ) (inside : n ≤ victim.size) where
    enough : victim.size - n ≤ get_capacity v
    enough = StealHalf.enough nth documented v victim h large n inside

    abbrev taken : Vec V
    taken = Shares.taken v victim halved h d n inside enough

    abbrev left : Vec V
    left = Shares.left v victim halved h d n inside enough

    sum : (p : Test V) → tally p (entries left) + tally p (entries taken) ≡ tally p (entries victim)
    sum p = Shares.both_tally v victim halved h d n inside enough p

    split_run : steal_from v halved n ≡ (restore_invariant taken, left)
    split_run = StealHalf.steal_from_run nth documented v victim h large n inside

  abbrev body : ℕ → Option (Vec V × Vec V)
  body m =
      if ltb pair.key (key_at halved.list m)
      then insert_lower pair (steal_from v halved m)
      else insert_upper pair (steal_from v halved (m + 1))

  body_run : steal_half_and_insert nth v victim pair ≡ body mid
  unfolding steal_half_and_insert
  body_run = ap body (ap (λ m. m / 2) d.size)

  -- What either case leaves.
  record Shared (v' victim' : Vec V) : Type 0 where
    tracked : IsTracked v'
    their_tracked : IsTracked victim'
    sizes : victim'.size ≡ (victim.size + 2) / 2
    same :
        (p : Test V)
        → tally p (entries victim') + tally p (entries v')
          ≡ weight (p pair) + tally p (entries victim)
    parts : (c : ℕ) × IsCut v' victim' c

  abbrev Result : Type 0
  Result =
      (v' : Vec V) × (victim' : Vec V) × (steal_half_and_insert nth v victim pair
        ≡ some (v', victim'))
      × Shared v' victim'

  middle : mid ≤ victim.size
  middle = omega arith

  lower_case : pair.key < cut → Result
  unfolding insert_lower tally
  lower_case low =
      let upper_half = StealHalf.upper_Restored nth documented v victim h large in
      let lower_half = StealHalf.lower_Restored nth documented v victim h large in
      let upper = restore_invariant (taken mid middle) in
      let lower = find_new_max (left mid middle) in
      let (victim', inserts, tracked, capacity, same) =
        insert_room lower pair lower_half.tracked
          (omega (arith, lower_half.size, lower_half.capacity, d.capacity, h.bounded))
          (omega (
            arith,
            lower_half.same (has_key pair.key),
            sum mid middle (has_key pair.key),
            absent,
          )) in
      let run : insert_lower pair (upper, left mid middle) ≡ some (upper, victim') =
        insert_lower_run pair upper (left mid middle) victim' inserts in
      let here : at_least cut pair ≡ false = ground arith in
      (
        upper,
        victim',
        body_run
            ∙ ap
                (λ b.
                  if b
                  then insert_lower pair (steal_from v halved mid)
                  else insert_upper pair (steal_from v halved (mid + 1)))
                (ltb-true pair.key cut low)
            ∙ ap (insert_lower pair) (split_run mid middle)
            ∙ run,
        record {
          tracked = upper_half.tracked;
          their_tracked = tracked;
          sizes = omega (
            arith,
            size_of victim' tracked.bounded,
            same (λ e. true),
            size_of lower lower_half.tracked.bounded,
            lower_half.size,
          );
          same = λ p. omega (arith, same p, upper_half.same p, lower_half.same p, sum mid middle p);
          parts = (
            cut,
            tally-IsCut upper victim' cut upper_half.tracked.bounded tracked.bounded
                (StealHalf.upper_none nth documented v victim h large)
                (ground (
                  arith,
                  same (at_least cut),
                  here,
                  StealHalf.lower_none nth documented v victim h large,
                )),
          );
        },
      )

  above_mid : mid + 1 ≤ victim.size
  above_mid = omega arith

  -- The median stays with the victim.
  kept_Restored : Restored (left (mid + 1) above_mid) (restore_invariant (left (mid + 1) above_mid))
  kept_Restored =
      restore_invariant_lem (left (mid + 1) above_mid) (omega (arith, d.capacity, h.bounded))
        (λ m. omega (arith, sum (mid + 1) above_mid (has_key m), h.distinct m))
        (λ i p. d.least i (omega (arith, p)))
        (λ i p. elim (ℕ_discrete i mid) [
          | yes z ↦
              omega (arith, ap (key_at halved.list) {x = mid + 1 - 1} {y = i} (omega (arith, z)))
          | no o ↦ omega (
            arith,
            d.lower i (omega (arith, o, p)),
            ap (key_at halved.list) {x = mid + 1 - 1} {y = mid} (omega arith),
          )
        ])

  upper_case : cut ≤ pair.key → Result
  unfolding tally
  upper_case high =
      let enough' = enough (mid + 1) above_mid in
      let rest = taken (mid + 1) above_mid in
      let rest_cap = Shares.taken_capacity v victim halved h d (mid + 1) above_mid enough' in
      let distinct = Shares.taken_distinct v victim halved h d (mid + 1) above_mid enough' in
      let (size, capacity, same_rest, top) =
        restore_greatest rest (omega (arith, rest_cap, enough')) distinct
          (Shares.taken_last v victim halved h d (mid + 1) above_mid enough') in
      let above = restore_invariant rest in
      let found =
        find_new_min_lem above (omega (arith, size, capacity, rest_cap, enough'))
          (λ m. omega (arith, same_rest (has_key m), distinct m))
          (λ i p q. top i (omega (arith, size, p)) (omega (arith, size, q))) in
      let (v', inserts, tracked, capacity', same) =
        insert_room (find_new_min above) pair found.tracked
          (omega (arith, found.size, found.capacity, size, capacity, rest_cap, large, h.bounded))
          (omega (
            arith,
            found.same (has_key pair.key),
            same_rest (has_key pair.key),
            sum (mid + 1) above_mid (has_key pair.key),
            absent,
          )) in
      let kept = left (mid + 1) above_mid in
      let victim' = restore_invariant kept in
      let sums : (p : Test V)
          → tally p (entries victim') + tally p (entries v')
            ≡ weight (p pair) + tally p (entries victim) =
        λ p. omega (
          arith,
          same p,
          found.same p,
          same_rest p,
          kept_Restored.same p,
          sum (mid + 1) above_mid p,
        ) in
      let (e, at) = get_elem?-some halved.list mid (omega (arith, d.capacity, h.bounded)) in
      let median = key_at-some halved.list mid e at in
      let differs : pair.key ≢ cut = λ z. ground (
        arith,
        tally-member (has_key pair.key) victim.size halved.list mid e at (omega arith),
        median,
        z,
        d.same (has_key pair.key),
        ap (λ m. tally (has_key pair.key) (take m halved.list)) d.size,
        absent,
      ) in
      let cut' : ℕ = cut + 1 in
      let here : less cut' pair ≡ false = ground (arith, differs) in
      let low_none =
        kept_Restored.same (at_least cut')
        ∙ Shares.left_none v victim halved h d (mid + 1) above_mid enough' cut' (λ j p.
          elim (ℕ_discrete j mid) [
            | yes z ↦ omega (arith, ap (key_at halved.list) z)
            | no o ↦ omega (arith, d.lower j (omega (arith, o)))
          ]) in
      let high_none =
        Shares.taken_none v victim halved h d (mid + 1) above_mid enough' cut' (λ j p q. omega (
          arith,
          d.upper j (omega arith) q,
          Shares.halved_differ v victim halved h d (mid + 1) above_mid enough' mid j (omega arith)
              q,
        )) in
      (
        v',
        victim',
        body_run
            ∙ ap
                (λ b.
                  if b
                  then insert_lower pair (steal_from v halved mid)
                  else insert_upper pair (steal_from v halved (mid + 1)))
                (ltb-false pair.key cut high)
            ∙ ap (insert_upper pair) (split_run (mid + 1) above_mid)
            ∙ insert_upper_run pair above kept v' inserts,
        record {
          tracked = tracked;
          their_tracked = kept_Restored.tracked;
          sizes = kept_Restored.size ∙ omega arith;
          same = sums;
          parts = (
            cut',
            tally-IsCut v' victim' cut' tracked.bounded kept_Restored.tracked.bounded
                (ground (
                  arith,
                  same (less cut'),
                  found.same (less cut'),
                  same_rest (less cut'),
                  high_none,
                  here,
                ))
                low_none,
          );
        },
      )

  halves : Result
  halves = elim (dec_lt pair.key cut) [
    | yes low ↦ lower_case low
    | no high ↦ upper_case (omega arith)
  ]

  -- `steal_half_and_insert` of a pair whose key is not in the tracked victim, which is not empty, by a
  -- vector of the same capacity, given what is documented of `std::nth_element`. It succeeds. The two
  -- vectors then hold the victim's entries and the pair, the victim the lower half, rounded up; both
  -- are tracked, and every key of the victim is below every key of this vector.
  pub steal_half_and_insert-IsTracked :
      (v' : Vec V) × (victim' : Vec V) × (steal_half_and_insert nth v victim pair
        ≡ some (v', victim'))
      × IsTracked v'
      × IsTracked victim'
      × (victim'.size ≡ (victim.size + 2) / 2)
      × ((p : Test V)
          → tally p (entries victim') + tally p (entries v')
            ≡ weight (p pair) + tally p (entries victim))
      × ((i j : ℕ) → i < victim'.size → j < v'.size → key_at victim'.list i < key_at v'.list j)
  steal_half_and_insert-IsTracked =
      let (v', victim', run, s) = halves in
      let (c, apart) = s.parts in
      (
        v',
        victim',
        run,
        s.tracked,
        s.their_tracked,
        s.sizes,
        s.same,
        λ i j p q. omega (arith, apart.theirs i p, apart.ours j q),
      )
