-- ===== src/Vector/Unsorted/SplitInsert.antt =====
-- `split_insert` of vector_umfra.h.
use disco_skip.Prelude.{ℕ, ◌+◌, ◌-◌, ◌≤◌, ◌<◌, ◌≡◌, ◌≢◌, refl, sym, ◌∙◌}
use disco_skip.Prelude.{ap, arith, ℕ_discrete, true, false, some}
use disco_skip.Prelude.{◌∷◌, ltb, ◌==◌, ◌||◌, inl, inr}
use disco_skip.Prelude.{==-true, ==-false}
use disco_skip.Prelude.{set, length-take}
use disco_skip.Prelude.{get_elem?-some}
use disco_skip.Vector.Slots.{Entry, key_at, assign, memcpy}
use disco_skip.Vector.Entries.{below, from}
use disco_skip.Prelude.{get_elem?-some}
use disco_skip.Vector.Counts.{tally, tally-none, tally-bound, SameEntries}
use disco_skip.Vector.Unsorted.{Vec, get_capacity}
use disco_skip.Vector.Unsorted.Transfer.{Scan, scan, steal_all, steal_upper, split_insert}
use disco_skip.Vector.Unsorted.Tracked.{IsTracked, entries, has_key, key_at-some, places_differ}
use disco_skip.Vector.Unsorted.Scan.{Seen, scan_lem}
use disco_skip.Vector.Unsorted.Divided.{Divided, Divided-IsTracked}
use disco_skip.Vector.Unsorted.StealAll.{keep_all, steal_one, steal_many}
use disco_skip.Vector.Unsorted.StealSome.{steal_upper_lem}
use disco_skip.Vector.Unsorted.StealPart.{steal_some_lem}

module _ {V : Type 0} (v victim : Vec V) (pair : Entry V) (h : IsTracked victim)
    (differ : (j : ℕ) → j < victim.size → key_at victim.list j ≢ pair.key)
    (large : 0 < get_capacity v)
    (room : tally (λ e. ltb pair.key e.key) (entries victim) + 1 ≤ get_capacity v) where
  abbrev k : ℕ
  k = pair.key

  abbrev started : Vec V
  started = record v { list = set v.list 0 pair }

  abbrev Result : Type 0
  Result =
      (v' : Vec V) × (victim' : Vec V) × (split_insert v victim pair ≡ some (v', victim'))
      × Divided v victim pair v' victim'

  module _ (seen : Scan) (run : scan victim k ≡ some seen)
      (s : Seen victim.list k victim.size seen) where
    fits : ltb (get_capacity v) (seen.steal + 1) ≡ false
    fits = ground (arith, s.counted, room)

    none_case : seen.steal ≡ 0 → Result
    unfolding split_insert
    none_case z =
        let test : (get_capacity v == 1 || seen.steal == 0) ≡ true = ground arith in
        (
          record { list = set v.list 0 pair; size = 1 },
          victim,
          rw (run, split_insert) (rw (fits, test) refl),
          keep_all v victim pair h differ large (sym s.counted ∙ z),
        )

    module _ (some_above : 0 < seen.steal) where
      moves : (get_capacity v == 1 || seen.steal == 0) ≡ false
      moves = ground (arith, s.counted, room)

      all_case : seen.steal ≡ victim.size → Result
      unfolding split_insert steal_all
      all_case every =
          let test = ==-true seen.steal victim.size every in
          elim (ℕ_discrete victim.size 1) [
            | yes one ↦
                let single = ==-true seen.steal 1 (every ∙ one) in
                (
                  record { list = assign started.list 1 victim.list 0; size = victim.size + 1 },
                  record victim { size = 0 },
                  rw (run, split_insert)
                      (rw (fits, moves, test, single)
                        (ap
                          (λ n. some (
                            record { list = assign started.list 1 victim.list 0; size = n + 1 },
                            record victim { size = 0 },
                          ))
                          every)),
                  steal_one v victim pair h differ large room one (sym s.counted ∙ every),
                )
            | no more ↦
                let single = ==-false seen.steal 1 (λ e. more (sym every ∙ e)) in
                (
                  record {
                    list =
                        memcpy (victim.size - 2)
                          (assign (assign started.list 1 victim.list 1) 2 victim.list 0) 3
                          victim.list 2;
                    size = victim.size + 1;
                  },
                  record victim { size = 0 },
                  rw (run, split_insert)
                      (rw (fits, moves, test, single)
                        (ap
                          (λ n. some (
                            record {
                              list =
                                  memcpy (n - 2)
                                    (assign (assign started.list 1 victim.list 1) 2 victim.list 0) 3
                                    victim.list 2;
                              size = n + 1;
                            },
                            record victim { size = 0 },
                          ))
                          every)),
                  steal_many v victim pair h differ large room (omega (arith, more, every))
                      (sym s.counted ∙ every),
                )
          ]

      module _ (some_left : seen.steal ≢ victim.size) where
        two : 2 ≤ victim.size
        two = omega (
          arith,
          s.counted,
          tally-bound (λ e. ltb k e.key) (entries victim),
          length-take victim.size victim.list,
        )

        partial : tally (λ e. ltb k e.key) (entries victim) ≢ victim.size
        partial e = some_left (s.counted ∙ e)

        upper_case : seen.max_key ≡ key_at victim.list 0 → Result
        unfolding split_insert steal_upper
        upper_case same =
            let all : (seen.steal == victim.size) ≡ false =
              ==-false seen.steal victim.size some_left in
            let only = ==-true seen.max_key (key_at victim.list 0) same in
            let upper : (j : ℕ) → 2 ≤ j → j < victim.size → k < key_at victim.list j = λ j p q.
              ground (arith, s.greatest j, h.least j, places_differ victim h 0 j, differ j, same) in
            let (d, count) =
              steal_upper_lem v victim pair h differ large (omega (arith, s.counted)) partial room
                two upper in
            (
              record {
                list = memcpy (victim.size - 1) started.list 1 victim.list 1;
                size = victim.size - 1 + 1;
              },
              record victim { size = 1 },
              rw (run, split_insert)
                  (rw (fits, moves, all, only)
                    (ap
                      (λ n. some (
                        record { list = memcpy n started.list 1 victim.list 1; size = n + 1 },
                        record victim { size = 1 },
                      ))
                      (s.counted ∙ count))),
              d,
            )

        some_case : seen.max_key ≢ key_at victim.list 0 → Result
        unfolding split_insert
        some_case other = elim s.place [
          | inl z ↦ absurd (other (s.key ∙ ap (key_at victim.list) z))
          | inr (far, inside, under) ↦
              let all : (seen.steal == victim.size) ≡ false =
                ==-false seen.steal victim.size some_left in
              let only = ==-false seen.max_key (key_at victim.list 0) other in
              let (m, at_max) =
                get_elem?-some victim.list seen.max_pos (omega (arith, h.bounded)) in
              let (t, at_top) = get_elem?-some victim.list 1 (omega (arith, h.bounded)) in
              let (v', victim', moved, d) =
                steal_some_lem v victim pair h differ large (omega (arith, s.counted)) partial room
                  seen.max_pos far inside (omega (arith, s.key))
                  (λ j p q r. omega (arith, s.greatest j p q r, s.key)) m t at_max at_top in
              (v', victim', rw (run, split_insert) (rw (fits, moves, all, only) (ap some moved)), d)
        ]

  split_insert_cases : Result
  split_insert_cases =
      let (seen, run, s) = scan_lem victim k h differ in
      elim (ℕ_discrete seen.steal 0) [
        | yes z ↦ none_case seen run s z
        | no some_above ↦
            let positive : 0 < seen.steal = omega (arith, some_above) in
            elim (ℕ_discrete seen.steal victim.size) [
              | yes every ↦ all_case seen run s positive every
              | no some_left ↦ elim (ℕ_discrete seen.max_key (key_at victim.list 0)) [
                | yes same ↦ upper_case seen run s positive some_left same
                | no other ↦ some_case seen run s positive some_left other
              ]
            ]
      ]

  -- `split_insert` of a pair whose key is not in the tracked victim, if this vector has room for it and for
  -- the victim's keys above it. It succeeds. This vector then holds the pair and exactly those entries, the
  -- victim exactly the others, and both are tracked.
  pub split_insert-IsTracked :
      (v' : Vec V) × (victim' : Vec V) × (split_insert v victim pair ≡ some (v', victim'))
      × IsTracked v'
      × IsTracked victim'
      × SameEntries (entries v') (pair ∷ from pair.key (entries victim))
      × SameEntries (entries victim') (below pair.key (entries victim))
  split_insert-IsTracked =
      let (v', victim', run, d) = split_insert_cases in
      let absent : tally (has_key pair.key) (entries victim) ≡ 0 =
        tally-none (has_key pair.key) victim.size victim.list
          (λ i e p q. ground (arith, differ i q, key_at-some victim.list i e p)) in
      let (ours, theirs, same, their_same) =
        Divided-IsTracked v victim pair v' victim' h absent d in
      (v', victim', run, ours, theirs, same, their_same)
