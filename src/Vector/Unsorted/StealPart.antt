-- ===== src/Vector/Unsorted/StealPart.antt =====
-- The general case of `split_insert` of vector_umfra.h.
use disco_skip.Prelude.{ℕ, suc, ◌+◌, ◌-◌, ◌≤◌, ◌<◌, ◌≡◌, ◌≢◌, refl, ◌∙◌}
use disco_skip.Prelude.{ap, arith, some}
use disco_skip.Prelude.{List, ltb, ◌==◌, if◌then◌else◌}
use disco_skip.Prelude.{get_elem?, set, take, length-set, get_elem?-set}
use disco_skip.Vector.Slots.{Entry, key_at}
use disco_skip.Vector.Counts.{Test, weight, tally, tally-set}
use disco_skip.Vector.Unsorted.{Vec, get_capacity, fill_gap}
use disco_skip.Vector.Unsorted.Transfer.{part_loop, steal_some}
use disco_skip.Vector.Unsorted.Tracked.{
  IsTracked, entries, key_at-some, key_at-set, assign_lem, tally-extend,
}
use disco_skip.Vector.Unsorted.Extremes.{Filled, fill_gap_lem}
use disco_skip.Vector.Unsorted.Scan.{is_above}
use disco_skip.Vector.Unsorted.Part.{Parting, part_loop_lem}
use disco_skip.Vector.Unsorted.Divided.{Divided}
use disco_skip.Vector.Unsorted.StealAll.{started_tally, started_key}
use disco_skip.Vector.Unsorted.StealSome.{top_above, least_below}

module _ {V : Type 0} (v victim : Vec V) (pair : Entry V) (h : IsTracked victim)
    (differ : (j : ℕ) → j < victim.size → key_at victim.list j ≢ pair.key)
    (large : 0 < get_capacity v) (some_above : 0 < tally (λ e. ltb pair.key e.key) (entries victim))
    (partial : tally (λ e. ltb pair.key e.key) (entries victim) ≢ victim.size)
    (room : tally (λ e. ltb pair.key e.key) (entries victim) + 1 ≤ get_capacity v) (max_pos : ℕ)
    (far : 2 ≤ max_pos) (inside : max_pos < victim.size)
    (under : key_at victim.list max_pos < pair.key)
    (greatest : (j : ℕ)
      → 2 ≤ j
      → j < victim.size
      → key_at victim.list j < pair.key
      → key_at victim.list j ≤ key_at victim.list max_pos)
    (m t : Entry V) (at_max : get_elem? victim.list max_pos ≡ some m)
    (at_top : get_elem? victim.list 1 ≡ some t) where
  abbrev k : ℕ
  k = pair.key

  abbrev start : List (Entry V)
  start = set v.list 0 pair

  -- The two vectors when the last loop starts.
  abbrev ours1 : Vec V
  ours1 = record { list = set start 1 t; size = 2 }

  abbrev xs1 : List (Entry V)
  xs1 = set victim.list 1 m

  abbrev theirs1 : Vec V
  theirs1 = record { list = fill_gap xs1 max_pos (victim.size - 1); size = victim.size - 1 }

  filled : Filled xs1 max_pos (victim.size - 1) m (fill_gap xs1 max_pos (victim.size - 1))
  filled =
      fill_gap_lem xs1 max_pos (victim.size - 1) m
        (ground (arith, get_elem?-set victim.list 1 max_pos m)) (omega arith)
        (omega (arith, length-set victim.list 1 m, h.bounded))

  their_key :
      (j : ℕ)
      → j < victim.size - 1
      → key_at theirs1.list j ≡ (
          if j == max_pos
          then key_at victim.list (victim.size - 1)
          else if j == 1
          then m.key
          else key_at victim.list j)
  their_key j p = ground (
    arith,
    filled.keys j p,
    key_at-set victim.list 1 j m,
    key_at-set victim.list 1 (victim.size - 1) m,
    h.bounded,
  )

  their_tally : (p : Test V) → tally p (entries theirs1) + weight (p t) ≡ tally p (entries victim)
  unfolding tally
  their_tally p = omega (
    arith,
    filled.same p,
    tally-set p victim.size victim.list 1 t m at_top (omega arith),
    ap (λ n. tally p (take n xs1)) {x = suc (victim.size - 1)} {y = victim.size} (omega arith),
  )

  our_tally : (p : Test V) → tally p (entries ours1) ≡ weight (p pair) + weight (p t)
  our_tally p = omega (
    arith,
    started_tally v victim pair h differ large p,
    tally-extend p 1 start t (omega (arith, length-set v.list 0 pair, room, some_above)),
  )

  our_key : (j : ℕ) → j < 2 → key_at ours1.list j ≡ (if j == 0 then k else t.key)
  our_key j p = ground (
    arith,
    key_at-set start 1 j t,
    started_key v victim pair h differ large j,
    length-set v.list 0 pair,
    room,
    some_above,
  )

  starts : Parting k t.key (key_at victim.list 0) m.key ours1 theirs1 2
  starts =
      let top = key_at-some victim.list 1 t at_top in
      let mid = key_at-some victim.list max_pos m at_max in
      let high = top_above v victim pair h differ large some_above (omega arith) in
      let last : ℕ = victim.size - 1 in
      let low = least_below v victim pair h differ large partial (omega arith) in
      record {
        ours = λ j p. ground (arith, our_key j p, top, high);
        theirs = λ j p. ground (
          arith,
          their_key j p,
          mid,
          under,
          top,
          h.greatest j,
          h.greatest last,
          h.greatest max_pos,
          differ j,
          differ last,
        );
        range = λ j p q. ground (
          arith,
          their_key j p,
          mid,
          under,
          h.least j,
          h.least last,
          h.least max_pos,
          greatest j,
          greatest last,
          ap (key_at victim.list) {x = 0} {y = 0} refl,
          h.least max_pos,
        );
        done = λ j p. ground (arith, their_key j, mid, under, low);
        inside = omega arith;
        held = omega (arith, filled.capacity, length-set victim.list 1 m, h.bounded);
        room = ground (
          arith,
          their_tally (is_above k),
          top,
          high,
          room,
          length-set start 1 t,
          length-set v.list 0 pair,
        );
      }

  some_run :
      steal_some (record v { list = start }) victim k max_pos
      ≡ part_loop (victim.size - 1) ours1 theirs1 k 2
  unfolding steal_some fill_gap
  some_run =
      rw
        (
          assign_lem start 1 victim.list 1 t at_top,
          assign_lem victim.list 1 victim.list max_pos m at_max,
        )
        refl

  pub steal_some_lem :
      (v' : Vec V) × (victim' : Vec V) × (steal_some (record v { list = start }) victim k max_pos
        ≡ (v', victim'))
      × Divided v victim pair v' victim'
  steal_some_lem =
      let (v', victim', run, d) =
        part_loop_lem k t.key (key_at victim.list 0) m.key (victim.size - 1) ours1 theirs1 2
          (omega arith) starts in
      let p = d.parting in
      let first = d.kept 0 (omega arith) ∙ our_key 0 (omega arith) in
      let second = d.kept 1 (omega arith) ∙ our_key 1 (omega arith) in
      let lowest = d.their_kept 0 (omega arith) ∙ their_key 0 (omega arith) in
      let highest = d.their_kept 1 (omega arith) ∙ their_key 1 (omega arith) in
      let left = d.left in
      let len = length-set start 1 t ∙ length-set v.list 0 pair in
      let their_len = filled.capacity ∙ length-set victim.list 1 m in
      (
        v',
        victim',
        some_run ∙ run,
        record {
          bounded = omega (arith, p.room);
          capacity = d.capacity ∙ len;
          ours = λ j q. (p.ours j q).0;
          lowest = ground (arith, first);
          greatest = λ j q r. ground (arith, second, p.ours j q);
          their_bounded = p.held;
          their_capacity = d.their_capacity ∙ their_len;
          theirs = λ j q. p.done j q;
          their_least = λ j q. ground (arith, lowest, p.range j q, p.done j q, far);
          their_greatest = λ j q r. ground (
            arith,
            highest,
            p.range j q,
            p.done j q,
            far,
            key_at-some victim.list max_pos m at_max,
            ap (key_at victim.list) {x = max_pos} {y = 1},
          );
          same = λ q. omega (arith, d.same q, our_tally q, their_tally q);
        },
      )
