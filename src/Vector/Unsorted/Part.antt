-- ===== src/Vector/Unsorted/Part.antt =====
-- The last loop of `split_insert` of vector_umfra.h.
use disco_skip.Prelude.{ℕ, zero, suc, ◌+◌, ◌-◌, ◌≤◌, ◌<◌, ◌≡◌, ◌≢◌, refl, sym, ◌∙◌}
use disco_skip.Prelude.{ap, arith, dec_lt, ℕ_discrete, some}
use disco_skip.Prelude.{get_elem?, set, take, length-set}
use disco_skip.Prelude.{get_elem?-some}
use disco_skip.Vector.Slots.{Entry, key_at}
use disco_skip.Prelude.{get_elem?-some}
use disco_skip.Vector.Counts.{Test, weight, tally, tally-set, tally-suc}
use disco_skip.Vector.Unsorted.{Vec, get_capacity}
use disco_skip.Vector.Unsorted.Transfer.{part_loop}
use disco_skip.Vector.Unsorted.Tracked.{entries, key_at-some, key_at-set, tally-extend}
use disco_skip.Vector.Unsorted.Scan.{is_above}
use disco_skip.Vector.Unsorted.PartRuns.{from_end_run, from_middle_run, stop_run, skip_run}

module _ {V : Type 0} (k top lo hi : ℕ) where
  -- The two vectors during the loop: this one has keys from `k` to `top`, and the victim has other keys than
  -- `k`, those of its first `i` elements below it and between `lo` and `hi`.
  pub record Parting (v victim : Vec V) (i : ℕ) : Type 0 where
    pub ours : (j : ℕ) → j < v.size → (k ≤ key_at v.list j) × (key_at v.list j ≤ top)
    pub theirs :
        (j : ℕ) → j < victim.size → (key_at victim.list j ≢ k) × (key_at victim.list j ≤ top)
    pub range :
        (j : ℕ)
        → j < victim.size
        → key_at victim.list j < k
        → (lo ≤ key_at victim.list j) × (key_at victim.list j ≤ hi)
    pub done : (j : ℕ) → j < i → key_at victim.list j < k
    pub inside : i ≤ victim.size
    pub held : victim.size ≤ get_capacity victim
    pub room : v.size + tally (is_above k) (entries victim) ≤ get_capacity v

  -- What the loop leaves.
  pub record Parted (i : ℕ) (v victim : Vec V) (v' victim' : Vec V) : Type 0 where
    pub parting : Parting v' victim' victim'.size
    pub left : i ≤ victim'.size
    pub their_kept : (j : ℕ) → j < i → key_at victim'.list j ≡ key_at victim.list j
    pub larger : v.size ≤ v'.size
    pub capacity : get_capacity v' ≡ get_capacity v
    pub their_capacity : get_capacity victim' ≡ get_capacity victim
    pub kept : (j : ℕ) → j < v.size → key_at v'.list j ≡ key_at v.list j
    pub same :
        (p : Test V)
        → tally p (entries v') + tally p (entries victim')
          ≡ tally p (entries v) + tally p (entries victim)

  -- The last element of the victim moves to this vector.
  module _ (v victim : Vec V) (i : ℕ) (s : Parting v victim i) (left : i < victim.size)
      (e : Entry V) where
    abbrev grown : Vec V
    grown = record { list = set v.list v.size e; size = v.size + 1 }

    module _ (high : k < e.key) (under : e.key ≤ top) (room : v.size < get_capacity v) where
      grown_keys : (j : ℕ) → j < v.size → key_at grown.list j ≡ key_at v.list j
      grown_keys j p = ground (arith, key_at-set v.list v.size j e)

      grown_ours :
          (j : ℕ) → j < v.size + 1 → (k ≤ key_at grown.list j) × (key_at grown.list j ≤ top)
      grown_ours j p = ground (arith, key_at-set v.list v.size j e, s.ours j)

      grown_tally : (p : Test V) → tally p (entries grown) ≡ tally p (entries v) + weight (p e)
      grown_tally p =
          ap (λ n. tally p (take n grown.list)) {x = v.size + 1} {y = suc v.size} (omega arith)
          ∙ tally-extend p v.size v.list e room

      grown_Parted :
          (i' : ℕ) (victim1 v' victim' : Vec V)
          → i ≤ i'
          → get_capacity victim1 ≡ get_capacity victim
          → ((j : ℕ) → j < i → key_at victim1.list j ≡ key_at victim.list j)
          → ((p : Test V) → tally p (entries victim1) + weight (p e) ≡ tally p (entries victim))
          → Parted i' grown victim1 v' victim'
          → Parted i v victim v' victim'
      grown_Parted i' victim1 v' victim' later cap same_keys same d = record {
        parting = d.parting;
        left = omega (arith, d.left);
        their_kept = λ j p. d.their_kept j (omega arith) ∙ same_keys j p;
        larger = omega (arith, d.larger);
        capacity = d.capacity ∙ length-set v.list v.size e;
        their_capacity = d.their_capacity ∙ cap;
        kept = λ j p. d.kept j (omega arith) ∙ grown_keys j p;
        same = λ p. omega (arith, d.same p, grown_tally p, same p);
      }

  Parted-earlier :
      (i j : ℕ) (v victim v' victim' : Vec V)
      → i ≤ j
      → Parted j v victim v' victim'
      → Parted i v victim v' victim'
  Parted-earlier i j v victim v' victim' h d = record {
    parting = d.parting;
    left = omega (arith, d.left);
    their_kept = λ m p. d.their_kept m (omega arith);
    larger = d.larger;
    capacity = d.capacity;
    their_capacity = d.their_capacity;
    kept = d.kept;
    same = d.same;
  }

  -- After a skipped element, after the last one has moved, and after one from the middle has.
  module _ (v victim : Vec V) (i : ℕ) (s : Parting v victim i) (left : i < victim.size) where
    skip_Parting : key_at victim.list i < k → Parting v victim (i + 1)
    skip_Parting low = record {
      ours = s.ours;
      theirs = s.theirs;
      range = s.range;
      done = λ j p. elim (ℕ_discrete j i) [ yes z ↦ rw z low | no z ↦ s.done j (omega (arith, z)) ];
      inside = omega arith;
      held = s.held;
      room = s.room;
    }

    module _ (e : Entry V) (high : k < e.key) (under : e.key ≤ top) where
      from_end_Parting :
          get_elem? victim.list (victim.size - 1) ≡ some e
          → (v.size < get_capacity v)
            × Parting (grown v victim i s left e) (record victim { size = victim.size - 1 }) i
            × ((p : Test V)
                → tally p (take (victim.size - 1) victim.list) + weight (p e)
                  ≡ tally p (entries victim))
      from_end_Parting at =
          let count : (p : Test V)
              → tally p (take (victim.size - 1) victim.list) + weight (p e)
                ≡ tally p (entries victim) =
            λ p. sym (
              ap (λ n. tally p (take n victim.list)) {x = victim.size} {y = suc (victim.size - 1)}
                (omega arith)
              ∙ tally-suc p (victim.size - 1) victim.list e at) in
          let above = count (is_above k) in
          let fits : v.size < get_capacity v = ground (arith, s.room, above) in
          (
            fits,
            record {
              ours = grown_ours v victim i s left e high under fits;
              theirs = λ j p. s.theirs j (omega arith);
              range = λ j p. s.range j (omega arith);
              done = s.done;
              inside = omega arith;
              held = omega (arith, s.held);
              room = ground (
                arith,
                s.room,
                above,
                grown_tally v victim i s left e high under fits (is_above k),
                length-set v.list v.size e,
              );
            },
            count,
          )

      from_middle_Parting :
          (f : Entry V)
          → get_elem? victim.list i ≡ some e
          → get_elem? victim.list (victim.size - 1) ≡ some f
          → f.key < k
          → (v.size < get_capacity v)
            × Parting
                (grown v victim i s left e)
                (record { list = set victim.list i f; size = victim.size - 1 })
                (i + 1)
            × ((p : Test V)
                → tally p (take (victim.size - 1) (set victim.list i f)) + weight (p e)
                  ≡ tally p (entries victim))
            × ((j : ℕ) → j < i → key_at (set victim.list i f) j ≡ key_at victim.list j)
      from_middle_Parting f at there low =
          let first = key_at-some victim.list i e at in
          let last = key_at-some victim.list (victim.size - 1) f there in
          let differ : i ≢ victim.size - 1 =
            λ z. omega (arith, ap (key_at victim.list) z, first, last) in
          let keys = λ (j : ℕ). key_at-set victim.list i j f (omega (arith, s.held)) in
          let count : (p : Test V)
              → tally p (take (victim.size - 1) (set victim.list i f)) + weight (p e)
                ≡ tally p (entries victim) =
            λ p. omega (
              arith,
              tally-set p (victim.size - 1) victim.list i e f at (omega (arith, differ)),
              ap (λ n. tally p (take n victim.list)) {x = victim.size} {y = suc (victim.size - 1)}
                  (omega arith),
              tally-suc p (victim.size - 1) victim.list f there,
            ) in
          let above = count (is_above k) in
          let fits : v.size < get_capacity v = ground (arith, s.room, above) in
          (
            fits,
            record {
              ours = grown_ours v victim i s left e high under fits;
              theirs = λ j p. ground (arith, keys j, s.theirs j, s.theirs (victim.size - 1), last);
              range = λ j p q. ground (arith, keys j, s.range j, s.range (victim.size - 1), last);
              done = λ j p. ground (arith, keys j, s.done j);
              inside = omega (arith, differ);
              held = omega (arith, s.held, length-set victim.list i f);
              room = ground (
                arith,
                s.room,
                above,
                grown_tally v victim i s left e high under fits (is_above k),
                length-set v.list v.size e,
              );
            },
            count,
            λ j p. ground (arith, keys j),
          )

  abbrev Outcome : ℕ → Vec V → Vec V → ℕ → Type 0
  Outcome n v victim i =
      (v' : Vec V) × (victim' : Vec V) × (part_loop n v victim k i ≡ (v', victim'))
      × Parted i v victim v' victim'

  Parting-along : (v victim : Vec V) (i j : ℕ) → i ≡ j → Parting v victim i → Parting v victim j
  Parting-along v victim i j p s = rw (sym p) s

  stop_Parted :
      (n : ℕ) (v victim : Vec V) (i : ℕ)
      → victim.size ≤ i
      → Parting v victim i
      → Outcome n v victim i
  stop_Parted n v victim i over s =
      let at_end : i ≡ victim.size = omega (arith, s.inside) in
      (
        v,
        victim,
        stop_run k n v victim i over,
        record {
          parting = Parting-along v victim i victim.size at_end s;
          left = s.inside;
          their_kept = λ j p. refl;
          larger = omega arith;
          capacity = refl;
          their_capacity = refl;
          kept = λ j p. refl;
          same = λ p. refl;
        },
      )

  pub part_loop_lem :
      (n : ℕ) (v victim : Vec V) (i : ℕ)
      → victim.size ≤ i + n
      → Parting v victim i
      → Outcome n v victim i
  part_loop_lem zero v victim i fuel s = stop_Parted zero v victim i (omega arith) s
  part_loop_lem (suc n) v victim i fuel s = elim (dec_lt i victim.size) [
    | no over ↦ stop_Parted (suc n) v victim i (omega arith) s
    | yes left ↦ elim (dec_lt (key_at victim.list i) k) [
      | yes low ↦
          let (v', victim', run, d) =
            part_loop_lem n v victim (i + 1) (omega arith) (skip_Parting v victim i s left low) in
          (
            v',
            victim',
            skip_run k n v victim i left low ∙ run,
            Parted-earlier i (i + 1) v victim v' victim' (omega arith) d,
          )
      | no not_low ↦
          let (e, at) = get_elem?-some victim.list i (omega (arith, s.held)) in
          let (f, there) = get_elem?-some victim.list (victim.size - 1) (omega (arith, s.held)) in
          let first = key_at-some victim.list i e at in
          let last = key_at-some victim.list (victim.size - 1) f there in
          let high : k < e.key = omega (arith, first, (s.theirs i left).0) in
          elim (dec_lt k f.key) [
            | yes above ↦
                let under : f.key ≤ top =
                  omega (arith, last, (s.theirs (victim.size - 1) (omega arith)).1) in
                let (room, next, count) = from_end_Parting v victim i s left f above under there in
                let shrunk : Vec V = record victim { size = victim.size - 1 } in
                let (v', victim', run, d) =
                  part_loop_lem n (grown v victim i s left f) shrunk i (omega arith) next in
                (
                  v',
                  victim',
                  from_end_run k n v victim i f left (omega (arith, first)) there above ∙ run,
                  grown_Parted v victim i s left f above under room i shrunk v' victim'
                      (omega arith) refl (λ j p. refl) count d,
                )
            | no below_k ↦
                let low : f.key < k =
                  omega (arith, last, (s.theirs (victim.size - 1) (omega arith)).0) in
                let under : e.key ≤ top = omega (arith, first, (s.theirs i left).1) in
                let (room, next, count, same_keys) =
                  from_middle_Parting v victim i s left e high under f at there low in
                let shrunk : Vec V = record {
                  list = set victim.list i f;
                  size = victim.size - 1;
                } in
                let (v', victim', run, d) =
                  part_loop_lem n (grown v victim i s left e) shrunk (i + 1) (omega arith) next in
                (
                  v',
                  victim',
                  from_middle_run k n v victim i e f left at high there low ∙ run,
                  grown_Parted v victim i s left e high under room (i + 1) shrunk v' victim'
                      (omega arith) (length-set victim.list i f) same_keys count d,
                )
          ]
    ]
  ]
