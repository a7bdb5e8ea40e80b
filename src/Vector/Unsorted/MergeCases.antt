-- ===== src/Vector/Unsorted/MergeCases.antt =====
-- The cases of `merge` of vector_umfra.h.
use disco_skip.Prelude.{ℕ, suc, ◌+◌, ◌-◌, ◌≤◌, ◌<◌, ◌≡◌, refl, sym, ◌∙◌}
use disco_skip.Prelude.{ap, arith, ℕ_discrete, true, some}
use disco_skip.Prelude.{◌++◌, leb}
use disco_skip.Prelude.{length, get_elem?, set, take, length-set, get_elem?-set}
use disco_skip.Prelude.{get_elem?-some}
use disco_skip.Vector.Slots.{Entry, key_at, assign, memcpy}
use disco_skip.Vector.Slots.{length-memcpy}
use disco_skip.Prelude.{get_elem?-some}
use disco_skip.Vector.Counts.{Test, tally, tally-append, tally-set, tally-suc, SameEntries}
use disco_skip.Vector.Unsorted.{Vec, get_capacity}
use disco_skip.Vector.Unsorted.Transfer.{merge_many}
use disco_skip.Vector.Unsorted.Tracked.{
  IsTracked, entries, has_key, key_at-some, key_at-set, assign_lem, tally-extend,
}
use disco_skip.Vector.Unsorted.Copies.{tally-memcpy, key_at-memcpy, key_found}

module _ {V : Type 0} (v victim : Vec V) (h : IsTracked v) (g : IsTracked victim)
    (apart : (i j : ℕ)
      → i < v.size
      → j < victim.size
      → key_at v.list i < key_at victim.list j) where
  -- A vector with the entries of both.
  pub record Merged (v' : Vec V) : Type 0 where
    pub tracked : IsTracked v'
    pub capacity : get_capacity v' ≡ get_capacity v
    pub same : SameEntries (entries v') (entries v ++ entries victim)

  both_distinct : (k : ℕ) → tally (has_key k) (entries v) + tally (has_key k) (entries victim) ≤ 1
  both_distinct k = elim (ℕ_discrete (tally (has_key k) (entries v)) 0) [
    | yes z ↦ omega (arith, g.distinct k)
    | no o ↦ elim (ℕ_discrete (tally (has_key k) (entries victim)) 0) [
      | yes z ↦ omega (arith, h.distinct k)
      | no p ↦
          let (i, inside_i, at_i) = key_found v k (omega (arith, o)) in
          let (j, inside_j, at_j) = key_found victim k (omega (arith, p)) in
          absurd (omega (arith, apart i j inside_i inside_j))
    ]
  ]

  -- The vector with as many entries as both together, the lowest of this one and the highest of the victim
  -- in their slots.
  merged :
      (v' : Vec V)
      → v'.size ≤ get_capacity v'
      → get_capacity v' ≡ get_capacity v
      → ((p : Test V) → tally p (entries v') ≡ tally p (entries v) + tally p (entries victim))
      → ((i : ℕ) → i < v'.size → key_at v'.list 0 ≤ key_at v'.list i)
      → ((i : ℕ) → i < v'.size → 2 ≤ v'.size → key_at v'.list i ≤ key_at v'.list 1)
      → Merged v'
  merged v' bounded capacity sums least greatest = record {
    tracked = record {
      bounded = bounded;
      distinct = λ k. omega (arith, sums (has_key k), both_distinct k);
      least = least;
      greatest = greatest;
    };
    capacity = capacity;
    same = λ p. sums p ∙ sym (tally-append p (entries v) (entries victim));
  }

  module _ (room : v.size + victim.size ≤ get_capacity v) where
    pub merge_empty :
        v.size ≡ 0
        → Merged (record { list = memcpy victim.size v.list 0 victim.list 0; size = victim.size })
    unfolding tally
    merge_empty z =
        let ys = memcpy victim.size v.list 0 victim.list 0 in
        let keys = λ (j : ℕ).
          key_at-memcpy victim.size v.list 0 victim.list 0 j (omega (arith, g.bounded))
            (omega arith) in
        let key : (j : ℕ) → j < victim.size → key_at ys j ≡ key_at victim.list j = λ j p.
          ground (arith, keys j, ap (key_at victim.list) {x = 0 + (j - 0)} {y = j} (omega arith)) in
        merged (record { list = ys; size = victim.size })
          (omega (arith, length-memcpy victim.size v.list 0 victim.list 0))
          (length-memcpy victim.size v.list 0 victim.list 0)
          (λ p. omega (
            arith,
            tally-memcpy p victim.size v.list 0 victim.list 0 (omega (arith, g.bounded))
                (omega arith),
            ap (λ n. tally p (take n ys)) {x = 0 + victim.size} {y = victim.size} (omega arith),
            ap (λ n. tally p (take n victim.list)) {x = 0 + victim.size} {y = victim.size}
                (omega arith),
            ap (λ n. tally p (take n v.list)) z,
          ))
          (λ i p. omega (arith, key 0 (omega arith), key i p, g.least i p))
          (λ i p q. omega (arith, key 1 (omega arith), key i p, g.greatest i p q))

    pub merge_one :
        0 < v.size
        → victim.size ≡ 1
        → Merged (record {
          list = assign (assign v.list v.size v.list 1) 1 victim.list 0;
          size = v.size + 1;
        })
    unfolding tally
    merge_one some_old one =
        let (e, at) = get_elem?-some v.list 1 (omega arith) in
        let (f, there) = get_elem?-some victim.list 0 (omega (arith, g.bounded)) in
        let once = set v.list v.size e in
        let ys = set once 1 f in
        let len = length-set v.list v.size e in
        let run : assign (assign v.list v.size v.list 1) 1 victim.list 0 ≡ ys =
          assign_lem (assign v.list v.size v.list 1) 1 victim.list 0 f there
          ∙ ap (λ zs. set zs 1 f) (assign_lem v.list v.size v.list 1 e at) in
        let still : get_elem? once 1 ≡ some e = ground (arith, get_elem?-set v.list v.size 1 e) in
        let keys = λ (j : ℕ). key_at-set once 1 j f (omega (arith, len)) in
        let onces = λ (j : ℕ). key_at-set v.list v.size j e (omega arith) in
        let top = key_at-some victim.list 0 f there in
        let low = key_at-some v.list 1 e at in
        rw run (
          merged (record { list = ys; size = v.size + 1 }) (omega (arith, len, length-set once 1 f))
            (length-set once 1 f ∙ len)
            (λ p. omega (
              arith,
              ap (λ n. tally p (take n ys)) {x = v.size + 1} {y = suc v.size} (omega arith),
              tally-set p (suc v.size) once 1 e f still (omega arith),
              tally-extend p v.size v.list e (omega arith),
              tally-suc p 0 victim.list f there,
              ap (λ n. tally p (take n victim.list)) one,
            ))
            (λ i p.
              ground (
                arith,
                keys 0,
                keys i,
                onces 0,
                onces i,
                h.least i,
                h.least 1,
                apart 0 0,
                top,
                low,
              ))
            (λ i p q. ground (arith, keys 1, keys i, onces i, apart i 0, apart 1 0, top, low)))

    -- What the general case does to the array.
    merge_many_run :
        (f e l : Entry V)
        → 0 < v.size
        → get_elem? victim.list 0 ≡ some f
        → get_elem? victim.list 1 ≡ some l
        → get_elem? (set v.list v.size f) 1 ≡ some e
        → merge_many v victim ≡ record {
          list =
              memcpy
                (victim.size - 2)
                (set (set (set v.list v.size f) (v.size + 1) e) 1 l)
                (v.size + 2)
                victim.list
                2;
          size = v.size + 2 + (victim.size - 2);
        }
    unfolding merge_many
    merge_many_run f e l some_old at_min at_max at =
        let two : leb 2 (v.size + 1) ≡ true = ground arith in
        let place : v.size + 1 + 1 ≡ v.size + 2 = omega arith in
        let minimum = assign_lem v.list v.size victim.list 0 f at_min in
        let moved = assign_lem (set v.list v.size f) (v.size + 1) (set v.list v.size f) 1 e at in
        let maximum =
          assign_lem (set (set v.list v.size f) (v.size + 1) e) 1 victim.list 1 l at_max in
        rw (minimum, two, moved, maximum, place) refl

    pub merge_more : 0 < v.size → 2 ≤ victim.size → Merged (merge_many v victim)
    unfolding tally
    merge_more some_old two =
        let n : ℕ = v.size in
        let (f, at_min) = get_elem?-some victim.list 0 (omega (arith, g.bounded)) in
        let (l, at_max) = get_elem?-some victim.list 1 (omega (arith, g.bounded)) in
        let xs1 = set v.list n f in
        let len1 = length-set v.list n f in
        let (e, at) = get_elem?-some xs1 1 (omega (arith, len1)) in
        let xs2 = set xs1 (n + 1) e in
        let len2 = length-set xs1 (n + 1) e in
        let xs3 = set xs2 1 l in
        let len3 = length-set xs2 1 l in
        let rest : ℕ = victim.size - 2 in
        let ys = memcpy rest xs3 (n + 2) victim.list 2 in
        let fits : n + 2 + rest ≤ length xs3 = omega (arith, len1, len2, len3) in
        let source : 2 + rest ≤ length victim.list = omega (arith, g.bounded) in
        let still : get_elem? xs2 1 ≡ some e =
          ground (arith, get_elem?-set xs1 (n + 1) 1 e, len1) in
        let copied = λ (j : ℕ). key_at-memcpy rest xs3 (n + 2) victim.list 2 j source fits in
        let key3 = λ (j : ℕ). key_at-set xs2 1 j l (omega (arith, len1, len2)) in
        let key2 = λ (j : ℕ). key_at-set xs1 (n + 1) j e (omega (arith, len1)) in
        let key1 = λ (j : ℕ). key_at-set v.list n j f (omega arith) in
        let low = key_at-some victim.list 0 f at_min in
        let top = key_at-some victim.list 1 l at_max in
        let mid = key_at-some xs1 1 e at in
        rw (merge_many_run f e l some_old at_min at_max at) (
          merged (record { list = ys; size = n + 2 + rest })
            (omega (arith, length-memcpy rest xs3 (n + 2) victim.list 2))
            (length-memcpy rest xs3 (n + 2) victim.list 2 ∙ len3 ∙ len2 ∙ len1)
            (λ p. omega (
              arith,
              tally-memcpy p rest xs3 (n + 2) victim.list 2 source fits,
              ap (λ m. tally p (take m xs3)) {x = n + 2} {y = suc (n + 1)} (omega arith),
              ap (λ m. tally p (take m xs1)) {x = n + 1} {y = suc n} (omega arith),
              ap (λ m. tally p (take m victim.list)) {x = 2 + rest} {y = victim.size} (omega arith),
              tally-set p (suc (n + 1)) xs2 1 e l still (omega arith),
              tally-extend p (n + 1) xs1 e (omega (arith, len1)),
              tally-extend p n v.list f (omega arith),
              tally-suc p 1 victim.list l at_max,
              tally-suc p 0 victim.list f at_min,
            ))
            (λ i p. ground (
              arith,
              copied 0,
              key3 0,
              key2 0,
              key1 0,
              copied i,
              key3 i,
              key2 i,
              key1 i,
              key1 1,
              h.least i,
              h.least 1,
              apart 0 0,
              apart 0 1,
              apart 0 (2 + (i - (n + 2))),
              low,
              top,
              mid,
            ))
            (λ i p q. ground (
              arith,
              copied 1,
              key3 1,
              copied i,
              key3 i,
              key2 i,
              key1 i,
              key1 1,
              g.greatest (2 + (i - (n + 2))),
              g.greatest 0,
              apart i 1,
              apart 1 1,
              low,
              top,
              mid,
            )))
