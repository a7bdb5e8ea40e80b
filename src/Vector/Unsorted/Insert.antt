-- ===== src/Vector/Unsorted/Insert.antt =====
-- `insert` of vector_umfra.h.
use disco_skip.Prelude.{Bool}
use disco_skip.Prelude.{ℕ, suc, ◌+◌, ◌≤◌, ◌<◌, ◌≡◌, refl, ◌∙◌}
use disco_skip.Prelude.{ap, arith, ℕ_discrete, true, false, some}
use disco_skip.Prelude.{List, ◌∷◌, ltb, leb, ◌==◌, if◌then◌else◌, ◌&&◌, ◌⊎◌, inl, inr}
use disco_skip.Prelude.{==-true, ==-false, Bool-cases}
use disco_skip.Prelude.{length, get_elem?, set, take, length-set, get_elem?-set}
use disco_skip.Prelude.{get_elem?-some}
use disco_skip.Vector.Slots.{Entry, key_at, assign}
use disco_skip.Prelude.{get_elem?-some}
use disco_skip.Vector.Counts.{tally, tally-set, tally-member, SameEntries}
use disco_skip.Vector.Unsorted.{Vec, get_capacity, placed, insert}
use disco_skip.Vector.Unsorted.Tracked.{
  IsTracked, entries, has_key, find_lem, tally-extend, key_at-set, key_at-some, assign_lem,
}

module _ {V : Type 0} where
  -- The array gets `pair` in slot `i`, and what was there goes behind the last element.
  record Displaced (v : Vec V) (pair : Entry V) (i : ℕ) (xs : List (Entry V)) : Type 0 where
    same : SameEntries (take (v.size + 1) xs) (pair ∷ entries v)
    capacity : length xs ≡ get_capacity v
    keys :
        (j : ℕ)
        → key_at xs j
          ≡ (if j == i then pair.key else if j == v.size then key_at v.list i else key_at v.list j)

  module _ (v : Vec V) (pair : Entry V) (room : v.size < get_capacity v) where
    displaced_lem :
        (i : ℕ) → i < v.size → Displaced v pair i (set (assign v.list v.size v.list i) i pair)
    unfolding tally
    displaced_lem i h =
        let (e, at) = get_elem?-some v.list i (omega arith) in
        let once = set v.list v.size e in
        let len = length-set v.list v.size e in
        let run : set (assign v.list v.size v.list i) i pair ≡ set once i pair =
          ap (λ ys. set ys i pair) (assign_lem v.list v.size v.list i e at) in
        let still : get_elem? once i ≡ some e = ground (arith, get_elem?-set v.list v.size i e) in
        rw run (record {
          same = λ p.
              ap (λ n. tally p (take n (set once i pair))) {x = v.size + 1} {y = suc v.size}
                (omega arith)
              ∙ omega (
                arith,
                tally-set p (suc v.size) once i e pair still (omega arith),
                tally-extend p v.size v.list e room,
              );
          capacity = length-set once i pair ∙ len;
          keys = λ j. ground (
            arith,
            len,
            key_at-set once i j pair,
            key_at-set v.list v.size j e,
            key_at-some v.list i e at,
          );
        })

    appended_lem : Displaced v pair v.size (set v.list v.size pair)
    unfolding tally
    appended_lem = record {
      same = λ p.
          ap (λ n. tally p (take n (set v.list v.size pair))) {x = v.size + 1} {y = suc v.size}
            (omega arith)
          ∙ omega (arith, tally-extend p v.size v.list pair room);
      capacity = length-set v.list v.size pair;
      keys = λ j. ground (arith, key_at-set v.list v.size j pair);
    }

    -- Where `insert` puts a pair.
    placed_lem :
        IsTracked v
        → (i : ℕ) × Displaced v pair i (placed v pair)
          × (((i ≡ 0) × (pair.key < key_at v.list 0) × (0 < v.size))
              ⊎ (((i ≡ 1)
                    × (key_at v.list 1 < pair.key)
                    × (2 ≤ v.size)
                    × (key_at v.list 0 ≤ pair.key))
                  ⊎ ((i ≡ v.size)
                      × (0 < v.size → key_at v.list 0 ≤ pair.key)
                      × (2 ≤ v.size → pair.key ≤ key_at v.list 1))))
    unfolding placed
    placed_lem h =
        elim (Bool-cases
          (leb 1 (get_capacity v) && leb 1 v.size && ltb pair.key (key_at v.list 0))) [
            | inl low ↦
                rw low (0, displaced_lem 0 (ground arith), inl (refl, ground arith, ground arith))
            | inr not_low ↦
                elim (Bool-cases
                  (leb 2 (get_capacity v) && leb 2 v.size && ltb (key_at v.list 1) pair.key)) [
                    | inl high ↦
                        rw (not_low, high)
                          (
                            1,
                            displaced_lem 1 (ground arith),
                            inr (inl (refl, ground arith, ground arith, ground arith)),
                          )
                    | inr not_high ↦
                        rw (not_low, not_high)
                          (
                            v.size,
                            appended_lem,
                            inr (inr (refl, λ p. ground arith, λ p. ground arith)),
                          )
                  ]
          ]

    placed-IsTracked :
        IsTracked v
        → tally (has_key pair.key) (entries v) ≡ 0
        → IsTracked (record { list = placed v pair; size = v.size + 1 })
          × SameEntries (take (v.size + 1) (placed v pair)) (pair ∷ entries v)
          × (length (placed v pair) ≡ get_capacity v)
    unfolding tally
    placed-IsTracked h absent =
        let (i, d, where_to) = placed_lem h in
        let keys = d.keys in
        (
          record {
            bounded = omega (arith, d.capacity);
            distinct = λ k. ground (arith, d.same (has_key k), absent, h.distinct k);
            least = λ j p. elim where_to [
              | inl (z, low, some_old) ↦
                  ground (arith, keys 0, keys j, h.least j, ap (key_at v.list) z, z, low)
              | inr (inl (o, high, two, above)) ↦ ground (
                arith,
                keys 0,
                keys j,
                h.least j,
                h.least 1,
                ap (key_at v.list) o,
                o,
                high,
                above,
              )
              | inr (inr (l, low, high)) ↦ ground (arith, keys 0, keys j, h.least j, l, low)
            ];
            greatest = λ j p q. elim where_to [
              | inl (z, low, some_old) ↦
                  ground (
                    arith,
                    keys 1,
                    keys j,
                    h.greatest j,
                    h.greatest 0,
                    ap (key_at v.list) z,
                    z,
                    low,
                  )
              | inr (inl (o, high, two, above)) ↦
                  ground (arith, keys 1, keys j, h.greatest j, ap (key_at v.list) o, o, high, above)
              | inr (inr (l, low, high)) ↦
                  ground (arith, keys 1, keys j, h.greatest j, l, low, high)
            ];
          },
          d.same,
          d.capacity,
        )

  -- `insert` into a tracked vector. If the key is there, the result is false, and the vector and the
  -- caller's `overfull` stay as they are. If it is not and the vector is full, the result is false, the
  -- vector stays as it is and `overfull` is set. Otherwise the result is true, `overfull` stays as it is,
  -- the pair is added to the entries, and the vector is tracked again, with the least key in slot 0 and
  -- the greatest in slot 1.
  pub insert-IsTracked :
      (v : Vec V) (pair : Entry V) (overfull : Bool)
      → IsTracked v
      → ((tally (has_key pair.key) (entries v) ≡ 1)
          × (insert v pair overfull ≡ (false, overfull, v)))
        ⊎ ((tally (has_key pair.key) (entries v) ≡ 0)
            × (((v.size ≡ get_capacity v) × (insert v pair overfull ≡ (false, true, v)))
                ⊎ ((v' : Vec V) × (insert v pair overfull ≡ (true, overfull, v'))
                    × IsTracked v'
                    × (get_capacity v' ≡ get_capacity v)
                    × SameEntries (entries v') (pair ∷ entries v))))
  unfolding insert
  insert-IsTracked v pair overfull h = elim (find_lem v pair.key h.bounded) [
    | inl (pos, e, run, inside, at, same) ↦ inl (
      ground (
        arith,
        tally-member (has_key pair.key) v.size v.list pos e at inside,
        h.distinct pair.key,
        same,
      ),
      rw run refl,
    )
    | inr (run, absent, others) ↦ inr (
      absent,
      elim (ℕ_discrete v.size (get_capacity v)) [
        | yes full ↦ inl (full, rw run (rw (==-true v.size (get_capacity v) full) refl))
        | no room ↦
            let (tracked, same, capacity) =
              placed-IsTracked v pair (omega (arith, h.bounded)) h absent in
            inr (
              record { list = placed v pair; size = v.size + 1 },
              rw run (rw (==-false v.size (get_capacity v) room) refl),
              tracked,
              capacity,
              same,
            )
      ],
    )
  ]
