-- ===== src/Vector/Unsorted/Remove.antt =====
-- `remove` of vector_umfra.h.
use disco_skip.Prelude.{ℕ, suc, ◌-◌, ◌≤◌, ◌<◌, ◌≡◌, ◌≢◌, refl, ◌∙◌}
use disco_skip.Prelude.{ap, arith, ℕ_discrete, none, some}
use disco_skip.Prelude.{[], ◌∷◌, leb, ◌==◌, ◌&&◌, ◌⊎◌, inl, inr}
use disco_skip.Prelude.{==-true, ==-false, Bool-cases}
use disco_skip.Prelude.{get_elem?, take}
use disco_skip.Prelude.{get_elem?-some}
use disco_skip.Vector.Slots.{Entry, key_at}
use disco_skip.Prelude.{get_elem?-some}
use disco_skip.Vector.Counts.{tally, tally-suc, SameEntries}
use disco_skip.Vector.Unsorted.{
  Vec, get_capacity, min_loop, max_loop, fill_gap, promote, remove_min, remove_max, remove,
}
use disco_skip.Vector.Unsorted.Tracked.{
  IsTracked, entries, has_key, key_at-some, find_lem, places_differ,
}
use disco_skip.Vector.Unsorted.Extremes.{min_loop_lem, max_loop_lem, fill_gap_lem}
use disco_skip.Vector.Unsorted.Gaps.{WithoutTracked, promote_lem, still_distinct}

module _ {V : Type 0} where
  module _ (v : Vec V) (h : IsTracked v) (gone : Entry V) where
    remove_min_lem :
        0 < v.size → get_elem? v.list 0 ≡ some gone → WithoutTracked v gone (remove_min v)
    unfolding tally remove_min
    remove_min_lem some_old at = elim (ℕ_discrete v.size 1) [
      | yes one ↦
          let same : SameEntries (gone ∷ []) (entries v) = λ p.
            omega (arith, tally-suc p 0 v.list gone at, ap (λ n. tally p (take n v.list)) one) in
          rw (==-true v.size 1 one) (
            record {
              bounded = omega arith;
              distinct = λ k. omega arith;
              least = λ i p. absurd (omega arith);
              greatest = λ i p q. absurd (omega arith);
            },
            refl,
            same,
          )
      | no more ↦
          let (reach, low, least) = min_loop_lem (v.size - 2) v.list 2 1 (key_at v.list 1) refl in
          let pos = min_loop (v.size - 2) v.list 2 1 (key_at v.list 1) in
          let done =
            promote_lem v 0 pos gone h.bounded (omega (arith, reach)) (omega (arith, reach)) at in
          let keys = done.keys in
          let shrunk = done.shrunk in
          rw (==-false v.size 1 more) (
            record {
              bounded = omega (arith, h.bounded, done.capacity, shrunk);
              distinct = still_distinct v (promote v 0 pos) gone h done.same;
              least =
                  λ i p. ground (arith, shrunk, keys 0, keys i, least i, least (v.size - 1), low);
              greatest = λ i p q. ground (
                arith,
                shrunk,
                keys 1,
                keys i,
                h.greatest i,
                h.greatest pos,
                h.greatest (v.size - 1),
                least 2,
                h.greatest 2,
                places_differ v h 1 2,
                reach,
              );
            },
            done.capacity,
            done.same,
          )
    ]

    remove_max_lem :
        2 ≤ v.size → get_elem? v.list 1 ≡ some gone → WithoutTracked v gone (remove_max v)
    unfolding tally remove_max
    remove_max_lem two at = elim (ℕ_discrete v.size 2) [
      | yes both ↦
          let same : SameEntries (gone ∷ take 1 v.list) (entries v) = λ p.
            omega (arith, tally-suc p 1 v.list gone at, ap (λ n. tally p (take n v.list)) both) in
          rw (==-true v.size 2 both) (
            record {
              bounded = omega (arith, h.bounded);
              distinct = still_distinct v (record v { size = 1 }) gone h same;
              least = λ i p. h.least i (omega arith);
              greatest = λ i p q. absurd (omega arith);
            },
            refl,
            same,
          )
      | no more ↦
          let (reach, high, greatest) =
            max_loop_lem (v.size - 3) v.list 3 2 (key_at v.list 2) refl in
          let pos = max_loop (v.size - 3) v.list 3 2 (key_at v.list 2) in
          let done =
            promote_lem v 1 pos gone h.bounded (omega (arith, reach)) (omega (arith, reach)) at in
          let keys = done.keys in
          let shrunk = done.shrunk in
          rw (==-false v.size 2 more) (
            record {
              bounded = omega (arith, h.bounded, done.capacity, shrunk);
              distinct = still_distinct v (promote v 1 pos) gone h done.same;
              least = λ i p. ground (
                arith,
                shrunk,
                keys 0,
                keys i,
                h.least i,
                h.least (v.size - 1),
                h.least pos,
                reach,
              );
              greatest = λ i p q. ground (
                arith,
                shrunk,
                keys 1,
                keys i,
                greatest i,
                greatest (v.size - 1),
                high,
                h.least pos,
                reach,
              );
            },
            done.capacity,
            done.same,
          )
    ]

    remove_middle_lem :
        (pos : ℕ)
        → pos < v.size
        → pos ≢ 0
        → pos ≢ 1
        → get_elem? v.list pos ≡ some gone
        → WithoutTracked v gone
            (record { list = fill_gap v.list pos (v.size - 1); size = v.size - 1 })
    unfolding tally
    remove_middle_lem pos inside z o at =
        let filled =
          fill_gap_lem v.list pos (v.size - 1) gone at (omega arith) (omega (arith, h.bounded)) in
        let keys = filled.keys in
        let same : SameEntries (gone ∷ take (v.size - 1) (fill_gap v.list pos (v.size - 1)))
            (entries v) =
          λ p.
            filled.same p
            ∙ ap (λ n. tally p (take n v.list)) {x = suc (v.size - 1)} {y = v.size} (omega arith) in
        (
          record {
            bounded = omega (arith, h.bounded, filled.capacity);
            distinct =
                still_distinct v
                  (record { list = fill_gap v.list pos (v.size - 1); size = v.size - 1 }) gone h
                  same;
            least = λ i p. ground (arith, keys 0, keys i, h.least i, h.least (v.size - 1));
            greatest =
                λ i p q. ground (arith, keys 1, keys i, h.greatest i, h.greatest (v.size - 1));
          },
          filled.capacity,
          same,
        )

  -- `remove` from a tracked vector. Without the key nothing changes and the result is false. With it, the
  -- value of its entry is returned, the other entries are kept, and the vector is tracked again.
  pub remove-IsTracked :
      (v : Vec V) (k : ℕ)
      → IsTracked v
      → ((tally (has_key k) (entries v) ≡ 0) × (remove v k ≡ (none, v)))
        ⊎ ((gone : Entry V) × (v' : Vec V) × (gone.key ≡ k)
            × (remove v k ≡ (some gone.val, v'))
            × IsTracked v'
            × (get_capacity v' ≡ get_capacity v)
            × SameEntries (gone ∷ entries v') (entries v))
  unfolding remove
  remove-IsTracked v k h = elim (Bool-cases (leb 1 v.size && k == key_at v.list 0)) [
    | inl lowest ↦
        let (e, at) = get_elem?-some v.list 0 (ground (arith, h.bounded)) in
        let (tracked, capacity, same) = remove_min_lem v h e (ground arith) at in
        inr (
          e,
          remove_min v,
          ground (arith, key_at-some v.list 0 e at),
          rw lowest (ap (λ o. (elim o [ none ↦ none | some e ↦ some e.val ], remove_min v)) at),
          tracked,
          capacity,
          same,
        )
    | inr not_lowest ↦
        elim (Bool-cases (leb 2 (get_capacity v) && leb 2 v.size && k == key_at v.list 1)) [
          | inl highest ↦
              let (e, at) = get_elem?-some v.list 1 (ground (arith, h.bounded)) in
              let (tracked, capacity, same) = remove_max_lem v h e (ground arith) at in
              inr (
                e,
                remove_max v,
                ground (arith, key_at-some v.list 1 e at),
                rw (not_lowest, highest)
                    (ap (λ o. (elim o [ none ↦ none | some e ↦ some e.val ], remove_max v)) at),
                tracked,
                capacity,
                same,
              )
          | inr not_highest ↦ elim (find_lem v k h.bounded) [
            | inr (run, absent, others) ↦ inl (absent, rw (not_lowest, not_highest) (rw run refl))
            | inl (pos, e, run, inside, at, found) ↦
                let v' : Vec V = record {
                  list = fill_gap v.list pos (v.size - 1);
                  size = v.size - 1;
                } in
                let key_there = key_at-some v.list pos e at in
                let (tracked, capacity, same) =
                  remove_middle_lem v h e pos inside
                    (λ z. ground (arith, ap (key_at v.list) z, key_there, found))
                    (λ o. ground (arith, ap (key_at v.list) o, key_there, found, h.bounded)) at in
                inr (
                  e,
                  v',
                  found,
                  rw (not_lowest, not_highest)
                      (rw run (ap (λ o. (elim o [ none ↦ none | some e ↦ some e.val ], v')) at)),
                  tracked,
                  capacity,
                  same,
                )
          ]
        ]
  ]
