-- ===== src/Vector/Unsorted/Restore.antt =====
-- The steps of vector_umfra.h that bring the least and the greatest key back to their slots.
use disco_skip.Prelude.{ℕ, ◌-◌, ◌≤◌, ◌<◌, ◌≡◌, refl}
use disco_skip.Prelude.{ap, arith, dec_lt, ℕ_discrete, true, false}
use disco_skip.Prelude.{ltb, leb, ◌&&◌, ◌||◌}
use disco_skip.Vector.Slots.{key_at}
use disco_skip.Vector.Counts.{tally, SameEntries}
use disco_skip.Vector.Unsorted.{
  Vec, get_capacity, swap, restore_invariant, find_new_min, find_new_max, min_loop, max_loop,
}
use disco_skip.Vector.Unsorted.Tracked.{IsTracked, entries, has_key, swap_lem}
use disco_skip.Vector.Unsorted.Extremes.{min_loop_lem, max_loop_lem}

module _ {V : Type 0} where
  -- The same entries in an array of the same length, tracked.
  pub record Restored (v v' : Vec V) : Type 0 where
    pub tracked : IsTracked v'
    pub size : v'.size ≡ v.size
    pub capacity : get_capacity v' ≡ get_capacity v
    pub same : SameEntries (entries v') (entries v)

  module _ (v : Vec V) (bounded : v.size ≤ get_capacity v)
      (distinct : (k : ℕ) → tally (has_key k) (entries v) ≤ 1) where
    unchanged :
        ((i : ℕ) → i < v.size → key_at v.list 0 ≤ key_at v.list i)
        → ((i : ℕ) → i < v.size → 2 ≤ v.size → key_at v.list i ≤ key_at v.list 1)
        → Restored v v
    unchanged least greatest = record {
      tracked = record {
        bounded = bounded;
        distinct = distinct;
        least = least;
        greatest = greatest;
      };
      size = refl;
      capacity = refl;
      same = λ p. refl;
    }

    -- A swap that brings both ends to their slots.
    swapped :
        (n m : ℕ)
        → n < v.size
        → m < v.size
        → ((i : ℕ) → i < v.size → key_at (swap v.list n m) 0 ≤ key_at (swap v.list n m) i)
        → ((i : ℕ)
            → i < v.size
            → 2 ≤ v.size
            → key_at (swap v.list n m) i ≤ key_at (swap v.list n m) 1)
        → Restored v (record v { list = swap v.list n m })
    swapped n m hn hm least greatest =
        let (same, len, keys) = swap_lem v.list n m v.size hn hm bounded in
        record {
          tracked = record {
            bounded = omega (arith, len);
            distinct = λ k. omega (arith, same (has_key k), distinct k);
            least = least;
            greatest = greatest;
          };
          size = refl;
          capacity = len;
          same = same;
        }

    pub restore_invariant_lem :
        ((i : ℕ) → i < v.size → key_at v.list 0 ≤ key_at v.list i)
        → ((i : ℕ) → i < v.size → key_at v.list i ≤ key_at v.list (v.size - 1))
        → Restored v (restore_invariant v)
    unfolding restore_invariant
    restore_invariant_lem least last = elim (dec_lt 2 v.size) [
      | no few ↦
          let test : (ltb 2 (get_capacity v) && ltb 2 v.size) ≡ false = ground arith in
          rw test (
            unchanged least (λ i p q.
              omega (arith, last i p, ap (key_at v.list) {x = v.size - 1} {y = 1} (omega arith))))
      | yes many ↦
          let test : (ltb 2 (get_capacity v) && ltb 2 v.size) ≡ true = ground arith in
          let (same, len, keys) =
            swap_lem v.list 1 (v.size - 1) v.size (omega arith) (omega arith) bounded in
          rw test (
            swapped 1 (v.size - 1) (omega arith) (omega arith)
              (λ i p. ground (arith, keys 0, keys i, least 1, least i, least (v.size - 1)))
              (λ i p q. ground (arith, keys 1, keys i, last 1, last i)))
    ]

    -- With the least key in its slot.
    pub find_new_max_lem :
        ((i : ℕ) → i < v.size → key_at v.list 0 ≤ key_at v.list i) → Restored v (find_new_max v)
    unfolding find_new_max
    find_new_max_lem least = elim (dec_lt 2 v.size) [
      | no few ↦
          let test : (leb (get_capacity v) 2 || leb v.size 2) ≡ true = ground arith in
          rw test (
            unchanged least (λ i p q. elim (ℕ_discrete i 0) [
              | yes z ↦ omega (arith, least 1 (omega arith), ap (key_at v.list) z)
              | no o ↦ omega (arith, ap (key_at v.list) {x = i} {y = 1} (omega (arith, o)))
            ]))
      | yes many ↦
          let test : (leb (get_capacity v) 2 || leb v.size 2) ≡ false = ground arith in
          let (reach, high, greatest) =
            max_loop_lem (v.size - 2) v.list 2 1 (key_at v.list 1) refl in
          let pos = max_loop (v.size - 2) v.list 2 1 (key_at v.list 1) in
          let (same, len, keys) =
            swap_lem v.list 1 pos v.size (omega arith) (omega (arith, reach)) bounded in
          rw test (
            swapped 1 pos (omega arith) (omega (arith, reach))
              (λ i p. ground (arith, keys 0, keys i, least 1, least i, least pos, reach))
              (λ i p q. ground (arith, keys 1, keys i, high, least pos, greatest i, reach)))
    ]

    -- With the greatest key in its slot.
    pub find_new_min_lem :
        ((i : ℕ) → i < v.size → 2 ≤ v.size → key_at v.list i ≤ key_at v.list 1)
        → Restored v (find_new_min v)
    unfolding find_new_min
    find_new_min_lem highest = elim (dec_lt 2 v.size) [
      | no few ↦
          let test : (leb (get_capacity v) 2 || leb v.size 2) ≡ true = ground arith in
          rw test (
            unchanged
              (λ i p. elim (ℕ_discrete i 0) [
                | yes z ↦ omega (arith, ap (key_at v.list) z)
                | no o ↦ omega (
                  arith,
                  highest 0 (omega arith) (omega (arith, o)),
                  ap (key_at v.list) {x = i} {y = 1} (omega (arith, o)),
                )
              ])
              highest)
      | yes many ↦
          let test : (leb (get_capacity v) 2 || leb v.size 2) ≡ false = ground arith in
          let (reach, low, least) = min_loop_lem (v.size - 2) v.list 2 0 (key_at v.list 0) refl in
          let pos = min_loop (v.size - 2) v.list 2 0 (key_at v.list 0) in
          let (same, len, keys) =
            swap_lem v.list 0 pos v.size (omega arith) (omega (arith, reach)) bounded in
          rw test (
            swapped 0 pos (omega arith) (omega (arith, reach))
              (λ i p. ground (arith, keys 0, keys i, low, highest pos, least i, reach))
              (λ i p q. ground (arith, keys 1, keys i, highest i, highest 0, highest pos, reach)))
    ]

    -- Whatever stands in slot 0.
    pub restore_greatest :
        ((i : ℕ) → i < v.size → key_at v.list i ≤ key_at v.list (v.size - 1))
        → ((restore_invariant v).size ≡ v.size)
          × (get_capacity (restore_invariant v) ≡ get_capacity v)
          × SameEntries (entries (restore_invariant v)) (entries v)
          × ((i : ℕ)
              → i < v.size
              → 2 ≤ v.size
              → key_at (restore_invariant v).list i ≤ key_at (restore_invariant v).list 1)
    unfolding restore_invariant
    restore_greatest last = elim (dec_lt 2 v.size) [
      | no few ↦
          let test : (ltb 2 (get_capacity v) && ltb 2 v.size) ≡ false = ground arith in
          rw test (
            refl,
            refl,
            λ p. refl,
            λ i p q.
                omega (arith, last i p, ap (key_at v.list) {x = v.size - 1} {y = 1} (omega arith)),
          )
      | yes many ↦
          let test : (ltb 2 (get_capacity v) && ltb 2 v.size) ≡ true = ground arith in
          let (same, len, keys) =
            swap_lem v.list 1 (v.size - 1) v.size (omega arith) (omega arith) bounded in
          rw test (refl, len, same, λ i p q. ground (arith, keys 1, keys i, last 1, last i))
    ]
