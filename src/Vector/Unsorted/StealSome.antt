-- ===== src/Vector/Unsorted/StealSome.antt =====
-- The cases of `split_insert` of vector_umfra.h that move some elements.
use disco_skip.Prelude.{ℕ, suc, ◌+◌, ◌-◌, ◌≤◌, ◌<◌, ◌≡◌, ◌≢◌, refl, ◌∙◌}
use disco_skip.Prelude.{ap, arith, dec_lt, ℕ_discrete}
use disco_skip.Prelude.{List, [], ◌∷◌}
use disco_skip.Prelude.{length, set, take, length-set}
use disco_skip.Prelude.{get_elem?-some}
use disco_skip.Vector.Slots.{Entry, key_at, memcpy}
use disco_skip.Vector.Slots.{length-memcpy}
use disco_skip.Prelude.{get_elem?-some}
use disco_skip.Vector.Counts.{tally, tally-none, tally-every}
use disco_skip.Vector.Unsorted.{Vec, get_capacity}
use disco_skip.Vector.Unsorted.Tracked.{IsTracked, entries, key_at-some}
use disco_skip.Vector.Unsorted.Copies.{tally-memcpy, key_at-memcpy}
use disco_skip.Vector.Unsorted.Scan.{is_above}
use disco_skip.Vector.Unsorted.Divided.{Divided}
use disco_skip.Vector.Unsorted.StealAll.{started_tally, started_key}

module _ {V : Type 0} (v victim : Vec V) (pair : Entry V) (h : IsTracked victim)
    (differ : (j : ℕ) → j < victim.size → key_at victim.list j ≢ pair.key)
    (large : 0 < get_capacity v) where
  abbrev k : ℕ
  k = pair.key

  abbrev start : List (Entry V)
  start = set v.list 0 pair

  -- If any element is above the new key, the one in slot 1 is, or there is but one.
  pub top_above :
      0 < tally (is_above k) (entries victim) → 2 ≤ victim.size → k < key_at victim.list 1
  top_above some_above two = elim (dec_lt k (key_at victim.list 1)) [
    | yes high ↦ high
    | no low ↦
        let none_above : tally (is_above k) (entries victim) ≡ 0 =
          tally-none (is_above k) victim.size victim.list
            (λ i e p q. ground (arith, h.greatest i q two, key_at-some victim.list i e p)) in
        absurd (omega (arith, none_above))
  ]

  -- The least element is not above the new key, unless all are.
  pub least_below :
      tally (is_above k) (entries victim) ≢ victim.size → 0 < victim.size → key_at victim.list 0 < k
  least_below partial some_old = elim (dec_lt (key_at victim.list 0) k) [
    | yes low ↦ low
    | no high ↦
        let every : tally (is_above k) (entries victim) ≡ victim.size =
          tally-every (is_above k) victim.size victim.list h.bounded (λ i e p q.
            ground
              (arith, h.least i q, differ i q, differ 0 some_old, key_at-some victim.list i e p)) in
        absurd (partial every)
  ]

  count_upper :
      (xs : List (Entry V)) (n : ℕ)
      → n < length xs
      → key_at xs 0 < k
      → ((j : ℕ) → 1 ≤ j → j < suc n → k < key_at xs j)
      → tally (is_above k) (take (suc n) xs) ≡ n
  unfolding tally
  count_upper [] n b low above = absurd (omega arith)
  count_upper (x ∷ xs) n b low above = ground (
    arith,
    tally-every (is_above k) n xs (omega arith)
        (λ i e p q. ground (arith, above (suc i), key_at-some xs i e p)),
  )

  module _ (some_above : 0 < tally (is_above k) (entries victim))
      (partial : tally (is_above k) (entries victim) ≢ victim.size)
      (room : tally (is_above k) (entries victim) + 1 ≤ get_capacity v)
      (two : 2 ≤ victim.size) where
    -- Only the least element stays.
    pub steal_upper_lem :
        ((j : ℕ) → 2 ≤ j → j < victim.size → k < key_at victim.list j)
        → Divided v victim pair
            (record {
              list = memcpy (victim.size - 1) start 1 victim.list 1;
              size = victim.size - 1 + 1;
            })
            (record victim { size = 1 })
          × (tally (is_above k) (entries victim) ≡ victim.size - 1)
    unfolding tally
    steal_upper_lem upper =
        let (e, at) = get_elem?-some victim.list 0 (omega (arith, h.bounded)) in
        let first = key_at-some victim.list 0 e at in
        let low = least_below partial (omega arith) in
        let high = top_above some_above two in
        let steal : ℕ = victim.size - 1 in
        let above : (j : ℕ) → 1 ≤ j → j < victim.size → k < key_at victim.list j = λ j p q.
          elim (ℕ_discrete j 1) [ yes z ↦ rw z high | no o ↦ upper j (omega (arith, o)) q ] in
        let count : tally (is_above k) (entries victim) ≡ steal =
          ap (λ n. tally (is_above k) (take n victim.list)) {x = victim.size} {y = suc steal}
            (omega arith)
          ∙ count_upper victim.list steal (omega (arith, h.bounded)) low
              (λ j p q. above j p (omega arith)) in
        let len = length-set v.list 0 pair in
        let fits : 1 + steal ≤ length start = omega (arith, len, count) in
        let source : 1 + steal ≤ length victim.list = omega (arith, h.bounded) in
        let ys = memcpy steal start 1 victim.list 1 in
        let copied = λ (j : ℕ). key_at-memcpy steal start 1 victim.list 1 j source fits in
        let capacity = length-memcpy steal start 1 victim.list 1 ∙ len in
        (
          record {
            bounded = omega (arith, capacity, count);
            capacity = capacity;
            ours = λ j p.
                ground (
                  arith,
                  copied j,
                  started_key v victim pair h differ large j,
                  above (1 + (j - 1)),
                );
            lowest = ground (arith, copied 0, started_key v victim pair h differ large 0);
            greatest = λ j p q. ground (
              arith,
              copied j,
              copied 1,
              started_key v victim pair h differ large j,
              high,
              h.greatest (1 + (j - 1)),
            );
            their_bounded = omega (arith, h.bounded);
            their_capacity = refl;
            theirs = λ j p.
                omega (arith, low, ap (key_at victim.list) {x = j} {y = 0} (omega (arith, p)));
            their_least = λ j p. h.least j (omega arith);
            their_greatest = λ j p q. absurd (omega arith);
            same = λ p. omega (
              arith,
              tally-memcpy p steal start 1 victim.list 1 source fits,
              ap (λ n. tally p (take n ys)) {x = steal + 1} {y = 1 + steal} (omega arith),
              ap (λ n. tally p (take n victim.list)) {x = 1 + steal} {y = victim.size}
                  (omega arith),
              started_tally v victim pair h differ large p,
            );
          },
          count,
        )
