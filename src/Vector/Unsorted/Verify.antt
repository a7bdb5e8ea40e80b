-- ===== src/Vector/Unsorted/Verify.antt =====
-- `verify` of vector_umfra.h.
use disco_skip.Prelude.{ℕ, zero, suc, ◌+◌, ◌-◌, ◌≤◌, ◌<◌, ◌≡◌, ◌≢◌, ◌↔◌, refl, sym}
use disco_skip.Prelude.{ap, arith, dec_lt, ℕ_discrete, true, false}
use disco_skip.Prelude.{List, ltb, ◌||◌, ◌⊎◌, inl, inr}
use disco_skip.Prelude.{==-true, ==-false, Bool-cases}
use disco_skip.Vector.Slots.{Entry, key_at}
use disco_skip.Vector.Unsorted.{Vec, get_capacity}
use disco_skip.Vector.Unsorted.Tracked.{IsTracked, places_differ, differing}
use disco_skip.Vector.Unsorted.Check.{verify, differs_loop, distinct_loop, between_loop}

module _ {V : Type 0} where
  differs_loop_lem :
      (n : ℕ) (xs : List (Entry V)) (i j : ℕ)
      → ((differs_loop n xs i j ≡ true) × ((m : ℕ) → j ≤ m → m < j + n → key_at xs i ≢ key_at xs m))
        ⊎ ((differs_loop n xs i j ≡ false) × ((m : ℕ) × (m < j + n) × (key_at xs i ≡ key_at xs m)))
  unfolding differs_loop
  differs_loop_lem zero xs i j = inl (refl, λ m p q. absurd (omega arith))
  differs_loop_lem (suc n) xs i j = elim (ℕ_discrete (key_at xs i) (key_at xs j)) [
    | yes same ↦ inr (rw (==-true (key_at xs i) (key_at xs j) same) refl, (j, omega arith, same))
    | no differ ↦
        rw (==-false (key_at xs i) (key_at xs j) differ) (elim (differs_loop_lem n xs i (j + 1)) [
          | inr (run, (m, inside, same)) ↦ inr (run, (m, omega arith, same))
          | inl (run, others) ↦ inl (
            run,
            λ m p q. elim (ℕ_discrete m j) [
              | yes z ↦ rw z differ
              | no z ↦ others m (omega (arith, z)) (omega arith)
            ],
          )
        ])
  ]

  distinct_loop_lem :
      (n : ℕ) (xs : List (Entry V)) (i : ℕ)
      → ((distinct_loop n xs i ≡ true)
          × ((a m : ℕ) → i ≤ a → a < i + n → m < a → key_at xs a ≢ key_at xs m))
        ⊎ ((distinct_loop n xs i ≡ false)
            × ((a m : ℕ) × (a < i + n) × (m < a) × (key_at xs a ≡ key_at xs m)))
  unfolding distinct_loop
  distinct_loop_lem zero xs i = inl (refl, λ a m p q. absurd (omega arith))
  distinct_loop_lem (suc n) xs i = elim (differs_loop_lem i xs i 0) [
    | inr (run, (m, inside, same)) ↦ inr (rw run refl, (i, m, omega arith, omega arith, same))
    | inl (run, others) ↦ rw run (elim (distinct_loop_lem n xs (i + 1)) [
      | inr (more, (a, m, inside, under, same)) ↦ inr (more, (a, m, omega arith, under, same))
      | inl (more, rest) ↦ inl (
        more,
        λ a m p q r. elim (ℕ_discrete a i) [
          | yes z ↦ rw z (others m (omega arith) (omega (arith, z)))
          | no z ↦ rest a m (omega (arith, z)) (omega arith) r
        ],
      )
    ])
  ]

  between_loop_lem :
      (n : ℕ) (xs : List (Entry V)) (i : ℕ)
      → ((between_loop n xs i ≡ true)
          × ((j : ℕ)
              → i ≤ j
              → j < i + n
              → (key_at xs 0 ≤ key_at xs j) × (key_at xs j ≤ key_at xs 1)))
        ⊎ ((between_loop n xs i ≡ false)
            × ((j : ℕ) × (i ≤ j)
                × (j < i + n)
                × ((key_at xs j < key_at xs 0) ⊎ (key_at xs 1 < key_at xs j))))
  unfolding between_loop
  between_loop_lem zero xs i = inl (refl, λ j p q. absurd (omega arith))
  between_loop_lem (suc n) xs i =
      elim (Bool-cases (ltb (key_at xs i) (key_at xs 0) || ltb (key_at xs 1) (key_at xs i))) [
        | inl out ↦ inr (rw out refl, (i, omega arith, omega arith, ground arith))
        | inr inside ↦ rw inside (elim (between_loop_lem n xs (i + 1)) [
          | inr (run, (j, p, q, out)) ↦ inr (run, (j, omega arith, omega arith, out))
          | inl (run, others) ↦ inl (
            run,
            λ j p q. elim (ℕ_discrete j i) [
              | yes z ↦ (ground (arith, ap (key_at xs) z), ground (arith, ap (key_at xs) z))
              | no z ↦ others j (omega (arith, z)) (omega arith)
            ],
          )
        ])
      ]

  module _ (v : Vec V) where
    -- A vector whose keys pass the three checks.
    passed :
        v.size ≤ get_capacity v
        → ((a m : ℕ) → 1 ≤ a → a < 1 + (v.size - 1) → m < a → key_at v.list a ≢ key_at v.list m)
        → (2 ≤ v.size → key_at v.list 0 ≤ key_at v.list 1)
        → ((j : ℕ)
            → 2 ≤ j
            → j < 2 + (v.size - 2)
            → (key_at v.list 0 ≤ key_at v.list j) × (key_at v.list j ≤ key_at v.list 1))
        → IsTracked v
    passed bounded distinct ordered between = record {
      bounded = bounded;
      distinct = λ k.
          differing k v.size v.list bounded
            (λ i j p q e. distinct j i (omega arith) (omega arith) p (sym e));
      least = λ i p. elim (dec_lt i 2) [
        | no far ↦ (between i (omega arith) (omega arith)).0
        | yes near ↦ elim (ℕ_discrete i 0) [
          | yes z ↦ omega (arith, ap (key_at v.list) z)
          | no o ↦
              omega (
                arith,
                ordered (omega (arith, p)),
                ap (key_at v.list) {x = i} {y = 1} (omega arith),
              )
        ]
      ];
      greatest = λ i p q. elim (dec_lt i 2) [
        | no far ↦ (between i (omega arith) (omega arith)).1
        | yes near ↦ elim (ℕ_discrete i 0) [
          | yes z ↦ omega (arith, ordered q, ap (key_at v.list) z)
          | no o ↦ omega (arith, ap (key_at v.list) {x = i} {y = 1} (omega arith))
        ]
      ];
    }

    -- A duplicated key, found by the second check.
    found_twice :
        IsTracked v → (a m : ℕ) → a < 1 + (v.size - 1) → m < a → key_at v.list a ≢ key_at v.list m
    found_twice h a m p q e = places_differ v h m a q (omega arith) (sym e)

    verified : IsTracked v → verify v ≡ true
    unfolding verify
    verified h = elim (distinct_loop_lem (v.size - 1) v.list 1) [
      | inr (run, (a, m, p, q, same)) ↦ absurd (found_twice h a m p q same)
      | inl (run, others) ↦ elim (between_loop_lem (v.size - 2) v.list 2) [
        | inr (more, (j, q, p, inl low)) ↦ absurd (omega (arith, h.least j (omega arith)))
        | inr (more, (j, q, p, inr high)) ↦
            absurd (omega (arith, h.greatest j (omega arith) (omega arith)))
        | inl (more, rest) ↦ ground (arith, run, more, h.bounded, h.least 1)
      ]
    ]

    refuted : verify v ≡ true → IsTracked v
    unfolding verify
    refuted e = elim (ℕ_discrete (get_capacity v) 1) [
      | yes one ↦
          let bounded : v.size ≤ get_capacity v = ground arith in
          passed bounded (λ a m p q r. absurd (omega arith)) (λ p. absurd (omega arith))
            (λ j p q. absurd (omega arith))
      | no more ↦ elim (distinct_loop_lem (v.size - 1) v.list 1) [
        | inr (run, twice) ↦ absurd (ground (arith, run, e))
        | inl (run, others) ↦ elim (between_loop_lem (v.size - 2) v.list 2) [
          | inr (out, outside) ↦ absurd (ground (arith, run, out, e))
          | inl (inside, between) ↦
              passed (ground (arith, run, inside, e)) others (λ p. ground (arith, run, inside, e))
                between
        ]
      ]
    ]

    -- `verify` accepts a vector exactly if it is tracked: it is not too large, its keys are different, and
    -- the least stands in slot 0 and the greatest in slot 1.
    pub verify-IsTracked_iff : verify v ≡ true ↔ IsTracked v
    verify-IsTracked_iff = (refuted, verified)
