-- ===== src/Vector/Unsorted/Lookup.antt =====
-- `find_lte` and `contains` of vector_umfra.h, and its reads of the least and greatest key.
use disco_skip.Prelude.{ℕ, zero, suc, ◌+◌, ◌≤◌, ◌<◌, ◌≡◌, refl, ◌∙◌}
use disco_skip.Prelude.{ap, arith, ℕ_discrete, true, false, none, some}
use disco_skip.Prelude.{List, ltb, leb, ◌&&◌, ◌⊎◌, inl, inr}
use disco_skip.Prelude.{ltb-true, ltb-false, Bool-cases}
use disco_skip.Prelude.{length, get_elem?}
use disco_skip.Prelude.{get_elem?-some}
use disco_skip.Vector.Slots.{Entry, key_at}
use disco_skip.Vector.Entries.{from}
use disco_skip.Prelude.{get_elem?-some}
use disco_skip.Vector.Counts.{tally}
use disco_skip.Vector.Unsorted.{
  Vec, get_capacity, lte_loop, lte_first_loop, find_lte, find, contains, contains_key, first, last,
  max_key, read_value,
}
use disco_skip.Vector.Unsorted.Tracked.{IsTracked, entries, has_key, key_at-some, find_lem}

module _ {V : Type 0} where
  lte_loop_lem :
      (n : ℕ) (xs : List (Entry V)) (sought i pos k : ℕ)
      → k ≡ key_at xs pos
      → k ≤ sought
      → ((lte_loop n xs sought i pos k ≡ pos)
          ⊎ ((i ≤ lte_loop n xs sought i pos k) × (lte_loop n xs sought i pos k < i + n)))
        × (key_at xs (lte_loop n xs sought i pos k) ≤ sought)
        × (k ≤ key_at xs (lte_loop n xs sought i pos k))
        × ((j : ℕ)
            → i ≤ j
            → j < i + n
            → key_at xs j ≤ sought
            → key_at xs j ≤ key_at xs (lte_loop n xs sought i pos k))
  unfolding lte_loop
  lte_loop_lem zero xs sought i pos k e h =
      (inl refl, omega (arith, e), omega (arith, e), λ j p q. absurd (omega arith))
  lte_loop_lem (suc n) xs sought i pos k e h =
      elim (Bool-cases (ltb k (key_at xs i) && leb (key_at xs i) sought)) [
        | inl higher ↦
            let (reach, inside, high, greatest) =
              lte_loop_lem n xs sought (i + 1) i (key_at xs i) refl (ground arith) in
            rw higher (
              inr (omega (arith, reach), omega (arith, reach)),
              inside,
              ground arith,
              λ j p q r. elim (ℕ_discrete j i) [
                | yes z ↦ rw z high
                | no z ↦ greatest j (omega (arith, z)) (omega arith) r
              ],
            )
        | inr same ↦
            let (reach, inside, high, greatest) = lte_loop_lem n xs sought (i + 1) pos k e h in
            rw same (
              ground (arith, reach),
              inside,
              high,
              λ j p q r. elim (ℕ_discrete j i) [
                | yes z ↦ rw z (ground (arith, high, r, ap (key_at xs) z))
                | no z ↦ greatest j (omega (arith, z)) (omega arith) r
              ],
            )
      ]

  -- How the two loops end: at the greatest key that is at most the sought one.
  lte_first_loop_lem :
      (n : ℕ) (xs : List (Entry V)) (sought i : ℕ)
      → ((lte_first_loop n xs sought i ≡ length xs)
          × ((j : ℕ) → i ≤ j → j < i + n → sought < key_at xs j))
        ⊎ ((i ≤ lte_first_loop n xs sought i)
            × (lte_first_loop n xs sought i < i + n)
            × (key_at xs (lte_first_loop n xs sought i) ≤ sought)
            × ((j : ℕ)
                → i ≤ j
                → j < i + n
                → key_at xs j ≤ sought
                → key_at xs j ≤ key_at xs (lte_first_loop n xs sought i)))
  unfolding lte_first_loop
  lte_first_loop_lem zero xs sought i = inl (refl, λ j p q. absurd (omega arith))
  lte_first_loop_lem (suc n) xs sought i = elim (Bool-cases (leb (key_at xs i) sought)) [
    | inl low ↦
        let (reach, inside, high, greatest) =
          lte_loop_lem (suc n) xs sought i i (key_at xs i) refl (ground arith) in
        rw low (inr (omega (arith, reach), omega (arith, reach), inside, greatest))
    | inr high ↦ rw high (elim (lte_first_loop_lem n xs sought (i + 1)) [
      | inl (run, above) ↦ inl (
        run,
        λ j p q. elim (ℕ_discrete j i) [
          | yes z ↦ rw z (ground arith)
          | no z ↦ above j (omega (arith, z)) (omega arith)
        ],
      )
      | inr (from, to, inside, greatest) ↦ inr (
        omega arith,
        omega arith,
        inside,
        λ j p q r. elim (ℕ_discrete j i) [
          | yes z ↦ absurd (ground (arith, ap (key_at xs) z, r))
          | no z ↦ greatest j (omega (arith, z)) (omega arith) r
        ],
      )
    ])
  ]

  -- `find_lte` returns none if every key is above the sought one. Otherwise it returns an entry of the
  -- vector whose key is at most the sought one and not below another such key.
  pub find_lte_tracked :
      (v : Vec V) (sought : ℕ)
      → IsTracked v
      → ((find_lte v sought ≡ none) × ((j : ℕ) → j < v.size → sought < key_at v.list j))
        ⊎ ((i : ℕ) × (e : Entry V) × (find_lte v sought ≡ some e)
            × (i < v.size)
            × (get_elem? v.list i ≡ some e)
            × (e.key ≤ sought)
            × ((j : ℕ) → j < v.size → key_at v.list j ≤ sought → key_at v.list j ≤ e.key))
  unfolding find_lte
  find_lte_tracked v sought h =
      let pos = lte_first_loop v.size v.list sought 0 in
      elim (lte_first_loop_lem v.size v.list sought 0) [
        | inl (run, above) ↦ inl (
          rw (ltb-false pos (get_capacity v) (omega arith)) refl,
          λ j p. above j (omega arith) (omega arith),
        )
        | inr (from, to, inside, greatest) ↦
            let (e, at) = get_elem?-some v.list pos (omega (arith, h.bounded)) in
            let same = key_at-some v.list pos e at in
            inr (
              pos,
              e,
              rw (ltb-true pos (get_capacity v) (omega (arith, h.bounded))) at,
              omega arith,
              at,
              omega (arith, same),
              λ j p q. omega (arith, same, greatest j (omega arith) (omega arith) q),
            )
      ]

  contains_at : (v : Vec V) (k pos : ℕ) → find v k ≡ some pos → contains v k ≡ read_value v.list pos
  unfolding contains
  contains_at v k pos run = rw (run, contains) refl

  -- Both forms of `contains` say whether the key is there. If it is, the first returns the value of its
  -- entry.
  pub contains_tracked :
      (v : Vec V) (k : ℕ)
      → IsTracked v
      → ((contains v k ≡ none) × (contains_key v k ≡ false) × (tally (has_key k) (entries v) ≡ 0))
        ⊎ ((i : ℕ) × (e : Entry V) × (contains v k ≡ some e.val)
            × (contains_key v k ≡ true)
            × (i < v.size)
            × (get_elem? v.list i ≡ some e)
            × (e.key ≡ k))
  unfolding contains contains_key
  contains_tracked v k h = elim (find_lem v k h.bounded) [
    | inr (run, absent, others) ↦ inl (rw (run, contains) refl, rw (run, contains_key) refl, absent)
    | inl (pos, e, run, inside, at, same) ↦ inr (
      pos,
      e,
      contains_at v k pos run ∙ ap (λ o. elim o [ none ↦ none | some e ↦ some e.val ]) at,
      rw (run, contains_key) refl,
      inside,
      at,
      same,
    )
  ]

  -- `first`, `last` and `max_key` of a tracked vector that is not empty: a key of the vector that is least,
  -- and one that is greatest.
  pub ends_tracked :
      (v : Vec V)
      → IsTracked v
      → 0 < v.size
      → ((i : ℕ) → i < v.size → first v ≤ key_at v.list i)
        × ((m : ℕ) × (last v ≡ some (key_at v.list m))
            × (max_key v ≡ some (key_at v.list m))
            × (m < v.size)
            × ((i : ℕ) → i < v.size → key_at v.list i ≤ key_at v.list m))
  unfolding first last max_key
  ends_tracked v h some_old = elim (ℕ_discrete v.size 1) [
    | yes one ↦ (
      h.least,
      (
        0,
        ground arith,
        ground arith,
        some_old,
        λ i p. ground (arith, ap (key_at v.list) {x = i} {y = 0} (omega (arith, p))),
      ),
    )
    | no more ↦
        (h.least, (1, ground arith, ground arith, omega arith, λ i p. h.greatest i p (omega arith)))
  ]
