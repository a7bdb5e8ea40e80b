-- ===== src/Vector/Unsorted/Tracked.antt =====
-- What vector_umfra.h keeps: different keys in any order, the least in slot 0 and the greatest in slot 1.
-- Also what its `find` and its writes to single slots do.
use disco_skip.Prelude.{ℕ, zero, suc, ◌+◌, ◌≤◌, ◌<◌, ◌≡◌, ◌≢◌, refl, sym, ◌∙◌}
use disco_skip.Prelude.{ap, arith, ℕ_discrete, none, some}
use disco_skip.Prelude.{List, [], ◌∷◌, ◌==◌, if◌then◌else◌, ◌⊎◌, inl, inr}
use disco_skip.Prelude.{==-true, ==-false}
use disco_skip.Prelude.{length, get_elem?, set, take, length-set, get_elem?-set}
use disco_skip.Prelude.{get_elem?-some}
use disco_skip.Vector.Slots.{Entry, key_at, assign}
use disco_skip.Prelude.{get_elem?-some}
use disco_skip.Vector.Counts.{
  Test, weight, tally, tally-set, take-set_beyond, tally-suc, tally-pair, tally-none, SameEntries,
}
use disco_skip.Vector.Unsorted.{Vec, get_capacity, find_loop, find, swap}

module _ {V : Type 0} where
  abbrev pub entries : Vec V → List (Entry V)
  entries v = take v.size v.list

  abbrev pub has_key : ℕ → Test V
  has_key k e = e.key == k

  -- Different keys, of which slot 0 has the least and slot 1 the greatest.
  pub record IsTracked (v : Vec V) : Type 0 where
    pub bounded : v.size ≤ get_capacity v
    pub distinct : (k : ℕ) → tally (has_key k) (entries v) ≤ 1
    pub least : (i : ℕ) → i < v.size → key_at v.list 0 ≤ key_at v.list i
    pub greatest : (i : ℕ) → i < v.size → 2 ≤ v.size → key_at v.list i ≤ key_at v.list 1

  pub key_at-some :
      (xs : List (Entry V)) (i : ℕ) (e : Entry V) → get_elem? xs i ≡ some e → key_at xs i ≡ e.key
  key_at-some xs i e p = ground arith

  pub key_at-set :
      (xs : List (Entry V)) (i j : ℕ) (e : Entry V)
      → i < length xs
      → key_at (set xs i e) j ≡ (if i == j then e.key else key_at xs j)
  key_at-set xs i j e h = ground (arith, get_elem?-set xs i j e)

  pub assign_lem :
      (dst : List (Entry V)) (d : ℕ) (src : List (Entry V)) (s : ℕ) (e : Entry V)
      → get_elem? src s ≡ some e
      → assign dst d src s ≡ set dst d e
  unfolding assign
  assign_lem dst d src s e p = rw (p, assign) refl

  -- A write behind the first `n` slots makes them one more.
  pub tally-extend :
      (p : Test V) (n : ℕ) (xs : List (Entry V)) (e : Entry V)
      → n < length xs
      → tally p (take (suc n) (set xs n e)) ≡ tally p (take n xs) + weight (p e)
  tally-extend p n xs e h =
      tally-suc p n (set xs n e) e (ground (arith, get_elem?-set xs n n e))
      ∙ ap (λ c. tally p c + weight (p e)) (take-set_beyond n xs n e (omega arith))

  -- Different places have different keys.
  pub places_differ :
      (v : Vec V) → IsTracked v → (i j : ℕ) → i < j → j < v.size → key_at v.list i ≢ key_at v.list j
  places_differ v h i j p q same =
      let (e, at_i) = get_elem?-some v.list i (omega (arith, h.bounded)) in
      let (f, at_j) = get_elem?-some v.list j (omega (arith, h.bounded)) in
      ground (
        arith,
        tally-pair (has_key e.key) v.size v.list i j e f at_i at_j p q,
        h.distinct e.key,
        key_at-some v.list i e at_i,
        key_at-some v.list j f at_j,
      )

  -- Keys that differ place by place are counted at most once.
  pub differing :
      (k n : ℕ) (xs : List (Entry V))
      → n ≤ length xs
      → ((i j : ℕ) → i < j → j < n → key_at xs i ≢ key_at xs j)
      → tally (has_key k) (take n xs) ≤ 1
  unfolding tally
  differing k zero xs b h = omega arith
  differing k (suc n) [] b h = omega arith
  differing k (suc n) (x ∷ xs) b h = elim (ℕ_discrete x.key k) [
    | yes here ↦
        let none_left : tally (has_key k) (take n xs) ≡ 0 = tally-none (has_key k) n xs (λ i e p q.
          ground (arith, h 0 (suc i) (omega arith) (omega arith), key_at-some xs i e p)) in
        ground arith
    | no there ↦ ground (
      arith,
      differing k n xs (omega arith) (λ i j p q. h (suc i) (suc j) (omega arith) (omega arith)),
    )
  ]

  -- How `find` ends.
  pub find_loop_lem :
      (n : ℕ) (xs : List (Entry V)) (k i : ℕ)
      → ((pos : ℕ) × (find_loop n xs k i ≡ some pos)
          × (i ≤ pos)
          × (pos < i + n)
          × (key_at xs pos ≡ k))
        ⊎ ((find_loop n xs k i ≡ none) × ((j : ℕ) → i ≤ j → j < i + n → key_at xs j ≢ k))
  unfolding find_loop
  find_loop_lem zero xs k i = inr (refl, λ j p q. absurd (omega arith))
  find_loop_lem (suc n) xs k i = elim (ℕ_discrete (key_at xs i) k) [
    | yes here ↦ inl (i, rw (==-true (key_at xs i) k here) refl, omega arith, omega arith, here)
    | no there ↦ elim (find_loop_lem n xs k (i + 1)) [
      | inl (pos, run, low, high, found) ↦
          inl (pos, rw (==-false (key_at xs i) k there) run, omega arith, omega arith, found)
      | inr (run, absent) ↦ inr (
        rw (==-false (key_at xs i) k there) run,
        λ j p q. elim (ℕ_discrete j i) [
          | yes e ↦ rw e there
          | no e ↦ absent j (omega (arith, e)) (omega arith)
        ],
      )
    ]
  ]

  pub find_lem :
      (v : Vec V) (k : ℕ)
      → v.size ≤ get_capacity v
      → ((pos : ℕ) × (e : Entry V) × (find v k ≡ some pos)
          × (pos < v.size)
          × (get_elem? v.list pos ≡ some e)
          × (e.key ≡ k))
        ⊎ ((find v k ≡ none)
            × (tally (has_key k) (entries v) ≡ 0)
            × ((j : ℕ) → j < v.size → key_at v.list j ≢ k))
  unfolding find
  find_lem v k b = elim (find_loop_lem v.size v.list k 0) [
    | inl (pos, run, low, high, found) ↦
        let (e, at) = get_elem?-some v.list pos (omega arith) in
        inl (pos, e, run, omega arith, at, sym (key_at-some v.list pos e at) ∙ found)
    | inr (run, absent) ↦ inr (
      run,
      tally-none (has_key k) v.size v.list (λ i e p q.
          ground (arith, absent i (omega arith) (omega arith), key_at-some v.list i e p)),
      λ j p. absent j (omega arith) (omega arith),
    )
  ]

  -- A swap keeps the entries.
  pub swap_lem :
      (xs : List (Entry V)) (n m size : ℕ)
      → n < size
      → m < size
      → size ≤ length xs
      → SameEntries (take size (swap xs n m)) (take size xs)
        × (length (swap xs n m) ≡ length xs)
        × ((i : ℕ)
            → key_at (swap xs n m) i
              ≡ (if i == m then key_at xs n else if i == n then key_at xs m else key_at xs i))
  unfolding swap
  swap_lem xs n m size hn hm b = elim (ℕ_discrete n m) [
    | yes same ↦ rw (==-true n m same) (λ p. refl, refl, λ i. ground arith)
    | no differ ↦
        let (e, at_n) = get_elem?-some xs n (omega arith) in
        let (f, at_m) = get_elem?-some xs m (omega arith) in
        let once = set xs n f in
        let run : (if n == m
              then xs
              else elim (get_elem? xs n) [ none ↦ xs | some e ↦ set (assign xs n xs m) m e ])
            ≡ set once m e =
          rw (==-false n m differ)
            (rw at_n (ap (λ ys. set ys m e) (assign_lem xs n xs m f at_m))) in
        let mid : get_elem? once m ≡ some f = ground (arith, get_elem?-set xs n m f) in
        rw run (
          λ p. omega (arith, tally-set p size once m f e mid hm, tally-set p size xs n e f at_n hn),
          length-set once m e ∙ length-set xs n f,
          λ i. ground (
            arith,
            length-set xs n f,
            key_at-set once m i e,
            key_at-set xs n i f,
            key_at-some xs n e at_n,
            key_at-some xs m f at_m,
          ),
        )
  ]
