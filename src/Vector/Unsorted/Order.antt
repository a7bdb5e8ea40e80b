-- ===== src/Vector/Unsorted/Order.antt =====
-- `sort` of vector_umfra.h, what is documented of `std::sort`, and `at` in a sorted vector.
use disco_skip.Prelude.{ℕ, ◌+◌, ◌-◌, ◌≤◌, ◌<◌, ◌≡◌, refl}
use disco_skip.Prelude.{ap, arith, dec_lt, ℕ_discrete, true, false, none, some}
use disco_skip.Prelude.{List, ltb, ◌==◌, if◌then◌else◌, ◌&&◌, ◌⊎◌, inl}
use disco_skip.Prelude.{length, get_elem?, take}
use disco_skip.Vector.Slots.{Entry, key_at}
use disco_skip.Vector.Counts.{SameEntries}
use disco_skip.Vector.Unsorted.{Vec, get_capacity, at}
use disco_skip.Vector.Unsorted.Tracked.{IsTracked, entries, has_key, places_differ}
use disco_skip.Vector.Unsorted.Visit.{sort}
use disco_skip.Vector.Unsorted.Halving.{bounds}

-- What is documented of `std::sort(xs + f, xs + l)`: it puts the keys of that range in order.
pub record IsSort {V : Type 0} (std_sort : ℕ → ℕ → List (Entry V) → List (Entry V)) : Type 0 where
  pub capacity :
      (f l : ℕ) (xs : List (Entry V)) → f < l → l ≤ length xs → length (std_sort f l xs) ≡ length xs
  pub outside :
      (f l : ℕ) (xs : List (Entry V))
      → f < l
      → l ≤ length xs
      → (i : ℕ) → (i < f) ⊎ (l ≤ i)
      → get_elem? (std_sort f l xs) i ≡ get_elem? xs i
  pub same :
      (f l : ℕ) (xs : List (Entry V))
      → f < l
      → l ≤ length xs
      → SameEntries (take l (std_sort f l xs)) (take l xs)
  pub order :
      (f l : ℕ) (xs : List (Entry V))
      → f < l
      → l ≤ length xs
      → (i j : ℕ) → f ≤ i
      → i ≤ j
      → j < l
      → key_at (std_sort f l xs) i ≤ key_at (std_sort f l xs) j

module _ {V : Type 0} (std_sort : ℕ → ℕ → List (Entry V) → List (Entry V))
    (documented : IsSort std_sort) (v : Vec V) (h : IsTracked v) where
  -- The same entries, tracked, and in order from slot 2 on.
  record Sorted (s : Vec V) : Type 0 where
    tracked : IsTracked s
    size : s.size ≡ v.size
    capacity : get_capacity s ≡ get_capacity v
    same : SameEntries (entries s) (entries v)
    order : (i j : ℕ) → 2 ≤ i → i ≤ j → j < v.size → key_at s.list i ≤ key_at s.list j

  few_Sorted : v.size ≤ 3 → Sorted v
  few_Sorted few = record {
    tracked = h;
    size = refl;
    capacity = refl;
    same = λ p. refl;
    order = λ i j p q r. omega (arith, ap (key_at v.list) {x = i} {y = j} (omega arith));
  }

  many_Sorted : 3 < v.size → Sorted (record v { list = std_sort 2 v.size v.list })
  many_Sorted many =
      let some_range : 2 < v.size = omega arith in
      let ys = std_sort 2 v.size v.list in
      let len = documented.capacity 2 v.size v.list some_range h.bounded in
      let out = documented.outside 2 v.size v.list some_range h.bounded in
      let same = documented.same 2 v.size v.list some_range h.bounded in
      let inside =
        bounds v.size (key_at v.list 0) (key_at v.list 1) v.list ys h.bounded
          (omega (arith, len, h.bounded)) same
          (λ i p. (h.least i p, h.greatest i p (omega arith))) in
      let first : key_at ys 0 ≡ key_at v.list 0 =
        ap (λ o. elim o [ none ↦ 0 | some e ↦ e.key ]) (out 0 (inl (omega arith))) in
      let second : key_at ys 1 ≡ key_at v.list 1 =
        ap (λ o. elim o [ none ↦ 0 | some e ↦ e.key ]) (out 1 (inl (omega arith))) in
      record {
        tracked = record {
          bounded = omega (arith, len, h.bounded);
          distinct = λ k. omega (arith, same (has_key k), h.distinct k);
          least = λ i p. omega (arith, first, (inside i p).0);
          greatest = λ i p q. omega (arith, second, (inside i p).1);
        };
        size = refl;
        capacity = len;
        same = same;
        order = documented.order 2 v.size v.list some_range h.bounded;
      }

  sort_lem : Sorted (sort std_sort v)
  unfolding sort
  sort_lem = elim (dec_lt 3 v.size) [
    | yes many ↦
        let test : (ltb 3 (get_capacity v) && ltb 3 v.size) ≡ true = ground (arith, h.bounded) in
        rw test (many_Sorted many)
    | no few ↦
        let test : (ltb 3 (get_capacity v) && ltb 3 v.size) ≡ false = ground arith in
        rw test (few_Sorted (omega arith))
  ]

  -- The slot of the element with an index in a sorted vector.
  abbrev slot : ℕ → ℕ
  slot index = if index == 0 then 0 else if index == v.size - 1 then 1 else index + 1

  at_slot :
      (s : Vec V) (index : ℕ)
      → s.size ≡ v.size
      → index < v.size
      → at s index ≡ some (key_at s.list (slot index))
  unfolding at
  at_slot s index e p = ground arith

  slot_order :
      (s : Vec V)
      → Sorted s
      → (i j : ℕ) → i < j
      → j < v.size
      → key_at s.list (slot i) < key_at s.list (slot j)
  slot_order s d i j p q =
      let tracked = d.tracked in
      let size = d.size in
      elim (ℕ_discrete i 0) [
        | yes z ↦
            let start : slot i ≡ 0 = ground arith in
            let place : (0 < slot j) × (slot j < v.size) = (ground arith, ground arith) in
            omega (
              arith,
              ap (key_at s.list) start,
              tracked.least (slot j) (omega (arith, place, size)),
              places_differ s tracked 0 (slot j) place.0 (omega (arith, place, size)),
            )
        | no o ↦
            let here : slot i ≡ i + 1 = ground arith in
            elim (ℕ_discrete j (v.size - 1)) [
              | yes last ↦
                  let there : slot j ≡ 1 = ground arith in
                  omega (
                    arith,
                    ap (key_at s.list) here,
                    ap (key_at s.list) there,
                    tracked.greatest (i + 1) (omega (arith, size)) (omega (arith, size)),
                    places_differ s tracked 1 (i + 1) (omega (arith, o)) (omega (arith, size)),
                  )
              | no more ↦
                  let there : slot j ≡ j + 1 = ground arith in
                  omega (
                    arith,
                    ap (key_at s.list) here,
                    ap (key_at s.list) there,
                    d.order (i + 1) (j + 1) (omega (arith, o)) (omega arith) (omega (arith, more)),
                    places_differ s tracked (i + 1) (j + 1) (omega arith)
                        (omega (arith, more, size)),
                  )
            ]
      ]

  slot_low : (index : ℕ) → index < v.size → slot index < v.size
  slot_low index p = ground arith

  -- `sort` of a tracked vector, given what is documented of `std::sort`, keeps its entries and leaves it
  -- tracked. After it, `at` fails for an index from the size on. For every index below the size it returns
  -- the key of one of the slots that the vector holds, and a greater key for a greater index.
  pub sort-IsTracked :
      IsTracked (sort std_sort v)
      × SameEntries (entries (sort std_sort v)) (entries v)
      × ((i : ℕ) → v.size ≤ i → at (sort std_sort v) i ≡ none)
      × ((i : ℕ)
          → i < v.size
          → (m : ℕ) × (m < v.size)
            × (at (sort std_sort v) i ≡ some (key_at (sort std_sort v).list m)))
      × ((i j : ℕ)
          → i < j
          → j < v.size
          → (a : ℕ) × (b : ℕ) × (at (sort std_sort v) i ≡ some a)
            × (at (sort std_sort v) j ≡ some b)
            × (a < b))
  unfolding at
  sort-IsTracked =
      let s = sort std_sort v in
      let d = sort_lem in
      let size = d.size in
      (
        d.tracked,
        d.same,
        λ i p. ground arith,
        λ i p. (slot i, slot_low i p, at_slot s i d.size p),
        λ i j p q. (
          key_at s.list (slot i),
          key_at s.list (slot j),
          at_slot s i d.size (omega arith),
          at_slot s j d.size q,
          slot_order s d i j p q,
        ),
      )
