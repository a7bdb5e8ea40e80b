-- ===== src/Vector/Unsorted/SortRange.antt =====
-- A function that does what is documented of `std::nth_element`: it sorts the range.
use disco_skip.Prelude.{ℕ, zero, suc, ◌+◌, ◌-◌, ◌≤◌, ◌<◌, ◌≡◌, refl, sym, ◌∙◌}
use disco_skip.Prelude.{ap, arith, ℕ_discrete}
use disco_skip.Prelude.{List, [], ◌∷◌, ◌++◌, leb, if◌then◌else◌, ◌⊎◌, inl, inr}
use disco_skip.Prelude.{Bool-cases}
use disco_skip.Prelude.{length, get_elem?, take, drop, length-take}
use disco_skip.Prelude.{length-drop, length-append, get_elem?-take, get_elem?-drop}
use disco_skip.Prelude.{get_elem?-append, list_ext}
use disco_skip.Prelude.{take-append-drop}
use disco_skip.Vector.Slots.{Entry, key_at}
use disco_skip.Vector.Counts.{Test, weight, tally, tally-append, SameEntries}
use disco_skip.Vector.Unsorted.Halving.{IsNthElement}
use disco_skip.Vector.Unsorted.Order.{IsSort}

module _ {V : Type 0} where
  unfoldable pub insert_sorted : Entry V → List (Entry V) → List (Entry V)
  insert_sorted e [] = e ∷ []
  insert_sorted e (x ∷ c) =
      let rest = insert_sorted e c in if leb e.key x.key then e ∷ x ∷ c else x ∷ rest

  unfoldable pub sorted : List (Entry V) → List (Entry V)
  sorted [] = []
  sorted (x ∷ c) = insert_sorted x (sorted c)

  unfoldable pub sort_range : ℕ → ℕ → ℕ → List (Entry V) → List (Entry V)
  sort_range f n l xs = take f xs ++ (sorted (take (l - f) (drop f xs)) ++ drop l xs)

  length-insert_sorted :
      (e : Entry V) (c : List (Entry V)) → length (insert_sorted e c) ≡ suc (length c)
  unfolding insert_sorted
  length-insert_sorted e [] = refl
  length-insert_sorted e (x ∷ c) = ground (arith, length-insert_sorted e c)

  length-sorted : (c : List (Entry V)) → length (sorted c) ≡ length c
  unfolding sorted
  length-sorted [] = refl
  length-sorted (x ∷ c) = length-insert_sorted x (sorted c) ∙ ap suc (length-sorted c)

  tally-insert_sorted :
      (p : Test V) (e : Entry V) (c : List (Entry V))
      → tally p (insert_sorted e c) ≡ weight (p e) + tally p c
  unfolding insert_sorted tally
  tally-insert_sorted p e [] = refl
  tally-insert_sorted p e (x ∷ c) = ground (arith, tally-insert_sorted p e c)

  tally-sorted : (p : Test V) (c : List (Entry V)) → tally p (sorted c) ≡ tally p c
  unfolding sorted tally
  tally-sorted p [] = refl
  tally-sorted p (x ∷ c) = omega (arith, tally-insert_sorted p x (sorted c), tally-sorted p c)

  -- Keys in order, by neighbours.
  unfoldable IsOrdered : List (Entry V) → Type 0
  IsOrdered [] = Unit {0}
  IsOrdered (x ∷ c) = ((i : ℕ) → i < length c → x.key ≤ key_at c i) × IsOrdered c

  insert_sorted-bound :
      (k : ℕ) (e : Entry V) (c : List (Entry V))
      → k ≤ e.key
      → ((i : ℕ) → i < length c → k ≤ key_at c i)
      → (i : ℕ) → i < length (insert_sorted e c)
      → k ≤ key_at (insert_sorted e c) i
  unfolding insert_sorted
  insert_sorted-bound k e [] h g i p = ground arith
  insert_sorted-bound k e (x ∷ c) h g i p = elim (Bool-cases (leb e.key x.key)) [
    | inl before ↦ elim (ℕ_discrete i 0) [ yes z ↦ ground arith | no o ↦ ground (arith, g (i - 1)) ]
    | inr behind ↦ elim (ℕ_discrete i 0) [
      | yes z ↦ ground (arith, g 0)
      | no o ↦ ground (
        arith,
        insert_sorted-bound k e c h (λ j q. g (suc j) (omega arith)) (i - 1),
        length-insert_sorted e c,
      )
    ]
  ]

  insert_sorted-IsOrdered :
      (e : Entry V) (c : List (Entry V)) → IsOrdered c → IsOrdered (insert_sorted e c)
  unfolding insert_sorted IsOrdered
  insert_sorted-IsOrdered e [] h = ((λ i p. absurd (omega arith)), tt)
  insert_sorted-IsOrdered e (x ∷ c) (above, h) = elim (Bool-cases (leb e.key x.key)) [
    | inl before ↦ rw before (
      (λ i p. elim (ℕ_discrete i 0) [
        | yes z ↦ ground arith
        | no o ↦ ground (arith, above (i - 1))
      ]),
      (above, h),
    )
    | inr behind ↦
        rw behind
          (insert_sorted-bound x.key e c (ground arith) above, insert_sorted-IsOrdered e c h)
  ]

  sorted-IsOrdered : (c : List (Entry V)) → IsOrdered (sorted c)
  unfolding sorted IsOrdered
  sorted-IsOrdered [] = tt
  sorted-IsOrdered (x ∷ c) = insert_sorted-IsOrdered x (sorted c) (sorted-IsOrdered c)

  ordered_at :
      (c : List (Entry V))
      → IsOrdered c
      → (i j : ℕ) → i ≤ j
      → j < length c
      → key_at c i ≤ key_at c j
  unfolding IsOrdered
  ordered_at [] h i j p q = absurd (omega arith)
  ordered_at (x ∷ c) h zero zero p q = omega arith
  ordered_at (x ∷ c) h zero (suc j) p q = h.0 j (omega arith)
  ordered_at (x ∷ c) h (suc i) zero p q = absurd (omega arith)
  ordered_at (x ∷ c) h (suc i) (suc j) p q = ordered_at c h.1 i j (omega arith) (omega arith)

  module _ (f n l : ℕ) (xs : List (Entry V)) (h : f ≤ n) (g : n < l) (b : l ≤ length xs) where
    abbrev mid : List (Entry V)
    mid = take (l - f) (drop f xs)

    length-mid : length (sorted mid) ≡ l - f
    length-mid = omega (arith, length-sorted mid, length-take (l - f) (drop f xs), length-drop f xs)

    length-front : length (take f xs) ≡ f
    length-front = omega (arith, length-take f xs)

    pub length-sort_range : length (sort_range f n l xs) ≡ length xs
    unfolding sort_range
    length-sort_range = omega (
      arith,
      length-append (take f xs) (sorted mid ++ drop l xs),
      length-append (sorted mid) (drop l xs),
      length-front,
      length-mid,
      length-drop l xs,
    )

    pub sort_range-outside :
        (i : ℕ) → (i < f) ⊎ (l ≤ i) → get_elem? (sort_range f n l xs) i ≡ get_elem? xs i
    unfolding sort_range
    sort_range-outside i out = ground (
      arith,
      get_elem?-append (take f xs) (sorted mid ++ drop l xs) i,
      get_elem?-append (sorted mid) (drop l xs) (i - f),
      get_elem?-take f i xs,
      get_elem?-drop l (i - f - (l - f)) xs,
      ap (get_elem? xs) {x = l + (i - f - (l - f))} {y = i},
      length-front,
      length-mid,
      out,
    )

    sort_range-inside :
        (i : ℕ) → f ≤ i → i < l → key_at (sort_range f n l xs) i ≡ key_at (sorted mid) (i - f)
    unfolding sort_range
    sort_range-inside i p q = ground (
      arith,
      get_elem?-append (take f xs) (sorted mid ++ drop l xs) i,
      get_elem?-append (sorted mid) (drop l xs) (i - f),
      length-front,
      length-mid,
    )

    sort_range-rest : drop l (sort_range f n l xs) ≡ drop l xs
    sort_range-rest =
        list_ext (drop l (sort_range f n l xs)) (drop l xs)
          (omega (arith, length-drop l (sort_range f n l xs), length-drop l xs, length-sort_range))
          (λ i p.
            get_elem?-drop l i (sort_range f n l xs)
            ∙ sort_range-outside (l + i) (inr (omega arith))
            ∙ sym (get_elem?-drop l i xs))

    behind : drop (l - f) (drop f xs) ≡ drop l xs
    behind =
        list_ext (drop (l - f) (drop f xs)) (drop l xs)
          (omega (arith, length-drop (l - f) (drop f xs), length-drop f xs, length-drop l xs))
          (λ i p.
            get_elem?-drop (l - f) i (drop f xs)
            ∙ get_elem?-drop f (l - f + i) xs
            ∙ ap (get_elem? xs) {x = f + (l - f + i)} {y = l + i} (omega arith)
            ∙ sym (get_elem?-drop l i xs))

    halves_tally :
        (p : Test V) (m : ℕ) (ys : List (Entry V))
        → tally p (take m ys) + tally p (drop m ys) ≡ tally p ys
    halves_tally p m ys =
        sym (tally-append p (take m ys) (drop m ys)) ∙ ap (tally p) (take-append-drop m ys)

    pub sort_range-same : SameEntries (take l (sort_range f n l xs)) (take l xs)
    unfolding sort_range
    sort_range-same p = omega (
      arith,
      halves_tally p l (sort_range f n l xs),
      ap (tally p) sort_range-rest,
      tally-append p (take f xs) (sorted mid ++ drop l xs),
      tally-append p (sorted mid) (drop l xs),
      tally-sorted p mid,
      halves_tally p (l - f) (drop f xs),
      ap (tally p) behind,
      halves_tally p f xs,
      halves_tally p l xs,
    )

    pub sort_range-order :
        (i j : ℕ)
        → f ≤ i
        → i ≤ j
        → j < l
        → key_at (sort_range f n l xs) i ≤ key_at (sort_range f n l xs) j
    sort_range-order i j p q r = omega (
      arith,
      sort_range-inside i p (omega arith),
      sort_range-inside j (omega arith) r,
      ordered_at (sorted mid) (sorted-IsOrdered mid) (i - f) (j - f) (omega arith)
          (omega (arith, length-mid)),
    )

  pub sort_range-IsNthElement : IsNthElement sort_range
  sort_range-IsNthElement = record {
    capacity = length-sort_range;
    outside = sort_range-outside;
    same = sort_range-same;
    lower = λ f n l xs h g b i p q. sort_range-order f n l xs h g b i n p (omega arith) g;
    upper = λ f n l xs h g b i p q. sort_range-order f n l xs h g b n i h p q;
  }

  -- It also does what is documented of `std::sort`.
  pub sort_range-IsSort : IsSort (λ f l. sort_range f f l)
  sort_range-IsSort = record {
    capacity = λ f l xs g b. length-sort_range f f l xs (omega arith) g b;
    outside = λ f l xs g b. sort_range-outside f f l xs (omega arith) g b;
    same = λ f l xs g b. sort_range-same f f l xs (omega arith) g b;
    order = λ f l xs g b. sort_range-order f f l xs (omega arith) g b;
  }
