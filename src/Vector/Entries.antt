-- ===== src/Vector/Entries.antt =====
-- What a vector means: its entries in order, as a finite map from keys. The methods of every vector
-- class are compared with these functions on lists, none of which relies on an index.
use disco_skip.Prelude.{ℕ, zero, suc, ◌+◌, ◌-◌, ◌≤◌, ◌<◌, ◌≡◌, ◌≢◌, refl, arith}
use disco_skip.Prelude.{Bool, true, false, Option, none, some, List, [], ◌∷◌, ◌++◌}
use disco_skip.Prelude.{
  ◌&&◌, ltb, leb, ◌==◌, if◌then◌else◌, length, get_elem?, get_elem?-some, take, drop,
}
use disco_skip.Prelude.{
  length-append, get_elem?-append, length-take, length-drop, get_elem?-take, get_elem?-drop,
}
use disco_skip.Vector.Slots.{Entry, key_at}

module _ {V : Type 0} where
  unfoldable pub lookup : ℕ → List (Entry V) → Option V
  lookup k [] = none
  lookup k (e ∷ c) = if e.key == k then some e.val else lookup k c

  -- How many keys are below `k`.
  unfoldable pub rank : ℕ → List (Entry V) → ℕ
  rank k [] = 0
  rank k (e ∷ c) = (if ltb e.key k then 1 else 0) + rank k c

  unfoldable pub below : ℕ → List (Entry V) → List (Entry V)
  below k [] = []
  below k (e ∷ c) = let rest = below k c in if ltb e.key k then e ∷ rest else rest

  unfoldable pub from : ℕ → List (Entry V) → List (Entry V)
  from k [] = []
  from k (e ∷ c) = let rest = from k c in if leb k e.key then e ∷ rest else rest

  unfoldable pub erase : ℕ → List (Entry V) → List (Entry V)
  erase k [] = []
  erase k (e ∷ c) = let rest = erase k c in if e.key == k then rest else e ∷ rest

  -- The last entry of the list whose key is at most `k`.
  unfoldable pub floor : ℕ → List (Entry V) → Option (Entry V)
  floor k [] = none
  floor k (e ∷ c) = elim (floor k c) [
    | some f ↦ some f
    | none ↦ if leb e.key k then some e else none
  ]

  abbrev pub IsAscending : List (Entry V) → Type 0
  IsAscending c = (i j : ℕ) → i < j → j < length c → key_at c i < key_at c j

  -- Index `r` parts the keys below `k` from the others.
  pub record Splits (k : ℕ) (c : List (Entry V)) (r : ℕ) : Type 0 where
    pub inside : r ≤ length c
    pub lower : (i : ℕ) → i < r → key_at c i < k
    pub upper : (i : ℕ) → r ≤ i → i < length c → k ≤ key_at c i

  Splits-tail :
      {k r : ℕ} {e : Entry V} {c : List (Entry V)} → Splits k (e ∷ c) (suc r) → Splits k c r
  Splits-tail {k} {r} {e} {c} s = record {
    inside = omega (arith, s.inside);
    lower = λ i p. s.lower (suc i) (omega arith);
    upper = λ i p q. s.upper (suc i) (omega arith) (omega arith);
  }

  Splits-none : {k : ℕ} {e : Entry V} {c : List (Entry V)} → Splits k (e ∷ c) zero → Splits k c zero
  Splits-none s = record {
    inside = omega arith;
    lower = λ i p. absurd (omega arith);
    upper = λ i p q. s.upper (suc i) (omega arith) (omega arith);
  }

  module _ (k : ℕ) where
    pub rank-Splits : (c : List (Entry V)) (r : ℕ) → Splits k c r → rank k c ≡ r
    unfolding rank
    rank-Splits [] r s = omega (arith, s.inside)
    rank-Splits (e ∷ c) zero s = ground (arith, s.upper 0, rank-Splits c zero (Splits-none s))
    rank-Splits (e ∷ c) (suc r) s = ground (arith, s.lower 0, rank-Splits c r (Splits-tail s))

    pub below-Splits : (c : List (Entry V)) (r : ℕ) → Splits k c r → below k c ≡ take r c
    unfolding below
    below-Splits [] zero s = refl
    below-Splits [] (suc r) s = refl
    below-Splits (e ∷ c) zero s = ground (arith, s.upper 0, below-Splits c zero (Splits-none s))
    below-Splits (e ∷ c) (suc r) s = ground (arith, s.lower 0, below-Splits c r (Splits-tail s))

    pub from-Splits : (c : List (Entry V)) (r : ℕ) → Splits k c r → from k c ≡ drop r c
    unfolding from
    from-Splits [] zero s = refl
    from-Splits [] (suc r) s = refl
    from-Splits (e ∷ c) zero s = ground (arith, s.upper 0, from-Splits c zero (Splits-none s))
    from-Splits (e ∷ c) (suc r) s = ground (arith, s.lower 0, from-Splits c r (Splits-tail s))

    -- The value of the entry at `r`, if its key is `k`.
    abbrev pub value_at : List (Entry V) → ℕ → Option V
    value_at c r = elim (get_elem? c r) [
      | none ↦ none
      | some e ↦ if e.key == k then some e.val else none
    ]

    lookup-above :
        (c : List (Entry V)) → ((i : ℕ) → i < length c → k < key_at c i) → lookup k c ≡ none
    unfolding lookup
    lookup-above [] h = refl
    lookup-above (e ∷ c) h = ground (
      arith,
      h 0 (omega arith),
      lookup-above c (λ (i : ℕ) (p : i < length c). h (suc i) (omega arith)),
    )

    pub lookup-Splits :
        (c : List (Entry V)) (r : ℕ) → IsAscending c → Splits k c r → lookup k c ≡ value_at c r
    unfolding lookup
    lookup-Splits [] r a s = refl
    lookup-Splits (e ∷ c) zero a s =
        ground (arith, s.upper 0 (omega arith) (omega arith), lookup-above c above)
      where
        above : (i : ℕ) → i < length c → k < key_at c i
        above i p = omega (arith, s.upper 0 (omega arith) (omega arith), a 0 (suc i))
    lookup-Splits (e ∷ c) (suc r) a s = ground (
      arith,
      s.lower 0 (omega arith),
      lookup-Splits c r
          (λ (i j : ℕ) (p : i < j) (q : j < length c).
            a (suc i) (suc j) (omega arith) (omega arith))
          (Splits-tail s),
    )

    erase-above : (c : List (Entry V)) → ((i : ℕ) → i < length c → k < key_at c i) → erase k c ≡ c
    unfolding erase
    erase-above [] h = refl
    erase-above (e ∷ c) h = ground (
      arith,
      h 0 (omega arith),
      erase-above c (λ (i : ℕ) (p : i < length c). h (suc i) (omega arith)),
    )

    pub erase-Splits :
        (c : List (Entry V)) (r : ℕ)
        → IsAscending c
        → Splits k c r
        → r < length c
        → key_at c r ≡ k
        → erase k c ≡ take r c ++ drop (suc r) c
    unfolding erase
    erase-Splits [] r a s h e = absurd (omega arith)
    erase-Splits (e ∷ c) zero a s h q = ground (arith, erase-above c above)
      where
        above : (i : ℕ) → i < length c → k < key_at c i
        above i p = omega (arith, q, a 0 (suc i))
    erase-Splits (e ∷ c) (suc r) a s h q = ground (
      arith,
      s.lower 0 (omega arith),
      erase-Splits c r
          (λ (i j : ℕ) (p : i < j) (q : j < length c).
            a (suc i) (suc j) (omega arith) (omega arith))
          (Splits-tail s) (omega arith) q,
    )

    floor-above :
        (c : List (Entry V)) → ((i : ℕ) → i < length c → k < key_at c i) → floor k c ≡ none
    unfolding floor
    floor-above [] h = refl
    floor-above (e ∷ c) h = ground (
      arith,
      h 0 (omega arith),
      floor-above c (λ (i : ℕ) (p : i < length c). h (suc i) (omega arith)),
    )

    -- The entry at the split if its key is `k`, and else the one before it.
    abbrev pub at_or_before : List (Entry V) → ℕ → Option (Entry V)
    at_or_before c r =
        if ltb r (length c) && key_at c r == k
        then get_elem? c r
        else if r == 0
        then none
        else get_elem? c (r - 1)

    pub floor-Splits :
        (c : List (Entry V)) (r : ℕ) → IsAscending c → Splits k c r → floor k c ≡ at_or_before c r
    unfolding floor
    floor-Splits [] r a s = ground (arith, s.inside)
    floor-Splits (e ∷ c) zero a s =
        ground (arith, s.upper 0 (omega arith) (omega arith), floor-above c above)
      where
        above : (i : ℕ) → i < length c → k < key_at c i
        above i p = omega (arith, s.upper 0 (omega arith) (omega arith), a 0 (suc i))
    floor-Splits (e ∷ c) (suc zero) a s = ground (
      arith,
      s.lower 0 (omega arith),
      floor-Splits c zero
          (λ (i j : ℕ) (p : i < j) (q : j < length c).
            a (suc i) (suc j) (omega arith) (omega arith))
          (Splits-tail s),
      get_elem?-some c 0,
    )
    floor-Splits (e ∷ c) (suc (suc r)) a s = ground (
      arith,
      s.lower 0 (omega arith),
      s.inside,
      floor-Splits c (suc r)
          (λ (i j : ℕ) (p : i < j) (q : j < length c).
            a (suc i) (suc j) (omega arith) (omega arith))
          (Splits-tail s),
      get_elem?-some c (suc r),
      get_elem?-some c r,
    )

  -- The abstract map operations, with the flags that the methods return.
  unfoldable pub insert : ℕ → Entry V → List (Entry V) → Bool × Bool × List (Entry V)
  insert cap e c = elim (lookup e.key c) [
    | some _ ↦ (false, false, c)
    | none ↦
        if length c == cap
        then (false, true, c)
        else (true, false, below e.key c ++ e ∷ from e.key c)
  ]

  unfoldable pub remove : ℕ → List (Entry V) → Option V × List (Entry V)
  remove k c = (lookup k c, erase k c)

  module _ (cap : ℕ) (e : Entry V) (c : List (Entry V)) where
    pub insert-present : {x : V} → lookup e.key c ≡ some x → insert cap e c ≡ (false, false, c)
    unfolding insert
    insert-present p = rw (p, insert)

    pub insert-full : lookup e.key c ≡ none → length c ≡ cap → insert cap e c ≡ (false, true, c)
    unfolding insert
    insert-full p full = rw (p, insert) (ground arith)

    pub insert-room :
        lookup e.key c ≡ none
        → length c ≢ cap
        → insert cap e c ≡ (true, false, below e.key c ++ e ∷ from e.key c)
    unfolding insert
    insert-room p room = rw (p, insert) (ground arith)

  pub lookup-append :
      (k : ℕ) (c d : List (Entry V))
      → lookup k (c ++ d) ≡ elim (lookup k c) [ some x ↦ some x | none ↦ lookup k d ]
  unfolding lookup
  lookup-append k [] d = refl
  lookup-append k (e ∷ c) d = ground (arith, lookup-append k c d)

  lookup-below :
      (j k : ℕ) (c : List (Entry V)) → lookup j (below k c) ≡ (if ltb j k then lookup j c else none)
  unfolding lookup below
  lookup-below j k [] = ground arith
  lookup-below j k (e ∷ c) = ground (arith, lookup-below j k c)

  lookup-from :
      (j k : ℕ) (c : List (Entry V)) → lookup j (from k c) ≡ (if leb k j then lookup j c else none)
  unfolding lookup from
  lookup-from j k [] = ground arith
  lookup-from j k (e ∷ c) = ground (arith, lookup-from j k c)

  pub lookup-erase :
      (j k : ℕ) (c : List (Entry V)) → lookup j (erase k c) ≡ (if k == j then none else lookup j c)
  unfolding lookup erase
  lookup-erase j k [] = ground arith
  lookup-erase j k (e ∷ c) = ground (arith, lookup-erase j k c)

  lookup-cons :
      (j : ℕ) (e : Entry V) (c : List (Entry V))
      → lookup j (e ∷ c) ≡ (if e.key == j then some e.val else lookup j c)
  unfolding lookup
  lookup-cons j e c = refl

  pub lookup-insert :
      (j cap : ℕ) (e : Entry V) (c : List (Entry V))
      → lookup j (insert cap e c).2
        ≡ (if (insert cap e c).0 && e.key == j then some e.val else lookup j c)
  unfolding insert
  lookup-insert j cap e c = ground (
    arith,
    lookup-append j (below e.key c) (e ∷ from e.key c),
    lookup-cons j e (from e.key c),
    lookup-below j e.key c,
    lookup-from j e.key c,
  )

  pub erase-absent : (k : ℕ) (c : List (Entry V)) → lookup k c ≡ none → erase k c ≡ c
  unfolding lookup erase
  erase-absent k [] h = refl
  erase-absent k (e ∷ c) h = ground (arith, erase-absent k c)

  -- Every key of the first list is below every key of the second.
  abbrev pub IsBefore : List (Entry V) → List (Entry V) → Type 0
  IsBefore c d = (i j : ℕ) → i < length c → j < length d → key_at c i < key_at d j

  pub append-IsAscending :
      (c d : List (Entry V)) → IsAscending c → IsAscending d → IsBefore c d → IsAscending (c ++ d)
  append-IsAscending c d ac ad before i j p q = ground (
    arith,
    length-append c d,
    get_elem?-append c d i,
    get_elem?-append c d j,
    ac i j,
    ad (i - length c) (j - length c),
    before i (j - length c),
  )

  pub take-IsAscending : (n : ℕ) (c : List (Entry V)) → IsAscending c → IsAscending (take n c)
  take-IsAscending n c a i j p q =
      ground (arith, length-take n c, get_elem?-take n i c, get_elem?-take n j c, a i j)

  pub drop-IsAscending : (n : ℕ) (c : List (Entry V)) → IsAscending c → IsAscending (drop n c)
  drop-IsAscending n c a i j p q =
      ground (arith, length-drop n c, get_elem?-drop n i c, get_elem?-drop n j c, a (n + i) (n + j))

  pub cons-IsAscending :
      (e : Entry V) (c : List (Entry V))
      → IsAscending c
      → ((i : ℕ) → i < length c → e.key < key_at c i)
      → IsAscending (e ∷ c)
  cons-IsAscending e c a h zero zero p q = absurd (omega arith)
  cons-IsAscending e c a h zero (suc j) p q = h j (omega arith)
  cons-IsAscending e c a h (suc i) zero p q = absurd (omega arith)
  cons-IsAscending e c a h (suc i) (suc j) p q = a i j (omega arith) (omega arith)

  pub IsAscending-append :
      (c d : List (Entry V)) → IsAscending (c ++ d) → IsAscending c × IsAscending d
  IsAscending-append c d a = (
    λ i j p q.
        ground (arith, length-append c d, get_elem?-append c d i, get_elem?-append c d j, a i j),
    λ i j p q. ground (
      arith,
      length-append c d,
      get_elem?-append c d (length c + i),
      get_elem?-append c d (length c + j),
      a (length c + i) (length c + j),
    ),
  )

  pub lookup-prefix : (k : ℕ) (c d : List (Entry V)) → lookup k (c ++ d) ≡ none → lookup k c ≡ none
  lookup-prefix k c d h = ground (arith, lookup-append k c d)

  -- A split of a list is one of each prefix that it lies in.
  pub Splits-take :
      {k r : ℕ} {c : List (Entry V)} (n : ℕ) → Splits k c r → r ≤ n → Splits k (take n c) r
  Splits-take {k} {r} {c} n s h = record {
    inside = omega (arith, length-take n c, s.inside);
    lower = λ i p. ground (arith, get_elem?-take n i c, s.lower i);
    upper = λ i p q. ground (arith, length-take n c, get_elem?-take n i c, s.upper i);
  }
