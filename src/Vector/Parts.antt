-- ===== src/Vector/Parts.antt =====
-- The map of entries that lie in several vectors, one behind the other.
use disco_skip.Prelude.{◌+◌, ℕ, suc, ◌-◌, ◌≤◌, ◌<◌, ◌≡◌, refl, ◌∙◌}
use disco_skip.Prelude.{ap, arith, none, some}
use disco_skip.Prelude.{List, [], ◌∷◌, ◌++◌, inl, inr}
use disco_skip.Prelude.{Option-cases}
use disco_skip.Prelude.{length, get_elem?}
use disco_skip.Prelude.{length-append}
use disco_skip.Prelude.{get_elem?-append}
use disco_skip.Prelude.{append_assoc, ◌∙◌, ap, refl, Option-cases}
use disco_skip.Vector.Slots.{Entry, key_at}
use disco_skip.Vector.Entries.{IsBefore, IsAscending, lookup-append, lookup, below, from, floor}

module _ {V : Type 0} where
  abbrev pub AllBelow : ℕ → List (Entry V) → Type 0
  AllBelow k c = (i : ℕ) → i < length c → key_at c i < k

  abbrev pub AllAbove : ℕ → List (Entry V) → Type 0
  AllAbove k c = (i : ℕ) → i < length c → k < key_at c i

  AllBelow-tail : {k : ℕ} (e : Entry V) (c : List (Entry V)) → AllBelow k (e ∷ c) → AllBelow k c
  AllBelow-tail e c h i p = h (suc i) (omega arith)

  AllAbove-tail : {k : ℕ} (e : Entry V) (c : List (Entry V)) → AllAbove k (e ∷ c) → AllAbove k c
  AllAbove-tail e c h i p = h (suc i) (omega arith)

  pub AllBelow-append :
      {k : ℕ} (c d : List (Entry V)) → AllBelow k c → AllBelow k d → AllBelow k (c ++ d)
  AllBelow-append c d hc hd i p =
      ground (arith, length-append c d, get_elem?-append c d i, hc i, hd (i - length c))

  pub AllAbove-append :
      {k : ℕ} (c d : List (Entry V)) → AllAbove k c → AllAbove k d → AllAbove k (c ++ d)
  AllAbove-append c d hc hd i p =
      ground (arith, length-append c d, get_elem?-append c d i, hc i, hd (i - length c))

  module _ (k : ℕ) where
    pub floor-append :
        (c d : List (Entry V))
        → floor k (c ++ d) ≡ elim (floor k d) [ some f ↦ some f | none ↦ floor k c ]
    unfolding floor
    floor-append [] d = ground arith
    floor-append (e ∷ c) d = ground (arith, floor-append c d)

    below-append : (c d : List (Entry V)) → below k (c ++ d) ≡ below k c ++ below k d
    unfolding below
    below-append [] d = refl
    below-append (e ∷ c) d = ground (arith, below-append c d)

    from-append : (c d : List (Entry V)) → from k (c ++ d) ≡ from k c ++ from k d
    unfolding from
    from-append [] d = refl
    from-append (e ∷ c) d = ground (arith, from-append c d)

    pub above-floor : (c : List (Entry V)) → AllAbove k c → floor k c ≡ none
    unfolding floor
    above-floor [] h = refl
    above-floor (e ∷ c) h = ground (arith, h 0 (omega arith), above-floor c (AllAbove-tail e c h))

    pub above-parts :
        (c : List (Entry V))
        → AllAbove k c
        → (below k c ≡ []) × (from k c ≡ c) × (lookup k c ≡ none)
    unfolding below from lookup
    above-parts [] h = (refl, refl, refl)
    above-parts (e ∷ c) h = ground (arith, h 0 (omega arith), above-parts c (AllAbove-tail e c h))

    pub below-parts :
        (c : List (Entry V))
        → AllBelow k c
        → (below k c ≡ c) × (from k c ≡ []) × (lookup k c ≡ none)
    unfolding below from lookup
    below-parts [] h = (refl, refl, refl)
    below-parts (e ∷ c) h = ground (arith, h 0 (omega arith), below-parts c (AllBelow-tail e c h))

    -- A floor is an entry of the list, and its key is not above.
    pub floor-some :
        (c : List (Entry V)) (f : Entry V)
        → floor k c ≡ some f
        → (f.key ≤ k) × ((i : ℕ) × (get_elem? c i ≡ some f))
    unfolding floor
    floor-some [] f h = absurd (ground arith)
    floor-some (e ∷ c) f h = elim (Option-cases (floor k c)) [
      | inr (g, q) ↦
          let same : g ≡ f = ground arith in
          let (bound, found) = floor-some c f (q ∙ ap some same) in (bound, (suc found.0, found.1))
      | inl q ↦ (ground arith, (0, ground arith))
    ]

    pub floor-first :
        (c : List (Entry V)) → 0 < length c → key_at c 0 ≤ k → (f : Entry V) × (floor k c ≡ some f)
    unfolding floor
    floor-first [] h p = absurd (omega arith)
    floor-first (e ∷ c) h p = elim (Option-cases (floor k c)) [
      | inr (g, q) ↦ (g, ground arith)
      | inl q ↦ (e, ground arith)
    ]

  pub IsAscending-IsBefore : (c d : List (Entry V)) → IsAscending (c ++ d) → IsBefore c d
  IsAscending-IsBefore c d a i j p q = ground (
    arith,
    length-append c d,
    get_elem?-append c d i,
    get_elem?-append c d (length c + j),
    a i (length c + j),
  )

  -- A map without a bound on its size.
  unfoldable pub put : Entry V → List (Entry V) → List (Entry V)
  put e c = elim (lookup e.key c) [ some _ ↦ c | none ↦ below e.key c ++ e ∷ from e.key c ]

  module _ (e : Entry V) (c : List (Entry V)) where
    pub put-present : {x : V} → lookup e.key c ≡ some x → put e c ≡ c
    unfolding put
    put-present p = rw (p, put)

    pub put-absent : lookup e.key c ≡ none → put e c ≡ below e.key c ++ e ∷ from e.key c
    unfolding put
    put-absent p = rw (p, put)

  append-nil : (c : List (Entry V)) → c ++ [] ≡ c
  append-nil [] = refl
  append-nil (e ∷ c) = ap (◌∷◌ e) (append-nil c)

  module _ (e : Entry V) (b m a : List (Entry V)) (hb : AllBelow e.key b)
      (ha : AllAbove e.key a) where
    put-between-lookup : lookup e.key (b ++ (m ++ a)) ≡ lookup e.key m
    put-between-lookup = ground (
      arith,
      below-parts e.key b hb,
      above-parts e.key a ha,
      lookup-append e.key b (m ++ a),
      lookup-append e.key m a,
    )

    put-between-below : below e.key (b ++ (m ++ a)) ≡ b ++ below e.key m
    put-between-below = rw (
      below-append e.key b (m ++ a),
      below-append e.key m a,
      (below-parts e.key b hb).0,
      (above-parts e.key a ha).0,
      append-nil (below e.key m),
    )

    put-between-from : from e.key (b ++ (m ++ a)) ≡ from e.key m ++ a
    put-between-from = rw (
      from-append e.key b (m ++ a),
      from-append e.key m a,
      (below-parts e.key b hb).1,
      (above-parts e.key a ha).1,
    )

    -- An insertion between parts that lie wholly below and wholly above the key.
    pub put-between : put e (b ++ (m ++ a)) ≡ b ++ (put e m ++ a)
    put-between = elim (Option-cases (lookup e.key m)) [
      | inr (x, p) ↦ rw (put-present e m p, put-present e (b ++ (m ++ a)) (put-between-lookup ∙ p))
      | inl p ↦
          rw
            (
              put-absent e m p,
              put-absent e (b ++ (m ++ a)) (put-between-lookup ∙ p),
              put-between-below,
              put-between-from,
            )
            (rw (
              append_assoc b (below e.key m) (e ∷ (from e.key m ++ a)),
              append_assoc (below e.key m) (e ∷ from e.key m) a,
            ))
    ]
