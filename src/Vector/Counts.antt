-- ===== src/Vector/Counts.antt =====
-- Lists of entries in any order: how many of them pass a test, which says when two lists hold the same
-- entries.
use disco_skip.Prelude.{length-take}
use disco_skip.Prelude.{ℕ, zero, suc, ◌+◌, ◌≤◌, ◌<◌, ◌≡◌, refl}
use disco_skip.Prelude.{ap, arith, Bool, true, false, not, some}
use disco_skip.Prelude.{List, [], ◌∷◌, ◌++◌, ltb, ◌==◌, ◌&&◌, inl, inr}
use disco_skip.Prelude.{Bool-cases}
use disco_skip.Prelude.{length, get_elem?, set, take}
use disco_skip.Prelude.{◌==◌}
use disco_skip.Vector.Slots.{Entry}
use disco_skip.Vector.Entries.{below, from, erase}

abbrev pub Test : Type 0 → Type 0
Test V = Entry V → Bool

abbrev pub weight : Bool → ℕ
weight true = 1
weight false = 0

module _ {V : Type 0} where
  unfoldable pub tally : Test V → List (Entry V) → ℕ
  tally p [] = 0
  tally p (e ∷ c) = weight (p e) + tally p c

  pub tally-append : (p : Test V) (c d : List (Entry V)) → tally p (c ++ d) ≡ tally p c + tally p d
  unfolding tally
  tally-append p [] d = omega arith
  tally-append p (e ∷ c) d = omega (arith, tally-append p c d)

  pub tally-bound : (p : Test V) (c : List (Entry V)) → tally p c ≤ length c
  unfolding tally
  tally-bound p [] = omega arith
  tally-bound p (e ∷ c) = ground (arith, tally-bound p c)

  -- The first `n` slots after a write to slot `i`.
  pub tally-set :
      (p : Test V) (n : ℕ) (xs : List (Entry V)) (i : ℕ) (old new : Entry V)
      → get_elem? xs i ≡ some old
      → i < n
      → tally p (take n (set xs i new)) + weight (p old) ≡ tally p (take n xs) + weight (p new)
  unfolding tally
  tally-set p n [] i old new h q = absurd (ground arith)
  tally-set p zero (x ∷ xs) i old new h q = absurd (omega arith)
  tally-set p (suc n) (x ∷ xs) zero old new h q = ground arith
  tally-set p (suc n) (x ∷ xs) (suc i) old new h q =
      omega (arith, tally-set p n xs i old new h (omega arith))

  pub take-set_beyond :
      (n : ℕ) (xs : List (Entry V)) (i : ℕ) (new : Entry V)
      → n ≤ i
      → take n (set xs i new) ≡ take n xs
  take-set_beyond n [] i new h = refl
  take-set_beyond zero (x ∷ xs) i new h = refl
  take-set_beyond (suc n) (x ∷ xs) zero new h = absurd (omega arith)
  take-set_beyond (suc n) (x ∷ xs) (suc i) new h =
      ap (◌∷◌ x) (take-set_beyond n xs i new (omega arith))

  pub tally-suc :
      (p : Test V) (n : ℕ) (xs : List (Entry V)) (e : Entry V)
      → get_elem? xs n ≡ some e
      → tally p (take (suc n) xs) ≡ tally p (take n xs) + weight (p e)
  unfolding tally
  tally-suc p n [] e h = absurd (ground arith)
  tally-suc p zero (x ∷ xs) e h = ground arith
  tally-suc p (suc n) (x ∷ xs) e h = omega (arith, tally-suc p n xs e h)

  pub tally-member :
      (p : Test V) (n : ℕ) (xs : List (Entry V)) (i : ℕ) (e : Entry V)
      → get_elem? xs i ≡ some e
      → i < n
      → weight (p e) ≤ tally p (take n xs)
  unfolding tally
  tally-member p n [] i e h q = absurd (ground arith)
  tally-member p zero (x ∷ xs) i e h q = absurd (omega arith)
  tally-member p (suc n) (x ∷ xs) zero e h q = ground arith
  tally-member p (suc n) (x ∷ xs) (suc i) e h q =
      omega (arith, tally-member p n xs i e h (omega arith))

  -- Two members count twice.
  pub tally-pair :
      (p : Test V) (n : ℕ) (xs : List (Entry V)) (i j : ℕ) (e f : Entry V)
      → get_elem? xs i ≡ some e
      → get_elem? xs j ≡ some f
      → i < j
      → j < n
      → weight (p e) + weight (p f) ≤ tally p (take n xs)
  unfolding tally
  tally-pair p n [] i j e f h g q r = absurd (ground arith)
  tally-pair p zero (x ∷ xs) i j e f h g q r = absurd (omega arith)
  tally-pair p (suc n) (x ∷ xs) i zero e f h g q r = absurd (omega arith)
  tally-pair p (suc n) (x ∷ xs) zero (suc j) e f h g q r =
      ground (arith, tally-member p n xs j f g (omega arith))
  tally-pair p (suc n) (x ∷ xs) (suc i) (suc j) e f h g q r =
      omega (arith, tally-pair p n xs i j e f h g (omega arith) (omega arith))

  pub tally-none :
      (p : Test V) (n : ℕ) (xs : List (Entry V))
      → ((i : ℕ) (e : Entry V) → get_elem? xs i ≡ some e → i < n → p e ≡ false)
      → tally p (take n xs) ≡ 0
  unfolding tally
  tally-none p zero xs h = refl
  tally-none p (suc n) [] h = refl
  tally-none p (suc n) (x ∷ xs) h =
      ground (arith, h 0 x refl, tally-none p n xs (λ i e q r. h (suc i) e q (omega arith)))

  pub tally-missing :
      (p : Test V) (n : ℕ) (xs : List (Entry V)) (i : ℕ) (e : Entry V)
      → get_elem? xs i ≡ some e
      → i < n
      → p e ≡ false
      → tally p (take n xs) < n
  unfolding tally
  tally-missing p n [] i e h q r = absurd (ground arith)
  tally-missing p zero (x ∷ xs) i e h q r = absurd (omega arith)
  tally-missing p (suc n) (x ∷ xs) zero e h q r =
      ground (arith, tally-bound p (take n xs), length-take n xs)
  tally-missing p (suc n) (x ∷ xs) (suc i) e h q r =
      ground (arith, tally-missing p n xs i e h (omega arith) r)

  pub tally-every :
      (p : Test V) (n : ℕ) (xs : List (Entry V))
      → n ≤ length xs
      → ((i : ℕ) (e : Entry V) → get_elem? xs i ≡ some e → i < n → p e ≡ true)
      → tally p (take n xs) ≡ n
  unfolding tally
  tally-every p zero xs b h = refl
  tally-every p (suc n) [] b h = absurd (omega arith)
  tally-every p (suc n) (x ∷ xs) b h =
      ground (
        arith,
        h 0 x refl,
        tally-every p n xs (omega arith) (λ i e q r. h (suc i) e q (omega arith)),
      )

  -- A passing entry stands somewhere.
  pub tally-some :
      (p : Test V) (c : List (Entry V))
      → 0 < tally p c
      → (i : ℕ) × (e : Entry V) × (get_elem? c i ≡ some e) × (p e ≡ true)
  unfolding tally
  tally-some p [] h = absurd (omega arith)
  tally-some p (x ∷ c) h = elim (Bool-cases (p x)) [
    | inl q ↦ (0, x, refl, q)
    | inr q ↦ let (i, e, there, passes) = tally-some p c (ground arith) in (suc i, e, there, passes)
  ]

  -- Tests add up.
  pub tally-parts :
      (p q : Test V) (c : List (Entry V))
      → tally (λ e. p e && q e) c + tally (λ e. p e && not (q e)) c ≡ tally p c
  unfolding tally
  tally-parts p q [] = refl
  tally-parts p q (x ∷ c) = ground (arith, tally-parts p q c)

  pub tally-less : (p q : Test V) (c : List (Entry V)) → tally (λ e. p e && q e) c ≤ tally q c
  unfolding tally
  tally-less p q [] = omega arith
  tally-less p q (x ∷ c) = ground (arith, tally-less p q c)

  pub tally-erase :
      (p : Test V) (k : ℕ) (c : List (Entry V))
      → tally p (erase k c) ≡ tally (λ e. p e && not (e.key == k)) c
  unfolding tally erase
  tally-erase p k [] = refl
  tally-erase p k (x ∷ c) = ground (arith, tally-erase p k c)

  pub tally-below :
      (p : Test V) (k : ℕ) (c : List (Entry V))
      → tally p (below k c) ≡ tally (λ e. p e && ltb e.key k) c
  unfolding tally below
  tally-below p k [] = refl
  tally-below p k (x ∷ c) = ground (arith, tally-below p k c)

  pub tally-from :
      (p : Test V) (k : ℕ) (c : List (Entry V))
      → tally p (from k c) ≡ tally (λ e. p e && not (ltb e.key k)) c
  unfolding tally from
  tally-from p k [] = refl
  tally-from p k (x ∷ c) = ground (arith, tally-from p k c)

  -- The lists hold the same entries, equally often.
  abbrev pub SameEntries : List (Entry V) → List (Entry V) → Type 0
  SameEntries c d = (p : Test V) → tally p c ≡ tally p d
