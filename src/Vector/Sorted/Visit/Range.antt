-- ===== src/Vector/Sorted/Visit/Range.antt =====
-- `range` of vector_sfra.h visits the keys of the range, in order, and no others.
use disco_skip.Prelude.{ℕ, zero, suc, ◌≤◌, ◌<◌, ◌≡◌, refl}
use disco_skip.Prelude.{arith, dec_lt, Bool, false}
use disco_skip.Prelude.{List, [], ◌∷◌, ◌++◌, ltb, if◌then◌else◌}
use disco_skip.Prelude.{length, take}
use disco_skip.Vector.Slots.{Entry, key_at}
use disco_skip.Vector.Entries.{Splits, IsAscending, below, from}
use disco_skip.Vector.Entries.{below-Splits, from-Splits}
use disco_skip.Vector.Sorted.{Vec}
use disco_skip.Vector.Sorted.Find.{contents, IsValid}
use disco_skip.Vector.Sorted.Find.{contents-IsAscending}
use disco_skip.Vector.Sorted.Visit.{for_each_loop, range_loop, skip_loop, range}

module _ {V : Type 0} where
  IsAscending-tail : (e : Entry V) (c : List (Entry V)) → IsAscending (e ∷ c) → IsAscending c
  IsAscending-tail e c a i j p q = a (suc i) (suc j) (omega arith) (omega arith)

  -- In an ascending list that starts at `k` or above, no key is below `k`.
  Splits-head :
      (k : ℕ) (e : Entry V) (c : List (Entry V))
      → IsAscending (e ∷ c)
      → k ≤ e.key
      → Splits k (e ∷ c) 0
  Splits-head k e c a h = record {
    inside = omega arith;
    lower = λ i p. absurd (omega arith);
    upper = λ i p q. bound i q;
  }
    where
      bound : (i : ℕ) → i < length (e ∷ c) → k ≤ key_at (e ∷ c) i
      bound zero q = h
      bound (suc i) q = omega (arith, a 0 (suc i) (omega arith) q)

  none-below :
      (k : ℕ) (e : Entry V) (c : List (Entry V))
      → IsAscending (e ∷ c)
      → k ≤ e.key
      → (below k (e ∷ c) ≡ []) × (from k (e ∷ c) ≡ e ∷ c)
  none-below k e c a h =
      let s = Splits-head k e c a h in (below-Splits k (e ∷ c) 0 s, from-Splits k (e ∷ c) 0 s)

  below-cons_lt :
      (k : ℕ) (e : Entry V) (c : List (Entry V))
      → e.key < k
      → (below k (e ∷ c) ≡ e ∷ below k c) × (from k (e ∷ c) ≡ from k c)
  unfolding below from
  below-cons_lt k e c h = ground arith

  below-append-from : (k : ℕ) (c : List (Entry V)) → IsAscending c → below k c ++ from k c ≡ c
  unfolding below from
  below-append-from k [] a = refl
  below-append-from k (e ∷ c) a = elim (dec_lt e.key k) [
    | yes lower ↦ ground (arith, below-append-from k c (IsAscending-tail e c a))
    | no upper ↦
        let (low_part, high_part) = none-below k e c a (omega arith) in
        ground (arith, low_part, high_part)
  ]

module _ {S V : Type 0} (f : S → ℕ → V → S × V × Bool) where
  -- A result of the loops, compared with a visit to `mid` that leaves what stands before and after it.
  abbrev pub Visits :
      S × List (Entry V) × Bool × Bool
      → ℕ
      → S
      → List (Entry V)
      → List (Entry V)
      → List (Entry V)
      → Type 0
  Visits (s', xs, result, stop) n s pre mid post =
      let (final, seen, stopped) = for_each_loop f (length mid) s mid in
      (s' ≡ final)
      × (stop ≡ stopped)
      × (take n xs ≡ pre ++ (seen ++ post))
      × (result ≡ (if stopped then false else ltb 0 (length post)))

  module _ (low to : ℕ) where
    range_loop-Visits :
        (n : ℕ) (s : S) (xs : List (Entry V))
        → IsAscending (take n xs)
        → Visits
            (range_loop f low to n s xs)
            n
            s
            []
            (below (suc to) (take n xs))
            (from (suc to) (take n xs))
    unfolding range_loop for_each_loop below from
    range_loop-Visits zero s xs a = (refl, refl, refl, refl)
    range_loop-Visits (suc n) s [] a = (refl, refl, refl, refl)
    range_loop-Visits (suc n) s (e ∷ xs) a = elim (dec_lt to e.key) [
      | yes above ↦
          let (low_part, high_part) = none-below (suc to) e (take n xs) a above in
          ground (arith, low_part, high_part)
      | no inside ↦
          let (low_part, high_part) = below-cons_lt (suc to) e (take n xs) (omega arith) in
          let (s', val', stop) = f s e.key e.val in
          let whole = below-append-from (suc to) (take n xs) (IsAscending-tail e (take n xs) a) in
          let ih = range_loop-Visits n s' xs (IsAscending-tail e (take n xs) a) in
          ground (arith, low_part, high_part, ih, whole)
    ]

    skip_loop-Visits :
        low ≤ to
        → (n : ℕ) (s : S) (xs : List (Entry V)) → IsAscending (take n xs)
        → Visits
            (skip_loop f low to n s xs)
            n
            s
            (below low (take n xs))
            (below (suc to) (from low (take n xs)))
            (from (suc to) (take n xs))
    unfolding skip_loop for_each_loop below from
    skip_loop-Visits h zero s xs a = (refl, refl, refl, refl)
    skip_loop-Visits h (suc n) s [] a = (refl, refl, refl, refl)
    skip_loop-Visits h (suc n) s (e ∷ xs) a = elim (dec_lt e.key low) [
      | yes before ↦
          let ih = skip_loop-Visits h n s xs (IsAscending-tail e (take n xs) a) in
          ground (arith, ih)
      | no reached ↦
          let (low_part, high_part) = none-below low e (take n xs) a (omega arith) in
          ground (arith, low_part, high_part, range_loop-Visits (suc n) s (e ∷ xs) a)
    ]

    -- On a valid vector, a `range` whose bounds are in order (`low` is at most `to`), and that starts
    -- with `exit_flag` clear, passes to the callback the entries with keys from `low` to `to`, in order, until the callback sets the flag. It stores the
    -- values that the callback leaves, keeps the other entries, leaves the flag as the callback did,
    -- and returns true exactly when it was not stopped and there is a key above the range.
    pub range_refines :
        (s : S) (v : Vec V)
        → low ≤ to
        → IsValid v
        → let (s', v', result, stop) = range f low to s v false in
          Visits
            (s', v'.list, result, stop)
            v'.size
            s
            (below low (contents v))
            (below (suc to) (from low (contents v)))
            (from (suc to) (contents v))
    unfolding range
    range_refines s v h valid = skip_loop-Visits h v.size s v.list (contents-IsAscending valid)
