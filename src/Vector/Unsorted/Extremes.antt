-- ===== src/Vector/Unsorted/Extremes.antt =====
-- The searches of vector_umfra.h for a least or greatest key, and the gap that the last element fills.
use disco_skip.Prelude.{ℕ, zero, suc, ◌+◌, ◌≤◌, ◌<◌, ◌≡◌, refl, sym, ◌∙◌}
use disco_skip.Prelude.{ap, arith, dec_lt, ℕ_discrete, some}
use disco_skip.Prelude.{List, ◌∷◌, ◌==◌, if◌then◌else◌, ◌⊎◌, inl, inr}
use disco_skip.Prelude.{ltb-true, ltb-false}
use disco_skip.Prelude.{length, get_elem?, set, take, length-set}
use disco_skip.Prelude.{get_elem?-some}
use disco_skip.Vector.Slots.{Entry, key_at}
use disco_skip.Prelude.{get_elem?-some}
use disco_skip.Vector.Counts.{tally, tally-set, tally-suc, SameEntries}
use disco_skip.Vector.Unsorted.{min_loop, max_loop, fill_gap}
use disco_skip.Vector.Unsorted.Tracked.{key_at-set, key_at-some, assign_lem}

abbrev pub InReach : ℕ → ℕ → ℕ → ℕ → Type 0
InReach i n pos r = (r ≡ pos) ⊎ ((i ≤ r) × (r < i + n))

module _ {V : Type 0} where
  pub min_loop_lem :
      (n : ℕ) (xs : List (Entry V)) (i pos k : ℕ)
      → k ≡ key_at xs pos
      → InReach i n pos (min_loop n xs i pos k)
        × (key_at xs (min_loop n xs i pos k) ≤ k)
        × ((j : ℕ) → i ≤ j → j < i + n → key_at xs (min_loop n xs i pos k) ≤ key_at xs j)
  unfolding min_loop
  min_loop_lem zero xs i pos k e = (inl refl, omega arith, λ j p q. absurd (omega arith))
  min_loop_lem (suc n) xs i pos k e = elim (dec_lt (key_at xs i) k) [
    | yes lower ↦
        let (reach, low, least) = min_loop_lem n xs (i + 1) i (key_at xs i) refl in
        rw (ltb-true (key_at xs i) k lower) (
          inr (omega (arith, reach), omega (arith, reach)),
          omega arith,
          λ j p q. elim (ℕ_discrete j i) [
            | yes z ↦ rw z low
            | no z ↦ least j (omega (arith, z)) (omega arith)
          ],
        )
    | no higher ↦
        let (reach, low, least) = min_loop_lem n xs (i + 1) pos k e in
        rw (ltb-false (key_at xs i) k (omega arith)) (
          ground (arith, reach),
          low,
          λ j p q. elim (ℕ_discrete j i) [
            | yes z ↦ rw z (omega (arith, low))
            | no z ↦ least j (omega (arith, z)) (omega arith)
          ],
        )
  ]

  pub max_loop_lem :
      (n : ℕ) (xs : List (Entry V)) (i pos k : ℕ)
      → k ≡ key_at xs pos
      → InReach i n pos (max_loop n xs i pos k)
        × (k ≤ key_at xs (max_loop n xs i pos k))
        × ((j : ℕ) → i ≤ j → j < i + n → key_at xs j ≤ key_at xs (max_loop n xs i pos k))
  unfolding max_loop
  max_loop_lem zero xs i pos k e = (inl refl, omega arith, λ j p q. absurd (omega arith))
  max_loop_lem (suc n) xs i pos k e = elim (dec_lt k (key_at xs i)) [
    | yes higher ↦
        let (reach, high, greatest) = max_loop_lem n xs (i + 1) i (key_at xs i) refl in
        rw (ltb-true k (key_at xs i) higher) (
          inr (omega (arith, reach), omega (arith, reach)),
          omega arith,
          λ j p q. elim (ℕ_discrete j i) [
            | yes z ↦ rw z high
            | no z ↦ greatest j (omega (arith, z)) (omega arith)
          ],
        )
    | no lower ↦
        let (reach, high, greatest) = max_loop_lem n xs (i + 1) pos k e in
        rw (ltb-false k (key_at xs i) (omega arith)) (
          ground (arith, reach),
          high,
          λ j p q. elim (ℕ_discrete j i) [
            | yes z ↦ rw z (omega (arith, high))
            | no z ↦ greatest j (omega (arith, z)) (omega arith)
          ],
        )
  ]

  -- The array without the entry at `pos`.
  pub record Filled (xs : List (Entry V)) (pos size : ℕ) (gone : Entry V) (ys : List (Entry V))
      : Type 0 where
    pub same : SameEntries (gone ∷ take size ys) (take (suc size) xs)
    pub capacity : length ys ≡ length xs
    pub keys : (j : ℕ) → j < size → key_at ys j ≡ (if j == pos then key_at xs size else key_at xs j)

  pub fill_gap_lem :
      (xs : List (Entry V)) (pos size : ℕ) (gone : Entry V)
      → get_elem? xs pos ≡ some gone
      → pos ≤ size
      → size < length xs
      → Filled xs pos size gone (fill_gap xs pos size)
  unfolding tally fill_gap
  fill_gap_lem xs pos size gone at h b = elim (ℕ_discrete pos size) [
    | yes same ↦
        let run : fill_gap xs pos size ≡ xs = ground arith in
        let at_end : get_elem? xs size ≡ some gone = ap (get_elem? xs) (sym same) ∙ at in
        rw run (record {
          same = λ p. omega (arith, tally-suc p size xs gone at_end);
          capacity = refl;
          keys = λ j p. ground (arith, same);
        })
    | no differ ↦
        let (e, at_end) = get_elem?-some xs size b in
        let run : fill_gap xs pos size ≡ set xs pos e =
          ground (arith, assign_lem xs pos xs size e at_end) in
        rw run (record {
          same = λ p. omega (
            arith,
            tally-suc p size xs e at_end,
            tally-set p size xs pos gone e at (omega (arith, differ)),
          );
          capacity = length-set xs pos e;
          keys = λ j p. ground (arith, key_at-set xs pos j e, key_at-some xs size e at_end);
        })
  ]
