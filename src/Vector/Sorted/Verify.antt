-- ===== src/Vector/Sorted/Verify.antt =====
-- `verify`, `first`, `last`, `max_key` and `at` of vector_sfra.h.
use disco_skip.Prelude.{ℕ, zero, suc, ◌+◌, ◌-◌, ◌≤◌, ◌<◌, ◌≡◌, ◌↔◌, refl}
use disco_skip.Prelude.{arith, ℕ_discrete, true, some}
use disco_skip.Prelude.{List}
use disco_skip.Vector.Slots.{Entry, key_at}
use disco_skip.Vector.Sorted.{Vec}
use disco_skip.Vector.Sorted.{first, last, max_key, at}
use disco_skip.Vector.Sorted.Find.{IsValid}
use disco_skip.Vector.Sorted.{verify, verify_loop}

module _ {V : Type 0} where
  verify_loop_sound :
      (rounds : ℕ) (xs : List (Entry V)) (i j : ℕ)
      → verify_loop rounds xs i ≡ true
      → i ≤ j
      → j < i + rounds
      → key_at xs (j - 1) < key_at xs j
  unfolding verify_loop
  verify_loop_sound zero xs i j e h p = absurd (omega arith)
  verify_loop_sound (suc rounds) xs i j e h p = elim (ℕ_discrete i j) [
    | yes here ↦ ground arith
    | no later ↦ ground (arith, verify_loop_sound rounds xs (i + 1) j)
  ]

  verify_loop_complete :
      (rounds : ℕ) (xs : List (Entry V)) (i : ℕ)
      → ((j : ℕ) → i ≤ j → j < i + rounds → key_at xs (j - 1) < key_at xs j)
      → verify_loop rounds xs i ≡ true
  unfolding verify_loop
  verify_loop_complete zero xs i h = refl
  verify_loop_complete (suc rounds) xs i h = ground (
    arith,
    h i (omega arith) (omega arith),
    verify_loop_complete rounds xs (i + 1)
        (λ (j : ℕ) (p : i + 1 ≤ j) (q : j < i + 1 + rounds). h j (omega arith) (omega arith)),
  )

  -- Neighbours in order make the whole prefix ascending.
  neighbours-ascending :
      (xs : List (Entry V)) (n : ℕ)
      → ((j : ℕ) → 1 ≤ j → j < n → key_at xs (j - 1) < key_at xs j)
      → (i j : ℕ) → i < j
      → j < n
      → key_at xs i < key_at xs j
  neighbours-ascending xs n h i zero p q = absurd (omega arith)
  neighbours-ascending xs n h i (suc j) p q =
      let step : key_at xs j < key_at xs (suc j) = ground (arith, h (suc j) (omega arith) q) in
      elim (ℕ_discrete i j) [
        | yes here ↦ ground arith
        | no earlier ↦
            omega (arith, step, neighbours-ascending xs n h i j (omega arith) (omega arith))
      ]

  -- `verify` returns true exactly when the vector is valid.
  pub verify_iff : (v : Vec V) → (verify v ≡ true) ↔ IsValid v
  unfolding verify
  verify_iff v = (
    λ e. record {
      fits = ground arith;
      ascending =
          neighbours-ascending v.list v.size
            (λ j p q. verify_loop_sound (v.size - 1) v.list 1 j (ground arith) p (omega arith));
    },
    λ valid. ground (
      arith,
      valid.fits,
      verify_loop_complete (v.size - 1) v.list 1 (λ (j : ℕ) (p : 1 ≤ j) (q : j < 1 + (v.size - 1)).
          valid.ascending (j - 1) j (omega arith) (omega arith)),
    ),
  )

  -- On a valid vector that is not empty, `last`, `max_key` and `at` at the last index return one and
  -- the same key, `at` at index 0 returns that of `first`, and the key at any index below the size
  -- lies between these two.
  pub ends_bound :
      (v : Vec V)
      → IsValid v
      → (i : ℕ) → i < v.size
      → (k : ℕ) × (last v ≡ some k)
        × (max_key v ≡ some k)
        × (at v (v.size - 1) ≡ some k)
        × (at v 0 ≡ some (first v))
        × (first v ≤ key_at v.list i)
        × (key_at v.list i ≤ k)
  unfolding last max_key at first
  ends_bound v valid i p = (
    key_at v.list (v.size - 1),
    ground arith,
    ground arith,
    ground arith,
    ground arith,
    ground (arith, valid.ascending 0 i),
    ground (arith, valid.ascending i (v.size - 1)),
  )
