-- ===== src/Vector/Sorted/Shift.antt =====
-- The loops of vector_sfra.h that move entries by one slot, seen slot by slot.
use disco_skip.Prelude.{ℕ, zero, suc, ◌+◌, ◌-◌, ◌≤◌, ◌<◌, ◌≡◌, refl, ◌∙◌, arith}
use disco_skip.Prelude.{List, ltb, leb, if◌then◌else◌, ◌&&◌, length, get_elem?}
use disco_skip.Vector.Slots.{Entry, assign, length-assign, get_elem?-assign}
use disco_skip.Vector.Sorted.{shift_up, shift_down}

module _ {V : Type 0} where
  pub length-shift_up : (n : ℕ) (xs : List (Entry V)) (i : ℕ) → length (shift_up n xs i) ≡ length xs
  unfolding shift_up
  length-shift_up zero xs i = refl
  length-shift_up (suc n) xs i =
      length-shift_up n (assign xs i xs (i - 1)) (i - 1) ∙ length-assign xs i xs (i - 1)

  pub get_elem?-shift_up :
      (n : ℕ) (xs : List (Entry V)) (i j : ℕ)
      → n ≤ i
      → i < length xs
      → get_elem? (shift_up n xs i) j
        ≡ (if ltb (i - n) j && leb j i then get_elem? xs (j - 1) else get_elem? xs j)
  unfolding shift_up
  get_elem?-shift_up zero xs i j h b = ground arith
  get_elem?-shift_up (suc n) xs i j h b = ground (
    arith,
    length-assign xs i xs (i - 1),
    get_elem?-assign xs i xs (i - 1) j,
    get_elem?-assign xs i xs (i - 1) (j - 1),
    get_elem?-shift_up n (assign xs i xs (i - 1)) (i - 1) j,
  )

  pub length-shift_down :
      (n : ℕ) (xs : List (Entry V)) (i : ℕ) → length (shift_down n xs i) ≡ length xs
  unfolding shift_down
  length-shift_down zero xs i = refl
  length-shift_down (suc n) xs i =
      length-shift_down n (assign xs i xs (i + 1)) (i + 1) ∙ length-assign xs i xs (i + 1)

  pub get_elem?-shift_down :
      (n : ℕ) (xs : List (Entry V)) (i j : ℕ)
      → i + n < length xs
      → get_elem? (shift_down n xs i) j
        ≡ (if leb i j && ltb j (i + n) then get_elem? xs (j + 1) else get_elem? xs j)
  unfolding shift_down
  get_elem?-shift_down zero xs i j b = ground arith
  get_elem?-shift_down (suc n) xs i j b = ground (
    arith,
    length-assign xs i xs (i + 1),
    get_elem?-assign xs i xs (i + 1) j,
    get_elem?-assign xs i xs (i + 1) (j + 1),
    get_elem?-shift_down n (assign xs i xs (i + 1)) (i + 1) j,
  )
