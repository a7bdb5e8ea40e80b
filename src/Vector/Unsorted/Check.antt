-- ===== src/Vector/Unsorted/Check.antt =====
-- `verify` of vector_umfra.h, loop by loop. `fail()` is `false`, as in a release build.
use disco_skip.Prelude.{ℕ, zero, suc, ◌+◌, ◌-◌}
use disco_skip.Prelude.{Bool, true, false, not}
use disco_skip.Prelude.{List, ltb, leb, ◌==◌, if◌then◌else◌, ◌&&◌, ◌||◌}
use disco_skip.Vector.Slots.{Entry, key_at}
use disco_skip.Vector.Unsorted.{Vec, get_capacity}

module _ {V : Type 0} where
  -- The inner loop of the check for duplicated keys, from `j` on, and the outer one.
  unfoldable pub differs_loop : ℕ → List (Entry V) → ℕ → ℕ → Bool
  differs_loop zero xs i j = true
  differs_loop (suc n) xs i j =
      let rest = differs_loop n xs i (j + 1) in if key_at xs i == key_at xs j then false else rest

  unfoldable pub distinct_loop : ℕ → List (Entry V) → ℕ → Bool
  distinct_loop zero xs i = true
  distinct_loop (suc n) xs i =
      let rest = distinct_loop n xs (i + 1) in if differs_loop i xs i 0 then rest else false

  unfoldable pub between_loop : ℕ → List (Entry V) → ℕ → Bool
  between_loop zero xs i = true
  between_loop (suc n) xs i =
      let rest = between_loop n xs (i + 1) in
      if ltb (key_at xs i) (key_at xs 0) || ltb (key_at xs 1) (key_at xs i) then false else rest

  unfoldable pub verify : Vec V → Bool
  verify v =
      if ltb (get_capacity v) v.size
      then false
      else if get_capacity v == 1
      then true
      else if not (distinct_loop (v.size - 1) v.list 1)
      then false
      else if leb 2 v.size && ltb (key_at v.list 1) (key_at v.list 0)
      then false
      else between_loop (v.size - 2) v.list 2
