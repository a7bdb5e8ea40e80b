-- ===== src/Vector/Sorted/Visit.antt =====
-- `for_each` and `range` of vector_sfra.h. The callback takes the caller's state, a key and a value,
-- and returns the new state, the new value and whether it set `exit_flag`, which is clear when it is
-- called: a flag that is set on entry lets no round run. The list is the array from the loop's index on, and the number is the rounds left, so that
-- index + rounds is `size`.
use disco_skip.Prelude.{ℕ, zero, suc, Bool, true, false, List, [], ◌∷◌, ltb, if◌then◌else◌}
use disco_skip.Vector.Slots.{Entry}
use disco_skip.Vector.Sorted.{Vec}
pub mod Range
pub mod ForEach

module _ {S V : Type 0} (f : S → ℕ → V → S × V × Bool) where
  unfoldable pub for_each_loop : ℕ → S → List (Entry V) → S × List (Entry V) × Bool
  for_each_loop zero s xs = (s, xs, false)
  for_each_loop (suc n) s [] = (s, [], false)
  for_each_loop (suc n) s (e ∷ xs) =
      let (s', val', stop) = f s e.key e.val in
      let rest = for_each_loop n s' xs in
      if stop
      then (s', record e { val = val' } ∷ xs, true)
      else (rest.0, record e { val = val' } ∷ rest.1, rest.2)

  unfoldable pub for_each : S → Vec V → Bool → S × Vec V × Bool
  for_each s v exit_flag =
      let (s', list', stop) = for_each_loop v.size s v.list in
      if exit_flag then (s, v, true) else (s', record v { list = list' }, stop)

  module _ (from to : ℕ) where
    -- The second loop of `range`: the state, the array, the result and `exit_flag`.
    unfoldable pub range_loop : ℕ → S → List (Entry V) → S × List (Entry V) × Bool × Bool
    range_loop zero s xs = (s, xs, false, false)
    range_loop (suc n) s [] = (s, [], false, false)
    range_loop (suc n) s (e ∷ xs) =
        let (s', val', stop) = f s e.key e.val in
        let rest = range_loop n s' xs in
        if ltb to e.key
        then (s, e ∷ xs, true, false)
        else if stop
        then (s', record e { val = val' } ∷ xs, false, true)
        else (rest.0, record e { val = val' } ∷ rest.1, rest.2, rest.3)

    -- The first loop, which skips the keys below `from`, and then the second.
    unfoldable pub skip_loop : ℕ → S → List (Entry V) → S × List (Entry V) × Bool × Bool
    skip_loop zero s xs = (s, xs, false, false)
    skip_loop (suc n) s [] = (s, [], false, false)
    skip_loop (suc n) s (e ∷ xs) =
        let rest = skip_loop n s xs in
        if ltb e.key from
        then (rest.0, e ∷ rest.1, rest.2, rest.3)
        else range_loop (suc n) s (e ∷ xs)

    unfoldable pub range : S → Vec V → Bool → S × Vec V × Bool × Bool
    range s v exit_flag =
        let (s', list', result, stop) = skip_loop v.size s v.list in
        if exit_flag then (s, v, false, true) else (s', record v { list = list' }, result, stop)
