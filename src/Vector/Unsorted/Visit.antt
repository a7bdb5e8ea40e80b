-- ===== src/Vector/Unsorted/Visit.antt =====
-- `sort`, `for_each` and `range` of vector_umfra.h. `std::sort` is an argument: `std_sort first last xs` is the
-- array after it has sorted the range. The callback takes the caller's state, a key, a value and
-- `exit_flag`, and returns the new state, value and flag.
use disco_skip.Prelude.{ℕ, zero, suc, ◌+◌, ◌-◌, Bool, true, false, not, ◌&&◌}
use disco_skip.Prelude.{none, some, List, get_elem?, set, ltb, ◌==◌, if◌then◌else◌}
use disco_skip.Vector.Slots.{Entry, key_at}
use disco_skip.Vector.Unsorted.{Vec, get_capacity}

-- The caller's state, the array and `exit_flag`.
pub record Visit (S V : Type 0) : Type 0 where
  pub state : S
  pub list : List (Entry V)
  pub exit_flag : Bool

module _ {V : Type 0} where
  unfoldable pub sort : (ℕ → ℕ → List (Entry V) → List (Entry V)) → Vec V → Vec V
  sort std_sort v =
      if ltb 3 (get_capacity v) && ltb 3 v.size
      then record v { list = std_sort 2 v.size v.list }
      else v

module _ {S V : Type 0} (f : S → ℕ → V → Bool → S × V × Bool) where
  unfoldable pub iterate_element : Visit S V → ℕ → Visit S V
  iterate_element u i = elim (get_elem? u.list i) [
    | none ↦ u
    | some e ↦
        let (s', val', flag') = f u.state e.key e.val u.exit_flag in
        record { state = s'; list = set u.list i (record e { val = val' }); exit_flag = flag' }
  ]

  -- The loop of `for_each` from `i` on, with the rounds left.
  unfoldable pub for_each_loop : ℕ → Visit S V → ℕ → Visit S V
  for_each_loop zero u i = u
  for_each_loop (suc n) u i =
      let rest = for_each_loop n (iterate_element u i) (i + 1) in if u.exit_flag then u else rest

  unfoldable pub for_each : (ℕ → ℕ → List (Entry V) → List (Entry V)) → S → Vec V → Bool → Visit S V
  for_each std_sort s v exit_flag =
      let sorted = sort std_sort v in
      let u : Visit S V = record { state = s; list = sorted.list; exit_flag = exit_flag } in
      let u1 = if ltb 0 v.size && not u.exit_flag then iterate_element u 0 else u in
      let u2 = for_each_loop (v.size - 2) u1 2 in
      if ltb 1 v.size && not u2.exit_flag then iterate_element u2 1 else u2

  module _ (from to : ℕ) where
    unfoldable pub iterate_element_range1 : Visit S V → ℕ → Bool × Visit S V
    iterate_element_range1 u i =
        let done = iterate_element u i in
        if ltb (key_at u.list i) from
        then (false, u)
        else if ltb to (key_at u.list i)
        then (true, record u { exit_flag = true })
        else (true, if key_at done.list i == to then record done { exit_flag = true } else done)

    unfoldable pub iterate_element_range2 : Visit S V → ℕ → Visit S V
    iterate_element_range2 u i =
        let done =
          iterate_element (if ltb to (key_at u.list i) then record u { exit_flag = true } else u)
            i in
        if key_at done.list i == to then record done { exit_flag = true } else done

    unfoldable pub range2_loop : ℕ → Visit S V → ℕ → Visit S V
    range2_loop zero u i = u
    range2_loop (suc n) u i =
        let rest = range2_loop n (iterate_element_range2 u i) (i + 1) in
        if u.exit_flag then u else rest

    -- The first loop of `range` from `i` on, with the rounds left, and then the second.
    unfoldable pub range1_loop : ℕ → Bool → Visit S V → ℕ → Visit S V
    range1_loop zero from_reached u i = u
    range1_loop (suc n) from_reached u i =
        let (from_reached', u') = iterate_element_range1 u i in
        let rest = range1_loop n from_reached' u' (i + 1) in
        let second = range2_loop (suc n) u i in
        if u.exit_flag then u else if from_reached then second else rest

    -- The result is the flag.
    unfoldable pub range : (ℕ → ℕ → List (Entry V) → List (Entry V)) → S → Vec V → Bool → Visit S V
    range std_sort s v exit_flag =
        let sorted = sort std_sort v in
        let u : Visit S V = record { state = s; list = sorted.list; exit_flag = exit_flag } in
        let (from_reached, u1) =
          if ltb 0 v.size && not exit_flag then iterate_element_range1 u 0 else (false, u) in
        let u2 = range1_loop (v.size - 2) from_reached u1 2 in
        if ltb 1 v.size && not u2.exit_flag then (iterate_element_range1 u2 1).1 else u2
