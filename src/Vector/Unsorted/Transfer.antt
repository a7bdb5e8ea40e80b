-- ===== src/Vector/Unsorted/Transfer.antt =====
-- The methods of vector_umfra.h that move entries between two vectors. A method takes this vector, then the
-- victim. `std::nth_element` is an argument: `nth_element first nth last xs` is the array after it has
-- reordered the range. CAPACITY is the length of either array.
use disco_skip.Prelude.{ℕ, zero, suc, ◌+◌, ◌-◌, ◌/◌, ◌&&◌, ◌||◌}
use disco_skip.Prelude.{Option, none, some, List, set}
use disco_skip.Prelude.{ltb, leb, ◌==◌, if◌then◌else◌}
use disco_skip.Vector.Slots.{Entry, key_at, assign, memcpy}
use disco_skip.Vector.Unsorted.{
  Vec, get_capacity, swap, restore_invariant, find_new_min, find_new_max, insert_asserting,
}

-- What the first loop of `split_insert` finds: the elements to steal, and the victim's new maximum.
pub record Scan : Type 0 where
  pub steal : ℕ
  pub max_pos : ℕ
  pub max_key : ℕ

module _ {V : Type 0} where
  unfoldable pub merge_many : Vec V → Vec V → Vec V
  merge_many v victim =
      let minimum = assign v.list v.size victim.list 0 in
      let size : ℕ = v.size + 1 in
      let moved = if leb 2 size then assign minimum size minimum 1 else minimum in
      let maximum = assign moved 1 victim.list 1 in
      record {
        list = memcpy (victim.size - 2) maximum (size + 1) victim.list 2;
        size = size + 1 + (victim.size - 2);
      }

  unfoldable pub merge : Vec V → Vec V → Option (Vec V × Vec V)
  merge v victim =
      let taken = record victim { size = 0 } in
      if victim.size == 0
      then some (v, victim)
      else if ltb (get_capacity v) (v.size + victim.size)
      then none
      else if get_capacity v == 1 || v.size == 0
      then (if v.size == 0
          then some (
            record { list = memcpy victim.size v.list 0 victim.list 0; size = victim.size },
            taken,
          )
          else none)
      else if victim.size == 1
      then some (
        record { list = assign (assign v.list v.size v.list 1) 1 victim.list 0; size = v.size + 1 },
        taken,
      )
      else some (merge_many v victim, taken)

  -- From `i` on, with the rounds left.
  unfoldable pub scan_loop : ℕ → List (Entry V) → ℕ → ℕ → Scan → Option Scan
  scan_loop zero xs k i seen = some seen
  scan_loop (suc n) xs k i seen =
      let counted : ℕ = if ltb k (key_at xs i) then seen.steal + 1 else seen.steal in
      let next : Scan =
        if ltb (key_at xs i) k && ltb seen.max_key (key_at xs i)
        then record { steal = counted; max_pos = i; max_key = key_at xs i }
        else record seen { steal = counted } in
      let rest = scan_loop n xs k (i + 1) next in if key_at xs i == k then none else rest

  unfoldable pub scan : Vec V → ℕ → Option Scan
  scan victim k =
      let lowest : ℕ = if ltb 0 victim.size && ltb k (key_at victim.list 0) then 1 else 0 in
      let highest : ℕ =
        if leb 2 (get_capacity victim) && ltb 1 victim.size && ltb k (key_at victim.list 1)
        then 1
        else 0 in
      scan_loop (victim.size - 2) victim.list k 2
        (record { steal = lowest + highest; max_pos = 0; max_key = key_at victim.list 0 })

  -- The loop that steals the keys above `k`. A round raises `i` or lowers the victim's size, so the size at
  -- the start is fuel enough.
  unfoldable pub part_loop : ℕ → Vec V → Vec V → ℕ → ℕ → Vec V × Vec V
  part_loop zero v victim k i = (v, victim)
  part_loop (suc n) v victim k i =
      let skipped = part_loop n v victim k (i + 1) in
      let shrunk = record victim { size = victim.size - 1 } in
      let from_end =
        part_loop n
          (record { list = assign v.list v.size victim.list (victim.size - 1); size = v.size + 1 })
          shrunk k i in
      let from_middle =
        part_loop n (record { list = assign v.list v.size victim.list i; size = v.size + 1 })
          (record shrunk { list = assign victim.list i victim.list (victim.size - 1) }) k (i + 1) in
      if ltb i victim.size
      then (if ltb (key_at victim.list i) k
          then skipped
          else if ltb k (key_at victim.list (victim.size - 1))
          then from_end
          else from_middle)
      else (v, victim)

  -- Edge case 2: all elements of the victim, of which there are `steal`.
  unfoldable pub steal_all : Vec V → Vec V → ℕ → Vec V × Vec V
  steal_all v victim steal = (
    record {
      list =
          if steal == 1
          then assign v.list 1 victim.list 0
          else memcpy (steal - 2) (assign (assign v.list 1 victim.list 1) 2 victim.list 0) 3
              victim.list 2;
      size = steal + 1;
    },
    record victim { size = 0 },
  )

  -- Edge case 3: all but the minimum.
  unfoldable pub steal_upper : Vec V → Vec V → ℕ → Vec V × Vec V
  steal_upper v victim steal = (
    record { list = memcpy steal v.list 1 victim.list 1; size = steal + 1 },
    record victim { size = 1 },
  )

  unfoldable pub steal_some : Vec V → Vec V → ℕ → ℕ → Vec V × Vec V
  steal_some v victim k max_pos =
      let moved = assign victim.list 1 victim.list max_pos in
      let size = victim.size - 1 in
      let filled = if max_pos == size then moved else assign moved max_pos moved size in
      part_loop size (record { list = assign v.list 1 victim.list 1; size = 2 })
        (record { list = filled; size = size }) k 2

  unfoldable pub split_insert : Vec V → Vec V → Entry V → Option (Vec V × Vec V)
  split_insert v victim pair = elim (scan victim pair.key) [
    | none ↦ none
    | some seen ↦
        let started = record v { list = set v.list 0 pair } in
        if ltb (get_capacity v) (seen.steal + 1)
        then none
        else if get_capacity v == 1 || seen.steal == 0
        then some (record started { size = 1 }, victim)
        else if seen.steal == victim.size
        then some (steal_all started victim seen.steal)
        else if seen.max_key == key_at victim.list 0
        then some (steal_upper started victim seen.steal)
        else some (steal_some started victim pair.key seen.max_pos)
  ]

  -- The victim's elements from `first_to_steal` on, and the victim without them.
  unfoldable pub steal_from : Vec V → Vec V → ℕ → Vec V × Vec V
  steal_from v victim first_to_steal =
      let entries_to_steal = victim.size - first_to_steal in
      (
        restore_invariant (record {
          list = memcpy entries_to_steal v.list 0 victim.list first_to_steal;
          size = entries_to_steal;
        }),
        record victim { size = first_to_steal },
      )

  -- Case 1 of `steal_half_and_insert`, after the copy: the pair goes into the victim.
  unfoldable pub insert_lower : Entry V → Vec V × Vec V → Option (Vec V × Vec V)
  insert_lower pair (v, victim) = elim (insert_asserting (find_new_max victim) pair) [
    | none ↦ none
    | some (_, victim') ↦ some (v, victim')
  ]

  -- Case 2: the pair goes into this vector.
  unfoldable pub insert_upper : Entry V → Vec V × Vec V → Option (Vec V × Vec V)
  insert_upper pair (v, victim) = elim (insert_asserting (find_new_min v) pair) [
    | none ↦ none
    | some (_, v') ↦ some (v', restore_invariant victim)
  ]

  module _ (nth_element : ℕ → ℕ → ℕ → List (Entry V) → List (Entry V)) where
    unfoldable pub quickselect_median : Vec V → Vec V
    quickselect_median v =
        if ltb 2 (get_capacity v) && ltb 2 v.size
        then record v {
          list = nth_element 1 (v.size / 2) (v.size - 1) (swap v.list 1 (v.size - 1));
        }
        else v

    unfoldable pub steal_half : Vec V → Vec V → Vec V × Vec V
    steal_half v victim =
        let halved = quickselect_median victim in
        let (v', victim') = steal_from v halved (halved.size / 2) in (v', find_new_max victim')

    unfoldable pub steal_half_and_insert : Vec V → Vec V → Entry V → Option (Vec V × Vec V)
    steal_half_and_insert v victim pair =
        let halved = quickselect_median victim in
        let median_pos : ℕ = halved.size / 2 in
        let case1 = insert_lower pair (steal_from v halved median_pos) in
        let case2 = insert_upper pair (steal_from v halved (median_pos + 1)) in
        if ltb pair.key (key_at halved.list median_pos) then case1 else case2
