-- ===== src/Vector/Sorted.antt =====
-- `vector_sfra`, the sorted vector of disco-skip/include/include-cache/vector/vector_sfra.h. A method
-- takes the state of each vector that it touches and returns the new ones beside its result;
-- `none` is a failed assertion or an exception. The loop variables of `for_each` and `range` are
-- arguments. CAPACITY is the length of the array, and sizes stay below it, so no sum wraps.
use disco_skip.Prelude.{ℕ, zero, suc, ◌+◌, ◌-◌, ◌/◌, Bool, true, false, not, ◌&&◌, ◌||◌}
use disco_skip.Prelude.{Option, none, some, List, length, get_elem?, set}
use disco_skip.Prelude.{ltb, leb, ◌==◌, if◌then◌else◌}
use disco_skip.Vector.Slots.{Entry, key_at, assign, memcpy}
pub mod Find
pub mod Shift
pub mod Place
pub mod Insert
pub mod Remove
pub mod Split
pub mod Steal
pub mod Halve
pub mod Room
pub mod Visit
pub mod Verify
mod Tests

pub record Vec (V : Type 0) : Type 0 where
  pub list : List (Entry V)
  pub size : ℕ

module _ {V : Type 0} where
  abbrev pub get_capacity : Vec V → ℕ
  get_capacity v = length v.list

  -- The binary search of `find`. The argument `right` is the source's `right + 1`, which is -1 + 1
  -- for an empty range. A round shrinks the range, so the width of the first range is fuel enough.
  unfoldable pub find_loop : ℕ → List (Entry V) → ℕ → ℕ → ℕ → ℕ
  find_loop zero xs k left right = left
  find_loop (suc rounds) xs k left right =
      let mid : ℕ = left + (right - 1 - left) / 2 in
      let lower = find_loop rounds xs k left mid in
      let upper = find_loop rounds xs k (mid + 1) right in
      if ltb left right
      then (if key_at xs mid == k then mid else if ltb k (key_at xs mid) then lower else upper)
      else left

  unfoldable pub find : Vec V → ℕ → ℕ
  find v k = find_loop v.size v.list k 0 v.size

  -- `for (i = from; n rounds; --i) list[i] = list[i - 1]`
  unfoldable pub shift_up : ℕ → List (Entry V) → ℕ → List (Entry V)
  shift_up zero xs i = xs
  shift_up (suc n) xs i = shift_up n (assign xs i xs (i - 1)) (i - 1)

  -- `for (i = from; n rounds; ++i) list[i] = list[i + 1]`
  unfoldable pub shift_down : ℕ → List (Entry V) → ℕ → List (Entry V)
  shift_down zero xs i = xs
  shift_down (suc n) xs i = shift_down n (assign xs i xs (i + 1)) (i + 1)

  -- `insert(pair, overfull)`: the result, `overfull`, and the vector.
  unfoldable pub insert : Vec V → Entry V → Bool × Bool × Vec V
  insert v pair =
      let pos = find v pair.key in
      if ltb pos v.size && key_at v.list pos == pair.key
      then (false, false, v)
      else if v.size == get_capacity v
      then (false, true, v)
      else (
        true,
        false,
        record v { list = set (shift_up (v.size - pos) v.list v.size) pos pair; size = v.size + 1 },
      )

  -- `insert(pair)`, which asserts that there was room.
  unfoldable pub insert_asserting : Vec V → Entry V → Option (Bool × Vec V)
  insert_asserting v pair =
      let (result, overfull, v') = insert v pair in if overfull then none else some (result, v')

  -- `none` beside the vector stands for the result `false`.
  unfoldable pub remove : Vec V → ℕ → Option V × Vec V
  remove v k =
      let pos = find v k in
      if leb v.size pos || not (key_at v.list pos == k) then (none, v) else (
        elim (get_elem? v.list pos) [ none ↦ none | some e ↦ some e.val ],
        record v { list = shift_down (v.size - 1 - pos) v.list pos; size = v.size - 1 },
      )

  unfoldable pub contains : Vec V → ℕ → Option V
  contains v k =
      let pos = find v k in
      if ltb pos v.size && key_at v.list pos == k
      then (elim (get_elem? v.list pos) [ none ↦ none | some e ↦ some e.val ])
      else none

  unfoldable pub contains_key : Vec V → ℕ → Bool
  contains_key v k = let pos = find v k in ltb pos v.size && key_at v.list pos == k

  -- Junk (here 0) for an empty vector.
  unfoldable pub first : Vec V → ℕ
  first v = key_at v.list 0

  unfoldable pub last : Vec V → Option ℕ
  last v = if ltb 0 v.size then some (key_at v.list (v.size - 1)) else none

  unfoldable pub max_key : Vec V → Option ℕ
  max_key v = if v.size == 0 then none else some (key_at v.list (v.size - 1))

  unfoldable pub at : Vec V → ℕ → Option ℕ
  at v index = if ltb index v.size then some (key_at v.list index) else none

  -- The found key and value travel as the entry that holds them.
  unfoldable pub find_lte : Vec V → ℕ → Option (Entry V)
  find_lte v sought =
      let pos = find v sought in
      if v.size == 0
      then none
      else if leb v.size pos || ltb sought (key_at v.list pos)
      then (if pos == 0 then none else get_elem? v.list (pos - 1))
      else get_elem? v.list pos

  -- The methods below take this vector, then the victim.
  unfoldable pub merge : Vec V → Vec V → Option (Vec V × Vec V)
  merge v victim =
      if leb (v.size + victim.size) (get_capacity v)
      then some (
        record {
          list = memcpy victim.size v.list v.size victim.list 0;
          size = v.size + victim.size;
        },
        record victim { size = 0 },
      )
      else none

  unfoldable pub split_insert : Vec V → Vec V → Entry V → Option (Vec V × Vec V)
  split_insert v victim pair =
      let start_pos = find victim pair.key in
      let entries_to_steal = victim.size - start_pos in
      if (leb victim.size start_pos || not (key_at victim.list start_pos == pair.key))
        && leb (entries_to_steal + 1) (get_capacity v)
      then some (
        record {
          list = memcpy entries_to_steal (set v.list 0 pair) 1 victim.list start_pos;
          size = 1 + entries_to_steal;
        },
        record victim { size = victim.size - entries_to_steal },
      )
      else none

  unfoldable pub split_at : Vec V → Vec V → ℕ → Option (Bool × Vec V × Vec V)
  split_at v victim k =
      let start_pos = find victim k in
      let entries_to_steal = victim.size - start_pos in
      if leb victim.size start_pos
      then some (false, v, victim)
      else if leb entries_to_steal (get_capacity v)
      then some (
        true,
        record {
          list = memcpy entries_to_steal v.list 0 victim.list start_pos;
          size = entries_to_steal;
        },
        record victim { size = victim.size - entries_to_steal },
      )
      else none

  unfoldable pub steal_half : Vec V → Vec V → Vec V × Vec V
  steal_half v victim =
      let first_to_steal : ℕ = victim.size / 2 in
      let entries_to_steal = victim.size - first_to_steal in
      (
        record {
          list = memcpy entries_to_steal v.list 0 victim.list first_to_steal;
          size = entries_to_steal;
        },
        record victim { size = first_to_steal },
      )

  -- Case 1 of `steal_half_and_insert`: the pair goes into what is left of the victim.
  unfoldable pub steal_then_insert : Vec V → Vec V → Entry V → ℕ → Option (Vec V × Vec V)
  steal_then_insert v victim pair first_to_steal =
      let entries_to_steal = victim.size - first_to_steal in
      elim (insert_asserting (record victim { size = first_to_steal }) pair) [
        | none ↦ none
        | some (_, victim') ↦ some (
          record {
            list = memcpy entries_to_steal v.list 0 victim.list first_to_steal;
            size = entries_to_steal;
          },
          victim',
        )
      ]

  -- Case 2: the pair goes between two batches of stolen entries.
  unfoldable pub steal_around : Vec V → Vec V → Entry V → ℕ → ℕ → Vec V × Vec V
  steal_around v victim pair first_to_steal insert_pos =
      let entries_to_steal = victim.size - first_to_steal in
      let first_batch_size = insert_pos - first_to_steal in
      let second_batch_size = entries_to_steal - first_batch_size in
      let copied = memcpy first_batch_size v.list 0 victim.list first_to_steal in
      (
        record {
          list =
              memcpy second_batch_size (set copied first_batch_size pair) (first_batch_size + 1)
                victim.list (first_to_steal + first_batch_size);
          size = entries_to_steal + 1;
        },
        record victim { size = victim.size - entries_to_steal },
      )

  unfoldable pub steal_half_and_insert : Vec V → Vec V → Entry V → Option (Vec V × Vec V)
  steal_half_and_insert v victim pair =
      let insert_pos = find victim pair.key in
      let median_pos : ℕ = victim.size / 2 in
      if leb victim.size insert_pos || not (key_at victim.list insert_pos == pair.key)
      then (if leb insert_pos median_pos
          then steal_then_insert v victim pair median_pos
          else some (steal_around v victim pair (median_pos + 1) insert_pos))
      else none

  -- The loop of `verify` from index `i` on. `fail()` is `false`, as in a release build.
  unfoldable pub verify_loop : ℕ → List (Entry V) → ℕ → Bool
  verify_loop zero xs i = true
  verify_loop (suc rounds) xs i =
      let rest = verify_loop rounds xs (i + 1) in
      if leb (key_at xs i) (key_at xs (i - 1)) then false else rest

  unfoldable pub verify : Vec V → Bool
  verify v = if ltb (get_capacity v) v.size then false else verify_loop (v.size - 1) v.list 1
