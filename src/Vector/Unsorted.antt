-- ===== src/Vector/Unsorted.antt =====
-- `vector_umfra`, the unsorted vector of disco-skip/include/include-cache/vector/vector_umfra.h. A
-- method takes the state of each vector that it touches and returns the new ones beside its result;
-- `none` is a failed assertion or an exception. CAPACITY is
-- the length of the array, and sizes stay below it, so no sum wraps. The children Transfer and Visit have
-- the methods that move entries between two vectors and those that call a function.
use disco_skip.Prelude.{ℕ, zero, suc, ◌+◌, ◌-◌, ◌/◌, Bool, true, false, not, ◌&&◌, ◌||◌}
use disco_skip.Prelude.{Option, none, some, List, length, get_elem?, set}
use disco_skip.Prelude.{ltb, leb, ◌==◌, if◌then◌else◌}
use disco_skip.Vector.Slots.{Entry, key_at, assign, memcpy}
pub mod Tracked
pub mod Insert
pub mod Extremes
pub mod Gaps
pub mod Remove
pub mod Lookup
pub mod Check
pub mod Verify
pub mod Transfer
pub mod Copies
pub mod MergeCases
pub mod Merge
pub mod Scan
pub mod PartRuns
pub mod Part
pub mod Divided
pub mod StealAll
pub mod StealSome
pub mod StealPart
pub mod Restore
pub mod Halving
pub mod Shares
pub mod StealHalf
pub mod StealInsert
pub mod SplitInsert
pub mod Visit
pub mod Order
mod SortRange
mod Tests

pub record Vec (V : Type 0) : Type 0 where
  pub list : List (Entry V)
  pub size : ℕ

abbrev pub is_found : Option ℕ → Bool
is_found none = false
is_found (some pos) = true

module _ {V : Type 0} where
  abbrev pub get_capacity : Vec V → ℕ
  get_capacity v = length v.list

  -- The loop of `find` from `i` on, with the rounds left.
  unfoldable pub find_loop : ℕ → List (Entry V) → ℕ → ℕ → Option ℕ
  find_loop zero xs k i = none
  find_loop (suc n) xs k i =
      let rest = find_loop n xs k (i + 1) in if key_at xs i == k then some i else rest

  unfoldable pub find : Vec V → ℕ → Option ℕ
  find v k = find_loop v.size v.list k 0

  unfoldable pub swap : List (Entry V) → ℕ → ℕ → List (Entry V)
  swap xs n m =
      if n == m
      then xs
      else elim (get_elem? xs n) [ none ↦ xs | some e ↦ set (assign xs n xs m) m e ]

  unfoldable pub restore_invariant : Vec V → Vec V
  restore_invariant v =
      if ltb 2 (get_capacity v) && ltb 2 v.size
      then record v { list = swap v.list 1 (v.size - 1) }
      else v

  -- The search for a smaller key from `i` on, with the rounds left: the position of the least key.
  unfoldable pub min_loop : ℕ → List (Entry V) → ℕ → ℕ → ℕ → ℕ
  min_loop zero xs i min_pos min_k = min_pos
  min_loop (suc n) xs i min_pos min_k =
      let lower = min_loop n xs (i + 1) i (key_at xs i) in
      let same = min_loop n xs (i + 1) min_pos min_k in
      if ltb (key_at xs i) min_k then lower else same

  unfoldable pub max_loop : ℕ → List (Entry V) → ℕ → ℕ → ℕ → ℕ
  max_loop zero xs i max_pos max_k = max_pos
  max_loop (suc n) xs i max_pos max_k =
      let higher = max_loop n xs (i + 1) i (key_at xs i) in
      let same = max_loop n xs (i + 1) max_pos max_k in
      if ltb max_k (key_at xs i) then higher else same

  unfoldable pub find_new_min : Vec V → Vec V
  find_new_min v =
      let min_pos = min_loop (v.size - 2) v.list 2 0 (key_at v.list 0) in
      if leb (get_capacity v) 2 || leb v.size 2
      then v
      else record v { list = swap v.list 0 min_pos }

  unfoldable pub find_new_max : Vec V → Vec V
  find_new_max v =
      let max_pos = max_loop (v.size - 2) v.list 2 1 (key_at v.list 1) in
      if leb (get_capacity v) 2 || leb v.size 2
      then v
      else record v { list = swap v.list 1 max_pos }

  -- The array after the insertion of a new key.
  unfoldable pub placed : Vec V → Entry V → List (Entry V)
  placed v pair =
      if leb 1 (get_capacity v) && leb 1 v.size && ltb pair.key (key_at v.list 0)
      then set (assign v.list v.size v.list 0) 0 pair
      else if leb 2 (get_capacity v) && leb 2 v.size && ltb (key_at v.list 1) pair.key
      then set (assign v.list v.size v.list 1) 1 pair
      else set v.list v.size pair

  -- `insert(pair, overfull)`: the result, what `overfull` then is, and the vector.
  unfoldable pub insert : Vec V → Entry V → Bool → Bool × Bool × Vec V
  insert v pair overfull =
      if is_found (find v pair.key)
      then (false, overfull, v)
      else if v.size == get_capacity v
      then (false, true, v)
      else (true, overfull, record { list = placed v pair; size = v.size + 1 })

  -- `insert(pair)`, which asserts that there was room.
  unfoldable pub insert_asserting : Vec V → Entry V → Option (Bool × Vec V)
  insert_asserting v pair =
      let (result, overfull, v') = insert v pair false in
      if overfull then none else some (result, v')

  abbrev pub read_value : List (Entry V) → ℕ → Option V
  read_value xs i = elim (get_elem? xs i) [ none ↦ none | some e ↦ some e.val ]

  -- The last element goes into the gap at `pos`.
  unfoldable pub fill_gap : List (Entry V) → ℕ → ℕ → List (Entry V)
  fill_gap xs pos size = if pos == size then xs else assign xs pos xs size

  -- An end of the range, at slot `slot`, becomes the element at `pos`.
  abbrev pub promote : Vec V → ℕ → ℕ → Vec V
  promote v slot pos = record {
    list = fill_gap (assign v.list slot v.list pos) pos (v.size - 1);
    size = v.size - 1;
  }

  unfoldable pub remove_min : Vec V → Vec V
  remove_min v =
      if v.size == 1
      then record v { size = 0 }
      else promote v 0 (min_loop (v.size - 2) v.list 2 1 (key_at v.list 1))

  unfoldable pub remove_max : Vec V → Vec V
  remove_max v =
      if v.size == 2
      then record v { size = 1 }
      else promote v 1 (max_loop (v.size - 3) v.list 3 2 (key_at v.list 2))

  -- `none` beside the vector stands for the result `false`.
  unfoldable pub remove : Vec V → ℕ → Option V × Vec V
  remove v k =
      if leb 1 v.size && k == key_at v.list 0
      then (read_value v.list 0, remove_min v)
      else if leb 2 (get_capacity v) && leb 2 v.size && k == key_at v.list 1
      then (read_value v.list 1, remove_max v)
      else elim (find v k) [
        | none ↦ (none, v)
        | some pos ↦ (
          read_value v.list pos,
          record { list = fill_gap v.list pos (v.size - 1); size = v.size - 1 },
        )
      ]

  unfoldable pub contains : Vec V → ℕ → Option V
  contains v k = elim (find v k) [ none ↦ none | some pos ↦ read_value v.list pos ]

  unfoldable pub contains_key : Vec V → ℕ → Bool
  contains_key v k = is_found (find v k)

  -- Junk (here 0) for an empty vector.
  unfoldable pub first : Vec V → ℕ
  first v = key_at v.list 0

  unfoldable pub last : Vec V → Option ℕ
  last v =
      if leb 2 v.size
      then some (key_at v.list 1)
      else if v.size == 1
      then some (key_at v.list 0)
      else none

  unfoldable pub max_key : Vec V → Option ℕ
  max_key v =
      if v.size == 0
      then none
      else if v.size == 1
      then some (key_at v.list 0)
      else some (key_at v.list 1)

  -- Of a sorted vector.
  unfoldable pub at : Vec V → ℕ → Option ℕ
  at v index =
      if leb v.size index
      then none
      else if index == 0
      then some (key_at v.list 0)
      else if index == v.size - 1
      then some (key_at v.list 1)
      else some (key_at v.list (index + 1))

  -- The second loop of `find_lte`, with the found position and key.
  unfoldable pub lte_loop : ℕ → List (Entry V) → ℕ → ℕ → ℕ → ℕ → ℕ
  lte_loop zero xs sought i found_pos found_k = found_pos
  lte_loop (suc n) xs sought i found_pos found_k =
      let higher = lte_loop n xs sought (i + 1) i (key_at xs i) in
      let same = lte_loop n xs sought (i + 1) found_pos found_k in
      if ltb found_k (key_at xs i) && leb (key_at xs i) sought then higher else same

  -- The first loop, and the second from the same `i`; `capacity` is the position while none is found.
  unfoldable pub lte_first_loop : ℕ → List (Entry V) → ℕ → ℕ → ℕ
  lte_first_loop zero xs sought i = length xs
  lte_first_loop (suc n) xs sought i =
      let rest = lte_first_loop n xs sought (i + 1) in
      let found = lte_loop (suc n) xs sought i i (key_at xs i) in
      if leb (key_at xs i) sought then found else rest

  -- The found key and value travel as the entry that holds them.
  unfoldable pub find_lte : Vec V → ℕ → Option (Entry V)
  find_lte v sought =
      let found_pos = lte_first_loop v.size v.list sought 0 in
      if ltb found_pos (get_capacity v) then get_elem? v.list found_pos else none
