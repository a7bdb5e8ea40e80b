-- ===== src/Vector/Sorted/Room.antt =====
-- The capacities that the splits of vector_sfra.h keep.
use disco_skip.Prelude.{ℕ, ◌-◌, ◌≡◌, refl}
use disco_skip.Prelude.{arith, Bool, some}
use disco_skip.Prelude.{set, length-set}
use disco_skip.Vector.Slots.{Entry}
use disco_skip.Vector.Slots.{length-memcpy}
use disco_skip.Vector.Sorted.{Vec, get_capacity, find, split_insert, split_at, steal_half}

module _ {V : Type 0} (v w : Vec V) where
  pub steal_half-capacity : get_capacity (steal_half v w).1 ≡ get_capacity w
  unfolding steal_half
  steal_half-capacity = refl

  pub split_insert-capacity :
      {v' w' : Vec V} (e : Entry V)
      → split_insert v w e ≡ some (v', w')
      → (get_capacity v' ≡ get_capacity v) × (get_capacity w' ≡ get_capacity w)
  unfolding split_insert
  split_insert-capacity e h =
      let pos = find w e.key in
      ground
        (arith, length-memcpy (w.size - pos) (set v.list 0 e) 1 w.list pos, length-set v.list 0 e)

  pub split_at-capacity :
      {moved : Bool} {v' w' : Vec V} (k : ℕ)
      → split_at v w k ≡ some (moved, v', w')
      → (get_capacity v' ≡ get_capacity v) × (get_capacity w' ≡ get_capacity w)
  unfolding split_at
  split_at-capacity k h =
      let pos = find w k in ground (arith, length-memcpy (w.size - pos) v.list 0 w.list pos)
