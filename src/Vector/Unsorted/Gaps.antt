-- ===== src/Vector/Unsorted/Gaps.antt =====
-- An element of the unsorted vector of vector_umfra.h taken out, and one put in the place of another.
use disco_skip.Prelude.{ℕ, suc, ◌+◌, ◌-◌, ◌≤◌, ◌<◌, ◌≡◌, ◌∙◌}
use disco_skip.Prelude.{ap, arith, some}
use disco_skip.Prelude.{◌∷◌, ◌==◌, if◌then◌else◌}
use disco_skip.Prelude.{get_elem?, set, take, length-set, get_elem?-set}
use disco_skip.Prelude.{get_elem?-some}
use disco_skip.Vector.Slots.{Entry, key_at, assign}
use disco_skip.Prelude.{get_elem?-some}
use disco_skip.Vector.Counts.{tally, tally-set, SameEntries}
use disco_skip.Vector.Unsorted.{Vec, get_capacity, promote}
use disco_skip.Vector.Unsorted.Tracked.{
  IsTracked, entries, has_key, key_at-set, key_at-some, assign_lem,
}
use disco_skip.Vector.Unsorted.Extremes.{fill_gap_lem}

module _ {V : Type 0} where
  -- The vector without `gone`, tracked again.
  abbrev pub WithoutTracked : Vec V → Entry V → Vec V → Type 0
  WithoutTracked v gone v' =
      IsTracked v'
      × (get_capacity v' ≡ get_capacity v)
      × SameEntries (gone ∷ entries v') (entries v)

  pub record Promoted (v : Vec V) (slot pos : ℕ) (gone : Entry V) (v' : Vec V) : Type 0 where
    pub same : SameEntries (gone ∷ entries v') (entries v)
    pub capacity : get_capacity v' ≡ get_capacity v
    pub shrunk : v'.size + 1 ≡ v.size
    pub keys :
        (j : ℕ)
        → j < v'.size
        → key_at v'.list j ≡ (
            if j == slot
            then key_at v.list pos
            else if j == pos
            then key_at v.list v'.size
            else key_at v.list j)

  pub promote_lem :
      (v : Vec V) (slot pos : ℕ) (gone : Entry V)
      → v.size ≤ get_capacity v
      → slot < pos
      → pos < v.size
      → get_elem? v.list slot ≡ some gone
      → Promoted v slot pos gone (promote v slot pos)
  unfolding tally
  promote_lem v slot pos gone b h q at =
      let (e, at_pos) = get_elem?-some v.list pos (omega arith) in
      let ys = set v.list slot e in
      let run : assign v.list slot v.list pos ≡ ys = assign_lem v.list slot v.list pos e at_pos in
      let still : get_elem? ys pos ≡ some e = ground (arith, get_elem?-set v.list slot pos e) in
      let len = length-set v.list slot e in
      let filled = fill_gap_lem ys pos (v.size - 1) e still (omega arith) (omega (arith, len)) in
      let keys = filled.keys in
      rw run (record {
        same = λ p. omega (
          arith,
          filled.same p,
          tally-set p v.size v.list slot gone e at (omega arith),
          ap (λ n. tally p (take n ys)) {x = suc (v.size - 1)} {y = v.size} (omega arith),
        );
        capacity = filled.capacity ∙ len;
        shrunk = omega arith;
        keys = λ j p. ground (
          arith,
          keys j,
          key_at-set v.list slot j e,
          key_at-set v.list slot (v.size - 1) e,
          key_at-some v.list pos e at_pos,
        );
      })

  -- Removing a present entry keeps the keys different.
  pub still_distinct :
      (v v' : Vec V) (gone : Entry V)
      → IsTracked v
      → SameEntries (gone ∷ entries v') (entries v)
      → (k : ℕ) → tally (has_key k) (entries v') ≤ 1
  unfolding tally
  still_distinct v v' gone h same k = omega (arith, same (has_key k), h.distinct k)
