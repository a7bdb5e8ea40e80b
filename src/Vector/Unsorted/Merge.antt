-- ===== src/Vector/Unsorted/Merge.antt =====
-- `merge` of vector_umfra.h.
use disco_skip.Prelude.{ℕ, ◌+◌, ◌<◌, ◌≡◌, refl}
use disco_skip.Prelude.{ap, arith, dec_lt, ℕ_discrete, none, some}
use disco_skip.Prelude.{◌++◌, ◌⊎◌, inl, inr}
use disco_skip.Prelude.{ltb-true, ==-true, ==-false}
use disco_skip.Prelude.{take}
use disco_skip.Vector.Slots.{key_at, assign, memcpy}
use disco_skip.Vector.Counts.{tally, tally-append, SameEntries}
use disco_skip.Vector.Unsorted.{Vec, get_capacity}
use disco_skip.Vector.Unsorted.Transfer.{merge, merge_many}
use disco_skip.Vector.Unsorted.Tracked.{IsTracked, entries}
use disco_skip.Vector.Unsorted.MergeCases.{merge_empty, merge_one, merge_more}

module _ {V : Type 0} (v victim : Vec V) (h : IsTracked v) (g : IsTracked victim)
    (apart : (i j : ℕ)
      → i < v.size
      → j < victim.size
      → key_at v.list i < key_at victim.list j) where
  -- `merge` with a tracked victim whose keys are all above those of this tracked vector. It fails exactly if
  -- there is something to move and too little room. Otherwise this vector is tracked and holds the entries
  -- of both, and the victim is empty.
  pub merge-IsTracked :
      ((0 < victim.size) × (get_capacity v < v.size + victim.size) × (merge v victim ≡ none))
      ⊎ ((v' : Vec V) × (victim' : Vec V) × (merge v victim ≡ some (v', victim'))
          × IsTracked v'
          × (get_capacity v' ≡ get_capacity v)
          × SameEntries (entries v') (entries v ++ entries victim)
          × (victim'.size ≡ 0))
  unfolding merge tally
  merge-IsTracked = elim (ℕ_discrete victim.size 0) [
    | yes z ↦ inr (
      v,
      victim,
      rw (==-true victim.size 0 z) refl,
      h,
      refl,
      λ p. omega (
        arith,
        tally-append p (entries v) (entries victim),
        ap (λ n. tally p (take n victim.list)) z,
      ),
      z,
    )
    | no some_new ↦ elim (dec_lt (get_capacity v) (v.size + victim.size)) [
      | yes over ↦ inl (
        omega (arith, some_new),
        over,
        rw (==-false victim.size 0 some_new, ltb-true (get_capacity v) (v.size + victim.size) over)
            refl,
      )
      | no room ↦ elim (ℕ_discrete v.size 0) [
        | yes z ↦
            let m = merge_empty v victim h g apart (omega arith) z in
            inr (
              record { list = memcpy victim.size v.list 0 victim.list 0; size = victim.size },
              record victim { size = 0 },
              ground arith,
              m.tracked,
              m.capacity,
              m.same,
              refl,
            )
        | no some_old ↦ elim (ℕ_discrete victim.size 1) [
          | yes one ↦
              let m = merge_one v victim h g apart (omega arith) (omega (arith, some_old)) one in
              inr (
                record {
                  list = assign (assign v.list v.size v.list 1) 1 victim.list 0;
                  size = v.size + 1;
                },
                record victim { size = 0 },
                ground arith,
                m.tracked,
                m.capacity,
                m.same,
                refl,
              )
          | no many ↦
              let m =
                merge_more v victim h g apart (omega arith) (omega (arith, some_old))
                  (omega (arith, some_new, many)) in
              inr (
                merge_many v victim,
                record victim { size = 0 },
                ground arith,
                m.tracked,
                m.capacity,
                m.same,
                refl,
              )
        ]
      ]
    ]
  ]
