-- ===== src/Vector/Unsorted/PartRuns.antt =====
-- One round of the last loop of `split_insert` of vector_umfra.h, branch by branch.
use disco_skip.Prelude.{ℕ, zero, suc, ◌+◌, ◌-◌, ◌≤◌, ◌<◌, ◌≡◌, refl}
use disco_skip.Prelude.{arith, some}
use disco_skip.Prelude.{ltb-true, ltb-false}
use disco_skip.Prelude.{get_elem?, set}
use disco_skip.Vector.Slots.{Entry, key_at}
use disco_skip.Vector.Unsorted.{Vec}
use disco_skip.Vector.Unsorted.Transfer.{part_loop}
use disco_skip.Vector.Unsorted.Tracked.{key_at-some, assign_lem}

module _ {V : Type 0} (k : ℕ) where
  pub from_end_run :
      (n : ℕ) (v victim : Vec V) (i : ℕ) (e : Entry V)
      → i < victim.size
      → k < key_at victim.list i
      → get_elem? victim.list (victim.size - 1) ≡ some e
      → k < e.key
      → part_loop (suc n) v victim k i
        ≡ part_loop n
            (record { list = set v.list v.size e; size = v.size + 1 })
            (record victim { size = victim.size - 1 })
            k
            i
  unfolding part_loop
  from_end_run n v victim i e h q at high =
      let last = key_at-some victim.list (victim.size - 1) e at in
      rw
        (
          assign_lem v.list v.size victim.list (victim.size - 1) e at,
          ltb-true i victim.size h,
          ltb-false (key_at victim.list i) k (omega arith),
          ltb-true k (key_at victim.list (victim.size - 1)) (omega arith),
        )
        refl

  pub from_middle_run :
      (n : ℕ) (v victim : Vec V) (i : ℕ) (e f : Entry V)
      → i < victim.size
      → get_elem? victim.list i ≡ some e
      → k < e.key
      → get_elem? victim.list (victim.size - 1) ≡ some f
      → f.key < k
      → part_loop (suc n) v victim k i
        ≡ part_loop n
            (record { list = set v.list v.size e; size = v.size + 1 })
            (record { list = set victim.list i f; size = victim.size - 1 })
            k
            (i + 1)
  unfolding part_loop
  from_middle_run n v victim i e f h at high there low =
      let first = key_at-some victim.list i e at in
      let last = key_at-some victim.list (victim.size - 1) f there in
      rw
        (
          assign_lem v.list v.size victim.list i e at,
          assign_lem victim.list i victim.list (victim.size - 1) f there,
          ltb-true i victim.size h,
          ltb-false (key_at victim.list i) k (omega arith),
          ltb-false k (key_at victim.list (victim.size - 1)) (omega arith),
        )
        refl

  pub stop_run :
      (n : ℕ) (v victim : Vec V) (i : ℕ) → victim.size ≤ i → part_loop n v victim k i ≡ (v, victim)
  unfolding part_loop
  stop_run zero v victim i h = refl
  stop_run (suc n) v victim i h = rw (ltb-false i victim.size h) refl

  pub skip_run :
      (n : ℕ) (v victim : Vec V) (i : ℕ)
      → i < victim.size
      → key_at victim.list i < k
      → part_loop (suc n) v victim k i ≡ part_loop n v victim k (i + 1)
  unfolding part_loop
  skip_run n v victim i h low =
      rw (ltb-true i victim.size h, ltb-true (key_at victim.list i) k low) refl
