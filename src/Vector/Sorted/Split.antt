-- ===== src/Vector/Sorted/Split.antt =====
-- The methods of vector_sfra.h that move entries from one vector to another.
use disco_skip.Prelude.{ℕ, ◌+◌, ◌-◌, ◌/◌, ◌≤◌, ◌≡◌, refl, sym, ◌∙◌}
use disco_skip.Prelude.{ap, arith, dec_lt, Bool, true, false, some}
use disco_skip.Prelude.{List, [], ◌++◌, ltb}
use disco_skip.Prelude.{length, take, drop, length-take}
use disco_skip.Prelude.{length-drop, get_elem?-take}
use disco_skip.Prelude.{list_ext}
use disco_skip.Prelude.{take-append-drop}
use disco_skip.Vector.Slots.{Entry, memcpy}
use disco_skip.Vector.Slots.{length-memcpy}
use disco_skip.Vector.Entries.{below, from}
use disco_skip.Vector.Entries.{below-Splits, from-Splits}
use disco_skip.Vector.Sorted.{Vec, get_capacity}
use disco_skip.Vector.Sorted.{merge}
use disco_skip.Vector.Sorted.{split_at, steal_half}
use disco_skip.Vector.Sorted.Find.{contents, IsValid, find-Splits}
use disco_skip.Vector.Sorted.Find.{length-contents, contents-IsAscending}
use disco_skip.Vector.Sorted.Place.{place, place-le}
use disco_skip.Prelude.{take-drop, take-take}
use disco_skip.Vector.Slots.{take-memcpy, take-memcpy_front}
use disco_skip.Vector.Sorted.Find.{IsValid-of}
use disco_skip.Vector.Entries.{IsBefore, append-IsAscending, drop-IsAscending}

module _ {V : Type 0} where
  -- On two valid vectors, the first with the lower keys and with room for both, `merge` succeeds,
  -- appends the victim's entries, empties the victim and leaves a valid vector.
  pub merge_refines :
      {v victim : Vec V}
      → IsValid v
      → IsValid victim
      → IsBefore (contents v) (contents victim)
      → v.size + victim.size ≤ get_capacity v
      → (v' : Vec V) × (victim' : Vec V) × (merge v victim ≡ some (v', victim'))
        × IsValid v'
        × (contents v' ≡ contents v ++ contents victim)
        × (contents victim' ≡ [])
        × (get_capacity v' ≡ get_capacity v)
  unfolding merge
  merge_refines {v} {victim = w} valid valid' before room =
      let merged : Vec V = record {
        list = memcpy w.size v.list v.size w.list 0;
        size = v.size + w.size;
      } in
      let len = length-memcpy w.size v.list v.size w.list 0 in
      let holds : contents merged ≡ contents v ++ contents w =
        take-memcpy w.size v.list v.size w.list 0 (omega (arith, valid'.fits)) room in
      (
        merged,
        record w { size = 0 },
        ground arith,
        IsValid-of merged (omega (arith, len)) (
            rw holds (
              append-IsAscending (contents v) (contents w) (contents-IsAscending valid)
                (contents-IsAscending valid') before)),
        holds,
        refl,
        len,
      )

  -- The first `n` entries of a vector, and the others, copied to the front of another.
  abbrev pub kept : Vec V → ℕ → Vec V
  kept v n = record v { size = n }

  abbrev pub stolen : Vec V → Vec V → ℕ → Vec V
  stolen v victim n = record {
    list = memcpy (victim.size - n) v.list 0 victim.list n;
    size = victim.size - n;
  }

  module _ (v : Vec V) {victim : Vec V} (valid : IsValid victim) (n : ℕ) (h : n ≤ victim.size) where
    pub contents-kept : contents (kept victim n) ≡ take n (contents victim)
    contents-kept = sym (take-take n victim.size victim.list h)

    pub kept-IsValid : IsValid (kept victim n)
    kept-IsValid = record {
      fits = omega (arith, valid.fits);
      ascending = λ i j p q. valid.ascending i j p (omega arith);
    }

    pub trimmed :
        (m : ℕ)
        → m ≡ n
        → IsValid (kept victim m) × (contents (kept victim m) ≡ take n (contents victim))
    trimmed m e = rw e (kept-IsValid, contents-kept)

    module _ (room : victim.size - n ≤ get_capacity v) where
      pub contents-stolen : contents (stolen v victim n) ≡ drop n (contents victim)
      contents-stolen =
          take-memcpy_front (victim.size - n) v.list victim.list n (omega (arith, valid.fits)) room
          ∙ take-drop victim.size n victim.list h

      pub stolen-IsValid : IsValid (stolen v victim n)
      stolen-IsValid =
          IsValid-of (stolen v victim n)
            (omega (arith, length-memcpy (victim.size - n) v.list 0 victim.list n))
            (rw contents-stolen (drop-IsAscending n (contents victim) (contents-IsAscending valid)))

  -- If the other vector is as large, `steal_half` takes the upper half of the entries, the larger one
  -- if their number is odd, keeps the lower half in the victim, and leaves both vectors valid.
  pub steal_half_refines :
      (v : Vec V) {victim : Vec V}
      → IsValid victim
      → get_capacity v ≡ get_capacity victim
      → let (v', victim') = steal_half v victim in
        IsValid v'
        × IsValid victim'
        × (contents victim' ++ contents v' ≡ contents victim)
        × (length (contents victim') ≡ length (contents victim) / 2)
        × (get_capacity v' ≡ get_capacity v)
  unfolding steal_half
  steal_half_refines v {victim = w} valid same =
      let n : ℕ = w.size / 2 in
      let half : n ≤ w.size = omega arith in
      let room : w.size - n ≤ length v.list = omega (arith, valid.fits) in
      (
        stolen-IsValid v valid n half room,
        kept-IsValid v valid n half,
        rw (contents-kept v valid n half, contents-stolen v valid n half room)
            (take-append-drop n (contents w)),
        omega (arith, length-take n w.list, length-contents valid, valid.fits),
        length-memcpy (w.size - n) v.list 0 w.list n,
      )

  take-all : (v : Vec V) → IsValid v → (n : ℕ) → v.size ≤ n → take n (contents v) ≡ contents v
  take-all v valid n h =
      list_ext (take n (contents v)) (contents v)
        (omega (arith, length-take n (contents v), length-contents valid))
        (λ i p. ground (arith, length-take n (contents v), get_elem?-take n i (contents v)))

  abbrev pub Received : Vec V → Bool → Vec V → List (Entry V) → Type 0
  Received v true v' upper = IsValid v' × (contents v' ≡ upper)
  Received v false v' upper = v' ≡ v

  -- If the other vector is as large, `split_at` succeeds: it leaves the keys below `k` in the victim;
  -- it returns whether there are others, and moves these to the other vector, which is unchanged
  -- if there are none. All the vectors stay valid.
  pub split_at_refines :
      (v : Vec V) {victim : Vec V} (k : ℕ)
      → IsValid victim
      → get_capacity v ≡ get_capacity victim
      → (moved : Bool) × (v' : Vec V) × (victim' : Vec V) × (split_at v victim k
          ≡ some (moved, v', victim'))
        × IsValid victim'
        × (contents victim' ≡ below k (contents victim))
        × (moved ≡ ltb 0 (length (from k (contents victim))))
        × Received v moved v' (from k (contents victim))
  unfolding split_at
  split_at_refines v {victim = w} k valid same =
      let c = contents w in
      let n : ℕ = place k valid in
      let h : n ≤ w.size = place-le k valid in
      let room : w.size - n ≤ length v.list = omega (arith, valid.fits) in
      let lower_part = below-Splits k c n (find-Splits k valid) in
      let upper_part = from-Splits k c n (find-Splits k valid) in
      let count : length (from k c) ≡ w.size - n =
        ap length upper_part ∙ omega (arith, length-drop n c, length-contents valid) in
      let (trim_valid, trim) = trimmed v valid n h (w.size - (w.size - n)) (omega arith) in
      elim (dec_lt n w.size) [
        | yes some_above ↦ (
          true,
          stolen v w n,
          kept w (w.size - (w.size - n)),
          ground arith,
          trim_valid,
          trim ∙ sym lower_part,
          ground arith,
          (stolen-IsValid v valid n h room, contents-stolen v valid n h room ∙ sym upper_part),
        )
        | no none_above ↦ (
          false,
          v,
          w,
          ground arith,
          valid,
          sym (lower_part ∙ take-all w valid n (omega arith)),
          ground arith,
          refl,
        )
      ]
