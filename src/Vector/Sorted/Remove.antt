-- ===== src/Vector/Sorted/Remove.antt =====
-- `remove`, `contains` and `find_lte` of vector_sfra.h, on a valid vector.
use disco_skip.Prelude.{ℕ, suc, ◌-◌, ◌≤◌, ◌<◌, ◌≡◌, refl, sym, ◌∙◌}
use disco_skip.Prelude.{arith, true, false, none, some}
use disco_skip.Prelude.{◌++◌, ltb, ◌==◌, if◌then◌else◌, ◌&&◌, inl, inr}
use disco_skip.Prelude.{Bool-cases}
use disco_skip.Prelude.{length, get_elem?, take, drop, length-take}
use disco_skip.Prelude.{take_ext}
use disco_skip.Prelude.{get_elem?-cut, length-cut}
use disco_skip.Vector.Slots.{Entry, key_at}
use disco_skip.Vector.Entries
use disco_skip.Vector.Entries.{
  erase-absent, Splits, IsAscending, lookup, below, from, erase, floor, rank,
}
use disco_skip.Vector.Entries.{lookup-Splits, below-Splits, from-Splits, erase-Splits, floor-Splits}
use disco_skip.Vector.Sorted.{Vec, get_capacity, shift_down, remove, contains}
use disco_skip.Vector.Sorted.{contains_key, find_lte, at}
use disco_skip.Vector.Sorted.Find.{
  contents, IsValid, find-Splits, key_at-contents, get_elem?-contents,
}
use disco_skip.Vector.Sorted.Find.{length-contents, contents-IsAscending}
use disco_skip.Vector.Sorted.Shift.{length-shift_down, get_elem?-shift_down}
use disco_skip.Vector.Sorted.Place.{
  place, Absent, place-le, upper-key, absent-lookup, present-lookup,
}

module _ {V : Type 0} where
  -- The vector after `remove` at position `pos`.
  abbrev closed : Vec V → ℕ → Vec V
  closed v pos = record v { list = shift_down (v.size - 1 - pos) v.list pos; size = v.size - 1 }

  get_elem?-closed :
      (v : Vec V) (pos j : ℕ)
      → pos < v.size
      → v.size ≤ length v.list
      → j < v.size - 1
      → get_elem? (closed v pos).list j
        ≡ (if ltb j pos then get_elem? v.list j else get_elem? v.list (suc j))
  get_elem?-closed v pos j h b p =
      ground (arith, get_elem?-shift_down (v.size - 1 - pos) v.list pos j)

  length-closed : (v : Vec V) (pos : ℕ) → length (closed v pos).list ≡ length v.list
  length-closed v pos = length-shift_down (v.size - 1 - pos) v.list pos

  contents-closed :
      (v : Vec V) (pos : ℕ)
      → pos < v.size
      → v.size ≤ length v.list
      → contents (closed v pos) ≡ take pos (contents v) ++ drop (suc pos) (contents v)
  contents-closed v pos h b =
      let c = contents v in
      let len : length c ≡ v.size = omega (arith, length-take v.size v.list) in
      take_ext (v.size - 1) (closed v pos).list (take pos c ++ drop (suc pos) c)
        (omega (arith, length-closed v pos)) (omega (arith, length-cut pos c))
        (λ i q. ground (
          arith,
          get_elem?-closed v pos i,
          get_elem?-cut pos c i,
          get_elem?-contents v i,
          get_elem?-contents v (suc i),
        ))

  module _ {v : Vec V} (k : ℕ) (valid : IsValid v) where
    abbrev at_place : ℕ
    at_place = place k valid

    closed-IsValid : at_place < v.size → IsValid (closed v at_place)
    closed-IsValid h = record {
      fits = omega (arith, length-closed v at_place, valid.fits);
      ascending = λ i j p q. ground (
        arith,
        valid.fits,
        get_elem?-closed v at_place i,
        get_elem?-closed v at_place j,
        valid.ascending i j,
        valid.ascending i (suc j),
        valid.ascending (suc i) (suc j),
      );
    }

    contents-closed-place :
        at_place < v.size
        → key_at v.list at_place ≡ k
        → contents (closed v at_place) ≡ erase k (contents v)
    contents-closed-place h e =
        contents-closed v at_place h valid.fits
        ∙ sym (
            erase-Splits k (contents v) at_place (contents-IsAscending valid) (find-Splits k valid)
              (omega (arith, length-contents valid)) (key_at-contents v at_place h ∙ e))

    abbrev IsPresent : Type 0
    IsPresent = (ltb at_place v.size && key_at v.list at_place == k) ≡ true

    remove-absent : Absent k valid → remove v k ≡ (none, v)
    unfolding remove
    remove-absent a = ground arith

    remove-present :
        {x : Entry V}
        → IsPresent
        → get_elem? v.list at_place ≡ some x
        → remove v k ≡ (some x.val, closed v at_place)
    unfolding remove
    remove-present h e = ground arith

    -- On a valid vector, `remove` returns the value of the key, if there is one, leaves the entries with
    -- other keys, and keeps the vector valid and its capacity.
    pub remove_refines :
        let (found, v') = remove v k in
        IsValid v'
        × ((found, contents v') ≡ Entries.remove k (contents v))
        × (get_capacity v' ≡ get_capacity v)
    unfolding Entries.remove
    remove_refines =
        let c = contents v in
        elim (Bool-cases (ltb at_place v.size && key_at v.list at_place == k)) [
          | inl p ↦
              let (x, at, found) = present-lookup k valid p in
              let h : at_place < v.size = ground arith in
              rw (remove-present p at) (
                closed-IsValid h,
                ground (arith, contents-closed-place h),
                length-closed v at_place,
              )
          | inr a ↦
              let none_found = absent-lookup k valid a in
              rw (remove-absent a) (valid, ground (arith, erase-absent k c none_found), refl)
        ]

    -- On a valid vector both forms of `contains` look the key up in the map.
    pub contains_refines :
        (contains v k ≡ lookup k (contents v))
        × (contains_key v k ≡ elim (lookup k (contents v)) [ none ↦ false | some _ ↦ true ])
    unfolding contains contains_key
    contains_refines = elim (Bool-cases (ltb at_place v.size && key_at v.list at_place == k)) [
      | inl p ↦ let (x, at, found) = present-lookup k valid p in ground arith
      | inr a ↦ ground (arith, absent-lookup k valid a)
    ]

    -- On a valid vector `find_lte` returns the entry with the greatest key that is at most the sought
    -- one, and fails if there is none.
    pub find_lte_refines : find_lte v k ≡ floor k (contents v)
    unfolding find_lte
    find_lte_refines = ground (
      arith,
      floor-Splits k (contents v) at_place (contents-IsAscending valid) (find-Splits k valid),
      length-contents valid,
      place-le k valid,
      upper-key k valid at_place,
      get_elem?-contents v at_place,
      get_elem?-contents v (at_place - 1),
    )
