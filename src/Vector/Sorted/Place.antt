-- ===== src/Vector/Sorted/Place.antt =====
-- What the callers of `find` in vector_sfra.h learn from the position that it returns.
use disco_skip.Prelude.{ℕ, ◌≤◌, ◌<◌, ◌≡◌, arith, true, false, none, some}
use disco_skip.Prelude.{ltb, ◌==◌, ◌&&◌}
use disco_skip.Prelude.{get_elem?, get_elem?-none, get_elem?-some}
use disco_skip.Prelude.{Bool-cases, inl, inr}
use disco_skip.Vector.Slots.{Entry, key_at}
use disco_skip.Vector.Entries.{lookup, lookup-Splits}
use disco_skip.Vector.Sorted.{Vec, find}
use disco_skip.Vector.Sorted.Find.{
  contents, IsValid, find-Splits, key_at-contents, get_elem?-contents,
}
use disco_skip.Vector.Sorted.Find.{length-contents, contents-IsAscending}

module _ {V : Type 0} where
  module _ {v : Vec V} (k : ℕ) (valid : IsValid v) where
    abbrev pub place : ℕ
    place = find v k

    open (find-Splits k valid) use {inside, lower, upper}

    pub place-le : place ≤ v.size
    place-le = omega (arith, inside, length-contents valid)

    pub lower-key : (i : ℕ) → i < place → key_at v.list i < k
    lower-key i p = ground (arith, place-le, lower i, key_at-contents v i)

    pub upper-key : (i : ℕ) → place ≤ i → i < v.size → k ≤ key_at v.list i
    upper-key i p q = ground (arith, length-contents valid, upper i, key_at-contents v i)

    -- The test of the source for a key that is not there.
    abbrev pub Absent : Type 0
    Absent = (ltb place v.size && key_at v.list place == k) ≡ false

    pub upper-key-lt : Absent → (i : ℕ) → place ≤ i → i < v.size → k < key_at v.list i
    upper-key-lt a i p q = ground (arith, a, upper-key place, upper-key i, valid.ascending place i)

    -- The source's test decides whether the key is in the map.
    pub absent-lookup : Absent → lookup k (contents v) ≡ none
    absent-lookup a = ground (
      arith,
      lookup-Splits k (contents v) place (contents-IsAscending valid) (find-Splits k valid),
      length-contents valid,
      get_elem?-contents v place,
      get_elem?-none (contents v) place,
    )

    pub present-lookup :
        (ltb place v.size && key_at v.list place == k) ≡ true
        → (x : Entry V) × (get_elem? v.list place ≡ some x) × (lookup k (contents v) ≡ some x.val)
    present-lookup a =
        let (x, p) = get_elem?-some v.list place (ground (arith, valid.fits)) in
        (
          x,
          p,
          ground (
            arith,
            lookup-Splits k (contents v) place (contents-IsAscending valid) (find-Splits k valid),
            get_elem?-contents v place,
          ),
        )

    pub lookup-absent : lookup k (contents v) ≡ none → Absent
    lookup-absent h = elim (Bool-cases (ltb place v.size && key_at v.list place == k)) [
      | inl p ↦ let (x, at, found) = present-lookup p in cc
      | inr a ↦ a
    ]
