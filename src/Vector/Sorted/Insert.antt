-- ===== src/Vector/Sorted/Insert.antt =====
-- `insert` of vector_sfra.h, on a valid vector.
use disco_skip.Prelude.{ℕ, ◌+◌, ◌-◌, ◌≤◌, ◌<◌, ◌≡◌, ◌≢◌, refl, sym, ◌∙◌, arith}
use disco_skip.Prelude.{ℕ_discrete, Bool, true, false, some, ◌∷◌, ◌++◌}
use disco_skip.Prelude.{ltb, leb, ◌==◌, if◌then◌else◌, ==-true, ==-false, ◌&&◌}
use disco_skip.Prelude.{length, get_elem?, set, take, drop, length-set, get_elem?-set, length-take}
use disco_skip.Prelude.{Bool-cases, inl, inr, take_ext, get_elem?-splice, length-splice}
use disco_skip.Vector.Slots.{Entry, key_at}
use disco_skip.Vector.Entries.{Splits, IsAscending, lookup, below, from, erase, floor}
use disco_skip.Vector.Entries.{lookup-Splits, below-Splits, from-Splits, erase-Splits, floor-Splits}
use disco_skip.Vector.Entries
use disco_skip.Vector.Sorted.{Vec, get_capacity, shift_up, insert}
use disco_skip.Vector.Sorted.Find.{contents, IsValid, find-Splits, get_elem?-contents}
use disco_skip.Vector.Sorted.Find.{length-contents}
use disco_skip.Vector.Sorted.Shift.{length-shift_up, get_elem?-shift_up}
use disco_skip.Vector.Sorted.Place.{
  place, Absent, place-le, lower-key, upper-key-lt, absent-lookup, present-lookup,
}

module _ {V : Type 0} where
  -- The vector after the last branch of `insert`, at position `pos`.
  abbrev opened : Vec V → Entry V → ℕ → Vec V
  opened v e pos = record v {
    list = set (shift_up (v.size - pos) v.list v.size) pos e;
    size = v.size + 1;
  }

  get_elem?-opened :
      (v : Vec V) (e : Entry V) (pos j : ℕ)
      → pos ≤ v.size
      → v.size < length v.list
      → get_elem? (opened v e pos).list j ≡ (
          if pos == j
          then some e
          else if ltb pos j && leb j v.size
          then get_elem? v.list (j - 1)
          else get_elem? v.list j)
  get_elem?-opened v e pos j h b =
      let xs = shift_up (v.size - pos) v.list v.size in
      ground (
        arith,
        get_elem?-set xs pos j e,
        length-shift_up (v.size - pos) v.list v.size,
        get_elem?-shift_up (v.size - pos) v.list v.size j,
      )

  contents-opened :
      (v : Vec V) (e : Entry V) (pos : ℕ)
      → pos ≤ v.size
      → v.size < length v.list
      → contents (opened v e pos) ≡ take pos (contents v) ++ e ∷ drop pos (contents v)
  contents-opened v e pos h b =
      let c = contents v in
      let len : length c ≡ v.size = omega (arith, length-take v.size v.list) in
      let xs = (opened v e pos).list in
      take_ext (v.size + 1) xs (take pos c ++ e ∷ drop pos c)
        (omega (
          arith,
          length-set (shift_up (v.size - pos) v.list v.size) pos e,
          length-shift_up (v.size - pos) v.list v.size,
        ))
        (omega (arith, length-splice pos e c))
        (λ i q. ground (
          arith,
          get_elem?-opened v e pos i,
          get_elem?-splice pos e c i,
          get_elem?-contents v i,
          get_elem?-contents v (i - 1),
        ))

  module _ {v : Vec V} (e : Entry V) (valid : IsValid v) where
    abbrev at_place : ℕ
    at_place = place e.key valid

    abbrev IsAbsent : Type 0
    IsAbsent = Absent e.key valid

    opened-IsValid : IsAbsent → v.size < length v.list → IsValid (opened v e at_place)
    opened-IsValid a room = record {
      fits = omega (
        arith,
        length-set (shift_up (v.size - at_place) v.list v.size) at_place e,
        length-shift_up (v.size - at_place) v.list v.size,
      );
      ascending = λ i j p q. ground (
        arith,
        (place-le e.key valid),
        get_elem?-opened v e at_place i,
        get_elem?-opened v e at_place j,
        lower-key e.key valid i,
        upper-key-lt e.key valid a (j - 1),
        valid.ascending i j,
        valid.ascending i (j - 1),
        valid.ascending (i - 1) (j - 1),
      );
    }

    contents-opened-place :
        v.size < length v.list
        → contents (opened v e at_place) ≡ below e.key (contents v) ++ e ∷ from e.key (contents v)
    contents-opened-place room =
        rw
          (
            below-Splits e.key (contents v) at_place (find-Splits e.key valid),
            from-Splits e.key (contents v) at_place (find-Splits e.key valid),
          )
          (contents-opened v e at_place (place-le e.key valid) room)

    insert-present :
        (ltb at_place v.size && key_at v.list at_place == e.key) ≡ true
        → insert v e ≡ (false, false, v)
    unfolding insert
    insert-present p = rw p

    insert-full : IsAbsent → v.size ≡ length v.list → insert v e ≡ (false, true, v)
    unfolding insert
    insert-full a full = rw (a, ==-true _ _ full)

    insert-room :
        IsAbsent → v.size ≢ length v.list → insert v e ≡ (true, false, opened v e at_place)
    unfolding insert
    insert-room a room = rw (a, ==-false _ _ room)

    abbrev Refines : Bool × Bool × Vec V → Type 0
    Refines (result, overfull, v') =
        IsValid v'
        × ((result, overfull, contents v') ≡ Entries.insert (length v.list) e (contents v))
        × (length v'.list ≡ length v.list)

    absent-Refines : IsAbsent → Refines (insert v e)
    absent-Refines a =
        let c = contents v in
        let cap = length v.list in
        let len : length c ≡ v.size = length-contents valid in
        elim (ℕ_discrete v.size (length v.list)) [
          | yes full ↦ rw (insert-full a full) (
            valid,
            sym (Entries.insert-full cap e c (absent-lookup e.key valid a) (omega (arith, len))),
            refl,
          )
          | no room ↦
              let more : v.size < length v.list = ground (arith, valid.fits) in
              rw (insert-room a room) (
                opened-IsValid a more,
                rw (Entries.insert-room cap e c (absent-lookup e.key valid a) (omega (arith, len)))
                    (rw (contents-opened-place more)),
                length-set (shift_up (v.size - at_place) v.list v.size) at_place e
                    ∙ length-shift_up (v.size - at_place) v.list v.size,
              )
        ]

    -- On a valid vector, `insert` returns the flags of the map's insertion, leaves the entries that it
    -- leaves, and keeps the vector valid and its capacity.
    pub insert_refines :
        let (result, overfull, v') = insert v e in
        IsValid v'
        × ((result, overfull, contents v') ≡ Entries.insert (get_capacity v) e (contents v))
        × (get_capacity v' ≡ get_capacity v)
    insert_refines = elim (Bool-cases (ltb at_place v.size && key_at v.list at_place == e.key)) [
      | inl p ↦ rw (insert-present p) (
        valid,
        sym (Entries.insert-present _ e (contents v) (present-lookup e.key valid p).2),
        refl,
      )
      | inr a ↦ absent-Refines a
    ]
