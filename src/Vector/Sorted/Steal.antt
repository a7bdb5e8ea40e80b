-- ===== src/Vector/Sorted/Steal.antt =====
-- The splits of vector_sfra.h that also insert a pair.
use disco_skip.Prelude.{ℕ, zero, suc, ◌+◌, ◌-◌, ◌≤◌, ◌<◌, ◌≡◌, sym, ◌∙◌}
use disco_skip.Prelude.{ap, arith, none, some}
use disco_skip.Prelude.{List, ◌∷◌, ◌++◌}
use disco_skip.Prelude.{length, set, take, drop, length-set, length-take}
use disco_skip.Prelude.{length-drop, get_elem?-take, get_elem?-drop}
use disco_skip.Prelude.{}
use disco_skip.Vector.Slots.{Entry, key_at, memcpy}
use disco_skip.Vector.Slots.{length-memcpy}
use disco_skip.Vector.Entries.{IsAscending, lookup, below, from}
use disco_skip.Vector.Entries.{below-Splits, from-Splits}
use disco_skip.Vector.Sorted.{Vec, get_capacity}
use disco_skip.Vector.Sorted.{split_insert}
use disco_skip.Vector.Sorted.Find.{contents, IsValid, find-Splits, key_at-contents}
use disco_skip.Vector.Sorted.Find.{length-contents, contents-IsAscending}
use disco_skip.Vector.Sorted.Shift.{}
use disco_skip.Vector.Sorted.Place.{place, place-le, lower-key, upper-key-lt}
use disco_skip.Prelude.{take-drop, take-set}
use disco_skip.Vector.Slots.{take-memcpy}
use disco_skip.Vector.Sorted.Find.{IsValid-of}
use disco_skip.Vector.Sorted.Place.{lookup-absent}
use disco_skip.Vector.Sorted.Split.{kept, trimmed}
use disco_skip.Vector.Entries.{
  IsBefore, append-IsAscending, take-IsAscending, drop-IsAscending, cons-IsAscending,
}

module _ {V : Type 0} where
  module _ {w : Vec V} (e : Entry V) (valid : IsValid w)
      (fresh : lookup e.key (contents w) ≡ none) where
    abbrev pub pos : ℕ
    pos = place e.key valid

    above : (i : ℕ) → i < length (drop pos (contents w)) → e.key < key_at (drop pos (contents w)) i
    above i p = ground (
      arith,
      length-drop pos (contents w),
      length-contents valid,
      get_elem?-drop pos i (contents w),
      key_at-contents w (pos + i),
      upper-key-lt e.key valid (lookup-absent e.key valid fresh) (pos + i),
    )

    tail-IsAscending : IsAscending (e ∷ drop pos (contents w))
    tail-IsAscending =
        cons-IsAscending e (drop pos (contents w))
          (drop-IsAscending pos (contents w) (contents-IsAscending valid)) above

    abbrev pub all : List (Entry V)
    all = below e.key (contents w) ++ e ∷ from e.key (contents w)

    pub all-eq : all ≡ take pos (contents w) ++ e ∷ drop pos (contents w)
    all-eq = rw (
      below-Splits e.key (contents w) pos (find-Splits e.key valid),
      from-Splits e.key (contents w) pos (find-Splits e.key valid),
    )

    before : IsBefore (take pos (contents w)) (e ∷ drop pos (contents w))
    before i zero p q = ground (
      arith,
      length-take pos (contents w),
      get_elem?-take pos i (contents w),
      place-le e.key valid,
      key_at-contents w i,
      lower-key e.key valid i,
    )
    before i (suc j) p q = ground (
      arith,
      length-take pos (contents w),
      get_elem?-take pos i (contents w),
      place-le e.key valid,
      key_at-contents w i,
      lower-key e.key valid i,
      above j,
    )

    pub all-IsAscending : IsAscending all
    all-IsAscending = rw all-eq (
        append-IsAscending (take pos (contents w)) (e ∷ drop pos (contents w))
          (take-IsAscending pos (contents w) (contents-IsAscending valid)) tail-IsAscending before)

    -- If the pair's key is not in the valid victim, and the other vector has room, `split_insert`
    -- succeeds: the victim keeps the lower keys, and the other vector holds the pair and then the
    -- upper ones. Both are valid.
    pub split_insert_refines :
        (v : Vec V)
        → length (from e.key (contents w)) + 1 ≤ get_capacity v
        → (v' : Vec V) × (victim' : Vec V) × (split_insert v w e ≡ some (v', victim'))
          × IsValid v'
          × IsValid victim'
          × (contents v' ≡ e ∷ from e.key (contents w))
          × (contents victim' ≡ below e.key (contents w))
    unfolding split_insert
    split_insert_refines v room =
        let c = contents w in
        let count = w.size - pos in
        let h : pos ≤ w.size = place-le e.key valid in
        let lower_part = below-Splits e.key c pos (find-Splits e.key valid) in
        let upper_part = from-Splits e.key c pos (find-Splits e.key valid) in
        let len : length (from e.key c) ≡ count =
          ap length upper_part ∙ omega (arith, length-drop pos c, length-contents valid) in
        let first_set = set v.list 0 e in
        let v' : Vec V = record { list = memcpy count first_set 1 w.list pos; size = 1 + count } in
        let holds : contents v' ≡ e ∷ drop pos c =
          take-memcpy count first_set 1 w.list pos (omega (arith, valid.fits))
            (omega (arith, len, length-set v.list 0 e))
          ∙ ap (λ front. front ++ take count (drop pos w.list))
              (take-set 0 v.list e (omega (arith, len)))
          ∙ ap (◌∷◌ e) (take-drop w.size pos w.list h) in
        let (trim_valid, trim) = trimmed v valid pos h (w.size - count) (omega arith) in
        (
          v',
          kept w (w.size - count),
          ground (arith, lookup-absent e.key valid fresh, len),
          IsValid-of v'
              (omega
                (arith, len, length-memcpy count first_set 1 w.list pos, length-set v.list 0 e))
              (rw holds tail-IsAscending),
          trim_valid,
          holds ∙ ap (◌∷◌ e) (sym upper_part),
          trim ∙ sym lower_part,
        )
