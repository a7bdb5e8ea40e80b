-- ===== src/Vector/Sorted/Halve.antt =====
-- `steal_half_and_insert` of vector_sfra.h.
use disco_skip.Prelude.{ℕ, suc, ◌+◌, ◌-◌, ◌/◌, ◌≤◌, ◌<◌, ◌≡◌, refl, sym, ◌∙◌}
use disco_skip.Prelude.{ap, arith, dec_lt, Bool, true, false, not, none, some}
use disco_skip.Prelude.{List, [], ◌∷◌, ◌++◌, leb, ◌==◌, ◌||◌}
use disco_skip.Prelude.{length, set, take, drop, length-set, length-take}
use disco_skip.Prelude.{length-drop, length-append}
use disco_skip.Prelude.{length-splice, take-append-drop}
use mathlib.Core.Path.{subst}
use disco_skip.Vector.Slots.{Entry, key_at, memcpy}
use disco_skip.Vector.Slots.{length-memcpy}
use disco_skip.Vector.Entries
use disco_skip.Vector.Entries.{Splits, IsAscending, lookup, below, from, erase, floor, rank}
use disco_skip.Vector.Entries.{lookup-Splits, below-Splits, from-Splits, erase-Splits, floor-Splits}
use disco_skip.Vector.Sorted.{Vec, get_capacity, insert}
use disco_skip.Vector.Sorted.{steal_then_insert, steal_around}
use disco_skip.Vector.Sorted.{steal_half_and_insert, insert_asserting}
use disco_skip.Vector.Sorted.Find.{contents, IsValid, find-Splits}
use disco_skip.Vector.Sorted.Find.{length-contents}
use disco_skip.Vector.Sorted.Shift.{}
use disco_skip.Vector.Sorted.Place.{place, place-le}
use disco_skip.Prelude.{
  take-drop, take-take, drop-take-append, take-append-take, take-set, append_assoc,
}
use disco_skip.Vector.Slots.{take-memcpy, take-memcpy_front}
use disco_skip.Vector.Sorted.Find.{IsValid-of}
use disco_skip.Vector.Sorted.Place.{lookup-absent}
use disco_skip.Vector.Sorted.Split.{
  kept, stolen, trimmed, contents-kept, kept-IsValid, contents-stolen,
}
use disco_skip.Vector.Sorted.Insert.{insert_refines}
use disco_skip.Vector.Sorted.Steal.{all, all-eq, all-IsAscending}
use disco_skip.Vector.Entries.{
  IsBefore, append-IsAscending, take-IsAscending, drop-IsAscending, cons-IsAscending,
  IsAscending-append, lookup-prefix, Splits-take,
}

module _ {V : Type 0} where
  -- What both cases of `steal_half_and_insert` achieve: together the vectors hold the entries of `all`,
  -- of which the victim has `n`.
  record Halves (cap n : ℕ) (c : List (Entry V)) (v' victim' : Vec V) : Type 0 where
    together : contents victim' ++ contents v' ≡ c
    share : length (contents victim') ≡ n
    room : v'.size ≤ length v'.list
    room' : victim'.size ≤ length victim'.list
    cap_lem : length v'.list ≡ cap
    cap_lem' : length victim'.list ≡ cap

  module _ (v : Vec V) {w : Vec V} (e : Entry V) (valid : IsValid w)
      (same : length v.list ≡ length w.list) (fresh : lookup e.key (contents w) ≡ none) where
    abbrev c : List (Entry V)
    c = contents w

    abbrev p : ℕ
    p = place e.key valid

    abbrev whole : List (Entry V)
    whole = all e valid fresh

    module _ (m : ℕ) (fits : m ≤ w.size) (nonfull : m < length w.list) (left : p ≤ m) where
      inserted : Bool × Bool × Vec V
      inserted = insert (kept w m) e

      short : Vec V
      unfolding inserted
      short = inserted.2

      kept-fresh : lookup e.key (contents (kept w m)) ≡ none
      kept-fresh =
          rw (contents-kept v valid m fits)
            (lookup-prefix e.key (take m c) (drop m c) (rw (take-append-drop m c) fresh))

      pieces :
          below e.key (take m c) ++ e ∷ from e.key (take m c) ≡ take p c ++ e ∷ drop p (take m c)
      pieces =
          let s = Splits-take m (find-Splits e.key valid) left in
          rw (below-Splits e.key (take m c) p s, from-Splits e.key (take m c) p s)
            (rw (take-take p m c left))

      inserted-eq :
          (IsValid short)
          × (inserted.0 ≡ true)
          × (inserted.1 ≡ false)
          × (contents short ≡ take p c ++ e ∷ drop p (take m c))
          × (length short.list ≡ length w.list)
      unfolding inserted short
      inserted-eq =
          let (ok, same_flags, cap) = insert_refines e (kept-IsValid v valid m fits) in
          let room =
            Entries.insert-room (length w.list) e (contents (kept w m)) kept-fresh
              (omega (arith, length-take m w.list)) in
          let flags = same_flags ∙ room in
          (
            ok,
            ap (λ t. t.0) flags,
            ap (λ t. t.1) flags,
            ap (λ t. t.2) flags ∙ rw (contents-kept v valid m fits) pieces,
            cap,
          )

      lower_case :
          w.size - m ≤ length v.list → Halves (length w.list) (m + 1) whole (stolen v w m) short
      lower_case room =
          let (ok, flag, over, holds, cap) = inserted-eq in
          let len = length-memcpy (w.size - m) v.list 0 w.list m in
          record {
            together =
                rw (holds, contents-stolen v valid m fits room, all-eq e valid fresh)
                  (append_assoc (take p c) (e ∷ drop p (take m c)) (drop m c)
                    ∙ ap (λ t. take p c ++ e ∷ t) (drop-take-append m p c left));
            share =
                ap length holds
                ∙ omega (
                  arith,
                  length-append (take p c) (e ∷ drop p (take m c)),
                  length-take p c,
                  length-drop p (take m c),
                  length-take m c,
                  length-contents valid,
                );
            room = omega (arith, len);
            room' = ok.fits;
            cap_lem = omega (arith, len, same);
            cap_lem' = cap;
          }

      -- What `steal_then_insert` returns.
      steal_then_insert-eq : steal_then_insert v w e m ≡ some (stolen v w m, short)
      unfolding steal_then_insert insert_asserting inserted short
      steal_then_insert-eq = let (ok, flag, over, holds, cap) = inserted-eq in ground arith

    module _ (m : ℕ) (fits : m ≤ p) (half : m ≤ w.size) where
      abbrev fb : ℕ
      fb = p - m

      abbrev copied : List (Entry V)
      copied = memcpy fb v.list 0 w.list m

      abbrev around : Vec V
      around = (steal_around v w e m p).0

      length-around : length around.list ≡ length v.list
      unfolding steal_around
      length-around = omega (
        arith,
        length-memcpy (w.size - m - fb) (set copied fb e) (fb + 1) w.list (m + fb),
        length-set copied fb e,
        length-memcpy fb v.list 0 w.list m,
      )

      front :
          w.size - m < length v.list
          → take (fb + 1) (set copied fb e) ≡ take fb (drop m c) ++ e ∷ []
      front room =
          let h : p ≤ w.size = place-le e.key valid in
          let len : length copied ≡ length v.list = length-memcpy fb v.list 0 w.list m in
          ap (λ k. take k (set copied fb e)) {x = fb + 1} {y = suc fb} (omega arith)
          ∙ take-set fb copied e (omega (arith, len))
          ∙ ap (λ t. t ++ e ∷ [])
              (take-memcpy_front fb v.list w.list m (omega (arith, valid.fits)) (omega arith)
                ∙ sym (take-take fb (w.size - m) (drop m w.list) (omega arith))
                ∙ ap (take fb) (take-drop w.size m w.list half))

      contents-around :
          w.size - m < length v.list → contents around ≡ take fb (drop m c) ++ e ∷ drop p c
      unfolding steal_around
      contents-around room =
          let n = w.size - m - fb in
          let h : p ≤ w.size = place-le e.key valid in
          let len : length copied ≡ length v.list = length-memcpy fb v.list 0 w.list m in
          let xs = set copied fb e in
          let list = memcpy n xs (fb + 1) w.list (m + fb) in
          let back : take n (drop (m + fb) w.list) ≡ drop p c =
            ap (λ k. take n (drop k w.list)) {x = m + fb} {y = p} (omega arith)
            ∙ ap (λ k. take k (drop p w.list)) {x = n} {y = w.size - p} (omega arith)
            ∙ take-drop w.size p w.list h in
          ap (λ k. take k list) {x = w.size - m + 1} {y = fb + 1 + n} (omega arith)
          ∙ take-memcpy n xs (fb + 1) w.list (m + fb) (omega (arith, valid.fits))
              (omega (arith, len, length-set copied fb e))
          ∙ ap (λ t. t ++ take n (drop (m + fb) w.list)) (front room)
          ∙ ap (λ t. (take fb (drop m c) ++ e ∷ []) ++ t) back
          ∙ append_assoc (take fb (drop m c)) (e ∷ []) (drop p c)

      upper_case :
          w.size - m < length v.list
          → Halves (length w.list) m whole around (steal_around v w e m p).1
      unfolding steal_around
      upper_case room =
          let (trim_valid, trim) = trimmed v valid m half (w.size - (w.size - m)) (omega arith) in
          record {
            together =
                rw (trim, all-eq e valid fresh)
                  (ap (λ t. take m c ++ t) (contents-around room)
                    ∙ sym (append_assoc (take m c) (take fb (drop m c)) (e ∷ drop p c))
                    ∙ ap (λ t. t ++ e ∷ drop p c) (take-append-take m fb c)
                    ∙ ap (λ k. take k c ++ e ∷ drop p c) {x = m + fb} {y = p} (omega arith));
            share = ap length trim ∙ omega (arith, length-take m c, length-contents valid);
            room = omega (arith, length-around, place-le e.key valid);
            room' = trim_valid.fits;
            cap_lem = length-around ∙ same;
            cap_lem' = refl;
          }

    -- How many entries the victim keeps: half of them with the new one, rounded up.
    abbrev kept_count : ℕ
    kept_count = (w.size + 2) / 2

    absent : (leb w.size p || not (key_at w.list p == e.key)) ≡ true
    absent = ground (arith, lookup-absent e.key valid fresh)

    steal_half_and_insert-Halves :
        0 < length w.list
        → (v' : Vec V) × (victim' : Vec V) × (steal_half_and_insert v w e ≡ some (v', victim'))
          × Halves (length w.list) kept_count whole v' victim'
    unfolding steal_half_and_insert
    steal_half_and_insert-Halves large =
        let m : ℕ = w.size / 2 in
        let in_range = place-le e.key valid in
        let count =
          λ (k : ℕ) (v' w' : Vec V) (q : k ≡ kept_count) (h : Halves (length w.list) k whole v' w').
            subst (λ j. Halves (length w.list) j whole v' w') q h in
        elim (dec_lt m p) [
          | no low ↦
              let fits : m ≤ w.size = omega arith in
              let nonfull : m < length w.list = omega (arith, valid.fits) in
              let left : p ≤ m = omega arith in
              let eq = steal_then_insert-eq m fits nonfull left in
              (
                stolen v w m,
                short m fits nonfull left,
                ground (arith, absent, eq),
                count (m + 1) (stolen v w m) (short m fits nonfull left) (omega arith)
                    (lower_case m fits nonfull left (omega (arith, valid.fits))),
              )
          | yes high ↦
              let past : m + 1 ≤ p = omega arith in
              let half : m + 1 ≤ w.size = omega (arith, in_range) in
              (
                around (m + 1) past half,
                (steal_around v w e (m + 1) p).1,
                ground (arith, absent),
                count (m + 1) (around (m + 1) past half) (steal_around v w e (m + 1) p).1
                    (omega arith) (upper_case (m + 1) past half (omega (arith, valid.fits))),
              )
        ]

    -- If the pair's key is not in the valid victim, and both arrays have the same positive length,
    -- `steal_half_and_insert` succeeds: the victim's entries and then the other vector's are the old
    -- ones with the pair in its place; of these n + 1 entries the victim has the half rounded up, and
    -- the other vector the half rounded down. Both vectors are valid and keep their capacity.
    pub steal_half_and_insert_refines :
        0 < get_capacity w
        → (v' : Vec V) × (victim' : Vec V) × (steal_half_and_insert v w e ≡ some (v', victim'))
          × IsValid v'
          × IsValid victim'
          × (contents victim' ++ contents v'
              ≡ below e.key (contents w) ++ e ∷ from e.key (contents w))
          × (length (contents victim') ≡ (length (contents w) + 2) / 2)
          × (length (contents v') ≡ (length (contents w) + 1) / 2)
          × (get_capacity v' ≡ get_capacity w)
          × (get_capacity victim' ≡ get_capacity w)
    steal_half_and_insert_refines large =
        let (v', w', eq, h) = steal_half_and_insert-Halves large in
        let (low, high) =
          IsAscending-append (contents w') (contents v')
            (rw h.together (all-IsAscending e valid fresh)) in
        let len = length-contents valid in
        let total : length (contents w') + length (contents v') ≡ length c + 1 =
          sym (length-append (contents w') (contents v'))
          ∙ ap length (h.together ∙ all-eq e valid fresh)
          ∙ length-splice p e c in
        (
          v',
          w',
          eq,
          IsValid-of v' h.room high,
          IsValid-of w' h.room' low,
          h.together,
          omega (arith, h.share, len),
          omega (arith, h.share, len, total),
          h.cap_lem,
          h.cap_lem',
        )
