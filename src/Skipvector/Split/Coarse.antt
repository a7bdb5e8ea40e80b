-- ===== src/Skipvector/Split/Coarse.antt =====
-- The split of `mirror_split_at_level` at the entry of a key that is not the least of its node.
use disco_skip.Skipvector.Boundaries.{boundaries, boundaries-usable, Grown}
use disco_skip.Prelude.{
  length-take, length-drop, get_elem?-drop, ℕ, ◌+◌, ◌<◌, ◌≡◌, ◌≢◌, refl, sym, ◌∙◌,
}
use disco_skip.Prelude.{ap, arith, Bool, true, false, some}
use disco_skip.Prelude.{List, [], ◌∷◌, ◌++◌, inl, inr}
use disco_skip.Prelude.{ltb-true, Option-cases}
use disco_skip.Prelude.{length, length-take}
use disco_skip.Prelude.{length-drop, get_elem?-drop}
use disco_skip.SvLock
use disco_skip.SvLock.{
  is_unlocked, is_orphan, begin_read, confirm_read, try_upgrade, release_changed_if,
}
use disco_skip.Vector.Slots.{Entry, key_at}
use disco_skip.Vector.Entries.{below-Splits, from-Splits, lookup, below, from}
use disco_skip.Vector.Parts.{put-present}
use disco_skip.Vector.Sorted.{Vec, get_capacity, first, contains_key, find, split_at}
use disco_skip.Vector.Sorted.Split.{Received, split_at_refines}
use disco_skip.Vector.Sorted.Room.{split_at-capacity}
use disco_skip.Vector.Sorted.Remove.{contains_refines}
use disco_skip.Vector.Sorted.Find.{
  find-Splits, get_elem?-contents, contents, IsValid, length-contents,
}
use disco_skip.Skipvector.Nodes.{Node, ok, new_node, empty_vec}
use disco_skip.Skipvector.Mirror.{pair, unlock, split_coarse}
use disco_skip.Skipvector.Layers.{AreNew, IsAway, flat, IsSound, AreFilled}
use disco_skip.Skipvector.Stored.{unlock_lem, length-empty, append-nil}
use disco_skip.Skipvector.Split.{HandsUp, Outcome, first-contents, parts-together}

Received-true :
    (v v' : Vec ℕ) (upper : List (Entry ℕ)) (moved : Bool)
    → moved ≡ true
    → Received v moved v' upper
    → IsValid v' × (contents v' ≡ upper)
Received-true v v' upper true p h = h
Received-true v v' upper false p h = absurd (ground arith)

module _ (cap r fresh : ℕ) (e : Entry ℕ) (old : Node) (sound : IsSound cap old) where
  abbrev locked : Node
  locked = record old { lock = old.lock + 4 }

  abbrev low : List (Entry ℕ)
  low = below e.key (contents old.v)

  abbrev high : List (Entry ℕ)
  high = from e.key (contents old.v)

  contains_key-lookup :
      contains_key old.v e.key ≡ true → (x : ℕ) × (lookup e.key (contents old.v) ≡ some x)
  contains_key-lookup p = elim (Option-cases (lookup e.key (contents old.v))) [
    | inr found ↦ found
    | inl q ↦ absurd (ground (arith, (contains_refines e.key sound.valid).1))
  ]

  coarse-run :
      {word : ℕ} {theirs ours : Vec ℕ}
      → split_at (empty_vec (get_capacity old.v)) old.v e.key ≡ some (true, theirs, ours)
      → release_changed_if true (old.lock + 4) ≡ some word
      → split_coarse fresh locked e.key r
        ≡ ok (
          some fresh,
          record locked { v = ours; lock = word }
              ∷ record (new_node fresh (get_capacity old.v) false r) { v = theirs }
              ∷ [],
        )
  unfolding split_coarse unlock new_node
  coarse-run p q = rw p (rw q refl)

  parts-present :
      contains_key old.v e.key ≡ true
      → first old.v ≢ e.key
      → (0 < length low) × (0 < length high) × (key_at high 0 ≡ e.key)
  unfolding contains_key first
  parts-present p other =
      let s = find-Splits e.key sound.valid in
      let c = contents old.v in
      let pos : ℕ = find old.v e.key in
      rw (below-Splits e.key c pos s, from-Splits e.key c pos s)
        (ground (
          arith,
          length-contents sound.valid,
          length-take pos c,
          length-drop pos c,
          get_elem?-drop pos 0 c,
          get_elem?-contents old.v pos,
        ))

  -- The key of an entry that is not the least.
  pub coarse-IsParted :
      contains_key old.v e.key ≡ true
      → first old.v ≢ e.key
      → Outcome cap r fresh e old (split_coarse fresh locked e.key r)
  unfolding HandsUp AreFilled AreNew IsAway flat new_node SvLock.init is_unlocked is_orphan Grown
      boundaries
  coarse-IsParted p other =
      let c = contents old.v in
      let (some_low, some_high, start) = parts-present p other in
      let (x, present) = contains_key-lookup p in
      let cap' = get_capacity old.v in
      let (moved, theirs, ours, eq, valid, kept, moves, received) =
        split_at_refines (empty_vec cap') e.key sound.valid (length-empty cap') in
      let moved_true : moved ≡ true = moves ∙ ltb-true 0 (length high) some_high in
      let (theirs_valid, taken) =
        Received-true (empty_vec cap') theirs high moved moved_true received in
      let (word, released, h, u, same) = unlock_lem old.lock sound.in_word sound.unlocked true in
      let split_eq : split_at (empty_vec cap') old.v e.key ≡ some (true, theirs, ours) =
        rw (sym moved_true) eq in
      let (room, room') = split_at-capacity (empty_vec cap') old.v e.key split_eq in
      let theirs_filled : 0 < theirs.size =
        omega (arith, length-contents theirs_valid, ap length taken) in
      let least : first theirs ≡ e.key =
        sym (first-contents theirs_valid theirs_filled) ∙ rw taken start in
      let node : Node = record locked { v = ours; lock = word } in
      let split : Node = record (new_node fresh cap' false r) { v = theirs } in
      (
        some fresh,
        node,
        split ∷ [],
        coarse-run split_eq released,
        record {
          together =
              rw (kept, taken)
                (ap (◌++◌ low) (append-nil high)
                  ∙ parts-together cap e old sound
                  ∙ sym (put-present e c present));
          sound = record {
            in_word = h;
            unlocked = u;
            valid = valid;
            capacity = room' ∙ sound.capacity;
          };
          filled = λ q l. omega (arith, length-contents valid, ap length kept);
          others_filled = (
            (
              record {
                in_word = omega arith;
                unlocked = refl;
                valid = theirs_valid;
                capacity = room ∙ length-empty cap' ∙ sound.capacity;
              },
              theirs_filled,
            ),
            tt,
          );
          same_address = refl;
          same_orphan = same;
          others_new = ((omega arith, omega arith), (tt, tt));
          grown =
              inl (
                boundaries-usable split [] refl ∙ ap (λ k. pair k fresh ∷ []) least,
                λ more. other,
              );
          handed = (node ∷ [], split, [], refl, refl, refl, refl, theirs_filled, least);
        },
      )
