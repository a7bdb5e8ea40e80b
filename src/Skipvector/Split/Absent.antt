-- ===== src/Skipvector/Split/Absent.antt =====
-- The split of `mirror_split_at_level` at an absent key, which may first shed half of the node.
use disco_skip.Skipvector.Boundaries.{boundaries, boundaries-usable, Grown}
use disco_skip.Prelude.{inl, inr, ℕ, zero, suc, ◌+◌, ◌≤◌, ◌<◌, ◌≡◌, refl, sym, ◌∙◌}
use disco_skip.Prelude.{ap, arith, ℕ_discrete, Bool, true, false, none, some}
use disco_skip.Prelude.{List, [], ◌∷◌, ◌++◌, ltb, ◌==◌, ◌&&◌}
use disco_skip.Prelude.{length}
use disco_skip.Prelude.{length-append}
use disco_skip.Prelude.{get_elem?-append}
use disco_skip.SvLock
use disco_skip.SvLock.{
  is_unlocked, is_orphan, begin_read, confirm_read, try_upgrade, release_changed_if,
}
use disco_skip.Vector.Slots.{Entry, key_at}
use disco_skip.Vector.Entries.{lookup, below, from}
use disco_skip.Vector.Parts.{AllAbove, put, put-absent, above-parts}
use disco_skip.Vector.Sorted.{Vec, get_capacity, first, split_insert, steal_half}
use disco_skip.Vector.Sorted.Split.{steal_half_refines}
use disco_skip.Vector.Sorted.Steal.{split_insert_refines}
use disco_skip.Vector.Sorted.Room.{split_insert-capacity, steal_half-capacity}
use disco_skip.Vector.Sorted.Find.{contents, IsValid, length-contents, contents-IsAscending}
use disco_skip.Skipvector.Nodes.{Node, ok, new_node, empty_vec}
use disco_skip.Skipvector.Mirror.{pair, unlock, shed_half, split_new}
use disco_skip.Skipvector.Layers.{
  AreNew, AreNew-wider, AreNew-IsAway, IsAway, flat, IsSound, AreFilled,
}
use disco_skip.Skipvector.Stored.{unlock_lem, length-empty, append-nil}
use disco_skip.Skipvector.Split.{HandsUp, Outcome, first-contents, first-present, parts-together}

module _ (cap r fresh : ℕ) (e : Entry ℕ) (old : Node) (sound : IsSound cap old) where
  abbrev locked : Node
  locked = record old { lock = old.lock + 4 }

  abbrev low : List (Entry ℕ)
  low = below e.key (contents old.v)

  abbrev high : List (Entry ℕ)
  high = from e.key (contents old.v)

  new-run :
      {word : ℕ} {shed : List Node} {w theirs ours : Vec ℕ}
      → shed_half fresh locked e.key ≡ (record locked { v = w }, shed)
      → split_insert (empty_vec (get_capacity w)) w e ≡ some (theirs, ours)
      → release_changed_if true (old.lock + 4) ≡ some word
      → split_new fresh locked e r
        ≡ ok (
          some (fresh + 1),
          record locked { v = ours; lock = word }
              ∷ record (new_node (fresh + 1) (get_capacity w) false r) { v = theirs }
              ∷ shed,
        )
  unfolding split_new unlock new_node
  new-run p q h = rw (p, split_new) (rw q (rw h refl))

  -- The node that is split, and the nodes with the entries that it has shed.
  pub record IsShed (w : Vec ℕ) (shed : List Node) : Type 0 where
    run : shed_half fresh locked e.key ≡ (record locked { v = w }, shed)
    valid : IsValid w
    capacity : get_capacity w ≡ cap
    absent : lookup e.key (contents w) ≡ none
    room : length (from e.key (contents w)) < cap
    lower : below e.key (contents w) ≡ low
    upper : from e.key (contents w) ++ flat shed ≡ high
    filled : AreFilled cap shed
    new : AreNew fresh (fresh + 1) shed
    orphans : boundaries shed ≡ []

  new-together :
      (w : Vec ℕ) (shed : List Node) (a b : List (Entry ℕ))
      → lookup e.key (contents old.v) ≡ none
      → IsShed w shed
      → a ≡ below e.key (contents w)
      → b ≡ e ∷ from e.key (contents w)
      → a ++ (b ++ flat shed) ≡ put e (contents old.v)
  new-together w shed a b absent h p q =
      rw (p, q, put-absent e (contents old.v) absent, h.lower) (ap (λ c. low ++ e ∷ c) h.upper)

  below-filled :
      (k : ℕ) (c : List (Entry ℕ))
      → 0 < length c
      → key_at c 0 ≤ k
      → lookup k c ≡ none
      → 0 < length (below k c)
  unfolding below lookup
  below-filled k [] h p q = absurd (omega arith)
  below-filled k (f ∷ c) h p q = ground arith

  absent-first :
      lookup e.key (contents old.v) ≡ none
      → ((x : ℕ) × (lookup e.key (contents old.v) ≡ some x))
      → ⊥
  absent-first absent (x, p) = ground arith

  pub new-IsParted :
      (w : Vec ℕ) (shed : List Node)
      → lookup e.key (contents old.v) ≡ none
      → IsShed w shed
      → Outcome cap r fresh e old (split_new fresh locked e r)
  unfolding HandsUp AreFilled AreNew IsAway flat new_node SvLock.init is_unlocked is_orphan Grown
      boundaries
  new-IsParted w shed absent h =
      let capw = get_capacity w in
      let (theirs, ours, eq, valid', valid, taken, kept) =
        split_insert_refines e h.valid h.absent (empty_vec capw)
          (omega (arith, h.room, h.capacity, length-empty capw)) in
      let (word, released, in_word, u, same) =
        unlock_lem old.lock sound.in_word sound.unlocked true in
      let (room, room') = split_insert-capacity (empty_vec capw) w e eq in
      let filled : 0 < theirs.size = omega (arith, length-contents valid', ap length taken) in
      let node : Node = record locked { v = ours; lock = word } in
      let made : Node = record (new_node (fresh + 1) capw false r) { v = theirs } in
      let least : first theirs ≡ e.key =
        sym (first-contents valid' filled) ∙ ap (λ c. key_at c 0) taken in
      (
        some (fresh + 1),
        node,
        made ∷ shed,
        new-run h.run eq released,
        record {
          together = new-together w shed (contents ours) (contents theirs) absent h kept taken;
          sound = record {
            in_word = in_word;
            unlocked = u;
            valid = valid;
            capacity = room' ∙ h.capacity;
          };
          filled = λ more least. omega (
            arith,
            length-contents valid,
            ap length (kept ∙ h.lower),
            below-filled e.key (contents old.v) (omega (arith, length-contents sound.valid))
                (omega (arith, first-contents sound.valid more)) absent,
          );
          others_filled = (
            (
              record {
                in_word = omega arith;
                unlocked = refl;
                valid = valid';
                capacity = room ∙ length-empty capw ∙ h.capacity;
              },
              filled,
            ),
            h.filled,
          );
          same_address = refl;
          same_orphan = same;
          others_new = (
            (omega arith, omega arith),
            (
              AreNew-IsAway fresh (fresh + 1) (fresh + 1) shed (inr (omega arith)) h.new,
              AreNew-wider fresh (fresh + 1) fresh (fresh + 2) shed (omega arith) (omega arith)
                  h.new,
            ),
          );
          grown = inl (
            boundaries-usable made shed refl
                ∙ ap (λ c. pair (first theirs) (fresh + 1) ∷ c) h.orphans
                ∙ ap (λ k. pair k (fresh + 1) ∷ []) least,
            λ more same. absurd (
                absent-first absent (
                  first-present cap r fresh e old sound e.key (contents old.v)
                    (omega (arith, length-contents sound.valid, more))
                    (first-contents sound.valid more ∙ same))),
          );
          handed = (node ∷ [], made, shed, refl, refl, refl, refl, filled, least);
        },
      )

  abbrev pub overfull : Bool
  overfull = old.v.size == get_capacity old.v && ltb e.key (first old.v)

  module _ (absent : lookup e.key (contents old.v) ≡ none) (large : 0 < cap) where
    parts-length : length low + length high ≡ old.v.size
    parts-length =
        sym (length-append low high)
        ∙ ap length (parts-together cap e old sound)
        ∙ length-contents sound.valid

    pub nothing-IsShed : overfull ≡ false → IsShed old.v []
    unfolding shed_half flat AreFilled AreNew IsAway boundaries
    nothing-IsShed p = record {
      run = rw p refl;
      valid = sound.valid;
      capacity = sound.capacity;
      absent = absent;
      room = elim (ℕ_discrete old.v.size cap) [
        | no other ↦ omega (arith, parts-length, sound.capacity, sound.valid.fits)
        | yes same ↦
            let more : 0 < old.v.size = omega arith in
            let least : first old.v ≤ e.key = ground (arith, sound.capacity) in
            omega (
              arith,
              parts-length,
              below-filled e.key (contents old.v) (omega (arith, length-contents sound.valid))
                  (omega (arith, first-contents sound.valid more)) absent,
            )
      ];
      lower = refl;
      upper = append-nil high;
      filled = tt;
      new = tt;
      orphans = refl;
    }

    abbrev pub halves : Vec ℕ × Vec ℕ
    halves = steal_half (empty_vec (get_capacity old.v)) old.v

    abbrev pub shed : Node
    shed = record (new_node fresh (get_capacity old.v) true 0) { v = halves.0 }

    all-above : overfull ≡ true → AllAbove e.key (contents old.v)
    all-above p zero q = ground (arith, length-contents sound.valid, first-contents sound.valid)
    all-above p (suc i) q = ground (
      arith,
      length-contents sound.valid,
      first-contents sound.valid,
      contents-IsAscending sound.valid 0 (suc i),
    )

    prefix-above : (c d : List (Entry ℕ)) → AllAbove e.key (c ++ d) → AllAbove e.key c
    prefix-above c d h i q = ground (arith, length-append c d, get_elem?-append c d i, h i)

    pub half-IsShed : overfull ≡ true → IsShed halves.1 (shed ∷ [])
    unfolding shed_half flat AreFilled AreNew IsAway new_node SvLock.init is_unlocked is_orphan
        boundaries
    half-IsShed p =
        let cap' = get_capacity old.v in
        let (valid', valid, all, share, room) =
          steal_half_refines (empty_vec cap') sound.valid (length-empty cap') in
        let above : AllAbove e.key (contents halves.1) =
          prefix-above (contents halves.1) (contents halves.0) (rw all (all-above p)) in
        let (no_low, all_high, gone) = above-parts e.key (contents halves.1) above in
        let (no_low', all_high', gone') = above-parts e.key (contents old.v) (all-above p) in
        let full : old.v.size ≡ cap = ground (arith, sound.capacity) in
        let total : length (contents halves.1) + length (contents halves.0) ≡ old.v.size =
          sym (length-append (contents halves.1) (contents halves.0))
          ∙ ap length all
          ∙ length-contents sound.valid in
        record {
          run = rw p refl;
          valid = valid;
          capacity = steal_half-capacity (empty_vec cap') old.v ∙ sound.capacity;
          absent = gone;
          room = omega (arith, ap length all_high, share, length-contents sound.valid);
          lower = no_low ∙ sym no_low';
          upper =
              ap (λ c. c ++ (contents halves.0 ++ [])) all_high
              ∙ ap (◌++◌ (contents halves.1)) (append-nil (contents halves.0))
              ∙ all
              ∙ sym all_high';
          filled = (
            (
              record {
                in_word = omega arith;
                unlocked = refl;
                valid = valid';
                capacity = room ∙ length-empty cap' ∙ sound.capacity;
              },
              omega (arith, total, share, length-contents valid', length-contents sound.valid),
            ),
            tt,
          );
          new = ((omega arith, omega arith), (tt, tt));
          orphans = refl;
        }
