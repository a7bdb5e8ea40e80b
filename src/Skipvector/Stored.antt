-- ===== src/Skipvector/Stored.antt =====
-- What `insert` of a node of skipvector_disco.h does to the node, and the words of its lock.
use disco_skip.Skipvector.Boundaries.{boundaries}
use disco_skip.Prelude.{ℕ, zero, suc, ◌+◌, ◌%◌, ◌^◌, ◌<◌, ◌≡◌, refl, sym, ◌∙◌}
use disco_skip.Prelude.{ap, arith, ℕ_discrete, Bool, true, false, none, some}
use disco_skip.Prelude.{List, [], ◌∷◌, ◌++◌, inl, inr}
use disco_skip.Prelude.{Option-cases}
use disco_skip.Prelude.{length}
use disco_skip.Prelude.{length-append}
use disco_skip.SvLock
use disco_skip.SvLock.{is_unlocked, begin_read, confirm_read, try_upgrade, release_changed_if}
use disco_skip.Vector.Slots.{Entry}
use disco_skip.Vector.Entries
use disco_skip.Vector.Entries.{
  IsAscending, IsAscending-append, IsBefore, floor, lookup, below, from,
}
use disco_skip.Vector.Parts.{put, put-present, put-absent}
use disco_skip.Vector.Sorted
use disco_skip.Vector.Sorted.{Vec, get_capacity, first, last, find_lte, steal_half_and_insert}
use disco_skip.Vector.Sorted.Insert.{insert_refines}
use disco_skip.Vector.Sorted.Halve.{steal_half_and_insert_refines}
use disco_skip.Vector.Sorted.Find.{contents, IsValid, length-contents}
use disco_skip.Skipvector.Nodes
use disco_skip.Skipvector.Nodes.{
  Node, Layer, Attempt, ok, retry, fault, check, required, ◌>>=◌, ◌>>◌, new_node, empty_vec,
}
use disco_skip.Skipvector.Mirror.{}
use disco_skip.Skipvector.Layers.{AreNew, IsAway, flat, AreFilled}
use disco_skip.Skipvector.Locate.{}

-- An unlocked word, which a writer locks, and unlocks with or without a change.
module _ (word : ℕ) (h : word < 2 ^ 64) (u : is_unlocked word ≡ true) where
  pub lock_lem : try_upgrade word (begin_read word) ≡ some (true, word + 4)
  unfolding is_unlocked try_upgrade begin_read SvLock.compare_exchange
  lock_lem = ground arith

  pub unlock_lem :
      (changed : Bool)
      → (word' : ℕ) × (release_changed_if changed (word + 4) ≡ some word')
        × (word' < 2 ^ 64)
        × (is_unlocked word' ≡ true)
        × (SvLock.is_orphan word' ≡ SvLock.is_orphan word)
  unfolding is_unlocked release_changed_if SvLock.release SvLock.release_unchanged SvLock.is_locked
      SvLock.is_orphan
  unlock_lem true = ((word + 8) % 2 ^ 64, ground arith, ground arith, ground arith, ground arith)
  unlock_lem false = (word, ground arith, ground arith, ground arith, ground arith)

-- A node that has taken an entry, and the orphan that it may have shed behind it.
pub record HasStored (cap fresh : ℕ) (e : Entry ℕ) (old : Node) (node : Node) (orphans : List Node)
    : Type 0 where
  pub together : flat (node ∷ orphans) ≡ put e (contents old.v)
  pub valid : IsValid node.v
  pub capacity : get_capacity node.v ≡ cap
  pub filled : 0 < node.v.size
  pub same_lock : node.lock ≡ old.lock
  pub same_address : node.address ≡ old.address
  pub orphans_new : AreNew fresh (fresh + 1) orphans
  pub orphans_filled : AreFilled cap orphans
  pub no_boundary : boundaries orphans ≡ []

pub length-empty : (cap : ℕ) → get_capacity (empty_vec cap) ≡ cap
length-empty zero = refl
length-empty (suc cap) = omega (arith, length-empty cap)

pub append-nil : (c : List (Entry ℕ)) → c ++ [] ≡ c
append-nil [] = refl
append-nil (e ∷ c) = ap (◌∷◌ e) (append-nil c)

pub lookup-nonempty : (k : ℕ) (c : List (Entry ℕ)) {x : ℕ} → lookup k c ≡ some x → 0 < length c
unfolding lookup
lookup-nonempty k [] e = absurd (ground arith)
lookup-nonempty k (f ∷ c) e = omega arith

module _ (cap fresh addr : ℕ) (e : Entry ℕ) (node : Node) (valid : IsValid node.v)
    (capacity : get_capacity node.v ≡ cap) (large : 0 < cap) where
  abbrev c : List (Entry ℕ)
  c = contents node.v

  abbrev Outcome : Type 0
  Outcome =
      (changed : Bool) × (node' : Node) × (orphans : List Node) × (Nodes.insert fresh node e addr
        ≡ ok (changed, node', orphans))
      × HasStored cap fresh e node node' orphans

  flat-alone : (n : Node) → flat (n ∷ []) ≡ contents n.v
  unfolding flat
  flat-alone n = append-nil (contents n.v)

  insert-fits :
      (result : Bool) (v' : Vec ℕ)
      → Sorted.insert node.v e ≡ (result, false, v')
      → Nodes.insert fresh node e addr ≡ ok (result, record node { v = v' }, [])
  unfolding Nodes.insert
  insert-fits result v' p = rw (p, Nodes.insert)

  insert-overflows :
      (result : Bool) (v' theirs ours : Vec ℕ)
      → Sorted.insert node.v e ≡ (result, true, v')
      → steal_half_and_insert (empty_vec (get_capacity node.v)) node.v e ≡ some (theirs, ours)
      → Nodes.insert fresh node e addr
        ≡ ok (
          true,
          record node { v = ours },
          record (new_node fresh (get_capacity node.v) true addr) { v = theirs } ∷ [],
        )
  unfolding Nodes.insert new_node
  insert-overflows result v' theirs ours p q = rw (p, Nodes.insert) (rw q refl)

  abbrev res : Bool × Bool × Vec ℕ
  res = Sorted.insert node.v e

  insert-parts :
      IsValid res.2
      × ((res.0, res.1, contents res.2) ≡ Entries.insert (get_capacity node.v) e c)
      × (get_capacity res.2 ≡ get_capacity node.v)
  insert-parts = insert_refines e valid

  -- The node has room, or has the key.
  insert-stays : res.1 ≡ false → contents res.2 ≡ put e c → 0 < length (put e c) → Outcome
  unfolding AreFilled AreNew boundaries
  insert-stays room same more = (
    res.0,
    record node { v = res.2 },
    [],
    insert-fits res.0 res.2 (ap (λ o. (res.0, o, res.2)) room),
    record {
      together = flat-alone (record node { v = res.2 }) ∙ same;
      valid = insert-parts.0;
      capacity = insert-parts.2 ∙ capacity;
      filled = omega (arith, length-contents insert-parts.0, ap length same);
      same_lock = refl;
      same_address = refl;
      orphans_new = tt;
      orphans_filled = tt;
      no_boundary = refl;
    },
  )

  insert-splits : lookup e.key c ≡ none → res.1 ≡ true → length c ≡ get_capacity node.v → Outcome
  unfolding flat AreFilled AreNew IsAway new_node SvLock.init is_unlocked SvLock.is_orphan
      boundaries
  insert-splits fresh_key over full =
      let cap' = get_capacity node.v in
      let (theirs, ours, eq, valid', valid'', all, share, share', room', room) =
        steal_half_and_insert_refines (empty_vec cap') e valid (length-empty cap') fresh_key
          (omega (arith, capacity)) in
      let orphan : Node = record (new_node fresh cap' true addr) { v = theirs } in
      (
        true,
        record node { v = ours },
        orphan ∷ [],
        insert-overflows res.0 res.2 theirs ours (ap (λ o. (res.0, o, res.2)) over) eq,
        record {
          together =
              ap (◌++◌ (contents ours)) (append-nil (contents theirs))
              ∙ all
              ∙ sym (put-absent e c fresh_key);
          valid = valid'';
          capacity = room ∙ capacity;
          filled = omega (arith, length-contents valid'', share);
          same_lock = refl;
          same_address = refl;
          orphans_new = ((omega arith, omega arith), (tt, tt));
          orphans_filled = (
            (
              record {
                in_word = omega arith;
                unlocked = refl;
                valid = valid';
                capacity = room' ∙ capacity;
              },
              omega (arith, length-contents valid', share', full, capacity),
            ),
            tt,
          );
          no_boundary = refl;
        },
      )

  pub node_insert_lem : Outcome
  node_insert_lem = elim (Option-cases (lookup e.key c)) [
    | inr (x, p) ↦
        let eq = insert-parts.1 ∙ Entries.insert-present (get_capacity node.v) e c p in
        insert-stays (ap (λ r. r.1) eq) (ap (λ r. r.2) eq ∙ sym (put-present e c p))
          (rw (put-present e c p) (lookup-nonempty e.key c p))
    | inl p ↦ elim (ℕ_discrete (length c) (get_capacity node.v)) [
      | yes full ↦
          let eq = insert-parts.1 ∙ Entries.insert-full (get_capacity node.v) e c p full in
          insert-splits p (ap (λ r. r.1) eq) full
      | no room ↦
          let eq = insert-parts.1 ∙ Entries.insert-room (get_capacity node.v) e c p room in
          insert-stays (ap (λ r. r.1) eq) (ap (λ r. r.2) eq ∙ sym (put-absent e c p)) (
            omega (
              arith,
              length-append (below e.key c) (e ∷ from e.key c),
              ap length (put-absent e c p),
            ))
    ]
  ]
