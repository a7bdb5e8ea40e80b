-- ===== src/Skipvector/Split.antt =====
-- What the split of `mirror_split_at_level` of skipvector_disco.h does to a layer at rest.
use disco_skip.Skipvector.Boundaries.{boundaries, Grown}
use disco_skip.Prelude.{
  take-append-drop, length-take, length-drop, get_elem?-drop, ℕ, zero, suc, ◌+◌, ◌-◌, ◌*◌, ◌/◌, ◌%◌,
  ◌^◌, ◌≤◌, ◌<◌, ◌≡◌, ◌≢◌, ◌↔◌, refl, sym, ◌∙◌,
}
use disco_skip.Prelude.{ap, arith, dec_lt, ℕ_discrete, Bool, true, false, not, Option, none, some}
use disco_skip.Prelude.{
  List, [], ◌∷◌, ◌++◌, ltb, leb, ◌==◌, if◌then◌else◌, ◌&&◌, ◌||◌, ◌⊎◌, inl, inr,
}
use disco_skip.Prelude.{ltb-true, ltb-false, ==-true, ==-false, Bool-cases, Option-cases, min}
use disco_skip.Prelude.{length, get_elem?, set, take, drop, length-set, get_elem?-set, length-take}
use disco_skip.Prelude.{length-drop, length-append, get_elem?-take, get_elem?-drop}
use disco_skip.Prelude.{get_elem?-append, get_elem?-none, get_elem?-some, take_ext, list_ext}
use disco_skip.Prelude.{
  get_elem?-splice, length-splice, get_elem?-cut, length-cut, take-append-drop,
}
use disco_skip.SvLock
use disco_skip.SvLock.{
  is_unlocked, is_orphan, begin_read, confirm_read, try_upgrade, release_changed_if,
}
use disco_skip.Vector.Slots.{Entry, key_at}
use disco_skip.Vector.Entries
use disco_skip.Vector.Entries.{
  lookup-prefix, below-Splits, from-Splits, IsAscending, floor, lookup, below, from,
}
use disco_skip.Vector.Parts.{
  AllBelow, AllAbove, put, put-present, put-absent, put-between, above-parts,
}
use disco_skip.Vector.Sorted
use disco_skip.Vector.Sorted.{
  Vec, get_capacity, first, contains_key, find, split_at, split_insert, steal_half,
}
use disco_skip.Vector.Sorted.Split.{Received, split_at_refines, steal_half_refines}
use disco_skip.Vector.Sorted.Steal.{split_insert_refines}
use disco_skip.Vector.Sorted.Room.{split_at-capacity, split_insert-capacity, steal_half-capacity}
use disco_skip.Vector.Sorted.Remove.{contains_refines}
use disco_skip.Vector.Sorted.Find.{
  find-Splits, get_elem?-contents, contents, IsValid, length-contents, key_at-contents,
  contents-IsAscending,
}
use disco_skip.Skipvector.Nodes
use disco_skip.Skipvector.Nodes.{Node, Layer, Attempt, ok, new_node, empty_vec, ◌>>=◌, required}
use disco_skip.Skipvector.Descent.{Cursor, Skipvector}
use disco_skip.Skipvector.Mirror.{
  write_lock, unlock, replaced, pair, adopt_minimum, split_coarse, shed_half, split_new,
  split_at_cursor, mirror_split_at_level, set_layer, descend_to,
}
use disco_skip.Skipvector.Layers.{
  AreNew, flat, flat-append, IsSound, AreFilled, AreWellFormed, AreWellFormed-parts, IsLayer,
  put-IsAscending,
}
use disco_skip.Skipvector.Walk.{Reaches, Covers, parts-at, at-IsAscending}
use disco_skip.Skipvector.Install.{flat-replaced}
use disco_skip.Skipvector.Stored.{lock_lem, unlock_lem, length-empty, append-nil, lookup-nonempty}
pub mod Coarse
pub mod Absent
pub mod Level

-- The node that a split hands up: it starts with the key, mirrors the new remote node and is no
-- orphan. If there is none, the key is the least of an orphan.
unfoldable pub HandsUp : ℕ → ℕ → Node → Option ℕ → List Node → Type 0
HandsUp k r old none nodes = (first old.v ≡ k) × (is_orphan old.lock ≡ true)
HandsUp k r old (some address) nodes =
    (before : List Node) × (n : Node) × (behind : List Node) × (nodes ≡ before ++ n ∷ behind)
    × (n.address ≡ address)
    × (n.remote_addr ≡ r)
    × (is_orphan n.lock ≡ false)
    × (0 < n.v.size)
    × (first n.v ≡ k)

-- What stands in the layer for a node that has been split.
pub record IsParted (cap r fresh : ℕ) (e : Entry ℕ) (old : Node) (made : Option ℕ) (node : Node)
    (others : List Node) : Type 0 where
  pub together : flat (node ∷ others) ≡ put e (contents old.v)
  pub sound : IsSound cap node
  pub filled : 0 < old.v.size → first old.v ≤ e.key → 0 < node.v.size
  pub others_filled : AreFilled cap others
  pub same_address : node.address ≡ old.address
  pub same_orphan : is_orphan node.lock ≡ is_orphan old.lock
  pub others_new : AreNew fresh (fresh + 2) others
  pub grown : Grown e.key old made others
  pub handed : HandsUp e.key r old made (node ∷ others)

-- A split that succeeds, with what then stands for the node.
abbrev pub Outcome : ℕ → ℕ → ℕ → Entry ℕ → Node → Attempt (Option ℕ × List Node) → Type 0
Outcome cap r fresh e old m =
    (made : Option ℕ) × (node : Node) × (others : List Node) × (m ≡ ok (made, node ∷ others))
    × IsParted cap r fresh e old made node others

pub first-contents : {v : Vec ℕ} → IsValid v → 0 < v.size → key_at (contents v) 0 ≡ first v
unfolding first
first-contents {v} valid filled = key_at-contents v 0 filled

module _ (cap : ℕ) (e : Entry ℕ) (old : Node) (sound : IsSound cap old) where
  abbrev low : List (Entry ℕ)
  low = below e.key (contents old.v)

  abbrev high : List (Entry ℕ)
  high = from e.key (contents old.v)

  pub parts-together : low ++ high ≡ contents old.v
  parts-together =
      let s = find-Splits e.key sound.valid in
      let pos : ℕ = find old.v e.key in
      rw (below-Splits e.key (contents old.v) pos s, from-Splits e.key (contents old.v) pos s)
        (take-append-drop pos (contents old.v))

module _ (cap r fresh : ℕ) (e : Entry ℕ) (old : Node) (sound : IsSound cap old) where
  abbrev locked : Node
  locked = record old { lock = old.lock + 4 }

  flat-alone : (n : Node) → flat (n ∷ []) ≡ contents n.v
  unfolding flat
  flat-alone n = append-nil (contents n.v)

  still-orphan : is_orphan (old.lock + 4) ≡ is_orphan old.lock
  unfolding is_orphan
  still-orphan = ground arith

  adopt-usable :
      {word : ℕ}
      → is_orphan old.lock ≡ false
      → release_changed_if true (old.lock + 4) ≡ some word
      → adopt_minimum locked r
        ≡ ok (some old.address, record locked { remote_addr = r; lock = word } ∷ [])
  unfolding adopt_minimum unlock
  adopt-usable p q = rw (still-orphan ∙ p) (rw q refl)

  adopt-orphan :
      {word : ℕ}
      → is_orphan old.lock ≡ true
      → release_changed_if false (old.lock + 4) ≡ some word
      → adopt_minimum locked r ≡ ok (none, record locked { lock = word } ∷ [])
  unfolding adopt_minimum unlock
  adopt-orphan p q = rw (still-orphan ∙ p) (rw q refl)

  pub first-present :
      (k : ℕ) (c : List (Entry ℕ)) → 0 < length c → key_at c 0 ≡ k → (x : ℕ) × (lookup k c ≡ some x)
  unfolding lookup
  first-present k [] h p = absurd (omega arith)
  first-present k (f ∷ c) h p = (f.val, ground arith)

  pub adopt-IsParted :
      0 < old.v.size → first old.v ≡ e.key → Outcome cap r fresh e old (adopt_minimum locked r)
  unfolding HandsUp AreFilled AreNew Grown boundaries
  adopt-IsParted filled least =
      let (x, p) =
        first-present e.key (contents old.v) (omega (arith, length-contents sound.valid))
          (first-contents sound.valid filled ∙ least) in
      elim (Bool-cases (is_orphan old.lock)) [
        | inl orphan ↦
            let (word, released, h, u, same) =
              unlock_lem old.lock sound.in_word sound.unlocked false in
            let node : Node = record locked { lock = word } in
            (
              none,
              node,
              [],
              adopt-orphan orphan released,
              record {
                together = flat-alone node ∙ sym (put-present e (contents old.v) p);
                sound = record {
                  in_word = h;
                  unlocked = u;
                  valid = sound.valid;
                  capacity = sound.capacity;
                };
                filled = λ q l. q;
                others_filled = tt;
                same_address = refl;
                same_orphan = same;
                others_new = tt;
                grown = refl;
                handed = (least, orphan);
              },
            )
        | inr boundary ↦
            let (word, released, h, u, same) =
              unlock_lem old.lock sound.in_word sound.unlocked true in
            let node : Node = record locked { remote_addr = r; lock = word } in
            (
              some old.address,
              node,
              [],
              adopt-usable boundary released,
              record {
                together = flat-alone node ∙ sym (put-present e (contents old.v) p);
                sound = record {
                  in_word = h;
                  unlocked = u;
                  valid = sound.valid;
                  capacity = sound.capacity;
                };
                filled = λ q l. q;
                others_filled = tt;
                same_address = refl;
                same_orphan = same;
                others_new = tt;
                grown = inr (refl, boundary, refl, least);
                handed = ([], node, [], refl, refl, refl, same ∙ boundary, filled, least);
              },
            )
      ]
