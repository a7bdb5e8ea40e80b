-- ===== src/Skipvector/Steps.antt =====
-- An update of one level of a structure of skipvector_disco.h that is closed under down pointers.
use disco_skip.Skipvector.Boundaries.{boundaries, joined, Bounded}
use disco_skip.Skipvector.Boundaries.Replaced.{boundaries-replaced}
use disco_skip.Prelude.{none}
use disco_skip.Prelude.{ℕ, zero, suc, ◌+◌, ◌-◌, ◌≤◌, ◌<◌, ◌≡◌, ◌≢◌, refl, sym, ◌∙◌}
use disco_skip.Prelude.{ap, arith, dec_lt, ℕ_discrete, Option, some}
use disco_skip.Prelude.{List, [], ◌∷◌, ◌++◌, ◌⊎◌, inl, inr}
use disco_skip.Prelude.{Option-cases}
use disco_skip.Prelude.{length, get_elem?}
use disco_skip.Prelude.{get_elem?-append}
use disco_skip.Vector.Slots.{Entry}
use disco_skip.Vector.Entries.{lookup, below, from}
use disco_skip.Vector.Parts.{put, put-present, put-absent}
use disco_skip.Skipvector.Nodes.{Node, Layer, ok}
use disco_skip.Skipvector.Descent.{Cursor, Skipvector}
use disco_skip.Skipvector.Mirror.{pair, replaced, descend_to, install_entry, mirror_split_at_level}
use disco_skip.Skipvector.Reconcile.{level_nodes}
use disco_skip.Skipvector.Layers.{flat, IsLayer}
use disco_skip.Skipvector.Walk.{Covers}
use disco_skip.Skipvector.Locate.{
  IsLinked, PointsInto, descend_to_directory_lem, descend_to_index_level_lem,
}
use disco_skip.Skipvector.Updates.{Updates}
use disco_skip.Skipvector.Install.{insert_at-Updates}
use disco_skip.Skipvector.Split.Level.{split_at_cursor-Updates, HandsUp-replaced}
use disco_skip.Skipvector.Pointers.{Keeps, replaced-IsNumbered, HandsUp-PointsInto}
use disco_skip.Skipvector.Closed.{
  IsClosed, IsClosed-IsStructure, length-set_layer, updated, updated-same, updated-other,
  updated-IsClosed,
}

below-member :
    (k : ℕ) (c : List (Entry ℕ)) (i : ℕ) (f : Entry ℕ)
    → get_elem? (below k c) i ≡ some f
    → (j : ℕ) × (get_elem? c j ≡ some f)
unfolding below
below-member k [] i f p = absurd (ground arith)
below-member k (g ∷ c) i f p = elim (dec_lt g.key k) [
  | no h ↦ let (j, q) = below-member k c i f (ground arith) in (suc j, q)
  | yes h ↦ elim (ℕ_discrete i 0) [
    | yes z ↦ (0, ground arith)
    | no z ↦ let (j, q) = below-member k c (i - 1) f (ground arith) in (suc j, q)
  ]
]

from-member :
    (k : ℕ) (c : List (Entry ℕ)) (i : ℕ) (f : Entry ℕ)
    → get_elem? (from k c) i ≡ some f
    → (j : ℕ) × (get_elem? c j ≡ some f)
unfolding from
from-member k [] i f p = absurd (ground arith)
from-member k (g ∷ c) i f p = elim (dec_lt g.key k) [
  | yes h ↦ let (j, q) = from-member k c i f (ground arith) in (suc j, q)
  | no h ↦ elim (ℕ_discrete i 0) [
    | yes z ↦ (0, ground arith)
    | no z ↦ let (j, q) = from-member k c (i - 1) f (ground arith) in (suc j, q)
  ]
]

put-member :
    (e : Entry ℕ) (c : List (Entry ℕ)) (i : ℕ) (f : Entry ℕ)
    → get_elem? (put e c) i ≡ some f
    → (e ≡ f) ⊎ ((j : ℕ) × (get_elem? c j ≡ some f))
put-member e c i f p = elim (Option-cases (lookup e.key c)) [
  | inr (x, q) ↦ inr (i, ap (λ d. get_elem? d i) (sym (put-present e c q)) ∙ p)
  | inl q ↦ parts (ap (λ d. get_elem? d i) (sym (put-absent e c q)) ∙ p)
]
  where
    parts :
        get_elem? (below e.key c ++ e ∷ from e.key c) i ≡ some f
        → (e ≡ f) ⊎ ((j : ℕ) × (get_elem? c j ≡ some f))
    parts h = elim (dec_lt i (length (below e.key c))) [
      | yes low ↦ inr (
          below-member e.key c i f
            (ground (arith, get_elem?-append (below e.key c) (e ∷ from e.key c) i)))
      | no high ↦ elim (ℕ_discrete i (length (below e.key c))) [
        | yes at ↦ inl (ground (arith, get_elem?-append (below e.key c) (e ∷ from e.key c) i))
        | no more ↦ inr (
            from-member e.key c (i - length (below e.key c) - 1) f
              (ground (arith, get_elem?-append (below e.key c) (e ∷ from e.key c) i)))
      ]
    ]

put-IsLinked :
    (e : Entry ℕ) (layer layer' down : Layer)
    → flat layer' ≡ put e (flat layer)
    → IsLinked layer down
    → PointsInto e down
    → IsLinked layer' down
put-IsLinked e layer layer' down same linked target i f p =
    elim (put-member e (flat layer) i f (ap (λ d. get_elem? d i) (sym same) ∙ p)) [
      | inl q ↦ rw (sym q) target
      | inr (j, q) ↦ linked j f q
    ]

-- What a step that puts an entry at a level leaves, where it has handed up the node `made`, if any.
pub record HasPut (cap : ℕ) (s : Skipvector) (l : ℕ) (e : Entry ℕ) (made : Option ℕ)
    (s' : Skipvector) : Type 0 where
  pub closed : IsClosed cap s'
  pub count : length s'.index ≡ length s.index
  pub grown : flat (level_nodes s' l) ≡ put e (flat (level_nodes s l))
  pub bounds : boundaries (level_nodes s' l) ≡ joined e.key made (boundaries (level_nodes s l))
  pub kept : Keeps (level_nodes s l) (level_nodes s' l)
  pub others : (m : ℕ) → m ≤ length s.index → m ≢ l → level_nodes s' m ≡ level_nodes s m

level_nodes-suc :
    (s : Skipvector) (n : ℕ) (layer : Layer)
    → get_elem? s.index (length s.index - suc n) ≡ some layer
    → level_nodes s (suc n) ≡ layer
unfolding level_nodes
level_nodes-suc s n layer p = rw (p, level_nodes)

level_descends :
    (cap : ℕ) (s : Skipvector) (l k : ℕ)
    → IsClosed cap s
    → l ≤ length s.index
    → (at : Cursor) × (descend_to s l k ≡ ok at) × Covers k (level_nodes s l) at
unfolding descend_to level_nodes
level_descends cap s zero k closed high =
    let (at, descended, covers, found) =
      descend_to_directory_lem k (IsClosed-IsStructure cap s closed) in
    (at, descended, covers)
level_descends cap s (suc n) k closed high =
    let (at, layer, descended, there, sound, covers, found) =
      descend_to_index_level_lem k (IsClosed-IsStructure cap s closed) (suc n) (omega arith) high in
    (at, descended, rw (level_nodes-suc s n layer there) covers)

module _ (cap : ℕ) (s : Skipvector) (closed : IsClosed cap s) (large : 0 < cap) (l : ℕ)
    (high : l ≤ length s.index) where
  put-step :
      (e : Entry ℕ) (made : Option ℕ) (at : Cursor) (nodes : List Node) (fresh' : ℕ)
      → s.fresh ≤ fresh'
      → Covers e.key (level_nodes s l) at
      → IsLayer cap (replaced at nodes)
      → flat (replaced at nodes) ≡ put e (flat (level_nodes s l))
      → Updates s.fresh fresh' e.key at.curr nodes
      → Bounded e.key made at.curr nodes
      → ((m : ℕ) → suc m ≡ l → PointsInto e (level_nodes s m))
      → HasPut cap s l e made (updated s l (replaced at nodes) fresh')
  put-step e made at nodes fresh' later covers sound same u bounded target =
      let layer = replaced at nodes in
      let (numbered, keeps) =
        replaced-IsNumbered s.fresh fresh' e.key (level_nodes s l) at nodes later
          covers.reached.place covers.reached.anchor u (closed.numbered l high) in
      let here = updated-same s l layer fresh' high in
      record {
        closed =
            updated-IsClosed cap s closed l layer fresh' high later sound numbered keeps (λ m p.
              put-IsLinked e (level_nodes s l) layer (level_nodes s m) same
                (rw (sym p) (closed.linked m (omega (arith, p)))) (target m p));
        count = length-set_layer s l layer;
        grown = ap flat here ∙ same;
        bounds =
            ap boundaries here
            ∙ boundaries-replaced cap e.key (level_nodes s l) (closed.sound l high)
                (closed.numbered l high).orphan_head at covers made nodes bounded;
        kept = λ f p. rw here (keeps f p);
        others = λ m p q. updated-other s l m layer fresh' high p q;
      }

  -- An entry that points to a node of the level below.
  pub install_step :
      (e : Entry ℕ) (orphan_addr : ℕ)
      → ((m : ℕ) → suc m ≡ l → PointsInto e (level_nodes s m))
      → (s' : Skipvector) × (install_entry s l e orphan_addr ≡ ok s') × HasPut cap s l e none s'
  unfolding install_entry
  install_step e orphan_addr target =
      let (at, descended, covers) = level_descends cap s l e.key closed high in
      let (nodes, inserted, sound, same, u, bounded) =
        insert_at-Updates cap s.fresh orphan_addr e (level_nodes s l) (closed.sound l high) large at
          covers in
      (
        updated s l (replaced at nodes) (s.fresh + 1),
        rw descended (rw inserted refl),
        put-step e none at nodes (s.fresh + 1) (omega arith) covers sound same u bounded target,
      )

  pub split_step :
      (k x r : ℕ)
      → ((m : ℕ) → suc m ≡ l → PointsInto (pair k x) (level_nodes s m))
      → (made : Option ℕ) × (s' : Skipvector) × (mirror_split_at_level s k l x r ≡ ok (made, s'))
        × HasPut cap s l (pair k x) made s'
        × ((n : ℕ) → made ≡ some n → PointsInto (pair k n) (level_nodes s' l))
  unfolding mirror_split_at_level
  split_step k x r target =
      let (at, descended, covers) = level_descends cap s l k closed high in
      let (made, nodes, run, sound, same, handed, u, bounded) =
        split_at_cursor-Updates cap r s.fresh (pair k x) (closed.sound l high) large at covers in
      let s' = updated s l (replaced at nodes) (s.fresh + 2) in
      let step =
        put-step (pair k x) made at nodes (s.fresh + 2) (omega arith) covers sound same u bounded
          target in
      let here : level_nodes s' l ≡ replaced at nodes =
        updated-same s l (replaced at nodes) (s.fresh + 2) high in
      (
        made,
        s',
        rw descended (rw run refl),
        step,
        λ n p.
            HandsUp-PointsInto k r n s'.fresh at.curr (level_nodes s' l)
              (step.closed.numbered l (omega (arith, step.count))).addresses
              (rw (here, sym p) (HandsUp-replaced k r at made nodes handed)),
      )
