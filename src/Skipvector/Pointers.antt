-- ===== src/Skipvector/Pointers.antt =====
-- The down pointers of skipvector_disco.h into a layer, and how they outlast an update of it.
use disco_skip.Prelude.{ℕ, ◌≤◌, ◌<◌, ◌≡◌, sym, ◌∙◌}
use disco_skip.Prelude.{arith, ℕ_discrete, true, false, some}
use disco_skip.Prelude.{List, [], ◌∷◌, ◌++◌, ◌⊎◌, inl, inr}
use disco_skip.Prelude.{Option-cases}
use disco_skip.SvLock.{is_orphan}
use disco_skip.Vector.Slots.{Entry}
use disco_skip.Vector.Sorted.{first}
use disco_skip.Skipvector.Nodes.{Node, Layer}
use disco_skip.Skipvector.Descent.{Cursor}
use disco_skip.Skipvector.Mirror.{pair, replaced}
use disco_skip.Skipvector.Layers.{AreNew, IsAway, AreNew-IsAway, AreNew-wider}
use disco_skip.Skipvector.Locate.{PointsInto}
use disco_skip.Skipvector.Updates.{Updates}
use disco_skip.Skipvector.Split.{HandsUp}
use disco_skip.Skipvector.Targets.{
  find, find-append, find-away, find-new, find_unique, Finds, PointsInto-Finds, Finds-PointsInto,
}

unfoldable pub HasOrphanHead : Layer → Type 0
HasOrphanHead [] = Unit {0}
HasOrphanHead (head ∷ nodes) = is_orphan head.lock ≡ true

IsAway-append : (a : ℕ) (ns ms : List Node) → IsAway a ns → IsAway a ms → IsAway a (ns ++ ms)
unfolding IsAway
IsAway-append a [] ms h g = g
IsAway-append a (n ∷ ns) ms h g = (h.0, IsAway-append a ns ms h.1 g)

module _ (fresh fresh' k : ℕ) (at : Cursor) (nodes : List Node)
    (u : Updates fresh fresh' k at.curr nodes) (later : fresh ≤ fresh') where
  open u use {node, others}

  updated-IsAway :
      (a : ℕ) (before : List Node)
      → a < fresh
      → IsAway a (before ++ at.curr ∷ at.behind)
      → IsAway a (before ++ ((node ∷ others) ++ at.behind))
  unfolding IsAway
  updated-IsAway a [] h away = (
    rw u.same_address away.0,
    IsAway-append a others at.behind (AreNew-IsAway fresh fresh' a others (inl h) u.others_new)
        away.1,
  )
  updated-IsAway a (n ∷ before) h away = (away.0, updated-IsAway a before h away.1)

  joined-AreNew :
      (ns : List Node)
      → AreNew fresh fresh' ns
      → AreNew 0 fresh at.behind
      → AreNew 0 fresh' (ns ++ at.behind)
  unfolding AreNew
  joined-AreNew [] h g = AreNew-wider 0 fresh 0 fresh' at.behind (omega arith) later g
  joined-AreNew (n ∷ ns) h g = (
    (omega arith, h.0.1),
    (
      IsAway-append n.address ns at.behind h.1.0
          (AreNew-IsAway 0 fresh n.address at.behind (inr h.0.0) g),
      joined-AreNew ns h.1.1 g,
    ),
  )

  updated-AreNew :
      (before : List Node)
      → AreNew 0 fresh (before ++ at.curr ∷ at.behind)
      → AreNew 0 fresh' (before ++ ((node ∷ others) ++ at.behind))
  unfolding AreNew
  updated-AreNew [] h = (
    (omega arith, omega (arith, h.0, u.same_address)),
    (
      IsAway-append node.address others at.behind
          (AreNew-IsAway fresh fresh' node.address others (inl (omega (arith, h.0, u.same_address)))
            u.others_new)
          (rw u.same_address h.1.0),
      joined-AreNew others u.others_new h.1.1,
    ),
  )
  updated-AreNew (n ∷ before) h = (
    (omega arith, omega (arith, h.0)),
    (updated-IsAway n.address before (omega (arith, h.0)) h.1.0, updated-AreNew before h.1.1),
  )

  updated-HasOrphanHead :
      (before : List Node)
      → HasOrphanHead (before ++ at.curr ∷ at.behind)
      → HasOrphanHead (before ++ ((node ∷ others) ++ at.behind))
  unfolding HasOrphanHead
  updated-HasOrphanHead [] h = u.same_orphan ∙ h
  updated-HasOrphanHead (n ∷ before) h = h

  -- The node in the place of the old one is found where that one was.
  updated-Finds :
      (e : Entry ℕ) (n : Node)
      → (is_orphan at.curr.lock ≡ false → first at.curr.v ≤ k)
      → AreNew 0 fresh (at.before ++ at.curr ∷ at.behind)
      → Finds e (at.before ++ at.curr ∷ at.behind) n
      → (n' : Node) × Finds e (at.before ++ ((node ∷ others) ++ at.behind)) n'
  unfolding find
  updated-Finds e n anchor new h = elim (Option-cases (find e.val at.before)) [
    | inr (m, p) ↦
        let same : m ≡ n =
          ground (arith, h.found, find-append e.val at.before (at.curr ∷ at.behind)) in
        (
          n,
          record {
            found = ground (arith, find-append e.val at.before ((node ∷ others) ++ at.behind));
            filled = h.filled;
            low = h.low;
            boundary = h.boundary;
          },
        )
    | inl p ↦ elim (ℕ_discrete at.curr.address e.val) [
      | yes here ↦
          let same : at.curr ≡ n =
            ground (arith, h.found, find-append e.val at.before (at.curr ∷ at.behind)) in
          let filled : 0 < at.curr.v.size = rw same h.filled in
          let boundary : is_orphan at.curr.lock ≡ false = rw same h.boundary in
          let low : first at.curr.v ≤ e.key = rw same h.low in
          let some_new = u.filled filled (anchor boundary) in
          (
            node,
            record {
              found = ground (
                arith,
                u.same_address,
                find-append e.val at.before ((node ∷ others) ++ at.behind),
              );
              filled = some_new;
              low = omega (arith, u.lowest filled some_new);
              boundary = u.same_orphan ∙ boundary;
            },
          )
      | no there ↦
          let small : e.val < fresh =
            find-new 0 fresh e.val (at.before ++ at.curr ∷ at.behind) n new h.found in
          (
            n,
            record {
              found = ground (
                arith,
                h.found,
                u.same_address,
                find-append e.val at.before (at.curr ∷ at.behind),
                find-append e.val at.before ((node ∷ others) ++ at.behind),
                find-append e.val others at.behind,
                find-away e.val others
                    (AreNew-IsAway fresh fresh' e.val others (inl small) u.others_new),
              );
              filled = h.filled;
              low = h.low;
              boundary = h.boundary;
            },
          )
    ]
  ]

-- Every down pointer into the old layer is one into the new.
abbrev pub Keeps : Layer → Layer → Type 0
Keeps old new = (e : Entry ℕ) → PointsInto e old → PointsInto e new

-- A layer with different used addresses that starts with an orphan.
pub record IsNumbered (fresh : ℕ) (layer : Layer) : Type 0 where
  pub addresses : AreNew 0 fresh layer
  pub orphan_head : HasOrphanHead layer

pub anchor-boundary :
    (k : ℕ) (at : Cursor)
    → (at.before ≡ []) ⊎ (first at.curr.v ≤ k)
    → HasOrphanHead (at.before ++ at.curr ∷ at.behind)
    → is_orphan at.curr.lock ≡ false
    → first at.curr.v ≤ k
unfolding HasOrphanHead
anchor-boundary k at (inr p) h b = p
anchor-boundary k at (inl p) h b =
    let orphan : is_orphan at.curr.lock ≡ true = rw p at h in absurd (ground arith)

pub replaced-IsNumbered :
    (fresh fresh' k : ℕ) (layer : Layer) (at : Cursor) (nodes : List Node)
    → fresh ≤ fresh'
    → at.before ++ at.curr ∷ at.behind ≡ layer
    → (at.before ≡ []) ⊎ (first at.curr.v ≤ k)
    → Updates fresh fresh' k at.curr nodes
    → IsNumbered fresh layer
    → IsNumbered fresh' (replaced at nodes) × Keeps layer (replaced at nodes)
replaced-IsNumbered fresh fresh' k layer at nodes later place anchor u h =
    let addresses : AreNew 0 fresh (at.before ++ at.curr ∷ at.behind) = rw place h.addresses in
    let orphan_head : HasOrphanHead (at.before ++ at.curr ∷ at.behind) = rw place h.orphan_head in
    (
      record {
        addresses =
            rw u.nodes_lem (updated-AreNew fresh fresh' k at nodes u later at.before addresses);
        orphan_head =
            rw u.nodes_lem
              (updated-HasOrphanHead fresh fresh' k at nodes u later at.before orphan_head);
      },
      λ e p.
          let (n, finds) = PointsInto-Finds e layer p in
          let old_finds : Finds e (at.before ++ at.curr ∷ at.behind) n = rw place finds in
          let (n', finds') =
            updated-Finds fresh fresh' k at nodes u later e n
              (anchor-boundary k at anchor orphan_head) addresses old_finds in
          rw u.nodes_lem
            (Finds-PointsInto e (at.before ++ ((u.node ∷ u.others) ++ at.behind)) n' finds'),
    )

-- The node that a split hands up is a target of a down pointer.
pub HandsUp-PointsInto :
    (k r a fresh : ℕ) (old : Node) (layer : Layer)
    → AreNew 0 fresh layer
    → HandsUp k r old (some a) layer
    → PointsInto (pair k a) layer
unfolding HandsUp
HandsUp-PointsInto k r a fresh old layer new
      (before, n, behind, place, address, mirrors, boundary, filled, least) =
    Finds-PointsInto (pair k a) layer n (record {
      found = rw (place, sym address) (find_unique 0 fresh before n behind (rw (sym place) new));
      filled = filled;
      low = omega (arith, least);
      boundary = boundary;
    })
