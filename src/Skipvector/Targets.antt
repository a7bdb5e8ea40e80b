-- ===== src/Skipvector/Targets.antt =====
-- The nodes of skipvector_disco.h that down pointers find.
use disco_skip.Prelude.{ℕ, ◌≤◌, ◌<◌, ◌≡◌, ◌≢◌, refl, sym}
use disco_skip.Prelude.{arith, ℕ_discrete, false, Option, none, some}
use disco_skip.Prelude.{List, [], ◌∷◌, ◌++◌, ◌==◌, if◌then◌else◌}
use disco_skip.SvLock.{is_orphan, begin_read}
use disco_skip.Vector.Slots.{Entry}
use disco_skip.Vector.Sorted.{first}
use disco_skip.Skipvector.Nodes.{Node, Layer}
use disco_skip.Skipvector.Descent.{Cursor, node_at}
use disco_skip.Skipvector.Layers.{AreNew, IsAway}
use disco_skip.Skipvector.Walk.{stays}
use disco_skip.Skipvector.Locate.{PointsInto}

-- The first node with an address.
unfoldable pub find : ℕ → List Node → Option Node
find a [] = none
find a (n ∷ nodes) = let rest = find a nodes in if n.address == a then some n else rest

pub find-append :
    (a : ℕ) (ns ms : List Node)
    → find a (ns ++ ms) ≡ elim (find a ns) [ some n ↦ some n | none ↦ find a ms ]
unfolding find
find-append a [] ms = refl
find-append a (n ∷ ns) ms = ground (arith, find-append a ns ms)

pub find-away : (a : ℕ) (ns : List Node) → IsAway a ns → find a ns ≡ none
unfolding find IsAway
find-away a [] h = refl
find-away a (n ∷ ns) h = ground (arith, find-away a ns h.1)

pub find-new :
    (lo hi a : ℕ) (ns : List Node) (n : Node) → AreNew lo hi ns → find a ns ≡ some n → a < hi
unfolding find AreNew
find-new lo hi a [] n h p = absurd (ground arith)
find-new lo hi a (m ∷ ns) n h p = ground (arith, find-new lo hi a ns n h.1.1)

IsAway-in :
    (a : ℕ) (before : List Node) (n : Node) (behind : List Node)
    → IsAway a (before ++ n ∷ behind)
    → n.address ≢ a
unfolding IsAway
IsAway-in a [] n behind h = h.0
IsAway-in a (m ∷ before) n behind h = IsAway-in a before n behind h.1

pub find_unique :
    (lo hi : ℕ) (before : List Node) (n : Node) (behind : List Node)
    → AreNew lo hi (before ++ n ∷ behind)
    → find n.address (before ++ n ∷ behind) ≡ some n
unfolding find AreNew
find_unique lo hi [] n behind h = ground arith
find_unique lo hi (m ∷ before) n behind h =
    ground
      (arith, find_unique lo hi before n behind h.1.1, IsAway-in m.address before n behind h.1.0)

-- The walk of `node_at` ends at that node.
node_at-find :
    (a : ℕ) (before ns : List Node) (c : Cursor)
    → node_at a before ns ≡ some c
    → find a ns ≡ some c.curr
unfolding node_at find
node_at-find a before [] c p = absurd (ground arith)
node_at-find a before (n ∷ ns) c p = elim (ℕ_discrete n.address a) [
  | yes here ↦
      let same : stays before n (begin_read n.lock) ns ≡ c = ground arith in
      rw (sym same) (ground arith)
  | no there ↦ ground (arith, node_at-find a (before ++ n ∷ []) ns c (ground arith))
]

find-node_at :
    (a : ℕ) (before ns : List Node) (n : Node)
    → find a ns ≡ some n
    → (c : Cursor) × (node_at a before ns ≡ some c) × (c.curr ≡ n)
unfolding node_at find
find-node_at a before [] n p = absurd (ground arith)
find-node_at a before (m ∷ ns) n p = elim (ℕ_discrete m.address a) [
  | yes here ↦ (stays before m (begin_read m.lock) ns, ground arith, ground arith)
  | no there ↦
      let (c, at, same) = find-node_at a (before ++ m ∷ []) ns n (ground arith) in
      (c, ground arith, same)
]

-- A down pointer, by the node that it finds.
pub record Finds (e : Entry ℕ) (layer : Layer) (n : Node) : Type 0 where
  pub found : find e.val layer ≡ some n
  pub filled : 0 < n.v.size
  pub low : first n.v ≤ e.key
  pub boundary : is_orphan n.lock ≡ false

pub PointsInto-Finds :
    (e : Entry ℕ) (layer : Layer) → PointsInto e layer → (n : Node) × Finds e layer n
PointsInto-Finds e layer (c, at, filled, low, boundary) = (
  c.curr,
  record {
    found = node_at-find e.val [] layer c at;
    filled = filled;
    low = low;
    boundary = boundary;
  },
)

pub Finds-PointsInto :
    (e : Entry ℕ) (layer : Layer) (n : Node) → Finds e layer n → PointsInto e layer
Finds-PointsInto e layer n h =
    let (c, at, same) = find-node_at e.val [] layer n h.found in
    (c, at, rw same h.filled, rw same h.low, rw same h.boundary)
