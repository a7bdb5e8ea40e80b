-- ===== src/Skipvector/Updates.antt =====
-- What an update of skipvector_disco.h leaves of a node: the node at the same address, and new nodes
-- behind it.
use disco_skip.Prelude.{refl, ℕ, ◌≤◌, ◌<◌, ◌≡◌}
use disco_skip.Prelude.{ap, arith}
use disco_skip.Prelude.{List, [], ◌∷◌, inl, inr}
use disco_skip.Prelude.{Option-cases}
use disco_skip.Prelude.{length}
use disco_skip.Prelude.{get_elem?-append}
use disco_skip.SvLock.{is_orphan}
use disco_skip.Vector.Slots.{Entry, key_at}
use disco_skip.Vector.Entries.{lookup, below, from}
use disco_skip.Vector.Parts.{put, put-present, put-absent}
use disco_skip.Vector.Sorted.{first}
use disco_skip.Vector.Sorted.Find.{contents, IsValid, length-contents, key_at-contents}
use disco_skip.Skipvector.Nodes.{Node}
use disco_skip.Skipvector.Layers.{flat, AreNew}

pub record Updates (fresh fresh' k : ℕ) (old : Node) (nodes : List Node) : Type 0 where
  pub node : Node
  pub others : List Node
  pub nodes_lem : nodes ≡ node ∷ others
  pub same_address : node.address ≡ old.address
  pub same_orphan : is_orphan node.lock ≡ is_orphan old.lock
  pub others_new : AreNew fresh fresh' others
  pub filled : 0 < old.v.size → first old.v ≤ k → 0 < node.v.size
  pub lowest : 0 < old.v.size → 0 < node.v.size → first node.v ≤ first old.v

below-first : (k : ℕ) (c : List (Entry ℕ)) → 0 < length (below k c) → key_at (below k c) 0 < k
unfolding below
below-first k [] h = absurd (omega arith)
below-first k (f ∷ c) h = ground (arith, below-first k c)

put-first : (e : Entry ℕ) (c : List (Entry ℕ)) → 0 < length c → key_at (put e c) 0 ≤ key_at c 0
unfolding below
put-first e [] h = absurd (omega arith)
put-first e (f ∷ c) h = elim (Option-cases (lookup e.key (f ∷ c))) [
  | inr (x, p) ↦ rw (put-present e (f ∷ c) p) (omega arith)
  | inl p ↦ rw (put-absent e (f ∷ c) p) (
      ground (
        arith,
        below-first e.key (f ∷ c),
        get_elem?-append (below e.key (f ∷ c)) (e ∷ from e.key (f ∷ c)) 0,
      ))
]

put-first_low :
    (e : Entry ℕ) (c : List (Entry ℕ))
    → 0 < length c
    → key_at c 0 ≤ e.key
    → key_at (put e c) 0 ≡ key_at c 0
unfolding below lookup
put-first_low e [] h low = absurd (omega arith)
put-first_low e (f ∷ c) h low = elim (Option-cases (lookup e.key (f ∷ c))) [
  | inr (x, p) ↦ rw (put-present e (f ∷ c) p) refl
  | inl p ↦ rw (put-absent e (f ∷ c) p) (ground arith)
]

-- A node and those behind it that hold the old entries and a later one start as the old one did.
pub first_kept :
    (e : Entry ℕ) (old node : Node) (others : List Node)
    → IsValid old.v
    → IsValid node.v
    → flat (node ∷ others) ≡ put e (contents old.v)
    → 0 < old.v.size
    → 0 < node.v.size
    → first old.v ≤ e.key
    → first node.v ≡ first old.v
unfolding flat first
first_kept e old node others old_valid valid together some_old some_new low = ground (
  arith,
  length-contents old_valid,
  length-contents valid,
  key_at-contents old.v 0,
  key_at-contents node.v 0,
  get_elem?-append (contents node.v) (flat others) 0,
  ap (λ c. key_at c 0) together,
  put-first_low e (contents old.v),
)

-- A node and those behind it that hold the old entries and another one start no later.
pub first-together :
    (e : Entry ℕ) (old node : Node) (others : List Node)
    → IsValid old.v
    → IsValid node.v
    → flat (node ∷ others) ≡ put e (contents old.v)
    → 0 < old.v.size
    → 0 < node.v.size
    → first node.v ≤ first old.v
unfolding flat first
first-together e old node others old_valid valid together some_old some_new = ground (
  arith,
  length-contents old_valid,
  length-contents valid,
  key_at-contents old.v 0,
  key_at-contents node.v 0,
  get_elem?-append (contents node.v) (flat others) 0,
  ap (λ c. key_at c 0) together,
  put-first e (contents old.v),
)
