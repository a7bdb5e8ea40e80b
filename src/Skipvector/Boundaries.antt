-- ===== src/Skipvector/Boundaries.antt =====
-- The boundaries of a layer of skipvector_disco.h: its nodes that are no orphans. For each of them,
-- `verify_index` wants an entry of the layer above with its least key and its address.
use disco_skip.Prelude.{
  ℕ, zero, suc, ◌+◌, ◌≤◌, ◌<◌, ◌≡◌, ◌≢◌, refl, ap, arith, true, false, Option, none, some,
}
use disco_skip.Prelude.{List, [], ◌∷◌, ◌++◌, ◌⊎◌, inl, inr, if◌then◌else◌, Bool-cases, length}
use disco_skip.Prelude.{length-append, get_elem?-append, Option-cases}
use disco_skip.SvLock.{is_orphan}
use disco_skip.Vector.Slots.{Entry, key_at}
use disco_skip.Vector.Entries.{lookup, below, from, lookup-append}
use disco_skip.Vector.Parts.{put, put-present, put-absent}
use disco_skip.Vector.Sorted.{first}
use disco_skip.Vector.Sorted.Find.{contents, length-contents, key_at-contents}
use disco_skip.Skipvector.Nodes.{Node}
use disco_skip.Skipvector.Mirror.{pair}
use disco_skip.Skipvector.Layers.{flat, AreFilled}
pub mod Replaced

unfoldable pub boundaries : List Node → List (Entry ℕ)
boundaries [] = []
boundaries (n ∷ nodes) =
    let rest = boundaries nodes in
    if is_orphan n.lock then rest else pair (first n.v) n.address ∷ rest

pub boundaries-append : (ns ms : List Node) → boundaries (ns ++ ms) ≡ boundaries ns ++ boundaries ms
unfolding boundaries
boundaries-append [] ms = refl
boundaries-append (n ∷ ns) ms = ground (arith, boundaries-append ns ms)

pub boundaries-orphan :
    (n : Node) (ns : List Node) → is_orphan n.lock ≡ true → boundaries (n ∷ ns) ≡ boundaries ns
unfolding boundaries
boundaries-orphan n ns h = rw h refl

pub boundaries-usable :
    (n : Node) (ns : List Node)
    → is_orphan n.lock ≡ false
    → boundaries (n ∷ ns) ≡ pair (first n.v) n.address ∷ boundaries ns
unfolding boundaries
boundaries-usable n ns h = rw h refl

-- The boundaries once a node with the least key `k` has been handed up, if one has.
unfoldable pub joined : ℕ → Option ℕ → List (Entry ℕ) → List (Entry ℕ)
joined k none c = c
joined k (some address) c = put (pair k address) c

module _ (P : ℕ → Type 0) where
  abbrev pub HaveAll : List (Entry ℕ) → Type 0
  HaveAll c = (i : ℕ) → i < length c → P (key_at c i)

  HaveAll-cons : (e : Entry ℕ) (c : List (Entry ℕ)) → P e.key → HaveAll c → HaveAll (e ∷ c)
  HaveAll-cons e c p h zero q = p
  HaveAll-cons e c p h (suc i) q = h i (omega arith)

  pub HaveAll-right : (c d : List (Entry ℕ)) → HaveAll (c ++ d) → HaveAll d
  HaveAll-right c d h i q =
      let same : key_at (c ++ d) (length c + i) ≡ key_at d i =
        ground (arith, get_elem?-append c d (length c + i)) in
      rw same at (h (length c + i) (omega (arith, length-append c d)))

  -- What holds of the keys of filled nodes holds of their boundaries.
  pub boundaries-HaveAll :
      (cap : ℕ) (ns : List Node) → AreFilled cap ns → HaveAll (flat ns) → HaveAll (boundaries ns)
  unfolding boundaries AreFilled flat first
  boundaries-HaveAll cap [] f h = h
  boundaries-HaveAll cap (n ∷ ns) f h =
      let rest = boundaries-HaveAll cap ns f.1 (HaveAll-right (contents n.v) (flat ns) h) in
      let size : length (contents n.v) ≡ n.v.size = length-contents f.0.0.valid in
      let least : key_at (contents n.v ++ flat ns) 0 ≡ first n.v = ground (
        arith,
        f.0.1,
        size,
        get_elem?-append (contents n.v) (flat ns) 0,
        key_at-contents n.v 0 f.0.1,
      ) in
      let start : P (first n.v) =
        rw least at (h 0 (omega (arith, f.0.1, size, length-append (contents n.v) (flat ns)))) in
      elim (Bool-cases (is_orphan n.lock)) [
        | inl p ↦ rw p rest
        | inr p ↦ rw p (HaveAll-cons (pair (first n.v) n.address) (boundaries ns) start rest)
      ]

-- The boundaries behind an updated node, when one has been handed up and when none has.
unfoldable pub Grown : ℕ → Node → Option ℕ → List Node → Type 0
Grown k old none others = boundaries others ≡ []
Grown k old (some address) others =
    ((boundaries others ≡ pair k address ∷ []) × (0 < old.v.size → first old.v ≢ k))
    ⊎ ((boundaries others ≡ [])
        × (is_orphan old.lock ≡ false)
        × (address ≡ old.address)
        × (first old.v ≡ k))

-- A boundary that covers the key.
abbrev pub IsAnchored : ℕ → Node → Type 0
IsAnchored k old = is_orphan old.lock ≡ false → (0 < old.v.size) × (first old.v ≤ k)

put-alone : (e : Entry ℕ) → put e [] ≡ e ∷ []
unfolding put lookup below from
put-alone e = refl

put-behind : (e f : Entry ℕ) → f.key < e.key → put e (f ∷ []) ≡ f ∷ e ∷ []
unfolding put lookup below from
put-behind e f h = ground arith

put-over : (e f : Entry ℕ) → f.key ≡ e.key → put e (f ∷ []) ≡ f ∷ []
unfolding put lookup
put-over e f h = ground arith

pub boundaries-Grown :
    (k : ℕ) (old : Node) (made : Option ℕ) (node : Node) (others : List Node)
    → IsAnchored k old
    → is_orphan node.lock ≡ is_orphan old.lock
    → node.address ≡ old.address
    → (0 < old.v.size → first old.v ≤ k → first node.v ≡ first old.v)
    → Grown k old made others
    → boundaries (node ∷ others) ≡ joined k made (boundaries (old ∷ []))
unfolding boundaries joined Grown
boundaries-Grown k old none node others anchor orphan address kept g =
    elim (Bool-cases (is_orphan old.lock)) [
      | inl p ↦ ground (arith, orphan, g)
      | inr p ↦ let (filled, low) = anchor p in ground (arith, orphan, address, g, kept filled low)
    ]
boundaries-Grown k old (some a) node others anchor orphan address kept (inl (one, other)) =
    elim (Bool-cases (is_orphan old.lock)) [
      | inl p ↦ ground (arith, orphan, one, put-alone (pair k a))
      | inr p ↦
          let (filled, low) = anchor p in
          ground (
            arith,
            orphan,
            address,
            one,
            kept filled low,
            put-behind (pair k a) (pair (first old.v) old.address)
                (omega (arith, low, other filled)),
          )
    ]
boundaries-Grown k old (some a) node others anchor orphan address kept
      (inr (nothing, usable, same, least)) =
    let (filled, low) = anchor usable in
    ground (
      arith,
      orphan,
      address,
      nothing,
      usable,
      kept filled low,
      put-over (pair k a) (pair (first old.v) old.address) least,
    )

-- What stands for a node has its boundaries and, where a node has been handed up, that one's.
abbrev pub Bounded : ℕ → Option ℕ → Node → List Node → Type 0
Bounded k made old nodes =
    IsAnchored k old → boundaries nodes ≡ joined k made (boundaries (old ∷ []))

-- An entry is put in once.
pub put-twice : (e : Entry ℕ) (c : List (Entry ℕ)) → put e (put e c) ≡ put e c
unfolding lookup
put-twice e c = elim (Option-cases (lookup e.key c)) [
  | inr (x, p) ↦ ap (put e) (put-present e c p)
  | inl p ↦
      let eq = put-absent e c p in
      let there = lookup-append e.key (below e.key c) (e ∷ from e.key c) in
      elim (Option-cases (lookup e.key (put e c))) [
        | inr (x, q) ↦ put-present e (put e c) q
        | inl q ↦ absurd (ground (arith, eq, there))
      ]
]
