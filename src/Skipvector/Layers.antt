-- ===== src/Skipvector/Layers.antt =====
-- When a layer of skipvector_disco.h at rest is well formed, and the map that it stands for.
use disco_skip.Prelude.{◌≤◌, ◌≢◌, ◌⊎◌, ◌^◌, take-all, ℕ, ◌<◌, ◌≡◌, refl, sym}
use disco_skip.Prelude.{arith, true}
use disco_skip.Prelude.{List, [], ◌∷◌, ◌++◌, append_assoc, inl, inr}
use disco_skip.Prelude.{Option-cases}
use disco_skip.Prelude.{length}
use disco_skip.SvLock.{is_unlocked}
use disco_skip.Vector.Slots.{Entry}
use disco_skip.Vector.Entries.{IsAscending, lookup}
use disco_skip.Vector.Parts.{put, put-present, put-absent}
use disco_skip.Vector.Sorted.{Vec, get_capacity}
use disco_skip.Vector.Sorted.Find.{contents, IsValid}
use disco_skip.Vector.Sorted.Steal.{all-IsAscending}
use disco_skip.Skipvector.Nodes.{Node, Layer}

-- The entries of the nodes, in order.
unfoldable pub flat : List Node → List (Entry ℕ)
flat [] = []
flat (n ∷ nodes) = contents n.v ++ flat nodes

pub flat-append : (ns ms : List Node) → flat (ns ++ ms) ≡ flat ns ++ flat ms
unfolding flat
flat-append [] ms = refl
flat-append (n ∷ ns) ms =
    rw (flat-append ns ms) (sym (append_assoc (contents n.v) (flat ns) (flat ms)))

-- A node that no thread writes.
pub record IsSound (cap : ℕ) (n : Node) : Type 0 where
  pub in_word : n.lock < 2 ^ 64
  pub unlocked : is_unlocked n.lock ≡ true
  pub valid : IsValid n.v
  pub capacity : get_capacity n.v ≡ cap

-- Each node is sound and holds an entry.
unfoldable pub AreFilled : ℕ → List Node → Type 0
AreFilled cap [] = Unit {0}
AreFilled cap (n ∷ nodes) = (IsSound cap n × (0 < n.v.size)) × AreFilled cap nodes

unfoldable pub AreWellFormed : ℕ → Layer → Type 0
AreWellFormed cap [] = ⊥
AreWellFormed cap (head ∷ nodes) = IsSound cap head × AreFilled cap nodes

-- Only the head may be empty, and the keys ascend along the layer.
pub record IsLayer (cap : ℕ) (layer : Layer) : Type 0 where
  pub nodes : AreWellFormed cap layer
  pub ascending : IsAscending (flat layer)

-- No node has the address.
unfoldable pub IsAway : ℕ → List Node → Type 0
IsAway address [] = Unit {0}
IsAway address (n ∷ nodes) = (n.address ≢ address) × IsAway address nodes

-- The addresses of the nodes are different ones from `lo` on and below `hi`.
unfoldable pub AreNew : ℕ → ℕ → List Node → Type 0
AreNew lo hi [] = Unit {0}
AreNew lo hi (n ∷ nodes) =
    ((lo ≤ n.address) × (n.address < hi)) × (IsAway n.address nodes × AreNew lo hi nodes)

pub AreNew-wider :
    (lo hi lo' hi' : ℕ) (nodes : List Node)
    → lo' ≤ lo
    → hi ≤ hi'
    → AreNew lo hi nodes
    → AreNew lo' hi' nodes
unfolding AreNew
AreNew-wider lo hi lo' hi' [] p q h = tt
AreNew-wider lo hi lo' hi' (n ∷ nodes) p q (inside, (away, h)) =
    ((omega (arith, inside), omega (arith, inside)), (away, AreNew-wider lo hi lo' hi' nodes p q h))

pub AreNew-IsAway :
    (lo hi a : ℕ) (nodes : List Node) → (a < lo) ⊎ (hi ≤ a) → AreNew lo hi nodes → IsAway a nodes
unfolding AreNew IsAway
AreNew-IsAway lo hi a [] out h = tt
AreNew-IsAway lo hi a (n ∷ nodes) out (inside, (away, h)) =
    (ground (arith, inside), AreNew-IsAway lo hi a nodes out h)

pub AreFilled-append :
    (cap : ℕ) (ns ms : List Node) → AreFilled cap ns → AreFilled cap ms → AreFilled cap (ns ++ ms)
unfolding AreFilled
AreFilled-append cap [] ms f g = g
AreFilled-append cap (n ∷ ns) ms (h, f) g = (h, AreFilled-append cap ns ms f g)

pub AreFilled-parts :
    (cap : ℕ) (ns ms : List Node) → AreFilled cap (ns ++ ms) → AreFilled cap ns × AreFilled cap ms
unfolding AreFilled
AreFilled-parts cap [] ms f = (tt, f)
AreFilled-parts cap (n ∷ ns) ms (h, f) = let (g, r) = AreFilled-parts cap ns ms f in ((h, g), r)

-- Every node is sound, and those behind it are filled.
pub AreWellFormed-parts :
    (cap : ℕ) (before : List Node) (n : Node) (behind : List Node)
    → AreWellFormed cap (before ++ n ∷ behind)
    → IsSound cap n × AreFilled cap behind
unfolding AreWellFormed AreFilled
AreWellFormed-parts cap [] n behind w = w
AreWellFormed-parts cap (h ∷ before) n behind w =
    let (f, (s, r)) = AreFilled-parts cap before (n ∷ behind) w.1 in (s.0, r)

-- Filled nodes may stand in for a node.
pub AreWellFormed-replaced :
    (cap : ℕ) (before : List Node) (n : Node) (behind : List Node) (m : Node) (ms : List Node)
    → AreWellFormed cap (before ++ n ∷ behind)
    → AreFilled cap (m ∷ ms)
    → AreWellFormed cap (before ++ ((m ∷ ms) ++ behind))
unfolding AreWellFormed AreFilled
AreWellFormed-replaced cap [] n behind m ms w f = (f.0.0, AreFilled-append cap ms behind f.1 w.1)
AreWellFormed-replaced cap (h ∷ before) n behind m ms w f =
    let (g, (s, r)) = AreFilled-parts cap before (n ∷ behind) w.1 in
    (
      w.0,
      AreFilled-append cap before ((m ∷ ms) ++ behind) g (AreFilled-append cap (m ∷ ms) behind f r),
    )

-- A list of entries as a vector.
abbrev whole : List (Entry ℕ) → Vec ℕ
whole c = record { list = c; size = length c }

pub put-IsAscending : (e : Entry ℕ) (c : List (Entry ℕ)) → IsAscending c → IsAscending (put e c)
put-IsAscending e c a = elim (Option-cases (lookup e.key c)) [
  | inr (x, p) ↦ rw (put-present e c p) a
  | inl p ↦
      let valid : IsValid (whole c) = record { fits = omega arith; ascending = a } in
      rw (put-absent e c p)
        (rw (sym (take-all c)) (all-IsAscending {w = whole c} e valid (rw (take-all c) p)))
]
