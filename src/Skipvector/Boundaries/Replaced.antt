-- ===== src/Skipvector/Boundaries/Replaced.antt =====
-- The boundaries of a layer of skipvector_disco.h after an update at the node that covers a key.
use disco_skip.Prelude.{ℕ, ◌<◌, ◌≡◌, refl, sym, ◌∙◌, ap, arith, false, Option, none, some}
use disco_skip.Prelude.{List, [], ◌∷◌, ◌++◌}
use disco_skip.SvLock.{is_orphan}
use disco_skip.Vector.Slots.{Entry}
use disco_skip.Vector.Parts.{put-between}
use disco_skip.Vector.Sorted.Find.{contents}
use disco_skip.Skipvector.Nodes.{Node, Layer}
use disco_skip.Skipvector.Descent.{Cursor}
use disco_skip.Skipvector.Mirror.{pair, replaced}
use disco_skip.Skipvector.Layers.{flat, AreFilled, AreFilled-parts, AreWellFormed, IsLayer}
use disco_skip.Skipvector.Walk.{Covers, parts-at}
use disco_skip.Skipvector.Pointers.{HasOrphanHead, anchor-boundary}
use disco_skip.Skipvector.Boundaries.{
  boundaries, boundaries-append, boundaries-orphan, joined, HaveAll, HaveAll-right,
  boundaries-HaveAll, IsAnchored, Bounded,
}

module _ (cap : ℕ) where
  usable_filled :
      (before : List Node) (n : Node) (behind : List Node)
      → AreWellFormed cap (before ++ n ∷ behind)
      → HasOrphanHead (before ++ n ∷ behind)
      → is_orphan n.lock ≡ false
      → 0 < n.v.size
  unfolding AreWellFormed AreFilled HasOrphanHead
  usable_filled [] n behind w head usable = absurd (ground (arith, head, usable))
  usable_filled (h ∷ before) n behind w head usable =
      (AreFilled-parts cap before (n ∷ behind) w.1).1.0.1

  -- The head is an orphan, so it adds no boundary.
  before-HaveAll :
      (P : ℕ → Type 0) (before behind : List Node)
      → AreWellFormed cap (before ++ behind)
      → HasOrphanHead (before ++ behind)
      → HaveAll P (flat before)
      → HaveAll P (boundaries before)
  unfolding AreWellFormed HasOrphanHead flat boundaries
  before-HaveAll P [] behind w head all = all
  before-HaveAll P (h ∷ before) behind w head all = rw (boundaries-orphan h before head) (
      boundaries-HaveAll P cap before (AreFilled-parts cap before behind w.1).0
        (HaveAll-right P (contents h.v) (flat before) all))

joined-between :
    (k : ℕ) (made : Option ℕ) (b m a : List (Entry ℕ))
    → HaveAll (λ x. x < k) b
    → HaveAll (λ x. k < x) a
    → b ++ (joined k made m ++ a) ≡ joined k made (b ++ (m ++ a))
unfolding joined
joined-between k none b m a low high = refl
joined-between k (some address) b m a low high = sym (put-between (pair k address) b m a low high)

module _ (cap k : ℕ) (layer : Layer) (sound : IsLayer cap layer) (head : HasOrphanHead layer)
    (at : Cursor) (covers : Covers k layer at) where
  head_there : HasOrphanHead (at.before ++ at.curr ∷ at.behind)
  head_there = rw covers.reached.place head

  nodes_there : AreWellFormed cap (at.before ++ at.curr ∷ at.behind)
  nodes_there = rw covers.reached.place sound.nodes

  curr-IsAnchored : IsAnchored k at.curr
  curr-IsAnchored usable = (
    usable_filled cap at.before at.curr at.behind nodes_there head_there usable,
    anchor-boundary k at covers.reached.anchor head_there usable,
  )

  -- The layer has its old boundaries, and that of the node that has been handed up.
  pub boundaries-replaced :
      (made : Option ℕ) (nodes : List Node)
      → Bounded k made at.curr nodes
      → boundaries (replaced at nodes) ≡ joined k made (boundaries layer)
  boundaries-replaced made nodes bounded =
      let b = boundaries at.before in
      let m = boundaries (at.curr ∷ []) in
      let a = boundaries at.behind in
      let low =
        before-HaveAll cap (λ x. x < k) at.before (at.curr ∷ at.behind) nodes_there head_there
          covers.reached.lower in
      let high =
        boundaries-HaveAll (λ x. k < x) cap at.behind (parts-at cap k sound covers.reached).1
          covers.upper in
      boundaries-append at.before (nodes ++ at.behind)
      ∙ ap (λ c. b ++ c)
          (boundaries-append nodes at.behind ∙ ap (λ c. c ++ a) (bounded curr-IsAnchored))
      ∙ joined-between k made b m a low high
      ∙ ap (joined k made) (
          ap (λ c. b ++ c) (sym (boundaries-append (at.curr ∷ []) at.behind))
          ∙ sym (boundaries-append at.before (at.curr ∷ at.behind))
          ∙ ap boundaries covers.reached.place)
