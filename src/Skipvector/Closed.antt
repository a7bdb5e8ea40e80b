-- ===== src/Skipvector/Closed.antt =====
-- Structures of skipvector_disco.h at rest, level by level, with different addresses and closed under
-- the down pointers.
use disco_skip.Prelude.{ℕ, zero, suc, ◌-◌, ◌≤◌, ◌<◌, ◌≡◌, ◌≢◌, refl, sym, ◌∙◌}
use disco_skip.Prelude.{ap, arith, ℕ_discrete, Option, none, some}
use disco_skip.Prelude.{List, [], ◌∷◌}
use disco_skip.Prelude.{length, get_elem?, length-set, get_elem?-set}
use disco_skip.Skipvector.Nodes.{Layer}
use disco_skip.Skipvector.Descent.{Skipvector}
use disco_skip.Skipvector.Mirror.{set_layer}
use disco_skip.Skipvector.Reconcile.{level_nodes}
use disco_skip.Skipvector.Layers.{AreNew-wider, IsLayer}
use disco_skip.Skipvector.Locate.{IsStructure, IsTower, IsLinked}
use disco_skip.Skipvector.Pointers.{IsNumbered, Keeps}

pub record IsClosed (cap : ℕ) (s : Skipvector) : Type 0 where
  pub some_index : 0 < length s.index
  pub sound : (l : ℕ) → l ≤ length s.index → IsLayer cap (level_nodes s l)
  pub numbered : (l : ℕ) → l ≤ length s.index → IsNumbered s.fresh (level_nodes s l)
  pub linked : (l : ℕ) → l < length s.index → IsLinked (level_nodes s (suc l)) (level_nodes s l)

abbrev layer_of : Option Layer → Layer
layer_of none = []
layer_of (some layer) = layer

abbrev level : List Layer → Layer → ℕ → Layer
level index d zero = d
level index d (suc n) = layer_of (get_elem? index (length index - suc n))

level-level_nodes : (s : Skipvector) (l : ℕ) → level_nodes s l ≡ level s.index s.directory l
unfolding level_nodes
level-level_nodes s zero = refl
level-level_nodes s (suc n) = ground arith

level-top :
    (top : Layer) (others : List Layer) (d : Layer)
    → level (top ∷ others) d (suc (length others)) ≡ top
level-top top others d =
    ap (λ i. layer_of (get_elem? (top ∷ others) i)) {x = suc (length others) - suc (length others)}
      {y = 0} (omega arith)

level-tail :
    (top : Layer) (others : List Layer) (d : Layer) (l : ℕ)
    → l ≤ length others
    → level (top ∷ others) d l ≡ level others d l
level-tail top others d zero h = refl
level-tail top others d (suc n) h =
    ap (λ i. layer_of (get_elem? (top ∷ others) i)) {x = suc (length others) - suc n}
      {y = suc (length others - suc n)} (omega arith)

IsLinked-along : {a a' b b' : Layer} → a ≡ a' → b ≡ b' → IsLinked a b → IsLinked a' b'
IsLinked-along p q h = rw (sym p, sym q) h

IsTower-of :
    (cap : ℕ) (top : Layer) (others : List Layer) (d : Layer)
    → ((l : ℕ) → l ≤ suc (length others) → IsLayer cap (level (top ∷ others) d l))
    → ((l : ℕ)
        → l < suc (length others)
        → IsLinked (level (top ∷ others) d (suc l)) (level (top ∷ others) d l))
    → IsTower cap cap top others d
unfolding IsTower
IsTower-of cap top [] d sound linked =
    (sound 1 (omega arith), (sound 0 (omega arith), linked 0 (omega arith)))
IsTower-of cap top (next ∷ others) d sound linked =
    let n : ℕ = length (next ∷ others) in
    let top_eq = level-top top (next ∷ others) d in
    let next_eq : level (top ∷ next ∷ others) d n ≡ next =
      level-tail top (next ∷ others) d n (omega arith) ∙ level-top next others d in
    (
      (
        rw (sym top_eq) (sound (suc n) (omega arith)),
        IsLinked-along top_eq next_eq (linked n (omega arith)),
      ),
      IsTower-of cap next others d
          (λ l h.
            rw (sym (level-tail top (next ∷ others) d l (omega arith))) (sound l (omega arith)))
          (λ l h.
            IsLinked-along (level-tail top (next ∷ others) d (suc l) (omega arith))
              (level-tail top (next ∷ others) d l (omega arith)) (linked l (omega arith))),
    )

IsStructure-of :
    (cap : ℕ) (index : List Layer) (s : Skipvector)
    → index ≡ s.index
    → IsClosed cap s
    → IsStructure cap cap s
IsStructure-of cap [] s e h = absurd (omega (arith, h.some_index, ap length e))
IsStructure-of cap (top ∷ others) s e h = record {
  top = top;
  others = others;
  layers = sym e;
  tower =
      IsTower-of cap top others s.directory
        (λ l p. rw (e, sym (level-level_nodes s l)) (h.sound l (omega (arith, ap length e))))
        (λ l p.
          IsLinked-along
            (level-level_nodes s (suc l) ∙ ap (λ i. level i s.directory (suc l)) (sym e))
            (level-level_nodes s l ∙ ap (λ i. level i s.directory l) (sym e))
            (h.linked l (omega (arith, ap length e))));
}

pub IsClosed-IsStructure : (cap : ℕ) (s : Skipvector) → IsClosed cap s → IsStructure cap cap s
IsClosed-IsStructure cap s h = IsStructure-of cap s.index s refl h

pub length-set_layer :
    (s : Skipvector) (l : ℕ) (layer : Layer) → length (set_layer s l layer).index ≡ length s.index
unfolding set_layer
length-set_layer s zero layer = refl
length-set_layer s (suc n) layer = length-set s.index (length s.index - suc n) layer

pub set_layer-same :
    (s : Skipvector) (l : ℕ) (layer : Layer)
    → l ≤ length s.index
    → level_nodes (set_layer s l layer) l ≡ layer
unfolding set_layer level_nodes
set_layer-same s zero layer h = refl
set_layer-same s (suc n) layer h = ground (
  arith,
  length-set s.index (length s.index - suc n) layer,
  get_elem?-set s.index (length s.index - suc n) (length s.index - suc n) layer,
)

pub set_layer-other :
    (s : Skipvector) (l m : ℕ) (layer : Layer)
    → l ≤ length s.index
    → m ≤ length s.index
    → m ≢ l
    → level_nodes (set_layer s l layer) m ≡ level_nodes s m
unfolding set_layer level_nodes
set_layer-other s zero zero layer h g e = absurd (omega arith)
set_layer-other s zero (suc m) layer h g e = refl
set_layer-other s (suc n) zero layer h g e = refl
set_layer-other s (suc n) (suc m) layer h g e = ground (
  arith,
  length-set s.index (length s.index - suc n) layer,
  get_elem?-set s.index (length s.index - suc n) (length s.index - suc m) layer,
)

abbrev pub updated : Skipvector → ℕ → Layer → ℕ → Skipvector
updated s l layer fresh' = record (set_layer s l layer) { fresh = fresh' }

level_nodes-fresh :
    (s : Skipvector) (fresh' m : ℕ) → level_nodes (record s { fresh = fresh' }) m ≡ level_nodes s m
unfolding level_nodes
level_nodes-fresh s fresh' zero = refl
level_nodes-fresh s fresh' (suc m) = refl

pub updated-same :
    (s : Skipvector) (l : ℕ) (layer : Layer) (fresh' : ℕ)
    → l ≤ length s.index
    → level_nodes (updated s l layer fresh') l ≡ layer
updated-same s l layer fresh' h =
    level_nodes-fresh (set_layer s l layer) fresh' l ∙ set_layer-same s l layer h

pub updated-other :
    (s : Skipvector) (l m : ℕ) (layer : Layer) (fresh' : ℕ)
    → l ≤ length s.index
    → m ≤ length s.index
    → m ≢ l
    → level_nodes (updated s l layer fresh') m ≡ level_nodes s m
updated-other s l m layer fresh' h g e =
    level_nodes-fresh (set_layer s l layer) fresh' m ∙ set_layer-other s l m layer h g e

IsNumbered-later :
    (fresh fresh' : ℕ) (layer : Layer)
    → fresh ≤ fresh'
    → IsNumbered fresh layer
    → IsNumbered fresh' layer
IsNumbered-later fresh fresh' layer p h = record {
  addresses = AreNew-wider 0 fresh 0 fresh' layer (omega arith) p h.addresses;
  orphan_head = h.orphan_head;
}

module _ (cap : ℕ) (s : Skipvector) (closed : IsClosed cap s) (l : ℕ) (layer : Layer) (fresh' : ℕ)
    (high : l ≤ length s.index) (later : s.fresh ≤ fresh') (sound : IsLayer cap layer)
    (numbered : IsNumbered fresh' layer) (keeps : Keeps (level_nodes s l) layer)
    (down : (m : ℕ) → suc m ≡ l → IsLinked layer (level_nodes s m)) where
  abbrev new : Skipvector
  new = updated s l layer fresh'

  same : level_nodes new l ≡ layer
  same = updated-same s l layer fresh' high

  other : (m : ℕ) → m ≤ length s.index → m ≢ l → level_nodes new m ≡ level_nodes s m
  other m h e = updated-other s l m layer fresh' high h e

  updated-IsLinked :
      (m : ℕ) → m < length s.index → IsLinked (level_nodes new (suc m)) (level_nodes new m)
  updated-IsLinked m h = elim (ℕ_discrete m l) [
    | yes e ↦
        let below_eq : layer ≡ level_nodes new m = sym same ∙ ap (level_nodes new) (sym e) in
        let keeps' : Keeps (level_nodes s m) layer = rw e keeps in
        IsLinked-along (sym (other (suc m) (omega arith) (omega (arith, e)))) below_eq
          (λ i f p. keeps' f (closed.linked m h i f p))
    | no e ↦ elim (ℕ_discrete (suc m) l) [
      | yes f ↦
          IsLinked-along (sym same ∙ ap (level_nodes new) (sym f)) (sym (other m (omega arith) e))
            (down m f)
      | no f ↦
          IsLinked-along (sym (other (suc m) (omega arith) f)) (sym (other m (omega arith) e))
            (closed.linked m h)
    ]
  ]

  -- A new layer in the place of one that it keeps the pointers into.
  pub updated-IsClosed : IsClosed cap new
  updated-IsClosed =
      let len = length-set_layer s l layer in
      record {
        some_index = omega (arith, len, closed.some_index);
        sound = λ m h. elim (ℕ_discrete m l) [
          | yes e ↦ rw (e, same) sound
          | no e ↦ rw (other m (omega (arith, len)) e) (closed.sound m (omega (arith, len)))
        ];
        numbered = λ m h. elim (ℕ_discrete m l) [
          | yes e ↦ rw (e, same) numbered
          | no e ↦ rw (other m (omega (arith, len)) e) (
              IsNumbered-later s.fresh fresh' (level_nodes s m) later
                (closed.numbered m (omega (arith, len))))
        ];
        linked = λ m h. updated-IsLinked m (omega (arith, len));
      }
