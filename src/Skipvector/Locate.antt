-- ===== src/Skipvector/Locate.antt =====
-- The descents and `locate_data` of skipvector_disco.h in a structure at rest.
use disco_skip.Prelude.{
  false, take-all, append_assoc, ℕ, zero, suc, ◌+◌, ◌-◌, ◌≤◌, ◌<◌, ◌≡◌, refl, sym, ◌∙◌,
}
use disco_skip.Prelude.{ap, arith, ℕ_discrete, true, some}
use disco_skip.Prelude.{List, [], ◌∷◌, ◌++◌, inl, inr}
use disco_skip.Prelude.{Option-cases}
use disco_skip.Prelude.{length, get_elem?, take}
use disco_skip.Prelude.{length-append}
use disco_skip.Prelude.{get_elem?-append}
use disco_skip.SvLock.{is_orphan, begin_read, confirm_read}
use disco_skip.Vector.Slots.{Entry, key_at}
use disco_skip.Vector.Entries.{floor}
use disco_skip.Vector.Parts.{floor-append, floor-some, floor-first, IsAscending-IsBefore}
use disco_skip.Vector.Sorted.{first, find_lte}
use disco_skip.Vector.Sorted.Find.{contents, length-contents, key_at-contents}
use disco_skip.Skipvector.Nodes.{Node, Layer, ok}
use disco_skip.Skipvector.Descent.{
  Cursor, Skipvector, check_next, head_of, node_at, pointed_to, follow, reader_swap,
}
use disco_skip.Skipvector.Descent.{
  descend_layers, descend_to_directory, descend_to_index_level, locate_data, value_or_null,
}
use disco_skip.Skipvector.Layers.{flat, flat-append, AreWellFormed, AreWellFormed-parts, IsLayer}
use disco_skip.Skipvector.Walk.{Reaches, Covers, stays, unlocked-confirm, check_next_lem, parts-at}

-- The entry points to a node that is no orphan, and whose least key is at most the entry's.
abbrev pub PointsInto : Entry ℕ → Layer → Type 0
PointsInto e below =
    (c : Cursor) × (node_at e.val [] below ≡ some c)
    × (0 < c.curr.v.size)
    × (first c.curr.v ≤ e.key)
    × (is_orphan c.curr.lock ≡ false)

abbrev pub IsLinked : Layer → Layer → Type 0
IsLinked layer below =
    (i : ℕ) (e : Entry ℕ) → get_elem? (flat layer) i ≡ some e → PointsInto e below

pub node_at-place :
    (address : ℕ) (before : List Node) (layer : Layer) (c : Cursor)
    → node_at address before layer ≡ some c
    → (c.before ++ c.curr ∷ c.behind ≡ before ++ layer) × (c.curr_lock ≡ begin_read c.curr.lock)
unfolding node_at
node_at-place address before [] c e = absurd (ground arith)
node_at-place address before (n ∷ behind) c e = elim (ℕ_discrete n.address address) [
  | yes here ↦
      let same : stays before n (begin_read n.lock) behind ≡ c = ground arith in
      rw (sym same) (refl, refl)
  | no there ↦
      let (place, word) = node_at-place address (before ++ n ∷ []) behind c (ground arith) in
      (place ∙ append_assoc before (n ∷ []) behind, word)
]

module _ (cap k : ℕ) {layer : Layer} (sound : IsLayer cap layer) where
  -- A cursor at a node with a key that is not above.
  anchored-Reaches :
      (c : Cursor)
      → c.before ++ c.curr ∷ c.behind ≡ layer
      → c.curr_lock ≡ begin_read c.curr.lock
      → 0 < c.curr.v.size
      → first c.curr.v ≤ k
      → Reaches k layer c
  unfolding flat first
  anchored-Reaches c place word filled p =
      let here = flat (c.curr ∷ c.behind) in
      let valid =
        (AreWellFormed-parts cap c.before c.curr c.behind (rw place sound.nodes)).0.valid in
      let all : flat c.before ++ here ≡ flat layer =
        sym (flat-append c.before (c.curr ∷ c.behind)) ∙ ap flat place in
      let apart = IsAscending-IsBefore (flat c.before) here (rw all sound.ascending) in
      let start : (key_at here 0 ≡ first c.curr.v) × (0 < length here) = ground (
        arith,
        length-contents valid,
        length-append (contents c.curr.v) (flat c.behind),
        get_elem?-append (contents c.curr.v) (flat c.behind) 0,
        key_at-contents c.curr.v 0,
      ) in
      let (f, e) = floor-first k here start.1 (omega (arith, start)) in
      record {
        place = place;
        word = word;
        lower = λ i q. omega (arith, start, apart i 0);
        anchor = inr p;
        rest_floor = e ∙ sym (ap (floor k) (sym all) ∙ floor-append k (flat c.before) here ∙ rw e);
      }

head_of_lem :
    (cap k : ℕ) (layer : Layer)
    → IsLayer cap layer
    → (c : Cursor) × (head_of layer ≡ ok c) × Reaches k layer c
unfolding head_of flat AreWellFormed
head_of_lem cap k [] sound = absurd sound.nodes
head_of_lem cap k (n ∷ behind) sound = (
  stays [] n (begin_read n.lock) behind,
  refl,
  record {
    place = refl;
    word = refl;
    lower = λ i p. absurd (omega arith);
    anchor = inl refl;
    rest_floor = refl;
  },
)

module _ (cap capb k : ℕ) (layer below : Layer) (sound : IsLayer cap layer)
    (sound_below : IsLayer capb below) (linked : IsLinked layer below) where
  -- Where the floor of the key in a layer points to.
  pointed_to_lem :
      (c : Cursor) × (pointed_to (floor k (flat layer)) below ≡ ok c) × Reaches k below c
  unfolding pointed_to
  pointed_to_lem = elim (Option-cases (floor k (flat layer))) [
    | inl p ↦ rw (p, pointed_to) (head_of_lem capb k below sound_below)
    | inr (e, p) ↦
        let (least, found) = floor-some k (flat layer) e p in
        let (c, at, filled, low, boundary) = linked found.0 e found.1 in
        let (place, word) = node_at-place e.val [] below c at in
        (
          c,
          rw (p, pointed_to) (rw at refl),
          anchored-Reaches capb k sound_below c place word filled (omega arith),
        )
  ]

  reader_swap_lem : (c d : Cursor) → Reaches k layer c → reader_swap c d ≡ ok d
  unfolding reader_swap
  reader_swap_lem c d r =
      let confirmed : confirm_read c.curr.lock c.curr_lock ≡ true =
        rw r.word (unlocked-confirm c.curr.lock (parts-at cap k sound r).0.unlocked) in
      ground arith

  pub follow-Covers :
      (c : Cursor)
      → Reaches k layer c
      → (at : Cursor) × (down : Cursor) × (follow k c below ≡ ok (down, at.curr.remote_addr))
        × Covers k layer at
        × Reaches k below down
  unfolding follow
  follow-Covers c r =
      let (at, walked, covers, found) = check_next_lem cap k sound c r in
      let (down, points, reaches) = pointed_to_lem in
      (
        at,
        down,
        rw walked (rw found (rw points (rw (reader_swap_lem at down covers.reached)))),
        covers,
        reaches,
      )

  follow_lem :
      (c : Cursor)
      → Reaches k layer c
      → (r : Cursor × ℕ) × (follow k c below ≡ ok r) × Reaches k below r.0
  follow_lem c r =
      let (at, down, eq, covers, reaches) = follow-Covers c r in
      ((down, at.curr.remote_addr), eq, reaches)

-- The index layers from `top` down, and the directory under the last one.
unfoldable pub IsTower : ℕ → ℕ → Layer → List Layer → Layer → Type 0
IsTower cap capd top [] directory =
    IsLayer cap top × (IsLayer capd directory × IsLinked top directory)
IsTower cap capd top (next ∷ others) directory =
    (IsLayer cap top × IsLinked top next) × IsTower cap capd next others directory

-- A structure of at least two layers that no thread writes.
pub record IsStructure (cap capd : ℕ) (s : Skipvector) : Type 0 where
  pub top : Layer
  pub others : List Layer
  pub layers : s.index ≡ top ∷ others
  pub tower : IsTower cap capd top others s.directory

-- Where `n` steps down end: in an index layer, which is linked to the directory if it is the last.
record Landed (cap capd k n : ℕ) (layers : List Layer) (directory : Layer) (c : Cursor)
    : Type 0 where
  layer : Layer
  at : get_elem? layers n ≡ some layer
  sound : IsLayer cap layer
  reached : Reaches k layer c
  bottom : suc n ≡ length layers → IsLinked layer directory

module _ (cap capd : ℕ) where
  pub tower-layer :
      (top : Layer) (others : List Layer) (d : Layer)
      → IsTower cap capd top others d
      → IsLayer cap top
  unfolding IsTower
  tower-layer top [] d t = t.0
  tower-layer top (next ∷ others) d t = t.0.0

  pub tower-directory :
      (top : Layer) (others : List Layer) (d : Layer)
      → IsTower cap capd top others d
      → IsLayer capd d
  unfolding IsTower
  tower-directory top [] d t = t.1.0
  tower-directory top (next ∷ others) d t = tower-directory next others d t.1

  descend_layers_lem :
      (k n : ℕ) (top : Layer) (others : List Layer) (d : Layer) (c : Cursor)
      → IsTower cap capd top others d
      → n ≤ length others
      → Reaches k top c
      → (c' : Cursor) × (descend_layers k c (take n others) ≡ ok c')
        × Landed cap capd k n (top ∷ others) d c'
  unfolding descend_layers IsTower
  descend_layers_lem k zero top [] d c t h r =
      (c, refl, record { layer = top; at = refl; sound = t.0; reached = r; bottom = λ e. t.1.1 })
  descend_layers_lem k zero top (next ∷ others) d c t h r = (
    c,
    refl,
    record {
      layer = top;
      at = refl;
      sound = t.0.0;
      reached = r;
      bottom = λ e. absurd (omega (arith, e));
    },
  )
  descend_layers_lem k (suc n) top [] d c t h r = absurd (omega arith)
  descend_layers_lem k (suc n) top (next ∷ others) d c t h r =
      let (down, eq, reached) =
        follow_lem cap cap k top next t.0.0 (tower-layer next others d t.1) t.0.1 c r in
      let (c', eq', landed) =
        descend_layers_lem k n next others d down.0 t.1 (omega arith) reached in
      (
        c',
        rw eq eq',
        record {
          layer = landed.layer;
          at = landed.at;
          sound = landed.sound;
          reached = landed.reached;
          bottom = λ e. landed.bottom (omega (arith, e));
        },
      )

module _ {cap capd : ℕ} (k : ℕ) {s : Skipvector} (sound : IsStructure cap capd s) where
  pub top_lem : (c : Cursor) × (head_of sound.top ≡ ok c) × Reaches k sound.top c
  top_lem =
      head_of_lem cap k sound.top
        (tower-layer cap capd sound.top sound.others s.directory sound.tower)

  -- In a structure at rest, one attempt of `descend_to_directory` succeeds and ends at the directory
  -- node that has the place of the key, where `find_lte` finds the floor of the key in the directory.
  pub descend_to_directory_lem :
      (c : Cursor) × (descend_to_directory s k ≡ ok c)
      × Covers k s.directory c
      × (find_lte c.curr.v k ≡ floor k (flat s.directory))
  unfolding descend_to_directory
  descend_to_directory_lem =
      let (c, at_top, reached) = top_lem in
      let (c1, down, landed) =
        descend_layers_lem cap capd k (length sound.others) sound.top sound.others s.directory c
          sound.tower (omega arith) reached in
      let all_down : descend_layers k c sound.others ≡ ok c1 =
        ap (descend_layers k c) (sym (take-all sound.others)) ∙ down in
      let directory_sound =
        tower-directory cap capd sound.top sound.others s.directory sound.tower in
      let (r, followed, reached2) =
        follow_lem cap capd k landed.layer s.directory landed.sound directory_sound
          (landed.bottom (omega arith)) c1 landed.reached in
      let (c2, walked, covers, found) = check_next_lem capd k directory_sound r.0 reached2 in
      (
        c2,
        rw (sound.layers, descend_to_directory) (rw at_top (rw all_down (rw followed walked))),
        covers,
        found,
      )

  index_level-run :
      (level : ℕ) (c c1 c2 : Cursor)
      → head_of sound.top ≡ ok c
      → descend_layers k c (take (length sound.others + 1 - level) sound.others) ≡ ok c1
      → check_next k c1.before c1.curr c1.curr_lock c1.behind ≡ ok c2
      → descend_to_index_level s k level ≡ ok c2
  unfolding descend_to_index_level
  index_level-run level c c1 c2 p q r = rw (sound.layers, descend_to_index_level) (rw p (rw q r))

  -- In a structure at rest, one attempt of `descend_to_index_level` succeeds and ends at the node of that layer that has the place of the key, where `find_lte` finds the floor of the key in the layer.
  pub descend_to_index_level_lem :
      (level : ℕ)
      → 0 < level
      → level ≤ length s.index
      → (c : Cursor) × (layer : Layer) × (descend_to_index_level s k level ≡ ok c)
        × (get_elem? s.index (length s.index - level) ≡ some layer)
        × IsLayer cap layer
        × Covers k layer c
        × (find_lte c.curr.v k ≡ floor k (flat layer))
  unfolding descend_to_index_level
  descend_to_index_level_lem level h g =
      let (c, at_top, reached) = top_lem in
      let count : length s.index ≡ suc (length sound.others) = ap length sound.layers in
      let n : ℕ = length sound.others + 1 - level in
      let (c1, down, landed) =
        descend_layers_lem cap capd k n sound.top sound.others s.directory c sound.tower
          (omega (arith, count)) reached in
      let (c2, walked, covers, found) = check_next_lem cap k landed.sound c1 landed.reached in
      let at : get_elem? s.index (length s.index - level) ≡ some landed.layer =
        ap (λ index. get_elem? index (length index - level)) sound.layers
        ∙ ap (get_elem? (sound.top ∷ sound.others)) (omega arith)
        ∙ landed.at in
      (
        c2,
        landed.layer,
        index_level-run level c c1 c2 at_top down walked,
        at,
        landed.sound,
        covers,
        found,
      )

  -- In a structure at rest, one attempt of `locate_data` succeeds: it returns the value that the
  -- directory, read as one map, has for the greatest key that is at most the sought one, and null if there is none.
  pub locate_data_lem : locate_data s k ≡ ok (value_or_null (floor k (flat s.directory)))
  unfolding locate_data
  locate_data_lem =
      let (c, descended, covers, found) = descend_to_directory_lem in
      let directory_sound =
        tower-directory cap capd sound.top sound.others s.directory sound.tower in
      let confirmed : confirm_read c.curr.lock c.curr_lock ≡ true = rw covers.reached.word (
        unlocked-confirm c.curr.lock (parts-at capd k directory_sound covers.reached).0.unlocked) in
      rw descended (rw confirmed (rw found refl))
