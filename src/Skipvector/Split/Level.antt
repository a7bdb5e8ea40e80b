-- ===== src/Skipvector/Split/Level.antt =====
-- `mirror_split_at_level` of skipvector_disco.h at the node that covers the key, and in a structure.
use disco_skip.Skipvector.Boundaries.{Bounded, boundaries-Grown}
use disco_skip.Prelude.{append_assoc, ◌⊎◌, ℕ, ◌+◌, ◌≤◌, ◌<◌, ◌≡◌, ◌≢◌, refl, sym, ◌∙◌}
use disco_skip.Prelude.{ap, arith, true, false, Option, none, some}
use disco_skip.Prelude.{List, [], ◌∷◌, ◌++◌, ltb, ◌==◌, if◌then◌else◌, ◌&&◌, ◌⊎◌, inl, inr}
use disco_skip.Prelude.{Bool-cases}
use disco_skip.SvLock.{begin_read}
use disco_skip.Vector.Slots.{Entry}
use disco_skip.Vector.Entries.{lookup}
use disco_skip.Vector.Parts.{put}
use disco_skip.Vector.Sorted.{first, contains_key}
use disco_skip.Vector.Sorted.Remove.{contains_refines}
use disco_skip.Vector.Sorted.Find.{contents}
use disco_skip.Skipvector.Nodes.{Node, Layer, Attempt, ok}
use disco_skip.Skipvector.Descent.{Cursor, Skipvector}
use disco_skip.Skipvector.Mirror.{
  write_lock, replaced, pair, adopt_minimum, split_coarse, split_new, split_at_cursor,
  mirror_split_at_level, set_layer, descend_to,
}
use disco_skip.Skipvector.Layers.{flat, IsSound, AreFilled, AreWellFormed, IsLayer, put-IsAscending}
use disco_skip.Skipvector.Walk.{Covers, parts-at}
use disco_skip.Skipvector.Install.{flat-replaced}
use disco_skip.Skipvector.Stored.{lock_lem}
use disco_skip.Skipvector.Split.{HandsUp, IsParted, Outcome}
use disco_skip.Skipvector.Split.{adopt-IsParted}
use disco_skip.Skipvector.Split.Coarse.{coarse-IsParted}
use disco_skip.Skipvector.Split.Absent.{
  new-IsParted, nothing-IsShed, half-IsShed, halves, shed, overfull,
}
use disco_skip.Skipvector.Layers.{AreFilled-append, AreFilled-parts, AreWellFormed-replaced}
use disco_skip.Skipvector.Updates.{Updates, first-together, first_kept}
use disco_skip.Skipvector.Locate.{IsStructure, tower-directory, descend_to_directory_lem}

module _ (cap r fresh : ℕ) (e : Entry ℕ) (old : Node) (sound : IsSound cap old) where
  -- The three branches, on the locked node.
  abbrev branches : Attempt (Option ℕ × List Node)
  branches =
      let node = record old { lock = old.lock + 4 } in
      if ltb 0 old.v.size && first old.v == e.key
      then adopt_minimum node r
      else if contains_key old.v e.key
      then split_coarse fresh node e.key r
      else split_new fresh node e r

  branches-IsParted : 0 < cap → Outcome cap r fresh e old branches
  unfolding contains_key
  branches-IsParted large = elim (Bool-cases (ltb 0 old.v.size && first old.v == e.key)) [
    | inl p ↦ rw p (adopt-IsParted cap r fresh e old sound (ground arith) (ground arith))
    | inr p ↦ elim (Bool-cases (contains_key old.v e.key)) [
      | inl q ↦ rw p (rw q (coarse-IsParted cap r fresh e old sound q (other p q)))
      | inr q ↦ rw p (
          rw q (elim (Bool-cases (overfull cap r fresh e old sound)) [
            | inl full ↦
                new-IsParted cap r fresh e old sound
                  (halves cap r fresh e old sound (absent q) large).1
                  (shed cap r fresh e old sound (absent q) large ∷ []) (absent q)
                  (half-IsShed cap r fresh e old sound (absent q) large full)
            | inr room ↦
                new-IsParted cap r fresh e old sound old.v [] (absent q)
                  (nothing-IsShed cap r fresh e old sound (absent q) large room)
          ]))
    ]
  ]
    where
      absent : contains_key old.v e.key ≡ false → lookup e.key (contents old.v) ≡ none
      absent q = ground (arith, (contains_refines e.key sound.valid).1)

      other :
          (ltb 0 old.v.size && first old.v == e.key) ≡ false
          → contains_key old.v e.key ≡ true
          → first old.v ≢ e.key
      other p q h = ground arith

module _ (cap r fresh : ℕ) (e : Entry ℕ) {layer : Layer} (sound : IsLayer cap layer)
    (large : 0 < cap) where
  split_at_cursor-run :
      {made : Option ℕ} {nodes : List Node} (at : Cursor) (h : IsSound cap at.curr)
      → at.curr_lock ≡ begin_read at.curr.lock
      → branches cap r fresh e at.curr h ≡ ok (made, nodes)
      → split_at_cursor fresh at e r ≡ ok (made, nodes)
  unfolding split_at_cursor write_lock
  split_at_cursor-run at h word p = rw word (rw (lock_lem at.curr.lock h.in_word h.unlocked) p)

  parted-AreWellFormed :
      (before : List Node) (old : Node) (behind : List Node) {made : Option ℕ} (node : Node)
      (others : List Node)
      → (before ≡ []) ⊎ (first old.v ≤ e.key)
      → AreWellFormed cap (before ++ old ∷ behind)
      → IsParted cap r fresh e old made node others
      → AreWellFormed cap (before ++ ((node ∷ others) ++ behind))
  unfolding AreWellFormed AreFilled
  parted-AreWellFormed [] old behind node others anchor w h =
      (h.sound, AreFilled-append cap others behind h.others_filled w.1)
  parted-AreWellFormed (x ∷ before) old behind node others (inl p) w h = absurd (ground arith)
  parted-AreWellFormed (x ∷ before) old behind node others (inr p) w h =
      let old_filled = (AreFilled-parts cap before (old ∷ behind) w.1).1.0 in
      AreWellFormed-replaced cap (x ∷ before) old behind node others w
        ((h.sound, h.filled old_filled.1 p), h.others_filled)

  -- The split at the node that has the place of the key, and what it leaves of that node.
  pub split_at_cursor-Updates :
      (at : Cursor)
      → Covers e.key layer at
      → (made : Option ℕ) × (nodes : List Node) × (split_at_cursor fresh at e r ≡ ok (made, nodes))
        × IsLayer cap (replaced at nodes)
        × (flat (replaced at nodes) ≡ put e (flat layer))
        × HandsUp e.key r at.curr made nodes
        × Updates fresh (fresh + 2) e.key at.curr nodes
        × Bounded e.key made at.curr nodes
  split_at_cursor-Updates at covers =
      let h = (parts-at cap e.key sound covers.reached).0 in
      let (made, node, others, run, parted) = branches-IsParted cap r fresh e at.curr h large in
      let same : flat (replaced at (node ∷ others)) ≡ put e (flat layer) =
        flat-replaced cap fresh r e layer sound large at covers (node ∷ others) parted.together in
      (
        made,
        node ∷ others,
        split_at_cursor-run at h covers.reached.word run,
        record {
          nodes =
              parted-AreWellFormed at.before at.curr at.behind node others covers.reached.anchor
                (rw covers.reached.place sound.nodes) parted;
          ascending = rw same (put-IsAscending e (flat layer) sound.ascending);
        },
        same,
        parted.handed,
        record {
          node = node;
          others = others;
          nodes_lem = refl;
          same_address = parted.same_address;
          same_orphan = parted.same_orphan;
          others_new = parted.others_new;
          filled = parted.filled;
          lowest = first-together e at.curr node others h.valid parted.sound.valid parted.together;
        },
        λ anchor.
            boundaries-Grown e.key at.curr made node others anchor parted.same_orphan
              parted.same_address
              (λ some_old low.
                first_kept e at.curr node others h.valid parted.sound.valid parted.together some_old
                  (parted.filled some_old low) low)
              parted.grown,
      )

  -- In a layer at rest, the split at the node that has the place of the key never starts over and trips
  -- no assertion. The layer with the new nodes is again one at rest, and stands for the old map with
  -- the entry put in, if its key was absent. The split hands up a node that starts with the key,
  -- mirrors the new remote node and is no orphan, unless the key is already the least of an orphan.
  pub split_at_cursor_refines :
      (at : Cursor)
      → Covers e.key layer at
      → (made : Option ℕ) × (nodes : List Node) × (split_at_cursor fresh at e r ≡ ok (made, nodes))
        × IsLayer cap (replaced at nodes)
        × (flat (replaced at nodes) ≡ put e (flat layer))
        × HandsUp e.key r at.curr made nodes
  split_at_cursor_refines at covers =
      let (made, nodes, run, sound', same, handed, updates, bounded) =
        split_at_cursor-Updates at covers in
      (made, nodes, run, sound', same, handed)

-- A node that is handed up stands in the layer.
pub HandsUp-replaced :
    (k r : ℕ) (at : Cursor) (made : Option ℕ) (nodes : List Node)
    → HandsUp k r at.curr made nodes
    → HandsUp k r at.curr made (replaced at nodes)
unfolding HandsUp
HandsUp-replaced k r at none nodes h = h
HandsUp-replaced k r at (some address) nodes
      (before, n, behind, place, address_lem, mirrors, boundary, filled, least) =
    (
      at.before ++ before,
      n,
      behind ++ at.behind,
      rw place (
          ap (◌++◌ at.before) (append_assoc before (n ∷ behind) at.behind)
          ∙ sym (append_assoc at.before before (n ∷ (behind ++ at.behind)))),
      address_lem,
      mirrors,
      boundary,
      filled,
      least,
    )

module _ (cap capd : ℕ) {s : Skipvector} (sound : IsStructure cap capd s) where
  -- In a structure at rest, one attempt of `mirror_split_at_level` at the directory succeeds and leaves
  -- the index as it is. The new directory is a layer at rest and stands for the old map with the
  -- pair put in, if its key was absent. The call hands up a node of the new directory that starts with
  -- the key, mirrors the new remote node and is no orphan, unless the key is the least of an orphan
  -- of the old directory.
  pub mirror_split_at_level_refines :
      (k x r : ℕ)
      → 0 < capd
      → (made : Option ℕ) × (s' : Skipvector) × (old : Node) × (mirror_split_at_level s k 0 x r
          ≡ ok (made, s'))
        × IsLayer capd s'.directory
        × (flat s'.directory ≡ put (pair k x) (flat s.directory))
        × (s'.index ≡ s.index)
        × HandsUp k r old made s'.directory
        × ((before : List Node) × (behind : List Node) × (before ++ old ∷ behind ≡ s.directory))
  unfolding mirror_split_at_level descend_to set_layer
  mirror_split_at_level_refines k x r large =
      let (at, descended, covers, found) = descend_to_directory_lem k sound in
      let directory_sound =
        tower-directory cap capd sound.top sound.others s.directory sound.tower in
      let (made, nodes, run, sound', same, handed) =
        split_at_cursor_refines capd r s.fresh (pair k x) directory_sound large at covers in
      (
        made,
        record s { directory = replaced at nodes; fresh = s.fresh + 2 },
        at.curr,
        rw descended (rw run refl),
        sound',
        same,
        refl,
        HandsUp-replaced k r at made nodes handed,
        (at.before, at.behind, covers.reached.place),
      )
