-- ===== src/Skipvector/Install.antt =====
-- What an insertion of skipvector_disco.h does to a layer at rest.
use disco_skip.Skipvector.Boundaries.{Grown, Bounded, boundaries-Grown}
use disco_skip.Prelude.{ℕ, zero, suc, ◌+◌, ◌-◌, ◌≤◌, ◌<◌, ◌≡◌, refl, sym, ◌∙◌}
use disco_skip.Prelude.{ap, arith, Bool, true, none, some}
use disco_skip.Prelude.{List, ◌∷◌, ◌++◌}
use disco_skip.Prelude.{length, get_elem?, set}
use disco_skip.SvLock.{try_upgrade, release_changed_if}
use disco_skip.Vector.Slots.{Entry}
use disco_skip.Vector.Entries.{}
use disco_skip.Vector.Parts.{put, put-between}
use disco_skip.Vector.Sorted.Find.{contents}
use disco_skip.Skipvector.Nodes
use disco_skip.Skipvector.Nodes.{
  Node, Layer, Attempt, ok, retry, fault, check, required, ◌>>=◌, ◌>>◌, new_node, empty_vec,
}
use disco_skip.Skipvector.Descent.{Cursor, Skipvector}
use disco_skip.Skipvector.Mirror.{
  install_data_entry, install_index_entry, install_entry, descend_to, set_layer, pair, write_lock,
  unlock, insert_at, replaced,
}
use disco_skip.Skipvector.Layers.{
  flat, flat-append, AreFilled, AreWellFormed-replaced, IsLayer, put-IsAscending,
}
use disco_skip.Skipvector.Locate.{
  IsStructure, tower-directory, descend_to_directory_lem, descend_to_index_level_lem,
}
use disco_skip.Skipvector.Updates.{Updates, first-together, first_kept}
use disco_skip.Skipvector.Walk.{Covers, parts-at}
use disco_skip.Skipvector.Stored.{lock_lem, unlock_lem, node_insert_lem}

module _ (fresh addr : ℕ) (e : Entry ℕ) (c : Cursor) where
  -- The four calls of an insertion, one after the other.
  insert_at-run :
      {locked word : ℕ} {changed : Bool} {node : Node} {orphans : List Node}
      → try_upgrade c.curr.lock c.curr_lock ≡ some (true, locked)
      → Nodes.insert fresh (record c.curr { lock = locked }) e addr ≡ ok (changed, node, orphans)
      → release_changed_if changed node.lock ≡ some word
      → insert_at fresh c e addr ≡ ok (record node { lock = word } ∷ orphans)
  unfolding insert_at write_lock unlock
  insert_at-run p q r = rw p (rw q (rw r refl))

module _ (cap fresh addr : ℕ) (e : Entry ℕ) (layer : Layer) (sound : IsLayer cap layer)
    (large : 0 < cap) where
  pub flat-replaced :
      (at : Cursor)
      → Covers e.key layer at
      → (nodes : List Node) → flat nodes ≡ put e (contents at.curr.v)
      → flat (replaced at nodes) ≡ put e (flat layer)
  unfolding flat
  flat-replaced at covers nodes stored =
      flat-append at.before (nodes ++ at.behind)
      ∙ ap (◌++◌ (flat at.before))
          (flat-append nodes at.behind ∙ ap (λ m. m ++ flat at.behind) stored)
      ∙ sym (
          put-between e (flat at.before) (contents at.curr.v) (flat at.behind) covers.reached.lower
            covers.upper)
      ∙ ap (put e)
          (sym (flat-append at.before (at.curr ∷ at.behind)) ∙ ap flat covers.reached.place)

  -- The insertion at the node that has the place of the key, and what it leaves of that node.
  pub insert_at-Updates :
      (at : Cursor)
      → Covers e.key layer at
      → (nodes : List Node) × (insert_at fresh at e addr ≡ ok nodes)
        × IsLayer cap (replaced at nodes)
        × (flat (replaced at nodes) ≡ put e (flat layer))
        × Updates fresh (fresh + 1) e.key at.curr nodes
        × Bounded e.key none at.curr nodes
  unfolding flat AreFilled Grown
  insert_at-Updates at covers =
      let curr_sound = (parts-at cap e.key sound covers.reached).0 in
      let locked : Node = record at.curr { lock = at.curr.lock + 4 } in
      let (changed, node, orphans, inserted, stored) =
        node_insert_lem cap fresh addr e locked curr_sound.valid curr_sound.capacity large in
      let (word, released, in_word, unlocked, orphan) =
        unlock_lem at.curr.lock curr_sound.in_word curr_sound.unlocked changed in
      let node' : Node = record node { lock = word } in
      let filled : AreFilled cap (node' ∷ orphans) = (
        (
          record {
            in_word = in_word;
            unlocked = unlocked;
            valid = stored.valid;
            capacity = stored.capacity;
          },
          stored.filled,
        ),
        stored.orphans_filled,
      ) in
      let same : flat (replaced at (node' ∷ orphans)) ≡ put e (flat layer) =
        flat-replaced at covers (node' ∷ orphans) stored.together in
      (
        node' ∷ orphans,
        insert_at-run fresh addr e at
            (rw covers.reached.word (lock_lem at.curr.lock curr_sound.in_word curr_sound.unlocked))
            inserted (rw stored.same_lock released),
        record {
          nodes =
              AreWellFormed-replaced cap at.before at.curr at.behind node' orphans
                (rw covers.reached.place sound.nodes) filled;
          ascending = rw same (put-IsAscending e (flat layer) sound.ascending);
        },
        same,
        record {
          node = node';
          others = orphans;
          nodes_lem = refl;
          same_address = stored.same_address;
          same_orphan = orphan;
          others_new = stored.orphans_new;
          filled = λ some_old low. stored.filled;
          lowest =
              first-together e at.curr node' orphans curr_sound.valid stored.valid stored.together;
        },
        λ anchor.
            boundaries-Grown e.key at.curr none node' orphans anchor orphan stored.same_address
              (λ some_old low.
                first_kept e at.curr node' orphans curr_sound.valid stored.valid stored.together
                  some_old stored.filled low)
              stored.no_boundary,
      )

  -- In a layer at rest, the insertion at the node that has the place of the key never starts over and
  -- trips no assertion. The layer with the new nodes is again one at rest, and stands for the old map
  -- with the entry put in, if its key was absent; the vectors' bound on entries does not show.
  pub insert_at_refines :
      (at : Cursor)
      → Covers e.key layer at
      → (nodes : List Node) × (insert_at fresh at e addr ≡ ok nodes)
        × IsLayer cap (replaced at nodes)
        × (flat (replaced at nodes) ≡ put e (flat layer))
  insert_at_refines at covers =
      let (nodes, inserted, sound', same, updates, bounded) = insert_at-Updates at covers in
      (nodes, inserted, sound', same)

module _ (cap capd : ℕ) {s : Skipvector} (sound : IsStructure cap capd s) (large : 0 < capd) where
  -- In a structure at rest, one attempt of `install_data_entry` succeeds. It leaves the index layers as
  -- they are, and the directory as a layer at rest that stands for the old map with the pair put in, if its key was absent.
  pub install_data_entry_refines :
      (key addr orphan_addr : ℕ)
      → (s' : Skipvector) × (install_data_entry s key addr orphan_addr ≡ ok s')
        × IsLayer capd s'.directory
        × (flat s'.directory ≡ put (pair key addr) (flat s.directory))
        × (s'.index ≡ s.index)
  unfolding install_data_entry install_entry descend_to set_layer
  install_data_entry_refines key addr orphan_addr =
      let e = pair key addr in
      let (at, descended, covers, found) = descend_to_directory_lem key sound in
      let directory_sound =
        tower-directory cap capd sound.top sound.others s.directory sound.tower in
      let (nodes, inserted, sound', same) =
        insert_at_refines capd s.fresh orphan_addr e s.directory directory_sound large at covers in
      (
        record s { directory = replaced at nodes; fresh = s.fresh + 1 },
        rw descended (rw inserted refl),
        sound',
        same,
        refl,
      )

  -- In a structure at rest, one attempt of `install_index_entry` at a level of the index succeeds. It leaves the other layers as they are, and this one as a layer at rest that stands for the old map with the pair put in, if its key was absent.
  pub install_index_entry_refines :
      (level key down orphan_addr : ℕ)
      → 0 < cap
      → 0 < level
      → level ≤ length s.index
      → (s' : Skipvector) × (layer layer' : Layer) × (install_index_entry s level key down
            orphan_addr
          ≡ ok s')
        × (get_elem? s.index (length s.index - level) ≡ some layer)
        × (s'.index ≡ set s.index (length s.index - level) layer')
        × IsLayer cap layer'
        × (flat layer' ≡ put (pair key down) (flat layer))
        × (s'.directory ≡ s.directory)
  unfolding install_index_entry install_entry descend_to set_layer
  install_index_entry_refines zero key down orphan_addr small h g = absurd (omega arith)
  install_index_entry_refines (suc n) key down orphan_addr small h g =
      let e = pair key down in
      let (at, layer, descended, there, layer_sound, covers, found) =
        descend_to_index_level_lem key sound (suc n) h g in
      let (nodes, inserted, sound', same) =
        insert_at_refines cap s.fresh orphan_addr e layer layer_sound small at covers in
      (
        record s {
          index = set s.index (length s.index - suc n) (replaced at nodes);
          fresh = s.fresh + 1;
        },
        layer,
        replaced at nodes,
        rw descended (rw inserted refl),
        there,
        refl,
        sound',
        same,
        refl,
      )
