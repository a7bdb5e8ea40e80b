-- ===== src/Skipvector/Mirror.antt =====
-- The updates of disco-skip/include/skipvector_disco.h. An update is one attempt: it returns the new
-- structure beside its result, and `retry` where the source starts over. PROMOTE_INDEX_ORPHANS is false,
-- so no orphan is promoted.
use disco_skip.Prelude.{
  ℕ, zero, suc, ◌+◌, ◌-◌, Bool, true, false, Option, none, some, List, [], ◌∷◌, ◌++◌,
}
use disco_skip.Prelude.{ltb, ◌==◌, if◌then◌else◌, set, length, get_elem?, ◌&&◌, not}
use disco_skip.SvLock
use disco_skip.Vector.Slots.{Entry}
use disco_skip.Vector.Sorted
use disco_skip.Skipvector.Nodes
use disco_skip.Skipvector.Nodes.{
  Node, Layer, Attempt, ok, retry, fault, ◌>>=◌, ◌>>◌, check, required,
}
use disco_skip.Skipvector.Descent.{Cursor, Skipvector, descend_to_directory, descend_to_index_level}

abbrev pub pair : ℕ → ℕ → Entry ℕ
pair k x = record { key = k; val = x }

-- `if (!curr->lock.try_upgrade(curr_lock)) restart`
unfoldable pub write_lock : Cursor → Attempt Node
write_lock c = do
  (upgraded, word) ← required (SvLock.try_upgrade c.curr.lock c.curr_lock)
  check upgraded
  ok (record c.curr { lock = word })

unfoldable pub unlock : Bool → Node → Attempt Node
unlock changed node = do
  word ← required (SvLock.release_changed_if changed node.lock)
  ok (record node { lock = word })

-- Other nodes in the place of the cursor's.
abbrev pub replaced : Cursor → List Node → Layer
replaced c nodes = c.before ++ (nodes ++ c.behind)

-- Layer `level`, counted from the directory.
unfoldable pub set_layer : Skipvector → ℕ → Layer → Skipvector
set_layer s zero layer = record s { directory = layer }
set_layer s (suc n) layer = record s { index = set s.index (length s.index - suc n) layer }

unfoldable pub descend_to : Skipvector → ℕ → ℕ → Attempt Cursor
descend_to s zero k = descend_to_directory s k
descend_to s (suc n) k = descend_to_index_level s k (suc n)

-- What `install_data_entry`, `install_index_entry` and `mirror_insert_at_top_level` do at the node that
-- they come to.
unfoldable pub insert_at : ℕ → Cursor → Entry ℕ → ℕ → Attempt (List Node)
insert_at fresh c entry orphan_addr = do
  locked ← write_lock c
  (changed, node, orphan) ← Nodes.insert fresh locked entry orphan_addr
  node ← unlock changed node
  ok (node ∷ orphan)

unfoldable pub install_entry : Skipvector → ℕ → Entry ℕ → ℕ → Attempt Skipvector
install_entry s level entry orphan_addr = do
  c ← descend_to s level entry.key
  nodes ← insert_at s.fresh c entry orphan_addr
  ok (record (set_layer s level (replaced c nodes)) { fresh = s.fresh + 1 })

unfoldable pub install_data_entry : Skipvector → ℕ → ℕ → ℕ → Attempt Skipvector
install_data_entry s key addr orphan_addr = install_entry s 0 (pair key addr) orphan_addr

unfoldable pub install_index_entry : Skipvector → ℕ → ℕ → ℕ → ℕ → Attempt Skipvector
install_index_entry s level key down orphan_addr = install_entry s level (pair key down) orphan_addr

unfoldable pub mirror_insert_at_top_level : Skipvector → ℕ → ℕ → ℕ → ℕ → Attempt Skipvector
mirror_insert_at_top_level s k level down_ptr orphan_addr =
    install_entry s level (pair k down_ptr) orphan_addr

-- The branches of `mirror_split_at_level` at the locked node. Each returns the address of the node
-- that has the minimum `k`, if there is one, and the nodes in place of this one.
unfoldable pub adopt_minimum : Node → ℕ → Attempt (Option ℕ × List Node)
adopt_minimum node new_remote_addr =
    let usable = not (SvLock.is_orphan node.lock) in
    let adopted = if usable then record node { remote_addr = new_remote_addr } else node in
    do
      adopted ← unlock usable adopted
      ok (if usable then some node.address else none, adopted ∷ [])

unfoldable pub split_coarse : ℕ → Node → ℕ → ℕ → Attempt (Option ℕ × List Node)
split_coarse fresh node k new_remote_addr = do
  let split = Nodes.new_node fresh (Sorted.get_capacity node.v) false new_remote_addr
  (moved, theirs, ours) ← required (Sorted.split_at split.v node.v k)
  node ← unlock moved (record node { v = ours })
  ok (if moved then (some fresh, node ∷ record split { v = theirs } ∷ []) else (none, node ∷ []))

-- The node to split, and what it has shed.
unfoldable pub shed_half : ℕ → Node → ℕ → Node × List Node
shed_half fresh node k =
    let shed = Nodes.new_node fresh (Sorted.get_capacity node.v) true 0 in
    let (theirs, ours) = Sorted.steal_half shed.v node.v in
    if node.v.size == Sorted.get_capacity node.v && ltb k (Sorted.first node.v)
    then (record node { v = ours }, record shed { v = theirs } ∷ [])
    else (node, [])

unfoldable pub split_new : ℕ → Node → Entry ℕ → ℕ → Attempt (Option ℕ × List Node)
split_new fresh node entry new_remote_addr = do
  let (node, shed) = shed_half fresh node entry.key
  let new_local = Nodes.new_node (fresh + 1) (Sorted.get_capacity node.v) false new_remote_addr
  (theirs, ours) ← required (Sorted.split_insert new_local.v node.v entry)
  node ← unlock true (record node { v = ours })
  ok (some (fresh + 1), node ∷ record new_local { v = theirs } ∷ shed)

unfoldable pub split_at_cursor : ℕ → Cursor → Entry ℕ → ℕ → Attempt (Option ℕ × List Node)
split_at_cursor fresh c entry new_remote_addr = do
  node ← write_lock c
  if ltb 0 node.v.size && Sorted.first node.v == entry.key
      then adopt_minimum node new_remote_addr
      else (if Sorted.contains_key node.v entry.key
          then split_coarse fresh node entry.key new_remote_addr
          else split_new fresh node entry new_remote_addr)

unfoldable pub mirror_split_at_level : Skipvector → ℕ → ℕ → ℕ → ℕ → Attempt (Option ℕ × Skipvector)
mirror_split_at_level s k level down_ptr_k new_remote_addr = do
  c ← descend_to s level k
  (made, nodes) ← split_at_cursor s.fresh c (pair k down_ptr_k) new_remote_addr
  ok (made, record (set_layer s level (replaced c nodes)) { fresh = s.fresh + 2 })

-- The loop of `mirror_insert` from `level` on, with the rounds left: it stops at the top level or where
-- a level cannot be built, and returns that level and the node below it.
unfoldable pub build_levels : ℕ → Skipvector → ℕ → ℕ → ℕ → List ℕ → Attempt (ℕ × ℕ × Skipvector)
build_levels zero s k level child addrs = ok (level, child, s)
build_levels (suc rounds) s k level child addrs = do
  addr ← required (get_elem? addrs level)
  (made, s') ← mirror_split_at_level s k level child addr
  elim made [ none ↦ ok (level, child, s') | some n ↦ build_levels rounds s' k (level + 1) n addrs ]

-- `mirror_insert`, if no attempt in it has to start over. `layers` is one more than the index layers.
unfoldable pub mirror_insert : Skipvector → ℕ → ℕ → ℕ → List ℕ → Attempt Skipvector
mirror_insert s k zero data_addr addrs = fault
mirror_insert s k (suc zero) data_addr addrs = do
  addr ← required (get_elem? addrs 0)
  mirror_insert_at_top_level s k 0 data_addr addr
mirror_insert s k (suc (suc top)) data_addr addrs = do
  addr ← required (get_elem? addrs 0)
  (made, s') ← mirror_split_at_level s k 0 data_addr addr
  elim made [
    | none ↦ ok s'
    | some d ↦ (do
      (level, child, s'') ← build_levels top s' k 1 d addrs
      if ltb level (length s''.index + 1)
          then (do
            orphan_addr ← required (get_elem? addrs level)
            mirror_insert_at_top_level s'' k level child orphan_addr)
          else ok s'')
  ]
