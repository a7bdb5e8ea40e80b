-- ===== src/Skipvector/Descent.antt =====
-- The walk along a layer and the descent through the layers of disco-skip/include/skipvector_disco.h.
-- A loop that starts over is modelled by one attempt. Hazard pointers are left out: they are the business
-- of the template parameter HP, and do not change what is read.
use disco_skip.Prelude.{ℕ, ◌+◌, ◌-◌, Bool, true, Option, none, some, List, [], ◌∷◌, ◌++◌}
use disco_skip.Prelude.{ltb, ◌==◌, if◌then◌else◌, take, length}
use disco_skip.SvLock
use disco_skip.Vector.Slots.{Entry}
use disco_skip.Vector.Sorted
use disco_skip.Skipvector.Nodes.{Node, Layer, Attempt, ok, fault, ◌>>=◌, ◌>>◌, check, required}

-- `curr` and the read value of its lock, between the nodes before and behind it in its layer.
pub record Cursor : Type 0 where
  pub before : List Node
  pub curr : Node
  pub curr_lock : ℕ
  pub behind : List Node

-- `!curr->v.last(last) || k > last`
abbrev pub passes : Node → ℕ → Bool
passes curr k = elim (Sorted.last curr.v) [ none ↦ true | some last ↦ ltb last k ]

-- `check_next`, by recursion on the nodes behind `curr`.
unfoldable pub check_next : ℕ → List Node → Node → ℕ → List Node → Attempt Cursor
check_next k before curr curr_lock [] =
    ok (record { before = before; curr = curr; curr_lock = curr_lock; behind = [] })
check_next k before curr curr_lock (next ∷ behind) =
    let next_lock = SvLock.begin_read next.lock in
    let onward = check_next k (before ++ curr ∷ []) next next_lock behind in
    let stay : Cursor = record {
      before = before;
      curr = curr;
      curr_lock = curr_lock;
      behind = next ∷ behind;
    } in
    if passes curr k
    then (do
      check (SvLock.confirm_read curr.lock curr_lock)
      if ltb k (Sorted.first next.v)
          then (check (SvLock.confirm_read next.lock next_lock) >> ok stay)
          else (check (SvLock.confirm_read curr.lock curr_lock) >> onward))
    else ok stay

-- The node with an address, in its layer.
unfoldable pub node_at : ℕ → List Node → Layer → Option Cursor
node_at address before [] = none
node_at address before (n ∷ behind) =
    let later = node_at address (before ++ n ∷ []) behind in
    if n.address == address
    then some (record {
      before = before;
      curr = n;
      curr_lock = SvLock.begin_read n.lock;
      behind = behind;
    })
    else later

-- The head of a layer, read-locked.
unfoldable pub head_of : Layer → Attempt Cursor
head_of [] = fault
head_of (n ∷ behind) =
    ok (record { before = []; curr = n; curr_lock = SvLock.begin_read n.lock; behind = behind })

-- `reader_swap`: the read lock of `curr` is given up for that of the new node.
unfoldable pub reader_swap : Cursor → Cursor → Attempt Cursor
reader_swap c new_node = do
  check (SvLock.confirm_read c.curr.lock c.curr_lock)
  check (SvLock.confirm_read c.curr.lock c.curr_lock)
  ok new_node

-- The node that an entry points down to, or the head of the layer if there is no entry.
unfoldable pub pointed_to : Option (Entry ℕ) → Layer → Attempt Cursor
pointed_to none below = head_of below
pointed_to (some e) below = required (node_at e.val [] below)

-- `follow` from the cursor into the layer below: the new cursor, and what goes to `prev_addr_out`.
unfoldable pub follow : ℕ → Cursor → Layer → Attempt (Cursor × ℕ)
follow k c below = do
  at ← check_next k c.before c.curr c.curr_lock c.behind
  down ← pointed_to (Sorted.find_lte at.curr.v k) below
  new_cursor ← reader_swap at down
  ok (new_cursor, at.curr.remote_addr)

-- The structure: index layers from the top one (layers - 1) down to layer 1, and the directory, which
-- is layer 0. Every layer has its head. `fresh` is an address that no node has.
pub record Skipvector : Type 0 where
  pub index : List Layer
  pub directory : Layer
  pub fresh : ℕ
  pub heads_bootstrapped : Bool

-- `follow` through so many layers.
unfoldable pub descend_layers : ℕ → Cursor → List Layer → Attempt Cursor
descend_layers k c [] = ok c
descend_layers k c (layer ∷ below) = do (down, _) ← follow k c layer; descend_layers k down below

-- One attempt of `descend_to_directory`.
unfoldable pub descend_to_directory : Skipvector → ℕ → Attempt Cursor
descend_to_directory s k = elim s.index [
  | [] ↦ fault
  | top ∷ others ↦ (do
    c ← head_of top
    c ← descend_layers k c others
    (c, _) ← follow k c s.directory
    check_next k c.before c.curr c.curr_lock c.behind)
]

-- One attempt of `descend_to_index_level`; the top layer is `layers - 1`, the number of index layers.
unfoldable pub descend_to_index_level : Skipvector → ℕ → ℕ → Attempt Cursor
descend_to_index_level s k target_level = elim s.index [
  | [] ↦ fault
  | top ∷ others ↦ (do
    c ← head_of top
    c ← descend_layers k c (take (length others + 1 - target_level) others)
    check_next k c.before c.curr c.curr_lock c.behind)
]

abbrev pub value_or_null : Option (Entry ℕ) → ℕ
value_or_null none = 0
value_or_null (some e) = e.val

-- One attempt of `locate_data`: the address of the data node that may hold the key, or null.
unfoldable pub locate_data : Skipvector → ℕ → Attempt ℕ
locate_data s k = do
  c ← descend_to_directory s k
  check (SvLock.confirm_read c.curr.lock c.curr_lock)
  ok (value_or_null (Sorted.find_lte c.curr.v k))
