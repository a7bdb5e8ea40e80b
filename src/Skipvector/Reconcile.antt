-- ===== src/Skipvector/Reconcile.antt =====
-- `mirror_reconcile` of skipvector_disco.h, `set_head_remote_addrs`, and the walks over all nodes of a level.
use disco_skip.SvLock
use disco_skip.Prelude.{false, map, ℕ, zero, suc, ◌+◌, ◌-◌}
use disco_skip.Prelude.{Bool, true, Option, none, some}
use disco_skip.Prelude.{List, [], ◌∷◌, ltb, ◌==◌, if◌then◌else◌}
use disco_skip.Prelude.{length, get_elem?, take}
use disco_skip.Vector.Sorted
use disco_skip.Vector.Sorted.{Vec}
use disco_skip.Skipvector.Nodes.{Node, Layer, Attempt, ok, ◌>>=◌, is_orphan_seq}
use disco_skip.Skipvector.Descent.{Skipvector}
use disco_skip.Skipvector.Mirror.{install_data_entry, install_index_entry, mirror_split_at_level}

-- What a remote descent saw at a level: `path_step`.
pub record PathStep : Type 0 where
  pub k_min : ℕ
  pub addr : ℕ
  pub first_down : ℕ

-- The climb of `mirror_reconcile` from `level` on, with the steps of the path from that level, of which
-- those at the layers count: the level and the node below it at the end.
unfoldable pub climb : List PathStep → Skipvector → ℕ → ℕ → ℕ → Attempt (ℕ × ℕ × Skipvector)
climb [] s b level child = ok (level, child, s)
climb (step ∷ path) s b level child =
    if step.k_min == b
    then (do
      (made, s') ← mirror_split_at_level s b level child step.addr
      elim made [ none ↦ ok (level, child, s') | some n ↦ climb path s' b (level + 1) n ])
    else ok (level, child, s)

abbrev pub addr_or_null : Option PathStep → ℕ
addr_or_null none = 0
addr_or_null (some step) = step.addr

-- `mirror_reconcile`, if no attempt in it has to start over. `levels` is the length of the path.
unfoldable pub mirror_reconcile : Skipvector → ℕ → ℕ → List PathStep → Attempt Skipvector
mirror_reconcile s data_k_min data_addr [] = install_data_entry s data_k_min data_addr 0
mirror_reconcile s data_k_min data_addr (bottom ∷ path) = do
  s ← install_data_entry s data_k_min data_addr bottom.addr
  (made, s) ← mirror_split_at_level s bottom.k_min 0 bottom.first_down bottom.addr
  elim made [
    | none ↦ ok s
    | some d ↦ (do
      (level, child, s') ← climb (take (length s.index) path) s bottom.k_min 1 d
      if ltb level (length s'.index + 1)
          then install_index_entry s' level bottom.k_min child
              (addr_or_null (get_elem? (bottom ∷ path) level))
          else ok s')
  ]

-- The nodes of a level, from the head on.
unfoldable pub level_nodes : Skipvector → ℕ → List Node
level_nodes s zero = s.directory
level_nodes s (suc n) = elim (get_elem? s.index (length s.index - suc n)) [
  | none ↦ []
  | some layer ↦ layer
]

-- What `for_each_node` calls its callback with, node by node.
unfoldable pub for_each_node : Skipvector → ℕ → List (ℕ × Bool × ℕ)
for_each_node s level =
    map (λ c. (if ltb 0 c.v.size then Sorted.first c.v else 0, is_orphan_seq c, c.v.size))
      (level_nodes s level)

unfoldable pub node_count : Skipvector → ℕ → ℕ
node_count s level = length (level_nodes s level)

abbrev pub set_head : ℕ → Layer → Layer
set_head addr [] = []
set_head addr (head ∷ nodes) = record head { remote_addr = addr } ∷ nodes

-- The index layers, from the top one down; a missing address is an exception of `at`.
unfoldable pub set_index_heads : List Layer → List ℕ → Option (List Layer)
set_index_heads [] addrs = some []
set_index_heads (top ∷ others) addrs = elim (get_elem? addrs (length others + 1)) [
  | none ↦ none
  | some addr ↦ elim (set_index_heads others addrs) [
    | none ↦ none
    | some others' ↦ some (set_head addr top ∷ others')
  ]
]

unfoldable pub set_head_remote_addrs : Skipvector → List ℕ → Option Skipvector
set_head_remote_addrs s addrs = if s.heads_bootstrapped then none else elim (get_elem? addrs 0) [
  | none ↦ none
  | some addr ↦ elim (set_index_heads s.index addrs) [
    | none ↦ none
    | some index ↦ some (record s {
      index = index;
      directory = set_head addr s.directory;
      heads_bootstrapped = true;
    })
  ]
]

-- The call without a path.
unfoldable pub reconcile_entry : Skipvector → ℕ → ℕ → Attempt Skipvector
reconcile_entry s data_k_min data_addr = mirror_reconcile s data_k_min data_addr []

-- `fail()` is `false`, as in a release build.
unfoldable pub verify_lock : Node → Bool
verify_lock curr = if SvLock.is_locked curr.lock then false else true

unfoldable pub sum_sizes : List Node → ℕ
sum_sizes [] = 0
sum_sizes (curr ∷ nodes) = curr.v.size + sum_sizes nodes

unfoldable pub get_size : Skipvector → ℕ
get_size s = sum_sizes s.directory
