-- ===== src/Skipvector/Tests.antt =====
-- Runs of the structure of skipvector_disco.h, and its theorems at a concrete structure.
use disco_skip.Skipvector.Nested.{IsWhole}
use disco_skip.Skipvector.Boundaries.{boundaries}
use disco_skip.Skipvector.Split.{HandsUp}
use disco_skip.Skipvector.Split.Level.{mirror_split_at_level_refines}
use disco_skip.Skipvector.Mirror.{mirror_split_at_level}
use disco_skip.Skipvector.Gather.{gather_prevs, IsCovering, gather_prevs_lem}
use disco_skip.Skipvector.Heights.{random_height, height_loop}
use disco_skip.Prelude.{
  false, ◌≤◌, ◌-◌, get_elem?, ◌++◌, Option, inl, inr, ℕ, zero, suc, ◌<◌, ◌≡◌, refl, sym,
}
use disco_skip.Prelude.{arith, true, some}
use disco_skip.Prelude.{List, [], ◌∷◌}
use disco_skip.Prelude.{length, get_elem?}
use disco_skip.SvLock
use disco_skip.Prelude.{◌^◌}
use disco_skip.SvLock.{is_unlocked, begin_read, confirm_read}
use disco_skip.Vector.Slots.{Entry, key_at}
use disco_skip.Vector.Entries.{floor}
use disco_skip.Vector.Parts.{put}
use disco_skip.Vector.Sorted.{Vec, verify, verify_loop, find_loop, find, find_lte, first, last}
use disco_skip.Vector.Sorted.Verify.{verify_iff}
use disco_skip.Vector.Sorted.Find.{IsValid}
use disco_skip.Skipvector.Nodes.{Node, Layer, ok}
use disco_skip.Skipvector.Descent.{
  Cursor, Skipvector, check_next, node_at, head_of, reader_swap, pointed_to, follow, descend_layers,
  descend_to_directory, descend_to_index_level, locate_data, value_or_null,
}
use disco_skip.Skipvector.Mirror.{pair, install_data_entry}
use disco_skip.Skipvector.Layers.{flat, AreFilled, AreWellFormed, IsSound, IsLayer}
use disco_skip.Skipvector.Walk.{Reaches, Covers}
use disco_skip.Skipvector.Locate.{IsStructure, IsTower, IsLinked, locate_data_lem}
use disco_skip.Skipvector.Install.{install_data_entry_refines}
use disco_skip.Prelude.{◌⊎◌, none}
use disco_skip.Vector.Entries.{lookup}
use disco_skip.Skipvector.Layers.{AreNew, IsAway}
use disco_skip.Skipvector.Pointers.{HasOrphanHead}
use disco_skip.Skipvector.Closed.{IsClosed}
use disco_skip.Skipvector.Mirror.{mirror_insert}
use disco_skip.Skipvector.Reconcile.{PathStep, mirror_reconcile, level_nodes}
use disco_skip.Skipvector.Insertion.{mirror_insert-IsWhole, mirror_insert-locate_data}
use disco_skip.Skipvector.Repair.{mirror_reconcile-IsWhole}

program : Unit {0}
unfolding flat SvLock.is_orphan AreFilled AreWellFormed IsTower is_unlocked begin_read confirm_read
    verify verify_loop find_loop find find_lte first last check_next node_at head_of reader_swap
    pointed_to follow descend_layers descend_to_directory descend_to_index_level locate_data floor
program = tt

abbrev junk : Entry ℕ
junk = pair 99 0

-- A node that has been written eight times; the lock of an orphan is 65, and of another node 64.
abbrev node : ℕ → ℕ → Vec ℕ → Node
node address lock v = record {
  address = address;
  lock = lock;
  remote_addr = 0;
  cached_struct_ver = 0;
  v = v;
}

abbrev head : Node
head = node 1 65 (record { list = pair 3 30 ∷ junk ∷ []; size = 1 })

abbrev full : Node
full = node 2 64 (record { list = pair 5 50 ∷ pair 8 80 ∷ []; size = 2 })

abbrev top_head : Node
top_head = node 3 65 (record { list = pair 5 2 ∷ junk ∷ []; size = 1 })

-- A directory of two nodes, under an index layer with an entry for the second.
abbrev two_layers : Skipvector
two_layers = record {
  index = (top_head ∷ []) ∷ [];
  directory = head ∷ full ∷ [];
  fresh = 4;
  heads_bootstrapped = true;
}

locate_runs :
    (locate_data two_layers 7 ≡ ok 50)
    × ((locate_data two_layers 4 ≡ ok 30) × (locate_data two_layers 2 ≡ ok 0))
unfolding program
locate_runs = (refl, (refl, refl))

node-IsValid : (n : Node) → verify n.v ≡ true → IsValid n.v
node-IsValid n e = (verify_iff n.v).0 e

abbrev three_keys : Vec ℕ
three_keys = record { list = pair 3 30 ∷ pair 5 50 ∷ pair 8 80 ∷ []; size = 3 }

abbrev one_key : Vec ℕ
one_key = record { list = pair 5 2 ∷ []; size = 1 }

node-IsSound :
    (n : Node)
    → n.lock < 2 ^ 64
    → is_unlocked n.lock ≡ true
    → verify n.v ≡ true
    → length n.v.list ≡ 2
    → IsSound 2 n
unfolding program
node-IsSound n small free ordered large = record {
  in_word = small;
  unlocked = free;
  valid = (verify_iff n.v).0 ordered;
  capacity = large;
}

directory-IsLayer : IsLayer 2 (head ∷ full ∷ [])
unfolding program
directory-IsLayer = record {
  nodes = (
    node-IsSound head (omega arith) refl refl refl,
    ((node-IsSound full (omega arith) refl refl refl, omega arith), tt),
  );
  ascending = ((verify_iff three_keys).0 refl).ascending;
}

top-IsLayer : IsLayer 2 (top_head ∷ [])
unfolding program
top-IsLayer = record {
  nodes = (node-IsSound top_head (omega arith) refl refl refl, tt);
  ascending = ((verify_iff one_key).0 refl).ascending;
}

top-IsLinked : IsLinked (top_head ∷ []) (head ∷ full ∷ [])
unfolding program
top-IsLinked zero e p =
    let same : pair 5 2 ≡ e = ground arith in
    rw (sym same) (
      record { before = head ∷ []; curr = full; curr_lock = 64; behind = [] },
      refl,
      omega arith,
      omega arith,
      refl,
    )
top-IsLinked (suc i) e p = absurd (ground arith)

two_layers-IsStructure : IsStructure 2 2 two_layers
unfolding program
two_layers-IsStructure = record {
  top = top_head ∷ [];
  others = [];
  layers = refl;
  tower = (top-IsLayer, (directory-IsLayer, top-IsLinked));
}

abbrev start : Cursor
start = record { before = []; curr = head; curr_lock = 65; behind = full ∷ [] }

start-Reaches : Reaches 7 two_layers.directory start
unfolding program
start-Reaches = record {
  place = refl;
  word = refl;
  lower = λ i p. absurd (omega arith);
  anchor = inl refl;
  rest_floor = refl;
}

abbrev second : Cursor
second = record { before = head ∷ []; curr = full; curr_lock = 64; behind = [] }

head-below : (i : ℕ) → i < 1 → key_at (pair 3 30 ∷ []) i < 7
head-below zero p = omega arith
head-below (suc i) p = absurd (omega arith)

second-Covers : Covers 7 two_layers.directory second
unfolding program
second-Covers = record {
  reached = record {
    place = refl;
    word = refl;
    lower = head-below;
    anchor = inr (omega arith);
    rest_floor = refl;
  };
  upper = λ i p. absurd (omega arith);
}

locate_data_lem_example :
    locate_data two_layers 7 ≡ ok (value_or_null (floor 7 (flat two_layers.directory)))
locate_data_lem_example = locate_data_lem 7 two_layers-IsStructure

install_data_entry_refines_example :
    (s' : Skipvector) × (install_data_entry two_layers 7 70 0 ≡ ok s')
    × IsLayer 2 s'.directory
    × (flat s'.directory ≡ put (pair 7 70) (flat two_layers.directory))
    × (s'.index ≡ two_layers.index)
install_data_entry_refines_example =
    install_data_entry_refines 2 2 two_layers-IsStructure (omega arith) 7 70 0

mirror_split_at_level_refines_example :
    (made : Option ℕ) × (s' : Skipvector) × (old : Node) × (mirror_split_at_level two_layers 8 0 81
        9
      ≡ ok (made, s'))
    × IsLayer 2 s'.directory
    × (flat s'.directory ≡ put (pair 8 81) (flat two_layers.directory))
    × (s'.index ≡ two_layers.index)
    × HandsUp 8 9 old made s'.directory
    × ((before : List Node) × (behind : List Node) × (before ++ old ∷ behind
          ≡ two_layers.directory))
mirror_split_at_level_refines_example =
    mirror_split_at_level_refines 2 2 two_layers-IsStructure 8 81 9 (omega arith)

gather_prevs_lem_example :
    (prev_addrs' : List ℕ) × (gather_prevs two_layers 7 2 (0 ∷ 0 ∷ 6 ∷ []) ≡ ok prev_addrs')
    × IsCovering 7 two_layers.directory 0 prev_addrs'
    × ((level : ℕ)
        → 0 < level
        → level < 2
        → level ≤ 1
        → (layer : Layer) × (get_elem? two_layers.index (1 - level) ≡ some layer)
          × IsCovering 7 layer level prev_addrs')
    × (length prev_addrs' ≡ 3)
    × ((level : ℕ) → 2 ≤ level → get_elem? prev_addrs' level ≡ get_elem? (0 ∷ 0 ∷ 6 ∷ []) level)
gather_prevs_lem_example =
    gather_prevs_lem 7 two_layers-IsStructure 2 (0 ∷ 0 ∷ 6 ∷ []) (omega arith) (omega arith)

-- Of 48 = 2 * 2 * 2 * 2 * 3, to the ratio 2 throughout.
random_height_runs : random_height false 6 2 2 48 ≡ 4
unfolding random_height height_loop
random_height_runs = refl

layer_of_two : (l : ℕ) → l ≤ 1 → (l ≡ 0) ⊎ (l ≡ 1)
layer_of_two zero h = inl refl
layer_of_two (suc zero) h = inr refl
layer_of_two (suc (suc l)) h = absurd (omega arith)

two_layers-IsClosed : IsClosed 2 two_layers
unfolding level_nodes AreNew IsAway HasOrphanHead program
two_layers-IsClosed = record {
  some_index = omega arith;
  sound =
      λ l h. elim (layer_of_two l h) [ inl p ↦ rw p directory-IsLayer | inr p ↦ rw p top-IsLayer ];
  numbered = λ l h. elim (layer_of_two l h) [
    | inl p ↦ rw p (record {
      addresses =
          ((omega arith, omega arith), ((omega arith, tt), ((omega arith, omega arith), (tt, tt))));
      orphan_head = refl;
    })
    | inr p ↦
        rw p (record { addresses = ((omega arith, omega arith), (tt, tt)); orphan_head = refl })
  ];
  linked = λ l h. let at_bottom : l ≡ 0 = omega arith in rw at_bottom top-IsLinked;
}

two_layers-IsWhole : IsWhole 2 two_layers
unfolding level_nodes boundaries program
two_layers-IsWhole = record {
  closed = two_layers-IsClosed;
  nested = λ m h. let at_bottom : m ≡ 0 = omega arith in rw at_bottom refl;
}

mirror_insert-IsWhole_example :
    (s' : Skipvector) × (mirror_insert two_layers 7 2 70 (9 ∷ 8 ∷ []) ≡ ok s')
    × IsWhole 2 s'
    × (length s'.index ≡ 1)
    × (flat s'.directory ≡ put (pair 7 70) (flat two_layers.directory))
mirror_insert-IsWhole_example =
    mirror_insert-IsWhole 2 two_layers two_layers-IsWhole (omega arith) 7 70 (9 ∷ 8 ∷ []) 2
      (omega arith) (omega arith) (omega arith)

mirror_insert-locate_data_example :
    (s' : Skipvector) × (mirror_insert two_layers 7 2 70 (9 ∷ 8 ∷ []) ≡ ok s')
    × IsWhole 2 s'
    × ((q : ℕ)
        → locate_data s' q
          ≡ ok (value_or_null (floor q (put (pair 7 70) (flat two_layers.directory)))))
    × (lookup 7 (flat two_layers.directory) ≡ none → locate_data s' 7 ≡ ok 70)
mirror_insert-locate_data_example =
    mirror_insert-locate_data 2 two_layers two_layers-IsWhole (omega arith) 7 70 (9 ∷ 8 ∷ []) 2
      (omega arith) (omega arith) (omega arith)

-- The data node of 7 belongs below the data node of 5, which is entered at both layers.
abbrev two_steps : List PathStep
two_steps =
    record { k_min = 5; addr = 9; first_down = 50 }
    ∷ record { k_min = 5; addr = 8; first_down = 9 }
    ∷ []

mirror_reconcile-IsWhole_example :
    (s' : Skipvector) × (mirror_reconcile two_layers 7 70 two_steps ≡ ok s')
    × IsWhole 2 s'
    × (length s'.index ≡ 1)
    × (flat s'.directory ≡ put (pair 5 50) (put (pair 7 70) (flat two_layers.directory)))
mirror_reconcile-IsWhole_example =
    mirror_reconcile-IsWhole 2 two_layers two_layers-IsWhole (omega arith) 7 70 two_steps
