-- ===== src/Skipvector/Nodes.antt =====
-- The nodes and layers of disco-skip/include/skipvector_disco.h, with the sorted vector that
-- disco-skip/src/ds_cache.hpp picks. A value is a number: the address of a local node in an index
-- layer, and of a remote node in the directory, where 0 is null. A layer is the list of its nodes from
-- the head on, so the `next` of a node is the one behind it, and a node is known by its address.
use disco_skip.Prelude.{ℕ, ◌+◌, ◌*◌, ◌^◌, Bool, true, false, Option, none, some, List, [], ◌∷◌}
use disco_skip.Prelude.{if◌then◌else◌, replicate}
use disco_skip.SvLock
use disco_skip.Vector.Slots.{Entry}
use disco_skip.Vector.Sorted
use disco_skip.Vector.Sorted.{Vec}

pub record Node : Type 0 where
  pub address : ℕ
  pub lock : ℕ
  pub remote_addr : ℕ
  pub cached_struct_ver : ℕ
  pub v : Vec ℕ

abbrev pub Layer : Type 0
Layer = List Node

-- How an attempt ends: with a result, with a failed check of a sequence lock, after which the source
-- starts over, or with a failed assertion or a pointer to no node.
pub data Attempt (A : Type 0) : Type 0 where
  ok : A → Attempt A
  retry : Attempt A
  fault : Attempt A

infixl 5 ◌>>=◌ ◌>>◌
abbrev pub ◌>>=◌ : {A B : Type 0} → Attempt A → (A → Attempt B) → Attempt B
ok a >>= f = f a
retry >>= f = retry
fault >>= f = fault

abbrev pub ◌>>◌ : {B : Type 0} → Attempt (Unit {0}) → Attempt B → Attempt B
m >> k = m >>= λ _. k

-- `if (!test) restart`
abbrev pub check : Bool → Attempt (Unit {0})
check true = ok tt
check false = retry

abbrev pub required : {A : Type 0} → Option A → Attempt A
required none = fault
required (some a) = ok a

-- The capacity of a vector with exponent `exp`, which is `some n` if EXP is n + 1, and `none` if EXP is
-- not positive.
unfoldable pub get_vector_size : Option ℕ → ℕ
get_vector_size none = 1
get_vector_size (some n) = 2 * 2 ^ (n + 1)

-- A vector without entries. The source leaves its slots at their default values, and no entry is ever
-- read from a slot at `size` or behind it: the zeros stand for whatever is there.
abbrev pub empty_vec : ℕ → Vec ℕ
empty_vec capacity = record { list = replicate capacity (record { key = 0; val = 0 }); size = 0 }

-- The constructors, less the stitching of the second.
unfoldable pub new_node : ℕ → ℕ → Bool → ℕ → Node
new_node address capacity orphan r_addr = record {
  address = address;
  lock = SvLock.init orphan;
  remote_addr = r_addr;
  cached_struct_ver = 0;
  v = empty_vec capacity;
}

unfoldable pub is_orphan_seq : Node → Bool
is_orphan_seq node = SvLock.is_orphan node.lock

-- `insert` of a node: the result, the node, and the orphan that a split makes, which goes behind the
-- node. `fresh` is the address of a new node.
unfoldable pub insert : ℕ → Node → Entry ℕ → ℕ → Attempt (Bool × Node × List Node)
insert fresh node pair r_addr =
    let (result, overfull, v') = Sorted.insert node.v pair in
    let orphan = new_node fresh (Sorted.get_capacity node.v) true r_addr in
    if overfull
    then (do
      (theirs, ours) ← required (Sorted.steal_half_and_insert orphan.v node.v pair)
      ok (true, record node { v = ours }, record orphan { v = theirs } ∷ []))
    else ok (result, record node { v = v' }, [])
