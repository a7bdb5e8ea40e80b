-- ===== src/Skipvector/Insertion.antt =====
-- `mirror_insert` of skipvector_disco.h as a whole, in a structure that is closed under down pointers.
use mathlib.Core.Path.{subst}
use disco_skip.Skipvector.Nested.{
  IsWhole, IsPending, IsWhole-IsPending, settled-IsWhole, climbed-IsPending,
}
use disco_skip.Prelude.{ℕ, zero, suc, ◌+◌, ◌-◌, ◌≤◌, ◌<◌, ◌≡◌, refl, ◌∙◌}
use disco_skip.Prelude.{ap, arith, dec_lt, ℕ_discrete, none, some}
use disco_skip.Prelude.{List, [], ◌∷◌, inl, inr}
use disco_skip.Prelude.{ltb-true, Option-cases}
use disco_skip.Prelude.{length, get_elem?}
use disco_skip.Prelude.{get_elem?-some}
use disco_skip.Vector.Slots.{Entry}
use disco_skip.Vector.Entries.{lookup, below, from, floor}
use disco_skip.Vector.Parts.{AllAbove, put, put-absent, floor-append, above-floor}
use disco_skip.Skipvector.Nodes.{ok}
use disco_skip.Skipvector.Descent.{Skipvector, locate_data, value_or_null}
use disco_skip.Skipvector.Mirror.{
  pair, install_entry, mirror_split_at_level, mirror_insert_at_top_level, build_levels,
  mirror_insert,
}
use disco_skip.Skipvector.Reconcile.{level_nodes}
use disco_skip.Skipvector.Layers.{flat}
use disco_skip.Skipvector.Locate.{PointsInto, locate_data_lem}
use disco_skip.Skipvector.Closed.{IsClosed-IsStructure}
use disco_skip.Skipvector.Steps.{HasPut, install_step, split_step}
use disco_skip.Skipvector.Building.{build_levels_lem}

module _ (s : Skipvector) (k data_addr : ℕ) (addrs : List ℕ) (addr : ℕ)
    (there : get_elem? addrs 0 ≡ some addr) where
  insert-one :
      (s' : Skipvector)
      → install_entry s 0 (pair k data_addr) addr ≡ ok s'
      → mirror_insert s k 1 data_addr addrs ≡ ok s'
  unfolding mirror_insert mirror_insert_at_top_level
  insert-one s' p = rw there p

  insert-stop :
      (top : ℕ) (s' : Skipvector)
      → mirror_split_at_level s k 0 data_addr addr ≡ ok (none, s')
      → mirror_insert s k (suc (suc top)) data_addr addrs ≡ ok s'
  unfolding mirror_insert
  insert-stop top s' p = rw there (rw p refl)

  insert-climb :
      (top d level child orphan_addr : ℕ) (s1 s2 s' : Skipvector)
      → mirror_split_at_level s k 0 data_addr addr ≡ ok (some d, s1)
      → build_levels top s1 k 1 d addrs ≡ ok (level, child, s2)
      → level < length s2.index + 1
      → get_elem? addrs level ≡ some orphan_addr
      → install_entry s2 level (pair k child) orphan_addr ≡ ok s'
      → mirror_insert s k (suc (suc top)) data_addr addrs ≡ ok s'
  unfolding mirror_insert mirror_insert_at_top_level
  insert-climb top d level child orphan_addr s1 s2 s' p q h g i =
      rw there (rw p (rw q (rw (ltb-true level (length s2.index + 1) h) (rw g i))))

from-above : (k : ℕ) (c : List (Entry ℕ)) → lookup k c ≡ none → AllAbove k (from k c)
unfolding lookup from
from-above k [] p i h = absurd (omega arith)
from-above k (f ∷ c) p i h = elim (dec_lt f.key k) [
  | yes low ↦
      let rest : from k (f ∷ c) ≡ from k c = ground arith in
      rw rest (from-above k c (ground arith) i (omega (arith, ap length rest)))
  | no high ↦ elim (ℕ_discrete i 0) [
    | yes z ↦ ground arith
    | no z ↦
        let some_rest : i - 1 < length (from k c) = ground arith in
        ground (arith, from-above k c (ground arith) (i - 1) some_rest)
  ]
]

floor-put :
    (e : Entry ℕ) (c : List (Entry ℕ)) → lookup e.key c ≡ none → floor e.key (put e c) ≡ some e
unfolding floor
floor-put e c p = rw (put-absent e c p) (
    ground (
      arith,
      floor-append e.key (below e.key c) (e ∷ from e.key c),
      above-floor e.key (from e.key c) (from-above e.key c p),
    ))

-- What an insertion leaves.
abbrev IsInserted : ℕ → Skipvector → ℕ → ℕ → Skipvector → Type 0
IsInserted cap s k data_addr s' =
    IsWhole cap s'
    × (length s'.index ≡ length s.index)
    × (flat s'.directory ≡ put (pair k data_addr) (flat s.directory))

module _ (cap : ℕ) (s : Skipvector) (whole : IsWhole cap s) (large : 0 < cap) (k data_addr : ℕ)
    (addrs : List ℕ) where
  abbrev Result : ℕ → Type 0
  Result height =
      (s' : Skipvector) × (mirror_insert s k height data_addr addrs ≡ ok s')
      × IsInserted cap s k data_addr s'

  start : IsPending s k 0 data_addr
  start = IsWhole-IsPending cap s k 0 data_addr whole refl

  insert_climbs-Result :
      (top d : ℕ) (addr : ℕ) (s1 : Skipvector)
      → suc top ≤ length s.index
      → suc (suc top) ≤ length addrs
      → get_elem? addrs 0 ≡ some addr
      → mirror_split_at_level s k 0 data_addr addr ≡ ok (some d, s1)
      → HasPut cap s 0 (pair k data_addr) (some d) s1
      → PointsInto (pair k d) (level_nodes s1 0)
      → Result (suc (suc top))
  unfolding level_nodes
  insert_climbs-Result top d addr s1 high room there run step target =
      let (level, child, s2, builds, built) =
        build_levels_lem cap k addrs large top s1 1 d step.closed (omega arith)
          (omega (arith, step.count)) (omega arith)
          (λ m q. rw (ap (level_nodes s1) {x = m} {y = 0} (omega (arith, q))) target)
          (climbed-IsPending (IsWhole-IsPending cap s k 0 data_addr whole refl) step (omega arith) d
            refl) in
      let inside : level ≤ length s2.index = omega (arith, built.upper, built.count, step.count) in
      let (orphan_addr, at_level) = get_elem?-some addrs level (omega (arith, built.upper)) in
      let (s', installs, last) =
        install_step cap s2 built.closed large level inside (pair k child) orphan_addr
          built.target in
      (
        s',
        insert-climb s k data_addr addrs addr there top d level child orphan_addr s1 s2 s' run
            builds (omega arith) at_level installs,
        (
          settled-IsWhole built.pending last inside refl,
          last.count ∙ built.count ∙ step.count,
          ap flat (last.others 0 (omega arith) (omega (arith, built.lower)))
              ∙ ap flat built.directory
              ∙ step.grown,
        ),
      )

  insert-Result :
      (height : ℕ)
      → 0 < height
      → height ≤ length s.index + 1
      → height ≤ length addrs
      → Result height
  unfolding level_nodes
  insert-Result zero some_level high room = absurd (omega arith)
  insert-Result (suc zero) some_level high room =
      let (addr, there) = get_elem?-some addrs 0 (omega arith) in
      let (s', installs, last) =
        install_step cap s whole.closed large 0 (omega arith) (pair k data_addr) addr
          (λ m q. absurd (omega (arith, q))) in
      (
        s',
        insert-one s k data_addr addrs addr there s' installs,
        (settled-IsWhole start last (omega arith) refl, last.count, last.grown),
      )
  insert-Result (suc (suc top)) some_level high room =
      let (addr, there) = get_elem?-some addrs 0 (omega arith) in
      let (made, s1, run, step, handed) =
        split_step cap s whole.closed large 0 (omega arith) k data_addr addr
          (λ m q. absurd (omega (arith, q))) in
      elim (Option-cases made) [
        | inl p ↦ (
          s1,
          insert-stop s k data_addr addrs addr there top s1 (run ∙ ap (λ o. ok (o, s1)) p),
          (settled-IsWhole start step (omega arith) p, step.count, step.grown),
        )
        | inr (d, p) ↦
            insert_climbs-Result top d addr s1 (omega arith) room there
              (run ∙ ap (λ o. ok (o, s1)) p)
              (subst (λ o. HasPut cap s 0 (pair k data_addr) o s1) p step) (handed d p)
      ]

  -- In a whole structure at rest, where the entries of each index layer are exactly the least keys and
  -- addresses of the non-orphans of the layer below, and where the nodes have any room: `mirror_insert` with
  -- a height from one to the number of layers, and an address for each of its levels, succeeds and
  -- leaves a whole structure with as many layers. The directory stands for the old map with the pair put in, if its key was absent.
  pub mirror_insert-IsWhole :
      (height : ℕ)
      → 0 < height
      → height ≤ length s.index + 1
      → height ≤ length addrs
      → (s' : Skipvector) × (mirror_insert s k height data_addr addrs ≡ ok s')
        × IsWhole cap s'
        × (length s'.index ≡ length s.index)
        × (flat s'.directory ≡ put (pair k data_addr) (flat s.directory))
  mirror_insert-IsWhole height some_level high room =
      let (s', run, (whole', count, same)) = insert-Result height some_level high room in
      (s', run, whole', count, same)

  -- In a whole structure at rest, with nodes that have any room, `mirror_insert` with a height from one to
  -- the number of layers, and an address for each of its levels, succeeds and leaves a whole
  -- structure. For every key, `locate_data` then returns the value of the greatest key at or below it,
  -- or null, in the old map of the directory with the pair put in, if its key was absent. If it was absent,
  -- the key's own value is the data's address.
  pub mirror_insert-locate_data :
      (height : ℕ)
      → 0 < height
      → height ≤ length s.index + 1
      → height ≤ length addrs
      → (s' : Skipvector) × (mirror_insert s k height data_addr addrs ≡ ok s')
        × IsWhole cap s'
        × ((q : ℕ)
            → locate_data s' q
              ≡ ok (value_or_null (floor q (put (pair k data_addr) (flat s.directory)))))
        × (lookup k (flat s.directory) ≡ none → locate_data s' k ≡ ok data_addr)
  mirror_insert-locate_data height some_level high room =
      let (s', run, (whole', count, same)) = insert-Result height some_level high room in
      let found : (q : ℕ)
          → locate_data s' q
            ≡ ok (value_or_null (floor q (put (pair k data_addr) (flat s.directory)))) =
        λ q.
          locate_data_lem q (IsClosed-IsStructure cap s' whole'.closed)
          ∙ ap (λ c. ok (value_or_null (floor q c))) same in
      (
        s',
        run,
        whole',
        found,
        λ absent.
            found k
            ∙ ap (λ f. ok (value_or_null f))
                (floor-put (pair k data_addr) (flat s.directory) absent),
      )
