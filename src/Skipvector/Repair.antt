-- ===== src/Skipvector/Repair.antt =====
-- `mirror_reconcile` of skipvector_disco.h in a structure that is closed under down pointers.
use disco_skip.Skipvector.Nested.{
  IsWhole, IsPending, IsWhole-IsPending, IsPending-IsWhole, settled-IsWhole, climbed-IsPending,
}
use disco_skip.Prelude.{ℕ, ◌+◌, ◌≤◌, ◌<◌, ◌≡◌, refl, ◌∙◌}
use disco_skip.Prelude.{ap, arith, dec_lt, none, some}
use disco_skip.Prelude.{List, [], ◌∷◌, inl, inr}
use disco_skip.Prelude.{ltb-true, ltb-false, Option-cases}
use disco_skip.Prelude.{length, get_elem?, take, length-take}
use disco_skip.Vector.Slots.{Entry}
use disco_skip.Vector.Parts.{put}
use disco_skip.Skipvector.Nodes.{ok}
use disco_skip.Skipvector.Descent.{Skipvector}
use disco_skip.Skipvector.Mirror.{
  pair, install_data_entry, install_index_entry, mirror_split_at_level,
}
use disco_skip.Skipvector.Reconcile.{PathStep, climb, addr_or_null, mirror_reconcile, level_nodes}
use disco_skip.Skipvector.Layers.{flat}
use disco_skip.Skipvector.Locate.{PointsInto}
use disco_skip.Skipvector.Closed.{IsClosed}
use disco_skip.Skipvector.Steps.{install_step, split_step}
use disco_skip.Skipvector.Climbing.{climb_lem}

module _ (s : Skipvector) (data_k_min data_addr : ℕ) (bottom : PathStep) (path : List PathStep)
    (s1 s2 : Skipvector) where
  reconcile-stop :
      install_data_entry s data_k_min data_addr bottom.addr ≡ ok s1
      → mirror_split_at_level s1 bottom.k_min 0 bottom.first_down bottom.addr ≡ ok (none, s2)
      → mirror_reconcile s data_k_min data_addr (bottom ∷ path) ≡ ok s2
  unfolding mirror_reconcile
  reconcile-stop p q = rw p (rw q refl)

  module _ (d level child : ℕ) (s3 : Skipvector) where
    reconcile-all :
        install_data_entry s data_k_min data_addr bottom.addr ≡ ok s1
        → mirror_split_at_level s1 bottom.k_min 0 bottom.first_down bottom.addr ≡ ok (some d, s2)
        → climb (take (length s2.index) path) s2 bottom.k_min 1 d ≡ ok (level, child, s3)
        → length s3.index < level
        → mirror_reconcile s data_k_min data_addr (bottom ∷ path) ≡ ok s3
    unfolding mirror_reconcile
    reconcile-all p q r h =
        rw p (rw q (rw r (rw (ltb-false level (length s3.index + 1) (omega arith)) refl)))

    reconcile-parent :
        (s' : Skipvector)
        → install_data_entry s data_k_min data_addr bottom.addr ≡ ok s1
        → mirror_split_at_level s1 bottom.k_min 0 bottom.first_down bottom.addr ≡ ok (some d, s2)
        → climb (take (length s2.index) path) s2 bottom.k_min 1 d ≡ ok (level, child, s3)
        → level ≤ length s3.index
        → install_index_entry s3 level bottom.k_min child
            (addr_or_null (get_elem? (bottom ∷ path) level))
          ≡ ok s'
        → mirror_reconcile s data_k_min data_addr (bottom ∷ path) ≡ ok s'
    unfolding mirror_reconcile
    reconcile-parent s' p q r h i =
        rw p (rw q (rw r (rw (ltb-true level (length s3.index + 1) (omega arith)) i)))

-- The entries that the path asks for.
abbrev pub reconciled : ℕ → ℕ → List PathStep → List (Entry ℕ) → List (Entry ℕ)
reconciled data_k_min data_addr [] c = put (pair data_k_min data_addr) c
reconciled data_k_min data_addr (bottom ∷ path) c =
    put (pair bottom.k_min bottom.first_down) (put (pair data_k_min data_addr) c)

module _ (cap : ℕ) (s : Skipvector) (whole : IsWhole cap s) (large : 0 < cap)
    (data_k_min data_addr : ℕ) where
  abbrev Result : List PathStep → Type 0
  Result path =
      (s' : Skipvector) × (mirror_reconcile s data_k_min data_addr path ≡ ok s')
      × IsWhole cap s'
      × (length s'.index ≡ length s.index)
      × (flat s'.directory ≡ reconciled data_k_min data_addr path (flat s.directory))

  start : IsPending s data_k_min 0 data_addr
  start = IsWhole-IsPending cap s data_k_min 0 data_addr whole refl

  reconcile_climbs-Result :
      (bottom : PathStep) (path : List PathStep) (s1 s2 : Skipvector) (d : ℕ)
      → install_data_entry s data_k_min data_addr bottom.addr ≡ ok s1
      → mirror_split_at_level s1 bottom.k_min 0 bottom.first_down bottom.addr ≡ ok (some d, s2)
      → IsClosed cap s2
      → IsPending s2 bottom.k_min 1 d
      → length s2.index ≡ length s.index
      → flat s2.directory ≡ reconciled data_k_min data_addr (bottom ∷ path) (flat s.directory)
      → PointsInto (pair bottom.k_min d) (level_nodes s2 0)
      → Result (bottom ∷ path)
  unfolding level_nodes install_index_entry
  reconcile_climbs-Result bottom path s1 s2 d p q closed' pending count same target =
      let steps = take (length s2.index) path in
      let short = length-take (length s2.index) path in
      let (level, child, s3, climbs, built) =
        climb_lem cap bottom.k_min large steps s2 1 d closed' (omega arith) (ground (arith, short))
          (λ m r. rw (ap (level_nodes s2) {x = m} {y = 0} (omega (arith, r))) target) pending in
      elim (dec_lt (length s3.index) level) [
        | yes beyond ↦ (
          s3,
          reconcile-all s data_k_min data_addr bottom path s1 s2 d level child s3 p q climbs beyond,
          IsPending-IsWhole cap s3 bottom.k_min level child built.closed built.pending beyond,
          built.count ∙ count,
          ap flat built.directory ∙ same,
        )
        | no inside ↦
            let orphan_addr = addr_or_null (get_elem? (bottom ∷ path) level) in
            let (s', installs, last) =
              install_step cap s3 built.closed large level (omega arith) (pair bottom.k_min child)
                orphan_addr built.target in
            (
              s',
              reconcile-parent s data_k_min data_addr bottom path s1 s2 d level child s3 s' p q
                  climbs (omega arith) installs,
              settled-IsWhole built.pending last (omega arith) refl,
              last.count ∙ built.count ∙ count,
              ap flat (last.others 0 (omega arith) (omega (arith, built.lower)))
                  ∙ ap flat built.directory
                  ∙ same,
            )
      ]

  -- In a whole structure at rest, where the entries of each index layer are exactly the least keys and
  -- addresses of the non-orphans of the layer below, and where the nodes have any room: `mirror_reconcile`
  -- succeeds for every path and leaves a whole structure with as many layers. The directory stands for
  -- the old map with the pair of the data node put in and, if the path is not empty, then the pair of
  -- its bottom step, each if its key was absent.
  pub mirror_reconcile-IsWhole :
      (path : List PathStep)
      → (s' : Skipvector) × (mirror_reconcile s data_k_min data_addr path ≡ ok s')
        × IsWhole cap s'
        × (length s'.index ≡ length s.index)
        × (flat s'.directory ≡ reconciled data_k_min data_addr path (flat s.directory))
  unfolding mirror_reconcile install_data_entry level_nodes
  mirror_reconcile-IsWhole [] =
      let (s', installs, last) =
        install_step cap s whole.closed large 0 (omega arith) (pair data_k_min data_addr) 0
          (λ m q. absurd (omega (arith, q))) in
      (s', installs, settled-IsWhole start last (omega arith) refl, last.count, last.grown)
  mirror_reconcile-IsWhole (bottom ∷ path) =
      let (s1, installs, first) =
        install_step cap s whole.closed large 0 (omega arith) (pair data_k_min data_addr)
          bottom.addr (λ m q. absurd (omega (arith, q))) in
      let whole1 = settled-IsWhole start first (omega arith) refl in
      let start1 = IsWhole-IsPending cap s1 bottom.k_min 0 bottom.first_down whole1 refl in
      let (made, s2, run, second, handed) =
        split_step cap s1 whole1.closed large 0 (omega arith) bottom.k_min bottom.first_down
          bottom.addr (λ m q. absurd (omega (arith, q))) in
      let same : flat s2.directory
          ≡ reconciled data_k_min data_addr (bottom ∷ path) (flat s.directory) =
        second.grown ∙ ap (put (pair bottom.k_min bottom.first_down)) first.grown in
      elim (Option-cases made) [
        | inl p ↦ (
          s2,
          reconcile-stop s data_k_min data_addr bottom path s1 s2 installs
              (run ∙ ap (λ o. ok (o, s2)) p),
          settled-IsWhole start1 second (omega arith) p,
          second.count ∙ first.count,
          same,
        )
        | inr (d, p) ↦
            reconcile_climbs-Result bottom path s1 s2 d installs (run ∙ ap (λ o. ok (o, s2)) p)
              second.closed (climbed-IsPending start1 second (omega arith) d p)
              (second.count ∙ first.count) same (handed d p)
      ]
