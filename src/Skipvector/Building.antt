-- ===== src/Skipvector/Building.antt =====
-- The loop `build_levels` of `mirror_insert` of skipvector_disco.h.
use disco_skip.Skipvector.Nested.{IsPending, settled-IsPending, climbed-IsPending}
use disco_skip.Prelude.{ℕ, zero, suc, ◌+◌, ◌≤◌, ◌<◌, ◌≡◌, refl, ◌∙◌}
use disco_skip.Prelude.{ap, arith, none, some}
use disco_skip.Prelude.{List, inl, inr}
use disco_skip.Prelude.{Option-cases}
use disco_skip.Prelude.{length, get_elem?}
use disco_skip.Prelude.{get_elem?-some}
use disco_skip.Skipvector.Nodes.{ok}
use disco_skip.Skipvector.Descent.{Skipvector}
use disco_skip.Skipvector.Mirror.{pair, mirror_split_at_level, build_levels}
use disco_skip.Skipvector.Reconcile.{level_nodes}
use disco_skip.Skipvector.Locate.{PointsInto}
use disco_skip.Skipvector.Closed.{IsClosed}
use disco_skip.Skipvector.Steps.{split_step}

module _ (rounds : ℕ) (s : Skipvector) (k level child : ℕ) (addrs : List ℕ) (addr : ℕ)
    (s' : Skipvector) (there : get_elem? addrs level ≡ some addr) where
  build_levels-stop :
      mirror_split_at_level s k level child addr ≡ ok (none, s')
      → build_levels (suc rounds) s k level child addrs ≡ ok (level, child, s')
  unfolding build_levels
  build_levels-stop p = rw there (rw p refl)

  build_levels-climb :
      (n : ℕ)
      → mirror_split_at_level s k level child addr ≡ ok (some n, s')
      → build_levels (suc rounds) s k level child addrs
        ≡ build_levels rounds s' k (level + 1) n addrs
  unfolding build_levels
  build_levels-climb n p = rw there (rw p refl)

-- The key is parented: what points to the child can be put at the level.
abbrev pub HasTarget : Skipvector → ℕ → ℕ → ℕ → Type 0
HasTarget s k level child = (m : ℕ) → suc m ≡ level → PointsInto (pair k child) (level_nodes s m)

pub record HasBuilt (cap : ℕ) (s : Skipvector) (k level rounds level' child' : ℕ) (s' : Skipvector)
    : Type 0 where
  pub closed : IsClosed cap s'
  pub count : length s'.index ≡ length s.index
  pub directory : level_nodes s' 0 ≡ level_nodes s 0
  pub lower : level ≤ level'
  pub upper : level' ≤ level + rounds
  pub target : HasTarget s' k level' child'
  pub pending : IsPending s' k level' child'

module _ (cap k : ℕ) (addrs : List ℕ) (large : 0 < cap) where
  pub build_levels_lem :
      (rounds : ℕ) (s : Skipvector) (level child : ℕ)
      → IsClosed cap s
      → 0 < level
      → level + rounds ≤ length s.index + 1
      → level + rounds ≤ length addrs
      → HasTarget s k level child
      → IsPending s k level child
      → (level' : ℕ) × (child' : ℕ) × (s' : Skipvector) × (build_levels rounds s k level child addrs
          ≡ ok (level', child', s'))
        × HasBuilt cap s k level rounds level' child' s'
  unfolding build_levels
  build_levels_lem zero s level child closed some_level high room target pending = (
    level,
    child,
    s,
    refl,
    record {
      closed = closed;
      count = refl;
      directory = refl;
      lower = omega arith;
      upper = omega arith;
      target = target;
      pending = pending;
    },
  )
  build_levels_lem (suc rounds) s level child closed some_level high room target pending =
      let (addr, there) = get_elem?-some addrs level (omega arith) in
      let (made, s1, run, step, handed) =
        split_step cap s closed large level (omega arith) k child addr target in
      let at_zero = step.others 0 (omega arith) (omega arith) in
      elim (Option-cases made) [
        | inl p ↦ (
          level,
          child,
          s1,
          build_levels-stop rounds s k level child addrs addr s1 there
              (run ∙ ap (λ o. ok (o, s1)) p),
          record {
            closed = step.closed;
            count = step.count;
            directory = at_zero;
            lower = omega arith;
            upper = omega arith;
            target = λ m q. rw (step.others m (omega (arith, q)) (omega (arith, q))) (target m q);
            pending = settled-IsPending pending step (omega arith) p;
          },
        )
        | inr (n, p) ↦
            let (level', child', s', more, built) =
              build_levels_lem rounds s1 (level + 1) n step.closed (omega arith)
                (omega (arith, step.count)) (omega arith)
                (λ m q.
                  rw (ap (level_nodes s1) {x = m} {y = level} (omega (arith, q))) (handed n p))
                (climbed-IsPending pending step (omega arith) n p) in
            (
              level',
              child',
              s',
              build_levels-climb rounds s k level child addrs addr s1 there n
                    (run ∙ ap (λ o. ok (o, s1)) p)
                  ∙ more,
              record {
                closed = built.closed;
                count = built.count ∙ step.count;
                directory = built.directory ∙ at_zero;
                lower = omega (arith, built.lower);
                upper = omega (arith, built.upper);
                target = built.target;
                pending = built.pending;
              },
            )
      ]
