-- ===== src/Skipvector/Climbing.antt =====
-- The climb of `mirror_reconcile` of skipvector_disco.h.
use disco_skip.Skipvector.Nested.{IsPending, settled-IsPending, climbed-IsPending}
use disco_skip.Prelude.{ℕ, ◌+◌, ◌≤◌, ◌<◌, ◌≡◌, ◌≢◌, refl, ◌∙◌}
use disco_skip.Prelude.{ap, arith, ℕ_discrete, none, some}
use disco_skip.Prelude.{List, [], ◌∷◌, inl, inr}
use disco_skip.Prelude.{==-true, ==-false, Option-cases}
use disco_skip.Prelude.{length}
use disco_skip.Skipvector.Nodes.{ok}
use disco_skip.Skipvector.Descent.{Skipvector}
use disco_skip.Skipvector.Mirror.{mirror_split_at_level}
use disco_skip.Skipvector.Reconcile.{PathStep, climb, level_nodes}
use disco_skip.Skipvector.Closed.{IsClosed}
use disco_skip.Skipvector.Steps.{split_step}
use disco_skip.Skipvector.Building.{HasTarget, HasBuilt}

module _ (step : PathStep) (path : List PathStep) (s : Skipvector) (b level child : ℕ) where
  climb-other : step.k_min ≢ b → climb (step ∷ path) s b level child ≡ ok (level, child, s)
  unfolding climb
  climb-other h = rw (==-false step.k_min b h) refl

  climb-stop :
      (s' : Skipvector)
      → step.k_min ≡ b
      → mirror_split_at_level s b level child step.addr ≡ ok (none, s')
      → climb (step ∷ path) s b level child ≡ ok (level, child, s')
  unfolding climb
  climb-stop s' h p = rw (==-true step.k_min b h) (rw p refl)

  climb-on :
      (n : ℕ) (s' : Skipvector)
      → step.k_min ≡ b
      → mirror_split_at_level s b level child step.addr ≡ ok (some n, s')
      → climb (step ∷ path) s b level child ≡ climb path s' b (level + 1) n
  unfolding climb
  climb-on n s' h p = rw (==-true step.k_min b h) (rw p refl)

module _ (cap b : ℕ) (large : 0 < cap) where
  pub climb_lem :
      (path : List PathStep) (s : Skipvector) (level child : ℕ)
      → IsClosed cap s
      → 0 < level
      → level + length path ≤ length s.index + 1
      → HasTarget s b level child
      → IsPending s b level child
      → (level' : ℕ) × (child' : ℕ) × (s' : Skipvector) × (climb path s b level child
          ≡ ok (level', child', s'))
        × HasBuilt cap s b level (length path) level' child' s'
  unfolding climb
  climb_lem [] s level child closed some_level high target pending = (
    level,
    child,
    s,
    refl,
    record {
      closed = closed;
      count = refl;
      directory = refl;
      lower = omega arith;
      upper = omega arith;
      target = target;
      pending = pending;
    },
  )
  climb_lem (step ∷ path) s level child closed some_level high target pending =
      elim (ℕ_discrete step.k_min b) [
        | no other ↦ (
          level,
          child,
          s,
          climb-other step path s b level child other,
          record {
            closed = closed;
            count = refl;
            directory = refl;
            lower = omega arith;
            upper = omega arith;
            target = target;
            pending = pending;
          },
        )
        | yes same ↦
            let (made, s1, run, done, handed) =
              split_step cap s closed large level (omega arith) b child step.addr target in
            let at_zero = done.others 0 (omega arith) (omega arith) in
            elim (Option-cases made) [
              | inl p ↦ (
                level,
                child,
                s1,
                climb-stop step path s b level child s1 same (run ∙ ap (λ o. ok (o, s1)) p),
                record {
                  closed = done.closed;
                  count = done.count;
                  directory = at_zero;
                  lower = omega arith;
                  upper = omega arith;
                  target =
                      λ m q. rw (done.others m (omega (arith, q)) (omega (arith, q))) (target m q);
                  pending = settled-IsPending pending done (omega arith) p;
                },
              )
              | inr (n, p) ↦
                  let (level', child', s', more, built) =
                    climb_lem path s1 (level + 1) n done.closed (omega arith)
                      (omega (arith, done.count))
                      (λ m q.
                        rw (ap (level_nodes s1) {x = m} {y = level} (omega (arith, q)))
                          (handed n p))
                      (climbed-IsPending pending done (omega arith) n p) in
                  (
                    level',
                    child',
                    s',
                    climb-on step path s b level child n s1 same (run ∙ ap (λ o. ok (o, s1)) p)
                        ∙ more,
                    record {
                      closed = built.closed;
                      count = built.count ∙ done.count;
                      directory = built.directory ∙ at_zero;
                      lower = omega (arith, built.lower);
                      upper = omega (arith, built.upper);
                      target = built.target;
                      pending = built.pending;
                    },
                  )
            ]
      ]
