-- ===== src/Skipvector/Nested.antt =====
-- The nesting that `verify_index` of skipvector_disco.h asks for: the entries of an index layer are
-- the boundaries of the layer below, each with its key and its address, and no others. While a new
-- node waits for its parent, one entry is missing.
use disco_skip.Prelude.{ℕ, suc, ◌+◌, ◌≤◌, ◌<◌, ◌≡◌, ◌≢◌, sym, ◌∙◌}
use disco_skip.Prelude.{ap, arith, ℕ_discrete, Option, none, some, length}
use disco_skip.Vector.Parts.{put}
use disco_skip.Skipvector.Descent.{Skipvector}
use disco_skip.Skipvector.Mirror.{pair}
use disco_skip.Skipvector.Reconcile.{level_nodes}
use disco_skip.Skipvector.Layers.{flat}
use disco_skip.Skipvector.Boundaries.{boundaries, joined, put-twice}
use disco_skip.Skipvector.Closed.{IsClosed}
use disco_skip.Skipvector.Steps.{HasPut}

-- A structure at rest, in which every boundary of a layer has its one entry in the layer above.
pub record IsWhole (cap : ℕ) (s : Skipvector) : Type 0 where
  pub closed : IsClosed cap s
  pub nested :
      (m : ℕ) → m < length s.index → flat (level_nodes s (suc m)) ≡ boundaries (level_nodes s m)

-- The entry of the key that is yet to be put in at the level.
pub record IsPending (s : Skipvector) (k level child : ℕ) : Type 0 where
  pub waiting :
      (m : ℕ)
      → suc m ≡ level
      → m < length s.index
      → boundaries (level_nodes s m) ≡ put (pair k child) (flat (level_nodes s (suc m)))
  pub rest :
      (m : ℕ)
      → suc m ≢ level
      → m < length s.index
      → flat (level_nodes s (suc m)) ≡ boundaries (level_nodes s m)

pub IsWhole-IsPending :
    (cap : ℕ) (s : Skipvector) (k level child : ℕ)
    → IsWhole cap s
    → (level ≡ 0)
    → IsPending s k level child
IsWhole-IsPending cap s k level child h z = record {
  waiting = λ m e p. absurd (omega (arith, e, z));
  rest = λ m e p. h.nested m p;
}

-- Above the top there is nothing to wait for.
pub IsPending-IsWhole :
    (cap : ℕ) (s : Skipvector) (k level child : ℕ)
    → IsClosed cap s
    → IsPending s k level child
    → length s.index < level
    → IsWhole cap s
IsPending-IsWhole cap s k level child closed h above = record {
  closed = closed;
  nested = λ m p. h.rest m (omega (arith, above, p)) p;
}

module _ {cap : ℕ} {s : Skipvector} {k level child : ℕ} {made : Option ℕ} {s' : Skipvector}
    (h : IsPending s k level child) (step : HasPut cap s level (pair k child) made s')
    (inside : level ≤ length s.index) where
  -- The entry that was waited for is there.
  below_settled :
      (m : ℕ)
      → suc m ≡ level
      → m < length s.index
      → flat (level_nodes s' (suc m)) ≡ boundaries (level_nodes s' m)
  below_settled m e p =
      ap (λ l. flat (level_nodes s' l)) e
      ∙ step.grown
      ∙ ap (λ l. put (pair k child) (flat (level_nodes s l))) (sym e)
      ∙ sym (h.waiting m e p)
      ∙ ap boundaries (sym (step.others m (omega (arith, p)) (omega (arith, e))))

  away_kept :
      (m : ℕ)
      → suc m ≢ level
      → m ≢ level
      → m < length s.index
      → flat (level_nodes s' (suc m)) ≡ boundaries (level_nodes s' m)
  away_kept m e f p =
      ap flat (step.others (suc m) (omega (arith, p)) e)
      ∙ h.rest m e p
      ∙ ap boundaries (sym (step.others m (omega (arith, p)) f))

  -- What the boundaries of the level itself then are.
  here_joined :
      (m : ℕ)
      → m ≡ level
      → m < length s.index
      → boundaries (level_nodes s' m) ≡ joined k made (flat (level_nodes s' (suc m)))
  here_joined m f p =
      ap (λ l. boundaries (level_nodes s' l)) f
      ∙ step.bounds
      ∙ ap (λ l. joined k made (boundaries (level_nodes s l))) (sym f)
      ∙ ap (joined k made) (
          sym (h.rest m (omega (arith, f)) p)
          ∙ ap flat (sym (step.others (suc m) (omega (arith, p)) (omega (arith, f)))))

  pub settled-IsWhole : made ≡ none → IsWhole cap s'
  unfolding joined
  settled-IsWhole nothing = record {
    closed = step.closed;
    nested = λ m q.
        let p : m < length s.index = omega (arith, q, step.count) in
        elim (ℕ_discrete (suc m) level) [
          | yes e ↦ below_settled m e p
          | no e ↦ elim (ℕ_discrete m level) [
            | yes f ↦
                let there = here_joined m f p in
                sym (there ∙ ap (λ o. joined k o (flat (level_nodes s' (suc m)))) nothing)
            | no f ↦ away_kept m e f p
          ]
        ];
  }

  -- Put in twice, the entry does not show.
  pub settled-IsPending : made ≡ none → IsPending s' k level child
  settled-IsPending nothing =
      let whole = settled-IsWhole nothing in
      record {
        waiting = λ m e q.
            sym (whole.nested m q)
            ∙ ap (λ l. flat (level_nodes s' l)) e
            ∙ step.grown
            ∙ sym (put-twice (pair k child) (flat (level_nodes s level)))
            ∙ ap (put (pair k child)) (sym step.grown)
            ∙ ap (λ l. put (pair k child) (flat (level_nodes s' l))) (sym e);
        rest = λ m e q. whole.nested m q;
      }

  pub climbed-IsPending : (n : ℕ) → made ≡ some n → IsPending s' k (level + 1) n
  unfolding joined
  climbed-IsPending n there = record {
    waiting = λ m e q.
        let p : m < length s.index = omega (arith, q, step.count) in
        let f : m ≡ level = omega (arith, e) in
        here_joined m f p ∙ ap (λ o. joined k o (flat (level_nodes s' (suc m)))) there;
    rest = λ m e q.
        let p : m < length s.index = omega (arith, q, step.count) in
        let f : m ≢ level = λ g. absurd (omega (arith, e, g)) in
        elim (ℕ_discrete (suc m) level) [ yes g ↦ below_settled m g p | no g ↦ away_kept m g f p ];
  }
