-- ===== src/Skipvector/Walk.antt =====
-- The walk of `check_next` and the descent of skipvector_disco.h in a structure at rest.
use disco_skip.Prelude.{append_assoc, ℕ, zero, suc, ◌-◌, ◌≤◌, ◌<◌, ◌≡◌, refl, sym, ◌∙◌}
use disco_skip.Prelude.{arith, dec_lt, true, false}
use disco_skip.Prelude.{List, [], ◌∷◌, ◌++◌, inl, inr, ◌⊎◌}
use disco_skip.Prelude.{Bool-cases}
use disco_skip.Prelude.{length}
use disco_skip.Prelude.{length-append}
use disco_skip.Prelude.{get_elem?-append}
use disco_skip.SvLock.{is_unlocked, begin_read, confirm_read}
use disco_skip.SvLock.Words.{confirm_read_iff, state_lem}
use disco_skip.Vector.Slots.{Entry, key_at}
use disco_skip.Vector.Entries.{IsBefore, IsAscending, IsAscending-append, floor}
use disco_skip.Vector.Parts.{
  AllBelow, AllAbove, AllBelow-append, floor-append, floor-first, above-floor, IsAscending-IsBefore,
}
use disco_skip.Vector.Sorted.{first, last, find_lte}
use disco_skip.Vector.Sorted.Find.{contents, IsValid, length-contents, key_at-contents}
use disco_skip.Vector.Sorted.Remove.{find_lte_refines}
use disco_skip.Skipvector.Nodes.{Node, Layer, ok}
use disco_skip.Skipvector.Descent.{Cursor, passes, check_next}
use disco_skip.Skipvector.Layers.{
  flat, flat-append, IsSound, AreFilled, AreWellFormed-parts, IsLayer,
}

-- A reader of an unlocked word finds it unchanged.
pub unlocked-confirm :
    (word : ℕ) → is_unlocked word ≡ true → confirm_read word (begin_read word) ≡ true
unlocked-confirm word h = ground (arith, confirm_read_iff word word, state_lem word)

abbrev pub stays : List Node → Node → ℕ → List Node → Cursor
stays before curr word behind = record {
  before = before;
  curr = curr;
  curr_lock = word;
  behind = behind;
}

module _ (k : ℕ) (before : List Node) (curr : Node) (word : ℕ) (next : Node)
    (behind : List Node) where
  check_next-covered :
      passes curr k ≡ false
      → check_next k before curr word (next ∷ behind) ≡ ok (stays before curr word (next ∷ behind))
  unfolding check_next
  check_next-covered p = ground arith

  check_next-last :
      passes curr k ≡ true
      → confirm_read curr.lock word ≡ true
      → k < first next.v
      → confirm_read next.lock (begin_read next.lock) ≡ true
      → check_next k before curr word (next ∷ behind) ≡ ok (stays before curr word (next ∷ behind))
  unfolding check_next
  check_next-last p h q j = ground arith

  check_next-onward :
      passes curr k ≡ true
      → confirm_read curr.lock word ≡ true
      → first next.v ≤ k
      → check_next k before curr word (next ∷ behind)
        ≡ check_next k (before ++ curr ∷ []) next (begin_read next.lock) behind
  unfolding check_next
  check_next-onward p h q = ground arith

-- The facts about keys that the tests of `check_next` establish.
module _ (k : ℕ) (curr next : Node) (behind : List Node) where
  abbrev here : List (Entry ℕ)
  here = contents curr.v

  abbrev rest : List (Entry ℕ)
  rest = flat (next ∷ behind)

  rest-first : IsValid next.v → 0 < next.v.size → (key_at rest 0 ≡ first next.v) × (0 < length rest)
  unfolding flat first
  rest-first valid filled = ground (
    arith,
    length-contents valid,
    length-append (contents next.v) (flat behind),
    get_elem?-append (contents next.v) (flat behind) 0,
    key_at-contents next.v 0,
  )

  covered-upper : IsValid curr.v → IsBefore here rest → passes curr k ≡ false → AllAbove k rest
  unfolding last
  covered-upper valid before p i q = ground (
    arith,
    length-contents valid,
    key_at-contents curr.v (curr.v.size - 1),
    before (curr.v.size - 1) i,
  )

  next-upper :
      IsValid next.v → 0 < next.v.size → IsAscending rest → k < first next.v → AllAbove k rest
  next-upper valid filled a p zero q = omega (arith, rest-first valid filled)
  next-upper valid filled a p (suc i) q = omega (arith, rest-first valid filled, a 0 (suc i))

  onward-lower :
      IsValid next.v → 0 < next.v.size → IsBefore here rest → first next.v ≤ k → AllBelow k here
  onward-lower valid filled before p i q = omega (arith, rest-first valid filled, before i 0)

  onward-floor :
      IsValid next.v → 0 < next.v.size → first next.v ≤ k → floor k (here ++ rest) ≡ floor k rest
  onward-floor valid filled p =
      let (at, more) = rest-first valid filled in
      let (f, e) = floor-first k rest more (omega (arith, at)) in
      ground (arith, floor-append k here rest)

-- The cursor is in the layer, and no key before it can be the floor of `k`.
pub record Reaches (k : ℕ) (layer : Layer) (c : Cursor) : Type 0 where
  pub place : c.before ++ c.curr ∷ c.behind ≡ layer
  pub word : c.curr_lock ≡ begin_read c.curr.lock
  pub lower : AllBelow k (flat c.before)
  pub anchor : (c.before ≡ []) ⊎ (first c.curr.v ≤ k)
  pub rest_floor : floor k (flat (c.curr ∷ c.behind)) ≡ floor k (flat layer)

-- Nor can one behind it, so that the place of `k` is in this node.
pub record Covers (k : ℕ) (layer : Layer) (c : Cursor) : Type 0 where
  pub reached : Reaches k layer c
  pub upper : AllAbove k (flat c.behind)

module _ (cap k : ℕ) {layer : Layer} (sound : IsLayer cap layer) where
  pub parts-at : {c : Cursor} → Reaches k layer c → IsSound cap c.curr × AreFilled cap c.behind
  parts-at {c} r = AreWellFormed-parts cap c.before c.curr c.behind (rw r.place sound.nodes)

  pub at-IsAscending : {c : Cursor} → Reaches k layer c → IsAscending (flat (c.curr ∷ c.behind))
  at-IsAscending {c} r =
      (IsAscending-append (flat c.before) (flat (c.curr ∷ c.behind))
        (rw (sym (flat-append c.before (c.curr ∷ c.behind)), r.place) sound.ascending)).1

  onward-Reaches :
      (before : List Node) (curr : Node) (word : ℕ) (next : Node) (behind : List Node)
      → Reaches k layer (stays before curr word (next ∷ behind))
      → first next.v ≤ k
      → Reaches k layer (stays (before ++ curr ∷ []) next (begin_read next.lock) behind)
  unfolding flat AreFilled
  onward-Reaches before curr word next behind r p =
      let filled = (parts-at r).1.0 in
      let apart =
        IsAscending-IsBefore (here k curr next behind) (rest k curr next behind)
          (at-IsAscending r) in
      record {
        place = append_assoc before (curr ∷ []) (next ∷ behind) ∙ r.place;
        word = refl;
        lower = rw (flat-append before (curr ∷ [])) (
            AllBelow-append (flat before) (flat (curr ∷ [])) r.lower (
              AllBelow-append (contents curr.v) []
                (onward-lower k curr next behind filled.0.valid filled.1 apart p)
                (λ i q. absurd (omega arith))));
        anchor = inr p;
        rest_floor = sym (onward-floor k curr next behind filled.0.valid filled.1 p) ∙ r.rest_floor;
      }

  walk :
      (behind before : List Node) (curr : Node) (word : ℕ)
      → Reaches k layer (stays before curr word behind)
      → (c : Cursor) × (check_next k before curr word behind ≡ ok c) × Covers k layer c
  unfolding check_next flat AreFilled
  walk [] before curr word r =
      (stays before curr word [], refl, record { reached = r; upper = λ i p. absurd (omega arith) })
  walk (next ∷ behind) before curr word r =
      let curr_sound = (parts-at r).0 in
      let filled = (parts-at r).1.0 in
      let apart =
        IsAscending-IsBefore (here k curr next behind) (rest k curr next behind)
          (at-IsAscending r) in
      let later =
        (IsAscending-append (here k curr next behind) (rest k curr next behind)
          (at-IsAscending r)).1 in
      let stay = stays before curr word (next ∷ behind) in
      let confirmed : confirm_read curr.lock word ≡ true =
        rw r.word (unlocked-confirm curr.lock curr_sound.unlocked) in
      elim (Bool-cases (passes curr k)) [
        | inr p ↦ (
          stay,
          check_next-covered k before curr word next behind p,
          record { reached = r; upper = covered-upper k curr next behind curr_sound.valid apart p },
        )
        | inl p ↦ elim (dec_lt k (first next.v)) [
          | yes q ↦ (
            stay,
            check_next-last k before curr word next behind p confirmed q
                (unlocked-confirm next.lock filled.0.unlocked),
            record {
              reached = r;
              upper = next-upper k curr next behind filled.0.valid filled.1 later q;
            },
          )
          | no q ↦
              let more : first next.v ≤ k = omega arith in
              let (c, eq, covers) =
                walk behind (before ++ curr ∷ []) next (begin_read next.lock)
                  (onward-Reaches before curr word next behind r more) in
              (c, check_next-onward k before curr word next behind p confirmed more ∙ eq, covers)
        ]
      ]

  Covers-find_lte : {c : Cursor} → Covers k layer c → find_lte c.curr.v k ≡ floor k (flat layer)
  unfolding flat
  Covers-find_lte {c} covers =
      find_lte_refines k (parts-at covers.reached).0.valid
      ∙ ground (
        arith,
        floor-append k (contents c.curr.v) (flat c.behind),
        above-floor k (flat c.behind) covers.upper,
      )
      ∙ covers.reached.rest_floor

  -- In a layer at rest, `check_next` never starts over. It ends at the node that has the place of the
  -- key: all keys before the node are below, all keys behind it are above, and `find_lte` there finds
  -- the floor of the key in the whole layer.
  pub check_next_lem :
      (c : Cursor)
      → Reaches k layer c
      → (c' : Cursor) × (check_next k c.before c.curr c.curr_lock c.behind ≡ ok c')
        × Covers k layer c'
        × (find_lte c'.curr.v k ≡ floor k (flat layer))
  check_next_lem c r =
      let (c', eq, covers) = walk c.behind c.before c.curr c.curr_lock r in
      (c', eq, covers, Covers-find_lte covers)
