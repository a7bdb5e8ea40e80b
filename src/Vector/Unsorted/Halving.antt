-- ===== src/Vector/Unsorted/Halving.antt =====
-- `quickselect_median` of vector_umfra.h, and what is documented of `std::nth_element`.
use disco_skip.Prelude.{ℕ, suc, ◌-◌, ◌/◌, ◌≤◌, ◌<◌, ◌≡◌, refl, ◌∙◌}
use disco_skip.Prelude.{ap, arith, dec_lt, ℕ_discrete, true, false, none, some}
use disco_skip.Prelude.{List, ltb, ◌&&◌, ◌||◌, ◌⊎◌, inl, inr}
use disco_skip.Prelude.{length, get_elem?, take}
use disco_skip.Prelude.{get_elem?-some}
use disco_skip.Vector.Slots.{Entry, key_at}
use disco_skip.Prelude.{get_elem?-some}
use disco_skip.Vector.Counts.{Test, tally, tally-suc, tally-none, tally-member, SameEntries}
use disco_skip.Vector.Unsorted.{Vec, get_capacity, swap}
use disco_skip.Vector.Unsorted.Transfer.{quickselect_median}
use disco_skip.Vector.Unsorted.Tracked.{IsTracked, entries, key_at-some, swap_lem}

-- What is documented of `std::nth_element(xs + f, xs + n, xs + l)`: it reorders that range, so that no key
-- before position `n` is greater than the one there, and none behind it is less.
pub record IsNthElement {V : Type 0} (nth : ℕ → ℕ → ℕ → List (Entry V) → List (Entry V))
    : Type 0 where
  pub capacity :
      (f n l : ℕ) (xs : List (Entry V))
      → f ≤ n
      → n < l
      → l ≤ length xs
      → length (nth f n l xs) ≡ length xs
  pub outside :
      (f n l : ℕ) (xs : List (Entry V))
      → f ≤ n
      → n < l
      → l ≤ length xs
      → (i : ℕ) → (i < f) ⊎ (l ≤ i)
      → get_elem? (nth f n l xs) i ≡ get_elem? xs i
  pub same :
      (f n l : ℕ) (xs : List (Entry V))
      → f ≤ n
      → n < l
      → l ≤ length xs
      → SameEntries (take l (nth f n l xs)) (take l xs)
  pub lower :
      (f n l : ℕ) (xs : List (Entry V))
      → f ≤ n
      → n < l
      → l ≤ length xs
      → (i : ℕ) → f ≤ i
      → i < n
      → key_at (nth f n l xs) i ≤ key_at (nth f n l xs) n
  pub upper :
      (f n l : ℕ) (xs : List (Entry V))
      → f ≤ n
      → n < l
      → l ≤ length xs
      → (i : ℕ) → n ≤ i
      → i < l
      → key_at (nth f n l xs) n ≤ key_at (nth f n l xs) i

module _ {V : Type 0} where
  -- The victim reordered: the least key first, the greatest last, and the middle one between the halves.
  pub record Halved (victim halved : Vec V) : Type 0 where
    pub size : halved.size ≡ victim.size
    pub capacity : get_capacity halved ≡ get_capacity victim
    pub same : SameEntries (entries halved) (entries victim)
    pub least : (i : ℕ) → i < victim.size → key_at halved.list 0 ≤ key_at halved.list i
    pub last :
        (i : ℕ) → i < victim.size → key_at halved.list i ≤ key_at halved.list (victim.size - 1)
    pub lower :
        (i : ℕ) → i < victim.size / 2 → key_at halved.list i ≤ key_at halved.list (victim.size / 2)
    pub upper :
        (i : ℕ)
        → victim.size / 2 ≤ i
        → i < victim.size
        → key_at halved.list (victim.size / 2) ≤ key_at halved.list i

  -- A bound on all keys survives a reordering.
  pub bounds :
      (n lo hi : ℕ) (xs ys : List (Entry V))
      → n ≤ length xs
      → n ≤ length ys
      → SameEntries (take n ys) (take n xs)
      → ((i : ℕ) → i < n → (lo ≤ key_at xs i) × (key_at xs i ≤ hi))
      → (i : ℕ) → i < n
      → (lo ≤ key_at ys i) × (key_at ys i ≤ hi)
  bounds n lo hi xs ys bx by same inside i p =
      let (e, at) = get_elem?-some ys i (omega arith) in
      let out : Test V = λ f. ltb f.key lo || ltb hi f.key in
      let none_out : tally out (take n xs) ≡ 0 =
        tally-none out n xs (λ j f q r. ground (arith, inside j r, key_at-some xs j f q)) in
      let member = tally-member out n ys i e at p in
      (
        ground (arith, member, same out, none_out, key_at-some ys i e at),
        ground (arith, member, same out, none_out, key_at-some ys i e at),
      )

  module _ (nth : ℕ → ℕ → ℕ → List (Entry V) → List (Entry V)) (documented : IsNthElement nth)
      (victim : Vec V) (h : IsTracked victim) where
    -- With at most two elements nothing moves.
    few_Halved : victim.size ≤ 2 → Halved victim victim
    few_Halved few = record {
      size = refl;
      capacity = refl;
      same = λ p. refl;
      least = h.least;
      last = λ i p. elim (ℕ_discrete victim.size 2) [
        | yes two ↦ omega (
          arith,
          h.greatest i p,
          ap (key_at victim.list) {x = victim.size - 1} {y = 1} (omega arith),
        )
        | no one ↦
            omega
              (arith, ap (key_at victim.list) {x = victim.size - 1} {y = i} (omega (arith, one)))
      ];
      lower = λ i p. omega (
        arith,
        ap (key_at victim.list) {x = i} {y = 0} (omega arith),
        h.least (victim.size / 2) (omega arith),
      );
      upper = λ i p q.
          omega (arith, ap (key_at victim.list) {x = victim.size / 2} {y = i} (omega arith));
    }

    many_Halved :
        2 < victim.size
        → Halved victim (record victim {
          list = nth 1 (victim.size / 2) (victim.size - 1) (swap victim.list 1 (victim.size - 1));
        })
    many_Halved many =
        let mid : ℕ = victim.size / 2 in
        let last : ℕ = victim.size - 1 in
        let xs = swap victim.list 1 last in
        let (swap_same, swap_len, swap_keys) =
          swap_lem victim.list 1 last victim.size (omega arith) (omega arith) h.bounded in
        let f : 1 ≤ mid = omega arith in
        let l : mid < last = omega arith in
        let b : last ≤ length xs = omega (arith, swap_len, h.bounded) in
        let ys = nth 1 mid last xs in
        let len = documented.capacity 1 mid last xs f l b in
        let out = documented.outside 1 mid last xs f l b in
        let range_same = documented.same 1 mid last xs f l b in
        let (e, at) = get_elem?-some xs last (omega (arith, swap_len, h.bounded)) in
        let still : get_elem? ys last ≡ some e = out last (inr (omega arith)) ∙ at in
        let same : SameEntries (take victim.size ys) (take victim.size xs) = λ p. omega (
          arith,
          range_same p,
          tally-suc p last ys e still,
          tally-suc p last xs e at,
          ap (λ n. tally p (take n ys)) {x = victim.size} {y = suc last} (omega arith),
          ap (λ n. tally p (take n xs)) {x = victim.size} {y = suc last} (omega arith),
        ) in
        let all_same : SameEntries (take victim.size ys) (entries victim) =
          λ p. same p ∙ swap_same p in
        let inside =
          bounds victim.size (key_at victim.list 0) (key_at victim.list 1) victim.list ys h.bounded
            (omega (arith, len, swap_len, h.bounded)) all_same
            (λ i p. (h.least i p, h.greatest i p (omega arith))) in
        let first : key_at ys 0 ≡ key_at victim.list 0 =
          ap (λ o. elim o [ none ↦ 0 | some e ↦ e.key ]) (out 0 (inl (omega arith)))
          ∙ swap_keys 0
          ∙ ground arith in
        let end : key_at ys last ≡ key_at victim.list 1 =
          ap (λ o. elim o [ none ↦ 0 | some e ↦ e.key ]) (out last (inr (omega arith)))
          ∙ swap_keys last
          ∙ ground arith in
        record {
          size = refl;
          capacity = len ∙ swap_len;
          same = all_same;
          least = λ i p. omega (arith, first, (inside i p).0);
          last = λ i p. omega (arith, end, (inside i p).1);
          lower = λ i p. elim (ℕ_discrete i 0) [
            | yes z ↦ omega (arith, ap (key_at ys) z, first, (inside mid (omega arith)).0)
            | no o ↦ documented.lower 1 mid last xs f l b i (omega (arith, o)) p
          ];
          upper = λ i p q. elim (ℕ_discrete i last) [
            | yes z ↦ omega (arith, ap (key_at ys) z, end, (inside mid (omega arith)).1)
            | no o ↦ documented.upper 1 mid last xs f l b i p (omega (arith, o))
          ];
        }

    pub quickselect_median_lem : Halved victim (quickselect_median nth victim)
    unfolding quickselect_median
    quickselect_median_lem = elim (dec_lt 2 victim.size) [
      | yes many ↦
          let test : (ltb 2 (get_capacity victim) && ltb 2 victim.size) ≡ true =
            ground (arith, h.bounded) in
          rw test (many_Halved many)
      | no few ↦
          let test : (ltb 2 (get_capacity victim) && ltb 2 victim.size) ≡ false = ground arith in
          rw test (few_Halved (omega arith))
    ]
