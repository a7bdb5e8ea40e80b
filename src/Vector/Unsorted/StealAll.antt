-- ===== src/Vector/Unsorted/StealAll.antt =====
-- The cases of `split_insert` of vector_umfra.h that move no element or all of them.
use disco_skip.Prelude.{ℕ, ◌+◌, ◌-◌, ◌≤◌, ◌<◌, ◌≡◌, ◌≢◌, refl, ◌∙◌}
use disco_skip.Prelude.{ap, arith, dec_lt}
use disco_skip.Prelude.{List, ◌==◌, if◌then◌else◌}
use disco_skip.Prelude.{length, set, take, length-set}
use disco_skip.Prelude.{get_elem?-some}
use disco_skip.Vector.Slots.{Entry, key_at, assign, memcpy}
use disco_skip.Vector.Slots.{length-memcpy}
use disco_skip.Prelude.{get_elem?-some}
use disco_skip.Vector.Counts.{Test, weight, tally, tally-suc, tally-member, tally-missing}
use disco_skip.Vector.Unsorted.{Vec, get_capacity}
use disco_skip.Vector.Unsorted.Tracked.{
  IsTracked, entries, key_at-some, key_at-set, assign_lem, tally-extend,
}
use disco_skip.Vector.Unsorted.Copies.{tally-memcpy, key_at-memcpy}
use disco_skip.Vector.Unsorted.Scan.{is_above}
use disco_skip.Vector.Unsorted.Divided.{Divided}

module _ {V : Type 0} (v victim : Vec V) (pair : Entry V) (h : IsTracked victim)
    (differ : (j : ℕ) → j < victim.size → key_at victim.list j ≢ pair.key)
    (large : 0 < get_capacity v) where
  abbrev k : ℕ
  k = pair.key

  abbrev start : List (Entry V)
  start = set v.list 0 pair

  pub started_tally : (p : Test V) → tally p (take 1 start) ≡ weight (p pair)
  unfolding tally
  started_tally p = omega (arith, tally-extend p 0 v.list pair large)

  pub started_key : (j : ℕ) → key_at start j ≡ (if 0 == j then k else key_at v.list j)
  started_key j = key_at-set v.list 0 j pair large

  -- No element is above the new key.
  pub keep_all :
      tally (is_above k) (entries victim) ≡ 0
      → Divided v victim pair (record { list = start; size = 1 }) victim
  keep_all none_above = record {
    bounded = omega (arith, length-set v.list 0 pair);
    capacity = length-set v.list 0 pair;
    ours = λ j p. ground (arith, started_key j);
    lowest = started_key 0;
    greatest = λ j p q. absurd (omega arith);
    their_bounded = h.bounded;
    their_capacity = refl;
    theirs = λ j p.
        let (e, at) = get_elem?-some victim.list j (omega (arith, h.bounded)) in
        ground (
          arith,
          tally-member (is_above k) victim.size victim.list j e at p,
          none_above,
          differ j p,
          key_at-some victim.list j e at,
        );
    their_least = h.least;
    their_greatest = h.greatest;
    same = λ p. omega (arith, started_tally p);
  }

  -- An element that is not above the new key leaves the count below the size.
  all_above :
      tally (is_above k) (entries victim) ≡ victim.size
      → (j : ℕ) → j < victim.size
      → k < key_at victim.list j
  all_above every j p =
      let (e, at) = get_elem?-some victim.list j (omega (arith, h.bounded)) in
      elim (dec_lt k (key_at victim.list j)) [
        | yes above ↦ above
        | no low ↦ absurd (
            omega (
              arith,
              tally-missing (is_above k) victim.size victim.list j e at p
                  (ground (arith, key_at-some victim.list j e at)),
            ))
      ]

  module _ (room : tally (is_above k) (entries victim) + 1 ≤ get_capacity v) where
    pub steal_one :
        victim.size ≡ 1
        → tally (is_above k) (entries victim) ≡ victim.size
        → Divided v victim pair
            (record { list = assign start 1 victim.list 0; size = victim.size + 1 })
            (record victim { size = 0 })
    unfolding tally
    steal_one one every =
        let (e, at) = get_elem?-some victim.list 0 (omega (arith, h.bounded)) in
        let len = length-set v.list 0 pair in
        let keys = λ (j : ℕ). key_at-set start 1 j e (omega (arith, len)) in
        let first = key_at-some victim.list 0 e at in
        rw (assign_lem start 1 victim.list 0 e at) (record {
          bounded = omega (arith, length-set start 1 e, len);
          capacity = length-set start 1 e ∙ len;
          ours = λ j p. ground (arith, keys j, started_key j, all_above every 0, first);
          lowest = ground (arith, keys 0, started_key 0);
          greatest =
              λ j p q. ground (arith, keys j, keys 1, started_key j, all_above every 0, first);
          their_bounded = omega arith;
          their_capacity = refl;
          theirs = λ j p. absurd (omega arith);
          their_least = λ j p. absurd (omega arith);
          their_greatest = λ j p q. absurd (omega arith);
          same = λ p. omega (
            arith,
            ap (λ n. tally p (take n (set start 1 e))) {x = victim.size + 1} {y = 2} (omega arith),
            tally-extend p 1 start e (omega (arith, len)),
            started_tally p,
            tally-suc p 0 victim.list e at,
            ap (λ n. tally p (take n victim.list)) one,
          );
        })

    pub steal_many :
        2 ≤ victim.size
        → tally (is_above k) (entries victim) ≡ victim.size
        → Divided v victim pair
            (record {
              list =
                  memcpy
                    (victim.size - 2)
                    (assign (assign start 1 victim.list 1) 2 victim.list 0)
                    3
                    victim.list
                    2;
              size = victim.size + 1;
            })
            (record victim { size = 0 })
    unfolding tally
    steal_many many every =
        let (e, at) = get_elem?-some victim.list 0 (omega (arith, h.bounded)) in
        let (f, there) = get_elem?-some victim.list 1 (omega (arith, h.bounded)) in
        let len = length-set v.list 0 pair in
        let xs1 = set start 1 f in
        let len1 = length-set start 1 f in
        let xs2 = set xs1 2 e in
        let len2 = length-set xs1 2 e in
        let rest : ℕ = victim.size - 2 in
        let ys = memcpy rest xs2 3 victim.list 2 in
        let fits : 3 + rest ≤ length xs2 = omega (arith, len, len1, len2) in
        let source : 2 + rest ≤ length victim.list = omega (arith, h.bounded) in
        let copied = λ (j : ℕ). key_at-memcpy rest xs2 3 victim.list 2 j source fits in
        let key2 = λ (j : ℕ). key_at-set xs1 2 j e (omega (arith, len, len1)) in
        let key1 = λ (j : ℕ). key_at-set start 1 j f (omega (arith, len)) in
        let first = key_at-some victim.list 0 e at in
        let second = key_at-some victim.list 1 f there in
        let run : assign (assign start 1 victim.list 1) 2 victim.list 0 ≡ xs2 =
          ap (λ zs. assign zs 2 victim.list 0) (assign_lem start 1 victim.list 1 f there)
          ∙ assign_lem xs1 2 victim.list 0 e at in
        let capacity = length-memcpy rest xs2 3 victim.list 2 ∙ len2 ∙ len1 ∙ len in
        rw run (record {
          bounded = omega (arith, capacity);
          capacity = capacity;
          ours = λ j p. ground (
            arith,
            copied j,
            key2 j,
            key1 j,
            started_key j,
            all_above every 0,
            all_above every 1,
            all_above every (2 + (j - 3)),
            first,
            second,
          );
          lowest = ground (arith, copied 0, key2 0, key1 0, started_key 0);
          greatest = λ j p q. ground (
            arith,
            copied j,
            key2 j,
            key1 j,
            started_key j,
            copied 1,
            key2 1,
            key1 1,
            all_above every 1,
            h.greatest 0,
            h.greatest (2 + (j - 3)),
            first,
            second,
          );
          their_bounded = omega arith;
          their_capacity = refl;
          theirs = λ j p. absurd (omega arith);
          their_least = λ j p. absurd (omega arith);
          their_greatest = λ j p q. absurd (omega arith);
          same = λ p. omega (
            arith,
            tally-memcpy p rest xs2 3 victim.list 2 source fits,
            ap (λ n. tally p (take n ys)) {x = victim.size + 1} {y = 3 + rest} (omega arith),
            ap (λ n. tally p (take n victim.list)) {x = 2 + rest} {y = victim.size} (omega arith),
            tally-extend p 2 xs1 e (omega (arith, len, len1)),
            tally-extend p 1 start f (omega (arith, len)),
            started_tally p,
            tally-suc p 0 victim.list e at,
            tally-suc p 1 victim.list f there,
          );
        })
