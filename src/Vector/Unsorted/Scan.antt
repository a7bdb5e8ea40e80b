-- ===== src/Vector/Unsorted/Scan.antt =====
-- The first loop of `split_insert` of vector_umfra.h.
use disco_skip.Prelude.{ℕ, zero, suc, ◌+◌, ◌-◌, ◌≤◌, ◌<◌, ◌≡◌, ◌≢◌, refl, sym, ◌∙◌}
use disco_skip.Prelude.{ap, arith, dec_lt, ℕ_discrete, some}
use disco_skip.Prelude.{List, ltb, leb, if◌then◌else◌, ◌&&◌, ◌⊎◌, inl, inr}
use disco_skip.Prelude.{==-false, Bool-cases}
use disco_skip.Prelude.{length, take}
use disco_skip.Prelude.{get_elem?-some}
use disco_skip.Vector.Slots.{Entry, key_at}
use disco_skip.Prelude.{get_elem?-some}
use disco_skip.Vector.Counts.{Test, tally, tally-suc}
use disco_skip.Vector.Unsorted.{Vec, get_capacity}
use disco_skip.Vector.Unsorted.Transfer.{Scan, scan, scan_loop}
use disco_skip.Vector.Unsorted.Tracked.{IsTracked, entries, key_at-some}

module _ {V : Type 0} where
  abbrev pub is_above : ℕ → Test V
  is_above k e = ltb k e.key

  -- What has been seen of the first `i` elements: how many are above `k`, and where the greatest key below
  -- `k` stands, other than in slot 1.
  pub record Seen (xs : List (Entry V)) (k i : ℕ) (seen : Scan) : Type 0 where
    pub counted : seen.steal ≡ tally (is_above k) (take i xs)
    pub key : seen.max_key ≡ key_at xs seen.max_pos
    pub place : (seen.max_pos ≡ 0) ⊎ ((2 ≤ seen.max_pos) × (seen.max_pos < i) × (seen.max_key < k))
    pub first : key_at xs 0 ≤ seen.max_key
    pub greatest : (j : ℕ) → 2 ≤ j → j < i → key_at xs j < k → key_at xs j ≤ seen.max_key

  Seen-along :
      (xs : List (Entry V)) (k i j : ℕ) (seen : Scan) → i ≡ j → Seen xs k i seen → Seen xs k j seen
  Seen-along xs k i j seen p s = rw (sym p) s

  scan_loop_lem :
      (n : ℕ) (xs : List (Entry V)) (k i : ℕ) (seen : Scan)
      → 2 ≤ i
      → i + n ≤ length xs
      → ((j : ℕ) → i ≤ j → j < i + n → key_at xs j ≢ k)
      → Seen xs k i seen
      → (done : Scan) × (scan_loop n xs k i seen ≡ some done) × Seen xs k (i + n) done
  unfolding scan_loop
  scan_loop_lem zero xs k i seen two b absent s =
      (seen, refl, Seen-along xs k i (i + 0) seen (omega arith) s)
  scan_loop_lem (suc n) xs k i seen two b absent s =
      let (e, at) = get_elem?-some xs i (omega arith) in
      let key_i = key_at-some xs i e at in
      let count = tally-suc (is_above k) i xs e at in
      let other : key_at xs i ≢ k = absent i (omega arith) (omega arith) in
      let counted : ℕ = if ltb k (key_at xs i) then seen.steal + 1 else seen.steal in
      let counts : counted ≡ tally (is_above k) (take (suc i) xs) = ground (arith, s.counted) in
      let step : suc i ≡ i + 1 = omega arith in
      elim (Bool-cases (ltb (key_at xs i) k && ltb seen.max_key (key_at xs i))) [
        | inl higher ↦
            let next : Scan = record { steal = counted; max_pos = i; max_key = key_at xs i } in
            let low : key_at xs i < k = ground arith in
            let more : seen.max_key < key_at xs i = ground arith in
            let (done, run, seen') =
              scan_loop_lem n xs k (i + 1) next (omega arith) (omega arith)
                (λ j p q. absent j (omega arith) (omega arith))
                (record {
                  counted = counts ∙ ap (λ m. tally (is_above k) (take m xs)) step;
                  key = refl;
                  place = inr (two, omega arith, low);
                  first = omega (arith, s.first);
                  greatest = λ j p q r. elim (ℕ_discrete j i) [
                    | yes z ↦ omega (arith, ap (key_at xs) z)
                    | no z ↦ omega (arith, s.greatest j p (omega (arith, z)) r)
                  ];
                }) in
            (
              done,
              rw (==-false (key_at xs i) k other) (rw higher run),
              Seen-along xs k (i + 1 + n) (i + suc n) done (omega arith) seen',
            )
        | inr same ↦
            let next : Scan = record seen { steal = counted } in
            let (done, run, seen') =
              scan_loop_lem n xs k (i + 1) next (omega arith) (omega arith)
                (λ j p q. absent j (omega arith) (omega arith))
                (record {
                  counted = counts ∙ ap (λ m. tally (is_above k) (take m xs)) step;
                  key = s.key;
                  place = ground (arith, s.place);
                  first = s.first;
                  greatest = λ j p q r. elim (ℕ_discrete j i) [
                    | yes z ↦ ground (arith, ap (key_at xs) z)
                    | no z ↦ s.greatest j p (omega (arith, z)) r
                  ];
                }) in
            (
              done,
              rw (==-false (key_at xs i) k other) (rw same run),
              Seen-along xs k (i + 1 + n) (i + suc n) done (omega arith) seen',
            )
      ]

  module _ (victim : Vec V) (k : ℕ) (h : IsTracked victim) where
    abbrev start_count : ℕ
    start_count =
        (if ltb 0 victim.size && ltb k (key_at victim.list 0) then 1 else 0)
        + (if leb 2 (get_capacity victim) && ltb 1 victim.size && ltb k (key_at victim.list 1)
            then 1
            else 0)

    start_few : victim.size < 2 → start_count ≡ tally (is_above k) (entries victim)
    unfolding tally
    start_few few = elim (ℕ_discrete victim.size 0) [
      | yes z ↦ ground (arith, ap (λ n. tally (is_above k) (take n victim.list)) z)
      | no o ↦
          let (e, at) = get_elem?-some victim.list 0 (omega (arith, h.bounded, o)) in
          ground (
            arith,
            ap (λ n. tally (is_above k) (take n victim.list)) {x = victim.size} {y = 1}
                (omega (arith, o)),
            tally-suc (is_above k) 0 victim.list e at,
            key_at-some victim.list 0 e at,
          )
    ]

    start_many : 2 ≤ victim.size → start_count ≡ tally (is_above k) (take 2 victim.list)
    unfolding tally
    start_many many =
        let (e, at) = get_elem?-some victim.list 0 (omega (arith, h.bounded)) in
        let (f, there) = get_elem?-some victim.list 1 (omega (arith, h.bounded)) in
        ground (
          arith,
          h.bounded,
          tally-suc (is_above k) 0 victim.list e at,
          tally-suc (is_above k) 1 victim.list f there,
          key_at-some victim.list 0 e at,
          key_at-some victim.list 1 f there,
        )

  -- The whole scan of a tracked victim without the key.
  pub scan_lem :
      (victim : Vec V) (k : ℕ)
      → IsTracked victim
      → ((j : ℕ) → j < victim.size → key_at victim.list j ≢ k)
      → (seen : Scan) × (scan victim k ≡ some seen) × Seen victim.list k victim.size seen
  unfolding scan scan_loop
  scan_lem victim k h absent =
      let xs = victim.list in
      let lowest : ℕ = if ltb 0 victim.size && ltb k (key_at xs 0) then 1 else 0 in
      let highest : ℕ =
        if leb 2 (get_capacity victim) && ltb 1 victim.size && ltb k (key_at xs 1) then 1 else 0 in
      let start : Scan = record { steal = lowest + highest; max_pos = 0; max_key = key_at xs 0 } in
      elim (dec_lt victim.size 2) [
        | yes few ↦ (
          start,
          rw (ap (λ n. scan_loop n xs k 2 start) {x = victim.size - 2} {y = 0} (omega arith)) refl,
          record {
            counted = start_few victim k h few;
            key = refl;
            place = inl refl;
            first = omega arith;
            greatest = λ j p q. absurd (omega arith);
          },
        )
        | no many ↦
            let (done, run, seen) =
              scan_loop_lem (victim.size - 2) xs k 2 start (omega arith) (omega (arith, h.bounded))
                (λ j p q. absent j (omega arith))
                (record {
                  counted = start_many victim k h (omega arith);
                  key = refl;
                  place = inl refl;
                  first = omega arith;
                  greatest = λ j p q. absurd (omega arith);
                }) in
            (done, run, Seen-along xs k (2 + (victim.size - 2)) victim.size done (omega arith) seen)
      ]
