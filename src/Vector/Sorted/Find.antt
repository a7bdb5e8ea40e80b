-- ===== src/Vector/Sorted/Find.antt =====
-- The binary search of vector_sfra.h: it returns the number of keys below the sought one.
use disco_skip.Prelude.{ℕ, zero, suc, ◌+◌, ◌-◌, ◌/◌, ◌≤◌, ◌<◌, ◌≡◌, sym, arith, dec_lt, ℕ_discrete}
use disco_skip.Prelude.{ltb-true, ltb-false, ==-true, ==-false}
use disco_skip.Prelude.{List, length, take, get_elem?, get_elem?-take, length-take}
use disco_skip.Vector.Slots.{Entry, key_at}
use disco_skip.Vector.Entries.{Splits, IsAscending, rank, rank-Splits}
use disco_skip.Vector.Sorted.{Vec, find_loop, find}

module _ {V : Type 0} where
  -- The entries that the vector holds.
  abbrev pub contents : Vec V → List (Entry V)
  contents v = take v.size v.list

  pub record IsValid (v : Vec V) : Type 0 where
    pub fits : v.size ≤ length v.list
    pub ascending : (i j : ℕ) → i < j → j < v.size → key_at v.list i < key_at v.list j

  record Bounds (k n : ℕ) (xs : List (Entry V)) (left right : ℕ) : Type 0 where
    ordered : left ≤ right
    inside : right ≤ n
    lower : (i : ℕ) → i < left → key_at xs i < k
    upper : (i : ℕ) → right ≤ i → i < n → k ≤ key_at xs i

  module _ (xs : List (Entry V)) (n k : ℕ)
      (ascending : (i j : ℕ) → i < j → j < n → key_at xs i < key_at xs j) where
    module _ {left right : ℕ} (b : Bounds k n xs left right) (open_range : left < right) where
      abbrev mid : ℕ
      mid = left + (right - 1 - left) / 2

      Bounds-hit : key_at xs mid ≡ k → Bounds k n xs mid mid
      Bounds-hit e = record {
        ordered = omega arith;
        inside = omega (arith, b.inside);
        lower = λ i p. ground (arith, ascending i mid, b.inside);
        upper = λ i p q. ground (arith, ascending mid i);
      }

      Bounds-left : k < key_at xs mid → Bounds k n xs left mid
      Bounds-left e = record {
        ordered = omega arith;
        inside = omega (arith, b.inside);
        lower = b.lower;
        upper = λ i p q. ground (arith, ascending mid i);
      }

      Bounds-right : key_at xs mid < k → Bounds k n xs (mid + 1) right
      Bounds-right e = record {
        ordered = omega arith;
        inside = b.inside;
        lower = λ i p. ground (arith, ascending i mid, b.inside);
        upper = b.upper;
      }

      width : (mid - left ≤ right - 1 - left) × (right - (mid + 1) ≤ right - 1 - left)
      width = omega arith

    Bounds-empty :
        {left right : ℕ} → Bounds k n xs left right → right ≤ left → Bounds k n xs left left
    Bounds-empty {left} b h = record {
      ordered = omega arith;
      inside = omega (arith, b.ordered, b.inside);
      lower = b.lower;
      upper = λ i p q. b.upper i (omega (arith, b.ordered)) q;
    }

    find_loop-Bounds :
        (rounds left right : ℕ)
        → right - left ≤ rounds
        → Bounds k n xs left right
        → Bounds k n xs (find_loop rounds xs k left right) (find_loop rounds xs k left right)
    unfolding find_loop
    find_loop-Bounds zero left right h b = Bounds-empty b (omega arith)
    find_loop-Bounds (suc rounds) left right h b =
        let m : ℕ = left + (right - 1 - left) / 2 in
        elim (dec_lt left right) [
          | no empty ↦ rw (ltb-false left right (omega arith)) (Bounds-empty b (omega arith))
          | yes r ↦ rw (ltb-true left right r) (elim (ℕ_discrete (key_at xs m) k) [
            | yes e ↦ rw (==-true (key_at xs m) k e) (Bounds-hit b r e)
            | no e ↦ rw (==-false (key_at xs m) k e) (elim (dec_lt k (key_at xs m)) [
              | yes p ↦
                  rw (ltb-true k (key_at xs m) p)
                    (find_loop-Bounds rounds left m (omega (arith, width b r)) (Bounds-left b r p))
              | no p ↦ rw (ltb-false k (key_at xs m) (omega arith)) (
                  find_loop-Bounds rounds (m + 1) right (omega (arith, width b r))
                    (Bounds-right b r (omega arith)))
            ])
          ])
        ]

  -- The reads of the array and of the contents agree below `size`.
  pub key_at-contents : (v : Vec V) (i : ℕ) → i < v.size → key_at (contents v) i ≡ key_at v.list i
  key_at-contents v i h = ground (arith, get_elem?-take v.size i v.list)

  pub get_elem?-contents :
      (v : Vec V) (i : ℕ) → i < v.size → get_elem? (contents v) i ≡ get_elem? v.list i
  get_elem?-contents v i h = ground (arith, get_elem?-take v.size i v.list)

  pub length-contents : {v : Vec V} → IsValid v → length (contents v) ≡ v.size
  length-contents {v} h = omega (arith, length-take v.size v.list, h.fits)

  pub contents-IsAscending : {v : Vec V} → IsValid v → IsAscending (contents v)
  contents-IsAscending {v} h i j p q =
      ground (arith, length-contents h, h.ascending i j, key_at-contents v i, key_at-contents v j)

  pub find-Splits : {v : Vec V} (k : ℕ) → IsValid v → Splits k (contents v) (find v k)
  unfolding find
  find-Splits {v} k h =
      let n = v.size in
      let whole : Bounds k n v.list 0 n = record {
        ordered = omega arith;
        inside = omega arith;
        lower = λ i p. absurd (omega arith);
        upper = λ i p q. absurd (omega arith);
      } in
      let b = find_loop-Bounds v.list n k h.ascending n 0 n (omega arith) whole in
      record {
        inside = omega (arith, b.inside, length-contents h);
        lower = λ i p. ground (arith, b.inside, b.lower i, key_at-contents v i);
        upper = λ i p q. ground (arith, length-contents h, b.upper i, key_at-contents v i);
      }

  -- On a valid vector `find` returns the number of keys below the sought one, which is the position
  -- of the key, or the one where it belongs.
  pub find-rank : {v : Vec V} (k : ℕ) → IsValid v → find v k ≡ rank k (contents v)
  find-rank {v} k h = sym (rank-Splits k (contents v) (find v k) (find-Splits k h))

  -- Validity, read off the contents.
  pub IsValid-of : (v : Vec V) → v.size ≤ length v.list → IsAscending (contents v) → IsValid v
  IsValid-of v h a = record {
    fits = h;
    ascending = λ i j p q. ground (
      arith,
      length-take v.size v.list,
      a i j,
      get_elem?-take v.size i v.list,
      get_elem?-take v.size j v.list,
    );
  }
