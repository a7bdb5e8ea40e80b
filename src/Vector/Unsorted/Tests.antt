-- ===== src/Vector/Unsorted/Tests.antt =====
-- Runs of the unsorted vector of vector_umfra.h, and its theorems at concrete vectors.
use disco_skip.Prelude.{Bool}
use disco_skip.Prelude.{List, [], ◌∷◌}
use disco_skip.Prelude.{ℕ, ◌≤◌, ◌<◌, ◌≡◌, ◌↔◌, refl}
use disco_skip.Prelude.{true, false, none, some}
use disco_skip.Prelude.{[], ◌∷◌, ◌⊎◌}
use disco_skip.Prelude.{get_elem?}
use disco_skip.Vector.Slots.{Entry, key_at, assign}
use disco_skip.Vector.Counts.{tally, SameEntries}
use disco_skip.Vector.Unsorted.{
  Vec, get_capacity, find, find_loop, min_loop, insert, placed, remove, remove_min, fill_gap,
  contains, contains_key, find_lte,
}
use disco_skip.Vector.Unsorted.Tracked.{IsTracked, entries, has_key}
use disco_skip.Vector.Unsorted.Insert.{insert-IsTracked}
use disco_skip.Vector.Unsorted.Remove.{remove-IsTracked}
use disco_skip.Vector.Unsorted.Lookup.{find_lte_tracked, contains_tracked}
use disco_skip.Vector.Unsorted.Verify.{verify-IsTracked_iff}
use disco_skip.Vector.Unsorted.Check.{verify, differs_loop, distinct_loop, between_loop}
use disco_skip.Prelude.{◌++◌, ◌≢◌, arith, zero, suc}
use disco_skip.Vector.Entries.{below, from}
use disco_skip.Vector.Unsorted.Transfer.{merge, split_insert}
use disco_skip.Vector.Unsorted.Merge.{merge-IsTracked}
use disco_skip.Vector.Unsorted.SplitInsert.{split_insert-IsTracked}
use disco_skip.Vector.Counts.{Test, weight}
use disco_skip.Prelude.{◌+◌, ◌-◌, ◌/◌}
use disco_skip.Vector.Unsorted.Transfer.{steal_half, steal_half_and_insert}
use disco_skip.Vector.Unsorted.StealHalf.{steal_half-IsTracked}
use disco_skip.Vector.Unsorted.StealInsert.{steal_half_and_insert-IsTracked}
use disco_skip.Vector.Unsorted.SortRange.{
  sort_range, sort_range-IsNthElement, sorted, insert_sorted,
}
use disco_skip.Vector.Unsorted.Visit.{
  Visit, sort, iterate_element, iterate_element_range1, iterate_element_range2, range1_loop,
  range2_loop, range,
}
use disco_skip.Prelude.{◌<◌}
use disco_skip.Vector.Unsorted.{at}
use disco_skip.Vector.Unsorted.Order.{sort-IsTracked}
use disco_skip.Vector.Unsorted.SortRange.{sort_range-IsSort}

program : Unit {0}
unfolding verify differs_loop distinct_loop between_loop find find_loop insert placed remove
    remove_min min_loop fill_gap assign
program = tt

abbrev pair : ℕ → ℕ → Entry ℕ
pair k x = record { key = k; val = x }

abbrev junk : Entry ℕ
junk = pair 99 0

abbrev three : Vec ℕ
three = record { list = pair 2 20 ∷ pair 9 90 ∷ pair 5 50 ∷ junk ∷ []; size = 3 }

three-IsTracked : IsTracked three
unfolding program
three-IsTracked = (verify-IsTracked_iff three).0 refl

remove_runs :
    remove three 2
    ≡ (some 20, record { list = pair 5 50 ∷ pair 9 90 ∷ pair 5 50 ∷ junk ∷ []; size = 2 })
unfolding program
remove_runs = refl

insert-IsTracked_example :
    ((tally (has_key 1) (entries three) ≡ 1)
      × (insert three (pair 1 10) true ≡ (false, true, three)))
    ⊎ ((tally (has_key 1) (entries three) ≡ 0)
        × (((three.size ≡ get_capacity three)
              × (insert three (pair 1 10) true ≡ (false, true, three)))
            ⊎ ((v' : Vec ℕ) × (insert three (pair 1 10) true ≡ (true, true, v'))
                × IsTracked v'
                × (get_capacity v' ≡ 4)
                × SameEntries (entries v') (pair 1 10 ∷ entries three))))
insert-IsTracked_example = insert-IsTracked three (pair 1 10) true three-IsTracked

remove-IsTracked_example :
    ((tally (has_key 2) (entries three) ≡ 0) × (remove three 2 ≡ (none, three)))
    ⊎ ((gone : Entry ℕ) × (v' : Vec ℕ) × (gone.key ≡ 2)
        × (remove three 2 ≡ (some gone.val, v'))
        × IsTracked v'
        × (get_capacity v' ≡ 4)
        × SameEntries (gone ∷ entries v') (entries three))
remove-IsTracked_example = remove-IsTracked three 2 three-IsTracked

find_lte_tracked_example :
    ((find_lte three 6 ≡ none) × ((j : ℕ) → j < 3 → 6 < key_at three.list j))
    ⊎ ((i : ℕ) × (e : Entry ℕ) × (find_lte three 6 ≡ some e)
        × (i < 3)
        × (get_elem? three.list i ≡ some e)
        × (e.key ≤ 6)
        × ((j : ℕ) → j < 3 → key_at three.list j ≤ 6 → key_at three.list j ≤ e.key))
find_lte_tracked_example = find_lte_tracked three 6 three-IsTracked

contains_tracked_example :
    ((contains three 5 ≡ none)
      × (contains_key three 5 ≡ false)
      × (tally (has_key 5) (entries three) ≡ 0))
    ⊎ ((i : ℕ) × (e : Entry ℕ) × (contains three 5 ≡ some e.val)
        × (contains_key three 5 ≡ true)
        × (i < 3)
        × (get_elem? three.list i ≡ some e)
        × (e.key ≡ 5))
contains_tracked_example = contains_tracked three 5 three-IsTracked

verify-IsTracked_iff_example : verify three ≡ true ↔ IsTracked three
verify-IsTracked_iff_example = verify-IsTracked_iff three

-- Vectors of one capacity.
abbrev lower : Vec ℕ
lower = record { list = pair 2 20 ∷ pair 9 90 ∷ pair 5 50 ∷ junk ∷ junk ∷ junk ∷ []; size = 3 }

abbrev upper : Vec ℕ
upper = record { list = pair 11 1 ∷ pair 19 9 ∷ junk ∷ junk ∷ junk ∷ junk ∷ []; size = 2 }

abbrev empty : Vec ℕ
empty = record { list = junk ∷ junk ∷ junk ∷ junk ∷ junk ∷ junk ∷ []; size = 0 }

lower-IsTracked : IsTracked lower
unfolding program
lower-IsTracked = (verify-IsTracked_iff lower).0 refl

upper-IsTracked : IsTracked upper
unfolding program
upper-IsTracked = (verify-IsTracked_iff upper).0 refl

lower_upper : (i j : ℕ) → i < 3 → j < 2 → key_at lower.list i < key_at upper.list j
lower_upper i j p q =
    omega (arith, lower-IsTracked.greatest i p (omega arith), upper-IsTracked.least j q)

merge-IsTracked_example :
    ((0 < 2) × (get_capacity lower < 5) × (merge lower upper ≡ none))
    ⊎ ((v' : Vec ℕ) × (victim' : Vec ℕ) × (merge lower upper ≡ some (v', victim'))
        × IsTracked v'
        × (get_capacity v' ≡ 6)
        × SameEntries (entries v') (entries lower ++ entries upper)
        × (victim'.size ≡ 0))
merge-IsTracked_example = merge-IsTracked lower upper lower-IsTracked upper-IsTracked lower_upper

lower-without_four : (j : ℕ) → j < 3 → key_at lower.list j ≢ 4
lower-without_four zero p = λ e. omega (arith, e)
lower-without_four (suc zero) p = λ e. omega (arith, e)
lower-without_four (suc (suc zero)) p = λ e. omega (arith, e)
lower-without_four (suc (suc (suc j))) p = absurd (omega arith)

split_insert-IsTracked_example :
    (v' : Vec ℕ) × (victim' : Vec ℕ) × (split_insert empty lower (pair 4 40) ≡ some (v', victim'))
    × IsTracked v'
    × IsTracked victim'
    × SameEntries (entries v') (pair 4 40 ∷ from 4 (entries lower))
    × SameEntries (entries victim') (below 4 (entries lower))
unfolding tally
split_insert-IsTracked_example =
    split_insert-IsTracked empty lower (pair 4 40) lower-IsTracked lower-without_four (omega arith)
      (omega arith)

abbrev five : Vec ℕ
five = record {
  list = pair 2 20 ∷ pair 19 190 ∷ pair 9 90 ∷ pair 5 50 ∷ pair 11 110 ∷ junk ∷ [];
  size = 5;
}

five-IsTracked : IsTracked five
unfolding program
five-IsTracked = (verify-IsTracked_iff five).0 refl

steal_half-IsTracked_example :
    (v' : Vec ℕ) × (victim' : Vec ℕ) × (steal_half sort_range empty five ≡ (v', victim'))
    × IsTracked v'
    × IsTracked victim'
    × (v'.size ≡ 5 - 5 / 2)
    × (victim'.size ≡ 5 / 2)
    × ((p : Test ℕ) → tally p (entries victim') + tally p (entries v') ≡ tally p (entries five))
    × ((i j : ℕ) → i < victim'.size → j < v'.size → key_at victim'.list i < key_at v'.list j)
steal_half-IsTracked_example =
    steal_half-IsTracked sort_range sort_range-IsNthElement empty five five-IsTracked refl

seven_absent : tally (has_key 7) (entries five) ≡ 0
unfolding tally
seven_absent = refl

steal_half_and_insert-IsTracked_example :
    (v' : Vec ℕ) × (victim' : Vec ℕ) × (steal_half_and_insert sort_range empty five (pair 7 70)
      ≡ some (v', victim'))
    × IsTracked v'
    × IsTracked victim'
    × (victim'.size ≡ (5 + 2) / 2)
    × ((p : Test ℕ)
        → tally p (entries victim') + tally p (entries v')
          ≡ weight (p (pair 7 70)) + tally p (entries five))
    × ((i j : ℕ) → i < victim'.size → j < v'.size → key_at victim'.list i < key_at v'.list j)
steal_half_and_insert-IsTracked_example =
    steal_half_and_insert-IsTracked sort_range sort_range-IsNthElement empty five five-IsTracked
      refl (pair 7 70) seven_absent (omega arith)

-- A callback that notes the keys that it sees, the last one first.
abbrev note : List ℕ → ℕ → ℕ → Bool → List ℕ × ℕ × Bool
note seen k x exit_flag = (k ∷ seen, x, exit_flag)

abbrev four : Vec ℕ
four = record { list = pair 1 10 ∷ pair 9 90 ∷ pair 3 30 ∷ pair 7 70 ∷ []; size = 4 }

-- In the range from 1 to 5, 7 is visited too.
range_runs : Visit.state (range note 1 5 (λ f l. sort_range f f l) [] four false) ≡ 7 ∷ 3 ∷ 1 ∷ []
unfolding sort iterate_element iterate_element_range1 iterate_element_range2 range1_loop range2_loop
    range sort_range sorted insert_sorted
range_runs = refl

sort-IsTracked_example :
    IsTracked (sort (λ f l. sort_range f f l) five)
    × SameEntries (entries (sort (λ f l. sort_range f f l) five)) (entries five)
    × ((i : ℕ) → 5 ≤ i → at (sort (λ f l. sort_range f f l) five) i ≡ none)
    × ((i : ℕ)
        → i < 5
        → (m : ℕ) × (m < 5)
          × (at (sort (λ f l. sort_range f f l) five) i
              ≡ some (key_at (sort (λ f l. sort_range f f l) five).list m)))
    × ((i j : ℕ)
        → i < j
        → j < 5
        → (a : ℕ) × (b : ℕ) × (at (sort (λ f l. sort_range f f l) five) i ≡ some a)
          × (at (sort (λ f l. sort_range f f l) five) j ≡ some b)
          × (a < b))
sort-IsTracked_example =
    sort-IsTracked (λ f l. sort_range f f l) sort_range-IsSort five five-IsTracked
