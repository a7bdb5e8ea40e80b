-- ===== src/Vector/Sorted/Tests.antt =====
-- Runs of the vector of vector_sfra.h, and its theorems at concrete vectors.
use disco_skip.Vector.Sorted.Visit.ForEach.{for_each_refines, HasCalled}
use disco_skip.Prelude.{ℕ, zero, suc, ◌+◌, ◌*◌, ◌≡◌, ◌↔◌, refl}
use disco_skip.Prelude.{arith, Bool, true, false, some}
use disco_skip.Prelude.{[], ◌∷◌, ◌++◌, ltb, ◌==◌}
use disco_skip.Prelude.{length}
use disco_skip.Vector.Slots.{Entry, assign, memcpy}
use disco_skip.Vector.Entries
use disco_skip.Vector.Entries.{Splits, IsAscending, lookup, below, from, erase, floor, rank}
use disco_skip.Vector.Entries.{lookup-Splits, below-Splits, from-Splits, erase-Splits, floor-Splits}
use disco_skip.Vector.Sorted.{
  Vec, get_capacity, find, shift_up, shift_down, insert, remove, contains,
}
use disco_skip.Vector.Sorted.{contains_key, find_lte, first, last, max_key, at, merge, split_insert}
use disco_skip.Vector.Sorted.{split_at, steal_half, steal_then_insert, steal_around}
use disco_skip.Vector.Sorted.{steal_half_and_insert, insert_asserting}
use disco_skip.Vector.Sorted.Find.{contents, IsValid}
use disco_skip.Vector.Sorted.{verify, verify_loop, find_loop}
use disco_skip.Vector.Sorted.Visit.{for_each_loop, for_each, range_loop, skip_loop, range}
use disco_skip.Vector.Entries.{IsBefore, lookup-insert, lookup-erase}
use disco_skip.Vector.Sorted.Find.{find-rank}
use disco_skip.Vector.Sorted.Insert.{insert_refines}
use disco_skip.Vector.Sorted.Remove.{remove_refines, contains_refines, find_lte_refines}
use disco_skip.Vector.Sorted.Split.{merge_refines, steal_half_refines, split_at_refines, Received}
use disco_skip.Vector.Sorted.Steal.{split_insert_refines}
use disco_skip.Vector.Sorted.Halve.{steal_half_and_insert_refines}
use disco_skip.Vector.Sorted.Verify.{verify_iff}
use disco_skip.Vector.Sorted.Visit.Range.{range_refines, Visits}

program : Unit {0}
unfolding find find_loop shift_up shift_down assign memcpy insert insert_asserting remove contains
    contains_key first last max_key at find_lte merge split_insert split_at steal_half
    steal_then_insert steal_around steal_half_and_insert verify verify_loop for_each for_each_loop
    range range_loop skip_loop lookup rank below from erase floor Entries.insert Entries.remove
program = tt

abbrev pair : ℕ → Entry ℕ
pair k = record { key = k; val = k * 10 }

abbrev junk : Entry ℕ
junk = record { key = 99; val = 0 }

-- The keys 2, 5 and 9 in an array of four slots.
abbrev three : Vec ℕ
three = record { list = pair 2 ∷ pair 5 ∷ pair 9 ∷ junk ∷ []; size = 3 }

abbrev full : Vec ℕ
full = record { list = pair 2 ∷ pair 5 ∷ pair 7 ∷ pair 9 ∷ []; size = 4 }

abbrev none_yet : Vec ℕ
none_yet = record { list = junk ∷ junk ∷ junk ∷ junk ∷ []; size = 0 }

abbrev eleven : Vec ℕ
eleven = record { list = pair 11 ∷ junk ∷ junk ∷ junk ∷ []; size = 1 }

three-IsValid : IsValid three
unfolding program
three-IsValid = (verify_iff three).0 refl

full-IsValid : IsValid full
unfolding program
full-IsValid = (verify_iff full).0 refl

eleven-IsValid : IsValid eleven
unfolding program
eleven-IsValid = (verify_iff eleven).0 refl

insert_runs :
    (insert three (pair 7) ≡ (true, false, full))
    × (insert full (pair 5) ≡ (false, false, full))
    × (insert full (pair 6) ≡ (false, true, full))
unfolding program
insert_runs = (refl, refl, refl)

halve_runs :
    steal_half_and_insert none_yet full (pair 8)
    ≡ some (
      record { list = pair 8 ∷ pair 9 ∷ junk ∷ junk ∷ []; size = 2 },
      record { list = pair 2 ∷ pair 5 ∷ pair 7 ∷ pair 9 ∷ []; size = 3 },
    )
unfolding program
halve_runs = refl

-- A callback that adds up the keys, and stops at 5.
abbrev adding : ℕ → ℕ → ℕ → ℕ × ℕ × Bool
adding s k x = (s + k, x + 1, k == 5)

range_stops : (range adding 3 8 0 full false).0 ≡ 5
unfolding program
range_stops = refl

find-rank_example : find three 7 ≡ 2
unfolding program
find-rank_example = find-rank 7 three-IsValid

insert_refines_example :
    let (result, overfull, v') = insert three (pair 7) in
    IsValid v'
    × ((result, overfull, contents v') ≡ Entries.insert 4 (pair 7) (contents three))
    × (get_capacity v' ≡ 4)
insert_refines_example = insert_refines (pair 7) three-IsValid

lookup-insert_example : lookup 7 (Entries.insert 4 (pair 7) (contents three)).2 ≡ some 70
unfolding program
lookup-insert_example = lookup-insert 7 4 (pair 7) (contents three)

remove_refines_example :
    let (found, v') = remove full 5 in
    IsValid v' × ((found, contents v') ≡ Entries.remove 5 (contents full)) × (get_capacity v' ≡ 4)
remove_refines_example = remove_refines 5 full-IsValid

contains_refines_example : (contains three 5 ≡ some 50) × (contains_key three 5 ≡ true)
unfolding program
contains_refines_example = contains_refines 5 three-IsValid

find_lte_refines_example : find_lte three 8 ≡ some (pair 5)
unfolding program
find_lte_refines_example = find_lte_refines 8 three-IsValid

before : IsBefore (contents three) (contents eleven)
before zero zero p q = omega arith
before (suc zero) zero p q = omega arith
before (suc (suc zero)) zero p q = omega arith
before (suc (suc (suc i))) zero p q = absurd (omega arith)
before i (suc j) p q = absurd (omega arith)

merge_refines_example :
    (v' : Vec ℕ) × (victim' : Vec ℕ) × (merge three eleven ≡ some (v', victim'))
    × IsValid v'
    × (contents v' ≡ contents three ++ contents eleven)
    × (contents victim' ≡ [])
    × (get_capacity v' ≡ 4)
merge_refines_example = merge_refines three-IsValid eleven-IsValid before (omega arith)

steal_half_refines_example :
    let (v', victim') = steal_half none_yet three in
    IsValid v'
    × IsValid victim'
    × (contents victim' ++ contents v' ≡ contents three)
    × (length (contents victim') ≡ 1)
    × (get_capacity v' ≡ 4)
steal_half_refines_example = steal_half_refines none_yet three-IsValid refl

split_at_refines_example :
    (moved : Bool) × (v' : Vec ℕ) × (victim' : Vec ℕ) × (split_at none_yet three 5
      ≡ some (moved, v', victim'))
    × IsValid victim'
    × (contents victim' ≡ below 5 (contents three))
    × (moved ≡ ltb 0 (length (from 5 (contents three))))
    × Received none_yet moved v' (from 5 (contents three))
split_at_refines_example = split_at_refines none_yet 5 three-IsValid refl

split_insert_refines_example :
    (v' : Vec ℕ) × (victim' : Vec ℕ) × (split_insert none_yet three (pair 4) ≡ some (v', victim'))
    × IsValid v'
    × IsValid victim'
    × (contents v' ≡ pair 4 ∷ from 4 (contents three))
    × (contents victim' ≡ below 4 (contents three))
unfolding lookup from
split_insert_refines_example =
    split_insert_refines (pair 4) three-IsValid refl none_yet (omega arith)

steal_half_and_insert_refines_example :
    (v' : Vec ℕ) × (victim' : Vec ℕ) × (steal_half_and_insert none_yet full (pair 8)
      ≡ some (v', victim'))
    × IsValid v'
    × IsValid victim'
    × (contents victim' ++ contents v' ≡ below 8 (contents full) ++ pair 8 ∷ from 8 (contents full))
    × (length (contents victim') ≡ 3)
    × (length (contents v') ≡ 2)
    × (get_capacity v' ≡ 4)
    × (get_capacity victim' ≡ 4)
unfolding lookup
steal_half_and_insert_refines_example =
    steal_half_and_insert_refines none_yet (pair 8) full-IsValid refl refl (omega arith)

verify_iff_example : (verify three ≡ true) ↔ IsValid three
verify_iff_example = verify_iff three

range_refines_example :
    let (s', v', result, stop) = range adding 3 8 0 full false in
    Visits adding
      (s', v'.list, result, stop)
      v'.size
      0
      (below 3 (contents full))
      (below 9 (from 3 (contents full)))
      (from 9 (contents full))
range_refines_example = range_refines adding 3 8 0 full (omega arith) full-IsValid

for_each_refines_example :
    let (s', v', stop) = for_each adding 0 three false in
    IsValid v' × (v'.size ≡ 3) × ((n : ℕ) × HasCalled adding n 3 0 three.list s' v'.list stop)
for_each_refines_example = for_each_refines adding 0 three three-IsValid
