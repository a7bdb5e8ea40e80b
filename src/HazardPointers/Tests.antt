-- ===== src/HazardPointers/Tests.antt =====
-- The theorems on hp_thread_context.h at concrete slots.
use disco_skip.Prelude.{◌≡◌, ◌<◌, refl, arith, true, none, some, [], ◌∷◌, ◌++◌, length}
use disco_skip.HazardPointers
use disco_skip.HazardPointers.{Slots, is_null, drop_curr}
use disco_skip.HazardPointers.Queue.{held, IsValid, LeavesHeld, take_lem, drop_curr_lem}

-- The second slot holds "curr".
abbrev one : Slots
one = record { haz_p_0 = none; haz_p_1 = some 7; curr_idx = true }

one-IsValid : IsValid one
unfolding IsValid
one-IsValid e = refl

held-one : held one ≡ 7 ∷ []
unfolding held
held-one = refl

few : length (held one) < 2
unfolding held
few = omega arith

take_lem_example : LeavesHeld (HazardPointers.take one 9) (held one ++ 9 ∷ [])
take_lem_example = take_lem one 9 one-IsValid few

drop_curr_lem_example : LeavesHeld (drop_curr one) []
drop_curr_lem_example = drop_curr_lem one 7 [] one-IsValid held-one
