-- ===== src/HazardPointers/Queue.antt =====
-- The slots of hp_thread_context.h as a queue of at most two pointers, for hand-over-hand traversal.
use disco_skip.Prelude.{ℕ, ◌<◌, ◌≡◌, refl}
use disco_skip.Prelude.{arith, Bool, true, false, Option, none, some}
use disco_skip.Prelude.{List, [], ◌∷◌, ◌++◌}
use disco_skip.Prelude.{length}
use disco_skip.HazardPointers
use disco_skip.HazardPointers.{
  Slots, is_null, haz_p_at, store, next_idx, init, take_first, take_next, count_reserved, drop_curr,
  drop_next, drop_all,
}

-- The pointers that are held, "curr" before "next".
unfoldable pub held : Slots → List ℕ
held c = elim (haz_p_at c c.curr_idx) [
  | none ↦ []
  | some p ↦ elim (haz_p_at c (next_idx c)) [ none ↦ p ∷ [] | some q ↦ p ∷ q ∷ [] ]
]

-- No "next" is held without a "curr".
unfoldable pub IsValid : Slots → Type 0
IsValid c = is_null (haz_p_at c c.curr_idx) ≡ true → is_null (haz_p_at c (next_idx c)) ≡ true

abbrev pub LeavesHeld : Option Slots → List ℕ → Type 0
LeavesHeld result queue = (c : Slots) × (result ≡ some c) × IsValid c × (held c ≡ queue)

abbrev slots : Option ℕ → Option ℕ → Bool → Slots
slots a b i = record { haz_p_0 = a; haz_p_1 = b; curr_idx = i }

take-cases :
    (a b : Option ℕ) (i : Bool) (p : ℕ)
    → IsValid (slots a b i)
    → length (held (slots a b i)) < 2
    → LeavesHeld (HazardPointers.take (slots a b i) p) (held (slots a b i) ++ p ∷ [])
unfolding IsValid held HazardPointers.take take_first take_next
take-cases none none false p v h = (slots (some p) none false, refl, λ e. refl, refl)
take-cases none none true p v h = (slots none (some p) true, refl, λ e. refl, refl)
take-cases (some q) none false p v h = (slots (some q) (some p) false, refl, λ e. e, refl)
take-cases (some q) none true p v h = absurd (ground (arith, v refl))
take-cases none (some q) false p v h = absurd (ground (arith, v refl))
take-cases none (some q) true p v h = (slots (some p) (some q) true, refl, λ e. e, refl)
take-cases (some q) (some r) false p v h = absurd (omega arith)
take-cases (some q) (some r) true p v h = absurd (omega arith)

-- On valid slots that hold fewer than two pointers, `take` succeeds and puts the pointer behind the
-- one that is held, if there is one. The slots stay valid.
pub take_lem :
    (c : Slots) (p : ℕ)
    → IsValid c
    → length (held c) < 2
    → LeavesHeld (HazardPointers.take c p) (held c ++ p ∷ [])
take_lem c p v h = take-cases c.haz_p_0 c.haz_p_1 c.curr_idx p v h

drop_curr-cases :
    (a b : Option ℕ) (i : Bool) (p : ℕ) (rest : List ℕ)
    → IsValid (slots a b i)
    → held (slots a b i) ≡ p ∷ rest
    → LeavesHeld (drop_curr (slots a b i)) rest
unfolding IsValid held drop_curr
drop_curr-cases none none false p rest v h = absurd (ground arith)
drop_curr-cases none none true p rest v h = absurd (ground arith)
drop_curr-cases (some q) none false p rest v h =
    (slots none none true, refl, λ e. refl, ground arith)
drop_curr-cases (some q) none true p rest v h = absurd (ground (arith, v refl))
drop_curr-cases none (some q) false p rest v h = absurd (ground (arith, v refl))
drop_curr-cases none (some q) true p rest v h =
    (slots none none false, refl, λ e. refl, ground arith)
drop_curr-cases (some q) (some r) false p rest v h =
    (slots none (some r) true, refl, λ e. refl, ground arith)
drop_curr-cases (some q) (some r) true p rest v h =
    (slots (some q) none false, refl, λ e. refl, ground arith)

-- On valid slots that hold a pointer, `drop_curr` succeeds, takes away the one that was taken first,
-- and leaves the slots valid.
pub drop_curr_lem :
    (c : Slots) (p : ℕ) (rest : List ℕ)
    → IsValid c
    → held c ≡ p ∷ rest
    → LeavesHeld (drop_curr c) rest
drop_curr_lem c p rest v h = drop_curr-cases c.haz_p_0 c.haz_p_1 c.curr_idx p rest v h
