-- ===== src/HazardPointers.antt =====
-- The hazard pointers of a thread, of disco-skip/include/include-cache/hp/hp_thread_context.h: two slots,
-- of which `curr_idx` says which one holds "curr". A pointer is a number, and an empty slot holds
-- `none`. A method returns the new slots, or `none` where an assertion fails.
use disco_skip.Prelude.{
  ℕ, zero, suc, ◌+◌, ◌-◌, ◌*◌, ◌/◌, ◌%◌, ◌^◌, ◌≤◌, ◌<◌, ◌≡◌, ◌≢◌, ◌↔◌, refl, sym, ◌∙◌,
}
use disco_skip.Prelude.{ap, arith, dec_lt, ℕ_discrete, Bool, true, false, not, Option, none, some}
use disco_skip.Prelude.{
  List, [], ◌∷◌, ◌++◌, ltb, leb, ◌==◌, if◌then◌else◌, ◌&&◌, ◌||◌, ◌⊎◌, inl, inr,
}
use disco_skip.Prelude.{ltb-true, ltb-false, ==-true, ==-false, Bool-cases, Option-cases, min}
use disco_skip.Prelude.{length, get_elem?, set, length-set, get_elem?-set, length-take}
use disco_skip.Prelude.{length-drop, length-append, get_elem?-take, get_elem?-drop}
use disco_skip.Prelude.{get_elem?-append, get_elem?-none, get_elem?-some, take_ext, list_ext}
use disco_skip.Prelude.{
  get_elem?-splice, length-splice, get_elem?-cut, length-cut, take-append-drop,
}
pub mod Queue
mod Tests

pub record Slots : Type 0 where
  pub haz_p_0 : Option ℕ
  pub haz_p_1 : Option ℕ
  pub curr_idx : Bool

abbrev pub is_null : Option ℕ → Bool
is_null none = true
is_null (some p) = false

-- `hazP.at(index)`, where `true` stands for 1.
abbrev pub haz_p_at : Slots → Bool → Option ℕ
haz_p_at c index = if index then c.haz_p_1 else c.haz_p_0

abbrev pub store : Slots → Bool → Option ℕ → Slots
store c index p = if index then record c { haz_p_1 = p } else record c { haz_p_0 = p }

abbrev pub next_idx : Slots → Bool
next_idx c = not c.curr_idx

-- The constructor.
unfoldable pub init : Slots
init = record { haz_p_0 = none; haz_p_1 = none; curr_idx = false }

unfoldable pub take_first : Slots → ℕ → Option Slots
take_first c p =
    if is_null c.haz_p_0 && is_null c.haz_p_1 then some (store c c.curr_idx (some p)) else none

unfoldable pub take_next : Slots → ℕ → Option Slots
take_next c p =
    if not (is_null (haz_p_at c c.curr_idx)) && is_null (haz_p_at c (next_idx c))
    then some (store c (next_idx c) (some p))
    else none

unfoldable pub take : Slots → ℕ → Option Slots
unfolding take_first take_next
take c p = if is_null c.haz_p_0 && is_null c.haz_p_1 then take_first c p else take_next c p

unfoldable pub count_reserved : Slots → ℕ
count_reserved c = (if is_null c.haz_p_0 then 0 else 1) + (if is_null c.haz_p_1 then 0 else 1)

unfoldable pub drop_curr : Slots → Option Slots
drop_curr c =
    if is_null (haz_p_at c c.curr_idx)
    then none
    else some (record (store c c.curr_idx none) { curr_idx = next_idx c })

unfoldable pub drop_next : Slots → Option Slots
drop_next c =
    if is_null (haz_p_at c c.curr_idx) || is_null (haz_p_at c (next_idx c))
    then none
    else some (store c (next_idx c) none)

unfoldable pub drop : Slots → Option Slots
unfolding drop_next drop_curr
drop c = if is_null (haz_p_at c (next_idx c)) then drop_curr c else drop_next c

unfoldable pub drop_all : Slots → Option Slots
drop_all c =
    if is_null c.haz_p_0 || is_null c.haz_p_1
    then none
    else some (record c { haz_p_0 = none; haz_p_1 = none })
