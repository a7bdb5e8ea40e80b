-- ===== src/Skipvector/Heights.antt =====
-- `random_height` of skipvector_disco.h. Its random 64-bit number is an argument. An exponent is
-- `some n` if it is n + 1, and `none` if it is not positive.
use disco_skip.Prelude.{ℕ, zero, suc, ◌+◌, ◌/◌, ◌%◌, ◌^◌}
use disco_skip.Prelude.{Bool, true, Option, none, some}
use disco_skip.Prelude.{ltb, ◌==◌, if◌then◌else◌, ◌&&◌}

unfoldable pub exp_to_ratio : Option ℕ → ℕ
exp_to_ratio none = 2
exp_to_ratio (some n) = 2 ^ (n + 1)

-- The loop from height `h` on. A round raises the height, so `layers` rounds are enough.
unfoldable pub height_loop : ℕ → (layers ratio r h : ℕ) → ℕ
height_loop zero layers ratio r h = h
height_loop (suc rounds) layers ratio r h =
    let rest = height_loop rounds layers ratio (r / ratio) (h + 1) in
    if r % ratio == 0 && ltb h layers then rest else h

-- `sim` says that IDX_EXP is SKIPARRAY_SIM_MODE.
unfoldable pub random_height : (sim : Bool) → (layers idx_ratio data_ratio r : ℕ) → ℕ
random_height sim layers idx_ratio data_ratio r =
    if sim
    then 0
    else if r % data_ratio == 0
    then height_loop layers layers idx_ratio (r / data_ratio) 1
    else 0

-- The lowest digits of the number to the base `ratio` are 0, so many of them.
unfoldable pub ends_in_zeros : ℕ → (ratio r : ℕ) → Bool
ends_in_zeros zero ratio r = true
ends_in_zeros (suc n) ratio r =
    let rest = ends_in_zeros n ratio (r / ratio) in r % ratio == 0 && rest
