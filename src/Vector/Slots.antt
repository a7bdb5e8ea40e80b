-- ===== src/Vector/Slots.antt =====
-- The array `entry_t list[CAPACITY]` that every vector keeps: entries of include-cache/common/entry.h
-- in the slots of include-cache/vector/atomic_kv.h, moved singly or by `std::memcpy`.
use disco_skip.Prelude.{ℕ, zero, suc, ◌+◌, ◌-◌, ◌≤◌, ◌<◌, ◌≡◌, refl, ap, ◌∙◌, arith}
use disco_skip.Prelude.{
  inl, inr, Option-cases, none, some, List, ◌&&◌, ltb, leb, ◌==◌, if◌then◌else◌,
}
use disco_skip.Prelude.{take, drop, take_ext, ◌++◌, length-append, length-take, length-drop}
use disco_skip.Prelude.{get_elem?-append, get_elem?-take, get_elem?-drop}
use disco_skip.Prelude.{length, get_elem?, get_elem?-some, set, length-set, get_elem?-set}

-- A key is an unsigned integer of the program, and a value is only moved.
pub record Entry (V : Type 0) : Type 0 where
  pub key : ℕ
  pub val : V

module _ {V : Type 0} where
  -- The key in slot `i`; every read stands under a bound on `i`.
  abbrev pub key_at : List (Entry V) → ℕ → ℕ
  key_at xs i = elim (get_elem? xs i) [ none ↦ 0 | some e ↦ e.key ]

  -- `dst[d] = src[s]`. A read out of bounds moves nothing.
  unfoldable pub assign : List (Entry V) → ℕ → List (Entry V) → ℕ → List (Entry V)
  assign dst d src s = elim (get_elem? src s) [ none ↦ dst | some e ↦ set dst d e ]

  -- `memcpy(dst + d, src + s, n * ENTRY_SIZE)`, slot by slot.
  unfoldable pub memcpy : ℕ → List (Entry V) → ℕ → List (Entry V) → ℕ → List (Entry V)
  memcpy zero dst d src s = dst
  memcpy (suc n) dst d src s = memcpy n (assign dst d src s) (d + 1) src (s + 1)

  pub length-assign :
      (dst : List (Entry V)) (d : ℕ) (src : List (Entry V)) (s : ℕ)
      → length (assign dst d src s) ≡ length dst
  unfolding assign
  length-assign dst d src s = elim (Option-cases (get_elem? src s)) [
    | inl e ↦ rw (e, assign)
    | inr (a, e) ↦ rw (e, assign) (length-set dst d a)
  ]

  pub get_elem?-assign :
      (dst : List (Entry V)) (d : ℕ) (src : List (Entry V)) (s i : ℕ)
      → s < length src
      → get_elem? (assign dst d src s) i
        ≡ (if d == i && ltb i (length dst) then get_elem? src s else get_elem? dst i)
  unfolding assign
  get_elem?-assign dst d src s i h =
      let (e, p) = get_elem?-some src s h in ground (arith, get_elem?-set dst d i e)

  pub length-memcpy :
      (n : ℕ) (dst : List (Entry V)) (d : ℕ) (src : List (Entry V)) (s : ℕ)
      → length (memcpy n dst d src s) ≡ length dst
  unfolding memcpy
  length-memcpy zero dst d src s = refl
  length-memcpy (suc n) dst d src s =
      length-memcpy n (assign dst d src s) (d + 1) src (s + 1) ∙ length-assign dst d src s

  pub get_elem?-memcpy :
      (n : ℕ) (dst : List (Entry V)) (d : ℕ) (src : List (Entry V)) (s i : ℕ)
      → s + n ≤ length src
      → d + n ≤ length dst
      → get_elem? (memcpy n dst d src s) i
        ≡ (if leb d i && ltb i (d + n) then get_elem? src (s + (i - d)) else get_elem? dst i)
  unfolding memcpy
  get_elem?-memcpy zero dst d src s i hs hd = ground arith
  get_elem?-memcpy (suc n) dst d src s i hs hd = ground (
    arith,
    length-assign dst d src s,
    get_elem?-assign dst d src s i,
    get_elem?-memcpy n (assign dst d src s) (d + 1) src (s + 1) i,
  )

  pub take-memcpy :
      (n : ℕ) (dst : List (Entry V)) (d : ℕ) (src : List (Entry V)) (s : ℕ)
      → s + n ≤ length src
      → d + n ≤ length dst
      → take (d + n) (memcpy n dst d src s) ≡ take d dst ++ take n (drop s src)
  take-memcpy n dst d src s hs hd =
      take_ext (d + n) (memcpy n dst d src s) (take d dst ++ take n (drop s src))
        (omega (arith, length-memcpy n dst d src s))
        (omega (
          arith,
          length-append (take d dst) (take n (drop s src)),
          length-take d dst,
          length-take n (drop s src),
          length-drop s src,
        ))
        (λ i p. ground (
          arith,
          get_elem?-memcpy n dst d src s i,
          get_elem?-append (take d dst) (take n (drop s src)) i,
          length-take d dst,
          get_elem?-take d i dst,
          get_elem?-take n (i - d) (drop s src),
          get_elem?-drop s (i - d) src,
        ))

  pub take-memcpy_front :
      (n : ℕ) (dst src : List (Entry V)) (s : ℕ)
      → s + n ≤ length src
      → n ≤ length dst
      → take n (memcpy n dst 0 src s) ≡ take n (drop s src)
  take-memcpy_front n dst src s hs hd =
      ap (λ k. take k (memcpy n dst 0 src s)) (omega arith)
      ∙ take-memcpy n dst 0 src s hs (omega arith)
