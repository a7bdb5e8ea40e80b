-- ===== src/Vector/Sorted/Visit/ForEach.antt =====
-- `for_each` of vector_sfra.h: the calls that it makes, and what it stores.
use disco_skip.Prelude.{ℕ, zero, suc, ◌≤◌, ◌<◌, ◌≡◌, refl, sym, arith, Bool, true, false, some}
use disco_skip.Prelude.{
  List, [], ◌∷◌, inl, inr, Bool-cases, length, take, get_elem?, ◌==◌, if◌then◌else◌,
}
use disco_skip.Vector.Slots.{Entry, key_at}
use disco_skip.Vector.Sorted.{Vec}
use disco_skip.Vector.Sorted.Find.{IsValid}
use disco_skip.Vector.Sorted.Visit.{for_each_loop, for_each}

module _ {S V : Type 0} (f : S → ℕ → V → S × V × Bool) where
  key_at-for_each_loop :
      (n : ℕ) (s : S) (xs : List (Entry V)) (i : ℕ)
      → key_at (for_each_loop f n s xs).1 i ≡ key_at xs i
  unfolding for_each_loop
  key_at-for_each_loop zero s xs i = refl
  key_at-for_each_loop (suc n) s [] i = refl
  key_at-for_each_loop (suc n) s (e ∷ xs) zero = elim (Bool-cases (f s e.key e.val).2) [
    | inl p ↦ rw p
    | inr p ↦ rw p
  ]
  key_at-for_each_loop (suc n) s (e ∷ xs) (suc i) = elim (Bool-cases (f s e.key e.val).2) [
    | inl p ↦ rw p
    | inr p ↦ rw p (key_at-for_each_loop n (f s e.key e.val).0 xs i)
  ]

  length-for_each_loop :
      (n : ℕ) (s : S) (xs : List (Entry V)) → length (for_each_loop f n s xs).1 ≡ length xs
  unfolding for_each_loop
  length-for_each_loop zero s xs = refl
  length-for_each_loop (suc n) s [] = refl
  length-for_each_loop (suc n) s (e ∷ xs) =
      ground (arith, length-for_each_loop n (f s e.key e.val).0 xs)

  -- The state after the calls for some entries, and what one call gives and leaves.
  unfoldable pub after : S → List (Entry V) → S
  after s [] = s
  after s (e ∷ c) = after (f s e.key e.val).0 c

  abbrev pub call : S → List (Entry V) → ℕ → Entry V → S × V × Bool
  call s c i e = f (after s (take i c)) e.key e.val

  -- A loop that has made `n` calls, one for each of the first `n` entries.
  pub record HasCalled (n rounds : ℕ) (s : S) (c : List (Entry V)) (s' : S) (c' : List (Entry V))
      (stop : Bool) : Type 0 where
    pub inside : n ≤ rounds
    pub final : s' ≡ after s (take n c)
    pub stored :
        (i : ℕ) (e : Entry V)
        → i < n
        → get_elem? c i ≡ some e
        → (get_elem? c' i ≡ some (record e { val = (call s c i e).1 }))
          × ((call s c i e).2 ≡ (if suc i == n then stop else false))
    pub kept : (i : ℕ) → n ≤ i → get_elem? c' i ≡ get_elem? c i
    pub stopped : stop ≡ true → 0 < n
    pub all : stop ≡ false → n ≡ rounds

  nothing-HasCalled : (s : S) (c : List (Entry V)) → HasCalled 0 0 s c s c false
  unfolding after
  nothing-HasCalled s c = record {
    inside = omega arith;
    final = refl;
    stored = λ i e p q. absurd (omega (arith, p));
    kept = λ i p. refl;
    stopped = λ p. absurd (ground (arith, p));
    all = λ p. refl;
  }

  last-HasCalled :
      (n : ℕ) (s : S) (e : Entry V) (c : List (Entry V))
      → (f s e.key e.val).2 ≡ true
      → HasCalled 1
          (suc n)
          s
          (e ∷ c)
          (f s e.key e.val).0
          (record e { val = (f s e.key e.val).1 } ∷ c)
          true
  unfolding after
  last-HasCalled n s e c h = record {
    inside = omega arith;
    final = refl;
    stored = λ i d p q. first i d p q;
    kept = λ i p. later i p;
    stopped = λ p. omega arith;
    all = λ p. absurd (ground (arith, p));
  }
    where
      first :
          (i : ℕ) (d : Entry V)
          → i < 1
          → get_elem? (e ∷ c) i ≡ some d
          → (get_elem? (record e { val = (f s e.key e.val).1 } ∷ c) i
              ≡ some (record d { val = (call s (e ∷ c) i d).1 }))
            × ((call s (e ∷ c) i d).2 ≡ (if suc i == 1 then true else false))
      first zero d p q = let same : e ≡ d = ground arith in rw (sym same) (refl, h)
      first (suc i) d p q = absurd (omega arith)

      later :
          (i : ℕ)
          → 1 ≤ i
          → get_elem? (record e { val = (f s e.key e.val).1 } ∷ c) i ≡ get_elem? (e ∷ c) i
      later zero p = absurd (omega arith)
      later (suc i) p = refl

  more-HasCalled :
      (n rounds : ℕ) (s : S) (e : Entry V) (c : List (Entry V)) (s' : S) (c' : List (Entry V))
      (stop : Bool)
      → (f s e.key e.val).2 ≡ false
      → HasCalled n rounds (f s e.key e.val).0 c s' c' stop
      → HasCalled
          (suc n)
          (suc rounds)
          s
          (e ∷ c)
          s'
          (record e { val = (f s e.key e.val).1 } ∷ c')
          stop
  unfolding after
  more-HasCalled n rounds s e c s' c' stop h g = record {
    inside = omega (arith, g.inside);
    final = g.final;
    stored = λ i d p q. each i d p q;
    kept = λ i p. later i p;
    stopped = λ p. omega arith;
    all = λ p. omega (arith, g.all p);
  }
    where
      each :
          (i : ℕ) (d : Entry V)
          → i < suc n
          → get_elem? (e ∷ c) i ≡ some d
          → (get_elem? (record e { val = (f s e.key e.val).1 } ∷ c') i
              ≡ some (record d { val = (call s (e ∷ c) i d).1 }))
            × ((call s (e ∷ c) i d).2 ≡ (if suc i == suc n then stop else false))
      each zero d p q =
          let same : e ≡ d = ground arith in
          rw (sym same) (
            refl,
            elim (Bool-cases stop) [
              | inl t ↦ ground (arith, h, g.stopped t)
              | inr t ↦ ground (arith, h, t)
            ],
          )
      each (suc i) d p q =
          let (value, flag) = g.stored i d (omega arith) q in (value, ground (arith, flag))

      later :
          (i : ℕ)
          → suc n ≤ i
          → get_elem? (record e { val = (f s e.key e.val).1 } ∷ c') i ≡ get_elem? (e ∷ c) i
      later zero p = absurd (omega arith)
      later (suc i) p = g.kept i (omega arith)

  for_each_loop-HasCalled :
      (rounds : ℕ) (s : S) (c : List (Entry V))
      → rounds ≤ length c
      → (n : ℕ) × HasCalled n rounds s c
          (for_each_loop f rounds s c).0
          (for_each_loop f rounds s c).1
          (for_each_loop f rounds s c).2
  unfolding for_each_loop
  for_each_loop-HasCalled zero s c h = (0, nothing-HasCalled s c)
  for_each_loop-HasCalled (suc n) s [] h = absurd (omega arith)
  for_each_loop-HasCalled (suc n) s (e ∷ c) h = elim (Bool-cases (f s e.key e.val).2) [
    | inl p ↦ (1, rw p (last-HasCalled n s e c p))
    | inr p ↦
        let s1 : S = (f s e.key e.val).0 in
        let (m, called) = for_each_loop-HasCalled n s1 c (omega arith) in
        let rest = for_each_loop f n s1 c in
        (suc m, rw p (more-HasCalled m n s e c rest.0 rest.1 rest.2 p called))
  ]

  -- On a valid vector, a `for_each` that starts with `exit_flag` clear calls the callback on the first
  -- `n` of the entries that the vector holds, in order, each call with the state that the one before has left. It
  -- stores in each of their slots the value that the call leaves, keeps the other slots and the size, and
  -- ends with the state of the last call. Every call but the last leaves the flag clear, and the last
  -- leaves it as it is at the end; if it is clear at the end, all entries have been visited. The
  -- vector stays valid.
  pub for_each_refines :
      (s : S) (v : Vec V)
      → IsValid v
      → let (s', v', stop) = for_each f s v false in
        IsValid v' × (v'.size ≡ v.size) × ((n : ℕ) × HasCalled n v.size s v.list s' v'.list stop)
  unfolding for_each
  for_each_refines s v valid =
      let same = key_at-for_each_loop v.size s v.list in
      (
        record {
          fits = omega (arith, valid.fits, length-for_each_loop v.size s v.list);
          ascending = λ i j p q. omega (arith, same i, same j, valid.ascending i j p q);
        },
        refl,
        for_each_loop-HasCalled v.size s v.list valid.fits,
      )
