-- ===== src/Prelude/Lists.antt =====
-- Lists measured and indexed by native numbers, under the library's names. A C array is such a
-- list: a read out of bounds gives `none`, and a write out of bounds changes nothing.
use Prim.Native.Nat.{ℕ, zero, suc, ◌+◌, ◌-◌, ◌≤◌, ◌<◌, min}
use mathlib.Core.Path.{◌≡◌, refl, ap, sym, ◌∙◌}
use mathlib.Core.Bool.{◌&&◌}
use mathlib.Core.List.{List, [], ◌∷◌, ◌++◌}
use mathlib.Core.Option.{Option, none, some}
use native.Mathlib.Omega.{arith}
use disco_skip.Prelude.Tests.{ltb, ◌==◌, if◌then◌else◌}

module _ {ℓ} {A : Type ℓ} where
  abbrev pub length : List A → ℕ
  length [] = 0
  length (x ∷ xs) = suc (length xs)

  abbrev pub get_elem? : List A → ℕ → Option A
  get_elem? [] i = none
  get_elem? (x ∷ xs) zero = some x
  get_elem? (x ∷ xs) (suc i) = get_elem? xs i

  abbrev pub set : List A → ℕ → A → List A
  set [] i v = []
  set (x ∷ xs) zero v = v ∷ xs
  set (x ∷ xs) (suc i) v = x ∷ set xs i v

  abbrev pub take : ℕ → List A → List A
  take zero xs = []
  take (suc n) [] = []
  take (suc n) (x ∷ xs) = x ∷ take n xs

  abbrev pub drop : ℕ → List A → List A
  drop zero xs = xs
  drop (suc n) [] = []
  drop (suc n) (x ∷ xs) = drop n xs

  abbrev pub replicate : ℕ → A → List A
  replicate zero a = []
  replicate (suc n) a = a ∷ replicate n a

module _ {ℓ} {A : Type ℓ} where
  pub length-set : (xs : List A) (i : ℕ) (v : A) → length (set xs i v) ≡ length xs
  length-set [] i v = refl
  length-set (x ∷ xs) zero v = refl
  length-set (x ∷ xs) (suc i) v = ap suc (length-set xs i v)

  pub get_elem?-set :
      (xs : List A) (i j : ℕ) (v : A)
      → get_elem? (set xs i v) j ≡ (if i == j && ltb j (length xs) then some v else get_elem? xs j)
  get_elem?-set [] i j v = ground arith
  get_elem?-set (x ∷ xs) zero zero v = ground arith
  get_elem?-set (x ∷ xs) zero (suc j) v = ground arith
  get_elem?-set (x ∷ xs) (suc i) zero v = ground arith
  get_elem?-set (x ∷ xs) (suc i) (suc j) v = ground (arith, get_elem?-set xs i j v)

  pub get_elem?-some : (xs : List A) (i : ℕ) → i < length xs → (a : A) × (get_elem? xs i ≡ some a)
  get_elem?-some [] i h = absurd (omega arith)
  get_elem?-some (x ∷ xs) zero h = (x, refl)
  get_elem?-some (x ∷ xs) (suc i) h = get_elem?-some xs i (omega arith)

  pub get_elem?-none : (xs : List A) (i : ℕ) → length xs ≤ i → get_elem? xs i ≡ none
  get_elem?-none [] i h = refl
  get_elem?-none (x ∷ xs) zero h = absurd (omega arith)
  get_elem?-none (x ∷ xs) (suc i) h = get_elem?-none xs i (omega arith)

  pub length-append : (xs ys : List A) → length (xs ++ ys) ≡ length xs + length ys
  length-append [] ys = omega arith
  length-append (x ∷ xs) ys = omega (arith, length-append xs ys)

  pub length-take : (n : ℕ) (xs : List A) → length (take n xs) ≡ min n (length xs)
  length-take zero xs = omega arith
  length-take (suc n) [] = omega arith
  length-take (suc n) (x ∷ xs) = omega (arith, length-take n xs)

  pub length-drop : (n : ℕ) (xs : List A) → length (drop n xs) ≡ length xs - n
  length-drop zero xs = omega arith
  length-drop (suc n) [] = omega arith
  length-drop (suc n) (x ∷ xs) = omega (arith, length-drop n xs)

  pub length-replicate : (n : ℕ) (a : A) → length (replicate n a) ≡ n
  length-replicate zero a = refl
  length-replicate (suc n) a = ap suc (length-replicate n a)

  pub take-nil : (n : ℕ) → take {A = A} n [] ≡ []
  take-nil zero = refl
  take-nil (suc n) = refl

  pub take-all : (xs : List A) → take (length xs) xs ≡ xs
  take-all [] = refl
  take-all (x ∷ xs) = ap (◌∷◌ x) (take-all xs)

  pub take-append-drop : (n : ℕ) (xs : List A) → take n xs ++ drop n xs ≡ xs
  take-append-drop zero xs = refl
  take-append-drop (suc n) [] = refl
  take-append-drop (suc n) (x ∷ xs) = ap (◌∷◌ x) (take-append-drop n xs)

  pub get_elem?-take :
      (n i : ℕ) (xs : List A) → get_elem? (take n xs) i ≡ (if ltb i n then get_elem? xs i else none)
  get_elem?-take zero i xs = ground arith
  get_elem?-take (suc n) i [] = ground arith
  get_elem?-take (suc n) zero (x ∷ xs) = ground arith
  get_elem?-take (suc n) (suc i) (x ∷ xs) = ground (arith, get_elem?-take n i xs)

  pub get_elem?-drop : (n i : ℕ) (xs : List A) → get_elem? (drop n xs) i ≡ get_elem? xs (n + i)
  get_elem?-drop zero i xs = ap (get_elem? xs) (omega arith)
  get_elem?-drop (suc n) i [] = refl
  get_elem?-drop (suc n) i (x ∷ xs) = get_elem?-drop n i xs ∙ ground arith

  pub get_elem?-append :
      (xs ys : List A) (i : ℕ)
      → get_elem? (xs ++ ys) i
        ≡ (if ltb i (length xs) then get_elem? xs i else get_elem? ys (i - length xs))
  get_elem?-append [] ys i = ground arith
  get_elem?-append (x ∷ xs) ys zero = ground arith
  get_elem?-append (x ∷ xs) ys (suc i) = ground (arith, get_elem?-append xs ys i)

  -- Lists of one length that agree at every index are equal.
  pub list_ext :
      (xs ys : List A)
      → length xs ≡ length ys
      → ((i : ℕ) → i < length xs → get_elem? xs i ≡ get_elem? ys i)
      → xs ≡ ys
  list_ext [] [] e h = refl
  list_ext [] (y ∷ ys) e h = absurd (omega arith)
  list_ext (x ∷ xs) [] e h = absurd (omega arith)
  list_ext (x ∷ xs) (y ∷ ys) e h = ground (
    arith,
    h 0 (omega arith),
    list_ext xs ys (omega arith) (λ (i : ℕ) (p : i < length xs). h (suc i) (omega arith)),
  )

  -- A prefix is known by its elements.
  pub take_ext :
      (n : ℕ) (xs ys : List A)
      → n ≤ length xs
      → length ys ≡ n
      → ((i : ℕ) → i < n → get_elem? xs i ≡ get_elem? ys i)
      → take n xs ≡ ys
  take_ext n xs ys h e p =
      let len : length (take n xs) ≡ n = omega (arith, length-take n xs) in
      list_ext (take n xs) ys (omega (arith, len, e))
        (λ i q. ground (arith, len, get_elem?-take n i xs, p i))

  pub get_elem?-splice :
      (n : ℕ) (x : A) (xs : List A) (i : ℕ)
      → n ≤ length xs
      → get_elem? (take n xs ++ x ∷ drop n xs) i
        ≡ (if ltb i n then get_elem? xs i else if i == n then some x else get_elem? xs (i - 1))
  get_elem?-splice zero x xs zero h = ground arith
  get_elem?-splice zero x xs (suc i) h = ground arith
  get_elem?-splice (suc n) x [] i h = absurd (omega arith)
  get_elem?-splice (suc n) x (y ∷ xs) zero h = ground arith
  get_elem?-splice (suc n) x (y ∷ xs) (suc zero) h = ground (arith, get_elem?-splice n x xs 0)
  get_elem?-splice (suc n) x (y ∷ xs) (suc (suc i)) h =
      ground (arith, get_elem?-splice n x xs (suc i))

  pub length-splice :
      (n : ℕ) (x : A) (xs : List A) → length (take n xs ++ x ∷ drop n xs) ≡ length xs + 1
  length-splice n x xs =
      omega (arith, length-append (take n xs) (x ∷ drop n xs), length-take n xs, length-drop n xs)

  pub get_elem?-cut :
      (n : ℕ) (xs : List A) (i : ℕ)
      → n < length xs
      → get_elem? (take n xs ++ drop (suc n) xs) i
        ≡ (if ltb i n then get_elem? xs i else get_elem? xs (suc i))
  get_elem?-cut n [] i h = absurd (omega arith)
  get_elem?-cut zero (y ∷ xs) i h = ground arith
  get_elem?-cut (suc n) (y ∷ xs) zero h = ground arith
  get_elem?-cut (suc n) (y ∷ xs) (suc i) h = ground (arith, get_elem?-cut n xs i)

  pub length-cut :
      (n : ℕ) (xs : List A) → n < length xs → length (take n xs ++ drop (suc n) xs) + 1 ≡ length xs
  length-cut n xs h =
      omega (
        arith,
        length-append (take n xs) (drop (suc n) xs),
        length-take n xs,
        length-drop (suc n) xs,
      )

  pub take-drop : (m n : ℕ) (xs : List A) → n ≤ m → take (m - n) (drop n xs) ≡ drop n (take m xs)
  take-drop m zero xs h = ap (λ k. take k xs) (omega arith)
  take-drop zero (suc n) xs h = absurd (omega arith)
  take-drop (suc m) (suc n) [] h = take-nil (suc m - suc n)
  take-drop (suc m) (suc n) (x ∷ xs) h =
      ap (λ k. take k (drop n xs)) (omega arith) ∙ take-drop m n xs (omega arith)

  pub take-take : (m n : ℕ) (xs : List A) → m ≤ n → take m (take n xs) ≡ take m xs
  take-take zero n xs h = refl
  take-take (suc m) zero xs h = absurd (omega arith)
  take-take (suc m) (suc n) [] h = refl
  take-take (suc m) (suc n) (x ∷ xs) h = ap (◌∷◌ x) (take-take m n xs (omega arith))

  pub append_assoc : (xs ys zs : List A) → (xs ++ ys) ++ zs ≡ xs ++ (ys ++ zs)
  append_assoc [] ys zs = refl
  append_assoc (x ∷ xs) ys zs = ap (◌∷◌ x) (append_assoc xs ys zs)

  pub drop-take-append :
      (m n : ℕ) (xs : List A) → n ≤ m → drop n (take m xs) ++ drop m xs ≡ drop n xs
  drop-take-append m zero xs h = take-append-drop m xs
  drop-take-append zero (suc n) xs h = absurd (omega arith)
  drop-take-append (suc m) (suc n) [] h = refl
  drop-take-append (suc m) (suc n) (x ∷ xs) h = drop-take-append m n xs (omega arith)

  pub take-append-take : (m n : ℕ) (xs : List A) → take m xs ++ take n (drop m xs) ≡ take (m + n) xs
  take-append-take zero n xs = ap (λ k. take k xs) (omega arith)
  take-append-take (suc m) n [] = take-nil n ∙ sym (take-nil (suc m + n))
  take-append-take (suc m) n (x ∷ xs) =
      ap (◌∷◌ x) (take-append-take m n xs)
      ∙ ap (λ k. take k (x ∷ xs)) {x = suc (m + n)} (omega arith)

  pub take-set :
      (n : ℕ) (xs : List A) (x : A)
      → n < length xs
      → take (suc n) (set xs n x) ≡ take n xs ++ x ∷ []
  take-set n [] x h = absurd (omega arith)
  take-set zero (y ∷ xs) x h = refl
  take-set (suc n) (y ∷ xs) x h = ap (◌∷◌ y) (take-set n xs x (omega arith))
