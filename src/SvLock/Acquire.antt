-- ===== src/SvLock/Acquire.antt =====
-- The whole loop of `acquire` of sv_lock.h, while other threads write the lock between its rounds. A
-- round is given by whether its weak CAS fails without a reason, and by the word that it finds.
use disco_skip.Prelude.{
  ℕ, zero, suc, ◌+◌, ◌%◌, ◌^◌, ◌≡◌, refl, arith, Bool, true, false, Option, none, some,
}
use disco_skip.Prelude.{List, [], ◌∷◌, ◌⊎◌, inl, inr, get_elem?}
use mathlib.Core.Path.{subst}
use disco_skip.Prelude.{ap, sym, ◌∙◌}
use disco_skip.SvLock.{Progress, done, again, is_dead, acquire_round, begin_read}
use disco_skip.SvLock.Words.{unlocked, locked, dead, state, NoWrap, acquire_round_lem}

-- The rest of the loop: the result and the word that the thread leaves, or none if the rounds run out.
unfoldable pub acquire_loop : List (Bool × ℕ) → ℕ → Option (Bool × ℕ)
acquire_loop [] read_value = none
acquire_loop (round ∷ rounds) read_value = elim (acquire_round round.0 read_value round.1) [
  | done result word ↦ some (result, word)
  | again read_value' word ↦ acquire_loop rounds read_value'
]

-- `acquire`, which first loads the word.
unfoldable pub acquire : ℕ → List (Bool × ℕ) → Option (Bool × ℕ)
acquire word rounds = acquire_loop rounds word

-- No thread writes a dead lock, and each word has room for a step of the counter.
unfoldable pub IsSchedule : ℕ → List (Bool × ℕ) → Type 0
IsSchedule before [] = Unit {0}
IsSchedule before (round ∷ rounds) =
    (state before ≡ dead → round.1 ≡ before) × (NoWrap round.1 × IsSchedule round.1 rounds)

-- What the loop has found, and what it leaves of it.
abbrev pub Ended : Bool → ℕ → ℕ → Type 0
Ended true word word' =
    (state word ≡ unlocked) × (state word' ≡ locked) × (begin_read word' ≡ begin_read word)
Ended false word word' = (state word ≡ dead) × (word' ≡ word)

module _ (spurious : Bool) (read_value word : ℕ) where
  round-again : (r w : ℕ) → acquire_round spurious read_value word ≡ again r w → r ≡ word
  unfolding acquire_round
  round-again r w e = ground arith

  round-Ended :
      (r : Bool) (w : ℕ)
      → (state read_value ≡ dead → word ≡ read_value)
      → NoWrap word
      → acquire_round spurious read_value word ≡ done r w
      → Ended r word w
  round-Ended true w stable room e = acquire_round_lem spurious read_value word true w room e
  round-Ended false w stable room e =
      let (gone, same) = acquire_round_lem spurious read_value word false w room e in
      (ap state (stable gone) ∙ gone, same)

  loop-done :
      (rounds : List (Bool × ℕ)) (r : Bool) (w : ℕ)
      → acquire_round spurious read_value word ≡ done r w
      → acquire_loop ((spurious, word) ∷ rounds) read_value ≡ some (r, w)
  unfolding acquire_loop
  loop-done rounds r w e = rw (acquire_loop, e) refl

  loop-again :
      (rounds : List (Bool × ℕ)) (r w : ℕ)
      → acquire_round spurious read_value word ≡ again r w
      → acquire_loop ((spurious, word) ∷ rounds) read_value ≡ acquire_loop rounds word
  unfolding acquire_loop
  loop-again rounds r w e = rw (acquire_loop, e) (ap (acquire_loop rounds) (round-again r w e))

Progress-cases :
    (p : Progress) → ((r : Bool) × (w : ℕ) × (p ≡ done r w)) ⊎ ((r : ℕ) × (w : ℕ) × (p ≡ again r w))
Progress-cases (done r w) = inl (r, w, refl)
Progress-cases (again r w) = inr (r, w, refl)

Found : List (Bool × ℕ) → Bool → ℕ → Type 0
Found rounds result word' =
    (i : ℕ) × (spurious : Bool) × (word : ℕ) × (get_elem? rounds i ≡ some (spurious, word))
    × Ended result word word'

acquire_loop-Found :
    (rounds : List (Bool × ℕ)) (read_value : ℕ) (result : Bool) (word' : ℕ)
    → IsSchedule read_value rounds
    → acquire_loop rounds read_value ≡ some (result, word')
    → Found rounds result word'
unfolding acquire_loop IsSchedule Found
acquire_loop-Found [] read_value result word' h e = absurd (ground arith)
acquire_loop-Found ((spurious, word) ∷ rounds) read_value result word' (stable, (room, rest)) e =
    elim (Progress-cases (acquire_round spurious read_value word)) [
      | inl (r, w, p) ↦
          let both = sym (loop-done spurious read_value word rounds r w p) ∙ e in
          let same = ap (λ o. elim o [ none ↦ r | some x ↦ x.0 ]) both in
          let same' = ap (λ o. elim o [ none ↦ w | some x ↦ x.1 ]) both in
          (
            0,
            spurious,
            word,
            refl,
            subst (λ b. Ended b word word') same
                (subst (λ v. Ended r word v) same'
                  (round-Ended spurious read_value word r w stable room p)),
          )
      | inr (r, w, p) ↦
          let (i, s, x, there, ended) =
            acquire_loop-Found rounds word result word' rest
              (sym (loop-again spurious read_value word rounds r w p) ∙ e) in
          (suc i, s, x, there, ended)
    ]

-- What the thread can end at: a lock that is free or dead.
abbrev pub IsSettled : ℕ → Type 0
IsSettled word = (state word ≡ unlocked) ⊎ (state word ≡ dead)

acquire_round-done :
    (word : ℕ) → IsSettled word → (r : Bool) × (w : ℕ) × (acquire_round false word word ≡ done r w)
unfolding acquire_round state is_dead
acquire_round-done word (inl u) = (true, (word + 4) % 2 ^ 64, ground arith)
acquire_round-done word (inr d) = (false, word, ground arith)

Returns : List (Bool × ℕ) → ℕ → Type 0
Returns rounds read_value =
    (result : Bool) × (word' : ℕ) × (acquire_loop rounds read_value ≡ some (result, word'))

acquire_loop-Returns :
    (rounds : List (Bool × ℕ)) (read_value i word : ℕ) (spurious : Bool)
    → get_elem? rounds i ≡ some (spurious, word)
    → get_elem? rounds (suc i) ≡ some (false, word)
    → IsSettled word
    → Returns rounds read_value
unfolding Returns
acquire_loop-Returns [] read_value i word spurious p q h = absurd (ground arith)
acquire_loop-Returns ((s, x) ∷ rounds) read_value (suc i) word spurious p q h =
    elim (Progress-cases (acquire_round s read_value x)) [
      | inl (r, w, e) ↦ (r, w, loop-done s read_value x rounds r w e)
      | inr (r, w, e) ↦
          let (result, word', more) = acquire_loop-Returns rounds x i word spurious p q h in
          (result, word', loop-again s read_value x rounds r w e ∙ more)
    ]
acquire_loop-Returns ((s, x) ∷ []) read_value zero word spurious p q h = absurd (ground arith)
acquire_loop-Returns ((s, x) ∷ y ∷ rounds) read_value zero word spurious p q h =
    elim (Progress-cases (acquire_round s read_value x)) [
      | inl (r, w, e) ↦ (r, w, loop-done s read_value x (y ∷ rounds) r w e)
      | inr (r, w, e) ↦
          let here : x ≡ word = ground arith in
          let second : y ≡ (false, word) = ground arith in
          let (result, word', ends) = acquire_round-done word h in
          let more : acquire_loop (y ∷ rounds) x ≡ some (result, word') =
            rw (here, second) (loop-done false word word rounds result word' ends) in
          (result, word', loop-again s read_value x (y ∷ rounds) r w e ∙ more)
    ]

-- `acquire`, against any sequence of rounds in which no thread writes a dead lock, and no counter is
-- about to wrap. If it returns true, one of the rounds has found the lock unlocked, and leaves it locked
-- with what a reader sees of it unchanged. If it returns false, one of the rounds has found the lock
-- dead, and leaves it so. It does return, if two rounds in a row find the same word of an unlocked or a dead
-- lock, and the weak CAS of the second does not fail without a reason.
pub acquire_lem :
    (word : ℕ) (rounds : List (Bool × ℕ))
    → IsSchedule word rounds
    → ((result : Bool) (word' : ℕ)
        → acquire word rounds ≡ some (result, word')
        → (i : ℕ) × (spurious : Bool) × (found : ℕ) × (get_elem? rounds i ≡ some (spurious, found))
          × Ended result found word')
      × ((i found : ℕ) (spurious : Bool)
          → get_elem? rounds i ≡ some (spurious, found)
          → get_elem? rounds (suc i) ≡ some (false, found)
          → IsSettled found
          → (result : Bool) × (word' : ℕ) × (acquire word rounds ≡ some (result, word')))
unfolding acquire Found Returns
acquire_lem word rounds h = (
  λ result word' e. acquire_loop-Found rounds word result word' h e,
  λ i found spurious p q settled. acquire_loop-Returns rounds word i found spurious p q settled,
)
