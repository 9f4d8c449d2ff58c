-- ===== src/RtspSync/Wait/Laws.antt =====
-- What the caller of `rtsp_sync_generation_wait` can rely on.
use gst_app.Prelude.{
  ℕ, zero, suc, ◌+◌, ◌≤◌, ◌<◌, ◌≡◌, ◌≢◌, ◌⊎◌, ◌↔◌, inl, inr, ℤ, pos, negsuc, pos_part, true, false,
  ◌||◌, not, Bool-cases, List, [], ◌∷◌, length, All, none, some, leb, ltb, arith,
}
use gst_app.RtspSync.Wait.{Round, deadline_for, wait_loop, generation_wait}

-- A round in which the wait goes on.
abbrev pub GoesOn : ℕ → Round → Type 0
GoesOn deadline r = (r.active ≡ true) × (r.cancelled ≡ false) × (r.now < deadline)

-- The rounds begin with some that go on, and then one where the time is up.
abbrev pub Elapses : ℕ → List Round → Type 0
Elapses deadline [] = ⊥
Elapses deadline (r ∷ rest) =
    ((r.active ≡ true) × (r.cancelled ≡ false) × (deadline ≤ r.now))
    ⊎ (GoesOn deadline r × Elapses deadline rest)

-- They begin with some that go on, and then one that sees an end of the generation or a
-- cancellation, whatever its time.
abbrev pub Stops : ℕ → List Round → Type 0
Stops deadline [] = ⊥
Stops deadline (r ∷ rest) =
    ((r.active ≡ false) ⊎ (r.cancelled ≡ true)) ⊎ (GoesOn deadline r × Stops deadline rest)

wait_loop-true :
    (deadline slice : ℕ) (rounds : List Round)
    → ((wait_loop deadline slice rounds).0 ≡ some true → Elapses deadline rounds)
      × (Elapses deadline rounds → (wait_loop deadline slice rounds).0 ≡ some true)
unfolding wait_loop
wait_loop-true deadline slice [] = ground arith
wait_loop-true deadline slice (r ∷ rest) =
    let ih = wait_loop-true deadline slice rest in (ground (arith, ih.0), ground (arith, ih.1))

wait_loop-false :
    (deadline slice : ℕ) (rounds : List Round)
    → ((wait_loop deadline slice rounds).0 ≡ some false → Stops deadline rounds)
      × (Stops deadline rounds → (wait_loop deadline slice rounds).0 ≡ some false)
unfolding wait_loop
wait_loop-false deadline slice [] = ground arith
wait_loop-false deadline slice (r ∷ rest) =
    let ih = wait_loop-false deadline slice rest in (ground (arith, ih.0), ground (arith, ih.1))

-- Every nap is longer than nothing and no longer than the slice.
wait_loop-naps :
    (deadline slice : ℕ) (rounds : List Round)
    → 0 < slice
    → All (λ n. (0 < n) × (n ≤ slice)) (wait_loop deadline slice rounds).1
unfolding wait_loop
wait_loop-naps deadline slice [] room = tt
wait_loop-naps deadline slice (r ∷ rest) room =
    let ih = wait_loop-naps deadline slice rest room in
    elim (Bool-cases (not r.active || r.cancelled)) [
      | inl ends ↦ rw ends tt
      | inr on ↦ elim (Bool-cases (leb deadline r.now)) [
        | inl up ↦ rw (on, up) tt
        | inr early ↦ rw (on, early) (ground arith, ih)
      ]
    ]

-- The clock after the time `t` moves on from round to round.
abbrev pub Advances : ℕ → List Round → Type 0
Advances t [] = Unit {0}
Advances t (r ∷ rest) = (t < r.now) × Advances r.now rest

wait_loop_ends :
    (deadline slice : ℕ) (r : Round) (rest : List Round)
    → Advances r.now rest
    → deadline ≤ r.now + length rest
    → (wait_loop deadline slice (r ∷ rest)).0 ≢ none
unfolding wait_loop
wait_loop_ends deadline slice r [] advances enough = ground arith
wait_loop_ends deadline slice r (q ∷ rest) advances enough =
    let ih = wait_loop_ends deadline slice q rest advances.1 (omega (arith, advances.0)) in
    ground (arith, ih)

module _ (duration slice started : ℕ) (rounds : List Round) (room : 0 < slice) where
  -- With a positive slice, the wait returns true exactly when all rounds up to one where the
  -- deadline is reached find the generation active and no cancellation, and false exactly when an
  -- earlier round finds the generation ended or the wait cancelled.
  pub generation_wait_iff :
      ((generation_wait (pos duration) (pos slice) started rounds).0 ≡ some true
        ↔ Elapses (deadline_for started duration) rounds)
      × ((generation_wait (pos duration) (pos slice) started rounds).0 ≡ some false
          ↔ Stops (deadline_for started duration) rounds)
  unfolding generation_wait
  generation_wait_iff =
      let yes = wait_loop-true (deadline_for started duration) slice rounds in
      let no = wait_loop-false (deadline_for started duration) slice rounds in
      (ground (arith, yes.0, yes.1), ground (arith, no.0, no.1))

-- Every time that the wait sleeps is positive and at most the slice, whatever the arguments.
generation_wait-naps :
    (duration slice : ℤ) (started : ℕ) (rounds : List Round)
    → All (λ n. (0 < n) × (n ≤ pos_part slice)) (generation_wait duration slice started rounds).1
unfolding generation_wait
generation_wait-naps duration (negsuc n) started rounds = ground arith
generation_wait-naps duration (pos zero) started rounds = ground arith
generation_wait-naps (negsuc n) (pos (suc k)) started rounds = tt
generation_wait-naps (pos n) (pos (suc k)) started rounds =
    let some_room : ltb 0 (suc k) ≡ true = ground arith in
    rw some_room (wait_loop-naps (deadline_for started n) (suc k) rounds (omega arith))

-- With a clock that moves on in every round, the wait has ended after as many rounds as there are
-- microseconds from the first round to the deadline, and one more.
pub generation_wait_ends :
    (duration slice : ℤ) (started : ℕ) (r : Round) (rest : List Round)
    → Advances r.now rest
    → deadline_for started (pos_part duration) ≤ r.now + length rest
    → (generation_wait duration slice started (r ∷ rest)).0 ≢ none
unfolding generation_wait
generation_wait_ends duration slice started r rest advances enough =
    let ends =
      wait_loop_ends (deadline_for started (pos_part duration)) (pos_part slice) r rest advances
        enough in
    ground (arith, ends)
