-- ===== src/Prepare/Generation/Laws.antt =====
-- What a generated number promises.
use gst_app.Prelude.{
  ℕ, ◌+◌, ◌^◌, ◌<◌, ◌≡◌, ◌≢◌, if◌then◌else◌, List, [], ◌∷◌, Option, none, some, arith, ◌==◌,
  Bool-cases, Option-cases, inl, inr, get_elem?, ap, suc, ==_iff, refl,
}
use gst_app.Prepare.Generation.{candidate_for, Issued, next_generation, exchange_loop}

-- A number that has not been handed out before: above the one stored last, as long as the counter
-- has not used up its 64 bits.
abbrev pub Fresh : ℕ → Issued → Type 0
Fresh observed i = (observed < i.stored) × (i.returned ≡ i.stored) × (i.stored < 2 ^ 64)

candidate_pos : (clock : Option (ℕ × ℕ)) (pid : ℕ) → candidate_for clock pid ≢ 0
unfolding candidate_for
candidate_pos none pid = omega arith
candidate_pos (some (sec, nsec)) pid = ground arith

next_generation-gt :
    (candidate observed : ℕ)
    → candidate < 2 ^ 64
    → observed + 1 < 2 ^ 64
    → (observed < next_generation candidate observed)
      × (next_generation candidate observed < 2 ^ 64)
unfolding next_generation
next_generation-gt candidate observed h k = ground arith

exchange_loop-step :
    (candidate v : ℕ) (i : Issued)
    → candidate < 2 ^ 64
    → i.stored ≡ next_generation candidate v
    → i.returned ≡ (if i.stored == 0 then 1 else i.stored)
    → (i.returned ≢ 0) × (v + 1 < 2 ^ 64 → Fresh v i)
exchange_loop-step candidate v i small stored returned =
    let grows = next_generation-gt candidate v small in
    (ground arith, λ room. ground (arith, grows room))

exchange_loop_found :
    (candidate observed : ℕ) (seen : List ℕ) (i : Issued)
    → candidate < 2 ^ 64
    → exchange_loop candidate observed seen ≡ some i
    → (i.returned ≢ 0)
      × ((v : ℕ) × (get_elem? seen i.failed ≡ some v) × (v + 1 < 2 ^ 64 → Fresh v i))
unfolding exchange_loop
exchange_loop_found candidate observed [] i small e = absurd (ground arith)
exchange_loop_found candidate observed (current ∷ rest) i small e =
    elim (Bool-cases (current == observed)) [
      | inl same ↦
          let s = exchange_loop-step candidate observed i small (ground arith) (ground arith) in
          let first : i.failed ≡ 0 = ground arith in
          (s.0, (observed, rw first (ap some (ground arith)), s.1))
      | inr differs ↦ elim (Option-cases (exchange_loop candidate current rest)) [
        | inl going ↦ absurd (ground arith)
        | inr found ↦
            let j : Issued = found.0 in
            let (pos, (v, at, fresh)) =
              exchange_loop_found candidate current rest j small found.1 in
            let same : i ≡ record j { failed = suc j.failed } = ground arith in
            rw same (pos, (v, at, fresh))
      ]
    ]

exchange_loop_undisturbed :
    (candidate observed current : ℕ) (rest : List ℕ)
    → (i : Issued) × (exchange_loop candidate observed (current ∷ (current ∷ rest)) ≡ some i)
unfolding exchange_loop
exchange_loop_undisturbed candidate observed current rest =
    elim (Bool-cases (current == observed)) [
      | inl same ↦ rw same (_, refl)
      | inr differs ↦ rw (differs, (==_iff current current).1 refl) (_, refl)
    ]

-- A call whose second exchange finds what its first one found returns. A call that returns hands
-- out a number that is not 0. The exchange that stored it is the first after those that failed, and
-- unless the counter then held the last 64-bit number, the new value is larger than what the
-- counter held at that exchange, and is the number handed out.
pub exchange_loop-Fresh :
    (candidate observed current : ℕ) (seen rest : List ℕ) (i : Issued)
    → candidate < 2 ^ 64
    → exchange_loop candidate observed seen ≡ some i
    → (i.returned ≢ 0)
      × ((v : ℕ) × (get_elem? seen i.failed ≡ some v) × (v + 1 < 2 ^ 64 → Fresh v i))
      × ((j : Issued) × (exchange_loop candidate observed (current ∷ (current ∷ rest)) ≡ some j))
exchange_loop-Fresh candidate observed current seen rest i small e =
    let (pos, last) = exchange_loop_found candidate observed seen i small e in
    (pos, last, exchange_loop_undisturbed candidate observed current rest)
