-- ===== src/Prepare/Writes/Laws.antt =====
-- How a retried write and a retried read end.
use gst_app.Prelude.{
  ℕ, zero, suc, ◌+◌, ◌≤◌, ◌<◌, ◌≡◌, ◌⊎◌, ap, refl, inl, inr, Bool, true, false, Bool-cases, arith,
}
use native.Mathlib.Decide.{ℕ_discrete}
use gst_app.Prelude.Errno.{eio}
use gst_app.Prepare.Writes.{
  WriteAnswer, WriteResult, write_outcome, is_final, retry_loop, retry_write,
}

-- How the loop ends that makes its first call as call number `first` and its last one below
-- `limit`.
pub record Ends (with_commit : Bool) (length : ℕ) (answers : ℕ → WriteAnswer) (first limit : ℕ)
    (r : WriteResult × ℕ) : Type 0 where
  pub called : first < r.1
  pub bounded : r.1 ≤ limit
  pub outcome : (last : ℕ) → last + 1 ≡ r.1 → r.0 ≡ write_outcome with_commit length (answers last)
  pub retried :
      (i : ℕ)
      → first ≤ i
      → i + 1 < r.1
      → is_final (write_outcome with_commit length (answers i)) ≡ false
  pub stopped : (is_final r.0 ≡ true) ⊎ (r.1 ≡ limit)

module _ (with_commit : Bool) (length : ℕ) (answers : ℕ → WriteAnswer) where
  abbrev answer : ℕ → WriteResult
  answer i = write_outcome with_commit length (answers i)

  -- One call that is the last one.
  Ends-now :
      (attempt limit : ℕ)
      → attempt < limit
      → (is_final (answer attempt) ≡ true) ⊎ (attempt + 1 ≡ limit)
      → Ends with_commit length answers attempt limit (answer attempt, attempt + 1)
  Ends-now attempt limit room stop = record {
    called = omega arith;
    bounded = omega arith;
    outcome = λ last e. ap answer (omega arith);
    retried = λ i from before. absurd (omega arith);
    stopped = stop;
  }

  -- One call that is retried, and what follows.
  Ends-later :
      (attempt limit : ℕ) (r : WriteResult × ℕ)
      → is_final (answer attempt) ≡ false
      → Ends with_commit length answers (attempt + 1) limit r
      → Ends with_commit length answers attempt limit r
  Ends-later attempt limit r again rest = record {
    called = omega (arith, rest.called);
    bounded = rest.bounded;
    outcome = rest.outcome;
    retried = λ i from before. elim (ℕ_discrete i attempt) [
      | yes here ↦ rw here again
      | no later ↦ rest.retried i (omega arith) before
    ];
    stopped = rest.stopped;
  }

  retry_loop-Ends :
      (left attempt limit : ℕ) (before : WriteResult)
      → attempt + suc left ≡ limit
      → Ends with_commit length answers attempt limit
          (retry_loop with_commit length answers (suc left) attempt before)
  unfolding retry_loop
  retry_loop-Ends zero attempt limit before e = elim (Bool-cases (is_final (answer attempt))) [
    | inl final ↦ rw final (Ends-now attempt limit (omega arith) (inl final))
    | inr again ↦ rw again (Ends-now attempt limit (omega arith) (inr (omega arith)))
  ]
  retry_loop-Ends (suc left) attempt limit before e =
      let rest = retry_loop-Ends left (attempt + 1) limit (answer attempt) (omega arith) in
      elim (Bool-cases (is_final (answer attempt))) [
        | inl final ↦ rw final (Ends-now attempt limit (omega arith) (inl final))
        | inr again ↦ rw again (Ends-later attempt limit _ again rest)
      ]

  pub retry_write-Ends :
      Ends with_commit length answers 0 3 (retry_write with_commit length answers)
  unfolding retry_write
  retry_write-Ends = retry_loop-Ends 2 0 3 (record { result = eio; committed = false }) refl
