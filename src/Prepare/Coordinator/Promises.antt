-- ===== src/Prepare/Coordinator/Promises.antt =====
-- What the caller of `max9296_prepare_all` can rely on.
use gst_app.Prelude.{
  ◌≡◌, ◌⊎◌, inl, inr, refl, ℤ, IsNegative, true, false, Option, some, none, Bool-cases, arith,
}
use gst_app.Prepare.Types.{Two, PrepareInput, PrepareReport, PrepareTarget, Result-cases, ok, err}
use gst_app.Prepare.Targets.{build_targets}
use gst_app.Prepare.Targets.Laws.{build_targets-IsNegative}
use gst_app.Prepare.Transaction.{Answers}
use gst_app.Prepare.Coordinator.{
  Io, valid_io, Outcome, prepare_all, prepare_ok, prepare_legacy, prepare_partial,
}
use gst_app.Prepare.Coordinator.Contract.{
  Contract, as_legacy, as_stopped, as_ok, as_partial, as_failed, Prepared, Cancelled, Quiet,
}
use gst_app.Prepare.Coordinator.Laws.{after_read-Contract}

module _ (input : PrepareInput) (prior : PrepareReport) (io : Io) (answers : Two Answers)
    (t : Two PrepareTarget) where
  abbrev result : Outcome
  result = prepare_all (some input) prior io answers

  -- With a complete table of functions and an input that makes targets, `max9296_prepare_all` keeps
  -- the contract of `Contract`: it falls back to the legacy driver, or stops before any write, or
  -- prepares every active domain, or keeps the domains that were prepared and cancels the others,
  -- or
  -- fails and cancels every lease it owns.
  pub prepare_all-Contract :
      valid_io io ≡ true
      → build_targets (some input) ≡ ok t
      → Contract input.generation t answers result
  unfolding prepare_all
  prepare_all-Contract valid built =
      rw (valid, built) (after_read-Contract io.write_file_with_commit input.generation t answers)

  Contract-codes :
      Contract input.generation t answers result
      → (result.code ≡ prepare_ok)
        ⊎ (result.code ≡ prepare_legacy)
        ⊎ (result.code ≡ prepare_partial)
        ⊎ IsNegative result.code
  Contract-codes (as_legacy code _ _ _ _ _) = inr (inl code)
  Contract-codes (as_stopped negative _ _ _ _) = inr (inr (inr negative))
  Contract-codes (as_ok code _ _ _ _ _) = inl code
  Contract-codes (as_partial code _ _ _ _) = inr (inr (inl code))
  Contract-codes (as_failed negative _ _ _ _ _) = inr (inr (inr negative))

  Contract-rollback :
      Contract input.generation t answers result
      → IsNegative result.code
      → Cancelled result.report.domain.csi0 result.cancels.csi0
        × Cancelled result.report.domain.csi1 result.cancels.csi1
  Contract-rollback (as_legacy code _ _ _ _ _) negative = absurd (ground arith)
  Contract-rollback (as_stopped _ _ _ (c0, c1) (u0, u1)) negative = (
    record { owned = λ h. absurd (ground arith); others = λ h. c0 },
    record { owned = λ h. absurd (ground arith); others = λ h. c1 },
  )
  Contract-rollback (as_ok code _ _ _ _ _) negative = absurd (ground arith)
  Contract-rollback (as_partial code _ _ _ _) negative = absurd (ground arith)
  Contract-rollback (as_failed _ _ c0 c1 _ _) negative = (c0, c1)

  -- A call with a complete table and an input that makes targets, which returns an error, has sent
  -- a
  -- cancelling write for every lease that its report says it owns, and for no other domain.
  pub prepare_all-rollback :
      valid_io io ≡ true
      → build_targets (some input) ≡ ok t
      → IsNegative result.code
      → Cancelled result.report.domain.csi0 result.cancels.csi0
        × Cancelled result.report.domain.csi1 result.cancels.csi1
  prepare_all-rollback valid built = Contract-rollback (prepare_all-Contract valid built)

  Contract-ok :
      Contract input.generation t answers result
      → result.code ≡ prepare_ok
      → (t.csi0.active ≡ true → Prepared input.generation t.csi0 result.report.domain.csi0)
        × (t.csi1.active ≡ true → Prepared input.generation t.csi1 result.report.domain.csi1)
        × (t.csi0.active ≡ true
            → t.csi1.active ≡ true
            → result.report.domain.csi0.after.epoch ≡ result.report.domain.csi1.after.epoch)
        × Quiet result.cancels
  Contract-ok (as_legacy code _ _ _ _ _) success = absurd (ground arith)
  Contract-ok (as_stopped negative _ _ _ _) success = absurd (ground arith)
  Contract-ok (as_ok _ _ quiet p0 p1 same) success = (p0, p1, same, quiet)
  Contract-ok (as_partial code _ _ _ _) success = absurd (ground arith)
  Contract-ok (as_failed negative _ _ _ _ _) success = absurd (ground arith)

  -- With a complete table and an input that makes targets, a call that returns zero has prepared
  -- every active domain, with one epoch for both if both are active, and has cancelled nothing.
  pub prepare_all-ok :
      valid_io io ≡ true
      → build_targets (some input) ≡ ok t
      → result.code ≡ prepare_ok
      → (t.csi0.active ≡ true → Prepared input.generation t.csi0 result.report.domain.csi0)
        × (t.csi1.active ≡ true → Prepared input.generation t.csi1 result.report.domain.csi1)
        × (t.csi0.active ≡ true
            → t.csi1.active ≡ true
            → result.report.domain.csi0.after.epoch ≡ result.report.domain.csi1.after.epoch)
        × Quiet result.cancels
  prepare_all-ok valid built = Contract-ok (prepare_all-Contract valid built)

-- A call that is refused: there is no input, or the table of functions is incomplete, or the input
-- makes no targets.
abbrev pub IsRefused : Option PrepareInput → Io → Type 0
IsRefused input io =
    (input ≡ none) ⊎ (valid_io io ≡ false) ⊎ ((e : ℤ) × (build_targets input ≡ err e))

-- A refused call returns an error and writes to no file.
prepare_all-refused :
    (input : Option PrepareInput) (prior : PrepareReport) (io : Io) (answers : Two Answers)
    → IsRefused input io
    → let o : Outcome = prepare_all input prior io answers in
      IsNegative o.code × Quiet o.stores × Quiet o.cancels
unfolding prepare_all
prepare_all-refused none prior io answers h = ground arith
prepare_all-refused (some input) prior io answers h = elim (Bool-cases (valid_io io)) [
  | inr invalid ↦ rw invalid (refl, (refl, refl), (refl, refl))
  | inl valid ↦ elim (Result-cases (build_targets (some input))) [
    | inl (t, e) ↦ ground arith
    | inr (x, e) ↦
        rw (valid, e) (build_targets-IsNegative (some input) x e, (refl, refl), (refl, refl))
  ]
]
