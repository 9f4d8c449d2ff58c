-- ===== src/Prepare/Coordinator/Ends.antt =====
-- The ends of the transaction, each within the contract.
use gst_app.Prelude.{
  ℕ, ◌≡◌, inl, inr, refl, ℤ, pos, is_neg, IsNegative, Bool, true, false, Bool-cases, arith,
}
use gst_app.Prepare.Types.{Two, PrepareTarget}
use gst_app.Prepare.Transaction.{Answers}
use gst_app.Prepare.Transaction.Stages.{NonPositive, Checked}
use gst_app.Prepare.Coordinator.{
  prepare_ok, prepare_partial, has_epoch, outcome, Progress, settle, is_partial, survives,
  roll_back,
}
use gst_app.Prepare.Coordinator.Stages.{Final}
use gst_app.Prepare.Coordinator.Contract.{Contract, as_stopped, as_ok, as_partial, as_failed}
use gst_app.Prepare.Coordinator.Settle.{
  Kept, Kept-Allowed, Checked-Prepared, roll_back-Allowed, roll_back-Cancelled, roll_back-PartOf,
  survives-Prepared, calm-has_epoch,
}
use gst_app.Prepare.Coordinator.Start.{Ready}

module _ (with_commit : Bool) (generation : ℕ) (t : Two PrepareTarget) (a : Two Answers) where
  -- A progress without a write, whose first error ends the call.
  pub stopped-Contract :
      (p : Progress)
      → Ready t p
      → IsNegative p.first_error
      → Contract generation t a (outcome p.first_error p.first_error false generation p.d0 p.d1)
  unfolding outcome
  stopped-Contract p r negative =
      as_stopped negative refl (r.untouched0.no_stores, r.untouched1.no_stores)
        (r.untouched0.no_cancels, r.untouched1.no_cancels)
        (r.untouched0.not_owned, r.untouched1.not_owned)

  -- A transaction whose workers have run.
  pub record Done (p : Progress) : Type 0 where
    pub final : Final generation p
    pub kept0 : Kept t.csi0 p.d0
    pub kept1 : Kept t.csi1 p.d1
    pub agrees :
        p.global_failure ≡ false
        → has_epoch p.d0 ≡ true
        → has_epoch p.d1 ≡ true
        → p.d0.report.after.epoch ≡ p.d1.report.after.epoch

  partial-Contract :
      (p : Progress)
      → Done p
      → IsNegative p.first_error
      → is_partial p ≡ true
      → Contract generation t a (
          outcome prepare_partial p.first_error false generation
            (roll_back with_commit true p.d0)
            (roll_back with_commit true p.d1))
  unfolding outcome is_partial
  partial-Contract p d failed part =
      let calm : p.global_failure ≡ false = ground arith in
      let c0 : Checked generation p.d0 false = rw calm at d.final.checked0 in
      let c1 : Checked generation p.d1 false = rw calm at d.final.checked1 in
      as_partial refl failed (roll_back-PartOf with_commit generation t.csi0 p.d0 d.kept0 c0)
        (roll_back-PartOf with_commit generation t.csi1 p.d1 d.kept1 c1)
        (elim (Bool-cases (survives p.d0)) [
          | inl s0 ↦ inl (survives-Prepared with_commit generation t.csi0 p.d0 d.kept0 c0 s0)
          | inr s0 ↦
              inr (survives-Prepared with_commit generation t.csi1 p.d1 d.kept1 c1 (ground arith))
        ])

  failed-Contract :
      (p : Progress)
      → Done p
      → IsNegative p.first_error
      → Contract generation t a (
          outcome p.first_error p.first_error false generation
            (roll_back with_commit false p.d0)
            (roll_back with_commit false p.d1))
  unfolding outcome
  failed-Contract p d failed =
      as_failed failed refl
        (roll_back-Cancelled with_commit false p.d0 d.final.checked0.joined.no_cancels
          (λ h. absurd (ground arith)))
        (roll_back-Cancelled with_commit false p.d1 d.final.checked1.joined.no_cancels
          (λ h. absurd (ground arith)))
        (λ on.
          roll_back-Allowed with_commit false t.csi0 p.d0 (Kept-Allowed t.csi0 p.d0 d.kept0 on))
        (λ on.
          roll_back-Allowed with_commit false t.csi1 p.d1 (Kept-Allowed t.csi1 p.d1 d.kept1 on))

  calm_error :
      (e f : ℤ) → NonPositive e → (IsNegative e → IsNegative f) → is_neg f ≡ false → e ≡ pos 0
  calm_error e f h up calm = ground arith

  ok-Contract :
      (p : Progress)
      → Done p
      → is_neg p.first_error ≡ false
      → Contract generation t a (outcome prepare_ok (pos 0) false generation p.d0 p.d1)
  unfolding outcome
  ok-Contract p d calm =
      let acc = d.final.accounted in
      let whole : p.global_failure ≡ false = ground (arith, acc.failing) in
      let c0 : Checked generation p.d0 false = rw whole at d.final.checked0 in
      let c1 : Checked generation p.d1 false = rw whole at d.final.checked1 in
      let e0 = calm_error _ p.first_error c0.joined.nonpos acc.known0 calm in
      let e1 = calm_error _ p.first_error c1.joined.nonpos acc.known1 calm in
      as_ok refl refl (c0.joined.no_cancels, c1.joined.no_cancels)
        (λ on. Checked-Prepared generation t.csi0 p.d0 d.kept0 c0 e0 on)
        (λ on. Checked-Prepared generation t.csi1 p.d1 d.kept1 c1 e1 on)
        (λ on0 on1.
          d.agrees whole (calm-has_epoch generation p.d0 c0 e0 (rw d.kept0.target on0))
            (calm-has_epoch generation p.d1 c1 e1 (rw d.kept1.target on1)))

  pub settle-Contract :
      (p : Progress) → Done p → Contract generation t a (settle with_commit generation p)
  unfolding settle
  settle-Contract p d = elim (Bool-cases (is_neg p.first_error)) [
    | inl failed ↦ elim (Bool-cases (is_partial p)) [
      | inl part ↦ rw (failed, part) (partial-Contract p d failed part)
      | inr whole ↦ rw (failed, whole) (failed-Contract p d failed)
    ]
    | inr calm ↦ rw calm (ok-Contract p d calm)
  ]
