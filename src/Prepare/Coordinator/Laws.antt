-- ===== src/Prepare/Coordinator/Laws.antt =====
-- `max9296_prepare_all` keeps its contract.
use gst_app.Prelude.{
  ℕ, ◌≡◌, inl, inr, refl, subst, ℤ, pos, is_neg, Bool, true, false, Bool-cases, arith,
}
use gst_app.Prepare.Types.{Two, PrepareTarget}
use gst_app.Prepare.Transaction.{Answers, start_domain, mark_legacy}
use gst_app.Prepare.Transaction.Stages.{Planned, NonPositive}
use gst_app.Prepare.Coordinator.{
  prepare_legacy, outcome, Progress, read_phase, all_missing, classify_phase, run_workers,
  after_classify, after_read,
}
use gst_app.Prepare.Coordinator.Stages.{run_workers-Final, run_workers-agrees}
use gst_app.Prepare.Coordinator.Plan.{run_workers-KeepsPlans}
use gst_app.Prepare.Coordinator.Contract.{Contract, as_legacy}
use gst_app.Prepare.Coordinator.Settle.{Kept, Kept-plan}
use gst_app.Prepare.Coordinator.Start.{
  Ready, read_target, read_phase-Ready, legacy_domain, all_missing_lem, classify_phase-Ready,
}
use gst_app.Prepare.Coordinator.Ends.{Done, stopped-Contract, settle-Contract}

module _ (with_commit : Bool) (generation : ℕ) (t : Two PrepareTarget) (a : Two Answers) where
  abbrev pub read_all : Progress
  read_all = read_phase (start_domain t.csi0 a.csi0) (start_domain t.csi1 a.csi1)

  legacy-Contract :
      all_missing read_all ≡ true
      → Contract generation t a (
          outcome prepare_legacy
            (pos 0)
            true
            generation
            (mark_legacy read_all.d0)
            (mark_legacy read_all.d1))
  unfolding read_phase outcome
  legacy-Contract missing =
      let (on, m0, m1) = all_missing_lem read_all missing in
      let (a0, s0, c0) = legacy_domain t.csi0 a.csi0 m0 in
      let (a1, s1, c1) = legacy_domain t.csi1 a.csi1 m1 in
      as_legacy refl (s0, s1) (c0, c1)
        (rw (read_target t.csi0 a.csi0, read_target t.csi1 a.csi1) at on) a0 a1

  workers-Done :
      (p : Progress)
      → Ready t p
      → Planned p.d0
      → Planned p.d1
      → p.first_error ≡ pos 0
      → Done with_commit generation t a (run_workers with_commit generation p)
  workers-Done p r p0 p1 calm =
      let e0 = r.known0 calm in
      let e1 = r.known1 calm in
      let q : Progress = run_workers with_commit generation p in
      let same = run_workers-KeepsPlans with_commit generation p in
      record {
        final = run_workers-Final with_commit generation p p0 p1 e0 e1 calm r.calm;
        kept0 = subst (λ u. Kept u q.d0) r.target0 (Kept-plan p.d0 q.d0 p0 e0 same.0);
        kept1 = subst (λ u. Kept u q.d1) r.target1 (Kept-plan p.d1 q.d1 p1 e1 same.1);
        agrees = run_workers-agrees with_commit generation p;
      }

  pub not_negative : (e : ℤ) → NonPositive e → is_neg e ≡ false → e ≡ pos 0
  not_negative e h calm = ground arith

  classify-Contract :
      (p : Progress)
      → Ready t p
      → p.first_error ≡ pos 0
      → Contract generation t a (after_classify with_commit generation (classify_phase p))
  unfolding after_classify
  classify-Contract p r calm =
      let (r', p0, p1) = classify_phase-Ready t p r calm in
      elim (Bool-cases (is_neg (classify_phase p).first_error)) [
        | inl failed ↦
            rw failed (stopped-Contract with_commit generation t a (classify_phase p) r' failed)
        | inr calm' ↦ rw calm' (
            settle-Contract with_commit generation t a _
              (workers-Done (classify_phase p) r' p0 p1 (not_negative _ r'.nonpos calm')))
      ]

  pub after_read-Contract : Contract generation t a (after_read with_commit generation read_all)
  unfolding after_read
  after_read-Contract =
      let r = read_phase-Ready t a in
      elim (Bool-cases (all_missing read_all)) [
        | inl missing ↦ rw missing (legacy-Contract missing)
        | inr some_there ↦ elim (Bool-cases (is_neg read_all.first_error)) [
          | inl failed ↦
              rw (some_there, failed)
                (stopped-Contract with_commit generation t a read_all r failed)
          | inr calm ↦
              rw (some_there, calm) (classify-Contract read_all r (not_negative _ r.nonpos calm))
        ]
      ]
