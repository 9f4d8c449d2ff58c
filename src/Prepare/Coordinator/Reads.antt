-- ===== src/Prepare/Coordinator/Reads.antt =====
-- A call that writes has read the status of every active domain.
use gst_app.Prepare.Transaction.Before.{before-classify_domain, mark_legacy_lem}
use gst_app.Prepare.Coordinator.Laws.{not_negative, read_all}
use gst_app.Prelude.{
  ℕ, ◌≡◌, ◌⊎◌, inl, inr, refl, sym, ◌∙◌, pos, is_neg, Bool, true, Bool-cases, arith, ap,
}
use gst_app.Prepare.Types.{Two, PrepareTarget, DomainReport, Result-cases, ok}
use gst_app.Prepare.Writes.{read_status}
use gst_app.Prepare.Transaction.{Answers, Domain, start_domain, read_before}
use gst_app.Prepare.Transaction.Stages.{read_status-IsNegative}
use gst_app.Prepare.Coordinator.{
  outcome, Outcome, Progress, read_phase, all_missing, classify_phase, run_workers, after_classify,
  after_read, settle, roll_back, cancel_lease, cancel_report, is_partial,
}
use gst_app.Prepare.Coordinator.Plan.{run_workers-KeepsPlans}
use gst_app.Prepare.Coordinator.Contract.{Quiet}
use gst_app.Prepare.Coordinator.Start.{read_phase-Ready, classify_phase-Ready}

-- The status that the report of a domain shows as the one before is what the reads of its file
-- gave, and the line was accepted.
abbrev pub IsRead : PrepareTarget → Answers → DomainReport → Type 0
IsRead t a r = t.active ≡ true → read_status a.before ≡ ok r.before

read_before-IsRead :
    (t : PrepareTarget) (a : Answers)
    → (read_before (start_domain t a)).report.error ≡ pos 0
    → IsRead t a (read_before (start_domain t a)).report
unfolding read_before start_domain
read_before-IsRead t a calm on = elim (Result-cases (read_status a.before)) [
  | inl (s, e) ↦ ground arith
  | inr (x, e) ↦ absurd (ground (arith, read_status-IsNegative a.before x e))
]

before-roll_back :
    (with_commit partial : Bool) (d : Domain)
    → (roll_back with_commit partial d).report.before ≡ d.report.before
unfolding roll_back cancel_lease cancel_report
before-roll_back with_commit partial d = ground arith

module _ (with_commit : Bool) (generation : ℕ) (t : Two PrepareTarget) (a : Two Answers) where
  -- Both reports show what the first phase has read.
  record Shown (p : Progress) (o : Outcome) : Type 0 where
    before0 : o.report.domain.csi0.before ≡ p.d0.report.before
    before1 : o.report.domain.csi1.before ≡ p.d1.report.before

  settle-Shown : (p : Progress) → Shown p (settle with_commit generation p)
  unfolding settle outcome
  settle-Shown p = elim (Bool-cases (is_neg p.first_error)) [
    | inl failed ↦ rw failed (record {
      before0 = before-roll_back with_commit (is_partial p) p.d0;
      before1 = before-roll_back with_commit (is_partial p) p.d1;
    })
    | inr calm ↦ rw calm (record { before0 = refl; before1 = refl })
  ]

  -- Either nothing is written, or every active domain was read.
  abbrev pub ReadOrQuiet : Outcome → Type 0
  ReadOrQuiet o =
      Quiet o.stores
      ⊎ (IsRead t.csi0 a.csi0 o.report.domain.csi0 × IsRead t.csi1 a.csi1 o.report.domain.csi1)

  abbrev pub start : Progress
  start = read_all with_commit generation t a

  shown-IsRead :
      (target : PrepareTarget) (answers : Answers) (r : DomainReport)
      → (read_before (start_domain target answers)).report.error ≡ pos 0
      → r.before ≡ (read_before (start_domain target answers)).report.before
      → IsRead target answers r
  shown-IsRead target answers r calm same on =
      read_before-IsRead target answers calm on ∙ ap ok (sym same)

  workers-ReadOrQuiet :
      start.first_error ≡ pos 0
      → ReadOrQuiet (
          settle with_commit generation (run_workers with_commit generation (classify_phase start)))
  unfolding read_phase classify_phase
  workers-ReadOrQuiet calm =
      let r = read_phase-Ready t a in
      let q : Progress = run_workers with_commit generation (classify_phase start) in
      let o : Outcome = settle with_commit generation q in
      let shown = settle-Shown q in
      let kept = run_workers-KeepsPlans with_commit generation (classify_phase start) in
      inr (
        shown-IsRead t.csi0 a.csi0 o.report.domain.csi0 (r.known0 calm)
            (shown.before0 ∙ kept.0.before ∙ before-classify_domain start.d0),
        shown-IsRead t.csi1 a.csi1 o.report.domain.csi1 (r.known1 calm)
            (shown.before1 ∙ kept.1.before ∙ before-classify_domain start.d1),
      )

  classified-ReadOrQuiet :
      start.first_error ≡ pos 0
      → ReadOrQuiet (after_classify with_commit generation (classify_phase start))
  unfolding after_classify outcome
  classified-ReadOrQuiet calm =
      let (r, _, _) = classify_phase-Ready t start (read_phase-Ready t a) calm in
      elim (Bool-cases (is_neg (classify_phase start).first_error)) [
        | inl failed ↦ rw failed (inl (r.untouched0.no_stores, r.untouched1.no_stores))
        | inr fine ↦ rw fine (workers-ReadOrQuiet calm)
      ]

  pub after_read-ReadOrQuiet : ReadOrQuiet (after_read with_commit generation start)
  unfolding after_read outcome
  after_read-ReadOrQuiet =
      let r = read_phase-Ready t a in
      elim (Bool-cases (all_missing start)) [
        | inl missing ↦
            let (_, _, s0, _) = mark_legacy_lem start.d0 in
            let (_, _, s1, _) = mark_legacy_lem start.d1 in
            rw missing (inl (s0 ∙ r.untouched0.no_stores, s1 ∙ r.untouched1.no_stores))
        | inr some_there ↦ elim (Bool-cases (is_neg start.first_error)) [
          | inl failed ↦
              rw (some_there, failed) (inl (r.untouched0.no_stores, r.untouched1.no_stores))
          | inr fine ↦
              rw (some_there, fine)
                (classified-ReadOrQuiet (not_negative with_commit generation t a _ r.nonpos fine))
        ]
      ]
