-- ===== src/Prepare/Coordinator/Start.antt =====
-- The phases before the workers: both domains are read and classified, and nothing is written.
use gst_app.Prelude.{◌≡◌, ◌⊎◌, refl, ◌∙◌, ℤ, pos, true, false, arith}
use gst_app.Prepare.Types.{Two, PrepareTarget}
use gst_app.Prepare.Transaction.{
  Domain, Answers, start_domain, remember_error, read_before, is_missing, mark_legacy,
}
use gst_app.Prepare.Transaction.Before.{
  read_before-target, classify_domain-target, is_missing-read, mark_legacy_lem,
}
use gst_app.Prepare.Transaction.Stages.{
  Untouched, start-Untouched, read_before-Untouched, Planned, classify_domain-Planned, NonPositive,
}
use gst_app.Prepare.Coordinator.{Progress, read_phase, all_missing, classify_phase}
use gst_app.Prepare.Coordinator.Contract.{Absent}

-- Domains whose status was read, or classified, with the errors remembered.
pub record Ready (t : Two PrepareTarget) (p : Progress) : Type 0 where
  pub nonpos : NonPositive p.first_error
  pub known0 : p.first_error ≡ pos 0 → p.d0.report.error ≡ pos 0
  pub known1 : p.first_error ≡ pos 0 → p.d1.report.error ≡ pos 0
  pub calm : p.global_failure ≡ false
  pub target0 : p.d0.target ≡ t.csi0
  pub target1 : p.d1.target ≡ t.csi1
  pub untouched0 : Untouched p.d0
  pub untouched1 : Untouched p.d1

pub remember_two :
    (a b f : ℤ)
    → NonPositive a
    → NonPositive b
    → f ≡ pos 0
    → NonPositive (remember_error b (remember_error a f))
      × (remember_error b (remember_error a f) ≡ pos 0 → (a ≡ pos 0) × (b ≡ pos 0))
unfolding remember_error
remember_two a b f ha hb hf = (ground arith, ground arith)

pub read_target : (t : PrepareTarget) (a : Answers) → (read_before (start_domain t a)).target ≡ t
unfolding start_domain
read_target t a = read_before-target (start_domain t a)

pub read_phase-Ready :
    (t : Two PrepareTarget) (a : Two Answers)
    → Ready t (read_phase (start_domain t.csi0 a.csi0) (start_domain t.csi1 a.csi1))
unfolding read_phase
read_phase-Ready t a =
    let u0 = read_before-Untouched _ (start-Untouched t.csi0 a.csi0) in
    let u1 = read_before-Untouched _ (start-Untouched t.csi1 a.csi1) in
    let r = remember_two _ _ (pos 0) u0.nonpos u1.nonpos refl in
    record {
      nonpos = r.0;
      known0 = λ h. (r.1 h).0;
      known1 = λ h. (r.1 h).1;
      calm = refl;
      target0 = read_target t.csi0 a.csi0;
      target1 = read_target t.csi1 a.csi1;
      untouched0 = u0;
      untouched1 = u1;
    }

pub all_missing_lem :
    (p : Progress)
    → all_missing p ≡ true
    → ((p.d0.target.active ≡ true) ⊎ (p.d1.target.active ≡ true))
      × (p.d0.target.active ≡ true → is_missing p.d0 ≡ true)
      × (p.d1.target.active ≡ true → is_missing p.d1 ≡ true)
unfolding all_missing is_missing
all_missing_lem p h = (ground arith, ground arith, ground arith)

-- A domain whose file is missing ends as a legacy one, without a write.
pub legacy_domain :
    (t : PrepareTarget) (a : Answers)
    → let d : Domain = read_before (start_domain t a) in
      (d.target.active ≡ true → is_missing d ≡ true)
      → Absent t a (mark_legacy d).report
        × ((mark_legacy d).stores ≡ 0)
        × ((mark_legacy d).cancels ≡ 0)
unfolding start_domain
legacy_domain t a missing =
    let d : Domain = read_before (start_domain t a) in
    let u = read_before-Untouched _ (start-Untouched t a) in
    let (action, error, stores, cancels) = mark_legacy_lem d in
    let same = read_before-target (start_domain t a) in
    (
      record {
        missing = λ on. is_missing-read (start_domain t a) refl (missing (rw same on));
        reported = λ on. action (rw same on);
        no_error = error u.off;
      },
      stores ∙ u.no_stores,
      cancels ∙ u.no_cancels,
    )

pub classify_phase-Ready :
    (t : Two PrepareTarget) (p : Progress)
    → Ready t p
    → p.first_error ≡ pos 0
    → Ready t (classify_phase p) × Planned (classify_phase p).d0 × Planned (classify_phase p).d1
unfolding classify_phase
classify_phase-Ready t p r calm =
    let p0 = classify_domain-Planned p.d0 r.untouched0 (r.known0 calm) in
    let p1 = classify_domain-Planned p.d1 r.untouched1 (r.known1 calm) in
    let two = remember_two _ _ p.first_error p0.untouched.nonpos p1.untouched.nonpos calm in
    (
      record {
        nonpos = two.0;
        known0 = λ h. (two.1 h).0;
        known1 = λ h. (two.1 h).1;
        calm = r.calm;
        target0 = classify_domain-target p.d0 ∙ r.target0;
        target1 = classify_domain-target p.d1 ∙ r.target1;
        untouched0 = p0.untouched;
        untouched1 = p1.untouched;
      },
      p0,
      p1,
    )
