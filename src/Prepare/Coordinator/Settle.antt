-- ===== src/Prepare/Coordinator/Settle.antt =====
-- The end of the transaction, one domain at a time: what is prepared, and what is cancelled.
use gst_app.Prelude.{ℕ, ◌≡◌, ◌≢◌, inl, inr, refl, pos, Bool, true, false, Bool-cases, arith}
use gst_app.Prepare.Types.{PrepareTarget, DomainReport, ok, fail}
use gst_app.Prepare.Classify.{classify}
use gst_app.Prepare.Transaction.{Domain}
use gst_app.Prepare.Transaction.Stages.{Planned, SamePlan, Checked}
use gst_app.Prepare.Writes.Laws.{retry_write-Ends}
use gst_app.Prepare.Coordinator.{
  cancel_lease, cancel_length, cancel_report, roll_back, survives, has_epoch,
}
use gst_app.Prepare.Coordinator.Contract.{
  Allowed, Prepared, Cancelled, PartOf, unasked, prepared, dropped,
}

-- A domain at the end, whose plan is that of a classified domain for the target `t`.
pub record Kept (t : PrepareTarget) (e : Domain) : Type 0 where
  pub target : e.target ≡ t
  pub classified : t.active ≡ true → classify t e.report.before ≡ ok e.disposition
  pub allowed : t.active ≡ true → e.disposition ≢ fail

pub Kept-plan : (d e : Domain) → Planned d → d.report.error ≡ pos 0 → SamePlan d e → Kept d.target e
Kept-plan d e p calm same = record {
  target = same.target;
  classified = λ on. rw (same.before, same.disposition) (p.plan on calm).0;
  allowed = λ on. rw same.disposition (p.plan on calm).1;
}

pub Kept-Allowed :
    (t : PrepareTarget) (e : Domain) → Kept t e → t.active ≡ true → Allowed t e.report
Kept-Allowed t e k on = record {
  disposition = e.disposition;
  classified = k.classified on;
  allowed = k.allowed on;
}

-- Without a failure of the whole transaction, an active domain without an error is prepared.
pub Checked-Prepared :
    (generation : ℕ) (t : PrepareTarget) (e : Domain)
    → Kept t e
    → Checked generation e false
    → e.report.error ≡ pos 0
    → t.active ≡ true
    → Prepared generation t e.report
Checked-Prepared generation t e k c calm on = elim (c.settled refl (rw k.target on)) [
  | inl rejected ↦ absurd (ground (arith, c.joined.rejected rejected))
  | inr (e0, settled) ↦ record {
    plan = record {
      disposition = e.disposition;
      classified = k.classified on;
      allowed = k.allowed on;
    };
    no_error = calm;
    settled = rw k.target at settled;
  }
]

-- The rollback changes nothing of a report but `rollback_error`.
pub record SameOutcome (r s : DomainReport) : Type 0 where
  pub error : s.error ≡ r.error
  pub owned : s.rollback_owned ≡ r.rollback_owned
  pub before : s.before ≡ r.before
  pub after : s.after ≡ r.after

roll_back-SameOutcome :
    (with_commit partial : Bool) (d : Domain)
    → SameOutcome d.report (roll_back with_commit partial d).report
unfolding roll_back cancel_lease cancel_report
roll_back-SameOutcome with_commit partial d = ground arith

pub roll_back-Allowed :
    (with_commit partial : Bool) (t : PrepareTarget) (d : Domain)
    → Allowed t d.report
    → Allowed t (roll_back with_commit partial d).report
roll_back-Allowed with_commit partial t d a = record {
  disposition = a.disposition;
  classified = rw (roll_back-SameOutcome with_commit partial d).before a.classified;
  allowed = a.allowed;
}

-- A rollback cancels what the domain owns, unless the transaction keeps the domain.
pub roll_back-Cancelled :
    (with_commit partial : Bool) (d : Domain)
    → d.cancels ≡ 0
    → (partial ≡ true → d.write_rejected ≡ true)
    → Cancelled (roll_back with_commit partial d).report (roll_back with_commit partial d).cancels
unfolding roll_back cancel_lease cancel_report
roll_back-Cancelled with_commit partial d calm all =
    let ends = retry_write-Ends with_commit cancel_length d.answers.cancel in
    record { owned = ground (arith, ends.called); others = ground arith }

-- A domain that no refused store stopped is kept by a partial result.
pub roll_back-kept :
    (with_commit : Bool) (d : Domain) → d.write_rejected ≡ false → roll_back with_commit true d ≡ d
unfolding roll_back
roll_back-kept with_commit d kept = ground arith

roll_back-unasked :
    (with_commit : Bool) (d : Domain)
    → d.report.rollback_owned ≡ false
    → roll_back with_commit true d ≡ d
unfolding roll_back
roll_back-unasked with_commit d kept = ground arith

-- A domain of a partial result after the rollback.
pub roll_back-PartOf :
    (with_commit : Bool) (generation : ℕ) (t : PrepareTarget) (e : Domain)
    → Kept t e
    → Checked generation e false
    → PartOf generation t
        (roll_back with_commit true e).report
        (roll_back with_commit true e).cancels
roll_back-PartOf with_commit generation t e k c = elim (Bool-cases t.active) [
  | inr off ↦
      let off' : e.target.active ≡ false = rw k.target off in
      let unowned : e.report.rollback_owned ≡ false = ground (arith, c.joined.owner) in
      rw (roll_back-unasked with_commit e unowned) (unasked off c.joined.no_cancels)
  | inl on ↦ elim c.joined.nonpos [
    | inl calm ↦
        let kept : e.write_rejected ≡ false = ground (arith, c.joined.rejected) in
        rw (roll_back-kept with_commit e kept)
          (prepared on (Checked-Prepared generation t e k c calm on) c.joined.no_cancels)
    | inr negative ↦
        dropped on (roll_back-Allowed with_commit true t e (Kept-Allowed t e k on))
          (rw (roll_back-SameOutcome with_commit true e).error negative)
          (roll_back-Cancelled with_commit true e c.joined.no_cancels
            (λ h. ground (arith, c.joined.reported negative)))
  ]
]

-- A domain that survives a partial result is prepared, and keeps its report.
pub survives-Prepared :
    (with_commit : Bool) (generation : ℕ) (t : PrepareTarget) (e : Domain)
    → Kept t e
    → Checked generation e false
    → survives e ≡ true
    → (t.active ≡ true) × Prepared generation t (roll_back with_commit true e).report
survives-Prepared with_commit generation t e k c h =
    let calm : e.report.error ≡ pos 0 = ground arith in
    let on : e.target.active ≡ true = ground arith in
    let kept : e.write_rejected ≡ false = ground (arith, c.joined.rejected) in
    let on' : t.active ≡ true = rw k.target at on in
    (on', rw (roll_back-kept with_commit e kept) (Checked-Prepared generation t e k c calm on'))

-- An active domain that is checked and without an error takes part in the comparison of epochs.
pub calm-has_epoch :
    (generation : ℕ) (e : Domain)
    → Checked generation e false
    → e.report.error ≡ pos 0
    → e.target.active ≡ true
    → has_epoch e ≡ true
calm-has_epoch generation e c calm on =
    let kept : e.write_rejected ≡ false = ground (arith, c.joined.rejected) in
    elim (c.settled refl on) [
      | inl rejected ↦ absurd (ground arith)
      | inr (e0, settled) ↦ let known = settled.epoch in ground arith
    ]
