-- ===== src/Prepare/Coordinator/Contract.antt =====
-- The contract of `max9296_prepare_all`: what the caller can rely on for each kind of return code.
use gst_app.Prelude.{ℕ, ◌<◌, ◌≡◌, ◌≢◌, ◌⊎◌, pos, IsNegative, true, false}
use gst_app.Prelude.Errno.{enoent}
use gst_app.Prepare.Types.{Two, Disposition, fail, legacy, PrepareTarget, DomainReport, ok, err}
use gst_app.Prepare.Classify.{classify}
use gst_app.Prepare.Writes.{read_status}
use gst_app.Prepare.Transaction.{Answers}
use gst_app.Prepare.Transaction.Final.{IsSettled}
use gst_app.Prepare.Coordinator.{Outcome, prepare_legacy, prepare_ok, prepare_partial}

-- The decision that the status read before allows, which is not to refuse the domain.
pub record Allowed (t : PrepareTarget) (r : DomainReport) : Type 0 where
  pub disposition : Disposition
  pub classified : classify t r.before ≡ ok disposition
  pub allowed : disposition ≢ fail

-- A domain that was prepared: its plan was carried out and its final status is the one asked for.
pub record Prepared (generation : ℕ) (t : PrepareTarget) (r : DomainReport) : Type 0 where
  pub plan : Allowed t r
  pub no_error : r.error ≡ pos 0
  pub settled : IsSettled t r.before r.after plan.disposition generation

-- The driver of an active domain has no status file, and the report says so.
pub record Absent (t : PrepareTarget) (a : Answers) (r : DomainReport) : Type 0 where
  pub missing : t.active ≡ true → read_status a.before ≡ err enoent
  pub reported : t.active ≡ true → r.action ≡ legacy
  pub no_error : r.error ≡ pos 0

-- An owned lease is cancelled, and no other one is.
pub record Cancelled (r : DomainReport) (cancels : ℕ) : Type 0 where
  pub owned : r.rollback_owned ≡ true → 0 < cancels
  pub others : r.rollback_owned ≡ false → cancels ≡ 0

-- A domain of a partial result: not asked for, or prepared, or failed and cancelled.
pub data PartOf (generation : ℕ) (t : PrepareTarget) (r : DomainReport) (cancels : ℕ) : Type 0 where
  unasked : t.active ≡ false → cancels ≡ 0 → PartOf generation t r cancels
  prepared : t.active ≡ true → Prepared generation t r → cancels ≡ 0 → PartOf generation t r cancels
  dropped :
      t.active ≡ true
      → Allowed t r
      → IsNegative r.error
      → Cancelled r cancels
      → PartOf generation t r cancels

abbrev pub Quiet : Two ℕ → Type 0
Quiet calls = (calls.csi0 ≡ 0) × (calls.csi1 ≡ 0)

pub data Contract (generation : ℕ) (t : Two PrepareTarget) (a : Two Answers) (o : Outcome)
    : Type 0 where
  as_legacy :
      o.code ≡ prepare_legacy
      → Quiet o.stores
      → Quiet o.cancels
      → (t.csi0.active ≡ true) ⊎ (t.csi1.active ≡ true)
      → Absent t.csi0 a.csi0 o.report.domain.csi0
      → Absent t.csi1 a.csi1 o.report.domain.csi1
      → Contract generation t a o
  as_stopped :
      IsNegative o.code
      → o.report.error ≡ o.code
      → Quiet o.stores
      → Quiet o.cancels
      → (o.report.domain.csi0.rollback_owned ≡ false)
        × (o.report.domain.csi1.rollback_owned ≡ false)
      → Contract generation t a o
  as_ok :
      o.code ≡ prepare_ok
      → o.report.error ≡ pos 0
      → Quiet o.cancels
      → (t.csi0.active ≡ true → Prepared generation t.csi0 o.report.domain.csi0)
      → (t.csi1.active ≡ true → Prepared generation t.csi1 o.report.domain.csi1)
      → (t.csi0.active ≡ true
          → t.csi1.active ≡ true
          → o.report.domain.csi0.after.epoch ≡ o.report.domain.csi1.after.epoch)
      → Contract generation t a o
  as_partial :
      o.code ≡ prepare_partial
      → IsNegative o.report.error
      → PartOf generation t.csi0 o.report.domain.csi0 o.cancels.csi0
      → PartOf generation t.csi1 o.report.domain.csi1 o.cancels.csi1
      → ((t.csi0.active ≡ true) × Prepared generation t.csi0 o.report.domain.csi0)
        ⊎ ((t.csi1.active ≡ true) × Prepared generation t.csi1 o.report.domain.csi1)
      → Contract generation t a o
  as_failed :
      IsNegative o.code
      → o.report.error ≡ o.code
      → Cancelled o.report.domain.csi0 o.cancels.csi0
      → Cancelled o.report.domain.csi1 o.cancels.csi1
      → (t.csi0.active ≡ true → Allowed t.csi0 o.report.domain.csi0)
      → (t.csi1.active ≡ true → Allowed t.csi1 o.report.domain.csi1)
      → Contract generation t a o
