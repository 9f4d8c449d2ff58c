-- ===== src/Prepare/Transaction/Before.antt =====
-- The two phases before the workers: what they keep, and when a status file counts as missing.
use gst_app.Prelude.{◌≡◌, inl, inr, pos, eqb_ℤ_iff, true, false, arith}
use gst_app.Prelude.Errno.{enoent}
use gst_app.Prepare.Types.{Result-cases, err, legacy}
use gst_app.Prepare.Writes.{read_status}
use gst_app.Prepare.Transaction.{
  Domain, read_before, classify_domain, decide, refuse, is_missing, mark_legacy,
}

pub read_before-target : (d : Domain) → (read_before d).target ≡ d.target
unfolding read_before
read_before-target d = ground arith

pub classify_domain-target : (d : Domain) → (classify_domain d).target ≡ d.target
unfolding classify_domain decide refuse
classify_domain-target d = ground arith

-- Only the read itself makes a domain count as missing.
pub is_missing-read :
    (d : Domain)
    → d.report.error ≡ pos 0
    → is_missing (read_before d) ≡ true
    → read_status d.answers.before ≡ err enoent
unfolding read_before is_missing
is_missing-read d calm h = elim (Result-cases (read_status d.answers.before)) [
  | inl (s, e) ↦ absurd (ground arith)
  | inr (x, e) ↦ ground (arith, (eqb_ℤ_iff x enoent).0)
]

pub mark_legacy_lem :
    (d : Domain)
    → (d.target.active ≡ true → (mark_legacy d).report.action ≡ legacy)
      × ((d.target.active ≡ false → d.report.error ≡ pos 0) → (mark_legacy d).report.error ≡ pos 0)
      × ((mark_legacy d).stores ≡ d.stores)
      × ((mark_legacy d).cancels ≡ d.cancels)
unfolding mark_legacy
mark_legacy_lem d = (ground arith, ground arith, ground arith, ground arith)

pub before-classify_domain : (d : Domain) → (classify_domain d).report.before ≡ d.report.before
unfolding classify_domain decide refuse
before-classify_domain d = ground arith
