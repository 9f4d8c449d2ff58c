-- ===== src/Prepare/Coordinator/Cancel.antt =====
-- What the caller of `max9296_prepare_cancel_domain` can rely on.
use gst_app.Prelude.{
  ℕ, ◌+◌, ◌<◌, ◌≤◌, ◌≡◌, ◌≢◌, ℤ, pos, eqb_ℤ_iff, ap, ◌∙◌, IsNegative, true, false, arith, sym,
}
use gst_app.Prepare.Types.{DomainReport}
use gst_app.Prepare.Writes.{WriteAnswer, WriteResult, write_outcome, retry_write}
use gst_app.Prepare.Writes.Laws.{retry_write-Ends}
use gst_app.Prepare.Coordinator.{Io, valid_io, cancel_domain, release, cancel_length}

-- What `max9296_prepare_cancel_domain` does: it writes exactly where the index and the table are
-- valid and the report owns a lease and has no error; the ownership is given up exactly where the
-- last write took the whole command, and any other end of the writes is an error.
pub record Released (csi : ℕ) (io : Io) (d : DomainReport) (answers : ℕ → WriteAnswer)
    (r : ℤ × DomainReport × ℕ) : Type 0 where
  pub called :
      r.2 ≢ 0 → (csi < 2) × (valid_io io ≡ true) × (d.rollback_owned ≡ true) × (d.error ≡ pos 0)
  pub reached : csi < 2 → valid_io io ≡ true → d.rollback_owned ≡ true → d.error ≡ pos 0 → 0 < r.2
  pub bounded : r.2 ≤ 3
  pub taken :
      (last : ℕ)
      → last + 1 ≡ r.2
      → (answers last).result ≡ pos cancel_length
      → (r.0 ≡ pos 0) × (r.1.rollback_owned ≡ false)
  pub untaken :
      (last : ℕ)
      → last + 1 ≡ r.2
      → (answers last).result ≢ pos cancel_length
      → IsNegative r.0 × (r.1.rollback_owned ≡ true) × (r.1.rollback_error ≡ r.0)

-- The end of the writes that ran.
released_by :
    (w : WriteResult × ℕ) (d : DomainReport)
    → d.rollback_owned ≡ true
    → let r : ℤ × DomainReport × ℕ = release d w in
      (w.0.result ≡ pos cancel_length → (r.0 ≡ pos 0) × (r.1.rollback_owned ≡ false))
      × (w.0.result ≢ pos cancel_length
          → IsNegative r.0 × (r.1.rollback_owned ≡ true) × (r.1.rollback_error ≡ r.0))
unfolding release
released_by w d owned = (
  (λ e. ground (arith, (eqb_ℤ_iff w.0.result (pos cancel_length)).1)),
  (λ n. ground (arith, (eqb_ℤ_iff w.0.result (pos cancel_length)).0)),
)

release_calls : (d : DomainReport) (w : WriteResult × ℕ) → (release d w).2 ≡ w.1
unfolding release
release_calls d w = ground arith

-- The condition under which the writes run.
Sends : ℕ → Io → DomainReport → Type 0
Sends csi io d = (csi < 2) × (valid_io io ≡ true) × (d.rollback_owned ≡ true) × (d.error ≡ pos 0)

module _ (csi : ℕ) (io : Io) (d : DomainReport) (answers : ℕ → WriteAnswer) where
  abbrev writes : WriteResult × ℕ
  writes = retry_write io.write_file_with_commit cancel_length answers

  cancel_domain-called : (cancel_domain csi io d answers).2 ≢ 0 → Sends csi io d
  unfolding cancel_domain Sends
  cancel_domain-called h = ground arith

  cancel_domain-Sends : Sends csi io d → cancel_domain csi io d answers ≡ release d writes
  unfolding cancel_domain Sends
  cancel_domain-Sends h = ground arith

  cancel_domain-bounded : (cancel_domain csi io d answers).2 ≤ 3
  unfolding cancel_domain
  cancel_domain-bounded =
      let ends = retry_write-Ends io.write_file_with_commit cancel_length answers in
      let count = release_calls d writes in ground (arith, ends.bounded)

  cancel_domain-last :
      (last : ℕ)
      → last + 1 ≡ (cancel_domain csi io d answers).2
      → Sends csi io d × (writes.0.result ≡ (answers last).result)
  unfolding write_outcome
  cancel_domain-last last e =
      let ends = retry_write-Ends io.write_file_with_commit cancel_length answers in
      let s = cancel_domain-called (λ none_made. ground arith) in
      let count = release_calls d writes in
      (
        s,
        ap (λ x. x.result) (ends.outcome last (e ∙ ap (λ x. x.2) (cancel_domain-Sends s) ∙ count)),
      )

-- For every index, table, report and answers of the driver, `max9296_prepare_cancel_domain` writes,
-- gives up the ownership and fails as `Released` says.
pub cancel_domain-Released :
    (csi : ℕ) (io : Io) (d : DomainReport) (answers : ℕ → WriteAnswer)
    → Released csi io d answers (cancel_domain csi io d answers)
unfolding Sends
cancel_domain-Released csi io d answers =
    let ends = retry_write-Ends io.write_file_with_commit cancel_length answers in
    let count = release_calls d (writes csi io d answers) in
    let sends = cancel_domain-Sends csi io d answers in
    record {
      called = cancel_domain-called csi io d answers;
      reached = λ a b c e. rw (sends (a, b, c, e), count) ends.called;
      bounded = cancel_domain-bounded csi io d answers;
      taken = λ last e full.
          let (s, same) = cancel_domain-last csi io d answers last e in
          rw (sends s) ((released_by (writes csi io d answers) d s.2).0 (same ∙ full));
      untaken = λ last e lacking.
          let (s, same) = cancel_domain-last csi io d answers last e in
          rw (sends s)
            ((released_by (writes csi io d answers) d s.2).1 (λ full. lacking (sym same ∙ full)));
    }
