-- ===== src/Prepare/Coordinator.antt =====
-- `max9296_prepare_all` and `max9296_prepare_cancel_domain`: both domains through the phases of
-- `Transaction`, in the order of the source, with the error and failure flags they share.
pub mod Flags
pub mod Stages
pub mod Plan
pub mod Contract
pub mod Settle
pub mod Start
pub mod Ends
pub mod Promises
pub mod Cancel
pub mod Laws
pub mod Reads
use gst_app.Prelude.{
  ℕ, ◌+◌, ℤ, pos, is_neg, is_zero, eqb_ℤ, Bool, true, false, ◌&&◌, ◌||◌, not, Option, none, some,
  ◌==◌, ◌!=◌, if◌then◌else◌, ltb, leb,
}
use gst_app.Prelude.Errno.{einval, eio, estale}
use gst_app.Prepare.Types.{
  Two, PrepareInput, PrepareTarget, DomainReport, PrepareReport, Result, ok, err,
}
use gst_app.Prepare.Targets.{build_targets}
use gst_app.Prepare.Writes.{WriteAnswer, WriteResult, retry_write}
use gst_app.Prepare.Transaction.{
  Answers, Domain, blank_report, start_domain, remember_error, read_before, is_missing, mark_legacy,
  classify_domain, create_worker, first_join_error, join_worker, check_after,
}

-- Which functions the caller's table holds; without a table the default one holds all.
pub record Io : Type 0 where
  pub read_file : Bool
  pub write_file : Bool
  pub monotonic_ns : Bool
  pub sleep_ms : Bool
  pub thread_create : Bool
  pub thread_join : Bool
  pub write_file_with_commit : Bool

unfoldable pub valid_io : Io → Bool
valid_io io =
    io.read_file
    && (io.write_file || io.write_file_with_commit)
    && io.monotonic_ns
    && io.sleep_ms
    && io.thread_create
    && io.thread_join

abbrev pub prepare_ok : ℤ
prepare_ok = pos 0

abbrev pub prepare_legacy : ℤ
prepare_legacy = pos 1

abbrev pub prepare_partial : ℤ
prepare_partial = pos 2

-- Both domains, and the variables `first_error` and `global_failure`.
pub record Progress : Type 0 where
  pub d0 : Domain
  pub d1 : Domain
  pub first_error : ℤ
  pub global_failure : Bool

unfoldable pub read_phase : Domain → Domain → Progress
read_phase d0 d1 =
    let a = read_before d0 in
    let b = read_before d1 in
    record {
      d0 = a;
      d1 = b;
      first_error = remember_error b.report.error (remember_error a.report.error (pos 0));
      global_failure = false;
    }

abbrev count : Bool → ℕ
count true = 1
count false = 0

-- Every active domain lacks its prepare file, and there is one.
unfoldable pub all_missing : Progress → Bool
all_missing p =
    let active_count = count p.d0.target.active + count p.d1.target.active in
    let missing_count = count (is_missing p.d0) + count (is_missing p.d1) in
    active_count != 0 && missing_count == active_count

unfoldable pub classify_phase : Progress → Progress
classify_phase p =
    let a = classify_domain p.d0 in
    let b = classify_domain p.d1 in
    record p {
      d0 = a;
      d1 = b;
      first_error = remember_error b.report.error (remember_error a.report.error p.first_error);
    }

unfoldable pub create_phase : Bool → ℕ → Progress → Progress
create_phase with_commit generation p =
    let (a, stop0) = create_worker with_commit generation p.d0 in
    let (b, stop1) = create_worker with_commit generation p.d1 in
    if stop0
    then record p {
      d0 = a;
      first_error = remember_error a.report.error p.first_error;
      global_failure = true;
    }
    else if stop1
    then record p {
      d0 = a;
      d1 = b;
      first_error = remember_error b.report.error p.first_error;
      global_failure = true;
    }
    else record p { d0 = a; d1 = b }

-- The join error of a domain that has a worker.
abbrev join_error : Domain → ℤ
join_error d = if d.created then first_join_error d.answers.joins else pos 0

unfoldable pub join_phase : Progress → Progress
join_phase p =
    let (a, bad0) = join_worker p.d0 in
    let (b, bad1) = join_worker p.d1 in
    let joined =
      remember_error (join_error p.d1) (remember_error (join_error p.d0) p.first_error) in
    let seen0 = if a.target.active then remember_error a.report.error joined else joined in
    let seen1 = if b.target.active then remember_error b.report.error seen0 else seen0 in
    record p {
      d0 = a;
      d1 = b;
      first_error = seen1;
      global_failure = p.global_failure || bad0 || bad1;
    }

unfoldable pub check_phase : ℕ → Progress → Progress
check_phase generation p =
    let (a, bad0, e0) = check_after generation p.d0 in
    let (b, bad1, e1) = check_after generation p.d1 in
    record p {
      d0 = a;
      d1 = b;
      first_error = remember_error e1 (remember_error e0 p.first_error);
      global_failure = p.global_failure || bad0 || bad1;
    }

-- The domain takes part in the comparison of the epochs.
abbrev pub has_epoch : Domain → Bool
has_epoch d = d.target.active && not d.write_rejected && d.report.after.epoch != 0

abbrev pub stale_epoch : Domain → Domain
stale_epoch d =
    if is_zero d.report.error then record d { report = record (d.report) { error = estale } } else d

-- Both domains take part, and with different epochs.
abbrev pub epochs_differ : Progress → Bool
epochs_differ p =
    has_epoch p.d0 && has_epoch p.d1 && p.d1.report.after.epoch != p.d0.report.after.epoch

unfoldable pub epoch_phase : Progress → Progress
epoch_phase p =
    if epochs_differ p
    then record p {
      d1 = stale_epoch p.d1;
      first_error = remember_error estale p.first_error;
      global_failure = true;
    }
    else p

-- "0\n" is two bytes long.
abbrev pub cancel_length : ℕ
cancel_length = 2

cancel_report : WriteResult → DomainReport → DomainReport
cancel_report w report =
    if eqb_ℤ w.result (pos cancel_length)
    then report
    else record report { rollback_error = if is_neg w.result then w.result else eio }

-- The rollback of one domain.
unfoldable pub cancel_lease : Bool → Domain → Domain
unfolding cancel_report
cancel_lease with_commit d =
    let (w, calls) = retry_write with_commit cancel_length d.answers.cancel in
    record d { cancels = calls; report = cancel_report w d.report }

unfoldable pub roll_back : Bool → Bool → Domain → Domain
roll_back with_commit partial d =
    if not d.report.rollback_owned
    then d
    else if partial && not d.write_rejected
    then d
    else cancel_lease with_commit d

abbrev pub survives : Domain → Bool
survives d = d.target.active && is_zero d.report.error

-- What a call gives back, and the write calls it has made on each domain.
pub record Outcome : Type 0 where
  pub code : ℤ
  pub report : PrepareReport
  pub stores : Two ℕ
  pub cancels : Two ℕ

pub outcome : ℤ → ℤ → Bool → ℕ → Domain → Domain → Outcome
outcome code error legacy_fallback generation d0 d1 = record {
  code = code;
  report = record {
    legacy_fallback = legacy_fallback;
    generation = generation;
    error = error;
    domain = record { csi0 = d0.report; csi1 = d1.report };
  };
  stores = record { csi0 = d0.stores; csi1 = d1.stores };
  cancels = record { csi0 = d0.cancels; csi1 = d1.cancels };
}

unfoldable pub is_partial : Progress → Bool
is_partial p = not p.global_failure && count (survives p.d0) + count (survives p.d1) != 0

-- The end of the call.
unfoldable pub settle : Bool → ℕ → Progress → Outcome
unfolding outcome
settle with_commit generation p =
    if is_neg p.first_error
    then outcome (if is_partial p then prepare_partial else p.first_error) p.first_error false
        generation (roll_back with_commit (is_partial p) p.d0)
        (roll_back with_commit (is_partial p) p.d1)
    else outcome prepare_ok (pos 0) false generation p.d0 p.d1

-- The workers' part of the call.
unfoldable pub run_workers : Bool → ℕ → Progress → Progress
run_workers with_commit generation p =
    epoch_phase (check_phase generation (join_phase (create_phase with_commit generation p)))

after_classify : Bool → ℕ → Progress → Outcome
unfolding outcome
after_classify with_commit generation p =
    if is_neg p.first_error
    then outcome p.first_error p.first_error false generation p.d0 p.d1
    else settle with_commit generation (run_workers with_commit generation p)

unfoldable pub after_read : Bool → ℕ → Progress → Outcome
unfolding outcome after_classify
after_read with_commit generation p =
    if all_missing p
    then outcome prepare_legacy (pos 0) true generation (mark_legacy p.d0) (mark_legacy p.d1)
    else if is_neg p.first_error
    then outcome p.first_error p.first_error false generation p.d0 p.d1
    else after_classify with_commit generation (classify_phase p)

abbrev pub no_calls : Two ℕ
no_calls = record { csi0 = 0; csi1 = 0 }

-- `prior` is the caller's report before the call, which a refused call leaves alone.
unfoldable pub prepare_all : Option PrepareInput → PrepareReport → Io → Two Answers → Outcome
prepare_all none prior io answers = record {
  code = einval;
  report = prior;
  stores = no_calls;
  cancels = no_calls;
}
prepare_all (some input) prior io answers =
    if not (valid_io io)
    then record { code = einval; report = prior; stores = no_calls; cancels = no_calls }
    else elim (build_targets (some input)) [
      | err e ↦ record {
        code = e;
        report = record {
          legacy_fallback = false;
          generation = input.generation;
          error = e;
          domain = record { csi0 = blank_report; csi1 = blank_report };
        };
        stores = no_calls;
        cancels = no_calls;
      }
      | ok t ↦
          after_read io.write_file_with_commit input.generation
            (read_phase (start_domain t.csi0 answers.csi0) (start_domain t.csi1 answers.csi1))
    ]

-- The end of the cancelling writes.
unfoldable pub release : DomainReport → WriteResult × ℕ → ℤ × DomainReport × ℕ
release d (w, calls) =
    if eqb_ℤ w.result (pos cancel_length)
    then (pos 0, record d { rollback_owned = false }, calls)
    else let e = if is_neg w.result then w.result else eio in
      (e, record d { rollback_error = e }, calls)

-- `max9296_prepare_cancel_domain` on the report of its domain: the result, the report, and the
-- write calls made.
unfoldable pub cancel_domain : ℕ → Io → DomainReport → (ℕ → WriteAnswer) → ℤ × DomainReport × ℕ
unfolding release
cancel_domain csi io d answers =
    if leb 2 csi || not (valid_io io)
    then (einval, d, 0)
    else if not d.rollback_owned || not (is_zero d.error)
    then (pos 0, d, 0)
    else release d (retry_write io.write_file_with_commit cancel_length answers)
