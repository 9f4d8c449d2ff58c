-- ===== src/Prepare/Tests/Coordinator.antt =====
-- The transaction at concrete inputs.
use gst_app.Prelude.{◌≡◌, refl, true, some, ap, is_neg}
use gst_app.Prelude.Errno.{estale}
use gst_app.Prepare.Transaction.{blank_report}
use gst_app.Prepare.Types.{DomainReport, ok}
use gst_app.Prepare.Targets.{build_targets, target_for, max_fps_for, prepare_path}
use gst_app.Prepare.Coordinator.{valid_io, Outcome, prepare_all, prepare_ok, cancel_domain}
use gst_app.Prepare.Coordinator.Contract.{Contract, Prepared, Cancelled, Quiet}
use gst_app.Prepare.Coordinator.Promises.{
  prepare_all-Contract, prepare_all-ok, prepare_all-rollback,
}
use gst_app.Prepare.Coordinator.Cancel.{Released, cancel_domain-Released}
use gst_app.Prepare.Tests.Inputs.{
  full_io, three_cameras, no_report, good, half_ready, targets, takes, target0, target1,
}
use gst_app.Prepare.Coordinator.{
  after_read, all_missing, read_phase, cancel_lease, check_phase, classify_phase, create_phase,
  epoch_phase, is_partial, join_phase, roll_back, run_workers, settle,
}
use gst_app.Prepare.Transaction.{
  read_before, start_domain, check_after, classify_domain, create_worker, first_join_error,
  is_missing, join_worker, mark_legacy, prepare_command, prepare_worker, pthread_error,
  remember_error, store_result, validate_final_status,
}
use gst_app.Prepare.Writes.{read_status, retry_write, write_outcome}
use gst_app.Prepare.Status.{
  parse_status, parse_tokens, tokens, parse_token, split_key, status_field, copy_token, field_index,
  finish, flush, mark, parse_state, scan, store_field, take_entry, take_field,
}
use gst_app.Prepare.Number.{
  is_space, all_chars, decimal, digits_value, is_digit, parse_int, parse_uint32, parse_unsigned,
  print_digits,
}
use gst_app.Prepare.Classify.{classify, failed_disposition_error, has_current_fingerprint, c_string}

is_full : valid_io full_io ≡ true
unfolding valid_io
is_full = refl

is_built : build_targets (some three_cameras) ≡ ok targets
unfolding build_targets target_for max_fps_for prepare_path
is_built = refl

abbrev prepared_all : Outcome
prepared_all = prepare_all (some three_cameras) no_report full_io good

abbrev failed_all : Outcome
failed_all = prepare_all (some three_cameras) no_report full_io half_ready

prepare_all-Contract_example : Contract 7 targets good prepared_all
prepare_all-Contract_example =
    prepare_all-Contract three_cameras no_report full_io good targets is_full is_built

-- The whole transaction runs: it succeeds with three ready cameras, and fails with the driver's
-- missing state otherwise.
outcomes :
    (prepared_all.code ≡ prepare_ok)
    × (prepared_all.stores.csi0 ≡ 1)
    × (failed_all.code ≡ estale)
    × (failed_all.cancels.csi1 ≡ 1)
unfolding c_string has_current_fingerprint valid_io build_targets target_for max_fps_for
    prepare_path prepare_all after_read all_missing read_phase read_before start_domain read_status
    parse_status parse_tokens tokens is_space parse_token split_key status_field classify
    failed_disposition_error cancel_lease check_phase classify_phase create_phase epoch_phase
    is_partial join_phase roll_back run_workers settle all_chars decimal digits_value is_digit
    parse_int parse_uint32 parse_unsigned print_digits copy_token field_index finish flush mark
    parse_state scan store_field take_entry take_field check_after classify_domain create_worker
    first_join_error is_missing join_worker mark_legacy prepare_command prepare_worker pthread_error
    remember_error store_result validate_final_status retry_write write_outcome
outcomes = (refl, refl, refl, refl)

prepare_all-ok_example :
    (true ≡ true → Prepared 7 target0 prepared_all.report.domain.csi0)
    × (true ≡ true → Prepared 7 target1 prepared_all.report.domain.csi1)
    × (true ≡ true
        → true ≡ true
        → prepared_all.report.domain.csi0.after.epoch ≡ prepared_all.report.domain.csi1.after.epoch)
    × Quiet prepared_all.cancels
prepare_all-ok_example =
    prepare_all-ok three_cameras no_report full_io good targets is_full is_built outcomes.0

prepare_all-rollback_example :
    Cancelled failed_all.report.domain.csi0 failed_all.cancels.csi0
    × Cancelled failed_all.report.domain.csi1 failed_all.cancels.csi1
prepare_all-rollback_example =
    prepare_all-rollback three_cameras no_report full_io half_ready targets is_full is_built
      (ap is_neg outcomes.2)

-- A report that owns a lease and has no error.
abbrev owner : DomainReport
owner = record blank_report { rollback_owned = true }

cancel_domain-Released_example :
    Released 1 full_io owner (takes 2) (cancel_domain 1 full_io owner (takes 2))
cancel_domain-Released_example = cancel_domain-Released 1 full_io owner (takes 2)
