-- ===== src/Prepare/Transaction.antt =====
-- `max9296_prepare_all` and `max9296_prepare_cancel_domain`, phase by phase. What the driver, the
-- clock and the threads answer is an argument, one `Answers` for each domain: the domains share no
-- file, and the coordinator looks at a worker's report only after the join.
pub mod Final
pub mod Stages
pub mod Before
pub mod Command
use gst_app.Prelude.{
  ℕ, zero, suc, ◌+◌, ◌-◌, ◌<◌, ℤ, pos, neg, negsuc, is_neg, is_pos, is_zero, neg_part, pos_part,
  eqb_ℤ, List, [], ◌∷◌, ◌++◌, length, Bool, true, false, ◌&&◌, ◌||◌, not, Option, none, some, codes,
  ltb, leb, ◌==◌, ◌!=◌, if◌then◌else◌,
}
use gst_app.Prelude.Errno.{enoent, eio, estale, eoverflow, einval}
use gst_app.Prepare.Types.{
  PrepareState, ready, consumed, PrepareAction, skipped, legacy, warm_reused, ready_refreshed,
  cold_prepared, action_failed, Disposition, warm, refresh_ready, new_prepare, fail, Two,
  PrepareInput, PrepareStatus, PrepareTarget, DomainReport, PrepareReport, Result, ok, err,
}
use gst_app.Prepare.Targets.{build_targets}
use gst_app.Prepare.Number.{decimal}
use gst_app.Prepare.Status.{zero_status}
use gst_app.Prepare.Classify.{classify, has_current_fingerprint, failed_disposition_error, is_state}
use gst_app.Prepare.Writes.{WriteAnswer, WriteResult, retry_write, ReadAnswer, read_status}

-- What the environment answers for one domain: the reads of the status file before and after, the
-- thread's creation, the clock around the store, the prepare store, the joins that fail before one
-- succeeds, and the cancelling store.
pub record Answers : Type 0 where
  pub before : ℕ → ReadAnswer
  pub create : ℤ
  pub started : ℕ
  pub finished : ℕ
  pub store : ℕ → WriteAnswer
  pub joins : List ℤ
  pub after : ℕ → ReadAnswer
  pub cancel : ℕ → WriteAnswer

-- One domain during the transaction: the arrays of `max9296_prepare_all` at its index, and the
-- number of write calls made for its prepare command and for its cancel command.
pub record Domain : Type 0 where
  pub target : PrepareTarget
  pub answers : Answers
  pub report : DomainReport
  pub disposition : Disposition
  pub created : Bool
  pub write_rejected : Bool
  pub stores : ℕ
  pub cancels : ℕ

abbrev pub blank_report : DomainReport
blank_report = record {
  active = false;
  rollback_owned = false;
  action = skipped;
  error = pos 0;
  rollback_error = pos 0;
  elapsed_ns = 0;
  before = zero_status;
  after = zero_status;
}

unfoldable pub start_domain : PrepareTarget → Answers → Domain
start_domain target answers = record {
  target = target;
  answers = answers;
  report = record blank_report { active = target.active };
  disposition = fail;
  created = false;
  write_rejected = false;
  stores = 0;
  cancels = 0;
}

unfoldable pub pthread_error : ℤ → ℤ
pthread_error (pos n) = neg n
pthread_error (negsuc n) = negsuc n

unfoldable pub remember_error : ℤ → ℤ → ℤ
remember_error error first_error =
    if is_neg error && is_zero first_error then error else first_error

-- The domain marked as failed with an error.
abbrev failed_with : ℤ → Domain → Domain
failed_with e d = record d { report = record (d.report) { error = e; action = action_failed } }

-- The status read before anything is written.
unfoldable pub read_before : Domain → Domain
read_before d =
    if d.target.active
    then elim (read_status d.answers.before) [
      | ok s ↦ record d { report = record (d.report) { before = s } }
      | err e ↦ failed_with e d
    ]
    else d

-- The domain's status file does not exist.
unfoldable pub is_missing : Domain → Bool
is_missing d = d.target.active && eqb_ℤ d.report.error enoent

-- The driver has no prepare file.
unfoldable pub mark_legacy : Domain → Domain
mark_legacy d =
    if d.target.active
    then record d { report = record (d.report) { action = legacy; error = pos 0 } }
    else d

refuse : Domain → Domain
refuse d = failed_with (failed_disposition_error d.report.before) d

decide : Domain → Disposition → Domain
unfolding refuse
decide d fail = refuse d
decide d warm = record d { disposition = warm; report = record (d.report) { action = warm_reused } }
decide d refresh_ready = record d { disposition = refresh_ready }
decide d new_prepare = record d { disposition = new_prepare }

-- The classification of the status read before.
unfoldable pub classify_domain : Domain → Domain
unfolding decide
classify_domain d =
    if d.target.active
    then elim (classify d.target d.report.before) [ ok p ↦ decide d p | err e ↦ failed_with e d ]
    else d

abbrev pub is_warm : Disposition → Bool
is_warm warm = true
is_warm refresh_ready = false
is_warm new_prepare = false
is_warm fail = false

abbrev pub is_refresh : Disposition → Bool
is_refresh refresh_ready = true
is_refresh warm = false
is_refresh new_prepare = false
is_refresh fail = false

-- "1 %llu %u %u %u %u\n".
unfoldable pub prepare_command : ℕ → PrepareTarget → List ℕ
prepare_command generation t =
    codes "1 "
    ++ (decimal generation
        ++ (b' '
            ∷ (decimal t.width
                ++ (b' '
                    ∷ (decimal t.height
                        ++ (b' ' ∷ (decimal t.fps ++ (b' ' ∷ (decimal t.enable ++ (10 ∷ []))))))))))

-- The end of the worker: its store's outcome in the domain's report.
unfoldable pub store_result : ℕ → Bool → WriteResult → DomainReport → DomainReport
store_result length preexisting w report =
    let owned = report.rollback_owned || (not preexisting && w.committed) in
    if not (eqb_ℤ w.result (pos length))
    then record report {
      rollback_owned = owned;
      error = if is_neg w.result then w.result else eio;
      action = action_failed;
    }
    else record report {
      rollback_owned = owned;
      action = if preexisting then ready_refreshed else cold_prepared;
    }

-- `prepare_worker_entry`, with `write_file_with_commit` there or not.
unfoldable pub prepare_worker : Bool → ℕ → Domain → Domain
prepare_worker with_commit generation d =
    let preexisting = is_refresh d.disposition in
    let request = if preexisting then d.report.before.generation else generation in
    let command = prepare_command request d.target in
    if leb 128 (length command)
    then failed_with eoverflow d
    else let (w, calls) = retry_write with_commit (length command) d.answers.store in
      let elapsed =
        if leb d.answers.started d.answers.finished
        then d.answers.finished - d.answers.started
        else 0 in
      record d {
        stores = calls;
        report =
            store_result (length command) preexisting w
              (record (d.report) { elapsed_ns = elapsed });
      }

-- One round of the loop that creates the workers; with true, the loop ends by `break`.
unfoldable pub create_worker : Bool → ℕ → Domain → Domain × Bool
create_worker with_commit generation d =
    if not d.target.active || is_warm d.disposition
    then (d, false)
    else if is_zero d.answers.create
    then (record (prepare_worker with_commit generation d) { created = true }, false)
    else (failed_with (pthread_error d.answers.create) d, true)

-- `join_error`: the first failure before the join that succeeds.
unfoldable pub first_join_error : List ℤ → ℤ
first_join_error [] = pos 0
first_join_error (result ∷ rest) = if is_zero result then pos 0 else pthread_error result

-- The join of one worker; with true, the failure is one of the whole transaction.
unfoldable pub join_worker : Domain → Domain × Bool
join_worker d =
    if not d.created
    then (d, false)
    else if not (is_zero (first_join_error d.answers.joins))
    then (
      (if is_zero d.report.error
          then record d { report = record (d.report) { error = first_join_error d.answers.joins } }
          else d),
      true,
    )
    else if is_neg d.report.error
    then (record d { write_rejected = true }, false)
    else (d, false)

expected_generation : Disposition → ℕ → PrepareStatus → ℕ
expected_generation new_prepare generation before = generation
expected_generation warm generation before = before.generation
expected_generation refresh_ready generation before = before.generation
expected_generation fail generation before = before.generation

unfoldable pub validate_final_status :
    PrepareTarget → PrepareStatus → PrepareStatus → Disposition → ℕ → ℤ
unfolding expected_generation
validate_final_status target before after disposition generation =
    let is_warm_domain = is_warm disposition in
    let expected = expected_generation disposition generation before in
    if not is_warm_domain && not (is_zero after.last_errno)
    then if is_neg after.last_errno then after.last_errno else eio
    else if is_warm_domain && not (is_state after.state consumed)
        || not is_warm_domain && not (is_state after.state ready)
        || after.generation != expected
        || after.epoch == 0
        || not (has_current_fingerprint target after)
        || not (is_zero after.worker_errno)
        || after.lease != (if is_warm_domain then 0 else 1)
        || after.match != 1
    then if not (is_zero after.worker_errno)
      then if is_neg after.worker_errno then after.worker_errno else eio
      else estale
    else pos 0

-- A failure seen in the final status: kept as the domain's error unless it has one.
note_failure : ℤ → Domain → Domain
note_failure e d =
    if is_zero d.report.error then record d { report = record (d.report) { error = e } } else d

-- The status read after the joins; with true, the failure is one of the whole transaction.
unfoldable pub check_after : ℕ → Domain → Domain × Bool × ℤ
unfolding note_failure
check_after generation d =
    if not d.target.active then (d, false, pos 0) else elim (read_status d.answers.after) [
      | err e ↦ (note_failure e d, true, e)
      | ok s ↦
          let d' : Domain = record d { report = record (d.report) { after = s } } in
          let result =
            if d.write_rejected
            then pos 0
            else validate_final_status d.target d.report.before s d.disposition generation in
          if is_neg result then (note_failure result d', true, result) else (d', false, pos 0)
    ]
