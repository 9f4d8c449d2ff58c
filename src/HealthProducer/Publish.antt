-- ===== src/HealthProducer/Publish.antt =====
-- The end of `publish`: the document is written beside the published one, and replaces it at last.
use gst_app.Prelude.{ℕ, suc, ◌/◌, Bool, true, false, not, List, Option, none, some, if◌then◌else◌}
use gst_app.HealthProducer.{
  Health, Status, Observation, Statvfs, storage_fault, observe_all, top_status,
}

-- Which of the file operations succeed.
pub record FileAnswers : Type 0 where
  pub opens : Bool
  pub writes : Bool
  pub flushes : Bool
  pub closes : Bool
  pub chmods : Bool
  pub renames : Bool

pub data FailedAt : Type 0 where
  at_open at_write at_flush at_close at_chmod at_rename : FailedAt

-- The outcome: where it failed, and whether `rename` and `unlink` were called.
pub record Written : Type 0 where
  pub failed_at : Option FailedAt
  pub rename_called : Bool
  pub unlink_called : Bool

unfoldable pub write_step : FileAnswers → Option FailedAt
write_step a = if not a.writes then some at_write else if not a.flushes then some at_flush else none

abbrev pub or_close : FileAnswers → Option FailedAt → Option FailedAt
or_close a (some at) = some at
or_close a none = if not a.closes then some at_close else none

abbrev pub finish_file : FileAnswers → Option FailedAt → Written
finish_file a (some at) = record {
  failed_at = some at;
  rename_called = false;
  unlink_called = true;
}
finish_file a none =
    if not a.chmods
    then record { failed_at = some at_chmod; rename_called = false; unlink_called = true }
    else if not a.renames
    then record { failed_at = some at_rename; rename_called = true; unlink_called = true }
    else record { failed_at = none; rename_called = true; unlink_called = false }

unfoldable pub write_file : FileAnswers → Written
write_file a =
    if not a.opens
    then record { failed_at = some at_open; rename_called = false; unlink_called = false }
    else finish_file a (or_close a (write_step a))

pub data Logged : Type 0 where
  log_failed log_recovered : Logged

-- The flag of a failed publication after the call, and the line that is logged.
abbrev pub note_outcome : Option FailedAt → Bool → Bool × Option Logged
note_outcome (some at) failed_before =
    if not failed_before then (true, some log_failed) else (failed_before, none)
note_outcome none failed_before =
    if failed_before then (false, some log_recovered) else (failed_before, none)

pub record Document : Type 0 where
  pub sequence : ℕ
  pub observed_monotonic_ms : ℕ
  pub observations : List Observation
  pub status : Status

-- What one call of `publish` sees.
pub record Surroundings : Type 0 where
  pub now_us : ℕ
  pub record_dir : List ℕ
  pub storage : Option Statvfs
  pub q_in : ℕ → ℕ
  pub files : FileAnswers

pub record Published : Type 0 where
  pub health : Health
  pub document : Document
  pub written : Written
  pub logged : Option Logged

unfoldable pub publish : Surroundings → Health → Published
publish s h =
    let rounds =
      observe_all h s.now_us s.record_dir (storage_fault s.storage) s.q_in 0 h.channels
        (record { any_fail = false; any_starting = false }) in
    let written = write_file s.files in
    let (failed, logged) = note_outcome written.failed_at h.publish_failed in
    record {
      health = record h {
        channels = rounds.channels;
        sequence = suc h.sequence;
        publish_failed = failed;
      };
      document = record {
        sequence = suc h.sequence;
        observed_monotonic_ms = s.now_us / 1000;
        observations = rounds.observations;
        status = top_status rounds.flags;
      };
      written = written;
      logged = logged;
    }
