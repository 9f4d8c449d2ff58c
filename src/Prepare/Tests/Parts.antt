-- ===== src/Prepare/Tests/Parts.antt =====
-- The parts of the transaction at concrete inputs.
use gst_app.Prelude.{get_elem?}
use gst_app.Prelude.{
  ℕ, zero, suc, ◌+◌, ◌^◌, ◌<◌, ◌≡◌, ◌≢◌, ◌⊎◌, ◌↔◌, refl, pos, negsuc, true, false, some, List, [],
  ◌∷◌, codes, All, arith,
}
use gst_app.Prelude.Errno.{eagain}
use gst_app.Prepare.Types.{ready, consumed, PrepareStatus, ok, warm, refresh_ready, new_prepare}
use gst_app.Prepare.Targets.{build_targets, target_for, max_fps_for, prepare_path}
use gst_app.Prepare.Targets.Laws.{IsRequest, Asks, build_targets-Asks}
use gst_app.Prepare.Number.{is_space}
use gst_app.Prepare.Status.{Field, field_index, parse_status, status_field}
use gst_app.Prepare.Status.Fields.{IsStatus}
use gst_app.Prepare.Status.RoundTrip.{
  Entry, known, other, IsEntry, count, print_entries, parse_status-print,
}
use gst_app.Prepare.Status.Bounds.{Fits, parse_status-Fits}
use gst_app.Prepare.Classify.{classify}
use gst_app.Prepare.Classify.Laws.{Current, IsRestartable, classify_iff}
use gst_app.Prepare.Writes.{WriteAnswer}
use gst_app.Prepare.Generation.{Issued, exchange_loop, next_generation}
use gst_app.Prepare.Generation.Laws.{Fresh, exchange_loop-Fresh}
use gst_app.Prepare.Transaction.{validate_final_status}
use gst_app.Prepare.Transaction.Final.{IsSettled, validate_iff}
use gst_app.Prepare.Tests.Inputs.{three_cameras, targets, target0, target1}

abbrev ready_status : PrepareStatus
ready_status = record {
  state = ready;
  generation = 7;
  epoch = 5;
  mode = codes "dual-wide";
  table = codes "dual";
  width = 2560;
  height = 720;
  fps = 30;
  code = 0x2006;
  enable = 3;
  last_errno = pos 0;
  worker_errno = negsuc 4;
  lease = 1;
  match = 1;
}

-- The driver's order reversed, with a key that the parser does not know.
abbrev entries : List Entry
entries =
    known Field.match
    ∷ known Field.lease
    ∷ known Field.worker_errno
    ∷ known Field.errno
    ∷ other (codes "debug") (codes "on")
    ∷ known Field.enable
    ∷ known Field.code
    ∷ known Field.fps
    ∷ known Field.height
    ∷ known Field.width
    ∷ known Field.table
    ∷ known Field.mode
    ∷ known Field.epoch
    ∷ known Field.generation
    ∷ known Field.state
    ∷ []

every_once : (f : Field) → count f entries ≡ 1
unfolding field_index
every_once Field.state = refl
every_once _ = refl

ready_IsStatus : IsStatus ready_status
unfolding is_space
ready_IsStatus = record {
  generation = omega arith;
  epoch = omega arith;
  mode = ground arith;
  table = ground arith;
  width = omega arith;
  height = omega arith;
  fps = omega arith;
  code = omega arith;
  enable = omega arith;
  last_errno = ground arith;
  worker_errno = ground arith;
  lease = omega arith;
  match = omega arith;
}

entries-IsEntry : All IsEntry entries
unfolding is_space status_field
entries-IsEntry = ground arith

parse_status-print_example : parse_status (print_entries ready_status entries) ≡ some ready_status
parse_status-print_example =
    parse_status-print ready_status entries ready_IsStatus entries-IsEntry every_once

parse_status-Fits_example : Fits ready_status Field.lease
parse_status-Fits_example =
    parse_status-Fits (print_entries ready_status entries) ready_status parse_status-print_example
      Field.lease

classify_iff_example :
    ((classify target0 ready_status ≡ ok warm)
      ↔ ((ready ≡ consumed) × (ready_status.lease ≡ 0) × Current target0 ready_status))
    × ((classify target0 ready_status ≡ ok refresh_ready)
        ↔ ((ready ≡ ready) × (ready_status.lease ≢ 0) × Current target0 ready_status))
    × ((classify target0 ready_status ≡ ok new_prepare) ↔ (
        (ready_status.lease ≡ 0)
        × (negsuc 4 ≡ pos 0)
        × (IsRestartable ready ⊎ (ready ≡ consumed) × ¬ Current target0 ready_status)))
classify_iff_example = classify_iff target0 ready_status

is_built : build_targets (some three_cameras) ≡ ok targets
unfolding build_targets target_for max_fps_for prepare_path
is_built = refl

build_targets-Asks_example :
    (limit : ℕ) × IsRequest three_cameras limit
    × Asks three_cameras 1 1 30 target0
    × Asks three_cameras 1 0 30 target1
build_targets-Asks_example = build_targets-Asks three_cameras targets is_built

-- The driver is busy twice.
abbrev busy_twice : ℕ → WriteAnswer
busy_twice zero = record { result = eagain; committed = false }
busy_twice (suc zero) = record { result = eagain; committed = false }
busy_twice (suc (suc n)) = record { result = pos 2; committed = true }

validate_iff_example :
    (validate_final_status target0 ready_status ready_status refresh_ready 7 ≡ pos 0)
    ↔ IsSettled target0 ready_status ready_status refresh_ready 7
validate_iff_example = validate_iff target0 ready_status ready_status refresh_ready 7

-- Another thread's number comes in between.
abbrev counter : List ℕ
counter = 9 ∷ 9 ∷ []

abbrev next_issued : Issued
next_issued = record { failed = 1; stored = 10; returned = 10 }

issued : exchange_loop 4 5 counter ≡ some next_issued
unfolding exchange_loop next_generation
issued = refl

exchange_loop-Fresh_example :
    (next_issued.returned ≢ 0)
    × ((v : ℕ) × (get_elem? counter next_issued.failed ≡ some v)
        × (v + 1 < 2 ^ 64 → Fresh v next_issued))
    × ((j : Issued) × (exchange_loop 4 5 (7 ∷ (7 ∷ [])) ≡ some j))
exchange_loop-Fresh_example = exchange_loop-Fresh 4 5 7 counter [] next_issued (omega arith) issued
