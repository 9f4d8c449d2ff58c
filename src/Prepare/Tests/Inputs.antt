-- ===== src/Prepare/Tests/Inputs.antt =====
-- Two cameras on the first domain, one on the second, and what their drivers answer.
use gst_app.Prelude.{ℕ, pos, List, [], ◌∷◌, length, true, false, codes}
use gst_app.Prepare.Types.{Two, PrepareInput, PrepareTarget, PrepareReport}
use gst_app.Prepare.Writes.{WriteAnswer, ReadAnswer}
use gst_app.Prepare.Transaction.{Answers, blank_report}
use gst_app.Prepare.Coordinator.{Io}

abbrev pub full_io : Io
full_io = record {
  read_file = true;
  write_file = true;
  monotonic_ns = true;
  sleep_ms = true;
  thread_create = true;
  thread_join = true;
  write_file_with_commit = true;
}

abbrev pub three_cameras : PrepareInput
three_cameras = record {
  width = 1280;
  height = 720;
  fps = record { csi0 = 30; csi1 = 30 };
  ch0 = 1;
  ch1 = 1;
  ch2 = 1;
  ch3 = 0;
  generation = 7;
}

abbrev pub target0 : PrepareTarget
target0 = record {
  active = true;
  csi = 0;
  path = codes "/sys/bus/i2c/devices/2-0048/prepare";
  width = 2560;
  height = 720;
  fps = 30;
  enable = 3;
  mode = codes "dual-wide";
  table = codes "dual";
}

abbrev pub target1 : PrepareTarget
target1 = record {
  active = true;
  csi = 1;
  path = codes "/sys/bus/i2c/devices/1-0048/prepare";
  width = 1280;
  height = 720;
  fps = 30;
  enable = 1;
  mode = codes "single";
  table = codes "left";
}

abbrev pub no_report : PrepareReport
no_report = record {
  legacy_fallback = false;
  generation = 0;
  error = pos 0;
  domain = record { csi0 = blank_report; csi1 = blank_report };
}

abbrev pub idle_line : List ℕ
idle_line =
    codes
      "state=IDLE generation=0 epoch=0 mode=none table=none width=0 height=0 fps=0 code=0 enable=0 errno=0 worker_errno=0 lease=0 match=0"

abbrev pub ready_line0 : List ℕ
ready_line0 =
    codes
      "state=READY generation=7 epoch=5 mode=dual-wide table=dual width=2560 height=720 fps=30 code=0x2006 enable=3 errno=0 worker_errno=0 lease=1 match=1"

abbrev pub ready_line1 : List ℕ
ready_line1 =
    codes
      "state=READY generation=7 epoch=5 mode=single table=left width=1280 height=720 fps=30 code=0x2006 enable=1 errno=0 worker_errno=0 lease=1 match=1"

-- Every read answers with the line.
abbrev pub reads : List ℕ → ℕ → ReadAnswer
reads line attempt = record { result = pos (length line); buffer = line }

-- Every write takes `n` bytes.
abbrev pub takes : ℕ → ℕ → WriteAnswer
takes n attempt = record { result = pos n; committed = true }

-- A domain that is idle before and answers `after` in the end.
abbrev pub answers_with : ℕ → List ℕ → Answers
answers_with taken after = record {
  before = reads idle_line;
  create = pos 0;
  started = 100;
  finished = 900;
  store = takes taken;
  joins = pos 0 ∷ [];
  after = reads after;
  cancel = takes 2;
}

abbrev pub good : Two Answers
good = record { csi0 = answers_with 18 ready_line0; csi1 = answers_with 18 ready_line1 }

-- The second domain does not reach its state.
abbrev pub half_ready : Two Answers
half_ready = record { csi0 = answers_with 18 ready_line0; csi1 = answers_with 18 idle_line }

abbrev pub targets : Two PrepareTarget
targets = record { csi0 = target0; csi1 = target1 }
