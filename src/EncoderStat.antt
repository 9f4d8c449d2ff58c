-- ===== src/EncoderStat.antt =====
-- encoderStat.cpp: the counters and the two maxima of an encoder, which several threads update.
pub mod Raise
pub mod Counts
pub mod Settled
pub mod Laws
mod Tests
use gst_app.Prelude.{
  ℕ, zero, suc, get_or, ◌++◌, ◌+◌, ◌%◌, ◌^◌, ℤ, pos, ltb_ℤ, eqb_ℤ, Bool, true, false, ◌&&◌, not,
  List, [], ◌∷◌, ltb, ◌==◌, if◌then◌else◌,
}

-- The atomics of `EncoderTelemetry`, and what a snapshot holds of them.
pub record EncoderTelemetry : Type 0 where
  pub q_in : ℕ
  pub q_out : ℕ
  pub enc_out : ℕ
  pub overrun : ℕ
  pub lvl_buf_max : ℕ
  pub enc_gap_max_us : ℤ

abbrev pub fresh : EncoderTelemetry
fresh = record {
  q_in = 0;
  q_out = 0;
  enc_out = 0;
  overrun = 0;
  lvl_buf_max = 0;
  enc_gap_max_us = pos 0;
}

abbrev pub next_count : ℕ → ℕ
next_count n = (n + 1) % 2 ^ 64

-- Where a call stands in the loop that raises a maximum: before it loads it, before its
-- compare-exchange of the value that it has loaded last, or at its end. The first field is the
-- value that the call was given.
pub data Stage {ℓ} (A : Type ℓ) : Type ℓ where
  load : A → Stage A
  exchange : A → A → Stage A
  ended : A → Stage A

module _ {ℓ} {A : Type ℓ} (less same : A → A → Bool) where
  -- The condition of the loop up to the exchange, at the maximum that the call has loaded.
  unfoldable pub enter : A → A → Stage A
  enter value maximum = if less maximum value then exchange value maximum else ended value

  -- The next access that a call makes to the atomic, which holds `current`: what it holds then, and
  -- where the call stands. The weak exchange can fail for no reason; one that fails has loaded
  -- what the atomic holds.
  unfoldable pub advance : Bool → A → Stage A → A × Stage A
  unfolding enter
  advance spurious current (load value) = (current, enter value current)
  advance spurious current (exchange value maximum) =
      if same current maximum && not spurious
      then (value, ended value)
      else (current, enter value current)
  advance spurious current (ended value) = (current, ended value)

abbrev pub set_stage : {A : Type 0} → ℕ → Stage A → List (Stage A) → List (Stage A)
set_stage k s [] = []
set_stage zero s (x ∷ xs) = s ∷ xs
set_stage (suc k) s (x ∷ xs) = x ∷ set_stage k s xs

-- One step of a thread: a call of a method, which is whole for the first three and for a snapshot;
-- or the next access to the maximum by the call of `recordEncoderOutput` or of `recordQueueLevel`
-- that came in as the k-th, and whether a weak exchange fails for no reason.
pub data Event : Type 0 where
  queue_input queue_output overrun_seen : Event
  encoder_output : ℤ → Event
  queue_level : ℕ → Event
  gap_step level_step : ℕ → Bool → Event
  take_snapshot : Bool → Event

-- The atomics, and the calls that raise the two maxima, in the order in which they came in.
pub record Running : Type 0 where
  pub telemetry : EncoderTelemetry
  pub gap_calls : List (Stage ℤ)
  pub level_calls : List (Stage ℕ)

abbrev pub at_rest : Running
at_rest = record { telemetry = fresh; gap_calls = []; level_calls = [] }

-- The calls that are not there have nothing left to do.
abbrev pub gap_stage : ℕ → Running → Stage ℤ
gap_stage k s = get_or s.gap_calls k (ended (pos 0))

abbrev pub level_stage : ℕ → Running → Stage ℕ
level_stage k s = get_or s.level_calls k (ended 0)

abbrev pub move_gap : ℕ → Bool → Running → Running
move_gap k spurious s =
    let t = s.telemetry in
    let r = advance ltb_ℤ eqb_ℤ spurious t.enc_gap_max_us (gap_stage k s) in
    record s {
      telemetry = record t { enc_gap_max_us = r.0 };
      gap_calls = set_stage k r.1 s.gap_calls;
    }

abbrev pub move_level : ℕ → Bool → Running → Running
move_level k spurious s =
    let t = s.telemetry in
    let r = advance ltb ◌==◌ spurious t.lvl_buf_max (level_stage k s) in
    record s {
      telemetry = record t { lvl_buf_max = r.0 };
      level_calls = set_stage k r.1 s.level_calls;
    }

-- The atomics after a snapshot; the snapshot itself is what they held before.
abbrev pub after_snapshot : Bool → EncoderTelemetry → EncoderTelemetry
after_snapshot reset_gap t = if reset_gap then record t { enc_gap_max_us = pos 0 } else t

unfoldable pub record_event : Event → Running → Running
record_event queue_input s =
    let t = s.telemetry in record s { telemetry = record t { q_in = next_count t.q_in } }
record_event queue_output s =
    let t = s.telemetry in record s { telemetry = record t { q_out = next_count t.q_out } }
record_event overrun_seen s =
    let t = s.telemetry in record s { telemetry = record t { overrun = next_count t.overrun } }
record_event (encoder_output gap) s =
    let t = s.telemetry in
    record s {
      telemetry = record t { enc_out = next_count t.enc_out };
      gap_calls = s.gap_calls ++ (load gap ∷ []);
    }
record_event (queue_level level) s = record s { level_calls = s.level_calls ++ (load level ∷ []) }
record_event (gap_step k spurious) s = move_gap k spurious s
record_event (level_step k spurious) s = move_level k spurious s
record_event (take_snapshot reset_gap) s = record s {
  telemetry = after_snapshot reset_gap s.telemetry;
}

-- The state after the steps, oldest first.
unfoldable pub record_all : List Event → Running → Running
record_all [] s = s
record_all (e ∷ es) s = record_all es (record_event e s)
