-- ===== src/EncoderStat/Settled.antt =====
-- The calls of recordEncoderOutput and recordQueueLevel of encoderStat.cpp that have ended, and the
-- values that they were given.
use gst_app.Prelude.{ℕ, ℤ, true, false, List, [], ◌∷◌}
use gst_app.EncoderStat.{
  Event, queue_input, queue_output, overrun_seen, encoder_output, queue_level, gap_step, level_step,
  take_snapshot, Running, gap_stage, level_stage, record_event,
}
use gst_app.EncoderStat.Raise.{settle}

-- The gaps of the calls that have ended since the last snapshot that reset the maximum, after a
-- step and after many.
abbrev pub note_gap : Event → Running → List ℤ → List ℤ
note_gap queue_input s settled = settled
note_gap queue_output s settled = settled
note_gap overrun_seen s settled = settled
note_gap (encoder_output gap) s settled = settled
note_gap (queue_level level) s settled = settled
note_gap (gap_step k spurious) s settled =
    settle (gap_stage k s) (gap_stage k (record_event (gap_step k spurious) s)) settled
note_gap (level_step k spurious) s settled = settled
note_gap (take_snapshot true) s settled = []
note_gap (take_snapshot false) s settled = settled

abbrev pub settled_gaps : List Event → Running → List ℤ → List ℤ
settled_gaps [] s settled = settled
settled_gaps (e ∷ es) s settled = settled_gaps es (record_event e s) (note_gap e s settled)

-- The levels of the calls that have ended.
abbrev pub note_level : Event → Running → List ℕ → List ℕ
note_level queue_input s settled = settled
note_level queue_output s settled = settled
note_level overrun_seen s settled = settled
note_level (encoder_output gap) s settled = settled
note_level (queue_level level) s settled = settled
note_level (gap_step k spurious) s settled = settled
note_level (level_step k spurious) s settled =
    settle (level_stage k s) (level_stage k (record_event (level_step k spurious) s)) settled
note_level (take_snapshot reset) s settled = settled

abbrev pub settled_levels : List Event → Running → List ℕ → List ℕ
settled_levels [] s settled = settled
settled_levels (e ∷ es) s settled = settled_levels es (record_event e s) (note_level e s settled)
