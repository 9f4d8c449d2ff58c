-- ===== src/EncoderStat/Counts.antt =====
-- The counters of encoderStat.cpp.
use gst_app.Prelude.{ℕ, suc, ◌+◌, ◌%◌, ◌^◌, ◌<◌, ◌≡◌, ◌∙◌, true, false, List, [], ◌∷◌, arith}
use gst_app.EncoderStat.{
  next_count, Event, queue_input, queue_output, overrun_seen, encoder_output, queue_level, gap_step,
  level_step, take_snapshot, Running, record_event, record_all,
}

-- How many of the calls count for each counter.
abbrev pub inputs : List Event → ℕ
inputs [] = 0
inputs (queue_input ∷ es) = suc (inputs es)
inputs (queue_output ∷ es) = inputs es
inputs (overrun_seen ∷ es) = inputs es
inputs (encoder_output gap ∷ es) = inputs es
inputs (queue_level level ∷ es) = inputs es
inputs (gap_step k spurious ∷ es) = inputs es
inputs (level_step k spurious ∷ es) = inputs es
inputs (take_snapshot reset ∷ es) = inputs es

abbrev pub encoded : List Event → ℕ
encoded [] = 0
encoded (queue_input ∷ es) = encoded es
encoded (queue_output ∷ es) = encoded es
encoded (overrun_seen ∷ es) = encoded es
encoded (encoder_output gap ∷ es) = suc (encoded es)
encoded (queue_level level ∷ es) = encoded es
encoded (gap_step k spurious ∷ es) = encoded es
encoded (level_step k spurious ∷ es) = encoded es
encoded (take_snapshot reset ∷ es) = encoded es

count_step : (n k : ℕ) → (next_count n + k) % 2 ^ 64 ≡ (n + suc k) % 2 ^ 64
count_step n k = omega arith

count_none : (n : ℕ) → n < 2 ^ 64 → n ≡ (n + 0) % 2 ^ 64
count_none n h = omega arith

next_count-lt : (n : ℕ) → next_count n < 2 ^ 64
next_count-lt n = omega arith

pub record_all-counts :
    (es : List Event) (s : Running)
    → s.telemetry.q_in < 2 ^ 64
    → s.telemetry.enc_out < 2 ^ 64
    → ((record_all es s).telemetry.q_in ≡ (s.telemetry.q_in + inputs es) % 2 ^ 64)
      × ((record_all es s).telemetry.enc_out ≡ (s.telemetry.enc_out + encoded es) % 2 ^ 64)
unfolding record_all record_event
record_all-counts [] s a b = (count_none s.telemetry.q_in a, count_none s.telemetry.enc_out b)
record_all-counts (queue_input ∷ es) s a b =
    let t = s.telemetry in
    let ih = record_all-counts es (record_event queue_input s) (next_count-lt t.q_in) b in
    (ih.0 ∙ count_step t.q_in (inputs es), ih.1)
record_all-counts (queue_output ∷ es) s a b = record_all-counts es (record_event queue_output s) a b
record_all-counts (overrun_seen ∷ es) s a b = record_all-counts es (record_event overrun_seen s) a b
record_all-counts (encoder_output gap ∷ es) s a b =
    let t = s.telemetry in
    let ih =
      record_all-counts es (record_event (encoder_output gap) s) a (next_count-lt t.enc_out) in
    (ih.0, ih.1 ∙ count_step t.enc_out (encoded es))
record_all-counts (queue_level level ∷ es) s a b =
    record_all-counts es (record_event (queue_level level) s) a b
record_all-counts (gap_step k spurious ∷ es) s a b =
    record_all-counts es (record_event (gap_step k spurious) s) a b
record_all-counts (level_step k spurious ∷ es) s a b =
    record_all-counts es (record_event (level_step k spurious) s) a b
record_all-counts (take_snapshot true ∷ es) s a b =
    record_all-counts es (record_event (take_snapshot true) s) a b
record_all-counts (take_snapshot false ∷ es) s a b =
    record_all-counts es (record_event (take_snapshot false) s) a b
