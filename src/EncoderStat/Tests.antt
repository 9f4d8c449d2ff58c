-- ===== src/EncoderStat/Tests.antt =====
-- The telemetry at concrete calls.
use gst_app.Prelude.{◌≡◌, pos, true, false, List, [], ◌∷◌, refl}
use gst_app.EncoderStat.{
  Event, queue_input, encoder_output, queue_level, gap_step, level_step, take_snapshot, record_all,
  record_event, at_rest, advance,
}
use gst_app.EncoderStat.Settled.{settled_gaps}

-- Two calls race for the gap maximum: both have loaded 0 when the second stores 33, and the first
-- has to look again; its exchange also fails for no reason once. A level is raised in between.
abbrev calls : List Event
calls =
    queue_input
    ∷ encoder_output (pos 90)
    ∷ encoder_output (pos 33)
    ∷ gap_step 0 false
    ∷ gap_step 1 false
    ∷ gap_step 1 false
    ∷ queue_level 7
    ∷ level_step 0 false
    ∷ gap_step 0 false
    ∷ level_step 0 false
    ∷ gap_step 0 true
    ∷ gap_step 0 false
    ∷ []

raced : (record_all calls at_rest).telemetry.enc_gap_max_us ≡ pos 90
unfolding record_all record_event advance
raced = refl

raced_gaps : settled_gaps calls at_rest [] ≡ pos 90 ∷ (pos 33 ∷ [])
unfolding record_all record_event advance
raced_gaps = refl

-- A reset between the load and the exchange makes the exchange fail, and the call stores after it.
abbrev over_a_reset : List Event
over_a_reset =
    encoder_output (pos 5)
    ∷ gap_step 0 false
    ∷ gap_step 0 false
    ∷ encoder_output (pos 9)
    ∷ gap_step 1 false
    ∷ take_snapshot true
    ∷ gap_step 1 false
    ∷ []

not_yet : (record_all over_a_reset at_rest).telemetry.enc_gap_max_us ≡ pos 0
unfolding record_all record_event advance
not_yet = refl
