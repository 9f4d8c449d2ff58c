-- ===== src/EncoderStat/Laws.antt =====
-- What a snapshot of the telemetry of encoderStat.cpp says about the calls before it.
use gst_app.Prelude.{ℕ, ◌≤◌, ℤ, pos, ◌≤ℤ◌, ltb, ltb_ℤ, List, All}
use gst_app.EncoderStat.{Running}
use gst_app.EncoderStat.Raise.{Peak, Rises}

-- Both maxima are the largest of the values of the calls that have ended.
record Peaks (s : Running) (gaps : List ℤ) (levels : List ℕ) : Type 0 where
  gap : Peak (λ a b. a ≤ℤ b) (pos 0) s.telemetry.enc_gap_max_us gaps
  gap_calls : All (Rises ltb_ℤ) s.gap_calls
  level : Peak (λ a b. a ≤ b) 0 s.telemetry.lvl_buf_max levels
  level_calls : All (Rises ltb) s.level_calls
