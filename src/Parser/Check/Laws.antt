-- ===== src/Parser/Check/Laws.antt =====
-- What check_arg of parser.cpp makes of any settings.
use gst_app.Prelude.{
  ℕ, ◌/◌, ◌%◌, ◌^◌, ℤ, pos, pos_part, ◌≤ℤ◌, ◌≡◌, ◌≢◌, ◌⊎◌, inl, inr, refl, ap, Bool, true, false,
  Bool-cases, Option, none, some, List, [], ◌∷◌, drop, All, same_bytes_iff, eqb_ℤ_iff, arith,
}
use gst_app.Controls.{dz_sanitize}
use gst_app.Controls.Sanitize.{IsZoom}
use gst_app.Parser.Consts.{
  sync_trace_max_sec, default_rtsp_test_stall_ch, default_rtsp_test_stall_after_sec,
  default_rtsp_test_stall_duration_sec, rtsp_test_stall_max_sec, cap_instant_off, cap_instant_copy,
  max_split_sec, mode_test, enc_h264, enc_h265,
}
use gst_app.Parser.Args.{CamConfig, CaptureConfig, CmdArg}
use gst_app.Parser.Knobs.{profile_range, sync_trace_sanity}
use gst_app.Parser.Knobs.Laws.{Between}
use gst_app.Parser.Knobs.Camera.{CamFits, check_cam-CamFits}
use gst_app.Parser.Check.{
  is_enc, check_enc, check_frame_id_sei, check_log_frames, check_split_sec, Stall, no_stall,
  stall_requested, stall_valid, check_stall, check_dz, check_cams, check_cap, checked, check_arg,
}

-- A test stall is one that was not asked for, or one that the test mode can run.
abbrev pub StallFits : ℤ → ℕ → Stall → Type 0
StallFits level_mode ch_enable s =
    (s ≡ no_stall)
    ⊎ ((level_mode ≡ mode_test)
        × Between (pos 0) (pos 3) s.ch
        × (ch_enable / 2 ^ pos_part s.ch % 2 ≡ 1)
        × Between (pos 0) rtsp_test_stall_max_sec s.after_sec
        × Between (pos 1) rtsp_test_stall_max_sec s.duration_sec)

abbrev pub CapFits : Bool → CaptureConfig → Type 0
CapFits enabled cap =
    enabled ≡ true
    → (pos 1 ≤ℤ cap.queue_size) × Between cap_instant_off cap_instant_copy cap.instant

abbrev pub stall_of : CmdArg → Stall
stall_of arg = record {
  ch = arg.rtsp_test_stall_ch;
  after_sec = arg.rtsp_test_stall_after_sec;
  duration_sec = arg.rtsp_test_stall_duration_sec;
}

-- The settings that the pipelines can be built from.
pub record Usable (arg : CmdArg) : Type 0 where
  pub enc_known : (arg.enc ≡ some enc_h264) ⊎ (arg.enc ≡ some enc_h265)
  pub sei_flag : Between (pos 0) (pos 1) arg.rtsp_frame_id_sei
  pub sei_needs_h265 : arg.rtsp_frame_id_sei ≢ pos 0 → arg.enc ≡ some enc_h265
  pub v4l2_trace_fits : Between (pos 0) sync_trace_max_sec arg.v4l2_sync_trace_sec
  pub log_flag : Between (pos 0) (pos 1) arg.v4l2_sync_log_frames
  pub log_needs_trace : arg.v4l2_sync_log_frames ≢ pos 0 → arg.v4l2_sync_trace_sec ≢ pos 0
  pub channel_trace_fits : Between (pos 0) sync_trace_max_sec arg.channel_sync_trace_sec
  pub rtsp_trace_fits : Between (pos 0) sync_trace_max_sec arg.rtsp_sync_trace_sec
  pub split_fits : Between (pos 0) max_split_sec arg.split_sec
  pub stall_fits : StallFits arg.level_mode arg.ch_enable (stall_of arg)
  pub dz0_fits : IsZoom arg.dz0
  pub dz1_fits : IsZoom arg.dz1
  pub cams_fit : All (CamFits arg.dual_enc (is_enc arg.enc enc_h265)) arg.cam
  pub cap_fits : CapFits arg.stream_en.cap arg.cap

is_enc_lem : (enc : Option (List ℕ)) (name : List ℕ) → is_enc enc name ≡ true → enc ≡ some name
is_enc_lem none name h = absurd cc
is_enc_lem (some enc) name h = ap some ((same_bytes_iff enc name).0 h)

check_enc_known :
    (enc : Option (List ℕ)) (errors : ℕ)
    → ((check_enc enc errors).0 ≡ some enc_h264) ⊎ ((check_enc enc errors).0 ≡ some enc_h265)
unfolding check_enc
check_enc_known none errors = inl refl
check_enc_known (some enc) errors =
    ground (arith, same_bytes_iff enc enc_h264, same_bytes_iff enc enc_h265)

check_frame_id_sei_lem :
    (h265 : Bool) (sei : ℤ)
    → Between (pos 0) (pos 1) (check_frame_id_sei h265 sei)
      × (check_frame_id_sei h265 sei ≢ pos 0 → h265 ≡ true)
unfolding check_frame_id_sei
check_frame_id_sei_lem h265 sei =
    (ground (arith, eqb_ℤ_iff sei (pos 0), eqb_ℤ_iff sei (pos 1)), λ h. ground arith)

sync_trace_sanity_fits : (sec : ℤ) → Between (pos 0) sync_trace_max_sec (sync_trace_sanity sec)
unfolding sync_trace_sanity
sync_trace_sanity_fits sec = ground arith

check_log_frames_lem :
    (trace log : ℤ)
    → Between (pos 0) (pos 1) (check_log_frames trace log)
      × (check_log_frames trace log ≢ pos 0 → trace ≢ pos 0)
unfolding check_log_frames
check_log_frames_lem trace log =
    (ground (arith, eqb_ℤ_iff log (pos 0), eqb_ℤ_iff log (pos 1)), λ h. ground arith)

check_split_sec_fits : (sec : ℤ) → Between (pos 0) max_split_sec (check_split_sec sec)
unfolding check_split_sec
check_split_sec_fits sec = ground arith

check_dz-IsZoom : (dz : ℕ) → IsZoom (check_dz dz)
unfolding check_dz dz_sanitize
check_dz-IsZoom dz = ground arith

check_cap-CapFits : (enabled : Bool) (cap : CaptureConfig) → CapFits enabled (check_cap enabled cap)
unfolding check_cap
check_cap-CapFits true cap h = ground arith
check_cap-CapFits false cap h = absurd cc

check_cams-CamFits :
    (dual h265 : Bool) (rec rtsp : List ℤ) (cams : List CamConfig)
    → All (CamFits dual h265) (check_cams dual (profile_range h265) rec rtsp cams)
unfolding check_cams
check_cams-CamFits dual h265 rec rtsp [] = tt
check_cams-CamFits dual h265 rec rtsp (c ∷ cams) = (
  check_cam-CamFits dual h265 _ _ c,
  check_cams-CamFits dual h265 (drop 1 rec) (drop 1 rtsp) cams,
)

not_requested : (s : Stall) → stall_requested s ≡ false → s ≡ no_stall
not_requested s e = λ i. record {
  ch = (eqb_ℤ_iff s.ch default_rtsp_test_stall_ch).0 (ground arith) i;
  after_sec = (eqb_ℤ_iff s.after_sec default_rtsp_test_stall_after_sec).0 (ground arith) i;
  duration_sec = (eqb_ℤ_iff s.duration_sec default_rtsp_test_stall_duration_sec).0 (ground arith) i;
}

stall_valid_lem :
    (level_mode : ℤ) (ch_enable : ℕ) (s : Stall)
    → stall_valid level_mode ch_enable s ≡ true
    → (level_mode ≡ mode_test)
      × Between (pos 0) (pos 3) s.ch
      × (ch_enable / 2 ^ pos_part s.ch % 2 ≡ 1)
      × Between (pos 0) rtsp_test_stall_max_sec s.after_sec
      × Between (pos 1) rtsp_test_stall_max_sec s.duration_sec
stall_valid_lem level_mode ch_enable s e = (
  (eqb_ℤ_iff level_mode mode_test).0 (ground arith),
  ground arith,
  ground arith,
  ground arith,
  ground arith,
)

pub check_stall-StallFits :
    (level_mode : ℤ) (ch_enable : ℕ) (s : Stall)
    → StallFits level_mode ch_enable (check_stall level_mode ch_enable s)
unfolding check_stall
check_stall-StallFits level_mode ch_enable s = elim (Bool-cases (stall_requested s)) [
  | inr off ↦ rw off (inl (not_requested s off))
  | inl on ↦ elim (Bool-cases (stall_valid level_mode ch_enable s)) [
    | inl good ↦ rw (on, good) (inr (stall_valid_lem level_mode ch_enable s good))
    | inr bad ↦ rw (on, bad) (inl refl)
  ]
]

-- Whatever the settings are, those that check_arg leaves are usable.
pub check_arg-Usable :
    (cmd : CmdArg) (errors : ℕ) (arg : CmdArg) → Usable (check_arg cmd errors arg).arg
unfolding check_arg checked
check_arg-Usable cmd errors arg =
    let enc = (check_enc arg.enc 0).0 in
    let h265 = is_enc enc enc_h265 in
    let trace = sync_trace_sanity arg.v4l2_sync_trace_sec in
    let sei = check_frame_id_sei_lem h265 arg.rtsp_frame_id_sei in
    let log = check_log_frames_lem trace arg.v4l2_sync_log_frames in
    record {
      enc_known = check_enc_known arg.enc 0;
      sei_flag = sei.0;
      sei_needs_h265 = λ h. is_enc_lem enc enc_h265 (sei.1 h);
      v4l2_trace_fits = sync_trace_sanity_fits arg.v4l2_sync_trace_sec;
      log_flag = log.0;
      log_needs_trace = log.1;
      channel_trace_fits = sync_trace_sanity_fits arg.channel_sync_trace_sec;
      rtsp_trace_fits = sync_trace_sanity_fits arg.rtsp_sync_trace_sec;
      split_fits = check_split_sec_fits arg.split_sec;
      stall_fits = check_stall-StallFits arg.level_mode arg.ch_enable (stall_of arg);
      dz0_fits = check_dz-IsZoom arg.dz0;
      dz1_fits = check_dz-IsZoom arg.dz1;
      cams_fit = check_cams-CamFits arg.dual_enc h265 arg.fps.rec arg.fps.rtsp arg.cam;
      cap_fits = check_cap-CapFits arg.stream_en.cap arg.cap;
    }
