-- ===== src/Parser/Check.antt =====
-- ParserClass::check_arg of parser.cpp: every setting is brought into its range, and the run is
-- refused if its length, its resolution or its frame rates cannot be had.
pub mod Laws
pub mod Keep
pub mod Verdict
use gst_app.Prelude.{
  ℕ, ◌+◌, ◌/◌, ◌%◌, ◌^◌, ℤ, pos, negsuc, pos_part, Bool, true, false, not, ◌&&◌, ◌||◌, is_neg,
  is_zero, is_pos, eqb_ℤ, ltb_ℤ, ltb, ◌==◌, ◌!=◌, if◌then◌else◌, ◌+ℤ◌, to_uint32, Option, none,
  some, List, [], ◌∷◌, ◌++◌, get_or, drop, same_bytes,
}
use gst_app.Controls.{dz_sanitize, mode_total_fps_limit}
use gst_app.Parser.Consts.{
  default_rtsp_test_stall_ch, default_rtsp_test_stall_after_sec,
  default_rtsp_test_stall_duration_sec, rtsp_test_stall_max_sec, default_capture_queue_size,
  cap_instant_off, cap_instant_copy, default_split_sec, max_split_sec, mode_test, max_channel,
  enc_h264, enc_h265, default_enc,
}
use gst_app.Parser.Args.{CamConfig, CaptureConfig, Fps, Streams, CmdArg}
use gst_app.Parser.Knobs.{ProfileRange, profile_range, sync_trace_sanity, check_cam}

-- g_strcmp0(arg.enc, name) == 0
abbrev pub is_enc : Option (List ℕ) → List ℕ → Bool
is_enc none name = false
is_enc (some enc) name = same_bytes enc name

-- The encoder, and g_cfg_errors.
unfoldable pub check_enc : Option (List ℕ) → ℕ → Option (List ℕ) × ℕ
check_enc enc errors =
    if not (is_enc enc enc_h264) && not (is_enc enc enc_h265)
    then (some default_enc, errors + 1)
    else (enc, errors)

-- A flag that must be 0 or 1.
unfoldable pub check_flag : ℤ → ℤ
check_flag flag = if not (eqb_ℤ flag (pos 0)) && not (eqb_ℤ flag (pos 1)) then pos 0 else flag

unfoldable pub check_frame_id_sei : Bool → ℤ → ℤ
unfolding check_flag
check_frame_id_sei use_h265 sei =
    let flag = check_flag sei in if not (is_zero flag) && not use_h265 then pos 0 else flag

-- The per-frame log, with the trace already checked.
unfoldable pub check_log_frames : ℤ → ℤ → ℤ
unfolding check_flag
check_log_frames trace_sec log_frames =
    let flag = check_flag log_frames in
    if not (is_zero flag) && is_zero trace_sec then pos 0 else flag

unfoldable pub check_split_sec : ℤ → ℤ
check_split_sec sec = if is_neg sec || ltb_ℤ max_split_sec sec then default_split_sec else sec

-- The three settings of the test stall.
pub record Stall : Type 0 where
  pub ch : ℤ
  pub after_sec : ℤ
  pub duration_sec : ℤ

abbrev pub no_stall : Stall
no_stall = record {
  ch = default_rtsp_test_stall_ch;
  after_sec = default_rtsp_test_stall_after_sec;
  duration_sec = default_rtsp_test_stall_duration_sec;
}

abbrev pub stall_requested : Stall → Bool
stall_requested s =
    not (eqb_ℤ s.ch default_rtsp_test_stall_ch)
    || (not (eqb_ℤ s.after_sec default_rtsp_test_stall_after_sec)
        || not (eqb_ℤ s.duration_sec default_rtsp_test_stall_duration_sec))

-- (ch_enable & (1 << ch)) != 0
abbrev pub enabled_bit : ℕ → ℤ → Bool
enabled_bit ch_enable ch = ch_enable / 2 ^ pos_part ch % 2 != 0

abbrev pub stall_valid : ℤ → ℕ → Stall → Bool
stall_valid level_mode ch_enable s =
    eqb_ℤ level_mode mode_test
    && (not (is_neg s.ch)
        && (ltb_ℤ s.ch (pos max_channel)
            && (enabled_bit ch_enable s.ch
                && (not (is_neg s.after_sec)
                    && (not (ltb_ℤ rtsp_test_stall_max_sec s.after_sec)
                        && (not (ltb_ℤ s.duration_sec (pos 1))
                            && not (ltb_ℤ rtsp_test_stall_max_sec s.duration_sec)))))))

unfoldable pub check_stall : ℤ → ℕ → Stall → Stall
check_stall level_mode ch_enable s =
    if stall_requested s && not (stall_valid level_mode ch_enable s) then no_stall else s

unfoldable pub check_dz : ℕ → ℕ
check_dz dz = elim (dz_sanitize (some dz)).0 [ none ↦ dz | some common_dz ↦ common_dz ]

-- The loop over the cameras, with the record and rtsp frame rates of those that are left.
unfoldable pub check_cams : Bool → ProfileRange → List ℤ → List ℤ → List CamConfig → List CamConfig
check_cams dual range rec rtsp [] = []
check_cams dual range rec rtsp (c ∷ cams) =
    check_cam dual range (get_or rec 0 (pos 0)) (get_or rtsp 0 (pos 0)) c
    ∷ check_cams dual range (drop 1 rec) (drop 1 rtsp) cams

unfoldable pub check_cap : Bool → CaptureConfig → CaptureConfig
check_cap enabled cap =
    if enabled
    then record cap {
      queue_size =
          if not (is_pos cap.queue_size) then default_capture_queue_size else cap.queue_size;
      instant =
          if ltb_ℤ cap.instant cap_instant_off || ltb_ℤ cap_instant_copy cap.instant
          then cap_instant_off
          else cap.instant;
    }
    else cap

is_absolute : Option (List ℕ) → Bool
is_absolute none = false
is_absolute (some []) = false
is_absolute (some (c ∷ rest)) = c == b'/'

-- The directory that is made, by the settings in `cmdArg`.
unfoldable pub capture_directory : CmdArg → List ℕ
unfolding is_absolute
capture_directory cmd = elim cmd.cap.dir [
  | none ↦ cmd.mnt_dir ++ (b'/' ∷ cmd.cap.path)
  | some dir ↦ if is_absolute (some dir) then dir else cmd.mnt_dir ++ (b'/' ∷ cmd.cap.path)
]

-- What one camera adds to the frame rate of the run.
unfoldable pub cam_fps : Bool → Streams → ℤ → ℤ → CamConfig → ℤ
cam_fps dual streams rec rtsp c =
    if not c.enable
    then pos 0
    else if dual
    then (if streams.rec then rec else pos 0) +ℤ (if streams.rtsp then rtsp else pos 0)
    else if streams.rec
    then rec
    else if streams.rtsp
    then rtsp
    else pos 0

unfoldable pub total_fps : Bool → Streams → List ℤ → List ℤ → List CamConfig → ℤ
unfolding cam_fps
total_fps dual streams rec rtsp [] = pos 0
total_fps dual streams rec rtsp (c ∷ cams) =
    cam_fps dual streams (get_or rec 0 (pos 0)) (get_or rtsp 0 (pos 0)) c
    +ℤ total_fps dual streams (drop 1 rec) (drop 1 rtsp) cams

-- The last part: the result.
unfoldable pub verdict : CmdArg → ℤ
verdict arg =
    let limit = mode_total_fps_limit (to_uint32 arg.width) (to_uint32 arg.height) in
    let total = total_fps arg.dual_enc arg.stream_en arg.fps.rec arg.fps.rtsp arg.cam in
    if ltb_ℤ arg.duration (pos 1)
    then negsuc 0
    else if limit == 0
    then negsuc 0
    else if ltb limit (to_uint32 total)
    then negsuc 0
    else pos 0

-- The result, the settings and g_cfg_errors after the call, and the directory that
-- `safe_mkdir_p` is called for, if it is called; what that call answers changes nothing.
pub record Checked : Type 0 where
  pub code : ℤ
  pub arg : CmdArg
  pub cfg_errors : ℕ
  pub made : Option (List ℕ)

unfoldable pub checked_stall : CmdArg → Stall
unfolding check_stall
checked_stall arg = check_stall arg.level_mode arg.ch_enable (record {
  ch = arg.rtsp_test_stall_ch;
  after_sec = arg.rtsp_test_stall_after_sec;
  duration_sec = arg.rtsp_test_stall_duration_sec;
})

-- All the changes that the call makes to the settings.
unfoldable pub checked : CmdArg → CmdArg
unfolding checked_stall check_enc check_frame_id_sei check_log_frames check_split_sec check_dz
    check_cams check_cap
checked arg =
    let enc = (check_enc arg.enc 0).0 in
    let use_h265 = is_enc enc enc_h265 in
    let v4l2_trace = sync_trace_sanity arg.v4l2_sync_trace_sec in
    let stall = checked_stall arg in
    record arg {
      enc = enc;
      rtsp_frame_id_sei = check_frame_id_sei use_h265 arg.rtsp_frame_id_sei;
      v4l2_sync_trace_sec = v4l2_trace;
      v4l2_sync_log_frames = check_log_frames v4l2_trace arg.v4l2_sync_log_frames;
      channel_sync_trace_sec = sync_trace_sanity arg.channel_sync_trace_sec;
      rtsp_sync_trace_sec = sync_trace_sanity arg.rtsp_sync_trace_sec;
      split_sec = check_split_sec arg.split_sec;
      rtsp_test_stall_ch = stall.ch;
      rtsp_test_stall_after_sec = stall.after_sec;
      rtsp_test_stall_duration_sec = stall.duration_sec;
      dz0 = check_dz arg.dz0;
      dz1 = check_dz arg.dz1;
      cam = check_cams arg.dual_enc (profile_range use_h265) arg.fps.rec arg.fps.rtsp arg.cam;
      cap = check_cap arg.stream_en.cap arg.cap;
    }

-- `cmd` is the global cmdArg, which the caller has set from `arg` before the call.
unfoldable pub check_arg : CmdArg → ℕ → CmdArg → Checked
unfolding checked check_enc capture_directory verdict
check_arg cmd errors arg = record {
  code = verdict (checked arg);
  arg = checked arg;
  cfg_errors = (check_enc arg.enc errors).1;
  made = if arg.stream_en.cap then some (capture_directory cmd) else none;
}
