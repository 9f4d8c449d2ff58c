-- ===== src/Parser/Check/Keep.antt =====
-- check_arg of parser.cpp leaves usable settings as they are, so a second call changes nothing.
use gst_app.Prelude.{
  ℕ, ◌/◌, ◌%◌, ◌^◌, ℤ, pos, pos_part, ◌≡◌, ◌≢◌, ◌⊎◌, inl, inr, refl, ap, ap₂, ◌∙◌, Bool, true,
  false, Bool-cases, Option, some, List, [], ◌∷◌, drop, All, eqb_ℤ_iff, arith, same_bytes_iff,
}
use gst_app.Controls.{dz_sanitize}
use gst_app.Controls.Sanitize.{IsZoom}
use gst_app.Parser.Consts.{
  sync_trace_max_sec, rtsp_test_stall_max_sec, max_split_sec, mode_test, enc_h264, enc_h265,
}
use gst_app.Parser.Args.{CamConfig, CaptureConfig, CmdArg}
use gst_app.Parser.Knobs.{profile_range, sync_trace_sanity}
use gst_app.Parser.Knobs.Laws.{Between}
use gst_app.Parser.Knobs.Camera.{CamFits, check_cam-keep}
use gst_app.Parser.Check.{
  is_enc, check_enc, check_frame_id_sei, check_log_frames, check_split_sec, Stall, stall_requested,
  stall_valid, check_stall, check_dz, check_cams, check_cap, checked_stall, checked, check_arg,
  verdict,
}
use gst_app.Parser.Check.Laws.{StallFits, CapFits, stall_of, Usable, check_arg-Usable}

check_enc-keep :
    (enc : Option (List ℕ)) (errors : ℕ)
    → (enc ≡ some enc_h264) ⊎ (enc ≡ some enc_h265)
    → check_enc enc errors ≡ (enc, errors)
unfolding check_enc
check_enc-keep enc errors (inl e) = rw e refl
check_enc-keep enc errors (inr e) = rw e refl

check_frame_id_sei-keep :
    (h265 : Bool) (sei : ℤ)
    → Between (pos 0) (pos 1) sei
    → (sei ≢ pos 0 → h265 ≡ true)
    → check_frame_id_sei h265 sei ≡ sei
unfolding check_frame_id_sei
check_frame_id_sei-keep h265 sei h k = ground (arith, eqb_ℤ_iff sei (pos 0), eqb_ℤ_iff sei (pos 1))

sync_trace_sanity-keep :
    (sec : ℤ) → Between (pos 0) sync_trace_max_sec sec → sync_trace_sanity sec ≡ sec
unfolding sync_trace_sanity
sync_trace_sanity-keep sec h = ground arith

check_log_frames-keep :
    (trace log : ℤ)
    → Between (pos 0) (pos 1) log
    → (log ≢ pos 0 → trace ≢ pos 0)
    → check_log_frames trace log ≡ log
unfolding check_log_frames
check_log_frames-keep trace log h k = ground (arith, eqb_ℤ_iff log (pos 0), eqb_ℤ_iff log (pos 1))

check_split_sec-keep : (sec : ℤ) → Between (pos 0) max_split_sec sec → check_split_sec sec ≡ sec
unfolding check_split_sec
check_split_sec-keep sec h = ground arith

check_dz-keep : (dz : ℕ) → IsZoom dz → check_dz dz ≡ dz
unfolding check_dz dz_sanitize
check_dz-keep dz h = ground arith

check_cap-keep :
    (enabled : Bool) (cap : CaptureConfig) → CapFits enabled cap → check_cap enabled cap ≡ cap
unfolding check_cap
check_cap-keep true cap h = ground (arith, h refl)
check_cap-keep false cap h = refl

check_cams-keep :
    (dual h265 : Bool) (rec rtsp : List ℤ) (cams : List CamConfig)
    → All (CamFits dual h265) cams
    → check_cams dual (profile_range h265) rec rtsp cams ≡ cams
unfolding check_cams
check_cams-keep dual h265 rec rtsp [] h = refl
check_cams-keep dual h265 rec rtsp (c ∷ cams) h =
    ap₂ ◌∷◌ (check_cam-keep dual h265 _ _ c h.0)
      (check_cams-keep dual h265 (drop 1 rec) (drop 1 rtsp) cams h.1)

valid_stall :
    (level_mode : ℤ) (ch_enable : ℕ) (s : Stall)
    → level_mode ≡ mode_test
    → Between (pos 0) (pos 3) s.ch
    → ch_enable / 2 ^ pos_part s.ch % 2 ≡ 1
    → Between (pos 0) rtsp_test_stall_max_sec s.after_sec
    → Between (pos 1) rtsp_test_stall_max_sec s.duration_sec
    → stall_valid level_mode ch_enable s ≡ true
valid_stall level_mode ch_enable s m c b a d = ground (arith, (eqb_ℤ_iff level_mode mode_test).1 m)

check_stall-keep :
    (level_mode : ℤ) (ch_enable : ℕ) (s : Stall)
    → StallFits level_mode ch_enable s
    → check_stall level_mode ch_enable s ≡ s
unfolding check_stall
check_stall-keep level_mode ch_enable s (inl e) = rw e refl
check_stall-keep level_mode ch_enable s (inr (m, c, b, a, d)) =
    elim (Bool-cases (stall_requested s)) [
      | inl on ↦ rw (on, valid_stall level_mode ch_enable s m c b a d) refl
      | inr off ↦ rw off refl
    ]

is_enc-some : (enc : Option (List ℕ)) (name : List ℕ) → enc ≡ some name → is_enc enc name ≡ true
is_enc-some enc name e = rw e ((same_bytes_iff name name).1 refl)

module _ (arg : CmdArg) (h : Usable arg) where
  enc_kept : (check_enc arg.enc 0).0 ≡ arg.enc
  enc_kept = ap (λ (r : Option (List ℕ) × ℕ). r.0) (check_enc-keep arg.enc 0 h.enc_known)

  sei_kept :
      check_frame_id_sei (is_enc (check_enc arg.enc 0).0 enc_h265) arg.rtsp_frame_id_sei
      ≡ arg.rtsp_frame_id_sei
  sei_kept =
      ap (λ e. check_frame_id_sei (is_enc e enc_h265) arg.rtsp_frame_id_sei) enc_kept
      ∙ check_frame_id_sei-keep (is_enc arg.enc enc_h265) arg.rtsp_frame_id_sei h.sei_flag
          (λ on. is_enc-some arg.enc enc_h265 (h.sei_needs_h265 on))

  trace_kept : sync_trace_sanity arg.v4l2_sync_trace_sec ≡ arg.v4l2_sync_trace_sec
  trace_kept = sync_trace_sanity-keep arg.v4l2_sync_trace_sec h.v4l2_trace_fits

  log_kept :
      check_log_frames (sync_trace_sanity arg.v4l2_sync_trace_sec) arg.v4l2_sync_log_frames
      ≡ arg.v4l2_sync_log_frames
  log_kept =
      ap (λ t. check_log_frames t arg.v4l2_sync_log_frames) trace_kept
      ∙ check_log_frames-keep arg.v4l2_sync_trace_sec arg.v4l2_sync_log_frames h.log_flag
          h.log_needs_trace

  stall_kept : checked_stall arg ≡ stall_of arg
  unfolding checked_stall
  stall_kept = check_stall-keep arg.level_mode arg.ch_enable (stall_of arg) h.stall_fits

  cams_kept :
      check_cams arg.dual_enc
        (profile_range (is_enc (check_enc arg.enc 0).0 enc_h265))
        arg.fps.rec
        arg.fps.rtsp
        arg.cam
      ≡ arg.cam
  cams_kept =
      ap
        (λ e.
          check_cams arg.dual_enc (profile_range (is_enc e enc_h265)) arg.fps.rec arg.fps.rtsp
            arg.cam)
        enc_kept
      ∙ check_cams-keep arg.dual_enc (is_enc arg.enc enc_h265) arg.fps.rec arg.fps.rtsp arg.cam
          h.cams_fit

  checked-keep : checked arg ≡ arg
  unfolding checked
  checked-keep = λ i. record arg {
    enc = enc_kept i;
    rtsp_frame_id_sei = sei_kept i;
    v4l2_sync_trace_sec = trace_kept i;
    v4l2_sync_log_frames = log_kept i;
    channel_sync_trace_sec =
        sync_trace_sanity-keep arg.channel_sync_trace_sec h.channel_trace_fits i;
    rtsp_sync_trace_sec = sync_trace_sanity-keep arg.rtsp_sync_trace_sec h.rtsp_trace_fits i;
    split_sec = check_split_sec-keep arg.split_sec h.split_fits i;
    rtsp_test_stall_ch = (stall_kept i).ch;
    rtsp_test_stall_after_sec = (stall_kept i).after_sec;
    rtsp_test_stall_duration_sec = (stall_kept i).duration_sec;
    dz0 = check_dz-keep arg.dz0 h.dz0_fits i;
    dz1 = check_dz-keep arg.dz1 h.dz1_fits i;
    cam = cams_kept i;
    cap = check_cap-keep arg.stream_en.cap arg.cap h.cap_fits i;
  }

  -- Usable settings are left as they are, and nothing is counted as an error.
  pub check_arg-keep :
      (cmd : CmdArg) (errors : ℕ)
      → ((check_arg cmd errors arg).arg ≡ arg) × ((check_arg cmd errors arg).cfg_errors ≡ errors)
  unfolding check_arg
  check_arg-keep cmd errors = (
    checked-keep,
    ap (λ (r : Option (List ℕ) × ℕ). r.1) (check_enc-keep arg.enc errors h.enc_known),
  )

-- A second call, with any global settings and any count of errors, changes no setting, counts no
-- error and gives the same result.
pub check_arg_idempotent :
    (cmd cmd' : CmdArg) (errors errors' : ℕ) (arg : CmdArg)
    → let once = check_arg cmd errors arg in
      let twice = check_arg cmd' errors' once.arg in
      (twice.arg ≡ once.arg) × (twice.cfg_errors ≡ errors') × (twice.code ≡ once.code)
check_arg_idempotent cmd cmd' errors errors' arg =
    let once = (check_arg cmd errors arg).arg in
    let usable = check_arg-Usable cmd errors arg in
    let (same, count) = check_arg-keep once usable cmd' errors' in
    (same, count, unfold check_arg in ap verdict (checked-keep once usable))
