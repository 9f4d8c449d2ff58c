-- ===== src/Parser/Knobs.antt =====
-- The checks of check_arg of parser.cpp on the encoder settings of one camera, and the helpers that
-- they share with the command parser.
pub mod Laws
pub mod Camera
pub mod Rescale
use gst_app.Prelude.{
  ℕ, ◌+◌, ◌*◌, ◌/◌, ℤ, pos, negsuc, pos_part, Bool, true, false, not, ◌&&◌, ◌||◌, is_neg, is_zero,
  is_pos, eqb_ℤ, ltb_ℤ, ltb, if◌then◌else◌, Option, none, some, ◌%◌, ◌^◌, ◌-◌,
}
use gst_app.Controls.{ZoomCenter, zoom_center_sanitize}
use gst_app.Parser.Consts.{
  default_record_bitrate, default_rtsp_bitrate, default_record_fps, gop_size_follow_fps,
  default_gop_size, min_gop_size, max_gop_size, profile_unset, default_h264_profile,
  min_h264_profile, max_h264_profile, default_h265_profile, min_h265_profile, max_h265_profile,
  default_quant, min_quant, max_quant, default_qp_min, default_qp_max, min_qp, max_qp,
  sync_trace_max_sec,
}
use gst_app.Parser.Args.{Both, CamConfig}

unfoldable pub enc_knob_sanity : ℤ → ℤ → ℤ → ℤ → ℤ
enc_knob_sanity slot lo hi def = if ltb_ℤ slot lo || ltb_ℤ hi slot then def else slot

unfoldable pub enc_profile_sanity : ℤ → ℤ → ℤ → ℤ → ℤ
unfolding enc_knob_sanity
enc_profile_sanity slot lo hi def =
    if eqb_ℤ slot profile_unset then def else enc_knob_sanity slot lo hi def

-- (gop * new_fps + prev_fps / 2) / prev_fps of three positive numbers.
unfoldable scaled : ℤ → ℤ → ℤ → ℕ
scaled gop prev_fps new_fps =
    let prev = pos_part prev_fps in (pos_part gop * pos_part new_fps + prev / 2) / prev

-- The cast of a gint64 that is not negative to gint.
unfoldable pub to_int : ℕ → ℤ
to_int s = let r = s % 2 ^ 32 in if ltb r (2 ^ 31) then pos r else negsuc (2 ^ 32 - 1 - r)

unfoldable pub enc_gop_rescale : ℤ → ℤ → ℤ → ℤ
unfolding scaled to_int
enc_gop_rescale gop prev_fps new_fps =
    if not (is_pos gop) || not (is_pos prev_fps) || not (is_pos new_fps)
    then gop
    else let s = to_int (scaled gop prev_fps new_fps) in
      if ltb_ℤ s (pos 1) then pos 1 else if ltb_ℤ max_gop_size s then max_gop_size else s

unfoldable pub sync_trace_sanity : ℤ → ℤ
sync_trace_sanity value =
    if not (is_neg value) && not (ltb_ℤ sync_trace_max_sec value) then value else pos 0

resolved_gop : ℤ → ℤ
resolved_gop fps =
    let wanted = if is_pos fps then fps else default_record_fps in
    if ltb_ℤ max_gop_size wanted then max_gop_size else wanted

unfoldable pub enc_gop_resolve : ℤ → ℤ → ℤ
unfolding resolved_gop
enc_gop_resolve slot fps = if not (eqb_ℤ slot gop_size_follow_fps) then slot else resolved_gop fps

unfoldable pub enc_knob_mirror : ℤ → ℤ → ℤ
enc_knob_mirror slot rec = if not (eqb_ℤ slot rec) then rec else slot

-- The profile range that the codec fixes.
pub record ProfileRange : Type 0 where
  pub lowest : ℤ
  pub highest : ℤ
  pub default : ℤ

unfoldable pub profile_range : Bool → ProfileRange
profile_range true = record {
  lowest = min_h265_profile;
  highest = max_h265_profile;
  default = default_h265_profile;
}
profile_range false = record {
  lowest = min_h264_profile;
  highest = max_h264_profile;
  default = default_h264_profile;
}

-- The five settings of one stream of a camera.
pub record Knobs : Type 0 where
  pub gop : ℤ
  pub profile : ℤ
  pub quant : ℤ
  pub qp_min : ℤ
  pub qp_max : ℤ

-- The block of calls for one stream whose encoder is its own.
unfoldable pub check_knobs : ProfileRange → ℤ → Knobs → Knobs
unfolding enc_knob_sanity enc_profile_sanity enc_gop_resolve
check_knobs range fps k = record {
  gop = enc_gop_resolve (enc_knob_sanity k.gop min_gop_size max_gop_size default_gop_size) fps;
  profile = enc_profile_sanity k.profile range.lowest range.highest range.default;
  quant = enc_knob_sanity k.quant min_quant max_quant default_quant;
  qp_min = enc_knob_sanity k.qp_min min_qp max_qp default_qp_min;
  qp_max = enc_knob_sanity k.qp_max min_qp max_qp default_qp_max;
}

-- The block of calls for the rtsp stream when one encoder feeds both.
unfoldable pub mirror_knobs : Knobs → Knobs → Knobs
unfolding enc_knob_mirror
mirror_knobs rec k = record {
  gop = enc_knob_mirror k.gop rec.gop;
  profile = enc_knob_mirror k.profile rec.profile;
  quant = enc_knob_mirror k.quant rec.quant;
  qp_min = enc_knob_mirror k.qp_min rec.qp_min;
  qp_max = enc_knob_mirror k.qp_max rec.qp_max;
}

-- One pass of the loop over the streams: an inverted window is reset.
unfoldable pub reset_window : Knobs → Knobs
reset_window k =
    if is_pos k.qp_min && (is_pos k.qp_max && ltb_ℤ k.qp_max k.qp_min)
    then record k { qp_min = default_qp_min; qp_max = default_qp_max }
    else k

unfoldable pub rec_knobs : CamConfig → Knobs
rec_knobs c = record {
  gop = c.gop.rec;
  profile = c.profile.rec;
  quant = c.quant.rec;
  qp_min = c.qp_min.rec;
  qp_max = c.qp_max.rec;
}

unfoldable pub rtsp_knobs : CamConfig → Knobs
rtsp_knobs c = record {
  gop = c.gop.rtsp;
  profile = c.profile.rtsp;
  quant = c.quant.rtsp;
  qp_min = c.qp_min.rtsp;
  qp_max = c.qp_max.rtsp;
}

unfoldable pub with_knobs : CamConfig → Knobs → Knobs → CamConfig
with_knobs c rec rtsp = record c {
  gop = record { rec = rec.gop; rtsp = rtsp.gop };
  profile = record { rec = rec.profile; rtsp = rtsp.profile };
  quant = record { rec = rec.quant; rtsp = rtsp.quant };
  qp_min = record { rec = rec.qp_min; rtsp = rtsp.qp_min };
  qp_max = record { rec = rec.qp_max; rtsp = rtsp.qp_max };
}

unfoldable pub check_bps : Bool → Both → Both
check_bps dual bps =
    let rec = if is_neg bps.rec then default_record_bitrate else bps.rec in
    record {
      rec = rec;
      rtsp =
          if dual
          then if is_neg bps.rtsp then default_rtsp_bitrate else bps.rtsp
          else if not (eqb_ℤ bps.rtsp rec)
          then rec
          else bps.rtsp;
    }

unfoldable pub check_center : CamConfig → CamConfig
check_center c = elim (zoom_center_sanitize (some (record { x = c.dz_x; y = c.dz_y }))).0 [
  | none ↦ c
  | some center ↦ record c { dz_x = center.x; dz_y = center.y }
]

-- One pass of the loop of check_arg over the cameras, with the frame rates of its two streams.
unfoldable pub check_cam : Bool → ProfileRange → ℤ → ℤ → CamConfig → CamConfig
unfolding check_knobs mirror_knobs reset_window rec_knobs rtsp_knobs with_knobs check_bps
    check_center
check_cam dual range rec_fps rtsp_fps c =
    let rec = check_knobs range rec_fps (rec_knobs c) in
    let rtsp =
      if dual then check_knobs range rtsp_fps (rtsp_knobs c) else mirror_knobs rec (rtsp_knobs c) in
    let centred = check_center c in
    with_knobs (record centred { bps = check_bps dual c.bps }) (reset_window rec)
      (reset_window rtsp)
