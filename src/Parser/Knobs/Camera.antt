-- ===== src/Parser/Knobs/Camera.antt =====
-- What one pass of the camera loop of check_arg of parser.cpp makes of a camera's settings.
use gst_app.Prelude.{
  ◌≤◌, ℤ, pos, ◌≤ℤ◌, ◌≡◌, refl, ap, sym, subst, ◌∙◌, Bool, true, false, Bool-cases, inl, inr,
  eqb_ℤ_iff, arith,
}
use gst_app.Controls.{dz_center_max, zoom_center_sanitize}
use gst_app.Parser.Consts.{default_record_bitrate}
use gst_app.Parser.Args.{Both, CamConfig}
use gst_app.Parser.Knobs.{
  Knobs, profile_range, enc_knob_mirror, check_knobs, mirror_knobs, reset_window, rec_knobs,
  rtsp_knobs, with_knobs, check_bps, check_center, check_cam,
}
use gst_app.Parser.Knobs.Laws.{
  KnobsFit, InRange, check_knobs-InRange, reset_window-KnobsFit, check_knobs-keep,
  reset_window-keep,
}

-- What the encoders and the zoom of one camera rely on. With one encoder for both streams the two
-- sets of settings are the same.
pub record CamFits (dual : Bool) (h265 : Bool) (c : CamConfig) : Type 0 where
  pub rec_fits : KnobsFit (profile_range h265) (rec_knobs c)
  pub rtsp_fits : KnobsFit (profile_range h265) (rtsp_knobs c)
  pub rec_bps_fits : pos 0 ≤ℤ c.bps.rec
  pub rtsp_bps_fits : pos 0 ≤ℤ c.bps.rtsp
  pub x_fits : c.dz_x ≤ dz_center_max
  pub y_fits : c.dz_y ≤ dz_center_max
  pub mirrored : dual ≡ false → (rtsp_knobs c ≡ rec_knobs c) × (c.bps.rtsp ≡ c.bps.rec)

enc_knob_mirror_lem : (slot rec : ℤ) → enc_knob_mirror slot rec ≡ rec
unfolding enc_knob_mirror
enc_knob_mirror_lem slot rec = ground (arith, eqb_ℤ_iff slot rec)

mirror_knobs_lem : (rec k : Knobs) → mirror_knobs rec k ≡ rec
unfolding mirror_knobs
mirror_knobs_lem rec k = λ i. record {
  gop = enc_knob_mirror_lem k.gop rec.gop i;
  profile = enc_knob_mirror_lem k.profile rec.profile i;
  quant = enc_knob_mirror_lem k.quant rec.quant i;
  qp_min = enc_knob_mirror_lem k.qp_min rec.qp_min i;
  qp_max = enc_knob_mirror_lem k.qp_max rec.qp_max i;
}

check_center_fits :
    (c : CamConfig)
    → ((check_center c).dz_x ≤ dz_center_max) × ((check_center c).dz_y ≤ dz_center_max)
unfolding check_center zoom_center_sanitize
check_center_fits c = ground arith

check_center-keep :
    (c : CamConfig) → c.dz_x ≤ dz_center_max → c.dz_y ≤ dz_center_max → check_center c ≡ c
unfolding check_center zoom_center_sanitize
check_center-keep c p q = ground arith

check_bps_fits :
    (dual : Bool) (bps : Both)
    → (pos 0 ≤ℤ (check_bps dual bps).rec)
      × (pos 0 ≤ℤ (check_bps dual bps).rtsp)
      × (dual ≡ false → (check_bps dual bps).rtsp ≡ (check_bps dual bps).rec)
unfolding check_bps
check_bps_fits true bps = ground arith
check_bps_fits false bps =
    ground (arith, eqb_ℤ_iff bps.rtsp bps.rec, eqb_ℤ_iff bps.rtsp default_record_bitrate)

check_bps-keep :
    (dual : Bool) (bps : Both)
    → pos 0 ≤ℤ bps.rec
    → pos 0 ≤ℤ bps.rtsp
    → (dual ≡ false → bps.rtsp ≡ bps.rec)
    → check_bps dual bps ≡ bps
unfolding check_bps
check_bps-keep true bps p q r = ground arith
check_bps-keep false bps p q r = ground (arith, r refl, eqb_ℤ_iff bps.rtsp bps.rec)

module _ (dual h265 : Bool) (rec_fps rtsp_fps : ℤ) (c : CamConfig) where
  checked_rec : Knobs
  checked_rec = check_knobs (profile_range h265) rec_fps (rec_knobs c)

  checked_rtsp : Bool → Knobs
  checked_rtsp true = check_knobs (profile_range h265) rtsp_fps (rtsp_knobs c)
  checked_rtsp false = mirror_knobs checked_rec (rtsp_knobs c)

  checked_rtsp-InRange : (d : Bool) → InRange (profile_range h265) (checked_rtsp d)
  unfolding checked_rtsp checked_rec
  checked_rtsp-InRange true = check_knobs-InRange h265 rtsp_fps (rtsp_knobs c)
  checked_rtsp-InRange false =
      rw (mirror_knobs_lem (check_knobs (profile_range h265) rec_fps (rec_knobs c)) (rtsp_knobs c))
        (check_knobs-InRange h265 rec_fps (rec_knobs c))

  abbrev result : CamConfig
  result = check_cam dual (profile_range h265) rec_fps rtsp_fps c

  rec_knobs-check_cam : rec_knobs result ≡ reset_window checked_rec
  unfolding check_cam rec_knobs with_knobs checked_rec
  rec_knobs-check_cam = refl

  rtsp_knobs-check_cam : rtsp_knobs result ≡ reset_window (checked_rtsp dual)
  unfolding check_cam rtsp_knobs with_knobs checked_rtsp checked_rec
  rtsp_knobs-check_cam = elim (Bool-cases dual) [ inl e ↦ rw e refl | inr e ↦ rw e refl ]

  same_knobs : dual ≡ false → checked_rtsp dual ≡ checked_rec
  unfolding checked_rtsp checked_rec
  same_knobs e =
      rw e
        (mirror_knobs_lem (check_knobs (profile_range h265) rec_fps (rec_knobs c)) (rtsp_knobs c))

  -- Whatever the settings of a camera are, those that a pass leaves are ones that the encoders and
  -- the zoom can take, and with one encoder the rtsp settings are those of the recording.
  pub check_cam-CamFits : CamFits dual h265 result
  check_cam-CamFits =
      let bps = check_bps_fits dual c.bps in
      let center = check_center_fits c in
      record {
        rec_fits = subst (KnobsFit (profile_range h265)) (sym rec_knobs-check_cam) (
            reset_window-KnobsFit h265
              (unfold checked_rec in check_knobs-InRange h265 rec_fps (rec_knobs c)));
        rtsp_fits =
            subst (KnobsFit (profile_range h265)) (sym rtsp_knobs-check_cam)
              (reset_window-KnobsFit h265 (checked_rtsp-InRange dual));
        rec_bps_fits = unfold check_cam in bps.0;
        rtsp_bps_fits = unfold check_cam in bps.1;
        x_fits = unfold check_cam in center.0;
        y_fits = unfold check_cam in center.1;
        mirrored = λ e. (
          rtsp_knobs-check_cam ∙ ap reset_window (same_knobs e) ∙ sym rec_knobs-check_cam,
          unfold check_cam in bps.2 e,
        );
      }

  module _ (h : CamFits dual h265 c) where
    rec_kept : reset_window checked_rec ≡ rec_knobs c
    unfolding checked_rec
    rec_kept =
        ap reset_window (check_knobs-keep h265 rec_fps (rec_knobs c) h.rec_fits)
        ∙ reset_window-keep h265 (rec_knobs c) h.rec_fits

    rtsp_kept : reset_window (checked_rtsp dual) ≡ rtsp_knobs c
    rtsp_kept = elim (Bool-cases dual) [
      | inl e ↦ rw e (
          unfold checked_rtsp in
          ap reset_window (check_knobs-keep h265 rtsp_fps (rtsp_knobs c) h.rtsp_fits)
          ∙ reset_window-keep h265 (rtsp_knobs c) h.rtsp_fits)
      | inr e ↦ ap reset_window (same_knobs e) ∙ rec_kept ∙ sym (h.mirrored e).0
    ]

    -- Settings that fit are left as they are.
    pub check_cam-keep : result ≡ c
    unfolding check_cam with_knobs rec_knobs rtsp_knobs checked_rec
    check_cam-keep =
        let center = check_center-keep c h.x_fits h.y_fits in
        let bps =
          check_bps-keep dual c.bps h.rec_bps_fits h.rtsp_bps_fits (λ e. (h.mirrored e).1) in
        let rtsp = rtsp_knobs-check_cam ∙ rtsp_kept in
        λ i. with_knobs (record (center i) { bps = bps i }) (rec_kept i) (rtsp i)

-- A second pass changes nothing.
check_cam_idempotent :
    (dual h265 : Bool) (rec_fps rtsp_fps : ℤ) (c : CamConfig)
    → let once = check_cam dual (profile_range h265) rec_fps rtsp_fps c in
      check_cam dual (profile_range h265) rec_fps rtsp_fps once ≡ once
check_cam_idempotent dual h265 rec_fps rtsp_fps c =
    check_cam-keep dual h265 rec_fps rtsp_fps _ (check_cam-CamFits dual h265 rec_fps rtsp_fps c)
