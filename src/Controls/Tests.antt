-- ===== src/Controls/Tests.antt =====
-- The code of max9296Controls.cpp at concrete inputs.
use gst_app.Prelude.{◌≡◌, refl, some, [], ◌∷◌, map, pos}
use gst_app.Controls.{
  ZoomCenter, cid_dz, cid_dz_x_ch1, cid_dz_y_ch1, exposure_plan, warn_and_write_exposure_seed,
  zoom_build_controls, crop_enable_normalize, single_active_slot, mode_total_fps_limit,
}

abbrev wide : ZoomCenter
wide = record { x = 70000; y = 12 }

abbrev middle : ZoomCenter
middle = record { x = 500; y = 65535 }

exposure_plan_warns : exposure_plan 60 3 1 ≡ warn_and_write_exposure_seed
unfolding exposure_plan
exposure_plan_warns = refl

one_slot_controls :
    map (λ w. w.id) (zoom_build_controls 2 150 (some (wide, middle)))
    ≡ cid_dz ∷ cid_dz_x_ch1 ∷ cid_dz_y_ch1 ∷ []
unfolding zoom_build_controls
one_slot_controls = refl

crop_flag_rejected : crop_enable_normalize 1 1 (pos 2) ≡ (0, 1)
unfolding crop_enable_normalize
crop_flag_rejected = refl

slots_and_modes : (single_active_slot 2 ≡ some 1) × (mode_total_fps_limit 1920 1080 ≡ 180)
unfolding single_active_slot mode_total_fps_limit
slots_and_modes = (refl, refl)
