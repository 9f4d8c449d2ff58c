-- ===== src/Controls/Batch.antt =====
-- The crop transaction of max9296Controls.cpp: one enable write and the complete five-control
-- tuple.
use gst_app.Prelude.{
  ℕ, ◌≤◌, ◌<◌, ◌≡◌, ◌≢◌, ◌⊎◌, ◌↔◌, inr, refl, pos, some, [], ◌∷◌, map, length, All, arith, ◌==◌,
  if◌then◌else◌,
}
use gst_app.Controls.Sanitize.{IsCenter}
use gst_app.Controls.{
  dz_min, dz_max, dz_center_max, cid_dz, cid_dz_x_ch0, cid_dz_x_ch1, cid_dz_y_ch0, cid_dz_y_ch1,
  cid_crop_enable, ZoomCenter, ControlWrite, CropControlBatch, crop_build_control_batch,
  zoom_build_controls, append_slot_controls, sanitized_dz, sanitized_center, to_int32,
}

-- The driver takes the value: a zoom factor for the zoom control, 16 bits for a coordinate.
abbrev pub Accepted : ControlWrite → Type 0
Accepted w =
    (v : ℕ) × (w.value ≡ pos v)
    × (((w.id ≡ cid_dz) × (dz_min ≤ v) × (v ≤ dz_max)) ⊎ ((w.id ≢ cid_dz) × (v ≤ dz_center_max)))

sanitized_dz-Accepted :
    (dz : ℕ) → Accepted (record { id = cid_dz; value = to_int32 (sanitized_dz dz) })
unfolding sanitized_dz
sanitized_dz-Accepted dz = (sanitized_dz dz, ground arith, ground arith)

sanitized_center-IsCenter : (c : ZoomCenter) → IsCenter (sanitized_center c)
unfolding sanitized_center
sanitized_center-IsCenter c = ground arith

coordinate-Accepted :
    (id v : ℕ) → id ≢ cid_dz → v ≤ dz_center_max → Accepted (record { id = id; value = to_int32 v })
coordinate-Accepted id v other fits = (v, ground arith, inr (other, fits))

abbrev sent : ℕ → ℕ → ControlWrite
sent id v = record { id = id; value = to_int32 v }

x_Accepted : {id : ℕ} (c : ZoomCenter) → id ≢ cid_dz → Accepted (sent id (sanitized_center c).x)
x_Accepted c other = coordinate-Accepted _ _ other (sanitized_center-IsCenter c).x_fits

y_Accepted : {id : ℕ} (c : ZoomCenter) → id ≢ cid_dz → Accepted (sent id (sanitized_center c).y)
y_Accepted c other = coordinate-Accepted _ _ other (sanitized_center-IsCenter c).y_fits

-- The batch that the crop transaction submits for given inputs.
batch_for : ℕ → ℕ → ZoomCenter → ZoomCenter → CropControlBatch
batch_for crop dz c0 c1 =
    let tuple =
      zoom_build_controls 3 (sanitized_dz dz) (some (sanitized_center c0, sanitized_center c1)) in
    record {
      enable = record { id = cid_crop_enable; value = if crop == 0 then pos 0 else pos 1 };
      tuple = tuple;
      tuple_count = length tuple;
    }

module _ (crop slots dz : ℕ) (c0 c1 : ZoomCenter) (enabled : 0 < slots) (known : slots ≤ 3) where
  -- With one or both slots enabled the batch always holds the zoom factor and both centres, in this
  -- order and whatever slots are enabled, each value within the driver's range, and the enable
  -- control is 1 exactly for a crop flag that is not 0.
  crop_build_control_batch_complete :
      (b : CropControlBatch) × (crop_build_control_batch crop slots dz (some (c0, c1)) ≡ some b)
      × (map (λ w. w.id) b.tuple
          ≡ cid_dz ∷ cid_dz_x_ch0 ∷ cid_dz_y_ch0 ∷ cid_dz_x_ch1 ∷ cid_dz_y_ch1 ∷ [])
      × (b.tuple_count ≡ 5)
      × All Accepted b.tuple
      × (b.enable.id ≡ cid_crop_enable)
      × ((b.enable.value ≡ pos 1) ↔ (crop ≢ 0))
  unfolding crop_build_control_batch zoom_build_controls append_slot_controls sanitized_dz
      sanitized_center
  crop_build_control_batch_complete = (
    batch_for crop dz c0 c1,
    unfold batch_for in ground arith,
    unfold batch_for in refl,
    unfold batch_for in refl,
    unfold batch_for in
        (
          sanitized_dz-Accepted dz,
          (
            x_Accepted c0 (omega arith),
            (
              y_Accepted c0 (omega arith),
              (x_Accepted c1 (omega arith), (y_Accepted c1 (omega arith), tt)),
            ),
          ),
        ),
    unfold batch_for in refl,
    unfold batch_for in ground arith,
  )
