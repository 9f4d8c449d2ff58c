-- ===== src/Controls.antt =====
-- max9296Controls.h and max9296Controls.cpp: digital zoom, crop and exposure controls of the
-- camera.
pub mod Sanitize
pub mod Batch
pub mod Exposure
mod Tests
use gst_app.Prelude.{
  ℕ, ◌+◌, ◌-◌, ◌%◌, ◌^◌, ℤ, pos, negsuc, neg, ◌&&◌, ◌||◌, Option, none, some, List, [], ◌∷◌, ◌++◌,
  length, ltb, leb, ◌==◌, ◌!=◌, if◌then◌else◌, bit_and, bit_or,
}

abbrev pub dz_min : ℕ
dz_min = 100

abbrev pub dz_max : ℕ
dz_max = 300

abbrev pub dz_default : ℕ
dz_default = 100

abbrev pub dz_center_max : ℕ
dz_center_max = 65535

abbrev pub dz_x_default : ℕ
dz_x_default = 32768

abbrev pub dz_y_default : ℕ
dz_y_default = 32768

abbrev pub zoom_invalid_dz : ℕ
zoom_invalid_dz = 1

abbrev pub zoom_invalid_x : ℕ
zoom_invalid_x = 2

abbrev pub zoom_invalid_y : ℕ
zoom_invalid_y = 4

-- V4L2_CID_USER_BASE of linux/videodev2.h.
abbrev cid_user_base : ℕ
cid_user_base = 0x00980900

abbrev pub cid_dz : ℕ
cid_dz = cid_user_base + 0x1022

abbrev pub cid_dz_x_ch0 : ℕ
cid_dz_x_ch0 = cid_user_base + 0x1027

abbrev pub cid_dz_x_ch1 : ℕ
cid_dz_x_ch1 = cid_user_base + 0x1028

abbrev pub cid_dz_y_ch0 : ℕ
cid_dz_y_ch0 = cid_user_base + 0x1029

abbrev pub cid_dz_y_ch1 : ℕ
cid_dz_y_ch1 = cid_user_base + 0x102a

abbrev pub cid_crop_enable : ℕ
cid_crop_enable = cid_user_base + 0x102b

pub record ZoomCenter : Type 0 where
  pub x : ℕ
  pub y : ℕ

pub record ControlWrite : Type 0 where
  pub id : ℕ
  pub value : ℤ

pub data ExposurePlan : Type 0 where
  write_exposure_seed warn_and_write_exposure_seed skip_exposure_seed : ExposurePlan

-- The tuple is kept as a list; `tuple_count` is the count the source stores beside it.
pub record CropControlBatch : Type 0 where
  pub enable : ControlWrite
  pub tuple : List ControlWrite
  pub tuple_count : ℕ

-- static_cast<int32_t> of a uint32_t.
abbrev pub to_int32 : ℕ → ℤ
to_int32 w = if leb (2 ^ 31) w then neg (2 ^ 32 - w) else pos w

-- A null pointer is `none`; the result is the pointed-to value after the call and the flags.
unfoldable pub dz_sanitize : Option ℕ → Option ℕ × ℕ
dz_sanitize none = (none, zoom_invalid_dz)
dz_sanitize (some dz) =
    if ltb dz dz_min || ltb dz_max dz then (some dz_default, zoom_invalid_dz) else (some dz, 0)

sanitize_x : ZoomCenter → ZoomCenter × ℕ
sanitize_x c =
    if ltb dz_center_max c.x
    then (record c { x = dz_x_default }, bit_or 0 zoom_invalid_x)
    else (c, 0)

sanitize_y : ZoomCenter → ℕ → ZoomCenter × ℕ
sanitize_y c invalid =
    if ltb dz_center_max c.y
    then (record c { y = dz_y_default }, bit_or invalid zoom_invalid_y)
    else (c, invalid)

unfoldable pub zoom_center_sanitize : Option ZoomCenter → Option ZoomCenter × ℕ
unfolding sanitize_x sanitize_y
zoom_center_sanitize none = (none, bit_or zoom_invalid_x zoom_invalid_y)
zoom_center_sanitize (some center) =
    let (c, flags) = sanitize_x center in let (c', flags') = sanitize_y c flags in (some c', flags')

-- What is written at `controls + count`.
unfoldable pub append_slot_controls : ℕ → ZoomCenter → List ControlWrite
append_slot_controls slot center =
    let x_id = if slot == 0 then cid_dz_x_ch0 else cid_dz_x_ch1 in
    let y_id = if slot == 0 then cid_dz_y_ch0 else cid_dz_y_ch1 in
    record { id = x_id; value = to_int32 center.x }
    ∷ record { id = y_id; value = to_int32 center.y }
    ∷ []

-- The controls written, whose number is the returned count; null arrays are `none`.
unfoldable pub zoom_build_controls : ℕ → ℕ → Option (ZoomCenter × ZoomCenter) → List ControlWrite
unfolding append_slot_controls
zoom_build_controls enabled_slots common_dz none = []
zoom_build_controls enabled_slots common_dz (some (center0, center1)) =
    if enabled_slots == 0 || ltb 3 enabled_slots
    then []
    else record { id = cid_dz; value = to_int32 common_dz }
      ∷ ((if bit_and enabled_slots 1 != 0 then append_slot_controls 0 center0 else [])
          ++ (if bit_and enabled_slots 2 != 0 then append_slot_controls 1 center1 else []))

unfoldable pub mode_total_fps_limit : ℕ → ℕ → ℕ
mode_total_fps_limit width height =
    if (width == 640 && height == 360) || (width == 1280 && height == 720)
    then 240
    else if width == 1920 && height == 1080
    then 180
    else 0

-- The result and what is stored through `invalid`.
unfoldable pub crop_enable_normalize : ℕ → ℕ → ℤ → ℕ × ℕ
crop_enable_normalize present boolean_type (pos value) =
    if present == 0
    then (0, 0)
    else if boolean_type == 0 || (value != 0 && value != 1)
    then (0, 1)
    else (value % 256, 0)
crop_enable_normalize present boolean_type (negsuc value) = if present == 0 then (0, 0) else (0, 1)

sanitized_dz : ℕ → ℕ
unfolding dz_sanitize
sanitized_dz dz = elim (dz_sanitize (some dz)).0 [ none ↦ dz | some v ↦ v ]

sanitized_center : ZoomCenter → ZoomCenter
unfolding zoom_center_sanitize
sanitized_center c = elim (zoom_center_sanitize (some c)).0 [ none ↦ c | some v ↦ v ]

-- `none` is the -1, which leaves the batch alone.
unfoldable pub crop_build_control_batch :
    ℕ → ℕ → ℕ → Option (ZoomCenter × ZoomCenter) → Option CropControlBatch
unfolding zoom_build_controls sanitized_dz sanitized_center
crop_build_control_batch crop_enable enabled_slots common_dz none = none
crop_build_control_batch crop_enable enabled_slots common_dz (some (c0, c1)) =
    if enabled_slots == 0 || ltb 3 enabled_slots
    then none
    else let tuple =
        zoom_build_controls 3 (sanitized_dz common_dz)
          (some (sanitized_center c0, sanitized_center c1)) in
      if length tuple == 0
      then none
      else some (record {
        enable = record { id = cid_crop_enable; value = if crop_enable != 0 then pos 1 else pos 0 };
        tuple = tuple;
        tuple_count = length tuple;
      })

unfoldable pub single_active_slot : ℕ → Option ℕ
single_active_slot enabled_slots =
    if enabled_slots == 1 then some 0 else if enabled_slots == 2 then some 1 else none

unfoldable pub exposure_plan : ℕ → ℕ → ℕ → ExposurePlan
exposure_plan fps enabled_slots auto_ae_slots =
    if leb fps 30
    then write_exposure_seed
    else let enabled = bit_and enabled_slots 3 in
      let auto_ae = bit_and auto_ae_slots 3 in
      if bit_and enabled (255 - auto_ae) != 0
      then warn_and_write_exposure_seed
      else skip_exposure_seed
