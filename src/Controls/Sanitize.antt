-- ===== src/Controls/Sanitize.antt =====
-- The zoom sanitizers of max9296Controls.cpp bring every value into the driver's range.
use gst_app.Prelude.{ℕ, ◌≤◌, ◌≡◌, ◌↔◌, some, arith}
use gst_app.Controls.{
  dz_min, dz_max, dz_center_max, dz_sanitize, zoom_center_sanitize, ZoomCenter, sanitized_dz,
  sanitized_center,
}

abbrev pub IsZoom : ℕ → Type 0
IsZoom dz = (dz_min ≤ dz) × (dz ≤ dz_max)

pub record IsCenter (c : ZoomCenter) : Type 0 where
  pub x_fits : c.x ≤ dz_center_max
  pub y_fits : c.y ≤ dz_center_max

-- A zoom factor is reported and replaced exactly when it is out of range; the factor that is left
-- is always in range, and a second call reports nothing and changes nothing.
dz_sanitize-IsZoom :
    (dz : ℕ)
    → (out : ℕ) × ((dz_sanitize (some dz)).0 ≡ some out)
      × IsZoom out
      × (((dz_sanitize (some dz)).1 ≡ 0) ↔ IsZoom dz)
      × (IsZoom dz → out ≡ dz)
      × (dz_sanitize (some out) ≡ (some out, 0))
unfolding dz_sanitize
dz_sanitize-IsZoom dz = (
  sanitized_dz dz,
  unfold sanitized_dz in ground arith,
  unfold sanitized_dz in ground arith,
  ground arith,
  unfold sanitized_dz in λ h. ground arith,
  unfold sanitized_dz in ground arith,
)

-- A zoom centre keeps each coordinate that fits 16 bits, has each other one replaced by the middle,
-- and the flags name exactly the coordinates that were replaced; the result is in range.
zoom_center_sanitize-IsCenter :
    (c : ZoomCenter)
    → (out : ZoomCenter) × ((zoom_center_sanitize (some c)).0 ≡ some out)
      × IsCenter out
      × (c.x ≤ dz_center_max → out.x ≡ c.x)
      × (c.y ≤ dz_center_max → out.y ≡ c.y)
      × (((zoom_center_sanitize (some c)).1 ≡ 0) ↔ IsCenter c)
      × (zoom_center_sanitize (some out) ≡ (some out, 0))
unfolding zoom_center_sanitize
zoom_center_sanitize-IsCenter c = (
  sanitized_center c,
  unfold sanitized_center in ground arith,
  unfold sanitized_center in ground arith,
  unfold sanitized_center in λ h. ground arith,
  unfold sanitized_center in λ h. ground arith,
  ground arith,
  unfold sanitized_center in ground arith,
)
