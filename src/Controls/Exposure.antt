-- ===== src/Controls/Exposure.antt =====
-- Which exposure seed max9296Controls.cpp writes: decided by the frame rate and by the slots
-- without
-- automatic exposure.
use gst_app.Prelude.{
  ℕ, ◌-◌, ◌%◌, ◌/◌, ◌≤◌, ◌<◌, ◌≡◌, ◌↔◌, ◌&&◌, ◌||◌, Bool, true, refl, arith, not, ◌==◌, ◌!=◌,
  if◌then◌else◌, passes, passes-at, bit_and, bit_and_three,
}
use gst_app.Controls.{exposure_plan, write_exposure_seed, skip_exposure_seed}

-- Slot 0 or slot 1 is enabled and has no automatic exposure.
abbrev lacks_auto : ℕ → ℕ → Bool
lacks_auto enabled auto_ae =
    (enabled % 2 == 1 && not (auto_ae % 2 == 1))
    || (enabled / 2 % 2 == 1 && not (auto_ae / 2 % 2 == 1))

abbrev agrees : ℕ → ℕ → Bool
agrees e a = if lacks_auto e a then bit_and e (255 - a) != 0 else bit_and e (255 - a) == 0

mask_table : passes (λ e. passes (λ a. agrees e a) 4) 4 ≡ true
unfolding passes
mask_table = refl

agrees_lem : (e a : ℕ) → e < 4 → a < 4 → agrees e a ≡ true
agrees_lem e a he ha =
    passes-at (λ a. agrees e a) 4 a ha
      (passes-at (λ e. passes (λ a. agrees e a) 4) 4 e he mask_table)

-- Slot 0 of a mask, and slot 1.
abbrev pub Slot0 : ℕ → Type 0
Slot0 mask = mask % 2 ≡ 1

abbrev pub Slot1 : ℕ → Type 0
Slot1 mask = mask / 2 % 2 ≡ 1

module _ (fps enabled auto_ae : ℕ) (he : enabled < 256) (ha : auto_ae < 256) where
  -- For byte-wide masks the seed is skipped exactly when the rate is above 30 and each enabled slot
  -- has automatic exposure; it is written without a warning exactly when the rate is at most 30.
  exposure_plan_iff :
      ((exposure_plan fps enabled auto_ae ≡ skip_exposure_seed)
        ↔ ((30 < fps) × (Slot0 enabled → Slot0 auto_ae) × (Slot1 enabled → Slot1 auto_ae)))
      × ((exposure_plan fps enabled auto_ae ≡ write_exposure_seed) ↔ (fps ≤ 30))
  unfolding exposure_plan
  exposure_plan_iff = ground (
    arith,
    bit_and_three enabled he,
    bit_and_three auto_ae ha,
    agrees_lem (enabled % 4) (auto_ae % 4),
  )
