-- ===== src/Parser/Knobs/Rescale.antt =====
-- enc_gop_rescale of parser.cpp keeps the time between two key frames.
use native.Mathlib.Nat.{div-mul-le_self, lt-div-mul-add, mul-le-mul_right}
use gst_app.Prelude.{
  ℕ, ◌+◌, ◌*◌, ◌/◌, ◌≤◌, ◌<◌, pos, ◌≡◌, refl, ap, true, ltb→lt, ltb, Bool-cases, inl, inr, arith,
  ◌^◌, ◌⊎◌,
}
use gst_app.Parser.Knobs.{scaled, enc_gop_rescale, to_int}

zero_of : (s : ℕ) → ltb s 1 ≡ true → s ≡ 0
zero_of s h = ground arith

pub to_int_small : (s : ℕ) → s < 2 ^ 31 → to_int s ≡ pos s
unfolding to_int
to_int_small s small = ground arith

-- The number of frames before it is bounded.
quotient_small :
    (product prev s : ℕ) → product < 2 ^ 31 → 0 < prev → s * prev ≤ product + prev / 2 → s < 2 ^ 31
quotient_small product prev s small p low = elim (Bool-cases (ltb s (2 ^ 31))) [
  | inl less ↦ ltb→lt s (2 ^ 31) less
  | inr more ↦
      absurd
        (let most : 2 ^ 31 * prev ≤ s * prev = mul-le-mul_right prev (ground arith) in omega arith)
]

-- For positive rates, and a product of the old number of frames and the new rate that an int can
-- hold, the new number of frames is one from 1 to 300, and the nearest one to gop * new / prev: it
-- is too low by more than a half only at 300, and too high by more than a half only at 1.
pub enc_gop_rescale_nearest :
    (gop prev new : ℕ)
    → 0 < gop
    → 0 < prev
    → 0 < new
    → gop * new < 2 ^ 31
    → (r : ℕ) × (enc_gop_rescale (pos gop) (pos prev) (pos new) ≡ pos r)
      × (1 ≤ r)
      × (r ≤ 300)
      × ((r ≡ 300) ⊎ (2 * (gop * new) ≤ 2 * (r * prev) + prev))
      × ((r ≡ 1) ⊎ (2 * (r * prev) ≤ 2 * (gop * new) + prev))
unfolding enc_gop_rescale scaled
enc_gop_rescale_nearest gop prev new g p n fits =
    let s = (gop * new + prev / 2) / prev in
    let low = div-mul-le_self (gop * new + prev / 2) prev in
    let high = lt-div-mul-add {a = gop * new + prev / 2} p in
    let exact = to_int_small s (quotient_small (gop * new) prev s fits p low) in
    elim (Bool-cases (ltb s 1)) [
      | inl small ↦ (
        1,
        rw exact (ground arith),
        omega arith,
        omega arith,
        inr (omega (arith, ap (λ (t : ℕ). t * prev) (zero_of s small))),
        inl refl,
      )
      | inr big ↦ elim (Bool-cases (ltb 300 s)) [
        | inl over ↦ (
          300,
          rw exact (ground arith),
          omega arith,
          omega arith,
          inl refl,
          inr (omega (arith, mul-le-mul_right prev (ltb→lt 300 s over))),
        )
        | inr less ↦ (
          s,
          rw exact (ground arith),
          ground arith,
          ground arith,
          inr (omega arith),
          inr (omega arith),
        )
      ]
    ]
