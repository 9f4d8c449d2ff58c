-- ===== src/Aes/Field.antt =====
-- The byte field of aes.cpp: XTime and Multiply, and that XTime respects exclusive or.
use gst_app.Prelude.{
  ℕ, ◌*◌, ◌/◌, ◌%◌, ◌<◌, ◌≡◌, refl, true, Bool, ◌&&◌, ltb, ◌==◌, ◌⊕◌, passes, passes-at, ⊕-zero,
  zero-⊕, arith,
}

abbrev pub IsByte : ℕ → Type 0
IsByte x = x < 256

-- ((X << 1) & 0xFF) ^ (((X >> 7) & 1) * 0x1B)
unfoldable pub x_time : ℕ → ℕ
x_time x = (x * 2) % 256 ⊕ x / 128 % 2 * 0x1b

unfoldable pub multiply : ℕ → ℕ → ℕ
multiply x y =
    y % 2 * x
    ⊕ y / 2 % 2 * x_time x
    ⊕ y / 4 % 2 * x_time (x_time x)
    ⊕ y / 8 % 2 * x_time (x_time (x_time x))
    ⊕ y / 16 % 2 * x_time (x_time (x_time (x_time x)))

linear_at : ℕ → ℕ → Bool
linear_at a b = x_time (a ⊕ b) == x_time a ⊕ x_time b && ltb (a ⊕ b) 256

linear_row : ℕ → Bool
linear_row a = passes (linear_at a) 256

linear_table : passes linear_row 256 ≡ true
unfolding passes linear_row linear_at x_time
linear_table = refl

linear_at_lem : (a b : ℕ) → a < 256 → b < 256 → linear_at a b ≡ true
unfolding linear_row
linear_at_lem a b p q = passes-at (linear_at a) 256 b q (passes-at linear_row 256 a p linear_table)

pub x_time-⊕ : (a b : ℕ) → a < 256 → b < 256 → x_time (a ⊕ b) ≡ x_time a ⊕ x_time b
unfolding linear_at
x_time-⊕ a b p q = ground (arith, linear_at_lem a b p q)

pub ⊕_fits : (a b : ℕ) → a < 256 → b < 256 → a ⊕ b < 256
unfolding linear_at
⊕_fits a b p q = ground (arith, linear_at_lem a b p q)

small_table : passes (λ x. ltb (x_time x) 256) 256 ≡ true
unfolding passes x_time
small_table = refl

pub x_time_fits : (x : ℕ) → x < 256 → x_time x < 256
x_time_fits x p = ground (arith, passes-at (λ y. ltb (x_time y) 256) 256 x p small_table)

zero_times : (x : ℕ) → 0 * x ≡ 0
zero_times x = omega arith

one_times : (x : ℕ) → 1 * x ≡ x
one_times x = omega arith

pub multiply-nine : (x : ℕ) → multiply x 0x09 ≡ x ⊕ x_time (x_time (x_time x))
unfolding multiply
multiply-nine x = simp (zero_times, one_times, ⊕-zero)

pub multiply-eleven : (x : ℕ) → multiply x 0x0b ≡ x ⊕ x_time x ⊕ x_time (x_time (x_time x))
unfolding multiply
multiply-eleven x = simp (zero_times, one_times, ⊕-zero)

pub multiply-thirteen :
    (x : ℕ) → multiply x 0x0d ≡ x ⊕ x_time (x_time x) ⊕ x_time (x_time (x_time x))
unfolding multiply
multiply-thirteen x = simp (zero_times, one_times, ⊕-zero)

pub multiply-fourteen :
    (x : ℕ) → multiply x 0x0e ≡ x_time x ⊕ x_time (x_time x) ⊕ x_time (x_time (x_time x))
unfolding multiply
multiply-fourteen x = simp (zero_times, one_times, zero-⊕, ⊕-zero)

pub multiply-two : (x : ℕ) → multiply x 2 ≡ x_time x
unfolding multiply
multiply-two x = simp (zero_times, one_times, zero-⊕, ⊕-zero)

pub multiply-three : (x : ℕ) → multiply x 3 ≡ x ⊕ x_time x
unfolding multiply
multiply-three x = simp (zero_times, one_times, ⊕-zero)

pub multiply-one : (x : ℕ) → multiply x 1 ≡ x
unfolding multiply
multiply-one x = simp (zero_times, one_times, ⊕-zero)
