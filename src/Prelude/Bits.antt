-- ===== src/Prelude/Bits.antt =====
-- Facts about the bit operations on bytes, by evaluation of every case.
use Prim.Native.Nat.{ℕ, zero, suc, ◌%◌, ◌<◌, bit_and}
use mathlib.Core.Path.{◌≡◌, refl}
use mathlib.Core.Bool.{Bool, true, false}
use native.Mathlib.Omega.{arith}
use gst_app.Prelude.Tests.{◌==◌, ==_iff, if◌then◌else◌}

-- The test holds for all numbers under `top`.
unfoldable pub passes : (ℕ → Bool) → ℕ → Bool
passes test zero = true
passes test (suc top) = let lower = passes test top in if test top then lower else false

pub passes-at : (test : ℕ → Bool) (top i : ℕ) → i < top → passes test top ≡ true → test i ≡ true
unfolding passes
passes-at test zero i small all = absurd (omega arith)
passes-at test (suc top) i small all = ground (arith, passes-at test top i)

low_two_bits : passes (λ byte. bit_and byte 3 == byte % 4) 256 ≡ true
unfolding passes
low_two_bits = refl

pub bit_and_three : (byte : ℕ) → byte < 256 → bit_and byte 3 ≡ byte % 4
bit_and_three byte small =
    (==_iff (bit_and byte 3) (byte % 4)).0 (passes-at _ 256 byte small low_two_bits)
