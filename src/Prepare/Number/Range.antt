-- ===== src/Prepare/Number/Range.antt =====
-- A number that is parsed lies within the range of the C type that receives it.
use gst_app.Prelude.{ℕ, ◌^◌, ◌<◌, ◌≡◌, List, Bool, some, drop, ℤ, arith}
use gst_app.Prepare.Number.{
  digits_value, in_range, signed_result, parse_unsigned, parse_uint32, parse_int,
}
use gst_app.Prepare.Number.Decimal.{IsInt32}

in_range-lt : (limit v n : ℕ) → in_range limit v ≡ some n → n < limit
unfolding in_range
in_range-lt limit v n h = ground arith

pub parse_unsigned-lt :
    (v : List ℕ) (code : Bool) (n : ℕ) → parse_unsigned v code ≡ some n → n < 2 ^ 64
unfolding parse_unsigned
parse_unsigned-lt v code n h = ground (
  arith,
  in_range-lt (2 ^ 64) (digits_value 16 0 (drop 2 v)) n,
  in_range-lt (2 ^ 64) (digits_value 10 0 v) n,
)

pub parse_uint32-lt : (v : List ℕ) (code : Bool) (n : ℕ) → parse_uint32 v code ≡ some n → n < 2 ^ 32
unfolding parse_uint32
parse_uint32-lt v code n h = ground arith

signed_result-IsInt32 :
    (negative : Bool) (v : ℕ) (n : ℤ) → signed_result negative v ≡ some n → IsInt32 n
unfolding signed_result
signed_result-IsInt32 negative v n h = ground arith

pub parse_int-IsInt32 : (v : List ℕ) (n : ℤ) → parse_int v ≡ some n → IsInt32 n
unfolding parse_int
parse_int-IsInt32 v n h = ground arith
