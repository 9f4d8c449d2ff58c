-- ===== src/Prepare/Number/Decimal.antt =====
-- Printing a number in decimal and parsing it gives the number back.
use gst_app.Prelude.{
  ℕ, zero, suc, ◌+◌, ◌*◌, ◌/◌, ◌%◌, ◌^◌, ◌≤◌, ◌<◌, ◌≡◌, refl, ◌∙◌, ap, ℤ, pos, negsuc, List, [],
  ◌∷◌, ◌++◌, length, get_or, ◌≢◌, length-append, All-append, ltb→lt, Bool, true, false, some, arith,
  All, ltb, Bool-cases, inl, inr, pos_part, neg_part,
}
use native.Mathlib.Nat.{pow-suc}
use gst_app.Prepare.Number.{
  is_digit, all_chars, digit_value, digits_value, parse_unsigned, parse_uint32, parse_int,
  has_hex_prefix, print_digits, decimal, decimal_ℤ, signed_result,
}

abbrev pub IsDigit : ℕ → Type 0
IsDigit c = (b'0' ≤ c) × (c ≤ b'9')

print_digits-IsDigit : (fuel n : ℕ) → All IsDigit (print_digits fuel n)
unfolding print_digits
print_digits-IsDigit zero n = tt
print_digits-IsDigit (suc fuel) n = elim (Bool-cases (ltb n 10)) [
  | inl small ↦ rw small (ground arith)
  | inr large ↦ rw large (
      All-append IsDigit (print_digits fuel (n / 10)) _ (print_digits-IsDigit fuel (n / 10))
        (omega arith))
]

-- Digits are no white space and no `=`.
pub decimal-IsDigit : (n : ℕ) → All IsDigit (decimal n)
unfolding decimal
decimal-IsDigit n = print_digits-IsDigit 20 n

digits_value-append :
    (acc : ℕ) (xs ys : List ℕ)
    → digits_value 10 acc (xs ++ ys) ≡ digits_value 10 (digits_value 10 acc xs) ys
unfolding digits_value
digits_value-append acc [] ys = refl
digits_value-append acc (x ∷ xs) ys = digits_value-append (acc * 10 + digit_value x) xs ys

digits_value-one : (acc d : ℕ) → d < 10 → digits_value 10 acc ((b'0' + d) ∷ []) ≡ acc * 10 + d
unfolding digits_value
digits_value-one acc d h = ground arith

digits_value-print : (fuel n : ℕ) → n < 10 ^ fuel → digits_value 10 0 (print_digits fuel n) ≡ n
unfolding print_digits
digits_value-print zero n h = unfold digits_value in omega arith
digits_value-print (suc fuel) n h = elim (Bool-cases (ltb n 10)) [
  | inl small ↦ rw small (digits_value-one 0 n (ltb→lt n 10 small) ∙ omega arith)
  | inr large ↦ rw large (
      digits_value-append 0 (print_digits fuel (n / 10)) _
      ∙ digits_value-one _ (n % 10) (omega arith)
      ∙ omega (arith, digits_value-print fuel (n / 10) (omega (arith, pow-suc 10 fuel))))
]

length-print : (fuel n : ℕ) → (length (print_digits fuel n) ≤ fuel)
unfolding print_digits
length-print zero n = omega arith
length-print (suc fuel) n = ground (
  arith,
  length-append (print_digits fuel (n / 10)) ((b'0' + n % 10) ∷ []),
  length-print fuel (n / 10),
)

pub length-decimal : (n : ℕ) → (0 < length (decimal n)) × (length (decimal n) ≤ 20)
unfolding decimal print_digits
length-decimal n = (
  ground (arith, length-append (print_digits 19 (n / 10)) ((b'0' + n % 10) ∷ [])),
  length-print 20 n,
)

-- A number below 2 ^ 32 has at most ten digits.
length-print_below : (fuel k n : ℕ) → n < 10 ^ suc k → length (print_digits fuel n) ≤ suc k
unfolding print_digits
length-print_below zero k n h = omega arith
length-print_below (suc fuel) zero n h = ground arith
length-print_below (suc fuel) (suc k) n h = ground (
  arith,
  length-append (print_digits fuel (n / 10)) ((b'0' + n % 10) ∷ []),
  length-print_below fuel k (n / 10) (omega (arith, pow-suc 10 (suc k))),
)

pub length-decimal_uint32 : (n : ℕ) → n < 2 ^ 32 → length (decimal n) ≤ 10
unfolding decimal
length-decimal_uint32 n h = length-print_below 20 9 n (omega arith)

all_chars-digits : (xs : List ℕ) → All IsDigit xs → all_chars is_digit xs ≡ true
unfolding all_chars is_digit
all_chars-digits [] h = refl
all_chars-digits (x ∷ xs) h = ground (arith, all_chars-digits xs)

no_hex_prefix : (xs : List ℕ) → All IsDigit xs → has_hex_prefix xs ≡ false
no_hex_prefix [] h = refl
no_hex_prefix (x ∷ []) h = ground arith
no_hex_prefix (x ∷ y ∷ xs) h = ground arith

parse_unsigned-digits :
    (xs : List ℕ) (code : Bool)
    → 0 < length xs
    → length xs < 32
    → All IsDigit xs
    → digits_value 10 0 xs < 2 ^ 64
    → parse_unsigned xs code ≡ some (digits_value 10 0 xs)
unfolding parse_unsigned
parse_unsigned-digits xs code some_digit short digits fits =
    ground (arith, all_chars-digits xs digits, no_hex_prefix xs digits)

digits_value-decimal : (n : ℕ) → n < 2 ^ 64 → digits_value 10 0 (decimal n) ≡ n
unfolding decimal
digits_value-decimal n h = digits_value-print 20 n (omega arith)

-- Printing a 64-bit number in decimal and parsing it gives the number back, in a code field too.
pub parse_unsigned-decimal :
    (n : ℕ) (code : Bool) → n < 2 ^ 64 → parse_unsigned (decimal n) code ≡ some n
parse_unsigned-decimal n code h =
    let e = digits_value-decimal n h in
    let l = length-decimal n in
    parse_unsigned-digits (decimal n) code l.0 (omega arith) (decimal-IsDigit n) (rw e h)
    ∙ ap some e

pub parse_uint32-decimal :
    (n : ℕ) (code : Bool) → n < 2 ^ 32 → parse_uint32 (decimal n) code ≡ some n
unfolding parse_uint32
parse_uint32-decimal n code h =
    rw (parse_unsigned-decimal n code (omega arith), parse_uint32) (ground arith)

head-IsDigit : (xs : List ℕ) → All IsDigit xs → get_or xs 0 0 ≢ b'-'
head-IsDigit [] h = omega arith
head-IsDigit (x ∷ xs) h = omega arith

parse_int-digits :
    (xs : List ℕ)
    → 0 < length xs
    → length xs < 32
    → All IsDigit xs
    → parse_int xs ≡ signed_result false (digits_value 10 0 xs)
unfolding parse_int
parse_int-digits xs some_digit short digits =
    ground (arith, all_chars-digits xs digits, head-IsDigit xs digits)

parse_int-minus :
    (xs : List ℕ)
    → 0 < length xs
    → length xs < 31
    → All IsDigit xs
    → parse_int (b'-' ∷ xs) ≡ signed_result true (digits_value 10 0 xs)
unfolding parse_int
parse_int-minus xs some_digit short digits = ground (arith, all_chars-digits xs digits)

-- The range of an `int`.
abbrev pub IsInt32 : ℤ → Type 0
IsInt32 v = (pos_part v < 2 ^ 31) × (neg_part v ≤ 2 ^ 31)

-- Printing an `int` in decimal and parsing it gives it back, with its sign.
pub parse_int-decimal : (v : ℤ) → IsInt32 v → parse_int (decimal_ℤ v) ≡ some v
unfolding decimal_ℤ signed_result
parse_int-decimal (pos n) h =
    let l = length-decimal n in
    parse_int-digits (decimal n) l.0 (omega arith) (decimal-IsDigit n)
    ∙ rw (digits_value-decimal n (omega arith)) (ground arith)
parse_int-decimal (negsuc n) h =
    let l = length-decimal (suc n) in
    parse_int-minus (decimal (suc n)) l.0 (omega arith) (decimal-IsDigit (suc n))
    ∙ rw (digits_value-decimal (suc n) (omega arith)) (ground arith)
