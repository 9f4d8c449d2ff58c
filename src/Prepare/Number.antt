-- ===== src/Prepare/Number.antt =====
-- The number parsers of max9296Prepare.cpp over bytes, and `snprintf`'s decimals.
pub mod Decimal
pub mod Range
use gst_app.Prelude.{
  ℕ, zero, suc, ◌+◌, ◌-◌, ◌*◌, ◌/◌, ◌%◌, ◌^◌, ℤ, pos, neg, List, [], ◌∷◌, ◌++◌, length, Bool, true,
  false, ◌&&◌, ◌||◌, not, Option, none, some, ltb, leb, ◌==◌, if◌then◌else◌, get_or, drop,
}

-- `isdigit`, `isxdigit` and `isspace` in the C locale.
unfoldable pub is_digit : ℕ → Bool
is_digit c = leb b'0' c && leb c b'9'

is_xdigit : ℕ → Bool
unfolding is_digit
is_xdigit c = is_digit c || (leb b'a' c && leb c b'f') || (leb b'A' c && leb c b'F')

unfoldable pub is_space : ℕ → Bool
is_space c = c == 32 || (leb 9 c && leb c 13)

unfoldable pub all_chars : (ℕ → Bool) → List ℕ → Bool
all_chars test [] = true
all_chars test (c ∷ cs) = test c && all_chars test cs

-- The value of one digit, in any base up to 16.
digit_value : ℕ → ℕ
digit_value c = if leb b'a' c then c - b'a' + 10 else if leb b'A' c then c - b'A' + 10 else c - b'0'

-- `strtoull` and `strtol` on text that is all digits: the value, before any range check.
unfoldable pub digits_value : ℕ → ℕ → List ℕ → ℕ
unfolding digit_value
digits_value base acc [] = acc
digits_value base acc (c ∷ cs) = digits_value base (acc * base + digit_value c) cs

-- A value that does not fit is `ERANGE`.
in_range : ℕ → ℕ → Option ℕ
in_range limit v = if ltb v limit then some v else none

abbrev has_hex_prefix : List ℕ → Bool
has_hex_prefix source =
    get_or source 0 0 == b'0' && (get_or source 1 0 == b'x' || get_or source 1 0 == b'X')

unfoldable pub parse_unsigned : List ℕ → Bool → Option ℕ
unfolding is_xdigit in_range
parse_unsigned source code =
    if length source == 0 || leb 32 (length source)
    then none
    else if code && ltb 2 (length source) && has_hex_prefix source
    then if all_chars is_xdigit (drop 2 source)
      then in_range (2 ^ 64) (digits_value 16 0 (drop 2 source))
      else none
    else if all_chars is_digit source
    then in_range (2 ^ 64) (digits_value 10 0 source)
    else none

unfoldable pub parse_uint32 : List ℕ → Bool → Option ℕ
parse_uint32 source code = elim (parse_unsigned source code) [
  | none ↦ none
  | some parsed ↦ if ltb (2 ^ 32 - 1) parsed then none else some parsed
]

-- `strtol` and the `INT_MIN` and `INT_MAX` tests: the magnitude that is left.
signed_result : Bool → ℕ → Option ℤ
signed_result negative v =
    if negative
    then if ltb (2 ^ 31) v then none else some (neg v)
    else if ltb (2 ^ 31 - 1) v
    then none
    else some (pos v)

unfoldable pub parse_int : List ℕ → Option ℤ
unfolding signed_result
parse_int source =
    if length source == 0 || leb 32 (length source)
    then none
    else let negative = get_or source 0 0 == b'-' in
      if negative && length source == 1
      then none
      else let digits = if negative then drop 1 source else source in
        if all_chars is_digit digits
        then signed_result negative (digits_value 10 0 digits)
        else none

-- `%u` and `%llu`: the decimal digits of a number below 10 ^ fuel.
unfoldable pub print_digits : ℕ → ℕ → List ℕ
print_digits zero n = []
print_digits (suc fuel) n =
    let rest = print_digits fuel (n / 10) in
    if ltb n 10 then (b'0' + n) ∷ [] else rest ++ (b'0' + n % 10) ∷ []

-- Twenty digits hold every 64-bit number.
unfoldable pub decimal : ℕ → List ℕ
unfolding print_digits
decimal n = print_digits 20 n

-- `%d`.
unfoldable pub decimal_ℤ : ℤ → List ℕ
decimal_ℤ (pos n) = decimal n
decimal_ℤ (ℤ.negsuc n) = b'-' ∷ decimal (suc n)
