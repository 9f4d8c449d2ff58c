-- ===== src/Util/Hex/Laws.antt =====
-- What the hexadecimal text holds.
use gst_app.Prelude.{
  ℕ, zero, suc, ◌+◌, ◌*◌, ◌-◌, ◌/◌, ◌%◌, ◌<◌, ◌≡◌, refl, sym, ◌∙◌, ap₂, Bool-cases, inl, inr, List,
  [], ◌∷◌, length, take, All, ltb, leb, if◌then◌else◌, arith,
}
use gst_app.Util.Hex.{hex_digit, convert_data_to_hex}

-- The bytes that a text of digit pairs stands for.
abbrev pub digit_value : ℕ → ℕ
digit_value d = if ltb d 58 then d - 48 else d - 87

abbrev pub read_hex : List ℕ → List ℕ
read_hex [] = []
read_hex (d ∷ []) = []
read_hex (d ∷ e ∷ rest) = (digit_value d * 16 + digit_value e) ∷ read_hex rest

read_pair :
    (c : ℕ) → c < 256 → digit_value (hex_digit (c / 16)) * 16 + digit_value (hex_digit (c % 16)) ≡ c
read_pair c h = ground arith

take_nil : (n : ℕ) → [] ≡ take {A = ℕ} n []
take_nil zero = refl
take_nil (suc n) = refl

take_none : (n : ℕ) (xs : List ℕ) → n ≡ 0 → take n xs ≡ []
take_none n xs h = rw h refl

take_more : (n k x : ℕ) (xs : List ℕ) → n ≡ suc k → take n (x ∷ xs) ≡ x ∷ take k xs
take_more n k x xs h = rw h refl

-- From any offset, the text stands for as many of the bytes as there is room for with a final zero
-- byte, and it leaves room for that.
hex_from :
    (bytes : List ℕ) (offset size : ℕ)
    → All (λ c. c < 256) bytes
    → (read_hex (convert_data_to_hex bytes offset size) ≡ take ((size - offset - 1) / 2) bytes)
      × (offset < size → offset + length (convert_data_to_hex bytes offset size) < size)
unfolding convert_data_to_hex
hex_from [] offset size h = (take_nil ((size - offset - 1) / 2), λ r. omega arith)
hex_from (c ∷ bytes) offset size h =
    let left = (size - offset - 1) / 2 in
    elim (Bool-cases (leb size (offset + 2))) [
      | inl full ↦
          let none_left : left ≡ 0 = ground arith in
          rw full (sym (take_none left (c ∷ bytes) none_left), λ r. omega arith)
      | inr room ↦
          let later = (size - (offset + 2) - 1) / 2 in
          let one_more : left ≡ suc later = ground arith in
          let ends : offset + 2 < size = ground arith in
          let ih = hex_from bytes (offset + 2) size h.1 in
          rw room (
            ap₂ (λ x xs. x ∷ xs) (read_pair c h.0) ih.0
                ∙ sym (take_more left later c bytes one_more),
            λ r. omega (arith, ih.1 ends),
          )
    ]

-- In a buffer of a positive size, the text leaves room for its final zero byte, and read as pairs of
-- digits it is the bytes again, as many of them as there is room for.
convert_data_to_hex-read :
    (bytes : List ℕ) (size : ℕ)
    → All (λ c. c < 256) bytes
    → 0 < size
    → (length (convert_data_to_hex bytes 0 size) < size)
      × (read_hex (convert_data_to_hex bytes 0 size) ≡ take ((size - 1) / 2) bytes)
convert_data_to_hex-read bytes size h room =
    let (text, fits) = hex_from bytes 0 size h in
    let zero_off : size - 0 - 1 ≡ size - 1 = omega arith in
    let same : length (convert_data_to_hex bytes 0 size) < size = omega (arith, fits room) in
    (same, rw zero_off at text)
