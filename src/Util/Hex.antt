-- ===== src/Util/Hex.antt =====
-- `compareBuf` and `convert_data_to_hex`.
pub mod Laws
use gst_app.Prelude.{
  ℕ, zero, suc, ◌+◌, ◌/◌, ◌%◌, Bool, true, false, ◌&&◌, List, [], ◌∷◌, get_or, Option, none, some,
  ltb, leb, ◌==◌, if◌then◌else◌,
}

-- One digit of "%02x".
abbrev pub hex_digit : ℕ → ℕ
hex_digit d = if ltb d 10 then b'0' + d else 87 + d

-- The loop: the text that is written, which starts at `offset` in the buffer.
unfoldable pub convert_data_to_hex : List ℕ → ℕ → ℕ → List ℕ
convert_data_to_hex [] offset buffer_size = []
convert_data_to_hex (c ∷ rest) offset buffer_size =
    let others = convert_data_to_hex rest (offset + 2) buffer_size in
    if leb buffer_size (offset + 2) then [] else hex_digit (c / 16) ∷ hex_digit (c % 16) ∷ others

-- A buffer that is too short reads as zero bytes.
unfoldable pub compare_buf : Option (List ℕ) → Option (List ℕ) → ℕ → Bool
compare_buf none cmp2 len = false
compare_buf (some a) none len = false
compare_buf (some a) (some b) zero = true
compare_buf (some a) (some b) (suc len) =
    compare_buf (some a) (some b) len && get_or a len 0 == get_or b len 0
