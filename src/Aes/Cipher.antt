-- ===== src/Aes/Cipher.antt =====
-- KeyExpansion, Cipher, InvCipher and the two ECB calls of aes.cpp, built for 16-byte keys.
pub mod Inverse
pub mod Expansion
pub mod Ecb
use gst_app.Prelude.{
  ℕ, zero, suc, ◌+◌, ◌-◌, ◌/◌, ◌%◌, List, [], ◌∷◌, ◌++◌, get_or, take, drop, if◌then◌else◌, ◌==◌,
  ◌⊕◌,
}
use gst_app.Aes.Rounds.{
  Row, State, get_s_box, add_round_key, sub_bytes, shift_rows, mix_columns, inv_shift_rows,
  inv_sub_bytes, inv_mix_columns,
}

abbrev pub key_len : ℕ
key_len = 16

-- Nr
abbrev pub rounds : ℕ
rounds = 10

abbrev pub key_exp_size : ℕ
key_exp_size = 176

abbrev pub r_con : List ℕ
r_con = 0x8d ∷ 0x01 ∷ 0x02 ∷ 0x04 ∷ 0x08 ∷ 0x10 ∷ 0x20 ∷ 0x40 ∷ 0x80 ∷ 0x1b ∷ 0x36 ∷ []

row_at : List ℕ → ℕ → Row
row_at bytes i = record {
  b0 = get_or bytes i 0;
  b1 = get_or bytes (i + 1) 0;
  b2 = get_or bytes (i + 2) 0;
  b3 = get_or bytes (i + 3) 0;
}

-- TA once the turn, the substitution and the round constant are done with.
schedule : List ℕ → ℕ → Row
unfolding row_at
schedule exp_key i =
    let ta = row_at exp_key (i - 4) in
    let turned = get_s_box (record { b0 = ta.b1; b1 = ta.b2; b2 = ta.b3; b3 = ta.b0 }) in
    if i % key_len == 0 then record turned { b0 = turned.b0 ⊕ get_or r_con (i / key_len) 0 } else ta

-- The four bytes that the loop writes at `i`, which is the end of what is written so far.
next_word : List ℕ → ℕ → List ℕ
unfolding schedule row_at
next_word exp_key i =
    let ta = schedule exp_key i in
    let before = row_at exp_key (i - key_len) in
    (before.b0 ⊕ ta.b0) ∷ (before.b1 ⊕ ta.b1) ∷ (before.b2 ⊕ ta.b2) ∷ (before.b3 ⊕ ta.b3) ∷ []

-- The loop from `i` in steps of 4, with the number of words left.
expand_loop : ℕ → ℕ → List ℕ → List ℕ
expand_loop zero i exp_key = exp_key
expand_loop (suc left) i exp_key = expand_loop left (i + 4) (exp_key ++ next_word exp_key i)

unfoldable pub key_expansion : List ℕ → List ℕ
unfolding expand_loop next_word
key_expansion key = expand_loop ((key_exp_size - key_len) / 4) key_len (take key_len key)

-- One pass of the loop of Cipher.
cipher_round : List ℕ → ℕ → State → State
cipher_round exp_key round s = add_round_key (mix_columns (shift_rows (sub_bytes s))) exp_key round

-- The loop of Cipher from `round` on, with the number of passes left.
cipher_rounds : List ℕ → ℕ → ℕ → State → State
cipher_rounds exp_key zero round s = s
cipher_rounds exp_key (suc left) round s =
    cipher_rounds exp_key left (round + 1) (cipher_round exp_key round s)

unfoldable pub cipher : State → List ℕ → State
unfolding cipher_round cipher_rounds
cipher s exp_key =
    let mixed = cipher_rounds exp_key (rounds - 1) 1 (add_round_key s exp_key 0) in
    add_round_key (shift_rows (sub_bytes mixed)) exp_key rounds

-- One pass of the loop of InvCipher.
inv_round : List ℕ → ℕ → State → State
inv_round exp_key round s =
    inv_mix_columns (add_round_key (inv_sub_bytes (inv_shift_rows s)) exp_key round)

-- The loop of InvCipher from `round` down to 1.
inv_rounds : List ℕ → ℕ → State → State
inv_rounds exp_key zero s = s
inv_rounds exp_key (suc round) s = inv_rounds exp_key round (inv_round exp_key (suc round) s)

unfoldable pub inv_cipher : State → List ℕ → State
unfolding inv_round inv_rounds
inv_cipher s exp_key =
    let opened = inv_rounds exp_key (rounds - 1) (add_round_key s exp_key rounds) in
    add_round_key (inv_sub_bytes (inv_shift_rows opened)) exp_key 0

-- (BYTE(*)[4]) of a buffer: its first 16 bytes as a state, and the buffer with them replaced.
unfoldable pub state_of : List ℕ → State
unfolding row_at
state_of bytes = record {
  r0 = row_at bytes 0;
  r1 = row_at bytes 4;
  r2 = row_at bytes 8;
  r3 = row_at bytes 12;
}

bytes_of_row : Row → List ℕ
bytes_of_row r = r.b0 ∷ r.b1 ∷ r.b2 ∷ r.b3 ∷ []

unfoldable pub bytes_of : State → List ℕ
unfolding bytes_of_row
bytes_of s = bytes_of_row s.r0 ++ (bytes_of_row s.r1 ++ (bytes_of_row s.r2 ++ bytes_of_row s.r3))

-- memcpy(Output, Input, Length)
abbrev pub copied : List ℕ → List ℕ → ℕ → List ℕ
copied input output len = take len input ++ drop len output

-- `output` is what the caller's buffer holds before the call; the result is what it holds after.
unfoldable pub aes_ecb_encrypt : List ℕ → List ℕ → List ℕ → ℕ → List ℕ
aes_ecb_encrypt input key output len =
    let buffer = copied input output len in
    bytes_of (cipher (state_of buffer) (key_expansion key)) ++ drop 16 buffer

unfoldable pub aes_ecb_decrypt : List ℕ → List ℕ → List ℕ → ℕ → List ℕ
aes_ecb_decrypt input key output len =
    let buffer = copied input output len in
    bytes_of (inv_cipher (state_of buffer) (key_expansion key)) ++ drop 16 buffer
