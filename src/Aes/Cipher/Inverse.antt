-- ===== src/Aes/Cipher/Inverse.antt =====
-- InvCipher undoes Cipher in aes.cpp, for every key.
use gst_app.Prelude.{ℕ, zero, suc, ◌-◌, ◌≡◌, refl, ap, ◌∙◌, List}
use gst_app.Aes.Rounds.{
  State, StateFits, add_round_key, sub_bytes, shift_rows, mix_columns, inv_shift_rows,
  inv_sub_bytes,
}
use gst_app.Aes.Rounds.Inverse.{
  KeyFits, inv_shift_rows-shift_rows, shift_rows_fits, inv_sub_bytes-sub_bytes, sub_bytes_fits,
  inv_mix_columns-mix_columns, mix_columns_fits, add_round_key_twice, add_round_key_fits,
}
use gst_app.Aes.Cipher.{cipher, cipher_round, inv_cipher, inv_round, inv_rounds, rounds}

module _ (key : List ℕ) (fits : KeyFits key) (start : State) (bytes : StateFits start) where
  -- The state after that many passes of the loop of Cipher.
  after : ℕ → State
  after zero = add_round_key start key 0
  after (suc n) = cipher_round key (suc n) (after n)

  cipher_round_fits : (n : ℕ) {s : State} → StateFits s → StateFits (cipher_round key n s)
  unfolding cipher_round
  cipher_round_fits n h =
      add_round_key_fits key fits n (mix_columns_fits (shift_rows_fits (sub_bytes_fits h)))

  after_fits : (n : ℕ) → StateFits (after n)
  unfolding after
  after_fits zero = add_round_key_fits key fits 0 bytes
  after_fits (suc n) = cipher_round_fits (suc n) (after_fits n)

  -- What the second half of a pass and the two halves of the ends share.
  turned : State → State
  turned s = shift_rows (sub_bytes s)

  turned_back : {s : State} → StateFits s → inv_sub_bytes (inv_shift_rows (turned s)) ≡ s
  unfolding turned
  turned_back {s} h = rw (inv_shift_rows-shift_rows (sub_bytes s)) (inv_sub_bytes-sub_bytes h)

  step_back :
      (n : ℕ)
      → add_round_key (after (suc n)) key (suc n) ≡ mix_columns (shift_rows (sub_bytes (after n)))
  unfolding after cipher_round
  step_back n = add_round_key_twice key (mix_columns (shift_rows (sub_bytes (after n)))) (suc n)

  inv_round-after : (n : ℕ) → inv_round key (suc n) (turned (after (suc n))) ≡ turned (after n)
  unfolding inv_round turned
  inv_round-after n =
      rw (turned_back (after_fits (suc n)), step_back n)
        (inv_mix_columns-mix_columns (shift_rows_fits (sub_bytes_fits (after_fits n))))

  inv_rounds-after : (n : ℕ) → inv_rounds key n (turned (after n)) ≡ turned (after zero)
  unfolding inv_rounds
  inv_rounds-after zero = refl
  inv_rounds-after (suc n) = rw (inv_round-after n) (inv_rounds-after n)

  -- Deciphering undoes enciphering: for every expanded key of bytes and every block of bytes,
  -- InvCipher of Cipher's result is the block.
  pub inv_cipher-cipher : inv_cipher (cipher start key) key ≡ start
  unfolding cipher inv_cipher after turned
  inv_cipher-cipher =
      ap opened (add_round_key_twice key (turned (after (rounds - 1))) rounds)
      ∙ ap closed (inv_rounds-after (rounds - 1))
      ∙ ap (λ s. add_round_key s key 0) (turned_back (after_fits zero))
      ∙ add_round_key_twice key start 0
    where
      closed : State → State
      closed s = add_round_key (inv_sub_bytes (inv_shift_rows s)) key 0

      opened : State → State
      opened s = closed (inv_rounds key (rounds - 1) s)
