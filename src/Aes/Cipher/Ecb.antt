-- ===== src/Aes/Cipher/Ecb.antt =====
-- AES_ECB_Encrypt and AES_ECB_Decrypt of aes.cpp on a buffer of at least one block.
use gst_app.Prelude.{
  ℕ, zero, suc, ◌+◌, ◌≤◌, ◌≡◌, refl, ap, subst, ◌∙◌, List, [], ◌∷◌, ◌++◌, length, take, drop, arith,
}
use gst_app.Aes.Rounds.{Row, RowFits, State, StateFits}
use gst_app.Aes.Cipher.{
  cipher, inv_cipher, key_expansion, key_len, state_of, bytes_of_row, bytes_of, aes_ecb_encrypt,
  aes_ecb_decrypt,
}
use gst_app.Aes.Cipher.Inverse.{inv_cipher-cipher}
use gst_app.Aes.Cipher.Expansion.{Bytes, Bytes-KeyFits, key_expansion-Bytes}

pub take_whole : (n : ℕ) (xs : List ℕ) → length xs ≤ n → take n xs ≡ xs
take_whole zero [] h = refl
take_whole zero (x ∷ xs) h = absurd (omega arith)
take_whole (suc n) [] h = refl
take_whole (suc n) (x ∷ xs) h = ap (λ t. x ∷ t) (take_whole n xs (omega arith))

pub take-append : (xs ys : List ℕ) → take (length xs) (xs ++ ys) ≡ xs
take-append [] ys = refl
take-append (x ∷ xs) ys = ap (λ t. x ∷ t) (take-append xs ys)

row_view :
    (xs : List ℕ) → 4 ≤ length xs → (r : Row) × (rest : List ℕ) × (xs ≡ bytes_of_row r ++ rest)
unfolding bytes_of_row
row_view (a ∷ (b ∷ (c ∷ (d ∷ rest)))) h = (record { b0 = a; b1 = b; b2 = c; b3 = d }, rest, refl)
row_view [] h = absurd (omega arith)
row_view (a ∷ []) h = absurd (omega arith)
row_view (a ∷ (b ∷ [])) h = absurd (omega arith)
row_view (a ∷ (b ∷ (c ∷ []))) h = absurd (omega arith)

rest_long :
    (n : ℕ) (r : Row) (xs rest : List ℕ)
    → xs ≡ bytes_of_row r ++ rest
    → n + 4 ≤ length xs
    → n ≤ length rest
unfolding bytes_of_row
rest_long n r xs rest e h = omega (arith, ap length e)

-- A buffer of at least 16 bytes is a state and what follows it.
pub block_view :
    (xs : List ℕ) → 16 ≤ length xs → (s : State) × (rest : List ℕ) × (xs ≡ bytes_of s ++ rest)
unfolding bytes_of
block_view xs h =
    let (r0, xs1, e0) = row_view xs (omega arith) in
    let h1 = rest_long 12 r0 xs xs1 e0 (omega arith) in
    let (r1, xs2, e1) = row_view xs1 (omega arith) in
    let h2 = rest_long 8 r1 xs1 xs2 e1 (omega arith) in
    let (r2, xs3, e2) = row_view xs2 (omega arith) in
    let h3 = rest_long 4 r2 xs2 xs3 e2 (omega arith) in
    let (r3, xs4, e3) = row_view xs3 (omega arith) in
    (
      record { r0 = r0; r1 = r1; r2 = r2; r3 = r3 },
      xs4,
      e0
          ∙ ap (λ t. bytes_of_row r0 ++ t)
              (e1 ∙ ap (λ t. bytes_of_row r1 ++ t) (e2 ∙ ap (λ t. bytes_of_row r2 ++ t) e3)),
    )

row_of : (r : Row) (rest : List ℕ) → Bytes (bytes_of_row r ++ rest) → RowFits r × Bytes rest
unfolding bytes_of_row
row_of r rest h = (record { f0 = h.0; f1 = h.1.0; f2 = h.1.1.0; f3 = h.1.1.1.0 }, h.1.1.1.1)

pub block_fits : (s : State) (rest : List ℕ) → Bytes (bytes_of s ++ rest) → StateFits s
unfolding bytes_of
block_fits s rest h =
    let after3 : List ℕ = bytes_of_row s.r3 ++ rest in
    let after2 : List ℕ = bytes_of_row s.r2 ++ after3 in
    let (g0, t0) = row_of s.r0 (bytes_of_row s.r1 ++ after2) h in
    let (g1, t1) = row_of s.r1 after2 t0 in
    let (g2, t2) = row_of s.r2 after3 t1 in
    let (g3, t3) = row_of s.r3 rest t2 in record { g0 = g0; g1 = g1; g2 = g2; g3 = g3 }

module _ (s : State) (rest key output : List ℕ) where
  abbrev whole : List ℕ
  whole = bytes_of s ++ rest

  -- Only the first block is enciphered: what follows it is copied, and what follows that is left.
  pub encrypt_blocks :
      aes_ecb_encrypt whole key output (length whole)
      ≡ bytes_of (cipher s (key_expansion key)) ++ (rest ++ drop (length whole) output)
  unfolding aes_ecb_encrypt state_of
  encrypt_blocks = rw (take_whole (length whole) whole (omega arith)) (unfold bytes_of in refl)

  pub decrypt_blocks :
      aes_ecb_decrypt whole key output (length whole)
      ≡ bytes_of (inv_cipher s (key_expansion key)) ++ (rest ++ drop (length whole) output)
  unfolding aes_ecb_decrypt state_of
  decrypt_blocks = rw (take_whole (length whole) whole (omega arith)) (unfold bytes_of in refl)

  pub encrypt_whole :
      take (length whole) (aes_ecb_encrypt whole key output (length whole))
      ≡ bytes_of (cipher s (key_expansion key)) ++ rest
  unfolding bytes_of
  encrypt_whole =
      ap (take (length whole)) encrypt_blocks
      ∙ take-append (bytes_of (cipher s (key_expansion key)) ++ rest) (drop (length whole) output)

  decrypt_whole :
      take (length whole) (aes_ecb_decrypt whole key output (length whole))
      ≡ bytes_of (inv_cipher s (key_expansion key)) ++ rest
  unfolding bytes_of
  decrypt_whole =
      ap (take (length whole)) decrypt_blocks
      ∙ take-append (bytes_of (inv_cipher s (key_expansion key)) ++ rest)
          (drop (length whole) output)

-- A buffer does not change its length when its first block is replaced.
pub length-block :
    (s t : State) (rest : List ℕ) → length (bytes_of s ++ rest) ≡ length (bytes_of t ++ rest)
unfolding bytes_of
length-block s t rest = refl

drop-block :
    (s t : State) (rest : List ℕ) → drop 16 (bytes_of s ++ rest) ≡ drop 16 (bytes_of t ++ rest)
unfolding bytes_of
drop-block s t rest = refl

-- A buffer of at least one block of bytes, enciphered and deciphered with the same key of bytes, is
-- the buffer again, and what stands after its first 16 bytes is not enciphered: the enciphered
-- buffer shows it as it was.
pub aes_ecb_decrypt-aes_ecb_encrypt :
    (input key output output' : List ℕ)
    → 16 ≤ length input
    → Bytes input
    → key_len ≤ length key
    → Bytes key
    → let len = length input in
      (take len (aes_ecb_decrypt (take len (aes_ecb_encrypt input key output len)) key output' len)
        ≡ input)
      × (drop 16 (take len (aes_ecb_encrypt input key output len)) ≡ drop 16 input)
aes_ecb_decrypt-aes_ecb_encrypt input key output output' long bytes key_long key_bytes =
    let (s, rest, e) = block_view input long in
    let fits = Bytes-KeyFits (key_expansion key) (key_expansion-Bytes key key_long key_bytes).1 in
    let c = cipher s (key_expansion key) in
    (
      rw
          (
            e,
            encrypt_whole s rest key output,
            length-block s c rest,
            decrypt_whole c rest key output',
          )
          (ap (λ t. bytes_of t ++ rest)
            (inv_cipher-cipher (key_expansion key) fits s
              (block_fits s rest (subst Bytes e bytes)))),
      rw (e, encrypt_whole s rest key output) (drop-block c s rest),
    )
