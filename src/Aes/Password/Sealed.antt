-- ===== src/Aes/Password/Sealed.antt =====
-- What the password file of aes.cpp holds after a password was set, and how it reads back.
use gst_app.Prelude.{
  ℕ, zero, suc, ◌+◌, ◌≤◌, ◌<◌, pos, ◌≡◌, inl, inr, sym, ap, ◌∙◌, subst, false, List, ◌++◌, some,
  length, take, drop, replicate, All-append, Bool-cases, ◌==◌, ==_iff, arith,
}
use gst_app.Aes.Rounds.{State}
use gst_app.Aes.Cipher.{cipher, key_expansion, bytes_of}
use gst_app.Aes.Cipher.Inverse.{inv_cipher-cipher}
use gst_app.Aes.Cipher.Expansion.{Bytes, Bytes-KeyFits, key_expansion-Bytes}
use gst_app.Aes.Cipher.Ecb.{
  block_view, block_fits, encrypt_whole, decrypt_blocks, length-block, take_whole,
}
use gst_app.Aes.Password.{
  file_key, buffer_size, dot, before_dot, pad, sealed, opened, encrypt_get_passwd,
}
use gst_app.Aes.Password.Padding.{pad_lem, before_dot-pad}

-- A C string that is not empty and fits the buffer `data` with its padding.
pub record IsPassword (text : List ℕ) : Type 0 where
  pub given : 0 < length text
  pub fits : length text + 16 ≤ buffer_size
  pub bytes : Bytes text

dots_fit : (k : ℕ) → Bytes (replicate k dot)
dots_fit zero = tt
dots_fit (suc k) = (omega arith, dots_fit k)

abbrev expanded : List ℕ
expanded = key_expansion file_key

expanded_fits : Bytes expanded
expanded_fits = (key_expansion-Bytes file_key (omega arith) (omega arith)).1

module _ (text : List ℕ) (h : IsPassword text) where
  pad_fits : Bytes (pad text)
  pad_fits =
      let (k, small, e, len, whole) = pad_lem text in
      subst Bytes (sym e) (All-append _ text (replicate k dot) h.bytes (dots_fit k))

  length-pad : (16 ≤ length (pad text)) × (length (pad text) ≤ buffer_size)
  length-pad =
      let (k, small, e, len, whole) = pad_lem text in
      let g = h.given in let f = h.fits in (omega arith, omega arith)

  -- The file is the first block of the padded password, enciphered, and the rest of it as it is.
  sealed_view :
      (s : State) × (rest : List ℕ) × (pad text ≡ bytes_of s ++ rest)
      × (sealed text ≡ bytes_of (cipher s expanded) ++ rest)
  unfolding sealed
  sealed_view =
      let (s, rest, e) = block_view (pad text) length-pad.0 in
      (s, rest, e, rw e (encrypt_whole s rest file_key (replicate buffer_size 0)))

  length-sealed : length (sealed text) ≡ length (pad text)
  length-sealed =
      let (s, rest, e, f) = sealed_view in
      ap length f ∙ length-block (cipher s expanded) s rest ∙ ap length (sym e)

  -- Only the first 16 bytes of a password are enciphered: from there on the file shows the padded
  -- password as it was given.
  pub drop-sealed : drop 16 (sealed text) ≡ drop 16 (pad text)
  unfolding bytes_of
  drop-sealed = let (s, rest, e, f) = sealed_view in ap (drop 16) f ∙ ap (drop 16) (sym e)

  pub opened-sealed : opened (sealed text) ≡ before_dot text
  unfolding opened bytes_of
  opened-sealed =
      let (s, rest, e, f) = sealed_view in
      let c : State = cipher s expanded in
      let zeros : List ℕ = replicate buffer_size 0 in
      let n : ℕ = length (bytes_of c ++ rest) in
      let tail : List ℕ = drop n zeros in
      let safe = block_fits s rest (subst Bytes e pad_fits) in
      ap opened f
      ∙ ap before_dot (decrypt_blocks c rest file_key zeros)
      ∙ ap (λ t. before_dot (bytes_of t ++ (rest ++ tail)))
          (inv_cipher-cipher expanded (Bytes-KeyFits expanded expanded_fits) s safe)
      ∙ ap (λ t. before_dot (t ++ tail)) (sym e)
      ∙ before_dot-pad text n buffer_size

  pub read_whole : take buffer_size (sealed text) ≡ sealed text
  read_whole = take_whole buffer_size (sealed text) (omega (arith, length-sealed, length-pad.1))

  pub sealed-some : (length (sealed text) == 0) ≡ false
  sealed-some = elim (Bool-cases (length (sealed text) == 0)) [
    | inl empty ↦
        absurd
          (omega (arith, (==_iff (length (sealed text)) 0).0 empty, length-sealed, length-pad.0))
    | inr full ↦ full
  ]

  pub get_passwd-sealed : encrypt_get_passwd (some (sealed text)) ≡ (pos 0, before_dot text)
  unfolding encrypt_get_passwd
  get_passwd-sealed = rw (read_whole, sealed-some, opened-sealed)
