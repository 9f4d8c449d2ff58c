-- ===== src/Aes/Tests.antt =====
-- Runs of the cipher and of the password file of aes.cpp, and the theorems at concrete inputs.
use gst_app.Prelude.{
  ℕ, ◌≡◌, ◌↔◌, refl, pos, true, false, List, [], ◌∷◌, ◌++◌, Option, none, some, codes, take, drop,
  replicate, length, ◌≤◌, arith,
}
use gst_app.Prelude.Errno.{enoent, einval}
use gst_app.Aes.Tables.{substitute, substitute_back}
use gst_app.Aes.Field.{x_time, multiply}
use gst_app.Aes.Rounds.{
  Row, State, mix_row, add_round_key, shift_rows, sub_bytes, mix_columns, inv_sub_bytes,
  inv_shift_rows, inv_mix_columns, get_s_box,
}
use gst_app.Aes.Cipher.{
  aes_ecb_encrypt, aes_ecb_decrypt, cipher, inv_cipher, key_expansion, bytes_of, state_of,
}
use gst_app.Aes.Cipher.Ecb.{aes_ecb_decrypt-aes_ecb_encrypt}
use gst_app.Aes.Password.{
  Answers, starts_with, encrypt_change_passwd, encrypt_get_passwd, sealed, pad, file_key,
  before_dot,
}
use gst_app.Aes.Password.Padding.{Plain}
use gst_app.Aes.Password.Sealed.{IsPassword, drop-sealed}
use gst_app.Aes.Password.Laws.{get_passwd-change_passwd, change_passwd_iff}

-- The example of FIPS 197, appendix B.
abbrev fips_input : List ℕ
fips_input =
    0x32 ∷ 0x43 ∷ 0xf6 ∷ 0xa8 ∷ 0x88 ∷ 0x5a ∷ 0x30 ∷ 0x8d ∷ 0x31 ∷ 0x31 ∷ 0x98 ∷ 0xa2 ∷ 0xe0 ∷ 0x37
    ∷ 0x07 ∷ 0x34 ∷ []

abbrev fips_output : List ℕ
fips_output =
    0x39 ∷ 0x25 ∷ 0x84 ∷ 0x1d ∷ 0x02 ∷ 0xdc ∷ 0x09 ∷ 0xfb ∷ 0xdc ∷ 0x11 ∷ 0x85 ∷ 0x97 ∷ 0x19 ∷ 0x6a
    ∷ 0x0b ∷ 0x32 ∷ []

fips_vector : aes_ecb_encrypt fips_input file_key (replicate 16 0) 16 ≡ fips_output
unfolding aes_ecb_encrypt cipher key_expansion state_of bytes_of substitute x_time add_round_key
    shift_rows sub_bytes mix_columns
fips_vector = refl

fips_vector_back : aes_ecb_decrypt fips_output file_key (replicate 16 0) 16 ≡ fips_input
unfolding aes_ecb_decrypt inv_cipher key_expansion state_of bytes_of substitute x_time add_round_key
    inv_sub_bytes substitute_back inv_shift_rows inv_mix_columns multiply get_s_box
fips_vector_back = refl

abbrev fips_row : Row
fips_row = record { b0 = 0xd4; b1 = 0xbf; b2 = 0x5d; b3 = 0x30 }

mixed_row : mix_row fips_row ≡ record { b0 = 0x04; b1 = 0x66; b2 = 0x81; b3 = 0xe5 }
unfolding mix_row x_time
mixed_row = refl

abbrev start : State
start = record { r0 = fips_row; r1 = fips_row; r2 = fips_row; r3 = fips_row }

-- A block and four bytes.
abbrev longer : List ℕ
longer = fips_input ++ (1 ∷ (2 ∷ (3 ∷ (4 ∷ []))))

aes_ecb_decrypt-aes_ecb_encrypt_example :
    (take 20 (aes_ecb_decrypt (take 20 (aes_ecb_encrypt longer file_key [] 20)) file_key [] 20)
      ≡ longer)
    × (drop 16 (take 20 (aes_ecb_encrypt longer file_key [] 20)) ≡ drop 16 longer)
aes_ecb_decrypt-aes_ecb_encrypt_example =
    aes_ecb_decrypt-aes_ecb_encrypt longer file_key [] [] (omega arith) (omega arith) (omega arith)
      (omega arith)

-- A password of more than a block.
abbrev long_password : List ℕ
long_password = codes "correct horse battery"

long_password-IsPassword : IsPassword long_password
long_password-IsPassword = record { given = omega arith; fits = omega arith; bytes = omega arith }

drop-sealed_example : drop 16 (sealed long_password) ≡ drop 16 (pad long_password)
drop-sealed_example = drop-sealed long_password long_password-IsPassword

tail_in_the_clear : drop 16 (sealed long_password) ≡ codes "ttery..........."
unfolding sealed pad aes_ecb_encrypt cipher key_expansion state_of bytes_of substitute x_time
tail_in_the_clear = refl

abbrev willing : Answers
willing = record { opens = true; creates = true; removes = true; stores = 1024 }

abbrev full_disk : Answers
full_disk = record { opens = true; creates = false; removes = true; stores = 1024 }

first_password :
    encrypt_change_passwd willing none [] long_password ≡ (pos 0, some (sealed long_password))
unfolding encrypt_change_passwd sealed pad aes_ecb_encrypt cipher key_expansion state_of bytes_of
    substitute x_time
first_password = refl

stored_whole : length (sealed long_password) ≤ willing.stores
unfolding sealed pad aes_ecb_encrypt cipher key_expansion state_of bytes_of substitute x_time
stored_whole = omega arith

get_passwd-change_passwd_example :
    (encrypt_get_passwd (some (sealed long_password)) ≡ (pos 0, before_dot long_password))
    × (Plain long_password
        → encrypt_get_passwd (some (sealed long_password)) ≡ (pos 0, long_password))
get_passwd-change_passwd_example =
    get_passwd-change_passwd willing none [] long_password long_password-IsPassword stored_whole
      first_password

change_passwd_iff_example :
    ((encrypt_change_passwd willing (some (sealed long_password)) [] (codes "new")).0 ≡ pos 0) ↔ (
      ((rest : List ℕ) × (before_dot long_password ≡ [] ++ rest))
      × (willing.removes ≡ true)
      × (willing.creates ≡ true))
change_passwd_iff_example =
    change_passwd_iff willing long_password [] (codes "new") long_password-IsPassword refl

abbrev stored_password : Option (List ℕ)
stored_password = some (sealed long_password)

-- The old password is lost when the file was removed and cannot be created again.
lost : encrypt_change_passwd full_disk stored_password [] (codes "new") ≡ (enoent, none)
unfolding encrypt_change_passwd sealed pad aes_ecb_encrypt cipher key_expansion state_of bytes_of
    substitute x_time starts_with
lost = refl

abbrev out_of_space : Answers
out_of_space = record { opens = true; creates = true; removes = true; stores = 0 }

-- Nothing is stored and the call succeeds: the password is lost, and the file is refused from then
-- on.
not_stored :
    (encrypt_change_passwd out_of_space stored_password [] (codes "new") ≡ (pos 0, some []))
    × (encrypt_get_passwd (some []) ≡ (einval, []))
unfolding encrypt_change_passwd encrypt_get_passwd sealed pad aes_ecb_encrypt cipher key_expansion
    state_of bytes_of substitute x_time starts_with
not_stored = (refl, refl)

-- An empty password leaves an empty file, which is refused from then on.
empty_password : encrypt_get_passwd (encrypt_change_passwd willing none [] []).1 ≡ (einval, [])
unfolding encrypt_get_passwd encrypt_change_passwd sealed pad aes_ecb_encrypt
empty_password = refl
