-- ===== src/Aes/Password.antt =====
-- The password file of aes.cpp: encrypt_get_passwd and encrypt_change_passwd.
pub mod Padding
pub mod Sealed
pub mod Laws
use gst_app.Prelude.{
  ℕ, zero, suc, ◌+◌, ◌%◌, ℤ, pos, Bool, true, false, not, ◌&&◌, List, [], ◌∷◌, ◌++◌, Option, none,
  some, length, take, replicate, if◌then◌else◌, ◌==◌,
}
use gst_app.Prelude.Errno.{enoent, einval}
use gst_app.Aes.Cipher.{aes_ecb_encrypt, aes_ecb_decrypt}

-- BYTE Key[] of both functions.
abbrev pub file_key : List ℕ
file_key =
    0x2b ∷ 0x7e ∷ 0x15 ∷ 0x16 ∷ 0x28 ∷ 0xae ∷ 0xd2 ∷ 0xa6 ∷ 0xab ∷ 0xf7 ∷ 0x15 ∷ 0x88 ∷ 0x09 ∷ 0xcf
    ∷ 0x4f ∷ 0x3c ∷ []

-- sizeof(ENC), sizeof(DEC) and sizeof(data)
abbrev pub buffer_size : ℕ
buffer_size = 1024

abbrev pub dot : ℕ
dot = b'.'

-- What is read of a buffer as a C string once its first '.' is replaced by a NUL.
unfoldable pub before_dot : List ℕ → List ℕ
before_dot [] = []
before_dot (c ∷ cs) = if c == 0 then [] else if c == dot then [] else c ∷ before_dot cs

-- strncmp(dec, cur, strlen(cur)) == 0, on the two C strings.
unfoldable pub starts_with : List ℕ → List ℕ → Bool
starts_with text [] = true
starts_with [] (c ∷ cur) = false
starts_with (d ∷ text) (c ∷ cur) = d == c && starts_with text cur

-- while(strlen(data) % 16 != 0) data[strlen(data)] = '.'; with fuel.
pad_loop : ℕ → List ℕ → List ℕ
pad_loop zero text = text
pad_loop (suc fuel) text =
    let rest = pad_loop fuel (text ++ (dot ∷ [])) in if length text % 16 == 0 then text else rest

unfoldable pub pad : List ℕ → List ℕ
unfolding pad_loop
pad text = pad_loop 16 text

-- The bytes that fwrite puts into the file for a new password.
unfoldable pub sealed : List ℕ → List ℕ
sealed password =
    let text = pad password in
    take (length text) (aes_ecb_encrypt text file_key (replicate buffer_size 0) (length text))

-- What DEC holds as a C string after the first '.' is cut, for what was read of the file.
unfoldable pub opened : List ℕ → List ℕ
opened enc = before_dot (aes_ecb_decrypt enc file_key (replicate buffer_size 0) (length enc))

-- `content` is what the file holds, if it opens; the result is the code and the bytes copied to
-- `passwd`.
unfoldable pub encrypt_get_passwd : Option (List ℕ) → ℤ × List ℕ
encrypt_get_passwd none = (enoent, [])
encrypt_get_passwd (some content) =
    let read = take buffer_size content in
    if length read == 0 then (einval, []) else (pos 0, opened read)

-- How the file system answers: whether the file opens for update, whether it can be created,
-- whether it can be removed, and how many of the bytes that are written it stores. The count that
-- `fwrite` returns is not looked at.
pub record Answers : Type 0 where
  pub opens : Bool
  pub creates : Bool
  pub removes : Bool
  pub stores : ℕ

-- The file opens for update only if it is there.
abbrev pub found : Answers → Option (List ℕ) → Option (List ℕ)
found a none = none
found a (some content) = if a.opens then some content else none

-- The branch in which the file does not open for update.
create_passwd : Answers → Option (List ℕ) → List ℕ → ℤ × Option (List ℕ)
create_passwd a file new =
    if not a.creates then (enoent, file) else (pos 0, some (take a.stores (sealed new)))

-- The branch in which it does, from the content that was read.
replace_passwd : Answers → Option (List ℕ) → List ℕ → List ℕ → List ℕ → ℤ × Option (List ℕ)
replace_passwd a file read cur new =
    if length read == 0
    then (einval, file)
    else if not (starts_with (opened read) cur)
    then (einval, file)
    else if not a.removes
    then (einval, file)
    else if not a.creates
    then (enoent, none)
    else (pos 0, some (take a.stores (sealed new)))

-- The code and what the file holds afterwards, if it is there.
unfoldable pub encrypt_change_passwd :
    Answers → Option (List ℕ) → List ℕ → List ℕ → ℤ × Option (List ℕ)
unfolding create_passwd replace_passwd
encrypt_change_passwd a file cur new = elim (found a file) [
  | none ↦ create_passwd a file new
  | some content ↦ replace_passwd a file (take buffer_size content) cur new
]
