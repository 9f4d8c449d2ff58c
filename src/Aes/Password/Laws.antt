-- ===== src/Aes/Password/Laws.antt =====
-- Setting the password of aes.cpp: what is read back, which current password is enough, and what a
-- refusal leaves.
use gst_app.Prelude.{
  ℕ, ℤ, pos, ◌≡◌, ◌≢◌, ◌↔◌, ◌⊎◌, refl, ap, ◌∙◌, true, false, List, [], ◌∷◌, ◌++◌, Option, none,
  some, length, take, ◌≤◌, arith,
}
use gst_app.Aes.Cipher.Ecb.{take_whole}
use gst_app.Prelude.Errno.{enoent}
use gst_app.Aes.Password.{
  before_dot, starts_with, sealed, encrypt_get_passwd, Answers, create_passwd, replace_passwd,
  encrypt_change_passwd,
}
use gst_app.Aes.Password.Padding.{Plain, Plain-before_dot}
use gst_app.Aes.Password.Sealed.{
  IsPassword, read_whole, sealed-some, opened-sealed, get_passwd-sealed,
}

module _ (a : Answers) (file : Option (List ℕ)) (cur new : List ℕ) where
  create_passwd-ok :
      {after : Option (List ℕ)}
      → create_passwd a file new ≡ (pos 0, after)
      → after ≡ some (take a.stores (sealed new))
  unfolding create_passwd
  create_passwd-ok e = ground arith

  replace_passwd-ok :
      (read : List ℕ) {after : Option (List ℕ)}
      → replace_passwd a file read cur new ≡ (pos 0, after)
      → after ≡ some (take a.stores (sealed new))
  unfolding replace_passwd
  replace_passwd-ok read e = ground arith

  -- A refusal leaves the file alone, but for one case: it is gone if it was removed and the new one
  -- cannot be created.
  change_passwd-refused :
      {code : ℤ} {after : Option (List ℕ)}
      → encrypt_change_passwd a file cur new ≡ (code, after)
      → code ≢ pos 0
      → (after ≡ file)
        ⊎ ((after ≡ none) × (code ≡ enoent) × (a.removes ≡ true) × (a.creates ≡ false))
  unfolding encrypt_change_passwd
  change_passwd-refused {code} {after} e bad = ground arith

  change_passwd-ok :
      {after : Option (List ℕ)}
      → encrypt_change_passwd a file cur new ≡ (pos 0, after)
      → after ≡ some (take a.stores (sealed new))
  unfolding encrypt_change_passwd
  change_passwd-ok {after} e = ground arith

-- A password that was set with success, and whose sealed bytes the file system stores whole, is the
-- one that is read, up to its first '.'; one with no '.' in it is read whole. This holds for the first password of a new file and for every change.
pub get_passwd-change_passwd :
    (a : Answers) (file : Option (List ℕ)) (cur new : List ℕ) {after : Option (List ℕ)}
    → IsPassword new
    → length (sealed new) ≤ a.stores
    → encrypt_change_passwd a file cur new ≡ (pos 0, after)
    → (encrypt_get_passwd after ≡ (pos 0, before_dot new))
      × (Plain new → encrypt_get_passwd after ≡ (pos 0, new))
get_passwd-change_passwd a file cur new {after} h whole e =
    let stored = take_whole a.stores (sealed new) whole in
    let back =
      ap encrypt_get_passwd (change_passwd-ok a file cur new e ∙ ap some stored)
      ∙ get_passwd-sealed new h in
    (back, λ plain. back ∙ ap (λ t. (pos 0, t)) (Plain-before_dot new plain))

starts_with_iff :
    (text cur : List ℕ) → (starts_with text cur ≡ true) ↔ ((rest : List ℕ) × (text ≡ cur ++ rest))
unfolding starts_with
starts_with_iff text [] = (λ e. (text, refl), λ w. refl)
starts_with_iff [] (c ∷ cur) = (λ e. absurd (ground arith), λ w. absurd (ground arith))
starts_with_iff (d ∷ text) (c ∷ cur) = (
  λ e. let (rest, same) = (starts_with_iff text cur).0 (ground arith) in (rest, ground arith),
  λ w. let (rest, same) = w in ground (arith, (starts_with_iff text cur).1 (rest, ground arith)),
)

-- Every prefix of the password that is set is taken for it, the empty one included: with the file
-- there and openable, a change succeeds exactly when the current password that is given is a prefix
-- of the one that is set, up to its first '.', and the file can be removed and created.
pub change_passwd_iff :
    (a : Answers) (old cur new : List ℕ)
    → IsPassword old
    → a.opens ≡ true
    → ((encrypt_change_passwd a (some (sealed old)) cur new).0 ≡ pos 0) ↔ (
        ((rest : List ℕ) × (before_dot old ≡ cur ++ rest))
        × (a.removes ≡ true)
        × (a.creates ≡ true))
unfolding encrypt_change_passwd
change_passwd_iff a old cur new h o =
    rw (o, read_whole old h, sealed-some old h, opened-sealed old h)
      (
        λ e. ((starts_with_iff (before_dot old) cur).0 (ground arith), ground arith, ground arith),
        λ w. ground (arith, (starts_with_iff (before_dot old) cur).1 w.0),
      )
