-- ===== src/Capture/Paths.antt =====
-- Where captureBin.cpp puts the files of a request.
use gst_app.Prelude.{
  ℕ, ◌≡◌, ◌≢◌, inl, inr, refl, false, Bool-cases, Option, none, some, List, [], ◌∷◌, ◌++◌, All,
  All-append, ==_iff, arith,
}
use gst_app.Capture.{has, is_safe_prefix, Place, ch_suffix, default_name, file_name, file_path}

-- A text that names one entry of a directory.
abbrev pub NoSlash : List ℕ → Type 0
NoSlash text = All (λ c. c ≢ b'/') text

has-All : (c : ℕ) (text : List ℕ) → has c text ≡ false → All (λ x. x ≢ c) text
unfolding has
has-All c [] h = tt
has-All c (x ∷ text) h = (λ e. ground (arith, (==_iff x c).1 e), has-All c text (ground arith))

ch_suffix-NoSlash : (ch : ℕ) → NoSlash (ch_suffix ch)
unfolding ch_suffix
ch_suffix-NoSlash ch = omega arith

default_name-NoSlash :
    (place : Place) → NoSlash place.oht_name → NoSlash place.date_str → NoSlash (default_name place)
unfolding default_name
default_name-NoSlash place name date =
    All-append (λ (c : ℕ). c ≢ b'/') place.oht_name _ name
      (
        omega arith,
        All-append (λ (c : ℕ). c ≢ b'/') place.date_str _ date (ch_suffix-NoSlash place.ch),
      )

file_name-NoSlash :
    (place : Place) (prefix : Option (List ℕ))
    → NoSlash place.oht_name
    → NoSlash place.date_str
    → NoSlash (file_name place prefix)
unfolding file_name
file_name-NoSlash place none name date = default_name-NoSlash place name date
file_name-NoSlash place (some prefix) name date = elim (Bool-cases (is_safe_prefix prefix)) [
  | inl safe ↦ rw safe (
      All-append (λ (c : ℕ). c ≢ b'/') prefix _
        (has-All b'/' prefix (unfold is_safe_prefix in ground arith)) (ch_suffix-NoSlash place.ch))
  | inr bad ↦ rw bad (default_name-NoSlash place name date)
]

-- Whatever prefix a client sends, the files of a request are in the capture directory itself: the
-- path is the directory, a slash and a name without one, if the name of the vehicle and the date
-- have none.
pub file_path_inside :
    (place : Place) (prefix : Option (List ℕ))
    → NoSlash place.oht_name
    → NoSlash place.date_str
    → (name : List ℕ) × (file_path place prefix ≡ place.base_dir ++ (b'/' ∷ name)) × NoSlash name
unfolding file_path
file_path_inside place prefix name date =
    (file_name place prefix, refl, file_name-NoSlash place prefix name date)
