-- ===== src/Util/Files/Laws.antt =====
-- What the file helpers promise.
use gst_app.Prelude.{
  ℕ, ◌<◌, ◌≡◌, ◌↔◌, inl, inr, refl, ap, true, false, Bool-cases, List, [], ◌∷◌, ◌++◌, length, All,
  none, some, ◌==◌, ◌!=◌, ◌||◌, leb, if◌then◌else◌, arith,
}
use gst_app.Util.Files.{
  Call, succeeds, FileCalls, safe_write_file, tolerated, mkdir_loop, safe_mkdir_p, trim,
}

-- The result is 0 exactly if the open, the print, the flush and the close succeed.
safe_write_file_iff :
    (a : FileCalls)
    → (safe_write_file a ≡ none) ↔ (
        (a.opens ≡ succeeds)
        × (a.prints ≡ succeeds)
        × (a.flushes ≡ succeeds)
        × (a.closes ≡ succeeds))
unfolding safe_write_file
safe_write_file_iff a = ground arith

-- Every directory above: the parts of the path that end before a slash, and the path itself.
abbrev pub parents : List ℕ → List ℕ → List (List ℕ)
parents front [] = front ∷ []
parents front (c ∷ rest) =
    let later = parents (front ++ (c ∷ [])) rest in if c == b'/' then front ∷ later else later

mkdir_loop_lem :
    (mkdir : List ℕ → Call) (front rest : List ℕ)
    → ((mkdir_loop mkdir front rest).ok ≡ true
        → (mkdir_loop mkdir front rest).calls ≡ parents front rest)
      × (((mkdir_loop mkdir front rest).ok ≡ true)
          ↔ All (λ d. tolerated (mkdir d) ≡ true) (parents front rest))
unfolding mkdir_loop
mkdir_loop_lem mkdir front [] = (λ h. refl, (λ h. (h, tt), λ h. h.0))
mkdir_loop_lem mkdir front (c ∷ rest) =
    let ih = mkdir_loop_lem mkdir (front ++ (c ∷ [])) rest in
    elim (Bool-cases (c == b'/')) [
      | inl slash ↦
          let stops : (c != b'/') ≡ false = ground arith in
          elim (Bool-cases (tolerated (mkdir front))) [
            | inl fine ↦
                rw (slash, stops, fine)
                  (
                    (λ h. ap (λ ds. front ∷ ds) (ih.0 h)),
                    ((λ h. (refl, ih.1.0 h)), (λ h. ih.1.1 h.1)),
                  )
            | inr bad ↦
                rw (slash, stops, bad)
                  (
                    (λ h. absurd (ground arith)),
                    ((λ h. absurd (ground arith)), (λ h. absurd (ground (arith, h.0)))),
                  )
          ]
      | inr plain ↦ let goes : (c != b'/') ≡ true = ground arith in rw (plain, goes) ih
    ]

-- A path of 1 to 511 bytes, other than a slash alone: its first byte, and the others without a
-- trailing slash.
pub record IsPath (path : List ℕ) (first : ℕ) (rest : List ℕ) : Type 0 where
  pub small : length path < 512
  pub some_path : 0 < length path
  pub trimmed : trim path ≡ first ∷ rest

-- For a path of 1 to 511 bytes, other than a slash alone, the call succeeds exactly if `mkdir`
-- succeeds, or finds the directory there, for the path without its trailing slash and for every
-- parent that ends before a slash after its first byte; and then it has made exactly these calls,
-- from the shortest to the longest.
pub safe_mkdir_p-parents :
    (mkdir : List ℕ → Call) (path : List ℕ) (first : ℕ) (rest : List ℕ)
    → IsPath path first rest
    → ((safe_mkdir_p mkdir (some path)).ok ≡ true
        → (safe_mkdir_p mkdir (some path)).calls ≡ parents (first ∷ []) rest)
      × (((safe_mkdir_p mkdir (some path)).ok ≡ true)
          ↔ All (λ d. tolerated (mkdir d) ≡ true) (parents (first ∷ []) rest))
unfolding safe_mkdir_p
safe_mkdir_p-parents mkdir path first rest p =
    let valid : (length path == 0 || leb 512 (length path)) ≡ false =
      ground (arith, p.small, p.some_path) in
    rw (valid, p.trimmed) (mkdir_loop_lem mkdir (first ∷ []) rest)

-- Of a slash alone the call asks `mkdir` for an empty path, and fails with it.
safe_mkdir_p_root :
    (mkdir : List ℕ → Call)
    → tolerated (mkdir []) ≡ false
    → safe_mkdir_p mkdir (some (b'/' ∷ [])) ≡ record { ok = false; calls = [] ∷ [] }
unfolding safe_mkdir_p
safe_mkdir_p_root mkdir refused = rw refused refl
