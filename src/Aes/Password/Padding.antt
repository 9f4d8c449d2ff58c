-- ===== src/Aes/Password/Padding.antt =====
-- The padding of a password in aes.cpp, and how it is cut off again.
use mathlib.Core.List.{append-nil, append_assoc}
use gst_app.Prelude.{
  ℕ, zero, suc, ◌+◌, ◌-◌, ◌%◌, ◌≤◌, ◌<◌, ◌≡◌, ◌≢◌, refl, ap, ◌∙◌, List, [], ◌∷◌, ◌++◌, length, drop,
  replicate, All, length-append, length-replicate, Bool-cases, inl, inr, ◌==◌, ==_iff, arith,
}
use gst_app.Aes.Password.{dot, before_dot, pad_loop, pad}

-- No NUL and no '.': what a password can be and come back whole.
abbrev pub Plain : List ℕ → Type 0
Plain = All (λ c. (c ≢ 0) × (c ≢ dot))

pad_loop_lem :
    (fuel k : ℕ) (text : List ℕ)
    → k ≤ fuel
    → k < 16
    → (length text + k) % 16 ≡ 0
    → pad_loop fuel text ≡ text ++ replicate k dot
unfolding pad_loop
pad_loop_lem zero zero text h small e = rw append-nil
pad_loop_lem zero (suc k) text h small e = absurd (omega arith)
pad_loop_lem (suc fuel) zero text h small e =
    rw ((==_iff (length text % 16) 0).1 (omega arith), append-nil)
pad_loop_lem (suc fuel) (suc k) text h small e = elim (Bool-cases (length text % 16 == 0)) [
  | inl done ↦ absurd (omega (arith, (==_iff (length text % 16) 0).0 done))
  | inr more ↦ rw more (
      pad_loop_lem fuel k (text ++ (dot ∷ [])) (omega arith) (omega arith)
        (omega (arith, length-append text (dot ∷ [])))
      ∙ append_assoc text (dot ∷ []) (replicate k dot))
]

abbrev missing : List ℕ → ℕ
missing text = (16 - length text % 16) % 16

-- The padding ends: it adds the fewest dots that bring the length to a multiple of 16.
pub pad_lem :
    (text : List ℕ)
    → (k : ℕ) × (k < 16)
      × (pad text ≡ text ++ replicate k dot)
      × (length (pad text) ≡ length text + k)
      × (length (pad text) % 16 ≡ 0)
unfolding pad
pad_lem text =
    let k = missing text in
    let e = pad_loop_lem 16 k text (omega arith) (omega arith) (omega arith) in
    let len : length (pad text) ≡ length text + k =
      omega (arith, ap length e, length-append text (replicate k dot), length-replicate k dot) in
    (k, omega arith, e, len, omega arith)

before_dot-zeros : (n m : ℕ) → before_dot (drop n (replicate m 0)) ≡ []
unfolding before_dot
before_dot-zeros zero zero = refl
before_dot-zeros zero (suc m) = refl
before_dot-zeros (suc n) zero = refl
before_dot-zeros (suc n) (suc m) = before_dot-zeros n m

before_dot-append :
    (text tail : List ℕ) → before_dot tail ≡ [] → before_dot (text ++ tail) ≡ before_dot text
unfolding before_dot
before_dot-append [] tail h = h
before_dot-append (c ∷ text) tail h = rw (before_dot-append text tail h)

before_dot-dots :
    (k : ℕ) (tail : List ℕ) → before_dot tail ≡ [] → before_dot (replicate k dot ++ tail) ≡ []
unfolding before_dot
before_dot-dots zero tail h = h
before_dot-dots (suc k) tail h = refl

-- Neither the padding nor the zeros of the buffer are read back.
pub before_dot-pad :
    (text : List ℕ) (n m : ℕ) → before_dot (pad text ++ drop n (replicate m 0)) ≡ before_dot text
before_dot-pad text n m =
    let zeros : List ℕ = drop n (replicate m 0) in
    let (k, small, e, len, whole) = pad_lem text in
    rw (e, append_assoc text (replicate k dot) zeros)
      (before_dot-append text (replicate k dot ++ zeros)
        (before_dot-dots k zeros (before_dot-zeros n m)))

pub Plain-before_dot : (text : List ℕ) → Plain text → before_dot text ≡ text
unfolding before_dot
Plain-before_dot [] h = refl
Plain-before_dot (c ∷ text) h = ground (arith, Plain-before_dot text h.1)
