-- ===== src/Aes/Cipher/Expansion.antt =====
-- KeyExpansion of aes.cpp gives 176 bytes for every key of 16 bytes.
use gst_app.Prelude.{
  ℕ, zero, suc, ◌+◌, ◌-◌, ◌*◌, ◌≤◌, ◌<◌, ◌≡◌, ap, List, [], ◌∷◌, ◌++◌, get_or, length, take,
  length-append, All, All-append, ◌/◌, Bool-cases, inl, inr, ◌==◌, ◌%◌, arith,
}
use gst_app.Aes.Field.{IsByte, ⊕_fits}
use gst_app.Aes.Rounds.{RowFits, get_s_box}
use gst_app.Aes.Rounds.Inverse.{KeyFits, get_s_box_fits}
use gst_app.Aes.Cipher.{
  key_len, r_con, row_at, schedule, next_word, expand_loop, key_expansion, key_exp_size,
}

abbrev pub Bytes : List ℕ → Type 0
Bytes = All IsByte

pub Bytes-KeyFits : (bytes : List ℕ) → Bytes bytes → KeyFits bytes
Bytes-KeyFits [] h i = omega arith
Bytes-KeyFits (x ∷ bytes) h zero = h.0
Bytes-KeyFits (x ∷ bytes) h (suc i) = Bytes-KeyFits bytes h.1 i

take_fits : (n : ℕ) (bytes : List ℕ) → Bytes bytes → Bytes (take n bytes)
take_fits zero bytes h = tt
take_fits (suc n) [] h = tt
take_fits (suc n) (x ∷ bytes) h = (h.0, take_fits n bytes h.1)

pub length-take : (n : ℕ) (bytes : List ℕ) → n ≤ length bytes → length (take n bytes) ≡ n
length-take zero bytes h = omega arith
length-take (suc n) [] h = absurd (omega arith)
length-take (suc n) (x ∷ bytes) h = ap suc (length-take n bytes (omega arith))

row_at_fits : (bytes : List ℕ) (i : ℕ) → KeyFits bytes → RowFits (row_at bytes i)
unfolding row_at
row_at_fits bytes i h = record { f0 = h i; f1 = h (i + 1); f2 = h (i + 2); f3 = h (i + 3) }

r_con_fits : (i : ℕ) → get_or r_con i 0 < 256
r_con_fits = Bytes-KeyFits r_con (omega arith)

module _ (bytes : List ℕ) (h : KeyFits bytes) (i : ℕ) where
  turned_fits :
      let ta = row_at bytes (i - 4) in
      RowFits (get_s_box (record { b0 = ta.b1; b1 = ta.b2; b2 = ta.b3; b3 = ta.b0 }))
  turned_fits =
      let ta = row_at_fits bytes (i - 4) h in
      get_s_box_fits (record { f0 = ta.f1; f1 = ta.f2; f2 = ta.f3; f3 = ta.f0 })

  schedule_fits : RowFits (schedule bytes i)
  unfolding schedule
  schedule_fits = elim (Bool-cases (i % key_len == 0)) [
    | inl new ↦ rw new (record {
      f0 = ⊕_fits _ _ turned_fits.f0 (r_con_fits (i / key_len));
      f1 = turned_fits.f1;
      f2 = turned_fits.f2;
      f3 = turned_fits.f3;
    })
    | inr old ↦ rw old (row_at_fits bytes (i - 4) h)
  ]

  next_word_fits : Bytes (next_word bytes i)
  unfolding next_word
  next_word_fits =
      let ta = schedule_fits in
      let before = row_at_fits bytes (i - key_len) h in
      (
        ⊕_fits _ _ before.f0 ta.f0,
        (
          ⊕_fits _ _ before.f1 ta.f1,
          (⊕_fits _ _ before.f2 ta.f2, (⊕_fits _ _ before.f3 ta.f3, tt)),
        ),
      )

expand_loop_fits : (left i : ℕ) (bytes : List ℕ) → Bytes bytes → Bytes (expand_loop left i bytes)
unfolding expand_loop
expand_loop_fits zero i bytes h = h
expand_loop_fits (suc left) i bytes h =
    expand_loop_fits left (i + 4) _ (
      All-append IsByte bytes (next_word bytes i) h
        (next_word_fits bytes (Bytes-KeyFits bytes h) i))

length-expand_loop :
    (left i : ℕ) (bytes : List ℕ) → length (expand_loop left i bytes) ≡ length bytes + left * 4
unfolding expand_loop next_word
length-expand_loop zero i bytes = omega arith
length-expand_loop (suc left) i bytes = omega (
  arith,
  length-expand_loop left (i + 4) (bytes ++ next_word bytes i),
  length-append bytes (next_word bytes i),
)

-- The expansion of a key of at least 16 bytes is 176 bytes long, and all its entries are bytes.
pub key_expansion-Bytes :
    (key : List ℕ)
    → key_len ≤ length key
    → Bytes key
    → (length (key_expansion key) ≡ key_exp_size) × Bytes (key_expansion key)
unfolding key_expansion
key_expansion-Bytes key long h = (
  omega (arith, length-expand_loop 40 key_len (take key_len key), length-take key_len key long),
  expand_loop_fits 40 key_len (take key_len key) (take_fits key_len key h),
)
