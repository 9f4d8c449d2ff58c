-- ===== src/Aes/Rounds/Poly.antt =====
-- Polynomials in XTime over the four bytes of a row of aes.cpp, as lists of coefficients.
use gst_app.Prelude.{
  ℕ, ◌≡◌, sym, Bool, true, false, List, [], ◌∷◌, ◌⊕◌, ⊕_assoc, ⊕_self, ⊕_swap, ⊕-zero, zero-⊕,
}

-- A coefficient tells which of the four bytes take part.
pub data Coefficient : Type 0 where
  of : Bool → Bool → Bool → Bool → Coefficient

abbrev pub none_of : Coefficient
none_of = of false false false false

abbrev pub Poly : Type 0
Poly = List Coefficient

abbrev pub bit_add : Bool → Bool → Bool
bit_add true true = false
bit_add true false = true
bit_add false y = y

abbrev pub coefficient_add : Coefficient → Coefficient → Coefficient
coefficient_add (of a b c d) (of a' b' c' d') =
    of (bit_add a a') (bit_add b b') (bit_add c c') (bit_add d d')

abbrev pub poly_add : Poly → Poly → Poly
poly_add [] q = q
poly_add (x ∷ p) [] = x ∷ p
poly_add (x ∷ p) (y ∷ q) = coefficient_add x y ∷ poly_add p q

abbrev pub select : Bool → ℕ → ℕ
select true v = v
select false v = 0

pub bit_add-select : (x y : Bool) (v : ℕ) → select (bit_add x y) v ≡ select x v ⊕ select y v
bit_add-select true true v = sym (⊕_self v)
bit_add-select true false v = sym (⊕-zero v)
bit_add-select false y v = sym (zero-⊕ (select y v))

pub ⊕_exchange : (a b c d : ℕ) → a ⊕ b ⊕ (c ⊕ d) ≡ a ⊕ c ⊕ (b ⊕ d)
⊕_exchange a b c d = rw (⊕_assoc a b (c ⊕ d), ⊕_assoc a c (b ⊕ d), ⊕_swap b c d)
