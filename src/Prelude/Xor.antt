-- ===== src/Prelude/Xor.antt =====
-- Exclusive or on the native numbers: an abelian group in which every number is its own inverse.
use Prim.Native.Nat.{
  ℕ, zero, suc, ◌+◌, ◌*◌, ◌/◌, ◌%◌, ◌≤◌, ◌<◌, bit_xor, digits, differ, bit_xor-bitwise,
}
use mathlib.Core.Path.{◌≡◌, refl, ap}
use native.Mathlib.Omega.{arith}

infixl 60 ◌⊕◌
abbrev pub ◌⊕◌ : ℕ → ℕ → ℕ
a ⊕ b = bit_xor a b

-- The digit of a sum without carry.
bit : ℕ → ℕ → ℕ
bit x y = (x + y) % 2

differ-bit : (x y : ℕ) → x < 2 → y < 2 → differ x y ≡ bit x y
unfolding bit
differ-bit zero zero p q = refl
differ-bit zero (suc zero) p q = refl
differ-bit zero (suc (suc y)) p q = absurd (omega arith)
differ-bit (suc zero) zero p q = refl
differ-bit (suc zero) (suc zero) p q = refl
differ-bit (suc zero) (suc (suc y)) p q = absurd (omega arith)
differ-bit (suc (suc x)) y p q = absurd (omega arith)

abbrev xor_digits : ℕ → ℕ → ℕ → ℕ
xor_digits n a b = digits (λ b. b) differ n a b

xor_digits_fuel : (n m a b : ℕ) → a ≤ n → a ≤ m → xor_digits n a b ≡ xor_digits m a b
xor_digits_fuel zero zero a b p q = refl
xor_digits_fuel zero (suc m) zero b p q = refl
xor_digits_fuel zero (suc m) (suc a) b p q = absurd (omega arith)
xor_digits_fuel (suc n) zero zero b p q = refl
xor_digits_fuel (suc n) zero (suc a) b p q = absurd (omega arith)
xor_digits_fuel (suc n) (suc m) zero b p q = refl
xor_digits_fuel (suc n) (suc m) (suc a) b p q =
    omega (arith, xor_digits_fuel n m (suc a / 2) (b / 2) (omega arith) (omega arith))

pub zero-⊕ : (b : ℕ) → 0 ⊕ b ≡ b
zero-⊕ b = bit_xor-bitwise 0 b

⊕_step : (a b : ℕ) → a ⊕ b ≡ (a / 2 ⊕ b / 2) * 2 + bit (a % 2) (b % 2)
⊕_step zero b = unfold bit in omega (arith, zero-⊕ b, zero-⊕ (b / 2))
⊕_step (suc a) b = omega (
  arith,
  bit_xor-bitwise (suc a) b,
  bit_xor-bitwise (suc a / 2) (b / 2),
  differ-bit (suc a % 2) (b % 2),
  xor_digits_fuel a (suc a / 2) (suc a / 2) (b / 2) (omega arith) (omega arith),
)

⊕-half : (a b : ℕ) → (a ⊕ b) / 2 ≡ a / 2 ⊕ b / 2
unfolding bit
⊕-half a b = omega (arith, ⊕_step a b)

⊕-odd : (a b : ℕ) → (a ⊕ b) % 2 ≡ (a + b) % 2
unfolding bit
⊕-odd a b = omega (arith, ⊕_step a b)

⊕_comm_fuel : (n a b : ℕ) → a ≤ n → b ≤ n → a ⊕ b ≡ b ⊕ a
unfolding bit
⊕_comm_fuel zero zero zero p q = refl
⊕_comm_fuel zero (suc a) b p q = absurd (omega arith)
⊕_comm_fuel zero zero (suc b) p q = absurd (omega arith)
⊕_comm_fuel (suc n) a b p q =
    omega (arith, ⊕_step a b, ⊕_step b a, ⊕_comm_fuel n (a / 2) (b / 2) (omega arith) (omega arith))

pub ⊕_comm : (a b : ℕ) → a ⊕ b ≡ b ⊕ a
⊕_comm a b = ⊕_comm_fuel (a + b) a b (omega arith) (omega arith)

⊕_self_fuel : (n a : ℕ) → a ≤ n → a ⊕ a ≡ 0
unfolding bit
⊕_self_fuel zero zero p = refl
⊕_self_fuel zero (suc a) p = absurd (omega arith)
⊕_self_fuel (suc n) a p = omega (arith, ⊕_step a a, ⊕_self_fuel n (a / 2) (omega arith))

pub ⊕_self : (a : ℕ) → a ⊕ a ≡ 0
⊕_self a = ⊕_self_fuel a a (omega arith)

⊕_assoc_fuel : (n a b c : ℕ) → a ≤ n → b ≤ n → c ≤ n → a ⊕ b ⊕ c ≡ a ⊕ (b ⊕ c)
unfolding bit
⊕_assoc_fuel zero zero b c p q r = omega (arith, ap (λ t. t ⊕ c) (zero-⊕ b), zero-⊕ (b ⊕ c))
⊕_assoc_fuel zero (suc a) b c p q r = absurd (omega arith)
⊕_assoc_fuel (suc n) a b c p q r = omega (
  arith,
  ⊕_step (a ⊕ b) c,
  ⊕_step a (b ⊕ c),
  ap (λ t. t ⊕ c / 2) (⊕-half a b),
  ap (λ t. a / 2 ⊕ t) (⊕-half b c),
  ⊕-odd a b,
  ⊕-odd b c,
  ⊕_assoc_fuel n (a / 2) (b / 2) (c / 2) (omega arith) (omega arith) (omega arith),
)

pub ⊕_assoc : (a b c : ℕ) → a ⊕ b ⊕ c ≡ a ⊕ (b ⊕ c)
⊕_assoc a b c = ⊕_assoc_fuel (a + b + c) a b c (omega arith) (omega arith) (omega arith)

pub ⊕-zero : (a : ℕ) → a ⊕ 0 ≡ a
⊕-zero a = omega (arith, ⊕_comm a 0, zero-⊕ a)

-- Adding the same number twice undoes the first time.
pub ⊕_twice : (a k : ℕ) → a ⊕ k ⊕ k ≡ a
⊕_twice a k = rw (⊕_assoc, ⊕_self) (⊕-zero a)

pub ⊕_swap : (a b c : ℕ) → a ⊕ (b ⊕ c) ≡ b ⊕ (a ⊕ c)
⊕_swap a b c = rw (← ⊕_assoc a b c, ⊕_comm a b) (⊕_assoc b a c)
