-- ===== src/Address/Bits.antt =====
-- Exclusive or on words, for the mangling of utils.h.
use Prim.Native.Nat.{bit_xor, digits, differ, bit_xor-bitwise}
use os_ex.Prelude.{ℕ, zero, suc, ◌+◌, ◌*◌, ◌/◌, ◌%◌, ◌≤◌, ◌<◌, ◌≡◌, refl, arith, ◌∙◌}

abbrev xor_digits : ℕ → ℕ → ℕ → ℕ
xor_digits n a b = digits (λ b. b) differ n a b

differ_zero : (b : ℕ) → b < 2 → differ 0 b ≡ b
differ_zero zero h = refl
differ_zero (suc zero) h = refl
differ_zero (suc (suc b)) h = absurd (omega arith)

differ_twice : (a b : ℕ) → a < 2 → b < 2 → (differ a b < 2) × (differ (differ a b) b ≡ a)
differ_twice zero zero h k = (omega arith, refl)
differ_twice zero (suc zero) h k = (omega arith, refl)
differ_twice (suc zero) zero h k = (omega arith, refl)
differ_twice (suc zero) (suc zero) h k = (omega arith, refl)
differ_twice (suc (suc a)) b h k = absurd (omega arith)
differ_twice a (suc (suc b)) h k = absurd (omega arith)

xor_digits_fuel : (n m a b : ℕ) → a ≤ n → a ≤ m → xor_digits n a b ≡ xor_digits m a b
xor_digits_fuel zero zero a b p q = refl
xor_digits_fuel zero (suc m) zero b p q = refl
xor_digits_fuel zero (suc m) (suc a) b p q = absurd (omega arith)
xor_digits_fuel (suc n) zero zero b p q = refl
xor_digits_fuel (suc n) zero (suc a) b p q = absurd (omega arith)
xor_digits_fuel (suc n) (suc m) zero b p q = refl
xor_digits_fuel (suc n) (suc m) (suc a) b p q =
    omega (arith, xor_digits_fuel n m (suc a / 2) (b / 2) (omega arith) (omega arith))

zero-bit_xor : (b : ℕ) → bit_xor 0 b ≡ b
zero-bit_xor b = bit_xor-bitwise 0 b

-- The lowest digit apart.
bit_xor_step : (a b : ℕ) → bit_xor a b ≡ bit_xor (a / 2) (b / 2) * 2 + differ (a % 2) (b % 2)
bit_xor_step zero b =
    omega (arith, zero-bit_xor b, zero-bit_xor (b / 2), differ_zero (b % 2) (omega arith))
bit_xor_step (suc a) b = omega (
  arith,
  bit_xor-bitwise (suc a) b,
  bit_xor-bitwise (suc a / 2) (b / 2),
  xor_digits_fuel a (suc a / 2) (suc a / 2) (b / 2) (omega arith) (omega arith),
)

-- 2 to a power, a step at a time.
unfoldable pub word : ℕ → ℕ
word zero = 1
word (suc k) = word k * 2

-- On words of `k` bits exclusive or with a word stays in range and undoes itself.
pub bit_xor_twice :
    (k a g : ℕ) → a < word k → g < word k → (bit_xor a g < word k) × (bit_xor (bit_xor a g) g ≡ a)
unfolding word
bit_xor_twice zero a g h j = ground (arith, zero-bit_xor g, zero-bit_xor 0)
bit_xor_twice (suc k) a g h j =
    let (lt, back) = bit_xor_twice k (a / 2) (g / 2) (omega arith) (omega arith) in
    let (low, undone) = differ_twice (a % 2) (g % 2) (omega arith) (omega arith) in
    let high : bit_xor a g / 2 ≡ bit_xor (a / 2) (g / 2) = omega (arith, bit_xor_step a g) in
    let digit : bit_xor a g % 2 ≡ differ (a % 2) (g % 2) = omega (arith, bit_xor_step a g) in
    (
      omega (arith, bit_xor_step a g),
      bit_xor_step (bit_xor a g) g ∙ rw (high, digit) (omega (arith, back, undone)),
    )
