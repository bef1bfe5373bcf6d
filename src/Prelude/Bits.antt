-- ===== src/Prelude/Bits.antt =====
-- Facts about the native bit operations at variables: a number is a power of two exactly when it
-- shares no bit with its predecessor, and two numbers are equal exactly when their xor is 0.
use Prim.Native.Nat.{
  ℕ, zero, suc, ◌+◌, ◌-◌, ◌*◌, ◌/◌, ◌%◌, ◌^◌, ◌≤◌, ◌<◌, min, bit_and, bit_xor, digits, bitwise,
  differ, bit_and-bitwise, bit_xor-bitwise,
}
use mathlib.Core.Path.{◌≡◌, refl, ap, sym, ◌∙◌}
use native.Mathlib.Omega.{arith}
use native.Mathlib.Nat.{pow-suc, mul_assoc, div-div-eq-div-mul}
use native.Mathlib.Decide.{ℕ_discrete}

-- The definition behind the operations goes through the binary digits of the first number, on fuel. It
-- stops by itself at 0, so fuel beyond the number changes nothing.
module _ (z : ℕ → ℕ) (f : ℕ → ℕ → ℕ) where
  digits_nil : (fuel b : ℕ) → digits z f fuel 0 b ≡ z b
  digits_nil zero b = refl
  digits_nil (suc fuel) b = refl

  digits_more : (fuel a b : ℕ) → a ≤ fuel → digits z f (suc fuel) a b ≡ digits z f fuel a b
  digits_more fuel zero b h = sym (digits_nil fuel b)
  digits_more zero (suc a) b h = absurd (omega arith)
  digits_more (suc fuel) (suc a) b h = rw (digits_more fuel (suc a / 2) (b / 2) (omega arith))

  digits_surplus :
      (extra fuel a b : ℕ) → a ≤ fuel → digits z f (fuel + extra) a b ≡ digits z f fuel a b
  digits_surplus zero fuel a b h = ap (λ n. digits z f n a b) (omega arith)
  digits_surplus (suc extra) fuel a b h =
      let next : fuel + suc extra ≡ suc (fuel + extra) = omega arith in
      ap (λ n. digits z f n a b) next
      ∙ digits_more (fuel + extra) a b (omega arith)
      ∙ digits_surplus extra fuel a b h

  low_digit :
      (a b : ℕ)
      → bitwise z f (suc a) b ≡ bitwise z f (suc a / 2) (b / 2) * 2 + f (suc a % 2) (b % 2)
  low_digit a b =
      let whole : suc a / 2 + (a - suc a / 2) ≡ a = omega arith in
      omega (
        arith,
        rw whole at (digits_surplus (a - suc a / 2) (suc a / 2) (suc a / 2) (b / 2) (omega arith)),
      )

zero-bit_and : (b : ℕ) → bit_and 0 b ≡ 0
zero-bit_and b = bit_and-bitwise 0 b

zero-bit_xor : (b : ℕ) → bit_xor 0 b ≡ b
zero-bit_xor b = bit_xor-bitwise 0 b

bit_and_halves :
    (a b : ℕ) → bit_and (suc a) b ≡ bit_and (suc a / 2) (b / 2) * 2 + min (suc a % 2) (b % 2)
bit_and_halves a b = omega (
  arith,
  low_digit (λ x. 0) min a b,
  bit_and-bitwise (suc a) b,
  bit_and-bitwise (suc a / 2) (b / 2),
)

bit_xor_step_suc :
    (a b : ℕ) → bit_xor (suc a) b ≡ bit_xor (suc a / 2) (b / 2) * 2 + differ (suc a % 2) (b % 2)
bit_xor_step_suc a b = omega (
  arith,
  low_digit (λ x. x) differ a b,
  bit_xor-bitwise (suc a) b,
  bit_xor-bitwise (suc a / 2) (b / 2),
)

differ_self : (x : ℕ) → differ x x ≡ 0
differ_self zero = refl
differ_self (suc x) = differ_self x

differ-eq_zero : (x y : ℕ) → differ x y ≡ 0 → x ≡ y
differ-eq_zero zero y h = omega arith
differ-eq_zero (suc x) zero h = h
differ-eq_zero (suc x) (suc y) h = ap suc (differ-eq_zero x y h)

-- Two numbers with no differing bit are equal.
bit_xor-eq_zero_fuel : (n a b : ℕ) → a ≤ n → bit_xor a b ≡ 0 → a ≡ b
bit_xor-eq_zero_fuel n zero b h e = omega (arith, zero-bit_xor b)
bit_xor-eq_zero_fuel zero (suc a) b h e = absurd (omega arith)
bit_xor-eq_zero_fuel (suc n) (suc a) b h e =
    let step = bit_xor_step_suc a b in
    let low : suc a % 2 ≡ b % 2 = differ-eq_zero _ _ (omega arith) in
    let high : suc a / 2 ≡ b / 2 =
      bit_xor-eq_zero_fuel n (suc a / 2) (b / 2) (omega arith) (omega arith) in
    omega arith

pub bit_xor-eq_zero : (a b : ℕ) → bit_xor a b ≡ 0 → a ≡ b
bit_xor-eq_zero a b = bit_xor-eq_zero_fuel a a b (omega arith)

bit_xor_self_fuel : (n a : ℕ) → a ≤ n → bit_xor a a ≡ 0
bit_xor_self_fuel n zero h = refl
bit_xor_self_fuel zero (suc a) h = absurd (omega arith)
bit_xor_self_fuel (suc n) (suc a) h = omega (
  arith,
  bit_xor_step_suc a (suc a),
  bit_xor_self_fuel n (suc a / 2) (omega arith),
  differ_self (suc a % 2),
)

pub bit_xor_self : (a : ℕ) → bit_xor a a ≡ 0
bit_xor_self a = bit_xor_self_fuel a a (omega arith)

bit_and_self : (n a : ℕ) → a ≤ n → bit_and a a ≡ a
bit_and_self n zero h = refl
bit_and_self zero (suc a) h = absurd (omega arith)
bit_and_self (suc n) (suc a) h =
    omega (arith, bit_and_halves a (suc a), bit_and_self n (suc a / 2) (omega arith))

bit_and-pred_double : (m : ℕ) → 0 < m → bit_and (m * 2) (m * 2 - 1) ≡ bit_and m (m - 1) * 2
bit_and-pred_double zero h = absurd (omega arith)
bit_and-pred_double (suc m) h =
    let whole : suc (m * 2 + 1) ≡ suc m * 2 = omega arith in
    let half : suc m * 2 / 2 ≡ suc m = omega arith in
    let pred_half : (suc m * 2 - 1) / 2 ≡ suc m - 1 = omega arith in
    omega (arith, rw (whole, half, pred_half) at (bit_and_halves (m * 2 + 1) (suc m * 2 - 1)))

bit_and-pred_odd : (m : ℕ) → bit_and (m * 2 + 1) (m * 2 + 1 - 1) ≡ m * 2
bit_and-pred_odd m =
    let whole : suc (m * 2) ≡ m * 2 + 1 = omega arith in
    let half : (m * 2 + 1) / 2 ≡ m = omega arith in
    let pred_half : (m * 2 + 1 - 1) / 2 ≡ m = omega arith in
    omega (
      arith,
      rw (whole, half, pred_half) at (bit_and_halves (m * 2) (m * 2 + 1 - 1)),
      bit_and_self m m (omega arith),
    )

pub pow_pos : (k : ℕ) → 0 < 2 ^ k
pow_pos zero = omega arith
pow_pos (suc k) = omega (arith, pow-suc 2 k, pow_pos k)

pub pow-add : (j k : ℕ) → 2 ^ (j + k) ≡ 2 ^ j * 2 ^ k
pow-add j zero = let e : j + 0 ≡ j = omega arith in rw e (omega arith)
pow-add j (suc k) =
    let e : j + suc k ≡ suc (j + k) = omega arith in
    rw (e, pow-suc 2 (j + k), pow-suc 2 k, pow-add j k) (mul_assoc (2 ^ j) (2 ^ k) 2)

pub pow_mono : (j k : ℕ) → j ≤ k → 2 ^ j ≤ 2 ^ k
pow_mono j zero h = let e : j ≡ 0 = omega arith in rw e (omega arith)
pow_mono j (suc k) h = elim (ℕ_discrete j (suc k)) [
  | yes e ↦ rw e (omega arith)
  | no other ↦ omega (arith, pow-suc 2 k, pow_mono j k (omega arith), pow_pos k)
]

-- Shifting right by two counts one after the other.
pub div-pow-add : (x j k : ℕ) → x / 2 ^ (j + k) ≡ x / 2 ^ j / 2 ^ k
div-pow-add x j k = rw (pow-add j k, div-div-eq-div-mul x (2 ^ j) (2 ^ k))

-- The test by which the configuration accepts a number holds of every power of two.
pub bit_and-pow_pred : (k : ℕ) → bit_and (2 ^ k) (2 ^ k - 1) ≡ 0
bit_and-pow_pred zero = refl
bit_and-pow_pred (suc k) =
    rw (pow-suc 2 k) (omega (arith, bit_and-pred_double (2 ^ k) (pow_pos k), bit_and-pow_pred k))

-- It holds of no other number but 0.
pow_of_bit_and_fuel : (f n : ℕ) → n ≤ f → 0 < n → bit_and n (n - 1) ≡ 0 → (k : ℕ) × (n ≡ 2 ^ k)
pow_of_bit_and_fuel zero n h p e = absurd (omega arith)
pow_of_bit_and_fuel (suc f) n h p e = elim (ℕ_discrete (n % 2) 0) [
  | yes even ↦
      let m : ℕ = n / 2 in
      let double : n ≡ m * 2 = omega arith in
      let (k, half_pow) =
        pow_of_bit_and_fuel f m (omega arith) (omega arith)
          (omega (arith, bit_and-pred_double m (omega arith), rw double at e)) in
      (suc k, rw (pow-suc 2 k) (omega arith))
  | no odd ↦
      let m : ℕ = n / 2 in
      let double : n ≡ m * 2 + 1 = omega arith in
      (0, omega (arith, bit_and-pred_odd m, rw double at e))
]

pub pow_of_bit_and : (n : ℕ) → 0 < n → bit_and n (n - 1) ≡ 0 → (k : ℕ) × (n ≡ 2 ^ k)
pow_of_bit_and n = pow_of_bit_and_fuel n n (omega arith)

bit_xor_zero_fuel : (n a : ℕ) → a ≤ n → bit_xor a 0 ≡ a
bit_xor_zero_fuel n zero h = refl
bit_xor_zero_fuel zero (suc a) h = absurd (omega arith)
bit_xor_zero_fuel (suc n) (suc a) h = omega (
  arith,
  bit_xor_step_suc a 0,
  bit_xor_zero_fuel n (suc a / 2) (omega arith),
  differ_zero (suc a % 2),
)
  where
    differ_zero : (x : ℕ) → differ x 0 ≡ x
    differ_zero zero = refl
    differ_zero (suc x) = refl

differ_one : (x : ℕ) → x < 2 → differ x 1 ≡ 1 - x
differ_one zero h = refl
differ_one (suc zero) h = refl
differ_one (suc (suc x)) h = absurd (omega arith)

-- x ^ 1 flips the last bit.
pub bit_xor_one : (a : ℕ) → bit_xor a 1 ≡ a / 2 * 2 + (1 - a % 2)
bit_xor_one zero = refl
bit_xor_one (suc a) = omega (
  arith,
  bit_xor_step_suc a 1,
  bit_xor_zero_fuel (suc a / 2) (suc a / 2) (omega arith),
  differ_one (suc a % 2) (omega arith),
)

bit_and_zero_fuel : (n a : ℕ) → a ≤ n → bit_and a 0 ≡ 0
bit_and_zero_fuel n zero h = refl
bit_and_zero_fuel zero (suc a) h = absurd (omega arith)
bit_and_zero_fuel (suc n) (suc a) h =
    omega (arith, bit_and_halves a 0, bit_and_zero_fuel n (suc a / 2) (omega arith))

-- x & 1 is the last bit.
pub bit_and_one : (a : ℕ) → bit_and a 1 ≡ a % 2
bit_and_one zero = refl
bit_and_one (suc a) =
    omega (arith, bit_and_halves a 1, bit_and_zero_fuel (suc a / 2) (suc a / 2) (omega arith))
