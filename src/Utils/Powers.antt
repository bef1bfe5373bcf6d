-- ===== src/Utils/Powers.antt =====
-- node-implementation/utils.go: logBase2 and splitIntoPowersOfTwo.
use native.Mathlib.Nat.{pow-suc}
use ssle_dag.Prelude.{
  ℕ, zero, suc, ◌+◌, ◌-◌, ◌*◌, ◌/◌, ◌^◌, leb→le, ◌≤◌, ◌<◌, ◌≡◌, refl, true, false, List, [], ◌∷◌,
  arith, ap, sym, ltb→lt, lt→ltb, ltb, leb, ◌==◌, if◌then◌else◌, Outcome, ok, panic, All,
  Bool-cases, inl, inr,
}
use ssle_dag.Prelude.Bits.{pow_pos}

-- `for x > 1 { x >>= 1; result++ }`; each round halves x, so x rounds are enough.
unfoldable pub log_loop : ℕ → ℕ → ℕ → ℕ
log_loop zero x result = result
log_loop (suc fuel) x result =
    let more = log_loop fuel (x / 2) (result + 1) in if ltb 1 x then more else result

unfoldable pub log_base2 : ℕ → Outcome ℕ
unfolding log_loop
log_base2 x = if x == 0 then panic else ok (log_loop x x 0)

log_loop-pow : (k fuel result : ℕ) → 2 ^ k ≤ fuel → log_loop fuel (2 ^ k) result ≡ k + result
unfolding log_loop
log_loop-pow zero zero result h = omega arith
log_loop-pow zero (suc fuel) result h = omega arith
log_loop-pow (suc k) zero result h = absurd (omega (arith, pow_pos (suc k)))
log_loop-pow (suc k) (suc fuel) result h =
    let double = pow-suc 2 k in
    let positive = pow_pos k in
    let half : 2 ^ suc k / 2 ≡ 2 ^ k = omega arith in
    let large : ltb 1 (2 ^ suc k) ≡ true = lt→ltb _ _ (omega arith) in
    rw (large, half) (omega (arith, log_loop-pow k fuel (result + 1) (omega arith)))

-- The logarithm of a power of two is its exponent.
pub log_base2-pow : (k : ℕ) → log_base2 (2 ^ k) ≡ ok k
unfolding log_base2
log_base2-pow k =
    let positive : (2 ^ k == 0) ≡ false = ground (arith, pow_pos k) in
    rw positive (ap ok (omega (arith, log_loop-pow k (2 ^ k) 0 (omega arith))))

-- The result lies between: the loop ends with 2 ^ r ≤ x < 2 ^ (r + 1).
log_loop_bounds :
    (fuel x result : ℕ)
    → x ≤ fuel
    → 0 < x
    → (r : ℕ) × (log_loop fuel x result ≡ r + result) × (2 ^ r ≤ x) × (x < 2 ^ suc r)
unfolding log_loop
log_loop_bounds zero x result h p = absurd (omega arith)
log_loop_bounds (suc fuel) x result h p = elim (Bool-cases (ltb 1 x)) [
  | inl large ↦
      let (r, e, low, high) =
        log_loop_bounds fuel (x / 2) (result + 1) (ground arith) (ground arith) in
      (
        suc r,
        rw large (omega arith),
        omega (arith, pow-suc 2 r),
        omega (arith, pow-suc 2 r, pow-suc 2 (suc r)),
      )
  | inr small ↦ (0, rw small (omega arith), ground arith, ground arith)
]

-- logBase2 panics at 0. At any other x it returns the r with 2 ^ r ≤ x < 2 ^ (r + 1).
pub log_base2_bounds :
    (x : ℕ)
    → (log_base2 0 ≡ panic)
      × (0 < x → (r : ℕ) × (log_base2 x ≡ ok r) × (2 ^ r ≤ x) × (x < 2 ^ suc r))
unfolding log_base2
log_base2_bounds x = (refl, found)
  where
    found : 0 < x → (r : ℕ) × (log_base2 x ≡ ok r) × (2 ^ r ≤ x) × (x < 2 ^ suc r)
    found h =
        let (r, e, low, high) = log_loop_bounds x x 0 (omega arith) h in
        let positive : (x == 0) ≡ false = ground arith in
        (r, rw positive (ap ok (omega arith)), low, high)

-- The inner loop of splitIntoPowersOfTwo, `for highestPower*2 <= x { highestPower *= 2 }`. Each
-- round doubles a positive number, so x rounds are enough.
highest_loop : ℕ → ℕ → ℕ → ℕ
highest_loop zero x power = power
highest_loop (suc fuel) x power =
    let more = highest_loop fuel x (power * 2) in if leb (power * 2) x then more else power

-- The outer loop, `for x > 0`; each round takes at least 1 from x, so x rounds are enough.
split_loop : ℕ → ℕ → List ℕ
unfolding highest_loop
split_loop zero x = []
split_loop (suc fuel) x =
    let power = highest_loop x x 1 in
    let rest = split_loop fuel (x - power) in if ltb 0 x then power ∷ rest else []

-- The case of x = 0, `for i := 1; i <= maxPower; i <<= 1`; maxPower rounds are enough.
doubling_loop : ℕ → ℕ → ℕ → List ℕ
doubling_loop zero i max_power = []
doubling_loop (suc fuel) i max_power =
    let rest = doubling_loop fuel (i * 2) max_power in if leb i max_power then i ∷ rest else []

unfoldable pub split_into_powers_of_two : ℕ → ℕ → List ℕ
unfolding split_loop doubling_loop
split_into_powers_of_two x max_power =
    if x == 0 then doubling_loop max_power 1 max_power else split_loop x x

split_into_powers_of_two_runs :
    (split_into_powers_of_two 13 99 ≡ 8 ∷ 4 ∷ 1 ∷ [])
    × (split_into_powers_of_two 0 9 ≡ 1 ∷ 2 ∷ 4 ∷ 8 ∷ [])
unfolding split_into_powers_of_two
split_into_powers_of_two_runs = (refl, refl)

abbrev IsPower : ℕ → Type 0
IsPower p = (k : ℕ) × (p ≡ 2 ^ k)

abbrev sum : List ℕ → ℕ
sum [] = 0
sum (x ∷ xs) = x + sum xs

-- The numbers fall along the list and stay under the bound.
abbrev Falls : ℕ → List ℕ → Type 0
Falls bound [] = Unit {0}
Falls bound (x ∷ xs) = (x < bound) × Falls x xs

highest_loop_bounds :
    (fuel x k : ℕ)
    → x < 2 ^ k + fuel
    → 2 ^ k ≤ x
    → (r : ℕ) × (highest_loop fuel x (2 ^ k) ≡ 2 ^ r) × (2 ^ r ≤ x) × (x < 2 ^ r * 2)
unfolding highest_loop
highest_loop_bounds zero x k f low = absurd (omega arith)
highest_loop_bounds (suc fuel) x k f low = elim (Bool-cases (leb (2 ^ k * 2) x)) [
  | inl more ↦
      let double : 2 ^ k * 2 ≡ 2 ^ suc k = sym (pow-suc 2 k) in
      let positive = pow_pos k in
      let fits = leb→le _ _ more in
      rw (more, double) (highest_loop_bounds fuel x (suc k) (omega arith) (omega arith))
  | inr done ↦ (k, rw done, low, ground arith)
]

abbrev pub Splits : ℕ → ℕ → List ℕ → Type 0
Splits x bound l = (sum l ≡ x) × All IsPower l × Falls bound l

split_loop-Splits : (fuel x bound : ℕ) → x ≤ fuel → x < bound → Splits x bound (split_loop fuel x)
unfolding split_loop
split_loop-Splits zero x bound h b = (omega arith, tt, tt)
split_loop-Splits (suc fuel) x bound h b = elim (Bool-cases (ltb 0 x)) [
  | inl some_left ↦
      let positive = ltb→lt 0 x some_left in
      let (r, e, low, high) = highest_loop_bounds x x 0 (omega arith) (omega arith) in
      let power : ℕ = 2 ^ r in
      let (total, powers, falls) =
        split_loop-Splits fuel (x - power) power (omega (arith, pow_pos r)) (omega arith) in
      rw (some_left, e) (omega arith, ((r, refl), powers), (omega arith, falls))
  | inr none_left ↦ rw none_left (ground arith, tt, tt)
]

-- For x > 0 the result is the binary form of x: powers of two that add up to x, each smaller than
-- the one before, so none is there twice.
pub split_into_powers_of_two-Splits :
    (x max_power : ℕ) → 0 < x → Splits x (x + 1) (split_into_powers_of_two x max_power)
unfolding split_into_powers_of_two
split_into_powers_of_two-Splits x max_power h =
    let positive : (x == 0) ≡ false = ground arith in
    rw positive (split_loop-Splits x x (x + 1) (omega arith) (omega arith))

-- logBase2 of a positive x returns the r with 2 ^ r ≤ x < 2 ^ (r + 1).
pub log_base2-returns :
    (x : ℕ) → 0 < x → (r : ℕ) × (log_base2 x ≡ ok r) × (2 ^ r ≤ x) × (x < 2 ^ suc r)
log_base2-returns x h = (log_base2_bounds x).1 h
