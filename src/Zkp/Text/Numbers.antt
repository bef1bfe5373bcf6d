-- ===== src/Zkp/Text/Numbers.antt =====
-- Printing a number in decimal and parsing it again.
use ssle_dag.Prelude.{
  ℕ, zero, suc, ◌+◌, ◌-◌, ◌*◌, ◌/◌, ◌%◌, ◌^◌, ◌<◌, ◌≤◌, ◌≡◌, refl, ap, ◌∙◌, inl, inr, [], ◌∷◌, ◌++◌,
  some, ltb, Bytes, length, length-append, replicate, All, arith, Bool-cases, ltb→lt, lt→ltb,
}
use ssle_dag.Zkp.Text.{parse_digits, in_range, parse_uint, decimal, zero_padded}
use native.Mathlib.Nat.{pow-suc}

abbrev pub IsDigit : ℕ → Type 0
IsDigit b = (b'0' ≤ b) × (b ≤ b'9')

pub All-append : (P : ℕ → Type 0) (a b : Bytes) → All P a → All P b → All P (a ++ b)
All-append P [] b h k = k
All-append P (x ∷ a) b (p, h) k = (p, All-append P a b h k)

All-replicate : (P : ℕ → Type 0) (n x : ℕ) → P x → All P (replicate n x)
All-replicate P zero x p = tt
All-replicate P (suc n) x p = (p, All-replicate P n x p)

pub decimal-IsDigit : (more n : ℕ) → All IsDigit (decimal more n)
unfolding decimal
decimal-IsDigit zero n = ((omega arith, omega arith), tt)
decimal-IsDigit (suc more) n = elim (Bool-cases (ltb n 10)) [
  | inl small ↦ rw small ((omega arith, ground arith), tt)
  | inr large ↦ rw large (
      All-append IsDigit (decimal more (n / 10)) ((b'0' + n % 10) ∷ [])
        (decimal-IsDigit more (n / 10)) ((omega arith, omega arith), tt))
]

parse_digits-snoc :
    (acc d v : ℕ) (s : Bytes)
    → d < 10
    → parse_digits acc s ≡ some v
    → parse_digits acc (s ++ (b'0' + d) ∷ []) ≡ some (v * 10 + d)
unfolding parse_digits
parse_digits-snoc acc d v [] h e = ground arith
parse_digits-snoc acc d v (b ∷ s) h e =
    ground (arith, parse_digits-snoc (acc * 10 + (b - b'0')) d v s h)

parse_digits-zeros : (n : ℕ) (s : Bytes) → parse_digits 0 (replicate n b'0' ++ s) ≡ parse_digits 0 s
unfolding parse_digits
parse_digits-zeros zero s = refl
parse_digits-zeros (suc n) s = parse_digits-zeros n s

parse_digits_one : (n : ℕ) → n < 10 → parse_digits 0 ((b'0' + n) ∷ []) ≡ some n
unfolding parse_digits
parse_digits_one n h = ground arith

suc_add_one : (n : ℕ) → suc n + 1 ≡ suc (n + 1)
suc_add_one n = omega arith

pub parse_digits-decimal :
    (more n : ℕ) → n < 10 ^ (more + 1) → parse_digits 0 (decimal more n) ≡ some n
unfolding decimal
parse_digits-decimal zero n h = let low : n % 10 ≡ n = omega arith in rw low (parse_digits_one n h)
parse_digits-decimal (suc more) n h = elim (Bool-cases (ltb n 10)) [
  | inl small ↦ rw small (parse_digits_one n (ltb→lt n 10 small))
  | inr large ↦
      let front =
        parse_digits-decimal more (n / 10)
          (omega (arith, pow-suc 10 (more + 1), ap (λ k. 10 ^ k) (suc_add_one more))) in
      let whole : n / 10 * 10 + n % 10 ≡ n = omega arith in
      rw large (
        parse_digits-snoc 0 (n % 10) (n / 10) (decimal more (n / 10)) (omega arith) front
        ∙ rw whole refl)
]

length-decimal : (more width n : ℕ) → n < 10 ^ (width + 1) → length (decimal more n) ≤ width + 1
unfolding decimal
length-decimal zero width n h = omega arith
length-decimal (suc more) zero n h = ground arith
length-decimal (suc more) (suc width) n h = elim (Bool-cases (ltb n 10)) [
  | inl small ↦ rw small (omega arith)
  | inr large ↦ rw large (
      omega (
        arith,
        length-append (decimal more (n / 10)) ((b'0' + n % 10) ∷ []),
        length-decimal more width (n / 10)
            (omega (arith, pow-suc 10 (width + 1), ap (λ k. 10 ^ k) (suc_add_one width))),
      ))
]

length-replicate : (n x : ℕ) → length (replicate n x) ≡ n
length-replicate zero x = refl
length-replicate (suc n) x = ap suc (length-replicate n x)

pub zero_padded-IsDigit : (width n : ℕ) → All IsDigit (zero_padded width n)
unfolding zero_padded
zero_padded-IsDigit width n =
    All-append IsDigit (replicate (width - length (decimal 19 n)) b'0') (decimal 19 n)
      (All-replicate IsDigit (width - length (decimal 19 n)) b'0' (omega arith, omega arith))
      (decimal-IsDigit 19 n)

-- A number below 10 ^ (w + 1) takes exactly w + 1 places.
pub length-zero_padded :
    (width n : ℕ) → n < 10 ^ (width + 1) → length (zero_padded (width + 1) n) ≡ width + 1
unfolding zero_padded
length-zero_padded width n h = omega (
  arith,
  length-decimal 19 width n h,
  length-append (replicate (width + 1 - length (decimal 19 n)) b'0') (decimal 19 n),
  length-replicate (width + 1 - length (decimal 19 n)) b'0',
)

parse_uint-digits :
    (bits n : ℕ) (s : Bytes)
    → 0 < length s
    → parse_digits 0 s ≡ some n
    → n < 2 ^ bits
    → parse_uint bits s ≡ some n
unfolding parse_uint in_range
parse_uint-digits bits n [] h e k = absurd (omega arith)
parse_uint-digits bits n (b ∷ s) h e k = rw (e, in_range, lt→ltb n (2 ^ bits) k) refl

-- Parsing what was printed gives the number back, if it fits.
pub parse_uint-zero_padded :
    (bits width n : ℕ)
    → n < 2 ^ bits
    → n < 10 ^ 20
    → n < 10 ^ (width + 1)
    → parse_uint bits (zero_padded (width + 1) n) ≡ some n
unfolding zero_padded
parse_uint-zero_padded bits width n fits small short =
    parse_uint-digits bits n (zero_padded (width + 1) n)
      (omega (arith, length-zero_padded width n short))
      (parse_digits-zeros (width + 1 - length (decimal 19 n)) (decimal 19 n)
        ∙ parse_digits-decimal 19 n small)
      fits
