-- ===== src/Zkp/Text.antt =====
-- The functions of the packages strings, strconv and fmt that node-implementation/zkp.go uses, on ASCII.
pub mod Numbers
use ssle_dag.Prelude.{
  ℕ, zero, suc, ◌+◌, ◌-◌, ◌*◌, ◌/◌, ◌%◌, ◌^◌, ◌≡◌, ◌≢◌, refl, ap, Bool, true, false, ◌&&◌, List, [],
  ◌∷◌, ◌++◌, Option, none, some, if◌then◌else◌, ◌==◌, ltb, leb, Bytes, length, replicate, All,
  arith, Outcome, ok, panic, take, drop,
}

-- The byte in front of the first piece.
unfoldable pub add_first : ℕ → List Bytes → List Bytes
add_first b [] = (b ∷ []) ∷ []
add_first b (piece ∷ pieces) = (b ∷ piece) ∷ pieces

-- strings.Split at a separator of one byte.
unfoldable pub split_at : ℕ → Bytes → List Bytes
split_at separator [] = [] ∷ []
split_at separator (b ∷ s) =
    let rest = split_at separator s in if b == separator then [] ∷ rest else add_first b rest

-- s[from:to]
unfoldable pub slice : Bytes → ℕ → ℕ → Outcome Bytes
slice s from to = if leb to (length s) then ok (take (to - from) (drop from s)) else panic

-- The value of a row of decimal digits, from the value of those in front of it.
unfoldable pub parse_digits : ℕ → Bytes → Option ℕ
parse_digits acc [] = some acc
parse_digits acc (b ∷ s) =
    let rest = parse_digits (acc * 10 + (b - b'0')) s in
    if leb b'0' b && leb b b'9' then rest else none

-- The range error of strconv.ParseUint.
unfoldable pub in_range : ℕ → Option ℕ → Option ℕ
in_range bits none = none
in_range bits (some n) = if ltb n (2 ^ bits) then some n else none

-- strconv.ParseUint(s, 10, bits); none stands for its error.
unfoldable pub parse_uint : ℕ → Bytes → Option ℕ
parse_uint bits [] = none
parse_uint bits (b ∷ s) = in_range bits (parse_digits 0 (b ∷ s))

-- The digits of a number, with room for so many more of them in front of the last one.
unfoldable pub decimal : ℕ → ℕ → Bytes
decimal zero n = (b'0' + n % 10) ∷ []
decimal (suc more) n =
    let front = decimal more (n / 10) in
    if ltb n 10 then (b'0' + n) ∷ [] else front ++ (b'0' + n % 10) ∷ []

-- fmt.Sprintf("%0wd", n); a number below 2 ^ 64 has at most 20 digits.
unfoldable pub zero_padded : ℕ → ℕ → Bytes
zero_padded width n = let digits = decimal 19 n in replicate (width - length digits) b'0' ++ digits

-- The separator is in no piece of a text that does not have it.
pub split_at-none :
    (separator : ℕ) (s : Bytes) → All (λ b. b ≢ separator) s → split_at separator s ≡ s ∷ []
unfolding split_at add_first
split_at-none separator [] h = refl
split_at-none separator (b ∷ s) (other, h) = rw (split_at-none separator s h) (ground arith)

-- A text with the separator once has two pieces.
pub split_at-once :
    (separator : ℕ) (s t : Bytes)
    → All (λ b. b ≢ separator) s
    → All (λ b. b ≢ separator) t
    → split_at separator (s ++ separator ∷ t) ≡ s ∷ t ∷ []
unfolding split_at add_first
split_at-once separator [] t h k = rw (split_at-none separator t k) (ground arith)
split_at-once separator (b ∷ s) t (other, h) k =
    let rest = split_at-once separator s t h k in rw rest (ground arith)
