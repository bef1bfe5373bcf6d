-- ===== src/Zkp/Base64.antt =====
-- The standard encoding of encoding/base64, in which node-implementation/zkp.go writes a commitment.
pub mod Inverse
use ssle_dag.Prelude.{
  ℕ, ◌+◌, ◌-◌, ◌*◌, ◌/◌, ◌%◌, ◌≡◌, Bool, true, false, ◌&&◌, ◌||◌, List, [], ◌∷◌, ◌++◌, Option, none,
  some, if◌then◌else◌, ◌==◌, ltb, leb, Bytes, keep, not,
}

-- The character of six bits.
unfoldable pub base64_char : ℕ → ℕ
base64_char v =
    if ltb v 26
    then b'A' + v
    else if ltb v 52
    then b'a' + (v - 26)
    else if ltb v 62
    then b'0' + (v - 52)
    else if v == 62
    then b'+'
    else b'/'

-- EncodeToString: three bytes become four characters, with padding at the end.
unfoldable pub base64_encode : Bytes → Bytes
base64_encode [] = []
base64_encode (x ∷ []) = base64_char (x / 4) ∷ base64_char (x % 4 * 16) ∷ b'=' ∷ b'=' ∷ []
base64_encode (x ∷ y ∷ []) =
    base64_char (x / 4) ∷ base64_char (x % 4 * 16 + y / 16) ∷ base64_char (y % 16 * 4) ∷ b'=' ∷ []
base64_encode (x ∷ y ∷ z ∷ s) =
    base64_char (x / 4)
    ∷ base64_char (x % 4 * 16 + y / 16)
    ∷ base64_char (y % 16 * 4 + z / 64)
    ∷ base64_char (z % 64)
    ∷ base64_encode s

unfoldable pub base64_value : ℕ → Option ℕ
base64_value b =
    if leb b'A' b && leb b b'Z'
    then some (b - b'A')
    else if leb b'a' b && leb b b'z'
    then some (b - b'a' + 26)
    else if leb b'0' b && leb b b'9'
    then some (b - b'0' + 52)
    else if b == b'+'
    then some 62
    else if b == b'/'
    then some 63
    else none

-- The bytes of a last group with two or one characters of padding.
unfoldable pub last_one : Option ℕ → Option ℕ → Option Bytes
last_one (some a) (some b) = some ((a * 4 + b / 16) ∷ [])
last_one _ _ = none

unfoldable pub last_two : Option ℕ → Option ℕ → Option ℕ → Option Bytes
last_two (some a) (some b) (some c) = some ((a * 4 + b / 16) ∷ (b % 16 * 16 + c / 4) ∷ [])
last_two _ _ _ = none

unfoldable pub next_three : Option ℕ → Option ℕ → Option ℕ → Option ℕ → Option Bytes → Option Bytes
next_three (some a) (some b) (some c) (some d) (some s) =
    some ((a * 4 + b / 16) ∷ (b % 16 * 16 + c / 4) ∷ (c % 4 * 64 + d) ∷ s)
next_three _ _ _ _ _ = none

-- A group of four characters with nothing behind it may be padded; spare bits are not checked.
unfoldable pub last_group : ℕ → ℕ → ℕ → ℕ → Option Bytes
last_group a b c d =
    if d == b'='
    then if c == b'='
      then last_one (base64_value a) (base64_value b)
      else last_two (base64_value a) (base64_value b) (base64_value c)
    else next_three (base64_value a) (base64_value b) (base64_value c) (base64_value d) (some [])

unfoldable pub decode_groups : Bytes → Option Bytes
decode_groups [] = some []
decode_groups (a ∷ []) = none
decode_groups (a ∷ b ∷ []) = none
decode_groups (a ∷ b ∷ c ∷ []) = none
decode_groups (a ∷ b ∷ c ∷ d ∷ []) = last_group a b c d
decode_groups (a ∷ b ∷ c ∷ d ∷ e ∷ s) =
    next_three (base64_value a) (base64_value b) (base64_value c) (base64_value d)
      (decode_groups (e ∷ s))

abbrev is_newline : ℕ → Bool
is_newline b = b == 10 || b == 13

-- DecodeString: carriage returns and newlines are skipped; none stands for its error.
unfoldable pub base64_decode : Bytes → Option Bytes
base64_decode s = decode_groups (keep (λ b. not (is_newline b)) s)
