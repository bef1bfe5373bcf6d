-- ===== src/Utils/Encoding.antt =====
-- node-implementation/utils.go: uInt32ToBytes and int64ToBytes (encoding/binary, big endian), and
-- the hexadecimal form of encoding/hex that the node keeps hashes and keys in.
use ssle_dag.Prelude.{
  ℕ, ◌+◌, ◌-◌, ◌*◌, ◌/◌, ◌%◌, ◌^◌, ◌<◌, ◌≡◌, refl, ap, ◌&&◌, [], ◌∷◌, Option, none, some, arith,
  ltb, leb, if◌then◌else◌, Bytes, IsBytes, length, sym, ◌∙◌, Option-cases, inl, inr,
}
use ssle_dag.Prelude.Int.{ℤ, pos, negsuc, to_uint64, to_uint64_injective, IsInt64}

-- binary.BigEndian.PutUint32 into a fresh buffer of 4 bytes.
unfoldable pub u_int32_to_bytes : ℕ → Bytes
u_int32_to_bytes i = i / 2 ^ 24 % 256 ∷ i / 2 ^ 16 % 256 ∷ i / 2 ^ 8 % 256 ∷ i % 256 ∷ []

-- binary.BigEndian.PutUint64 of uint64(i) into a fresh buffer of 8 bytes.
unfoldable pub int64_to_bytes : ℤ → Bytes
int64_to_bytes i =
    let u = to_uint64 i in
    u / 2 ^ 56 % 256
    ∷ u / 2 ^ 48 % 256
    ∷ u / 2 ^ 40 % 256
    ∷ u / 2 ^ 32 % 256
    ∷ u / 2 ^ 24 % 256
    ∷ u / 2 ^ 16 % 256
    ∷ u / 2 ^ 8 % 256
    ∷ u % 256
    ∷ []

-- The big-endian value of a byte slice, as encoding/binary reads it and big.Int.SetBytes.
unfoldable pub from_big_endian : ℕ → Bytes → ℕ
from_big_endian acc [] = acc
from_big_endian acc (b ∷ bs) = from_big_endian (acc * 256 + b) bs

-- Reading the four bytes back gives the number, for every uint32.
pub from_big_endian-u_int32_to_bytes :
    (i : ℕ) → i < 2 ^ 32 → from_big_endian 0 (u_int32_to_bytes i) ≡ i
unfolding from_big_endian u_int32_to_bytes
from_big_endian-u_int32_to_bytes i h = omega arith

to_uint64-lt : (i : ℤ) → to_uint64 i < 2 ^ 64
to_uint64-lt (pos n) = omega arith
to_uint64-lt (negsuc n) = omega arith

-- Reading the eight bytes back gives the bit pattern.
from_big_endian-int64_to_bytes : (i : ℤ) → from_big_endian 0 (int64_to_bytes i) ≡ to_uint64 i
unfolding from_big_endian int64_to_bytes
from_big_endian-int64_to_bytes i = let small : to_uint64 i < 2 ^ 64 = to_uint64-lt i in omega arith

-- Two int64 values with the same eight bytes are equal.
pub int64_to_bytes_injective :
    (i j : ℤ) → IsInt64 i → IsInt64 j → int64_to_bytes i ≡ int64_to_bytes j → i ≡ j
int64_to_bytes_injective i j h k e = to_uint64_injective i j h k (
    sym (from_big_endian-int64_to_bytes i)
    ∙ ap (from_big_endian 0) e
    ∙ from_big_endian-int64_to_bytes j)

-- One hexadecimal digit, lower case.
unfoldable pub hex_digit : ℕ → ℕ
hex_digit d = if ltb d 10 then b'0' + d else b'a' + d - 10

-- hex.EncodeToString
unfoldable pub encode_to_string : Bytes → Bytes
encode_to_string [] = []
encode_to_string (b ∷ bs) = hex_digit (b / 16) ∷ hex_digit (b % 16) ∷ encode_to_string bs

-- The value of a digit of either case; none for any other byte.
unfoldable pub from_hex_digit : ℕ → Option ℕ
from_hex_digit c =
    if leb b'0' c && leb c b'9'
    then some (c - b'0')
    else if leb b'a' c && leb c b'f'
    then some (c - b'a' + 10)
    else if leb b'A' c && leb c b'F'
    then some (c - b'A' + 10)
    else none

unfoldable pub pair_byte : Option ℕ → Option ℕ → Option Bytes → Option Bytes
pair_byte (some hi) (some lo) (some rest) = some ((hi * 16 + lo) ∷ rest)
pair_byte _ _ _ = none

-- hex.DecodeString; none stands for its error (a bad digit, or an odd number of digits).
unfoldable pub decode_string : Bytes → Option Bytes
unfolding pair_byte
decode_string [] = some []
decode_string (c ∷ []) = none
decode_string (c ∷ d ∷ cs) = pair_byte (from_hex_digit c) (from_hex_digit d) (decode_string cs)

from_hex_digit-hex_digit : (d : ℕ) → d < 16 → from_hex_digit (hex_digit d) ≡ some d
unfolding from_hex_digit hex_digit
from_hex_digit-hex_digit d h = ground arith

-- Decoding what was encoded gives the bytes back.
pub decode_string-encode_to_string :
    (b : Bytes) → IsBytes b → decode_string (encode_to_string b) ≡ some b
unfolding decode_string encode_to_string
decode_string-encode_to_string [] h = refl
decode_string-encode_to_string (b ∷ bs) h =
    let high = from_hex_digit-hex_digit (b / 16) (omega arith) in
    let low = from_hex_digit-hex_digit (b % 16) (omega arith) in
    let rest = decode_string-encode_to_string bs h.1 in
    let whole : b / 16 * 16 + b % 16 ≡ b = omega arith in rw (high, low, rest, pair_byte) (rw whole)

pub length-encode_to_string : (b : Bytes) → length (encode_to_string b) ≡ 2 * length b
unfolding encode_to_string
length-encode_to_string [] = omega arith
length-encode_to_string (b ∷ bs) = omega (arith, length-encode_to_string bs)

-- A decoded string has two digits for each byte.
pub length-decode_string : (s b : Bytes) → decode_string s ≡ some b → length s ≡ 2 * length b
unfolding decode_string
length-decode_string [] b h = ground arith
length-decode_string (c ∷ []) b h = cc
length-decode_string (c ∷ d ∷ cs) b h = elim (Option-cases (decode_string cs)) [
  | inl e ↦ ground arith
  | inr (rest, e) ↦ ground (arith, length-decode_string cs rest e)
]
