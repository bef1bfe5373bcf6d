-- ===== src/Zkp/Base64/Inverse.antt =====
-- Decoding gives back the bytes that were encoded.
use ssle_dag.Prelude.{
  ℕ, ◌+◌, ◌*◌, ◌/◌, ◌%◌, ◌<◌, ◌≡◌, ◌≢◌, refl, ◌∙◌, false, [], ◌∷◌, some, arith, ◌==◌, Bytes,
  IsBytes, All, keep, not, ◌||◌,
}
use ssle_dag.Zkp.Base64.{
  base64_char, base64_encode, base64_value, base64_decode, decode_groups, last_group, last_one,
  last_two, next_three,
}

base64_value-char : (v : ℕ) → v < 64 → base64_value (base64_char v) ≡ some v
unfolding base64_value base64_char
base64_value-char v h = ground arith

-- Neither the padding, nor a newline, nor the separator of a commitment.
abbrev pub IsText : ℕ → Type 0
IsText b = (b ≢ 10) × (b ≢ 13) × (b ≢ b'.')

padding : IsText b'='
padding = (λ e. absurd (omega arith), λ e. absurd (omega arith), λ e. absurd (omega arith))

base64_char-IsText : (v : ℕ) → IsText (base64_char v) × (base64_char v ≢ b'=')
unfolding base64_char
base64_char-IsText v =
    ((λ e. ground arith, λ e. ground arith, λ e. ground arith), λ e. ground arith)

pub base64_encode-IsText : (s : Bytes) → All IsText (base64_encode s)
unfolding base64_encode
base64_encode-IsText [] = tt
base64_encode-IsText (x ∷ []) =
    ((base64_char-IsText _).0, ((base64_char-IsText _).0, (padding, (padding, tt))))
base64_encode-IsText (x ∷ y ∷ []) = (
  (base64_char-IsText _).0,
  ((base64_char-IsText _).0, ((base64_char-IsText _).0, (padding, tt))),
)
base64_encode-IsText (x ∷ y ∷ z ∷ s) = (
  (base64_char-IsText _).0,
  (
    (base64_char-IsText _).0,
    ((base64_char-IsText _).0, ((base64_char-IsText _).0, base64_encode-IsText s)),
  ),
)

-- No newline is skipped.
keep-IsText : (s : Bytes) → All IsText s → keep (λ b. not (b == 10 || b == 13)) s ≡ s
keep-IsText [] h = refl
keep-IsText (b ∷ s) ((no_lf, no_cr, no_dot), h) = ground (arith, keep-IsText s h)

-- A group without padding.
decode_groups-next :
    (a b c d : ℕ) (s : Bytes)
    → d ≢ b'='
    → decode_groups (a ∷ b ∷ c ∷ d ∷ s)
      ≡ next_three
          (base64_value a)
          (base64_value b)
          (base64_value c)
          (base64_value d)
          (decode_groups s)
unfolding decode_groups last_group
decode_groups-next a b c d [] h = ground arith
decode_groups-next a b c d (e ∷ s) h = refl

decode_groups-base64_encode : (s : Bytes) → IsBytes s → decode_groups (base64_encode s) ≡ some s
unfolding base64_encode decode_groups last_group last_one last_two next_three
decode_groups-base64_encode [] h = refl
decode_groups-base64_encode (x ∷ []) (h, _) =
    let whole : x / 4 * 4 + x % 4 * 16 / 16 ≡ x = omega arith in
    rw
      (
        base64_value-char (x / 4) (omega arith),
        base64_value-char (x % 4 * 16) (omega arith),
        last_one,
      )
      (rw whole refl)
decode_groups-base64_encode (x ∷ y ∷ []) (h, (k, _)) =
    let not_padded : (base64_char (y % 16 * 4) == b'=') ≡ false =
      ground (arith, (base64_char-IsText (y % 16 * 4)).1) in
    let first : x / 4 * 4 + (x % 4 * 16 + y / 16) / 16 ≡ x = omega arith in
    let second : (x % 4 * 16 + y / 16) % 16 * 16 + y % 16 * 4 / 4 ≡ y = omega arith in
    rw
      (
        not_padded,
        base64_value-char (x / 4) (omega arith),
        base64_value-char (x % 4 * 16 + y / 16) (omega arith),
        base64_value-char (y % 16 * 4) (omega arith),
        last_two,
      )
      (rw (first, second) refl)
decode_groups-base64_encode (x ∷ y ∷ z ∷ s) (h, (k, (l, m))) =
    decode_groups-next _ _ _ (base64_char (z % 64)) (base64_encode s)
      (base64_char-IsText (z % 64)).1
    ∙ rw
        (
          base64_value-char (x / 4) (omega arith),
          base64_value-char (x % 4 * 16 + y / 16) (omega arith),
          base64_value-char (y % 16 * 4 + z / 64) (omega arith),
          base64_value-char (z % 64) (omega arith),
          decode_groups-base64_encode s m,
          next_three,
        )
        (three_bytes x y z s h k l)
  where
    three_bytes :
        (x y z : ℕ) (s : Bytes)
        → x < 256
        → y < 256
        → z < 256
        → some (
            (x / 4 * 4 + (x % 4 * 16 + y / 16) / 16)
            ∷ ((x % 4 * 16 + y / 16) % 16 * 16 + (y % 16 * 4 + z / 64) / 4)
            ∷ ((y % 16 * 4 + z / 64) % 4 * 64 + z % 64)
            ∷ s)
          ≡ some (x ∷ y ∷ z ∷ s)
    three_bytes x y z s h k l =
        let first : x / 4 * 4 + (x % 4 * 16 + y / 16) / 16 ≡ x = omega arith in
        let second : (x % 4 * 16 + y / 16) % 16 * 16 + (y % 16 * 4 + z / 64) / 4 ≡ y =
          omega arith in
        let third : (y % 16 * 4 + z / 64) % 4 * 64 + z % 64 ≡ z = omega arith in
        rw (first, second, third) refl

-- Decoding gives back every encoded row of bytes.
pub base64_decode-base64_encode : (s : Bytes) → IsBytes s → base64_decode (base64_encode s) ≡ some s
unfolding base64_decode
base64_decode-base64_encode s h =
    rw (keep-IsText (base64_encode s) (base64_encode-IsText s)) (decode_groups-base64_encode s h)
