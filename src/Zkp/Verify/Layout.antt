-- ===== src/Zkp/Verify/Layout.antt =====
-- The public witness of the circuit as gnark writes it: what the node reads from its fields.
use ssle_dag.Prelude.{
  ℕ, ◌+◌, ◌-◌, ◌*◌, ◌≡◌, refl, ap, sym, ◌∙◌, true, [], ◌∷◌, ◌++◌, some, arith, leb, le→leb, ok,
  Bytes, IsBytes, length, length-append, take, drop,
}
use ssle_dag.Utils.Encoding.{
  encode_to_string, decode_string, decode_string-encode_to_string, length-encode_to_string,
}
use ssle_dag.Zkp.Text.{slice}
use ssle_dag.Zkp.Message.{prepare_eddsa_message_length}
use ssle_dag.Zkp.Verify.{last_bytes, decode_fields, decode_others}

append_assoc : (a b d : Bytes) → (a ++ b) ++ d ≡ a ++ (b ++ d)
append_assoc [] b d = refl
append_assoc (x ∷ a) b d = ap (λ l. x ∷ l) (append_assoc a b d)

drop-append : (a b : Bytes) → drop (length a) (a ++ b) ≡ b
drop-append [] b = refl
drop-append (x ∷ a) b = drop-append a b

take-append : (a b : Bytes) → take (length a) (a ++ b) ≡ a
take-append [] b = refl
take-append (x ∷ a) b = ap (λ l. x ∷ l) (take-append a b)

slice-mid :
    (a b d : Bytes) (from to : ℕ)
    → from ≡ length a
    → to ≡ length a + length b
    → slice (a ++ (b ++ d)) from to ≡ ok b
unfolding slice
slice-mid a b d from to e f =
    let inside : leb to (length (a ++ (b ++ d))) ≡ true =
      le→leb _ _ (omega (arith, length-append a (b ++ d), length-append b d)) in
    let width : to - from ≡ length b = omega arith in
    rw (inside, width, e, drop-append a (b ++ d), take-append b d) refl

encode_to_string-append :
    (a b : Bytes) → encode_to_string (a ++ b) ≡ encode_to_string a ++ encode_to_string b
unfolding encode_to_string
encode_to_string-append [] b = refl
encode_to_string-append (x ∷ a) b = rw (encode_to_string-append a b) refl

-- The digits of the bytes between two places.
hex-mid :
    (a b d : Bytes) (from to : ℕ)
    → from ≡ 2 * length a
    → to ≡ 2 * length a + 2 * length b
    → slice (encode_to_string (a ++ (b ++ d))) from to ≡ ok (encode_to_string b)
hex-mid a b d from to e f =
    rw (encode_to_string-append a (b ++ d), encode_to_string-append b d)
      (slice-mid (encode_to_string a) (encode_to_string b) (encode_to_string d) from to
        (omega (arith, length-encode_to_string a))
        (omega (arith, length-encode_to_string a, length-encode_to_string b)))

pub last_bytes-append : (n : ℕ) (a b : Bytes) → length b ≡ n → last_bytes n (a ++ b) ≡ ok b
unfolding last_bytes
last_bytes-append n a b e =
    let room : leb n (length (a ++ b)) ≡ true = le→leb _ _ (omega (arith, length-append a b)) in
    let front : length (a ++ b) - n ≡ length a = omega (arith, length-append a b) in
    rw (room, front, drop-append a b) refl

-- A header of 12 bytes and the circuit's public values of 32 bytes each, in the order in which the
-- circuit declares them; the message and the epoch stand at the ends of their fields.
pub record IsLayout (binary rx ry sig message epoch : Bytes) : Type 0 where
  pub header : Bytes
  pub message_pad : Bytes
  pub epoch_pad : Bytes
  pub root : Bytes
  pub whole :
      binary
      ≡ header
        ++ (rx ++ (ry ++ (sig ++ ((message_pad ++ message) ++ ((epoch_pad ++ epoch) ++ root)))))
  pub header_length : length header ≡ 12
  pub rx_length : length rx ≡ 32
  pub ry_length : length ry ≡ 32
  pub sig_length : length sig ≡ 32
  pub message_length : length message ≡ 18
  pub message_pad_length : length message_pad ≡ 14
  pub epoch_length : length epoch ≡ 10
  pub epoch_pad_length : length epoch_pad ≡ 22
  pub message_IsBytes : IsBytes (message_pad ++ message)
  pub epoch_IsBytes : IsBytes (epoch_pad ++ epoch)

-- The tests of decode_fields one by one.
decode_fields-slices :
    (hex field message rx ry sig epoch : Bytes)
    → slice hex (24 + 64 * 3) (24 + 64 * 4) ≡ ok (encode_to_string field)
    → decode_string (encode_to_string field) ≡ some field
    → last_bytes prepare_eddsa_message_length field ≡ ok message
    → slice hex 24 (24 + 64 * 1) ≡ ok rx
    → slice hex (24 + 64 * 1) (24 + 64 * 2) ≡ ok ry
    → slice hex (24 + 64 * 2) (24 + 64 * 3) ≡ ok sig
    → slice hex (24 + 64 * 4) (24 + 64 * 5) ≡ ok epoch
    → decode_fields hex
      ≡ ok (
          some (record {
            message_sig_rx = rx;
            message_sig_ry = ry;
            message_sig_s = sig;
            message = message;
            epoch_round = epoch;
          }))
unfolding decode_fields decode_others
decode_fields-slices hex field message rx ry sig epoch at_m decoded last at_rx at_ry at_sig at_e =
    rw (at_m, decoded, decode_others, last, at_rx, at_ry, at_sig, at_e) refl

hex-field :
    (binary a b d : Bytes) (from to : ℕ)
    → binary ≡ a ++ (b ++ d)
    → from ≡ 2 * length a
    → to ≡ 2 * length a + 2 * length b
    → slice (encode_to_string binary) from to ≡ ok (encode_to_string b)
hex-field binary a b d from to whole e f =
    ap (λ x. slice (encode_to_string x) from to) whole ∙ hex-mid a b d from to e f

-- What is read from such a witness.
pub decode_fields-layout :
    (binary rx ry sig message epoch : Bytes) (layout : IsLayout binary rx ry sig message epoch)
    → decode_fields (encode_to_string binary)
      ≡ ok (
          some (record {
            message_sig_rx = encode_to_string rx;
            message_sig_ry = encode_to_string ry;
            message_sig_s = encode_to_string sig;
            message = message;
            epoch_round = encode_to_string (layout.epoch_pad ++ epoch);
          }))
unfolding prepare_eddsa_message_length
decode_fields-layout binary rx ry sig message epoch layout =
    let h = layout.header in
    let m = layout.message_pad ++ message in
    let e = layout.epoch_pad ++ epoch in
    let rest = e ++ layout.root in
    let from_ry : binary ≡ (h ++ rx) ++ (ry ++ (sig ++ (m ++ rest))) =
      layout.whole ∙ sym (append_assoc h rx (ry ++ (sig ++ (m ++ rest)))) in
    let from_sig : binary ≡ ((h ++ rx) ++ ry) ++ (sig ++ (m ++ rest)) =
      from_ry ∙ sym (append_assoc (h ++ rx) ry (sig ++ (m ++ rest))) in
    let from_m : binary ≡ (((h ++ rx) ++ ry) ++ sig) ++ (m ++ rest) =
      from_sig ∙ sym (append_assoc ((h ++ rx) ++ ry) sig (m ++ rest)) in
    let from_e : binary ≡ ((((h ++ rx) ++ ry) ++ sig) ++ m) ++ (e ++ layout.root) =
      from_m ∙ sym (append_assoc (((h ++ rx) ++ ry) ++ sig) m rest) in
    let at_ry : length (h ++ rx) ≡ 44 =
      omega (arith, length-append h rx, layout.header_length, layout.rx_length) in
    let at_sig : length ((h ++ rx) ++ ry) ≡ 76 =
      omega (arith, length-append (h ++ rx) ry, layout.ry_length) in
    let at_m : length (((h ++ rx) ++ ry) ++ sig) ≡ 108 =
      omega (arith, length-append ((h ++ rx) ++ ry) sig, layout.sig_length) in
    let m_length : length m ≡ 32 = omega (
      arith,
      length-append layout.message_pad message,
      layout.message_length,
      layout.message_pad_length,
    ) in
    let at_e : length ((((h ++ rx) ++ ry) ++ sig) ++ m) ≡ 140 =
      omega (arith, length-append (((h ++ rx) ++ ry) ++ sig) m) in
    let e_length : length e ≡ 32 =
      omega (
        arith,
        length-append layout.epoch_pad epoch,
        layout.epoch_length,
        layout.epoch_pad_length,
      ) in
    decode_fields-slices (encode_to_string binary) m message (encode_to_string rx)
      (encode_to_string ry) (encode_to_string sig) (encode_to_string e)
      (hex-field binary _ m rest 216 280 from_m (omega arith) (omega arith))
      (decode_string-encode_to_string m layout.message_IsBytes)
      (last_bytes-append 18 layout.message_pad message layout.message_length)
      (hex-field binary h rx _ 24 88 layout.whole (omega (arith, layout.header_length))
        (omega (arith, layout.header_length, layout.rx_length)))
      (hex-field binary _ ry _ 88 152 from_ry (omega arith) (omega (arith, layout.ry_length)))
      (hex-field binary _ sig _ 152 216 from_sig (omega arith) (omega (arith, layout.sig_length)))
      (hex-field binary _ e layout.root 280 344 from_e (omega arith) (omega arith))
