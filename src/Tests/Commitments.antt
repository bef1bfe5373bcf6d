-- ===== src/Tests/Commitments.antt =====
-- node-implementation/zkp.go with commitments of epoch 5.
use ssle_dag.Prelude.{
  ◌≡◌, refl, Bool, true, ◌&&◌, [], ◌∷◌, ◌++◌, some, arith, ltb, ltb→lt, ok, panic, Bytes, IsBytes,
  length, replicate, Bool-cases, inl, inr,
}
use ssle_dag.Messages.{PublicWitness}
use ssle_dag.Utils.Encoding.{encode_to_string, decode_string, pair_byte, from_hex_digit, hex_digit}
use ssle_dag.Zkp.Base64.{
  base64_char, base64_encode, base64_value, base64_decode, decode_groups, last_group, last_one,
  last_two, next_three,
}
use ssle_dag.Zkp.Text.{
  add_first, split_at, slice, parse_digits, in_range, parse_uint, decimal, zero_padded,
}
use ssle_dag.Zkp.Message.{
  commitment_separator, epoch_text, message_text, prepare_eddsa_message_length,
}
use ssle_dag.Zkp.Verify.{
  Gnark, first_piece, second_piece, last_bytes, is_epoch, is_variant, check_epoch_round,
  check_variant, check_round_and_variant, check_public_witness, decode_others, decode_fields, judge,
  read_proof_text, read_witness_text, read_texts, commitment_base64_encode,
  commitment_base64_decode, decode_public_witness, is_commitment_valid,
}
use ssle_dag.Zkp.Verify.Layout.{IsLayout}
use ssle_dag.Zkp.Verify.Honest.{
  IsWritten, commitment_base64_decode-encode, is_commitment_valid-honest,
}
use ssle_dag.Zkp.Verify.NoVariant.{bare_message, is_commitment_valid-no_variant}
use ssle_dag.Zkp.Verify.Accepted.{IsMessage, is_commitment_valid-IsMessage}
use ssle_dag.Tests.Network.{config}

-- Witnesses and proofs are their bytes, and each proof but the empty one is verified.
abbrev pub gnark : Gnark Bytes Bytes
gnark = record {
  write_witness = λ witness. some witness;
  read_witness = λ binary. some binary;
  write_proof = λ proof. some proof;
  read_proof = λ binary. some binary;
  verify = λ proof witness. ltb 0 (length proof);
}

abbrev part : Bytes
part = replicate 32 7

abbrev layout_bytes : Bytes → Bytes → Bytes
layout_bytes message epoch =
    replicate 12 0
    ++ (part
        ++ (part ++ (part ++ ((replicate 14 0 ++ message) ++ ((replicate 22 0 ++ epoch) ++ part)))))

abbrev are_bytes : Bytes → Bool
are_bytes [] = true
are_bytes (b ∷ s) = ltb b 256 && are_bytes s

are_bytes-IsBytes : (s : Bytes) → are_bytes s ≡ true → IsBytes s
are_bytes-IsBytes [] h = tt
are_bytes-IsBytes (b ∷ s) h = elim (Bool-cases (ltb b 256)) [
  | inl small ↦ (ltb→lt b 256 small, are_bytes-IsBytes s (ground arith))
  | inr large ↦ absurd (ground arith)
]

abbrev honest : Bytes
honest = layout_bytes (message_text 5 1) (epoch_text 5)

abbrev bare : Bytes
bare = layout_bytes (bare_message 5) (epoch_text 5)

abbrev proof : Bytes
proof = 1 ∷ 2 ∷ []

proof-IsBytes : IsBytes proof
proof-IsBytes = are_bytes-IsBytes proof refl

honest-IsWritten : IsWritten gnark honest proof honest proof
unfolding message_text epoch_text zero_padded decimal
honest-IsWritten = record {
  witness_written = refl;
  witness_read = refl;
  proof_written = refl;
  proof_read = refl;
  witness_IsBytes = are_bytes-IsBytes honest refl;
  proof_IsBytes = proof-IsBytes;
}

bare-IsWritten : IsWritten gnark bare proof bare proof
unfolding epoch_text zero_padded decimal
bare-IsWritten = record {
  witness_written = refl;
  witness_read = refl;
  proof_written = refl;
  proof_read = refl;
  witness_IsBytes = are_bytes-IsBytes bare refl;
  proof_IsBytes = proof-IsBytes;
}

layout_bytes-IsLayout :
    (message epoch : Bytes)
    → length message ≡ 18
    → length epoch ≡ 10
    → are_bytes (replicate 14 0 ++ message) ≡ true
    → are_bytes (replicate 22 0 ++ epoch) ≡ true
    → IsLayout (layout_bytes message epoch) part part part message epoch
layout_bytes-IsLayout message epoch m e mb eb = record {
  header = replicate 12 0;
  message_pad = replicate 14 0;
  epoch_pad = replicate 22 0;
  root = part;
  whole = refl;
  header_length = refl;
  rx_length = refl;
  ry_length = refl;
  sig_length = refl;
  message_length = m;
  message_pad_length = refl;
  epoch_length = e;
  epoch_pad_length = refl;
  message_IsBytes = are_bytes-IsBytes (replicate 14 0 ++ message) mb;
  epoch_IsBytes = are_bytes-IsBytes (replicate 22 0 ++ epoch) eb;
}

honest-IsLayout : IsLayout honest part part part (message_text 5 1) (epoch_text 5)
unfolding message_text epoch_text zero_padded decimal
honest-IsLayout = layout_bytes-IsLayout (message_text 5 1) (epoch_text 5) refl refl refl refl

bare-IsLayout : IsLayout bare part part part (bare_message 5) (epoch_text 5)
unfolding epoch_text zero_padded decimal
bare-IsLayout = layout_bytes-IsLayout (bare_message 5) (epoch_text 5) refl refl refl refl

commitment_base64_decode-encode_example :
    (text : Bytes) × (commitment_base64_encode gnark honest proof ≡ ok text)
    × (commitment_base64_decode gnark text ≡ some (honest, proof))
commitment_base64_decode-encode_example =
    commitment_base64_decode-encode gnark honest proof honest proof honest-IsWritten

is_commitment_valid-honest_example :
    (text : Bytes) × (w : PublicWitness) × (commitment_base64_encode gnark honest proof ≡ ok text)
    × (is_commitment_valid gnark config text 5 ≡ ok (true, w))
    × (w.message ≡ message_text 5 1)
is_commitment_valid-honest_example =
    is_commitment_valid-honest gnark config honest proof honest proof part part part 5 1
      honest-IsWritten honest-IsLayout (omega arith) (omega arith) (omega arith) (omega arith) refl

is_commitment_valid-no_variant_example :
    (text : Bytes) × (commitment_base64_encode gnark bare proof ≡ ok text)
    × (is_commitment_valid gnark config text 5 ≡ panic)
is_commitment_valid-no_variant_example =
    is_commitment_valid-no_variant gnark config bare proof bare proof part part part 5
      bare-IsWritten bare-IsLayout (omega arith)

abbrev pub text : Bytes
text = base64_encode honest ++ commitment_separator ∷ base64_encode proof

abbrev accepted : PublicWitness
accepted = record {
  message_sig_rx = encode_to_string part;
  message_sig_ry = encode_to_string part;
  message_sig_s = encode_to_string part;
  message = message_text 5 1;
  epoch_round = encode_to_string (replicate 22 0 ++ epoch_text 5);
}

accepted_fact : is_commitment_valid gnark config text 5 ≡ ok (true, accepted)
unfolding encode_to_string decode_string pair_byte from_hex_digit hex_digit base64_char
    base64_encode base64_value base64_decode decode_groups last_group last_one last_two next_three
    add_first split_at slice parse_digits in_range parse_uint decimal zero_padded epoch_text
    message_text prepare_eddsa_message_length first_piece second_piece last_bytes is_epoch
    is_variant check_epoch_round check_variant check_round_and_variant check_public_witness
    decode_others decode_fields judge read_proof_text read_witness_text read_texts
    commitment_base64_encode commitment_base64_decode decode_public_witness is_commitment_valid
accepted_fact = refl

is_commitment_valid-IsMessage_example :
    (witness : Bytes) × (proof : Bytes) × (commitment_base64_decode gnark text
      ≡ some (witness, proof))
    × (gnark.verify proof witness ≡ true)
    × (decode_public_witness gnark witness ≡ ok (some accepted))
    × IsMessage config accepted 5
is_commitment_valid-IsMessage_example =
    is_commitment_valid-IsMessage gnark config text 5 accepted accepted_fact
