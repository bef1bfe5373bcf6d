-- ===== src/Zkp/Verify.antt =====
-- node-implementation/zkp.go: the text of a commitment, and isCommitmentValid, by which a node decides
-- about the commitment of another one.
pub mod Layout
pub mod Accepted
pub mod Honest
pub mod NoVariant
use ssle_dag.Prelude.{
  ℕ, ◌+◌, ◌-◌, ◌*◌, ◌%◌, ◌^◌, ◌≡◌, ◌&&◌, Bool, true, false, List, [], ◌∷◌, ◌++◌, Option, none, some,
  if◌then◌else◌, ◌==◌, leb, Outcome, ok, exit, panic, ◌>>=◌, Bytes, bytes_eq, length, drop,
  get_elem?,
}
use ssle_dag.Config.{Settings}
use ssle_dag.Messages.{PublicWitness, no_witness}
use ssle_dag.Utils.Encoding.{encode_to_string, decode_string}
use ssle_dag.Zkp.Text.{split_at, slice, parse_uint}
use ssle_dag.Zkp.Base64.{base64_encode, base64_decode}
use ssle_dag.Zkp.Message.{
  protocol_version, epoch_separator, variant_separator, commitment_separator,
  prepare_eddsa_message_length,
}

-- gnark: public witnesses and proofs with WriteTo and ReadFrom, where none is an error, and
-- groth16.Verify with the node's key.
pub record Gnark (Witness Proof : Type 0) : Type 0 where
  pub write_witness : Witness → Option Bytes
  pub read_witness : Bytes → Option Witness
  pub write_proof : Proof → Option Bytes
  pub read_proof : Bytes → Option Proof
  pub verify : Proof → Witness → Bool

-- pieces[1], which panics out of range, and pieces[0] of a split, which is always there.
unfoldable pub second_piece : List Bytes → Outcome Bytes
second_piece pieces = elim (get_elem? pieces 1) [ none ↦ panic | some piece ↦ ok piece ]

unfoldable pub first_piece : List Bytes → Bytes
first_piece [] = []
first_piece (piece ∷ pieces) = piece

-- s[len(s)-n:]
unfoldable pub last_bytes : ℕ → Bytes → Outcome Bytes
last_bytes n s = if leb n (length s) then ok (drop (length s - n) s) else panic

-- `uint32(round) == epoch` for a round that could be parsed.
unfoldable pub is_epoch : Option ℕ → ℕ → Bool
is_epoch none epoch = false
is_epoch (some round) epoch = round % 2 ^ 32 == epoch

unfoldable pub is_variant : Settings → Option ℕ → Bool
is_variant c none = false
is_variant c (some variant) = leb c.min_commitment_var variant && leb variant c.max_commitment_var

-- The last ten bytes of EpochRound.
unfoldable pub check_epoch_round : Bytes → ℕ → Outcome Bool
check_epoch_round field epoch = elim (decode_string field) [
  | none ↦ ok false
  | some bytes ↦ last_bytes 10 bytes >>= (λ text. ok (is_epoch (parse_uint 32 text) epoch))
]

unfoldable pub check_variant : Settings → List Bytes → Outcome Bool
check_variant c pieces = do text ← second_piece pieces; ok (is_variant c (parse_uint 64 text))

-- What follows the protocol version.
unfoldable pub check_round_and_variant : Settings → List Bytes → Bytes → ℕ → Outcome Bool
check_round_and_variant c pieces field epoch =
    if is_epoch (parse_uint 64 (first_piece pieces)) epoch
    then check_epoch_round field epoch
      >>= (λ same. if same then check_variant c pieces else ok false)
    else ok false

-- The tests between the decoding and the verification of the proof.
unfoldable pub check_public_witness : Settings → PublicWitness → ℕ → Outcome Bool
check_public_witness c w epoch =
    let pieces = split_at epoch_separator w.message in
    if bytes_eq (first_piece pieces) protocol_version
    then second_piece pieces
      >>= (λ rest. check_round_and_variant c (split_at variant_separator rest) w.epoch_round epoch)
    else ok false

-- The other fields of the written witness, once its message field was read from the hexadecimal text.
unfoldable pub decode_others : Bytes → Option Bytes → Outcome (Option PublicWitness)
decode_others hex none = ok none
decode_others hex (some field) = do
  message ← last_bytes prepare_eddsa_message_length field
  rx ← slice hex 24 (24 + 64 * 1)
  ry ← slice hex (24 + 64 * 1) (24 + 64 * 2)
  sig ← slice hex (24 + 64 * 2) (24 + 64 * 3)
  epoch_round ← slice hex (24 + 64 * 4) (24 + 64 * 5)
  ok (
      some (record {
        message_sig_rx = rx;
        message_sig_ry = ry;
        message_sig_s = sig;
        message = message;
        epoch_round = epoch_round;
      }))

-- START_INDEX is 24, the digits of the header.
unfoldable pub decode_fields : Bytes → Outcome (Option PublicWitness)
decode_fields hex = do
  message_hex ← slice hex (24 + 64 * 3) (24 + 64 * 4)
  decode_others hex (decode_string message_hex)

-- What follows decodePublicWitness, with the verdict of groth16.Verify, which is asked last.
unfoldable pub judge : Settings → ℕ → Bool → Option PublicWitness → Outcome (Bool × PublicWitness)
judge c epoch verified none = ok (false, no_witness)
judge c epoch verified (some w) =
    check_public_witness c w epoch
    >>= (λ good. ok (if good && verified then (true, w) else (false, no_witness)))

module _ {Witness Proof : Type 0} (gnark : Gnark Witness Proof) where
  unfoldable pub commitment_base64_encode : Witness → Proof → Outcome Bytes
  commitment_base64_encode witness proof = elim (gnark.write_witness witness) [
    | none ↦ exit
    | some witness_binary ↦ elim (gnark.write_proof proof) [
      | none ↦ exit
      | some proof_binary ↦
          ok (base64_encode witness_binary ++ commitment_separator ∷ base64_encode proof_binary)
    ]
  ]

  -- Each error gives up.
  unfoldable pub read_proof_text : Witness → Option Bytes → Option (Witness × Proof)
  read_proof_text witness none = none
  read_proof_text witness (some binary) = elim (gnark.read_proof binary) [
    | none ↦ none
    | some proof ↦ some (witness, proof)
  ]

  unfoldable pub read_witness_text : Option Bytes → Bytes → Option (Witness × Proof)
  read_witness_text none proof_text = none
  read_witness_text (some binary) proof_text = elim (gnark.read_witness binary) [
    | none ↦ none
    | some witness ↦ read_proof_text witness (base64_decode proof_text)
  ]

  unfoldable pub read_texts : List Bytes → Option (Witness × Proof)
  read_texts (witness_text ∷ proof_text ∷ []) =
      read_witness_text (base64_decode witness_text) proof_text
  read_texts _ = none

  unfoldable pub commitment_base64_decode : Bytes → Option (Witness × Proof)
  commitment_base64_decode data_text = read_texts (split_at commitment_separator data_text)

  unfoldable pub decode_public_witness : Witness → Outcome (Option PublicWitness)
  decode_public_witness witness = elim (gnark.write_witness witness) [
    | none ↦ ok none
    | some binary ↦ decode_fields (encode_to_string binary)
  ]

  unfoldable pub is_commitment_valid : Settings → Bytes → ℕ → Outcome (Bool × PublicWitness)
  is_commitment_valid c commitment epoch = elim (commitment_base64_decode commitment) [
    | none ↦ ok (false, no_witness)
    | some (witness, proof) ↦
        decode_public_witness witness >>= judge c epoch (gnark.verify proof witness)
  ]
