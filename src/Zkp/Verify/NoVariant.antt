-- ===== src/Zkp/Verify/NoVariant.antt =====
-- node-implementation/zkp.go: isCommitmentValid on a message without the separator of the variant.
use ssle_dag.Prelude.{
  ℕ, ◌%◌, ◌^◌, ◌<◌, ◌≡◌, refl, true, ◌∷◌, ◌++◌, arith, ◌==◌, ok, panic, Bytes, codes,
}
use ssle_dag.Config.{Settings}
use ssle_dag.Utils.Encoding.{encode_to_string}
use ssle_dag.Zkp.Text.{split_at-none, split_at-once, zero_padded}
use ssle_dag.Zkp.Text.Numbers.{zero_padded-IsDigit, parse_uint-zero_padded}
use ssle_dag.Zkp.Message.{epoch_separator, variant_separator, epoch_text}
use ssle_dag.Zkp.Verify.{
  Gnark, first_piece, second_piece, is_epoch, check_epoch_round, check_variant,
  check_round_and_variant, check_public_witness, commitment_base64_encode, is_commitment_valid,
}
use ssle_dag.Zkp.Verify.Layout.{IsLayout}
use ssle_dag.Zkp.Verify.Honest.{
  IsWritten, check_epoch_round-honest, digits-avoid, layout_witness, decoded-valid,
  commitment_base64_decode-encode,
}

-- A message of 18 bytes with a round of 16 digits and no variant.
abbrev pub bare_message : ℕ → Bytes
bare_message epoch = codes "1" ++ epoch_separator ∷ zero_padded 16 epoch

check_public_witness-bare :
    (c : Settings) (epoch : ℕ) (rx ry sig field : Bytes)
    → epoch < 2 ^ 32
    → check_epoch_round (encode_to_string field) epoch ≡ ok true
    → check_public_witness c (layout_witness rx ry sig (bare_message epoch) field) epoch ≡ panic
unfolding check_public_witness first_piece second_piece check_round_and_variant check_variant
    is_epoch
check_public_witness-bare c epoch rx ry sig field small same_round =
    let digits = zero_padded-IsDigit 16 epoch in
    let first =
      split_at-once epoch_separator (codes "1") (zero_padded 16 epoch)
        (λ e. absurd (omega arith), tt)
        (digits-avoid epoch_separator _ (λ d. absurd (omega (arith, d.1))) digits) in
    let second =
      split_at-none variant_separator (zero_padded 16 epoch)
        (digits-avoid variant_separator _ (λ d. absurd (omega (arith, d.0))) digits) in
    let parsed = parse_uint-zero_padded 64 15 epoch (omega arith) (omega arith) (omega arith) in
    let same : (epoch % 2 ^ 32 == epoch) ≡ true = ground arith in
    rw (first, second, parsed, same, same_round) refl

-- A commitment whose message has the right version and the epoch's round in 16 digits, but no separator
-- of a variant, and whose EpochRound names the epoch too, makes isCommitmentValid panic in that epoch,
-- whatever its proof is: the index into the pieces is out of range before the proof is verified.
pub is_commitment_valid-no_variant :
    {Witness Proof : Type 0} (gnark : Gnark Witness Proof) (c : Settings) (witness : Witness)
    (proof : Proof) (witness_binary proof_binary rx ry sig : Bytes) (epoch : ℕ)
    → IsWritten gnark witness proof witness_binary proof_binary
    → IsLayout witness_binary rx ry sig (bare_message epoch) (epoch_text epoch)
    → epoch < 2 ^ 32
    → (text : Bytes) × (commitment_base64_encode gnark witness proof ≡ ok text)
      × (is_commitment_valid gnark c text epoch ≡ panic)
unfolding epoch_text check_epoch_round is_epoch
is_commitment_valid-no_variant gnark c witness proof wb pb rx ry sig epoch written layout small =
    let (text, encoded, decoded) =
      commitment_base64_decode-encode gnark witness proof wb pb written in
    let same : (epoch % 2 ^ 32 == epoch) ≡ true = ground arith in
    let same_round = check_epoch_round-honest epoch layout.epoch_pad small layout.epoch_IsBytes in
    let checked =
      check_public_witness-bare c epoch _ _ _ (layout.epoch_pad ++ epoch_text epoch) small
        same_round in
    (
      text,
      encoded,
      decoded-valid gnark c witness proof wb text rx ry sig (bare_message epoch) (epoch_text epoch)
          epoch panic written.witness_written decoded layout checked,
    )
