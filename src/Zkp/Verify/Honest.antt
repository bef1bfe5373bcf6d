-- ===== src/Zkp/Verify/Honest.antt =====
-- A commitment as prepareEdDSA makes it is accepted; one without a variant ends the node that reads it.
use ssle_dag.Prelude.{
  ℕ, ◌%◌, ◌^◌, ◌<◌, ◌≤◌, ◌≡◌, ◌≢◌, refl, ◌∙◌, ◌>>=◌, Bool, true, false, ◌&&◌, [], ◌∷◌, ◌++◌, some,
  arith, ◌==◌, if◌then◌else◌, Outcome, ok, Bytes, IsBytes, All, codes,
}
use ssle_dag.Config.{Settings}
use ssle_dag.Messages.{PublicWitness, no_witness}
use ssle_dag.Utils.Encoding.{encode_to_string, decode_string-encode_to_string}
use ssle_dag.Zkp.Text.{split_at-once, zero_padded}
use ssle_dag.Zkp.Text.Numbers.{
  IsDigit, All-append, zero_padded-IsDigit, length-zero_padded, parse_uint-zero_padded,
}
use ssle_dag.Zkp.Base64.{base64_encode}
use ssle_dag.Zkp.Base64.Inverse.{IsText, base64_encode-IsText, base64_decode-base64_encode}
use ssle_dag.Zkp.Message.{
  epoch_separator, variant_separator, commitment_separator, epoch_text, message_text,
}
use ssle_dag.Zkp.Verify.{
  Gnark, first_piece, second_piece, is_epoch, is_variant, check_epoch_round, check_variant,
  check_round_and_variant, check_public_witness, commitment_base64_encode, commitment_base64_decode,
  read_texts, read_witness_text, read_proof_text, decode_public_witness, judge, is_commitment_valid,
}
use ssle_dag.Zkp.Verify.Layout.{IsLayout, last_bytes-append, decode_fields-layout}

-- The bytes that gnark writes for a witness and a proof, and reads back.
pub record IsWritten {Witness Proof : Type 0} (gnark : Gnark Witness Proof) (witness : Witness)
    (proof : Proof) (witness_binary proof_binary : Bytes) : Type 0 where
  pub witness_written : gnark.write_witness witness ≡ some witness_binary
  pub witness_read : gnark.read_witness witness_binary ≡ some witness
  pub proof_written : gnark.write_proof proof ≡ some proof_binary
  pub proof_read : gnark.read_proof proof_binary ≡ some proof
  pub witness_IsBytes : IsBytes witness_binary
  pub proof_IsBytes : IsBytes proof_binary

no_dot : (s : Bytes) → All IsText s → All (λ b. b ≢ b'.') s
no_dot [] h = tt
no_dot (b ∷ s) ((lf, cr, dot), h) = (dot, no_dot s h)

pub digits-avoid : (x : ℕ) (s : Bytes) → ¬ IsDigit x → All IsDigit s → All (λ b. b ≢ x) s
digits-avoid x [] h k = tt
digits-avoid x (b ∷ s) h (d, k) = (λ e. h (rw e at d), digits-avoid x s h k)

module _ {Witness Proof : Type 0} (gnark : Gnark Witness Proof) (witness : Witness) (proof : Proof)
    (witness_binary proof_binary : Bytes)
    (written : IsWritten gnark witness proof witness_binary proof_binary) where
  -- Encoding a public witness and a proof that gnark writes and can read back returns, and decoding
  -- the text gives back both.
  pub commitment_base64_decode-encode :
      (text : Bytes) × (commitment_base64_encode gnark witness proof ≡ ok text)
      × (commitment_base64_decode gnark text ≡ some (witness, proof))
  unfolding commitment_base64_encode commitment_base64_decode read_texts read_witness_text
      read_proof_text
  commitment_base64_decode-encode = (
    base64_encode witness_binary ++ commitment_separator ∷ base64_encode proof_binary,
    rw (written.witness_written, written.proof_written, commitment_base64_encode) refl,
    rw
        (
          split_at-once commitment_separator (base64_encode witness_binary)
              (base64_encode proof_binary) (no_dot _ (base64_encode-IsText witness_binary))
              (no_dot _ (base64_encode-IsText proof_binary)),
          base64_decode-base64_encode witness_binary written.witness_IsBytes,
          read_witness_text,
          written.witness_read,
          base64_decode-base64_encode proof_binary written.proof_IsBytes,
          read_proof_text,
          written.proof_read,
        )
        refl,
  )

pub check_epoch_round-honest :
    (epoch : ℕ) (pad : Bytes)
    → epoch < 2 ^ 32
    → IsBytes (pad ++ epoch_text epoch)
    → check_epoch_round (encode_to_string (pad ++ epoch_text epoch)) epoch ≡ ok true
unfolding check_epoch_round is_epoch epoch_text
check_epoch_round-honest epoch pad small_epoch pad_IsBytes =
    rw
      (
        decode_string-encode_to_string (pad ++ zero_padded 10 epoch) pad_IsBytes,
        check_epoch_round,
        last_bytes-append 10 pad (zero_padded 10 epoch) (length-zero_padded 9 epoch (omega arith)),
        parse_uint-zero_padded 32 9 epoch small_epoch (omega arith) (omega arith),
        is_epoch,
      )
      (ground arith)

module _ (c : Settings) (epoch variant : ℕ) (small_epoch : epoch < 2 ^ 32)
    (lower : c.min_commitment_var ≤ variant) (upper : variant ≤ c.max_commitment_var)
    (short : variant < 10 ^ 5) (pad : Bytes) (pad_IsBytes : IsBytes (pad ++ epoch_text epoch)) where
  check_variant-honest : check_variant c (epoch_text epoch ∷ zero_padded 5 variant ∷ []) ≡ ok true
  unfolding check_variant second_piece is_variant
  check_variant-honest =
      rw (parse_uint-zero_padded 64 4 variant (omega arith) (omega arith) (omega arith))
        (ground arith)

  check_public_witness-honest :
      (rx ry sig : Bytes)
      → check_public_witness c
          (record {
            message_sig_rx = rx;
            message_sig_ry = ry;
            message_sig_s = sig;
            message = message_text epoch variant;
            epoch_round = encode_to_string (pad ++ epoch_text epoch);
          })
          epoch
        ≡ ok true
  unfolding check_public_witness message_text first_piece second_piece check_round_and_variant
      epoch_text is_epoch
  check_public_witness-honest rx ry sig =
      let digits = zero_padded-IsDigit 10 epoch in
      let variant_digits = zero_padded-IsDigit 5 variant in
      let first =
        split_at-once epoch_separator (codes "1")
          (zero_padded 10 epoch ++ variant_separator ∷ zero_padded 5 variant)
          (λ e. absurd (omega arith), tt)
          (All-append (λ b. b ≢ epoch_separator) (zero_padded 10 epoch)
            (variant_separator ∷ zero_padded 5 variant)
            (digits-avoid epoch_separator _ (λ d. absurd (omega (arith, d.1))) digits)
            (
              λ e. absurd (omega arith),
              digits-avoid epoch_separator _ (λ d. absurd (omega (arith, d.1))) variant_digits,
            )) in
      let second =
        split_at-once variant_separator (zero_padded 10 epoch) (zero_padded 5 variant)
          (digits-avoid variant_separator _ (λ d. absurd (omega (arith, d.0))) digits)
          (digits-avoid variant_separator _ (λ d. absurd (omega (arith, d.0))) variant_digits) in
      let parsed = parse_uint-zero_padded 64 9 epoch (omega arith) (omega arith) (omega arith) in
      let same : (epoch % 2 ^ 32 == epoch) ≡ true = ground arith in
      rw
        (
          first,
          second,
          parsed,
          same,
          check_epoch_round-honest epoch pad small_epoch pad_IsBytes,
          check_variant-honest,
        )
        refl

-- What is read from the fields of the layout.
abbrev pub layout_witness : Bytes → Bytes → Bytes → Bytes → Bytes → PublicWitness
layout_witness rx ry sig message field = record {
  message_sig_rx = encode_to_string rx;
  message_sig_ry = encode_to_string ry;
  message_sig_s = encode_to_string sig;
  message = message;
  epoch_round = encode_to_string field;
}

-- The part of isCommitmentValid before the tests, for a text that was made from a witness of the layout.
pub decoded-valid :
    {Witness Proof : Type 0} (gnark : Gnark Witness Proof) (c : Settings) (witness : Witness)
    (proof : Proof) (witness_binary text rx ry sig message epoch_field : Bytes) (epoch : ℕ)
    (good : Outcome Bool)
    → gnark.write_witness witness ≡ some witness_binary
    → commitment_base64_decode gnark text ≡ some (witness, proof)
    → (layout : IsLayout witness_binary rx ry sig message epoch_field)
    → check_public_witness c
        (layout_witness rx ry sig message (layout.epoch_pad ++ epoch_field))
        epoch
      ≡ good
    → is_commitment_valid gnark c text epoch ≡ (
        good >>= (λ b. ok (
          if b && gnark.verify proof witness
          then (true, layout_witness rx ry sig message (layout.epoch_pad ++ epoch_field))
          else (false, no_witness))))
unfolding is_commitment_valid decode_public_witness judge
decoded-valid gnark c witness proof binary text rx ry sig message field epoch good wrote read layout
      checked =
    rw
      (
        read,
        wrote,
        is_commitment_valid,
        decode_public_witness,
        decode_fields-layout binary rx ry sig message field layout,
        checked,
      )
      refl

-- A commitment with the message of prepareEdDSA for an epoch of 32 bits and a variant between the
-- configured bounds and below 10^5, written and laid out as gnark does, returns from the encoding with a
-- text that isCommitmentValid accepts in that epoch, with that message, if its proof is verified;
-- whichever Merkle root the witness carries.
pub is_commitment_valid-honest :
    {Witness Proof : Type 0} (gnark : Gnark Witness Proof) (c : Settings) (witness : Witness)
    (proof : Proof) (witness_binary proof_binary rx ry sig : Bytes) (epoch variant : ℕ)
    → IsWritten gnark witness proof witness_binary proof_binary
    → IsLayout witness_binary rx ry sig (message_text epoch variant) (epoch_text epoch)
    → epoch < 2 ^ 32
    → c.min_commitment_var ≤ variant
    → variant ≤ c.max_commitment_var
    → variant < 10 ^ 5
    → gnark.verify proof witness ≡ true
    → (text : Bytes) × (w : PublicWitness) × (commitment_base64_encode gnark witness proof
        ≡ ok text)
      × (is_commitment_valid gnark c text epoch ≡ ok (true, w))
      × (w.message ≡ message_text epoch variant)
is_commitment_valid-honest gnark c witness proof wb pb rx ry sig epoch variant written layout small
      lower upper short verified =
    let (text, encoded, decoded) =
      commitment_base64_decode-encode gnark witness proof wb pb written in
    let checked =
      check_public_witness-honest c epoch variant small lower upper short layout.epoch_pad
        layout.epoch_IsBytes (encode_to_string rx) (encode_to_string ry) (encode_to_string sig) in
    (
      text,
      layout_witness rx ry sig (message_text epoch variant) (layout.epoch_pad ++ epoch_text epoch),
      encoded,
      decoded-valid gnark c witness proof wb text rx ry sig (message_text epoch variant)
            (epoch_text epoch) epoch (ok true) written.witness_written decoded layout checked
          ∙ rw verified refl,
      refl,
    )
