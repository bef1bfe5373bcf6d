-- ===== src/P2p/Receive/Vouched.antt =====
-- What stands behind a block that a node takes over from another one: the verified proof of its
-- commitment.
use ssle_dag.Prelude.{ℕ, ◌≡◌, refl, ◌⊎◌, inl, inr, true, some, ok, Bytes}
use ssle_dag.Prelude.Dict.{All-lookup}
use ssle_dag.Config.{Settings}
use ssle_dag.Messages.{BlockTransfer, CommitmentSharedInfo, PublicWitness, no_witness}
use ssle_dag.Utils.Encoding.{encode_to_string}
use ssle_dag.Blockchain.{Ledger}
use ssle_dag.Blockchain.Hashing.{Crypto}
use ssle_dag.Blockchain.Process.Checks.{IsAccepted}
use ssle_dag.P2p.Epochs.{Epochs}
use ssle_dag.P2p.Epochs.Commitments.{shared_info}
use ssle_dag.P2p.Epochs.Commitments.Steps.{Steps}
use ssle_dag.P2p.Epochs.Commitments.Maps.{InMaps, Steps-InMaps}
use ssle_dag.P2p.Receive.{ReceiveEffect, process_bchain_block}
use ssle_dag.P2p.Receive.Cases.{process_bchain_block-cases}
use ssle_dag.Zkp.Verify.{
  Gnark, commitment_base64_decode, decode_public_witness, is_commitment_valid,
}
use ssle_dag.Zkp.Verify.Accepted.{IsMessage, is_commitment_valid-IsMessage}

module _ {Witness Proof : Type 0} (gnark : Gnark Witness Proof) (keccak256 : Bytes → Bytes)
    (c : Settings) where
  -- The commitment is the node's own, or its proof was verified and its message names an epoch and
  -- a permitted variant; and it is stored under its hash.
  abbrev pub IsVouched : Bytes × CommitmentSharedInfo → Type 0
  IsVouched entry =
      (entry.0 ≡ encode_to_string (keccak256 entry.1.commitment))
      × ((entry.1.public ≡ no_witness)
          ⊎ ((epoch : ℕ) × (witness : Witness) × (proof : Proof) × (commitment_base64_decode gnark
                  entry.1.commitment
                ≡ some (witness, proof))
              × (gnark.verify proof witness ≡ true)
              × (decode_public_witness gnark witness ≡ ok (some entry.1.public))
              × IsMessage c entry.1.public epoch))

  pub received-IsVouched :
      (commitment : Bytes) (round : ℕ) (w : PublicWitness)
      → is_commitment_valid gnark c commitment round ≡ ok (true, w)
      → IsVouched ((shared_info keccak256 commitment w).hash, shared_info keccak256 commitment w)
  unfolding shared_info
  received-IsVouched commitment round w e =
      let (witness, proof, decoded, verified, fields, message) =
        is_commitment_valid-IsMessage gnark c commitment round w e in
      (refl, inr (round, witness, proof, decoded, verified, fields, message))

  pub own-IsVouched :
      (commitment : Bytes)
      → IsVouched (
        (shared_info keccak256 commitment no_witness).hash,
        shared_info keccak256 commitment no_witness,
      )
  unfolding shared_info
  own-IsVouched commitment = (refl, inl refl)

  -- In every state that the commitment handlers and the epoch changes reach, with isCommitmentValid as
  -- the check of received commitments, from one whose maps hold vouched entries only: when the handler
  -- of a received block returns, the ledger is as it was, or the block was appended with the hash and
  -- references that it must have, and its commitment hash is that of a commitment which is the node's
  -- own or has a verified proof and a message of the protocol with a permitted variant.
  pub process_bchain_block-IsVouched :
      (crypto : Crypto) (draws : ℕ → ℕ → ℕ → ℕ) (s s' : Epochs) (l l' : Ledger) (t : BlockTransfer)
      (effect : ReceiveEffect)
      → InMaps IsVouched s
      → Steps keccak256 (is_commitment_valid gnark c) draws c s s'
      → process_bchain_block crypto c s' l t ≡ ok (l', effect)
      → (l' ≡ l)
        ⊎ ((shared : CommitmentSharedInfo) × IsAccepted crypto l l' t shared
            × IsVouched (t.commitment_hash, shared))
  process_bchain_block-IsVouched crypto draws s s' l l' t effect vouched steps e =
      let (_, _, running_vouched) =
        Steps-InMaps IsVouched keccak256 (is_commitment_valid gnark c) draws c received-IsVouched
          own-IsVouched s s' steps vouched in
      elim (process_bchain_block-cases crypto c s' l l' t effect e) [
        | inl unchanged ↦ inl unchanged
        | inr (shared, found, accepted) ↦ inr (
          shared,
          accepted,
          All-lookup IsVouched t.commitment_hash shared s'.run.commitments_bucket_map
              running_vouched found,
        )
      ]
