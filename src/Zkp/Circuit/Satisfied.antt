-- ===== src/Zkp/Circuit/Satisfied.antt =====
-- node-implementation/zkp.go: the commitments that a node generates satisfy the circuit.
use ssle_dag.Prelude.{
  ℕ, ◌≤◌, ◌≡◌, refl, sym, ◌∙◌, Bool, true, List, [], ◌∷◌, Option, some, le→leb, ok, Bytes, length,
  take,
}
use ssle_dag.Config.{Settings}
use ssle_dag.Utils.Encoding.{encode_to_string}
use ssle_dag.Keys.Exchange.{KeyExchange, KeyEffect, process_pub_key_exchange}
use ssle_dag.Keys.Exchange.Proof.{IsLastKey, process_pub_key_exchange-completes}
use ssle_dag.Zkp.Text.{slice}
use ssle_dag.Zkp.Message.{Signer, EddsaPreparation, signed, prepare_eddsa, epoch_text, message_text}
use ssle_dag.Zkp.Circuit.{
  EddsaCircuit, IsSatisfied, Prover, assign, prove_assignment, generate_commitment,
}

-- What is documented of EdDSA: each message is signed, the signature is verified, and it is longer than
-- the 31 bytes that are cut off it.
unfoldable pub IsSound : Signer → Type 0
IsSound signer =
    (message : Bytes)
    → (sig : Bytes) × (signer.sign message ≡ some sig)
      × (signer.verify sig message ≡ some true)
      × (31 ≤ length sig)

signed_sound :
    (signer : Signer) (message sig : Bytes)
    → signer.sign message ≡ some sig
    → signer.verify sig message ≡ some true
    → signed signer message ≡ ok sig
unfolding signed
signed_sound signer message sig e f = rw (e, f, signed) refl

slice_front : (s : Bytes) → 31 ≤ length s → slice s 0 31 ≡ ok (take 31 s)
unfolding slice
slice_front s h = rw (le→leb 31 (length s) h) refl

prepare_eddsa_sound :
    (mimc : List Bytes → Bytes) (signer : Signer) (epoch variant : ℕ)
    → IsSound signer
    → (p : EddsaPreparation) × (prepare_eddsa mimc signer epoch variant ≡ ok p)
      × (p.public_key ≡ signer.public_key)
      × (p.message_summed ≡ mimc (p.message ∷ p.secret ∷ []))
      × (signer.verify p.secret_signature p.epoch_round ≡ some true)
      × (signer.verify p.signature p.message_summed ≡ some true)
      × (p.message ≡ message_text epoch variant)
unfolding prepare_eddsa IsSound
prepare_eddsa_sound mimc signer epoch variant sound =
    let (sig, made, verified, long) = sound (epoch_text epoch) in
    let text = message_text epoch variant in
    let summed = mimc (text ∷ take 31 sig ∷ []) in
    let (sig_message, made_message, verified_message, _) = sound summed in
    let p : EddsaPreparation = record {
      public_key = signer.public_key;
      private_key = signer.private_key;
      message = text;
      signature = sig_message;
      secret = take 31 sig;
      message_summed = summed;
      secret_signature = sig;
      epoch_round = epoch_text epoch;
    } in
    (
      p,
      rw
          (
            signed_sound signer (epoch_text epoch) sig made verified,
            slice_front sig long,
            signed_sound signer summed sig_message made_message verified_message,
          )
          refl,
      refl,
      refl,
      verified,
      verified_message,
      refl,
    )

-- After a first exchange of the keys was completed by a received key, the variables that
-- generateCommitment assigns for any epoch and variant satisfy every constraint of the circuit: when the
-- circuit compiles and the prover returns a result for each satisfying assignment, when the node's
-- signatures are verified by its own key, and when the circuit's MiMC of a pair is the hasher's. So it
-- returns that result, with the secret and its signature.
pub generate_commitment-IsSatisfied :
    {Witness Proof : Type 0} (prover : Prover Witness Proof) (mimc : List Bytes → Bytes)
    (hash_pair : Bytes → Bytes → Bytes) (signer : Signer)
    (verify : Bytes → Bytes → Bytes → Option Bool) (public_key : Bytes) (c : Settings)
    (keys : KeyExchange) (received : Bytes) (epoch variant : ℕ)
    → ((l r : Bytes) → hash_pair l r ≡ mimc (l ∷ r ∷ []))
    → ((sig message : Bytes) → verify signer.public_key sig message ≡ signer.verify sig message)
    → IsSound signer
    → IsLastKey public_key c keys received
    → prover.compiles ≡ true
    → ((a : EddsaCircuit)
        → IsSatisfied hash_pair verify a
        → (witness : Witness) × (proof : Proof) × (prover.prove a ≡ some (witness, proof)))
    → (keys' : KeyExchange) × (effects : List KeyEffect) × (process_pub_key_exchange mimc public_key
          c keys received
        ≡ ok (keys', effects))
      × (a : EddsaCircuit) × (witness : Witness) × (proof : Proof) × (secret secret_sig : Bytes)
      × (generate_commitment prover mimc signer keys' epoch variant
          ≡ ok (witness, proof, secret, secret_sig))
      × (prover.prove a ≡ some (witness, proof))
      × (a.message ≡ message_text epoch variant)
      × IsSatisfied hash_pair verify a
unfolding generate_commitment assign prove_assignment
generate_commitment-IsSatisfied prover mimc hash_pair signer verify public_key c keys received epoch
      variant same own sound last compiles proves =
    let (keys', effects, run, complete) =
      process_pub_key_exchange-completes mimc hash_pair public_key same c keys received last in
    let (p, prepared, owner, summed, secret_verified, message_verified, text) =
      prepare_eddsa_sound mimc signer epoch variant sound in
    let a : EddsaCircuit = record {
      public_key = p.public_key;
      signature = p.signature;
      message = p.message;
      secret = p.secret;
      message_summed = p.message_summed;
      secret_signature = p.secret_signature;
      epoch_round = p.epoch_round;
      root = keys'.pub_merkle_tree_root;
      path_nodes = keys'.path_nodes;
      path_indices = keys'.path_indices;
      leaf = mimc (public_key ∷ []);
    } in
    let satisfied : IsSatisfied hash_pair verify a = record {
      summed = summed ∙ sym (same p.message p.secret);
      secret_verified = rw owner (own p.secret_signature p.epoch_round ∙ secret_verified);
      message_verified = rw owner (own p.signature p.message_summed ∙ message_verified);
      in_tree = complete.closed;
    } in
    let (witness, proof, proved) = proves a satisfied in
    let assigned : assign p keys' ≡ ok a = rw (complete.leaf, assign) refl in
    (
      keys',
      _,
      run,
      a,
      witness,
      proof,
      encode_to_string p.secret,
      encode_to_string p.secret_signature,
      rw (compiles, prepared, assigned, proved, prove_assignment) refl,
      proved,
      text,
      satisfied,
    )
