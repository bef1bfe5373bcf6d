-- ===== src/Zkp/Circuit.antt =====
-- node-implementation/zkp.go: the circuit that Define describes, and generateCommitment, which assigns its
-- variables and proves it.
pub mod Satisfied
use ssle_dag.Prelude.{
  ℕ, ◌≡◌, Bool, true, false, List, [], ◌∷◌, Option, none, some, if◌then◌else◌, Outcome, ok, exit,
  panic, ◌>>=◌, Bytes, get_elem?,
}
use ssle_dag.Utils.Encoding.{encode_to_string}
use ssle_dag.Keys.Tree.{circuit_root}
use ssle_dag.Keys.Exchange.{KeyExchange}
use ssle_dag.Zkp.Message.{Signer, EddsaPreparation, prepare_eddsa}

-- EddsaCircuit, with the bytes that are assigned to its variables.
pub record EddsaCircuit : Type 0 where
  pub public_key : Bytes
  pub signature : Bytes
  pub message : Bytes
  pub secret : Bytes
  pub message_summed : Bytes
  pub secret_signature : Bytes
  pub epoch_round : Bytes
  pub root : Bytes
  pub path_nodes : List Bytes
  pub path_indices : List ℕ
  pub leaf : Bytes

-- The constraints of Define. `hash_pair` is the circuit's MiMC of two variables, `verify` its EdDSA
-- verification of a signature and a message with a public key.
pub record IsSatisfied (hash_pair : Bytes → Bytes → Bytes)
    (verify : Bytes → Bytes → Bytes → Option Bool) (a : EddsaCircuit) : Type 0 where
  pub summed : a.message_summed ≡ hash_pair a.message a.secret
  pub secret_verified : verify a.public_key a.secret_signature a.epoch_round ≡ some true
  pub message_verified : verify a.public_key a.signature a.message_summed ≡ some true
  pub in_tree : circuit_root hash_pair a.leaf a.path_nodes a.path_indices ≡ a.root

-- The assignment of generateCommitment; leafHashes[pubKeyLeafIndex] panics out of range.
unfoldable pub assign : EddsaPreparation → KeyExchange → Outcome EddsaCircuit
assign p keys = elim (get_elem? keys.leaf_hashes keys.pub_key_leaf_index) [
  | none ↦ panic
  | some leaf ↦ ok (record {
    public_key = p.public_key;
    signature = p.signature;
    message = p.message;
    secret = p.secret;
    message_summed = p.message_summed;
    secret_signature = p.secret_signature;
    epoch_round = p.epoch_round;
    root = keys.pub_merkle_tree_root;
    path_nodes = keys.path_nodes;
    path_indices = keys.path_indices;
    leaf = leaf;
  })
]

-- gnark: whether frontend.Compile succeeds, and the public witness and proof of an assignment, where none
-- stands for an error of NewWitness, Public or Prove.
pub record Prover (Witness Proof : Type 0) : Type 0 where
  pub compiles : Bool
  pub prove : EddsaCircuit → Option (Witness × Proof)

module _ {Witness Proof : Type 0} (prover : Prover Witness Proof) (mimc : List Bytes → Bytes)
    (signer : Signer) where
  -- The proof of an assignment, with the secret and its signature in hexadecimal.
  unfoldable pub prove_assignment :
      EddsaPreparation → EddsaCircuit → Outcome (Witness × Proof × Bytes × Bytes)
  prove_assignment p a = elim (prover.prove a) [
    | none ↦ exit
    | some (witness, proof) ↦
        ok (witness, proof, encode_to_string p.secret, encode_to_string p.secret_signature)
  ]

  unfoldable pub generate_commitment :
      KeyExchange → ℕ → ℕ → Outcome (Witness × Proof × Bytes × Bytes)
  generate_commitment keys epoch variant =
      if prover.compiles
      then prepare_eddsa mimc signer epoch variant >>= (λ p. assign p keys >>= prove_assignment p)
      else exit
