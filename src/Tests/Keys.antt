-- ===== src/Tests/Keys.antt =====
-- The exchange of public keys between two nodes.
use mathlib.Core.List.{Permᴰ}
use ssle_dag.Prelude.{
  ◌≡◌, refl, Bool, true, false, List, [], ◌∷◌, ◌++◌, Option, some, arith, ok, panic, Bytes,
  bytes_eq, codes, replicate, get_elem?, here,
}
use ssle_dag.P2p.Bucket.{sort_strings, insert_string}
use ssle_dag.Keys.Tree.{circuit_root}
use ssle_dag.Keys.Exchange.{KeyExchange, KeyEffect, is_exchanged, add_key, process_pub_key_exchange}
use ssle_dag.Keys.Exchange.Proof.{
  IsLastKey, process_pub_key_exchange-proof, process_pub_key_exchange-Agree,
}
use ssle_dag.Keys.Exchange.Repeat.{process_pub_key_exchange-repeated}
use ssle_dag.Zkp.Message.{Signer, message_text}
use ssle_dag.Zkp.Circuit.{EddsaCircuit, IsSatisfied, Prover, generate_commitment}
use ssle_dag.Zkp.Circuit.Satisfied.{IsSound, generate_commitment-IsSatisfied}
use ssle_dag.Tests.Network.{config}

-- A stand-in for MiMC: the bytes that were written.
abbrev mimc : List Bytes → Bytes
mimc [] = []
mimc (x ∷ writes) = x ++ mimc writes

abbrev hash_pair : Bytes → Bytes → Bytes
hash_pair l r = mimc (l ∷ r ∷ [])

abbrev key_a : Bytes
key_a = codes "aa"

abbrev key_b : Bytes
key_b = codes "bb"

abbrev with_keys : List Bytes → KeyExchange
with_keys keys = record {
  exchanged_pub_key = keys;
  exchanged_pub_key_sent_initial_message = false;
  pub_keys_merkle_leaves = [];
  leaf_hashes = replicate 512 [];
  levels = [];
  pub_merkle_tree_root = [];
  pub_key_leaf_index = 0;
  path_nodes = [];
  path_indices = [];
}

last_key :
    (own other : Bytes)
    → bytes_eq own other ≡ false
    → IsLastKey own config (with_keys (own ∷ [])) other
unfolding add_key is_exchanged
last_key own other different = record {
  first = refl;
  room = refl;
  every = rw different refl;
  fits = omega arith;
  own = here refl;
}

process_pub_key_exchange-proof_example :
    (s' : KeyExchange) × (effects : List KeyEffect) × (process_pub_key_exchange mimc key_a config
        (with_keys (key_a ∷ []))
        key_b
      ≡ ok (s', effects))
    × (get_elem? s'.leaf_hashes s'.pub_key_leaf_index ≡ some (mimc (key_a ∷ [])))
    × (circuit_root hash_pair (mimc (key_a ∷ [])) s'.path_nodes s'.path_indices
        ≡ s'.pub_merkle_tree_root)
process_pub_key_exchange-proof_example =
    process_pub_key_exchange-proof mimc hash_pair key_a (λ l r. refl) config
      (with_keys (key_a ∷ [])) key_b (last_key key_a key_b refl)

keys_swapped : Permᴰ (add_key (key_a ∷ []) key_b) (add_key (key_b ∷ []) key_a)
unfolding add_key is_exchanged
keys_swapped = Permᴰ.swap refl refl

process_pub_key_exchange-Agree_example :
    (a' b' : KeyExchange) × (effects_a effects_b : List KeyEffect) × (process_pub_key_exchange mimc
        key_a config
        (with_keys (key_a ∷ []))
        key_b
      ≡ ok (a', effects_a))
    × (process_pub_key_exchange mimc key_b config (with_keys (key_b ∷ [])) key_a
        ≡ ok (b', effects_b))
    × (a'.pub_merkle_tree_root ≡ b'.pub_merkle_tree_root)
process_pub_key_exchange-Agree_example =
    process_pub_key_exchange-Agree mimc config key_a key_b (with_keys (key_a ∷ []))
      (with_keys (key_b ∷ [])) key_b key_a (last_key key_a key_b refl) (last_key key_b key_a refl)
      keys_swapped

known_fact : is_exchanged (sort_strings (add_key (key_a ∷ []) key_b)) key_b ≡ true
unfolding is_exchanged sort_strings insert_string add_key
known_fact = ground arith

process_pub_key_exchange-repeated_example :
    (s' : KeyExchange) × (effects : List KeyEffect) × (process_pub_key_exchange mimc key_a config
        (with_keys (key_a ∷ []))
        key_b
      ≡ ok (s', effects))
    × (process_pub_key_exchange mimc key_a config s' key_b ≡ panic)
process_pub_key_exchange-repeated_example =
    process_pub_key_exchange-repeated mimc key_a config (with_keys (key_a ∷ [])) key_b key_b
      (last_key key_a key_b refl) known_fact

abbrev signer : Signer
signer = record {
  public_key = key_a;
  private_key = codes "p";
  sign = λ message. some (replicate 32 1);
  verify = λ sig message. some true;
}

abbrev prover : Prover Bytes Bytes
prover = record { compiles = true; prove = λ a. some (a.message, a.secret) }

abbrev verify : Bytes → Bytes → Bytes → Option Bool
verify key sig message = some true

signer-IsSound : IsSound signer
unfolding IsSound
signer-IsSound = λ message. (replicate 32 1, refl, refl, omega arith)

generate_commitment-IsSatisfied_example :
    (keys' : KeyExchange) × (effects : List KeyEffect) × (process_pub_key_exchange mimc key_a config
        (with_keys (key_a ∷ []))
        key_b
      ≡ ok (keys', effects))
    × (a : EddsaCircuit) × (witness : Bytes) × (proof : Bytes) × (secret secret_sig : Bytes)
    × (generate_commitment prover mimc signer keys' 5 3 ≡ ok (witness, proof, secret, secret_sig))
    × (prover.prove a ≡ some (witness, proof))
    × (a.message ≡ message_text 5 3)
    × IsSatisfied hash_pair verify a
generate_commitment-IsSatisfied_example =
    generate_commitment-IsSatisfied prover mimc hash_pair signer verify key_a config
      (with_keys (key_a ∷ [])) key_b 5 3 (λ l r. refl) (λ sig message. refl) signer-IsSound
      (last_key key_a key_b refl) refl (λ a satisfied. (a.message, a.secret, refl))
