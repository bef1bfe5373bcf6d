-- ===== src/Keys/Exchange.antt =====
-- node-implementation/p2p_communication.go: processNetworkMessage on PUB_KEY_EXCHANGE, by which a node
-- collects the public keys of all nodes and, with the last of them, builds their Merkle tree.
pub mod Leaves
pub mod Proof
pub mod Repeat
use ssle_dag.Prelude.{
  ℕ, ◌&&◌, not, Bool, true, false, List, [], ◌∷◌, ◌++◌, if◌then◌else◌, ◌==◌, Outcome, ok, ◌>>=◌,
  Bytes, bytes_eq, length,
}
use ssle_dag.Config.{Settings}
use ssle_dag.P2p.Bucket.{sort_strings}
use ssle_dag.Keys.Tree.{
  tree_size, tree_depth, new_leaves, key_index, leaf_loop, build_levels, node_at, path_loop,
}

-- The global variables of the exchange.
pub record KeyExchange : Type 0 where
  pub exchanged_pub_key : List Bytes
  pub exchanged_pub_key_sent_initial_message : Bool
  pub pub_keys_merkle_leaves : List Bytes
  pub leaf_hashes : List Bytes
  pub levels : List (List Bytes)
  pub pub_merkle_tree_root : Bytes
  pub pub_key_leaf_index : ℕ
  pub path_nodes : List Bytes
  pub path_indices : List ℕ

pub data KeyEffect : Type 0 where
  broadcast_own_key : Bytes → KeyEffect
  publish_keys_synced : KeyEffect

-- `for _, key := range exchangedPubKey`, up to the first that is the received one.
unfoldable pub is_exchanged : List Bytes → Bytes → Bool
is_exchanged [] received = false
is_exchanged (key ∷ keys) received =
    if bytes_eq key received then true else is_exchanged keys received

unfoldable pub add_key : List Bytes → Bytes → List Bytes
add_key keys received = if is_exchanged keys received then keys else keys ++ received ∷ []

-- The broadcast of the node's own key, `public_key`, when the first key of another node reaches a node
-- that did not begin the exchange.
unfoldable pub own_key_broadcast : Bytes → KeyExchange → List KeyEffect
own_key_broadcast public_key s =
    if length s.exchanged_pub_key == 1 && not s.exchanged_pub_key_sent_initial_message
    then broadcast_own_key public_key ∷ []
    else []

-- `public_key` is getPublicKey().
module _ (mimc : List Bytes → Bytes) (public_key : Bytes) where
  -- Once the key of every node is there.
  unfoldable pub build_tree : KeyExchange → Outcome KeyExchange
  build_tree s = do
    let sorted = sort_strings s.exchanged_pub_key
    let leaves = s.pub_keys_merkle_leaves ++ new_leaves tree_size sorted
    leaf_hashes ← leaf_loop mimc 0 leaves s.leaf_hashes
    levels ← build_levels mimc tree_depth leaf_hashes
    root ← node_at levels tree_depth 0
    let index = key_index public_key s.pub_key_leaf_index sorted 0
    path ← path_loop levels 0 index tree_depth
    ok (record {
      exchanged_pub_key = sorted;
      exchanged_pub_key_sent_initial_message = s.exchanged_pub_key_sent_initial_message;
      pub_keys_merkle_leaves = leaves;
      leaf_hashes = leaf_hashes;
      levels = levels;
      pub_merkle_tree_root = root;
      pub_key_leaf_index = index;
      path_nodes = path.0;
      path_indices = path.1;
    })

  unfoldable pub process_pub_key_exchange :
      Settings → KeyExchange → Bytes → Outcome (KeyExchange × List KeyEffect)
  process_pub_key_exchange c s received =
      let added : KeyExchange = record s {
        exchanged_pub_key = add_key s.exchanged_pub_key received;
      } in
      let sent = own_key_broadcast public_key s in
      if length added.exchanged_pub_key == c.num_of_nodes
      then build_tree added >>= (λ s'. ok (s', sent ++ publish_keys_synced ∷ []))
      else ok (added, sent)
