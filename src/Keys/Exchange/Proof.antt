-- ===== src/Keys/Exchange/Proof.antt =====
-- What a completed exchange leaves: a path that the circuit accepts for the node's own key, and the same
-- root at every node.
use mathlib.Core.List.{Permᴰ}
use ssle_dag.Prelude.{
  ℕ, ◌<◌, ◌≤◌, ◌≡◌, refl, sym, ◌∙◌, true, false, List, [], ◌∷◌, ◌++◌, map, some, arith,
  if◌then◌else◌, ok, Bytes, length, length-map, get_elem?, get_elem?-lt, ok_injective, In, here,
  there, ==_refl,
}
use ssle_dag.Config.{Settings}
use ssle_dag.P2p.Bucket.{sort_strings}
use ssle_dag.P2p.Bucket.Agreement.{sort_strings-Perm}
use ssle_dag.Keys.Tree.{
  tree_size, tree_depth, new_leaves, key_index, leaf_loop, build_levels, node_at, path_loop,
  circuit_root,
}
use ssle_dag.Keys.Tree.Path.{build_levels-path}
use ssle_dag.Keys.Exchange.{
  KeyExchange, KeyEffect, publish_keys_synced, is_exchanged, add_key, own_key_broadcast, build_tree,
  process_pub_key_exchange,
}
use ssle_dag.Keys.Exchange.Leaves.{
  length-new_leaves, new_leaves-at, key_index-In, In-sorted, length-sort_strings, leaf_loop-mid,
  leaf_hash-at,
}

-- What a handler needs before it can complete the exchange: a first tree, room for its hashes, the key
-- of every node, and among them the own one.
pub record IsLastKey (public_key : Bytes) (c : Settings) (s : KeyExchange) (received : Bytes)
    : Type 0 where
  pub first : s.pub_keys_merkle_leaves ≡ []
  pub room : length s.leaf_hashes ≡ tree_size
  pub every : length (add_key s.exchanged_pub_key received) ≡ c.num_of_nodes
  pub fits : c.num_of_nodes ≤ tree_size
  pub own : In public_key s.exchanged_pub_key

In-add_key : (keys : List Bytes) (received h : Bytes) → In h keys → In h (add_key keys received)
unfolding add_key
In-add_key keys received h m =
    elim (is_exchanged keys received) as (λ b. In h (if b then keys else keys ++ received ∷ [])) [
      | true ↦ m
      | false ↦ In-append keys m
    ]
  where
    In-append : (l : List Bytes) → In h l → In h (l ++ received ∷ [])
    In-append [] m = elim m [ ]
    In-append (x ∷ l) (here e) = here e
    In-append (x ∷ l) (there m) = there (In-append l m)

module _ (mimc : List Bytes → Bytes) (hash_pair : Bytes → Bytes → Bytes) (public_key : Bytes)
    (same : (l r : Bytes) → hash_pair l r ≡ mimc (l ∷ r ∷ [])) (c : Settings) where
  abbrev tree_leaves : KeyExchange → Bytes → List Bytes
  tree_leaves s received =
      map (λ v. mimc (v ∷ []))
        (new_leaves tree_size (sort_strings (add_key s.exchanged_pub_key received)))

  -- The completed exchange: the levels over the sorted keys, with a path that closes.
  pub record IsComplete (s : KeyExchange) (received : Bytes) (s' : KeyExchange) : Type 0 where
    pub built : build_levels mimc tree_depth (tree_leaves s received) ≡ ok s'.levels
    pub top : node_at s'.levels tree_depth 0 ≡ ok s'.pub_merkle_tree_root
    pub leaf : get_elem? s'.leaf_hashes s'.pub_key_leaf_index ≡ some (mimc (public_key ∷ []))
    pub closed :
        circuit_root hash_pair (mimc (public_key ∷ [])) s'.path_nodes s'.path_indices
        ≡ s'.pub_merkle_tree_root
    pub keys_are : s'.exchanged_pub_key ≡ sort_strings (add_key s.exchanged_pub_key received)
    pub all_keys : length s'.exchanged_pub_key ≡ c.num_of_nodes
    pub all_leaves : length s'.pub_keys_merkle_leaves ≡ tree_size
    pub all_hashes : length s'.leaf_hashes ≡ tree_size

  build_tree-steps :
      (s : KeyExchange) (hashes : List Bytes) (levels : List (List Bytes)) (root : Bytes)
      (index : ℕ) (nodes : List Bytes) (indices : List ℕ)
      → leaf_loop mimc 0
          (s.pub_keys_merkle_leaves ++ new_leaves tree_size (sort_strings s.exchanged_pub_key))
          s.leaf_hashes
        ≡ ok hashes
      → build_levels mimc tree_depth hashes ≡ ok levels
      → node_at levels tree_depth 0 ≡ ok root
      → key_index public_key s.pub_key_leaf_index (sort_strings s.exchanged_pub_key) 0 ≡ index
      → path_loop levels 0 index tree_depth ≡ ok (nodes, indices)
      → (s' : KeyExchange) × (build_tree mimc public_key s ≡ ok s')
        × (s'.levels ≡ levels)
        × (s'.leaf_hashes ≡ hashes)
        × (s'.pub_merkle_tree_root ≡ root)
        × (s'.pub_key_leaf_index ≡ index)
        × (s'.path_nodes ≡ nodes)
        × (s'.path_indices ≡ indices)
        × (s'.exchanged_pub_key ≡ sort_strings s.exchanged_pub_key)
        × (s'.pub_keys_merkle_leaves
            ≡ s.pub_keys_merkle_leaves ++ new_leaves tree_size (sort_strings s.exchanged_pub_key))
  unfolding build_tree
  build_tree-steps s hashes levels root index nodes indices hashed built top found walked = (
    record {
      exchanged_pub_key = sort_strings s.exchanged_pub_key;
      exchanged_pub_key_sent_initial_message = s.exchanged_pub_key_sent_initial_message;
      pub_keys_merkle_leaves =
          s.pub_keys_merkle_leaves ++ new_leaves tree_size (sort_strings s.exchanged_pub_key);
      leaf_hashes = hashes;
      levels = levels;
      pub_merkle_tree_root = root;
      pub_key_leaf_index = index;
      path_nodes = nodes;
      path_indices = indices;
    },
    rw (hashed, built, top, found, walked) refl,
    refl,
    refl,
    refl,
    refl,
    refl,
    refl,
    refl,
    refl,
  )

  build_tree-completes :
      (s : KeyExchange) (received : Bytes)
      → IsLastKey public_key c s received
      → (s' : KeyExchange) × (build_tree mimc public_key
            (record s { exchanged_pub_key = add_key s.exchanged_pub_key received })
          ≡ ok s')
        × IsComplete s received s'
  build_tree-completes s received last =
      let keys = add_key s.exchanged_pub_key received in
      let sorted = sort_strings keys in
      let leaves = new_leaves tree_size sorted in
      let many = length-new_leaves tree_size sorted in
      let hashed = leaf_loop-mid mimc [] s.leaf_hashes leaves (many ∙ sym last.room) in
      let (index, found, own) =
        key_index-In public_key s.pub_key_leaf_index sorted 0 (
          In-sorted keys public_key
            (In-add_key s.exchanged_pub_key received public_key last.own)) in
      let at_index : key_index public_key s.pub_key_leaf_index sorted 0 ≡ index =
        omega (arith, found) in
      let inside : index < tree_size = omega (
        arith,
        get_elem?-lt sorted index public_key own,
        length-sort_strings keys,
        last.every,
        last.fits,
      ) in
      let leaf =
        leaf_hash-at mimc leaves index public_key
          (new_leaves-at tree_size sorted index public_key inside own) in
      let (levels, root, built, top, paths) =
        build_levels-path mimc hash_pair tree_depth (tree_leaves s received) same
          (length-map _ leaves ∙ many) in
      let (nodes, indices, walked, closed) = paths index _ leaf in
      let from_empty : leaf_loop mimc 0 (s.pub_keys_merkle_leaves ++ leaves) s.leaf_hashes
          ≡ ok (tree_leaves s received) =
        rw last.first hashed in
      let (s', run, l, h, r, i, n, x, k, v) =
        build_tree-steps (record s { exchanged_pub_key = keys }) (tree_leaves s received) levels
          root index nodes indices from_empty built top at_index walked in
      (
        s',
        run,
        record {
          built = rw l built;
          top = rw (l, r) top;
          leaf = rw (h, i) leaf;
          closed = rw (n, x, r) closed;
          keys_are = k;
          all_keys = rw k (length-sort_strings keys ∙ last.every);
          all_leaves = rw (v, last.first) many;
          all_hashes = rw h (length-map _ leaves ∙ many);
        },
      )

  pub process_pub_key_exchange-completes :
      (s : KeyExchange) (received : Bytes)
      → IsLastKey public_key c s received
      → (s' : KeyExchange) × (effects : List KeyEffect) × (process_pub_key_exchange mimc public_key
            c s received
          ≡ ok (s', effects ++ publish_keys_synced ∷ []))
        × IsComplete s received s'
  unfolding process_pub_key_exchange
  process_pub_key_exchange-completes s received last =
      let (s', built, complete) = build_tree-completes s received last in
      (
        s',
        own_key_broadcast public_key s,
        rw (last.every, ==_refl c.num_of_nodes, built) refl,
        complete,
      )

  -- When the handler gets the last missing key in a first exchange of at most 512 nodes, the node's own
  -- key being among those it holds, and the circuit's hash of a pair is MiMC's, it returns; the leaf at
  -- the found index is the hash of the node's own key, and the circuit's loop gets from that leaf along
  -- the stored path to the stored root.
  pub process_pub_key_exchange-proof :
      (s : KeyExchange) (received : Bytes)
      → IsLastKey public_key c s received
      → (s' : KeyExchange) × (effects : List KeyEffect) × (process_pub_key_exchange mimc public_key
            c s received
          ≡ ok (s', effects))
        × (get_elem? s'.leaf_hashes s'.pub_key_leaf_index ≡ some (mimc (public_key ∷ [])))
        × (circuit_root hash_pair (mimc (public_key ∷ [])) s'.path_nodes s'.path_indices
            ≡ s'.pub_merkle_tree_root)
  process_pub_key_exchange-proof s received last =
      let (s', effects, run, complete) = process_pub_key_exchange-completes s received last in
      (s', _, run, complete.leaf, complete.closed)

-- Two nodes whose last keys complete a first exchange, and that then hold the same keys, in whatever
-- orders they came and whichever key is a node's own, return with the same root.
pub process_pub_key_exchange-Agree :
    (mimc : List Bytes → Bytes) (c : Settings) (key_a key_b : Bytes) (a b : KeyExchange)
    (received_a received_b : Bytes)
    → IsLastKey key_a c a received_a
    → IsLastKey key_b c b received_b
    → Permᴰ (add_key a.exchanged_pub_key received_a) (add_key b.exchanged_pub_key received_b)
    → (a' b' : KeyExchange) × (effects_a effects_b : List KeyEffect) × (process_pub_key_exchange
          mimc key_a c a received_a
        ≡ ok (a', effects_a))
      × (process_pub_key_exchange mimc key_b c b received_b ≡ ok (b', effects_b))
      × (a'.pub_merkle_tree_root ≡ b'.pub_merkle_tree_root)
process_pub_key_exchange-Agree mimc c key_a key_b a b received_a received_b last_a last_b perm =
    let pair : Bytes → Bytes → Bytes = λ l r. mimc (l ∷ r ∷ []) in
    let same : (l r : Bytes) → pair l r ≡ mimc (l ∷ r ∷ []) = λ l r. refl in
    let (a', fx_a, run_a, done_a) =
      process_pub_key_exchange-completes mimc pair key_a same c a received_a last_a in
    let (b', fx_b, run_b, done_b) =
      process_pub_key_exchange-completes mimc pair key_b same c b received_b last_b in
    let levels : a'.levels ≡ b'.levels =
      ok_injective (sym done_a.built ∙ rw (sort_strings-Perm perm) done_b.built) in
    (a', b', _, _, run_a, run_b, ok_injective (sym done_a.top ∙ rw levels done_b.top))
