-- ===== src/Keys/Exchange/Repeat.antt =====
-- What a message that comes after the completed exchange does.
use ssle_dag.Prelude.{
  ℕ, ◌+◌, ◌<◌, ◌≡◌, refl, set, ◌++◌, true, List, [], ◌∷◌, arith, ltb, ok, panic, Bytes, Bool-cases,
  inl, inr, length, length-append, length-set, ltb→lt, ==_refl,
}
use ssle_dag.Config.{Settings}
use ssle_dag.P2p.Bucket.{sort_strings}
use ssle_dag.Keys.Tree.{tree_size, new_leaves, leaf_loop}
use ssle_dag.Keys.Exchange.{
  KeyExchange, KeyEffect, is_exchanged, add_key, build_tree, process_pub_key_exchange,
}
use ssle_dag.Keys.Exchange.Leaves.{length-new_leaves}
use ssle_dag.Keys.Exchange.Proof.{IsLastKey, process_pub_key_exchange-completes}

module _ (mimc : List Bytes → Bytes) where
  -- More leaves than there is room for their hashes.
  leaf_loop-panics :
      (i : ℕ) (leaves hashes : List Bytes)
      → length hashes < i + length leaves
      → i < length hashes + 1
      → leaf_loop mimc i leaves hashes ≡ panic
  unfolding leaf_loop
  leaf_loop-panics i [] hashes h k = absurd (omega arith)
  leaf_loop-panics i (v ∷ leaves) hashes h k = elim (Bool-cases (ltb i (length hashes))) [
    | inr past ↦ rw past refl
    | inl inside ↦
        let same = length-set hashes i (mimc (v ∷ [])) in
        let before : i < length hashes = ltb→lt i (length hashes) inside in
        rw
          (
            inside,
            leaf_loop-panics (i + 1) leaves (set hashes i (mimc (v ∷ []))) (omega arith)
                (omega arith),
          )
          refl
  ]

  module _ (public_key : Bytes) (c : Settings) where
    full-panics :
        (s : KeyExchange) (received : Bytes)
        → length s.exchanged_pub_key ≡ c.num_of_nodes
        → length s.pub_keys_merkle_leaves ≡ tree_size
        → length s.leaf_hashes ≡ tree_size
        → is_exchanged s.exchanged_pub_key received ≡ true
        → process_pub_key_exchange mimc public_key c s received ≡ panic
    unfolding process_pub_key_exchange build_tree add_key
    full-panics s received keys leaves hashes known =
        let more = length-new_leaves tree_size (sort_strings s.exchanged_pub_key) in
        let over =
          leaf_loop-panics 0
            (s.pub_keys_merkle_leaves ++ new_leaves tree_size (sort_strings s.exchanged_pub_key))
            s.leaf_hashes
            (omega (
              arith,
              length-append s.pub_keys_merkle_leaves
                  (new_leaves tree_size (sort_strings s.exchanged_pub_key)),
            ))
            (omega arith) in
        rw (known, keys, ==_refl c.num_of_nodes, over) refl

    -- After the message that completed a first exchange, each further PUB_KEY_EXCHANGE message with a
    -- key that is already known panics: the leaves of the tree are appended once more, behind the
    -- 512 for which there is room.
    pub process_pub_key_exchange-repeated :
        (s : KeyExchange) (received again : Bytes)
        → IsLastKey public_key c s received
        → is_exchanged (sort_strings (add_key s.exchanged_pub_key received)) again ≡ true
        → (s' : KeyExchange) × (effects : List KeyEffect) × (process_pub_key_exchange mimc
              public_key c s received
            ≡ ok (s', effects))
          × (process_pub_key_exchange mimc public_key c s' again ≡ panic)
    process_pub_key_exchange-repeated s received again last known =
        let (s', _, run, complete) =
          process_pub_key_exchange-completes mimc (λ l r. mimc (l ∷ r ∷ [])) public_key
            (λ l r. refl) c s received last in
        (
          s',
          _,
          run,
          full-panics s' again complete.all_keys complete.all_leaves complete.all_hashes
              (rw complete.keys_are known),
        )
