-- ===== src/Blockchain/Create/Effect.antt =====
-- node-implementation/blockchain.go: what createBlock does, and that the receivers of the block
-- accept it.
use ssle_dag.Prelude.{
  suc, ◌+◌, ◌%◌, ◌^◌, ◌≡◌, refl, inl, inr, List, [], ◌∷◌, ◌++◌, none, map, arith, ok, >>=-eq-ok,
  ok_injective, Bytes, In, length, length-append, length-take, take, subst, ltb, min, Bool-cases,
}
use ssle_dag.Prelude.Int.{ℤ}
use ssle_dag.Prelude.Dict.{lookup}
use ssle_dag.Config.{Settings}
use ssle_dag.Messages.{Transaction, Block, BlockCreation}
use ssle_dag.Utils.Encoding.{encode_to_string}
use ssle_dag.Blockchain.{Ledger}
use ssle_dag.Blockchain.Mempool.{lookup-delete_all-In, lookup-delete_all_other}
use ssle_dag.Blockchain.Hashing.{Crypto, compute_block_hash, compute_merkle_root, decode_hashes}
use ssle_dag.Blockchain.Create.{
  hash_of, log_prefixes, create_block_reward_tx, block_transactions, unhashed_block, create_block,
}

module _ (crypto : Crypto) (public_key : Bytes) where
  -- The new block carries at most the limit of transactions and the reward.
  length-block_transactions :
      (c : Settings) (txs : List Transaction) (now : ℤ)
      → length (block_transactions crypto public_key c txs now)
        ≡ suc (min c.processed_tx_per_block (length txs))
  unfolding block_transactions
  length-block_transactions c txs now =
      elim (Bool-cases (ltb c.processed_tx_per_block (length txs))) [
        | inl over ↦ rw over (
            omega (
              arith,
              length-append {0} (take c.processed_tx_per_block txs)
                  (create_block_reward_tx crypto public_key now ∷ []),
              length-take {0} c.processed_tx_per_block txs,
            ))
        | inr fits ↦
            rw fits (
              ground (arith, length-append txs (create_block_reward_tx crypto public_key now ∷ [])))
      ]

  -- What createBlock promises of its block and of the ledger that it leaves.
  pub record IsCreated (c : Settings) (l l' : Ledger) (creation : BlockCreation) (b : Block)
      : Type 0 where
    pub tx_hashes : List Bytes
    pub root : Bytes
    pub decoded : decode_hashes b.transactions ≡ ok tx_hashes
    pub merkle : compute_merkle_root crypto tx_hashes ≡ ok root
    pub hash : b.hash ≡ encode_to_string (compute_block_hash crypto b root)
    pub merkle_root : b.merkle_root ≡ encode_to_string root
    pub author : b.author ≡ public_key
    pub number : b.number ≡ (l.blockchain_length + 1) % 2 ^ 32
    pub size :
        length b.transactions ≡ suc (min c.processed_tx_per_block (length creation.transactions))
    pub place : (b.depth ≡ creation.depth) × (b.row ≡ creation.row) × (b.col ≡ creation.col)
    pub parents :
        (b.previous_block_hash ≡ hash_of creation.parent_block)
        × (b.previous_second_block_hash ≡ hash_of creation.second_parent_block)
    pub appended : l'.blockchain ≡ l.blockchain ++ b ∷ []
    pub counted : l'.blockchain_length ≡ l.blockchain_length + 1
    pub removed : (k : Bytes) → In k (map encode_to_string tx_hashes) → lookup k l'.mempool ≡ none
    pub kept :
        (k : Bytes)
        → ¬ In k (map encode_to_string tx_hashes)
        → lookup k l'.mempool ≡ lookup k l.mempool

  -- When createBlock returns, its block has the next number, the place and parents of the request,
  -- at most the limit of transactions and the reward, and the hash that receivers compute; it stands
  -- at the end of the blockchain, and its transactions left the mempool, which else is as it was.
  pub create_block-IsCreated :
      (c : Settings) (l l' : Ledger) (creation : BlockCreation) (reward_now now : ℤ) (b : Block)
      → create_block crypto public_key c l creation reward_now now ≡ ok (b, l')
      → IsCreated c l l' creation b
  unfolding create_block unhashed_block compute_block_hash
  create_block-IsCreated c l l' creation reward_now now b h =
      let transactions : List Transaction =
        block_transactions crypto public_key c creation.transactions reward_now in
      let (hashes, eh, h₁) = >>=-eq-ok (decode_hashes transactions) _ h in
      let (root, er, h₂) = >>=-eq-ok (compute_merkle_root crypto hashes) _ h₁ in
      let (_, _, h₃) = >>=-eq-ok (log_prefixes _ _) _ h₂ in
      subst (λ r. IsCreated c l r.1 creation r.0) (ok_injective h₃)
        (record {
          tx_hashes = hashes;
          root = root;
          decoded = eh;
          merkle = er;
          hash = refl;
          merkle_root = refl;
          author = refl;
          number = refl;
          size = length-block_transactions c creation.transactions reward_now;
          place = (refl, refl, refl);
          parents = (refl, refl);
          appended = refl;
          counted = refl;
          removed = λ k. lookup-delete_all-In k (map encode_to_string hashes) l.mempool;
          kept = λ k. lookup-delete_all_other k (map encode_to_string hashes) l.mempool;
        })
