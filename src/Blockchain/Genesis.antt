-- ===== src/Blockchain/Genesis.antt =====
-- node-implementation/blockchain.go: processGenesisBlock.
use ssle_dag.Prelude.{
  ◌≡◌, [], ◌∷◌, ◌++◌, map, none, ltb, if◌then◌else◌, Outcome, ok, panic, ◌>>=◌, >>=-eq-ok, Bytes,
  length, arith,
}
use ssle_dag.Messages.{Transaction, Block, GenesisBlock}
use ssle_dag.Utils.Encoding.{encode_to_string}
use ssle_dag.Blockchain.{Ledger, append_block}
use ssle_dag.Blockchain.Hashing.{
  Crypto, compute_transaction_hash, compute_block_hash, compute_merkle_root,
}

module _ (crypto : Crypto) where
  -- `genesisBlock.Transactions[i].Hash = hex.EncodeToString(txHash)`
  with_hash : Transaction → Transaction
  with_hash tx = record tx { hash = encode_to_string (compute_transaction_hash crypto tx) }

  genesis_draft : GenesisBlock → Bytes → Block
  unfolding with_hash
  genesis_draft genesis root = record {
    hash = [];
    number = genesis.number;
    created_at = genesis.created_at;
    transactions = map with_hash genesis.transactions;
    merkle_root = encode_to_string root;
    author = genesis.author;
    previous_block = none;
    previous_block_hash = [];
    previous_second_block = none;
    previous_second_block_hash = [];
    depth = 0;
    row = 0;
    col = 0;
    commitment_hash = [];
    commitment_secret = [];
    commitment_sig = [];
  }

  -- The log line's `block.Hash[:8]` panics on a shorter hash.
  unfoldable pub process_genesis_block : Ledger → GenesisBlock → Outcome (Block × Ledger)
  unfolding genesis_draft
  process_genesis_block l genesis = do
    root ← compute_merkle_root crypto (map (compute_transaction_hash crypto) genesis.transactions)
    let draft = genesis_draft genesis root
    let block = record draft { hash = encode_to_string (compute_block_hash crypto draft root) }
    if ltb (length block.hash) 8 then panic else ok (block, append_block l block)

  pub process_genesis_block-append :
      (l l' : Ledger) (genesis : GenesisBlock) (b : Block)
      → process_genesis_block l genesis ≡ ok (b, l')
      → l'.blockchain ≡ l.blockchain ++ b ∷ []
  unfolding process_genesis_block
  process_genesis_block-append l l' genesis b e =
      let (root, _, rest) =
        >>=-eq-ok
          (compute_merkle_root crypto (map (compute_transaction_hash crypto) genesis.transactions))
          _ e in
      ground arith
