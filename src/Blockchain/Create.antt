-- ===== src/Blockchain/Create.antt =====
-- node-implementation/blockchain.go: createBlock and createBlockRewardTx.
pub mod Effect
pub mod Total
use ssle_dag.Prelude.{
  ℕ, ◌+◌, ◌%◌, ◌^◌, Bool, ◌||◌, List, [], ◌∷◌, ◌++◌, Option, none, some, map, ltb, if◌then◌else◌,
  Outcome, ok, panic, ◌>>=◌, Bytes, codes, length, take,
}
use ssle_dag.Prelude.Int.{ℤ, pos}
use ssle_dag.Config.{Settings}
use ssle_dag.Messages.{Transaction, Block, BlockRef, BlockCreation}
use ssle_dag.Utils.Encoding.{encode_to_string}
use ssle_dag.Blockchain.{Ledger, append_block, delete_all}
use ssle_dag.Blockchain.Hashing.{
  Crypto, compute_transaction_hash, compute_block_hash, compute_merkle_root, decode_hashes,
}

-- constants.go: COINBASE_ADDRESS
abbrev pub coinbase_address : Bytes
coinbase_address = codes "0000000000000000000000000000000000000000"

-- `block.Hash[:8]` and `block.Author[:4]` of the last log line panic on shorter strings.
unfoldable pub log_prefixes : Bytes → Bytes → Outcome (Unit {0})
log_prefixes hash author = if ltb (length hash) 8 || ltb (length author) 4 then panic else ok tt

-- `PreviousBlock: blockCreation.ParentBlock`, the pointer, and the hash behind it or "".
abbrev pub position_of : Option BlockRef → Option ℕ
position_of none = none
position_of (some r) = some r.position

abbrev pub hash_of : Option BlockRef → Bytes
hash_of none = []
hash_of (some r) = r.block.hash

module _ (crypto : Crypto) (public_key : Bytes) where
  -- `now` is the clock's answer, in seconds.
  unfoldable pub create_block_reward_tx : ℤ → Transaction
  create_block_reward_tx now =
      let tx : Transaction = record {
        hash = [];
        hash_mask = 0;
        created_at = now;
        recipient = public_key;
        sender = coinbase_address;
        amount = pos 0;
      } in
      record tx { hash = encode_to_string (compute_transaction_hash crypto tx) }

  -- The transactions of the new block: at most PROCESSED_TX_PER_BLOCK, then the reward.
  unfoldable pub block_transactions : Settings → List Transaction → ℤ → List Transaction
  block_transactions c transactions now =
      (if ltb c.processed_tx_per_block (length transactions)
        then take c.processed_tx_per_block transactions
        else transactions)
      ++ create_block_reward_tx now ∷ []

  -- The block before its hash is filled in.
  unfoldable pub unhashed_block : ℕ → BlockCreation → List Transaction → Bytes → ℤ → Block
  unhashed_block blockchain_length creation transactions root now = record {
    hash = [];
    number = (blockchain_length + 1) % 2 ^ 32;
    created_at = now;
    transactions = transactions;
    merkle_root = encode_to_string root;
    author = public_key;
    previous_block = position_of creation.parent_block;
    previous_block_hash = hash_of creation.parent_block;
    previous_second_block = position_of creation.second_parent_block;
    previous_second_block_hash = hash_of creation.second_parent_block;
    depth = creation.depth;
    row = creation.row;
    col = creation.col;
    commitment_hash = creation.commitment_hash;
    commitment_secret = creation.commitment_secret;
    commitment_sig = creation.commitment_secret_signature;
  }

  -- The reward and the block read the clock one after the other.
  unfoldable pub create_block : Settings → Ledger → BlockCreation → ℤ → ℤ → Outcome (Block × Ledger)
  create_block c l creation reward_now now = do
    let transactions = block_transactions c creation.transactions reward_now
    tx_hashes ← decode_hashes transactions
    root ← compute_merkle_root crypto tx_hashes
    let draft = unhashed_block l.blockchain_length creation transactions root now
    let block = record draft { hash = encode_to_string (compute_block_hash crypto draft root) }
    let appended = append_block l block
    let l' = record appended {
      mempool = delete_all (map encode_to_string tx_hashes) appended.mempool;
    }
    _ ← log_prefixes block.hash block.author
    ok (block, l')
