-- ===== src/Blockchain.antt =====
-- node-implementation/blockchain.go: the blockchain, its length counter and the mempool, and the
-- operations that add a block. `Crypto` stands for the third-party packages that the file calls.
pub mod Hashing
pub mod Mempool
pub mod Create
pub mod Process
pub mod Genesis
use ssle_dag.Prelude.{ℕ, suc, ◌+◌, List, ◌++◌, [], ◌∷◌, Bytes}
use ssle_dag.Prelude.Dict.{delete}
use ssle_dag.Messages.{Block, Transaction}

-- The global variables of blockchain.go that its operations change. The mempool maps a transaction's
-- hash to the transaction.
pub record Ledger : Type 0 where
  pub blockchain : List Block
  pub blockchain_length : ℕ
  pub mempool : List (Bytes × Transaction)

-- `blockchain = append(blockchain, block); blockchainLength++`
abbrev pub append_block : Ledger → Block → Ledger
append_block l block = record l {
  blockchain = l.blockchain ++ block ∷ [];
  blockchain_length = l.blockchain_length + 1;
}

-- `for _, tx := range txHashes { delete(mempool, ...) }`
unfoldable pub delete_all : List Bytes → List (Bytes × Transaction) → List (Bytes × Transaction)
delete_all [] mempool = mempool
delete_all (k ∷ keys) mempool = delete_all keys (delete k mempool)
