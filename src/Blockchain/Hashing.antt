-- ===== src/Blockchain/Hashing.antt =====
-- node-implementation/blockchain.go: computeTransactionHash, computeBlockHash, computeMerkleRoot and
-- validateBlockHash, over the hash function and the Merkle tree of third-party packages.
use ssle_dag.Prelude.{
  ◌≡◌, refl, Bool, List, [], ◌∷◌, ◌++◌, Option, none, some, Outcome, ok, exit, panic, ◌>>=◌, Bytes,
  IsBytes, bytes_eq, length,
}
use ssle_dag.Messages.{Transaction, Block}
use ssle_dag.Utils.Encoding.{u_int32_to_bytes, int64_to_bytes, encode_to_string, decode_string}

-- What the node takes from third-party packages: keccak256 of go-merkletree, the root of its Merkle
-- tree (NewTree fails when it has no data), and of gnark-crypto the MiMC hash of two writes, the
-- parsing of an EdDSA public key and the verification of a signature. `verify key signature message`
-- is none where Verify returns an error.
pub record Crypto : Type 1 where
  pub PublicKey : Type 0
  pub keccak256 : Bytes → Bytes
  pub merkle_root : List Bytes → Option Bytes
  pub mimc : Bytes → Bytes → Bytes
  pub parse_key : Bytes → Option PublicKey
  pub verify : PublicKey → Bytes → Bytes → Option Bool

-- What is documented of these packages: a Merkle tree of no data is an error, and of data it is not;
-- a hash and a root are 32 bytes.
pub record IsDocumented (crypto : Crypto) : Type 0 where
  pub root_of_none : crypto.merkle_root [] ≡ none
  pub root_of_some :
      (x : Bytes) (xs : List Bytes)
      → (root : Bytes) × (crypto.merkle_root (x ∷ xs) ≡ some root) × IsBytes root
  pub keccak256-IsBytes : (x : Bytes) → IsBytes (crypto.keccak256 x)
  pub keccak256_length : (x : Bytes) → length (crypto.keccak256 x) ≡ 32

module _ (crypto : Crypto) where
  unfoldable pub compute_transaction_hash : Transaction → Bytes
  compute_transaction_hash transaction = crypto.keccak256 (
      transaction.sender
      ++ (transaction.recipient
          ++ (int64_to_bytes transaction.amount ++ int64_to_bytes transaction.created_at)))

  unfoldable pub compute_block_hash : Block → Bytes → Bytes
  compute_block_hash block merkle_root = crypto.keccak256 (
      u_int32_to_bytes block.number
      ++ (merkle_root ++ (block.author ++ int64_to_bytes block.created_at)))

  -- The error is logged only, and the nil tree's Root panics.
  unfoldable pub compute_merkle_root : List Bytes → Outcome Bytes
  compute_merkle_root tx_hashes = elim (crypto.merkle_root tx_hashes) [
    | none ↦ panic
    | some root ↦ ok root
  ]

  unfoldable pub validate_block_hash : Block → Bool
  validate_block_hash block =
      bytes_eq (encode_to_string (compute_block_hash block block.merkle_root)) block.hash

-- The loop over the transactions of a block; a hash that is not hexadecimal ends in logFatal.
unfoldable pub decode_hashes : List Transaction → Outcome (List Bytes)
decode_hashes [] = ok []
decode_hashes (tx ∷ txs) = do
  tx_hash ← elim (decode_string tx.hash) [ none ↦ exit | some b ↦ ok b ]
  rest ← decode_hashes txs
  ok (tx_hash ∷ rest)

pub decode_hashes-nil : decode_hashes [] ≡ ok []
unfolding decode_hashes
decode_hashes-nil = refl

pub compute_merkle_root-none :
    (crypto : Crypto) (hashes : List Bytes)
    → crypto.merkle_root hashes ≡ none
    → compute_merkle_root crypto hashes ≡ panic
unfolding compute_merkle_root
compute_merkle_root-none crypto hashes e = rw (e, compute_merkle_root)

pub compute_merkle_root-some :
    (crypto : Crypto) (hashes : List Bytes) (root : Bytes)
    → crypto.merkle_root hashes ≡ some root
    → compute_merkle_root crypto hashes ≡ ok root
unfolding compute_merkle_root
compute_merkle_root-some crypto hashes root e = rw (e, compute_merkle_root)
