-- ===== src/Messages.antt =====
-- node-implementation/consensus_messages.go: the data that the nodes keep and exchange. Strings and
-- byte slices are lists of bytes, int64 values are integers, every int, uint32 and uint64 is a
-- natural number. A pointer into the blockchain slice is its index: blocks are never changed after
-- they were appended, so the index and the pointer see the same block.
use ssle_dag.Prelude.{ℕ, Option, List, Bytes, []}
use ssle_dag.Prelude.Int.{ℤ, pos}

-- The type State of the node; no_state is the empty string, which a variable of it is at first.
pub data State : Type 0 where
  no_state : State
  awaiting_genesis_block : State
  awaiting_blockchain_start : State
  receiving_init_commitments : State
  validating_init_commitments : State
  blockchain_running : State

pub data Message : Type 0 where
  bchain_init_commitment : Message
  bchain_commitment : Message
  bchain_init_bucket_info : Message
  bchain_bucket_check : Message
  bchain_sync_time : Message
  bchain_block : Message
  ping : Message
  genesis_block_build : Message
  info : Message
  transaction_pack : Message
  pub_key_exchange : Message
  node_ready : Message

pub data CommandMessageType : Type 0 where
  execute_ping : CommandMessageType
  execute_genesis_block_build : CommandMessageType
  retrieve_genesis_block : CommandMessageType
  start_blockchain : CommandMessageType
  request_public_key_distribution : CommandMessageType
  gather_transaction_pack : CommandMessageType
  stop_blockchain : CommandMessageType

pub record Transaction : Type 0 where
  pub hash : Bytes
  pub hash_mask : ℕ
  pub created_at : ℤ
  pub recipient : Bytes
  pub sender : Bytes
  pub amount : ℤ

pub record Block : Type 0 where
  pub hash : Bytes
  pub number : ℕ
  pub created_at : ℤ
  pub transactions : List Transaction
  pub merkle_root : Bytes
  pub author : Bytes
  pub previous_block : Option ℕ
  pub previous_block_hash : Bytes
  pub previous_second_block : Option ℕ
  pub previous_second_block_hash : Bytes
  pub depth : ℕ
  pub row : ℕ
  pub col : ℕ
  pub commitment_hash : Bytes
  pub commitment_secret : Bytes
  pub commitment_sig : Bytes

pub record BlockTransfer : Type 0 where
  pub hash : Bytes
  pub number : ℕ
  pub created_at : ℤ
  pub transactions : List Transaction
  pub merkle_root : Bytes
  pub author : Bytes
  pub previous_block_hash : Bytes
  pub previous_second_block_hash : Bytes
  pub depth : ℕ
  pub row : ℕ
  pub col : ℕ
  pub commitment_hash : Bytes
  pub commitment_secret : Bytes
  pub commitment_sig : Bytes

-- BlockTransfer{}
abbrev pub no_block_transfer : BlockTransfer
no_block_transfer = record {
  hash = [];
  number = 0;
  created_at = pos 0;
  transactions = [];
  merkle_root = [];
  author = [];
  previous_block_hash = [];
  previous_second_block_hash = [];
  depth = 0;
  row = 0;
  col = 0;
  commitment_hash = [];
  commitment_secret = [];
  commitment_sig = [];
}

pub record PublicWitness : Type 0 where
  pub message_sig_rx : Bytes
  pub message_sig_ry : Bytes
  pub message_sig_s : Bytes
  pub message : Bytes
  pub epoch_round : Bytes

-- PublicWitness{}, all of whose strings are empty.
abbrev pub no_witness : PublicWitness
no_witness = record {
  message_sig_rx = [];
  message_sig_ry = [];
  message_sig_s = [];
  message = [];
  epoch_round = [];
}

pub record GenesisBlock : Type 0 where
  pub hash : Bytes
  pub number : ℕ
  pub created_at : ℤ
  pub transactions : List Transaction
  pub author : Bytes

pub record NetworkMessage : Type 0 where
  pub id : Bytes
  pub type : Message
  pub block_transfer : BlockTransfer
  pub commitment : Bytes
  pub commitment_epoch_round : ℕ
  pub extra_int : ℤ

pub record CommitmentInfo : Type 0 where
  pub commitment : Bytes
  pub hash : Bytes
  pub secret : Bytes
  pub secret_sig : Bytes

pub record CommitmentSharedInfo : Type 0 where
  pub commitment : Bytes
  pub hash : Bytes
  pub public : PublicWitness

pub data DagStructureAction : Type 0 where
  split : DagStructureAction
  split_snd : DagStructureAction
  merge : DagStructureAction
  continue : DagStructureAction
  skip : DagStructureAction

-- A *Block that points into the blockchain: the index and the block that stands there.
pub record BlockRef : Type 0 where
  pub position : ℕ
  pub block : Block

pub record DagActionType : Type 0 where
  pub action : DagStructureAction
  pub parent : Option BlockRef
  pub second : Option BlockRef

pub record BlockCreation : Type 0 where
  pub commitment_hash : Bytes
  pub commitment_secret : Bytes
  pub commitment_secret_signature : Bytes
  pub transactions : List Transaction
  pub depth : ℕ
  pub parent_block : Option BlockRef
  pub second_parent_block : Option BlockRef
  pub row : ℕ
  pub col : ℕ
