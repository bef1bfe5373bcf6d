-- ===== src/Tests/Queue.antt =====
-- node-implementation/p2p_communication.go: a run of two commands.
use ssle_dag.Prelude.{
  Outcome, ◌≡◌, refl, false, List, [], ◌∷◌, Bytes, ok, none, some, replicate, length, codes, ◌%◌,
  ◌++◌,
}
use ssle_dag.Prelude.Int.{pos}
use ssle_dag.Messages.{
  awaiting_genesis_block, execute_ping, start_blockchain, retrieve_genesis_block, GenesisBlock,
  Transaction, CommandMessageType,
}
use ssle_dag.Utils.Encoding.{encode_to_string, hex_digit}
use ssle_dag.Blockchain.Hashing.{
  Crypto, compute_merkle_root, compute_block_hash, compute_transaction_hash,
}
use ssle_dag.Blockchain.Genesis.{process_genesis_block}
use ssle_dag.P2p.Commands.{
  CommandMessage, Node, IsPhase, before, run_commands, process_queue_command_message,
  process_command, retrieve_genesis, run_commands-IsPhase,
}

abbrev hashes : Crypto
hashes = record {
  PublicKey = Bytes;
  keccak256 = λ x. replicate 32 (length x % 256);
  merkle_root = λ xs. elim xs [ [] ↦ none | (y ∷ ys) ↦ some (replicate 32 (length ys % 256)) ];
  mimc = λ message secret. message ++ secret;
  parse_key = λ key. some key;
  verify = λ key signature message. none;
}

abbrev reward : Transaction
reward = record {
  hash = [];
  hash_mask = 0;
  created_at = pos 1;
  recipient = codes "k";
  sender = codes "0";
  amount = pos 5;
}

abbrev pub genesis : GenesisBlock
genesis = record {
  hash = [];
  number = 0;
  created_at = pos 0;
  transactions = reward ∷ [];
  author = [];
}

abbrev pub command : CommandMessageType → CommandMessage
command t = record { type = t; genesis_block = genesis; transactions = [] }

abbrev node : Node
node = record {
  state = awaiting_genesis_block;
  ledger = record { blockchain = []; blockchain_length = 0; mempool = [] };
  exchanged_pub_key = [];
  exchanged_pub_key_sent_initial_message = false;
}

abbrev commands : List CommandMessage
commands = command execute_ping ∷ command retrieve_genesis_block ∷ command start_blockchain ∷ []

abbrev value_of {ℓ} : {A : Type ℓ} → A → Outcome A → A
value_of a (ok x) = x
value_of a _ = a

abbrev last_node : Node
last_node = value_of node (run_commands hashes (codes "k") node commands)

commands_return : run_commands hashes (codes "k") node commands ≡ ok last_node
unfolding run_commands process_queue_command_message process_command retrieve_genesis
    process_genesis_block compute_merkle_root compute_block_hash compute_transaction_hash
    encode_to_string hex_digit
commands_return = refl

run_commands-IsPhase_example : IsPhase hashes (codes "k") last_node
run_commands-IsPhase_example =
    run_commands-IsPhase hashes (codes "k") node last_node commands commands_return
      (before refl refl)
