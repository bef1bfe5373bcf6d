-- ===== src/Tests/Node.antt =====
-- node-implementation/p2p_communication.go: the node as a whole, with one commitment and one round.
use ssle_dag.Prelude.{
  ℕ, ◌%◌, ◌≡◌, refl, true, List, [], ◌∷◌, ◌++◌, some, map, ok, Bytes, codes, length, get_elem?, In,
  arith,
}
use ssle_dag.Prelude.Int.{ℤ, pos}
use ssle_dag.Messages.{
  retrieve_genesis_block, Block, BlockTransfer, CommitmentInfo, NetworkMessage, ping,
}
use ssle_dag.Utils.Encoding.{
  encode_to_string, decode_string, hex_digit, from_hex_digit, int64_to_bytes,
}
use ssle_dag.Blockchain.{Ledger}
use ssle_dag.Blockchain.Create.{
  create_block, create_block_reward_tx, block_transactions, unhashed_block, log_prefixes,
}
use ssle_dag.Blockchain.Genesis.{process_genesis_block}
use ssle_dag.Blockchain.Hashing.{
  compute_merkle_root, compute_block_hash, compute_transaction_hash, decode_hashes,
}
use ssle_dag.Dag.Decide.{find_from, find_block, merge_row, merge_or_continue, decide_action}
use ssle_dag.Dag.Rows.{get_merge_second_index}
use ssle_dag.Utils.Majority.{slice_contains_int}
use ssle_dag.P2p.Broadcast.{forward, forward-sender, send_message_broadcast, message_id-injective}
use ssle_dag.P2p.Bucket.{identify_commitment_positions, positions_from, is_submitted}
use ssle_dag.P2p.Commands.{
  CommandEffect, process_queue_command_message, process_command, retrieve_genesis,
}
use ssle_dag.P2p.Dispatch.{Globals, process_command_on, Reach, start, next, command}
use ssle_dag.P2p.Dispatch.Extension.{Origin}
use ssle_dag.P2p.Epochs.Commitments.Covered.{AreCovered}
use ssle_dag.P2p.History.{Gossip, read_data}
use ssle_dag.P2p.Schedule.{
  epoch_indexes, epoch_actions, mark_action, mark_loop, own_slots, plan_round, block_depth,
  included_transactions, get_commitment_info_by_hash, block_creation, new_block_transfer,
}
use ssle_dag.P2p.Schedule.Round.{create_slots, generate_round}
use ssle_dag.P2p.Schedule.Round.Own.{generate_round-IsOwn}
use ssle_dag.Start.{init_variables, zero_globals}
use ssle_dag.Start.Variables.{Reach-started}
use ssle_dag.Zkp.Verify.{is_commitment_valid}
use ssle_dag.Tests.Blocks.{crypto, public_key, blank, value_of}
use ssle_dag.Tests.Commitments.{gnark}
use ssle_dag.Tests.Network.{config, draws, keccak256, second_hash, gossip, no_block}
use ssle_dag.Tests.Queue as Queue
use ssle_dag.Tests.Queue.{genesis}

abbrev pub no_tree : List Bytes → Bytes
no_tree hashes = []

abbrev started : Globals
started = init_variables public_key zero_globals

abbrev with_genesis : Globals × List CommandEffect
with_genesis =
    value_of (started, [])
      (process_command_on crypto (is_commitment_valid gnark config) draws no_tree public_key
        (codes "n") config started (Queue.command retrieve_genesis_block))

retrieved :
    process_command_on crypto
      (is_commitment_valid gnark config)
      draws
      no_tree
      public_key
      (codes "n")
      config
      started
      (Queue.command retrieve_genesis_block)
    ≡ ok (with_genesis.0, with_genesis.1)
unfolding process_command_on init_variables process_queue_command_message process_command
    retrieve_genesis process_genesis_block compute_merkle_root compute_block_hash
    compute_transaction_hash encode_to_string hex_digit
retrieved = refl

genesis_reached :
    Reach crypto
      (is_commitment_valid gnark config)
      draws
      no_tree
      public_key
      (codes "n")
      config
      started
      with_genesis.0
genesis_reached =
    next start (command (Queue.command retrieve_genesis_block) with_genesis.1 retrieved)

Reach-started_example :
    AreCovered with_genesis.0.epochs
    × ((b : Block)
        → In b with_genesis.0.ledger.blockchain
        → Origin gnark crypto draws no_tree public_key (codes "n") config b)
Reach-started_example =
    Reach-started gnark crypto draws no_tree public_key (codes "n") config with_genesis.0
      genesis_reached

-- The round after the genesis block, in which the first slot is the node's own.
abbrev own : CommitmentInfo
own = record {
  commitment = codes "c";
  hash = codes "ab";
  secret = codes "0a";
  secret_sig = codes "0c";
}

abbrev bucket : List Bytes
bucket = codes "ab" ∷ second_hash ∷ []

abbrev ledger : Ledger
ledger = record { blockchain = blank ∷ []; blockchain_length = 1; mempool = [] }

abbrev times : ℕ → ℤ × ℤ
times i = (pos 5, pos 6)

abbrev round : Ledger × List (Block × BlockTransfer)
round =
    value_of (ledger, [])
      (generate_round crypto public_key config times (own ∷ []) bucket 0 ledger
        (identify_commitment_positions keccak256 (own ∷ []) bucket).1 0)

round_fact :
    (generate_round crypto public_key config times
        (own ∷ [])
        bucket
        0
        ledger
        (identify_commitment_positions keccak256 (own ∷ []) bucket).1
        0
      ≡ ok (round.0, round.1))
    × (length round.1 ≡ 1)
unfolding generate_round plan_round epoch_indexes epoch_actions mark_action mark_loop own_slots
    block_depth included_transactions get_commitment_info_by_hash block_creation create_slots
    decide_action find_block find_from merge_or_continue merge_row slice_contains_int
    get_merge_second_index identify_commitment_positions positions_from is_submitted create_block
    decode_hashes block_transactions decode_string create_block_reward_tx encode_to_string
    compute_transaction_hash from_hex_digit hex_digit int64_to_bytes compute_merkle_root
    log_prefixes compute_block_hash unhashed_block new_block_transfer
round_fact = (refl, refl)

generate_round-IsOwn_example :
    (round.0.blockchain ≡ ledger.blockchain ++ map (λ m. m.0) round.1)
    × ((b : Block) (t : BlockTransfer)
        → In (b, t) round.1
        → (i : ℕ) × (get_elem? bucket i ≡ some b.commitment_hash)
          × (is_submitted (own ∷ []) b.commitment_hash ≡ true)
          × (b.row ≡ i % 8)
          × (b.col ≡ 1)
          × (t
              ≡ new_block_transfer b
                  (get_commitment_info_by_hash (own ∷ []) b.commitment_hash).secret_sig))
generate_round-IsOwn_example =
    generate_round-IsOwn crypto public_key config times (own ∷ []) bucket 0 keccak256 ledger round.0
      0 round.1 round_fact.0

forward-sender_example :
    ¬ In (codes "p") (
      forward (read_data gossip (codes "p") (codes "2")).0 (codes "p" ∷ codes "q" ∷ []) (codes "2"))
forward-sender_example = forward-sender gossip (codes "p") (codes "2") (codes "p" ∷ codes "q" ∷ [])

abbrev sent : Gossip × NetworkMessage × List Bytes
sent = send_message_broadcast 7 5 gossip (codes "p" ∷ []) ping no_block [] 0 (pos 0)

abbrev random : ℕ
random = 7

abbrev time : ℕ
time = 5

message_id-injective_example : (random ≡ random) × (time ≡ time)
message_id-injective_example =
    message_id-injective random time random time (omega arith) (omega arith) (omega arith)
      (omega arith) refl
