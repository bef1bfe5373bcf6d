-- ===== src/P2p/Commands.antt =====
-- node-implementation/p2p_communication.go: processQueueCommandMessage, the commands of the bootstrap
-- server.
use ssle_dag.Prelude.{
  ◌≡◌, ap, sym, ◌∙◌, true≢false, inl, inr, Bool, true, false, List, [], ◌∷◌, ◌++◌, if◌then◌else◌,
  ◌==◌, Outcome, ok, exit, ◌>>=◌, >>=-eq-ok, ok_injective, Bytes, length, subst, arith, Bool-cases,
}
use ssle_dag.Prelude.Dict.{insert}
use ssle_dag.Messages.{
  State, awaiting_genesis_block, awaiting_blockchain_start, Message, ping, genesis_block_build,
  bchain_init_commitment, pub_key_exchange, CommandMessageType, execute_ping,
  execute_genesis_block_build, retrieve_genesis_block, start_blockchain,
  request_public_key_distribution, gather_transaction_pack, stop_blockchain, GenesisBlock,
  Transaction, Block, BlockTransfer,
}
use ssle_dag.Dag.Mask.{calculate_tx_hash_masks}
use ssle_dag.Blockchain.{Ledger}
use ssle_dag.Blockchain.Hashing.{Crypto}
use ssle_dag.Blockchain.Genesis.{process_genesis_block, process_genesis_block-append}
use ssle_dag.P2p.Schedule.{new_block_transfer}

-- CommandMessage of consensus_messages.go; its headers are not read.
pub record CommandMessage : Type 0 where
  pub type : CommandMessageType
  pub genesis_block : GenesisBlock
  pub transactions : List Transaction

-- The global variables that the commands read or change.
pub record Node : Type 0 where
  pub state : State
  pub ledger : Ledger
  pub exchanged_pub_key : List Bytes
  pub exchanged_pub_key_sent_initial_message : Bool

-- What a command does apart from that. `process` hands the broadcast message to
-- processNetworkMessage.
pub data CommandEffect : Type 0 where
  broadcast : Message → Bytes → CommandEffect
  process : Message → CommandEffect
  publish_block : BlockTransfer → CommandEffect
  log_wrong_state : CommandEffect
  log_distribution_started : CommandEffect

abbrev pub is_awaiting_genesis_block : State → Bool
is_awaiting_genesis_block awaiting_genesis_block = true
is_awaiting_genesis_block _ = false

abbrev pub is_awaiting_blockchain_start : State → Bool
is_awaiting_blockchain_start awaiting_blockchain_start = true
is_awaiting_blockchain_start _ = false

-- `for _, tx := range txs { mempool[tx.Hash] = tx }`
unfoldable pub insert_all :
    List Transaction → List (Bytes × Transaction) → List (Bytes × Transaction)
insert_all [] mempool = mempool
insert_all (tx ∷ txs) mempool = insert_all txs (insert tx.hash tx mempool)

-- The copies of the transactions get no mask from the message.
unfoldable pub unmasked : List Transaction → List Transaction
unmasked [] = []
unmasked (tx ∷ txs) = record tx { hash_mask = 0 } ∷ unmasked txs

module _ (crypto : Crypto) (public_key : Bytes) where
  unfoldable pub retrieve_genesis : Node → GenesisBlock → Outcome (Node × List CommandEffect)
  retrieve_genesis n genesis = do
    (block, ledger) ← process_genesis_block crypto n.ledger genesis
    ok (
      record n { ledger = ledger; state = awaiting_blockchain_start },
      publish_block (new_block_transfer block []) ∷ [],
    )

  unfoldable pub gather_transactions : Node → List Transaction → Outcome (Node × List CommandEffect)
  gather_transactions n transactions = do
    txs ← calculate_tx_hash_masks (unmasked transactions)
    ok (record n { ledger = record n.ledger { mempool = insert_all txs n.ledger.mempool } }, [])

  -- The switch. stopNode ends in os.Exit.
  unfoldable pub process_command :
      Node
      → CommandMessageType
      → GenesisBlock
      → List Transaction
      → Outcome (Node × List CommandEffect)
  process_command n execute_ping genesis transactions =
      ok (n, broadcast ping [] ∷ process ping ∷ [])
  process_command n execute_genesis_block_build genesis transactions =
      if is_awaiting_genesis_block n.state
      then ok (n, broadcast genesis_block_build [] ∷ process genesis_block_build ∷ [])
      else ok (n, [])
  process_command n retrieve_genesis_block genesis transactions =
      if is_awaiting_genesis_block n.state then retrieve_genesis n genesis else ok (n, [])
  process_command n start_blockchain genesis transactions =
      if is_awaiting_blockchain_start n.state
      then ok (n, broadcast bchain_init_commitment [] ∷ process bchain_init_commitment ∷ [])
      else ok (n, log_wrong_state ∷ [])
  process_command n request_public_key_distribution genesis transactions =
      if length n.exchanged_pub_key == 1
      then ok (
        record n { exchanged_pub_key_sent_initial_message = true },
        broadcast pub_key_exchange public_key ∷ [],
      )
      else ok (n, log_distribution_started ∷ [])
  process_command n gather_transaction_pack genesis transactions =
      gather_transactions n transactions
  process_command n stop_blockchain genesis transactions =
      if is_awaiting_genesis_block n.state then ok (n, log_wrong_state ∷ []) else exit

  unfoldable pub process_queue_command_message :
      Node → CommandMessage → Outcome (Node × List CommandEffect)
  process_queue_command_message n command =
      process_command n command.type command.genesis_block command.transactions

  -- The commands one after the other, as the queue delivers them.
  unfoldable pub run_commands : Node → List CommandMessage → Outcome Node
  run_commands n [] = ok n
  run_commands n (command ∷ commands) =
      process_queue_command_message n command >>= (λ r. run_commands r.0 commands)

  -- Before the genesis block there is no block, and after it exactly one.
  pub data IsPhase (n : Node) : Type 0 where
    before : n.state ≡ awaiting_genesis_block → n.ledger.blockchain ≡ [] → IsPhase n
    after :
        (genesis : Block)
        → n.state ≡ awaiting_blockchain_start
        → n.ledger.blockchain ≡ genesis ∷ []
        → IsPhase n

  kept-IsPhase :
      (n n' : Node)
      → n.state ≡ n'.state
      → n.ledger.blockchain ≡ n'.ledger.blockchain
      → IsPhase n
      → IsPhase n'
  kept-IsPhase n n' es ec (before at empty) = before (sym es ∙ at) (sym ec ∙ empty)
  kept-IsPhase n n' es ec (after b at one) = after b (sym es ∙ at) (sym ec ∙ one)

  retrieve_genesis-IsPhase :
      (n n' : Node) (genesis : GenesisBlock) (effects : List CommandEffect)
      → retrieve_genesis n genesis ≡ ok (n', effects)
      → n.ledger.blockchain ≡ []
      → IsPhase n'
  unfolding retrieve_genesis
  retrieve_genesis-IsPhase n n' genesis effects e empty =
      let ((b, l), made, rest) = >>=-eq-ok (process_genesis_block crypto n.ledger genesis) _ e in
      let same = ok_injective rest in
      after b (sym (ap (λ r. r.0.state) same)) (
        sym (ap (λ r. r.0.ledger.blockchain) same)
        ∙ process_genesis_block-append crypto n.ledger l genesis b made
        ∙ ap (λ chain. chain ++ b ∷ []) empty)

  awaiting-empty :
      (n : Node) → is_awaiting_genesis_block n.state ≡ true → IsPhase n → n.ledger.blockchain ≡ []
  awaiting-empty n e (before at empty) = empty
  awaiting-empty n e (after b at one) =
      absurd (true≢false (sym e ∙ ap is_awaiting_genesis_block at))

  process_command-IsPhase :
      (n n' : Node) (t : CommandMessageType) (genesis : GenesisBlock) (txs : List Transaction)
      (effects : List CommandEffect)
      → process_command n t genesis txs ≡ ok (n', effects)
      → IsPhase n
      → IsPhase n'
  unfolding process_command gather_transactions
  process_command-IsPhase n n' execute_ping genesis txs effects e phase =
      kept-IsPhase n n' (ground arith) (ground arith) phase
  process_command-IsPhase n n' execute_genesis_block_build genesis txs effects e phase =
      kept-IsPhase n n' (ground arith) (ground arith) phase
  process_command-IsPhase n n' retrieve_genesis_block genesis txs effects e phase =
      elim (Bool-cases (is_awaiting_genesis_block n.state)) [
        | inl at ↦
            retrieve_genesis-IsPhase n n' genesis effects (rw at at e) (awaiting-empty n at phase)
        | inr past ↦ kept-IsPhase n n' (ground arith) (ground arith) phase
      ]
  process_command-IsPhase n n' start_blockchain genesis txs effects e phase =
      kept-IsPhase n n' (ground arith) (ground arith) phase
  process_command-IsPhase n n' request_public_key_distribution genesis txs effects e phase =
      kept-IsPhase n n' (ground arith) (ground arith) phase
  process_command-IsPhase n n' gather_transaction_pack genesis txs effects e phase =
      let (masked, _, rest) = >>=-eq-ok (calculate_tx_hash_masks (unmasked txs)) _ e in
      kept-IsPhase n n' (ap (λ r. r.0.state) (ok_injective rest))
        (ap (λ r. r.0.ledger.blockchain) (ok_injective rest)) phase
  process_command-IsPhase n n' stop_blockchain genesis txs effects e phase =
      kept-IsPhase n n' (ground arith) (ground arith) phase

  -- Whatever commands come in whatever order, a node that starts without a block and has not
  -- stopped holds at most one block from them, the genesis block: its state is either still
  -- AWAITING_GENESIS_BLOCK, with no block, or AWAITING_BLOCKCHAIN_START, with one.
  pub run_commands-IsPhase :
      (n n' : Node) (commands : List CommandMessage)
      → run_commands n commands ≡ ok n'
      → IsPhase n
      → IsPhase n'
  unfolding run_commands process_queue_command_message
  run_commands-IsPhase n n' [] e phase = subst IsPhase (ok_injective e) phase
  run_commands-IsPhase n n' (command ∷ commands) e phase =
      let ((m, effects), first, rest) = >>=-eq-ok (process_queue_command_message n command) _ e in
      run_commands-IsPhase m n' commands rest (
        process_command-IsPhase n m command.type command.genesis_block command.transactions effects
          first phase)
