-- ===== src/P2p/Dispatch.antt =====
-- node-implementation/p2p_communication.go: the node as a whole: the switch of processNetworkMessage, and the
-- commands, rounds and goroutines that work on the same global variables.
pub mod Steps
pub mod Extension
pub mod Origin
use ssle_dag.Prelude.{
  ℕ, ◌≡◌, Bool, true, List, [], ◌∷◌, Option, none, some, Outcome, ok, blocked, ◌>>=◌, Bytes,
}
use ssle_dag.Prelude.Int.{ℤ}
use ssle_dag.Config.{Settings}
use ssle_dag.Messages.{
  State, Message, bchain_init_commitment, bchain_commitment, bchain_init_bucket_info,
  bchain_bucket_check, bchain_sync_time, bchain_block, ping, genesis_block_build, info,
  transaction_pack, pub_key_exchange, node_ready, NetworkMessage, Block, BlockTransfer,
  PublicWitness,
}
use ssle_dag.Blockchain.{Ledger}
use ssle_dag.Blockchain.Hashing.{Crypto}
use ssle_dag.Keys.Exchange.{KeyExchange, KeyEffect, process_pub_key_exchange}
use ssle_dag.P2p.Commands.{CommandMessage, CommandEffect, Node, process_queue_command_message}
use ssle_dag.P2p.Epochs.{Epochs}
use ssle_dag.P2p.Epochs.Commitments.{
  Effect, process_commitment, process_init_commitment, generate_own, store_received,
}
use ssle_dag.P2p.Epochs.Check.{
  CheckEffect, check_before_lock, process_init_bucket_info, process_bucket_check,
}
use ssle_dag.P2p.Receive.{ReceiveEffect, process_bchain_block}
use ssle_dag.P2p.Schedule.Clock.{Clock, RoundEffect, close_round}
use ssle_dag.P2p.Schedule.Round.{generate_round}
use ssle_dag.P2p.TimeSync.{TimeSync, TimeSyncEffect, process_sync_time}

-- The global variables of the node.
pub record Globals : Type 0 where
  pub state : State
  pub ledger : Ledger
  pub epochs : Epochs
  pub time_sync : TimeSync
  pub bucket_info_started : Bool
  pub key_exchange : KeyExchange
  pub clock : Clock

-- What the handler of a message does apart from changing them.
pub data NetworkEffect : Type 0 where
  commitments : List Effect → NetworkEffect
  checked : List CheckEffect → NetworkEffect
  time : List TimeSyncEffect → NetworkEffect
  received : ReceiveEffect → NetworkEffect
  publish_ping : Bytes → Bytes → NetworkEffect
  publish_genesis_block_build : Bytes → Bytes → NetworkEffect
  keys : List KeyEffect → NetworkEffect
  nothing : NetworkEffect

-- The hash of the last block.
unfoldable pub last_hash : List Block → Option Bytes
last_hash [] = none
last_hash (b ∷ []) = some b.hash
last_hash (b ∷ b' ∷ blocks) = last_hash (b' ∷ blocks)

-- The variables of which processQueueCommandMessage makes use.
abbrev pub node_of : Globals → Node
node_of g = record {
  state = g.state;
  ledger = g.ledger;
  exchanged_pub_key = g.key_exchange.exchanged_pub_key;
  exchanged_pub_key_sent_initial_message = g.key_exchange.exchanged_pub_key_sent_initial_message;
}

abbrev pub with_node : Globals → Node → Globals
with_node g n = record g {
  state = n.state;
  ledger = n.ledger;
  key_exchange = record g.key_exchange {
    exchanged_pub_key = n.exchanged_pub_key;
    exchanged_pub_key_sent_initial_message = n.exchanged_pub_key_sent_initial_message;
  };
}

-- `is_commitment_valid` is isCommitmentValid, `draws` those of math/rand, `mimc` the hash of the key tree.
module _ (crypto : Crypto) (is_commitment_valid : Bytes → ℕ → Outcome (Bool × PublicWitness))
    (draws : ℕ → ℕ → ℕ → ℕ) (mimc : List Bytes → Bytes) (public_key self_id : Bytes)
    (c : Settings) where
  -- The switch on the type of the message; `now` and `later` are the times that a bucket check reads.
  unfoldable pub process_message :
      ℕ → ℕ → Globals → NetworkMessage → Message → Outcome (Globals × NetworkEffect)
  process_message now later g message bchain_init_commitment =
      let (s, effects) = process_init_commitment g.epochs message in
      ok (record g { epochs = s }, commitments effects)
  process_message now later g message bchain_commitment = do
    (s, effects) ← process_commitment crypto.keccak256 is_commitment_valid c g.epochs message
    ok (record g { epochs = s }, commitments effects)
  process_message now later g message bchain_init_bucket_info = do
    (s, effects) ←
        process_init_bucket_info crypto.keccak256 draws c (last_hash g.ledger.blockchain)
          g.bucket_info_started g.epochs
    ok (record g { epochs = s }, checked effects)
  process_message now later g message bchain_bucket_check = do
    (s, t, effects) ←
        process_bucket_check crypto.keccak256 draws c now later g.epochs g.time_sync message
    ok (record g { epochs = s; time_sync = t }, checked effects)
  process_message now later g message bchain_sync_time = do
    (t, effects) ← process_sync_time c g.time_sync message.extra_int
    ok (record g { time_sync = t }, time effects)
  process_message now later g message bchain_block = do
    (l, effect) ← process_bchain_block crypto c g.epochs g.ledger message.block_transfer
    ok (record g { ledger = l }, received effect)
  process_message now later g message ping = ok (g, publish_ping message.id self_id)
  process_message now later g message genesis_block_build =
      ok (g, publish_genesis_block_build self_id public_key)
  process_message now later g message info = ok (g, nothing)
  process_message now later g message transaction_pack = ok (g, nothing)
  process_message now later g message pub_key_exchange = do
    (k, effects) ← process_pub_key_exchange mimc public_key c g.key_exchange message.commitment
    ok (record g { key_exchange = k }, keys effects)
  process_message now later g message node_ready = ok (g, nothing)

  unfoldable pub process_network_message :
      ℕ → ℕ → Globals → NetworkMessage → Outcome (Globals × NetworkEffect)
  process_network_message now later g message = process_message now later g message message.type

  unfoldable pub process_command_on :
      Globals → CommandMessage → Outcome (Globals × List CommandEffect)
  process_command_on g command = do
    (n, effects) ← process_queue_command_message crypto public_key (node_of g) command
    ok (with_node g n, effects)

  -- A round of the schedule: its blocks, and then the count of slots and the end of the epoch.
  unfoldable pub schedule_round :
      (ℕ → ℤ × ℤ) → Globals → Outcome (Globals × List (Block × BlockTransfer) × List RoundEffect)
  schedule_round times g = do
    let running = g.epochs.run
    (l, made) ←
        generate_round crypto public_key c times running.submitted_commitments
          running.commitments_bucket g.clock.abs_round g.ledger running.bucket_positions
          g.clock.slot
    (k, s, effects) ← close_round crypto.keccak256 draws c g.bucket_info_started g.clock g.epochs
    ok (record g { ledger = l; clock = k; epochs = s }, made, effects)

  -- What may happen to the node next. The handlers that wait for commitmentRoundMutex without end leave what
  -- they have written.
  pub data GlobalStep (g g' : Globals) : Type 0 where
    message :
        (now later : ℕ) (m : NetworkMessage) (effect : NetworkEffect)
        → process_network_message now later g m ≡ ok (g', effect)
        → GlobalStep g g'
    commitment_waits :
        (m : NetworkMessage) (witness : PublicWitness) (s : Epochs)
        → is_commitment_valid m.commitment g.epochs.dev.epoch_round ≡ ok (true, witness)
        → process_commitment crypto.keccak256 is_commitment_valid c g.epochs m ≡ blocked
        → store_received crypto.keccak256 c g.epochs m witness ≡ s
        → record g { epochs = s } ≡ g'
        → GlobalStep g g'
    check_waits :
        (now later : ℕ) (m : NetworkMessage) (s : Epochs)
        → process_bucket_check crypto.keccak256 draws c now later g.epochs g.time_sync m ≡ blocked
        → check_before_lock g.epochs m.commitment ≡ s
        → record g { epochs = s } ≡ g'
        → GlobalStep g g'
    command :
        (m : CommandMessage) (effects : List CommandEffect)
        → process_command_on g m ≡ ok (g', effects)
        → GlobalStep g g'
    own_commitment :
        (commitment secret secret_sig : Bytes) (s : Epochs)
        → generate_own crypto.keccak256 draws c g.epochs commitment secret secret_sig ≡ ok s
        → record g { epochs = s } ≡ g'
        → GlobalStep g g'
    round :
        (times : ℕ → ℤ × ℤ) (made : List (Block × BlockTransfer)) (effects : List RoundEffect)
        → schedule_round times g ≡ ok (g', made, effects)
        → GlobalStep g g'

  pub data Reach (g : Globals) : Globals → Type 0 where
    start : Reach g g
    next : {m g' : Globals} → Reach g m → GlobalStep m g' → Reach g g'
