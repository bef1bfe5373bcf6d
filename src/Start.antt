-- ===== src/Start.antt =====
-- node-implementation/main.go, config.go, zkp.go and p2p.go: the start of a node, up to the moment when runP2p
-- has initialised the global variables. What the system and the libraries give is the record World.
pub mod Variables
pub mod Outcomes
use ssle_dag.Prelude.{
  ℕ, ◌≡◌, Bool, true, false, List, [], ◌∷◌, ◌++◌, Option, none, some, if◌then◌else◌, Outcome, ok,
  exit, panic, ◌>>=◌, Bytes, bytes_eq, length, replicate, get_elem?,
}
use ssle_dag.Prelude.Int.{ℤ, pos}
use ssle_dag.Config.{Environment, Settings, init_configuration}
use ssle_dag.Messages.{no_state, awaiting_genesis_block}
use ssle_dag.Utils.Encoding.{encode_to_string}
use ssle_dag.Bootstrap.{Input, NodePeerStruct, PeerInfo, bootstrap}
use ssle_dag.Connections.{Network, Connections, Event, atoi, run_events, new_connections}
use ssle_dag.Keys.Tree.{tree_size}
use ssle_dag.P2p.Dispatch.{Globals}
use ssle_dag.P2p.Epochs.{Epoch, Epochs}
use ssle_dag.Zkp.Message.{Signer}

-- The part of the configuration file that the node reads.
pub record ConfigFile : Type 0 where
  pub environment : Environment
  pub bootstrap_port : ℕ

-- A key file: whether it can be opened, what ReadFrom makes of it, and whether it can be closed.
pub record KeyFile : Type 0 where
  pub opens : Bool
  pub content : Option Bytes
  pub closes : Bool

-- What is outside the program: os, yaml, gnark, libp2p, the websocket and RabbitMQ. none and false stand
-- for errors.
pub record World : Type 0 where
  pub volume_path : Bytes
  pub config_file : Option Bytes
  pub unmarshal : Bytes → ConfigFile
  pub pk_file : KeyFile
  pub vk_file : KeyFile
  pub signer : Option Signer
  pub generates_key : Bool
  pub starts_host : Bool
  pub host_addresses : Option (List Bytes)
  pub dials : ℕ → Bool
  pub server : List Input
  pub interrupted : Bool
  pub connects_rabbitmq : Bool
  pub creates_consumer : Bool
  pub creates_publisher : Bool

-- setEnvVariables, for the variable that is tested.
unfoldable pub set_env_variables : Bytes → Outcome Bytes
set_env_variables volume_path = if bytes_eq volume_path [] then exit else ok volume_path

-- readConfig. Errors are logged only; without the file the data are empty.
unfoldable pub read_config : (Bytes → ConfigFile) → Option Bytes → ConfigFile
read_config unmarshal none = unmarshal []
read_config unmarshal (some content) = unmarshal content

-- Each half of readKeys.
unfoldable pub read_key : KeyFile → Outcome Bytes
read_key f =
    if f.opens
    then elim f.content [ none ↦ exit | some key ↦ if f.closes then ok key else exit ]
    else exit

unfoldable pub read_keys : KeyFile → KeyFile → Outcome (Bytes × Bytes)
read_keys pk_file vk_file = do pk ← read_key pk_file; vk ← read_key vk_file; ok (pk, vk)

unfoldable pub generate_private_key : Option Signer → Outcome Signer
generate_private_key none = exit
generate_private_key (some signer) = ok signer

unfoldable pub get_public_key : Signer → Bytes
get_public_key signer = encode_to_string signer.public_key

-- initZkp: the private key and the public key.
unfoldable pub init_zkp : World → Outcome (Signer × Bytes)
init_zkp w = do
  _ ← read_keys w.pk_file w.vk_file
  signer ← generate_private_key w.signer
  ok (signer, get_public_key signer)

-- initP2p: the second address of the host.
unfoldable pub second_address : Option (List Bytes) → Outcome Bytes
second_address none = panic
second_address (some addresses) = elim (get_elem? addresses 1) [ none ↦ panic | some a ↦ ok a ]

unfoldable pub init_p2p : World → Outcome Bytes
init_p2p w =
    if w.generates_key
    then if w.starts_host then second_address w.host_addresses else panic
    else panic

-- initRabbitMqConnection, initRabbitMqConsumers and initRabbitMqPublisher.
unfoldable pub init_rabbit_mq : World → Outcome Bool
init_rabbit_mq w =
    if w.connects_rabbitmq
    then if w.creates_consumer then if w.creates_publisher then ok true else exit else exit
    else exit

-- The assignments at the end of runP2p; a variable that is not among them keeps its value.
unfoldable pub init_variables : Bytes → Globals → Globals
init_variables public_key g = record g {
  state = awaiting_genesis_block;
  ledger = record g.ledger { blockchain_length = 0; mempool = [] };
  epochs = record g.epochs {
    dev = record g.epochs.dev { commitments_bucket_map = []; epoch_round = 0 };
    rdy = record g.epochs.rdy { commitments_bucket_map = [] };
    run = record g.epochs.run { commitments_bucket_map = [] };
  };
  time_sync = record g.time_sync { time_synced = false };
  bucket_info_started = false;
  key_exchange = record g.key_exchange {
    exchanged_pub_key = g.key_exchange.exchanged_pub_key ++ public_key ∷ [];
    exchanged_pub_key_sent_initial_message = false;
    leaf_hashes = replicate tree_size [];
  };
  clock = record { slot = 0; abs_round = 0 };
}

abbrev pub zero_epoch : Epoch
zero_epoch = record {
  submitted_commitments = [];
  commitments_bucket = [];
  commitments_bucket_map = [];
  bucket_hash = [];
  bucket_positions = [];
  epoch_round = 0;
}

-- The values that Go gives the variables.
abbrev pub zero_globals : Globals
zero_globals = record {
  state = no_state;
  ledger = record { blockchain = []; blockchain_length = 0; mempool = [] };
  epochs = record {
    dev = zero_epoch;
    rdy = zero_epoch;
    run = zero_epoch;
    bucket_hashes_check = [];
    epoch_rounds_generated = [];
    commitment_round_locked = false;
  };
  time_sync = record { time_synced = false; synced_time = pos 0; time_sync_nodes = [] };
  bucket_info_started = false;
  key_exchange = record {
    exchanged_pub_key = [];
    exchanged_pub_key_sent_initial_message = false;
    pub_keys_merkle_leaves = [];
    leaf_hashes = [];
    levels = [];
    pub_merkle_tree_root = [];
    pub_key_leaf_index = 0;
    path_nodes = [];
    path_indices = [];
  };
  clock = record { slot = 0; abs_round = 0 };
}

-- A node that has started.
pub record Started : Type 0 where
  pub settings : Settings
  pub public_key : Bytes
  pub connections : Connections
  pub globals : Globals

module _ (net : Network) (latency : PeerInfo → ℤ) where
  -- runP2p, with what happens to its streams up to the end of wg.Wait.
  unfoldable pub run_p2p :
      Bytes → NodePeerStruct → List Event → Globals → Outcome (Connections × Globals)
  run_p2p public_key config events g = elim (atoi config.peer_location.id) [
    | none ↦ exit
    | some self ↦
        run_events net latency config.peer_location.id (new_connections config.peers) events
        >>= (λ k. ok (k, init_variables public_key g))
  ]

  -- main from the result of bootstrap on; a field of nil is read.
  unfoldable pub start_with :
      World → List Event → Settings → Bytes → Option NodePeerStruct → Outcome Started
  start_with w events c public_key none = panic
  start_with w events c public_key (some config) = do
    _ ← init_rabbit_mq w
    (k, g) ← run_p2p public_key config events zero_globals
    ok (record { settings = c; public_key = public_key; connections = k; globals = g })

  unfoldable pub main : World → List Event → Outcome Started
  main w events = do
    _ ← set_env_variables w.volume_path
    c ← init_configuration (read_config w.unmarshal w.config_file).environment
    (_, public_key) ← init_zkp w
    _ ← init_p2p w
    config ← bootstrap w.dials w.server w.interrupted
    start_with w events c public_key config
