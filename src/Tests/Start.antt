-- ===== src/Tests/Start.antt =====
-- node-implementation/main.go: starts that end in different ways.
use ssle_dag.Prelude.{
  ℕ, ◌≡◌, refl, true, false, List, [], ◌∷◌, Option, none, some, ok, exit, panic, Bytes, codes,
  arith,
}
use ssle_dag.Prelude.Dict.{lookup, insert}
use ssle_dag.Config.{Environment, settings, init_configuration}
use ssle_dag.Utils.Encoding.{encode_to_string}
use ssle_dag.Utils.Powers.{log_base2, log_loop}
use ssle_dag.Bootstrap.{
  Input, received, read_error, NodePeerStruct, no_config, dial, dial_loop, bootstrap, read_loop,
  read_step, handle,
}
use ssle_dag.Zkp.Text.{add_first, split_at, parse_digits, in_range, parse_uint}
use ssle_dag.Zkp.Message.{Signer}
use ssle_dag.Connections.{
  positive, negative, atoi, protocol_name, send_ready_message, check_ready, create_stream,
  wrapper_of, accept_stream, handle_stream, open_stream, connect_stream, retry_loop,
  connect_with_retries, add_stream, connect_peer, set_up_peer_at, set_up_peer, is_handled,
  event_step, run_events, new_connections,
}
use ssle_dag.Start.{
  World, Started, set_env_variables, read_config, read_key, read_keys, generate_private_key,
  get_public_key, init_zkp, second_address, init_p2p, init_rabbit_mq, run_p2p, start_with, main,
  init_variables, zero_globals,
}
use ssle_dag.Start.Outcomes.{IsStarted, main-IsStarted, main-no_config, main-early_error}
use ssle_dag.Tests.Streams.{peers_of_two, no_latency, open_network, events_of_two, connected}

abbrev environment : ℕ → Environment
environment parallel = record {
  nodes = 2;
  block_time_seconds = 20;
  dag_parallel_length = parallel;
  epoch_size_rounds = 12;
  tx_per_block = 12;
  min_tx_to_split = 10;
  min_tx_to_merge = 6;
  random_shuffling_key = codes "ab";
  min_commitments = 1;
  max_commitments = 2;
}

-- A signer that is not used yet.
abbrev signer : Signer
signer = record {
  public_key = codes "k";
  private_key = codes "s";
  sign = λ message. some message;
  verify = λ sig message. some true;
}

abbrev node_config : NodePeerStruct
node_config = record {
  peer_location = record { id = codes "2"; name = codes "n"; lat = []; lon = [] };
  peers = peers_of_two;
}

-- All goes well, apart from what is given: the configuration file and what the bootstrap server sends. A
-- file is one byte, the parallel length.
abbrev world : Option Bytes → List Input → World
world file server = record {
  volume_path = codes "/data";
  config_file = file;
  unmarshal = λ content. record {
    environment = environment (elim content [ [] ↦ 0 | (b ∷ bs) ↦ b ]);
    bootstrap_port = 80;
  };
  pk_file = record { opens = true; content = some []; closes = true };
  vk_file = record { opens = true; content = some []; closes = true };
  signer = some signer;
  generates_key = true;
  starts_host = true;
  host_addresses = some (codes "a" ∷ codes "b" ∷ []);
  dials = λ i. true;
  server = server;
  interrupted = false;
  connects_rabbitmq = true;
  creates_consumer = true;
  creates_publisher = true;
}

abbrev conversation : List Input
conversation =
    received (codes "ok") no_config false
    ∷ received [] node_config false
    ∷ received [] node_config false
    ∷ received [] node_config false
    ∷ []

abbrev started : Started
started = record {
  settings = settings (environment 8) 3;
  public_key = encode_to_string (codes "k");
  connections = connected;
  globals = init_variables (encode_to_string (codes "k")) zero_globals;
}

started_ok :
    main open_network no_latency (world (some (8 ∷ [])) conversation) events_of_two ≡ ok started
unfolding main set_env_variables read_config init_configuration log_base2 log_loop init_zkp
    read_keys read_key generate_private_key get_public_key init_p2p second_address bootstrap dial
    dial_loop read_loop read_step handle start_with init_rabbit_mq run_p2p atoi positive parse_uint
    parse_digits in_range run_events event_step set_up_peer set_up_peer_at negative create_stream
    connect_peer connect_with_retries retry_loop connect_stream open_stream add_stream check_ready
    send_ready_message is_handled handle_stream accept_stream wrapper_of protocol_name split_at
    add_first insert lookup new_connections
started_ok = refl

main-IsStarted_example :
    IsStarted open_network no_latency (world (some (8 ∷ [])) conversation) events_of_two started
main-IsStarted_example =
    main-IsStarted open_network no_latency (world (some (8 ∷ [])) conversation) events_of_two
      started started_ok

main-no_config_example :
    main open_network no_latency (world none conversation) events_of_two ≡ panic
main-no_config_example =
    main-no_config open_network no_latency (world none conversation) events_of_two
      (λ e. ground arith) refl refl

abbrev failing : List Input
failing = received (codes "no") no_config false ∷ read_error ∷ conversation

eight_configured :
    init_configuration
      (read_config (world (some (8 ∷ [])) failing).unmarshal (some (8 ∷ []))).environment
    ≡ ok (settings (environment 8) 3)
unfolding read_config init_configuration log_base2 log_loop
eight_configured = refl

keys_read : init_zkp (world (some (8 ∷ [])) failing) ≡ ok (signer, encode_to_string (codes "k"))
unfolding init_zkp read_keys read_key generate_private_key get_public_key
keys_read = refl

host_started : init_p2p (world (some (8 ∷ [])) failing) ≡ ok (codes "b")
unfolding init_p2p second_address
host_started = refl

dialled : dial (world (some (8 ∷ [])) failing).dials ≡ ok 0
unfolding dial dial_loop
dialled = refl

queue_ready : init_rabbit_mq (world (some (8 ∷ [])) failing) ≡ ok true
unfolding init_rabbit_mq
queue_ready = refl

volume_set : set_env_variables (codes "/data") ≡ ok (codes "/data")
unfolding set_env_variables
volume_set = refl

main-early_error_example :
    main open_network no_latency (world (some (8 ∷ [])) failing) events_of_two ≡ exit
main-early_error_example =
    main-early_error open_network no_latency (world (some (8 ∷ [])) failing) events_of_two
      (received (codes "no") no_config false ∷ []) conversation (codes "/data") (codes "b")
      (settings (environment 8) 3) (signer, encode_to_string (codes "k")) 0 volume_set
      eight_configured keys_read host_started dialled refl (refl, tt) refl queue_ready
