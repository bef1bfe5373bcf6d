-- ===== src/Tests/Streams.antt =====
-- node-implementation/p2p.go: the streams of small networks.
use ssle_dag.Prelude.{
  ℕ, zero, suc, ◌≡◌, refl, ◌<◌, Bool, true, List, [], ◌∷◌, ◌++◌, none, some, if◌then◌else◌, ◌==◌,
  ok, Bytes, codes, map, In, here, there, arith,
}
use ssle_dag.Prelude.Int.{ℤ, pos}
use ssle_dag.Prelude.Dict.{lookup, insert}
use ssle_dag.Bootstrap.{PeerInfo}
use ssle_dag.Zkp.Text.{add_first, split_at, parse_digits, in_range, parse_uint}
use ssle_dag.Connections.{
  Connections, positive, negative, atoi, protocol_name, send_ready_message, check_ready,
  create_stream, wrapper_of, accept_stream, handle_stream, Network, open_stream, connect_stream,
  retry_loop, connect_with_retries, add_stream, connect_peer, set_up_peer_at, set_up_peer, Event,
  set_up, incoming, is_handled, event_step, run_events, new_connections,
}
use ssle_dag.Connections.Count.{IsDistinct, IsConnected}
use ssle_dag.Connections.Protocol.{handshake}
use ssle_dag.Connections.Retry.{connect_peer-first}
use ssle_dag.Connections.Ready.{run_events-ready_once}
use ssle_dag.Connections.Early.{run_events-early}

abbrev node_with : Bytes → PeerInfo
node_with id = record { id = id; p2p_id = codes "/ip4" }

abbrev pub peers_of_two : List PeerInfo
peers_of_two = node_with (codes "1") ∷ node_with (codes "3") ∷ []

abbrev pub no_latency : PeerInfo → ℤ
no_latency peer = pos 0

-- Streams open from the attempt n on, for the protocols that pass.
abbrev network : ℕ → (Bytes → Bool) → Network
network n passes = record {
  Address = Bytes;
  new_multiaddr = λ address. some address;
  PeerAddress = Bytes;
  addr_info = λ address. some address;
  new_stream = λ attempt info protocol.
      if attempt == n then if passes protocol then some 7 else none else none;
}

abbrev pub open_network : Network
open_network = network 0 (λ protocol. true)

-- Node 2 before and after it has set up its handler for node 1.
abbrev with_handler : Connections
with_handler = create_stream (codes "2") (codes "1") (pos 0) (new_connections peers_of_two)

with_handler_ok :
    set_up_peer open_network no_latency
      (codes "2")
      (new_connections peers_of_two)
      (node_with (codes "1"))
    ≡ ok with_handler
unfolding set_up_peer set_up_peer_at atoi positive negative parse_uint parse_digits in_range
    create_stream
with_handler_ok = refl

atoi_one : atoi (codes "1") ≡ some (pos 1)
unfolding atoi positive parse_uint parse_digits in_range
atoi_one = refl

atoi_two : atoi (codes "2") ≡ some (pos 2)
unfolding atoi positive parse_uint parse_digits in_range
atoi_two = refl

handshake_example :
    (k : Connections) × (k' : Connections) × (set_up_peer
        (network 0 (is_handled with_handler.handlers))
        no_latency
        (codes "1")
        (new_connections (node_with (codes "2") ∷ []))
        (node_with (codes "2"))
      ≡ ok k)
    × (event_step open_network no_latency
          (codes "2")
          with_handler
          (incoming (protocol_name (codes "2") (codes "1")) 7)
        ≡ ok k')
    × (wrapper_of k (codes "2") ≡ record { buffer = some 7; stream = some 7; latency = pos 0 })
    × (wrapper_of k' (codes "1") ≡ record { buffer = some 7; stream = some 7; latency = pos 0 })
handshake_example =
    handshake open_network (network 0 (is_handled with_handler.handlers)) no_latency no_latency
      (node_with (codes "2")) (node_with (codes "1")) (pos 2) (pos 1) (new_connections peers_of_two)
      with_handler (new_connections (node_with (codes "2") ∷ [])) (codes "/ip4") (codes "/ip4") 7
      atoi_two atoi_one refl with_handler_ok refl refl (λ protocol. refl)

-- The second attempt succeeds.
fails_before :
    (j : ℕ)
    → j < 1
    → connect_stream (network 1 (λ p. true)) j (codes "1") (node_with (codes "2")) ≡ none
unfolding connect_stream open_stream
fails_before zero h = refl
fails_before (suc j) h = absurd (omega arith)

succeeds : connect_stream (network 1 (λ p. true)) 1 (codes "1") (node_with (codes "2")) ≡ some 7
unfolding connect_stream open_stream
succeeds = refl

connect_peer-first_example :
    connect_peer
      (network 1 (λ p. true))
      no_latency
      (codes "1")
      (new_connections peers_of_two)
      (node_with (codes "2"))
    ≡ ok (add_stream (codes "1") (codes "2") (pos 0) (new_connections peers_of_two) 7)
connect_peer-first_example =
    connect_peer-first (network 1 (λ p. true)) no_latency (codes "1") (new_connections peers_of_two)
      (node_with (codes "2")) 1 7 (omega arith) fails_before succeeds

-- Node 2 waits for node 1 and connects to node 3.
abbrev pub events_of_two : List Event
events_of_two =
    set_up (node_with (codes "3"))
    ∷ set_up (node_with (codes "1"))
    ∷ incoming (protocol_name (codes "2") (codes "1")) 7
    ∷ []

abbrev pub connected : Connections
connected = record {
  streams =
      (codes "3", record { buffer = some 7; stream = some 7; latency = pos 0 })
      ∷ (codes "1", record { buffer = some 7; stream = some 7; latency = pos 0 })
      ∷ [];
  handlers = protocol_name (codes "2") (codes "1") ∷ [];
  expected_number_of_peers = 2;
  send_ready_message_state = true;
  ready_messages = codes "2" ∷ [];
}

connected_ok :
    run_events open_network no_latency (codes "2") (new_connections peers_of_two) events_of_two
    ≡ ok connected
unfolding run_events event_step set_up_peer set_up_peer_at atoi positive negative parse_uint
    parse_digits in_range create_stream connect_peer connect_with_retries retry_loop connect_stream
    open_stream add_stream check_ready send_ready_message is_handled handle_stream accept_stream
    wrapper_of protocol_name split_at add_first insert lookup new_connections
connected_ok = refl

two-IsDistinct : IsDistinct (codes "1" ∷ codes "3" ∷ [])
two-IsDistinct =
    (λ i. elim i [ here e ↦ ground arith | there j ↦ elim j [ ] ], (λ i. elim i [ ], tt))

both-IsConnected : (peer : PeerInfo) → In peer peers_of_two → IsConnected connected.streams peer.id
unfolding lookup
both-IsConnected peer (here e) =
    rw e (record { buffer = some 7; stream = some 7; latency = pos 0 }, 7, refl, refl)
both-IsConnected peer (there (here e)) =
    rw e (record { buffer = some 7; stream = some 7; latency = pos 0 }, 7, refl, refl)
both-IsConnected peer (there (there i)) = elim i [ ]

run_events-ready_once_example : connected.ready_messages ≡ codes "2" ∷ []
run_events-ready_once_example =
    run_events-ready_once open_network no_latency (codes "2") peers_of_two two-IsDistinct (pos 2)
      events_of_two connected atoi_two (there (here refl), (here refl, (tt, tt))) connected_ok
      (omega arith) both-IsConnected

atoi_nine : atoi (codes "9") ≡ some (pos 9)
unfolding atoi positive parse_uint parse_digits in_range
atoi_nine = refl

atoi_three : atoi (codes "3") ≡ some (pos 3)
unfolding atoi positive parse_uint parse_digits in_range
atoi_three = refl

run_events-early_example :
    (k : Connections) × (run_events open_network no_latency
        (codes "9")
        (new_connections peers_of_two)
        (map set_up peers_of_two ++ incoming (protocol_name (codes "9") (codes "1")) 7 ∷ [])
      ≡ ok k)
    × (k.ready_messages ≡ codes "9" ∷ [])
    × ((wrapper_of k (codes "3")).buffer ≡ none)
run_events-early_example =
    run_events-early open_network no_latency (codes "9") (pos 9) peers_of_two
      (node_with (codes "1")) (node_with (codes "3")) 7 atoi_nine two-IsDistinct
      ((pos 1, atoi_one, refl), ((pos 3, atoi_three, refl), tt)) (here refl) (there (here refl))
      (λ e. ground arith)
