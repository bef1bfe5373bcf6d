-- ===== src/Connections.antt =====
-- node-implementation/p2p.go and p2p_communication.go: the streams to the peers, which runP2p sets up in one
-- goroutine for each peer, with createStream, connectStream and handleStream, and the ready message.
pub mod Ids
pub mod Protocol
pub mod Retry
pub mod Count
pub mod SettingUp
pub mod Ready
pub mod Early
use ssle_dag.Prelude.{
  ℕ, zero, suc, ◌+◌, ◌^◌, Bool, true, false, List, [], ◌∷◌, ◌++◌, Option, none, some, if◌then◌else◌,
  ◌==◌, leb, Outcome, ok, exit, panic, ◌>>=◌, Bytes, bytes_eq, codes, length, get_elem?,
}
use ssle_dag.Prelude.Int.{ℤ, pos, sub_ℕ, ltb_ℤ}
use ssle_dag.Prelude.Dict.{lookup, insert}
use ssle_dag.Bootstrap.{PeerInfo}
use ssle_dag.Zkp.Text.{split_at, parse_digits, parse_uint}

-- A stream and its buffer, which are created together, go by the same number.
pub record StreamWrapper : Type 0 where
  pub buffer : Option ℕ
  pub stream : Option ℕ
  pub latency : ℤ

-- What a map gives for a key that it does not have.
abbrev pub no_wrapper : StreamWrapper
no_wrapper = record { buffer = none; stream = none; latency = pos 0 }

-- nodeStreams, expectedNumberOfPeers and sendReadyMessageState, the protocols for which the node has set
-- a stream handler, and the node ids of the NODE_READY messages that were published.
pub record Connections : Type 0 where
  pub streams : List (Bytes × StreamWrapper)
  pub handlers : List Bytes
  pub expected_number_of_peers : ℕ
  pub send_ready_message_state : Bool
  pub ready_messages : List Bytes

-- The number of strconv.Atoi from the digits behind the sign; none stands for its error.
unfoldable pub positive : Option ℕ → Option ℤ
positive none = none
positive (some n) = some (pos n)

unfoldable pub negative : Option ℕ → Option ℤ
negative none = none
negative (some n) = if leb n (2 ^ 63) then some (sub_ℕ 0 n) else none

unfoldable pub atoi : Bytes → Option ℤ
atoi [] = none
atoi (b ∷ s) =
    if b == b'+'
    then positive (parse_uint 63 s)
    else if b == b'-'
    then negative (parse_uint 64 s)
    else positive (parse_uint 63 (b ∷ s))

-- The name of the protocol between a node that accepts and the one that connects.
unfoldable pub protocol_name : Bytes → Bytes → Bytes
protocol_name accepting connecting = (codes "/connection/" ++ accepting) ++ b'_' ∷ connecting

-- sendRabbitMqReadyMessage.
unfoldable pub send_ready_message : Bytes → Connections → Connections
send_ready_message self_id k = if k.send_ready_message_state then k else record k {
  send_ready_message_state = true;
  ready_messages = k.ready_messages ++ self_id ∷ [];
}

-- `if len(nodeStreams.Streams) == expectedNumberOfPeers`
unfoldable pub check_ready : Bytes → Connections → Connections
check_ready self_id k =
    if length k.streams == k.expected_number_of_peers then send_ready_message self_id k else k

unfoldable pub create_stream : Bytes → Bytes → ℤ → Connections → Connections
create_stream self_id peer latency k = record k {
  streams = insert peer (record no_wrapper { latency = latency }) k.streams;
  handlers = k.handlers ++ protocol_name self_id peer ∷ [];
}

-- The wrapper of a peer, or an empty one.
unfoldable pub wrapper_of : Connections → Bytes → StreamWrapper
wrapper_of k peer = elim (lookup peer k.streams) [ none ↦ no_wrapper | some w ↦ w ]

abbrev pub with_stream : ℕ → StreamWrapper → StreamWrapper
with_stream stream w = record w { buffer = some stream; stream = some stream }

-- The end of handleStream, for the peer's id.
unfoldable pub accept_stream : Bytes → Bytes → ℕ → Connections → Connections
accept_stream self_id peer stream k =
    check_ready self_id
      (record k { streams = insert peer (with_stream stream (wrapper_of k peer)) k.streams })

-- handleStream; the index 1 of the pieces of the protocol's name.
unfoldable pub handle_stream : Bytes → Bytes → ℕ → Connections → Outcome Connections
handle_stream self_id protocol stream k = elim (get_elem? (split_at b'_' protocol) 1) [
  | none ↦ panic
  | some peer ↦ ok (accept_stream self_id peer stream k)
]

-- Multiaddresses and their peers, and the opening of a stream, which may succeed at one attempt and not
-- at another: go-multiaddr and go-libp2p.
pub record Network : Type 1 where
  pub Address : Type 0
  pub new_multiaddr : Bytes → Option Address
  pub PeerAddress : Type 0
  pub addr_info : Address → Option PeerAddress
  pub new_stream : ℕ → PeerAddress → Bytes → Option ℕ

module _ (net : Network) where
  open net use {new_multiaddr, addr_info, PeerAddress, new_stream}

  unfoldable pub open_stream : ℕ → Bytes → Bytes → Option PeerAddress → Option ℕ
  open_stream attempt self_id peer none = none
  open_stream attempt self_id peer (some info) =
      new_stream attempt info (protocol_name peer self_id)

  -- connectStream; none stands for an error, which is logged.
  unfoldable pub connect_stream : ℕ → Bytes → PeerInfo → Option ℕ
  connect_stream attempt self_id peer = elim (new_multiaddr peer.p2p_id) [
    | none ↦ none
    | some address ↦ open_stream attempt self_id peer.id (addr_info address)
  ]

-- `for connectionError != nil && connectionErrorCounter < 2048`, with the rounds that are left, the
-- number of the next attempt and the last result.
unfoldable pub retry_loop : (ℕ → Option ℕ) → ℕ → ℕ → Option ℕ → Option ℕ
retry_loop attempts zero next last = last
retry_loop attempts (suc rounds) next (some stream) = some stream
retry_loop attempts (suc rounds) next none = retry_loop attempts rounds (next + 1) (attempts next)

-- The first attempt and the loop; a failure of all ends the program.
unfoldable pub connect_with_retries : ℕ → (ℕ → Option ℕ) → Outcome ℕ
connect_with_retries rounds attempts = elim (retry_loop attempts rounds 1 (attempts 0)) [
  | none ↦ exit
  | some stream ↦ ok stream
]

abbrev pub max_retries : ℕ
max_retries = 2048

-- What the goroutine of a peer does with an established stream.
unfoldable pub add_stream : Bytes → Bytes → ℤ → Connections → ℕ → Connections
add_stream self_id peer latency k stream = check_ready self_id (record k {
  streams =
      insert peer (record { buffer = some stream; stream = some stream; latency = latency })
        k.streams;
})

-- What happens to the node, one after the other: the goroutine of a peer reaches its end, or libp2p has
-- an incoming stream with a protocol.
pub data Event : Type 0 where
  set_up : PeerInfo → Event
  incoming : Bytes → ℕ → Event

-- libp2p refuses a protocol without a handler.
unfoldable pub is_handled : List Bytes → Bytes → Bool
is_handled [] protocol = false
is_handled (h ∷ handlers) protocol =
    if bytes_eq h protocol then true else is_handled handlers protocol

-- `latency` is int64(math.Round(peerInfo.Delay * 1_000_000)).
module _ (net : Network) (latency : PeerInfo → ℤ) (self_id : Bytes) where
  unfoldable pub connect_peer : Connections → PeerInfo → Outcome Connections
  connect_peer k peer =
      connect_with_retries max_retries (λ attempt. connect_stream net attempt self_id peer)
      >>= (λ stream. ok (add_stream self_id peer.id (latency peer) k stream))

  unfoldable pub set_up_peer_at : Connections → PeerInfo → Option ℤ → Option ℤ → Outcome Connections
  set_up_peer_at k peer (some self) (some id) =
      if ltb_ℤ id self
      then ok (create_stream self_id peer.id (latency peer) k)
      else connect_peer k peer
  set_up_peer_at k peer none id = exit
  set_up_peer_at k peer (some self) none = exit

  -- The goroutine of runP2p for one peer. Of the numbers of the ids, runP2p computes its own before.
  unfoldable pub set_up_peer : Connections → PeerInfo → Outcome Connections
  set_up_peer k peer = set_up_peer_at k peer (atoi self_id) (atoi peer.id)

  unfoldable pub event_step : Connections → Event → Outcome Connections
  event_step k (set_up peer) = set_up_peer k peer
  event_step k (incoming protocol stream) =
      if is_handled k.handlers protocol then handle_stream self_id protocol stream k else ok k

  unfoldable pub run_events : Connections → List Event → Outcome Connections
  run_events k [] = ok k
  run_events k (event ∷ events) = event_step k event >>= (λ k'. run_events k' events)

-- `nodeStreams = NodeStreams{...}` and `expectedNumberOfPeers = len(config.Peers)`, after initNode.
unfoldable pub new_connections : List PeerInfo → Connections
new_connections peers = record {
  streams = [];
  handlers = [];
  expected_number_of_peers = length peers;
  send_ready_message_state = false;
  ready_messages = [];
}

-- getIdForBufioStream: the first peer whose buffer is the given one; without one the program ends.
unfoldable pub get_id_for_bufio_stream : List (Bytes × StreamWrapper) → ℕ → Outcome Bytes
get_id_for_bufio_stream [] writer = exit
get_id_for_bufio_stream ((peer, w) ∷ streams) writer =
    let rest = get_id_for_bufio_stream streams writer in
    elim w.buffer [ none ↦ rest | some b ↦ if b == writer then ok peer else rest ]

-- stopNode: the streams that it closes.
unfoldable pub close_streams : List (Bytes × StreamWrapper) → List ℕ
close_streams [] = []
close_streams ((peer, w) ∷ streams) =
    let rest = close_streams streams in elim w.stream [ none ↦ rest | some s ↦ s ∷ rest ]
