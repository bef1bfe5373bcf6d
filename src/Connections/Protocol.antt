-- ===== src/Connections/Protocol.antt =====
-- node-implementation/p2p.go and p2p_communication.go: the name of the protocol by which two nodes find each
-- other, and the connection of two nodes from both ends.
use ssle_dag.Prelude.{
  ℕ, zero, suc, ◌≡◌, refl, sym, ap, ◌∙◌, true, false, List, [], ◌∷◌, ◌++◌, Option, none, some,
  if◌then◌else◌, ok, ok_injective, Bytes, bytes_eq_refl, arith,
}
use ssle_dag.Prelude.Int.{ℤ, ltb_ℤ}
use ssle_dag.Prelude.Dict.{insert, lookup-insert_self}
use ssle_dag.Bootstrap.{PeerInfo}
use ssle_dag.Connections.{
  StreamWrapper, no_wrapper, with_stream, Connections, atoi, protocol_name, check_ready,
  send_ready_message, create_stream, wrapper_of, accept_stream, Network, open_stream,
  connect_stream, connect_with_retries, retry_loop, add_stream, connect_peer, set_up_peer,
  set_up_peer_at, incoming, is_handled, event_step, max_retries,
}
use ssle_dag.Connections.Ids.{atoi-IsPiece, handle_stream-protocol_name}

-- The ready message leaves the streams and the handlers as they are.
pub check_ready-streams :
    (self_id : Bytes) (k : Connections) → (check_ready self_id k).streams ≡ k.streams
unfolding check_ready send_ready_message
check_ready-streams self_id k = ground arith

pub check_ready-handlers :
    (self_id : Bytes) (k : Connections) → (check_ready self_id k).handlers ≡ k.handlers
unfolding check_ready send_ready_message
check_ready-handlers self_id k = ground arith

wrapper_of-insert :
    (k : Connections) (peer : Bytes) (w : StreamWrapper) (m : List (Bytes × StreamWrapper))
    → k.streams ≡ insert peer w m
    → wrapper_of k peer ≡ w
unfolding wrapper_of
wrapper_of-insert k peer w m e = rw (e, lookup-insert_self peer w m, wrapper_of) refl

add_stream-wrapper_of :
    (self_id peer : Bytes) (latency : ℤ) (k : Connections) (stream : ℕ)
    → wrapper_of (add_stream self_id peer latency k stream) peer
      ≡ record { buffer = some stream; stream = some stream; latency = latency }
unfolding add_stream
add_stream-wrapper_of self_id peer latency k stream =
    wrapper_of-insert (add_stream self_id peer latency k stream) peer _ k.streams
      (check_ready-streams self_id _)

accept_stream-wrapper_of :
    (self_id peer : Bytes) (stream : ℕ) (k : Connections)
    → wrapper_of (accept_stream self_id peer stream k) peer ≡ with_stream stream (wrapper_of k peer)
unfolding accept_stream
accept_stream-wrapper_of self_id peer stream k =
    wrapper_of-insert (accept_stream self_id peer stream k) peer _ k.streams
      (check_ready-streams self_id _)

create_stream-wrapper_of :
    (self_id peer : Bytes) (latency : ℤ) (k : Connections)
    → wrapper_of (create_stream self_id peer latency k) peer
      ≡ record no_wrapper { latency = latency }
unfolding create_stream
create_stream-wrapper_of self_id peer latency k =
    wrapper_of-insert (create_stream self_id peer latency k) peer _ k.streams refl

pub is_handled-snoc :
    (handlers : List Bytes) (protocol : Bytes)
    → is_handled (handlers ++ protocol ∷ []) protocol ≡ true
unfolding is_handled
is_handled-snoc [] protocol = rw (bytes_eq_refl protocol) refl
is_handled-snoc (h ∷ handlers) protocol = ground (arith, is_handled-snoc handlers protocol)

create_stream-handled :
    (self_id peer : Bytes) (latency : ℤ) (k : Connections)
    → is_handled (create_stream self_id peer latency k).handlers (protocol_name self_id peer) ≡ true
unfolding create_stream
create_stream-handled self_id peer latency k =
    is_handled-snoc k.handlers (protocol_name self_id peer)

-- An attempt that succeeds at once is the only one.
connect_with_retries-first :
    (rounds stream : ℕ) (attempts : ℕ → Option ℕ)
    → attempts 0 ≡ some stream
    → connect_with_retries rounds attempts ≡ ok stream
unfolding connect_with_retries retry_loop
connect_with_retries-first zero stream attempts e = rw (e, connect_with_retries) refl
connect_with_retries-first (suc rounds) stream attempts e =
    rw (e, retry_loop, connect_with_retries) refl

ltb_ℤ_asymm : (a b : ℤ) → ltb_ℤ a b ≡ true → ltb_ℤ b a ≡ false
ltb_ℤ_asymm a b h = ground arith

module _ (latency : PeerInfo → ℤ) (self_id : Bytes) where
  -- A node with the greater number sets a handler for the peer, and no other change.
  set_up_peer-greater :
      (net : Network) (k k' : Connections) (peer : PeerInfo) (self id : ℤ)
      → atoi self_id ≡ some self
      → atoi peer.id ≡ some id
      → ltb_ℤ id self ≡ true
      → set_up_peer net latency self_id k peer ≡ ok k'
      → k' ≡ create_stream self_id peer.id (latency peer) k
  unfolding set_up_peer set_up_peer_at
  set_up_peer-greater net k k' peer self id es ei greater e =
      sym (ok_injective (rw (es, ei, set_up_peer, greater) at e))

  -- A node with the smaller number ends with the stream that its first attempt opened.
  set_up_peer-connected :
      (net : Network) (k : Connections) (peer : PeerInfo) (self id : ℤ) (stream : ℕ)
      → atoi self_id ≡ some self
      → atoi peer.id ≡ some id
      → ltb_ℤ id self ≡ false
      → connect_stream net 0 self_id peer ≡ some stream
      → set_up_peer net latency self_id k peer
        ≡ ok (add_stream self_id peer.id (latency peer) k stream)
  unfolding set_up_peer set_up_peer_at connect_peer
  set_up_peer-connected net k peer self id stream es ei smaller e =
      rw
        (
          es,
          ei,
          set_up_peer,
          smaller,
          connect_with_retries-first max_retries stream
              (λ attempt. connect_stream net attempt self_id peer) e,
        )
        refl

-- connectStream asks for the protocol of the two ids.
connect_stream-some :
    (net : Network) (attempt stream : ℕ) (self_id : Bytes) (peer : PeerInfo) (address : net.Address)
    (info : net.PeerAddress)
    → net.new_multiaddr peer.p2p_id ≡ some address
    → net.addr_info address ≡ some info
    → net.new_stream attempt info (protocol_name peer.id self_id) ≡ some stream
    → connect_stream net attempt self_id peer ≡ some stream
unfolding connect_stream open_stream
connect_stream-some net attempt stream self_id peer address info ea ei es =
    rw (ea, connect_stream, ei, open_stream) es

-- Let node a have the greater number of the two nodes, and let its goroutine for b have ended. When
-- libp2p opens a stream from b to a for exactly the protocols that a handles, b's goroutine for a
-- connects at its first attempt, and the stream reaches a under the protocol that a has set up for
-- b: afterwards each of the two nodes has the stream and its buffer in the entry of the other one's
-- id, with its own latency for the other.
pub handshake :
    (net_a net_b : Network) (latency_a latency_b : PeerInfo → ℤ) (a b : PeerInfo) (na nb : ℤ)
    (ka ka' kb : Connections) (address : net_b.Address) (info : net_b.PeerAddress) (stream : ℕ)
    → atoi a.id ≡ some na
    → atoi b.id ≡ some nb
    → ltb_ℤ nb na ≡ true
    → set_up_peer net_a latency_a a.id ka b ≡ ok ka'
    → net_b.new_multiaddr a.p2p_id ≡ some address
    → net_b.addr_info address ≡ some info
    → ((protocol : Bytes)
        → net_b.new_stream 0 info protocol
          ≡ (if is_handled ka'.handlers protocol then some stream else none))
    → (kb' : Connections) × (ka'' : Connections) × (set_up_peer net_b latency_b b.id kb a ≡ ok kb')
      × (event_step net_a latency_a a.id ka' (incoming (protocol_name a.id b.id) stream) ≡ ok ka'')
      × (wrapper_of kb' a.id
          ≡ record { buffer = some stream; stream = some stream; latency = latency_b a })
      × (wrapper_of ka'' b.id
          ≡ record { buffer = some stream; stream = some stream; latency = latency_a b })
unfolding event_step
handshake net_a net_b latency_a latency_b a b na nb ka ka' kb address info stream ea eb greater
      set_up address_of info_of opens =
    let created = set_up_peer-greater latency_a a.id net_a ka ka' b na nb ea eb greater set_up in
    let handled : is_handled ka'.handlers (protocol_name a.id b.id) ≡ true =
      rw created (create_stream-handled a.id b.id (latency_a b) ka) in
    let opened : net_b.new_stream 0 info (protocol_name a.id b.id) ≡ some stream =
      opens (protocol_name a.id b.id) ∙ ap (λ h. if h then some stream else none) handled in
    (
      add_stream b.id a.id (latency_b a) kb stream,
      accept_stream a.id b.id stream ka',
      set_up_peer-connected latency_b b.id net_b kb a nb na stream eb ea (ltb_ℤ_asymm nb na greater)
          (connect_stream-some net_b 0 stream b.id a address info address_of info_of opened),
      rw handled (
          handle_stream-protocol_name a.id b.id stream ka' (atoi-IsPiece a.id na ea)
            (atoi-IsPiece b.id nb eb)),
      add_stream-wrapper_of b.id a.id (latency_b a) kb stream,
      accept_stream-wrapper_of a.id b.id stream ka'
          ∙ ap (with_stream stream) (
              ap (λ k. wrapper_of k b.id) created
              ∙ create_stream-wrapper_of a.id b.id (latency_a b) ka),
    )
