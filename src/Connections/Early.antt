-- ===== src/Connections/Early.antt =====
-- node-implementation/p2p.go and p2p_communication.go: the ready message of a node that only waits for its
-- peers to connect, whose createStream has entered every peer before.
use ssle_dag.Prelude.{
  ℕ, ◌+◌, ◌≡◌, ◌≢◌, refl, sym, ap, ◌∙◌, subst, Bool, true, false, inl, inr, List, [], ◌∷◌, ◌++◌,
  none, some, if◌then◌else◌, ok, Bytes, bytes_eq, bytes_eq→eq, bytes_eq_refl, length, All, In, here,
  there, arith, Bool-cases, map,
}
use mathlib.Core.List.{append-nil}
use ssle_dag.Prelude.Int.{ℤ, ltb_ℤ}
use ssle_dag.Prelude.Dict.{lookup, insert, lookup-insert}
use ssle_dag.Bootstrap.{PeerInfo}
use ssle_dag.Connections.{
  StreamWrapper, no_wrapper, with_stream, Connections, atoi, protocol_name, create_stream,
  wrapper_of, accept_stream, Network, set_up_peer, set_up_peer_at, Event, set_up, incoming,
  is_handled, event_step, run_events, new_connections,
}
use ssle_dag.Connections.Count.{IsDistinct, IsPresent, missing, present-missing}
use ssle_dag.Connections.Ids.{atoi-IsPiece, handle_stream-protocol_name}
use ssle_dag.Connections.Protocol.{check_ready-streams, is_handled-snoc}
use ssle_dag.Connections.SettingUp.{IsSettingUp, entered-IsSettingUp, check_ready-told}
use ssle_dag.Connections.Ready.{
  ids_of, IsOfPeers, In-peer, In-ids_of, run_events-IsState, new_connections-IsState,
}

-- The peer's id is a number below that of the node.
abbrev pub IsBelow : ℤ → PeerInfo → Type 0
IsBelow self peer = (id : ℤ) × (atoi peer.id ≡ some id) × (ltb_ℤ id self ≡ true)

is_handled-append :
    (handlers : List Bytes) (other protocol : Bytes)
    → is_handled handlers protocol ≡ true
    → is_handled (handlers ++ other ∷ []) protocol ≡ true
unfolding is_handled
is_handled-append [] other protocol e = cc
is_handled-append (h ∷ handlers) other protocol e =
    ground (arith, is_handled-append handlers other protocol)

wrapper_of-insert :
    (k k' : Connections) (peer other : Bytes) (w : StreamWrapper)
    → k'.streams ≡ insert peer w k.streams
    → wrapper_of k' other ≡ (if bytes_eq peer other then w else wrapper_of k other)
unfolding wrapper_of
wrapper_of-insert k k' peer other w e = elim (Bool-cases (bytes_eq peer other)) [
  | inl same ↦ rw (e, wrapper_of, lookup-insert peer other w k.streams, same) refl
  | inr differs ↦ rw (e, wrapper_of, lookup-insert peer other w k.streams, differs) refl
]

All-In :
    (n : ℤ) (peers : List PeerInfo) (peer : PeerInfo)
    → In peer peers
    → All (IsBelow n) peers
    → IsBelow n peer
All-In n [] peer i h = elim i [ ]
All-In n (x ∷ peers) peer (here e) (b, h) = subst (IsBelow n) (sym e) b
All-In n (x ∷ peers) peer (there i) (b, h) = All-In n peers peer i h

bytes_ne : (a b : Bytes) → a ≢ b → bytes_eq a b ≡ false
bytes_ne a b h = elim (Bool-cases (bytes_eq a b)) [
  | inl same ↦ absurd (h (bytes_eq→eq a b same))
  | inr other ↦ other
]

IsPresent-insert :
    (id peer : Bytes) (w : StreamWrapper) (m : List (Bytes × StreamWrapper))
    → IsPresent m id
    → IsPresent (insert peer w m) id
IsPresent-insert id peer w m (v, found) =
    (if bytes_eq peer id then w else v, ground (arith, lookup-insert peer id w m))

module _ (net : Network) (latency : PeerInfo → ℤ) (self_id : Bytes) where
  created : Connections → PeerInfo → Connections
  created k peer = create_stream self_id peer.id (latency peer) k

  all_created : Connections → List PeerInfo → Connections
  all_created k [] = k
  all_created k (peer ∷ peers) = all_created (created k peer) peers

  run_events-created :
      (n : ℤ) (k : Connections) (peers : List PeerInfo) (more : List Event)
      → atoi self_id ≡ some n
      → All (IsBelow n) peers
      → run_events net latency self_id k (map set_up peers ++ more)
        ≡ run_events net latency self_id (all_created k peers) more
  unfolding run_events all_created created event_step set_up_peer set_up_peer_at
  run_events-created n k [] more number h = refl
  run_events-created n k (peer ∷ peers) more number ((id, ei, below), h) =
      let step : set_up_peer net latency self_id k peer ≡ ok (created k peer) =
        rw (number, set_up_peer, ei, below) refl in
      rw step (run_events-created n (created k peer) peers more number h)

  -- What a set-up of further peers keeps, and what it gives each of its peers.
  handled_after :
      (k : Connections) (peers : List PeerInfo) (protocol : Bytes)
      → is_handled k.handlers protocol ≡ true
      → is_handled (all_created k peers).handlers protocol ≡ true
  unfolding all_created created create_stream
  handled_after k [] protocol e = e
  handled_after k (peer ∷ peers) protocol e =
      handled_after (created k peer) peers protocol
        (is_handled-append k.handlers (protocol_name self_id peer.id) protocol e)

  handled_peer :
      (k : Connections) (peers : List PeerInfo) (peer : PeerInfo)
      → In peer peers
      → is_handled (all_created k peers).handlers (protocol_name self_id peer.id) ≡ true
  unfolding all_created created create_stream
  handled_peer k [] peer i = elim i [ ]
  handled_peer k (x ∷ peers) peer (here e) =
      handled_after (created k x) peers (protocol_name self_id peer.id)
        (rw e (is_handled-snoc k.handlers (protocol_name self_id x.id)))
  handled_peer k (x ∷ peers) peer (there i) = handled_peer (created k x) peers peer i

  IsPresent-after :
      (k : Connections) (peers : List PeerInfo) (id : Bytes)
      → IsPresent k.streams id
      → IsPresent (all_created k peers).streams id
  unfolding all_created created create_stream
  IsPresent-after k [] id p = p
  IsPresent-after k (peer ∷ peers) id p =
      IsPresent-after (created k peer) peers id (IsPresent-insert id peer.id _ k.streams p)

  IsPresent-peer :
      (k : Connections) (peers : List PeerInfo) (peer : PeerInfo)
      → In peer peers
      → IsPresent (all_created k peers).streams peer.id
  unfolding all_created created create_stream
  IsPresent-peer k [] peer i = elim i [ ]
  IsPresent-peer k (x ∷ peers) peer (here e) = IsPresent-after (created k x) peers peer.id (
    record no_wrapper { latency = latency x },
    rw (e, lookup-insert x.id x.id _ k.streams, bytes_eq_refl x.id) refl,
  )
  IsPresent-peer k (x ∷ peers) peer (there i) = IsPresent-peer (created k x) peers peer i

  no_buffer_after :
      (k : Connections) (peers : List PeerInfo)
      → ((id : Bytes) → (wrapper_of k id).buffer ≡ none)
      → (id : Bytes) → (wrapper_of (all_created k peers) id).buffer ≡ none
  unfolding all_created created create_stream
  no_buffer_after k [] h id = h id
  no_buffer_after k (peer ∷ peers) h id =
      no_buffer_after (created k peer) peers
        (λ other.
          let w : StreamWrapper = record no_wrapper { latency = latency peer } in
          ap (λ v. v.buffer) (wrapper_of-insert k (created k peer) peer.id other w refl)
          ∙ either (bytes_eq peer.id other) other)
        id
    where
      either :
          (b : Bool) (other : Bytes)
          → (if b then record no_wrapper { latency = latency peer } else wrapper_of k other).buffer
            ≡ none
      either true other = refl
      either false other = h other

  All-IsOfPeers :
      (peers all : List PeerInfo)
      → ((peer : PeerInfo) → In peer peers → In peer all)
      → All (IsOfPeers all) (map set_up peers)
  All-IsOfPeers [] all sub = tt
  All-IsOfPeers (peer ∷ peers) all sub =
      (sub peer (here refl), All-IsOfPeers peers all (λ p i. sub p (there i)))

  -- The first incoming stream, when every peer has its entry.
  accept_stream-tells :
      (k : Connections) (peers : List PeerInfo) (id : Bytes) (stream : ℕ)
      → IsDistinct (ids_of peers)
      → IsSettingUp self_id (ids_of peers) k
      → In id (ids_of peers)
      → ((id : Bytes) → In id (ids_of peers) → IsPresent k.streams id)
      → (accept_stream self_id id stream k).ready_messages ≡ self_id ∷ []
  unfolding accept_stream
  accept_stream-tells k peers id stream distinct before known present =
      let w = with_stream stream (wrapper_of k id) in
      let after = entered-IsSettingUp self_id (ids_of peers) distinct k id w known before in
      let k' : Connections = record k { streams = insert id w k.streams } in
      let kept = check_ready-streams self_id k' in
      let none_missing : missing k'.streams (ids_of peers) ≡ 0 =
        present-missing k'.streams (ids_of peers)
          (λ other i. IsPresent-insert other id w k.streams (present other i)) in
      let counted : length k'.streams + missing k'.streams (ids_of peers) ≡ length (ids_of peers) =
        subst (λ m. length m + missing m (ids_of peers) ≡ length (ids_of peers)) kept
          after.counted in
      let told =
        check_ready-told self_id (ids_of peers) k'
          (omega (arith, counted, none_missing, before.expected)) in
      after.published ∙ ap (λ b. if b then self_id ∷ [] else []) told

  -- The state after all goroutines.
  all_created-IsSettingUp :
      (n : ℤ) (peers : List PeerInfo)
      → atoi self_id ≡ some n
      → IsDistinct (ids_of peers)
      → All (IsBelow n) peers
      → IsSettingUp self_id (ids_of peers) (all_created (new_connections peers) peers)
  unfolding run_events
  all_created-IsSettingUp n peers number distinct below =
      run_events-IsState net latency self_id peers distinct (new_connections peers)
        (all_created (new_connections peers) peers) (map set_up peers)
        (atoi-IsPiece self_id n number) (All-IsOfPeers peers peers (λ peer i. i))
        (subst
          (λ events.
            run_events net latency self_id (new_connections peers) events
            ≡ ok (all_created (new_connections peers) peers))
          (append-nil (map set_up peers))
          (run_events-created n (new_connections peers) peers [] number below))
        (new_connections-IsState net latency self_id peers distinct)

  -- A node whose peers all have smaller numbers publishes NODE_READY with the very first stream that
  -- reaches it: after the goroutines of all peers and one incoming stream, of a peer p, the message is
  -- published, while the entry of every other peer has no buffer yet.
  pub run_events-early :
      (n : ℤ) (peers : List PeerInfo) (p q : PeerInfo) (stream : ℕ)
      → atoi self_id ≡ some n
      → IsDistinct (ids_of peers)
      → All (IsBelow n) peers
      → In p peers
      → In q peers
      → p.id ≢ q.id
      → (k : Connections) × (run_events net latency self_id
            (new_connections peers)
            (map set_up peers ++ incoming (protocol_name self_id p.id) stream ∷ [])
          ≡ ok k)
        × (k.ready_messages ≡ self_id ∷ [])
        × ((wrapper_of k q.id).buffer ≡ none)
  unfolding run_events event_step accept_stream wrapper_of new_connections lookup
  run_events-early n peers p q stream number distinct below ip iq differ =
      let k = all_created (new_connections peers) peers in
      let (id, ei, _) = All-In n peers p ip below in
      let accepted =
        handle_stream-protocol_name self_id p.id stream k (atoi-IsPiece self_id n number)
          (atoi-IsPiece p.id id ei) in
      let w = with_stream stream (wrapper_of k p.id) in
      let other : bytes_eq p.id q.id ≡ false = bytes_ne p.id q.id differ in
      (
        accept_stream self_id p.id stream k,
        run_events-created n (new_connections peers) peers
              (incoming (protocol_name self_id p.id) stream ∷ []) number below
            ∙ rw (handled_peer (new_connections peers) peers p ip, accepted) refl,
        accept_stream-tells k peers p.id stream distinct
            (all_created-IsSettingUp n peers number distinct below) (In-ids_of p peers ip)
            (λ other i.
              let (peer, j, same) = In-peer other peers i in
              rw same (IsPresent-peer (new_connections peers) peers peer j)),
        ap (λ v. v.buffer)
              (wrapper_of-insert k (accept_stream self_id p.id stream k) p.id q.id w
                  (check_ready-streams self_id _)
                ∙ ap (λ b. if b then w else wrapper_of k q.id) other)
            ∙ no_buffer_after (new_connections peers) peers (λ id. refl) q.id,
      )
