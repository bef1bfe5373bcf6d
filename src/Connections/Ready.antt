-- ===== src/Connections/Ready.antt =====
-- node-implementation/p2p.go and p2p_communication.go: when a node tells the bootstrap server that it is
-- ready, whatever the order in which its streams are set up.
use ssle_dag.Prelude.{
  ◌<◌, ◌≡◌, refl, sym, ap, ◌∙◌, subst, inl, inr, List, [], ◌∷◌, Option, none, some, if◌then◌else◌,
  ok, >>=-eq-ok, ok_injective, Bytes, length, length-map, All, In, here, there, arith, Bool-cases,
  map,
}
use ssle_dag.Prelude.Int.{ℤ, ltb_ℤ}
use ssle_dag.Prelude.Dict.{lookup}
use ssle_dag.Bootstrap.{PeerInfo}
use ssle_dag.Connections.{
  Connections, atoi, Network, connect_with_retries, max_retries, add_stream, connect_peer,
  set_up_peer_at, set_up_peer, Event, set_up, incoming, is_handled, event_step, run_events,
  new_connections,
}
use ssle_dag.Connections.Count.{IsDistinct, IsConnected, missing}
use ssle_dag.Connections.Ids.{IsPiece, atoi-IsPiece}
use ssle_dag.Connections.SettingUp.{
  IsSettingUp, AllConnected, entered-IsSettingUp, created-IsSettingUp, handled-IsForPeer,
  incoming-IsSettingUp,
}

abbrev pub ids_of : List PeerInfo → List Bytes
ids_of = map (λ peer. peer.id)

-- The goroutines are those of the peers in the configuration.
abbrev pub IsOfPeers : List PeerInfo → Event → Type 0
IsOfPeers peers (set_up peer) = In peer peers
IsOfPeers peers (incoming protocol stream) = Unit

pub In-ids_of :
    (peer : PeerInfo) (peers : List PeerInfo) → In peer peers → In peer.id (ids_of peers)
In-ids_of peer [] i = elim i [ ]
In-ids_of peer (x ∷ peers) (here e) = here (ap (λ p. p.id) e)
In-ids_of peer (x ∷ peers) (there i) = there (In-ids_of peer peers i)

pub In-peer :
    (id : Bytes) (peers : List PeerInfo)
    → In id (ids_of peers)
    → (peer : PeerInfo) × In peer peers × (id ≡ peer.id)
In-peer id [] i = elim i [ ]
In-peer id (x ∷ peers) (here e) = (x, here refl, e)
In-peer id (x ∷ peers) (there i) = let (peer, k, e) = In-peer id peers i in (peer, there k, e)

all_missing : (ids : List Bytes) → missing [] ids ≡ length ids
unfolding missing lookup
all_missing [] = refl
all_missing (x ∷ ids) = omega (arith, all_missing ids)

module _ (net : Network) (latency : PeerInfo → ℤ) (self_id : Bytes) (peers : List PeerInfo)
    (distinct : IsDistinct (ids_of peers)) where
  abbrev pub IsState : Connections → Type 0
  IsState = IsSettingUp self_id (ids_of peers)

  connect_peer-IsState :
      (k k' : Connections) (peer : PeerInfo)
      → In peer peers
      → connect_peer net latency self_id k peer ≡ ok k'
      → IsState k
      → IsState k'
  unfolding connect_peer add_stream
  connect_peer-IsState k k' peer i e h =
      let (stream, _, added) = >>=-eq-ok (connect_with_retries max_retries _) _ e in
      subst IsState (ok_injective added)
        (entered-IsSettingUp self_id (ids_of peers) distinct k peer.id _ (In-ids_of peer peers i) h)

  set_up_peer-IsState :
      (k k' : Connections) (peer : PeerInfo) (self id : Option ℤ)
      → atoi peer.id ≡ id
      → In peer peers
      → set_up_peer_at net latency self_id k peer self id ≡ ok k'
      → IsState k
      → IsState k'
  unfolding set_up_peer_at
  set_up_peer-IsState k k' peer none id ei i e h = cc
  set_up_peer-IsState k k' peer (some self) none ei i e h = cc
  set_up_peer-IsState k k' peer (some self) (some id) ei i e h = elim (Bool-cases (ltb_ℤ id self)) [
    | inl greater ↦ subst IsState (ok_injective (rw greater at e)) (
        created-IsSettingUp self_id (ids_of peers) distinct k peer.id (latency peer)
          (In-ids_of peer peers i) (atoi-IsPiece peer.id id ei) h)
    | inr smaller ↦ connect_peer-IsState k k' peer i (rw smaller at e) h
  ]

  event_step-IsState :
      (k k' : Connections) (event : Event)
      → IsPiece self_id
      → IsOfPeers peers event
      → event_step net latency self_id k event ≡ ok k'
      → IsState k
      → IsState k'
  unfolding event_step set_up_peer
  event_step-IsState k k' (set_up peer) piece i e h =
      set_up_peer-IsState k k' peer (atoi self_id) (atoi peer.id) refl i e h
  event_step-IsState k k' (incoming protocol stream) piece _ e h =
      elim (Bool-cases (is_handled k.handlers protocol)) [
        | inl known ↦
            incoming-IsSettingUp self_id (ids_of peers) distinct k k' protocol stream piece
              (handled-IsForPeer self_id (ids_of peers) distinct k.handlers protocol known
                h.handled)
              (rw known at e) h
        | inr refused ↦ subst IsState (ok_injective (rw refused at e)) h
      ]

  pub run_events-IsState :
      (k k' : Connections) (events : List Event)
      → IsPiece self_id
      → All (IsOfPeers peers) events
      → run_events net latency self_id k events ≡ ok k'
      → IsState k
      → IsState k'
  unfolding run_events
  run_events-IsState k k' [] piece of e h = subst IsState (ok_injective e) h
  run_events-IsState k k' (event ∷ events) piece (o, of) e h =
      let (m, first, rest) = >>=-eq-ok (event_step net latency self_id k event) _ e in
      run_events-IsState m k' events piece of rest (event_step-IsState k m event piece o first h)

  pub new_connections-IsState : IsState (new_connections peers)
  unfolding new_connections lookup
  new_connections-IsState = record {
    handled = tt;
    counted = omega (arith, all_missing (ids_of peers));
    expected = sym (length-map (λ peer. peer.id) peers);
    published = refl;
    told = λ some_peer all. absurd (nobody peers some_peer all);
  }
    where
      nobody :
          (ps : List PeerInfo)
          → 0 < length (ids_of ps)
          → ¬ ((id : Bytes) → In id (ids_of ps) → IsConnected [] id)
      nobody [] h all = absurd (omega arith)
      nobody (p ∷ ps) h all = let (w, stream, found, _) = all p.id (here refl) in cc found

  -- At most one NODE_READY is published, as sendReadyMessageState tells.
  pub run_events-at_most_once :
      (n : ℤ) (events : List Event) (k : Connections)
      → atoi self_id ≡ some n
      → All (IsOfPeers peers) events
      → run_events net latency self_id (new_connections peers) events ≡ ok k
      → k.ready_messages ≡ (if k.send_ready_message_state then self_id ∷ [] else [])
  run_events-at_most_once n events k number of e = h.published
    where
      h : IsState k
      h =
          run_events-IsState (new_connections peers) k events (atoi-IsPiece self_id n number) of e
            new_connections-IsState

  -- However the goroutines of the peers and the incoming streams follow one another: once the entry of
  -- every peer has a buffer, and there is at least one peer, a node whose peers have different ids has
  -- published NODE_READY, and exactly once.
  pub run_events-ready_once :
      (n : ℤ) (events : List Event) (k : Connections)
      → atoi self_id ≡ some n
      → All (IsOfPeers peers) events
      → run_events net latency self_id (new_connections peers) events ≡ ok k
      → 0 < length peers
      → ((peer : PeerInfo) → In peer peers → IsConnected k.streams peer.id)
      → k.ready_messages ≡ self_id ∷ []
  run_events-ready_once n events k number of e some_peer all =
      let every : AllConnected self_id (ids_of peers) k.streams =
        λ id i. let (peer, j, same) = In-peer id peers i in rw same (all peer j) in
      h.published
      ∙ ap (λ b. if b then self_id ∷ [] else [])
          (h.told (omega (arith, length-map (λ (peer : PeerInfo). peer.id) peers)) every)
    where
      h : IsState k
      h =
          run_events-IsState (new_connections peers) k events (atoi-IsPiece self_id n number) of e
            new_connections-IsState
