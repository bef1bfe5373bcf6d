-- ===== src/P2p/History.antt =====
-- node-implementation/p2p_communication.go: the message history, by which readData lets every message
-- through once, and the history per peer, by which gossipMessage does not send a message back.
use ssle_dag.Prelude.{
  ℕ, zero, suc, ◌≡◌, refl, Bool, true, false, not, ◌&&◌, ◌||◌, List, [], ◌∷◌, ◌++◌, none, some,
  arith, if◌then◌else◌, Bytes, bytes_eq, bytes_eq_iff, bytes_eq_refl, length, get_elem?, count_if,
  get_elem?-append_length, get_elem?-append_left, get_elem?-some, length-append, ◌≤◌,
}
use ssle_dag.Prelude.Dict.{lookup, insert, lookup-insert}

-- The global variables messageHistory and messagePeersHistory.
pub record Gossip : Type 0 where
  pub message_history : List Bytes
  pub message_peers_history : List (Bytes × List Bytes)

-- `for i := len(history) - 1; i >= 0; i--`, over the entries below i, with an early return.
unfoldable pub history_loop : List Bytes → Bytes → ℕ → Bool
history_loop history id zero = false
history_loop history id (suc i) =
    let rest = history_loop history id i in
    elim (get_elem? history i) [
      | none ↦ rest
      | some entry ↦ if bytes_eq entry id then true else rest
    ]

unfoldable pub is_message_first_occurrence : Gossip → Bytes → Bool
is_message_first_occurrence g id =
    not (history_loop g.message_history id (length g.message_history))

-- A peer without an entry has an empty history.
unfoldable pub received_from : Gossip → Bytes → List Bytes
received_from g peer = elim (lookup peer g.message_peers_history) [ none ↦ [] | some ids ↦ ids ]

unfoldable pub message_already_received : Gossip → Bytes → Bytes → Bool
message_already_received g peer id =
    let ids = received_from g peer in history_loop ids id (length ids)

-- gossipMessage: whether it writes the message to the peer.
unfoldable pub gossip_message : Gossip → Bytes → Bytes → Bool
gossip_message g peer id = if message_already_received g peer id then false else true

-- readData, for one message that could be parsed: the histories afterwards, and whether the message
-- is gossiped and processed.
unfoldable pub read_data : Gossip → Bytes → Bytes → Gossip × Bool
read_data g receiver id =
    let noted = record g {
      message_peers_history =
          insert receiver (received_from g receiver ++ id ∷ []) g.message_peers_history;
    } in
    if is_message_first_occurrence noted id
    then (record noted { message_history = noted.message_history ++ id ∷ [] }, true)
    else (noted, false)

-- The messages of a run, as pairs of the peer that sent it and its id, in the order in which histMutex
-- lets them through: the ids that were processed.
unfoldable pub processed : Gossip → List (Bytes × Bytes) → List Bytes
processed g [] = []
processed g ((peer, id) ∷ arrivals) =
    let (g', first) = read_data g peer id in
    let rest = processed g' arrivals in if first then id ∷ rest else rest

-- Whether a message with the id arrives.
unfoldable pub arrives : Bytes → List (Bytes × Bytes) → Bool
arrives id [] = false
arrives id ((peer, i) ∷ arrivals) = bytes_eq i id || arrives id arrivals

history_loop-append :
    (h : List Bytes) (x id : Bytes) (n : ℕ)
    → n ≤ length h
    → history_loop (h ++ x ∷ []) id n ≡ history_loop h id n
unfolding history_loop
history_loop-append h x id zero le = refl
history_loop-append h x id (suc n) le =
    let (entry, e) = get_elem?-some h n (omega arith) in
    rw
      (
        get_elem?-append_left h (x ∷ []) n entry e,
        e,
        history_loop-append h x id n (omega arith),
        history_loop,
      )
      refl

history_loop-at :
    (h : List Bytes) (x id : Bytes) (n : ℕ)
    → get_elem? h n ≡ some x
    → history_loop h id (suc n) ≡ (bytes_eq x id || history_loop h id n)
unfolding history_loop
history_loop-at h x id n e = rw (e, history_loop) (ground arith)

pub history_loop-snoc :
    (h : List Bytes) (x id : Bytes)
    → history_loop (h ++ x ∷ []) id (length (h ++ x ∷ []))
      ≡ (bytes_eq x id || history_loop h id (length h))
history_loop-snoc h x id =
    let e : length (h ++ x ∷ []) ≡ suc (length h) = omega (arith, length-append h (x ∷ [])) in
    rw
      (
        e,
        history_loop-at (h ++ x ∷ []) x id (length h) (get_elem?-append_length h x []),
        history_loop-append h x id (length h) (omega arith),
      )
      refl

read_data-first :
    (g : Gossip) (peer id : Bytes) → (read_data g peer id).1 ≡ is_message_first_occurrence g id
unfolding read_data is_message_first_occurrence
read_data-first g peer id = ground arith

-- Reading a message takes its id, and no other, from those that are yet to be processed.
read_data-history :
    (g : Gossip) (peer i id : Bytes)
    → is_message_first_occurrence ((read_data g peer i).0) id
      ≡ (not (bytes_eq i id) && is_message_first_occurrence g id)
unfolding read_data is_message_first_occurrence
read_data-history g peer i id =
    ground (arith, history_loop-snoc g.message_history i id, bytes_eq_iff i id)

-- Of a run of arriving messages, each message whose id arrives at all is processed exactly once,
-- however often and from whichever peers it arrives, unless its id was in the history before, in
-- which case it is never processed; an id that does not arrive is not processed.
pub processed-once :
    (g : Gossip) (arrivals : List (Bytes × Bytes)) (id : Bytes)
    → count_if (λ i. bytes_eq i id) (processed g arrivals)
      ≡ (if is_message_first_occurrence g id && arrives id arrivals then 1 else 0)
unfolding processed arrives
processed-once g [] id = ground arith
processed-once g ((peer, i) ∷ arrivals) id = ground (
  arith,
  read_data-first g peer i,
  read_data-history g peer i id,
  bytes_eq_iff i id,
  processed-once ((read_data g peer i).0) arrivals id,
)

read_data-peers :
    (g : Gossip) (peer id : Bytes)
    → (read_data g peer id).0.message_peers_history
      ≡ insert peer (received_from g peer ++ id ∷ []) g.message_peers_history
unfolding read_data
read_data-peers g peer id = ground arith

read_data-received :
    (g : Gossip) (peer id : Bytes)
    → received_from ((read_data g peer id).0) peer ≡ received_from g peer ++ id ∷ []
unfolding received_from
read_data-received g peer id =
    rw
      (
        read_data-peers g peer id,
        lookup-insert peer peer (received_from g peer ++ id ∷ []) g.message_peers_history,
        bytes_eq_refl peer,
        received_from,
      )
      refl

-- After a message was read from a peer, it is not gossiped to that peer.
pub gossip_message-read_data :
    (g : Gossip) (peer id : Bytes) → gossip_message ((read_data g peer id).0) peer id ≡ false
unfolding gossip_message message_already_received
gossip_message-read_data g peer id =
    rw
      (
        read_data-received g peer id,
        history_loop-snoc (received_from g peer) id id,
        bytes_eq_refl id,
        gossip_message,
        message_already_received,
      )
      refl
