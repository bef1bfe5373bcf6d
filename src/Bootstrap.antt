-- ===== src/Bootstrap.antt =====
-- node-implementation/bootstrap_client.go: the conversation with the bootstrap server, as the goroutine of
-- bootstrap that reads its messages leads it.
pub mod Conversation
pub mod Configuration
use ssle_dag.Prelude.{
  ℕ, zero, suc, ◌+◌, Bool, true, false, List, [], ◌∷◌, ◌++◌, Option, none, some, if◌then◌else◌,
  Outcome, ok, exit, blocked, panic, ◌>>=◌, Bytes, bytes_eq, codes,
}

pub data WebsocketState : Type 0 where
  send_hello : WebsocketState
  receive_hello_confirm : WebsocketState
  receive_config : WebsocketState
  receive_ready : WebsocketState
  finish : WebsocketState

pub record PeerLocation : Type 0 where
  pub id : Bytes
  pub name : Bytes
  pub lat : Bytes
  pub lon : Bytes

-- The float Delay, from which latencies are computed, is left out.
pub record PeerInfo : Type 0 where
  pub id : Bytes
  pub p2p_id : Bytes

pub record NodePeerStruct : Type 0 where
  pub peer_location : PeerLocation
  pub peers : List PeerInfo

-- The value of `new(ReceiveConfigMessage)`.
abbrev pub no_config : NodePeerStruct
no_config = record { peer_location = record { id = []; name = []; lat = []; lon = [] }; peers = [] }

-- What ReadMessage gives: an error, or a message, with what json.Unmarshal makes of it: the field Data of
-- a type message, the configuration, and whether the ready message is refused.
pub data Input : Type 0 where
  read_error : Input
  received : Bytes → NodePeerStruct → Bool → Input

-- The variables of bootstrap, with the messages that were sent to the server.
pub record Client : Type 0 where
  pub state : WebsocketState
  pub config : NodePeerStruct
  pub ready_to_close : Bool
  pub sent : List Bytes

-- The state in which the reader meets its first message: hello was sent.
abbrev pub after_hello : Client
after_hello = record {
  state = receive_hello_confirm;
  config = no_config;
  ready_to_close = false;
  sent = codes "hello" ∷ [];
}

-- The switch on the state; the Boolean tells that the goroutine returns.
unfoldable pub handle : Client → Bytes → NodePeerStruct → Bool → Outcome (Client × Bool)
handle k reply config ready_refused = elim k.state [
  | send_hello ↦ panic
  | receive_hello_confirm ↦
      if bytes_eq reply (codes "ok")
      then ok (record k { state = receive_config }, false)
      else ok (k, false)
  | receive_config ↦ ok (
    record k { config = config; state = receive_ready; sent = k.sent ++ codes "conf" ∷ [] },
    false,
  )
  | receive_ready ↦
      if ready_refused
      then exit
      else ok (
        record k { state = finish; ready_to_close = true; sent = k.sent ++ codes "ready" ∷ [] },
        false,
      )
  | finish ↦ ok (k, true)
]

-- One round of the loop. After an error that is let through, the message is empty.
unfoldable pub read_step : Client → Input → Outcome (Client × Bool)
read_step k read_error = if k.ready_to_close then handle k [] k.config true else ok (k, true)
read_step k (received reply config ready_refused) = handle k reply config ready_refused

-- The loop over the inputs, up to the return; when the goroutine has returned, bootstrap returns the
-- configuration.
unfoldable pub read_loop : Client → List Input → Outcome (Client × Bool)
read_loop k [] = ok (k, false)
read_loop k (input ∷ inputs) =
    read_step k input >>= (λ next. if next.1 then ok (next.0, true) else read_loop next.0 inputs)

-- `for i := 0; !connected && i < 10; i++` for the last rounds: `connects` tells which attempts succeed. The
-- result is the first that does; a failure of all ends the program.
unfoldable pub dial_loop : (ℕ → Bool) → ℕ → ℕ → Outcome ℕ
dial_loop connects i zero = exit
dial_loop connects i (suc rounds) =
    let rest = dial_loop connects (i + 1) rounds in if connects i then ok i else rest

unfoldable pub dial : (ℕ → Bool) → Outcome ℕ
dial connects = dial_loop connects 0 10

-- bootstrap, with the inputs of its reader up to the moment when the select is left: `interrupted` tells that
-- this is by the signal of the user, and then the result is nil; else it is the end of the reader.
unfoldable pub bootstrap : (ℕ → Bool) → List Input → Bool → Outcome (Option NodePeerStruct)
bootstrap connects inputs interrupted = do
  _ ← dial connects
  (k, returned) ← read_loop after_hello inputs
  if interrupted then ok none else if returned then ok (some k.config) else blocked
