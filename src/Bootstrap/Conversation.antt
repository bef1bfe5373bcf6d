-- ===== src/Bootstrap/Conversation.antt =====
-- node-implementation/bootstrap_client.go: the order of the conversation, and what an early end means.
use ssle_dag.Prelude.{
  if-either, ◌≡◌, refl, ap, ◌∙◌, Bool, true, false, inl, inr, List, [], ◌∷◌, ◌++◌, Outcome, ok,
  >>=-eq-ok, ok_injective, Bytes, bytes_eq, codes, All, Bool-cases, subst, true≢false, panic≢ok,
  exit≢ok,
}
use ssle_dag.Bootstrap.{
  WebsocketState, send_hello, receive_hello_confirm, receive_config, receive_ready, finish,
  NodePeerStruct, no_config, Input, read_error, received, Client, after_hello, handle, read_step,
  read_loop,
}

-- The messages that were sent in a state.
abbrev pub script : WebsocketState → List Bytes
script send_hello = []
script receive_hello_confirm = codes "hello" ∷ []
script receive_config = codes "hello" ∷ []
script receive_ready = codes "hello" ∷ codes "conf" ∷ []
script finish = codes "hello" ∷ codes "conf" ∷ codes "ready" ∷ []

abbrev pub is_finish : WebsocketState → Bool
is_finish finish = true
is_finish _ = false

-- Whether the configuration was received.
abbrev pub has_config : WebsocketState → Bool
has_config receive_ready = true
has_config finish = true
has_config _ = false

-- What the node sent is what its state says, it closes exactly in the last state, and it has no
-- configuration before it received one.
pub record IsOnScript (k : Client) : Type 0 where
  pub sent_is : k.sent ≡ script k.state
  pub closes : k.ready_to_close ≡ is_finish k.state
  pub nothing_yet : has_config k.state ≡ false → k.config ≡ no_config

-- The client that a handled message leaves.
result-is :
    (k k' : Client) (b stop : Bool)
    → ◌≡◌ {A = Outcome (Client × Bool)} (ok (k, b)) (ok (k', stop))
    → k ≡ k'
result-is k k' b stop e = ap (λ p. p.0) (ok_injective e)

handle-IsOnScript :
    (s : WebsocketState) (k k' : Client) (reply : Bytes) (config : NodePeerStruct)
    (refused stop : Bool)
    → k.state ≡ s
    → handle k reply config refused ≡ ok (k', stop)
    → IsOnScript k
    → IsOnScript k'
unfolding handle
handle-IsOnScript send_hello k k' reply config refused stop at e on =
    absurd (panic≢ok (rw (at, handle) at e))
handle-IsOnScript receive_hello_confirm k k' reply config refused stop at e on =
    elim (Bool-cases (bytes_eq reply (codes "ok"))) [
      | inl confirmed ↦
          subst IsOnScript (result-is _ k' _ stop (rw (at, confirmed, handle) at e)) record {
            sent_is = on.sent_is ∙ ap script at;
            closes = on.closes ∙ ap is_finish at;
            nothing_yet = λ h. on.nothing_yet (ap has_config at);
          }
      | inr other ↦ subst IsOnScript (result-is k k' _ stop (rw (at, other, handle) at e)) on
    ]
handle-IsOnScript receive_config k k' reply config refused stop at e on =
    subst IsOnScript (result-is _ k' _ stop (rw (at, handle) at e)) record {
      sent_is = ap (λ l. l ++ codes "conf" ∷ []) (on.sent_is ∙ ap script at);
      closes = on.closes ∙ ap is_finish at;
      nothing_yet = λ h. absurd (true≢false h);
    }
handle-IsOnScript receive_ready k k' reply config true stop at e on =
    absurd (exit≢ok (rw (at, handle) at e))
handle-IsOnScript receive_ready k k' reply config false stop at e on =
    subst IsOnScript (result-is _ k' _ stop (rw (at, handle) at e)) record {
      sent_is = ap (λ l. l ++ codes "ready" ∷ []) (on.sent_is ∙ ap script at);
      closes = refl;
      nothing_yet = λ h. absurd (true≢false h);
    }
handle-IsOnScript finish k k' reply config refused stop at e on =
    subst IsOnScript (result-is k k' _ stop (rw (at, handle) at e)) on

read_step-IsOnScript :
    (k k' : Client) (input : Input) (stop : Bool)
    → read_step k input ≡ ok (k', stop)
    → IsOnScript k
    → IsOnScript k'
unfolding read_step
read_step-IsOnScript k k' read_error stop e on =
    elim (if-either k.ready_to_close (handle k [] k.config true) (ok (k, true)) (ok (k', stop)) e) [
      | inl handled ↦ handle-IsOnScript k.state k k' [] k.config true stop refl handled on
      | inr closed ↦ subst IsOnScript (result-is k k' true stop closed) on
    ]
read_step-IsOnScript k k' (received reply config refused) stop e on =
    handle-IsOnScript k.state k k' reply config refused stop refl e on

-- Whatever the server sends, and whenever reading fails, as long as the reader neither exits nor panics:
-- the messages sent to the server are hello, conf and ready as far as the state has come, in this order
-- and each once; the connection is closed in the last state only; and as long as no configuration was
-- received, the client has the empty one.
pub read_loop-IsOnScript :
    (k k' : Client) (inputs : List Input) (stop : Bool)
    → read_loop k inputs ≡ ok (k', stop)
    → IsOnScript k
    → IsOnScript k'
unfolding read_loop
read_loop-IsOnScript k k' [] stop e on = subst IsOnScript (result-is k k' _ stop e) on
read_loop-IsOnScript k k' (input ∷ inputs) stop e on =
    let (next, first, e1) = >>=-eq-ok (read_step k input) _ e in
    let on1 = read_step-IsOnScript k next.0 input next.1 first on in
    elim (Bool-cases next.1) [
      | inl stopped ↦ subst IsOnScript (result-is next.0 k' true stop (rw stopped at e1)) on1
      | inr goes_on ↦ read_loop-IsOnScript next.0 k' inputs stop (rw goes_on at e1) on1
    ]

-- An input that does not confirm the hello.
abbrev pub IsNoConfirm : Input → Type 0
IsNoConfirm read_error = ⊥
IsNoConfirm (received reply config refused) = bytes_eq reply (codes "ok") ≡ false

-- When reading fails before the server confirmed the hello, the reader returns like after a finished
-- conversation, and what bootstrap then returns is the empty configuration, without any peer.
pub read_loop-early_error :
    (inputs more : List Input)
    → All IsNoConfirm inputs
    → read_loop after_hello (inputs ++ read_error ∷ more) ≡ ok (after_hello, true)
unfolding read_loop read_step handle
read_loop-early_error [] more h = refl
read_loop-early_error (read_error ∷ inputs) more (bad, h) = absurd bad
read_loop-early_error (received reply config refused ∷ inputs) more (other, h) =
    rw (other, read_loop-early_error inputs more h) refl
