-- ===== src/Bootstrap/Configuration.antt =====
-- node-implementation/bootstrap_client.go: the configuration that bootstrap returns is one that the server sent.
use ssle_dag.Prelude.{
  ℕ, ◌≡◌, refl, sym, ap, ◌∙◌, subst, Bool, true, false, ◌⊎◌, inl, inr, List, [], ◌∷◌, some, none,
  if◌then◌else◌, Outcome, ok, blocked, panic≢ok, exit≢ok, >>=-eq-ok, ok_injective, Bytes, bytes_eq,
  codes, In, here, there, Bool-cases, if-either,
}
use ssle_dag.Bootstrap.{
  WebsocketState, send_hello, receive_hello_confirm, receive_config, receive_ready, finish,
  NodePeerStruct, no_config, Input, read_error, received, Client, after_hello, handle, read_step,
  read_loop, dial, bootstrap,
}

-- Where the configuration of a result comes from.
abbrev IsTold : NodePeerStruct → NodePeerStruct → Outcome (Client × Bool) → Type 0
IsTold before told r =
    (k : Client) (stop : Bool) → r ≡ ok (k, stop) → (k.config ≡ before) ⊎ (k.config ≡ told)

old-IsTold :
    (before told : NodePeerStruct) (k : Client) (stop : Bool)
    → k.config ≡ before
    → IsTold before told (ok (k, stop))
old-IsTold before told k stop same k' stop' e =
    inl (ap (λ r. r.0.config) (sym (ok_injective e)) ∙ same)

handle-IsTold :
    (s : WebsocketState) (k : Client) (reply : Bytes) (config : NodePeerStruct) (refused : Bool)
    → k.state ≡ s
    → IsTold k.config config (handle k reply config refused)
unfolding handle
handle-IsTold send_hello k reply config refused at k' stop e =
    absurd (panic≢ok (rw (at, handle) at e))
handle-IsTold receive_hello_confirm k reply config refused at k' stop e =
    elim (Bool-cases (bytes_eq reply (codes "ok"))) [
      | inl confirmed ↦
          old-IsTold k.config config _ _ refl k' stop (rw (at, confirmed, handle) at e)
      | inr other ↦ old-IsTold k.config config _ _ refl k' stop (rw (at, other, handle) at e)
    ]
handle-IsTold receive_config k reply config refused at k' stop e =
    inr (ap (λ r. r.0.config) (sym (ok_injective (rw (at, handle) at e))))
handle-IsTold receive_ready k reply config true at k' stop e =
    absurd (exit≢ok (rw (at, handle) at e))
handle-IsTold receive_ready k reply config false at k' stop e =
    old-IsTold k.config config _ _ refl k' stop (rw (at, handle) at e)
handle-IsTold finish k reply config refused at k' stop e =
    old-IsTold k.config config _ _ refl k' stop (rw (at, handle) at e)

-- The server sent this configuration.
abbrev pub IsSent : List Input → NodePeerStruct → Type 0
IsSent inputs config =
    (reply : Bytes) × (refused : Bool) × In (received reply config refused) inputs

read_step-config :
    (k k' : Client) (input : Input) (stop : Bool)
    → read_step k input ≡ ok (k', stop)
    → (k'.config ≡ k.config) ⊎ IsSent (input ∷ []) k'.config
unfolding read_step
read_step-config k k' read_error stop e =
    elim (if-either k.ready_to_close (handle k [] k.config true) (ok (k, true)) (ok (k', stop)) e) [
      | inl handled ↦ elim (handle-IsTold k.state k [] k.config true refl k' stop handled) [
        | inl same ↦ inl same
        | inr same ↦ inl same
      ]
      | inr closed ↦ inl (ap (λ r. r.0.config) (sym (ok_injective closed)))
    ]
read_step-config k k' (received reply config refused) stop e =
    elim (handle-IsTold k.state k reply config refused refl k' stop e) [
      | inl same ↦ inl same
      | inr told ↦ inr (reply, refused, here (ap (λ x. received reply x refused) told))
    ]

later-IsSent :
    (input : Input) (inputs : List Input) (config : NodePeerStruct)
    → IsSent inputs config
    → IsSent (input ∷ inputs) config
later-IsSent input inputs config (reply, refused, i) = (reply, refused, there i)

first-IsSent :
    (input : Input) (inputs : List Input) (config : NodePeerStruct)
    → IsSent (input ∷ []) config
    → IsSent (input ∷ inputs) config
first-IsSent input inputs config (reply, refused, here e) = (reply, refused, here e)
first-IsSent input inputs config (reply, refused, there i) = elim i [ ]

read_loop-config :
    (k k' : Client) (inputs : List Input) (stop : Bool)
    → read_loop k inputs ≡ ok (k', stop)
    → (k'.config ≡ k.config) ⊎ IsSent inputs k'.config
unfolding read_loop
read_loop-config k k' [] stop e = inl (ap (λ r. r.0.config) (sym (ok_injective e)))
read_loop-config k k' (input ∷ inputs) stop e =
    let (next, first, e1) = >>=-eq-ok (read_step k input) _ e in
    let from_first = read_step-config k next.0 input next.1 first in
    elim (Bool-cases next.1) [
      | inl stopped ↦
          let same : k'.config ≡ next.0.config =
            ap (λ r. r.0.config) (sym (ok_injective (rw stopped at e1))) in
          elim from_first [
            | inl kept ↦ inl (same ∙ kept)
            | inr sent ↦ inr (
                subst (IsSent (input ∷ inputs)) (sym same)
                  (first-IsSent input inputs next.0.config sent))
          ]
      | inr goes_on ↦ elim (read_loop-config next.0 k' inputs stop (rw goes_on at e1)) [
        | inr sent ↦ inr (later-IsSent input inputs k'.config sent)
        | inl same ↦ elim from_first [
          | inl kept ↦ inl (same ∙ kept)
          | inr sent ↦ inr (
              subst (IsSent (input ∷ inputs)) (sym same)
                (first-IsSent input inputs next.0.config sent))
        ]
      ]
    ]

-- What bootstrap returns is the empty configuration or one that the server sent.
pub bootstrap-config :
    (connects : ℕ → Bool) (inputs : List Input) (interrupted : Bool) (config : NodePeerStruct)
    → bootstrap connects inputs interrupted ≡ ok (some config)
    → (config ≡ no_config) ⊎ IsSent inputs config
unfolding bootstrap
bootstrap-config connects inputs interrupted config e =
    let (_, _, e1) = >>=-eq-ok (dial connects) _ e in
    let ((k, returned), run, e2) = >>=-eq-ok (read_loop after_hello inputs) _ e1 in
    let is : k.config ≡ config = returned_config interrupted returned k e2 in
    elim (read_loop-config after_hello k inputs returned run) [
      | inl same ↦ inl (sym is ∙ same)
      | inr sent ↦ inr (subst (IsSent inputs) is sent)
    ]
  where
    returned_config :
        (interrupted returned : Bool) (k : Client)
        → (if interrupted then ok none else if returned then ok (some k.config) else blocked)
          ≡ ok (some config)
        → k.config ≡ config
    returned_config true returned k h = cc
    returned_config false true k h = cc
    returned_config false false k h = cc
