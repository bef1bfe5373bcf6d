-- ===== src/Connections/Retry.antt =====
-- node-implementation/p2p.go: the attempts of runP2p to connect to a peer with a greater number.
use ssle_dag.Prelude.{
  ℕ, zero, suc, ◌+◌, ◌<◌, ◌≤◌, ◌≡◌, refl, ap, ◌∙◌, Option, none, some, ok, exit, Bytes, arith,
}
use ssle_dag.Prelude.Int.{ℤ}
use ssle_dag.Bootstrap.{PeerInfo}
use ssle_dag.Connections.{
  Connections, Network, connect_stream, retry_loop, connect_with_retries, max_retries, add_stream,
  connect_peer,
}

module _ (attempts : ℕ → Option ℕ) where
  retry_loop-some :
      (rounds next stream : ℕ) → retry_loop attempts rounds next (some stream) ≡ some stream
  unfolding retry_loop
  retry_loop-some zero next stream = refl
  retry_loop-some (suc rounds) next stream = refl

  retry_loop-found :
      (rounds next d stream : ℕ)
      → d < rounds
      → ((j : ℕ) → j < d → attempts (next + j) ≡ none)
      → attempts (next + d) ≡ some stream
      → retry_loop attempts rounds next none ≡ some stream
  unfolding retry_loop
  retry_loop-found zero next d stream h before at = elim h [ ]
  retry_loop-found (suc rounds) next zero stream h before at =
      let now : attempts next ≡ some stream = ap attempts (omega arith) ∙ at in
      ap (retry_loop attempts rounds (next + 1)) now ∙ retry_loop-some rounds (next + 1) stream
  retry_loop-found (suc rounds) next (suc d) stream h before at =
      let now : attempts next ≡ none = ap attempts (omega arith) ∙ before 0 (omega arith) in
      ap (retry_loop attempts rounds (next + 1)) now
      ∙ retry_loop-found rounds (next + 1) d stream (omega arith)
          (λ j below. ap attempts (omega arith) ∙ before (suc j) (omega arith))
          (ap attempts (omega arith) ∙ at)

  retry_loop-none :
      (rounds next : ℕ)
      → ((j : ℕ) → j < rounds → attempts (next + j) ≡ none)
      → retry_loop attempts rounds next none ≡ none
  unfolding retry_loop
  retry_loop-none zero next all = refl
  retry_loop-none (suc rounds) next all =
      let now : attempts next ≡ none = ap attempts (omega arith) ∙ all 0 (omega arith) in
      ap (retry_loop attempts rounds (next + 1)) now
      ∙ retry_loop-none rounds (next + 1)
          (λ j below. ap attempts (omega arith) ∙ all (suc j) (omega arith))

  connect_with_retries-found :
      (rounds k stream : ℕ)
      → k ≤ rounds
      → ((j : ℕ) → j < k → attempts j ≡ none)
      → attempts k ≡ some stream
      → connect_with_retries rounds attempts ≡ ok stream
  unfolding connect_with_retries
  connect_with_retries-found rounds zero stream h before at =
      rw (at, retry_loop-some rounds 1 stream, connect_with_retries) refl
  connect_with_retries-found rounds (suc k) stream h before at =
      let later : retry_loop attempts rounds 1 none ≡ some stream =
        retry_loop-found rounds 1 k stream (omega arith)
          (λ j below. ap attempts (omega arith) ∙ before (suc j) (omega arith))
          (ap attempts (omega arith) ∙ at) in
      rw (before 0 (omega arith), later, connect_with_retries) refl

  connect_with_retries-none :
      (rounds : ℕ)
      → ((j : ℕ) → j ≤ rounds → attempts j ≡ none)
      → connect_with_retries rounds attempts ≡ exit
  unfolding connect_with_retries
  connect_with_retries-none rounds all =
      let later : retry_loop attempts rounds 1 none ≡ none =
        retry_loop-none rounds 1
          (λ j below. ap attempts (omega arith) ∙ all (suc j) (omega arith)) in
      rw (all 0 (omega arith), later, connect_with_retries) refl

-- The node takes the stream of the first attempt to connect to a peer that succeeds, if this is among the
-- first 2049, and enters it for the peer.
pub connect_peer-first :
    (net : Network) (latency : PeerInfo → ℤ) (self_id : Bytes) (k : Connections) (peer : PeerInfo)
    (n stream : ℕ)
    → n < 2049
    → ((j : ℕ) → j < n → connect_stream net j self_id peer ≡ none)
    → connect_stream net n self_id peer ≡ some stream
    → connect_peer net latency self_id k peer
      ≡ ok (add_stream self_id peer.id (latency peer) k stream)
unfolding connect_peer
connect_peer-first net latency self_id k peer n stream h before at =
    let attempts = λ (attempt : ℕ). connect_stream net attempt self_id peer in
    rw (connect_with_retries-found attempts max_retries n stream (omega arith) before at) refl

-- If all these attempts fail, the program ends.
pub connect_peer-exits :
    (net : Network) (latency : PeerInfo → ℤ) (self_id : Bytes) (k : Connections) (peer : PeerInfo)
    → ((j : ℕ) → j < 2049 → connect_stream net j self_id peer ≡ none)
    → connect_peer net latency self_id k peer ≡ exit
unfolding connect_peer
connect_peer-exits net latency self_id k peer all =
    let attempts = λ (attempt : ℕ). connect_stream net attempt self_id peer in
    rw (connect_with_retries-none attempts max_retries (λ j h. all j (omega arith))) refl
