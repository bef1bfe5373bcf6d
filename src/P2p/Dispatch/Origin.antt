-- ===== src/P2p/Dispatch/Origin.antt =====
-- node-implementation/p2p_communication.go and blockchain.go: where the blocks of a node's blockchain come from,
-- whatever happened to the node.
use ssle_dag.Prelude.{ℕ, refl, ap, subst, List, map, >>=-eq-ok, ok_injective, Bytes}
use ssle_dag.Config.{Settings}
use ssle_dag.Blockchain.Hashing.{Crypto}
use ssle_dag.P2p.Commands.{process_queue_command_message, process_command}
use ssle_dag.P2p.Epochs.{Epochs}
use ssle_dag.P2p.Epochs.Commitments.Maps.{InMaps}
use ssle_dag.P2p.Epochs.Commitments.Steps.{Steps}
use ssle_dag.P2p.Receive.Vouched.{IsVouched}
use ssle_dag.P2p.Schedule.Clock.{close_round}
use ssle_dag.P2p.Schedule.Round.{generate_round}
use ssle_dag.P2p.Schedule.Round.Own.{generate_round-create_block}
use ssle_dag.P2p.Dispatch.{
  Globals, node_of, process_network_message, process_command_on, schedule_round, GlobalStep,
  message, commitment_waits, check_waits, command, own_commitment, round, Reach, start, next,
}
use ssle_dag.P2p.Dispatch.Steps.{Reach-Steps}
use ssle_dag.Zkp.Verify.{Gnark, is_commitment_valid}
use ssle_dag.P2p.Dispatch.Extension.{
  own_block, IsExtension, unchanged, IsExtension-trans, process_message-IsExtension,
  process_command-IsExtension,
}

module _ {Witness Proof : Type 0} (gnark : Gnark Witness Proof) (crypto : Crypto)
    (draws : ℕ → ℕ → ℕ → ℕ) (mimc : List Bytes → Bytes) (public_key self_id : Bytes)
    (c : Settings) where
  abbrev Happens : Globals → Globals → Type 0
  Happens = GlobalStep crypto (is_commitment_valid gnark c) draws mimc public_key self_id c

  GlobalStep-IsExtension :
      (s0 : Epochs) (g g' : Globals)
      → InMaps (IsVouched gnark crypto.keccak256 c) s0
      → Steps crypto.keccak256 (is_commitment_valid gnark c) draws c s0 g.epochs
      → Happens g g'
      → IsExtension gnark crypto draws mimc public_key self_id c g.ledger g'.ledger
  unfolding process_network_message process_command_on process_queue_command_message schedule_round
  GlobalStep-IsExtension s0 g g' h moved (message now later m effect e) =
      process_message-IsExtension gnark crypto draws mimc public_key self_id c now later s0 g g' m
        m.type effect h moved e
  GlobalStep-IsExtension s0 g g' h moved (commitment_waits m witness s valid waits e f) =
      unchanged gnark crypto draws mimc public_key self_id c g.ledger g'.ledger
        (ap (λ r. r.ledger.blockchain) f)
  GlobalStep-IsExtension s0 g g' h moved (check_waits now later m s waits e f) =
      unchanged gnark crypto draws mimc public_key self_id c g.ledger g'.ledger
        (ap (λ r. r.ledger.blockchain) f)
  GlobalStep-IsExtension s0 g g' h moved (command m effects e) =
      let ((n, logged), run, f) =
        >>=-eq-ok
          (process_command crypto public_key (node_of g) m.type m.genesis_block m.transactions) _
          e in
      subst (IsExtension gnark crypto draws mimc public_key self_id c g.ledger)
        (ap (λ r. r.0.ledger) (ok_injective f))
        (process_command-IsExtension gnark crypto draws mimc public_key self_id c (node_of g) n
          m.type m.genesis_block m.transactions logged run)
  GlobalStep-IsExtension s0 g g' h moved (own_commitment commitment secret secret_sig s e f) =
      unchanged gnark crypto draws mimc public_key self_id c g.ledger g'.ledger
        (ap (λ r. r.ledger.blockchain) f)
  GlobalStep-IsExtension s0 g g' h moved (round times made effects e) =
      let running = g.epochs.run in
      let ((l, made'), generated, f) =
        >>=-eq-ok
          (generate_round crypto public_key c times running.submitted_commitments
            running.commitments_bucket g.clock.abs_round g.ledger running.bucket_positions
            g.clock.slot)
          _ e in
      let (_, _, k) =
        >>=-eq-ok (close_round crypto.keccak256 draws c g.bucket_info_started g.clock g.epochs) _
          f in
      let (grown, created) =
        generate_round-create_block crypto public_key c times running.submitted_commitments
          running.commitments_bucket g.clock.abs_round g.ledger l running.bucket_positions
          g.clock.slot made' generated in
      subst (IsExtension gnark crypto draws mimc public_key self_id c g.ledger)
        (ap (λ r. r.0.ledger) (ok_injective k))
        (map (λ m. m.0) made', grown, λ b i. own_block (created b i))

  -- Whatever messages, commands, own commitments and rounds of the schedule follow one another, with
  -- isCommitmentValid as the check of received commitments and from a state whose maps hold vouched
  -- commitments only: the blockchain is only appended to, no block of it changes or disappears, and
  -- every block that was appended is a genesis block that the bootstrap server sent, or a block that
  -- createBlock of the node itself made, or its commitment hash is that of a text that decodes to a
  -- witness and a proof, the proof is verified against the witness, and the public witness carries a
  -- message of the protocol's version with a permitted variant.
  pub Reach-IsExtension :
      (g g' : Globals)
      → InMaps (IsVouched gnark crypto.keccak256 c) g.epochs
      → Reach crypto (is_commitment_valid gnark c) draws mimc public_key self_id c g g'
      → IsExtension gnark crypto draws mimc public_key self_id c g.ledger g'.ledger
  Reach-IsExtension g g' h start =
      unchanged gnark crypto draws mimc public_key self_id c g.ledger g.ledger refl
  Reach-IsExtension g g' h (next {m = m} before step) =
      IsExtension-trans gnark crypto draws mimc public_key self_id c g.ledger m.ledger g'.ledger
        (Reach-IsExtension g m h before)
        (GlobalStep-IsExtension g.epochs m g' h
          (Reach-Steps crypto (is_commitment_valid gnark c) draws mimc public_key self_id c g m
            before)
          step)
