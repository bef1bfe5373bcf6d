-- ===== src/P2p/Dispatch/Steps.antt =====
-- node-implementation/p2p_communication.go: whatever happens to the node, its epochs' variables change by the
-- steps of the handlers only.
use ssle_dag.Prelude.{
  ℕ, ◌≡◌, ◌∙◌, ap, subst, Bool, true, false, inl, inr, List, [], ◌++◌, if◌then◌else◌, ◌==◌, Outcome,
  ok, panic, panic≢ok, ◌>>=◌, >>=-eq-ok, ok_injective, if-either, Bytes,
}
use ssle_dag.Prelude.Int.{pos}
use ssle_dag.Config.{Settings}
use ssle_dag.Messages.{
  Message, bchain_init_commitment, bchain_commitment, bchain_init_bucket_info, bchain_bucket_check,
  bchain_sync_time, bchain_block, ping, genesis_block_build, info, transaction_pack,
  pub_key_exchange, node_ready, NetworkMessage, PublicWitness, no_block_transfer,
}
use ssle_dag.Blockchain.Hashing.{Crypto}
use ssle_dag.Keys.Exchange.{process_pub_key_exchange}
use ssle_dag.P2p.Commands.{process_queue_command_message}
use ssle_dag.P2p.Epochs.{Epochs}
use ssle_dag.P2p.Epochs.Commitments.{process_commitment, reshuffle}
use ssle_dag.P2p.Epochs.Commitments.Covered.{AreCovered}
use ssle_dag.P2p.Epochs.Commitments.Steps.{
  received, initiated, own, retry, bucket_info, stored_waiting, Steps, start, then_step,
  Steps-AreCovered,
}
use ssle_dag.P2p.Epochs.Check.{process_init_bucket_info, process_bucket_check}
use ssle_dag.P2p.Epochs.Check.Moves.{
  check_before_lock-Steps, process_bucket_check-Steps, start_generation-Step,
}
use ssle_dag.P2p.Receive.{process_bchain_block}
use ssle_dag.P2p.Schedule.Clock.{
  Clock, RoundEffect, tick, start_commitments, bucket_check_message, close_round,
}
use ssle_dag.P2p.Schedule.Round.{generate_round}
use ssle_dag.P2p.TimeSync.{process_sync_time}
use ssle_dag.P2p.Dispatch.{
  Globals, NetworkEffect, last_hash, node_of, with_node, process_message, process_network_message,
  process_command_on, schedule_round, GlobalStep, message, commitment_waits, check_waits, command,
  own_commitment, round, Reach, next,
}
use ssle_dag.P2p.Dispatch

module _ (crypto : Crypto) (is_commitment_valid : Bytes → ℕ → Outcome (Bool × PublicWitness))
    (draws : ℕ → ℕ → ℕ → ℕ) (mimc : List Bytes → Bytes) (public_key self_id : Bytes)
    (c : Settings) where
  abbrev Moves : Epochs → Epochs → Type 0
  Moves = Steps crypto.keccak256 is_commitment_valid draws c

  Steps-trans : {s m s' : Epochs} → Moves s m → Moves m s' → Moves s s'
  Steps-trans before start = before
  Steps-trans before (then_step later step) = then_step (Steps-trans before later) step

  process_message-Moves :
      (now later : ℕ) (g g' : Globals) (m : NetworkMessage) (t : Message) (effect : NetworkEffect)
      → process_message crypto is_commitment_valid draws mimc public_key self_id c now later g m t
        ≡ ok (g', effect)
      → Moves g.epochs g'.epochs
  unfolding process_message
  process_message-Moves now later g g' m bchain_init_commitment effect e =
      then_step start (initiated m (ap (λ r. r.0.epochs) (ok_injective e)))
  process_message-Moves now later g g' m bchain_commitment effect e =
      let ((s, effects), run, f) =
        >>=-eq-ok (process_commitment crypto.keccak256 is_commitment_valid c g.epochs m) _ e in
      subst (Moves g.epochs) (ap (λ r. r.0.epochs) (ok_injective f))
        (then_step start (received m effects run))
  process_message-Moves now later g g' m bchain_init_bucket_info effect e =
      let ((s, effects), run, f) =
        >>=-eq-ok
          (process_init_bucket_info crypto.keccak256 draws c (last_hash g.ledger.blockchain)
            g.bucket_info_started g.epochs)
          _ e in
      subst (Moves g.epochs) (ap (λ r. r.0.epochs) (ok_injective f)) (
        then_step start
          (bucket_info (last_hash g.ledger.blockchain) g.bucket_info_started effects run))
  process_message-Moves now later g g' m bchain_bucket_check effect e =
      let ((s, t, effects), run, f) =
        >>=-eq-ok (process_bucket_check crypto.keccak256 draws c now later g.epochs g.time_sync m) _
          e in
      subst (Moves g.epochs) (ap (λ r. r.0.epochs) (ok_injective f)) (
        process_bucket_check-Steps crypto.keccak256 is_commitment_valid draws c now later g.epochs s
          g.time_sync t m effects run)
  process_message-Moves now later g g' m bchain_sync_time effect e =
      let (_, _, f) = >>=-eq-ok (process_sync_time c g.time_sync m.extra_int) _ e in
      subst (Moves g.epochs) (ap (λ r. r.0.epochs) (ok_injective f)) start
  process_message-Moves now later g g' m bchain_block effect e =
      let (_, _, f) =
        >>=-eq-ok (process_bchain_block crypto c g.epochs g.ledger m.block_transfer) _ e in
      subst (Moves g.epochs) (ap (λ r. r.0.epochs) (ok_injective f)) start
  process_message-Moves now later g g' m pub_key_exchange effect e =
      let (_, _, f) =
        >>=-eq-ok (process_pub_key_exchange mimc public_key c g.key_exchange m.commitment) _ e in
      subst (Moves g.epochs) (ap (λ r. r.0.epochs) (ok_injective f)) start
  process_message-Moves now later g g' m ping effect e =
      subst (Moves g.epochs) (ap (λ r. r.0.epochs) (ok_injective e)) start
  process_message-Moves now later g g' m genesis_block_build effect e =
      subst (Moves g.epochs) (ap (λ r. r.0.epochs) (ok_injective e)) start
  process_message-Moves now later g g' m info effect e =
      subst (Moves g.epochs) (ap (λ r. r.0.epochs) (ok_injective e)) start
  process_message-Moves now later g g' m transaction_pack effect e =
      subst (Moves g.epochs) (ap (λ r. r.0.epochs) (ok_injective e)) start
  process_message-Moves now later g g' m node_ready effect e =
      subst (Moves g.epochs) (ap (λ r. r.0.epochs) (ok_injective e)) start

  -- The message with which the schedule starts commitments.
  abbrev init_commitment : NetworkMessage
  init_commitment = record {
    id = [];
    type = bchain_init_commitment;
    block_transfer = no_block_transfer;
    commitment = [];
    commitment_epoch_round = 0;
    extra_int = pos 0;
  }

  close_round-Moves :
      (started : Bool) (k k' : Clock) (s s' : Epochs) (effects : List RoundEffect)
      → close_round crypto.keccak256 draws c started k s ≡ ok (k', s', effects)
      → Moves s s'
  unfolding close_round start_commitments
  close_round-Moves started k k' s s' effects e =
      let begun : Epochs × List RoundEffect =
        if (tick c k).1 then start_commitments s else (s, []) in
      close begun.0 begun.1 (begin (tick c k).1) e
    where
      begin :
          (starts : Bool)
          → Moves s (
              let r : Epochs × List RoundEffect = if starts then start_commitments s else (s, []) in
              r.0)
      begin true = then_step start (
          start_generation-Step crypto.keccak256 is_commitment_valid draws c s init_commitment
            s.dev.epoch_round)
      begin false = start

      close :
          (s1 : Epochs) (logged : List RoundEffect)
          → Moves s s1
          → (let closed : Outcome (Clock × Epochs × List RoundEffect) =
                if c.epoch_size == 0
                then panic
                else if (tick c k).2
                then reshuffle crypto.keccak256 draws c s1 >>= (λ shuffled.
                  ok ((tick c k).0, shuffled, logged ++ bucket_check_message started shuffled))
                else ok ((tick c k).0, s1, logged) in
              closed ≡ ok (k', s', effects))
          → Moves s s'
      close s1 logged moved f = elim (if-either (c.epoch_size == 0) panic _ _ f) [
        | inl bad ↦ absurd (panic≢ok bad)
        | inr going ↦ elim (if-either (tick c k).2 _ _ _ going) [
          | inl ending ↦
              let (shuffled, run, g) = >>=-eq-ok (reshuffle crypto.keccak256 draws c s1) _ ending in
              subst (Moves s) (ap (λ r. r.1) (ok_injective g)) (then_step moved (retry run))
          | inr same ↦ subst (Moves s) (ap (λ r. r.1) (ok_injective same)) moved
        ]
      ]

  GlobalStep-Moves :
      (g g' : Globals)
      → GlobalStep crypto is_commitment_valid draws mimc public_key self_id c g g'
      → Moves g.epochs g'.epochs
  unfolding process_network_message process_command_on schedule_round
  GlobalStep-Moves g g' (message now later m effect e) =
      process_message-Moves now later g g' m m.type effect e
  GlobalStep-Moves g g' (commitment_waits m witness s valid waits e f) =
      subst (Moves g.epochs) (ap (λ r. r.epochs) f)
        (then_step start (stored_waiting m witness valid e))
  GlobalStep-Moves g g' (check_waits now later m s waits e f) =
      subst (Moves g.epochs) (e ∙ ap (λ r. r.epochs) f)
        (check_before_lock-Steps crypto.keccak256 is_commitment_valid draws c g.epochs m.commitment)
  GlobalStep-Moves g g' (command m effects e) =
      let (_, _, f) =
        >>=-eq-ok (process_queue_command_message crypto public_key (node_of g) m) _ e in
      subst (Moves g.epochs) (ap (λ r. r.0.epochs) (ok_injective f)) start
  GlobalStep-Moves g g' (own_commitment commitment secret secret_sig s e f) =
      subst (Moves g.epochs) (ap (λ r. r.epochs) f)
        (then_step start (own commitment secret secret_sig e))
  GlobalStep-Moves g g' (round times made effects e) =
      let ((l, made'), _, f) =
        >>=-eq-ok (generate_round crypto public_key c times _ _ _ g.ledger _ _) _ e in
      let ((k, s, logged), closed, h) =
        >>=-eq-ok (close_round crypto.keccak256 draws c g.bucket_info_started g.clock g.epochs) _
          f in
      subst (Moves g.epochs) (ap (λ r. r.0.epochs) (ok_injective h))
        (close_round-Moves g.bucket_info_started g.clock k g.epochs s logged closed)

  pub Reach-Steps :
      (g g' : Globals)
      → Reach crypto is_commitment_valid draws mimc public_key self_id c g g'
      → Steps crypto.keccak256 is_commitment_valid draws c g.epochs g'.epochs
  Reach-Steps g g' Dispatch.start = start
  Reach-Steps g g' (next {m = m} before step) =
      Steps-trans (Reach-Steps g m before) (GlobalStep-Moves m g' step)

  -- Whatever messages, commands, own commitments and rounds of the schedule follow one another: if at
  -- first every commitment of a bucket was in its map, and the maps hold each commitment under its own
  -- hash, it is so in the state that the node reaches, in all three generations.
  pub Reach-AreCovered :
      (g g' : Globals)
      → Reach crypto is_commitment_valid draws mimc public_key self_id c g g'
      → AreCovered g.epochs
      → AreCovered g'.epochs
  Reach-AreCovered g g' reached cover =
      Steps-AreCovered crypto.keccak256 is_commitment_valid draws c g.epochs g'.epochs
        (Reach-Steps g g' reached) cover
