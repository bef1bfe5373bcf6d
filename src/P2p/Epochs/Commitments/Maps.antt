-- ===== src/P2p/Epochs/Commitments/Maps.antt =====
-- node-implementation/p2p_communication.go: what holds of every entry of the epochs' maps of commitments,
-- whatever steps are taken.
use ssle_dag.Prelude.{
  ℕ, ◌*◌, ◌≡◌, sym, ap, subst, Bool, true, false, inl, inr, List, Option, none, ltb, ◌==◌, Outcome,
  ok, >>=-eq-ok, ok_injective, Bytes, arith, length, All, Bool-cases,
}
use ssle_dag.Prelude.Dict.{All-insert, All-copy_into}
use ssle_dag.Config.{Settings}
use ssle_dag.Messages.{NetworkMessage, CommitmentSharedInfo, PublicWitness, no_witness}
use ssle_dag.P2p.Bucket.{random_bucket_shuffle, initialize_bucket_sort}
use ssle_dag.P2p.Epochs.{Epoch, Epochs, pass_to_epoch_ready, pass_to_epoch_running}
use ssle_dag.P2p.Epochs.Commitments.{
  Effect, store, sort_if_full, shared_info, start_generation, take_commitment, process_commitment,
  process_init_commitment, store_own, reshuffle, generate_own,
}
use ssle_dag.P2p.Epochs.Commitments.Covered.{
  IsKept, start_generation-IsKept, after_ready, pass_to_epoch_ready-ok,
}
use ssle_dag.P2p.Epochs.Commitments.Handlers.{check_round-IsKept, take_commitment-cases, stored}
use ssle_dag.P2p.Epochs.Commitments.Steps.{
  Step, received, initiated, own, retry, ready, running, bucket_info, stored_waiting, copied, noted,
  Steps, start, then_step,
}
use ssle_dag.P2p.Epochs.Check.{CheckEffect, process_init_bucket_info, enter_bucket}

module _ (P : Bytes × CommitmentSharedInfo → Type 0) where
  abbrev pub InMaps : Epochs → Type 0
  InMaps s =
      All P s.dev.commitments_bucket_map
      × All P s.rdy.commitments_bucket_map
      × All P s.run.commitments_bucket_map

  kept-InMaps : (s s' : Epochs) → IsKept s s' → InMaps s → InMaps s'
  kept-InMaps s s' (d, r, u) (hd, hr, hu) = (
    subst (λ e. All P e.commitments_bucket_map) d hd,
    subst (λ e. All P e.commitments_bucket_map) r hr,
    subst (λ e. All P e.commitments_bucket_map) u hu,
  )

  sort_if_full-maps :
      (c : Settings) (e : Epoch)
      → (sort_if_full c e).commitments_bucket_map ≡ e.commitments_bucket_map
  unfolding sort_if_full
  sort_if_full-maps c e = ground arith

  store-maps :
      (shared : CommitmentSharedInfo) (e : Epoch)
      → P (shared.hash, shared)
      → All P e.commitments_bucket_map
      → All P (store shared e).commitments_bucket_map
  unfolding store
  store-maps shared e p h = All-insert P shared.hash shared e.commitments_bucket_map p h

  pass_to_epoch_ready-InMaps :
      (s s' : Epochs) → pass_to_epoch_ready s ≡ ok s' → InMaps s → InMaps s'
  unfolding after_ready
  pass_to_epoch_ready-InMaps s s' e (hd, hr, hu) =
      kept-InMaps (after_ready s) s' (pass_to_epoch_ready-ok s s' e)
        (tt, All-copy_into P s.rdy.commitments_bucket_map s.dev.commitments_bucket_map hr hd, hu)

  pass_to_epoch_running-InMaps : (s : Epochs) → InMaps s → InMaps (pass_to_epoch_running s)
  unfolding pass_to_epoch_running
  pass_to_epoch_running-InMaps s (hd, hr, hu) =
      (hd, tt, All-copy_into P s.run.commitments_bucket_map s.rdy.commitments_bucket_map hu hr)

  module _ (keccak256 : Bytes → Bytes)
      (is_commitment_valid : Bytes → ℕ → Outcome (Bool × PublicWitness)) (draws : ℕ → ℕ → ℕ → ℕ)
      (c : Settings)
      (of_received : (commitment : Bytes) (round : ℕ) (witness : PublicWitness)
        → is_commitment_valid commitment round ≡ ok (true, witness)
        → P (
          (shared_info keccak256 commitment witness).hash,
          shared_info keccak256 commitment witness,
        ))
      (of_own : (commitment : Bytes)
        → P (
          (shared_info keccak256 commitment no_witness).hash,
          shared_info keccak256 commitment no_witness,
        )) where
    stored-InMaps :
        (s : Epochs) (message : NetworkMessage) (witness : PublicWitness)
        → is_commitment_valid message.commitment s.dev.epoch_round ≡ ok (true, witness)
        → InMaps s
        → InMaps (stored keccak256 is_commitment_valid draws c s message witness)
    unfolding stored
    stored-InMaps s message witness valid (hd, hr, hu) =
        let shared = shared_info keccak256 message.commitment witness in
        (
          subst (All P) (sym (sort_if_full-maps c (store shared s.dev))) (
              store-maps shared s.dev
                (of_received message.commitment s.dev.epoch_round witness valid) hd),
          hr,
          hu,
        )

    take_commitment-InMaps :
        (s s' : Epochs) (message : NetworkMessage) (valid : Bool) (witness : PublicWitness)
        (effects : List Effect)
        → is_commitment_valid message.commitment s.dev.epoch_round ≡ ok (valid, witness)
        → take_commitment keccak256 c s message (valid, witness) ≡ ok (s', effects)
        → InMaps s
        → InMaps s'
    unfolding take_commitment
    take_commitment-InMaps s s' message false witness effects checked e h =
        subst InMaps (ap (λ r. r.0) (ok_injective e)) h
    take_commitment-InMaps s s' message true witness effects checked e h =
        elim (take_commitment-cases keccak256 is_commitment_valid draws c s s' message true witness
          effects e) [
            | inl kept ↦ kept-InMaps s s' kept h
            | inr round_checked ↦
                kept-InMaps (stored keccak256 is_commitment_valid draws c s message witness) s'
                  (check_round-IsKept keccak256 is_commitment_valid draws c
                    (stored keccak256 is_commitment_valid draws c s message witness) s' message
                    witness effects round_checked)
                  (stored-InMaps s message witness checked h)
          ]

    process_commitment-InMaps :
        (s s' : Epochs) (message : NetworkMessage) (effects : List Effect)
        → process_commitment keccak256 is_commitment_valid c s message ≡ ok (s', effects)
        → InMaps s
        → InMaps s'
    unfolding process_commitment
    process_commitment-InMaps s s' message effects e h =
        let (answer, checked, taken) =
          >>=-eq-ok (is_commitment_valid message.commitment s.dev.epoch_round) _ e in
        take_commitment-InMaps s s' message answer.0 answer.1 effects checked taken h

    reshuffle-InMaps :
        (s s' : Epochs) → reshuffle keccak256 draws c s ≡ ok s' → InMaps s → InMaps s'
    unfolding reshuffle
    reshuffle-InMaps s s' e h =
        let (bucket, shuffled, f) =
          >>=-eq-ok (random_bucket_shuffle draws c none false s.dev.commitments_bucket) _ e in
        subst InMaps (ok_injective f) h

    generate_own-InMaps :
        (s s' : Epochs) (commitment secret secret_sig : Bytes)
        → generate_own keccak256 draws c s commitment secret secret_sig ≡ ok s'
        → InMaps s
        → InMaps s'
    unfolding generate_own store_own
    generate_own-InMaps s s' commitment secret secret_sig e (hd, hr, hu) =
        let s1 = store_own keccak256 s commitment secret secret_sig in
        let h1 : InMaps s1 = (
          store-maps (shared_info keccak256 commitment no_witness) _ (of_own commitment) hd,
          hr,
          hu,
        ) in
        elim (Bool-cases
          (length s1.dev.commitments_bucket == c.max_commitment_var * c.num_of_nodes)) [
            | inl full ↦ reshuffle-InMaps s1 s' (ground arith) h1
            | inr partial ↦ let same : s1 ≡ s' = ground arith in subst InMaps same h1
          ]

    process_init_bucket_info-InMaps :
        (s s' : Epochs) (last_hash : Option Bytes) (started : Bool) (effects : List CheckEffect)
        → process_init_bucket_info keccak256 draws c last_hash started s ≡ ok (s', effects)
        → InMaps s
        → InMaps s'
    unfolding process_init_bucket_info enter_bucket
    process_init_bucket_info-InMaps s s' last_hash started effects e h =
        elim (Bool-cases (ltb s.dev.epoch_round 2)) [
          | inl early ↦
              let (bucket, shuffled, f) =
                >>=-eq-ok
                  (random_bucket_shuffle draws c last_hash true
                    (initialize_bucket_sort s.dev.commitments_bucket))
                  _ (rw early at e) in
              subst InMaps (ap (λ r. r.0) (ok_injective f)) h
          | inr later ↦ subst InMaps (ap (λ r. r.0) (ok_injective (rw later at e))) h
        ]

    Step-InMaps :
        (s s' : Epochs) → Step keccak256 is_commitment_valid draws c s s' → InMaps s → InMaps s'
    unfolding process_init_commitment stored
    Step-InMaps s s' (received message effects e) h =
        process_commitment-InMaps s s' message effects e h
    Step-InMaps s s' (initiated message e) h = subst InMaps e (
        kept-InMaps s (start_generation s message.commitment_epoch_round).0
          (start_generation-IsKept s message.commitment_epoch_round) h)
    Step-InMaps s s' (own content secret secret_sig e) h =
        generate_own-InMaps s s' content secret secret_sig e h
    Step-InMaps s s' (retry e) h = reshuffle-InMaps s s' e h
    Step-InMaps s s' (ready e) h = pass_to_epoch_ready-InMaps s s' e h
    Step-InMaps s s' (running e) h = subst InMaps e (pass_to_epoch_running-InMaps s h)
    Step-InMaps s s' (bucket_info last_hash started effects e) h =
        process_init_bucket_info-InMaps s s' last_hash started effects e h
    Step-InMaps s s' (stored_waiting message witness valid e) h =
        subst InMaps e (stored-InMaps s message witness valid h)
    Step-InMaps s s' (copied e) (hd, hr, hu) =
        subst InMaps e
          (hd, All-copy_into P s.rdy.commitments_bucket_map s.dev.commitments_bucket_map hr hd, hu)
    Step-InMaps s s' (noted hashes e) h = subst InMaps e h

    -- What holds of the entry of each accepted and of each own commitment holds of every entry of the
    -- maps, in every state that is reached from one in which it does.
    pub Steps-InMaps :
        (s s' : Epochs) → Steps keccak256 is_commitment_valid draws c s s' → InMaps s → InMaps s'
    Steps-InMaps s s' start h = h
    Steps-InMaps s s' (then_step {m = m} before step) h =
        Step-InMaps m s' step (Steps-InMaps s m before h)
