-- ===== src/P2p/Epochs/Commitments/Steps.antt =====
-- node-implementation/p2p_communication.go: the steps that change the epochs' variables, in any order,
-- and what holds in every state that they reach.
use ssle_dag.Prelude.{ℕ, ◌≡◌, refl, subst, Bool, true, List, Option, Outcome, ok, Bytes}
use ssle_dag.Config.{Settings}
use ssle_dag.Messages.{NetworkMessage, PublicWitness}
use ssle_dag.P2p.Epochs.{Epochs, copy_to_ready, pass_to_epoch_ready, pass_to_epoch_running}
use ssle_dag.P2p.Epochs.Commitments.{
  Effect, store_received, process_commitment, process_init_commitment, reshuffle, generate_own,
}
use ssle_dag.P2p.Epochs.Commitments.Covered.{
  AreCovered, with_dev, sort_if_full-IsCovered, store-IsCovered, copy_to_ready-AreCovered,
  kept-AreCovered, start_generation-IsKept, pass_to_epoch_ready-AreCovered,
  pass_to_epoch_running-AreCovered,
}
use ssle_dag.P2p.Epochs.Commitments.Handlers.{
  process_commitment-AreCovered, reshuffle-AreCovered, generate_own-AreCovered,
  process_init_bucket_info-AreCovered,
}
use ssle_dag.P2p.Epochs.Check.{CheckEffect, process_init_bucket_info}

module _ (keccak256 : Bytes → Bytes)
    (is_commitment_valid : Bytes → ℕ → Outcome (Bool × PublicWitness)) (draws : ℕ → ℕ → ℕ → ℕ)
    (c : Settings) where
  -- One handler's change of the variables, whichever node or timer caused it; stored_waiting and copied are
  -- those that a handler has made when it waits for commitmentRoundMutex.
  pub data Step (s s' : Epochs) : Type 0 where
    received :
        (message : NetworkMessage) (effects : List Effect)
        → process_commitment keccak256 is_commitment_valid c s message ≡ ok (s', effects)
        → Step s s'
    initiated : (message : NetworkMessage) → (process_init_commitment s message).0 ≡ s' → Step s s'
    own :
        (commitment secret secret_sig : Bytes)
        → generate_own keccak256 draws c s commitment secret secret_sig ≡ ok s'
        → Step s s'
    retry : reshuffle keccak256 draws c s ≡ ok s' → Step s s'
    ready : pass_to_epoch_ready s ≡ ok s' → Step s s'
    running : pass_to_epoch_running s ≡ s' → Step s s'
    bucket_info :
        (last_hash : Option Bytes) (started : Bool) (effects : List CheckEffect)
        → process_init_bucket_info keccak256 draws c last_hash started s ≡ ok (s', effects)
        → Step s s'
    stored_waiting :
        (message : NetworkMessage) (witness : PublicWitness)
        → is_commitment_valid message.commitment s.dev.epoch_round ≡ ok (true, witness)
        → store_received keccak256 c s message witness ≡ s'
        → Step s s'
    copied : copy_to_ready s ≡ s' → Step s s'
    noted : (hashes : List Bytes) → record s { bucket_hashes_check = hashes } ≡ s' → Step s s'

  pub data Steps (s : Epochs) : Epochs → Type 0 where
    start : Steps s s
    then_step : {m s' : Epochs} → Steps s m → Step m s' → Steps s s'

  Step-AreCovered : (s s' : Epochs) → Step s s' → AreCovered s → AreCovered s'
  unfolding process_init_commitment
  Step-AreCovered s s' (received message effects e) cover =
      process_commitment-AreCovered keccak256 is_commitment_valid draws c s s' message effects e
        cover
  Step-AreCovered s s' (initiated message e) cover =
      subst AreCovered e
        (kept-AreCovered s _ (start_generation-IsKept s message.commitment_epoch_round) cover)
  Step-AreCovered s s' (own content secret secret_sig e) cover =
      generate_own-AreCovered keccak256 is_commitment_valid draws c s s' content secret secret_sig e
        cover
  Step-AreCovered s s' (retry e) cover =
      reshuffle-AreCovered keccak256 is_commitment_valid draws c s s' e cover
  Step-AreCovered s s' (ready e) cover = pass_to_epoch_ready-AreCovered s s' e cover
  Step-AreCovered s s' (running e) cover =
      subst AreCovered e (pass_to_epoch_running-AreCovered s cover)
  Step-AreCovered s s' (bucket_info last_hash started effects e) cover =
      process_init_bucket_info-AreCovered keccak256 is_commitment_valid draws c s s' last_hash
        started effects e cover
  Step-AreCovered s s' (stored_waiting message witness valid e) cover = subst AreCovered e (
      with_dev s _ cover (sort_if_full-IsCovered c _ (store-IsCovered _ s.dev cover.dev_IsCovered)))
  Step-AreCovered s s' (copied e) cover = subst AreCovered e (copy_to_ready-AreCovered s cover)
  Step-AreCovered s s' (noted hashes e) cover =
      subst AreCovered e (kept-AreCovered s _ (refl, refl, refl) cover)

  -- In every state that the handlers reach, in any order, from a state whose three generations are
  -- covered: each commitment hash in a bucket of a generation is a key of that generation's map,
  -- and every entry of the maps carries its key as its hash. So a block whose commitment is in the
  -- running bucket always finds the shared information of exactly that commitment.
  pub Steps-AreCovered : (s s' : Epochs) → Steps s s' → AreCovered s → AreCovered s'
  Steps-AreCovered s s' start cover = cover
  Steps-AreCovered s s' (then_step {m = m} before step) cover =
      Step-AreCovered m s' step (Steps-AreCovered s m before cover)
