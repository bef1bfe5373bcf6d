-- ===== src/P2p/Epochs/Commitments/Lock.antt =====
-- node-implementation/p2p_communication.go: commitmentRoundMutex after a commitment of another round.
use ssle_dag.Prelude.{
  ℕ, ◌≡◌, ◌≢◌, refl, Bool, true, false, [], Outcome, ◌∷◌, ◌==◌, ok, blocked, Bytes, arith, length,
  List, ◌++◌, ◌*◌, some, In, here, there, Bool-cases, inl, inr, ◌∙◌,
}
use ssle_dag.Config.{Settings}
use ssle_dag.Messages.{CommitmentSharedInfo, NetworkMessage, PublicWitness}
use ssle_dag.Prelude.Dict.{lookup, lookup-insert_self}
use ssle_dag.P2p.Bucket.Members.{sort_strings-In}
use ssle_dag.P2p.History.{history_loop}
use ssle_dag.P2p.Epochs.{Epoch, Epochs, pass_to_epoch_ready}
use ssle_dag.P2p.Epochs.Commitments.{
  log_wrong_epoch_round, check_round, shared_info, process_commitment, take_commitment, store,
  sort_if_full,
}

-- A valid commitment, with its public witness, that is not yet in the bucket.
abbrev IsNews :
    (Bytes → Bytes)
    → (Bytes → ℕ → Outcome (Bool × PublicWitness))
    → Epochs
    → NetworkMessage
    → PublicWitness
    → Type 0
IsNews keccak256 is_commitment_valid s message witness =
    (is_commitment_valid message.commitment s.dev.epoch_round ≡ ok (true, witness))
    × (history_loop s.dev.commitments_bucket (shared_info keccak256 message.commitment witness).hash
          (length s.dev.commitments_bucket)
        ≡ false)

news-check_round :
    (keccak256 : Bytes → Bytes) (is_commitment_valid : Bytes → ℕ → Outcome (Bool × PublicWitness))
    (c : Settings) (s : Epochs) (message : NetworkMessage) (witness : PublicWitness)
    → IsNews keccak256 is_commitment_valid s message witness
    → process_commitment keccak256 is_commitment_valid c s message
      ≡ check_round
          (record s {
            dev = sort_if_full c (store (shared_info keccak256 message.commitment witness) s.dev);
          })
          message
          witness
unfolding process_commitment take_commitment
news-check_round keccak256 is_commitment_valid c s message witness (valid, fresh) =
    rw (valid, fresh) refl

sort_if_full-store :
    (c : Settings) (shared : CommitmentSharedInfo) (e : Epoch)
    → (sort_if_full c (store shared e)).epoch_round ≡ e.epoch_round
unfolding sort_if_full store
sort_if_full-store c shared e = ground arith

In-snoc_last : (x : Bytes) (l : List Bytes) → In x (l ++ x ∷ [])
In-snoc_last x [] = here refl
In-snoc_last x (y ∷ l) = there (In-snoc_last x l)

stored-bucket :
    (c : Settings) (shared : CommitmentSharedInfo) (e : Epoch)
    → In shared.hash (sort_if_full c (store shared e)).commitments_bucket
unfolding sort_if_full store
stored-bucket c shared e =
    let at_end = In-snoc_last shared.hash e.commitments_bucket in
    elim (Bool-cases
      (length (store shared e).commitments_bucket == c.max_commitment_var * c.num_of_nodes)) [
        | inl full ↦
            rw full (sort_strings-In shared.hash (e.commitments_bucket ++ shared.hash ∷ []) at_end)
        | inr partial ↦ rw partial at_end
      ]

stored-map :
    (c : Settings) (shared : CommitmentSharedInfo) (e : Epoch)
    → lookup shared.hash (sort_if_full c (store shared e)).commitments_bucket_map ≡ some shared
unfolding sort_if_full store
stored-map c shared e =
    let found = lookup-insert_self shared.hash shared e.commitments_bucket_map in
    elim (Bool-cases
      (length (store shared e).commitments_bucket == c.max_commitment_var * c.num_of_nodes)) [
        | inl full ↦ rw full found
        | inr partial ↦ rw partial found
      ]

-- A valid commitment that is not in the bucket yet but names another epoch round is stored all the
-- same, in the bucket and with its witness in the map, and its handler returns with commitmentRoundMutex locked: in the state that it leaves, the
-- epoch in preparation can no longer be passed on, since passToEpochReady blocks on the mutex.
pub process_commitment-wrong_round :
    (keccak256 : Bytes → Bytes) (is_commitment_valid : Bytes → ℕ → Outcome (Bool × PublicWitness))
    (c : Settings) (s : Epochs) (message : NetworkMessage) (witness : PublicWitness)
    → IsNews keccak256 is_commitment_valid s message witness
    → s.commitment_round_locked ≡ false
    → message.commitment_epoch_round ≢ s.dev.epoch_round
    → (s' : Epochs) × (process_commitment keccak256 is_commitment_valid c s message
        ≡ ok (s', log_wrong_epoch_round ∷ []))
      × In (shared_info keccak256 message.commitment witness).hash s'.dev.commitments_bucket
      × (lookup
            (shared_info keccak256 message.commitment witness).hash
            s'.dev.commitments_bucket_map
          ≡ some (shared_info keccak256 message.commitment witness))
      × (s'.commitment_round_locked ≡ true)
      × (pass_to_epoch_ready s' ≡ blocked)
unfolding check_round pass_to_epoch_ready
process_commitment-wrong_round keccak256 is_commitment_valid c s message witness news unlocked
      wrong =
    let shared = shared_info keccak256 message.commitment witness in
    let other : (message.commitment_epoch_round
          == (sort_if_full c (store shared s.dev)).epoch_round)
        ≡ false =
      rw (sort_if_full-store c shared s.dev) (ground arith) in
    (
      record s { dev = sort_if_full c (store shared s.dev); commitment_round_locked = true },
      news-check_round keccak256 is_commitment_valid c s message witness news
          ∙ rw (unlocked, other) refl,
      stored-bucket c shared s.dev,
      stored-map c shared s.dev,
      refl,
      refl,
    )

-- While commitmentRoundMutex stays locked, every valid commitment that is not in the bucket yet blocks
-- its handler, whichever epoch round it names.
pub process_commitment-locked :
    (keccak256 : Bytes → Bytes) (is_commitment_valid : Bytes → ℕ → Outcome (Bool × PublicWitness))
    (c : Settings) (s : Epochs) (message : NetworkMessage) (witness : PublicWitness)
    → IsNews keccak256 is_commitment_valid s message witness
    → s.commitment_round_locked ≡ true
    → process_commitment keccak256 is_commitment_valid c s message ≡ blocked
unfolding check_round
process_commitment-locked keccak256 is_commitment_valid c s message witness news locked =
    news-check_round keccak256 is_commitment_valid c s message witness news ∙ rw locked refl
