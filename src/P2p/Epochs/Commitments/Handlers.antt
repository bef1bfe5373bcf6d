-- ===== src/P2p/Epochs/Commitments/Handlers.antt =====
-- node-implementation/p2p_communication.go: each handler that changes the epochs' variables leaves them
-- covered.
use ssle_dag.Prelude.{
  ℕ, ◌*◌, ◌≡◌, subst, Bool, true, false, ◌⊎◌, inl, inr, List, Option, none, ◌==◌, Outcome, ok,
  >>=-eq-ok, ok_injective, ap, Bytes, arith, length, ltb, Bool-cases,
}
use ssle_dag.Config.{Settings}
use ssle_dag.Messages.{NetworkMessage, PublicWitness, no_witness}
use ssle_dag.P2p.History.{history_loop}
use ssle_dag.P2p.Bucket.{random_bucket_shuffle, sort_strings, initialize_bucket_sort}
use ssle_dag.P2p.Bucket.Members.{
  In-sort_strings, In-random_bucket_shuffle, In-random_bucket_shuffle_init,
}
use ssle_dag.P2p.Epochs.{Epochs}
use ssle_dag.P2p.Epochs.Commitments.{
  Effect, store, sort_if_full, shared_info, check_round, process_commitment, take_commitment,
  store_own, reshuffle, generate_own,
}
use ssle_dag.P2p.Epochs.Check.{CheckEffect, process_init_bucket_info, enter_bucket}
use ssle_dag.P2p.Epochs.Commitments.Covered.{
  AreCovered, store-IsCovered, sort_if_full-IsCovered, IsKept, kept-AreCovered,
  start_generation-IsKept, with_dev,
}

module _ (keccak256 : Bytes → Bytes)
    (is_commitment_valid : Bytes → ℕ → Outcome (Bool × PublicWitness)) (draws : ℕ → ℕ → ℕ → ℕ)
    (c : Settings) where
  pub check_round-IsKept :
      (s s' : Epochs) (message : NetworkMessage) (witness : PublicWitness) (effects : List Effect)
      → check_round s message witness ≡ ok (s', effects)
      → IsKept s s'
  unfolding check_round
  check_round-IsKept s s' message witness effects e =
      let (d, r, u) = start_generation-IsKept s message.commitment_epoch_round in
      (ground arith, ground arith, ground arith)

  -- The state in which check_round is called.
  unfoldable pub stored : Epochs → NetworkMessage → PublicWitness → Epochs
  stored s message witness = record s {
    dev = sort_if_full c (store (shared_info keccak256 message.commitment witness) s.dev);
  }

  pub take_commitment-cases :
      (s s' : Epochs) (message : NetworkMessage) (valid : Bool) (witness : PublicWitness)
      (effects : List Effect)
      → take_commitment keccak256 c s message (valid, witness) ≡ ok (s', effects)
      → IsKept s s' ⊎ (check_round (stored s message witness) message witness ≡ ok (s', effects))
  unfolding take_commitment stored
  take_commitment-cases s s' message false witness effects e =
      inl (ground arith, ground arith, ground arith)
  take_commitment-cases s s' message true witness effects e =
      elim (Bool-cases (
        history_loop s.dev.commitments_bucket
          (shared_info keccak256 message.commitment witness).hash
          (length s.dev.commitments_bucket))) [
            | inl known ↦ inl (ground arith, ground arith, ground arith)
            | inr fresh ↦ inr (ground arith)
          ]

  pub process_commitment-AreCovered :
      (s s' : Epochs) (message : NetworkMessage) (effects : List Effect)
      → process_commitment keccak256 is_commitment_valid c s message ≡ ok (s', effects)
      → AreCovered s
      → AreCovered s'
  unfolding stored process_commitment
  process_commitment-AreCovered s s' message effects e cover =
      let ((valid, witness), checked, taken) =
        >>=-eq-ok (is_commitment_valid message.commitment s.dev.epoch_round) _ e in
      elim (take_commitment-cases s s' message valid witness effects taken) [
        | inl kept ↦ kept-AreCovered s s' kept cover
        | inr stored_first ↦
            kept-AreCovered (stored s message witness) s'
              (check_round-IsKept (stored s message witness) s' message witness effects
                stored_first)
              (with_dev s _ cover
                (sort_if_full-IsCovered c _ (store-IsCovered _ s.dev cover.dev_IsCovered)))
      ]

  pub reshuffle-AreCovered :
      (s s' : Epochs) → reshuffle keccak256 draws c s ≡ ok s' → AreCovered s → AreCovered s'
  unfolding reshuffle
  reshuffle-AreCovered s s' e cover =
      let (bucket, shuffled, f) =
        >>=-eq-ok (random_bucket_shuffle draws c none false s.dev.commitments_bucket) _ e in
      subst AreCovered (ok_injective f) (
        with_dev s _ cover record {
          known = λ h m.
              cover.dev_IsCovered.known h (
                In-random_bucket_shuffle draws c none s.dev.commitments_bucket bucket h shuffled m);
          keyed = cover.dev_IsCovered.keyed;
        })

  store_own-AreCovered :
      (s : Epochs) (commitment secret secret_sig : Bytes)
      → AreCovered s
      → AreCovered (store_own keccak256 s commitment secret secret_sig)
  unfolding store_own
  store_own-AreCovered s commitment secret secret_sig cover = with_dev s _ cover (
      store-IsCovered (shared_info keccak256 commitment no_witness) _
        record { known = cover.dev_IsCovered.known; keyed = cover.dev_IsCovered.keyed })

  pub generate_own-AreCovered :
      (s s' : Epochs) (commitment secret secret_sig : Bytes)
      → generate_own keccak256 draws c s commitment secret secret_sig ≡ ok s'
      → AreCovered s
      → AreCovered s'
  unfolding generate_own
  generate_own-AreCovered s s' commitment secret secret_sig e cover =
      let s1 = store_own keccak256 s commitment secret secret_sig in
      let cover1 : AreCovered s1 = store_own-AreCovered s commitment secret secret_sig cover in
      elim (Bool-cases
        (length s1.dev.commitments_bucket == c.max_commitment_var * c.num_of_nodes)) [
          | inl full ↦ reshuffle-AreCovered s1 s' (ground arith) cover1
          | inr partial ↦ subst AreCovered (ground arith) cover1
        ]

  -- The handler that prepares the first two epochs puts the bucket in another order.
  pub process_init_bucket_info-AreCovered :
      (s s' : Epochs) (last_hash : Option Bytes) (started : Bool) (effects : List CheckEffect)
      → process_init_bucket_info keccak256 draws c last_hash started s ≡ ok (s', effects)
      → AreCovered s
      → AreCovered s'
  unfolding process_init_bucket_info enter_bucket initialize_bucket_sort
  process_init_bucket_info-AreCovered s s' last_hash started effects e cover =
      elim (Bool-cases (ltb s.dev.epoch_round 2)) [
        | inl early ↦
            let (bucket, shuffled, f) =
              >>=-eq-ok
                (random_bucket_shuffle draws c last_hash true
                  (sort_strings s.dev.commitments_bucket))
                _ (rw early at e) in
            subst AreCovered (ap (λ r. r.0) (ok_injective f)) (
              with_dev s _ cover record {
                known = λ h m. cover.dev_IsCovered.known h (
                    In-sort_strings s.dev.commitments_bucket h (
                      In-random_bucket_shuffle_init draws c last_hash
                        (sort_strings s.dev.commitments_bucket) bucket h shuffled m));
                keyed = cover.dev_IsCovered.keyed;
              })
        | inr later ↦ subst AreCovered (ap (λ r. r.0) (ok_injective (rw later at e))) (
            with_dev s _ cover record {
              known =
                  λ h m. cover.dev_IsCovered.known h (In-sort_strings s.dev.commitments_bucket h m);
              keyed = cover.dev_IsCovered.keyed;
            })
      ]
