-- ===== src/P2p/Epochs/Check/LowMatch.antt =====
-- node-implementation/p2p_communication.go: the last bucket check when too few hashes match.
use ssle_dag.Prelude.{
  ℕ, ◌≡◌, refl, subst, ◌∙◌, sym, ◌↔◌, inl, inr, List, Bool-cases, ◌>>=◌, true, false, ◌∷◌, [], ◌++◌,
  not, ◌&&◌, ◌==◌, panic, Bytes, bytes_eq, length, count_if,
}
use ssle_dag.Prelude.Int.{pos, eqb_ℤ, eqb_ℤ_refl}
use ssle_dag.Config.{Settings}
use ssle_dag.Messages.{NetworkMessage}
use ssle_dag.P2p.TimeSync.{TimeSync, is_low_match}
use ssle_dag.P2p.Epochs.{Epochs, pass_to_epoch_ready, pass_to_epoch_running}
use ssle_dag.P2p.Epochs.Check.{
  CheckEffect, publish_match, process_bucket_check, enter_hash, change_epoch, check_number,
}

-- A message that is entered: it is not of another hash for the same round, and names the length of the
-- node's own bucket.
pub record IsEntered (s : Epochs) (message : NetworkMessage) : Type 0 where
  pub same_hash :
      (s.dev.epoch_round == message.commitment_epoch_round
        && not (bytes_eq message.commitment s.dev.bucket_hash))
      ≡ false
  pub same_length : message.extra_int ≡ pos (length s.dev.commitments_bucket)

pub entered :
    (keccak256 : Bytes → Bytes) (draws : ℕ → ℕ → ℕ → ℕ) (c : Settings) (now later : ℕ) (s : Epochs)
    (t : TimeSync) (message : NetworkMessage)
    → IsEntered s message
    → process_bucket_check keccak256 draws c now later s t message
      ≡ enter_hash c now later s t message.commitment
unfolding process_bucket_check
entered keccak256 draws c now later s t message e =
    rw (e.same_hash, e.same_length, eqb_ℤ_refl (pos (length s.dev.commitments_bucket))) refl

-- The change of the epoch returns or waits.
change_epoch≢panic :
    (now later : ℕ) (s : Epochs) (t : TimeSync) (c : Settings) (effects : List CheckEffect)
    → ¬ (change_epoch now later s t >>= check_number c effects ≡ panic)
unfolding change_epoch check_number pass_to_epoch_ready pass_to_epoch_running
change_epoch≢panic now later s t c effects = elim (Bool-cases (s.dev.epoch_round == 0)) [
  | inl first ↦ elim (Bool-cases s.commitment_round_locked) [
    | inl locked ↦ rw (first, locked) cc
    | inr free ↦ rw (first, free) cc
  ]
  | inr other ↦ elim (Bool-cases (s.dev.epoch_round == 1)) [
    | inl second ↦ elim (Bool-cases s.commitment_round_locked) [
      | inl locked ↦ rw (other, second, locked) cc
      | inr free ↦ rw (other, second, free) cc
    ]
    | inr later_round ↦ elim (Bool-cases s.commitment_round_locked) [
      | inl locked ↦ rw (other, later_round, locked) cc
      | inr free ↦ rw (other, later_round, free) cc
    ]
  ]
]

-- When the hash of a message is entered as the last one that the node waits for, in whatever epoch the node
-- is: the program ends with a fatal error, for an Unlock of a mutex that is not locked, exactly when
-- fewer than half of the entered hashes are the node's own bucket hash.
pub process_bucket_check-low_match :
    (keccak256 : Bytes → Bytes) (draws : ℕ → ℕ → ℕ → ℕ) (c : Settings) (now later : ℕ) (s : Epochs)
    (t : TimeSync) (message : NetworkMessage)
    → IsEntered s message
    → pos (length (s.bucket_hashes_check ++ message.commitment ∷ [])) ≡ c.num_of_other_nodes
    → (process_bucket_check keccak256 draws c now later s t message ≡ panic) ↔ (
        is_low_match
          (count_if
            (λ found. bytes_eq found s.dev.bucket_hash)
            (s.bucket_hashes_check ++ message.commitment ∷ []))
          (length (s.bucket_hashes_check ++ message.commitment ∷ []))
        ≡ true)
unfolding enter_hash
process_bucket_check-low_match keccak256 draws c now later s t message e last =
    let hashes = s.bucket_hashes_check ++ message.commitment ∷ [] in
    let matched = count_if (λ found. bytes_eq found s.dev.bucket_hash) hashes in
    let all_there : eqb_ℤ (pos (length hashes)) c.num_of_other_nodes ≡ true =
      subst (λ z. eqb_ℤ (pos (length hashes)) z ≡ true) last (eqb_ℤ_refl (pos (length hashes))) in
    let run = entered keccak256 draws c now later s t message e in
    (
      λ ends. elim (Bool-cases (is_low_match matched (length hashes))) [
        | inl low ↦ low
        | inr high ↦ absurd (
            change_epoch≢panic now later (record s { bucket_hashes_check = hashes }) t c
              (publish_match matched ∷ []) (rw (all_there, high) at (sym run ∙ ends)))
      ],
      λ low. run ∙ rw (all_there, low) refl,
    )
