-- ===== src/P2p/Epochs/Check/Moves.antt =====
-- node-implementation/p2p_communication.go: the handler of BCHAIN_BUCKET_CHECK as a sequence of the steps
-- that change the epochs' variables.
use ssle_dag.Prelude.{
  ℕ, ◌≡◌, refl, ap, ◌∙◌, subst, Bool, true, false, ◌&&◌, not, inl, inr, List, [], ◌∷◌, ◌++◌, ◌==◌,
  Outcome, ok, panic≢ok, if◌then◌else◌, >>=-eq-ok, ok_injective, if-either, Bytes, bytes_eq, length,
  count_if, Bool-cases,
}
use ssle_dag.Prelude.Int.{pos, eqb_ℤ}
use ssle_dag.Config.{Settings}
use ssle_dag.Messages.{NetworkMessage, PublicWitness}
use ssle_dag.P2p.TimeSync.{TimeSync, is_low_match}
use ssle_dag.P2p.Epochs.{Epochs, copy_to_ready, pass_to_epoch_ready, pass_to_epoch_running}
use ssle_dag.P2p.Epochs.Commitments.{start_generation, process_init_commitment, reshuffle}
use ssle_dag.P2p.Epochs.Commitments.Steps.{
  Step, initiated, retry, ready, running, copied, noted, Steps, start, then_step,
}
use ssle_dag.P2p.Epochs.Check.{
  CheckEffect, check_before_lock, change_epoch, check_number, enter_hash, process_bucket_check,
}

module _ (keccak256 : Bytes → Bytes)
    (is_commitment_valid : Bytes → ℕ → Outcome (Bool × PublicWitness)) (draws : ℕ → ℕ → ℕ → ℕ)
    (c : Settings) where
  abbrev Moves : Epochs → Epochs → Type 0
  Moves = Steps keccak256 is_commitment_valid draws c

  -- A generation that is started goes by the round alone.
  pub start_generation-Step :
      (s : Epochs) (message : NetworkMessage) (round : ℕ)
      → Step keccak256 is_commitment_valid draws c s (start_generation s round).0
  unfolding process_init_commitment
  start_generation-Step s message round =
      initiated (record message { commitment_epoch_round = round }) refl

  change_epoch-Moves :
      (now later : ℕ) (s s1 s' : Epochs) (t t' : TimeSync) (message : NetworkMessage)
      (effects : List CheckEffect)
      → change_epoch now later s1 t ≡ ok (s', t', effects)
      → Moves s s1
      → Moves s s'
  unfolding change_epoch
  change_epoch-Moves now later s s1 s' t t' message effects e moves =
      elim (Bool-cases (s1.dev.epoch_round == 0)) [
        | inl first ↦
            let (s2, passed, f) = >>=-eq-ok (pass_to_epoch_ready s1) _ (rw first at e) in
            subst (Moves s) (ap (λ r. r.0) (ok_injective f)) (
              then_step (then_step moves (ready passed))
                (start_generation-Step s2 message s2.dev.epoch_round))
        | inr other ↦ elim (Bool-cases (s1.dev.epoch_round == 1)) [
          | inl second ↦
              let (s2, passed, f) =
                >>=-eq-ok (pass_to_epoch_ready (pass_to_epoch_running s1)) _
                  (rw (other, second) at e) in
              subst (Moves s) (ap (λ r. r.0) (ok_injective f))
                (then_step (then_step moves (running refl)) (ready passed))
          | inr later_round ↦
              let (s2, passed, f) =
                >>=-eq-ok (pass_to_epoch_ready (pass_to_epoch_running s1)) _
                  (rw (other, later_round) at e) in
              subst (Moves s) (ap (λ r. r.0) (ok_injective f))
                (then_step (then_step moves (running refl)) (ready passed))
        ]
      ]

  check_number-epochs :
      (effects more : List CheckEffect) (s s' : Epochs) (t t' : TimeSync)
      (logged : List CheckEffect)
      → check_number c effects (s, t, more) ≡ ok (s', t', logged)
      → s ≡ s'
  unfolding check_number
  check_number-epochs effects more s s' t t' logged e = ap (λ r. r.0) (ok_injective e)

  enter_hash-Moves :
      (now later : ℕ) (s s' : Epochs) (t t' : TimeSync) (message : NetworkMessage) (hash : Bytes)
      (effects : List CheckEffect)
      → enter_hash c now later s t hash ≡ ok (s', t', effects)
      → Moves s s'
  unfolding enter_hash
  enter_hash-Moves now later s s' t t' message hash effects e =
      let hashes = s.bucket_hashes_check ++ hash ∷ [] in
      let s1 : Epochs = record s { bucket_hashes_check = hashes } in
      let moved : Moves s s1 = then_step start (noted hashes refl) in
      elim (if-either (eqb_ℤ (pos (length hashes)) c.num_of_other_nodes) _ _ _ e) [
        | inl last ↦
            elim (Bool-cases (
              is_low_match (count_if (λ found. bytes_eq found s.dev.bucket_hash) hashes)
                (length hashes))) [
                  | inl low ↦ absurd (panic≢ok (rw low at last))
                  | inr high ↦
                      let matched = rw high at last in
                      let ((s2, t2, more), changed, f) =
                        >>=-eq-ok (change_epoch now later s1 t) _ matched in
                      change_epoch-Moves now later s s1 s' t t2 message more
                        (changed
                          ∙ ap (λ x. ok (x, t2, more))
                              (check_number-epochs _ more s2 s' t2 t' effects f))
                        moved
                ]
        | inr waiting ↦ subst (Moves s) (check_number-epochs [] [] s1 s' t t' effects waiting) moved
      ]

  pub check_before_lock-Steps :
      (s : Epochs) (hash : Bytes)
      → Steps keccak256 is_commitment_valid draws c s (check_before_lock s hash)
  check_before_lock-Steps s hash =
      let s1 : Epochs = record s { bucket_hashes_check = s.bucket_hashes_check ++ hash ∷ [] } in
      let moved : Moves s s1 = then_step start (noted (s.bucket_hashes_check ++ hash ∷ []) refl) in
      written (s.dev.epoch_round == 0) s1 moved
    where
      written :
          (first : Bool) (s1 : Epochs)
          → Moves s s1
          → Moves s (if first then copy_to_ready s1 else copy_to_ready (pass_to_epoch_running s1))
      written true s1 moved = then_step moved (copied refl)
      written false s1 moved = then_step (then_step moved (running refl)) (copied refl)

  pub process_bucket_check-Steps :
      (now later : ℕ) (s s' : Epochs) (t t' : TimeSync) (message : NetworkMessage)
      (effects : List CheckEffect)
      → process_bucket_check keccak256 draws c now later s t message ≡ ok (s', t', effects)
      → Steps keccak256 is_commitment_valid draws c s s'
  unfolding process_bucket_check
  process_bucket_check-Steps now later s s' t t' message effects e =
      elim (if-either
        (s.dev.epoch_round == message.commitment_epoch_round
          && not (bytes_eq message.commitment s.dev.bucket_hash))
        _ _ _ e) [
          | inl other ↦
              let (s1, shuffled, f) = >>=-eq-ok (reshuffle keccak256 draws c s) _ other in
              then_step start (retry (shuffled ∙ ap (λ r. ok r.0) (ok_injective f)))
          | inr same ↦
              elim (if-either (eqb_ℤ message.extra_int (pos (length s.dev.commitments_bucket))) _ _
                _ same) [
                  | inl entered ↦
                      enter_hash-Moves now later s s' t t' message message.commitment effects
                        entered
                  | inr length_differs ↦
                      subst (Moves s) (ap (λ r. r.0) (ok_injective length_differs)) start
                ]
        ]
