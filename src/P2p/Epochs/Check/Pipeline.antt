-- ===== src/P2p/Epochs/Check/Pipeline.antt =====
-- node-implementation/p2p_communication.go: what the epochs are for the rest of the program, a pipeline of
-- three generations of commitments that a bucket check moves on by one.
use ssle_dag.Prelude.{
  ℕ, ◌+◌, ◌^◌, ◌<◌, ◌≡◌, ◌≢◌, refl, subst, ◌∙◌, ap, sym, Bool-cases, inl, inr, true, false, ◌∷◌, [],
  ◌++◌, List, ◌==◌, Outcome, ok, Bytes, bytes_eq, length, count_if, arith, if◌then◌else◌,
}
use native.Mathlib.Decide.{ℕ_discrete}
use ssle_dag.Prelude.Int.{pos, eqb_ℤ, ltb_ℤ, eqb_ℤ_refl}
use ssle_dag.Config.{Settings}
use ssle_dag.Messages.{NetworkMessage, CommitmentInfo}
use ssle_dag.P2p.TimeSync.{TimeSync, is_low_match}
use ssle_dag.P2p.Epochs.{Epoch, Epochs, pass_to_epoch_ready, pass_to_epoch_running}
use ssle_dag.P2p.Epochs.Commitments.{start_generation}
use ssle_dag.P2p.Epochs.Commitments.Covered.{start_generation-IsKept, after_ready, IsKept}
use ssle_dag.P2p.Epochs.Check.{
  CheckEffect, process_bucket_check, enter_hash, change_epoch, check_number, started, publish_match,
  log_too_many, propose_time,
}
use ssle_dag.P2p.Epochs.Check.LowMatch.{IsEntered, entered}

-- One generation: the node's own commitments, the shuffled bucket, its hash, and the own slots.
pub record Generation : Type 0 where
  pub submitted : List CommitmentInfo
  pub bucket : List Bytes
  pub hash : Bytes
  pub positions : List ℕ

abbrev pub no_generation : Generation
no_generation = record { submitted = []; bucket = []; hash = []; positions = [] }

pub record Pipeline : Type 0 where
  pub preparing : Generation
  pub ready : Generation
  pub running : Generation

-- The abstract step.
abbrev pub advance : Pipeline → Pipeline
advance p = record { preparing = no_generation; ready = p.preparing; running = p.ready }

-- What an epoch's variables stand for.
abbrev pub generation : Epoch → Generation
generation e = record {
  submitted = e.submitted_commitments;
  bucket = e.commitments_bucket;
  hash = e.bucket_hash;
  positions = e.bucket_positions;
}

abbrev pub pipeline : Epochs → Pipeline
pipeline s = record {
  preparing = generation s.dev;
  ready = generation s.rdy;
  running = generation s.run;
}

-- In round 0 nothing is ready or running yet.
abbrev pub IsStarted : Epochs → Type 0
IsStarted s =
    s.dev.epoch_round ≡ 0 → (generation s.rdy ≡ no_generation) × (generation s.run ≡ no_generation)

pass_to_epoch_ready-advances :
    (s : Epochs)
    → s.commitment_round_locked ≡ false
    → s.dev.epoch_round + 1 < 2 ^ 32
    → (s' : Epochs) × (pass_to_epoch_ready s ≡ ok s')
      × (pipeline s' ≡ record {
        preparing = no_generation;
        ready = generation s.dev;
        running = generation s.run;
      })
      × (s'.dev.epoch_round ≡ s.dev.epoch_round + 1)
unfolding pass_to_epoch_ready after_ready
pass_to_epoch_ready-advances s unlocked small = (after_ready s, rw unlocked refl, refl, omega arith)

kept-pipeline : (s s' : Epochs) → IsKept s s' → pipeline s' ≡ pipeline s
kept-pipeline s s' (d, r, u) = rw (← d, ← r, ← u) refl

abbrev pub Advanced : Epochs → Outcome (Epochs × TimeSync × List CheckEffect) → Type 0
Advanced s outcome =
    (s' : Epochs) × (t' : TimeSync) × (effects : List CheckEffect) × (outcome
      ≡ ok (s', t', effects))
    × (pipeline s' ≡ advance (pipeline s))
    × (s'.dev.epoch_round ≡ s.dev.epoch_round + 1)

first_change :
    (now later : ℕ) (s s1 : Epochs) (t : TimeSync)
    → s.dev.epoch_round ≡ 0
    → pass_to_epoch_ready s ≡ ok s1
    → pipeline s1 ≡ advance (pipeline s)
    → s1.dev.epoch_round ≡ s.dev.epoch_round + 1
    → Advanced s (change_epoch now later s t)
unfolding change_epoch
first_change now later s s1 t zero_round ready shape round =
    let (d, r, u) = start_generation-IsKept s1 s1.dev.epoch_round in
    let zero_test : (s.dev.epoch_round == 0) ≡ true = rw zero_round refl in
    (
      (start_generation s1 s1.dev.epoch_round).0,
      t,
      started (start_generation s1 s1.dev.epoch_round).1 ∷ [],
      rw (zero_test, ready) refl,
      kept-pipeline s1 (start_generation s1 s1.dev.epoch_round).0 (d, r, u) ∙ shape,
      rw (← d) round,
    )

later_change :
    (now later : ℕ) (s s1 : Epochs) (t : TimeSync)
    → s.dev.epoch_round ≢ 0
    → pass_to_epoch_ready (pass_to_epoch_running s) ≡ ok s1
    → pipeline s1 ≡ advance (pipeline s)
    → s1.dev.epoch_round ≡ s.dev.epoch_round + 1
    → Advanced s (change_epoch now later s t)
unfolding change_epoch
later_change now later s s1 t not_zero ready shape round =
    let zero_test : (s.dev.epoch_round == 0) ≡ false = ground arith in
    elim (Bool-cases (s.dev.epoch_round == 1)) [
      | inl one ↦ (
        s1,
        (propose_time now later t).0,
        (propose_time now later t).1,
        rw (zero_test, one, ready) refl,
        shape,
        round,
      )
      | inr more ↦ (s1, t, [], rw (zero_test, more, ready) refl, shape, round)
    ]

-- The change of the epoch moves the pipeline on by one generation.
change_epoch-advances :
    (now later : ℕ) (s : Epochs) (t : TimeSync)
    → IsStarted s
    → s.commitment_round_locked ≡ false
    → s.dev.epoch_round + 1 < 2 ^ 32
    → Advanced s (change_epoch now later s t)
unfolding pass_to_epoch_running
change_epoch-advances now later s t first unlocked small = elim (ℕ_discrete s.dev.epoch_round 0) [
  | yes zero_round ↦
      let (s1, ready, shape, round) = pass_to_epoch_ready-advances s unlocked small in
      let (no_ready, no_running) = first zero_round in
      let moved : pipeline s1 ≡ advance (pipeline s) =
        shape
        ∙ ap (λ g. record { preparing = no_generation; ready = generation s.dev; running = g })
            (no_running ∙ sym no_ready) in
      first_change now later s s1 t zero_round ready moved round
  | no not_zero ↦
      let (s1, ready, shape, round) =
        pass_to_epoch_ready-advances (pass_to_epoch_running s) unlocked small in
      later_change now later s s1 t not_zero ready shape round
]

-- The handler refines the abstract step: when the last hash is entered and at least half of the hashes
-- match, with commitmentRoundMutex free, no wrap-around of the round, and nothing ready or running in
-- round 0, the handler returns, the generations have moved on by one (the one in preparation is ready,
-- the ready one runs, the next one is empty), and in round 0 still nothing is ready or running.
pub process_bucket_check-refines :
    (keccak256 : Bytes → Bytes) (draws : ℕ → ℕ → ℕ → ℕ) (c : Settings) (now later : ℕ) (s : Epochs)
    (t : TimeSync) (message : NetworkMessage)
    → IsEntered s message
    → pos (length (s.bucket_hashes_check ++ message.commitment ∷ [])) ≡ c.num_of_other_nodes
    → is_low_match
        (count_if
          (λ found. bytes_eq found s.dev.bucket_hash)
          (s.bucket_hashes_check ++ message.commitment ∷ []))
        (length (s.bucket_hashes_check ++ message.commitment ∷ []))
      ≡ false
    → IsStarted s
    → s.commitment_round_locked ≡ false
    → s.dev.epoch_round + 1 < 2 ^ 32
    → (s' : Epochs) × (t' : TimeSync) × (effects : List CheckEffect) × (process_bucket_check
          keccak256 draws c now later s t message
        ≡ ok (s', t', effects))
      × (pipeline s' ≡ advance (pipeline s))
      × IsStarted s'
unfolding enter_hash check_number
process_bucket_check-refines keccak256 draws c now later s t message e last high first unlocked
      small =
    let hashes = s.bucket_hashes_check ++ message.commitment ∷ [] in
    let all_there : eqb_ℤ (pos (length hashes)) c.num_of_other_nodes ≡ true =
      subst (λ z. eqb_ℤ (pos (length hashes)) z ≡ true) last (eqb_ℤ_refl (pos (length hashes))) in
    let (s', t', effects, changed, shape, round) =
      change_epoch-advances now later (record s { bucket_hashes_check = hashes }) t first unlocked
        small in
    (
      s',
      t',
      publish_match (count_if (λ found. bytes_eq found s.dev.bucket_hash) hashes) ∷ effects
          ++ (if ltb_ℤ c.num_of_other_nodes (pos (length s'.bucket_hashes_check))
              then log_too_many ∷ []
              else []),
      entered keccak256 draws c now later s t message e ∙ rw (all_there, high, changed) refl,
      shape,
      λ zero_round. absurd (omega arith),
    )
