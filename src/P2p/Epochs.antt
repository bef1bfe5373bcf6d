-- ===== src/P2p/Epochs.antt =====
-- node-implementation/p2p_communication.go: the commitment variables of the epoch in preparation, of the
-- epoch that is ready and of the epoch that runs, and the functions that pass them on.
pub mod Commitments
pub mod Check
use ssle_dag.Prelude.{
  ℕ, ◌+◌, ◌%◌, ◌^◌, ◌≡◌, refl, Bool, true, false, List, [], ◌∷◌, Option, none, some, if◌then◌else◌,
  Outcome, ok, blocked, Bytes,
}
use ssle_dag.Prelude.Dict.{copy_into}
use ssle_dag.Messages.{CommitmentInfo, CommitmentSharedInfo}

-- One generation of the variables: submittedCommitments, commitmentsBucket, commitmentsBucketMap,
-- bucketHash, bucketPositions, and commitmentGenEpochRound or the other two rounds.
pub record Epoch : Type 0 where
  pub submitted_commitments : List CommitmentInfo
  pub commitments_bucket : List Bytes
  pub commitments_bucket_map : List (Bytes × CommitmentSharedInfo)
  pub bucket_hash : Bytes
  pub bucket_positions : List ℕ
  pub epoch_round : ℕ

-- `dev` is the epoch in preparation. `commitment_round_locked` is whether a finished handler still
-- holds commitmentRoundMutex, so that no other can get it.
pub record Epochs : Type 0 where
  pub dev : Epoch
  pub rdy : Epoch
  pub run : Epoch
  pub bucket_hashes_check : List Bytes
  pub epoch_rounds_generated : List ℕ
  pub commitment_round_locked : Bool

-- `reset` keeps the round.
abbrev pub reset : Epoch → ℕ → Epoch
reset e round = record {
  submitted_commitments = [];
  commitments_bucket = [];
  commitments_bucket_map = [];
  bucket_hash = [];
  bucket_positions = [];
  epoch_round = round;
}

-- passToEpochReady up to commitmentRoundMutex.Lock; maps.Copy adds to the map that is there.
abbrev pub copy_to_ready : Epochs → Epochs
copy_to_ready s = record s {
  rdy = record s.dev {
    commitments_bucket_map = copy_into s.rdy.commitments_bucket_map s.dev.commitments_bucket_map;
  };
}

-- Where the Lock is not granted, the state remains that of copy_to_ready.
unfoldable pub pass_to_epoch_ready : Epochs → Outcome Epochs
pass_to_epoch_ready s =
    if s.commitment_round_locked
    then blocked
    else ok (record (copy_to_ready s) {
      dev = reset s.dev ((s.dev.epoch_round + 1) % 2 ^ 32);
      bucket_hashes_check = [];
    })

-- rdyEpochRound is not reset.
unfoldable pub pass_to_epoch_running : Epochs → Epochs
pass_to_epoch_running s = record s {
  run = record s.rdy {
    commitments_bucket_map = copy_into s.run.commitments_bucket_map s.rdy.commitments_bucket_map;
  };
  rdy = reset s.rdy s.rdy.epoch_round;
}
