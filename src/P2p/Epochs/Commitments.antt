-- ===== src/P2p/Epochs/Commitments.antt =====
-- node-implementation/p2p_communication.go: processNetworkMessage on BCHAIN_INIT_COMMITMENT and
-- BCHAIN_COMMITMENT: received commitments and the node's own.
pub mod Covered
pub mod Handlers
pub mod Steps
pub mod Lock
pub mod Maps
use ssle_dag.Prelude.{
  ℕ, zero, suc, ◌+◌, ◌*◌, ◌≡◌, refl, Bool, true, false, List, [], ◌∷◌, ◌++◌, Option, none, some,
  if◌then◌else◌, ◌==◌, Outcome, ok, blocked, ◌>>=◌, Bytes, bytes_eq, length, get_elem?,
}
use ssle_dag.Prelude.Dict.{insert}
use ssle_dag.Config.{Settings}
use ssle_dag.Messages.{
  Message, bchain_init_commitment, bchain_commitment, NetworkMessage, CommitmentInfo,
  CommitmentSharedInfo, PublicWitness, no_witness,
}
use ssle_dag.Utils.Encoding.{encode_to_string}
use ssle_dag.P2p.History.{history_loop}
use ssle_dag.P2p.Bucket.{sort_strings, random_bucket_shuffle, identify_commitment_positions}
use ssle_dag.P2p.Epochs.{Epoch, Epochs}

-- What a handler does apart from changing the epochs' variables. `generate` starts the goroutine
-- that generates the commitments of a round.
pub data Effect : Type 0 where
  log_invalid_commitment : Effect
  log_wrong_epoch_round : Effect
  publish_commitment : Bytes → PublicWitness → ℕ → Effect
  generate : ℕ → Effect

-- `for i := len(epochRoundsGenerated) - 1; i >= 0; i--` over the entries below i.
unfoldable pub round_loop : List ℕ → ℕ → ℕ → Bool
round_loop rounds round zero = false
round_loop rounds round (suc i) =
    let rest = round_loop rounds round i in
    elim (get_elem? rounds i) [ none ↦ rest | some r ↦ if r == round then true else rest ]

-- From the comment on, "commitmentGenEpochRound == message.CommitmentEpochRound".
unfoldable pub start_generation : Epochs → ℕ → Epochs × List Effect
start_generation s round =
    if round_loop s.epoch_rounds_generated round (length s.epoch_rounds_generated)
    then (s, [])
    else (
      record s { epoch_rounds_generated = s.epoch_rounds_generated ++ round ∷ [] },
      generate round ∷ [],
    )

-- A commitment enters the bucket and its map.
unfoldable pub store : CommitmentSharedInfo → Epoch → Epoch
store shared e = record e {
  commitments_bucket = e.commitments_bucket ++ shared.hash ∷ [];
  commitments_bucket_map = insert shared.hash shared e.commitments_bucket_map;
}

-- The bucket is sorted at the moment when it has all commitments.
unfoldable pub sort_if_full : Settings → Epoch → Epoch
sort_if_full c e =
    if length e.commitments_bucket == c.max_commitment_var * c.num_of_nodes
    then record e { commitments_bucket = sort_strings e.commitments_bucket }
    else e

-- The end of the handler for a commitment that was stored: the check of its round, in the wrong
-- case without an Unlock.
unfoldable pub check_round :
    Epochs → NetworkMessage → PublicWitness → Outcome (Epochs × List Effect)
check_round s message witness =
    if s.commitment_round_locked
    then blocked
    else if message.commitment_epoch_round == s.dev.epoch_round
    then (let (s', effects) = start_generation s message.commitment_epoch_round in
        let published =
          publish_commitment message.commitment witness message.commitment_epoch_round in
        ok (s', published ∷ effects))
    else ok (record s { commitment_round_locked = true }, log_wrong_epoch_round ∷ [])

-- BCHAIN_INIT_COMMITMENT goes directly to the generation.
unfoldable pub process_init_commitment : Epochs → NetworkMessage → Epochs × List Effect
process_init_commitment s message = start_generation s message.commitment_epoch_round

-- keccak256 is the third-party package's hash.
module _ (keccak256 : Bytes → Bytes) where
  unfoldable pub shared_info : Bytes → PublicWitness → CommitmentSharedInfo
  shared_info commitment witness = record {
    commitment = commitment;
    hash = encode_to_string (keccak256 commitment);
    public = witness;
  }

  -- A valid commitment is stored before commitmentRoundMutex is asked for.
  abbrev pub store_received : Settings → Epochs → NetworkMessage → PublicWitness → Epochs
  store_received c s message witness = record s {
    dev = sort_if_full c (store (shared_info message.commitment witness) s.dev);
  }

  -- What follows isCommitmentValid, for its two results. Where the Lock is not granted, the state remains
  -- that of store_received.
  unfoldable pub take_commitment :
      Settings → Epochs → NetworkMessage → Bool × PublicWitness → Outcome (Epochs × List Effect)
  take_commitment c s message (valid, witness) =
      let shared = shared_info message.commitment witness in
      if valid
      then if history_loop s.dev.commitments_bucket shared.hash (length s.dev.commitments_bucket)
        then ok (s, [])
        else check_round (store_received c s message witness) message witness
      else ok (s, log_invalid_commitment ∷ [])

  -- `is_commitment_valid` is isCommitmentValid of zkp.go.
  unfoldable pub process_commitment :
      (Bytes → ℕ → Outcome (Bool × PublicWitness))
      → Settings
      → Epochs
      → NetworkMessage
      → Outcome (Epochs × List Effect)
  process_commitment is_commitment_valid c s message =
      is_commitment_valid message.commitment s.dev.epoch_round >>= take_commitment c s message

  -- The body of the goroutine for one commitment that generateCommitment and commitmentBase64Encode
  -- gave, up to the test whether the bucket is full.
  unfoldable pub store_own : Epochs → Bytes → Bytes → Bytes → Epochs
  store_own s commitment secret secret_sig =
      let shared = shared_info commitment no_witness in
      let own : CommitmentInfo = record {
        commitment = commitment;
        hash = shared.hash;
        secret = secret;
        secret_sig = secret_sig;
      } in
      record s {
        dev =
            store shared
              (record s.dev { submitted_commitments = s.dev.submitted_commitments ++ own ∷ [] });
      }

  -- `randomBucketShuffle(false); bucketHash, bucketPositions = identifyCommitmentPositions()`
  unfoldable pub reshuffle : (ℕ → ℕ → ℕ → ℕ) → Settings → Epochs → Outcome Epochs
  reshuffle draws c s = do
    bucket ← random_bucket_shuffle draws c none false s.dev.commitments_bucket
    let (hash, positions) =
        identify_commitment_positions keccak256 s.dev.submitted_commitments bucket
    ok (record s {
      dev = record s.dev {
        commitments_bucket = bucket;
        bucket_hash = hash;
        bucket_positions = positions;
      };
    })

  -- One round of the goroutine. The log line's `commitmentHash[:8]` is below the hash's length.
  unfoldable pub generate_own :
      (ℕ → ℕ → ℕ → ℕ) → Settings → Epochs → Bytes → Bytes → Bytes → Outcome Epochs
  generate_own draws c s commitment secret secret_sig =
      let s' = store_own s commitment secret secret_sig in
      if length s'.dev.commitments_bucket == c.max_commitment_var * c.num_of_nodes
      then reshuffle draws c s'
      else ok s'
