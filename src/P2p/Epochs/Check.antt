-- ===== src/P2p/Epochs/Check.antt =====
-- node-implementation/p2p_communication.go: processNetworkMessage on BCHAIN_INIT_BUCKET_INFO and
-- BCHAIN_BUCKET_CHECK, by which the nodes compare their buckets and go on to the next epoch.
pub mod Pipeline
pub mod LowMatch
pub mod Moves
use ssle_dag.Prelude.{
  ℕ, ◌+◌, ◌*◌, ◌/◌, ◌%◌, ◌&&◌, not, Bool, true, false, List, [], ◌∷◌, ◌++◌, if◌then◌else◌, ◌==◌,
  ltb, Option, Outcome, ok, panic, blocked, ◌>>=◌, Bytes, bytes_eq, length, count_if,
}
use ssle_dag.Prelude.Int.{ℤ, pos, eqb_ℤ, ltb_ℤ}
use ssle_dag.Config.{Settings}
use ssle_dag.Messages.{NetworkMessage}
use ssle_dag.P2p.Bucket.{
  initialize_bucket_sort, random_bucket_shuffle, identify_commitment_positions,
}
use ssle_dag.P2p.TimeSync.{TimeSync, is_low_match}
use ssle_dag.P2p.Epochs.{Epoch, Epochs, copy_to_ready, pass_to_epoch_ready, pass_to_epoch_running}
use ssle_dag.P2p.Epochs.Commitments.{Effect, start_generation, reshuffle}

pub data CheckEffect : Type 0 where
  publish_bucket : Bytes → List ℕ → ℕ → CheckEffect
  broadcast_bucket_check : Bytes → ℕ → ℕ → CheckEffect
  publish_match : ℕ → CheckEffect
  started : List Effect → CheckEffect
  broadcast_sync_time : ℕ → CheckEffect
  log_other_hash : CheckEffect
  log_other_length : CheckEffect
  log_already_synced : CheckEffect
  log_too_many : CheckEffect

-- The BCHAIN_BUCKET_CHECK message of the node's own bucket.
unfoldable pub own_check : Epochs → CheckEffect
own_check s =
    broadcast_bucket_check s.dev.bucket_hash s.dev.epoch_round (length s.dev.commitments_bucket)

-- syncTime.Add(time.Minute).Truncate(time.Minute), in seconds.
unfoldable pub next_minute : ℕ → ℕ
next_minute now = (now + 60) / 60 * 60

-- `syncedTime = syncTime.Unix()` and its broadcast.
unfoldable pub propose_minute : TimeSync → ℕ → TimeSync × List CheckEffect
propose_minute t now =
    (record t { synced_time = pos (next_minute now) }, broadcast_sync_time (next_minute now) ∷ [])

-- The time of the first block: `now` is the time, and `later` the time 5 seconds later, when it is
-- read a second time; `t` are the variables when they are read. A synced time returns early.
unfoldable pub propose_time : ℕ → ℕ → TimeSync → TimeSync × List CheckEffect
propose_time now later t =
    if ltb (now % 60) 45
    then propose_minute t now
    else if t.time_synced
    then (t, log_already_synced ∷ [])
    else propose_minute t later

-- The branches on the epoch round, once the buckets were found equal.
unfoldable pub change_epoch :
    ℕ → ℕ → Epochs → TimeSync → Outcome (Epochs × TimeSync × List CheckEffect)
change_epoch now later s t =
    if s.dev.epoch_round == 0
    then pass_to_epoch_ready s >>= (λ s'.
      let (s'', effects) = start_generation s' s'.dev.epoch_round in
      ok (s'', t, started effects ∷ []))
    else if s.dev.epoch_round == 1
    then pass_to_epoch_ready (pass_to_epoch_running s)
      >>= (λ s'. let (t', effects) = propose_time now later t in ok (s', t', effects))
    else pass_to_epoch_ready (pass_to_epoch_running s) >>= (λ s'. ok (s', t, []))

-- The last test of the handler; after an early return the list is empty, and it logs nothing.
unfoldable pub check_number :
    Settings
    → List CheckEffect
    → Epochs × TimeSync × List CheckEffect
    → Outcome (Epochs × TimeSync × List CheckEffect)
check_number c effects (s, t, more) = ok (
  s,
  t,
  effects
      ++ more
      ++ (if ltb_ℤ c.num_of_other_nodes (pos (length s.bucket_hashes_check))
          then log_too_many ∷ []
          else []),
)

-- sync.Mutex, by whether it is locked: a Lock of a locked one waits, and an Unlock of one that is not locked
-- is a fatal error.
abbrev pub lock : Bool → Outcome Bool
lock true = blocked
lock false = ok true

abbrev pub unlock : Bool → Outcome Bool
unlock true = ok false
unlock false = panic

-- The received hash is entered under bucketHashesCheckMutex, which no handler holds when it begins; `locked`
-- and `still` are its states. With the last hash, the nodes' hashes are counted.
unfoldable pub enter_hash :
    Settings → ℕ → ℕ → Epochs → TimeSync → Bytes → Outcome (Epochs × TimeSync × List CheckEffect)
enter_hash c now later s t hash =
    let s' : Epochs = record s { bucket_hashes_check = s.bucket_hashes_check ++ hash ∷ [] } in
    let hashes = s'.bucket_hashes_check in
    let matched = count_if (λ found. bytes_eq found s.dev.bucket_hash) hashes in
    lock false >>= (λ locked.
      if eqb_ℤ (pos (length hashes)) c.num_of_other_nodes
      then (if is_low_match matched (length hashes) then unlock locked else ok locked) >>= (λ still.
          unlock still
          >>= (λ _. change_epoch now later s' t >>= check_number c (publish_match matched ∷ [])))
      else unlock locked >>= (λ _. check_number c [] (s', t, [])))

-- What the handler has written when passToEpochReady waits for commitmentRoundMutex.
abbrev pub check_before_lock : Epochs → Bytes → Epochs
check_before_lock s hash =
    let s' : Epochs = record s { bucket_hashes_check = s.bucket_hashes_check ++ hash ∷ [] } in
    if s.dev.epoch_round == 0 then copy_to_ready s' else copy_to_ready (pass_to_epoch_running s')

module _ (keccak256 : Bytes → Bytes) (draws : ℕ → ℕ → ℕ → ℕ) (c : Settings) where
  unfoldable pub process_bucket_check :
      ℕ → ℕ → Epochs → TimeSync → NetworkMessage → Outcome (Epochs × TimeSync × List CheckEffect)
  process_bucket_check now later s t message =
      if s.dev.epoch_round == message.commitment_epoch_round
        && not (bytes_eq message.commitment s.dev.bucket_hash)
      then reshuffle keccak256 draws c s >>= (λ s'. ok (s', t, log_other_hash ∷ own_check s' ∷ []))
      else if eqb_ℤ message.extra_int (pos (length s.dev.commitments_bucket))
      then enter_hash c now later s t message.commitment
      else ok (s, t, log_other_length ∷ [])

  -- What follows randomBucketShuffle(true), for its bucket.
  unfoldable pub enter_bucket : Bool → Epochs → List Bytes → Outcome (Epochs × List CheckEffect)
  enter_bucket bucket_info_started s bucket =
      let (hash, positions) =
        identify_commitment_positions keccak256 s.dev.submitted_commitments bucket in
      let s' : Epochs = record s {
        dev = record s.dev {
          commitments_bucket = bucket;
          bucket_hash = hash;
          bucket_positions = positions;
        };
      } in
      ok (
        s',
        publish_bucket hash positions (length bucket)
            ∷ (if bucket_info_started then [] else own_check s' ∷ []),
      )

  -- `last_hash` is the hash of the last block, if there is one. bucketInfoStarted is set only while
  -- the handler sleeps and broadcasts.
  unfoldable pub process_init_bucket_info :
      Option Bytes → Bool → Epochs → Outcome (Epochs × List CheckEffect)
  process_init_bucket_info last_hash bucket_info_started s =
      let sorted = initialize_bucket_sort s.dev.commitments_bucket in
      if ltb s.dev.epoch_round 2
      then random_bucket_shuffle draws c last_hash true sorted
        >>= enter_bucket bucket_info_started s
      else ok (record s { dev = record s.dev { commitments_bucket = sorted } }, [])
