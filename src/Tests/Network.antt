-- ===== src/Tests/Network.antt =====
-- node-implementation/p2p_communication.go with four nodes.
use mathlib.Core.List.{Permᴰ}
use ssle_dag.Prelude.{
  ℕ, ◌≡◌, refl, Bool, true, false, ◌&&◌, List, [], ◌∷◌, ◌++◌, none, some, arith, Outcome, ok,
  blocked, Bytes, bytes_eq, codes, length, replicate, count_if, In, here, if◌then◌else◌,
}
use ssle_dag.Prelude.Int.{pos}
use ssle_dag.Prelude.Dict.{lookup}
use ssle_dag.Config.{Settings}
use ssle_dag.Messages.{bchain_commitment, BlockTransfer, NetworkMessage, PublicWitness, no_witness}
use ssle_dag.Utils.Encoding.{decode_string, pair_byte, from_hex_digit}
use ssle_dag.P2p.History.{
  Gossip, is_message_first_occurrence, processed, arrives, processed-once, history_loop,
}
use ssle_dag.P2p.Bucket.{shuffle_from, random_bucket_shuffle}
use ssle_dag.P2p.Bucket.Agreement.{random_bucket_shuffle-Agree}
use ssle_dag.P2p.Epochs.{Epoch, Epochs, pass_to_epoch_ready}
use ssle_dag.P2p.Epochs.Commitments.{log_wrong_epoch_round, process_commitment, shared_info}
use ssle_dag.P2p.Epochs.Commitments.Lock.{process_commitment-wrong_round}
use ssle_dag.P2p.TimeSync.{
  TimeSync, TimeSyncEffect, start_block_generation_schedule, publish_time, process_sync_time,
  process_sync_time-majority,
}

abbrev pub config : Settings
config = record {
  num_of_nodes = 2;
  num_of_other_nodes = pos 3;
  min_commitment_var = 1;
  max_commitment_var = 1;
  block_time_seconds = 10;
  dag_parallel_len = 8;
  epoch_size_rounds = 2;
  epoch_size = 16;
  processed_tx_per_block = 2;
  min_tx_to_split = 1;
  min_tx_to_merge = 1;
  random_shuffle_hex = codes "0a";
  dag_max_depth = 3;
}

abbrev pub gossip : Gossip
gossip = record { message_history = codes "1" ∷ []; message_peers_history = [] }

abbrev arrivals : List (Bytes × Bytes)
arrivals = (codes "p", codes "2") ∷ (codes "q", codes "1") ∷ (codes "q", codes "2") ∷ []

processed-once_example : count_if (λ i. bytes_eq i (codes "2")) (processed gossip arrivals) ≡ (
    if is_message_first_occurrence gossip (codes "2") && arrives (codes "2") arrivals then 1 else 0)
processed-once_example = processed-once gossip arrivals (codes "2")

-- Every draw is 0.
abbrev pub draws : ℕ → ℕ → ℕ → ℕ
draws seed n i = 0

abbrev pub first_hash : Bytes
first_hash = replicate 64 49

abbrev pub second_hash : Bytes
second_hash = replicate 64 50

key_fact : decode_string (codes "0a") ≡ some (10 ∷ [])
unfolding decode_string pair_byte from_hex_digit
key_fact = refl

random_bucket_shuffle-Agree_example :
    (random_bucket_shuffle draws config none false (first_hash ∷ second_hash ∷ [])
      ≡ ok (shuffle_from draws (10 ∷ []) (first_hash ∷ second_hash ∷ [])))
    × (random_bucket_shuffle draws config none false (second_hash ∷ first_hash ∷ [])
        ≡ ok (shuffle_from draws (10 ∷ []) (first_hash ∷ second_hash ∷ [])))
random_bucket_shuffle-Agree_example =
    random_bucket_shuffle-Agree draws config none none (first_hash ∷ second_hash ∷ [])
      (second_hash ∷ first_hash ∷ []) (10 ∷ []) (Permᴰ.swap refl refl) key_fact refl
      (refl, (refl, tt)) (refl, (refl, tt))

abbrev pub keccak256 : Bytes → Bytes
keccak256 x = replicate 32 (length x)

abbrev pub no_epoch : Epoch
no_epoch = record {
  submitted_commitments = [];
  commitments_bucket = [];
  commitments_bucket_map = [];
  bucket_hash = [];
  bucket_positions = [];
  epoch_round = 0;
}

abbrev pub no_epochs : Bool → Epochs
no_epochs locked = record {
  dev = no_epoch;
  rdy = no_epoch;
  run = no_epoch;
  bucket_hashes_check = [];
  epoch_rounds_generated = [];
  commitment_round_locked = locked;
}

-- Every commitment is valid.
abbrev every_commitment_valid : Bytes → ℕ → Outcome (Bool × PublicWitness)
every_commitment_valid commitment round = ok (true, no_witness)

abbrev pub no_block : BlockTransfer
no_block = record {
  hash = [];
  number = 0;
  created_at = pos 0;
  transactions = [];
  merkle_root = [];
  author = [];
  previous_block_hash = [];
  previous_second_block_hash = [];
  depth = 0;
  row = 0;
  col = 0;
  commitment_hash = [];
  commitment_secret = [];
  commitment_sig = [];
}

-- A commitment of round 1, while the epoch in preparation has round 0.
abbrev late : NetworkMessage
late = record {
  id = codes "7";
  type = bchain_commitment;
  block_transfer = no_block;
  commitment = codes "c";
  commitment_epoch_round = 1;
  extra_int = pos 0;
}

nothing_known : (h : Bytes) → history_loop [] h 0 ≡ false
unfolding history_loop
nothing_known h = refl

process_commitment-wrong_round_example :
    (s' : Epochs) × (process_commitment keccak256 every_commitment_valid config
        (no_epochs false)
        late
      ≡ ok (s', log_wrong_epoch_round ∷ []))
    × In (shared_info keccak256 late.commitment no_witness).hash s'.dev.commitments_bucket
    × (lookup (shared_info keccak256 late.commitment no_witness).hash s'.dev.commitments_bucket_map
        ≡ some (shared_info keccak256 late.commitment no_witness))
    × (s'.commitment_round_locked ≡ true)
    × (pass_to_epoch_ready s' ≡ blocked)
process_commitment-wrong_round_example =
    process_commitment-wrong_round keccak256 every_commitment_valid config (no_epochs false) late
      no_witness (refl, nothing_known _) refl (λ e. absurd (omega arith))

abbrev pub waiting : TimeSync
waiting = record {
  time_synced = false;
  synced_time = pos 60;
  time_sync_nodes = pos 120 ∷ pos 60 ∷ [];
}

process_sync_time-majority_example :
    (s' : TimeSync) × (effects : List TimeSyncEffect) × (process_sync_time config waiting (pos 120)
      ≡ ok (s', effects ++ start_block_generation_schedule ∷ publish_time (pos 120) ∷ []))
    × (s'.synced_time ≡ pos 120)
    × (s'.time_synced ≡ true)
process_sync_time-majority_example =
    process_sync_time-majority config waiting (pos 120) (pos 120) refl refl (here refl)
      (omega arith)
