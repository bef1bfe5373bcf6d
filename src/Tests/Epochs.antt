-- ===== src/Tests/Epochs.antt =====
-- node-implementation/p2p_communication.go: the bucket check and the schedule's clock at concrete states.
use ssle_dag.Prelude.{
  ℕ, ◌+◌, ◌*◌, ◌≡◌, ◌↔◌, ◌++◌, length, count_if, bytes_eq, refl, true, false, List, [], ◌∷◌, arith,
  ◌==◌, ok, panic, codes, suc,
}
use ssle_dag.Prelude.Int.{pos}
use ssle_dag.Config.{Settings}
use ssle_dag.Messages.{bchain_bucket_check, NetworkMessage}
use ssle_dag.P2p.TimeSync.{TimeSync, is_low_match}
use ssle_dag.P2p.Epochs.{Epochs}
use ssle_dag.P2p.Epochs.Check.{CheckEffect, process_bucket_check}
use ssle_dag.P2p.Epochs.Check.LowMatch.{IsEntered, process_bucket_check-low_match}
use ssle_dag.P2p.Epochs.Check.Pipeline.{pipeline, advance, IsStarted, process_bucket_check-refines}
use ssle_dag.P2p.Schedule.Clock.{Clock, tick, clock_after}
use ssle_dag.P2p.Schedule.Clock.Epoch.{clock_after-epochs}
use ssle_dag.Tests.Network.{
  config, draws, keccak256, first_hash, second_hash, no_epoch, no_epochs, no_block, waiting,
}

-- Two hashes of other nodes were received.
abbrev checking : Epochs
checking = record (no_epochs false) {
  dev = record no_epoch { bucket_hash = first_hash; commitments_bucket = first_hash ∷ [] };
  bucket_hashes_check = second_hash ∷ first_hash ∷ [];
}

abbrev check : ℕ → NetworkMessage
check length = record {
  id = codes "9";
  type = bchain_bucket_check;
  block_transfer = no_block;
  commitment = first_hash;
  commitment_epoch_round = 0;
  extra_int = pos length;
}

checked : IsEntered checking (check 1)
checked = record { same_hash = refl; same_length = refl }

high : is_low_match 2 3 ≡ false
unfolding is_low_match
high = refl

process_bucket_check-refines_example :
    (s' : Epochs) × (t' : TimeSync) × (effects : List CheckEffect) × (process_bucket_check keccak256
        draws config 50 55 checking waiting
        (check 1)
      ≡ ok (s', t', effects))
    × (pipeline s' ≡ advance (pipeline checking))
    × IsStarted s'
process_bucket_check-refines_example =
    process_bucket_check-refines keccak256 draws config 50 55 checking waiting (check 1) checked
      refl high (λ e. (refl, refl)) refl (omega arith)

-- The same with two hashes that differ, and a message of an earlier round with the third.
abbrev disagreeing : Epochs
disagreeing = record checking { bucket_hashes_check = second_hash ∷ second_hash ∷ [] }

process_bucket_check-low_match_example :
    (process_bucket_check keccak256 draws config 50 55 disagreeing waiting (check 1) ≡ panic) ↔ (
      is_low_match
        (count_if
          (λ found. bytes_eq found disagreeing.dev.bucket_hash)
          (disagreeing.bucket_hashes_check ++ (check 1).commitment ∷ []))
        (length (disagreeing.bucket_hashes_check ++ (check 1).commitment ∷ []))
      ≡ true)
process_bucket_check-low_match_example =
    process_bucket_check-low_match keccak256 draws config 50 55 disagreeing waiting (check 1)
      (record { same_hash = refl; same_length = refl }) refl

abbrev three_rounds : Settings
three_rounds = record config { epoch_size_rounds = 3; epoch_size = 24 }

abbrev start_clock : Clock
start_clock = record { slot = 0; abs_round = 0 }

clock_after-epochs_example :
    ((clock_after three_rounds (2 * 3 + 1) start_clock).slot ≡ 1 * 8)
    × ((clock_after three_rounds (2 * 3 + 1) start_clock).abs_round ≡ 0 + (2 * 3 + 1))
    × ((tick three_rounds (clock_after three_rounds (2 * 3 + 1) start_clock)).1 ≡ (1 == 1))
    × ((tick three_rounds (clock_after three_rounds (2 * 3 + 1) start_clock)).2 ≡ (suc 1 == 3))
clock_after-epochs_example =
    clock_after-epochs three_rounds (record { parallel = refl; epoch = refl }) (omega arith)
      start_clock 2 1 (omega arith) refl (omega arith)
