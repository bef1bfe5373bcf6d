-- ===== src/P2p/Schedule/Clock.antt =====
-- node-implementation/p2p_communication.go: the end of each round of blockGenerationSchedule, which counts
-- slots and rounds, starts the next generation of commitments and closes the epoch.
pub mod Epoch
use ssle_dag.Prelude.{
  ℕ, zero, suc, ◌+◌, ◌*◌, ◌%◌, ◌&&◌, Bool, List, [], ◌∷◌, ◌++◌, if◌then◌else◌, ◌==◌, ltb, Outcome,
  ok, panic, ◌>>=◌, Bytes, length, length,
}
use ssle_dag.Config.{Settings}
use ssle_dag.Messages.{NetworkMessage, PublicWitness}
use ssle_dag.P2p.Epochs.{Epochs}
use ssle_dag.P2p.Epochs.Commitments.{Effect, start_generation, reshuffle}

-- The global variables slot and absRound.
pub record Clock : Type 0 where
  pub slot : ℕ
  pub abs_round : ℕ

-- `slot = slot + int64(DAG_PARALLEL_LEN); absRound++`
unfoldable pub next_slot : Settings → Clock → Clock
next_slot c k = record { slot = k.slot + c.dag_parallel_len; abs_round = k.abs_round + 1 }

-- The two tests that follow.
unfoldable pub starts_commitments : Settings → Clock → Bool
starts_commitments c k = k.slot % c.epoch_size == c.dag_parallel_len * 2

unfoldable pub ends_epoch : Settings → Clock → Bool
ends_epoch c k = k.slot % c.epoch_size == 0 && ltb 0 k.slot

-- The clock after a round, whether commitments start then, and whether the epoch ends.
unfoldable pub tick : Settings → Clock → Clock × Bool × Bool
tick c k =
    let k' = next_slot c k in
    let ends = ends_epoch c k' in
    (if ends then record k' { slot = 0 } else k', starts_commitments c k', ends)

pub data RoundEffect : Type 0 where
  started : List Effect → RoundEffect
  broadcast_bucket_check : Bytes → ℕ → ℕ → RoundEffect

-- `processNetworkMessage` of the BCHAIN_INIT_COMMITMENT message with the round commitmentGenEpochRound.
unfoldable pub start_commitments : Epochs → Epochs × List RoundEffect
start_commitments s =
    let (s', effects) = start_generation s s.dev.epoch_round in (s', started effects ∷ [])

-- The BCHAIN_BUCKET_CHECK message, unless bucketInfoStarted is set.
unfoldable pub bucket_check_message : Bool → Epochs → List RoundEffect
bucket_check_message bucket_info_started s =
    if bucket_info_started
    then []
    else broadcast_bucket_check s.dev.bucket_hash s.dev.epoch_round
        (length s.dev.commitments_bucket)
      ∷ []

-- A division by EPOCH_SIZE = 0 panics.
unfoldable pub close_round :
    (Bytes → Bytes)
    → (ℕ → ℕ → ℕ → ℕ)
    → Settings
    → Bool
    → Clock
    → Epochs
    → Outcome (Clock × Epochs × List RoundEffect)
close_round keccak256 draws c bucket_info_started k s =
    let (k', starts, ends) = tick c k in
    let (s', effects) = if starts then start_commitments s else (s, []) in
    if c.epoch_size == 0
    then panic
    else if ends
    then reshuffle keccak256 draws c s' >>= (λ shuffled.
      ok (k', shuffled, effects ++ bucket_check_message bucket_info_started shuffled))
    else ok (k', s', effects)

-- The clock after a number of rounds of the loop.
unfoldable pub clock_after : Settings → ℕ → Clock → Clock
clock_after c zero k = k
clock_after c (suc rounds) k = clock_after c rounds (tick c k).0
