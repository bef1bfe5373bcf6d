-- ===== src/P2p/Schedule/Round.antt =====
-- node-implementation/p2p_communication.go: a whole round of blockGenerationSchedule, from the plan of its
-- actions to the blocks that the node creates and sends.
pub mod Planned
pub mod Own
use ssle_dag.Prelude.{
  ℕ, zero, suc, ◌+◌, ◌%◌, ◌≡◌, refl, sym, ap, ◌∙◌, subst, Bool, true, false, ◌&&◌, not, inl, inr,
  List, [], ◌∷◌, ◌++◌, Option, none, some, map, if◌then◌else◌, ◌==◌, Outcome, ok, panic, panic≢ok,
  ◌>>=◌, >>=-eq-ok, ok_injective, Bytes, bytes_eq, bytes_eq→eq, bytes_eq_iff, length, get_elem?, In,
  here, there, arith, Bool-cases, ==_iff,
}
use mathlib.Core.List.{append-nil, append_assoc}
use ssle_dag.Prelude.Int.{ℤ}
use ssle_dag.Config.{Settings}
use ssle_dag.Messages.{
  Transaction, Block, BlockTransfer, BlockCreation, CommitmentInfo, DagActionType,
}
use ssle_dag.Utils.Majority.{slice_contains_int, slice_contains_int-In}
use ssle_dag.Blockchain.{Ledger}
use ssle_dag.Blockchain.Hashing.{Crypto, decode_hashes, compute_merkle_root}
use ssle_dag.Blockchain.Create.{create_block, unhashed_block, log_prefixes, block_transactions}
use ssle_dag.Blockchain.Create.Effect.{IsCreated, create_block-IsCreated}
use ssle_dag.P2p.Bucket.{is_submitted, identify_commitment_positions}
use ssle_dag.P2p.Bucket.Agreement.{identify_commitment_positions-In}
use ssle_dag.P2p.Schedule.{
  OwnSlot, is_skip, own_slots, epoch_indexes, epoch_actions, mark_loop, plan_round, block_depth,
  included_transactions, get_commitment_info_by_hash, block_creation, new_block_transfer,
}

-- `for i, indexInEpoch := range filteredEpochIndexes`, from the slot i on. `times` are the readings of the
-- clock for the reward and the block, `submitted` and `bucket` those of the running epoch.
module _ (crypto : Crypto) (public_key : Bytes) (c : Settings) (times : ℕ → ℤ × ℤ)
    (submitted : List CommitmentInfo) (bucket : List Bytes) (abs_round : ℕ) where
  unfoldable pub create_slots :
      ℕ → Ledger → List OwnSlot → Outcome (Ledger × List (Block × BlockTransfer))
  create_slots i l [] = ok (l, [])
  create_slots i l (s ∷ slots) = do
    creation ← block_creation submitted bucket l.mempool abs_round s
    (b, l') ← create_block crypto public_key c l creation (times i).0 (times i).1
    (l'', made) ← create_slots (i + 1) l' slots
    ok (l'', (b, new_block_transfer b creation.commitment_secret_signature) ∷ made)

  unfoldable pub generate_round :
      Ledger → List ℕ → ℕ → Outcome (Ledger × List (Block × BlockTransfer))
  generate_round l positions slot =
      plan_round c l.blockchain positions slot abs_round >>= create_slots 0 l
