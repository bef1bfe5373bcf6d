-- ===== src/P2p/Receive.antt =====
-- node-implementation/p2p_communication.go: processNetworkMessage on BCHAIN_BLOCK.
pub mod Cases
pub mod Vouched
use ssle_dag.Prelude.{
  ℕ, Bool, List, [], ◌∷◌, Option, none, some, if◌then◌else◌, ◌==◌, ltb, Outcome, ok, panic, ◌>>=◌,
  Bytes, length,
}
use ssle_dag.Prelude.Dict.{lookup}
use ssle_dag.Config.{Settings}
use ssle_dag.Messages.{BlockTransfer, CommitmentSharedInfo}
use ssle_dag.Blockchain.{Ledger}
use ssle_dag.Blockchain.Hashing.{Crypto}
use ssle_dag.Blockchain.Process.{BlockError, process_block}
use ssle_dag.P2p.Epochs.{Epoch, Epochs}

pub data ReceiveEffect : Type 0 where
  log_no_commitment : ReceiveEffect
  log_block_errors : List BlockError → ReceiveEffect

-- What follows the lookup. The last test has an empty body, but divides by EPOCH_SIZE.
unfoldable pub process_found :
    Crypto
    → Settings
    → Ledger
    → BlockTransfer
    → Option CommitmentSharedInfo
    → Outcome (Ledger × ReceiveEffect)
process_found crypto c l t none = ok (l, log_no_commitment)
process_found crypto c l t (some shared) = do
  (l', errors) ← process_block crypto l t shared
  if c.epoch_size == 0 then panic else ok (l', log_block_errors errors)

-- The log line takes the first 8 characters of the hash.
unfoldable pub process_bchain_block :
    Crypto → Settings → Epochs → Ledger → BlockTransfer → Outcome (Ledger × ReceiveEffect)
process_bchain_block crypto c s l t =
    if ltb (length t.hash) 8
    then panic
    else process_found crypto c l t (lookup t.commitment_hash s.run.commitments_bucket_map)
