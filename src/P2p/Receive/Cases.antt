-- ===== src/P2p/Receive/Cases.antt =====
-- node-implementation/p2p_communication.go: the two ways in which the handler of BCHAIN_BLOCK returns.
use ssle_dag.Prelude.{
  ◌≡◌, refl, ◌∙◌, sym, ap, ◌⊎◌, inl, inr, Option, none, some, ok, >>=-eq-ok, ok_injective, length,
  ◌==◌, ltb, panic, if-either, panic≢ok, subst,
}
use ssle_dag.Prelude.Dict.{lookup}
use ssle_dag.Config.{Settings}
use ssle_dag.Messages.{BlockTransfer, CommitmentSharedInfo}
use ssle_dag.Blockchain.{Ledger}
use ssle_dag.Blockchain.Hashing.{Crypto}
use ssle_dag.Blockchain.Process.{process_block}
use ssle_dag.Blockchain.Process.Checks.{IsAccepted, process_block-IsAccepted}
use ssle_dag.P2p.Epochs.{Epochs}
use ssle_dag.P2p.Receive.{ReceiveEffect, log_block_errors, process_bchain_block, process_found}

process_found-cases :
    (crypto : Crypto) (c : Settings) (l l' : Ledger) (t : BlockTransfer)
    (found : Option CommitmentSharedInfo) (effect : ReceiveEffect)
    → process_found crypto c l t found ≡ ok (l', effect)
    → (l' ≡ l)
      ⊎ ((shared : CommitmentSharedInfo) × (found ≡ some shared) × IsAccepted crypto l l' t shared)
unfolding process_found
process_found-cases crypto c l l' t none effect e = inl (sym (ap (λ r. r.0) (ok_injective e)))
process_found-cases crypto c l l' t (some shared) effect e =
    let (next, run, e1) = >>=-eq-ok (process_block crypto l t shared) _ e in
    elim (if-either (c.epoch_size == 0) panic (ok (next.0, log_block_errors next.1)) _ e1) [
      | inl bad ↦ absurd (panic≢ok bad)
      | inr good ↦
          let same : next.0 ≡ l' = ap (λ r. r.0) (ok_injective good) in
          elim (process_block-IsAccepted crypto l next.0 t shared next.1 run) [
            | inl unchanged ↦ inl (sym same ∙ unchanged)
            | inr accepted ↦
                inr (shared, refl, subst (λ x. IsAccepted crypto l x t shared) same accepted)
          ]
    ]

-- The ledger stays as it is, or the block was accepted for the entry of the running map under its
-- commitment hash.
pub process_bchain_block-cases :
    (crypto : Crypto) (c : Settings) (s : Epochs) (l l' : Ledger) (t : BlockTransfer)
    (effect : ReceiveEffect)
    → process_bchain_block crypto c s l t ≡ ok (l', effect)
    → (l' ≡ l)
      ⊎ ((shared : CommitmentSharedInfo) × (lookup t.commitment_hash s.run.commitments_bucket_map
            ≡ some shared)
          × IsAccepted crypto l l' t shared)
unfolding process_bchain_block
process_bchain_block-cases crypto c s l l' t effect e =
    elim (if-either (ltb (length t.hash) 8) panic _ _ e) [
      | inl bad ↦ absurd (panic≢ok bad)
      | inr handled ↦
          process_found-cases crypto c l l' t
            (lookup t.commitment_hash s.run.commitments_bucket_map) effect handled
    ]
