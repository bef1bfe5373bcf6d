-- ===== src/Start/Variables.antt =====
-- node-implementation/p2p.go: the variables that runP2p initialises, and what follows from them for the node.
use ssle_dag.Prelude.{ℕ, List, Bytes, In, subst}
use ssle_dag.Config.{Settings}
use ssle_dag.Messages.{Block}
use ssle_dag.Blockchain.Hashing.{Crypto}
use ssle_dag.P2p.Dispatch.{Globals, Reach}
use ssle_dag.P2p.Dispatch.Steps.{Reach-AreCovered}
use ssle_dag.P2p.Dispatch.Extension.{Origin}
use ssle_dag.P2p.Dispatch.Origin.{Reach-IsExtension}
use ssle_dag.P2p.Epochs.Commitments.Covered.{IsCovered, AreCovered}
use ssle_dag.Start.{init_variables, zero_globals, zero_epoch}
use ssle_dag.Zkp.Verify.{Gnark, is_commitment_valid}

no_commitments-IsCovered : IsCovered zero_epoch
no_commitments-IsCovered = record { known = λ h i. elim i [ ]; keyed = tt }

init_variables-AreCovered :
    (public_key : Bytes) → AreCovered (init_variables public_key zero_globals).epochs
unfolding init_variables
init_variables-AreCovered public_key = record {
  dev_IsCovered = no_commitments-IsCovered;
  rdy_IsCovered = no_commitments-IsCovered;
  run_IsCovered = no_commitments-IsCovered;
}

-- From the variables of a started node that handled no message and no command before runP2p ended,
-- whatever messages, commands, own commitments and rounds follow:
-- every commitment of a bucket is in its generation's map under its own hash, and every block of the
-- blockchain is a genesis block that the bootstrap server sent, a block that createBlock of the node
-- itself made, or one whose commitment hash is that of a text that decodes to a witness and a proof,
-- where the proof is verified against the witness and the public witness carries a message of the
-- protocol's version with a permitted variant.
pub Reach-started :
    {Witness Proof : Type 0} (gnark : Gnark Witness Proof) (crypto : Crypto) (draws : ℕ → ℕ → ℕ → ℕ)
    (mimc : List Bytes → Bytes) (public_key self_id : Bytes) (c : Settings) (g : Globals)
    → Reach crypto
        (is_commitment_valid gnark c)
        draws
        mimc
        public_key
        self_id
        c
        (init_variables public_key zero_globals)
        g
    → AreCovered g.epochs
      × ((b : Block)
          → In b g.ledger.blockchain
          → Origin gnark crypto draws mimc public_key self_id c b)
unfolding init_variables
Reach-started gnark crypto draws mimc public_key self_id c g reached =
    let (blocks, grown, origin) =
      Reach-IsExtension gnark crypto draws mimc public_key self_id c
        (init_variables public_key zero_globals) g (tt, tt, tt) reached in
    (
      Reach-AreCovered crypto (is_commitment_valid gnark c) draws mimc public_key self_id c
          (init_variables public_key zero_globals) g reached (init_variables-AreCovered public_key),
      λ b i. origin b (subst (λ chain. In b chain) grown i),
    )
