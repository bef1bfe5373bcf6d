-- ===== src/P2p/Dispatch/Extension.antt =====
-- node-implementation/p2p_communication.go and blockchain.go: how each handler extends the blockchain.
use ssle_dag.Prelude.{
  ℕ, ◌≡◌, ◌≢◌, refl, true, some, sym, ap, ◌∙◌, subst, ◌⊎◌, inl, inr, List, [], ◌∷◌, ◌++◌, ok,
  >>=-eq-ok, ok_injective, if-either, Bytes, In, here, there, arith,
}
use mathlib.Core.List.{append-nil, append_assoc}
use ssle_dag.Config.{Settings}
use ssle_dag.Messages.{
  Message, bchain_init_commitment, bchain_commitment, bchain_init_bucket_info, bchain_bucket_check,
  bchain_sync_time, bchain_block, ping, genesis_block_build, info, transaction_pack,
  pub_key_exchange, node_ready, NetworkMessage, BlockTransfer, GenesisBlock, Block, Transaction,
  CommitmentSharedInfo, PublicWitness, no_witness, CommandMessageType, execute_ping,
  execute_genesis_block_build, retrieve_genesis_block, start_blockchain,
  request_public_key_distribution, gather_transaction_pack, stop_blockchain,
}
use ssle_dag.Dag.Mask.{calculate_tx_hash_masks}
use ssle_dag.Blockchain.{Ledger}
use ssle_dag.Blockchain.Hashing.{Crypto}
use ssle_dag.Blockchain.Genesis.{process_genesis_block, process_genesis_block-append}
use ssle_dag.Blockchain.Process.{link_block, received_block}
use ssle_dag.Keys.Exchange.{process_pub_key_exchange}
use ssle_dag.P2p.Commands.{
  CommandEffect, Node, process_command, retrieve_genesis, gather_transactions, unmasked,
  is_awaiting_genesis_block,
}
use ssle_dag.P2p.Epochs.{Epochs}
use ssle_dag.P2p.Epochs.Commitments.{process_commitment}
use ssle_dag.P2p.Epochs.Commitments.Maps.{InMaps}
use ssle_dag.P2p.Epochs.Commitments.Steps.{Steps}
use ssle_dag.P2p.Epochs.Check.{process_init_bucket_info, process_bucket_check}
use ssle_dag.P2p.Receive.{ReceiveEffect, process_bchain_block}
use ssle_dag.P2p.Receive.Vouched.{IsVouched, process_bchain_block-IsVouched}
use ssle_dag.P2p.TimeSync.{process_sync_time}
use ssle_dag.P2p.Dispatch.{Globals, NetworkEffect, last_hash, process_message}
use ssle_dag.Zkp.Verify.{
  Gnark, commitment_base64_decode, decode_public_witness, is_commitment_valid,
}
use ssle_dag.Zkp.Verify.Accepted.{IsMessage}
use ssle_dag.Utils.Encoding.{encode_to_string}
use ssle_dag.P2p.Schedule.Round.Own.{IsCreation}

link_block-commitment_hash :
    (crypto : Crypto) (chain : List Block) (b : Block)
    → (link_block crypto chain b).0.commitment_hash ≡ b.commitment_hash
unfolding link_block
link_block-commitment_hash crypto chain b = refl

module _ {Witness Proof : Type 0} (gnark : Gnark Witness Proof) (crypto : Crypto)
    (draws : ℕ → ℕ → ℕ → ℕ) (mimc : List Bytes → Bytes) (public_key self_id : Bytes)
    (c : Settings) where
  -- A genesis block of the bootstrap server, a block that the node itself created, or one whose commitment
  -- hash is that of a text with a verified proof, and the message in the proof's public witness is one of
  -- the protocol with a permitted variant.
  pub data Origin (b : Block) : Type 0 where
    genesis :
        (l l' : Ledger) (g : GenesisBlock)
        → process_genesis_block crypto l g ≡ ok (b, l')
        → Origin b
    own_block : IsCreation crypto public_key c b → Origin b
    verified :
        (commitment : Bytes) (public : PublicWitness) (epoch : ℕ) (witness : Witness)
        (proof : Proof)
        → b.commitment_hash ≡ encode_to_string (crypto.keccak256 commitment)
        → commitment_base64_decode gnark commitment ≡ some (witness, proof)
        → gnark.verify proof witness ≡ true
        → decode_public_witness gnark witness ≡ ok (some public)
        → IsMessage c public epoch
        → Origin b

  -- A vouched commitment that has a public witness is a verified one.
  verified-Origin :
      (b : Block) (shared : CommitmentSharedInfo)
      → IsVouched gnark crypto.keccak256 c (b.commitment_hash, shared)
      → shared.public ≢ no_witness
      → Origin b
  verified-Origin b shared (hash, inl own) witnessed = absurd (witnessed own)
  verified-Origin b shared (hash, inr (epoch, witness, proof, decoded, checked, fields, message))
        witnessed =
      verified shared.commitment shared.public epoch witness proof hash decoded checked fields
        message

  -- The blockchain was extended by blocks of such origins.
  abbrev pub IsExtension : Ledger → Ledger → Type 0
  IsExtension l l' =
      (blocks : List Block) × (l'.blockchain ≡ l.blockchain ++ blocks)
      × ((b : Block) → In b blocks → Origin b)

  pub unchanged : (l l' : Ledger) → l.blockchain ≡ l'.blockchain → IsExtension l l'
  unchanged l l' e = ([], sym e ∙ sym (append-nil l.blockchain), λ b i. elim i [ ])

  grown_by :
      (l l' : Ledger) (b : Block)
      → l'.blockchain ≡ l.blockchain ++ b ∷ []
      → Origin b
      → IsExtension l l'
  grown_by l l' b e origin = (
    b ∷ [],
    e,
    λ x i. elim i [ here same ↦ subst Origin (sym same) origin | there j ↦ elim j [ ] ],
  )

  In-append : (b : Block) (xs ys : List Block) → In b (xs ++ ys) → In b xs ⊎ In b ys
  In-append b [] ys i = inr i
  In-append b (x ∷ xs) ys (here e) = inl (here e)
  In-append b (x ∷ xs) ys (there i) = elim (In-append b xs ys i) [
    | inl j ↦ inl (there j)
    | inr j ↦ inr j
  ]

  pub IsExtension-trans : (l m l' : Ledger) → IsExtension l m → IsExtension m l' → IsExtension l l'
  IsExtension-trans l m l' (xs, e, h) (ys, f, k) = (
    xs ++ ys,
    f ∙ ap (λ chain. chain ++ ys) e ∙ append_assoc l.blockchain xs ys,
    λ b i. elim (In-append b xs ys i) [ inl j ↦ h b j | inr j ↦ k b j ],
  )

  received-IsExtension :
      (s0 s : Epochs) (l l' : Ledger) (t : BlockTransfer) (effect : ReceiveEffect)
      → InMaps (IsVouched gnark crypto.keccak256 c) s0
      → Steps crypto.keccak256 (is_commitment_valid gnark c) draws c s0 s
      → process_bchain_block crypto c s l t ≡ ok (l', effect)
      → IsExtension l l'
  unfolding received_block
  received-IsExtension s0 s l l' t effect vouched_maps moved e =
      elim (process_bchain_block-IsVouched gnark crypto.keccak256 c crypto draws s0 s l l' t effect
        vouched_maps moved e) [
          | inl same ↦ unchanged l l' (ap (λ x. x.blockchain) (sym same))
          | inr (shared, accepted, standing) ↦
              let b = (link_block crypto l.blockchain (received_block t)).0 in
              grown_by l l' b accepted.appended (
                verified-Origin b shared
                  (subst (λ h. IsVouched gnark crypto.keccak256 c (h, shared))
                    (sym (link_block-commitment_hash crypto l.blockchain (received_block t)))
                    standing)
                  accepted.witnessed)
        ]

  pub process_message-IsExtension :
      (now later : ℕ) (s0 : Epochs) (g g' : Globals) (m : NetworkMessage) (t : Message)
      (effect : NetworkEffect)
      → InMaps (IsVouched gnark crypto.keccak256 c) s0
      → Steps crypto.keccak256 (is_commitment_valid gnark c) draws c s0 g.epochs
      → process_message crypto
          (is_commitment_valid gnark c)
          draws
          mimc
          public_key
          self_id
          c
          now
          later
          g
          m
          t
        ≡ ok (g', effect)
      → IsExtension g.ledger g'.ledger
  unfolding process_message
  process_message-IsExtension now later s0 g g' m bchain_init_commitment effect h moved e =
      unchanged g.ledger g'.ledger (ap (λ r. r.0.ledger.blockchain) (ok_injective e))
  process_message-IsExtension now later s0 g g' m bchain_commitment effect h moved e =
      let (_, _, f) =
        >>=-eq-ok (process_commitment crypto.keccak256 (is_commitment_valid gnark c) c g.epochs m) _
          e in
      unchanged g.ledger g'.ledger (ap (λ r. r.0.ledger.blockchain) (ok_injective f))
  process_message-IsExtension now later s0 g g' m bchain_init_bucket_info effect h moved e =
      let (_, _, f) =
        >>=-eq-ok
          (process_init_bucket_info crypto.keccak256 draws c (last_hash g.ledger.blockchain)
            g.bucket_info_started g.epochs)
          _ e in
      unchanged g.ledger g'.ledger (ap (λ r. r.0.ledger.blockchain) (ok_injective f))
  process_message-IsExtension now later s0 g g' m bchain_bucket_check effect h moved e =
      let (_, _, f) =
        >>=-eq-ok (process_bucket_check crypto.keccak256 draws c now later g.epochs g.time_sync m) _
          e in
      unchanged g.ledger g'.ledger (ap (λ r. r.0.ledger.blockchain) (ok_injective f))
  process_message-IsExtension now later s0 g g' m bchain_sync_time effect h moved e =
      let (_, _, f) = >>=-eq-ok (process_sync_time c g.time_sync m.extra_int) _ e in
      unchanged g.ledger g'.ledger (ap (λ r. r.0.ledger.blockchain) (ok_injective f))
  process_message-IsExtension now later s0 g g' m bchain_block effect h moved e =
      let ((l, handled), run, f) =
        >>=-eq-ok (process_bchain_block crypto c g.epochs g.ledger m.block_transfer) _ e in
      subst (IsExtension g.ledger) (ap (λ r. r.0.ledger) (ok_injective f))
        (received-IsExtension s0 g.epochs g.ledger l m.block_transfer handled h moved run)
  process_message-IsExtension now later s0 g g' m pub_key_exchange effect h moved e =
      let (_, _, f) =
        >>=-eq-ok (process_pub_key_exchange mimc public_key c g.key_exchange m.commitment) _ e in
      unchanged g.ledger g'.ledger (ap (λ r. r.0.ledger.blockchain) (ok_injective f))
  process_message-IsExtension now later s0 g g' m ping effect h moved e =
      unchanged g.ledger g'.ledger (ap (λ r. r.0.ledger.blockchain) (ok_injective e))
  process_message-IsExtension now later s0 g g' m genesis_block_build effect h moved e =
      unchanged g.ledger g'.ledger (ap (λ r. r.0.ledger.blockchain) (ok_injective e))
  process_message-IsExtension now later s0 g g' m info effect h moved e =
      unchanged g.ledger g'.ledger (ap (λ r. r.0.ledger.blockchain) (ok_injective e))
  process_message-IsExtension now later s0 g g' m transaction_pack effect h moved e =
      unchanged g.ledger g'.ledger (ap (λ r. r.0.ledger.blockchain) (ok_injective e))
  process_message-IsExtension now later s0 g g' m node_ready effect h moved e =
      unchanged g.ledger g'.ledger (ap (λ r. r.0.ledger.blockchain) (ok_injective e))

  -- Of the commands only the retrieval of the genesis block adds a block.
  pub process_command-IsExtension :
      (n n' : Node) (t : CommandMessageType) (g : GenesisBlock) (txs : List Transaction)
      (effects : List CommandEffect)
      → process_command crypto public_key n t g txs ≡ ok (n', effects)
      → IsExtension n.ledger n'.ledger
  unfolding process_command gather_transactions retrieve_genesis
  process_command-IsExtension n n' execute_ping g txs effects e =
      unchanged n.ledger n'.ledger (ap (λ r. r.0.ledger.blockchain) (ok_injective e))
  process_command-IsExtension n n' execute_genesis_block_build g txs effects e =
      unchanged n.ledger n'.ledger (ground arith)
  process_command-IsExtension n n' retrieve_genesis_block g txs effects e =
      elim (if-either (is_awaiting_genesis_block n.state) _ _ _ e) [
        | inl awaited ↦
            let ((b, l), made, f) = >>=-eq-ok (process_genesis_block crypto n.ledger g) _ awaited in
            subst (IsExtension n.ledger) (ap (λ r. r.0.ledger) (ok_injective f)) (
              grown_by n.ledger l b (process_genesis_block-append crypto n.ledger l g b made)
                (genesis n.ledger l g made))
        | inr past ↦
            unchanged n.ledger n'.ledger (ap (λ r. r.0.ledger.blockchain) (ok_injective past))
      ]
  process_command-IsExtension n n' start_blockchain g txs effects e =
      unchanged n.ledger n'.ledger (ground arith)
  process_command-IsExtension n n' request_public_key_distribution g txs effects e =
      unchanged n.ledger n'.ledger (ground arith)
  process_command-IsExtension n n' gather_transaction_pack g txs effects e =
      let (masked, _, f) = >>=-eq-ok (calculate_tx_hash_masks (unmasked txs)) _ e in
      unchanged n.ledger n'.ledger (ap (λ r. r.0.ledger.blockchain) (ok_injective f))
  process_command-IsExtension n n' stop_blockchain g txs effects e =
      unchanged n.ledger n'.ledger (ground arith)
