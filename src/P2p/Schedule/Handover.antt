-- ===== src/P2p/Schedule/Handover.antt =====
-- node-implementation/p2p_communication.go: a block that one node creates and sends, at a node that
-- receives it.
use ssle_dag.Prelude.{
  ◌≡◌, refl, subst, List, [], ◌∷◌, ◌++◌, some, map, ok, >>=-eq-ok, ok_injective, Bytes,
  bytes_eq_refl,
}
use ssle_dag.Prelude.Int.{ℤ}
use ssle_dag.Config.{Settings}
use ssle_dag.Messages.{Transaction, Block, BlockCreation, CommitmentSharedInfo}
use ssle_dag.Utils.Encoding.{encode_to_string, decode_string}
use ssle_dag.Blockchain.{Ledger, append_block, delete_all}
use ssle_dag.Blockchain.Hashing.{Crypto, compute_block_hash, compute_merkle_root, decode_hashes}
use ssle_dag.Blockchain.Create.{log_prefixes, create_block, unhashed_block, block_transactions}
use ssle_dag.Blockchain.Process.{
  BlockError, passed, received_block, check_message, check_hash, check_block, then_check_hash,
  link_block, add_block, conclude, process_block,
}
use ssle_dag.P2p.Schedule.{new_block_transfer}

module _ (crypto : Crypto) where
  -- What a created block has that the receiver recomputes.
  record Sent (b : Block) : Type 0 where
    hashes : List Bytes
    root : Bytes
    decoded : decode_hashes b.transactions ≡ ok hashes
    merkle : compute_merkle_root crypto hashes ≡ ok root
    hash : b.hash ≡ encode_to_string (compute_block_hash crypto b root)
    logged : log_prefixes b.hash b.author ≡ ok tt

  create_block-Sent :
      (public_key : Bytes) (c : Settings) (l l' : Ledger) (creation : BlockCreation)
      (reward_now now : ℤ) (b : Block)
      → create_block crypto public_key c l creation reward_now now ≡ ok (b, l')
      → Sent b
  unfolding create_block unhashed_block compute_block_hash
  create_block-Sent public_key c l l' creation reward_now now b h =
      let transactions : List Transaction =
        block_transactions crypto public_key c creation.transactions reward_now in
      let (hashes, eh, h₁) = >>=-eq-ok (decode_hashes transactions) _ h in
      let (root, er, h₂) = >>=-eq-ok (compute_merkle_root crypto hashes) _ h₁ in
      let (_, el, h₃) = >>=-eq-ok (log_prefixes _ _) _ h₂ in
      subst (λ r. Sent r.0) (ok_injective h₃)
        (record {
          hashes = hashes;
          root = root;
          decoded = eh;
          merkle = er;
          hash = refl;
          logged = el;
        })

  check_block-Sent :
      (b : Block) (sig : Bytes) (shared : CommitmentSharedInfo) (secret author_key : Bytes)
      (key : crypto.PublicKey) (errors : List BlockError) (sent : Sent b)
      → b.commitment_hash ≡ shared.hash
      → decode_string b.commitment_secret ≡ some secret
      → decode_string b.author ≡ some author_key
      → crypto.parse_key author_key ≡ some key
      → check_message crypto key shared.public secret ≡ ok (passed errors)
      → check_block crypto (received_block (new_block_transfer b sig)) shared sent.root
        ≡ ok (passed errors)
  unfolding check_block received_block new_block_transfer check_hash compute_block_hash
      then_check_hash
  check_block-Sent b sig shared secret author_key key errors sent e₁ e₂ e₃ e₄ e₅ =
      rw
        (
          e₁,
          bytes_eq_refl shared.hash,
          e₂,
          e₃,
          e₄,
          e₅,
          sent.hash,
          bytes_eq_refl (encode_to_string (compute_block_hash crypto b sent.root)),
        )
        refl

  -- A block that createBlock made, sent as the BlockTransfer of the generation schedule, is
  -- appended by every node that knows its commitment, if the block's secret and author decode, the
  -- author parses as a public key, and the check of the message signature does not return early:
  -- the block's hash passes there, and the chain grows by the received block with its references.
  pub process_block-create_block :
      (public_key : Bytes) (c : Settings) (l l' peer : Ledger) (creation : BlockCreation)
      (reward_now now : ℤ) (b : Block) (sig : Bytes) (shared : CommitmentSharedInfo)
      (secret author_key : Bytes) (key : crypto.PublicKey) (errors : List BlockError)
      → create_block crypto public_key c l creation reward_now now ≡ ok (b, l')
      → b.commitment_hash ≡ shared.hash
      → decode_string b.commitment_secret ≡ some secret
      → decode_string b.author ≡ some author_key
      → crypto.parse_key author_key ≡ some key
      → check_message crypto key shared.public secret ≡ ok (passed errors)
      → (peer' : Ledger) × (logged : List BlockError) × (process_block crypto peer
            (new_block_transfer b sig)
            shared
          ≡ ok (peer', logged))
        × (peer'.blockchain
            ≡ peer.blockchain
              ++ (link_block crypto peer.blockchain (received_block (new_block_transfer b sig))).0
                ∷ [])
  unfolding process_block received_block new_block_transfer conclude add_block link_block
  process_block-create_block public_key c l l' peer creation reward_now now b sig shared secret
        author_key key errors made e₁ e₂ e₃ e₄ e₅ =
      let sent = create_block-Sent public_key c l l' creation reward_now now b made in
      let (linked, link_errors) =
        link_block crypto peer.blockchain (received_block (new_block_transfer b sig)) in
      let grown = append_block peer linked in
      (
        record grown { mempool = delete_all (map encode_to_string sent.hashes) grown.mempool },
        errors ++ link_errors,
        rw
            (
              sent.decoded,
              sent.merkle,
              check_block-Sent b sig shared secret author_key key errors sent e₁ e₂ e₃ e₄ e₅,
              sent.logged,
            )
            refl,
        refl,
      )
