-- ===== src/Blockchain/Create/Total.antt =====
-- node-implementation/blockchain.go: when createBlock returns at all.
use ssle_dag.Prelude.{
  ℕ, zero, suc, ◌≤◌, ◌≡◌, refl, ap, ◌∙◌, true, false, List, [], ◌∷◌, ◌++◌, some, map, arith, ok,
  ltb, Bytes, All, length, length-append, take, le→ltb_false, if◌then◌else◌,
}
use ssle_dag.Prelude.Int.{ℤ}
use ssle_dag.Config.{Settings}
use ssle_dag.Messages.{Transaction, Block, BlockCreation}
use ssle_dag.Utils.Encoding.{
  encode_to_string, decode_string, decode_string-encode_to_string, length-encode_to_string,
}
use ssle_dag.Blockchain.{Ledger, append_block, delete_all}
use ssle_dag.Blockchain.Hashing.{
  Crypto, IsDocumented, compute_transaction_hash, compute_block_hash, compute_merkle_root,
  compute_merkle_root-some, decode_hashes,
}
use ssle_dag.Blockchain.Create.{
  log_prefixes, create_block_reward_tx, block_transactions, unhashed_block, create_block,
}

-- A transaction whose hash is hexadecimal.
abbrev pub IsHashed : Transaction → Type 0
IsHashed tx = (b : Bytes) × (decode_string tx.hash ≡ some b)

decode_hashes-All :
    (txs : List Transaction)
    → All IsHashed txs
    → (hashes : List Bytes) × (decode_hashes txs ≡ ok hashes) × (length hashes ≡ length txs)
unfolding decode_hashes
decode_hashes-All [] h = ([], refl, refl)
decode_hashes-All (tx ∷ txs) ((b, e), h) =
    let (hashes, k, same) = decode_hashes-All txs h in (b ∷ hashes, rw (e, k) refl, ap suc same)

All-take : (n : ℕ) (txs : List Transaction) → All IsHashed txs → All IsHashed (take n txs)
All-take zero txs h = tt
All-take (suc n) [] h = tt
All-take (suc n) (tx ∷ txs) (p, h) = (p, All-take n txs h)

All-snoc :
    (txs : List Transaction) (tx : Transaction)
    → All IsHashed txs
    → IsHashed tx
    → All IsHashed (txs ++ tx ∷ [])
All-snoc [] tx h p = (p, tt)
All-snoc (x ∷ txs) tx (q, h) p = (q, All-snoc txs tx h p)

module _ (crypto : Crypto) (public_key : Bytes) (documented : IsDocumented crypto) where
  create_block_reward_tx-IsHashed :
      (now : ℤ) → IsHashed (create_block_reward_tx crypto public_key now)
  unfolding create_block_reward_tx compute_transaction_hash
  create_block_reward_tx-IsHashed now =
      (_, decode_string-encode_to_string _ (documented.keccak256-IsBytes _))

  block_transactions-All :
      (c : Settings) (txs : List Transaction) (now : ℤ)
      → All IsHashed txs
      → All IsHashed (block_transactions crypto public_key c txs now)
  unfolding block_transactions
  block_transactions-All c txs now h =
      All-snoc _ (create_block_reward_tx crypto public_key now)
        (elim (ltb c.processed_tx_per_block (length txs))
          as (λ b. All IsHashed (if b then take c.processed_tx_per_block txs else txs)) [
            | true ↦ All-take c.processed_tx_per_block txs h
            | false ↦ h
          ])
        (create_block_reward_tx-IsHashed now)

  merkle_of :
      (hashes : List Bytes) (n : ℕ)
      → length hashes ≡ suc n
      → (root : Bytes) × (compute_merkle_root crypto hashes ≡ ok root)
  merkle_of [] n e = absurd (omega arith)
  merkle_of (x ∷ hashes) n e =
      let (root, k, _) = documented.root_of_some x hashes in
      (root, compute_merkle_root-some crypto (x ∷ hashes) root k)

  length-block_transactions_pos :
      (c : Settings) (txs : List Transaction) (now : ℤ)
      → (n : ℕ) × (length (block_transactions crypto public_key c txs now) ≡ suc n)
  unfolding block_transactions
  length-block_transactions_pos c txs now =
      let kept =
        if ltb c.processed_tx_per_block (length txs)
        then take c.processed_tx_per_block txs
        else txs in
      (
        length kept,
        omega (arith, length-append {0} kept (create_block_reward_tx crypto public_key now ∷ [])),
      )

  length-compute_block_hash :
      (b : Block) (root : Bytes) → length (compute_block_hash crypto b root) ≡ 32
  unfolding compute_block_hash
  length-compute_block_hash b root = documented.keccak256_length _

  log_prefixes-ok :
      (b : Block) (root : Bytes)
      → 4 ≤ length public_key
      → log_prefixes (encode_to_string (compute_block_hash crypto b root)) public_key ≡ ok tt
  unfolding log_prefixes
  log_prefixes-ok b root long =
      let hash = encode_to_string (compute_block_hash crypto b root) in
      let hash_long : ltb (length hash) 8 ≡ false = le→ltb_false (length hash) 8 (
        omega (
          arith,
          length-encode_to_string (compute_block_hash crypto b root),
          length-compute_block_hash b root,
        )) in
      rw (hash_long, le→ltb_false (length public_key) 4 long, log_prefixes) refl

  -- createBlock returns, provided that the hashes of the given transactions are hexadecimal, that the
  -- node's public key has at least four characters, and that the third-party packages behave as they
  -- are documented.
  pub create_block-returns :
      (c : Settings) (l : Ledger) (creation : BlockCreation) (reward_now now : ℤ)
      → All IsHashed creation.transactions
      → 4 ≤ length public_key
      → (b : Block) × (l' : Ledger) × (create_block crypto public_key c l creation reward_now now
          ≡ ok (b, l'))
  unfolding create_block unhashed_block
  create_block-returns c l creation reward_now now h long =
      let txs = block_transactions crypto public_key c creation.transactions reward_now in
      let (hashes, decoded, same) =
        decode_hashes-All txs (block_transactions-All c creation.transactions reward_now h) in
      let (n, positive) = length-block_transactions_pos c creation.transactions reward_now in
      let (root, merkle) = merkle_of hashes n (same ∙ positive) in
      let draft = unhashed_block crypto public_key l.blockchain_length creation txs root now in
      let block = record draft { hash = encode_to_string (compute_block_hash crypto draft root) } in
      let grown = append_block l block in
      (
        block,
        record grown { mempool = delete_all (map encode_to_string hashes) grown.mempool },
        rw (decoded, merkle, log_prefixes-ok draft root long) refl,
      )
