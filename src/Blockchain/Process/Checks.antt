-- ===== src/Blockchain/Process/Checks.antt =====
-- node-implementation/blockchain.go: what a block has shown when processBlock appends it.
use ssle_dag.Prelude.{
  ◌+◌, ◌≡◌, ◌≢◌, refl, ◌∙◌, panic, panic≢ok, ◌⊎◌, inl, inr, List, [], ◌∷◌, ◌++◌, none, map, arith,
  ok, >>=-eq-ok, ok_injective, Bytes, bytes_eq, bytes_eq_iff, In, Bool-cases, Option-cases, sym, ap,
  subst,
}
use ssle_dag.Prelude.Dict.{lookup}
use ssle_dag.Messages.{Block, BlockTransfer, CommitmentSharedInfo, no_witness}
use ssle_dag.Utils.Point.{compress_point-nil}
use ssle_dag.Utils.Encoding.{encode_to_string, decode_string}
use ssle_dag.Blockchain.{Ledger}
use ssle_dag.Blockchain.Mempool.{lookup-delete_all-In, lookup-delete_all_other}
use ssle_dag.Blockchain.Hashing.{Crypto, compute_block_hash, compute_merkle_root, decode_hashes}
use ssle_dag.Blockchain.Create.{log_prefixes}
use ssle_dag.Blockchain.Process.{
  BlockError, Verdict, rejected, passed, received_block, link_block, check_message, check_hash,
  then_check_hash, check_block, add_block, conclude, process_block,
}

not_passed : {es errors : List BlockError} → ¬ (ok (rejected es) ≡ ok (passed errors))
not_passed h = cc

module _ (crypto : Crypto) where
  -- The signature of an empty public witness has no first byte.
  pub check_message_own :
      (key : crypto.PublicKey) (secret : Bytes) → check_message crypto key no_witness secret ≡ panic
  unfolding check_message decode_string
  check_message_own key secret = rw (compress_point-nil 0)

  then_check_hash-passed :
      (b : Block) (root : Bytes) (v : Verdict) (errors : List BlockError)
      → then_check_hash crypto b root v ≡ passed errors
      → b.hash ≡ encode_to_string (compute_block_hash crypto b root)
  unfolding then_check_hash check_hash
  then_check_hash-passed b root (rejected es) errors h = cc
  then_check_hash-passed b root (passed es) errors h =
      ground (arith, bytes_eq_iff b.hash (encode_to_string (compute_block_hash crypto b root)))

  check_block-passed :
      (b : Block) (shared : CommitmentSharedInfo) (root : Bytes) (errors : List BlockError)
      → check_block crypto b shared root ≡ ok (passed errors)
      → (b.commitment_hash ≡ shared.hash)
        × (b.hash ≡ encode_to_string (compute_block_hash crypto b root))
        × (shared.public ≢ no_witness)
  unfolding check_block
  check_block-passed b shared root errors h =
      elim (Bool-cases (bytes_eq b.commitment_hash shared.hash)) [
        | inr other ↦ absurd (not_passed (rw (other, check_block) at h))
        | inl same ↦ elim (Option-cases (decode_string b.commitment_secret)) [
          | inl missing ↦ absurd (not_passed (rw (same, missing, check_block) at h))
          | inr (secret, es) ↦ elim (Option-cases (decode_string b.author)) [
            | inl missing ↦ absurd (not_passed (rw (same, es, missing, check_block) at h))
            | inr (author_key, ea) ↦ elim (Option-cases (crypto.parse_key author_key)) [
              | inl missing ↦ absurd (not_passed (rw (same, es, ea, missing, check_block) at h))
              | inr (key, ek) ↦
                  let (v, ev, e) =
                    >>=-eq-ok (check_message crypto key shared.public secret)
                      (λ verdict. ok (then_check_hash crypto b root verdict))
                      (rw (same, es, ea, ek, check_block) at h) in
                  (
                    (bytes_eq_iff _ _).0 same,
                    then_check_hash-passed b root v errors (ok_injective e),
                    λ own. panic≢ok (sym (check_message_own key secret) ∙ (rw own at ev)),
                  )
            ]
          ]
        ]
      ]

  -- What an accepted block has shown, and what its acceptance changes.
  pub record IsAccepted (l l' : Ledger) (t : BlockTransfer) (shared : CommitmentSharedInfo)
      : Type 0 where
    pub tx_hashes : List Bytes
    pub root : Bytes
    pub decoded : decode_hashes t.transactions ≡ ok tx_hashes
    pub merkle : compute_merkle_root crypto tx_hashes ≡ ok root
    pub commitment : t.commitment_hash ≡ shared.hash
    pub witnessed : shared.public ≢ no_witness
    pub hash : t.hash ≡ encode_to_string (compute_block_hash crypto (received_block t) root)
    pub appended :
        l'.blockchain ≡ l.blockchain ++ (link_block crypto l.blockchain (received_block t)).0 ∷ []
    pub counted : l'.blockchain_length ≡ l.blockchain_length + 1
    pub removed : (k : Bytes) → In k (map encode_to_string tx_hashes) → lookup k l'.mempool ≡ none
    pub kept :
        (k : Bytes)
        → ¬ In k (map encode_to_string tx_hashes)
        → lookup k l'.mempool ≡ lookup k l.mempool

  add_block-IsAccepted :
      (l l' : Ledger) (t : BlockTransfer) (shared : CommitmentSharedInfo) (hashes : List Bytes)
      (root : Bytes) (before after : List BlockError)
      → decode_hashes t.transactions ≡ ok hashes
      → compute_merkle_root crypto hashes ≡ ok root
      → check_block crypto (received_block t) shared root ≡ ok (passed before)
      → add_block crypto l (received_block t) hashes before ≡ ok (l', after)
      → IsAccepted l l' t shared
  unfolding add_block received_block
  add_block-IsAccepted l l' t shared hashes root before after eh er ec ea =
      let (commitment, hash, witnessed) =
        check_block-passed (received_block t) shared root before ec in
      let (_, _, e) = >>=-eq-ok (log_prefixes _ _) _ ea in
      let same : _ ≡ l' = ap (λ r. r.0) (ok_injective e) in
      subst (λ x. IsAccepted l x t shared) same
        (record {
          tx_hashes = hashes;
          root = root;
          decoded = eh;
          merkle = er;
          commitment = commitment;
          witnessed = witnessed;
          hash = hash;
          appended = refl;
          counted = refl;
          removed = λ k. lookup-delete_all-In k (map encode_to_string hashes) l.mempool;
          kept = λ k. lookup-delete_all_other k (map encode_to_string hashes) l.mempool;
        })

  -- When processBlock returns, either the ledger is as it was, or the block was appended with its
  -- references, the counter went up by one and the block's transactions left the mempool, and then
  -- the block's commitment hash is the expected one, this commitment has a public witness, and the
  -- block's hash is the hash of its number, author, time and of the Merkle root of its transactions.
  pub process_block-IsAccepted :
      (l l' : Ledger) (t : BlockTransfer) (shared : CommitmentSharedInfo) (errors : List BlockError)
      → process_block crypto l t shared ≡ ok (l', errors)
      → (l' ≡ l) ⊎ IsAccepted l l' t shared
  unfolding process_block conclude received_block
  process_block-IsAccepted l l' t shared errors h =
      let (hashes, eh, h₁) = >>=-eq-ok (decode_hashes _) _ h in
      let (root, er, h₂) = >>=-eq-ok (compute_merkle_root crypto hashes) _ h₁ in
      let (v, ev, h₃) = >>=-eq-ok (check_block crypto (received_block t) shared root) _ h₂ in
      concluded hashes root v eh er ev h₃
    where
      concluded :
          (hashes : List Bytes) (root : Bytes) (v : Verdict)
          → decode_hashes t.transactions ≡ ok hashes
          → compute_merkle_root crypto hashes ≡ ok root
          → check_block crypto (received_block t) shared root ≡ ok v
          → conclude crypto l (received_block t) hashes v ≡ ok (l', errors)
          → (l' ≡ l) ⊎ IsAccepted l l' t shared
      concluded hashes root (rejected es) eh er ev e = inl (ap (λ r. r.0) (sym (ok_injective e)))
      concluded hashes root (passed es) eh er ev e =
          inr (add_block-IsAccepted l l' t shared hashes root es errors eh er ev e)
