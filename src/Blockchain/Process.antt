-- ===== src/Blockchain/Process.antt =====
-- node-implementation/blockchain.go: processBlock, which checks a received block and appends it.
pub mod Checks
pub mod Rejection
use ssle_dag.Prelude.{
  ℕ, zero, suc, ◌+◌, ◌/◌, ◌%◌, Bool, true, false, not, List, [], ◌∷◌, ◌++◌, Option, none, some, map,
  ◌==◌, if◌then◌else◌, Outcome, ok, ◌>>=◌, Bytes, bytes_eq, length, get_elem?,
}
use ssle_dag.Messages.{Transaction, Block, BlockTransfer, PublicWitness, CommitmentSharedInfo}
use ssle_dag.Utils.Encoding.{encode_to_string, decode_string, from_big_endian}
use ssle_dag.Utils.Point.{compress_point, m_compressed_positive}
use ssle_dag.Blockchain.{Ledger, append_block, delete_all}
use ssle_dag.Blockchain.Hashing.{Crypto, compute_block_hash, compute_merkle_root, decode_hashes}
use ssle_dag.Blockchain.Create.{log_prefixes}

-- The calls of logError, in the order of the source.
pub data BlockError : Type 0 where
  commitment_mismatch : BlockError
  bad_secret : BlockError
  bad_author : BlockError
  bad_public_key : BlockError
  bad_sig_ry : BlockError
  bad_sig_s : BlockError
  verify_failed : BlockError
  signature_invalid : BlockError
  hash_invalid : BlockError
  no_previous_block : BlockError
  no_second_block : BlockError

-- The checks end in an early return or go on; either way some errors have been logged.
pub data Verdict : Type 0 where
  rejected : List BlockError → Verdict
  passed : List BlockError → Verdict

-- big.Int.Bytes: big endian, with no leading zero. A sum of a 32-byte number and 128 has at most 33
-- bytes, so 33 rounds are enough.
big_int_bytes : ℕ → ℕ → Bytes → Bytes
big_int_bytes zero n acc = acc
big_int_bytes (suc fuel) n acc =
    let more = big_int_bytes fuel (n / 256) (n % 256 ∷ acc) in if n == 0 then acc else more

abbrev mask_constant : ℕ
mask_constant = 0x80

-- The block that is built from the transfer, before the references are filled in.
unfoldable pub received_block : BlockTransfer → Block
received_block t = record {
  hash = t.hash;
  number = t.number;
  created_at = t.created_at;
  transactions = t.transactions;
  merkle_root = t.merkle_root;
  author = t.author;
  previous_block = none;
  previous_block_hash = t.previous_block_hash;
  previous_second_block = none;
  previous_second_block_hash = t.previous_second_block_hash;
  depth = t.depth;
  row = t.row;
  col = t.col;
  commitment_hash = t.commitment_hash;
  commitment_secret = t.commitment_secret;
  commitment_sig = t.commitment_sig;
}

-- `for i := len(blockchain) - 1; i >= 0; i--` over the blocks below i; the loop has no break, so the
-- last match that it meets, the one of the lowest index, stays.
unfoldable pub reference_from : List Block → Bytes → ℕ → Option ℕ → Option ℕ
reference_from blockchain hash zero found = found
reference_from blockchain hash (suc i) found =
    let hit : Bool = elim (get_elem? blockchain i) [
      | none ↦ false
      | some b ↦ bytes_eq b.hash hash
    ] in
    reference_from blockchain hash i (if hit then some i else found)

unfoldable pub reference : List Block → Bytes → Option ℕ
reference blockchain hash = reference_from blockchain hash (length blockchain) none

module _ (crypto : Crypto) where
  -- The two attempts to verify the message signature. A failure is logged and nothing more.
  unfoldable pub verify_message : crypto.PublicKey → Bytes → Bytes → Bytes → List BlockError
  verify_message key positive negative summed =
      let second : List BlockError = elim (crypto.verify key negative summed) [
        | none ↦ verify_failed ∷ signature_invalid ∷ []
        | some true ↦ []
        | some false ↦ signature_invalid ∷ []
      ] in
      elim (crypto.verify key positive summed) [
        | none ↦ verify_failed ∷ second
        | some true ↦ []
        | some false ↦ second
      ]

  -- From the signature's decoding to its verification, with the errors that were logged.
  unfoldable pub check_message : crypto.PublicKey → PublicWitness → Bytes → Outcome Verdict
  unfolding big_int_bytes
  check_message key witness secret =
      let summed = crypto.mimc witness.message secret in
      elim (decode_string witness.message_sig_ry) [
        | none ↦ ok (rejected (bad_sig_ry ∷ []))
        | some ry ↦ elim (decode_string witness.message_sig_s) [
          | none ↦ ok (rejected (bad_sig_s ∷ []))
          | some s ↦ compress_point ry m_compressed_positive >>= (λ compressed.
              let negative_part = from_big_endian 0 compressed + mask_constant in
              ok (
                passed (
                  verify_message key (compressed ++ s) (big_int_bytes 33 negative_part [] ++ s)
                    summed)))
        ]
      ]

  -- The block's hash against the hash of its fields and the computed root.
  unfoldable pub check_hash : Block → Bytes → List BlockError → Verdict
  check_hash block root errors =
      if bytes_eq block.hash (encode_to_string (compute_block_hash crypto block root))
      then passed errors
      else rejected (errors ++ hash_invalid ∷ [])

  -- What the verdict on the signature leads to.
  unfoldable pub then_check_hash : Block → Bytes → Verdict → Verdict
  then_check_hash block root (rejected errors) = rejected errors
  then_check_hash block root (passed errors) = check_hash block root errors

  -- All checks between the Merkle root and the references.
  unfoldable pub check_block : Block → CommitmentSharedInfo → Bytes → Outcome Verdict
  check_block block shared root =
      if bytes_eq block.commitment_hash shared.hash
      then elim (decode_string block.commitment_secret) [
        | none ↦ ok (rejected (bad_secret ∷ []))
        | some secret ↦ elim (decode_string block.author) [
          | none ↦ ok (rejected (bad_author ∷ []))
          | some author_key ↦ elim (crypto.parse_key author_key) [
            | none ↦ ok (rejected (bad_public_key ∷ []))
            | some key ↦
                check_message key shared.public secret
                >>= (λ verdict. ok (then_check_hash block root verdict))
          ]
        ]
      ]
      else ok (rejected (commitment_mismatch ∷ []))

  -- `block.PreviousBlock` and, if its hash is given, `block.PreviousSecondBlock`, with the errors.
  unfoldable pub link_block : List Block → Block → Block × List BlockError
  link_block blockchain block =
      let previous = reference blockchain block.previous_block_hash in
      let second =
        if bytes_eq block.previous_second_block_hash []
        then none
        else reference blockchain block.previous_second_block_hash in
      let previous_errors : List BlockError = elim previous [
        | none ↦ no_previous_block ∷ []
        | some i ↦ []
      ] in
      let second_errors : List BlockError = elim second [
        | none ↦ no_second_block ∷ []
        | some i ↦ []
      ] in
      (
        record block { previous_block = previous; previous_second_block = second },
        previous_errors
            ++ (if bytes_eq block.previous_second_block_hash [] then [] else second_errors),
      )

  -- The end of processBlock, for a block that passed: references, append, mempool, log line.
  unfoldable pub add_block :
      Ledger → Block → List Bytes → List BlockError → Outcome (Ledger × List BlockError)
  add_block l block tx_hashes errors = do
    let (linked, link_errors) = link_block l.blockchain block
    let appended = append_block l linked
    let l' = record appended {
      mempool = delete_all (map encode_to_string tx_hashes) appended.mempool;
    }
    _ ← log_prefixes linked.hash linked.author
    ok (l', errors ++ link_errors)

  unfoldable pub conclude :
      Ledger → Block → List Bytes → Verdict → Outcome (Ledger × List BlockError)
  conclude l block tx_hashes (rejected errors) = ok (l, errors)
  conclude l block tx_hashes (passed errors) = add_block l block tx_hashes errors

  -- The ledger afterwards, and the errors that were logged.
  unfoldable pub process_block :
      Ledger → BlockTransfer → CommitmentSharedInfo → Outcome (Ledger × List BlockError)
  process_block l transfer shared = do
    let block = received_block transfer
    tx_hashes ← decode_hashes block.transactions
    root ← compute_merkle_root crypto tx_hashes
    verdict ← check_block block shared root
    conclude l block tx_hashes verdict
