-- ===== src/Blockchain/Process/Rejection.antt =====
-- node-implementation/blockchain.go: received blocks that stop the node, and the signature check
-- that decides nothing.
use ssle_dag.Prelude.{
  ◌≡◌, refl, List, [], Option, some, Bool, true, false, arith, Outcome, ok, exit, panic, ◌>>=◌,
  blocked, Bytes, bytes_eq, bytes_eq_iff,
}
use ssle_dag.Messages.{Block, BlockTransfer, CommitmentSharedInfo, PublicWitness, no_witness}
use ssle_dag.Utils.Encoding.{decode_string}
use ssle_dag.Blockchain.{Ledger}
use ssle_dag.Blockchain.Hashing.{
  Crypto, IsDocumented, compute_block_hash, compute_merkle_root, decode_hashes, decode_hashes-nil,
  compute_merkle_root-none,
}
use ssle_dag.Blockchain.Process.Checks.{check_message_own}
use ssle_dag.Blockchain.Process.{
  BlockError, Verdict, rejected, passed, received_block, link_block, check_message, check_hash,
  then_check_hash, check_block, add_block, conclude, process_block,
}

-- A received block without transactions panics before anything of it is checked: the Merkle tree of
-- no data is an error, which is only logged, and the missing tree is asked for its root.
pub process_block_empty :
    (crypto : Crypto) (l : Ledger) (t : BlockTransfer) (shared : CommitmentSharedInfo)
    → IsDocumented crypto
    → t.transactions ≡ []
    → process_block crypto l t shared ≡ panic
unfolding process_block received_block
process_block_empty crypto l t shared d e =
    rw (e, decode_hashes-nil, compute_merkle_root-none crypto [] d.root_of_none)

-- A received block with a transaction hash that is not hexadecimal ends the process, before
-- anything else of the block is checked.
process_block_bad_hash :
    (crypto : Crypto) (l : Ledger) (t : BlockTransfer) (shared : CommitmentSharedInfo)
    → decode_hashes t.transactions ≡ exit
    → process_block crypto l t shared ≡ exit
unfolding process_block received_block
process_block_bad_hash crypto l t shared e = rw e

module _ (crypto : Crypto) where
  -- The bucket holds the node's own commitments with an empty public witness. A received block that
  -- names such a commitment, with transactions that have a Merkle root, a hexadecimal secret and a
  -- valid public key of any author, panics, whatever its hash and its signatures are.
  pub process_block_own_commitment :
      (l : Ledger) (t : BlockTransfer) (shared : CommitmentSharedInfo) (hashes : List Bytes)
      (root secret author : Bytes) (key : crypto.PublicKey)
      → decode_hashes t.transactions ≡ ok hashes
      → compute_merkle_root crypto hashes ≡ ok root
      → t.commitment_hash ≡ shared.hash
      → decode_string t.commitment_secret ≡ some secret
      → decode_string t.author ≡ some author
      → crypto.parse_key author ≡ some key
      → shared.public ≡ no_witness
      → process_block crypto l t shared ≡ panic
  unfolding process_block received_block check_block
  process_block_own_commitment l t shared hashes root secret author key eh er ec es ea ek ew =
      let same : bytes_eq t.commitment_hash shared.hash ≡ true = (bytes_eq_iff _ _).1 ec in
      rw (eh, er, same, es, ea, ek, ew, check_message_own crypto key secret)

-- Whether the checks passed, without what was logged.
verdict_kind : Outcome Verdict → Outcome Bool
verdict_kind m = m >>= λ v. elim v [ rejected _ ↦ ok false | passed _ ↦ ok true ]

abbrev pub ledger_of : Outcome (Ledger × List BlockError) → Outcome Ledger
ledger_of m = m >>= λ r. ok r.0

ledger_of_congr :
    {A : Type 0} (m : Outcome A) (f g : A → Outcome (Ledger × List BlockError))
    → ((a : A) → ledger_of (f a) ≡ ledger_of (g a))
    → ledger_of (m >>= f) ≡ ledger_of (m >>= g)
ledger_of_congr (ok a) f g h = h a
ledger_of_congr exit f g h = refl
ledger_of_congr panic f g h = refl
ledger_of_congr blocked f g h = refl

module _ (crypto : Crypto) (other : crypto.PublicKey → Bytes → Bytes → Option Bool) where
  -- The same packages with another answer to every question of a signature.
  abbrev pub verifying : Crypto
  verifying = record crypto { verify = other }

  check_message_kind :
      (key : crypto.PublicKey) (w : PublicWitness) (secret : Bytes)
      → verdict_kind (check_message crypto key w secret)
        ≡ verdict_kind (check_message verifying key w secret)
  unfolding check_message verdict_kind
  check_message_kind key w secret = ground arith

  check_block_kind :
      (b : Block) (shared : CommitmentSharedInfo) (root : Bytes)
      → verdict_kind (check_block crypto b shared root)
        ≡ verdict_kind (check_block verifying b shared root)
  unfolding check_block check_message verdict_kind then_check_hash check_hash compute_block_hash
  check_block_kind b shared root = ground arith

  conclude_errors :
      (l : Ledger) (b : Block) (hashes : List Bytes) (before before' : List BlockError)
      → ledger_of (add_block crypto l b hashes before)
        ≡ ledger_of (add_block verifying l b hashes before')
  unfolding add_block link_block
  conclude_errors l b hashes before before' = ground arith

  conclude_kind :
      (l : Ledger) (b : Block) (hashes : List Bytes) (m n : Outcome Verdict)
      → verdict_kind m ≡ verdict_kind n
      → ledger_of (m >>= conclude crypto l b hashes)
        ≡ ledger_of (n >>= conclude verifying l b hashes)
  unfolding verdict_kind conclude
  conclude_kind l b hashes (ok (rejected es)) (ok (rejected es')) e = refl
  conclude_kind l b hashes (ok (passed es)) (ok (passed es')) e = conclude_errors l b hashes es es'
  conclude_kind l b hashes exit exit e = refl
  conclude_kind l b hashes panic panic e = refl
  conclude_kind l b hashes blocked blocked e = refl
  conclude_kind l b hashes exit (ok (rejected es)) e = cc
  conclude_kind l b hashes exit (ok (passed es)) e = cc
  conclude_kind l b hashes panic (ok (rejected es)) e = cc
  conclude_kind l b hashes panic (ok (passed es)) e = cc
  conclude_kind l b hashes blocked (ok (rejected es)) e = cc
  conclude_kind l b hashes blocked (ok (passed es)) e = cc
  conclude_kind l b hashes m n e = cc

  -- The signature decides nothing: with any other answers of Verify, also with a constant false,
  -- processBlock ends in the same way and in the same ledger. Only the logged errors differ.
  pub process_block_ignores_signature :
      (l : Ledger) (t : BlockTransfer) (shared : CommitmentSharedInfo)
      → ledger_of (process_block crypto l t shared) ≡ ledger_of (process_block verifying l t shared)
  unfolding process_block compute_merkle_root
  process_block_ignores_signature l t shared =
      ledger_of_congr (decode_hashes (received_block t).transactions) _ _ (λ hashes.
        ledger_of_congr (compute_merkle_root crypto hashes) _ _ (λ root.
          conclude_kind l (received_block t) hashes _ _
            (check_block_kind (received_block t) shared root)))
