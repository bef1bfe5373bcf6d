-- ===== src/Tests/Blocks.antt =====
-- node-implementation/blockchain.go: a block that is created, sent and processed, with small stand-ins for
-- the third-party packages.
use ssle_dag.Prelude.{
  ℕ, zero, suc, ◌%◌, ◌<◌, ◌≡◌, refl, ◌⊎◌, true, false, List, [], ◌∷◌, ◌++◌, none, some, arith,
  Outcome, ok, panic, Bytes, IsBytes, codes, length, replicate,
}
use ssle_dag.Prelude.Int.{pos}
use ssle_dag.Config.{Settings}
use ssle_dag.Messages.{Transaction, Block, BlockCreation, CommitmentSharedInfo, no_witness}
use ssle_dag.Utils.Encoding.{
  encode_to_string, decode_string, from_hex_digit, hex_digit, int64_to_bytes, pair_byte,
}
use ssle_dag.Utils.Point.{compress_point, reverse_loop, swap, read}
use ssle_dag.Blockchain.{Ledger}
use ssle_dag.Blockchain.Hashing.{
  Crypto, IsDocumented, compute_transaction_hash, compute_block_hash, decode_hashes,
  compute_merkle_root,
}
use ssle_dag.Blockchain.Create.{
  create_block, block_transactions, create_block_reward_tx, log_prefixes, unhashed_block,
}
use ssle_dag.Blockchain.Create.Total.{create_block-returns}
use ssle_dag.Blockchain.Create.Effect.{IsCreated, create_block-IsCreated}
use ssle_dag.Blockchain.Process.{
  BlockError, passed, received_block, check_message, verify_message, link_block, process_block,
}
use ssle_dag.Blockchain.Process.Checks.{IsAccepted, process_block-IsAccepted}
use ssle_dag.Blockchain.Process.Rejection.{
  ledger_of, verifying, process_block_own_commitment, process_block_ignores_signature,
}
use ssle_dag.P2p.Schedule.{new_block_transfer}
use ssle_dag.P2p.Schedule.Handover.{process_block-create_block}

-- Hashes and roots that tell lengths apart only.
abbrev pub crypto : Crypto
crypto = record {
  PublicKey = Bytes;
  keccak256 = λ x. replicate 32 (length x % 256);
  merkle_root = λ xs. elim xs [ [] ↦ none | (y ∷ ys) ↦ some (replicate 32 (length ys % 256)) ];
  mimc = λ message secret. message ++ secret;
  parse_key = λ key. some key;
  verify = λ key signature message. some true;
}

replicate-IsBytes : (n b : ℕ) → b < 256 → IsBytes (replicate n b)
replicate-IsBytes zero b h = tt
replicate-IsBytes (suc n) b h = (h, replicate-IsBytes n b h)

crypto-IsDocumented : IsDocumented crypto
crypto-IsDocumented = record {
  root_of_none = refl;
  root_of_some = λ x xs.
      (replicate 32 (length xs % 256), refl, replicate-IsBytes 32 (length xs % 256) (omega arith));
  keccak256-IsBytes = λ x. replicate-IsBytes 32 (length x % 256) (omega arith);
  keccak256_length = λ x. refl;
}

abbrev config : Settings
config = record {
  num_of_nodes = 4;
  num_of_other_nodes = pos 3;
  min_commitment_var = 1;
  max_commitment_var = 1;
  block_time_seconds = 10;
  dag_parallel_len = 8;
  epoch_size_rounds = 2;
  epoch_size = 16;
  processed_tx_per_block = 2;
  min_tx_to_split = 2;
  min_tx_to_merge = 1;
  random_shuffle_hex = codes "0a";
  dag_max_depth = 3;
}

abbrev pub public_key : Bytes
public_key = codes "01020304"

abbrev pub creation : BlockCreation
creation = record {
  commitment_hash = codes "ab";
  commitment_secret = codes "0a";
  commitment_secret_signature = codes "0c";
  transactions = [];
  depth = 0;
  parent_block = none;
  second_parent_block = none;
  row = 0;
  col = 1;
}

abbrev pub empty_ledger : Ledger
empty_ledger = record { blockchain = []; blockchain_length = 0; mempool = [] }

abbrev pub blank : Block
blank = record {
  hash = [];
  number = 0;
  created_at = pos 0;
  transactions = [];
  merkle_root = [];
  author = [];
  previous_block = none;
  previous_block_hash = [];
  previous_second_block = none;
  previous_second_block_hash = [];
  depth = 0;
  row = 0;
  col = 0;
  commitment_hash = [];
  commitment_secret = [];
  commitment_sig = [];
}

-- The value of a run, where it returns.
abbrev pub value_of {ℓ} : {A : Type ℓ} → A → Outcome A → A
value_of a (ok x) = x
value_of a _ = a

abbrev created : Block × Ledger
created =
    value_of (blank, empty_ledger)
      (create_block crypto public_key config empty_ledger creation (pos 5) (pos 6))

created_ok :
    create_block crypto public_key config empty_ledger creation (pos 5) (pos 6)
    ≡ ok (created.0, created.1)
unfolding create_block decode_hashes block_transactions decode_string create_block_reward_tx
    encode_to_string compute_transaction_hash from_hex_digit hex_digit int64_to_bytes
    compute_merkle_root log_prefixes compute_block_hash unhashed_block
created_ok = refl

-- The commitment as the other nodes know it.
abbrev shared : CommitmentSharedInfo
shared = record {
  commitment = codes "c";
  hash = codes "ab";
  public = record {
    message_sig_rx = [];
    message_sig_ry = encode_to_string (replicate 32 7);
    message_sig_s = codes "0b";
    message = codes "m";
    epoch_round = [];
  };
}

facts :
    (created.0.commitment_hash ≡ shared.hash)
    × (decode_string created.0.commitment_secret ≡ some (10 ∷ []))
    × (decode_string created.0.author ≡ some (1 ∷ 2 ∷ 3 ∷ 4 ∷ []))
unfolding create_block decode_hashes block_transactions decode_string pair_byte
    create_block_reward_tx encode_to_string compute_transaction_hash from_hex_digit hex_digit
    int64_to_bytes compute_merkle_root log_prefixes compute_block_hash unhashed_block
facts = (refl, refl, refl)

message_passes : check_message crypto (1 ∷ 2 ∷ 3 ∷ 4 ∷ []) shared.public (10 ∷ []) ≡ ok (passed [])
unfolding check_message verify_message decode_string pair_byte from_hex_digit encode_to_string
    hex_digit compress_point reverse_loop swap read
message_passes = refl

handed :
    (peer' : Ledger) × (logged : List BlockError) × (process_block crypto empty_ledger
        (new_block_transfer created.0 [])
        shared
      ≡ ok (peer', logged))
    × (peer'.blockchain
        ≡ (link_block crypto [] (received_block (new_block_transfer created.0 []))).0 ∷ [])
handed =
    process_block-create_block crypto public_key config empty_ledger created.1 empty_ledger creation
      (pos 5) (pos 6) created.0 [] shared (10 ∷ []) (1 ∷ 2 ∷ 3 ∷ 4 ∷ []) (1 ∷ 2 ∷ 3 ∷ 4 ∷ []) []
      created_ok facts.0 facts.1 facts.2 refl message_passes

process_block-create_block_example :
    (peer' : Ledger) × (logged : List BlockError) × (process_block crypto empty_ledger
        (new_block_transfer created.0 [])
        shared
      ≡ ok (peer', logged))
    × (peer'.blockchain
        ≡ (link_block crypto [] (received_block (new_block_transfer created.0 []))).0 ∷ [])
process_block-create_block_example =
    process_block-create_block crypto public_key config empty_ledger created.1 empty_ledger creation
      (pos 5) (pos 6) created.0 [] shared (10 ∷ []) (1 ∷ 2 ∷ 3 ∷ 4 ∷ []) (1 ∷ 2 ∷ 3 ∷ 4 ∷ []) []
      created_ok facts.0 facts.1 facts.2 refl message_passes

create_block-IsCreated_example :
    IsCreated crypto public_key config empty_ledger created.1 creation created.0
create_block-IsCreated_example =
    create_block-IsCreated crypto public_key config empty_ledger created.1 creation (pos 5) (pos 6)
      created.0 created_ok

process_block-IsAccepted_example :
    (handed.0 ≡ empty_ledger)
    ⊎ IsAccepted crypto empty_ledger handed.0 (new_block_transfer created.0 []) shared
process_block-IsAccepted_example =
    process_block-IsAccepted crypto empty_ledger handed.0 (new_block_transfer created.0 []) shared
      handed.1 handed.2

process_block_ignores_signature_example :
    ledger_of (process_block crypto empty_ledger (new_block_transfer created.0 []) shared)
    ≡ ledger_of (
        process_block
          (verifying crypto (λ key signature message. some false))
          empty_ledger
          (new_block_transfer created.0 [])
          shared)
process_block_ignores_signature_example =
    process_block_ignores_signature crypto (λ key signature message. some false) empty_ledger
      (new_block_transfer created.0 []) shared

-- The entry of the creating node's own map.
abbrev own_shared : CommitmentSharedInfo
own_shared = record { commitment = codes "c"; hash = codes "ab"; public = no_witness }

hashes_fact : decode_hashes created.0.transactions ≡ ok (replicate 32 64 ∷ [])
unfolding create_block decode_hashes block_transactions decode_string pair_byte
    create_block_reward_tx encode_to_string compute_transaction_hash from_hex_digit hex_digit
    int64_to_bytes compute_merkle_root log_prefixes compute_block_hash unhashed_block
hashes_fact = refl

root_fact : compute_merkle_root crypto (replicate 32 64 ∷ []) ≡ ok (replicate 32 0)
unfolding compute_merkle_root
root_fact = refl

process_block_own_commitment_example :
    process_block crypto empty_ledger (new_block_transfer created.0 []) own_shared ≡ panic
unfolding new_block_transfer create_block
process_block_own_commitment_example =
    process_block_own_commitment crypto empty_ledger (new_block_transfer created.0 []) own_shared
      (replicate 32 64 ∷ []) (replicate 32 0) (10 ∷ []) (1 ∷ 2 ∷ 3 ∷ 4 ∷ []) (1 ∷ 2 ∷ 3 ∷ 4 ∷ [])
      hashes_fact root_fact facts.0 facts.1 facts.2 refl refl

abbrev payment : Transaction
payment = record {
  hash = codes "0a";
  hash_mask = 0;
  created_at = pos 1;
  recipient = codes "01";
  sender = codes "02";
  amount = pos 3;
}

payment_hash : decode_string (codes "0a") ≡ some (10 ∷ [])
unfolding decode_string pair_byte from_hex_digit
payment_hash = refl

create_block-returns_example :
    (b : Block) × (l' : Ledger) × (create_block crypto public_key config empty_ledger
        (record creation { transactions = payment ∷ [] })
        (pos 5)
        (pos 6)
      ≡ ok (b, l'))
create_block-returns_example =
    create_block-returns crypto public_key crypto-IsDocumented config empty_ledger
      (record creation { transactions = payment ∷ [] }) (pos 5) (pos 6)
      ((10 ∷ [], payment_hash), tt) (omega arith)
