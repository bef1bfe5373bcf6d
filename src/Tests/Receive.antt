-- ===== src/Tests/Receive.antt =====
-- A block of another node, whose commitment was received and accepted two epochs before.
use ssle_dag.Prelude.{◌≡◌, refl, false, List, [], ok, codes, length}
use ssle_dag.Prelude.Int.{pos}
use ssle_dag.Prelude.Dict.{lookup, insert, copy_into, delete}
use ssle_dag.Messages.{Block, bchain_commitment, bchain_block, NetworkMessage}
use ssle_dag.Utils.Encoding.{
  encode_to_string, decode_string, from_hex_digit, hex_digit, int64_to_bytes, pair_byte,
  from_big_endian, u_int32_to_bytes,
}
use ssle_dag.Utils.Point.{compress_point, reverse_loop, swap, read}
use ssle_dag.Blockchain.{Ledger, delete_all}
use ssle_dag.Blockchain.Hashing.{
  compute_transaction_hash, compute_block_hash, decode_hashes, compute_merkle_root,
}
use ssle_dag.Blockchain.Create.{
  create_block, block_transactions, create_block_reward_tx, log_prefixes, unhashed_block,
}
use ssle_dag.Blockchain.Process.{
  process_block, add_block, check_block, check_hash, check_message, conclude, link_block,
  received_block, reference, reference_from, then_check_hash, verify_message,
}
use ssle_dag.P2p.Schedule.{new_block_transfer}
use ssle_dag.P2p.History.{history_loop}
use ssle_dag.P2p.Epochs.{Epochs, pass_to_epoch_ready, pass_to_epoch_running}
use ssle_dag.P2p.Epochs.Commitments.{
  Effect, store, sort_if_full, shared_info, start_generation, round_loop, check_round,
  take_commitment, process_commitment,
}
use ssle_dag.P2p.Epochs.Commitments.Steps.{Steps, then_step, ready, running}
use ssle_dag.P2p.Epochs.Commitments.Maps.{Steps-InMaps}
use ssle_dag.P2p.Epochs.Commitments.Steps as Steps
use ssle_dag.P2p.Dispatch.{
  Globals, received, process_network_message, process_message, start, next, message,
}
use ssle_dag.P2p.Dispatch.Extension.{IsExtension}
use ssle_dag.P2p.Dispatch.Origin.{Reach-IsExtension}
use ssle_dag.Start.{zero_globals}
use ssle_dag.Tests.Node.{no_tree}
use ssle_dag.P2p.Receive.{ReceiveEffect, process_bchain_block, process_found}
use ssle_dag.P2p.Receive.Vouched.{IsVouched, received-IsVouched, own-IsVouched}
use ssle_dag.Zkp.Base64.{
  base64_char, base64_encode, base64_value, base64_decode, decode_groups, last_group, last_one,
  last_two, next_three,
}
use ssle_dag.Zkp.Text.{
  add_first, split_at, slice, parse_digits, in_range, parse_uint, decimal, zero_padded,
}
use ssle_dag.Zkp.Message.{epoch_text, message_text, prepare_eddsa_message_length}
use ssle_dag.Zkp.Verify.{
  first_piece, second_piece, last_bytes, is_epoch, is_variant, check_epoch_round, check_variant,
  check_round_and_variant, check_public_witness, decode_others, decode_fields, judge,
  read_proof_text, read_witness_text, read_texts, commitment_base64_encode,
  commitment_base64_decode, decode_public_witness, is_commitment_valid,
}
use ssle_dag.Tests.Blocks.{crypto, public_key, empty_ledger, creation, blank, value_of}
use ssle_dag.Tests.Commitments.{gnark, text}
use ssle_dag.Tests.Network.{config, draws, no_epoch, no_epochs, no_block}

abbrev in_round_five : Epochs
in_round_five = record (no_epochs false) { dev = record no_epoch { epoch_round = 5 } }

abbrev commitment_message : NetworkMessage
commitment_message = record {
  id = codes "7";
  type = bchain_commitment;
  block_transfer = no_block;
  commitment = text;
  commitment_epoch_round = 5;
  extra_int = pos 0;
}

abbrev stored : Epochs × List Effect
stored =
    value_of (in_round_five, [])
      (process_commitment crypto.keccak256 (is_commitment_valid gnark config) config in_round_five
        commitment_message)

stored_ok :
    process_commitment crypto.keccak256
      (is_commitment_valid gnark config)
      config
      in_round_five
      commitment_message
    ≡ ok (stored.0, stored.1)
unfolding encode_to_string decode_string pair_byte from_hex_digit hex_digit base64_char
    base64_encode base64_value base64_decode decode_groups last_group last_one last_two next_three
    add_first split_at slice parse_digits in_range parse_uint decimal zero_padded epoch_text
    message_text prepare_eddsa_message_length first_piece second_piece last_bytes is_epoch
    is_variant check_epoch_round check_variant check_round_and_variant check_public_witness
    decode_others decode_fields judge read_proof_text read_witness_text read_texts
    commitment_base64_encode commitment_base64_decode decode_public_witness is_commitment_valid
    process_commitment take_commitment check_round history_loop shared_info store sort_if_full
    start_generation round_loop insert
stored_ok = refl

abbrev readied : Epochs
readied = value_of in_round_five (pass_to_epoch_ready stored.0)

readied_ok : pass_to_epoch_ready stored.0 ≡ ok readied
unfolding encode_to_string decode_string pair_byte from_hex_digit hex_digit base64_char
    base64_encode base64_value base64_decode decode_groups last_group last_one last_two next_three
    add_first split_at slice parse_digits in_range parse_uint decimal zero_padded epoch_text
    message_text prepare_eddsa_message_length first_piece second_piece last_bytes is_epoch
    is_variant check_epoch_round check_variant check_round_and_variant check_public_witness
    decode_others decode_fields judge read_proof_text read_witness_text read_texts
    commitment_base64_encode commitment_base64_decode decode_public_witness is_commitment_valid
    process_commitment take_commitment check_round history_loop shared_info store sort_if_full
    start_generation round_loop insert pass_to_epoch_ready
readied_ok = refl

steps :
    Steps crypto.keccak256
      (is_commitment_valid gnark config)
      draws
      config
      in_round_five
      (pass_to_epoch_running readied)
steps =
    then_step
      (then_step (then_step Steps.start (Steps.received commitment_message stored.1 stored_ok))
        (ready readied_ok))
      (running refl)

abbrev created : Block × Ledger
created =
    value_of (blank, empty_ledger)
      (create_block crypto public_key config empty_ledger
        (record creation { commitment_hash = encode_to_string (crypto.keccak256 text) }) (pos 5)
        (pos 6))

abbrev taken_over : Ledger × ReceiveEffect
taken_over =
    value_of (empty_ledger, ReceiveEffect.log_no_commitment)
      (process_bchain_block crypto config (pass_to_epoch_running readied) empty_ledger
        (new_block_transfer created.0 []))

-- The block was appended.
taken_over_ok :
    (process_bchain_block crypto config
        (pass_to_epoch_running readied)
        empty_ledger
        (new_block_transfer created.0 [])
      ≡ ok (taken_over.0, taken_over.1))
    × (length taken_over.0.blockchain ≡ 1)
unfolding encode_to_string decode_string pair_byte from_hex_digit hex_digit base64_char
    base64_encode base64_value base64_decode decode_groups last_group last_one last_two next_three
    add_first split_at slice parse_digits in_range parse_uint decimal zero_padded epoch_text
    message_text prepare_eddsa_message_length first_piece second_piece last_bytes is_epoch
    is_variant check_epoch_round check_variant check_round_and_variant check_public_witness
    decode_others decode_fields judge read_proof_text read_witness_text read_texts
    commitment_base64_encode commitment_base64_decode decode_public_witness is_commitment_valid
    process_commitment take_commitment check_round history_loop shared_info store sort_if_full
    start_generation round_loop insert pass_to_epoch_ready pass_to_epoch_running copy_into
    process_bchain_block new_block_transfer create_block decode_hashes block_transactions
    create_block_reward_tx compute_transaction_hash int64_to_bytes compute_merkle_root log_prefixes
    compute_block_hash unhashed_block process_found lookup add_block check_block check_hash
    check_message conclude link_block process_block received_block reference reference_from
    then_check_hash verify_message delete_all delete from_big_endian u_int32_to_bytes compress_point
    read reverse_loop swap
taken_over_ok = (refl, refl)

-- A node with these epochs and no block.
abbrev with_commitment : Globals
with_commitment = record zero_globals { epochs = pass_to_epoch_running readied }

abbrev block_message : NetworkMessage
block_message = record commitment_message {
  type = bchain_block;
  block_transfer = new_block_transfer created.0 [];
}

abbrev with_block : Globals
with_block = record with_commitment { ledger = taken_over.0 }

message_ok :
    process_network_message crypto
      (is_commitment_valid gnark config)
      draws
      no_tree
      public_key
      (codes "n")
      config
      0
      0
      with_commitment
      block_message
    ≡ ok (with_block, received taken_over.1)
unfolding process_network_message process_message
message_ok = rw taken_over_ok.0 refl

Reach-IsExtension_example :
    IsExtension gnark crypto draws no_tree public_key (codes "n") config empty_ledger taken_over.0
Reach-IsExtension_example =
    Reach-IsExtension gnark crypto draws no_tree public_key (codes "n") config with_commitment
      with_block
      (Steps-InMaps (IsVouched gnark crypto.keccak256 config) crypto.keccak256
        (is_commitment_valid gnark config) draws config
        (received-IsVouched gnark crypto.keccak256 config)
        (own-IsVouched gnark crypto.keccak256 config) in_round_five (pass_to_epoch_running readied)
        steps (tt, tt, tt))
      (next start (message 0 0 block_message (received taken_over.1) message_ok))
