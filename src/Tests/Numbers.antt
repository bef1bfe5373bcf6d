-- ===== src/Tests/Numbers.antt =====
-- node-implementation/utils.go, config.go and dag.go at concrete numbers.
use ssle_dag.Prelude.{
  ◌≡◌, refl, [], ◌∷◌, some, arith, ok, Bytes, codes, length, replicate, get_elem?,
}
use ssle_dag.Config.{Environment}
use ssle_dag.Utils.Encoding.{encode_to_string, decode_string, decode_string-encode_to_string}
use ssle_dag.Utils.Point.{compress_point, compress_point-returns}

abbrev environment : Environment
environment = record {
  nodes = 4;
  block_time_seconds = 10;
  dag_parallel_length = 8;
  epoch_size_rounds = 2;
  tx_per_block = 2;
  min_tx_to_split = 2;
  min_tx_to_merge = 1;
  random_shuffling_key = codes "0a";
  min_commitments = 1;
  max_commitments = 1;
}

decode_string-encode_to_string_example :
    decode_string (encode_to_string (10 ∷ 255 ∷ [])) ≡ some (10 ∷ 255 ∷ [])
decode_string-encode_to_string_example =
    decode_string-encode_to_string (10 ∷ 255 ∷ []) (omega arith, (omega arith, tt))

-- The last byte is the first one with the mask.
compress_point-returns_example :
    (z : Bytes) × (compress_point (7 ∷ replicate 31 9) 128 ≡ ok z)
    × (length z ≡ 32)
    × (get_elem? z 31 ≡ some 135)
compress_point-returns_example = compress_point-returns 7 (replicate 31 9) 128 31 refl (omega arith)
